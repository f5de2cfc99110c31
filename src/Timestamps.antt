-- ===== src/Timestamps.antt =====
-- include/general_util/od_generic_inline_util.h: Lamport timestamps and their comparisons.
pub mod Order
pub mod Generic
use odyssey_lib.Base.{
  Bool, Option, assert_if, false, if◌then◌else◌, ltb, some, ℕ, ◌&&◌, ◌==◌, ◌>>=◌, ◌>>◌, ◌||◌,
}

-- `compare_t`
pub data Compare : Type 0 where
  smaller : Compare
  equal : Compare
  greater : Compare
  error : Compare

-- `struct ts_tuple`
pub record TsTuple : Type 0 where
  pub m_id : ℕ  -- uint8_t
  pub version : ℕ  -- uint32_t

-- `struct network_ts_tuple`, which is packed
pub record NetworkTsTuple : Type 0 where
  pub version : ℕ  -- uint32_t
  pub m_id : ℕ  -- uint8_t

unfoldable pub compare_netw_ts : NetworkTsTuple → NetworkTsTuple → Compare
compare_netw_ts ts1 ts2 =
    if (ts1.version == ts2.version) && (ts1.m_id == ts2.m_id)
    then equal
    else if ltb ts1.version ts2.version || ((ts1.version == ts2.version) && ltb ts1.m_id ts2.m_id)
    then smaller
    else if ltb ts2.version ts1.version || ((ts1.version == ts2.version) && ltb ts2.m_id ts1.m_id)
    then greater
    else error

unfoldable pub compare_ts : TsTuple → TsTuple → Compare
compare_ts ts1 ts2 =
    if (ts1.version == ts2.version) && (ts1.m_id == ts2.m_id)
    then equal
    else if ltb ts1.version ts2.version || ((ts1.version == ts2.version) && ltb ts1.m_id ts2.m_id)
    then smaller
    else if ltb ts2.version ts1.version || ((ts1.version == ts2.version) && ltb ts2.m_id ts1.m_id)
    then greater
    else error

unfoldable pub compare_netw_ts_with_ts : NetworkTsTuple → TsTuple → Compare
compare_netw_ts_with_ts ts1 ts2 =
    if (ts1.version == ts2.version) && (ts1.m_id == ts2.m_id)
    then equal
    else if ltb ts1.version ts2.version || ((ts1.version == ts2.version) && ltb ts1.m_id ts2.m_id)
    then smaller
    else if ltb ts2.version ts1.version || ((ts1.version == ts2.version) && ltb ts2.m_id ts1.m_id)
    then greater
    else error

unfoldable pub compare_flat_ts : ℕ → ℕ → ℕ → ℕ → Compare
compare_flat_ts version1 m_id1 version2 m_id2 =
    if (version1 == version2) && (m_id1 == m_id2)
    then equal
    else if ltb version1 version2 || ((version1 == version2) && ltb m_id1 m_id2)
    then smaller
    else if ltb version2 version1 || ((version1 == version2) && ltb m_id2 m_id1)
    then greater
    else error

unfoldable pub compare_ts_with_flat : TsTuple → ℕ → ℕ → Compare
compare_ts_with_flat ts1 version2 m_id2 =
    if (ts1.version == version2) && (ts1.m_id == m_id2)
    then equal
    else if ltb ts1.version version2 || ((ts1.version == version2) && ltb ts1.m_id m_id2)
    then smaller
    else if ltb version2 ts1.version || ((ts1.version == version2) && ltb m_id2 ts1.m_id)
    then greater
    else error

unfoldable pub compare_ts_with_netw_ts : TsTuple → NetworkTsTuple → Compare
compare_ts_with_netw_ts ts1 ts2 =
    if (ts1.version == ts2.version) && (ts1.m_id == ts2.m_id)
    then equal
    else if ltb ts1.version ts2.version || ((ts1.version == ts2.version) && ltb ts1.m_id ts2.m_id)
    then smaller
    else if ltb ts2.version ts1.version || ((ts1.version == ts2.version) && ltb ts2.m_id ts1.m_id)
    then greater
    else error

-- The functions return the tuple that `*ts1` becomes.
unfoldable pub assign_ts_to_netw_ts : TsTuple → NetworkTsTuple
assign_ts_to_netw_ts ts2 = record { m_id = ts2.m_id; version = ts2.version }

unfoldable pub assign_netw_ts_to_ts : NetworkTsTuple → TsTuple
assign_netw_ts_to_ts ts2 = record { m_id = ts2.m_id; version = ts2.version }

abbrev pub regular_ts : ℕ
regular_ts = 0

abbrev pub netw_ts : ℕ
netw_ts = 1

abbrev pub meta_ts : ℕ
meta_ts = 2

-- The memory behind a pointer that `compare_ts_generic` takes, read as either of the two types.
pub record TsMemory : Type 0 where
  pub as_ts : TsTuple
  pub as_netw : NetworkTsTuple

-- One of the two `switch` statements: the version and machine that it leaves, where the variables
-- start with those of `initial`. `assertions` stands for ENABLE_ASSERTIONS.
unfoldable pub ts_by_flag : Bool → TsTuple → TsMemory → ℕ → Option (ℕ × ℕ)
ts_by_flag assertions initial ts flag =
    if (flag == netw_ts) || (flag == meta_ts)
    then some (ts.as_netw.version, ts.as_netw.m_id)
    else if flag == regular_ts
    then some (initial.version, initial.m_id)
    else (assert_if assertions false >> some (initial.version, initial.m_id))

-- Both pairs of variables start with the fields of `ts1`.
unfoldable pub compare_ts_generic : Bool → TsMemory → ℕ → TsMemory → ℕ → Option Compare
compare_ts_generic assertions ts1 flag1 ts2 flag2 = do
  (version1, m_id1) ← ts_by_flag assertions ts1.as_ts ts1 flag1
  (version2, m_id2) ← ts_by_flag assertions ts1.as_ts ts2 flag2
  some (compare_flat_ts version1 m_id1 version2 m_id2)

unfoldable pub compare_carts_esoteric : Bool → Compare → ℕ → ℕ → Option Compare
compare_carts_esoteric assertions equal log1 log2 =
    some (if ltb log2 log1 then greater else if log1 == log2 then equal else smaller)
compare_carts_esoteric assertions greater log1 log2 = some greater
compare_carts_esoteric assertions smaller log1 log2 = some smaller
compare_carts_esoteric assertions error log1 log2 = assert_if assertions false >> some smaller

unfoldable pub compare_carts : Bool → TsTuple → ℕ → TsTuple → ℕ → Option Compare
compare_carts assertions ts1 log1 ts2 log2 =
    compare_carts_esoteric assertions (compare_ts ts1 ts2) log1 log2

unfoldable pub compare_netw_carts_with_carts :
    Bool → NetworkTsTuple → ℕ → TsTuple → ℕ → Option Compare
compare_netw_carts_with_carts assertions ts1 log1 ts2 log2 =
    compare_carts_esoteric assertions (compare_netw_ts_with_ts ts1 ts2) log1 log2

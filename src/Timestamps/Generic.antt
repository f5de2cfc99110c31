-- ===== src/Timestamps/Generic.antt =====
-- `compare_ts_generic` reads its second timestamp only where that has a network layout.
use odyssey_lib.Base.{Bool, arith, refl, some, ℕ, ◌≡◌}
use odyssey_lib.Timestamps.{
  Compare, TsMemory, compare_flat_ts, compare_netw_ts, compare_netw_ts_with_ts, compare_ts_generic,
  compare_ts_with_netw_ts, equal, meta_ts, netw_ts, regular_ts, ts_by_flag,
}

abbrev pub Compares : Bool → TsMemory → TsMemory → ℕ → ℕ → Compare → Type 0
Compares b ts1 ts2 flag1 flag2 c = compare_ts_generic b ts1 flag1 ts2 flag2 ≡ some c

-- For each pair of the flags REGULAR_TS, NETW_TS and META_TS: the first argument is read as its flag
-- says, and the second too when its flag is NETW_TS or META_TS. With REGULAR_TS for the second, that one
-- is never read: `ts1` is compared with itself as a `ts_tuple`, so two regular timestamps always
-- compare as EQUAL.
pub compare_ts_generic_lem :
    (b : Bool) (ts1 ts2 : TsMemory)
    → Compares b ts1 ts2 regular_ts netw_ts (compare_ts_with_netw_ts ts1.as_ts ts2.as_netw)
      × Compares b ts1 ts2 regular_ts meta_ts (compare_ts_with_netw_ts ts1.as_ts ts2.as_netw)
      × Compares b ts1 ts2 netw_ts netw_ts (compare_netw_ts ts1.as_netw ts2.as_netw)
      × Compares b ts1 ts2 netw_ts meta_ts (compare_netw_ts ts1.as_netw ts2.as_netw)
      × Compares b ts1 ts2 meta_ts netw_ts (compare_netw_ts ts1.as_netw ts2.as_netw)
      × Compares b ts1 ts2 meta_ts meta_ts (compare_netw_ts ts1.as_netw ts2.as_netw)
      × Compares b ts1 ts2 regular_ts regular_ts equal
      × Compares b ts1 ts2 netw_ts regular_ts (compare_netw_ts_with_ts ts1.as_netw ts1.as_ts)
      × Compares b ts1 ts2 meta_ts regular_ts (compare_netw_ts_with_ts ts1.as_netw ts1.as_ts)
unfolding compare_ts_generic ts_by_flag compare_flat_ts compare_ts_with_netw_ts compare_netw_ts
    compare_netw_ts_with_ts
compare_ts_generic_lem b ts1 ts2 = (refl, refl, refl, refl, refl, refl, ground arith, refl, refl)

-- ===== src/Kvs.antt =====
-- mica/od_kvs.c, include/mica/od_kvs.h: the hash table of the key-value store. An array of buckets
-- of 8 slots leads from a key's bucket number and tag to an entry of a log.
pub mod Slots
pub mod Insert
pub mod Found
pub mod Room
use odyssey_lib.Base.{
  Bool, List, Option, [], assert_that, false, if◌then◌else◌, leb, ltb, map, none, not, replicate,
  set, some, suc, true, u64, zero, ℕ, ◌%◌, ◌&&◌, ◌*◌, ◌+◌, ◌-◌, ◌/◌, ◌==◌, ◌>>=◌, ◌>>◌, ◌^◌, ◌||◌,
  ◌∷◌,
}
use odyssey_lib.Config.{kvs_num_keys}
use odyssey_lib.Quorum.Vector.{usable}

-- `struct key`
pub record MicaKey : Type 0 where
  pub bkt : ℕ  -- 32 bits
  pub server : ℕ  -- 16 bits
  pub tag : ℕ  -- 16 bits

pub record MicaSlot : Type 0 where
  pub in_use : Bool
  pub tag : ℕ  -- 23 bits
  pub offset : ℕ  -- MICA_LOG_BITS

abbrev pub mica_log_bits : ℕ
mica_log_bits = 40

-- `mica_kv_t`, for a type of entries that the protocol declares (`mica_op_t`). `ht_log` tells which
-- entry has been pasted at an address. The masks are left out: `num_bkts` and `log_cap` are powers
-- of 2, so a mask is a remainder.
pub record MicaKv (Op : Type 0) : Type 0 where
  pub ht_index : ℕ → List MicaSlot
  pub ht_log : ℕ → Option Op
  pub num_bkts : ℕ
  pub log_cap : ℕ
  pub log_head : ℕ
  pub num_insert_op : ℕ
  pub num_index_evictions : ℕ

abbrev pub free_slot : MicaSlot
free_slot = record { in_use = false; tag = 0; offset = 0 }

abbrev pub update {ℓ} : {A : Type ℓ} → (ℕ → A) → ℕ → A → ℕ → A
update f i a k = if i == k then a else f k

unfoldable pub is_power_of_2_below : ℕ → ℕ → Bool
is_power_of_2_below zero x = false
is_power_of_2_below (suc n) x =
    let rest = is_power_of_2_below n x in if x == 2 ^ n then true else rest

-- 2^30 is the largest power that the code lists.
unfoldable pub is_power_of_2 : ℕ → Bool
is_power_of_2 x = is_power_of_2_below 31 x

abbrev pub slot_matches : ℕ → MicaSlot → Bool
slot_matches tag s = s.in_use && (s.tag == tag)

-- The loop of `mica_insert_one` over the slots, from slot `i` on; `slot_to_use` is none for -1.
-- The outer none is the assertion against an equal tag.
unfoldable pub find_slot : ℕ → List MicaSlot → ℕ → Option ℕ → Option (Option ℕ)
find_slot tag [] i slot_to_use = some slot_to_use
find_slot tag (s ∷ ss) i slot_to_use =
    let usable = (s.tag == tag) || not s.in_use in
    let rest = find_slot tag ss (i + 1) (if usable then some i else slot_to_use) in
    if slot_matches tag s then none else rest

-- The loop of `KVS_locate_one_kv_pair`.
unfoldable pub first_match : ℕ → List MicaSlot → Option MicaSlot
first_match tag [] = none
first_match tag (s ∷ ss) =
    let rest = first_match tag ss in if slot_matches tag s then some s else rest

-- `op_size` is sizeof(mica_op_t), `mica_op_size` is MICA_OP_SIZE, both of the protocol's header.
module _ {Op : Type 0} (key_of : Op → MicaKey) (op_size mica_op_size : ℕ) where
  -- none where an assertion fails
  unfoldable pub mica_init : ℕ → ℕ → ℕ → MicaKv Op → Option (MicaKv Op)
  mica_init node_id num_bkts log_cap kvs = do
    assert_that (op_size % 64 == 0)
    assert_that ((node_id == 0) || (node_id == 1))
    assert_that (is_power_of_2 num_bkts && leb num_bkts 16_777_216)
    some (record kvs {
      ht_index = λ b. replicate 8 free_slot;
      num_bkts = num_bkts;
      log_cap = log_cap;
      log_head = 0;
    })

  abbrev pub bkt_of : MicaKv Op → MicaKey → ℕ
  bkt_of kvs key = key.bkt % kvs.num_bkts

  -- the head of the log after an entry, moved on to a multiple of 8
  abbrev pub next_head : ℕ → ℕ
  next_head log_head = (u64 (log_head + op_size) + 7) / 8 * 8

  abbrev pub new_slot : MicaKv Op → Op → MicaSlot
  new_slot kvs op = record {
    in_use = true;
    tag = (key_of op).tag;
    offset = kvs.log_head % 2 ^ mica_log_bits;
  }

  -- The table once the slot is found and the entry pasted.
  abbrev pub place : MicaKv Op → Op → ℕ → MicaKv Op
  place kvs op slot_to_use =
      let bkt = bkt_of kvs (key_of op) in
      record kvs {
        ht_index = update kvs.ht_index bkt (set (kvs.ht_index bkt) slot_to_use (new_slot kvs op));
        ht_log = update kvs.ht_log (kvs.log_head % kvs.log_cap) (some op);
        log_head = next_head kvs.log_head;
        num_insert_op = kvs.num_insert_op + 1;
      }

  -- none where an assertion fails: an equal tag, a full bucket, a log that is full
  unfoldable pub mica_insert_one : MicaKv Op → Op → Option (MicaKv Op)
  mica_insert_one kvs op = do
    slot ← find_slot (key_of op).tag (kvs.ht_index (bkt_of kvs (key_of op))) 0 none
    slot_to_use ← slot
    assert_that (ltb (op_size + 8) (u64 (2 ^ mica_log_bits + 2 ^ 64 - kvs.log_head)))
    assert_that
        (not (leb (u64 (kvs.log_cap + 2 ^ 64 - next_head kvs.log_head)) (mica_op_size + 32)))
    some (place kvs op slot_to_use)

  -- The rounds of `custom_mica_populate_fixed_len` for `n` keys from `key_id` on; `op_for` is the
  -- entry filled in for a key id, whose key CityHash128 gives.
  unfoldable pub populate_loop : (ℕ → Op) → ℕ → ℕ → MicaKv Op → Option (MicaKv Op)
  populate_loop op_for zero key_id kvs = some kvs
  populate_loop op_for (suc n) key_id kvs =
      mica_insert_one kvs (op_for key_id) >>= (λ kvs'. populate_loop op_for n (key_id + 1) kvs')

  unfoldable pub custom_mica_populate_fixed_len : (ℕ → Op) → MicaKv Op → ℕ → Option (MicaKv Op)
  custom_mica_populate_fixed_len op_for kvs n = do
    assert_that (ltb 0 n)
    assert_that ((kvs.num_insert_op == 0) && (kvs.num_index_evictions == 0))
    kvs' ← populate_loop op_for kvs_num_keys 0 kvs
    assert_that (kvs'.num_insert_op == n)
    some kvs'

  -- The pointer that `KVS_locate_one_kv_pair` leaves, as an address of the log.
  unfoldable pub locate_one_kv_pair : MicaKv Op → List MicaSlot → ℕ → Option ℕ
  locate_one_kv_pair kvs slots tag = first_match tag slots >>= (λ s.
      if leb kvs.log_cap (u64 (kvs.log_head + 2 ^ 64 - s.offset))
      then none
      else some (s.offset % kvs.log_cap))

  -- `KVS_locate_one_bucket` and `KVS_locate_one_kv_pair`
  unfoldable pub locate : MicaKv Op → MicaKey → Option ℕ
  locate kvs key = locate_one_kv_pair kvs (kvs.ht_index (bkt_of kvs key)) key.tag

  unfoldable pub locate_all : MicaKv Op → List MicaKey → List (Option ℕ)
  locate_all kvs keys = map (locate kvs) keys

  -- the entry that the pointer leads to
  unfoldable pub entry : MicaKv Op → MicaKey → Option Op
  entry kvs key = locate kvs key >>= kvs.ht_log

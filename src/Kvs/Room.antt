-- ===== src/Kvs/Room.antt =====
-- When an insertion succeeds, and the table that `mica_init` makes.
use odyssey_lib.Base.{
  Bool-cases, List, Option, [], ap, arith, assert_that-cases, false, get_or, inl, inr, leb, length,
  ltb, lt→leb_false, lt→ltb, none, none-ne_some, not, or_right, refl, replicate, some,
  some_injective, subst, suc, sym, true, true-ne_false, u64, zero, ℕ, ◌%◌, ◌&&◌, ◌*◌, ◌+◌, ◌-◌, ◌<◌,
  ◌==◌, ◌^◌, ◌||◌, ◌∙◌, ◌∷◌, ◌≡◌, ◌≤◌,
}
use odyssey_lib.Kvs.{
  MicaKey, MicaKv, MicaSlot, entry, find_slot, first_match, free_slot, is_power_of_2, locate,
  locate_one_kv_pair, mica_init, mica_insert_one, mica_log_bits, next_head, slot_matches,
}
use odyssey_lib.Kvs.Insert.{IsValid, result, slots}
use odyssey_lib.Quorum.Vector.{usable}

find_slot-keep :
    (tag : ℕ) (ss : List MicaSlot) (i k : ℕ)
    → first_match tag ss ≡ none
    → (j : ℕ) × (find_slot tag ss i (some k) ≡ some (some j))
unfolding find_slot first_match
find_slot-keep tag [] i k absent = (k, refl)
find_slot-keep tag (s ∷ ss) i k absent = elim (Bool-cases (slot_matches tag s)) [
  | inl same ↦ absurd (none-ne_some (sym (rw same at absent)))
  | inr other ↦ elim (Bool-cases ((s.tag == tag) || not s.in_use)) [
    | inl usable ↦ rw (other, usable) (find_slot-keep tag ss (i + 1) i (rw other at absent))
    | inr taken ↦ rw (other, taken) (find_slot-keep tag ss (i + 1) k (rw other at absent))
  ]
]

find_slot-room :
    (tag : ℕ) (ss : List MicaSlot) (i p : ℕ) (acc : Option ℕ)
    → first_match tag ss ≡ none
    → p < length ss
    → (get_or ss p free_slot).in_use ≡ false
    → (j : ℕ) × (find_slot tag ss i acc ≡ some (some j))
unfolding find_slot first_match
find_slot-room tag [] i p acc absent lt free = absurd (omega arith)
find_slot-room tag (s ∷ ss) i zero acc absent lt free =
    let usable : ((s.tag == tag) || not s.in_use) ≡ true = or_right (s.tag == tag) (ap not free) in
    let other : slot_matches tag s ≡ false = rw free refl in
    rw (other, usable) (find_slot-keep tag ss (i + 1) i (rw other at absent))
find_slot-room tag (s ∷ ss) i (suc p) acc absent lt free = elim (Bool-cases (slot_matches tag s)) [
  | inl same ↦ absurd (none-ne_some (sym (rw same at absent)))
  | inr other ↦ rw other (find_slot-room tag ss (i + 1) p _ (rw other at absent) (omega arith) free)
]

free_everywhere : (n i : ℕ) → (get_or (replicate n free_slot) i free_slot).in_use ≡ false
free_everywhere zero i = refl
free_everywhere (suc n) zero = refl
free_everywhere (suc n) (suc i) = free_everywhere n i

module _ {Op : Type 0} (key_of : Op → MicaKey) (op_size mica_op_size : ℕ)
    (fits : op_size ≤ mica_op_size) where
  -- For entries of at most MICA_OP_SIZE bytes, an insertion into a valid table passes its assertions when no slot of the bucket has the tag, one
  -- is free, and the log keeps 40 bytes more than two entries of MICA_OP_SIZE.
  pub mica_insert_one-returns :
      (kvs : MicaKv Op) (op : Op) (p : ℕ)
      → IsValid op_size mica_op_size kvs
      → first_match (key_of op).tag (slots key_of op_size mica_op_size kvs op) ≡ none
      → p < length (slots key_of op_size mica_op_size kvs op)
      → (get_or (slots key_of op_size mica_op_size kvs op) p free_slot).in_use ≡ false
      → kvs.log_head + 2 * mica_op_size + 40 < kvs.log_cap
      → (kvs' : MicaKv Op) × (mica_insert_one key_of op_size mica_op_size kvs op ≡ some kvs')
  unfolding mica_insert_one
  mica_insert_one-returns kvs op p v absent lt free room =
      let (j, found) =
        find_slot-room (key_of op).tag (slots key_of op_size mica_op_size kvs op) 0 p none absent lt
          free in
      let virtual : ltb (op_size + 8) (u64 (2 ^ mica_log_bits + 2 ^ 64 - kvs.log_head)) ≡ true =
        lt→ltb _ _ (omega (arith, room, v.small_log, fits)) in
      let physical : leb
            (u64 (kvs.log_cap + 2 ^ 64 - next_head key_of op_size mica_op_size kvs.log_head))
            (mica_op_size + 32)
          ≡ false =
        lt→leb_false (omega (arith, room, v.small_log, fits)) in
      (result key_of op_size mica_op_size kvs op j, rw (found, virtual, physical) refl)

  abbrev initial : ℕ → ℕ → MicaKv Op → MicaKv Op
  initial num_bkts log_cap kvs = record kvs {
    ht_index = λ b. replicate 8 free_slot;
    num_bkts = num_bkts;
    log_cap = log_cap;
    log_head = 0;
  }

  initial-IsValid :
      (num_bkts log_cap : ℕ) (kvs : MicaKv Op)
      → mica_op_size + 32 < log_cap
      → log_cap ≤ 2 ^ mica_log_bits
      → IsValid op_size mica_op_size (initial num_bkts log_cap kvs)
  initial-IsValid num_bkts log_cap kvs room small = record {
    eight = λ b. refl;
    below = λ b i used. absurd (true-ne_false (sym used ∙ free_everywhere 8 i));
    room = omega (arith, room);
    small_log = small;
  }

  initial-empty :
      (num_bkts log_cap : ℕ) (kvs : MicaKv Op) (key : MicaKey)
      → entry key_of op_size mica_op_size (initial num_bkts log_cap kvs) key ≡ none
  unfolding entry locate locate_one_kv_pair first_match
  initial-empty num_bkts log_cap kvs key = refl

  mica_init-initial :
      (node_id num_bkts log_cap : ℕ) (kvs kvs' : MicaKv Op)
      → mica_init key_of op_size mica_op_size node_id num_bkts log_cap kvs ≡ some kvs'
      → initial num_bkts log_cap kvs ≡ kvs'
  unfolding mica_init
  mica_init-initial node_id num_bkts log_cap kvs kvs' h =
      let h1 = assert_that-cases {b = op_size % 64 == 0} h in
      let h2 = assert_that-cases {b = (node_id == 0) || (node_id == 1)} h1.1 in
      let h3 = assert_that-cases {b = is_power_of_2 num_bkts && leb num_bkts 16_777_216} h2.1 in
      some_injective h3.1

  -- What `mica_init` returns is valid, for a log of at most 2^MICA_LOG_BITS bytes with room for an
  -- entry, and no key leads anywhere in it.
  pub mica_init-IsValid :
      (node_id num_bkts log_cap : ℕ) (kvs kvs' : MicaKv Op) (key : MicaKey)
      → mica_op_size + 32 < log_cap
      → log_cap ≤ 2 ^ mica_log_bits
      → mica_init key_of op_size mica_op_size node_id num_bkts log_cap kvs ≡ some kvs'
      → IsValid op_size mica_op_size kvs' × (entry key_of op_size mica_op_size kvs' key ≡ none)
  mica_init-IsValid node_id num_bkts log_cap kvs kvs' key room small h =
      subst (λ t. IsValid op_size mica_op_size t × (entry key_of op_size mica_op_size t key ≡ none))
        (mica_init-initial node_id num_bkts log_cap kvs kvs' h)
        (initial-IsValid num_bkts log_cap kvs room small, initial-empty num_bkts log_cap kvs key)

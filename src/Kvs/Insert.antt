-- ===== src/Kvs/Insert.antt =====
-- An entry that is inserted is found again, and those before it stay.
use odyssey_lib.Base.{
  ==→eq, Bool-cases, List, Option, Option-cases, ap, arith, assert_that-cases, eq→==, false, get_or,
  if◌then◌else◌, inl, inr, leb, length, lt→leb_false, mod_small, ne→==_false, none, none-ne_some,
  not_true→false, refl, set, some, some_injective, subst, sym, true, u64, zero_add, ℕ, ◌%◌, ◌+◌,
  ◌-◌, ◌<◌, ◌==◌, ◌>>=◌, ◌^◌, ◌∙◌, ◌≡◌, ◌≢◌, ◌≤◌,
}
use odyssey_lib.Kvs.{
  MicaKey, MicaKv, MicaSlot, bkt_of, entry, find_slot, first_match, free_slot, locate,
  locate_one_kv_pair, mica_insert_one, mica_log_bits, new_slot, next_head, place, slot_matches,
}
use odyssey_lib.Kvs.Slots.{
  find_slot-Usable, find_slot-none, first_match-in, first_match-set, first_match-set_other,
}

-- Between two calls each bucket has 8 slots, each entry lies below the head of the log, and the log
-- has room.
pub record IsValid {Op : Type 0} (op_size mica_op_size : ℕ) (kvs : MicaKv Op) : Type 0 where
  pub eight : (b : ℕ) → length (kvs.ht_index b) ≡ 8
  pub below :
      (b i : ℕ)
      → (get_or (kvs.ht_index b) i free_slot).in_use ≡ true
      → (get_or (kvs.ht_index b) i free_slot).offset + op_size ≤ kvs.log_head
  pub room : kvs.log_head + mica_op_size + 32 < kvs.log_cap
  pub small_log : kvs.log_cap ≤ 2 ^ mica_log_bits

module _ {Op : Type 0} (key_of : Op → MicaKey) (op_size mica_op_size : ℕ) (kvs : MicaKv Op)
    (op : Op) where
  abbrev pub slots : List MicaSlot
  slots = kvs.ht_index (bkt_of key_of op_size mica_op_size kvs (key_of op))

  abbrev pub result : ℕ → MicaKv Op
  result slot = place key_of op_size mica_op_size kvs op slot

  -- what a successful insertion has checked
  pub record Inserted (kvs' : MicaKv Op) : Type 0 where
    pub slot : ℕ
    pub no_equal : first_match (key_of op).tag slots ≡ none
    pub in_range : slot < length slots
    pub unused : (get_or slots slot free_slot).in_use ≡ false
    pub room_left :
        leb
          (u64 (kvs.log_cap + 2 ^ 64 - next_head key_of op_size mica_op_size kvs.log_head))
          (mica_op_size + 32)
        ≡ false
    pub placed : kvs' ≡ result slot

  pub mica_insert_one-Inserted :
      (kvs' : MicaKv Op)
      → mica_insert_one key_of op_size mica_op_size kvs op ≡ some kvs'
      → Inserted kvs'
  unfolding mica_insert_one
  mica_insert_one-Inserted kvs' h = elim (Option-cases (find_slot (key_of op).tag slots 0 none)) [
    | inl clash ↦ absurd (none-ne_some (rw clash at h))
    | inr (none, full) ↦ absurd (none-ne_some (rw full at h))
    | inr (some slot, found) ↦
        let (ok1, h1) = assert_that-cases (rw found at h) in
        let (ok2, h2) = assert_that-cases h1 in
        elim (find_slot-Usable (key_of op).tag slots 0 none slot found) [
          | inl e ↦ absurd (none-ne_some e)
          | inr (p, e, lt, free) ↦
              let same : slot ≡ p = e ∙ zero_add p in
              record {
                slot = p;
                no_equal = find_slot-none (key_of op).tag slots 0 none (some slot) found;
                in_range = lt;
                unused = free;
                room_left = not_true→false ok2;
                placed = sym (some_injective h2) ∙ ap result same;
              }
        ]
  ]

  module _ (v : IsValid op_size mica_op_size kvs) (some_size : 0 < op_size)
      (fits : op_size ≤ mica_op_size) where
    pub next_head-bounds :
        (kvs.log_head + op_size ≤ next_head key_of op_size mica_op_size kvs.log_head)
        × (next_head key_of op_size mica_op_size kvs.log_head < kvs.log_cap)
    next_head-bounds = (omega (arith, v.room, v.small_log), omega (arith, v.room, v.small_log))

    pub slot-here :
        (slot : ℕ)
        → (result slot).ht_index (bkt_of key_of op_size mica_op_size kvs (key_of op))
          ≡ set slots slot (new_slot key_of op_size mica_op_size kvs op)
    slot-here slot = rw (eq→== (bkt_of key_of op_size mica_op_size kvs (key_of op)) _ refl) refl

    -- the entry that a slot leads to
    abbrev entry_of : MicaKv Op → Option MicaSlot → Option Op
    entry_of t o =
        (o >>= (λ s.
          if leb t.log_cap (u64 (t.log_head + 2 ^ 64 - s.offset))
          then none
          else some (s.offset % t.log_cap)))
        >>= t.ht_log

    new_slot-entry :
        (slot : ℕ)
        → entry_of (result slot) (some (new_slot key_of op_size mica_op_size kvs op)) ≡ some op
    new_slot-entry slot =
        let (low, high) = next_head-bounds in
        let o : kvs.log_head % 2 ^ mica_log_bits ≡ kvs.log_head =
          omega (arith, high, low, v.small_log) in
        let fresh : leb kvs.log_cap
              (u64 (next_head key_of op_size mica_op_size kvs.log_head + 2 ^ 64 - kvs.log_head))
            ≡ false =
          lt→leb_false (omega (arith, high, low, v.small_log)) in
        let here : ((kvs.log_head % kvs.log_cap) == (kvs.log_head % kvs.log_cap)) ≡ true =
          eq→== (kvs.log_head % kvs.log_cap) _ refl in
        rw (o, fresh, here) refl

    old_slot-entry :
        (slot : ℕ) (s : MicaSlot)
        → s.offset + op_size ≤ kvs.log_head
        → entry_of (result slot) (some s) ≡ entry_of kvs (some s)
    old_slot-entry slot s old =
        let (low, high) = next_head-bounds in
        let fresh' : leb kvs.log_cap
              (u64 (next_head key_of op_size mica_op_size kvs.log_head + 2 ^ 64 - s.offset))
            ≡ false =
          lt→leb_false (omega (arith, high, low, old, v.small_log)) in
        let fresh : leb kvs.log_cap (u64 (kvs.log_head + 2 ^ 64 - s.offset)) ≡ false =
          lt→leb_false (omega (arith, old, v.room, v.small_log)) in
        let h : kvs.log_head % kvs.log_cap ≡ kvs.log_head = mod_small (omega (arith, v.room)) in
        let o : s.offset % kvs.log_cap ≡ s.offset = mod_small (omega (arith, v.room, old)) in
        let apart : (kvs.log_head == s.offset) ≡ false =
          ne→==_false kvs.log_head s.offset (omega (arith, old, some_size)) in
        rw (fresh', fresh, h, o, apart) refl

    pub result-found :
        (slot : ℕ)
        → first_match (key_of op).tag slots ≡ none
        → slot < length slots
        → entry key_of op_size mica_op_size (result slot) (key_of op) ≡ some op
    unfolding entry locate locate_one_kv_pair
    result-found slot absent lt =
        let m =
          first_match-set (key_of op).tag slots slot (new_slot key_of op_size mica_op_size kvs op)
            absent lt (eq→== (key_of op).tag _ refl) in
        ap (λ ss. entry_of (result slot) (first_match (key_of op).tag ss)) (slot-here slot)
        ∙ ap (entry_of (result slot)) m
        ∙ new_slot-entry slot

    -- What the index says of another key.
    first_match-kept :
        (slot : ℕ) (key : MicaKey)
        → (get_or slots slot free_slot).in_use ≡ false
        → ((bkt_of key_of op_size mica_op_size kvs key
              ≡ bkt_of key_of op_size mica_op_size kvs (key_of op))
            → key.tag ≢ (key_of op).tag)
        → first_match key.tag ((result slot).ht_index (bkt_of key_of op_size mica_op_size kvs key))
          ≡ first_match key.tag (kvs.ht_index (bkt_of key_of op_size mica_op_size kvs key))
    first_match-kept slot key free differs =
        elim (Bool-cases (
          bkt_of key_of op_size mica_op_size kvs (key_of op)
          == bkt_of key_of op_size mica_op_size kvs key)) [
            | inr other ↦ rw other refl
            | inl same ↦
                let e =
                  ==→eq (bkt_of key_of op_size mica_op_size kvs (key_of op))
                    (bkt_of key_of op_size mica_op_size kvs key) same in
                let tags : ((key_of op).tag == key.tag) ≡ false =
                  ne→==_false (key_of op).tag key.tag (λ t. differs (sym e) (sym t)) in
                let old : slot_matches key.tag (get_or slots slot free_slot) ≡ false =
                  rw free refl in
                rw same (
                  first_match-set_other key.tag slots slot
                    (new_slot key_of op_size mica_op_size kvs op) old tags
                  ∙ ap (λ b. first_match key.tag (kvs.ht_index b)) e)
          ]

    pub result-kept :
        (slot : ℕ) (key : MicaKey)
        → (get_or slots slot free_slot).in_use ≡ false
        → ((bkt_of key_of op_size mica_op_size kvs key
              ≡ bkt_of key_of op_size mica_op_size kvs (key_of op))
            → key.tag ≢ (key_of op).tag)
        → entry key_of op_size mica_op_size (result slot) key
          ≡ entry key_of op_size mica_op_size kvs key
    unfolding entry locate locate_one_kv_pair
    result-kept slot key free differs =
        ap (entry_of (result slot)) (first_match-kept slot key free differs)
        ∙ elim (Option-cases
            (first_match key.tag (kvs.ht_index (bkt_of key_of op_size mica_op_size kvs key)))) [
              | inl absent ↦ rw absent refl
              | inr (s, found) ↦
                  let (i, at, used) = first_match-in key.tag _ s found in
                  let old : s.offset + op_size ≤ kvs.log_head =
                    subst (λ t. t.offset + op_size ≤ kvs.log_head) at
                      (v.below _ i (ap (λ t. t.in_use) at ∙ used)) in
                  rw found (old_slot-entry slot s old)
            ]

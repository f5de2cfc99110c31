-- ===== src/Kvs/Found.antt =====
-- What is in the table after insertions.
use odyssey_lib.Base.{
  Bool-cases, Option-cases, ap, arith, get_or, get_or-set_ne, get_or-set_self, inl, inr, length,
  length-set, none, none-ne_some, set, some, some_injective, subst, suc, sym, true, zero, ℕ,
  ℕ_discrete, ◌+◌, ◌<◌, ◌==◌, ◌∙◌, ◌≡◌, ◌≢◌, ◌≤◌,
}
use odyssey_lib.Kvs.{
  MicaKey, MicaKv, MicaSlot, bkt_of, entry, first_match, free_slot, locate, locate_one_kv_pair,
  mica_insert_one, new_slot, next_head, populate_loop,
}
use odyssey_lib.Kvs.Insert.{
  IsValid, mica_insert_one-Inserted, next_head-bounds, result, result-found, result-kept,
}

module _ {Op : Type 0} (key_of : Op → MicaKey) (op_size mica_op_size : ℕ) (some_size : 0 < op_size)
    (fits : op_size ≤ mica_op_size) where
  bucket-IsValid :
      (kvs : MicaKv Op) (op : Op) (slot b i : ℕ)
      → IsValid op_size mica_op_size kvs
      → slot < 8
      → (length ((result key_of op_size mica_op_size kvs op slot).ht_index b) ≡ 8)
        × ((get_or ((result key_of op_size mica_op_size kvs op slot).ht_index b) i free_slot).in_use
              ≡ true
            → (get_or
                  ((result key_of op_size mica_op_size kvs op slot).ht_index b)
                  i
                  free_slot).offset
                + op_size
              ≤ next_head key_of op_size mica_op_size kvs.log_head)
  bucket-IsValid kvs op slot b i v lt =
      let (low, high) = next_head-bounds key_of op_size mica_op_size kvs op v some_size fits in
      let here = bkt_of key_of op_size mica_op_size kvs (key_of op) in
      let new = new_slot key_of op_size mica_op_size kvs op in
      elim (Bool-cases (here == b)) [
        | inr other ↦ rw other (v.eight b, λ used. omega (arith, v.below b i used, low))
        | inl same ↦ rw same (
          length-set (kvs.ht_index here) slot new ∙ v.eight here,
          elim (ℕ_discrete slot i) [
            | yes e ↦ λ used.
                subst
                  (λ j.
                    (get_or (set (kvs.ht_index here) slot new) j free_slot).offset + op_size
                    ≤ next_head key_of op_size mica_op_size kvs.log_head)
                  e
                  (subst
                    (λ (t : MicaSlot).
                      t.offset + op_size ≤ next_head key_of op_size mica_op_size kvs.log_head)
                    (sym (
                      get_or-set_self (kvs.ht_index here) slot new free_slot
                        (omega (arith, v.eight here))))
                    (omega (arith, low, v.room, v.small_log)))
            | no ne ↦
                subst
                  (λ (t : MicaSlot).
                    t.in_use ≡ true
                    → t.offset + op_size ≤ next_head key_of op_size mica_op_size kvs.log_head)
                  (sym (get_or-set_ne (kvs.ht_index here) slot i new free_slot ne))
                  (λ used. omega (arith, v.below here i used, low))
          ],
        )
      ]

  -- An insertion that passes its assertions keeps the table valid.
  pub mica_insert_one-IsValid :
      (kvs kvs' : MicaKv Op) (op : Op)
      → IsValid op_size mica_op_size kvs
      → mica_insert_one key_of op_size mica_op_size kvs op ≡ some kvs'
      → IsValid op_size mica_op_size kvs'
  mica_insert_one-IsValid kvs kvs' op v h =
      let r = mica_insert_one-Inserted key_of op_size mica_op_size kvs op kvs' h in
      let (low, high) = next_head-bounds key_of op_size mica_op_size kvs op v some_size fits in
      let lt : r.slot < 8 =
        omega (arith, r.in_range, v.eight (bkt_of key_of op_size mica_op_size kvs (key_of op))) in
      subst (IsValid op_size mica_op_size) (sym r.placed) (record {
        eight = λ b. (bucket-IsValid kvs op r.slot b 0 v lt).0;
        below = λ b i. (bucket-IsValid kvs op r.slot b i v lt).1;
        room = ground (arith, r.room_left, high, v.small_log);
        small_log = v.small_log;
      })

  -- For entries of a positive size of at most MICA_OP_SIZE, after an insertion that passes its
  -- assertions into a valid table, the key leads to the entry
  -- inserted.
  pub mica_insert_one-found :
      (kvs kvs' : MicaKv Op) (op : Op)
      → IsValid op_size mica_op_size kvs
      → mica_insert_one key_of op_size mica_op_size kvs op ≡ some kvs'
      → entry key_of op_size mica_op_size kvs' (key_of op) ≡ some op
  mica_insert_one-found kvs kvs' op v h =
      let r = mica_insert_one-Inserted key_of op_size mica_op_size kvs op kvs' h in
      ap (λ t. entry key_of op_size mica_op_size t (key_of op)) r.placed
      ∙ result-found key_of op_size mica_op_size kvs op v some_size fits r.slot r.no_equal
          r.in_range

  -- For entries of a positive size of at most MICA_OP_SIZE, an insertion that passes its assertions
  -- into a valid table leaves alone where every key of
  -- another bucket or with another tag leads.
  pub mica_insert_one-kept :
      (kvs kvs' : MicaKv Op) (op : Op) (key : MicaKey)
      → IsValid op_size mica_op_size kvs
      → mica_insert_one key_of op_size mica_op_size kvs op ≡ some kvs'
      → (bkt_of key_of op_size mica_op_size kvs key
            ≡ bkt_of key_of op_size mica_op_size kvs (key_of op)
          → key.tag ≢ (key_of op).tag)
      → entry key_of op_size mica_op_size kvs' key ≡ entry key_of op_size mica_op_size kvs key
  mica_insert_one-kept kvs kvs' op key v h differs =
      let r = mica_insert_one-Inserted key_of op_size mica_op_size kvs op kvs' h in
      ap (λ t. entry key_of op_size mica_op_size t key) r.placed
      ∙ result-kept key_of op_size mica_op_size kvs op v some_size fits r.slot key r.unused differs

  -- A key that leads somewhere does so after every later insertion.
  present-kept :
      (kvs kvs' : MicaKv Op) (op old : Op) (key : MicaKey)
      → IsValid op_size mica_op_size kvs
      → mica_insert_one key_of op_size mica_op_size kvs op ≡ some kvs'
      → entry key_of op_size mica_op_size kvs key ≡ some old
      → entry key_of op_size mica_op_size kvs' key ≡ some old
  unfolding entry locate locate_one_kv_pair
  present-kept kvs kvs' op old key v h found =
      let r = mica_insert_one-Inserted key_of op_size mica_op_size kvs op kvs' h in
      mica_insert_one-kept kvs kvs' op key v h (λ b t.
        let absent : first_match key.tag (kvs.ht_index (bkt_of key_of op_size mica_op_size kvs key))
            ≡ none =
          rw (b, t) r.no_equal in
        none-ne_some (rw absent at found))
      ∙ found

  populate_loop-kept :
      (op_for : ℕ → Op) (n i : ℕ) (kvs kvs' : MicaKv Op) (key : MicaKey) (old : Op)
      → IsValid op_size mica_op_size kvs
      → populate_loop key_of op_size mica_op_size op_for n i kvs ≡ some kvs'
      → entry key_of op_size mica_op_size kvs key ≡ some old
      → entry key_of op_size mica_op_size kvs' key ≡ some old
  unfolding populate_loop
  populate_loop-kept op_for zero i kvs kvs' key old v h found =
      ap (λ t. entry key_of op_size mica_op_size t key) (sym (some_injective h)) ∙ found
  populate_loop-kept op_for (suc n) i kvs kvs' key old v h found =
      elim (Option-cases (mica_insert_one key_of op_size mica_op_size kvs (op_for i))) [
        | inl bad ↦ absurd (none-ne_some (rw bad at h))
        | inr (mid, ok) ↦
            populate_loop-kept op_for n (i + 1) mid kvs' key old
              (mica_insert_one-IsValid kvs mid (op_for i) v ok) (rw ok at h)
              (present-kept kvs mid (op_for i) old key v ok found)
      ]

  -- For entries of a positive size of at most MICA_OP_SIZE, once the loop of `custom_mica_populate_fixed_len` has passed the assertions of its insertions
  -- into a valid table, the key of each key id that it went through leads to that id's entry.
  pub populate_loop-found :
      (op_for : ℕ → Op) (n i k : ℕ) (kvs kvs' : MicaKv Op)
      → IsValid op_size mica_op_size kvs
      → populate_loop key_of op_size mica_op_size op_for n i kvs ≡ some kvs'
      → i ≤ k
      → k < i + n
      → entry key_of op_size mica_op_size kvs' (key_of (op_for k)) ≡ some (op_for k)
  unfolding populate_loop
  populate_loop-found op_for zero i k kvs kvs' v h x y = absurd (omega arith)
  populate_loop-found op_for (suc n) i k kvs kvs' v h x y =
      elim (Option-cases (mica_insert_one key_of op_size mica_op_size kvs (op_for i))) [
        | inl bad ↦ absurd (none-ne_some (rw bad at h))
        | inr (mid, ok) ↦
            let w = mica_insert_one-IsValid kvs mid (op_for i) v ok in
            let rest : populate_loop key_of op_size mica_op_size op_for n (i + 1) mid ≡ some kvs' =
              rw ok at h in
            elim (ℕ_discrete i k) [
              | yes e ↦
                  subst
                    (λ j.
                      entry key_of op_size mica_op_size kvs' (key_of (op_for j)) ≡ some (op_for j))
                    e
                    (populate_loop-kept op_for n (i + 1) mid kvs' (key_of (op_for i)) (op_for i) w
                      rest (mica_insert_one-found kvs mid (op_for i) v ok))
              | no ne ↦
                  populate_loop-found op_for n (i + 1) k mid kvs' w rest (omega arith) (omega arith)
            ]
      ]

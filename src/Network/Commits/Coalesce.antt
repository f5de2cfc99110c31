-- ===== src/Network/Commits/Coalesce.antt =====
-- Commits that are inserted one after another.
use native.Mathlib.Nat.{mod-lt}
use odyssey_lib.Base.{
  Bool, Bool-cases, List, Option, [], ap, arith, false, fun_ext, get_or, get_or-set_self, inl, inr,
  length, length-set, ltb, refl, set, set-set, some, u16, u32, ℕ, ◌*◌, ◌+◌, ◌<◌, ◌==◌, ◌>>=◌, ◌^◌,
  ◌∙◌, ◌∷◌, ◌≡◌,
}
use odyssey_lib.Fifo.{
  Fifo, SlotMeta, blank_meta, get_fifo_prev_slot, get_fifo_push_prev_slot, mod_decr,
}
use odyssey_lib.Fifo.Inv.{
  IsValid, IsValid, capacity-IsValid, fifo_increm_capacity_lem, get_fifo_slot_private_lem,
  net_capacity-IsValid, slot_meta-IsValid,
}
use odyssey_lib.Fifo.Send.Queue.{sum}
use odyssey_lib.Fifo.Send.Steps.{get_fifo_slot_meta_push_lem}
use odyssey_lib.Network.{put}
use odyssey_lib.Network.Commits.{Com, ComQp, ctx_insert_commit}

-- One group of commits after another, each from the id behind those of the one before
unfoldable pub insert_commits : Bool → ℕ → List ℕ → ComQp → Option ComQp
insert_commits assertions l_id [] q = some q
insert_commits assertions l_id (n ∷ ns) q =
    ctx_insert_commit assertions n l_id q >>= insert_commits assertions (l_id + n) ns

put_self : {A : Type 0} (f : ℕ → A) (i : ℕ) (a : A) → put f i a i ≡ a
put_self f i a = ground arith

put-put : {A : Type 0} (f : ℕ → A) (i : ℕ) (a b : A) → put (put f i a) i b ≡ put f i b
put-put f i a b =
    fun_ext λ k. elim (Bool-cases (i == k)) [ inl same ↦ rw same refl | inr other ↦ rw other refl ]

module _ (assertions : Bool) (q : ComQp) (metas : List SlotMeta) (v : IsValid q.send_fifo)
    (has : q.send_fifo.slot_meta ≡ some metas) (len : length metas ≡ q.send_fifo.max_size) where
  abbrev f : Fifo
  f = q.send_fifo

  -- the address of the slot that is filled
  abbrev pub com_addr : ℕ
  com_addr = f.slot_size * mod_decr f.push_ptr f.max_size + 0

  abbrev old_meta : SlotMeta
  old_meta = get_or metas f.push_ptr blank_meta

  -- One commit for `count` ids from `l_id` on
  abbrev pub one_commit : ℕ → ℕ → ComQp
  one_commit l_id count = record {
    send_fifo = record f {
      capacity = 1;
      net_capacity = f.net_capacity + count;
      slot_meta =
          some (
            set metas f.push_ptr
              (record old_meta { coalesce_num = old_meta.coalesce_num + count }));
    };
    coms = put q.coms com_addr (record (q.coms com_addr) { l_id = l_id; com_num = count });
  }

  addr_lem :
      (g : Fifo)
      → IsValid g
      → g.push_ptr ≡ f.push_ptr
      → g.max_size ≡ f.max_size
      → g.slot_size ≡ f.slot_size
      → get_fifo_push_prev_slot assertions g ≡ some com_addr
  unfolding get_fifo_push_prev_slot get_fifo_prev_slot mod_decr
  addr_lem g w e m s =
      rw (← e, ← m, ← s) (get_fifo_slot_private_lem w assertions _ 0 (mod-lt _ w.slots) w.sized).0

  first_commit :
      (l_id n : ℕ)
      → f.capacity ≡ 0
      → f.net_capacity + n < 2 ^ 32
      → old_meta.coalesce_num + n < 2 ^ 16
      → ctx_insert_commit assertions n l_id q ≡ some (one_commit l_id n)
  unfolding ctx_insert_commit
  first_commit l_id n empty net few =
      let at = addr_lem f v refl refl refl in
      let grown = fifo_increm_capacity_lem v assertions (omega (arith, empty, v.slots)) in
      let none_yet : ltb 0 f.capacity ≡ false = rw empty refl in
      let one : f.capacity + 1 ≡ 1 = omega (arith, empty) in
      let w = net_capacity-IsValid grown.1 {n = f.net_capacity + n} in
      let net32 : u32 (f.net_capacity + n) ≡ f.net_capacity + n = omega (arith, net) in
      let co16 : u16 (old_meta.coalesce_num + n) ≡ old_meta.coalesce_num + n = omega (arith, few) in
      rw
        (
          at,
          none_yet,
          grown.0,
          net32,
          get_fifo_slot_meta_push_lem assertions w metas has len,
          has,
          co16,
          one,
        )
        refl

  valid_one : (l_id n : ℕ) → IsValid (one_commit l_id n).send_fifo
  valid_one l_id n =
      slot_meta-IsValid (net_capacity-IsValid (capacity-IsValid v (omega (arith, v.slots))))

  next_commit :
      (l_id id n count : ℕ)
      → f.net_capacity + (count + n) < 2 ^ 32
      → count + n < 2 ^ 32
      → old_meta.coalesce_num + (count + n) < 2 ^ 16
      → ctx_insert_commit assertions n id (one_commit l_id count)
        ≡ some (one_commit l_id (count + n))
  unfolding ctx_insert_commit
  next_commit l_id id n count net small few =
      let w = valid_one l_id count in
      let at = addr_lem (one_commit l_id count).send_fifo w refl refl refl in
      let net32 : u32 (f.net_capacity + count + n) ≡ f.net_capacity + (count + n) =
        omega (arith, net) in
      let com32 : u32 (count + n) ≡ count + n = omega (arith, small) in
      let m = record old_meta { coalesce_num = old_meta.coalesce_num + count } in
      let co16 : u16 (old_meta.coalesce_num + count + n) ≡ old_meta.coalesce_num + (count + n) =
        omega (arith, few) in
      let w' = net_capacity-IsValid w {n = f.net_capacity + (count + n)} in
      let found =
        get_fifo_slot_meta_push_lem assertions w' (set metas f.push_ptr m) refl
          (length-set metas f.push_ptr m ∙ len) in
      let same : get_or (set metas f.push_ptr m) f.push_ptr blank_meta ≡ m =
        get_or-set_self metas f.push_ptr m blank_meta (omega (arith, v.push_in, len)) in
      let first : Com = record (q.coms com_addr) { l_id = l_id; com_num = count } in
      rw
        (
          at,
          net32,
          found,
          same,
          co16,
          set-set metas f.push_ptr m
              (record old_meta { coalesce_num = old_meta.coalesce_num + (count + n) }),
          put_self q.coms com_addr first,
          com32,
          put-put q.coms com_addr first
              (record (q.coms com_addr) { l_id = l_id; com_num = count + n }),
        )
        refl

  insert_rest :
      (ns : List ℕ) (l_id id count : ℕ)
      → f.net_capacity + (count + sum ns) < 2 ^ 32
      → count + sum ns < 2 ^ 32
      → old_meta.coalesce_num + (count + sum ns) < 2 ^ 16
      → insert_commits assertions id ns (one_commit l_id count)
        ≡ some (one_commit l_id (count + sum ns))
  unfolding insert_commits
  insert_rest [] l_id id count net small few =
      let c : count ≡ count + 0 = omega arith in ap (λ x. some (one_commit l_id x)) c
  insert_rest (n ∷ ns) l_id id count net small few =
      let step =
        next_commit l_id id n count (omega (arith, net)) (omega (arith, small))
          (omega (arith, few)) in
      let total : count + n + sum ns ≡ count + (n + sum ns) = omega arith in
      rw (step, ← total)
        (insert_rest ns l_id (id + n) (count + n) (omega (arith, net)) (omega (arith, small))
          (omega (arith, few)))

  -- Commits of consecutive ids, from `l_id` on, that are inserted into a valid fifo without messages
  -- make one commit for all of them, in one slot, and the fifo counts each id, if the counts fit
  -- their fields; no assertion fails.
  pub ctx_insert_commit-Coalesces :
      (n : ℕ) (ns : List ℕ) (l_id : ℕ)
      → f.capacity ≡ 0
      → f.net_capacity + sum (n ∷ ns) < 2 ^ 32
      → sum (n ∷ ns) < 2 ^ 32
      → old_meta.coalesce_num + sum (n ∷ ns) < 2 ^ 16
      → insert_commits assertions l_id (n ∷ ns) q ≡ some (one_commit l_id (sum (n ∷ ns)))
  unfolding insert_commits
  ctx_insert_commit-Coalesces n ns l_id empty net small few =
      rw (first_commit l_id n empty (omega (arith, net)) (omega (arith, few)))
        (insert_rest ns l_id (l_id + n) n net small few)

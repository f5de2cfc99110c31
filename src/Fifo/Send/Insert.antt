-- ===== src/Fifo/Send/Insert.antt =====
-- `od_insert_mes` adds a message to the last batch of the queue, or makes a new batch of it.
use native.Mathlib.Nat.{mod-add-mod, mod-lt}
use odyssey_lib.Base.{
  Bool, Bool-cases, List, [], ap, arith, false, get_or, get_or-set_self, inl, inr, length,
  length-set, ne→==_false, refl, set, some, subst, suc, sym, true, ℕ, ◌%◌, ◌*◌, ◌++◌, ◌+◌, ◌-◌, ◌<◌,
  ◌==◌, ◌^◌, ◌∙◌, ◌∷◌, ◌≡◌, ◌≤◌,
}
use odyssey_lib.Fifo.{Fifo, blank_meta, mtu}
use odyssey_lib.Fifo.Inv.{IsValid, push_ptr-IsValid, slot_meta-IsValid}
use odyssey_lib.Fifo.Ring.{length-window, window-set_last}
use odyssey_lib.Fifo.Send.{insert_mes, new_message}
use odyssey_lib.Fifo.Send.Messages.{
  finished, get_send_fifo_ptr_new, get_send_fifo_ptr_same, insert_mes_lem,
}
use odyssey_lib.Fifo.Send.Queue.{
  Positive, Positive-init, add_message, add_message_last, add_message_new, batch_window,
  coalesce_of, sum, sum-append, sum_of_empty,
}
use odyssey_lib.Fifo.Send.Refine.{Holds, last_open, new_message-false, new_message_empty, reopen}
use odyssey_lib.Fifo.Send.Steps.{charged, first_message, grown, next_push, open_meta}

module _ (b : Bool) (helper : ℕ → List ℕ → List ℕ) {f : Fifo} {q : List ℕ} (h : Holds f q)
    (size resp : ℕ) (brk : Bool) (pos : 0 < size) (head : f.mes_header + size ≤ f.slot_size)
    (slots : f.slot_size ≤ mtu) (answer : resp ≤ mtu) (room : length q < f.max_size)
    (few : sum q + 1 < 2 ^ 16) where
  -- The test of `get_send_fifo_ptr` at the slot that is open.
  abbrev pub is_new : Bool
  is_new = new_message f (charged (open_meta f h.metas) resp) size brk

  abbrev Inserted : List ℕ → Type 0
  Inserted q' = (f' : Fifo) × (insert_mes b helper f size resp brk ≡ some f') × Holds f' q'

  place_at : (n : ℕ) → length q - 1 ≡ n → f.push_ptr ≡ (f.pull_ptr + n) % f.max_size
  place_at n e = h.place ∙ ap (λ k. (f.pull_ptr + k) % f.max_size) e

  insert_empty : length q ≡ 0 → Inserted (1 ∷ [])
  insert_empty e =
      let m = open_meta f h.metas in
      let i = h.idle e in
      let old : is_new ≡ false =
        new_message_empty f (charged m resp) size brk i.0 (omega (arith, i.2))
          (omega (arith, i.1)) in
      let got =
        get_send_fifo_ptr_same b h.valid h.metas h.has h.len size resp pos slots
          (omega (arith, i.2)) brk (omega (arith, i.1)) (omega (arith, i.0)) old in
      let m2 = grown (charged m resp) size in
      let metas2 = set h.metas f.push_ptr m2 in
      let len2 : length metas2 ≡ f.max_size = length-set h.metas f.push_ptr m2 ∙ h.len in
      let f1 : Fifo = record f { slot_meta = some metas2 } in
      let self : open_meta f1 metas2 ≡ m2 =
        get_or-set_self h.metas f.push_ptr m2 blank_meta (omega (arith, h.len, h.valid.push_in)) in
      let one : m2.coalesce_num ≡ 1 = omega (arith, i.0) in
      let place = place_at 0 (omega (arith, e)) in
      let win =
        window-set_last coalesce_of blank_meta f.max_size h.metas m2 0 f.pull_ptr f.push_ptr
          h.valid.pull_in h.valid.slots place (omega (arith, h.len))
        ∙ ap (λ k. k ∷ []) one in
      let r =
        insert_mes_lem b helper f size resp brk got (slot_meta-IsValid h.valid) metas2 refl len2 1
          (ap (λ t. t.coalesce_num) self ∙ one) (λ _. omega (arith, h.count, room))
          (omega (arith, h.net, few)) in
      (
        finished helper f1 (f.slot_size * f.push_ptr + m.byte_size) 1,
        r.0,
        reopen r.1 metas2 refl len2 0 (omega (arith, h.count)) place [] 1 refl win
            (omega (arith, h.net, sum_of_empty q e)) tt (omega arith) (rw self (omega (arith, i.1)))
            (rw self (omega (arith, i.2))) h.header,
      )

  insert_same : (n : ℕ) → length q ≡ suc n → is_new ≡ false → Inserted (add_message false q)
  insert_same n e old =
      let m = open_meta f h.metas in
      let w = batch_window f.max_size h.metas f.pull_ptr n in
      let qe = last_open h n e in
      let parts = Positive-init w m.coalesce_num (subst Positive qe h.positive) in
      let total : sum q ≡ sum w + (m.coalesce_num + 0) =
        ap sum qe ∙ sum-append w (m.coalesce_num ∷ []) in
      let within = new_message-false f (charged m resp) size brk old (omega (arith, h.fits)) in
      let got =
        get_send_fifo_ptr_same b h.valid h.metas h.has h.len size resp pos slots
          (omega (arith, within)) brk within.1 (omega (arith, total, few)) old in
      let m2 = grown (charged m resp) size in
      let metas2 = set h.metas f.push_ptr m2 in
      let len2 : length metas2 ≡ f.max_size = length-set h.metas f.push_ptr m2 ∙ h.len in
      let f1 : Fifo = record f { slot_meta = some metas2 } in
      let self : open_meta f1 metas2 ≡ m2 =
        get_or-set_self h.metas f.push_ptr m2 blank_meta (omega (arith, h.len, h.valid.push_in)) in
      let place = place_at n (omega (arith, e)) in
      let win =
        window-set_last coalesce_of blank_meta f.max_size h.metas m2 n f.pull_ptr f.push_ptr
          h.valid.pull_in (omega (arith, e, room)) place (omega (arith, h.len)) in
      let more : (m2.coalesce_num == 1) ≡ false =
        ne→==_false m2.coalesce_num 1 (omega (arith, parts.1)) in
      let r =
        insert_mes_lem b helper f size resp brk got (slot_meta-IsValid h.valid) metas2 refl len2
          m2.coalesce_num (ap (λ t. t.coalesce_num) self) (λ k. absurd (omega (arith, k, parts.1)))
          (omega (arith, h.net, few)) in
      let f' = finished helper f1 (f.slot_size * f.push_ptr + m.byte_size) m2.coalesce_num in
      let held =
        reopen r.1 metas2 refl len2 n (rw more (h.count ∙ e)) place w m2.coalesce_num
          (length-window coalesce_of blank_meta f.max_size h.metas f.pull_ptr n) win
          (omega (arith, h.net, total)) parts.0 (omega arith) (rw self within.1) (rw self within.0)
          h.header in
      (
        f',
        r.0,
        subst (Holds f') (sym (ap (add_message false) qe ∙ add_message_last w m.coalesce_num)) held,
      )

  insert_new : (n : ℕ) → length q ≡ suc n → is_new ≡ true → Inserted (add_message true q)
  insert_new n e fresh =
      let m = open_meta f h.metas in
      let w = batch_window f.max_size h.metas f.pull_ptr n in
      let qe = last_open h n e in
      let parts = Positive-init w m.coalesce_num (subst Positive qe h.positive) in
      let got =
        get_send_fifo_ptr_new b h.valid h.metas h.has h.len size resp pos slots
          (omega (arith, h.resp)) brk h.header.0 head parts.1 fresh in
      let p = next_push f in
      let metas1 = set h.metas f.push_ptr (charged m resp) in
      let m2 = first_message f (get_or metas1 p blank_meta) size in
      let metas2 = set metas1 p m2 in
      let len1 : length metas1 ≡ f.max_size =
        length-set h.metas f.push_ptr (charged m resp) ∙ h.len in
      let len2 : length metas2 ≡ f.max_size = length-set metas1 p m2 ∙ len1 in
      let inside : p < f.max_size = mod-lt (f.push_ptr + 1) h.valid.slots in
      let f1 : Fifo = record f { push_ptr = p; slot_meta = some metas2 } in
      let v1 : IsValid f1 = slot_meta-IsValid (push_ptr-IsValid h.valid inside) in
      let self : open_meta f1 metas2 ≡ m2 =
        get_or-set_self metas1 p m2 blank_meta (omega (arith, len1, inside)) in
      let here = place_at n (omega (arith, e)) in
      let place : p ≡ (f.pull_ptr + suc n) % f.max_size =
        ap (λ k. (k + 1) % f.max_size) here
        ∙ mod-add-mod (f.pull_ptr + n) f.max_size 1
        ∙ ap (λ k. k % f.max_size) (omega arith) in
      let win1 : batch_window f.max_size metas1 f.pull_ptr (suc n) ≡ q =
        window-set_last coalesce_of blank_meta f.max_size h.metas (charged m resp) n f.pull_ptr
          f.push_ptr h.valid.pull_in (omega (arith, e, room)) here (omega (arith, h.len))
        ∙ sym qe in
      let win : batch_window f.max_size metas2 f.pull_ptr (suc (suc n)) ≡ q ++ 1 ∷ [] =
        window-set_last coalesce_of blank_meta f.max_size metas1 m2 (suc n) f.pull_ptr p
          h.valid.pull_in (omega (arith, e, room)) place (omega (arith, len1))
        ∙ ap (λ t. t ++ 1 ∷ []) win1 in
      let r =
        insert_mes_lem b helper f size resp brk got v1 metas2 refl len2 1
          (ap (λ t. t.coalesce_num) self) (λ _. omega (arith, h.count, room))
          (omega (arith, h.net, few)) in
      let f' = finished helper f1 (f.slot_size * p + f.mes_header) 1 in
      let held =
        reopen r.1 metas2 refl len2 (suc n) (omega (arith, h.count, e)) place q 1 e win
          (omega (arith, h.net)) h.positive (omega arith) (rw self head) (rw self (omega arith))
          h.header in
      (f', r.0, subst (Holds f') (sym (add_message_new q (omega (arith, e)))) held)

  insert_nonempty : (n : ℕ) → length q ≡ suc n → Inserted (add_message is_new q)
  insert_nonempty n e = elim (Bool-cases is_new) [
    | inl fresh ↦ rw fresh (insert_new n e fresh)
    | inr old ↦ rw old (insert_same n e old)
  ]

  -- In a send fifo that holds the batches `q`, with a slot to spare, `od_insert_mes` of a message
  -- that fits an empty slot passes every assertion, and leaves the fifo holding the batches of
  -- `add_message`: the message has joined the last batch, or makes a new one if `new_message` says so.
  pub insert_mes-Holds :
      (f' : Fifo) × (insert_mes b helper f size resp brk ≡ some f')
      × Holds f' (add_message is_new q)
  unfolding add_message
  insert_mes-Holds = by_length q refl
    where
      by_length : (p : List ℕ) → q ≡ p → Inserted (add_message is_new q)
      by_length [] e = rw e (insert_empty (ap length e))
      by_length (x ∷ p) e = insert_nonempty (length p) (ap length e)

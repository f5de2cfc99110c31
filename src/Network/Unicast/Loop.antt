-- ===== src/Network/Unicast/Loop.antt =====
-- The loop of `ctx_send_unicasts` over the batches of one fifo, without credits and with the assertions
-- off.
use odyssey_lib.Base.{
  Bool, List, Option, [], ap, arith, eq→==, false, if◌then◌else◌, length, ltb, lt→ltb, ne→==_false,
  refl, some, subst, suc, true, u16, zero, ℕ, ℕ_discrete, ◌++◌, ◌+◌, ◌-◌, ◌<◌, ◌>>=◌, ◌^◌, ◌∙◌, ◌∷◌,
  ◌≡◌, ◌≤◌,
}
use odyssey_lib.Fifo.{Fifo, get_fifo_pull_slot}
use odyssey_lib.Fifo.Inv.{get_fifo_slot_private_lem}
use odyssey_lib.Fifo.Send.Dispatch.{MovesOn, fifo_send_from_pull_slot-MovesOn}
use odyssey_lib.Fifo.Send.Queue.{sum}
use odyssey_lib.Fifo.Send.Refine.{Holds}
use odyssey_lib.Fifo.Send.Steps.{get_fifo_slot_meta_pull_lem}
use odyssey_lib.Network.{RecvInfo, Verb, put}
use odyssey_lib.Network.Broadcast.Drain.{helped-Holds}
use odyssey_lib.Network.Unicast.{
  UniQp, ctx_can_send_unicasts, ctx_forge_unicast_wr, send_unicast, unicast_loop,
}
use odyssey_lib.Network.Unicast.Entries.{Forged, Forged-step, first_message, message_at, put_entry}

-- what the loops leave alone
abbrev pub Kept : Type 0
Kept = Bool × RecvInfo × ℕ × ℕ

abbrev pub kept : UniQp → Kept
kept q = (q.needs_credits, q.recv_info, q.recv_wr_num, q.send_wr_num)

-- The first `n` work requests are linked in order.
abbrev pub Linked : ℕ → (ℕ → Option ℕ) → Type 0
Linked n next = (j : ℕ) → j + 1 < n → next j ≡ some (j + 1)

abbrev pub AllHold : List Fifo → List (List ℕ) → Type 0
AllHold [] [] = Unit
AllHold [] (b ∷ bs) = ⊥
AllHold (f ∷ fs) [] = ⊥
AllHold (f ∷ fs) (b ∷ bs) = Holds f b × (sum b < 2 ^ 32) × AllHold fs bs

abbrev pub AllSent : List Fifo → Type 0
AllSent [] = Unit
AllSent (f ∷ fs) = Holds f [] × AllSent fs

-- the number of messages in all the fifos
abbrev pub messages : List (List ℕ) → ℕ
messages [] = 0
messages (b ∷ bs) = length b + messages bs

module _ (machine_id : ℕ) where
  Linked-on :
      (mes_i : ℕ) (next : ℕ → Option ℕ)
      → Linked mes_i next
      → Linked (mes_i + 1) (if ltb 0 mes_i then put next (mes_i - 1) (some mes_i) else next)
  Linked-on mes_i next linked j lt =
      let later : ltb 0 mes_i ≡ true = lt→ltb 0 mes_i (omega (arith, lt)) in
      elim (ℕ_discrete (mes_i - 1) j) [
        | yes here ↦
            let same : mes_i ≡ j + 1 = omega (arith, here, lt) in
            rw (later, eq→== (mes_i - 1) j here) (ap some same)
        | no before ↦
            rw (later, ne→==_false (mes_i - 1) j before) (linked j (omega (arith, before, lt)))
      ]

  send_unicast-Holds :
      (send_helper : List ℕ → List ℕ) (fifo_i mes_i : ℕ) (f : Fifo) (q : UniQp) {x : ℕ}
      {xs : List ℕ} (h : Holds f (x ∷ xs))
      → sum (x ∷ xs) < 2 ^ 32
      → q.needs_credits ≡ false
      → mes_i < q.send_wr_num
      → Linked mes_i q.next
      → (f' : Fifo) × (q' : UniQp) × (v : List Verb) × (send_unicast machine_id false send_helper
            fifo_i mes_i f q
          ≡ some (f', q', v))
        × Holds f' xs
        × (kept q' ≡ kept q)
        × Linked (mes_i + 1) q'.next
        × Forged fifo_i mes_i 1 f h.metas q q'
        × MovesOn f f' xs
  unfolding ctx_forge_unicast_wr get_fifo_pull_slot
  send_unicast-Holds send_helper fifo_i mes_i f q {x} {xs} h short no_credits room linked =
      let hg = helped-Holds send_helper h in
      let m = get_fifo_slot_meta_pull_lem false hg.valid h.metas h.has h.len in
      let a =
        get_fifo_slot_private_lem hg.valid false f.pull_ptr 0 hg.valid.pull_in hg.valid.sized in
      let (f', sent, held, on) =
        fifo_send_from_pull_slot-MovesOn false xs hg (omega (arith, hg.net, short)) in
      let inside = lt→ltb mes_i q.send_wr_num room in
      rw (inside, m, a.0, sent, no_credits)
        (
          f',
          _,
          _,
          refl,
          held,
          refl,
          Linked-on mes_i q.next linked,
          record {
            forged = λ k lt.
                put_entry q mes_i (mes_i + k) _ fifo_i _ true
                  (eq→== mes_i (mes_i + k) (omega (arith, lt)))
                ∙ first_message fifo_i f h.metas h.valid.pull_in
                ∙ ap (λ t. message_at fifo_i f h.metas t) (omega (arith, lt));
            earlier = λ j lt.
                put_entry q mes_i j _ fifo_i _ false
                  (ne→==_false mes_i j (λ e. omega (arith, e, lt)));
          },
          record { pull = on.pull; max = on.max; size = on.size; metas = on.metas },
        )

  can_send :
      (f : Fifo) (q : UniQp)
      → q.needs_credits ≡ false
      → ctx_can_send_unicasts machine_id false f q ≡ some (ltb 0 f.capacity)
  unfolding ctx_can_send_unicasts
  can_send f q no_credits = rw no_credits refl

  next_round :
      (send_helper : List ℕ → List ℕ) (fuel fifo_i mes_i : ℕ) (f : Fifo) (q : UniQp) (f1 : Fifo)
      (q1 : UniQp) (v : List Verb)
      → ctx_can_send_unicasts machine_id false f q ≡ some true
      → send_unicast machine_id false send_helper fifo_i mes_i f q ≡ some (f1, q1, v)
      → mes_i + 1 < 2 ^ 16
      → unicast_loop machine_id false send_helper (suc fuel) fifo_i mes_i f q ≡ (
          unicast_loop machine_id false send_helper fuel fifo_i (mes_i + 1) f1 q1
          >>= λ (f2, q2, verbs, mes). some (f2, q2, v ++ verbs, mes))
  unfolding unicast_loop
  next_round send_helper fuel fifo_i mes_i f q f1 q1 v more one few =
      let e : u16 (mes_i + 1) ≡ mes_i + 1 = omega (arith, few) in rw (more, one, e) refl

  pub unicast_loop-Holds :
      (send_helper : List ℕ → List ℕ) (b : List ℕ) (fuel fifo_i mes_i : ℕ) (f : Fifo) (q : UniQp)
      → length b < fuel
      → mes_i + length b < 2 ^ 16
      → mes_i + length b ≤ q.send_wr_num
      → (h : Holds f b) → sum b < 2 ^ 32
      → q.needs_credits ≡ false
      → Linked mes_i q.next
      → (f' : Fifo) × (q' : UniQp) × (v : List Verb) × (unicast_loop machine_id false send_helper
            fuel fifo_i mes_i f q
          ≡ some (f', q', v, mes_i + length b))
        × Holds f' []
        × (kept q' ≡ kept q)
        × Linked (mes_i + length b) q'.next
        × Forged fifo_i mes_i (length b) f h.metas q q'
  unfolding unicast_loop
  unicast_loop-Holds send_helper b zero fifo_i mes_i f q enough few room h short no_credits linked =
      absurd (omega (arith, enough))
  unicast_loop-Holds send_helper [] (suc fuel) fifo_i mes_i f q enough few room h short no_credits
        linked =
      let drained : ltb 0 f.capacity ≡ false = ground (arith, h.count) in
      let same : mes_i ≡ mes_i + 0 = omega arith in
      (
        f,
        q,
        [],
        rw (can_send f q no_credits, drained) (ap (λ k. some (f, q, [], k)) same),
        h,
        refl,
        subst (λ k. Linked k q.next) same linked,
        record { forged = λ k lt. absurd (omega (arith, lt)); earlier = λ j lt. refl },
      )
  unicast_loop-Holds send_helper (x ∷ b) (suc fuel) fifo_i mes_i f q enough few room h short
        no_credits linked =
      let more : ltb 0 f.capacity ≡ true = lt→ltb 0 f.capacity (omega (arith, h.count)) in
      let (f1, q1, v1, one, h1, k1, l1, g1, on) =
        send_unicast-Holds send_helper fifo_i mes_i f q h short no_credits (omega (arith, room))
          linked in
      let total : mes_i + 1 + length b ≡ mes_i + suc (length b) = omega arith in
      let room1 : mes_i + 1 + length b ≤ q1.send_wr_num =
        omega (arith, room, ap (λ (k : Kept). k.3) k1) in
      let (f2, q2, v2, rest, h2, k2, l2, g2) =
        unicast_loop-Holds send_helper b fuel fifo_i (mes_i + 1) f1 q1 (omega (arith, enough))
          (omega (arith, few)) room1 h1 (omega (arith, short))
          (ap (λ (k : Kept). k.0) k1 ∙ no_credits) l1 in
      (
        f2,
        q2,
        v1 ++ v2,
        next_round send_helper fuel fifo_i mes_i f q f1 q1 v1
              (rw (can_send f q no_credits, more) refl) one (omega (arith, few))
            ∙ rw (rest, total) refl,
        h2,
        k2 ∙ k1,
        subst (λ k. Linked k q2.next) total l2,
        Forged-step h h1 fifo_i mes_i on g1 g2,
      )

-- ===== src/Network/Unicast/Drain.antt =====
-- Sending unicasts on a queue pair without credits, with the assertions off.
use odyssey_lib.Base.{
  List, [], ap, arith, eq→==, false, length, ltb, lt→ltb, ne→==_false, none, refl, some, subst, sym,
  true, ℕ, ◌++◌, ◌+◌, ◌-◌, ◌<◌, ◌^◌, ◌∙◌, ◌∷◌, ◌≡◌, ◌≤◌,
}
use odyssey_lib.Fifo.{Fifo}
use odyssey_lib.Network.{Verb, post_send, put}
use odyssey_lib.Network.Receives.{IsRing, ctx_refill_recvs-refills}
use odyssey_lib.Network.Unicast.{UniQp, ctx_send_unicasts, fifos_loop}
use odyssey_lib.Network.Unicast.Entries.{Entry, forged_entry, message_at}
use odyssey_lib.Network.Unicast.Loop.{
  AllHold, AllSent, Kept, Linked, kept, messages, unicast_loop-Holds,
}

-- The work requests from `mes_i` on are the messages of the fifos from `fifo_i` on, in order.
abbrev pub AllForged :
    ℕ → ℕ → (fs : List Fifo) (bs : List (List ℕ)) → AllHold fs bs → (ℕ → Entry) → Type 0
AllForged fifo_i mes_i [] [] hold es = Unit
AllForged fifo_i mes_i [] (b ∷ bs) hold es = ⊥
AllForged fifo_i mes_i (f ∷ fs) [] hold es = ⊥
AllForged fifo_i mes_i (f ∷ fs) (b ∷ bs) (h, short, hold) es =
    ((k : ℕ) → k < length b → es (mes_i + k) ≡ message_at fifo_i f h.metas k)
    × AllForged (fifo_i + 1) (mes_i + length b) fs bs hold es

module _ (machine_id : ℕ) where
  fifos_loop-Holds :
      (send_helper : ℕ → List ℕ → List ℕ) (fs : List Fifo) (bs : List (List ℕ)) (fifo_i mes_i : ℕ)
      (q : UniQp)
      → mes_i + messages bs < 2 ^ 16
      → mes_i + messages bs ≤ q.send_wr_num
      → (hold : AllHold fs bs) → q.needs_credits ≡ false
      → Linked mes_i q.next
      → (fs' : List Fifo) × (q' : UniQp) × (v : List Verb) × (fifos_loop machine_id false
            send_helper fifo_i mes_i fs q
          ≡ some (fs', q', v, mes_i + messages bs))
        × AllSent fs'
        × (kept q' ≡ kept q)
        × Linked (mes_i + messages bs) q'.next
        × AllForged fifo_i mes_i fs bs hold (forged_entry q')
        × ((j : ℕ) → j < mes_i → forged_entry q' j ≡ forged_entry q j)
  unfolding fifos_loop
  fifos_loop-Holds send_helper [] [] fifo_i mes_i q few room hold no_credits linked =
      let same : mes_i ≡ mes_i + 0 = omega arith in
      (
        [],
        q,
        [],
        ap (λ k. some ([], q, [], k)) same,
        tt,
        refl,
        subst (λ k. Linked k q.next) same linked,
        tt,
        λ j lt. refl,
      )
  fifos_loop-Holds send_helper [] (b ∷ bs) fifo_i mes_i q few room hold no_credits linked =
      absurd hold
  fifos_loop-Holds send_helper (f ∷ fs) [] fifo_i mes_i q few room hold no_credits linked =
      absurd hold
  fifos_loop-Holds send_helper (f ∷ fs) (b ∷ bs) fifo_i mes_i q few room (h, short, hold) no_credits
        linked =
      let (f1, q1, v1, one, h1, k1, l1, g1) =
        unicast_loop-Holds machine_id (send_helper fifo_i) b (f.capacity + 1) fifo_i mes_i f q
          (omega (arith, h.count)) (omega (arith, few)) (omega (arith, room)) h short no_credits
          linked in
      let room1 : mes_i + length b + messages bs ≤ q1.send_wr_num =
        omega (arith, room, ap (λ (k : Kept). k.3) k1) in
      let total : mes_i + length b + messages bs ≡ mes_i + (length b + messages bs) = omega arith in
      let (fs2, q2, v2, rest, h2, k2, l2, g2, before) =
        fifos_loop-Holds send_helper fs bs (fifo_i + 1) (mes_i + length b) q1 (omega (arith, few))
          room1 hold (ap (λ (k : Kept). k.0) k1 ∙ no_credits) l1 in
      (
        f1 ∷ fs2,
        q2,
        v1 ++ v2,
        rw (one, rest, total) refl,
        (h1, h2),
        k2 ∙ k1,
        subst (λ k. Linked k q2.next) total l2,
        (λ k lt. before (mes_i + k) (omega (arith, lt)) ∙ g1.forged k lt, g2),
        λ j lt. before j (omega (arith, lt)) ∙ g1.earlier j lt,
      )

  -- On a queue pair without credits whose fifos hold queues of batches (fewer than 2^16 in all, at
  -- least one and at most `send_wr_num`), with the assertions off and receives that can be posted,
  -- `ctx_send_unicasts` takes every batch off every fifo and posts them, after the receives, as one
  -- list of work requests that ends with the last. The work requests are those of the batches, fifo
  -- by fifo and from each pull pointer on: each has the address of its slot, the length and the
  -- receiver that the metadata of the slot said, and the memory region of its fifo.
  pub ctx_send_unicasts-AllSent :
      (send_helper : ℕ → List ℕ → List ℕ) (q : UniQp) (bs : List (List ℕ))
      → (hold : AllHold q.send_fifos bs) → 0 < messages bs
      → messages bs < 2 ^ 16
      → messages bs ≤ q.send_wr_num
      → q.needs_credits ≡ false
      → IsRing q.recv_info
      → q.recv_wr_num < 2 ^ 16
      → (q' : UniQp) × (before : List Verb) × (ctx_send_unicasts machine_id false send_helper q
          ≡ some (q', before ++ post_send 0 q'.next q'.flags q'.sgl ∷ []))
        × AllSent q'.send_fifos
        × Linked (messages bs) q'.next
        × (q'.next (messages bs - 1) ≡ none)
        × AllForged 0 0 q.send_fifos bs hold (forged_entry q')
  unfolding ctx_send_unicasts
  ctx_send_unicasts-AllSent send_helper q bs hold some_mes few room no_credits ring recvs =
      let (fs, q1, v, run, all_sent, k1, linked, forged, before) =
        fifos_loop-Holds send_helper q.send_fifos bs 0 0 q (omega (arith, few))
          (omega (arith, room)) hold no_credits (λ j lt. absurd (omega (arith, lt))) in
      let n = messages bs in
      let count : 0 + n ≡ n = omega arith in
      let more : ltb 0 n ≡ true = lt→ltb 0 n some_mes in
      let ring1 = subst IsRing (sym (ap (λ (k : Kept). k.1) k1)) ring in
      let (r, posts, refilled, ring2, enough) =
        ctx_refill_recvs-refills q1.recv_info ring1 false q1.recv_wr_num
          (omega (arith, ap (λ (k : Kept). k.2) k1, recvs)) in
      (
        record q1 { send_fifos = fs; recv_info = r; next = put q1.next (n - 1) none },
        v ++ posts,
        rw (run, count, more, refilled) refl,
        all_sent,
        λ j lt.
            rw (ne→==_false (n - 1) j (λ e. omega (arith, e, lt))) (linked j (omega (arith, lt))),
        rw (eq→== (n - 1) (n - 1) refl) refl,
        forged,
      )

-- ===== src/Network/Acks/Send.antt =====
-- Sending the acks that were collected.
use odyssey_lib.Base.{
  Bool, Bool-cases, List, [], ap, arith, eq→==, false, get_or, if◌then◌else◌, inl, inr, leb, length,
  length-set, ltb, lt→ltb, ne→==_false, none, refl, some, subst, suc, sym, true, u8, zero, ℕ, ◌++◌,
  ◌+◌, ◌<◌, ◌==◌, ◌^◌, ◌∙◌, ◌∷◌, ◌≡◌, ◌≤◌,
}
use odyssey_lib.Network.{Verb, post_send, put}
use odyssey_lib.Network.Acks.{
  Ack, AckLoop, AckQp, ack_loop, blank_ack, forge_ack, od_send_acks, op_ack,
}
use odyssey_lib.Network.Acks.Links.{
  Dealt, Leads, Leads-put, Rising, as_sent, forge-Dealt, rest_of, skip-Dealt, to_send,
  to_send-Rising, to_send-set,
}
use odyssey_lib.Network.Receives.{IsRing, ctx_refill_recvs-refills}

-- with an ack linked already
record Chained (n m_i : ℕ) (s s' : AckLoop) : Type 0 where
  leads : Leads s'.qp.next s.prev_ack_i (to_send s.qp.acks n m_i) s'.prev_ack_i
  frame : (j : ℕ) → j < s.prev_ack_i → s'.qp.next j ≡ s.qp.next j
  first : s'.first_wr ≡ s.first_wr
  later : s.prev_ack_i ≤ s'.prev_ack_i

ack_loop-step :
    (fuel m_i : ℕ) (s : AckLoop)
    → m_i ≤ s.qp.receipient_num
    → s.qp.receipient_num < 255
    → ack_loop (suc fuel) m_i s
      ≡ ack_loop fuel
          (m_i + 1)
          (if (get_or s.qp.acks m_i blank_ack).opcode == op_ack then s else forge_ack m_i s)
unfolding ack_loop
ack_loop-step fuel m_i s le few =
    let within : leb m_i s.qp.receipient_num ≡ true = ground (arith, le) in
    let byte : u8 (m_i + 1) ≡ m_i + 1 = omega (arith, le, few) in rw (within, byte) refl

ack_loop-Chained :
    (n fuel m_i : ℕ) (s : AckLoop)
    → n < fuel
    → m_i + n ≡ s.qp.receipient_num + 1
    → s.qp.receipient_num < 255
    → s.qp.receipient_num < length s.qp.acks
    → 0 < s.ack_i
    → s.prev_ack_i < m_i
    → (s' : AckLoop) × (ack_loop fuel m_i s ≡ some s') × Dealt n m_i s s' × Chained n m_i s s'
unfolding to_send ack_loop
ack_loop-Chained n zero m_i s enough total few long linked prev = absurd (omega (arith, enough))
ack_loop-Chained zero (suc fuel) m_i s enough total few long linked prev =
    let out : leb m_i s.qp.receipient_num ≡ false = ground (arith, total) in
    (
      s,
      rw out refl,
      record {
        below = λ i lt. refl;
        all = λ i ge lt. absurd (omega (arith, ge, lt));
        count = omega arith;
        recvs = refl;
        wanted = refl;
      },
      record { leads = refl; frame = λ j lt. refl; first = refl; later = omega arith },
    )
ack_loop-Chained (suc n) (suc fuel) m_i s enough total few long linked prev =
    let step = ack_loop-step fuel m_i s (omega (arith, total)) few in
    elim (Bool-cases ((get_or s.qp.acks m_i blank_ack).opcode == op_ack)) [
      | inl was_sent ↦
          let (s', run, d, c) =
            ack_loop-Chained n fuel (m_i + 1) s (omega (arith, enough)) (omega (arith, total)) few
              long linked (omega (arith, prev)) in
          (
            s',
            step ∙ rw was_sent run,
            skip-Dealt n m_i s s' (ground (arith, was_sent)) d,
            record {
              leads = rw was_sent c.leads;
              frame = c.frame;
              first = c.first;
              later = c.later;
            },
          )
      | inr collected ↦
          let t = forge_ack m_i s in
          let is_linked = lt→ltb 0 s.ack_i linked in
          let (s', run, d, c) =
            ack_loop-Chained n fuel (m_i + 1) t (omega (arith, enough)) (omega (arith, total)) few
              (omega
                (arith, long, length-set s.qp.acks m_i (as_sent (get_or s.qp.acks m_i blank_ack))))
              (omega (arith, linked)) (omega arith) in
          let same =
            to_send-set s.qp.acks n (m_i + 1) m_i (as_sent (get_or s.qp.acks m_i blank_ack))
              (omega arith) in
          let here : t.qp.next s.prev_ack_i ≡ some m_i =
            rw (is_linked, eq→== s.prev_ack_i s.prev_ack_i refl) refl in
          (
            s',
            step ∙ rw collected run,
            forge-Dealt n m_i s s' collected (omega (arith, long, total)) d,
            record {
              leads = rw collected (
                c.frame s.prev_ack_i prev ∙ here,
                subst (λ l. Leads s'.qp.next m_i l s'.prev_ack_i) same c.leads,
              );
              frame = λ j lt.
                  c.frame j (omega (arith, lt, prev))
                  ∙ rw (is_linked, ne→==_false s.prev_ack_i j (λ e. omega (arith, e, lt))) refl;
              first = c.first ∙ rw is_linked refl;
              later = omega (arith, c.later, prev);
            },
          )
    ]

-- with none linked yet, and the first one `p`
ack_loop-Leads :
    (n fuel m_i : ℕ) (s : AckLoop) (p : ℕ) (ps : List ℕ)
    → n < fuel
    → m_i + n ≡ s.qp.receipient_num + 1
    → s.qp.receipient_num < 255
    → s.qp.receipient_num < length s.qp.acks
    → s.ack_i ≡ 0
    → to_send s.qp.acks n m_i ≡ p ∷ ps
    → (s' : AckLoop) × (ack_loop fuel m_i s ≡ some s')
      × Dealt n m_i s s'
      × Leads s'.qp.next p ps s'.prev_ack_i
      × (s'.first_wr ≡ p)
      × Rising p ps
unfolding to_send
ack_loop-Leads n zero m_i s p ps enough total few long none_linked ids =
    absurd (omega (arith, enough))
ack_loop-Leads zero (suc fuel) m_i s p ps enough total few long none_linked ids =
    absurd (omega (arith, ap length ids))
ack_loop-Leads (suc n) (suc fuel) m_i s p ps enough total few long none_linked ids =
    let step = ack_loop-step fuel m_i s (omega (arith, total)) few in
    elim (Bool-cases ((get_or s.qp.acks m_i blank_ack).opcode == op_ack)) [
      | inl was_sent ↦
          let (s', run, d, leads, first, rising) =
            ack_loop-Leads n fuel (m_i + 1) s p ps (omega (arith, enough)) (omega (arith, total))
              few long none_linked (rw was_sent at ids) in
          (
            s',
            step ∙ rw was_sent run,
            skip-Dealt n m_i s s' (ground (arith, was_sent)) d,
            leads,
            first,
            rising,
          )
      | inr collected ↦
          let t = forge_ack m_i s in
          let unlinked : ltb 0 s.ack_i ≡ false = ground (arith, none_linked) in
          let (s', run, d, c) =
            ack_loop-Chained n fuel (m_i + 1) t (omega (arith, enough)) (omega (arith, total)) few
              (omega
                (arith, long, length-set s.qp.acks m_i (as_sent (get_or s.qp.acks m_i blank_ack))))
              (omega arith) (omega arith) in
          let same =
            to_send-set s.qp.acks n (m_i + 1) m_i (as_sent (get_or s.qp.acks m_i blank_ack))
              (omega arith) in
          let cons : m_i ∷ to_send s.qp.acks n (m_i + 1) ≡ p ∷ ps = rw collected at ids in
          let here : m_i ≡ p = ap (λ l. get_or l 0 0) cons in
          let later : to_send s.qp.acks n (m_i + 1) ≡ ps = ap rest_of cons in
          (
            s',
            step ∙ rw collected run,
            forge-Dealt n m_i s s' collected (omega (arith, long, total)) d,
            subst (λ k. Leads s'.qp.next k ps s'.prev_ack_i) here
                (subst (λ l. Leads s'.qp.next m_i l s'.prev_ack_i) (same ∙ later) c.leads),
            c.first ∙ rw unlinked here,
            subst (λ k. Rising k ps) here
                (subst (λ l. Rising m_i l) later
                  (to_send-Rising s.qp.acks n (m_i + 1) m_i (omega arith))),
          )
    ]

abbrev begun : AckQp → AckLoop
begun qp = record { qp = qp; ack_i = 0; prev_ack_i = 0; first_wr = 0; waits = [] }

-- When some ack is to be sent (at most 254 recipients, and receives can be posted),
-- `od_send_acks` posts one list of work requests, which leads from the first machine whose ack is to be
-- sent over all the others in rising order and ends there, after the receives. Every ack is
-- marked as sent before `send_helper` sees it, and is otherwise as it was.
pub od_send_acks-Leads :
    (assertions : Bool) (send_helper : List Ack → List Ack) (qp : AckQp) (p : ℕ) (ps : List ℕ)
    → to_send qp.acks (qp.receipient_num + 1) 0 ≡ p ∷ ps
    → qp.receipient_num < 255
    → qp.receipient_num < length qp.acks
    → IsRing qp.recv_info
    → qp.recv_wr_num < 2 ^ 16
    → (qp' : AckQp) × (acks : List Ack) × (before : List Verb) × (last : ℕ) × (od_send_acks
          assertions send_helper qp
        ≡ some (qp', before ++ post_send p qp'.next qp'.flags qp'.sgl ∷ []))
      × Leads qp'.next p ps last
      × (qp'.next last ≡ none)
      × (qp'.acks ≡ send_helper acks)
      × ((i : ℕ)
          → i ≤ qp.receipient_num
          → get_or acks i blank_ack ≡ as_sent (get_or qp.acks i blank_ack))
unfolding od_send_acks
od_send_acks-Leads assertions send_helper qp p ps ids few long ring recvs =
    let (s, run, d, leads, first, rising) =
      ack_loop-Leads (qp.receipient_num + 1) (qp.receipient_num + 2) 0 (begun qp) p ps (omega arith)
        (omega arith) few long refl ids in
    let unsent : (s.ack_i == 0) ≡ false = ground (arith, d.count, ap length ids) in
    let (r, posts, refilled, ring', enough) =
      ctx_refill_recvs-refills s.qp.recv_info (subst IsRing (sym d.recvs) ring) assertions
        s.qp.recv_wr_num (omega (arith, d.wanted, recvs)) in
    let next = put s.qp.next s.prev_ack_i none in
    (
      record (s.qp) { acks = send_helper s.qp.acks; recv_info = r; next = next },
      s.qp.acks,
      s.waits ++ posts,
      s.prev_ack_i,
      rw (run, unsent, refilled, first) refl,
      Leads-put s.qp.next p ps s.prev_ack_i rising leads,
      rw (eq→== s.prev_ack_i s.prev_ack_i refl) refl,
      refl,
      λ i le. d.all i (omega arith) (omega (arith, le)),
    )

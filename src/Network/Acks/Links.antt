-- ===== src/Network/Acks/Links.antt =====
-- The links between the work requests of acks, and what the loop of `od_send_acks` does to the acks.
use odyssey_lib.Base.{
  Bool-cases, List, Option, [], ap, arith, eq→==, false, get_or, get_or-set_ne, get_or-set_self,
  if◌then◌else◌, inl, inr, length, ne→==_false, none, refl, set, some, subst, suc, sym, zero, ℕ,
  ℕ_discrete, ◌+◌, ◌<◌, ◌==◌, ◌∙◌, ◌∷◌, ◌≡◌, ◌≤◌,
}
use odyssey_lib.Network.{put}
use odyssey_lib.Network.Acks.{Ack, AckLoop, blank_ack, forge_ack, op_ack}

-- the machines, `n` of them from `i` on, whose ack is to be sent
unfoldable pub to_send : List Ack → ℕ → ℕ → List ℕ
to_send acks zero i = []
to_send acks (suc n) i =
    if (get_or acks i blank_ack).opcode == op_ack
    then to_send acks n (i + 1)
    else i ∷ to_send acks n (i + 1)

-- The links lead from `i` over the work requests of the list to `j`.
abbrev pub Leads : (ℕ → Option ℕ) → ℕ → List ℕ → ℕ → Type 0
Leads next i [] j = i ≡ j
Leads next i (k ∷ ks) j = (next i ≡ some k) × Leads next k ks j

-- the ack after it was sent
abbrev pub as_sent : Ack → Ack
as_sent ack = record ack { opcode = op_ack }

pub to_send-set :
    (acks : List Ack) (n i j : ℕ) (v : Ack) → j < i → to_send (set acks j v) n i ≡ to_send acks n i
unfolding to_send
to_send-set acks zero i j v lt = refl
to_send-set acks (suc n) i j v lt =
    rw
      (
        get_or-set_ne acks j i v blank_ack (λ e. omega (arith, e, lt)),
        to_send-set acks n (i + 1) j v (omega (arith, lt)),
      )
      refl

as_sent_self : (ack : Ack) → ack.opcode ≡ op_ack → as_sent ack ≡ ack
as_sent_self ack e = ap (λ k. record ack { opcode = k }) (sym e)

-- From `s` to `s'`, the acks of `n` machines from `m_i` on were dealt with.
pub record Dealt (n m_i : ℕ) (s s' : AckLoop) : Type 0 where
  pub below : (i : ℕ) → i < m_i → get_or s'.qp.acks i blank_ack ≡ get_or s.qp.acks i blank_ack
  pub all :
      (i : ℕ)
      → m_i ≤ i
      → i < m_i + n
      → get_or s'.qp.acks i blank_ack ≡ as_sent (get_or s.qp.acks i blank_ack)
  pub count : s'.ack_i ≡ s.ack_i + length (to_send s.qp.acks n m_i)
  pub recvs : s'.qp.recv_info ≡ s.qp.recv_info
  pub wanted : s'.qp.recv_wr_num ≡ s.qp.recv_wr_num

pub skip-Dealt :
    (n m_i : ℕ) (s s' : AckLoop)
    → (get_or s.qp.acks m_i blank_ack).opcode ≡ op_ack
    → Dealt n (m_i + 1) s s'
    → Dealt (suc n) m_i s s'
unfolding to_send
skip-Dealt n m_i s s' e d = record {
  below = λ i lt. d.below i (omega (arith, lt));
  all = λ i ge lt. elim (ℕ_discrete m_i i) [
    | yes same ↦
        subst (λ k. get_or s'.qp.acks k blank_ack ≡ as_sent (get_or s.qp.acks k blank_ack)) same
          (d.below m_i (omega arith) ∙ sym (as_sent_self _ e))
    | no ne ↦ d.all i (omega (arith, ge, ne)) (omega (arith, lt))
  ];
  count = rw (eq→== (get_or s.qp.acks m_i blank_ack).opcode op_ack e) d.count;
  recvs = d.recvs;
  wanted = d.wanted;
}

pub forge-Dealt :
    (n m_i : ℕ) (s s' : AckLoop)
    → ((get_or s.qp.acks m_i blank_ack).opcode == op_ack) ≡ false
    → m_i < length s.qp.acks
    → Dealt n (m_i + 1) (forge_ack m_i s) s'
    → Dealt (suc n) m_i s s'
unfolding to_send
forge-Dealt n m_i s s' e at d = record {
  below = λ i lt.
      d.below i (omega (arith, lt))
      ∙ get_or-set_ne s.qp.acks m_i i _ blank_ack (λ x. omega (arith, x, lt));
  all = λ i ge lt. elim (ℕ_discrete m_i i) [
    | yes same ↦
        subst (λ k. get_or s'.qp.acks k blank_ack ≡ as_sent (get_or s.qp.acks k blank_ack)) same
          (d.below m_i (omega arith) ∙ get_or-set_self s.qp.acks m_i _ blank_ack at)
    | no ne ↦
        d.all i (omega (arith, ge, ne)) (omega (arith, lt))
        ∙ ap as_sent (get_or-set_ne s.qp.acks m_i i _ blank_ack ne)
  ];
  count = rw e (
      omega (
        arith,
        d.count,
        ap length (
            to_send-set s.qp.acks n (m_i + 1) m_i (as_sent (get_or s.qp.acks m_i blank_ack))
              (omega arith)),
      ));
  recvs = d.recvs;
  wanted = d.wanted;
}

abbrev pub rest_of : List ℕ → List ℕ
rest_of [] = []
rest_of (k ∷ ks) = ks

abbrev pub Rising : ℕ → List ℕ → Type 0
Rising i [] = Unit
Rising i (k ∷ ks) = (i < k) × Rising k ks

pub to_send-Rising : (acks : List Ack) (n i j : ℕ) → j < i → Rising j (to_send acks n i)
unfolding to_send
to_send-Rising acks zero i j lt = tt
to_send-Rising acks (suc n) i j lt =
    elim (Bool-cases ((get_or acks i blank_ack).opcode == op_ack)) [
      | inl was_sent ↦ rw was_sent (to_send-Rising acks n (i + 1) j (omega (arith, lt)))
      | inr collected ↦ rw collected (lt, to_send-Rising acks n (i + 1) i (omega arith))
    ]

Leads-le :
    (next : ℕ → Option ℕ) (i : ℕ) (ks : List ℕ) (j : ℕ) → Rising i ks → Leads next i ks j → i ≤ j
Leads-le next i [] j rising leads = omega (arith, leads)
Leads-le next i (k ∷ ks) j rising leads =
    omega (arith, rising.0, Leads-le next k ks j rising.1 leads.1)

-- Ending the list at its last work request keeps the links to it.
pub Leads-put :
    (next : ℕ → Option ℕ) (i : ℕ) (ks : List ℕ) (j : ℕ)
    → Rising i ks
    → Leads next i ks j
    → Leads (put next j none) i ks j
Leads-put next i [] j rising leads = leads
Leads-put next i (k ∷ ks) j rising leads =
    let le = Leads-le next k ks j rising.1 leads.1 in
    (
      rw (ne→==_false j i (λ e. omega (arith, e, le, rising.0))) leads.0,
      Leads-put next k ks j rising.1 leads.1,
    )

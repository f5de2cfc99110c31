-- ===== src/Quorum/Credits/Enough.antt =====
-- What the number of credits that `check_bcast_credits` reports is worth.
use odyssey_lib.Base.{
  Bool, Bool-cases, List, Option-cases, ap, arith, assert_if, get_or, inl, inr, ltb, ltb→lt, none,
  none-ne_some, refl, some, some_injective, subst, suc, sym, u32, zero, ℕ, ℕ_discrete, ◌+◌, ◌<◌,
  ◌==◌, ◌∙◌, ◌≡◌, ◌≤◌, ◌⊎◌,
}
use odyssey_lib.Config.{credit_timeout, remote_quorum}
use odyssey_lib.Quorum.{QuorumInfo}
use odyssey_lib.Quorum.Credits.{
  CreditCheck, active_short, actives_ok, check_bcast_credits, count_credits, credits_timed_out,
  least_credits, revive_missing,
}

module _ (credits ids : List ℕ) where
  abbrev pub credit : ℕ → ℕ
  credit k = get_or credits (get_or ids k 0) 0

  least_credits-le :
      (n i avail_cred : ℕ)
      → (least_credits credits ids n i avail_cred ≤ avail_cred)
        × ((k : ℕ) → i ≤ k → k < i + n → least_credits credits ids n i avail_cred ≤ credit k)
  unfolding least_credits
  least_credits-le zero i avail_cred = (omega arith, λ k x y. absurd (omega arith))
  least_credits-le (suc n) i avail_cred = elim (Bool-cases (ltb (credit i) avail_cred)) [
    | inl below ↦
        let rest = least_credits-le n (i + 1) (credit i) in
        let lt = ltb→lt (credit i) avail_cred below in
        rw below (
          omega (arith, rest.0, lt),
          λ k x y. elim (ℕ_discrete i k) [
            | yes e ↦
                subst (λ j. least_credits credits ids n (i + 1) (credit i) ≤ credit j) e rest.0
            | no ne ↦ rest.1 k (omega arith) (omega arith)
          ],
        )
    | inr above ↦
        let rest = least_credits-le n (i + 1) avail_cred in
        rw above (
          rest.0,
          λ k x y. elim (ℕ_discrete i k) [
            | yes e ↦
                subst (λ j. least_credits credits ids n (i + 1) avail_cred ≤ credit j) e
                  (ground (arith, rest.0, above))
            | no ne ↦ rest.1 k (omega arith) (omega arith)
          ],
        )
  ]

module _ (machine_id : ℕ) (assertions enable_multicast : Bool) where
  abbrev counted : List ℕ → QuorumInfo → CreditCheck
  counted credits q = record {
    q_info = q;
    time_out_cnt = 0;
    available = some (least_credits credits q.active_ids q.active_num 0 65535);
  }

  abbrev too_few : QuorumInfo → CreditCheck
  too_few q = record { q_info = q; time_out_cnt = 0; available = none }

  pub count_credits-cases :
      (credits : List ℕ) (q : QuorumInfo) (r : CreditCheck)
      → count_credits machine_id assertions enable_multicast credits q ≡ some r
      → (too_few q ≡ r) ⊎ ((remote_quorum ≤ q.active_num) × (counted credits q ≡ r))
  unfolding count_credits
  count_credits-cases credits q r h = elim (Bool-cases (ltb q.active_num remote_quorum)) [
    | inl low ↦ inl (some_injective (rw low at h))
    | inr high ↦
        elim (Option-cases
          (assert_if assertions (actives_ok machine_id q.active_ids q.active_num 0))) [
            | inl bad ↦ absurd (none-ne_some (rw (high, bad) at h))
            | inr (u, ok) ↦ inr (ground (arith, high), some_injective (rw (high, ok) at h))
          ]
  ]

  count_credits-Enough :
      (credits : List ℕ) (q : QuorumInfo) (r : CreditCheck) (a : ℕ)
      → count_credits machine_id assertions enable_multicast credits q ≡ some r
      → r.available ≡ some a
      → (remote_quorum ≤ r.q_info.active_num)
        × ((k : ℕ) → k < r.q_info.active_num → a ≤ credit credits r.q_info.active_ids k)
  count_credits-Enough credits q r a h e = elim (count_credits-cases credits q r h) [
    | inl few ↦ absurd (none-ne_some (ap (λ t. t.available) few ∙ e))
    | inr (quorum, same) ↦
        let least : least_credits credits q.active_ids q.active_num 0 65535 ≡ a =
          some_injective (ap (λ t. t.available) same ∙ e) in
        let l = least_credits-le credits q.active_ids q.active_num 0 65535 in
        subst
          (λ (t : CreditCheck).
            (remote_quorum ≤ t.q_info.active_num)
            × ((k : ℕ) → k < t.q_info.active_num → a ≤ credit credits t.q_info.active_ids k))
          same (quorum, λ k x. omega (arith, l.1 k (omega arith) (omega arith), least))
  ]

  pub timed_out-available :
      (credits : List ℕ) (q : QuorumInfo) (time_out_cnt min_credits : ℕ)
      → (credits_timed_out machine_id assertions enable_multicast credits q time_out_cnt
          min_credits).available
        ≡ none
  unfolding credits_timed_out
  timed_out-available credits q time_out_cnt min_credits =
      elim (Bool-cases (u32 (time_out_cnt + 1) == credit_timeout)) [
        | inl out ↦ rw out refl
        | inr not_yet ↦ rw not_yet refl
      ]

  -- The number of credits that `check_bcast_credits` reports when it returns true is at most the
  -- credits of each machine that it leaves active, and those are at least REMOTE_QUORUM many.
  pub check_bcast_credits-Enough :
      (credits : List ℕ) (q : QuorumInfo) (time_out_cnt min_credits : ℕ) (r : CreditCheck) (a : ℕ)
      → check_bcast_credits machine_id assertions enable_multicast credits q time_out_cnt
          min_credits
        ≡ some r
      → r.available ≡ some a
      → (remote_quorum ≤ r.q_info.active_num)
        × ((k : ℕ) → k < r.q_info.active_num → a ≤ credit credits r.q_info.active_ids k)
  unfolding check_bcast_credits
  check_bcast_credits-Enough credits q time_out_cnt min_credits r a h e =
      elim (Bool-cases (active_short credits q.active_ids min_credits q.active_num 0)) [
        | inl short ↦ absurd (
            none-ne_some (
              sym (timed_out-available credits q time_out_cnt min_credits)
              ∙ ap (λ t. t.available) (some_injective (rw short at h))
              ∙ e))
        | inr fine ↦
            elim (Option-cases (revive_missing machine_id assertions enable_multicast 256 0 q)) [
              | inl bad ↦ absurd (none-ne_some (rw (fine, bad) at h))
              | inr (s, ok) ↦ count_credits-Enough credits s r a (rw (fine, ok) at h) e
            ]
      ]

-- ===== src/Quorum/Credits/Kept.antt =====
-- The credits that `check_bcast_credits` may read stay as they are.
use odyssey_lib.Base.{
  Bool, Bool-cases, List, Option-cases, ap, assert_if-cases, false, get_or, inl, inr, ltb,
  none-ne_some, refl, some, some_injective, suc, sym, zero, ℕ, ◌+◌, ◌∙◌, ◌≡◌,
}
use odyssey_lib.Config.{rem_mach_num}
use odyssey_lib.Quorum.{
  QuorumInfo, all_q_info_targets_are_reached, revive_loop, revive_machine, revive_one,
  update_all_links,
}
use odyssey_lib.Quorum.Credits.{CreditCheck, active_short, check_bcast_credits, revive_missing}
use odyssey_lib.Quorum.Credits.Enough.{count_credits-cases, timed_out-available}

module _ (machine_id : ℕ) (assertions enable_multicast : Bool) where
  revive_loop-credit_ptrs :
      (n i : ℕ) (q : QuorumInfo) → (revive_loop machine_id n i q).credit_ptrs ≡ q.credit_ptrs
  unfolding revive_loop revive_one
  revive_loop-credit_ptrs zero i q = refl
  revive_loop-credit_ptrs (suc n) i q =
      revive_loop-credit_ptrs n (i + 1) (revive_one machine_id i q)
      ∙ elim (Bool-cases (get_or q.send_vector i false)) [
        | inl up ↦ rw up refl
        | inr down ↦ rw down refl
      ]

  revive_machine-credit_ptrs :
      (id : ℕ) (q r : QuorumInfo)
      → revive_machine machine_id assertions id q ≡ some r
      → r.credit_ptrs ≡ q.credit_ptrs
  unfolding revive_machine
  revive_machine-credit_ptrs id q r h =
      let a1 = assert_if-cases assertions _ h in
      let a2 = assert_if-cases assertions _ a1 in
      let a3 = assert_if-cases assertions _ a2 in
      let a4 = assert_if-cases assertions _ a3 in
      ap (λ (t : QuorumInfo). t.credit_ptrs) (sym (some_injective a4))
      ∙ revive_loop-credit_ptrs rem_mach_num 0 _

  revive_missing-credit_ptrs :
      (fuel i : ℕ) (q r : QuorumInfo)
      → revive_missing machine_id assertions enable_multicast fuel i q ≡ some r
      → r.credit_ptrs ≡ q.credit_ptrs
  unfolding revive_missing
  revive_missing-credit_ptrs zero i q r h =
      ap (λ (t : QuorumInfo). t.credit_ptrs) (sym (some_injective h))
  revive_missing-credit_ptrs (suc fuel) i q r h = elim (Bool-cases (ltb i q.missing_num)) [
    | inr done ↦ ap (λ (t : QuorumInfo). t.credit_ptrs) (sym (some_injective (rw done at h)))
    | inl more ↦ elim (Bool-cases (all_q_info_targets_are_reached q i)) [
      | inr waiting ↦ revive_missing-credit_ptrs fuel (i + 1) q r (rw (more, waiting) at h)
      | inl yes_all ↦
          elim (Option-cases (revive_machine machine_id assertions (get_or q.missing_ids i 0) q)) [
            | inl bad ↦ absurd (none-ne_some (rw (more, yes_all, bad) at h))
            | inr (m, ok) ↦
                revive_missing-credit_ptrs fuel (i + 1) (update_all_links enable_multicast m) r
                  (rw (more, yes_all, ok) at h)
                ∙ revive_machine-credit_ptrs (get_or q.missing_ids i 0) q m ok
          ]
    ]
  ]

  -- When it returns true, none of the credits has changed.
  pub check_bcast_credits-credit_ptrs :
      (credits : List ℕ) (q : QuorumInfo) (time_out_cnt min_credits : ℕ) (r : CreditCheck) (a : ℕ)
      → check_bcast_credits machine_id assertions enable_multicast credits q time_out_cnt
          min_credits
        ≡ some r
      → r.available ≡ some a
      → r.q_info.credit_ptrs ≡ q.credit_ptrs
  unfolding check_bcast_credits
  check_bcast_credits-credit_ptrs credits q time_out_cnt min_credits r a h e =
      elim (Bool-cases (active_short credits q.active_ids min_credits q.active_num 0)) [
        | inl short ↦ absurd (
            none-ne_some (
              sym (
                timed_out-available machine_id assertions enable_multicast credits q time_out_cnt
                  min_credits)
              ∙ ap (λ t. t.available) (some_injective (rw short at h))
              ∙ e))
        | inr fine ↦
            elim (Option-cases (revive_missing machine_id assertions enable_multicast 256 0 q)) [
              | inl bad ↦ absurd (none-ne_some (rw (fine, bad) at h))
              | inr (s, ok) ↦
                  elim (count_credits-cases machine_id assertions enable_multicast credits s r
                    (rw (fine, ok) at h)) [
                      | inl few ↦ absurd (none-ne_some (ap (λ t. t.available) few ∙ e))
                      | inr (quorum, same) ↦
                          ap (λ (t : CreditCheck). t.q_info.credit_ptrs) (sym same)
                          ∙ revive_missing-credit_ptrs 256 0 q s ok
                    ]
            ]
      ]

-- ===== src/Quorum/Vector.antt =====
-- What `update_q_info` writes to the send vector.
use odyssey_lib.Base.{
  ==_false→ne, Bool, Bool-cases, List, ap, arith, false, get_or, get_or-set_ne, get_or-set_self,
  inl, inr, length, length-set, ltb, ne→==_false, not, refl, suc, true, zero, ℕ, ℕ_discrete, ◌+◌,
  ◌<◌, ◌==◌, ◌∙◌, ◌≡◌, ◌≢◌, ◌≤◌,
}
use odyssey_lib.Config.{machine_num, rem_mach_num}
use odyssey_lib.Ids.{mid_to_rmid}
use odyssey_lib.Quorum.{QuorumInfo, update_loop, update_one, update_q_info}

mid_to_rmid-lt :
    (machine_id k : ℕ)
    → machine_id < machine_num
    → k < machine_num
    → k ≢ machine_id
    → mid_to_rmid machine_id k < rem_mach_num
unfolding mid_to_rmid
mid_to_rmid-lt machine_id k m b ne = ground arith

mid_to_rmid-ne :
    (machine_id i k : ℕ)
    → machine_id < machine_num
    → i < machine_num
    → k < machine_num
    → i ≢ machine_id
    → k ≢ machine_id
    → i ≢ k
    → mid_to_rmid machine_id i ≢ mid_to_rmid machine_id k
unfolding mid_to_rmid
mid_to_rmid-ne machine_id i k m bi b ni ne d = ground arith

module _ (machine_id : ℕ) (credits : List ℕ) (min_credits : ℕ) where
  abbrev pub usable : ℕ → Bool
  usable k = not (ltb (get_or credits k 0) min_credits)

  update_one-vector_same :
      (q : QuorumInfo) (k : ℕ)
      → machine_id < machine_num
      → k < machine_num
      → k ≢ machine_id
      → length q.send_vector ≡ rem_mach_num
      → get_or
          (update_one machine_id credits min_credits k q).send_vector
          (mid_to_rmid machine_id k)
          false
        ≡ usable k
  unfolding update_one
  update_one-vector_same q k m b ne s =
      let r : mid_to_rmid machine_id k < length q.send_vector =
        omega (arith, mid_to_rmid-lt machine_id k m b ne, s) in
      elim (Bool-cases (ltb (get_or credits k 0) min_credits)) [
        | inl few ↦
            rw (ne→==_false k machine_id ne, few)
              (get_or-set_self q.send_vector (mid_to_rmid machine_id k) false false r)
        | inr enough ↦
            rw (ne→==_false k machine_id ne, enough)
              (get_or-set_self q.send_vector (mid_to_rmid machine_id k) true false r)
      ]

  update_one-vector_other :
      (q : QuorumInfo) (i k : ℕ)
      → machine_id < machine_num
      → i < machine_num
      → k < machine_num
      → k ≢ machine_id
      → i ≢ k
      → get_or
          (update_one machine_id credits min_credits i q).send_vector
          (mid_to_rmid machine_id k)
          false
        ≡ get_or q.send_vector (mid_to_rmid machine_id k) false
  unfolding update_one
  update_one-vector_other q i k m bi b ne ik = elim (Bool-cases (i == machine_id)) [
    | inl me ↦ rw me refl
    | inr other ↦
        let d = mid_to_rmid-ne machine_id i k m bi b (==_false→ne i machine_id other) ne ik in
        elim (Bool-cases (ltb (get_or credits i 0) min_credits)) [
          | inl few ↦ rw (other, few) (get_or-set_ne q.send_vector _ _ false false d)
          | inr enough ↦ rw (other, enough) (get_or-set_ne q.send_vector _ _ true false d)
        ]
  ]

  update_one-length :
      (q : QuorumInfo) (i : ℕ)
      → length (update_one machine_id credits min_credits i q).send_vector ≡ length q.send_vector
  unfolding update_one
  update_one-length q i = elim (Bool-cases (i == machine_id)) [
    | inl me ↦ rw me refl
    | inr other ↦ elim (Bool-cases (ltb (get_or credits i 0) min_credits)) [
      | inl few ↦ rw (other, few) (length-set q.send_vector _ false)
      | inr enough ↦ rw (other, enough) (length-set q.send_vector _ true)
    ]
  ]

  module _ (k : ℕ) (m : machine_id < machine_num) (b : k < machine_num) (ne : k ≢ machine_id) where
    abbrev bit : QuorumInfo → Bool
    bit q = get_or q.send_vector (mid_to_rmid machine_id k) false

    update_loop-vector_past :
        (n i : ℕ) (q : QuorumInfo)
        → i + n ≤ machine_num
        → k < i
        → bit (update_loop machine_id credits min_credits n i q) ≡ bit q
    unfolding update_loop
    update_loop-vector_past zero i q t past = refl
    update_loop-vector_past (suc n) i q t past =
        update_loop-vector_past n (i + 1) (update_one machine_id credits min_credits i q)
          (omega arith) (omega arith)
        ∙ update_one-vector_other q i k m (omega arith) b ne (omega arith)

    update_loop-vector :
        (n i : ℕ) (q : QuorumInfo)
        → i + n ≤ machine_num
        → length q.send_vector ≡ rem_mach_num
        → i ≤ k
        → k < i + n
        → bit (update_loop machine_id credits min_credits n i q) ≡ usable k
    unfolding update_loop
    update_loop-vector zero i q t s x y = absurd (omega arith)
    update_loop-vector (suc n) i q t s x y = elim (ℕ_discrete i k) [
      | yes e ↦
          update_loop-vector_past n (i + 1) (update_one machine_id credits min_credits i q)
            (omega arith) (omega arith)
          ∙ ap (λ j. bit (update_one machine_id credits min_credits j q)) e
          ∙ update_one-vector_same q k m b ne s
      | no d ↦
          update_loop-vector n (i + 1) (update_one machine_id credits min_credits i q) (omega arith)
            (update_one-length q i ∙ s) (omega arith) (omega arith)
    ]

  -- On a send vector of REM_MACH_NUM elements, `update_q_info` sets the send bit of the remote id of every other machine `k` to whether `k` has
  -- at least `min_credits` credits.
  pub update_q_info-vector :
      (q : QuorumInfo) (k : ℕ)
      → machine_id < machine_num
      → k < machine_num
      → k ≢ machine_id
      → length q.send_vector ≡ rem_mach_num
      → get_or
          (update_q_info machine_id credits min_credits q).send_vector
          (mid_to_rmid machine_id k)
          false
        ≡ usable k
  unfolding update_q_info
  update_q_info-vector q k m b ne s =
      let start : QuorumInfo = record q { missing_num = 0; active_num = 0 } in
      let h =
        update_loop-vector k m b ne machine_num 0 start (omega arith) s (omega arith)
          (omega arith) in
      elim (Bool-cases
        (ltb 0 (update_loop machine_id credits min_credits machine_num 0 start).active_num)) [
          | inl some_active ↦ rw some_active h
          | inr no_active ↦ rw no_active h
        ]

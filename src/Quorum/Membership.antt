-- ===== src/Quorum/Membership.antt =====
-- `update_q_info` sorts the remote machines into active and missing ones.
use odyssey_lib.Base.{
  Bool, Bool-cases, List, [], ap, append-nil, append_assoc, arith, false, get_or, if◌then◌else◌,
  inl, inr, length, length-set, ltb, refl, set, suc, sym, take, take-set_snoc, true, u8, zero, ℕ,
  ◌++◌, ◌+◌, ◌<◌, ◌==◌, ◌∙◌, ◌∷◌, ◌≡◌, ◌≤◌,
}
use odyssey_lib.Config.{machine_num, rem_mach_num}
use odyssey_lib.Ids.{mid_to_rmid}
use odyssey_lib.Quorum.{QuorumInfo, add_active, add_missing, update_loop, update_one, update_q_info}

-- The machines other than this one, out of `n` from `i` on, and those of them with enough credits
-- or too few.
abbrev pub others : ℕ → ℕ → ℕ → ℕ
others machine_id zero i = 0
others machine_id (suc n) i =
    if i == machine_id then others machine_id n (i + 1) else suc (others machine_id n (i + 1))

abbrev pub with_credits : ℕ → List ℕ → ℕ → ℕ → ℕ → List ℕ
with_credits machine_id credits min_credits zero i = []
with_credits machine_id credits min_credits (suc n) i =
    if i == machine_id
    then with_credits machine_id credits min_credits n (i + 1)
    else if ltb (get_or credits i 0) min_credits
    then with_credits machine_id credits min_credits n (i + 1)
    else i ∷ with_credits machine_id credits min_credits n (i + 1)

abbrev pub without_credits : ℕ → List ℕ → ℕ → ℕ → ℕ → List ℕ
without_credits machine_id credits min_credits zero i = []
without_credits machine_id credits min_credits (suc n) i =
    if i == machine_id
    then without_credits machine_id credits min_credits n (i + 1)
    else if ltb (get_or credits i 0) min_credits
    then i ∷ without_credits machine_id credits min_credits n (i + 1)
    else without_credits machine_id credits min_credits n (i + 1)

others-le :
    (machine_id n i : ℕ)
    → (others machine_id n i ≤ n)
      × (i ≤ machine_id → machine_id < i + n → others machine_id n i + 1 ≤ n)
others-le machine_id zero i = (omega arith, λ h k. absurd (omega arith))
others-le machine_id (suc n) i = ground (arith, others-le machine_id n (i + 1))

abbrev pub Sized : QuorumInfo → Type 0
Sized q =
    (length q.missing_ids ≡ rem_mach_num)
    × (length q.active_ids ≡ rem_mach_num)
    × (length q.send_vector ≡ rem_mach_num)

-- What the loop has done to `q` when it returns `r`, having put the machines `up` and `down` last.
pub record Sorted (q r : QuorumInfo) (up down : List ℕ) : Type 0 where
  pub actives : take r.active_num r.active_ids ≡ take q.active_num q.active_ids ++ up
  pub missing : take r.missing_num r.missing_ids ≡ take q.missing_num q.missing_ids ++ down
  pub active_num : r.active_num ≡ q.active_num + length up
  pub missing_num : r.missing_num ≡ q.missing_num + length down
  pub sized : Sized r

others-ge :
    (machine_id n i : ℕ)
    → (n ≤ others machine_id n i + 1) × (machine_id < i → n ≤ others machine_id n i)
others-ge machine_id zero i = (omega arith, λ h. omega arith)
others-ge machine_id (suc n) i = ground (arith, others-ge machine_id n (i + 1))

module _ (machine_id : ℕ) (credits : List ℕ) (min_credits : ℕ) where
  abbrev pub Outcome : ℕ → ℕ → QuorumInfo → Type 0
  Outcome n i q =
      Sorted q (update_loop machine_id credits min_credits n i q)
        (with_credits machine_id credits min_credits n i)
        (without_credits machine_id credits min_credits n i)

  -- what one more id at the end of an array does to its prefix in use
  take-push :
      (xs : List ℕ) (n i : ℕ) (ys : List ℕ)
      → n < length xs
      → n < 255
      → take (u8 (n + 1)) (set xs n i) ++ ys ≡ take n xs ++ i ∷ ys
  take-push xs n i ys h small =
      let e : u8 (n + 1) ≡ n + 1 = omega arith in
      ap (λ k. take k (set xs n i) ++ ys) e
      ∙ ap (λ t. t ++ ys) (take-set_snoc xs n i h)
      ∙ append_assoc (take n xs) (i ∷ []) ys

  Sorted-missing :
      {q : QuorumInfo} (i : ℕ) (v : List Bool) {r : QuorumInfo} {up down : List ℕ}
      → Sized q
      → length v ≡ rem_mach_num
      → q.missing_num < rem_mach_num
      → Sorted (record (add_missing q i) { send_vector = v }) r up down
      → Sorted q r up (i ∷ down)
  Sorted-missing {q} i v {r} {up} {down} s l room h =
      let n : u8 (q.missing_num + 1) ≡ q.missing_num + 1 = omega arith in
      record {
        actives = h.actives;
        missing =
            h.missing
            ∙ take-push q.missing_ids q.missing_num i down (omega (arith, s.0)) (omega arith);
        active_num = h.active_num;
        missing_num = omega (arith, h.missing_num, n);
        sized = h.sized;
      }

  Sorted-active :
      {q : QuorumInfo} (i : ℕ) (v : List Bool) {r : QuorumInfo} {up down : List ℕ}
      → Sized q
      → length v ≡ rem_mach_num
      → q.active_num < rem_mach_num
      → Sorted (record (add_active q i) { send_vector = v }) r up down
      → Sorted q r (i ∷ up) down
  Sorted-active {q} i v {r} {up} {down} s l room h =
      let n : u8 (q.active_num + 1) ≡ q.active_num + 1 = omega arith in
      record {
        actives =
            h.actives ∙ take-push q.active_ids q.active_num i up (omega (arith, s.1)) (omega arith);
        missing = h.missing;
        active_num = omega (arith, h.active_num, n);
        missing_num = h.missing_num;
        sized = h.sized;
      }

  update_loop-Sorted :
      (n i : ℕ) (q : QuorumInfo)
      → Sized q
      → q.active_num + q.missing_num + others machine_id n i ≤ rem_mach_num
      → Outcome n i q
  unfolding update_loop update_one
  update_loop-Sorted zero i q s room = record {
    actives = sym (append-nil _);
    missing = sym (append-nil _);
    active_num = omega arith;
    missing_num = omega arith;
    sized = s;
  }
  update_loop-Sorted (suc n) i q s room = elim (Bool-cases (i == machine_id)) [
    | inl me ↦ rw me (update_loop-Sorted n (i + 1) q s (ground arith))
    | inr other ↦ elim (Bool-cases (ltb (get_or credits i 0) min_credits)) [
      | inl few ↦
          let v : List Bool = set q.send_vector (mid_to_rmid machine_id i) false in
          let l : length v ≡ rem_mach_num =
            length-set q.send_vector (mid_to_rmid machine_id i) false ∙ s.2 in
          rw (other, few)
            (Sorted-missing i v s l (ground arith) (
              update_loop-Sorted n (i + 1) (record (add_missing q i) { send_vector = v })
                (length-set q.missing_ids q.missing_num i ∙ s.0, s.1, l) (ground arith)))
      | inr enough ↦
          let v : List Bool = set q.send_vector (mid_to_rmid machine_id i) true in
          let l : length v ≡ rem_mach_num =
            length-set q.send_vector (mid_to_rmid machine_id i) true ∙ s.2 in
          rw (other, enough)
            (Sorted-active i v s l (ground arith) (
              update_loop-Sorted n (i + 1) (record (add_active q i) { send_vector = v })
                (s.0, length-set q.active_ids q.active_num i ∙ s.1, l) (ground arith)))
    ]
  ]

  update_q_info-Sorted :
      (q : QuorumInfo)
      → machine_id < machine_num
      → Sized q
      → Sorted
          (record q { missing_num = 0; active_num = 0 })
          (update_q_info machine_id credits min_credits q)
          (with_credits machine_id credits min_credits machine_num 0)
          (without_credits machine_id credits min_credits machine_num 0)
  unfolding update_q_info
  update_q_info-Sorted q m s =
      let start : QuorumInfo = record q { missing_num = 0; active_num = 0 } in
      let few = (others-le machine_id machine_num 0).1 (omega arith) (omega arith) in
      let h = update_loop-Sorted machine_num 0 start s (omega arith) in
      elim (Bool-cases
        (ltb 0 (update_loop machine_id credits min_credits machine_num 0 start).active_num)) [
          | inl some_active ↦ rw some_active record {
            actives = h.actives;
            missing = h.missing;
            active_num = h.active_num;
            missing_num = h.missing_num;
            sized = h.sized;
          }
          | inr no_active ↦ rw no_active record {
            actives = h.actives;
            missing = h.missing;
            active_num = h.active_num;
            missing_num = h.missing_num;
            sized = h.sized;
          }
        ]

  lengths :
      (n i : ℕ)
      → length (with_credits machine_id credits min_credits n i)
          + length (without_credits machine_id credits min_credits n i)
        ≡ others machine_id n i
  lengths zero i = refl
  lengths (suc n) i = elim (Bool-cases (i == machine_id)) [
    | inl me ↦ rw me (lengths n (i + 1))
    | inr other ↦ elim (Bool-cases (ltb (get_or credits i 0) min_credits)) [
      | inl few ↦ rw (other, few) (omega (arith, lengths n (i + 1)))
      | inr enough ↦ rw (other, enough) (omega (arith, lengths n (i + 1)))
    ]
  ]

  -- `update_q_info` run on arrays of REM_MACH_NUM elements leaves as active ids the remote
  -- machines with at least `min_credits` credits, in order, as missing ids the others, in order, and
  -- their counts are right and add up to REM_MACH_NUM.
  pub update_q_info_lem :
      (q : QuorumInfo)
      → machine_id < machine_num
      → Sized q
      → let r = update_q_info machine_id credits min_credits q in
        (take r.active_num r.active_ids ≡ with_credits machine_id credits min_credits machine_num 0)
        × (take r.missing_num r.missing_ids
            ≡ without_credits machine_id credits min_credits machine_num 0)
        × (r.active_num ≡ length (with_credits machine_id credits min_credits machine_num 0))
        × (r.active_num + r.missing_num ≡ rem_mach_num)
        × Sized r
  update_q_info_lem q m s =
      let h = update_q_info-Sorted q m s in
      let few = (others-le machine_id machine_num 0).1 (omega arith) (omega arith) in
      let many = (others-ge machine_id machine_num 0).0 in
      (
        h.actives,
        h.missing,
        omega (arith, h.active_num),
        omega (arith, h.active_num, h.missing_num, lengths machine_num 0),
        h.sized,
      )

-- ===== src/Network/Acks/Cover.antt =====
-- Which of the writes that wait for acks an ack is about.
use native.Mathlib.Nat.{mod-eq_of_lt}
use odyssey_lib.Base.{
  Bool, Bool-cases, ap, arith, assert_if-true, false, if◌then◌else◌, inl, inr, leb, leb→le, ltb,
  refl, some, sym, true, u32, ℕ, ◌%◌, ◌&&◌, ◌+◌, ◌-◌, ◌<◌, ◌==◌, ◌^◌, ◌||◌, ◌∙◌, ◌≡◌, ◌≤◌,
}
use odyssey_lib.Fifo.{Fifo}
use odyssey_lib.Network.Acks.{Ack, ctx_find_when_the_ack_points_acked, od_is_ack_too_old}

-- the first id of the ack that is not pulled yet
abbrev pub first_id : Ack → ℕ → ℕ
first_id ack pull_lid = if leb ack.l_id pull_lid then pull_lid else ack.l_id

-- An ack of at least one id is too old exactly when no write waits, or when every id that it covers is below the id `pull_lid` at
-- the head of the fifo.
pub od_is_ack_too_old_lem :
    (ack : Ack) (rob : Fifo) (pull_lid : ℕ)
    → 0 < ack.ack_num
    → od_is_ack_too_old ack rob pull_lid
      ≡ (rob.capacity == 0 || leb (ack.l_id + ack.ack_num) pull_lid)
unfolding od_is_ack_too_old
od_is_ack_too_old_lem ack rob pull_lid some_ack = ground (arith, some_ack)

-- For an ack that is not too old (sizes in range, and at most `max_size` ids above `pull_lid` covered), the slot returned is that
-- of the first id that is covered and not pulled, as far behind the pull pointer as the id is above
-- `pull_lid`, and the count is that of the ids from there to the end of the ack, at least one.
pub ctx_find_when_the_ack_points_acked-Covers :
    (assertions : Bool) (ack : Ack) (rob : Fifo) (pull_lid : ℕ)
    → od_is_ack_too_old ack rob pull_lid ≡ false
    → 0 < ack.ack_num
    → ack.ack_num < 2 ^ 32
    → pull_lid < 2 ^ 64
    → rob.pull_ptr < rob.max_size
    → rob.max_size < 2 ^ 31
    → ack.l_id + ack.ack_num ≤ pull_lid + rob.max_size
    → (n : ℕ) × (ctx_find_when_the_ack_points_acked assertions ack rob pull_lid ack.ack_num
        ≡ some ((rob.pull_ptr + (first_id ack pull_lid - pull_lid)) % rob.max_size, n))
      × (first_id ack pull_lid + n ≡ ack.l_id + ack.ack_num)
      × (0 < n)
unfolding ctx_find_when_the_ack_points_acked
ctx_find_when_the_ack_points_acked-Covers assertions ack rob pull_lid young some_ack few small
      inside size bound =
    let young' : (rob.capacity == 0 || leb (ack.l_id + ack.ack_num) pull_lid) ≡ false =
      sym (od_is_ack_too_old_lem ack rob pull_lid some_ack) ∙ young in
    elim (Bool-cases (leb ack.l_id pull_lid)) [
      | inl pulled ↦
          let n = ack.l_id + ack.ack_num - pull_lid in
          let lt : pull_lid < ack.l_id + ack.ack_num = ground (arith, young') in
          let le : ack.l_id ≤ pull_lid = leb→le ack.l_id pull_lid pulled in
          let left : u32 (ack.ack_num + 2 ^ 64 - (pull_lid - ack.l_id)) ≡ n =
            omega (arith, lt, le, few) in
          let in_bounds : (ltb 0 n && leb n rob.max_size) ≡ true = ground (arith, lt, bound) in
          let fine = assert_if-true assertions in_bounds in
          let none_above : rob.pull_ptr + (pull_lid - pull_lid) ≡ rob.pull_ptr = omega arith in
          let at : (rob.pull_ptr + (pull_lid - pull_lid)) % rob.max_size ≡ rob.pull_ptr =
            ap (λ k. k % rob.max_size) none_above ∙ mod-eq_of_lt inside in
          rw (pulled, left, fine, at) (n, refl, omega (arith, lt), omega (arith, lt))
      | inr above ↦
          let at : u32 (rob.pull_ptr + (ack.l_id - pull_lid))
              ≡ rob.pull_ptr + (ack.l_id - pull_lid) =
            ground (arith, inside, size, bound, some_ack) in
          rw (above, at) (ack.ack_num, refl, refl, some_ack)
    ]

-- ===== src/Fifo/Inv.antt =====
-- The representation invariant of `fifo_t`: no assertion of `check_fifo` can fail.
use native.Mathlib.Nat.{le_refl, mod-eq-sub-mod, mod-eq_of_lt, mod-lt}
use odyssey_lib.Base.{
  Bool, List, Option, ap, arith, assert_if-true, dec_lt, le→leb, lt→ltb, some, true, u32, ℕ, ◌%◌,
  ◌*◌, ◌+◌, ◌-◌, ◌<◌, ◌^◌, ◌∙◌, ◌≡◌, ◌≤◌,
}
use odyssey_lib.Fifo.{
  Fifo, SlotMeta, check_fifo, fifo_decrease_capacity, fifo_decrem_capacity, fifo_incr_pull_ptr,
  fifo_incr_push_ptr, fifo_increase_capacity, fifo_increm_capacity, get_fifo_slot_private, is_some,
  mod_decr, mod_incr,
}

pub record IsValid (f : Fifo) : Type 0 where
  pub buffer : is_some f.fifo ≡ true
  pub slots : 0 < f.max_size
  pub sized : 0 < f.slot_size
  pub room : f.capacity ≤ f.max_size
  pub bytes : f.slot_size * f.max_size ≡ f.max_byte_size
  pub small : f.max_byte_size < 2 ^ 32
  pub push_in : f.push_ptr < f.max_size
  pub pull_in : f.pull_ptr < f.max_size

slot_product : (a s n o : ℕ) → s < n → o < a → a * s + o < a * n
slot_product a s n o h k = grind arith

le_product : (a b : ℕ) → 0 < a → b ≤ a * b
le_product a b h = grind arith

-- Slots are at least a byte long.
pub max_size-lt : {f : Fifo} → IsValid f → f.max_size < 2 ^ 32
max_size-lt {f} v = grind (arith, le_product f.slot_size f.max_size v.sized)

pub check_fifo-IsValid : (b : Bool) {f : Fifo} → IsValid f → check_fifo b f ≡ some tt
unfolding check_fifo
check_fifo-IsValid b {f} v = ground arith

pub mod_incr-lt : (x n : ℕ) → 0 < n → mod_incr x n < n
unfolding mod_incr
mod_incr-lt x n h = mod-lt (u32 (x + 1)) h

pub mod_incr-eq : (x n : ℕ) → x < n → n < 2 ^ 32 → mod_incr x n ≡ (x + 1) % n
unfolding mod_incr
mod_incr-eq x n h k = ap (λ t. t % n) (omega arith)

pub mod_incr_last : (x n : ℕ) → x + 1 ≡ n → n < 2 ^ 32 → mod_incr x n ≡ 0
mod_incr_last x n h k =
    rw (mod_incr-eq x n (omega arith) k, h)
      (mod-eq-sub-mod (le_refl n) ∙ ap (λ t. t % n) (omega arith) ∙ mod-eq_of_lt (omega arith))

pub mod_incr_inner : (x n : ℕ) → x + 1 < n → n < 2 ^ 32 → mod_incr x n ≡ x + 1
mod_incr_inner x n h k = rw (mod_incr-eq x n (omega arith) k) (mod-eq_of_lt h)

pub mod_decr_zero : (n : ℕ) → 0 < n → n < 2 ^ 32 → mod_decr 0 n ≡ n - 1
unfolding mod_decr
mod_decr_zero n h k =
    let e : u32 (n + 0 + 0xffffffff) ≡ n - 1 = omega arith in rw e (mod-eq_of_lt (omega arith))

mod_decr_suc : (x n : ℕ) → x + 1 < n → 2 * n < 2 ^ 32 → mod_decr (x + 1) n ≡ x
unfolding mod_decr
mod_decr_suc x n h k =
    let e : u32 (n + (x + 1) + 0xffffffff) ≡ n + x = omega arith in
    rw e (mod-eq-sub-mod (omega arith) ∙ ap (λ t. t % n) (omega arith) ∙ mod-eq_of_lt (omega arith))

-- `mod_decr` takes back `mod_incr` on the slots of a ring of fewer than 2^31 slots.
pub mod_decr-mod_incr : (x n : ℕ) → x < n → 2 * n < 2 ^ 32 → mod_decr (mod_incr x n) n ≡ x
mod_decr-mod_incr x n h k = elim (dec_lt (x + 1) n) [
  | yes p ↦ rw (mod_incr_inner x n p (omega arith)) (mod_decr_suc x n p k)
  | no p ↦ rw (mod_incr_last x n (omega arith) (omega arith)) (omega (arith, mod_decr_zero n))
]

module _ {f : Fifo} (v : IsValid f) where
  pub push_ptr-IsValid : {p : ℕ} → p < f.max_size → IsValid (record f { push_ptr = p })
  push_ptr-IsValid h = ground arith

  pub pull_ptr-IsValid : {p : ℕ} → p < f.max_size → IsValid (record f { pull_ptr = p })
  pull_ptr-IsValid h = ground arith

  pub capacity-IsValid : {c : ℕ} → c ≤ f.max_size → IsValid (record f { capacity = c })
  capacity-IsValid h = ground arith

  pub slot_meta-IsValid : {m : Option (List SlotMeta)} → IsValid (record f { slot_meta = m })
  slot_meta-IsValid = ground arith

  pub net_capacity-IsValid : {n : ℕ} → IsValid (record f { net_capacity = n })
  net_capacity-IsValid = ground arith

  pub fifo-IsValid : {cells : List ℕ} → IsValid (record f { fifo = some cells })
  fifo-IsValid = ground arith

  next-lt : (x : ℕ) → (x + 1) % f.max_size < f.max_size
  next-lt x = mod-lt (x + 1) v.slots

  -- The push pointer moves on by one slot, going round at the end, and no assertion fails.
  pub fifo_incr_push_ptr_lem :
      (b : Bool)
      → (fifo_incr_push_ptr b f ≡ some (record f { push_ptr = (f.push_ptr + 1) % f.max_size }))
        × IsValid (record f { push_ptr = (f.push_ptr + 1) % f.max_size })
  unfolding fifo_incr_push_ptr
  fifo_incr_push_ptr_lem b =
      let v' = push_ptr-IsValid (next-lt f.push_ptr) in
      (
        rw (
          check_fifo-IsValid b v,
          mod_incr-eq f.push_ptr f.max_size v.push_in (max_size-lt v),
          check_fifo-IsValid b v',
        ),
        v',
      )

  pub fifo_incr_pull_ptr_lem :
      (b : Bool)
      → (fifo_incr_pull_ptr b f ≡ some (record f { pull_ptr = (f.pull_ptr + 1) % f.max_size }))
        × IsValid (record f { pull_ptr = (f.pull_ptr + 1) % f.max_size })
  unfolding fifo_incr_pull_ptr
  fifo_incr_pull_ptr_lem b =
      let v' = pull_ptr-IsValid (next-lt f.pull_ptr) in
      (
        rw (
          check_fifo-IsValid b v,
          mod_incr-eq f.pull_ptr f.max_size v.pull_in (max_size-lt v),
          check_fifo-IsValid b v',
        ),
        v',
      )

  pub fifo_increase_capacity_lem :
      (b : Bool) (n : ℕ)
      → f.capacity + n ≤ f.max_size
      → (fifo_increase_capacity b f n ≡ some (record f { capacity = f.capacity + n }))
        × IsValid (record f { capacity = f.capacity + n })
  unfolding fifo_increase_capacity
  fifo_increase_capacity_lem b n h =
      let v' = capacity-IsValid h in
      let e : u32 (f.capacity + n) ≡ f.capacity + n = omega (arith, max_size-lt v) in
      (rw (check_fifo-IsValid b v, e, check_fifo-IsValid b v'), v')

  pub fifo_increm_capacity_lem :
      (b : Bool)
      → f.capacity < f.max_size
      → (fifo_increm_capacity b f ≡ some (record f { capacity = f.capacity + 1 }))
        × IsValid (record f { capacity = f.capacity + 1 })
  unfolding fifo_increm_capacity fifo_increase_capacity
  fifo_increm_capacity_lem b h = fifo_increase_capacity_lem b 1 (omega arith)

  pub fifo_decrease_capacity_lem :
      (b : Bool) (n : ℕ)
      → n ≤ f.capacity
      → (fifo_decrease_capacity b f n ≡ some (record f { capacity = f.capacity - n }))
        × IsValid (record f { capacity = f.capacity - n })
  unfolding fifo_decrease_capacity
  fifo_decrease_capacity_lem b n h =
      let v' : IsValid (record f { capacity = f.capacity - n }) =
        capacity-IsValid (omega (arith, v.room)) in
      let e : u32 (f.capacity + 2 ^ 32 - n) ≡ f.capacity - n =
        omega (arith, max_size-lt v, v.room) in
      (
        rw (
          check_fifo-IsValid b v,
          assert_if-true b (le→leb n f.capacity h),
          e,
          check_fifo-IsValid b v',
        ),
        v',
      )

  pub fifo_decrem_capacity_lem :
      (b : Bool)
      → 0 < f.capacity
      → (fifo_decrem_capacity b f ≡ some (record f { capacity = f.capacity - 1 }))
        × IsValid (record f { capacity = f.capacity - 1 })
  unfolding fifo_decrem_capacity
  fifo_decrem_capacity_lem b h =
      let v' : IsValid (record f { capacity = f.capacity - 1 }) =
        capacity-IsValid (omega (arith, v.room)) in
      let e : u32 (f.capacity + 0xffffffff) ≡ f.capacity - 1 =
        omega (arith, max_size-lt v, v.room) in
      (rw (check_fifo-IsValid b v, e, check_fifo-IsValid b v'), v')

  slot_bound :
      (slot offset : ℕ)
      → slot < f.max_size
      → offset < f.slot_size
      → f.slot_size * slot + offset < f.max_byte_size
  slot_bound slot offset h k =
      omega (arith, slot_product f.slot_size slot f.max_size offset h k, v.bytes)

  -- In a valid fifo, `get_fifo_slot_private` of a slot of the ring and an offset inside the slot gives
  -- the address of that byte, which is inside the buffer, and no assertion fails.
  pub get_fifo_slot_private_lem :
      (b : Bool) (slot offset : ℕ)
      → slot < f.max_size
      → offset < f.slot_size
      → (get_fifo_slot_private b f slot offset ≡ some (f.slot_size * slot + offset))
        × (f.slot_size * slot + offset < f.max_byte_size)
  unfolding get_fifo_slot_private
  get_fifo_slot_private_lem b slot offset h k =
      let inside = slot_bound slot offset h k in
      let start : u32 (f.slot_size * slot) ≡ f.slot_size * slot = omega (arith, v.small) in
      let place : u32 (f.slot_size * slot + offset) ≡ f.slot_size * slot + offset =
        omega (arith, v.small) in
      (
        rw (
          check_fifo-IsValid b v,
          assert_if-true b (lt→ltb slot f.max_size h),
          start,
          place,
          assert_if-true b (lt→ltb (f.slot_size * slot + offset) f.max_byte_size inside),
        ),
        inside,
      )

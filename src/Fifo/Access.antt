-- ===== src/Fifo/Access.antt =====
-- Which slot the accessors of od_fifo.h give.
use native.Mathlib.Nat.{div-add-mod, mod-eq_of_lt, mod-lt, mul-mod_right}
use odyssey_lib.Base.{
  Bool, ap, arith, some, some_injective, sym, u32, ℕ, ◌%◌, ◌*◌, ◌+◌, ◌-◌, ◌/◌, ◌<◌, ◌^◌, ◌∙◌, ◌≡◌,
  ◌≢◌, ◌≤◌,
}
use odyssey_lib.Fifo.{
  Fifo, get_fifo_prev_slot, get_fifo_push_prev_slot, get_fifo_push_relative_slot, get_fifo_slot_mod,
  mod_decr,
}
use odyssey_lib.Fifo.Inv.{IsValid, get_fifo_slot_private_lem, max_size-lt, mod_decr_zero}

slot_mod_lem :
    (b : Bool) {f : Fifo}
    → IsValid f
    → (i : ℕ) → get_fifo_slot_mod b f i ≡ some (f.slot_size * (i % f.max_size) + 0)
unfolding get_fifo_slot_mod
slot_mod_lem b {f} v i =
    (get_fifo_slot_private_lem v b (i % f.max_size) 0 (mod-lt i v.slots) v.sized).0

-- In a valid fifo, `get_fifo_push_relative_slot` at -k, for a positive k, is the slot `k` behind the
-- push pointer, if that is not past the start of the array.
pub push_relative_back :
    (b : Bool) {f : Fifo} (k : ℕ)
    → IsValid f
    → 0 < k
    → k ≤ f.push_ptr
    → get_fifo_push_relative_slot b f (2 ^ 32 - k) ≡ some (f.slot_size * (f.push_ptr - k) + 0)
unfolding get_fifo_push_relative_slot
push_relative_back b {f} k v pos le =
    let e : u32 (f.push_ptr + (2 ^ 32 - k)) ≡ f.push_ptr - k =
      omega (arith, max_size-lt v, v.push_in) in
    rw (
      e,
      slot_mod_lem b v (f.push_ptr - k),
      mod-eq_of_lt {n = f.push_ptr - k} {m = f.max_size} (omega (arith, v.push_in)),
    )

product_injective : (a i j : ℕ) → 0 < a → a * i + 0 ≡ a * j + 0 → i ≡ j
product_injective a i j h e = grind arith

wrapped_slot : (n : ℕ) → 0 < n → n < 2 ^ 32 → 0xffffffff % n ≡ n - 1 → 2 ^ 32 % n ≡ 0
wrapped_slot n h k e =
    let whole : 2 ^ 32 ≡ n * (0xffffffff / n + 1) = omega (arith, div-add-mod 0xffffffff n) in
    ap (λ t. t % n) whole ∙ mul-mod_right n (0xffffffff / n + 1)

-- In a valid fifo whose push pointer is at the start of the array, the relative slot -1 and `get_fifo_push_prev_slot` give different slots, unless the
-- number of slots divides 2^32.
pub push_relative_wrong :
    (b : Bool) {f : Fifo}
    → IsValid f
    → f.push_ptr ≡ 0
    → 2 ^ 32 % f.max_size ≢ 0
    → get_fifo_push_relative_slot b f (2 ^ 32 - 1) ≢ get_fifo_push_prev_slot b f
unfolding get_fifo_push_relative_slot get_fifo_push_prev_slot get_fifo_prev_slot
push_relative_wrong b {f} v zero_push odd same =
    let prev =
      (get_fifo_slot_private_lem v b (f.max_size - 1) 0 (omega (arith, v.slots)) v.sized).0 in
    let place : mod_decr f.push_ptr f.max_size ≡ f.max_size - 1 =
      rw zero_push (mod_decr_zero f.max_size v.slots (max_size-lt v)) in
    let at : u32 (f.push_ptr + (2 ^ 32 - 1)) ≡ 0xffffffff = omega arith in
    let got : some (f.slot_size * (0xffffffff % f.max_size) + 0)
        ≡ some (f.slot_size * (f.max_size - 1) + 0) =
      sym (rw at (slot_mod_lem b v 0xffffffff)) ∙ same ∙ rw place prev in
    odd (
      wrapped_slot f.max_size v.slots (max_size-lt v)
        (product_injective f.slot_size _ _ v.sized (some_injective got)))

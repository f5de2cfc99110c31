-- ===== src/Base/Tests.antt =====
-- The Boolean tests of C on numbers, its casts to unsigned types, and its assertions.
use Prim.Native.Nat.{Ordering, compare, ℕ, ◌+◌, ◌%◌, ◌<◌, ◌^◌, ◌≤◌}
use mathlib.Core.Bool.{Bool, false, not, true, ◌&&◌, ◌||◌}
use mathlib.Core.Logic.{inl, inr, ◌≢◌, ◌⊎◌}
use mathlib.Core.Option.{Option, none, some}
use mathlib.Core.Path.{refl, sym, ◌≡◌}
use native.Mathlib.Nat.{mod-eq_of_lt}
use native.Mathlib.Omega.{arith}

abbrev pub ltb : ℕ → ℕ → Bool
ltb a b = elim (compare a b) [ Ordering.lt ↦ true | _ ↦ false ]

abbrev pub leb : ℕ → ℕ → Bool
leb a b = elim (compare a b) [ Ordering.gt ↦ false | _ ↦ true ]

infix 50 ◌==◌
abbrev pub ◌==◌ : ℕ → ℕ → Bool
a == b = elim (compare a b) [ Ordering.eq ↦ true | _ ↦ false ]

infix 1 if◌then◌else◌
abbrev pub if◌then◌else◌ {ℓ} : {A : Type ℓ} → Bool → A → A → A
if true then x else y = x
if false then x else y = y

-- Casts: `(uint8_t) n` and so on, which are also what an operation on such a type ends with.
abbrev pub u8 : ℕ → ℕ
u8 n = n % 2 ^ 8

abbrev pub u16 : ℕ → ℕ
u16 n = n % 2 ^ 16

abbrev pub u32 : ℕ → ℕ
u32 n = n % 2 ^ 32

abbrev pub u64 : ℕ → ℕ
u64 n = n % 2 ^ 64

-- `assert(cond)`: a run that it aborts has the result `none`.
abbrev pub assert_that : Bool → Option (Unit {0})
assert_that true = some tt
assert_that false = none

-- `if (ENABLE_ASSERTIONS) assert(cond)`
abbrev pub assert_if : Bool → Bool → Option (Unit {0})
assert_if true cond = assert_that cond
assert_if false cond = some tt

infixl 5 ◌>>=◌ ◌>>◌
abbrev pub ◌>>=◌ {ℓ κ} : {A : Type ℓ} {B : Type κ} → Option A → (A → Option B) → Option B
none >>= f = none
some a >>= f = f a

abbrev pub ◌>>◌ {ℓ} : {B : Type ℓ} → Option (Unit {0}) → Option B → Option B
m >> k = m >>= λ _. k

pub Bool-cases : (b : Bool) → (b ≡ true) ⊎ (b ≡ false)
Bool-cases true = inl refl
Bool-cases false = inr refl

pub Option-cases {ℓ} : {A : Type ℓ} (o : Option A) → (o ≡ none) ⊎ ((a : A) × (o ≡ some a))
Option-cases none = inl refl
Option-cases (some a) = inr (a, refl)

pub ltb→lt : (a b : ℕ) → ltb a b ≡ true → a < b
ltb→lt a b h = ground arith

pub lt→ltb : (a b : ℕ) → a < b → ltb a b ≡ true
lt→ltb a b h = ground arith

pub leb→le : (a b : ℕ) → leb a b ≡ true → a ≤ b
leb→le a b h = ground arith

pub le→leb : (a b : ℕ) → a ≤ b → leb a b ≡ true
le→leb a b h = ground arith

pub eq→== : (a b : ℕ) → a ≡ b → (a == b) ≡ true
eq→== a b h = ground arith

pub ==→eq : (a b : ℕ) → (a == b) ≡ true → a ≡ b
==→eq a b h = ground arith

pub ne→==_false : (a b : ℕ) → a ≢ b → (a == b) ≡ false
ne→==_false a b h = ground arith

pub assert_if-true : (b : Bool) {c : Bool} → c ≡ true → assert_if b c ≡ some tt
assert_if-true true h = rw h
assert_if-true false h = refl

pub some_injective {ℓ} : {A : Type ℓ} {a b : A} → some a ≡ some b → a ≡ b
some_injective h = cc

pub ==_false→ne : (a b : ℕ) → (a == b) ≡ false → a ≢ b
==_false→ne a b h e = ground arith

pub none-ne_some {ℓ} : {A : Type ℓ} {a : A} → none ≢ some a
none-ne_some e = cc

pub true-ne_false : true ≢ false
true-ne_false e = cc

pub assert_that-cases {ℓ} :
    {A : Type ℓ} {b : Bool} {o : Option A} {a : A}
    → assert_that b >> o ≡ some a
    → (b ≡ true) × (o ≡ some a)
assert_that-cases {b = true} h = (refl, h)
assert_that-cases {b = false} h = absurd (none-ne_some h)

pub and_left : {a : Bool} (b : Bool) → (a && b) ≡ true → a ≡ true
and_left {a = true} b h = refl
and_left {a = false} b h = h

pub lt→leb_false : {a b : ℕ} → b < a → leb a b ≡ false
lt→leb_false h = ground arith

pub mod_small : {a n : ℕ} → a < n → a % n ≡ a
mod_small h = mod-eq_of_lt h

pub not_true→false : {b : Bool} → not b ≡ true → b ≡ false
not_true→false {b = true} h = absurd (true-ne_false (sym h))
not_true→false {b = false} h = refl

pub zero_add : (n : ℕ) → 0 + n ≡ n
zero_add n = omega arith

pub or_right : (a : Bool) {b : Bool} → b ≡ true → (a || b) ≡ true
or_right true h = refl
or_right false h = h

pub assert_if-cases {ℓ} :
    {A : Type ℓ} (assertions b : Bool) {o : Option A} {a : A}
    → assert_if assertions b >> o ≡ some a
    → o ≡ some a
assert_if-cases true b h = (assert_that-cases h).1
assert_if-cases false b h = h

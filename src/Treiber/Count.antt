-- ===== src/Treiber/Count.antt =====
-- How many of the first `n` sessions a test holds of.
use odyssey_lib.Base.{
  Bool, ap, arith, false, refl, suc, sym, true, zero, ℕ, ℕ_discrete, ◌+◌, ◌<◌, ◌∙◌, ◌≡◌, ◌≢◌,
}

abbrev pub bit : Bool → ℕ
bit true = 1
bit false = 0

unfoldable pub count : (ℕ → Bool) → ℕ → ℕ
count p zero = 0
count p (suc n) = bit (p n) + count p n

pub count-same : (p q : ℕ → Bool) (n : ℕ) → ((j : ℕ) → j < n → p j ≡ q j) → count p n ≡ count q n
unfolding count
count-same p q zero e = refl
count-same p q (suc n) e = rw (e n (omega arith), count-same p q n λ j h. e j (omega arith)) refl

-- When the test changes for one session only, the count changes by as much.
pub count-change :
    (p q : ℕ → Bool) (n i : ℕ)
    → i < n
    → ((j : ℕ) → i ≢ j → p j ≡ q j)
    → count p n + bit (q i) ≡ count q n + bit (p i)
unfolding count
count-change p q zero i h e = absurd (omega arith)
count-change p q (suc n) i h e = elim (ℕ_discrete i n) [
  | yes at ↦
      let same : count p n ≡ count q n =
        count-same p q n λ j lt. e j λ eq. absurd (omega (arith, at, eq, lt)) in
      rw (same, at) (omega arith)
  | no off ↦
      let rest : count p n + bit (q i) ≡ count q n + bit (p i) =
        count-change p q n i (omega (arith, off)) e in
      rw (e n off) (omega (arith, rest))
]

pub count-positive : (p : ℕ → Bool) (n i : ℕ) → i < n → p i ≡ true → 0 < count p n
unfolding count
count-positive p zero i h t = absurd (omega arith)
count-positive p (suc n) i h t = elim (ℕ_discrete i n) [
  | yes at ↦ let one : p n ≡ true = ap p (sym at) ∙ t in rw one (omega arith)
  | no off ↦ let rest = count-positive p n i (omega (arith, off)) t in omega (arith, rest)
]

pub count-none : (p : ℕ → Bool) (n : ℕ) → ((j : ℕ) → p j ≡ false) → count p n ≡ 0
unfolding count
count-none p zero e = refl
count-none p (suc n) e = rw (e n, count-none p n e) refl

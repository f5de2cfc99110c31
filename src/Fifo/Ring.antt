-- ===== src/Fifo/Ring.antt =====
-- Rings: the cells of an array from an index on, going round at `max`, read as a list of numbers.
use native.Mathlib.Nat.{add-zero, le_refl, mod-add-mod, mod-eq-sub-mod, mod-eq_of_lt, mod-lt}
use odyssey_lib.Base.{
  List, [], ap, ap₂, arith, dec_lt, get_or, get_or-set_ne, get_or-set_self, length, refl, set, suc,
  zero, ℕ, ◌%◌, ◌++◌, ◌+◌, ◌-◌, ◌<◌, ◌∙◌, ◌∷◌, ◌≡◌, ◌≢◌, ◌≤◌,
}

module _ (max : ℕ) where
  pub shift : (h n : ℕ) → (h + suc n) % max ≡ ((h + 1) % max + n) % max
  shift h n = rw mod-add-mod (ap (λ k. k % max) (omega arith))

  mod_ne : (h k : ℕ) → h < max → suc k < max → (h + suc k) % max ≢ h
  mod_ne h k hh hk = elim (dec_lt (h + suc k) max) [
    | yes p ↦ omega (arith, mod-eq_of_lt p)
    | no p ↦ omega (
      arith,
      mod-eq-sub-mod {n = h + suc k} {m = max} (omega arith),
      mod-eq_of_lt {n = h + suc k - max} {m = max} (omega arith),
    )
  ]

module _ {ℓ} {A : Type ℓ} (g : A → ℕ) (d : A) (max : ℕ) where
  abbrev at : List A → ℕ → ℕ
  at cells i = g (get_or cells i d)

  -- the numbers in the `n` cells from cell `h` on, going round at `max`
  abbrev pub window : List A → ℕ → ℕ → List ℕ
  window cells h zero = []
  window cells h (suc n) = at cells h ∷ window cells ((h + 1) % max) n

  pub length-window : (cells : List A) (h n : ℕ) → length (window cells h n) ≡ n
  length-window cells h zero = refl
  length-window cells h (suc n) = ap suc (length-window cells ((h + 1) % max) n)

  pub window_snoc :
      (cells : List A) (n h : ℕ)
      → h < max
      → window cells h (suc n) ≡ window cells h n ++ at cells ((h + n) % max) ∷ []
  window_snoc cells zero h k = let e : (h + 0) % max ≡ h = rw add-zero (mod-eq_of_lt k) in rw e
  window_snoc cells (suc n) h k =
      ap (λ t. at cells h ∷ t)
        (rw (shift max h n) (window_snoc cells n ((h + 1) % max) (mod-lt (h + 1) (omega arith))))

  -- A write at or behind the end of a window leaves it as it is.
  pub window-set :
      (cells : List A) (m : A) (n k h i : ℕ)
      → h < max
      → n ≤ k
      → k < max
      → i ≡ (h + k) % max
      → window (set cells i m) h n ≡ window cells h n
  window-set cells m zero k h i hh hn hk e = refl
  window-set cells m (suc n) zero h i hh hn hk e = absurd (omega arith)
  window-set cells m (suc n) (suc k) h i hh hn hk e =
      ap₂ ◌∷◌ (ap (λ t. g t) (get_or-set_ne cells i h m d (rw e (mod_ne max h k hh hk)))) (
        window-set cells m n k ((h + 1) % max) i (mod-lt (h + 1) (omega arith)) (omega arith)
          (omega arith) (e ∙ shift max h k))

  -- A write into the last slot of a window changes its last number.
  pub window-set_last :
      (cells : List A) (m : A) (n h i : ℕ)
      → h < max
      → n < max
      → i ≡ (h + n) % max
      → max ≤ length cells
      → window (set cells i m) h (suc n) ≡ window cells h n ++ g m ∷ []
  window-set_last cells m n h i hh hn e len =
      rw (window_snoc (set cells i m) n h hh, window-set cells m n n h i hh (le_refl n) hn e, ← e)
        (ap (λ t. window cells h n ++ g t ∷ [])
          (get_or-set_self cells i m d (omega (arith, mod-lt (h + n) {m = max} (omega arith)))))

-- ===== src/Base/Families.antt =====
-- Families of values with native indices, changed at one index.
use Prim.Native.Nat.{ℕ}
use mathlib.Core.Logic.{◌≢◌}
use mathlib.Core.Path.{subst, sym, ◌≡◌}
use native.Mathlib.Decide.{ℕ_discrete}
use native.Mathlib.Omega.{arith}
use odyssey_lib.Base.Tests.{if◌then◌else◌, ◌==◌}

abbrev pub update {ℓ} : {A : Type ℓ} → (ℕ → A) → ℕ → A → ℕ → A
update f i a j = if i == j then a else f j

pub update_same : {A : Type 0} (f : ℕ → A) (i : ℕ) (a : A) → update f i a i ≡ a
update_same f i a = ground arith

pub update_other : {A : Type 0} (f : ℕ → A) (i j : ℕ) (a : A) → i ≢ j → update f i a j ≡ f j
update_other f i j a ne = ground arith

pub at_update :
    {A : Type 0} (P : ℕ → A → Type 0) (f : ℕ → A) (i : ℕ) (a : A)
    → P i a
    → ((j : ℕ) → i ≢ j → P j (f j))
    → (j : ℕ) → P j (update f i a j)
at_update P f i a here away j = elim (ℕ_discrete i j) [
  | yes e ↦ subst (λ k. P k (update f i a k)) e (subst (P i) (sym (update_same f i a)) here)
  | no ne ↦ subst (P j) (sym (update_other f i j a ne)) (away j ne)
]

pub at_updates :
    {A B : Type 0} (P : ℕ → A → B → Type 0) (f : ℕ → A) (g : ℕ → B) (i : ℕ) (a : A) (b : B)
    → P i a b
    → ((j : ℕ) → i ≢ j → P j (f j) (g j))
    → (j : ℕ) → P j (update f i a j) (update g i b j)
at_updates P f g i a b here away =
    at_update (λ j u. P j u (update g i b j)) f i a (subst (P i a) (sym (update_same g i b)) here)
      (λ j ne. subst (P j (f j)) (sym (update_other g i j b ne)) (away j ne))

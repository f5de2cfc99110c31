-- ===== src/Kvs/Slots.antt =====
-- The slots of one bucket.
use odyssey_lib.Base.{
  Bool-cases, List, Option, [], and_left, ap, arith, false, get_or, if◌then◌else◌, inl, inr, length,
  none, none-ne_some, not, refl, set, some, some_injective, suc, sym, true, zero, ℕ, ◌+◌, ◌<◌, ◌==◌,
  ◌||◌, ◌∙◌, ◌∷◌, ◌≡◌, ◌⊎◌,
}
use odyssey_lib.Kvs.{MicaSlot, find_slot, first_match, free_slot, slot_matches}

pub find_slot-none :
    (tag : ℕ) (ss : List MicaSlot) (i : ℕ) (acc r : Option ℕ)
    → find_slot tag ss i acc ≡ some r
    → first_match tag ss ≡ none
unfolding find_slot first_match
find_slot-none tag [] i acc r h = refl
find_slot-none tag (s ∷ ss) i acc r h = elim (Bool-cases (slot_matches tag s)) [
  | inl same ↦ absurd (none-ne_some (rw same at h))
  | inr other ↦ rw other (find_slot-none tag ss (i + 1) _ r (rw other at h))
]

pub first_match-set :
    (tag : ℕ) (ss : List MicaSlot) (p : ℕ) (new : MicaSlot)
    → first_match tag ss ≡ none
    → p < length ss
    → slot_matches tag new ≡ true
    → first_match tag (set ss p new) ≡ some new
unfolding first_match
first_match-set tag [] p new h lt m = absurd (omega arith)
first_match-set tag (s ∷ ss) zero new h lt m = rw m refl
first_match-set tag (s ∷ ss) (suc p) new h lt m = elim (Bool-cases (slot_matches tag s)) [
  | inl same ↦ absurd (none-ne_some (sym (rw same at h)))
  | inr other ↦ rw other (first_match-set tag ss p new (rw other at h) (omega arith) m)
]

pub first_match-set_other :
    (tag : ℕ) (ss : List MicaSlot) (p : ℕ) (new : MicaSlot)
    → slot_matches tag (get_or ss p free_slot) ≡ false
    → slot_matches tag new ≡ false
    → first_match tag (set ss p new) ≡ first_match tag ss
unfolding first_match
first_match-set_other tag [] p new h m = refl
first_match-set_other tag (s ∷ ss) zero new h m = rw (m, h) refl
first_match-set_other tag (s ∷ ss) (suc p) new h m =
    rw (first_match-set_other tag ss p new h m) refl

-- a slot that the loop may choose, `i` further on
abbrev pub Usable : ℕ → List MicaSlot → ℕ → ℕ → Type 0
Usable tag ss i j =
    (p : ℕ) × (j ≡ i + p) × (p < length ss) × ((get_or ss p free_slot).in_use ≡ false)

chosen-Usable :
    (tag : ℕ) (s : MicaSlot) (ss : List MicaSlot) (i : ℕ) (acc : Option ℕ) (j : ℕ)
    → slot_matches tag s ≡ false
    → (if (s.tag == tag) || not s.in_use then some i else acc) ≡ some j
    → (acc ≡ some j) ⊎ Usable tag (s ∷ ss) i j
chosen-Usable tag s ss i acc j other e = elim (Bool-cases s.in_use) [
  | inl used ↦
      let differs : (s.tag == tag) ≡ false = rw used at other in inl (rw (used, differs) at e)
  | inr free ↦ elim (Bool-cases (s.tag == tag)) [
    | inl same ↦ inr (0, omega (arith, some_injective (rw same at e)), omega arith, free)
    | inr differs ↦
        inr (0, omega (arith, some_injective (rw (differs, free) at e)), omega arith, free)
  ]
]

pub find_slot-Usable :
    (tag : ℕ) (ss : List MicaSlot) (i : ℕ) (acc : Option ℕ) (j : ℕ)
    → find_slot tag ss i acc ≡ some (some j)
    → (acc ≡ some j) ⊎ Usable tag ss i j
unfolding find_slot
find_slot-Usable tag [] i acc j h = inl (some_injective h)
find_slot-Usable tag (s ∷ ss) i acc j h = elim (Bool-cases (slot_matches tag s)) [
  | inl same ↦ absurd (none-ne_some (rw same at h))
  | inr other ↦ elim (find_slot-Usable tag ss (i + 1) _ j (rw other at h)) [
    | inr (p, e, lt, free) ↦ inr (suc p, omega (arith, e), omega (arith, lt), free)
    | inl e ↦ chosen-Usable tag s ss i acc j other e
  ]
]

pub first_match-in :
    (tag : ℕ) (ss : List MicaSlot) (s : MicaSlot)
    → first_match tag ss ≡ some s
    → (i : ℕ) × (get_or ss i free_slot ≡ s) × (s.in_use ≡ true)
unfolding first_match
first_match-in tag [] s h = absurd (none-ne_some h)
first_match-in tag (x ∷ ss) s h = elim (Bool-cases (slot_matches tag x)) [
  | inl same ↦
      let e : x ≡ s = some_injective (rw same at h) in
      (0, e, ap (λ t. t.in_use) (sym e) ∙ and_left (x.tag == tag) same)
  | inr other ↦ let (i, at, used) = first_match-in tag ss s (rw other at h) in (suc i, at, used)
]

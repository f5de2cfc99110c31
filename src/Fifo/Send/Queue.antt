-- ===== src/Fifo/Send/Queue.antt =====
-- A send fifo as the queue of its batches.
use odyssey_lib.Fifo.Ring
use Prim.Native.Nat.{max}
use odyssey_lib.Base.{
  Bool, List, [], ap, arith, false, get_or, if◌then◌else◌, length, refl, true, ℕ, ◌++◌, ◌+◌, ◌<◌,
  ◌∷◌, ◌≡◌,
}
use odyssey_lib.Fifo.{SlotMeta, blank_meta}
use odyssey_lib.Fifo.Ring.{window}

abbrev pub sum : List ℕ → ℕ
sum [] = 0
sum (x ∷ xs) = x + sum xs

abbrev pub Positive : List ℕ → Type 0
Positive [] = Unit
Positive (x ∷ xs) = (0 < x) × Positive xs

-- What a message does to the batches: it goes to the last one, or makes a new one.
unfoldable pub add_message : Bool → List ℕ → List ℕ
add_message new [] = 1 ∷ []
add_message new (x ∷ []) = if new then x ∷ 1 ∷ [] else (x + 1) ∷ []
add_message new (x ∷ y ∷ q) = x ∷ add_message new (y ∷ q)

pub add_message_last : (q : List ℕ) (c : ℕ) → add_message false (q ++ c ∷ []) ≡ q ++ (c + 1) ∷ []
unfolding add_message
add_message_last [] c = refl
add_message_last (x ∷ []) c = refl
add_message_last (x ∷ y ∷ q) c = ap (λ t. x ∷ t) (add_message_last (y ∷ q) c)

pub add_message_new : (q : List ℕ) → 0 < length q → add_message true q ≡ q ++ 1 ∷ []
unfolding add_message
add_message_new [] h = absurd (omega arith)
add_message_new (x ∷ []) h = refl
add_message_new (x ∷ y ∷ q) h = ap (λ t. x ∷ t) (add_message_new (y ∷ q) (omega arith))

pub sum-append : (xs ys : List ℕ) → sum (xs ++ ys) ≡ sum xs + sum ys
sum-append [] ys = omega arith
sum-append (x ∷ xs) ys = omega (arith, sum-append xs ys)

pub sum-add_message : (new : Bool) (q : List ℕ) → sum (add_message new q) ≡ sum q + 1
unfolding add_message
sum-add_message new [] = refl
sum-add_message new (x ∷ []) = ground arith
sum-add_message new (x ∷ y ∷ q) = omega (arith, sum-add_message new (y ∷ q))

pub add_message-Positive : (new : Bool) (q : List ℕ) → Positive q → Positive (add_message new q)
unfolding add_message
add_message-Positive new [] h = omega arith
add_message-Positive new (x ∷ []) h = ground arith
add_message-Positive new (x ∷ y ∷ q) h = (h.0, add_message-Positive new (y ∷ q) h.1)

abbrev pub coalesce_of : SlotMeta → ℕ
coalesce_of m = m.coalesce_num

abbrev pub coalesce_at : List SlotMeta → ℕ → ℕ
coalesce_at metas i = (get_or metas i blank_meta).coalesce_num

-- the batches of the `n` slots from slot `h` on, going round at `max`
abbrev pub batch_window : ℕ → List SlotMeta → ℕ → ℕ → List ℕ
batch_window max = Ring.window coalesce_of blank_meta max

pub Positive-sum : (q : List ℕ) → Positive q → 0 < length q → 0 < sum q
Positive-sum [] h k = absurd (omega arith)
Positive-sum (x ∷ q) h k = omega (arith, h.0)

pub Positive-append : (xs : List ℕ) (c : ℕ) → Positive xs → 0 < c → Positive (xs ++ c ∷ [])
Positive-append [] c h k = (k, tt)
Positive-append (x ∷ xs) c h k = (h.0, Positive-append xs c h.1 k)

pub Positive-init : (xs : List ℕ) (c : ℕ) → Positive (xs ++ c ∷ []) → Positive xs × (0 < c)
Positive-init [] c h = (tt, h.0)
Positive-init (x ∷ xs) c h = let r = Positive-init xs c h.1 in ((h.0, r.0), r.1)

pub sum_of_empty : (q : List ℕ) → length q ≡ 0 → sum q ≡ 0
sum_of_empty [] h = refl
sum_of_empty (x ∷ q) h = absurd (omega arith)

-- ===== src/Fifo/Mirror/Counts.antt =====
-- The queue of counts that a mirrored buffer holds, and what is taken off it.
use odyssey_lib.Fifo.Ring
use odyssey_lib.Base.{
  List, [], ap, arith, dec_le, false, inl, inr, le→leb, ne→==_false, if◌then◌else◌, leb, length,
  refl, some, suc, ℕ, ◌%◌, ◌++◌, ◌+◌, ◌-◌, ◌<◌, ◌==◌, ◌^◌, ◌∷◌, ◌∙◌, ◌≡◌, ◌≤◌, ◌⊎◌, ℕ_discrete,
}
use odyssey_lib.Fifo.{Fifo}
use odyssey_lib.Fifo.Inv.{IsValid}
use odyssey_lib.Fifo.Ring.{window}

abbrev pub id_of : ℕ → ℕ
id_of x = x

abbrev pub Small : List ℕ → Type 0
Small [] = Unit
Small (x ∷ q) = (x < 2 ^ 16) × Small q

-- `f` holds the counts `q`, oldest first.
pub record Mirrors (f : Fifo) (q : List ℕ) : Type 0 where
  pub valid : IsValid f
  pub cells : List ℕ
  pub has : f.fifo ≡ some cells
  pub len : f.max_size ≤ length cells
  pub count : f.capacity ≡ length q
  pub place : f.push_ptr ≡ (f.pull_ptr + length q) % f.max_size
  pub counts : Ring.window id_of 0 f.max_size cells f.pull_ptr (length q) ≡ q
  pub small : Small q

abbrev pub total : List ℕ → ℕ
total [] = 0
total (x ∷ q) = x + total q

-- `n` taken off the oldest counts: what is left, and how many entries are used up.
unfoldable pub consume : ℕ → List ℕ → List ℕ
consume n [] = []
consume n (x ∷ q) = if n == 0 then x ∷ q else (if leb x n then consume (n - x) q else (x - n) ∷ q)

unfoldable pub retired : ℕ → List ℕ → ℕ
retired n [] = 0
retired n (x ∷ q) = if n == 0 then 0 else (if leb x n then suc (retired (n - x) q) else 0)

pub total-consume : (n : ℕ) (q : List ℕ) → n ≤ total q → total (consume n q) + n ≡ total q
unfolding consume
total-consume n [] h = omega arith
total-consume n (x ∷ q) h = ground (arith, total-consume (n - x) q)

pub length-consume : (n : ℕ) (q : List ℕ) → length (consume n q) + retired n q ≡ length q
unfolding consume retired
length-consume n [] = refl
length-consume n (x ∷ q) = ground (arith, length-consume (n - x) q)

-- `n` taken off the counts `q` leaves `q'`: the oldest ones that are used up are gone, and if `n` is more
-- than they were, the next count is larger than what is left of it and made smaller by that.
pub record Taken (n : ℕ) (q q' : List ℕ) (credits : ℕ) : Type 0 where
  pub used : List ℕ
  pub kept : List ℕ
  pub split : q ≡ used ++ kept
  pub number : length used ≡ credits
  pub rest :
      ((total used ≡ n) × (q' ≡ kept))
      ⊎ ((x : ℕ) × (others : List ℕ) × (kept ≡ x ∷ others)
          × (total used < n)
          × (n < total used + x)
          × (q' ≡ (total used + x - n) ∷ others))

all_used :
    {n x : ℕ} {q q' : List ℕ} {credits : ℕ}
    → x ≤ n
    → Taken (n - x) q q' credits
    → Taken n (x ∷ q) q' (suc credits)
all_used {n} {x} le t = record {
  used = x ∷ t.used;
  kept = t.kept;
  split = ap (λ l. x ∷ l) t.split;
  number = ap suc t.number;
  rest = elim t.rest [
    | inl (all, same) ↦ inl (omega (arith, all, le), same)
    | inr (y, others, next, fewer, more, same) ↦ inr (
      y,
      others,
      next,
      omega (arith, fewer, le),
      omega (arith, more, le),
      same ∙ ap (λ z. z ∷ others) (omega (arith, le)),
    )
  ];
}

pub consume-Taken : (n : ℕ) (q : List ℕ) → n ≤ total q → Taken n q (consume n q) (retired n q)
unfolding consume retired
consume-Taken n [] h = record {
  used = [];
  kept = [];
  split = refl;
  number = refl;
  rest = inl (omega (arith, h), refl);
}
consume-Taken n (x ∷ q) h = elim (ℕ_discrete n 0) [
  | yes e ↦
      rw (e, consume, retired)
        (record { used = []; kept = x ∷ q; split = refl; number = refl; rest = inl (refl, refl) })
  | no ne ↦
      let some_n : (n == 0) ≡ false = ne→==_false n 0 ne in
      elim (dec_le x n) [
        | yes le ↦
            rw (some_n, le→leb x n le)
              (all_used le (consume-Taken (n - x) q (omega (arith, h, le))))
        | no more ↦
            let larger : leb x n ≡ false = ground (arith, more) in
            rw (some_n, larger)
              (record {
                used = [];
                kept = x ∷ q;
                split = refl;
                number = refl;
                rest = inr (
                  x,
                  q,
                  refl,
                  omega (arith, ne),
                  omega (arith, more),
                  ap (λ z. z ∷ q) (omega arith),
                );
              })
      ]
]

pub Small-snoc : (q : List ℕ) (c : ℕ) → Small q → c < 2 ^ 16 → Small (q ++ c ∷ [])
Small-snoc [] c h k = (k, tt)
Small-snoc (x ∷ q) c h k = (h.0, Small-snoc q c h.1 k)

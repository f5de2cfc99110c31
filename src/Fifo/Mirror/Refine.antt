-- ===== src/Fifo/Mirror/Refine.antt =====
-- A mirrored buffer refines a queue of counts.
use odyssey_lib.Fifo.Ring
-- In a mirror that holds the counts `q`, with room left, a count below 2^8 that is added stands
-- behind the others, whatever the quorum is, and no assertion fails.
use native.Mathlib.Nat.{add-mod_right, mod-add-mod, mod-eq_of_lt, mod-lt}
use odyssey_lib.Base.{
  Bool, List, Option, [], ap, ap₂, arith, assert_if-true, dec_le, dec_lt, false, get_elem?,
  get_elem?-eq-get_or, get_or-set_self, leb, length, length-append, length-set, le→leb, ltb, lt→ltb,
  ne→==_false, refl, set, some, subst, suc, sym, true, u16, u32, zero, ℕ, ◌%◌, ◌++◌, ◌+◌, ◌-◌, ◌<◌,
  ◌==◌, ◌^◌, ◌∙◌, ◌∷◌, ◌≡◌, ◌≤◌,
}
use odyssey_lib.Fifo.{Fifo}
use odyssey_lib.Fifo.Inv.{
  IsValid, capacity-IsValid, fifo-IsValid, fifo_incr_pull_ptr_lem, fifo_incr_push_ptr_lem,
  max_size-lt,
}
use odyssey_lib.Fifo.Mirror.{
  add_to_mirror, cell_at, remove_from_the_mirrored_buffer, remove_loop, set_cell,
}
use odyssey_lib.Fifo.Mirror.Counts.{
  Mirrors, Small-snoc, Taken, consume, consume-Taken, id_of, length-consume, retired, total,
  total-consume,
}
use odyssey_lib.Fifo.Ring.{shift, window, window-set, window-set_last}

pub add_to_mirror-Mirrors :
    (b : Bool) {f : Fifo} {q : List ℕ} (c : ℕ) (missing : Option ℕ)
    → Mirrors f q
    → c < 2 ^ 8
    → f.capacity < f.max_size
    → (f' : Fifo) × (add_to_mirror b f c missing ≡ some f') × Mirrors f' (q ++ c ∷ [])
unfolding add_to_mirror set_cell
add_to_mirror-Mirrors b {f} {q} c missing h k room =
    let longer : length (q ++ c ∷ []) ≡ suc (length q) = omega (arith, length-append q (c ∷ [])) in
    let ec : u16 c ≡ c = omega arith in
    let cells' = set h.cells f.push_ptr c in
    let inside : ltb f.push_ptr (length h.cells) ≡ true =
      lt→ltb f.push_ptr (length h.cells) (omega (arith, h.len, h.valid.push_in)) in
    let v1 : IsValid (record f { fifo = some cells' }) = fifo-IsValid h.valid in
    let up = fifo_incr_push_ptr_lem v1 b in
    let ecap : u32 (f.capacity + 1) ≡ f.capacity + 1 = omega (arith, max_size-lt h.valid) in
    let fits : ltb f.max_size (f.capacity + 1) ≡ false = ground arith in
    (
      record f {
        fifo = some cells';
        push_ptr = (f.push_ptr + 1) % f.max_size;
        capacity = f.capacity + 1;
      },
      rw (h.has, inside, ec, up.0, ecap, fits),
      record {
        valid = capacity-IsValid up.1 (omega arith);
        cells = cells';
        has = refl;
        len = omega (arith, length-set h.cells f.push_ptr c, h.len);
        count = omega (arith, length-append q (c ∷ []), h.count);
        place =
            ap (λ k. (k + 1) % f.max_size) h.place
            ∙ mod-add-mod (f.pull_ptr + length q) f.max_size 1
            ∙ ap (λ k. k % f.max_size) (omega (arith, longer));
        counts =
            ap (λ k. Ring.window id_of 0 f.max_size cells' f.pull_ptr k) longer
            ∙ Ring.window-set_last id_of 0 f.max_size h.cells c (length q) f.pull_ptr f.push_ptr
                h.valid.pull_in (omega (arith, h.count)) h.place h.len
            ∙ ap (λ w. w ++ c ∷ []) h.counts;
        small = Small-snoc q c h.small (omega arith);
      },
    )

module _ (b : Bool) {f : Fifo} {x : ℕ} {q : List ℕ} (h : Mirrors f (x ∷ q)) where
  oldest : cell_at f f.pull_ptr ≡ some x
  unfolding cell_at
  oldest = rw h.has (
      get_elem?-eq-get_or h.cells f.pull_ptr 0 (omega (arith, h.len, h.valid.pull_in))
      ∙ ap some (cc h.counts))

  -- The oldest count is used up.
  abbrev popped : Fifo
  popped = record f { pull_ptr = (f.pull_ptr + 1) % f.max_size; capacity = f.capacity - 1 }

  popped-Mirrors : Mirrors popped q
  popped-Mirrors =
      let up = fifo_incr_pull_ptr_lem h.valid b in
      record {
        valid = capacity-IsValid up.1 (omega (arith, h.valid.room));
        cells = h.cells;
        has = h.has;
        len = h.len;
        count = omega (arith, h.count);
        place = h.place ∙ Ring.shift f.max_size f.pull_ptr (length q);
        counts = cc h.counts;
        small = h.small.1;
      }

  -- The oldest count is made smaller.
  abbrev reduced : ℕ → Fifo
  reduced v = record f { fifo = some (set h.cells f.pull_ptr v) }

  reduced-Mirrors : (v : ℕ) → v < 2 ^ 16 → Mirrors (reduced v) (v ∷ q)
  reduced-Mirrors v small =
      let round : f.pull_ptr ≡ ((f.pull_ptr + 1) % f.max_size + (f.max_size - 1)) % f.max_size =
        sym (
          mod-add-mod (f.pull_ptr + 1) f.max_size (f.max_size - 1)
          ∙ ap (λ k. k % f.max_size) (omega (arith, h.valid.slots))
          ∙ add-mod_right f.pull_ptr f.max_size
          ∙ mod-eq_of_lt h.valid.pull_in) in
      record {
        valid = fifo-IsValid h.valid;
        cells = set h.cells f.pull_ptr v;
        has = refl;
        len = omega (arith, length-set h.cells f.pull_ptr v, h.len);
        count = h.count;
        place = h.place;
        counts =
            ap₂ ◌∷◌ (get_or-set_self h.cells f.pull_ptr v 0 (omega (arith, h.len, h.valid.pull_in)))
              (Ring.window-set id_of 0 f.max_size h.cells v (length q) (f.max_size - 1)
                  ((f.pull_ptr + 1) % f.max_size) f.pull_ptr (mod-lt (f.pull_ptr + 1) h.valid.slots)
                  (omega (arith, h.count, h.valid.room)) (omega (arith, h.valid.slots)) round
                ∙ cc h.counts);
        small = (small, h.small.1);
      }

  remove_popped :
      (fuel n c : ℕ)
      → x ≤ n
      → n < 2 ^ 16
      → 0 < n
      → c + 1 < 2 ^ 16
      → remove_loop b (suc fuel) f n c ≡ remove_loop b fuel popped (n - x) (c + 1)
  unfolding remove_loop
  remove_popped fuel n c le small pos few =
      let e1 : (n == 0) ≡ false = ne→==_false n 0 (omega arith) in
      let e2 : u16 (n + 2 ^ 16 - x) ≡ n - x = omega arith in
      let e3 : u16 (c + 1) ≡ c + 1 = omega arith in
      let e4 : u32 (f.capacity + 0xffffffff) ≡ f.capacity - 1 =
        omega (arith, h.count, max_size-lt h.valid, h.valid.room) in
      let e5 : (f.capacity == 0) ≡ false = ne→==_false f.capacity 0 (omega (arith, h.count)) in
      rw (
        e1,
        oldest,
        le→leb x n le,
        (fifo_incr_pull_ptr_lem h.valid b).0,
        e5,
        assert_if-true b {c = true} refl,
        e2,
        e3,
        e4,
      )

  remove_reduced :
      (fuel n c : ℕ)
      → n < x
      → 0 < n
      → remove_loop b (suc (suc fuel)) f n c ≡ some (reduced (x - n), c)
  unfolding remove_loop set_cell
  remove_reduced fuel n c lt pos =
      let e1 : (n == 0) ≡ false = ne→==_false n 0 (omega arith) in
      let e2 : leb x n ≡ false = ground arith in
      let e3 : u16 (x + 2 ^ 16 - n) ≡ x - n = omega (arith, h.small) in
      let inside : ltb f.pull_ptr (length h.cells) ≡ true =
        lt→ltb f.pull_ptr (length h.cells) (omega (arith, h.len, h.valid.pull_in)) in
      rw (e1, oldest, e2, h.has, inside, e3)

remove_done :
    (b : Bool) (f : Fifo) (fuel n c : ℕ) → n ≡ 0 → remove_loop b (suc fuel) f n c ≡ some (f, c + 0)
unfolding remove_loop
remove_done b f fuel n c e = rw e (ap (λ k. some (f, k)) (omega arith))

remove_loop-Mirrors :
    (b : Bool) (q : List ℕ) {f : Fifo} (fuel n c : ℕ)
    → Mirrors f q
    → length q + 1 < fuel
    → n ≤ total q
    → n < 2 ^ 16
    → c + length q < 2 ^ 16
    → (f' : Fifo) × (remove_loop b fuel f n c ≡ some (f', c + retired n q))
      × Mirrors f' (consume n q)
unfolding consume retired
remove_loop-Mirrors b q zero n c h enough le small few = absurd (omega arith)
remove_loop-Mirrors b q (suc zero) n c h enough le small few = absurd (omega arith)
remove_loop-Mirrors b [] {f} (suc (suc fuel)) n c h enough le small few =
    (f, remove_done b f (suc fuel) n c (omega arith), h)
remove_loop-Mirrors b (x ∷ q) {f} (suc (suc fuel)) n c h enough le small few = elim (dec_lt 0 n) [
  | no p ↦
      let e : n ≡ 0 = omega arith in
      (f, rw (e, retired) (remove_done b f (suc fuel) 0 c refl), rw (e, consume) h)
  | yes pos ↦ elim (dec_le x n) [
    | yes p ↦
        let (f', run, held) =
          remove_loop-Mirrors b q (suc fuel) (n - x) (c + 1) (popped-Mirrors b h) (omega arith)
            (omega arith) (omega arith) (omega arith) in
        (
          f',
          remove_popped b h (suc fuel) n c p small pos (omega arith)
              ∙ run
              ∙ ap (λ k. some (f', k)) (ground arith),
          subst (Mirrors f') (ground arith) held,
        )
    | no p ↦ (
      reduced b h (x - n),
      remove_reduced b h fuel n c (omega arith) pos
          ∙ ap (λ k. some (reduced b h (x - n), k)) (ground arith),
      subst (Mirrors (reduced b h (x - n))) (ground arith)
          (reduced-Mirrors b h (x - n) (omega (arith, h.small))),
    )
  ]
]

-- From a mirror that holds the counts `q`, at least one and fewer than 2^16, and a number below 2^16
-- that they cover, `remove_from_the_mirrored_buffer` takes that number off: the loop ends within its
-- fuel, no assertion fails, the counts that are left sum up to that much less, and one credit is
-- returned for each count that is used up: these are the oldest ones, and the next count is more than
-- what is left to take off it, which it loses.
pub remove_from_the_mirrored_buffer-Mirrors :
    (b : Bool) (mirror_buf : List Fifo) (fifo_id n : ℕ) {f : Fifo} {q : List ℕ}
    → get_elem? mirror_buf fifo_id ≡ some f
    → Mirrors f q
    → 0 < length q
    → n ≤ total q
    → n < 2 ^ 16
    → length q < 2 ^ 16
    → (f' : Fifo) × (q' : List ℕ) × (credits : ℕ) × (remove_from_the_mirrored_buffer b mirror_buf
          fifo_id n
        ≡ some (f', credits))
      × Mirrors f' q'
      × (total q' + n ≡ total q)
      × (length q' + credits ≡ length q)
      × Taken n q q' credits
unfolding remove_from_the_mirrored_buffer
remove_from_the_mirrored_buffer-Mirrors b mirror_buf fifo_id n {f} {q} at h some_left le small few =
    let (f', run, held) =
      remove_loop-Mirrors b q (f.capacity + 2) n 0 h (omega (arith, h.count)) le small
        (omega arith) in
    let e : (f.capacity == 0) ≡ false = ne→==_false f.capacity 0 (omega (arith, h.count)) in
    (
      f',
      consume n q,
      retired n q,
      rw (at, e, assert_if-true b {c = true} refl) (run ∙ ap (λ k. some (f', k)) (omega arith)),
      held,
      total-consume n q le,
      length-consume n q,
      consume-Taken n q le,
    )

-- ===== src/Seqlock/Invariant.antt =====
-- Who holds the lock, and what a reader's copy is good for.
use native.Mathlib.Nat.{le_refl}
use odyssey_lib.Base.{
  update, Bool, arith, dec_lt, eq→==, false, inl, inr, ne→==_false, refl, sym, true, ℕ, ℕ_discrete,
  ◌%◌, ◌<◌, ◌==◌, ◌^◌, ◌∙◌, ◌≡◌, ◌≢◌, ◌≤◌, ◌⊎◌,
}
use odyssey_lib.Seqlock.Defs.{
  Move, Pc, Reach, Shared, Step, System, acquire, begin, cas_lose, cas_win, check_changed,
  check_same, copy_in, copy_out, finish, fresh, get_byte, have_read, idle, is_odd, load_lock,
  load_unlock, pick, put_byte, recheck, recheck_odd, release, retry, see_even, see_odd, spin,
  start_read, step, store_unlock, wait,
}

-- Between winning the compare-exchange and the store of the unlock.
abbrev pub writing : Pc → Bool
writing (copy_in _ _) = true
writing (release _) = true
writing _ = false

-- What a worker's local variables say about shared memory.
abbrev pub IsFresh : ℕ → Shared → Pc → Type 0
IsFresh size m (acquire new tmp) = tmp ≤ m.lock
IsFresh size m (copy_in new done) =
    (m.lock % 2 ≡ 1) × (done ≤ size) × ((j : ℕ) → j < done → m.value j ≡ new j)
IsFresh size m (release tmp) = (m.lock % 2 ≡ 1) × (tmp ≡ m.lock)
IsFresh size m (copy_out tmp buf done) =
    (tmp % 2 ≡ 0)
    × (tmp ≤ m.lock)
    × (done ≤ size)
    × (m.lock ≡ tmp → (j : ℕ) → j < done → buf j ≡ m.value j)
IsFresh size m (recheck tmp) = tmp ≤ m.lock
IsFresh size m _ = Unit

pub record Inv (size : ℕ) (s : System) : Type 0 where
  pub lock : s.mem.lock ≡ s.mem.writes
  pub unique : (i j : ℕ) → writing (s.pc i) ≡ true → writing (s.pc j) ≡ true → i ≡ j
  pub local : (i : ℕ) → IsFresh size s.mem (s.pc i)
  pub stable : s.mem.lock % 2 ≡ 0 → (j : ℕ) → s.mem.value j ≡ s.mem.committed j

fresh-Inv : (size : ℕ) (v : ℕ → ℕ) → Inv size (fresh v)
fresh-Inv size v = record {
  lock = refl;
  unique = λ i j p q. cc;
  local = λ i. tt;
  stable = λ e j. refl;
}

pub writes-le : {size : ℕ} {m m' : Shared} {p p' : Pc} → Move size m p m' p' → m.writes ≤ m'.writes
writes-le load_lock = omega arith
writes-le mv = omega arith

is_odd-false : (n : ℕ) → is_odd n ≡ false → n % 2 ≡ 0
unfolding is_odd
is_odd-false n h = ground arith

is_odd-true : (n : ℕ) → is_odd n ≡ true → n % 2 ≡ 1
unfolding is_odd
is_odd-true n h = ground arith

update_self : (f : ℕ → ℕ) (i a : ℕ) → update f i a i ≡ a
update_self f i a = ground arith

update_below : (f : ℕ → ℕ) (i a j : ℕ) → j < i → update f i a j ≡ f j
update_below f i a j h = ground arith

module _ {size : ℕ} {m : Shared} where
  -- The lock counts its changes, as long as they are fewer than 2^64.
  Move-lock :
      {p p' : Pc} {m' : Shared}
      → Move size m p m' p'
      → m.lock ≡ m.writes
      → IsFresh size m p
      → m'.writes < 2 ^ 64
      → m'.lock ≡ m'.writes
  Move-lock load_lock e f few = e
  Move-lock (cas_win even same) e f few = omega arith
  Move-lock store_unlock e f few = omega arith
  Move-lock mv e f few = e

  -- What the step says of the worker that makes it.
  Move-own :
      {p p' : Pc} {m' : Shared}
      → Move size m p m' p'
      → m.lock ≡ m.writes
      → IsFresh size m p
      → m'.writes < 2 ^ 64
      → IsFresh size m' p'
  Move-own load_lock e f few = le_refl m.lock
  Move-own (spin odd) e f few = le_refl m.lock
  Move-own (cas_lose even ne) e f few = le_refl m.lock
  Move-own (cas_win {tmp = tmp} even same) e f few =
      (omega (arith, is_odd-false tmp even), omega arith, λ j h. absurd (omega arith))
  Move-own (put_byte {new = new} {done = done} lt) e f few = (
    f.0,
    omega arith,
    λ j h. elim (dec_lt j done) [
      | yes p ↦ update_below m.value done (new done) j p ∙ f.2 j p
      | no p ↦ let same : j ≡ done = omega arith in rw same (update_self m.value done (new done))
    ],
  )
  Move-own (load_unlock le) e f few = (f.0, refl)
  Move-own store_unlock e f few = tt
  Move-own start_read e f few = tt
  Move-own (see_odd odd) e f few = tt
  Move-own (see_even even) e f few =
      (is_odd-false m.lock even, le_refl m.lock, omega arith, λ _ j h. absurd (omega arith))
  Move-own (get_byte {buf = buf} {done = done} lt) e f few = (
    f.0,
    f.1,
    omega arith,
    λ same j h. elim (dec_lt j done) [
      | yes p ↦ update_below buf done (m.value done) j p ∙ f.3 same j p
      | no p ↦ let here : j ≡ done = omega arith in rw here (update_self buf done (m.value done))
    ],
  )
  Move-own (check_same le same) e f few = tt
  Move-own (check_changed le ne) e f few = le_refl m.lock
  Move-own (recheck_odd odd) e f few = le_refl m.lock
  Move-own (retry {tmp = tmp} even) e f few =
      (is_odd-false tmp even, f, omega arith, λ _ j h. absurd (omega arith))
  Move-own finish e f few = tt

  -- What it leaves true of another worker, which stands at `q`.
  Move-others :
      {p p' : Pc} {m' : Shared}
      → Move size m p m' p'
      → m.lock ≡ m.writes
      → IsFresh size m p
      → m'.writes < 2 ^ 64
      → (q : Pc) → (writing p ≡ true → writing q ≡ true → ⊥)
      → IsFresh size m q
      → IsFresh size m' q
  Move-others load_lock e f few q apart g = g
  Move-others (cas_win {tmp = tmp} even same) e f few idle apart g = tt
  Move-others (cas_win {tmp = tmp} even same) e f few (acquire new t) apart g = omega arith
  Move-others (cas_win {tmp = tmp} even same) e f few (copy_in new done) apart g =
      absurd (omega (arith, is_odd-false tmp even))
  Move-others (cas_win {tmp = tmp} even same) e f few (release t) apart g =
      absurd (omega (arith, is_odd-false tmp even))
  Move-others (cas_win {tmp = tmp} even same) e f few wait apart g = tt
  Move-others (cas_win {tmp = tmp} even same) e f few (copy_out t buf done) apart g =
      (g.0, omega arith, g.2, λ back. absurd (omega arith))
  Move-others (cas_win {tmp = tmp} even same) e f few (recheck t) apart g = omega arith
  Move-others (cas_win {tmp = tmp} even same) e f few (have_read buf) apart g = tt
  Move-others (put_byte lt) e f few idle apart g = tt
  Move-others (put_byte lt) e f few (acquire new t) apart g = g
  Move-others (put_byte lt) e f few (copy_in new done) apart g = absurd (apart refl refl)
  Move-others (put_byte lt) e f few (release t) apart g = absurd (apart refl refl)
  Move-others (put_byte lt) e f few wait apart g = tt
  Move-others (put_byte lt) e f few (copy_out t buf done) apart g =
      (g.0, g.1, g.2, λ back. absurd (omega arith))
  Move-others (put_byte lt) e f few (recheck t) apart g = g
  Move-others (put_byte lt) e f few (have_read buf) apart g = tt
  Move-others store_unlock e f few idle apart g = tt
  Move-others store_unlock e f few (acquire new t) apart g = omega arith
  Move-others store_unlock e f few (copy_in new done) apart g = absurd (apart refl refl)
  Move-others store_unlock e f few (release t) apart g = absurd (apart refl refl)
  Move-others store_unlock e f few wait apart g = tt
  Move-others store_unlock e f few (copy_out t buf done) apart g =
      (g.0, omega arith, g.2, λ back. absurd (omega arith))
  Move-others store_unlock e f few (recheck t) apart g = omega arith
  Move-others store_unlock e f few (have_read buf) apart g = tt
  Move-others mv e f few q apart g = g

  -- Outside a critical section the value is the committed one.
  Move-stable :
      {p p' : Pc} {m' : Shared}
      → Move size m p m' p'
      → m.lock ≡ m.writes
      → IsFresh size m p
      → m'.writes < 2 ^ 64
      → (m.lock % 2 ≡ 0 → (j : ℕ) → m.value j ≡ m.committed j)
      → m'.lock % 2 ≡ 0
      → (j : ℕ) → m'.value j ≡ m'.committed j
  Move-stable load_lock e f few s = s
  Move-stable (cas_win {tmp = tmp} even same) e f few s =
      λ h. absurd (omega (arith, is_odd-false tmp even))
  Move-stable (put_byte lt) e f few s = λ h. absurd (omega arith)
  Move-stable store_unlock e f few s = λ _ j. refl
  Move-stable mv e f few s = s

  -- Only the winner of the compare-exchange enters a critical section, and then nobody is in one.
  Move-enters :
      {p p' : Pc} {m' : Shared}
      → Move size m p m' p'
      → writing p' ≡ true
      → (writing p ≡ true) ⊎ (m.lock % 2 ≡ 0)
  Move-enters load_lock h = cc
  Move-enters (cas_win {tmp = tmp} even same) h = inr (omega (arith, is_odd-false tmp even))
  Move-enters (put_byte lt) h = inl refl
  Move-enters (load_unlock le) h = inl refl
  Move-enters mv h = cc

writing-odd :
    (size : ℕ) (m : Shared) (q : Pc) → IsFresh size m q → writing q ≡ true → m.lock % 2 ≡ 1
writing-odd size m (copy_in new done) f h = f.0
writing-odd size m (release tmp) f h = f.0
writing-odd size m q f h = cc

-- `update` at the index of the mover, and at another.
update_cases {ℓ} :
    {A : Type ℓ} (P : A → Type ℓ) (f : ℕ → A) (i : ℕ) (a : A) (j : ℕ)
    → P a
    → (j ≢ i → P (f j))
    → P (update f i a j)
update_cases P f i a j here there = elim (ℕ_discrete i j) [
  | yes e ↦ let t : (i == j) ≡ true = eq→== i j e in rw t here
  | no ne ↦ let t : (i == j) ≡ false = ne→==_false i j ne in rw t (there (λ e. ne (sym e)))
]

module _ {size : ℕ} {s : System} (inv : Inv size s) (i : ℕ) {m : Shared} {p : Pc}
    (mv : Move size s.mem (s.pc i) m p) (few : m.writes < 2 ^ 64) where
  -- No other worker is in a critical section when this one enters it or is in it.
  alone : (j : ℕ) → writing p ≡ true → j ≢ i → writing (s.pc j) ≡ true → ⊥
  alone j h ne w = elim (Move-enters mv h) [
    | inl own ↦ ne (inv.unique j i w own)
    | inr even ↦ omega (arith, writing-odd size s.mem (s.pc j) (inv.local j) w)
  ]

  step_unique :
      (a b : ℕ) → writing (update s.pc i p a) ≡ true → writing (update s.pc i p b) ≡ true → a ≡ b
  step_unique a b ha hb = ground (arith, alone a, alone b, inv.unique a b)

  pub Move-Inv : Inv size (record { mem = m; pc = update s.pc i p })
  Move-Inv = record {
    lock = Move-lock mv inv.lock (inv.local i) few;
    unique = step_unique;
    local = λ j.
        update_cases (IsFresh size m) s.pc i p j (Move-own mv inv.lock (inv.local i) few) (λ ne.
          Move-others mv inv.lock (inv.local i) few (s.pc j)
            (λ own other. ne (inv.unique j i other own)) (inv.local j));
    stable = Move-stable mv inv.lock (inv.local i) few inv.stable;
  }

-- Every step of every worker keeps the invariant, while the lock has changed fewer than 2^64 times.
pub Step-Inv :
    {size : ℕ} {s t : System} → Step size s t → t.mem.writes < 2 ^ 64 → Inv size s → Inv size t
Step-Inv (pick i mv) few inv = Move-Inv inv i mv few

Step-writes : {size : ℕ} {s t : System} → Step size s t → s.mem.writes ≤ t.mem.writes
Step-writes (pick i mv) = writes-le mv

pub Reach-Inv :
    {size : ℕ} {v : ℕ → ℕ} {s : System} → Reach size v s → s.mem.writes < 2 ^ 64 → Inv size s
Reach-Inv {size} {v} begin few = fresh-Inv size v
Reach-Inv (step r st) few = Step-Inv st few (Reach-Inv r (omega (arith, Step-writes st)))

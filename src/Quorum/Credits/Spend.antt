-- ===== src/Quorum/Credits/Spend.antt =====
-- What `decrease_credits` does to the credits.
use odyssey_lib.Base.{
  Bool, List, arith, assert_if-true, get_or, get_or-set_ne, get_or-set_self, length, length-set,
  le→leb, ltb, lt→ltb, ne→==_false, not, refl, set, some, subst, suc, sym, true, u16, zero, ℕ,
  ℕ_discrete, ◌&&◌, ◌+◌, ◌-◌, ◌<◌, ◌==◌, ◌^◌, ◌∙◌, ◌≡◌, ◌≢◌, ◌≤◌,
}
use odyssey_lib.Config.{machine_num}
use odyssey_lib.Quorum.{QuorumInfo}
use odyssey_lib.Quorum.Credits.{decrease_credits, decrease_loop}

module _ (machine_id : ℕ) (ids : List ℕ) (mes_sent : ℕ) where
  -- The active ids that the loop still visits: remote machines, no two the same, each with enough
  -- credits.
  pub record Spendable (credits : List ℕ) (i n : ℕ) : Type 0 where
    pub remote : (k : ℕ) → i ≤ k → k < i + n → get_or ids k 0 ≢ machine_id
    pub known : (k : ℕ) → i ≤ k → k < i + n → get_or ids k 0 < machine_num
    pub distinct : (j k : ℕ) → i ≤ j → j < k → k < i + n → get_or ids j 0 ≢ get_or ids k 0
    pub enough : (k : ℕ) → i ≤ k → k < i + n → mes_sent ≤ get_or credits (get_or ids k 0) 0
    pub small : (k : ℕ) → i ≤ k → k < i + n → get_or credits (get_or ids k 0) 0 < 2 ^ 16
    pub known_credits : length credits ≡ machine_num

  -- Each id visited has `mes_sent` credits less, every other machine has as many as before.
  pub record Spent (credits credits' : List ℕ) (i n : ℕ) : Type 0 where
    pub paid :
        (k : ℕ)
        → i ≤ k
        → k < i + n
        → get_or credits' (get_or ids k 0) 0 + mes_sent ≡ get_or credits (get_or ids k 0) 0
    pub kept :
        (m : ℕ)
        → ((k : ℕ) → i ≤ k → k < i + n → get_or ids k 0 ≢ m)
        → get_or credits' m 0 ≡ get_or credits m 0

  abbrev after : List ℕ → ℕ → List ℕ
  after credits i =
      set credits (get_or ids i 0) (u16 (get_or credits (get_or ids i 0) 0 + 2 ^ 16 - mes_sent))

  after_other :
      (credits : List ℕ) (i m : ℕ)
      → get_or ids i 0 ≢ m
      → get_or (after credits i) m 0 ≡ get_or credits m 0
  after_other credits i m ne = get_or-set_ne credits (get_or ids i 0) m _ 0 ne

  after_paid :
      (credits : List ℕ) (i n : ℕ)
      → Spendable credits i (suc n)
      → get_or (after credits i) (get_or ids i 0) 0 + mes_sent ≡ get_or credits (get_or ids i 0) 0
  after_paid credits i n s =
      let w =
        get_or-set_self credits (get_or ids i 0)
          (u16 (get_or credits (get_or ids i 0) 0 + 2 ^ 16 - mes_sent)) 0
          (omega (arith, s.known i (omega arith) (omega arith), s.known_credits)) in
      omega
        (arith, w, s.enough i (omega arith) (omega arith), s.small i (omega arith) (omega arith))

  after-Spendable :
      (credits : List ℕ) (i n : ℕ)
      → Spendable credits i (suc n)
      → Spendable (after credits i) (i + 1) n
  after-Spendable credits i n s =
      let same : (k : ℕ)
          → i + 1 ≤ k
          → k < i + 1 + n
          → get_or (after credits i) (get_or ids k 0) 0 ≡ get_or credits (get_or ids k 0) 0 =
        λ k x y.
          after_other credits i (get_or ids k 0)
            (s.distinct i k (omega arith) (omega arith) (omega arith)) in
      record {
        remote = λ k x y. s.remote k (omega arith) (omega arith);
        known = λ k x y. s.known k (omega arith) (omega arith);
        distinct = λ j k x y z. s.distinct j k (omega arith) y (omega arith);
        enough = λ k x y. omega (arith, same k x y, s.enough k (omega arith) (omega arith));
        small = λ k x y. omega (arith, same k x y, s.small k (omega arith) (omega arith));
        known_credits = length-set credits (get_or ids i 0) _ ∙ s.known_credits;
      }

  remote_known :
      {id : ℕ}
      → id ≢ machine_id
      → id < machine_num
      → (not (id == machine_id) && ltb id machine_num) ≡ true
  remote_known {id} ne lt = rw (ne→==_false id machine_id ne, lt→ltb id machine_num lt) refl

  decrease_loop-Spent :
      (assertions : Bool) (n i : ℕ) (credits : List ℕ)
      → Spendable credits i n
      → (credits' : List ℕ) × (decrease_loop machine_id assertions ids mes_sent n i credits
          ≡ some credits')
        × Spent credits credits' i n
  unfolding decrease_loop
  decrease_loop-Spent assertions zero i credits s =
      (credits, refl, record { paid = λ k x y. absurd (omega arith); kept = λ m h. refl })
  decrease_loop-Spent assertions (suc n) i credits s =
      let (credits', run, spent) =
        decrease_loop-Spent assertions n (i + 1) (after credits i)
          (after-Spendable credits i n s) in
      let first = assert_if-true assertions (
        le→leb mes_sent (get_or credits (get_or ids i 0) 0)
          (s.enough i (omega arith) (omega arith))) in
      let second = assert_if-true assertions (
        remote_known (s.remote i (omega arith) (omega arith))
          (s.known i (omega arith) (omega arith))) in
      (
        credits',
        rw (first, second) run,
        record {
          paid = λ k x y. elim (ℕ_discrete i k) [
            | yes e ↦
                subst
                  (λ j.
                    get_or credits' (get_or ids j 0) 0 + mes_sent
                    ≡ get_or credits (get_or ids j 0) 0)
                  e
                  (omega (
                    arith,
                    spent.kept (get_or ids i 0) (λ j v w d.
                        s.distinct i j (omega arith) (omega arith) (omega arith) (sym d)),
                    after_paid credits i n s,
                  ))
            | no ne ↦
                spent.paid k (omega arith) (omega arith)
                ∙ after_other credits i (get_or ids k 0)
                    (s.distinct i k (omega arith) (omega arith) (omega arith))
          ];
          kept = λ m h.
              spent.kept m (λ k x y. h k (omega arith) (omega arith))
              ∙ after_other credits i m (h i (omega arith) (omega arith));
        },
      )

-- `decrease_credits`, run on active ids that are distinct remote machines with at least `mes_sent`
-- credits each (16-bit counters), passes its assertions, takes `mes_sent` credits from each active machine and
-- leaves those of the others alone.
pub decrease_credits-Spent :
    (machine_id : ℕ) (assertions : Bool) (credits : List ℕ) (q : QuorumInfo) (mes_sent : ℕ)
    → Spendable machine_id q.active_ids mes_sent credits 0 q.active_num
    → (credits' : List ℕ) × (decrease_credits machine_id assertions credits q mes_sent
        ≡ some credits')
      × Spent machine_id q.active_ids mes_sent credits credits' 0 q.active_num
unfolding decrease_credits
decrease_credits-Spent machine_id assertions credits q mes_sent s =
    decrease_loop-Spent machine_id q.active_ids mes_sent assertions q.active_num 0 credits s

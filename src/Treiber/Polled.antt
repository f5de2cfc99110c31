-- ===== src/Treiber/Polled.antt =====
-- What a session of client/od_client.c's Treiber stacks has waited for when `poll_a_req_blocking`
-- returns.
use native.Mathlib.Nat.{le_refl}
use odyssey_lib.Base.{
  Bool, Bool-cases, List, [], arith, at_update, inl, inr, length, refl, ℕ, ◌<◌, ◌==◌, ◌^◌, ◌∷◌, ◌≡◌,
  ◌≤◌,
}
use odyssey_lib.Treiber.{Outcome, StoreOp}
use odyssey_lib.Treiber.Run.{
  Clients, IsPolled, Reached, Service, Turn, act, acted, at_start, initial, performed, pushed_after,
  req_id_after, turn,
}

length_zero : (q : List StoreOp) → length q ≡ 0 → q ≡ []
length_zero [] e = refl
length_zero (r ∷ q) e = absurd (omega (arith, e))

abbrev IsNumbered : Clients → ℕ → Type 0
IsNumbered s i = s.last_pushed_req i < 2 ^ 32 → s.last_req_id i ≡ s.last_pushed_req i

req_id_after-IsNumbered :
    (id n : ℕ) (rs : List StoreOp)
    → (n < 2 ^ 32 → id ≡ n)
    → pushed_after n rs < 2 ^ 32
    → req_id_after id n rs ≡ pushed_after n rs
unfolding req_id_after pushed_after
req_id_after-IsNumbered id n [] was small = omega (arith, was (omega (arith, small)))
req_id_after-IsNumbered id n (r ∷ rs) was small = omega (arith, small)

pushed_after-le : (n : ℕ) (rs : List StoreOp) → n ≤ pushed_after n rs
unfolding pushed_after
pushed_after-le n rs = omega arith

acted-IsNumbered :
    (s : Clients) (i : ℕ) (o : Outcome)
    → ((j : ℕ) → IsNumbered s j)
    → (j : ℕ) → IsNumbered (acted s i o) j
acted-IsNumbered s i (x, rs, c) was j = elim (Bool-cases (i == j)) [
  | inl same ↦ rw same (req_id_after-IsNumbered (s.last_req_id i) (s.last_pushed_req i) rs (was i))
  | inr other ↦ rw other (was j)
]

module _ {service : Service} {assertions no_conflicts : Bool} where
  pub Turn-pushed :
      {s t : Clients}
      → Turn service assertions no_conflicts s t
      → (j : ℕ) → s.last_pushed_req j ≤ t.last_pushed_req j
  Turn-pushed {s} (performed i lt e done) j = le_refl (s.last_pushed_req j)
  Turn-pushed {s} (act i {o = (x, rs, c)} lt done ran) j =
      at_update (λ j n. s.last_pushed_req j ≤ n) s.last_pushed_req i
        (pushed_after (s.last_pushed_req i) rs) (pushed_after-le (s.last_pushed_req i) rs)
        (λ j _. le_refl (s.last_pushed_req j)) j

  -- While a session has issued fewer than 2^32 requests, its `last_req_id` is the number of the last.
  Reached-IsNumbered :
      {s : Clients} → Reached service assertions no_conflicts s → (i : ℕ) → IsNumbered s i
  unfolding initial
  Reached-IsNumbered at_start i small = refl
  Reached-IsNumbered (turn r (performed j lt e done)) i small = Reached-IsNumbered r i small
  Reached-IsNumbered (turn {s} r (act j {o = o} lt done ran)) i small =
      acted-IsNumbered s j o (Reached-IsNumbered r) i small

  pub polled-empty :
      {s : Clients}
      → Reached service assertions no_conflicts s
      → (i : ℕ) → s.last_pushed_req i < 2 ^ 32
      → IsPolled s i
      → (s.sess i).queue ≡ []
  polled-empty {s} r i small done =
      length_zero (s.sess i).queue (omega (arith, Reached-IsNumbered r i small, done))

-- ===== src/Producers/Polled.antt =====
-- What a session of client/od_client.c's producer-consumer ring has waited for when
-- `poll_a_req_blocking` returns.
use native.Mathlib.Nat.{le_refl}
use odyssey_lib.Base.{
  Bool, Bool-cases, List, [], arith, assert_if-cases, assert_that-cases, at_update, inl, inr,
  length, refl, some, some_injective, subst, sym, true, true-ne_false, u32, u64, ℕ, ◌+◌, ◌<◌, ◌==◌,
  ◌^◌, ◌∙◌, ◌∷◌, ◌≡◌, ◌≢◌, ◌≤◌,
}
use odyssey_lib.Producers.{
  PcOp, PcSess, PcState, acquire_flag, next_round, pc_in, pc_per_sess_state_machine,
  pc_poll_local_store, pc_round, pc_try_to_acquire, read_flag, read_part, release_flag, write_part,
}
use odyssey_lib.Producers.Run.{
  IsPcPolled, PcAtomic, PcReached, PcService, PcStore, PcTurn, Ring, pc_act, pc_acted, pc_answered,
  pc_at_start, pc_perform, pc_performed, pc_pushed_after, pc_req_id_after, pc_turn,
}
use odyssey_lib.Producers.Start.{asked_start}

no_ops : (q : List PcOp) → length q ≡ 0 → q ≡ []
no_ops [] e = refl
no_ops (r ∷ q) e = absurd (omega (arith, e))

-- After the read of a flag, that is the last request.
abbrev Numbers : PcSess × List PcOp → Type 0
Numbers (x, rs) =
    x.state ≡ pc_try_to_acquire → (id n : ℕ) → pc_req_id_after id n rs ≡ u32 (pc_pushed_after n rs)

module _ (client_assertions : Bool) where
  polling-ne-trying : pc_poll_local_store ≢ pc_try_to_acquire
  polling-ne-trying e = cc

  rests :
      (x : PcSess) (rs : List PcOp) (o : PcSess × List PcOp)
      → x.state ≡ pc_poll_local_store
      → some (x, rs) ≡ some o
      → Numbers o
  rests x rs o at e =
      subst Numbers (some_injective e) (λ try. absurd (polling-ne-trying (sym at ∙ try)))

  round-Numbers :
      (x : PcSess) (o : PcSess × List PcOp) → pc_round client_assertions x ≡ some o → Numbers o
  unfolding pc_round
  round-Numbers x o e =
      rests (next_round x) _ o refl
        (assert_that-cases (
          assert_if-cases client_assertions _ (
            assert_if-cases client_assertions _
              (assert_if-cases client_assertions _ (assert_if-cases client_assertions _ e))))).1

  in-Numbers :
      (st : PcState) (x : PcSess) (o : PcSess × List PcOp)
      → pc_in client_assertions st x ≡ some o
      → Numbers o
  unfolding pc_in pc_req_id_after pc_pushed_after
  in-Numbers pc_poll_local_store x o e = subst Numbers (some_injective e) (λ try id n. refl)
  in-Numbers pc_try_to_acquire x o e =
      elim (Bool-cases (x.acq_flag.counter == u64 (x.acq_num + 1))) [
        | inl high ↦ round-Numbers x o (sym (rw high refl) ∙ e)
        | inr low ↦
            rests (record x { state = pc_poll_local_store }) [] o refl (sym (rw low refl) ∙ e)
      ]

  machine-Numbers :
      (x : PcSess) (o : PcSess × List PcOp)
      → pc_per_sess_state_machine client_assertions x ≡ some o
      → Numbers o
  unfolding pc_per_sess_state_machine
  machine-Numbers x o e = in-Numbers x.state x o (assert_if-cases client_assertions _ e)

-- While a session that waits for its flag has issued fewer than 2^32 requests, its `last_req_id` is the
-- number of the last.
abbrev IsAsked : Ring → ℕ → Type 0
IsAsked s g =
    s.last_pushed_req g < 2 ^ 32
    → (s.sess g).info.asked ≡ true
    → (s.sess g).info.state ≡ pc_try_to_acquire
    → s.last_req_id g ≡ s.last_pushed_req g

pc_perform-kept :
    (r : PcOp) (m : PcStore) (x : PcSess)
    → ((pc_perform r m x).1.asked ≡ x.asked) × ((pc_perform r m x).1.state ≡ x.state)
unfolding pc_perform
pc_perform-kept (read_flag _) m x = (refl, refl)
pc_perform-kept (acquire_flag _) m x = (refl, refl)
pc_perform-kept (read_part _) m x = (refl, refl)
pc_perform-kept (write_part _ _) m x = (refl, refl)
pc_perform-kept (release_flag _ _) m x = (refl, refl)

answered-IsAsked :
    (s : Ring) (g : ℕ) (r : PcOp) (q : List PcOp)
    → ((j : ℕ) → IsAsked s j)
    → (j : ℕ) → IsAsked (pc_answered s g (pc_perform r s.store (s.sess g).info) q) j
answered-IsAsked s g r q was j =
    let kept = pc_perform-kept r s.store (s.sess g).info in
    at_update
      (λ j c.
        s.last_pushed_req j < 2 ^ 32
        → c.info.asked ≡ true
        → c.info.state ≡ pc_try_to_acquire
        → s.last_req_id j ≡ s.last_pushed_req j)
      s.sess g _ (λ few asked try. was g few (sym kept.0 ∙ asked) (sym kept.1 ∙ try)) (λ j _. was j)
      j

acted-IsAsked :
    (s : Ring) (g : ℕ) (o : PcSess × List PcOp)
    → Numbers o
    → ((j : ℕ) → IsAsked s j)
    → (j : ℕ) → IsAsked (pc_acted s g o) j
acted-IsAsked s g (x, rs) numbers was j = elim (Bool-cases (g == j)) [
  | inl same ↦
      rw same
        (λ few asked try. numbers try (s.last_req_id g) (s.last_pushed_req g) ∙ omega (arith, few))
  | inr other ↦ rw other (was j)
]

pc_pushed_after-le : (n : ℕ) (rs : List PcOp) → n ≤ pc_pushed_after n rs
unfolding pc_pushed_after
pc_pushed_after-le n rs = omega arith

module _ {service : PcService} {client_assertions : Bool} where
  pub PcTurn-pushed :
      {s t : Ring}
      → PcTurn service client_assertions s t
      → (j : ℕ) → s.last_pushed_req j ≤ t.last_pushed_req j
  PcTurn-pushed {s} (pc_performed g lt e done) j = le_refl (s.last_pushed_req j)
  PcTurn-pushed {s} (pc_act g {o = (x, rs)} lt done ran) j =
      at_update (λ j n. s.last_pushed_req j ≤ n) s.last_pushed_req g
        (pc_pushed_after (s.last_pushed_req g) rs) (pc_pushed_after-le (s.last_pushed_req g) rs)
        (λ j _. le_refl (s.last_pushed_req j)) j

  PcReached-IsAsked :
      {k0 : ℕ} {s : Ring}
      → PcAtomic service
      → PcReached service client_assertions k0 s
      → (g : ℕ) → IsAsked s g
  PcReached-IsAsked {k0} atomic pc_at_start g =
      λ few asked try. absurd (true-ne_false (sym asked ∙ asked_start k0 g))
  PcReached-IsAsked atomic (pc_turn {s} r (pc_performed g {r = op} {q = q} lt e done)) j =
      subst (λ o. IsAsked (pc_answered s g o q) j) (sym (atomic _ _ _ _ _ done))
        (answered-IsAsked s g op q (PcReached-IsAsked atomic r) j)
  PcReached-IsAsked atomic (pc_turn {s} r (pc_act g {o = o} lt done ran)) j =
      acted-IsAsked s g o (machine-Numbers client_assertions (s.sess g).info o ran)
        (PcReached-IsAsked atomic r) j

  pub polled-none :
      {k0 : ℕ} {s : Ring}
      → PcAtomic service
      → PcReached service client_assertions k0 s
      → (g : ℕ) → s.last_pushed_req g < 2 ^ 32
      → (s.sess g).info.state ≡ pc_try_to_acquire
      → IsPcPolled s g
      → (s.sess g).info.asked ≡ true
      → (s.sess g).queue ≡ []
  polled-none {s = s} atomic r g few try done asked =
      no_ops (s.sess g).queue (omega (arith, PcReached-IsAsked atomic r g few asked try, done))

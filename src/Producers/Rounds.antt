-- ===== src/Producers/Rounds.antt =====
-- `pc_per_sess_state_machine` of client/od_client.c for one session, wherever it stands.
use odyssey_lib.Base.{
  update, ==→eq, Bool, Bool-cases, List, [], ap, append-nil, append-nil_left, append-nil_right,
  arith, assert_if-true, dec_lt, eq→==, false, inl, inr, ltb, lt→ltb, not, refl, some, sym, true,
  true-ne_false, u64, ℕ, ◌++◌, ◌+◌, ◌<◌, ◌==◌, ◌^◌, ◌||◌, ◌∙◌, ◌∷◌, ◌≡◌, ◌≢◌, ◌⊎◌,
}
use odyssey_lib.Client.Api.{poll}
use odyssey_lib.Config.{sessions_per_machine}
use odyssey_lib.Producers.{
  PcOp, PcSess, PcState, acquire_flag, next_round, parts_from, pc_in, pc_per_sess_state_machine,
  pc_poll_local_store, pc_round, pc_try_to_acquire, pc_writes_num, read_flag,
}
use odyssey_lib.Producers.Invariant.{Counted-more, Orderly, calm-Orderly}
use odyssey_lib.Producers.Rests.{idle_rests, restated}
use odyssey_lib.Producers.Run.{Ring, begun, pc_acted}
use odyssey_lib.Producers.Serving.{Carried}
use odyssey_lib.Producers.Stages.{AsksFor, HasRead, Written, acquiring, asks}
use odyssey_lib.Treiber.{global_session_num}
use odyssey_lib.Treiber.Count.{bit}

PcState-cases : (st : PcState) → (st ≡ pc_try_to_acquire) ⊎ (st ≡ pc_poll_local_store)
PcState-cases pc_try_to_acquire = inl refl
PcState-cases pc_poll_local_store = inr refl

try-ne_poll : pc_try_to_acquire ≢ pc_poll_local_store
try-ne_poll e = cc

module _ (client_assertions : Bool) {k0 : ℕ} {works : ℕ → Bool} {s : Ring}
    (inv : Orderly k0 works s) (g : ℕ) (lt : g < global_session_num) where
  abbrev x : PcSess
  x = (s.sess g).info

  abbrev x_queue : List PcOp
  x_queue = (s.sess g).queue

  abbrev pub Acts : Type 0
  Acts =
      (o : PcSess × List PcOp) × (pc_per_sess_state_machine client_assertions x ≡ some o)
      × Carried k0 (pc_acted s g o)

  machine_lem :
      (st : PcState)
      → x.state ≡ st
      → pc_per_sess_state_machine client_assertions x ≡ pc_in client_assertions st x
  unfolding pc_per_sess_state_machine
  machine_lem st e =
      let real =
        assert_if-true client_assertions
          (lt→ltb x.real_sess_i sessions_per_machine (inv.regular g lt).placed.real) in
      rw (real, e) refl

  -- The session goes on without a round.
  restate-Orderly :
      (st : PcState) (asked : Bool) (rs : List PcOp)
      → (asked ≡ false → x.asked ≡ false)
      → AsksFor s.store (record x { state = st; asked = asked }) (x_queue ++ rs) (works g)
      → Orderly k0
          (update works g (works g))
          (pc_acted s g (record x { state = st; asked = asked }, rs))
  restate-Orderly st asked rs same que =
      let r = inv.regular g lt in
      let n = inv.near g lt in
      calm-Orderly inv g lt s.store.parts (record x { state = st; asked = asked }) (x_queue ++ rs)
        (works g) (s.rounds + begun rs) (omega arith)
        (record {
          placed = r.placed;
          counted = Counted-more (omega arith) r.counted;
          unasked = λ e. r.unasked (same e);
        })
        que n (λ t. t) (λ h _ lt'. inv.queued h lt')

  no_tail :
      x.state ≡ pc_poll_local_store
      → (tail : Bool) → (tail ≡ true → (x.state ≡ pc_try_to_acquire) × (x.asked ≡ true))
      → tail ≡ false
  no_tail poll false tried = refl
  no_tail poll true tried = absurd (try-ne_poll (sym (tried refl).0 ∙ poll))

  poll-Acts : x.state ≡ pc_poll_local_store → Acts
  unfolding pc_in
  poll-Acts poll =
      let u = inv.queued g lt in
      let none_asked = no_tail poll u.tail u.tried in
      let y : PcSess = record x { asked = true; state = pc_try_to_acquire } in
      (
        (y, read_flag x.flag_to_acquire ∷ []),
        machine_lem pc_poll_local_store poll,
        (
          update works g (works g),
          restate-Orderly pc_try_to_acquire true (read_flag x.flag_to_acquire ∷ [])
              (λ e. absurd (true-ne_false e))
              (record {
                round = u.round;
                tail = true;
                shape =
                    ap (λ l. l ++ read_flag x.flag_to_acquire ∷ [])
                      (u.shape ∙ ap (λ t. u.round ++ asks x t) none_asked ∙ append-nil u.round);
                tried = λ _. (refl, refl);
                stage = restated s.store x pc_try_to_acquire true u.stage;
              }),
        ),
      )

  not_asked :
      (x.asked ≡ true → x_queue ≡ [])
      → (tail : Bool) → (tail ≡ true → (x.state ≡ pc_try_to_acquire) × (x.asked ≡ true))
      → (round : List PcOp) → x_queue ≡ round ++ asks x tail
      → tail ≡ false
  not_asked done false tried round shape = refl
  not_asked done true tried round shape =
      absurd (read-ne_nil (append-nil_right round (asks x true) (sym shape ∙ done (tried refl).1)))
    where
      read-ne_nil : ¬ (asks x true ≡ [])
      read-ne_nil e = cc

  wait-Acts :
      x.state ≡ pc_try_to_acquire
      → (x.asked ≡ true → x_queue ≡ [])
      → (x.acq_flag.counter == u64 (x.acq_num + 1)) ≡ false
      → Acts
  unfolding pc_in
  wait-Acts try done low =
      let u = inv.queued g lt in
      let none_asked = not_asked done u.tail u.tried u.round u.shape in
      (
        (record x { state = pc_poll_local_store }, []),
        machine_lem pc_try_to_acquire try ∙ rw low refl,
        (
          update works g (works g),
          restate-Orderly pc_poll_local_store x.asked [] (λ e. e)
              (record {
                round = u.round;
                tail = false;
                shape = append-nil x_queue ∙ u.shape ∙ ap (λ t. u.round ++ asks x t) none_asked;
                tried = λ e. absurd (true-ne_false (sym e));
                stage = restated s.store x pc_poll_local_store x.asked u.stage;
              }),
        ),
      )

  module _ (small : s.rounds + 2 < 2 ^ 64) (up : x.acq_flag.counter ≡ x.acq_num + 1)
      (here : x_queue ≡ []) where
    rests :
        (works g ≡ false)
        × (0 < x.rel_num → Written s.store x pc_writes_num)
        × (0 < x.acq_num → HasRead x)
    rests =
        let u = inv.queued g lt in
        idle_rests s.store x u.stage (append-nil_left u.round (asks x u.tail) (sym u.shape ∙ here))

    acq_next : u64 (x.acq_num + 1) ≡ x.acq_num + 1
    acq_next = omega (arith, (inv.regular g lt).counted.few_acq, small)

    rel_next : u64 (x.rel_num + 1) ≡ x.rel_num + 1
    rel_next = omega (arith, (inv.regular g lt).counted.few, small)

    -- The assertions of the round hold.
    round_lem :
        pc_round client_assertions x
        ≡ some (
          next_round x,
          acquire_flag x.flag_to_acquire ∷ parts_from (next_round x) pc_writes_num 0,
        )
    unfolding pc_round
    round_lem =
        let r = inv.regular g lt in
        let read = rests.2 in
        let times =
          assert_if-true client_assertions
            (eq→== x.node_to_write.times_written x.rel_num r.counted.written) in
        let owner =
          assert_if-true client_assertions
            (eq→== x.node_to_write.owner x.glob_sess_i (r.counted.owner ∙ sym r.placed.glob)) in
        let from =
          assert_if-true client_assertions
            {c = not (ltb 0 x.acq_num) || x.node_to_read.owner == x.session_to_acquire_from}
            (elim (dec_lt 0 x.acq_num) [
              | yes pos ↦ let o = (read pos).0 in ground (arith, o)
              | no zero_acq ↦ ground (arith, zero_acq)
            ]) in
        let number =
          assert_if-true client_assertions
            {c = not (ltb 0 x.acq_num) || x.node_to_read.times_written == x.acq_num}
            (elim (dec_lt 0 x.acq_num) [
              | yes pos ↦ let o = (read pos).1 in ground (arith, o)
              | no zero_acq ↦ ground (arith, zero_acq)
            ]) in
        let flag : (u64 (x.rel_flag.counter + 1) == u64 (x.rel_num + 1)) ≡ true =
          eq→== _ _ (ap (λ c. u64 (c + 1)) r.counted.flag) in
        rw (times, owner, from, number, flag) refl

    -- The session takes its turn.
    round-Orderly : Orderly k0 (update works g true) (
        pc_acted s g (
          next_round x,
          acquire_flag x.flag_to_acquire ∷ parts_from (next_round x) pc_writes_num 0,
        ))
    round-Orderly =
        let r = inv.regular g lt in
        let n = inv.near g lt in
        let y : PcSess = next_round x in
        let rs = acquire_flag x.flag_to_acquire ∷ parts_from y pc_writes_num 0 in
        calm-Orderly inv g lt s.store.parts y (x_queue ++ rs) true (s.rounds + 1) (omega arith)
          (record {
            placed = r.placed;
            counted = record {
              owner = r.counted.owner;
              written = ap (λ c. u64 (c + 1)) r.counted.written;
              flag = ap (λ c. u64 (c + 1)) r.counted.flag;
              few = omega (arith, rel_next, r.counted.few);
              few_acq = omega (arith, acq_next, r.counted.few_acq);
            };
            unasked = λ e. absurd (omega (arith, up, (r.unasked e).0));
          })
          (record {
            round = rs;
            tail = false;
            shape = ap (λ q. q ++ rs) here;
            tried = λ e. absurd (true-ne_false (sym e));
            stage = acquiring refl refl (omega (arith, acq_next));
          })
          (record {
            lag = omega (arith, rel_next, n.lag, ap bit rests.0);
            low = omega (arith, acq_next, n.seen, up);
            high = omega (arith, acq_next, n.high);
            begun_round = λ _. omega (arith, acq_next, n.seen, n.high, up);
            seen = n.seen;
          })
          (λ _. inr (omega (arith, n.seen, up))) (λ h _ lt'. inv.queued h lt')

  round-Acts :
      x.state ≡ pc_try_to_acquire
      → (x.asked ≡ true → x_queue ≡ [])
      → (x.acq_flag.counter == u64 (x.acq_num + 1)) ≡ true
      → s.rounds + 2 < 2 ^ 64
      → Acts
  unfolding pc_in
  round-Acts try done high small =
      let r = inv.regular g lt in
      let next_acq : u64 (x.acq_num + 1) ≡ x.acq_num + 1 =
        omega (arith, r.counted.few_acq, small) in
      let up : x.acq_flag.counter ≡ x.acq_num + 1 =
        ==→eq x.acq_flag.counter (u64 (x.acq_num + 1)) high ∙ next_acq in
      let here : x_queue ≡ [] = elim (Bool-cases x.asked) [
        | inl asked ↦ done asked
        | inr unasked ↦ absurd (omega (arith, up, (r.unasked unasked).0))
      ] in
      (
        _,
        machine_lem pc_try_to_acquire try ∙ rw high (round_lem small up here),
        (update works g true, round-Orderly small up here),
      )

  -- A session that may take a step takes it: no assertion fails.
  pub Orderly-Acts :
      (x.state ≡ pc_try_to_acquire → x.asked ≡ true → x_queue ≡ []) → s.rounds + 2 < 2 ^ 64 → Acts
  Orderly-Acts done small = elim (PcState-cases x.state) [
    | inr poll ↦ poll-Acts poll
    | inl try ↦ elim (Bool-cases (x.acq_flag.counter == u64 (x.acq_num + 1))) [
      | inl high ↦ round-Acts try (done try) high small
      | inr low ↦ wait-Acts try (done try) low
    ]
  ]

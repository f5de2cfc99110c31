-- ===== src/Treiber/Progress.antt =====
-- The state machines of client/od_client.c's Treiber stacks, from each place of a session.
use odyssey_lib.Base.{
  Bool, List, arith, assert_if, assert_if-true, dec_lt, ltb, lt→ltb, none, refl, some, sym, true, ℕ,
  ◌++◌, ◌+◌, ◌<◌, ◌^◌, ◌∙◌, ◌≡◌, ◌≤◌,
}
use odyssey_lib.Config.{sessions_per_machine}
use odyssey_lib.Treiber.{
  Node, Outcome, PushOrPull, SessInfo, StoreOp, Top, TrState, check_node, check_top, machine,
  machine_in, max_tr_node_key, number_of_stacks, pop_in, popping, push_in, pushed_top, pushing,
  tr_key_offset, treiber_pop_state_machine, treiber_push_state_machine,
}
use odyssey_lib.Treiber.Run.{Store}
use odyssey_lib.Treiber.Stages.{At, At-hold, Fit, Stage, hold, holds}

-- What a session keeps within the arrays that it indexes.
pub record FixedAt (real_sess_i stack_id owned_key : ℕ) : Type 0 where
  pub real : real_sess_i < sessions_per_machine
  pub stack : stack_id < number_of_stacks
  pub own_low : tr_key_offset ≤ owned_key
  pub own_high : owned_key ≤ max_tr_node_key

abbrev pub Fixed : SessInfo → Type 0
Fixed x = FixedAt x.real_sess_i x.stack_id x.owned_key

-- A call of a state machine leaves the session in a place again, with the key that it had to itself.
pub record Progress (m : Store) (x : SessInfo) (q : List StoreOp) (o : Outcome) : Type 0 where
  pub stage : Stage m o.0 (q ++ o.1)
  pub held : hold o.0 ≡ hold x
  pub stays : hold x ≡ none → o.0.stack_id ≡ x.stack_id
  pub fixed : Fixed o.0
  pub counter : o.2 < number_of_stacks

pub held_as :
    (x y : SessInfo) {p p' : PushOrPull} {s s' : TrState} {ok ok' : Bool}
    → At x p s ok
    → At y p' s' ok'
    → holds p' ok' y ≡ holds p ok x
    → hold y ≡ hold x
held_as x y a a' e = At-hold y a' ∙ e ∙ sym (At-hold x a)

module _ (assertions : Bool) where
  pub Fit-check_top : (n : ℕ) (t : Top) → Fit n t → check_top assertions t ≡ true
  unfolding check_top
  Fit-check_top n t f = ground (arith, f.when_empty, f.when_full, f.pops)

  pub Fit-check_node :
      (n : ℕ) (t : Top) (v : Node)
      → Fit n t
      → v.next_key_id ≡ t.key_id
      → check_node assertions v ≡ some tt
  unfolding check_node
  Fit-check_node n t v f e = assert_if-true assertions (elim (dec_lt t.pop_counter t.push_counter) [
    | yes lt ↦ let k = f.when_full lt in ground (arith, k.0, k.1)
    | no not_lt ↦ let k = f.when_empty (omega (arith, f.pops, not_lt)) in ground (arith, k)
  ])

  pub pushed-check_top :
      (n : ℕ) (x : SessInfo)
      → Fixed x
      → Fit n x.top
      → n + 1 < 2 ^ 32
      → check_top assertions (pushed_top x) ≡ true
  unfolding check_top
  pushed-check_top n x b f small = ground (arith, b.own_low, f.pops, f.pushes)

module _ (assertions no_conflicts : Bool) (m : Store) (x : SessInfo) (c : ℕ) (b : Fixed x)
    (few : c < number_of_stacks) where
  abbrev pub Advances : List StoreOp → Type 0
  Advances q = (o : Outcome) × (machine assertions no_conflicts x c ≡ some o) × Progress m x q o

  pub machine-push :
      {st : TrState} {ok : Bool}
      → At x pushing st ok
      → machine assertions no_conflicts x c ≡ push_in assertions no_conflicts st x c
  unfolding machine machine_in treiber_push_state_machine
  machine-push (p, s, _) =
      let real : assert_if assertions (ltb x.real_sess_i sessions_per_machine) ≡ some tt =
        assert_if-true assertions (lt→ltb x.real_sess_i sessions_per_machine b.real) in
      rw (p, real, s) refl

  pub machine-pop :
      {st : TrState} {ok : Bool}
      → At x popping st ok
      → machine assertions no_conflicts x c ≡ pop_in assertions no_conflicts st x c
  unfolding machine machine_in treiber_pop_state_machine
  machine-pop (p, s, _) =
      let real : assert_if assertions (ltb x.real_sess_i sessions_per_machine) ≡ some tt =
        assert_if-true assertions (lt→ltb x.real_sess_i sessions_per_machine b.real) in
      rw (p, real, s) refl

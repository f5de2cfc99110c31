-- ===== src/Treiber/Advances.antt =====
-- Both state machines of client/od_client.c's Treiber stacks, from every place of a session.
use odyssey_lib.Base.{
  Bool, List, [], ap, arith, length, suc, sym, ℕ, ◌+◌, ◌<◌, ◌^◌, ◌∙◌, ◌∷◌, ◌≡◌, ◌≢◌,
}
use odyssey_lib.Treiber.{SessInfo, StoreOp, TrState, number_of_stacks, tr_init}
use odyssey_lib.Treiber.Pops.{
  pop_end-Advances, pop_first-Advances, pop_ready-Advances, pop_start-Advances,
}
use odyssey_lib.Treiber.Progress.{Advances, Fixed}
use odyssey_lib.Treiber.Pushes.{push_end-Advances, push_ready-Advances, push_start-Advances}
use odyssey_lib.Treiber.Run.{Store}
use odyssey_lib.Treiber.Stages.{
  Stage, at_pop_cas, at_pop_end, at_pop_first, at_pop_node, at_pop_read, at_pop_ready, at_pop_start,
  at_push_cas, at_push_end, at_push_read, at_push_ready, at_push_start, at_push_write,
}

module _ (assertions no_conflicts : Bool) (m : Store) (x : SessInfo) (c : ℕ) (b : Fixed x)
    (few : c < number_of_stacks) where
  -- A session with requests that are not performed does not get past its poll.
  blocked :
      {q rs : List StoreOp} {r : StoreOp} {st : TrState}
      → x.state ≡ st
      → st ≢ tr_init
      → q ≡ r ∷ rs
      → ¬ (x.state ≢ tr_init → q ≡ [])
  blocked {rs = rs} s polling some_left done =
      let e : suc (length rs) ≡ 0 = ap length (sym some_left ∙ done (λ e. polling (sym s ∙ e))) in
      omega (arith, e)

  -- A session that may take a step takes it: no assertion of its state machine fails.
  pub Stage-Advances :
      {q : List StoreOp}
      → Stage m x q
      → (x.state ≢ tr_init → q ≡ [])
      → m.changes + 1 < 2 ^ 32
      → Advances assertions no_conflicts m x c b few q
  Stage-Advances (at_push_start a e) done small =
      push_start-Advances assertions no_conflicts m x c b few _ a e
  Stage-Advances (at_push_read a e) done small = absurd (blocked a.1 (λ e. cc) e done)
  Stage-Advances (at_push_ready a e s) done small =
      push_ready-Advances assertions no_conflicts m x c b few _ a e s small
  Stage-Advances (at_push_write a e _ _ _) done small = absurd (blocked a.1 (λ e. cc) e done)
  Stage-Advances (at_push_cas a e _ _ _) done small = absurd (blocked a.1 (λ e. cc) e done)
  Stage-Advances (at_push_end a e f last) done small =
      push_end-Advances assertions no_conflicts m x c b few _ a e f last
  Stage-Advances (at_pop_start a e last) done small =
      pop_start-Advances assertions no_conflicts m x c b few _ a e last
  Stage-Advances (at_pop_read a e _) done small = absurd (blocked a.1 (λ e. cc) e done)
  Stage-Advances (at_pop_ready a e last p) done small =
      pop_ready-Advances assertions no_conflicts m x c b few _ a e last p
  Stage-Advances (at_pop_node a e _ _) done small = absurd (blocked a.1 (λ e. cc) e done)
  Stage-Advances (at_pop_first a e last p f) done small =
      pop_first-Advances assertions no_conflicts m x c b few _ a e last p f small
  Stage-Advances (at_pop_cas a e _ _ _ _) done small = absurd (blocked a.1 (λ e. cc) e done)
  Stage-Advances (at_pop_end a e p) done small =
      pop_end-Advances assertions no_conflicts m x c b few _ a e p

-- ===== src/Treiber/Safety.antt =====
-- What holds in every run of client/od_client.c's Treiber stacks.
use native.Mathlib.Nat.{le_refl}
use odyssey_lib.Base.{
  Bool, Bool-cases, List, [], ap, arith, at_update, inl, inr, not, refl, some, some_injective,
  subst, sym, true-ne_false, ℕ, ℕ_discrete, ◌&&◌, ◌++◌, ◌+◌, ◌-◌, ◌<◌, ◌^◌, ◌∙◌, ◌≡◌, ◌≤◌,
}
use odyssey_lib.Network.Receives.{moved}
use odyssey_lib.Treiber.{
  SessInfo, StoreOp, cas, global_session_num, init_sess_info, init_stack_id_cntr, number_of_stacks,
  read_node, read_top, tr_key_offset, write_node,
}
use odyssey_lib.Treiber.Abstract.{StackMove, hands_update, no_move, view}
use odyssey_lib.Treiber.Advances.{Stage-Advances}
use odyssey_lib.Treiber.Count.{count-none}
use odyssey_lib.Treiber.Invariant.{Stacked, held-ne-held, with_session}
use odyssey_lib.Treiber.Invariant.Quiet.{quiet-Stacked}
use odyssey_lib.Treiber.Polled.{Turn-pushed, polled-empty}
use odyssey_lib.Treiber.Progress.{Progress}
use odyssey_lib.Treiber.Run.{
  Atomic, Clients, IsPolled, Reached, Service, Store, Turn, act, answered, at_start, client_of,
  initial, perform, performed, same_bytes, turn,
}
use odyssey_lib.Treiber.Serving.{Moved, Stage-Serves}
use odyssey_lib.Treiber.Stages.{at_push_start, hold}

perform-changes :
    (fails : Bool) (r : StoreOp) (m : Store) (x : SessInfo)
    → m.changes ≤ (perform fails r m x).0.changes
unfolding perform
perform-changes fails (read_top _) m x = le_refl m.changes
perform-changes fails (read_node _) m x = le_refl m.changes
perform-changes fails (write_node _ _) m x = le_refl m.changes
perform-changes fails (cas st e d) m x = elim (Bool-cases (same_bytes (m.tops st) e && not fails)) [
  | inl won ↦ rw won (omega arith)
  | inr lost ↦ rw lost (le_refl m.changes)
]

-- A run of the abstract stacks beside a run of the clients: each turn is a move of the stacks that the
-- store holds before it to those that it holds after it.
pub data Follows {service : Service} {assertions no_conflicts : Bool}
    : (s : Clients) → Reached service assertions no_conflicts s → (ℕ → List ℕ) → Type 0 where
  nothing_done : Follows initial at_start (λ _. [])
  followed :
      {s t : Clients} {r : Reached service assertions no_conflicts s} {chain chain' : ℕ → List ℕ}
      → (mv : Turn service assertions no_conflicts s t) → Follows s r chain
      → Stacked chain s
      → Stacked chain' t
      → StackMove (view chain s) (view chain' t)
      → Follows t (turn r mv) chain'

module _ {service : Service} (atomic : Atomic service) {assertions no_conflicts : Bool} where
  Turn-changes :
      {s t : Clients} → Turn service assertions no_conflicts s t → s.store.changes ≤ t.store.changes
  Turn-changes {s} (act i lt done ran) = le_refl s.store.changes
  Turn-changes {s} (performed i {r = r} lt e done) =
      let (fails, did) = atomic _ _ _ _ _ done in
      subst (λ o. s.store.changes ≤ o.0.changes) (sym did)
        (perform-changes fails r s.store (s.sess i).info)

  Turn-Stacked :
      {chain : ℕ → List ℕ} {s t : Clients}
      → Stacked chain s
      → ((i : ℕ) → IsPolled s i → (s.sess i).queue ≡ [])
      → s.store.changes + 1 < 2 ^ 32
      → Turn service assertions no_conflicts s t
      → Moved chain s t
  Turn-Stacked {chain} {s} inv empty small (performed i {q = q} lt e done) =
      let (fails, did) = atomic _ _ _ _ _ done in
      subst (λ o. Moved chain s (answered s i o q)) (sym did)
        (Stage-Serves inv i lt fails (inv.stages i lt) e)
  Turn-Stacked {chain} {s} inv empty small (act i {o = (x, rs, c)} lt done ran) =
      let (o, runs, p) =
        Stage-Advances assertions no_conflicts s.store (s.sess i).info
          (s.stack_id_cntr (client_of i)) (inv.fixed i lt) (inv.counters (client_of i))
          (inv.stages i lt) (λ later. empty i (done later)) small in
      let same : o ≡ (x, rs, c) = some_injective (sym runs ∙ ran) in
      let q = subst (Progress s.store (s.sess i).info (s.sess i).queue) same p in
      (
        chain,
        quiet-Stacked inv i lt x ((s.sess i).queue ++ rs) _ _ _ q.held q.stays q.stage q.fixed (
            at_update (λ _ n. n < number_of_stacks) s.stack_id_cntr (client_of i) c q.counter
              (λ j _. inv.counters j)),
        no_move (λ k. refl) (hands_update s i _ q.held),
      )

initial_own : (i : ℕ) → i < global_session_num → (initial.sess i).info.owned_key ≡ tr_key_offset + i
unfolding initial init_sess_info
initial_own i lt = omega (arith, lt)

initial-Stacked : Stacked (λ _. []) initial
unfolding initial init_sess_info init_stack_id_cntr
initial-Stacked = record {
  place = λ key. with_session (key - tr_key_offset);
  linked = λ k. refl;
  sized = λ k. refl;
  bounded = λ k. le_refl 0;
  located = λ k key on. absurd (true-ne_false (sym on));
  held = λ i key lt h.
      let e : (initial.sess i).info.owned_key ≡ key = some_injective h in
      ap with_session (omega (arith, initial_own i lt, e));
  owed = λ k. sym (count-none _ global_session_num (λ j. refl));
  stages = λ i lt. at_push_start (refl, refl, refl) refl;
  fixed = λ i lt. record {
    real = omega arith;
    stack = omega (arith, lt);
    own_low = omega (arith, lt);
    own_high = omega (arith, lt);
  };
  counters = λ c. omega arith;
}

module _ {service : Service} (atomic : Atomic service) {assertions no_conflicts : Bool} where
  pub Reached-Stacks :
      {s : Clients}
      → (r : Reached service assertions no_conflicts s) → s.store.changes + 1 < 2 ^ 32
      → ((i : ℕ) → s.last_pushed_req i < 2 ^ 32)
      → (chain : ℕ → List ℕ) × Stacked chain s × Follows s r chain
  Reached-Stacks at_start small few = ((λ _. []), initial-Stacked, nothing_done)
  Reached-Stacks (turn {s} {t} r mv) small few =
      let before : s.store.changes + 1 < 2 ^ 32 = omega (arith, small, Turn-changes atomic mv) in
      let fewer : (i : ℕ) → s.last_pushed_req i < 2 ^ 32 =
        λ i. omega (arith, few i, Turn-pushed mv i) in
      let (chain, inv, run) = Reached-Stacks r before fewer in
      let (chain', inv', moved) =
        Turn-Stacked atomic inv (λ i. polled-empty r i (fewer i)) before mv in
      (chain', inv', followed mv run inv inv' moved)

  -- If each request is performed at one moment: in a state reached with fewer than 2^32 - 1
  -- successful compare-and-swaps and fewer than 2^32 requests of each session, no two sessions have the
  -- same key to push or just popped.
  pub Reached-hold_unique :
      {s : Clients}
      → Reached service assertions no_conflicts s
      → s.store.changes + 1 < 2 ^ 32
      → ((j : ℕ) → s.last_pushed_req j < 2 ^ 32)
      → (i j key : ℕ) → i < global_session_num
      → j < global_session_num
      → hold (s.sess i).info ≡ some key
      → hold (s.sess j).info ≡ some key
      → i ≡ j
  Reached-hold_unique {s} r small few i j key lt lt' h h' =
      let (chain, inv, run) = Reached-Stacks r small few in
      elim (ℕ_discrete i j) [
        | yes e ↦ e
        | no ne ↦ absurd (held-ne-held inv i j key key lt lt' ne h h' refl)
      ]

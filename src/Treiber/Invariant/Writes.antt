-- ===== src/Treiber/Invariant/Writes.antt =====
-- The write of a node in client/od_client.c's Treiber stacks.
use native.Mathlib.Nat.{le_refl}
use odyssey_lib.Base.{
  at_update, update, update_other, Bool, List, false, inl, refl, some, true, ℕ, ◌<◌, ◌∙◌, ◌≡◌, ◌≢◌,
}
use odyssey_lib.Treiber.{
  Node, SessInfo, StoreOp, global_session_num, pushing, tr_read_top, write_node,
}
use odyssey_lib.Treiber.Chain.{Chain-frame, Chain-some, has}
use odyssey_lib.Treiber.Count.{count-same}
use odyssey_lib.Treiber.Invariant.{Stacked, held-ne-held, held-ne-located, owes, with_session}
use odyssey_lib.Treiber.Progress.{Fixed}
use odyssey_lib.Treiber.Run.{Clients, Store, perform, served}
use odyssey_lib.Treiber.Stages.{At, At-hold, Later, Stage, Stage-Later, hold}

module _ {chain : ℕ → List ℕ} {s : Clients} (inv : Stacked chain s) (i : ℕ)
    (lt : i < global_session_num) (fails : Bool) where
  abbrev x : SessInfo
  x = (s.sess i).info

  module _ (a : At x pushing tr_read_top false) (v : Node) where
    abbrev m' : Store
    m' = record s.store { nodes = update s.store.nodes x.owned_key v }

    spared : (k key : ℕ) → has key (chain k) ≡ true → m'.nodes key ≡ s.store.nodes key
    spared k key on =
        update_other s.store.nodes x.owned_key key v
          (held-ne-located inv i k x.owned_key key lt (At-hold x a) on)

    -- What another session has to itself or reads is not the node that is written.
    Later-write : (j : ℕ) → i ≢ j → j < global_session_num → Later s.store m' (s.sess j).info
    Later-write j ne lt' =
        let k = (s.sess j).info.stack_id in
        record {
          grown = le_refl s.store.changes;
          pushed_on = le_refl (s.store.tops k).push_counter;
          moved = inl refl;
          own = λ key h.
              update_other s.store.nodes x.owned_key key v
                (held-ne-held inv i j x.owned_key key lt lt' ne (At-hold x a) h);
          first = λ low.
              spared k (s.store.tops k).key_id
                (Chain-some s.store.nodes (s.store.tops k).key_id (chain k) (inv.linked k) low);
        }

    pub write-Stacked :
        (q : List StoreOp)
        → Stage m' x q
        → Stacked chain (served s i fails (write_node x.owned_key v) q)
    unfolding perform
    write-Stacked q stage = record {
      place = inv.place;
      linked = λ k. Chain-frame (s.store.tops k).key_id (chain k) (spared k) (inv.linked k);
      sized = inv.sized;
      bounded = inv.bounded;
      located = inv.located;
      held = λ j key.
          at_update
            (λ j e.
              j < global_session_num → hold e.info ≡ some key → inv.place key ≡ with_session j)
            s.sess i _ (inv.held i key) (λ j _. inv.held j key) j;
      owed = λ k.
          inv.owed k
          ∙ count-same (λ j. owes k (s.sess j).info)
              (λ j. owes k (update s.sess i (record { info = x; queue = q }) j).info)
              global_session_num
              (λ j _.
                at_update (λ j e. owes k (s.sess j).info ≡ owes k e.info) s.sess i _ refl
                  (λ j _. refl) j);
      stages =
          at_update (λ j e. j < global_session_num → Stage m' e.info e.queue) s.sess i _
            (λ _. stage) (λ j ne lt'. Stage-Later (Later-write j ne lt') (inv.stages j lt'));
      fixed =
          at_update (λ j e. j < global_session_num → Fixed e.info) s.sess i _ (inv.fixed i)
            (λ j _. inv.fixed j);
      counters = inv.counters;
    }

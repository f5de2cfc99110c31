-- ===== src/Treiber/Invariant/Quiet.antt =====
-- The steps of client/od_client.c's Treiber stacks that change one session and not the store.
use odyssey_lib.Base.{
  at_update, update, List, Option-cases, inl, inr, none, refl, some, sym, ℕ, ◌<◌, ◌∙◌, ◌≡◌,
}
use odyssey_lib.Treiber.{SessInfo, StoreOp, global_session_num, number_of_stacks}
use odyssey_lib.Treiber.Count.{count-same}
use odyssey_lib.Treiber.Invariant.{Stacked, owes, with_session}
use odyssey_lib.Treiber.Progress.{Fixed}
use odyssey_lib.Treiber.Run.{Clients, Sess}
use odyssey_lib.Treiber.Stages.{Stage, hold}

module _ {chain : ℕ → List ℕ} {s : Clients} (inv : Stacked chain s) (i : ℕ)
    (lt : i < global_session_num) where
  quiet-owes :
      (k : ℕ) (x : SessInfo)
      → hold x ≡ hold (s.sess i).info
      → (hold (s.sess i).info ≡ none → x.stack_id ≡ (s.sess i).info.stack_id)
      → owes k (s.sess i).info ≡ owes k x
  quiet-owes k x same stays = elim (Option-cases (hold (s.sess i).info)) [
    | inl no_key ↦ rw (same, no_key, stays no_key) refl
    | inr (key, has_key) ↦ rw (same, has_key) refl
  ]

  -- The session keeps the key that it has to itself, and its stack while it has to pop from it.
  pub quiet-Stacked :
      (x : SessInfo) (q : List StoreOp) (cn id n : ℕ → ℕ)
      → hold x ≡ hold (s.sess i).info
      → (hold (s.sess i).info ≡ none → x.stack_id ≡ (s.sess i).info.stack_id)
      → Stage s.store x q
      → Fixed x
      → ((c : ℕ) → cn c < number_of_stacks)
      → Stacked chain (record s {
        sess = update s.sess i (record { info = x; queue = q });
        stack_id_cntr = cn;
        last_req_id = id;
        last_pushed_req = n;
      })
  quiet-Stacked x q cn id n same stays stage fix small =
      let f : ℕ → Sess = update s.sess i (record { info = x; queue = q }) in
      record {
        place = inv.place;
        linked = inv.linked;
        sized = inv.sized;
        bounded = inv.bounded;
        located = inv.located;
        held = λ j key.
            at_update
              (λ j e.
                j < global_session_num → hold e.info ≡ some key → inv.place key ≡ with_session j)
              s.sess i _ (λ lt h. inv.held i key lt (sym same ∙ h))
              (λ j _ lt h. inv.held j key lt h) j;
        owed = λ k.
            inv.owed k
            ∙ count-same (λ j. owes k (s.sess j).info) (λ j. owes k (f j).info) global_session_num
                (λ j _.
                  at_update (λ j e. owes k (s.sess j).info ≡ owes k e.info) s.sess i _
                    (quiet-owes k x same stays) (λ j _. refl) j);
        stages =
            at_update (λ j e. j < global_session_num → Stage s.store e.info e.queue) s.sess i _
              (λ _. stage) (λ j _. inv.stages j);
        fixed =
            at_update (λ j e. j < global_session_num → Fixed e.info) s.sess i _ (λ _. fix)
              (λ j _. inv.fixed j);
        counters = small;
      }

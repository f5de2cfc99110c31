-- ===== src/Treiber/Serving.antt =====
-- Each request that is performed for client/od_client.c's Treiber stacks is a move of the lists.
use odyssey_lib.Base.{
  update, update_other, update_same, Bool, Bool-cases, List, [], ap, arith, cons-head, cons-tail,
  false, inl, inr, nil-ne_cons, not, refl, subst, sym, true, ℕ, ◌&&◌, ◌<◌, ◌∙◌, ◌∷◌, ◌≡◌, ◌≤◌,
}
use odyssey_lib.Network.Receives.{moved}
use odyssey_lib.Treiber.{
  SessInfo, StoreOp, Top, cas, global_session_num, popping, pushing, tr_key_offset, tr_read_top,
  write_node,
}
use odyssey_lib.Treiber.Abstract.{
  StackMove, hands_other, hands_self, hands_update, no_move, pop_move, push_move, view,
}
use odyssey_lib.Treiber.Chain.{Chain-cons}
use odyssey_lib.Treiber.Invariant.{Stacked}
use odyssey_lib.Treiber.Invariant.Change.{same_bytes→eq}
use odyssey_lib.Treiber.Invariant.Popped.{pop_won-Stacked}
use odyssey_lib.Treiber.Invariant.Pushed.{push_won-Stacked}
use odyssey_lib.Treiber.Invariant.Reads.{
  pop_lost-Stacked, pop_node-Stacked, pop_read-Stacked, push_lost-Stacked, push_read-Stacked,
}
use odyssey_lib.Treiber.Invariant.Writes.{write-Stacked}
use odyssey_lib.Treiber.Progress.{held_as}
use odyssey_lib.Treiber.Run.{Clients, Sess, Store, perform, same_bytes, served}
use odyssey_lib.Treiber.Stages.{
  At, At-hold, Fresh, Poppable, PopsTop, PushesTop, Seen, Stage, at_pop_cas, at_pop_end,
  at_pop_first, at_pop_node, at_pop_read, at_pop_ready, at_pop_start, at_push_cas, at_push_end,
  at_push_read, at_push_ready, at_push_start, at_push_write, hold,
}

-- The lists that a state of the clients stands for, one move on.
abbrev pub Moved : (ℕ → List ℕ) → Clients → Clients → Type 0
Moved chain s t =
    (chain' : ℕ → List ℕ) × Stacked chain' t × StackMove (view chain s) (view chain' t)

module _ {chain : ℕ → List ℕ} {s : Clients} (inv : Stacked chain s) (i : ℕ)
    (lt : i < global_session_num) (fails : Bool) where
  abbrev x : SessInfo
  x = (s.sess i).info

  abbrev x_queue : List StoreOp
  x_queue = (s.sess i).queue

  abbrev Serves : StoreOp → List StoreOp → Type 0
  Serves r q = Moved chain s (served s i fails r q)

  stay :
      (y : SessInfo) (q : List StoreOp) (store : Store)
      → hold y ≡ hold x
      → StackMove (view chain s) (
          view chain
            (record s { store = store; sess = update s.sess i (record { info = y; queue = q }) }))
  stay y q store same = no_move (λ k. refl) (hands_update s i _ same)

  lost_move :
      (r : Top)
      → hold (record x { top = s.store.tops x.stack_id; success = false }) ≡ hold x
      → same_bytes (s.store.tops x.stack_id) x.top && not fails ≡ false
      → StackMove (view chain s) (view chain (served s i fails (cas x.stack_id x.top r) []))
  unfolding perform
  lost_move r same lost = rw lost (stay _ [] s.store same)

  won_now :
      same_bytes (s.store.tops x.stack_id) x.top && not fails ≡ true
      → s.store.tops x.stack_id ≡ x.top
  won_now won = same_bytes→eq (s.store.tops x.stack_id) x.top (ground (arith, won))

  Serves-push_cas :
      At x pushing tr_read_top false
      → Seen s.store x
      → PushesTop x
      → (s.store.nodes x.owned_key).next_key_id ≡ x.top.key_id
      → Serves (cas x.stack_id x.top x.new_top) []
  unfolding perform
  Serves-push_cas a seen t link =
      elim (Bool-cases (same_bytes (s.store.tops x.stack_id) x.top && not fails)) [
        | inr lost ↦ (
          chain,
          push_lost-Stacked inv i lt fails x.new_top lost a,
          lost_move x.new_top (held_as x _ a (a.0, a.1, refl) refl) lost,
        )
        | inl won ↦
            let now = won_now won in
            let e : Sess = record { info = record x { success = true }; queue = [] } in
            (
              _,
              push_won-Stacked inv i lt fails a seen t link now won,
              rw won (
                  push_move i x.stack_id x.owned_key (At-hold x a)
                    (hands_self s i e ∙ At-hold e.info (a.0, a.1, refl))
                    (update_same chain x.stack_id (x.owned_key ∷ chain x.stack_id))
                    (hands_other s i e)
                    (λ l ne. update_other chain x.stack_id l (x.owned_key ∷ chain x.stack_id) ne)),
            )
      ]

  Serves-pop_cas :
      At x popping tr_read_top false
      → x.last_pushed_counter ≤ (s.store.tops x.stack_id).push_counter
      → Poppable s.store x
      → Fresh s.store x x.new_top.key_id
      → PopsTop x
      → Serves (cas x.stack_id x.top x.new_top) []
  unfolding perform
  Serves-pop_cas a last p f t =
      elim (Bool-cases (same_bytes (s.store.tops x.stack_id) x.top && not fails)) [
        | inr lost ↦ (
          chain,
          pop_lost-Stacked inv i lt fails x.new_top lost a last,
          lost_move x.new_top (held_as x _ a (a.0, a.1, refl) refl) lost,
        )
        | inl won ↦
            let now = won_now won in
            let low : tr_key_offset ≤ (s.store.tops x.stack_id).key_id =
              subst (λ u. tr_key_offset ≤ u.key_id) (sym now) p.low in
            let (rest, front) =
              Chain-cons s.store.nodes (s.store.tops x.stack_id).key_id (chain x.stack_id)
                (inv.linked x.stack_id) low in
            let shape : chain x.stack_id ≡ x.top.key_id ∷ rest =
              front ∙ ap (λ u. u.key_id ∷ rest) now in
            let e : Sess = record { info = record x { success = true }; queue = [] } in
            (
              _,
              pop_won-Stacked inv i lt fails a p f t now rest shape won,
              rw won (
                  pop_move i x.stack_id x.top.key_id (At-hold x a)
                    (hands_self s i e ∙ At-hold e.info (a.0, a.1, refl))
                    (shape ∙ ap (λ l. x.top.key_id ∷ l) (sym (update_same chain x.stack_id rest)))
                    (hands_other s i e) (λ l ne. update_other chain x.stack_id l rest ne)),
            )
      ]

  Serves-write :
      At x pushing tr_read_top false
      → Seen s.store x
      → PushesTop x
      → x.new_node.next_key_id ≡ x.top.key_id
      → Serves (write_node x.owned_key x.new_node) (cas x.stack_id x.top x.new_top ∷ [])
  unfolding perform
  Serves-write a seen t link =
      let v = x.new_node in
      let m' : Store = record s.store { nodes = update s.store.nodes x.owned_key v } in
      (
        chain,
        write-Stacked inv i lt fails a v (cas x.stack_id x.top x.new_top ∷ []) (
            at_push_cas a refl seen t
              (ap (λ n. n.next_key_id) (update_same s.store.nodes x.owned_key v) ∙ link)),
        stay x _ m' refl,
      )

  -- The request at the front of the queue is the one that the session's place says.
  front :
      {r r' : StoreOp} {q q' : List StoreOp}
      → x_queue ≡ r ∷ q
      → x_queue ≡ r' ∷ q'
      → Serves r q
      → Serves r' q'
  front {r = r} {q' = q'} e h moved =
      subst (λ u. Serves u q') (cons-head (sym e ∙ h))
        (subst (Serves r) (cons-tail (sym e ∙ h)) moved)

  pub Stage-Serves :
      {r : StoreOp} {q : List StoreOp} → Stage s.store x x_queue → x_queue ≡ r ∷ q → Serves r q
  unfolding perform
  Stage-Serves (at_push_start _ e) h = absurd (nil-ne_cons (sym e ∙ h))
  Stage-Serves (at_push_read a e) h =
      front e h
        (chain, push_read-Stacked inv i lt fails a, stay _ [] s.store (held_as x _ a a refl))
  Stage-Serves (at_push_ready _ e _) h = absurd (nil-ne_cons (sym e ∙ h))
  Stage-Serves (at_push_write a e seen t link) h = front e h (Serves-write a seen t link)
  Stage-Serves (at_push_cas a e seen t link) h = front e h (Serves-push_cas a seen t link)
  Stage-Serves (at_push_end _ e _ _) h = absurd (nil-ne_cons (sym e ∙ h))
  Stage-Serves (at_pop_start _ e _) h = absurd (nil-ne_cons (sym e ∙ h))
  Stage-Serves (at_pop_read a e last) h =
      front e h
        (chain, pop_read-Stacked inv i lt fails a last, stay _ [] s.store (held_as x _ a a refl))
  Stage-Serves (at_pop_ready _ e _ _) h = absurd (nil-ne_cons (sym e ∙ h))
  Stage-Serves (at_pop_node a e last p) h =
      front e h
        (chain, pop_node-Stacked inv i lt fails a last p, stay _ [] s.store (held_as x _ a a refl))
  Stage-Serves (at_pop_first _ e _ _ _) h = absurd (nil-ne_cons (sym e ∙ h))
  Stage-Serves (at_pop_cas a e last p f t) h = front e h (Serves-pop_cas a last p f t)
  Stage-Serves (at_pop_end _ e _) h = absurd (nil-ne_cons (sym e ∙ h))

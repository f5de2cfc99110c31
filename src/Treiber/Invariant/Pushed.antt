-- ===== src/Treiber/Invariant/Pushed.antt =====
-- The compare-and-swap of a push of client/od_client.c's Treiber stacks that succeeds.
use native.Mathlib.Nat.{le_refl}
use odyssey_lib.Base.{
  at_update, at_updates, update, update_other, update_same, Bool, Bool-cases, List, [], ap, arith,
  eq→==, false, inl, inr, length, ne→==_false, none, none-ne_some, not, refl, some, subst, sym,
  true, true-ne_false, ℕ, ◌&&◌, ◌+◌, ◌<◌, ◌∙◌, ◌∷◌, ◌≡◌, ◌≤◌,
}
use odyssey_lib.Treiber.{SessInfo, cas, global_session_num, pushing, tr_read_top}
use odyssey_lib.Treiber.Chain.{Chain, has}
use odyssey_lib.Treiber.Count.{bit, count, count-change, count-same}
use odyssey_lib.Treiber.Invariant.{
  Place, Stacked, held-ne-held, held-ne-located, on_stack, owes, with_session,
}
use odyssey_lib.Treiber.Invariant.Change.{Later-swapped, swapped}
use odyssey_lib.Treiber.Progress.{Fixed}
use odyssey_lib.Treiber.Run.{Clients, Sess, Store, perform, same_bytes, served}
use odyssey_lib.Treiber.Stages.{
  At, At-hold, PushesTop, Seen, Stage, Stage-Later, at_push_end, hold, tally,
}

module _ {chain : ℕ → List ℕ} {s : Clients} (inv : Stacked chain s) (i : ℕ)
    (lt : i < global_session_num) (fails : Bool) where
  abbrev x : SessInfo
  x = (s.sess i).info

  abbrev st : ℕ
  st = x.stack_id

  abbrev key : ℕ
  key = x.owned_key

  module _ (a : At x pushing tr_read_top false) (seen : Seen s.store x) (t : PushesTop x)
      (link : (s.store.nodes key).next_key_id ≡ x.top.key_id) (now : s.store.tops st ≡ x.top) where
    abbrev y : SessInfo
    y = record x { success = true }

    abbrev sess' : ℕ → Sess
    sess' = update s.sess i (record { info = y; queue = [] })

    abbrev pub pushed_chain : ℕ → List ℕ
    pushed_chain = update chain st (key ∷ chain st)

    none_held : hold y ≡ none
    none_held = At-hold y (a.0, a.1, refl)

    no_other : (k : ℕ) → has key (chain k) ≡ false
    no_other k = elim (Bool-cases (has key (chain k))) [
      | inl on ↦ absurd (held-ne-located inv i k key key lt (At-hold x a) on refl)
      | inr off ↦ off
    ]

    place' : ℕ → Place
    place' = update inv.place key (on_stack st)

    located' : (k key' : ℕ) → has key' (pushed_chain k) ≡ true → place' key' ≡ on_stack k
    unfolding place'
    located' k =
        at_update (λ key' p. has key' (pushed_chain k) ≡ true → p ≡ on_stack k) inv.place key
          (on_stack st)
          (at_update (λ k c. has key c ≡ true → on_stack st ≡ on_stack k) chain st _ (λ _. refl)
            (λ k _ on. absurd (true-ne_false (sym on ∙ no_other k))) k)
          (λ key' ne.
            at_update (λ k c. has key' c ≡ true → inv.place key' ≡ on_stack k) chain st _
              (λ on. inv.located st key' (ground (arith, on, ne))) (λ k _. inv.located k key') k)

    held' :
        (j key' : ℕ)
        → j < global_session_num
        → hold (sess' j).info ≡ some key'
        → place' key' ≡ with_session j
    unfolding place'
    held' j key' =
        at_update
          (λ j e.
            j < global_session_num
            → hold e.info ≡ some key'
            → update inv.place key (on_stack st) key' ≡ with_session j)
          s.sess i _ (λ _ h. absurd (none-ne_some (sym none_held ∙ h)))
          (λ j ne lt' h.
            update_other inv.place key key' (on_stack st)
              (held-ne-held inv i j key key' lt lt' ne (At-hold x a) h)
            ∙ inv.held j key' lt' h)
          j

    owed_here : length (key ∷ chain st) ≡ count (λ j. owes st (sess' j).info) global_session_num
    owed_here =
        let before : owes st x ≡ false = rw (At-hold x a) refl in
        let after : owes st (sess' i).info ≡ true =
          ap (λ e. owes st e.info) (update_same s.sess i (record { info = y; queue = [] }))
          ∙ rw (none_held, eq→== st st refl) refl in
        let change =
          count-change (λ j. owes st (s.sess j).info) (λ j. owes st (sess' j).info)
            global_session_num i lt
            (λ j ne. sym (ap (λ e. owes st e.info) (update_other s.sess i j _ ne))) in
        omega (arith, inv.owed st, change, ap bit before, ap bit after)

    owed' :
        (k : ℕ) → length (pushed_chain k) ≡ count (λ j. owes k (sess' j).info) global_session_num
    owed' =
        at_update (λ k c. length c ≡ count (λ j. owes k (sess' j).info) global_session_num) chain st
          _ owed_here
          (λ k ne.
            inv.owed k
            ∙ count-same (λ j. owes k (s.sess j).info) (λ j. owes k (sess' j).info)
                global_session_num
                (λ j _.
                  at_update (λ j e. owes k (s.sess j).info ≡ owes k e.info) s.sess i _
                    (rw (At-hold x a, none_held, ne→==_false st k ne) refl) (λ j _. refl) j))

    pushes : (s.store.tops st).push_counter ≤ x.new_top.push_counter
    pushes = omega (arith, t.1, ap (λ u. u.push_counter) now)

    more : tally (s.store.tops st) < tally x.new_top
    more = omega (arith, t.0, t.1, ap tally now)

    abbrev m' : Store
    m' = swapped s.store st x.new_top

    linked' : (k : ℕ) → Chain s.store.nodes (m'.tops k).key_id (pushed_chain k)
    linked' =
        let b = inv.fixed i lt in
        let tail : Chain s.store.nodes (s.store.nodes key).next_key_id (chain st) =
          subst (λ n. Chain s.store.nodes n (chain st)) (ap (λ u. u.key_id) now ∙ sym link)
            (inv.linked st) in
        at_updates (λ k u c. Chain s.store.nodes u.key_id c) s.store.tops chain st x.new_top
          (key ∷ chain st) (t.2, b.own_low, b.own_high, no_other st, tail) (λ k _. inv.linked k)

    sized' : (k : ℕ) → length (pushed_chain k) + (m'.tops k).pop_counter ≡ (m'.tops k).push_counter
    sized' =
        at_updates (λ k u c. length c + u.pop_counter ≡ u.push_counter) s.store.tops chain st
          x.new_top (key ∷ chain st)
          (omega (
            arith,
            inv.sized st,
            t.0,
            t.1,
            ap (λ u. u.pop_counter) now,
            ap (λ u. u.push_counter) now,
          ))
          (λ k _. inv.sized k)

    bounded' : (k : ℕ) → (m'.tops k).push_counter ≤ m'.changes
    bounded' =
        at_update (λ k u. u.push_counter ≤ s.store.changes + 1) s.store.tops st x.new_top
          (omega (arith, inv.bounded st, t.1, ap (λ u. u.push_counter) now))
          (λ k _. omega (arith, inv.bounded k))

    -- The node of the session is on the stack, before the nodes that were on it.
    pub push_won-Stacked :
        same_bytes (s.store.tops st) x.top && not fails ≡ true
        → Stacked pushed_chain (served s i fails (cas st x.top x.new_top) [])
    unfolding perform
    push_won-Stacked won = rw won (record {
      place = place';
      linked = linked';
      sized = sized';
      bounded = bounded';
      located = located';
      held = held';
      owed = owed';
      stages =
          at_update (λ j e. j < global_session_num → Stage m' e.info e.queue) s.sess i _
            (λ _.
              at_push_end (a.0, a.1, refl) refl
                (record {
                  pops = seen.fit.pops;
                  pushes = omega (arith, seen.fit.pushes);
                  when_empty = seen.fit.when_empty;
                  when_full = seen.fit.when_full;
                })
                (rw (update_same s.store.tops st x.new_top) (le_refl x.new_top.push_counter)))
            (λ j _ lt'.
              Stage-Later (Later-swapped inv st x.new_top pushes more (s.sess j).info)
                (inv.stages j lt'));
      fixed =
          at_update (λ j e. j < global_session_num → Fixed e.info) s.sess i _ (inv.fixed i)
            (λ j _. inv.fixed j);
      counters = inv.counters;
    })

-- ===== src/Treiber/Invariant/Popped.antt =====
-- The compare-and-swap of a pop of client/od_client.c's Treiber stacks that succeeds.
use odyssey_lib.Base.{
  at_update, at_updates, update, update_other, update_same, Bool, List, [], ap, arith, eq→==, false,
  length, ne→==_false, not, refl, some, some_injective, subst, sym, true, true-ne_false, ℕ, ◌&&◌,
  ◌+◌, ◌<◌, ◌∙◌, ◌∷◌, ◌≡◌, ◌≤◌,
}
use odyssey_lib.Treiber.{SessInfo, cas, global_session_num, popping, tr_read_top}
use odyssey_lib.Treiber.Chain.{Chain, has}
use odyssey_lib.Treiber.Count.{bit, count, count-change, count-same}
use odyssey_lib.Treiber.Invariant.{
  Place, Stacked, held-ne-located, on_stack, on_stack_injective, owes, with_session,
}
use odyssey_lib.Treiber.Invariant.Change.{Later-swapped, swapped}
use odyssey_lib.Treiber.Progress.{Fixed}
use odyssey_lib.Treiber.Run.{Clients, Sess, Store, perform, same_bytes, served}
use odyssey_lib.Treiber.Stages.{
  At, At-hold, Fresh, Poppable, PopsTop, Stage, Stage-Later, at_pop_end, hold, tally,
}

module _ {chain : ℕ → List ℕ} {s : Clients} (inv : Stacked chain s) (i : ℕ)
    (lt : i < global_session_num) (fails : Bool) where
  abbrev x : SessInfo
  x = (s.sess i).info

  abbrev st : ℕ
  st = x.stack_id

  abbrev key : ℕ
  key = x.top.key_id

  module _ (a : At x popping tr_read_top false) (p : Poppable s.store x)
      (f : Fresh s.store x x.new_top.key_id) (t : PopsTop x) (now : s.store.tops st ≡ x.top)
      (rest : List ℕ) (shape : chain st ≡ key ∷ rest) where
    abbrev y : SessInfo
    y = record x { success = true }

    abbrev sess' : ℕ → Sess
    sess' = update s.sess i (record { info = y; queue = [] })

    abbrev pub popped_chain : ℕ → List ℕ
    popped_chain = update chain st rest

    key_held : hold y ≡ some key
    key_held = At-hold y (a.0, a.1, refl)

    links : Chain s.store.nodes (s.store.tops st).key_id (key ∷ rest)
    links = subst (Chain s.store.nodes (s.store.tops st).key_id) shape (inv.linked st)

    key_on : (k : ℕ) → has key (chain k) ≡ true → on_stack st ≡ on_stack k
    key_on k on =
        let top : has key (chain st) ≡ true = rw shape (ground arith) in
        sym (inv.located st key top) ∙ inv.located k key on

    place' : ℕ → Place
    place' = update inv.place key (with_session i)

    located' : (k key' : ℕ) → has key' (popped_chain k) ≡ true → place' key' ≡ on_stack k
    unfolding place'
    located' k =
        at_update (λ key' p. has key' (popped_chain k) ≡ true → p ≡ on_stack k) inv.place key
          (with_session i)
          (at_update (λ k c. has key c ≡ true → with_session i ≡ on_stack k) chain st rest
            (λ on. absurd (true-ne_false (sym on ∙ links.3)))
            (λ k ne on. absurd (ne (on_stack_injective (key_on k on)))) k)
          (λ key' ne.
            at_update (λ k c. has key' c ≡ true → inv.place key' ≡ on_stack k) chain st rest
              (λ on. inv.located st key' (ap (has key') shape ∙ ground (arith, on)))
              (λ k _. inv.located k key') k)

    held' :
        (j key' : ℕ)
        → j < global_session_num
        → hold (sess' j).info ≡ some key'
        → place' key' ≡ with_session j
    unfolding place'
    held' j key' =
        at_update
          (λ j e.
            j < global_session_num
            → hold e.info ≡ some key'
            → update inv.place key (with_session i) key' ≡ with_session j)
          s.sess i _
          (λ _ h.
            let same : key ≡ key' = some_injective (sym key_held ∙ h) in
            subst (λ u. update inv.place key (with_session i) u ≡ with_session i) same
              (update_same inv.place key (with_session i)))
          (λ j ne lt' h.
            let top : has key (chain st) ≡ true = rw shape (ground arith) in
            update_other inv.place key key' (with_session i)
              (λ same. held-ne-located inv j st key' key lt' h top (sym same))
            ∙ inv.held j key' lt' h)
          j

    owed_here : length rest ≡ count (λ j. owes st (sess' j).info) global_session_num
    owed_here =
        let before : owes st x ≡ true = rw (At-hold x a, eq→== st st refl) refl in
        let after : owes st (sess' i).info ≡ false =
          ap (λ e. owes st e.info) (update_same s.sess i (record { info = y; queue = [] }))
          ∙ rw key_held refl in
        let change =
          count-change (λ j. owes st (s.sess j).info) (λ j. owes st (sess' j).info)
            global_session_num i lt
            (λ j ne. sym (ap (λ e. owes st e.info) (update_other s.sess i j _ ne))) in
        omega (arith, inv.owed st, ap length shape, change, ap bit before, ap bit after)

    owed' :
        (k : ℕ) → length (popped_chain k) ≡ count (λ j. owes k (sess' j).info) global_session_num
    owed' =
        at_update (λ k c. length c ≡ count (λ j. owes k (sess' j).info) global_session_num) chain st
          _ owed_here
          (λ k ne.
            inv.owed k
            ∙ count-same (λ j. owes k (s.sess j).info) (λ j. owes k (sess' j).info)
                global_session_num
                (λ j _.
                  at_update (λ j e. owes k (s.sess j).info ≡ owes k e.info) s.sess i _
                    (rw (At-hold x a, key_held, ne→==_false st k ne) refl) (λ j _. refl) j))

    pushes : (s.store.tops st).push_counter ≤ x.new_top.push_counter
    pushes = omega (arith, t.1, ap (λ u. u.push_counter) now)

    more : tally (s.store.tops st) < tally x.new_top
    more = omega (arith, t.0, t.1, ap tally now)

    abbrev m' : Store
    m' = swapped s.store st x.new_top

    linked' : (k : ℕ) → Chain s.store.nodes (m'.tops k).key_id (popped_chain k)
    linked' =
        at_updates (λ k u c. Chain s.store.nodes u.key_id c) s.store.tops chain st x.new_top rest
          (subst (λ n. Chain s.store.nodes n rest) (f now) links.4) (λ k _. inv.linked k)

    sized' : (k : ℕ) → length (popped_chain k) + (m'.tops k).pop_counter ≡ (m'.tops k).push_counter
    sized' =
        at_updates (λ k u c. length c + u.pop_counter ≡ u.push_counter) s.store.tops chain st
          x.new_top rest
          (omega (
            arith,
            inv.sized st,
            ap length shape,
            t.0,
            t.1,
            ap (λ u. u.pop_counter) now,
            ap (λ u. u.push_counter) now,
          ))
          (λ k _. inv.sized k)

    bounded' : (k : ℕ) → (m'.tops k).push_counter ≤ m'.changes
    bounded' =
        at_update (λ k u. u.push_counter ≤ s.store.changes + 1) s.store.tops st x.new_top
          (omega (arith, inv.bounded st, t.1, ap (λ u. u.push_counter) now))
          (λ k _. omega (arith, inv.bounded k))

    -- The first node of the stack is the session's, and the others are on the stack.
    pub pop_won-Stacked :
        same_bytes (s.store.tops st) x.top && not fails ≡ true
        → Stacked popped_chain (served s i fails (cas st x.top x.new_top) [])
    unfolding perform
    pop_won-Stacked won = rw won (record {
      place = place';
      linked = linked';
      sized = sized';
      bounded = bounded';
      located = located';
      held = held';
      owed = owed';
      stages =
          at_update (λ j e. j < global_session_num → Stage m' e.info e.queue) s.sess i _
            (λ _.
              at_pop_end (a.0, a.1, refl) refl
                (record {
                  seen = record {
                    fit = record {
                      pops = p.seen.fit.pops;
                      pushes = omega (arith, p.seen.fit.pushes);
                      when_empty = p.seen.fit.when_empty;
                      when_full = p.seen.fit.when_full;
                    };
                    older = rw (update_same s.store.tops st x.new_top) (omega (arith, t.0, t.1));
                  };
                  low = p.low;
                  kept = p.kept;
                }))
            (λ j _ lt'.
              Stage-Later (Later-swapped inv st x.new_top pushes more (s.sess j).info)
                (inv.stages j lt'));
      fixed =
          at_update (λ j e. j < global_session_num → Fixed e.info) s.sess i _ (inv.fixed i)
            (λ j _. inv.fixed j);
      counters = inv.counters;
    })

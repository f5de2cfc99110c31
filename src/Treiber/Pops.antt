-- ===== src/Treiber/Pops.antt =====
-- `treiber_pop_state_machine` of client/od_client.c, from each place of a session.
use odyssey_lib.Base.{
  Bool, Bool-cases, List, [], arith, assert_if, assert_if-true, dec_lt, false, if◌then◌else◌, inl,
  inr, leb, le→leb, ltb, none-ne_some, not, refl, some, sym, true, u32, ℕ, ◌+◌, ◌<◌, ◌^◌, ◌||◌, ◌∙◌,
  ◌∷◌, ◌≡◌, ◌≤◌,
}
use odyssey_lib.Network.{mod_incr_32}
use odyssey_lib.Treiber.{
  SessInfo, StoreOp, cas, number_of_stacks, pop_in, popped_top, popping, pushing, read_node,
  read_top, torn, tr_init, tr_key_offset, tr_read_first, tr_read_top,
}
use odyssey_lib.Treiber.Progress.{Advances, Fixed, held_as, machine-pop}
use odyssey_lib.Treiber.Run.{Store}
use odyssey_lib.Treiber.Stages.{
  At, At-hold, Fresh, Poppable, at_pop_cas, at_pop_node, at_pop_read, at_pop_start, at_push_start,
}

module _ (assertions no_conflicts : Bool) (m : Store) (x : SessInfo) (c : ℕ) (b : Fixed x)
    (few : c < number_of_stacks) where
  pub pop_start-Advances :
      (q : List StoreOp)
      → At x popping tr_init false
      → q ≡ []
      → x.last_pushed_counter ≤ (m.tops x.stack_id).push_counter
      → Advances assertions no_conflicts m x c b few q
  unfolding pop_in
  pop_start-Advances q a e last =
      let quiet : assert_if assertions (not x.success) ≡ some tt =
        assert_if-true assertions (rw a.2 refl) in
      (
        (record x { state = tr_read_top }, read_top x.stack_id ∷ [], c),
        machine-pop assertions no_conflicts m x c b few a ∙ rw quiet refl,
        record {
          stage = at_pop_read (a.0, refl, a.2) (rw e refl) last;
          held = held_as x _ a (a.0, refl, a.2) refl;
          stays = λ _. refl;
          fixed = b;
          counter = few;
        },
      )

  Poppable-assert :
      Poppable m x
      → not (ltb x.top.key_id tr_key_offset || ltb x.top.push_counter x.last_pushed_counter) ≡ true
  Poppable-assert p = ground (arith, p.low, p.kept)

  pub pop_ready-Advances :
      (q : List StoreOp)
      → At x popping tr_read_top false
      → q ≡ []
      → x.last_pushed_counter ≤ (m.tops x.stack_id).push_counter
      → Poppable m x
      → Advances assertions no_conflicts m x c b few q
  unfolding pop_in
  pop_ready-Advances q a e last p = (
    (record x { state = tr_read_first }, read_node x.top.key_id ∷ [], c),
    machine-pop assertions no_conflicts m x c b few a ∙ rw (Poppable-assert p, a.2) refl,
    record {
      stage = at_pop_node (a.0, refl, a.2) (rw e refl) last p;
      held = held_as x _ a (a.0, refl, a.2) refl;
      stays = λ _. refl;
      fixed = b;
      counter = few;
    },
  )

  popped_small :
      Poppable m x → m.changes + 1 < 2 ^ 32 → u32 (x.top.pop_counter + 1) ≡ x.top.pop_counter + 1
  popped_small p small = omega (arith, p.seen.fit.pops, p.seen.fit.pushes, small)

  pub pop_first-Advances :
      (q : List StoreOp)
      → At x popping tr_read_first false
      → q ≡ []
      → x.last_pushed_counter ≤ (m.tops x.stack_id).push_counter
      → Poppable m x
      → Fresh m x x.new_node.next_key_id
      → m.changes + 1 < 2 ^ 32
      → Advances assertions no_conflicts m x c b few q
  unfolding pop_in
  pop_first-Advances q a e last p f small = elim (Bool-cases (torn (popped_top x))) [
    | inl bad ↦
        let y : SessInfo = record x { new_top = popped_top x; state = tr_init } in
        (
          (y, [], c),
          machine-pop assertions no_conflicts m x c b few a ∙ rw bad refl,
          record {
            stage = at_pop_start (a.0, refl, a.2) (rw e refl) last;
            held = held_as x y a (a.0, refl, a.2) refl;
            stays = λ _. refl;
            fixed = b;
            counter = few;
          },
        )
    | inr good ↦
        let y : SessInfo = record x { new_top = popped_top x; state = tr_read_top } in
        (
          (y, cas x.stack_id x.top (popped_top x) ∷ [], c),
          machine-pop assertions no_conflicts m x c b few a ∙ rw good refl,
          record {
            stage = at_pop_cas (a.0, refl, a.2) (rw e refl) last p f (popped_small p small, refl);
            held = held_as x y a (a.0, refl, a.2) refl;
            stays = λ _. refl;
            fixed = b;
            counter = few;
          },
        )
  ]

  pub pop_end-Advances :
      (q : List StoreOp)
      → At x popping tr_read_top true
      → q ≡ []
      → Poppable m x
      → Advances assertions no_conflicts m x c b few q
  unfolding pop_in
  pop_end-Advances q a e p =
      let low : leb tr_key_offset x.top.key_id ≡ true = le→leb tr_key_offset x.top.key_id p.low in
      let full : x.top.pop_counter < x.top.push_counter =
        elim (dec_lt x.top.pop_counter x.top.push_counter) [
          | yes lt ↦ lt
          | no not_lt ↦
              absurd (
                omega
                  (arith, p.low, p.seen.fit.when_empty (omega (arith, p.seen.fit.pops, not_lt))))
        ] in
      let key = p.seen.fit.when_full full in
      let y : SessInfo = record x {
        owned_key = x.top.key_id;
        success = false;
        stack_id = if no_conflicts then x.stack_id else c;
        push_or_pull_state = pushing;
        state = tr_init;
      } in
      (
        (y, [], if no_conflicts then c else mod_incr_32 c number_of_stacks),
        machine-pop assertions no_conflicts m x c b few a ∙ rw (Poppable-assert p, a.2, low) refl,
        record {
          stage = at_push_start (refl, refl, refl) (rw e refl);
          held = held_as x y a (refl, refl, refl) refl;
          stays = λ none_held. absurd (none-ne_some (sym none_held ∙ At-hold x a));
          fixed = record {
            real = b.real;
            stack = ground (arith, b.stack, few);
            own_low = key.0;
            own_high = key.1;
          };
          counter = ground (arith, few);
        },
      )

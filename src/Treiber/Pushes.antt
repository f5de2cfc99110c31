-- ===== src/Treiber/Pushes.antt =====
-- `treiber_push_state_machine` of client/od_client.c, from each place of a session.
use odyssey_lib.Base.{
  Bool, List, [], arith, assert_if, assert_if-true, false, leb, le→leb, not, refl, some, true, u32,
  ℕ, ◌+◌, ◌<◌, ◌==◌, ◌^◌, ◌∙◌, ◌∷◌, ◌≡◌, ◌≤◌,
}
use odyssey_lib.Treiber.{
  SessInfo, StoreOp, cas, max_tr_node_key, number_of_stacks, popping, push_attempt, push_in,
  pushed_node, pushed_top, pushing, read_top, tr_init, tr_key_offset, tr_read_top, write_node,
}
use odyssey_lib.Treiber.Progress.{
  Advances, Fit-check_node, Fit-check_top, Fixed, held_as, machine-push, pushed-check_top,
}
use odyssey_lib.Treiber.Run.{Store}
use odyssey_lib.Treiber.Stages.{At, Fit, Seen, at_pop_start, at_push_read, at_push_write}

module _ (assertions no_conflicts : Bool) (m : Store) (x : SessInfo) (c : ℕ) (b : Fixed x)
    (few : c < number_of_stacks) where
  pub push_start-Advances :
      (q : List StoreOp)
      → At x pushing tr_init false
      → q ≡ []
      → Advances assertions no_conflicts m x c b few q
  unfolding push_in
  push_start-Advances q a e =
      let quiet : assert_if assertions (not x.success) ≡ some tt =
        assert_if-true assertions (rw a.2 refl) in
      (
        (record x { state = tr_read_top }, read_top x.stack_id ∷ [], c),
        machine-push assertions no_conflicts m x c b few a ∙ rw quiet refl,
        record {
          stage = at_push_read (a.0, refl, a.2) (rw e refl);
          held = held_as x _ a (a.0, refl, a.2) refl;
          stays = λ _. refl;
          fixed = b;
          counter = few;
        },
      )

  pub push_ready-Advances :
      (q : List StoreOp)
      → At x pushing tr_read_top false
      → q ≡ []
      → Seen m x
      → m.changes + 1 < 2 ^ 32
      → Advances assertions no_conflicts m x c b few q
  unfolding push_in push_attempt
  push_ready-Advances q a e s small =
      let fit = s.fit in
      let checked = Fit-check_top assertions m.changes x.top fit in
      let low : assert_if assertions (leb tr_key_offset x.owned_key) ≡ some tt =
        assert_if-true assertions (le→leb tr_key_offset x.owned_key b.own_low) in
      let high : assert_if assertions (leb x.owned_key max_tr_node_key) ≡ some tt =
        assert_if-true assertions (le→leb x.owned_key max_tr_node_key b.own_high) in
      let node = Fit-check_node assertions m.changes x.top (pushed_node x) fit refl in
      let top = pushed-check_top assertions m.changes x b fit small in
      let next_push : u32 (x.top.push_counter + 1) ≡ x.top.push_counter + 1 =
        omega (arith, fit.pushes, small) in
      let apart : (x.top.pop_counter == u32 (x.top.push_counter + 1)) ≡ false =
        ground (arith, fit.pops, next_push) in
      (
        (
          record x { new_node = pushed_node x; new_top = pushed_top x },
          write_node x.owned_key (pushed_node x) ∷ cas x.stack_id x.top (pushed_top x) ∷ [],
          c,
        ),
        machine-push assertions no_conflicts m x c b few a
            ∙ rw (checked, a.2, low, high, node, top, apart) refl,
        record {
          stage = at_push_write a (rw e refl) s (refl, next_push, refl) refl;
          held = held_as x _ a a refl;
          stays = λ _. refl;
          fixed = b;
          counter = few;
        },
      )

  pub push_end-Advances :
      (q : List StoreOp)
      → At x pushing tr_read_top true
      → q ≡ []
      → Fit m.changes x.top
      → x.new_top.push_counter ≤ (m.tops x.stack_id).push_counter
      → Advances assertions no_conflicts m x c b few q
  unfolding push_in
  push_end-Advances q a e fit last =
      let checked = Fit-check_top assertions m.changes x.top fit in
      let y : SessInfo = record x {
        success = false;
        push_or_pull_state = popping;
        state = tr_init;
        last_pushed_counter = x.new_top.push_counter;
      } in
      (
        (y, [], c),
        machine-push assertions no_conflicts m x c b few a ∙ rw (checked, a.2) refl,
        record {
          stage = at_pop_start (refl, refl, refl) (rw e refl) last;
          held = held_as x y a (refl, refl, refl) refl;
          stays = λ _. refl;
          fixed = b;
          counter = few;
        },
      )

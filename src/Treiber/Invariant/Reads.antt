-- ===== src/Treiber/Invariant/Reads.antt =====
-- The requests of client/od_client.c's Treiber stacks that leave the store as it is: reads and
-- compare-and-swaps that fail.
use native.Mathlib.Nat.{le_refl}
use odyssey_lib.Base.{Bool, List, [], false, none, not, refl, ℕ, ◌&&◌, ◌<◌, ◌≡◌, ◌≤◌}
use odyssey_lib.Treiber.{
  SessInfo, Top, cas, global_session_num, popping, pushing, read_node, read_top, tr_read_first,
  tr_read_top,
}
use odyssey_lib.Treiber.Invariant.{Stacked, Stacked-Fit, Stacked-nonempty}
use odyssey_lib.Treiber.Invariant.Quiet.{quiet-Stacked}
use odyssey_lib.Treiber.Progress.{Fixed, held_as}
use odyssey_lib.Treiber.Run.{Clients, perform, same_bytes, served}
use odyssey_lib.Treiber.Stages.{
  At, At-hold, Poppable, Seen, at_pop_first, at_pop_ready, at_push_ready, hold, tally,
}

module _ {chain : ℕ → List ℕ} {s : Clients} (inv : Stacked chain s) (i : ℕ)
    (lt : i < global_session_num) (fails : Bool) where
  abbrev x : SessInfo
  x = (s.sess i).info

  abbrev st : ℕ
  st = x.stack_id

  with_top : Fixed (record x { top = s.store.tops st })
  with_top = inv.fixed i lt

  Seen-read : Seen s.store (record x { top = s.store.tops st })
  Seen-read = record { fit = Stacked-Fit inv st; older = le_refl (tally (s.store.tops st)) }

  Poppable-read :
      hold x ≡ none
      → x.last_pushed_counter ≤ (s.store.tops st).push_counter
      → Poppable s.store (record x { top = s.store.tops st })
  Poppable-read h last = record { seen = Seen-read; low = Stacked-nonempty inv i lt h; kept = last }

  pub push_read-Stacked :
      At x pushing tr_read_top false → Stacked chain (served s i fails (read_top st) [])
  unfolding perform
  push_read-Stacked a =
      quiet-Stacked inv i lt (record x { top = s.store.tops st }) [] s.stack_id_cntr s.last_req_id
        s.last_pushed_req (held_as x _ a a refl) (λ _. refl) (at_push_ready a refl Seen-read)
        with_top inv.counters

  pub pop_read-Stacked :
      At x popping tr_read_top false
      → x.last_pushed_counter ≤ (s.store.tops st).push_counter
      → Stacked chain (served s i fails (read_top st) [])
  unfolding perform
  pop_read-Stacked a last =
      quiet-Stacked inv i lt (record x { top = s.store.tops st }) [] s.stack_id_cntr s.last_req_id
        s.last_pushed_req (held_as x _ a a refl) (λ _. refl)
        (at_pop_ready a refl last (Poppable-read (At-hold x a) last)) with_top inv.counters

  pub pop_node-Stacked :
      At x popping tr_read_first false
      → x.last_pushed_counter ≤ (s.store.tops st).push_counter
      → Poppable s.store x
      → Stacked chain (served s i fails (read_node x.top.key_id) [])
  unfolding perform
  pop_node-Stacked a last p =
      let f = inv.fixed i lt in
      quiet-Stacked inv i lt (record x { new_node = s.store.nodes x.top.key_id }) [] s.stack_id_cntr
        s.last_req_id s.last_pushed_req (held_as x _ a a refl) (λ _. refl)
        (at_pop_first a refl last p (λ _. refl)) f inv.counters

  module _ (desired : Top) (lost : (same_bytes (s.store.tops st) x.top && not fails) ≡ false) where
    pub push_lost-Stacked :
        At x pushing tr_read_top false → Stacked chain (served s i fails (cas st x.top desired) [])
    unfolding perform
    push_lost-Stacked a =
        let y : SessInfo = record x { top = s.store.tops st; success = false } in
        let f = inv.fixed i lt in
        rw lost (
          quiet-Stacked inv i lt y [] s.stack_id_cntr s.last_req_id s.last_pushed_req
            (held_as x y a (a.0, a.1, refl) refl) (λ _. refl)
            (at_push_ready (a.0, a.1, refl) refl
              (record { fit = Stacked-Fit inv st; older = le_refl (tally (s.store.tops st)) }))
            f inv.counters)

    pub pop_lost-Stacked :
        At x popping tr_read_top false
        → x.last_pushed_counter ≤ (s.store.tops st).push_counter
        → Stacked chain (served s i fails (cas st x.top desired) [])
    unfolding perform
    pop_lost-Stacked a last =
        let y : SessInfo = record x { top = s.store.tops st; success = false } in
        let f = inv.fixed i lt in
        let p = Poppable-read (At-hold x a) last in
        rw lost (
          quiet-Stacked inv i lt y [] s.stack_id_cntr s.last_req_id s.last_pushed_req
            (held_as x y a (a.0, a.1, refl) refl) (λ _. refl)
            (at_pop_ready (a.0, a.1, refl) refl last p) f inv.counters)

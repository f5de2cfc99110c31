-- ===== src/Treiber/Invariant/Change.antt =====
-- A compare-and-swap of client/od_client.c's Treiber stacks that succeeds: the top of one stack
-- changes, and its counters do not go back.
use native.Mathlib.Nat.{le_refl}
use odyssey_lib.Base.{
  at_update, update, ==→eq, List, arith, inl, inr, refl, true, ℕ, ◌+◌, ◌<◌, ◌≡◌, ◌≤◌, ◌⊎◌,
}
use odyssey_lib.Treiber.{SessInfo, Top}
use odyssey_lib.Treiber.Invariant.{Stacked}
use odyssey_lib.Treiber.Run.{Clients, Store, same_bytes}
use odyssey_lib.Treiber.Stages.{Later, tally}

pub same_bytes→eq : (a b : Top) → same_bytes a b ≡ true → a ≡ b
unfolding same_bytes
same_bytes→eq a b h i = record {
  fourth_key_id = ==→eq a.fourth_key_id b.fourth_key_id (ground (arith, h)) i;
  third_key_id = ==→eq a.third_key_id b.third_key_id (ground (arith, h)) i;
  sec_key_id = ==→eq a.sec_key_id b.sec_key_id (ground (arith, h)) i;
  key_id = ==→eq a.key_id b.key_id (ground (arith, h)) i;
  pop_counter = ==→eq a.pop_counter b.pop_counter (ground (arith, h)) i;
  push_counter = ==→eq a.push_counter b.push_counter (ground (arith, h)) i;
}

abbrev pub swapped : Store → ℕ → Top → Store
swapped m k t = record m { tops = update m.tops k t; changes = m.changes + 1 }

module _ {chain : ℕ → List ℕ} {s : Clients} (inv : Stacked chain s) (st : ℕ) (d : Top)
    (pushes : (s.store.tops st).push_counter ≤ d.push_counter)
    (more : tally (s.store.tops st) < tally d) where
  pub Later-swapped : (x : SessInfo) → Later s.store (swapped s.store st d) x
  Later-swapped x = record {
    grown = omega arith;
    pushed_on =
        at_update (λ k t. (s.store.tops k).push_counter ≤ t.push_counter) s.store.tops st d pushes
          (λ k _. le_refl (s.store.tops k).push_counter) x.stack_id;
    moved =
        at_update (λ k t. (t ≡ s.store.tops k) ⊎ (tally (s.store.tops k) < tally t)) s.store.tops st
          d (inr more) (λ k _. inl refl) x.stack_id;
    own = λ key _. refl;
    first = λ _. refl;
  }

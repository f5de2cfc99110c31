-- ===== src/Treiber/Growth.antt =====
-- The values that client/od_client.c's Treiber stacks write to a top, against
-- `check_treiber_values`.
use native.Mathlib.Nat.{le_refl}
use odyssey_lib.Base.{
  at_update, Bool, Bool-cases, List, ap, arith, inl, inr, not, subst, sym, true, ℕ, ◌&&◌, ◌∷◌, ◌≡◌,
  ◌≤◌,
}
use odyssey_lib.Treiber.{
  SessInfo, StoreOp, Top, cas, check_treiber_values, read_node, read_top, write_node,
}
use odyssey_lib.Treiber.Invariant.Change.{same_bytes→eq}
use odyssey_lib.Treiber.Run.{Store, perform, same_bytes}
use odyssey_lib.Treiber.Stages.{
  Stage, at_pop_cas, at_pop_end, at_pop_first, at_pop_node, at_pop_read, at_pop_ready, at_pop_start,
  at_push_cas, at_push_end, at_push_read, at_push_ready, at_push_start, at_push_write,
}

-- Neither counter goes back.
abbrev Grows : Top → Top → Type 0
Grows t u = (t.push_counter ≤ u.push_counter) × (t.pop_counter ≤ u.pop_counter)

Grows-check : (t u : Top) → Grows t u → check_treiber_values t u ≡ true
unfolding check_treiber_values
Grows-check t u (a, b) = ground (arith, a, b)

-- A compare-and-swap that a session waits for.
Stage-cas :
    (m : Store) (x : SessInfo) {q q' : List StoreOp} {k : ℕ} {old_top new_top : Top}
    → Stage m x q
    → q ≡ cas k old_top new_top ∷ q'
    → Grows old_top new_top
Stage-cas m x (at_push_start _ e) h = absurd cc
Stage-cas m x (at_push_read _ e) h = absurd cc
Stage-cas m x (at_push_ready _ e _) h = absurd cc
Stage-cas m x (at_push_write _ e _ _ _) h = absurd cc
Stage-cas m x {old_top = old_top} {new_top = new_top} (at_push_cas _ e _ t _) h =
    let old : x.top ≡ old_top = cc in
    let new : x.new_top ≡ new_top = cc in
    (
      omega (arith, ap (λ u. u.push_counter) old, ap (λ u. u.push_counter) new, t.1),
      omega (arith, ap (λ u. u.pop_counter) old, ap (λ u. u.pop_counter) new, t.0),
    )
Stage-cas m x (at_push_end _ e _ _) h = absurd cc
Stage-cas m x (at_pop_start _ e _) h = absurd cc
Stage-cas m x (at_pop_read _ e _) h = absurd cc
Stage-cas m x (at_pop_ready _ e _ _) h = absurd cc
Stage-cas m x (at_pop_node _ e _ _) h = absurd cc
Stage-cas m x (at_pop_first _ e _ _ _) h = absurd cc
Stage-cas m x {old_top = old_top} {new_top = new_top} (at_pop_cas _ e _ _ _ t) h =
    let old : x.top ≡ old_top = cc in
    let new : x.new_top ≡ new_top = cc in
    (
      omega (arith, ap (λ u. u.push_counter) old, ap (λ u. u.push_counter) new, t.1),
      omega (arith, ap (λ u. u.pop_counter) old, ap (λ u. u.pop_counter) new, t.0),
    )
Stage-cas m x (at_pop_end _ e _) h = absurd cc

Grows-self : (t : Top) → Grows t t
Grows-self t = (le_refl t.push_counter, le_refl t.pop_counter)

perform-Grows :
    (fails : Bool) (m : Store) (x : SessInfo) {q q' : List StoreOp} (r : StoreOp)
    → Stage m x q
    → q ≡ r ∷ q'
    → (k : ℕ) → Grows (m.tops k) ((perform fails r m x).0.tops k)
unfolding perform
perform-Grows fails m x (read_top _) s h k = Grows-self (m.tops k)
perform-Grows fails m x (read_node _) s h k = Grows-self (m.tops k)
perform-Grows fails m x (write_node _ _) s h k = Grows-self (m.tops k)
perform-Grows fails m x (cas st e d) s h k =
    elim (Bool-cases (same_bytes (m.tops st) e && not fails)) [
      | inr lost ↦ rw lost (Grows-self (m.tops k))
      | inl won ↦
          let now : m.tops st ≡ e = same_bytes→eq (m.tops st) e (ground (arith, won)) in
          rw won (
            at_update (λ k u. Grows (m.tops k) u) m.tops st d
              (subst (λ t. Grows t d) (sym now) (Stage-cas m x s h)) (λ k _. Grows-self (m.tops k))
              k)
    ]

pub check_self : (t : Top) → check_treiber_values t t ≡ true
check_self t = Grows-check t t (Grows-self t)

-- What the service of a session's request does to a top passes `check_treiber_values`.
pub perform-check_treiber_values :
    (fails : Bool) (m : Store) (x : SessInfo) {q q' : List StoreOp} (r : StoreOp)
    → Stage m x q
    → q ≡ r ∷ q'
    → (k : ℕ) → check_treiber_values (m.tops k) ((perform fails r m x).0.tops k) ≡ true
perform-check_treiber_values fails m x r s h k = Grows-check _ _ (perform-Grows fails m x r s h k)

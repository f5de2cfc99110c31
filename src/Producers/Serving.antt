-- ===== src/Producers/Serving.antt =====
-- Each request that is performed for client/od_client.c's producer-consumer ring.
use native.Mathlib.Nat.{le_refl}
use odyssey_lib.Base.{
  update, update_other, update_same, Bool, Bool-cases, List, ap, arith, false, inl, inr, subst, sym,
  true, true-ne_false, ℕ, ℕ_discrete, ◌+◌, ◌<◌, ◌∙◌, ◌≡◌,
}
use odyssey_lib.Producers.{PcOp, PcSess, from_session, pc_writes_num, write_part}
use odyssey_lib.Producers.Invariant.{Orderly, calm-Orderly, others-AsksFor, raised}
use odyssey_lib.Producers.Order.{from_session-lt, from_session-ne, from_session-rank}
use odyssey_lib.Producers.Run.{PcStore, Ring, pc_answered, pc_perform}
use odyssey_lib.Producers.Stages.{
  AsksFor, HasRead, PcStage, Written, acquiring, reading, resting, starting, writing_part,
}
use odyssey_lib.Treiber.{global_session_num}
use odyssey_lib.Treiber.Count.{bit}

-- A session that is not at work has written all parts of its node.
resting-Written :
    (m : PcStore) (x : PcSess) {b : List PcOp} {works : Bool}
    → PcStage m x b works
    → works ≡ false
    → 0 < x.rel_num
    → Written m x pc_writes_num
resting-Written m x (resting _ _ d _) f pos = d pos
resting-Written m x (acquiring w _ _) f pos = absurd (true-ne_false (sym w ∙ f))
resting-Written m x (reading _ _ w _ _ _ _ _) f pos = absurd (true-ne_false (sym w ∙ f))
resting-Written m x (writing_part _ _ w _ _ _ _ _) f pos = absurd (true-ne_false (sym w ∙ f))
resting-Written m x (starting _ _ w _ _ _ _) f pos = absurd (true-ne_false (sym w ∙ f))

-- A session at its round, one request on.
abbrev pub Carried : ℕ → Ring → Type 0
Carried k0 t = (works : ℕ → Bool) × Orderly k0 works t

module _ {k0 : ℕ} {works : ℕ → Bool} {s : Ring} (inv : Orderly k0 works s) (g : ℕ)
    (lt : g < global_session_num) where
  abbrev x : PcSess
  x = (s.sess g).info

  abbrev Serves : PcOp → List PcOp → Type 0
  Serves r q = Carried k0 (pc_answered s g (pc_perform r s.store x) q)

  -- What a session at work reads is what the session before it wrote for this round.
  pub handed :
      (i : ℕ)
      → i < pc_writes_num
      → works g ≡ true
      → 0 < x.acq_num
      → HasRead (record x { node_to_read = s.store.parts (x.r_key + i) })
  handed i small busy pos =
      let p = from_session g in
      let lp = from_session-lt g in
      let rp = inv.regular p lp in
      let rg = inv.regular g lt in
      let still : works p ≡ false = elim (Bool-cases (works p)) [
        | inl w ↦ absurd (
            from_session-ne g lt
              (inv.one g p lt lp (sym (from_session-rank g lt)) (inl busy) (inl w)))
        | inr w ↦ w
      ] in
      let rel : (s.sess p).info.rel_num ≡ x.acq_num =
        omega (arith, (inv.near p lp).lag, ap bit still, (inv.near g lt).begun_round busy) in
      let place : x.r_key + i ≡ (s.sess p).info.w_key + i =
        omega (arith, rg.placed.reads, rp.placed.writes) in
      let part : s.store.parts (x.r_key + i) ≡ (s.sess p).info.node_to_write =
        ap s.store.parts place
        ∙ resting-Written s.store (s.sess p).info (inv.queued p lp).stage still
            (omega (arith, rel, pos)) i small in
      (
        ap (λ n. n.owner) part ∙ rp.counted.owner ∙ sym rg.placed.before,
        ap (λ n. n.times_written) part ∙ rp.counted.written ∙ rel,
      )

  flag_now : (s.store.flags x.flag_to_acquire).counter ≡ raised k0 s.store (from_session g)
  flag_now = ap (λ k. (s.store.flags k).counter) (inv.regular g lt).placed.acquires

  -- The session reads the flag before it.
  pub flag-Orderly :
      (q : List PcOp)
      → let y = record x { acq_flag = s.store.flags x.flag_to_acquire } in
        (x.asked ≡ false → 0 < x.acq_num)
        → AsksFor s.store y q (works g)
        → Orderly k0 (update works g (works g)) (pc_answered s g (s.store, y) q)
  flag-Orderly q asked que =
      let y = record x { acq_flag = s.store.flags x.flag_to_acquire } in
      let r = inv.regular g lt in
      let n = inv.near g lt in
      calm-Orderly inv g lt s.store.parts y q (works g) s.rounds (le_refl s.rounds)
        (record {
          placed = r.placed;
          counted = r.counted;
          unasked = λ e. absurd (omega (arith, asked e, (r.unasked e).1));
        })
        que
        (record {
          lag = n.lag;
          low = n.low;
          high = n.high;
          begun_round = n.begun_round;
          seen = omega (arith, flag_now);
        })
        (λ t. t) (λ h _ lt'. inv.queued h lt')

  -- The session reads a part.
  pub part-Orderly :
      (i : ℕ) (q : List PcOp)
      → let y = record x { node_to_read = s.store.parts (x.r_key + i) } in
        AsksFor s.store y q (works g)
        → Orderly k0 (update works g (works g)) (pc_answered s g (s.store, y) q)
  part-Orderly i q que =
      let y = record x { node_to_read = s.store.parts (x.r_key + i) } in
      let r = inv.regular g lt in
      let n = inv.near g lt in
      calm-Orderly inv g lt s.store.parts y q (works g) s.rounds (le_refl s.rounds)
        (record { placed = r.placed; counted = r.counted; unasked = r.unasked }) que n (λ t. t)
        (λ h _ lt'. inv.queued h lt')

  -- The session writes a part.
  pub write-Orderly :
      (i : ℕ) (q : List PcOp)
      → i < pc_writes_num
      → AsksFor
          (record s.store { parts = update s.store.parts (x.w_key + i) x.node_to_write })
          x
          q
          (works g)
      → Orderly k0
          (update works g (works g))
          (pc_answered s g (pc_perform (write_part (x.w_key + i) x.node_to_write) s.store x) q)
  unfolding pc_perform
  write-Orderly i q small que =
      let n = inv.near g lt in
      calm-Orderly inv g lt (update s.store.parts (x.w_key + i) x.node_to_write) x q (works g)
        s.rounds (le_refl s.rounds) (inv.regular g lt) que n (λ t. t)
        (λ h ne lt'.
          others-AsksFor inv g lt (x.w_key + i) x.node_to_write h
            (λ j lj e. ne (
              omega (
                arith,
                (inv.regular g lt).placed.writes,
                (inv.regular h lt').placed.writes,
                e,
                small,
                lj,
              )))
            lt')

  pub Written-more :
      (i : ℕ)
      → Written s.store x i
      → Written
          (record s.store { parts = update s.store.parts (x.w_key + i) x.node_to_write })
          x
          (i + 1)
  Written-more i d j lj = elim (ℕ_discrete i j) [
    | yes e ↦
        subst
          (λ k. update s.store.parts (x.w_key + i) x.node_to_write (x.w_key + k) ≡ x.node_to_write)
          e (update_same s.store.parts (x.w_key + i) x.node_to_write)
    | no ne ↦
        update_other s.store.parts (x.w_key + i) (x.w_key + j) x.node_to_write
          (λ e. ne (omega (arith, e)))
        ∙ d j (omega (arith, lj, ne))
  ]

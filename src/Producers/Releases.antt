-- ===== src/Producers/Releases.antt =====
-- The release of a flag in client/od_client.c's producer-consumer ring.
use odyssey_lib.Base.{
  at_update, at_updates, update, update_other, update_same, Bool, Bool-cases, List, ap, arith,
  dec_lt, false, inl, inr, refl, subst, sym, true, true-ne_false, ℕ, ℕ_discrete, ◌%◌, ◌+◌, ◌<◌, ◌∙◌,
  ◌≡◌, ◌≢◌, ◌≤◌, ◌⊎◌,
}
use odyssey_lib.Config.{sessions_per_machine}
use odyssey_lib.Producers.{PcOp, PcPtr, from_session}
use odyssey_lib.Producers.Invariant.{HasTurn, Near, Orderly, raised}
use odyssey_lib.Producers.Order.{from_session-ne, from_session-rank, from_session_injective}
use odyssey_lib.Producers.Run.{PcClient, PcStore, Ring}
use odyssey_lib.Producers.Stages.{AsksFor, InRing}
use odyssey_lib.Quorum.Membership.{others}
use odyssey_lib.Treiber.{global_session_num}
use odyssey_lib.Treiber.Count.{bit}

module _ {k0 : ℕ} {works : ℕ → Bool} {s : Ring} (inv : Orderly k0 works s) (g : ℕ)
    (lt : g < global_session_num) (v : PcPtr) (busy : works g ≡ true)
    (up : v.counter ≡ (s.sess g).info.rel_num) where
  abbrev m : PcStore
  m = record s.store { flags = update s.store.flags (k0 + g) v }

  raised_other : (h : ℕ) → g ≢ h → raised k0 m h ≡ raised k0 s.store h
  raised_other h ne =
      ap (λ f. f.counter)
        (update_other s.store.flags (k0 + g) (k0 + h) v (λ e. ne (omega (arith, e))))

  raised_self : raised k0 m g ≡ raised k0 s.store g + 1
  raised_self =
      let n = inv.near g lt in
      let own : raised k0 m g ≡ v.counter =
        ap (λ f. f.counter) (update_same s.store.flags (k0 + g) v) in
      omega (arith, own, up, n.lag, ap bit busy)

  -- The session behind has not had the turn.
  behind :
      (h : ℕ)
      → h < global_session_num
      → g ≢ h
      → from_session h ≡ g
      → (works h ≡ false) × ((s.sess h).info.acq_num ≡ raised k0 s.store g)
  behind h lt' ne e =
      let rank : g % sessions_per_machine ≡ h % sessions_per_machine =
        ap (λ k. k % sessions_per_machine) (sym e) ∙ from_session-rank h lt' in
      let alone = inv.one g h lt lt' rank (inl busy) in
      let low : (s.sess h).info.acq_num ≤ raised k0 s.store g =
        subst (λ k. (s.sess h).info.acq_num ≤ raised k0 s.store k) e (inv.near h lt').low in
      (
        elim (Bool-cases (works h)) [ inl w ↦ absurd (ne (alone (inl w))) | inr w ↦ w ],
        elim (dec_lt (s.sess h).info.acq_num (raised k0 s.store g)) [
          | yes less ↦ absurd (
              ne (
                alone
                  (inr (subst (λ k. (s.sess h).info.acq_num < raised k0 s.store k) (sym e) less))))
          | no not_less ↦ omega (arith, low, not_less)
        ],
      )

  Near-other : (h : ℕ) → g ≢ h → h < global_session_num → Near k0 m h (works h) (s.sess h).info
  Near-other h ne lt' =
      let n = inv.near h lt' in
      let own = raised_other h ne in
      elim (ℕ_discrete (from_session h) g) [
        | yes e ↦
            let b = behind h lt' ne e in
            let now : raised k0 m (from_session h) ≡ raised k0 s.store g + 1 =
              ap (raised k0 m) e ∙ raised_self in
            let was : raised k0 s.store (from_session h) ≡ raised k0 s.store g =
              ap (raised k0 s.store) e in
            record {
              lag = omega (arith, own, n.lag);
              low = omega (arith, now, b.1);
              high = omega (arith, now, b.1);
              begun_round = λ w. absurd (true-ne_false (sym w ∙ b.0));
              seen = omega (arith, now, was, n.seen);
            }
        | no off ↦
            let same = raised_other (from_session h) (λ e. off (sym e)) in
            record {
              lag = omega (arith, own, n.lag);
              low = omega (arith, same, n.low);
              high = omega (arith, same, n.high);
              begun_round = λ w. same ∙ n.begun_round w;
              seen = omega (arith, same, n.seen);
            }
      ]

  Near-self : Near k0 m g false (s.sess g).info
  Near-self =
      let n = inv.near g lt in
      let same = raised_other (from_session g) (from_session-ne g lt) in
      record {
        lag = omega (arith, raised_self, n.lag, ap bit busy);
        low = omega (arith, same, n.low);
        high = omega (arith, same, n.high);
        begun_round = λ w. absurd (true-ne_false (sym w));
        seen = omega (arith, same, n.seen);
      }

  -- Who has the turn now had it before, or comes after the session.
  turns_now :
      (e : PcClient)
      → e.info ≡ (s.sess g).info
      → (j : ℕ) → HasTurn k0 m j (update works g false j) (update s.sess g e j).info
      → (from_session j ≡ g) ⊎ (HasTurn k0 s.store j (works j) (s.sess j).info × (g ≢ j))
  turns_now e is =
      at_updates
        (λ j w c.
          HasTurn k0 m j w c.info
          → (from_session j ≡ g) ⊎ (HasTurn k0 s.store j (works j) (s.sess j).info × (g ≢ j)))
        works s.sess g false e
        (λ t. elim t [
          | inl w ↦ absurd (true-ne_false (sym w))
          | inr less ↦
              let same = raised_other (from_session g) (from_session-ne g lt) in
              absurd (
                omega (arith, less, same, (inv.near g lt).begun_round busy, ap (λ x. x.acq_num) is))
        ])
        (λ j ne t. elim (ℕ_discrete (from_session j) g) [
          | yes e ↦ inl e
          | no off ↦ elim t [
            | inl w ↦ inr (inl w, ne)
            | inr less ↦ inr (
              inr (
                  subst (λ k. (s.sess j).info.acq_num < k)
                    (raised_other (from_session j) (λ e. off (sym e))) less),
              ne,
            )
          ]
        ])

  rank_behind :
      (h : ℕ)
      → h < global_session_num
      → from_session h ≡ g
      → g % sessions_per_machine ≡ h % sessions_per_machine
  rank_behind h lt' e = ap (λ k. k % sessions_per_machine) (sym e) ∙ from_session-rank h lt'

  -- The flag of the session is raised, and its turn goes to the one behind it.
  pub release-Orderly :
      {id n : ℕ → ℕ} (q : List PcOp)
      → AsksFor m (s.sess g).info q false
      → ((h : ℕ)
          → g ≢ h
          → h < global_session_num
          → AsksFor m (s.sess h).info (s.sess h).queue (works h))
      → Orderly k0 (update works g false) (record {
        store = m;
        sess = update s.sess g (record { info = (s.sess g).info; queue = q });
        last_req_id = id;
        last_pushed_req = n;
        rounds = s.rounds;
      })
  release-Orderly q que others =
      let e : PcClient = record { info = (s.sess g).info; queue = q } in
      record {
        regular =
            at_update (λ h c. h < global_session_num → InRing k0 h s.rounds c.info) s.sess g e
              (inv.regular g) (λ h _. inv.regular h);
        queued =
            at_updates (λ h w c. h < global_session_num → AsksFor m c.info c.queue w) works s.sess g
              false e (λ _. que) others;
        near =
            at_updates (λ h w c. h < global_session_num → Near k0 m h w c.info) works s.sess g false
              e (λ _. Near-self) Near-other;
        one = λ h j lh lj same t t'. elim (turns_now e refl h t) [
          | inl eh ↦ elim (turns_now e refl j t') [
            | inl ej ↦ from_session_injective h j lh lj (eh ∙ sym ej)
            | inr (tj, ne) ↦
                absurd (ne (inv.one g j lt lj (rank_behind h lh eh ∙ same) (inl busy) tj))
          ]
          | inr (th, ne) ↦ elim (turns_now e refl j t') [
            | inl ej ↦
                absurd (ne (inv.one g h lt lh (rank_behind j lj ej ∙ sym same) (inl busy) th))
            | inr (tj, _) ↦ inv.one h j lh lj same th tj
          ]
        ];
      }

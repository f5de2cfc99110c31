-- ===== src/Network/Polling/Conserve.antt =====
-- Messages that complete are polled in order, and none is lost when the handler refuses one.
use odyssey_lib.Base.{
  Bool, Bool-cases, ap, arith, false, inl, inr, ltb, ltb→lt, lt→ltb, refl, some, suc, true, u32,
  zero, ℕ, ◌%◌, ◌+◌, ◌-◌, ◌<◌, ◌^◌, ◌∙◌, ◌≡◌, ◌≤◌, ◌⊎◌,
}
use odyssey_lib.Fifo.{Fifo}
use odyssey_lib.Fifo.Inv.{IsValid, fifo_incr_pull_ptr_lem}
use odyssey_lib.Network.Polling.{
  PollQp, ctx_poll_incoming_messages, find_how_many_messages_can_be_polled, not_positive,
  polling_loop,
}

abbrev pub pulled : Fifo → Fifo
pulled f = record f { pull_ptr = (f.pull_ptr + 1) % f.max_size }

-- The handler takes `n` messages, each in the pull slot that the one before leaves.
pub data Takes {App : Type 0} (recv_handler : App → Fifo → App × Bool)
    : ℕ → App → Fifo → App → Fifo → Type 0 where
  none_taken : {a : App} {f : Fifo} → Takes recv_handler 0 a f a f
  one_taken :
      {n : ℕ} {a a1 b : App} {f g : Fifo}
      → recv_handler a f ≡ (a1, true)
      → Takes recv_handler n a1 (pulled f) b g
      → Takes recv_handler (suc n) a f b g

find_how_many_messages_can_be_polled-sum :
    (completions left : ℕ)
    → completions + left < 2 ^ 32
    → find_how_many_messages_can_be_polled completions left ≡ (completions + left, 0)
unfolding find_how_many_messages_can_be_polled
find_how_many_messages_can_be_polled-sum completions zero small = ap (λ k. (k, 0)) (omega arith)
find_how_many_messages_can_be_polled-sum completions (suc left) small =
    let sum32 : u32 (completions + suc left) ≡ completions + suc left = omega (arith, small) in
    rw (lt→ltb 0 (suc left) (omega arith), sum32) refl

not_positive-small : (n : ℕ) → 0 < n → n < 2 ^ 31 → not_positive n ≡ false
unfolding not_positive
not_positive-small n pos small = ground (arith, pos, small)

module _ {App : Type 0} (assertions : Bool) (recv_handler : App → Fifo → App × Bool)
    (recv_kvs : App → App) where
  -- `n` messages more are taken, and then all are, or the handler refuses the next
  record Polled (completed : ℕ) (q q' : PollQp App) (n : ℕ) : Type 0 where
    app : App
    takes : Takes recv_handler n q.app q.recv_fifo app q'.recv_fifo
    number : q'.polled_messages ≡ q.polled_messages + n
    bound : q'.polled_messages ≤ completed
    ends : (q'.polled_messages ≡ completed) ⊎ ((recv_handler app q'.recv_fifo).1 ≡ false)
    receives : q'.posted_recvs ≡ q.posted_recvs

  taken_by : PollQp App → PollQp App
  taken_by q = record q {
    app = (recv_handler q.app q.recv_fifo).0;
    recv_fifo = pulled q.recv_fifo;
    polled_messages = q.polled_messages + 1;
  }

  polling_loop-step :
      (fuel completed : ℕ) (q : PollQp App)
      → ltb q.polled_messages completed ≡ true
      → completed < 2 ^ 32
      → (recv_handler q.app q.recv_fifo).1 ≡ true
      → IsValid q.recv_fifo
      → polling_loop assertions recv_handler recv_kvs (suc fuel) completed q
        ≡ polling_loop assertions recv_handler recv_kvs fuel completed (taken_by q)
  unfolding polling_loop taken_by
  polling_loop-step fuel completed q more small taken v =
      let count : u32 (q.polled_messages + 1) ≡ q.polled_messages + 1 =
        omega (arith, ltb→lt q.polled_messages completed more, small) in
      rw (more, taken, (fifo_incr_pull_ptr_lem v assertions).0, count) refl

  polling_loop-Polled :
      (fuel completed : ℕ) (q : PollQp App)
      → completed < fuel + q.polled_messages
      → completed < 2 ^ 32
      → q.polled_messages ≤ completed
      → IsValid q.recv_fifo
      → (q' : PollQp App) × (n : ℕ) × (polling_loop assertions recv_handler recv_kvs fuel completed
            q
          ≡ some q')
        × Polled completed q q' n
  unfolding polling_loop taken_by
  polling_loop-Polled zero completed q enough small le v = absurd (omega (arith, enough, le))
  polling_loop-Polled (suc fuel) completed q enough small le v =
      elim (Bool-cases (ltb q.polled_messages completed)) [
        | inr all ↦ (
          q,
          0,
          rw all refl,
          record {
            app = q.app;
            takes = none_taken;
            number = omega arith;
            bound = le;
            ends = inl (ground (arith, all, le));
            receives = refl;
          },
        )
        | inl more ↦
            let step = fifo_incr_pull_ptr_lem v assertions in
            let lt = ltb→lt q.polled_messages completed more in
            elim (Bool-cases (recv_handler q.app q.recv_fifo).1) [
              | inr refused ↦ (
                record q { app = (recv_handler q.app q.recv_fifo).0 },
                0,
                rw (more, refused) refl,
                record {
                  app = q.app;
                  takes = none_taken;
                  number = omega arith;
                  bound = le;
                  ends = inr refused;
                  receives = refl;
                },
              )
              | inl taken ↦
                  let (q', n, run, p) =
                    polling_loop-Polled fuel completed (taken_by q) (omega (arith, enough)) small
                      (omega (arith, lt)) step.1 in
                  let here : recv_handler q.app q.recv_fifo
                      ≡ ((recv_handler q.app q.recv_fifo).0, true) =
                    ap (λ b. ((recv_handler q.app q.recv_fifo).0, b)) taken in
                  (
                    q',
                    suc n,
                    polling_loop-step fuel completed q more small taken v ∙ run,
                    record {
                      app = p.app;
                      takes = one_taken here p.takes;
                      number = omega (arith, p.number);
                      bound = p.bound;
                      ends = p.ends;
                      receives = p.receives;
                    },
                  )
            ]
      ]

  -- With a valid fifo, when messages completed, now or before (no more than receives are posted,
  -- fewer than 2^31), a call takes some of them in the order of the fifo and leaves the others for
  -- the next call: together they are as many as completed. It stops only when none is left or the
  -- handler refuses one, and the receives of those taken are used up.
  pub ctx_poll_incoming_messages-Polled :
      (completions : ℕ) (q : PollQp App)
      → 0 < completions + q.completed_but_not_polled
      → completions + q.completed_but_not_polled ≤ q.posted_recvs
      → q.posted_recvs < 2 ^ 31
      → IsValid q.recv_fifo
      → (q' : PollQp App) × (n : ℕ) × (app : App) × (ctx_poll_incoming_messages assertions
            recv_handler recv_kvs completions q
          ≡ some q')
        × Takes recv_handler n q.app q.recv_fifo app q'.recv_fifo
        × (n + q'.completed_but_not_polled ≡ completions + q.completed_but_not_polled)
        × ((q'.completed_but_not_polled ≡ 0) ⊎ ((recv_handler app q'.recv_fifo).1 ≡ false))
        × (q'.posted_recvs + n ≡ q.posted_recvs)
  unfolding ctx_poll_incoming_messages
  ctx_poll_incoming_messages-Polled completions q some_mes recvs small v =
      let total = completions + q.completed_but_not_polled in
      let found =
        find_how_many_messages_can_be_polled-sum completions q.completed_but_not_polled
          (omega (arith, recvs, small)) in
      let some_total : not_positive total ≡ false =
        not_positive-small total some_mes (omega (arith, recvs, small)) in
      let (q1, n, run, p) =
        polling_loop-Polled (total + 1) total
          (record q { completed_but_not_polled = 0; polled_messages = 0 }) (omega arith)
          (omega (arith, recvs, small)) (omega arith) v in
      let left : u32 (total + 2 ^ 32 - q1.polled_messages) ≡ total - q1.polled_messages =
        omega (arith, p.bound, recvs, small) in
      let fewer : u32 (q1.posted_recvs + 2 ^ 32 - q1.polled_messages)
          ≡ q1.posted_recvs - q1.polled_messages =
        omega (arith, p.bound, p.receives, recvs, small) in
      let ends : (total - q1.polled_messages ≡ 0) ⊎ ((recv_handler p.app q1.recv_fifo).1 ≡ false) =
        elim p.ends [ inl all ↦ inl (omega (arith, all)) | inr refused ↦ inr refused ] in
      let shared : (n + (total - q1.polled_messages) ≡ total)
          × (q1.posted_recvs - q1.polled_messages + n ≡ q.posted_recvs) =
        (omega (arith, p.number, p.bound), omega (arith, p.number, p.bound, p.receives, recvs)) in
      elim (Bool-cases (ltb 0 q1.polled_messages)) [
        | inl some_taken ↦
            rw (found, some_total, run, left, fewer, some_taken)
              (_, n, p.app, refl, p.takes, shared.0, ends, shared.1)
        | inr nothing ↦
            rw (found, some_total, run, left, fewer, nothing)
              (_, n, p.app, refl, p.takes, shared.0, ends, shared.1)
      ]

-- ===== src/Network/Broadcast/Send.antt =====
-- `ctx_send_broadcasts` as a whole: the fifo, the credits and the quorum together.
use odyssey_lib.Base.{
  Bool, List, [], ap, arith, assert_if-true, false, get_or, get_or-set_self, if◌then◌else◌, length,
  le→leb, ltb, lt→ltb, min, refl, set, some, subst, suc, sym, zero, ℕ, ◌++◌, ◌+◌, ◌<◌, ◌==◌, ◌^◌,
  ◌∙◌, ◌≡◌, ◌≤◌,
}
use odyssey_lib.Fifo.Send.Queue.{Positive-sum, sum}
use odyssey_lib.Fifo.Send.Refine.{Holds}
use odyssey_lib.Network.{Verb}
use odyssey_lib.Network.Broadcast.{
  credits_of, ctx_send_broadcasts, finish_broadcasts, post_batch, send_available, with_credits,
}
use odyssey_lib.Network.Broadcast.Drain.{broadcast_loop-Drained, drop}
use odyssey_lib.Network.Broadcast.Post.{CanPost, Setting, post_batch-CanPost, setting}
use odyssey_lib.Network.Links.{BcastQp}
use odyssey_lib.Quorum.{QuorumInfo}
use odyssey_lib.Quorum.Credits.{CreditCheck, check_bcast_credits, decrease_credits}
use odyssey_lib.Quorum.Credits.Enough.{check_bcast_credits-Enough}
use odyssey_lib.Quorum.Credits.Kept.{check_bcast_credits-credit_ptrs}
use odyssey_lib.Quorum.Credits.Spend.{Spendable, Spent, decrease_credits-Spent}

module _ (machine_id : ℕ) (assertions enable_multicast : Bool) (send_helper : List ℕ → List ℕ) where
  abbrev pub Members : QuorumInfo → List ℕ → ℕ → Type 0
  Members q credits n = Spendable machine_id q.active_ids n credits 0 q.active_num

  enough-Members :
      (q : QuorumInfo) (credits : List ℕ) (n : ℕ)
      → Members q credits 0
      → ((k : ℕ) → k < q.active_num → n ≤ get_or credits (get_or q.active_ids k 0) 0)
      → Members q credits n
  enough-Members q credits n m h = record {
    remote = m.remote;
    known = m.known;
    distinct = m.distinct;
    enough = λ k x y. h k (omega (arith, y));
    small = m.small;
    known_credits = m.known_credits;
  }

  -- the members of the setting that the credits depend on
  abbrev credits_in : Setting → List ℕ
  credits_in s = get_or s.0.credit_ptrs s.1 []

  Paid : Setting → ℕ → List ℕ → Type 0
  Paid s n credits = Spent machine_id s.0.active_ids n (credits_in s) credits 0 s.0.active_num

  pay :
      (c : BcastQp) (n : ℕ)
      → Members c.q_info (credits_in (setting c)) n
      → (credits : List ℕ) × ((if ltb 0 n
            then decrease_credits machine_id assertions (credits_in (setting c)) c.q_info n
            else some (credits_in (setting c)))
          ≡ some credits)
        × Paid (setting c) n credits
  unfolding Paid
  pay c zero m =
      (credits_in (setting c), refl, record { paid = λ k x y. omega arith; kept = λ k h. refl })
  pay c (suc n) m =
      let (credits, run, spent) =
        decrease_credits-Spent machine_id assertions (credits_in (setting c)) c.q_info (suc n) m in
      (credits, rw (lt→ltb 0 (suc n) (omega arith)) run, spent)

  post_rest :
      (br_i : ℕ) (c : BcastQp)
      → CanPost c
      → (c1 : BcastQp) × (v : List Verb) × ((if ltb 0 br_i
            then post_batch machine_id assertions enable_multicast br_i c
            else some (c, []))
          ≡ some (c1, v))
        × CanPost c1
        × (setting c1 ≡ setting c)
        × (c1.send_fifo ≡ c.send_fifo)
  post_rest zero c p = (c, [], refl, p, refl, refl)
  post_rest (suc br_i) c p =
      let (c1, v, run, p1, same, fifo) =
        post_batch-CanPost assertions enable_multicast machine_id (suc br_i) c p (omega arith) in
      (c1, v, rw (lt→ltb 0 (suc br_i) (omega arith)) run, p1, same, fifo)

  -- what the tail of `ctx_send_broadcasts` leaves
  finish_broadcasts-Paid :
      (br_i n : ℕ) (c : BcastQp) {q : List ℕ}
      → Holds c.send_fifo q
      → CanPost c
      → Members c.q_info (credits_in (setting c)) n
      → c.b < length c.q_info.credit_ptrs
      → (c' : BcastQp) × (v : List Verb) × (finish_broadcasts machine_id assertions enable_multicast
            br_i n c
          ≡ some (c', v))
        × Holds c'.send_fifo q
        × CanPost c'
        × Paid (setting c) n (credits_of machine_id assertions enable_multicast c')
  unfolding finish_broadcasts
  finish_broadcasts-Paid br_i n c {q} h p m at =
      let (c1, v, run, p1, same, fifo) = post_rest br_i c p in
      let m1 : Members c1.q_info (credits_in (setting c1)) n =
        subst (λ (s : Setting). Members s.0 (credits_in s) n) (sym same) m in
      let (credits, paid, spent) = pay c1 n m1 in
      let within =
        assert_if-true assertions (le→leb c1.recv_info.posted_recvs c1.recv_wr_num p1.within) in
      let at1 : c1.b < length c1.q_info.credit_ptrs =
        subst (λ (s : Setting). s.1 < length s.0.credit_ptrs) (sym same) at in
      let stored : get_or (set c1.q_info.credit_ptrs c1.b credits) c1.b [] ≡ credits =
        get_or-set_self c1.q_info.credit_ptrs c1.b credits [] at1 in
      (
        with_credits machine_id assertions enable_multicast c1 credits,
        v,
        rw (run, within, paid) refl,
        subst (λ f. Holds f q) (sym fifo) h,
        record { ring = p1.ring; within = p1.within; few = p1.few; signals = p1.signals },
        subst (Paid (setting c) n) (sym stored) (subst (λ s. Paid s n credits) same spent),
      )

  -- the loop and what follows it
  loop_and_finish :
      (c : BcastQp) {q : List ℕ} (a : ℕ)
      → Holds c.send_fifo q
      → sum q < 2 ^ 32
      → CanPost c
      → a < 2 ^ 16
      → Members c.q_info (credits_in (setting c)) 0
      → ((k : ℕ)
          → k < c.q_info.active_num
          → a ≤ get_or (credits_in (setting c)) (get_or c.q_info.active_ids k 0) 0)
      → c.b < length c.q_info.credit_ptrs
      → (c' : BcastQp) × (v : List Verb) × (send_available machine_id assertions enable_multicast
            send_helper a c
          ≡ some (c', v))
        × Holds c'.send_fifo (drop (min (length q) a) q)
        × Paid (setting c) (min (length q) a) (credits_of machine_id assertions enable_multicast c')
  loop_and_finish c {q} a h short p small members enough at =
      let (c2, v, br, n, run, count, h2, p2, set2, few) =
        broadcast_loop-Drained machine_id assertions enable_multicast send_helper q
          (c.send_fifo.net_capacity + 1) a 0 0 c (omega (arith, h.net)) short small (omega arith) h
          p (omega arith) in
      let zero_add : 0 + n ≡ n = omega arith in
      let e : n ≡ min (length q) a = count ∙ omega arith in
      let m2 : Members c2.q_info (credits_in (setting c2)) n =
        subst (λ (s : Setting). Members s.0 (credits_in s) n) (sym set2)
          (enough-Members c.q_info (credits_in (setting c)) n members
            (λ k x. omega (arith, enough k x, e))) in
      let at2 : c2.b < length c2.q_info.credit_ptrs =
        subst (λ (s : Setting). s.1 < length s.0.credit_ptrs) (sym set2) at in
      let (c3, w, ends, h3, p3, paid) = finish_broadcasts-Paid br n c2 h2 p2 m2 at2 in
      (
        c3,
        v ++ w,
        rw (run, zero_add, ends) refl,
        subst (λ k. Holds c3.send_fifo (drop k q)) e h3,
        subst (λ k. Paid (setting c) k (credits_of machine_id assertions enable_multicast c3)) e
            (subst (λ s. Paid s n (credits_of machine_id assertions enable_multicast c3)) set2
              paid),
      )

  -- When the fifo holds at least one batch and fewer than 2^32 messages, receives can be posted, and
  -- `check_bcast_credits` reports fewer than 2^16 credits and leaves distinct remote machines active,
  -- `ctx_send_broadcasts` returns with no assertion failed. It has sent the batches at the head of the
  -- fifo, as many as there are and as the credits allow, and taken that many credits from each
  -- machine left active, and none from the others.
  pub ctx_send_broadcasts-Paid :
      (c : BcastQp) {q : List ℕ} (r : CreditCheck) (a : ℕ)
      → Holds c.send_fifo q
      → 0 < length q
      → sum q < 2 ^ 32
      → CanPost c
      → check_bcast_credits machine_id assertions enable_multicast
          (credits_in (setting c))
          c.q_info
          c.time_out_cnt
          1
        ≡ some r
      → r.available ≡ some a
      → a < 2 ^ 16
      → Members r.q_info (credits_in (setting c)) 0
      → c.b < length c.q_info.credit_ptrs
      → (c' : BcastQp) × (v : List Verb) × (ctx_send_broadcasts machine_id assertions
            enable_multicast send_helper c
          ≡ some (c', v))
        × Holds c'.send_fifo (drop (min (length q) a) q)
        × Spent machine_id r.q_info.active_ids
            (min (length q) a)
            (credits_in (setting c))
            (credits_of machine_id assertions enable_multicast c')
            0
            r.q_info.active_num
  unfolding ctx_send_broadcasts Paid
  ctx_send_broadcasts-Paid c {q} r a h some_q short p check available small members at =
      let c1 : BcastQp = record c { q_info = r.q_info; time_out_cnt = r.time_out_cnt } in
      let p1 : CanPost c1 = record {
        ring = p.ring;
        within = p.within;
        few = p.few;
        signals = p.signals;
      } in
      let unchanged : r.q_info.credit_ptrs ≡ c.q_info.credit_ptrs =
        check_bcast_credits-credit_ptrs machine_id assertions enable_multicast
          (credits_in (setting c)) c.q_info c.time_out_cnt 1 r a check available in
      let same : get_or r.q_info.credit_ptrs c.b [] ≡ credits_in (setting c) =
        ap (λ x. get_or x c.b []) unchanged in
      let enough =
        (check_bcast_credits-Enough machine_id assertions enable_multicast (credits_in (setting c))
          c.q_info c.time_out_cnt 1 r a check available).1 in
      let (c2, v, run, h2, paid) =
        loop_and_finish c1 a h short p1 small (subst (λ x. Members r.q_info x 0) (sym same) members)
          (subst
            (λ x.
              (k : ℕ) → k < r.q_info.active_num → a ≤ get_or x (get_or r.q_info.active_ids k 0) 0)
            (sym same) enough)
          (subst (λ x. c.b < length x) (sym unchanged) at) in
      let some_net : (c.send_fifo.net_capacity == 0) ≡ false =
        ground (arith, h.net, Positive-sum q h.positive some_q) in
      (
        c2,
        v,
        rw (some_net, check, available) run,
        h2,
        subst
            (λ x.
              Spent machine_id r.q_info.active_ids (min (length q) a) x
                (credits_of machine_id assertions enable_multicast c2) 0 r.q_info.active_num)
            same paid,
      )

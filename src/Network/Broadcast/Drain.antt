-- ===== src/Network/Broadcast/Drain.antt =====
-- The loop of `ctx_send_broadcasts` on a send fifo that holds a queue of batches.
use odyssey_lib.Base.{
  Bool, Bool-cases, List, [], ap, arith, false, get_or, if◌then◌else◌, inl, inr, length, ltb,
  ltb→lt, lt→ltb, min, refl, set, some, subst, suc, sym, true, u16, zero, ℕ, ◌&&◌, ◌*◌, ◌++◌, ◌+◌,
  ◌-◌, ◌<◌, ◌==◌, ◌>>=◌, ◌^◌, ◌∙◌, ◌∷◌, ◌≡◌, ◌≤◌,
}
use odyssey_lib.Config.{max_bcast_batch}
use odyssey_lib.Fifo.{Fifo, SlotMeta, blank_meta, get_fifo_pull_slot}
use odyssey_lib.Fifo.Inv.{get_fifo_slot_private_lem}
use odyssey_lib.Fifo.Send.Dispatch.{fifo_send_from_pull_slot-Holds}
use odyssey_lib.Fifo.Send.Messages.{helper-IsValid}
use odyssey_lib.Fifo.Send.Queue.{sum}
use odyssey_lib.Fifo.Send.Refine.{Holds}
use odyssey_lib.Fifo.Send.Steps.{get_fifo_slot_meta_pull_lem}
use odyssey_lib.Network.{Sge, Verb, put}
use odyssey_lib.Network.Broadcast.{broadcast_loop, ctx_forge_bcast_wr, send_one}
use odyssey_lib.Network.Broadcast.Post.{
  CanPost, CanPost-same, Outer, form_bcast_links-outer, post_batch-CanPost, setting,
}
use odyssey_lib.Network.Links.{BcastQp}

-- Changing the messages in the buffer keeps the queue.
pub helped-Holds :
    (send_helper : List ℕ → List ℕ) {f : Fifo} {q : List ℕ}
    → Holds f q
    → Holds (record f { fifo = f.fifo >>= λ cells. some (send_helper cells) }) q
helped-Holds send_helper {f} {q} h = record {
  valid = helper-IsValid (λ ptr cells. send_helper cells) 0 h.valid;
  metas = h.metas;
  has = h.has;
  len = h.len;
  count = h.count;
  net = h.net;
  place = h.place;
  batches = h.batches;
  positive = h.positive;
  fits = h.fits;
  resp = h.resp;
  header = h.header;
  idle = h.idle;
}

-- The address of the pull slot, and the length of what it holds.
abbrev pub pulled_sge : Fifo → List SlotMeta → Sge
pulled_sge f metas = record {
  addr = f.slot_size * f.pull_ptr + 0;
  len = (get_or metas f.pull_ptr blank_meta).byte_size;
}

unfoldable pub drop : ℕ → List ℕ → List ℕ
drop zero q = q
drop (suc n) [] = []
drop (suc n) (x ∷ q) = drop n q

module _ (machine_id : ℕ) (assertions enable_multicast : Bool) (send_helper : List ℕ → List ℕ) where
  send_one-Holds :
      (br_i : ℕ) (c : BcastQp) {x : ℕ} {q : List ℕ} (h : Holds c.send_fifo (x ∷ q))
      → sum (x ∷ q) < 2 ^ 32
      → CanPost c
      → (c' : BcastQp) × (v : List Verb) × (send_one machine_id assertions enable_multicast
            send_helper br_i c
          ≡ some (c', v))
        × Holds c'.send_fifo q
        × CanPost c'
        × (setting c' ≡ setting c)
        × (c'.sgl ≡ put c.sgl br_i (pulled_sge c.send_fifo h.metas))
  unfolding send_one ctx_forge_bcast_wr get_fifo_pull_slot
  send_one-Holds br_i c {x} {q} h short p =
      let f = c.send_fifo in
      let g : Fifo = record f { fifo = f.fifo >>= λ cells. some (send_helper cells) } in
      let hg = helped-Holds send_helper h in
      let m = get_fifo_slot_meta_pull_lem assertions hg.valid h.metas h.has h.len in
      let a =
        get_fifo_slot_private_lem hg.valid assertions f.pull_ptr 0 hg.valid.pull_in
          hg.valid.sized in
      let c0 : BcastQp = record c { send_fifo = g; sgl = put c.sgl br_i (pulled_sge f h.metas) } in
      let (c1, v, formed, same) =
        form_bcast_links-outer assertions enable_multicast br_i c0 p.signals in
      let (f', sent, held) =
        fifo_send_from_pull_slot-Holds assertions q hg (omega (arith, hg.net, short)) in
      let fifo : c1.send_fifo ≡ g = ap (λ (o : Outer). o.1) same in
      let info : c1.recv_info ≡ c.recv_info = ap (λ (o : Outer). o.2) same in
      let around : setting c1 ≡ setting c = ap (λ (o : Outer). o.0) same in
      (
        record c1 { send_fifo = f' },
        v,
        rw (m, a.0, formed, fifo, sent) refl,
        held,
        CanPost-same info around p,
        around,
        ap (λ (o : Outer). o.3) same,
      )

  -- The loop ends with `q'` left when it has sent the others.
  abbrev pub Drained : ℕ → ℕ → ℕ → ℕ → BcastQp → List ℕ → Type 0
  Drained fuel available_credits br_i mes_sent c q =
      (c' : BcastQp) × (v : List Verb) × (br : ℕ) × (n : ℕ) × (broadcast_loop machine_id assertions
          enable_multicast send_helper fuel available_credits br_i mes_sent c
        ≡ some (c', v, br, mes_sent + n))
      × (n ≡ min (length q) (available_credits - mes_sent))
      × Holds c'.send_fifo (drop n q)
      × CanPost c'
      × (setting c' ≡ setting c)
      × (br < max_bcast_batch)

  stop-Drained :
      (fuel available_credits br_i mes_sent : ℕ) (c : BcastQp) (q : List ℕ)
      → (ltb 0 c.send_fifo.net_capacity && ltb mes_sent available_credits) ≡ false
      → min (length q) (available_credits - mes_sent) ≡ 0
      → Holds c.send_fifo q
      → CanPost c
      → br_i < max_bcast_batch
      → Drained (suc fuel) available_credits br_i mes_sent c q
  unfolding broadcast_loop drop
  stop-Drained fuel a br_i mes_sent c q stop none_left h p br = (
    c,
    [],
    br_i,
    0,
    rw stop (ap (λ k. some (c, [], br_i, k)) (omega arith)),
    sym none_left,
    h,
    p,
    refl,
    br,
  )

  -- What the round does is passed on to the rest of the loop.
  round-Drained :
      (fuel a br_i mes_sent : ℕ) (c c2 : BcastQp) (v : List Verb → List Verb) (x : ℕ) (q : List ℕ)
      → mes_sent < a
      → setting c2 ≡ setting c
      → ((c' : BcastQp) (w : List Verb) (br n : ℕ)
          → broadcast_loop machine_id assertions enable_multicast send_helper fuel a
              (if br_i + 1 == max_bcast_batch then 0 else br_i + 1)
              (mes_sent + 1)
              c2
            ≡ some (c', w, br, n)
          → broadcast_loop machine_id assertions enable_multicast send_helper
              (suc fuel)
              a
              br_i
              mes_sent
              c
            ≡ some (c', v w, br, n))
      → Drained fuel a (if br_i + 1 == max_bcast_batch then 0 else br_i + 1) (mes_sent + 1) c2 q
      → Drained (suc fuel) a br_i mes_sent c (x ∷ q)
  unfolding drop
  round-Drained fuel a br_i mes_sent c c2 v x q lt same step
        (c', w, br, n, run, count, held, p, set, few) =
      let e : mes_sent + 1 + n ≡ mes_sent + suc n = omega arith in
      (
        c',
        v w,
        br,
        suc n,
        step c' w br (mes_sent + 1 + n) run ∙ ap (λ k. some (c', v w, br, k)) e,
        omega (arith, count, lt),
        held,
        p,
        set ∙ same,
        few,
      )

  pub broadcast_loop-Drained :
      (q : List ℕ) (fuel available_credits br_i mes_sent : ℕ) (c : BcastQp)
      → sum q < fuel
      → sum q < 2 ^ 32
      → available_credits < 2 ^ 16
      → mes_sent ≤ available_credits
      → Holds c.send_fifo q
      → CanPost c
      → br_i < max_bcast_batch
      → Drained fuel available_credits br_i mes_sent c q
  unfolding broadcast_loop
  broadcast_loop-Drained q zero a br_i mes_sent c enough short small le h p br =
      absurd (omega arith)
  broadcast_loop-Drained [] (suc fuel) a br_i mes_sent c enough short small le h p br =
      let none_left : ltb 0 c.send_fifo.net_capacity ≡ false = ground (arith, h.net) in
      stop-Drained fuel a br_i mes_sent c [] (rw none_left refl) (omega arith) h p br
  broadcast_loop-Drained (x ∷ q) (suc fuel) a br_i mes_sent c enough short small le h p br =
      let some_left : ltb 0 c.send_fifo.net_capacity ≡ true =
        lt→ltb 0 _ (omega (arith, h.net, h.positive)) in
      elim (Bool-cases (ltb mes_sent a)) [
        | inr spent ↦
            stop-Drained fuel a br_i mes_sent c (x ∷ q) (rw (some_left, spent) refl)
              (ground (arith, spent)) h p br
        | inl more ↦
            let (c1, v1, one, h1, p1, set1, sgl1) = send_one-Holds br_i c h short p in
            let lt = ltb→lt mes_sent a more in
            let count : u16 (mes_sent + 1) ≡ mes_sent + 1 = omega (arith, lt, small) in
            elim (Bool-cases (br_i + 1 == max_bcast_batch)) [
              | inl full ↦
                  let (c2, v2, posted, p2, set2, fifo2) =
                    post_batch-CanPost assertions enable_multicast machine_id (br_i + 1) c1 p1
                      (omega arith) in
                  let h2 : Holds c2.send_fifo q = subst (λ f. Holds f q) (sym fifo2) h1 in
                  let rest =
                    broadcast_loop-Drained q fuel a 0 (mes_sent + 1) c2
                      (omega (arith, enough, h.positive)) (omega (arith, short)) small
                      (omega (arith, lt)) h2 p2 (omega arith) in
                  round-Drained fuel a br_i mes_sent c c2 (λ w. v1 ++ v2 ++ w) x q lt (set2 ∙ set1)
                    (λ c' w br' n run.
                      rw (some_left, more, one, full, posted, count, rw full at run) refl)
                    (rw full rest)
              | inr room ↦
                  let rest =
                    broadcast_loop-Drained q fuel a (br_i + 1) (mes_sent + 1) c1
                      (omega (arith, enough, h.positive)) (omega (arith, short)) small
                      (omega (arith, lt)) h1 p1 (ground (arith, room)) in
                  round-Drained fuel a br_i mes_sent c c1 (λ w. v1 ++ [] ++ w) x q lt set1
                    (λ c' w br' n run. rw (some_left, more, one, room, count, rw room at run) refl)
                    (rw room rest)
            ]
      ]

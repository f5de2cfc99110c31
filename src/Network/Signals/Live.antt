-- ===== src/Network/Signals/Live.antt =====
-- The signalling of the queue pairs that `create_per_qp_meta` sets up.
use odyssey_lib.Base.{
  Bool, Bool-cases, List, [], ap, arith, inl, inr, none-ne_some, some, some_injective, subst, sym,
  true, true-ne_false, u32, ℕ, ◌+◌, ◌-◌, ◌<◌, ◌==◌, ◌^◌, ◌∙◌, ◌∷◌, ◌≡◌, ◌≤◌,
}
use odyssey_lib.Config.{max_bcast_batch}
use odyssey_lib.Fifo.Send.Queue.{sum}
use odyssey_lib.Network.Setup.{
  FlowType, QpMeta, bcast_depth, is_bcast, is_unicast, qp_meta_ss_batch_q_depth, recv_credits,
  send_bcast_ldr_recv_uni, send_bcast_recv_bcast, send_bcast_recv_uni, unicast_depth,
}
use odyssey_lib.Network.Signals.{
  AtMost, Call, SendQueue, bcast_call, form_batches, fresh, unicast_call,
}
use odyssey_lib.Network.Signals.Serve.{
  Regular, bcast-Regular, form_batches-Sound, fresh-Sound, unicast-Regular,
}

AtMost-mono : {d e : ℕ} (ns : List ℕ) → d ≤ e → AtMost d ns → AtMost e ns
AtMost-mono [] le few = tt
AtMost-mono (n ∷ ns) le few = (omega (arith, le, few.0), AtMost-mono ns le few.1)

-- what the model of the network card ends in
abbrev Served : Call → List ℕ → Type 0
Served call ns =
    (l : SendQueue) × (form_batches call ns fresh ≡ some l) × (l.tx ≡ sum ns) × (l.pending ≤ 1)

Regular-Served :
    (ss d : ℕ) (some_d : 0 < d) (within : d < ss) (call : Call) (ns : List ℕ)
    → Regular ss d call
    → AtMost d ns
    → sum ns < 2 ^ 64
    → Served call ns
Regular-Served ss d some_d within call ns regular few short =
    let (l, run, count, o) =
      form_batches-Sound ss d some_d within call regular ns fresh few (omega (arith, short))
        (fresh-Sound ss d some_d within call regular) in
    (l, run, count ∙ omega arith, ground (arith, o.one))

bcast_depth-large :
    (q sized : QpMeta) → bcast_depth q ≡ some sized → max_bcast_batch + 2 ≤ sized.ss_batch
bcast_depth-large q sized run = elim (Bool-cases (q.receipient_num == 0)) [
  | inl nobody ↦ absurd (none-ne_some (rw nobody at run))
  | inr some_one ↦
      let e = ap (λ (t : QpMeta). t.ss_batch) (some_injective (rw some_one at run)) in
      subst (λ k. max_bcast_batch + 2 ≤ k) e (ground arith)
]

unicast_depth-large :
    (q sized : QpMeta)
    → q.send_wr_num + 2 < 2 ^ 32
    → some (unicast_depth q) ≡ some sized
    → (q.send_wr_num + 2 ≤ sized.ss_batch) × (2 < sized.ss_batch)
unicast_depth-large q sized fit run =
    let e = ap (λ (t : QpMeta). t.ss_batch) (some_injective run) in
    let same : u32 (q.send_wr_num + 2) ≡ q.send_wr_num + 2 = omega (arith, fit) in
    subst (λ k. (q.send_wr_num + 2 ≤ k) × (2 < k)) e (rw same (ground arith, ground arith))

bcast_ss_batch :
    (q sized : QpMeta) (t : FlowType)
    → is_bcast t ≡ true
    → qp_meta_ss_batch_q_depth (record q { flow_type = t }) ≡ some sized
    → max_bcast_batch + 2 ≤ sized.ss_batch
unfolding qp_meta_ss_batch_q_depth
bcast_ss_batch q sized send_bcast_ldr_recv_uni b run =
    bcast_depth-large (record q { flow_type = send_bcast_ldr_recv_uni }) sized run
bcast_ss_batch q sized send_bcast_recv_uni b run =
    bcast_depth-large (record q { flow_type = send_bcast_recv_uni }) sized run
bcast_ss_batch q sized send_bcast_recv_bcast b run =
    bcast_depth-large (record q { flow_type = send_bcast_recv_bcast }) sized run
bcast_ss_batch q sized _ b run = absurd (true-ne_false (sym b))

uni_ss_batch :
    (q sized : QpMeta) (t : FlowType)
    → is_unicast t ≡ true
    → q.send_wr_num + 2 < 2 ^ 32
    → qp_meta_ss_batch_q_depth (record q { flow_type = t }) ≡ some sized
    → (q.send_wr_num + 2 ≤ sized.ss_batch) × (2 < sized.ss_batch)
unfolding qp_meta_ss_batch_q_depth
uni_ss_batch q sized recv_credits b fit run = absurd (true-ne_false (sym b))
uni_ss_batch q sized send_bcast_ldr_recv_uni b fit run = absurd (true-ne_false (sym b))
uni_ss_batch q sized send_bcast_recv_uni b fit run = absurd (true-ne_false (sym b))
uni_ss_batch q sized send_bcast_recv_bcast b fit run = absurd (true-ne_false (sym b))
uni_ss_batch q sized t b fit run = unicast_depth-large (record q { flow_type = t }) sized fit run

-- On a queue pair set up for broadcasts, whatever the number of recipients, batches of at most
-- MAX_BCAST_BATCH broadcasts that are formed and posted one after another never wait for a completion
-- that does not come, as long as fewer than 2^64 broadcasts are sent.
pub bcast_signals-Served :
    (q sized : QpMeta) (ns : List ℕ)
    → is_bcast q.flow_type ≡ true
    → qp_meta_ss_batch_q_depth q ≡ some sized
    → AtMost max_bcast_batch ns
    → sum ns < 2 ^ 64
    → (l : SendQueue) × (form_batches (bcast_call sized.ss_batch) ns fresh ≡ some l)
      × (l.tx ≡ sum ns)
      × (l.pending ≤ 1)
bcast_signals-Served q sized ns bcast run few short =
    let large = bcast_ss_batch q sized q.flow_type bcast run in
    Regular-Served sized.ss_batch (sized.ss_batch - 2) (omega (arith, large)) (omega (arith, large))
      (bcast_call sized.ss_batch) ns (bcast-Regular sized.ss_batch (omega (arith, large)))
      (AtMost-mono ns (omega (arith, large)) few) short

-- On a queue pair set up for unicasts, with a `send_wr_num` that leaves room for two in 32 bits, batches
-- of at most `send_wr_num` messages (the bound that `ctx_forge_unicast_wr` asserts) that are formed and
-- posted one after another never wait for a completion that does not come, as long as fewer than 2^64
-- messages are sent.
pub selective_signaling_for_unicast-Served :
    (q sized : QpMeta) (allow_inline : Bool) (ns : List ℕ)
    → is_unicast q.flow_type ≡ true
    → q.send_wr_num + 2 < 2 ^ 32
    → qp_meta_ss_batch_q_depth q ≡ some sized
    → AtMost q.send_wr_num ns
    → sum ns < 2 ^ 64
    → (l : SendQueue) × (form_batches (unicast_call sized.ss_batch allow_inline) ns fresh ≡ some l)
      × (l.tx ≡ sum ns)
      × (l.pending ≤ 1)
selective_signaling_for_unicast-Served q sized allow_inline ns uni fit run few short =
    let (large, three) = uni_ss_batch q sized q.flow_type uni fit run in
    Regular-Served sized.ss_batch (sized.ss_batch - 1) (omega (arith, three)) (omega (arith, three))
      (unicast_call sized.ss_batch allow_inline) ns
      (unicast-Regular sized.ss_batch allow_inline (omega (arith, three)))
      (AtMost-mono ns (omega (arith, large)) few) short

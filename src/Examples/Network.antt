-- ===== src/Examples/Network.antt =====
-- The theorems about receives, broadcasts and signals at concrete inputs.
use odyssey_lib.Base.{
  List, [], arith, false, get_or, refl, some, true, ◌<◌, ◌^◌, ◌∷◌, ◌≡◌, ◌≢◌, ◌≤◌,
}
use odyssey_lib.Config.{machine_num}
use odyssey_lib.Examples.Machines.{below_two, pair, pair_distinct, some_credits}
use odyssey_lib.Examples.Queues.{two_queued, two_queued-Holds}
use odyssey_lib.Fifo.Send.Refine.{Holds}
use odyssey_lib.Network.{RecvInfo, RecvWr, Verb, post_recv, post_recvs_with_recv_info}
use odyssey_lib.Network.Broadcast.{credits_of, ctx_send_broadcasts}
use odyssey_lib.Network.Broadcast.Drain.{drop}
use odyssey_lib.Network.Broadcast.Post.{CanPost}
use odyssey_lib.Network.Broadcast.Send.{Members, ctx_send_broadcasts-Paid}
use odyssey_lib.Network.Links.{BcastQp}
use odyssey_lib.Network.Receives.{IsRing, linked_from, moved, post_recvs_with_recv_info-posts}
use odyssey_lib.Network.Setup.{
  QpMeta, blank_qp, qp_meta_ss_batch_q_depth, send_bcast_recv_uni, send_uni_req_recv_ldr_rep,
}
use odyssey_lib.Network.Signals.{SendQueue, bcast_call, form_batches, fresh, unicast_call}
use odyssey_lib.Network.Signals.Live.{bcast_signals-Served, selective_signaling_for_unicast-Served}
use odyssey_lib.Quorum.{QuorumInfo}
use odyssey_lib.Quorum.Credits.{
  CreditCheck, active_short, actives_ok, check_bcast_credits, count_credits, least_credits,
  revive_missing,
}
use odyssey_lib.Quorum.Credits.Spend.{Spent}

abbrev pub recvs : RecvInfo
recvs = record { push_ptr = 6; buf_slots = 8; slot_size = 64; posted_recvs = 5 }

pub recvs-IsRing : IsRing recvs
recvs-IsRing = record { inside = omega arith; small = omega arith; few = omega arith }

post_recvs_with_recv_info-posts_example :
    (recv_wr : List RecvWr) × (post_recvs_with_recv_info true recvs 3
      ≡ some (record (moved recvs recvs-IsRing 3) { posted_recvs = 8 }, post_recv recv_wr ∷ []))
    × (linked_from 3 recv_wr 0 ≡ some (384 ∷ 448 ∷ 0 ∷ []))
post_recvs_with_recv_info-posts_example =
    post_recvs_with_recv_info-posts recvs recvs-IsRing true 3 (omega arith) (omega arith)
      (omega arith)

-- Two machines active, with credits: both batches that the fifo holds are sent.
abbrev bcast_quorum : QuorumInfo
bcast_quorum = record pair { credit_ptrs = some_credits ∷ [] }

abbrev bcast : BcastQp
bcast = record {
  send_fifo = two_queued;
  q_info = bcast_quorum;
  b = 0;
  flags = λ _. record { signaled = false; inlined = false };
  sgl = λ _. record { addr = 0; len = 0 };
  time_out_cnt = 0;
  sent_tx = 0;
  ss_batch = 31;
  enable_inlining = false;
  recv_info = recvs;
  recv_wr_num = 8;
}

bcast-CanPost : CanPost bcast
bcast-CanPost = record {
  ring = recvs-IsRing;
  within = omega arith;
  few = omega arith;
  signals = omega arith;
}

abbrev bcast_checked : CreditCheck
bcast_checked = record { q_info = bcast_quorum; time_out_cnt = 0; available = some 6 }

bcast_check_runs :
    check_bcast_credits 0 true false some_credits bcast_quorum 0 1 ≡ some bcast_checked
unfolding check_bcast_credits active_short revive_missing count_credits actives_ok least_credits
bcast_check_runs = refl

bcast-Members : Members 0 true false (λ cells. cells) bcast_quorum some_credits 0
bcast-Members = record {
  remote =
      below_two (λ k. get_or pair.active_ids k 0 ≢ 0) (λ e. absurd (omega arith))
        (λ e. absurd (omega arith));
  known = below_two (λ k. get_or pair.active_ids k 0 < machine_num) (omega arith) (omega arith);
  distinct = pair_distinct;
  enough = λ k x y. omega arith;
  small =
      below_two (λ k. get_or some_credits (get_or pair.active_ids k 0) 0 < 2 ^ 16) (omega arith)
        (omega arith);
  known_credits = refl;
}

ctx_send_broadcasts-Paid_example :
    (c' : BcastQp) × (v : List Verb) × (ctx_send_broadcasts 0 true false (λ cells. cells) bcast
      ≡ some (c', v))
    × Holds c'.send_fifo []
    × Spent 0 pair.active_ids 2 some_credits (credits_of 0 true false c') 0 2
unfolding drop
ctx_send_broadcasts-Paid_example =
    ctx_send_broadcasts-Paid 0 true false (λ cells. cells) bcast bcast_checked 6 two_queued-Holds
      (omega arith) (omega arith) bcast-CanPost bcast_check_runs refl (omega arith) bcast-Members
      (omega arith)

abbrev bcast_qp : QpMeta
bcast_qp = record blank_qp {
  flow_type = send_bcast_recv_uni;
  receipient_num = 4;
  recv_wr_num = 100;
}

abbrev bcast_qp_sized : QpMeta
bcast_qp_sized = record bcast_qp { ss_batch = 31; send_q_depth = 258; recv_q_depth = 103 }

bcast_qp_depth : qp_meta_ss_batch_q_depth bcast_qp ≡ some bcast_qp_sized
unfolding qp_meta_ss_batch_q_depth
bcast_qp_depth = refl

bcast_signals-Served_example :
    (l : SendQueue) × (form_batches (bcast_call 31) (4 ∷ 4 ∷ 3 ∷ 4 ∷ []) fresh ≡ some l)
    × (l.tx ≡ 15)
    × (l.pending ≤ 1)
bcast_signals-Served_example =
    bcast_signals-Served bcast_qp bcast_qp_sized (4 ∷ 4 ∷ 3 ∷ 4 ∷ []) refl bcast_qp_depth
      (omega arith, (omega arith, (omega arith, (omega arith, tt)))) (omega arith)

abbrev uni_qp : QpMeta
uni_qp = record blank_qp {
  flow_type = send_uni_req_recv_ldr_rep;
  send_wr_num = 128;
  receipient_num = 1;
}

abbrev uni_qp_sized : QpMeta
uni_qp_sized = record uni_qp { ss_batch = 130; send_q_depth = 263; recv_q_depth = 3 }

uni_qp_depth : qp_meta_ss_batch_q_depth uni_qp ≡ some uni_qp_sized
unfolding qp_meta_ss_batch_q_depth
uni_qp_depth = refl

selective_signaling_for_unicast-Served_example :
    (l : SendQueue) × (form_batches (unicast_call 130 true) (128 ∷ 100 ∷ 128 ∷ []) fresh ≡ some l)
    × (l.tx ≡ 356)
    × (l.pending ≤ 1)
selective_signaling_for_unicast-Served_example =
    selective_signaling_for_unicast-Served uni_qp uni_qp_sized true (128 ∷ 100 ∷ 128 ∷ []) refl
      (omega arith) uni_qp_depth (omega arith, (omega arith, (omega arith, tt))) (omega arith)

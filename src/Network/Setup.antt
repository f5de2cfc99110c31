-- ===== src/Network/Setup.antt =====
-- src/network_api/od_init_qp_meta.c: the numbers a queue pair is set up with. Memory is zeroed when it is
-- allocated, so `blank_qp` stands for the queue pair that `create_per_qp_meta` fills in. The two
-- strings, which are printed only, and `remote_senders_num`, which it does not read, are left out.
pub mod Create
use odyssey_lib.Base.{
  Bool, List, Option, false, if◌then◌else◌, ltb, none, not, some, true, u32, ℕ, ◌*◌, ◌+◌, ◌/◌, ◌==◌,
}
use odyssey_lib.Config.{max_bcast_batch}
use odyssey_lib.Fifo.{Fifo}
use odyssey_lib.Network.Links.{send_wr}

-- `flow_type_t`
pub data FlowType : Type 0 where
  send_ack_recv_ack : FlowType
  send_credits_ldr_recv_none : FlowType
  recv_credits : FlowType
  send_uni_req_recv_uni_req : FlowType
  send_uni_rep_recv_uni_req : FlowType
  send_uni_req_recv_ldr_rep : FlowType
  send_uni_rep_ldr_recv_uni_req : FlowType
  send_bcast_ldr_recv_uni : FlowType
  send_uni_rep_recv_ldr_bcast : FlowType
  send_uni_rep_to_bcast : FlowType
  send_bcast_recv_uni : FlowType
  send_bcast_recv_bcast : FlowType
  send_uni_rep_recv_uni_rep : FlowType

-- `recv_type_t`
pub data RecvType : Type 0 where
  recv_nothing : RecvType
  recv_ack : RecvType
  recv_reply : RecvType
  recv_req : RecvType
  recv_sec_round : RecvType

-- The number of elements of each array that `allocate_work_requests` makes; `none` for one it does not.
pub record WorkRequests : Type 0 where
  pub send_wr : Option ℕ
  pub send_sgl : Option ℕ
  pub recv_wr : Option ℕ
  pub recv_sgl : Option ℕ
  pub recv_wc : Option ℕ

-- the members of `per_qp_meta_t` that are set up here
pub record QpMeta : Type 0 where
  pub work_requests : WorkRequests
  pub send_wr_num : ℕ
  pub recv_wr_num : ℕ
  pub send_q_depth : ℕ
  pub recv_q_depth : ℕ
  pub flow_type : FlowType
  pub recv_type : RecvType
  pub recv_qp_id : ℕ
  pub receipient_num : ℕ
  pub leader_m_id : ℕ
  pub ss_batch : ℕ
  pub max_credits : ℕ
  pub credits : Option (List ℕ)
  pub needs_credits : Bool
  pub recv_fifo : Option Fifo
  pub send_fifo : Option (List Fifo)
  pub send_fifo_num : ℕ
  pub recv_buf_size : ℕ
  pub recv_buf_slot_num : ℕ
  pub recv_size : ℕ
  pub send_size : ℕ
  pub mcast_send : Bool
  pub mcast_recv : Bool
  pub mcast_qp_id : ℕ
  pub enable_inlining : Bool
  pub completed_but_not_polled : ℕ

abbrev no_work_requests : WorkRequests
no_work_requests = record {
  send_wr = none;
  send_sgl = none;
  recv_wr = none;
  recv_sgl = none;
  recv_wc = none;
}

abbrev pub blank_qp : QpMeta
blank_qp = record {
  work_requests = no_work_requests;
  send_wr_num = 0;
  recv_wr_num = 0;
  send_q_depth = 0;
  recv_q_depth = 0;
  flow_type = send_ack_recv_ack;
  recv_type = recv_nothing;
  recv_qp_id = 0;
  receipient_num = 0;
  leader_m_id = 0;
  ss_batch = 0;
  max_credits = 0;
  credits = none;
  needs_credits = false;
  recv_fifo = none;
  send_fifo = none;
  send_fifo_num = 0;
  recv_buf_size = 0;
  recv_buf_slot_num = 0;
  recv_size = 0;
  send_size = 0;
  mcast_send = false;
  mcast_recv = false;
  mcast_qp_id = 0;
  enable_inlining = false;
  completed_but_not_polled = 0;
}

-- MIN_SS_BATCH
abbrev pub min_ss_batch : ℕ
min_ss_batch = 127

-- MAXIMUM_INLINE_SIZE
abbrev pub maximum_inline_size : ℕ
maximum_inline_size = 188

-- what the switch of `qp_meta_ss_batch_q_depth` tells apart
abbrev pub is_bcast : FlowType → Bool
is_bcast send_bcast_ldr_recv_uni = true
is_bcast send_bcast_recv_uni = true
is_bcast send_bcast_recv_bcast = true
is_bcast _ = false

abbrev pub is_unicast : FlowType → Bool
is_unicast recv_credits = false
is_unicast t = not (is_bcast t)

abbrev pub max_of : ℕ → ℕ → ℕ
max_of a b = if ltb b a then a else b

-- The two branches of the switch of `qp_meta_ss_batch_q_depth`, with the line below it. `none` is the
-- division by zero of a queue pair that broadcasts to nobody.
abbrev pub bcast_depth : QpMeta → Option QpMeta
bcast_depth q =
    let batch = max_of (min_ss_batch / q.receipient_num) (max_bcast_batch + 2) in
    if q.receipient_num == 0
    then none
    else some (record q {
      ss_batch = batch;
      send_q_depth = u32 (2 * batch * q.receipient_num + 10);
      recv_q_depth = u32 (q.recv_wr_num + 3);
    })

abbrev pub unicast_depth : QpMeta → QpMeta
unicast_depth q =
    let batch = max_of min_ss_batch (u32 (q.send_wr_num + 2)) in
    record q {
      ss_batch = batch;
      send_q_depth = u32 (2 * batch + 3);
      recv_q_depth = u32 (q.recv_wr_num + 3);
    }

unfoldable pub qp_meta_ss_batch_q_depth : QpMeta → Option QpMeta
qp_meta_ss_batch_q_depth q = elim q.flow_type [
  | send_bcast_ldr_recv_uni ↦ bcast_depth q
  | send_bcast_recv_uni ↦ bcast_depth q
  | send_bcast_recv_bcast ↦ bcast_depth q
  | recv_credits ↦ some (record q { recv_q_depth = u32 (q.recv_wr_num + 3) })
  | _ ↦ some (unicast_depth q)
]

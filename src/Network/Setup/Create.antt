-- ===== src/Network/Setup/Create.antt =====
-- src/network_api/od_init_qp_meta.c: the credits, the fifos and the arrays of a queue pair.
use odyssey_lib.Base.{
  Bool, List, Option, [], false, if◌then◌else◌, leb, ltb, none, replicate, some, suc, true, u16,
  u32, zero, ℕ, ◌*◌, ◌+◌, ◌==◌, ◌>>=◌, ◌∷◌,
}
use odyssey_lib.Config.{machine_num, max_bcast_batch, rem_mach_num}
use odyssey_lib.Fifo.{Fifo, fifo_constructor, is_some}
use odyssey_lib.Network.Setup.{
  FlowType, QpMeta, RecvType, WorkRequests, maximum_inline_size, qp_meta_ss_batch_q_depth, recv_ack,
  recv_credits, send_ack_recv_ack, send_bcast_ldr_recv_uni, send_bcast_recv_bcast,
  send_bcast_recv_uni, send_credits_ldr_recv_none, send_uni_rep_recv_ldr_bcast,
  send_uni_rep_recv_uni_rep, send_uni_rep_recv_uni_req, send_uni_rep_to_bcast,
  send_uni_req_recv_ldr_rep, send_uni_req_recv_uni_req,
}

unfoldable pub allocate_work_requests : QpMeta → WorkRequests
allocate_work_requests q =
    let send_sgl : Option ℕ = elim q.flow_type [
      | send_credits_ldr_recv_none ↦ some 1
      | send_bcast_ldr_recv_uni ↦ some max_bcast_batch
      | send_bcast_recv_uni ↦ some max_bcast_batch
      | send_bcast_recv_bcast ↦ some max_bcast_batch
      | recv_credits ↦ none
      | _ ↦ some q.send_wr_num
    ] in
    let recv : Option ℕ = if ltb 0 q.recv_wr_num then some q.recv_wr_num else none in
    record {
      send_wr = some q.send_wr_num;
      send_sgl = send_sgl;
      recv_wr = recv;
      recv_sgl = recv;
      recv_wc = recv;
    }

-- These assertions are always on: `none` where one fails, or the flow type has no credits.
unfoldable pub get_credit_rows : QpMeta → Option ℕ
get_credit_rows q =
    let rows : Option ℕ = if q.receipient_num == rem_mach_num then some machine_num else none in
    let row : Option ℕ = if q.receipient_num == 1 then some 1 else none in
    elim q.flow_type [
      | send_bcast_ldr_recv_uni ↦ rows
      | send_bcast_recv_uni ↦ rows
      | send_bcast_recv_bcast ↦ rows
      | send_uni_req_recv_uni_req ↦ rows
      | send_uni_rep_to_bcast ↦ rows
      | send_uni_rep_recv_uni_req ↦ rows
      | send_uni_rep_recv_uni_rep ↦ rows
      | send_uni_req_recv_ldr_rep ↦ row
      | send_uni_rep_recv_ldr_bcast ↦ row
      | _ ↦ none
    ]

unfoldable pub qp_meta_set_up_credits : QpMeta → ℕ → Option QpMeta
qp_meta_set_up_credits q credits =
    if ltb 0 credits
    then (do
      credit_rows ← get_credit_rows q
      some (record q {
        max_credits = credits;
        needs_credits = true;
        credits = some (replicate credit_rows credits);
      }))
    else some (record q { max_credits = credits })

module _ (assertions : Bool) where
  -- `cells` is the number of cells that the buffer of a send fifo has, and `q` has the members that are
  -- set before the fifos: the rest of `create_per_qp_meta`.
  unfoldable pub create_fifos : ℕ → ℕ → ℕ → QpMeta → Option QpMeta
  create_fifos cells send_fifo_slot_num mes_header q =
      let f : Fifo = record {
        fifo = none;
        slot_meta = none;
        push_ptr = 0;
        pull_ptr = 0;
        max_size = q.recv_buf_slot_num;
        max_byte_size = u32 (q.recv_buf_slot_num * q.recv_size);
        capacity = 0;
        net_capacity = 0;
        slot_size = q.recv_size;
        mes_header = 0;
      } in
      let num =
        if ltb 0 send_fifo_slot_num
        then elim q.flow_type [ send_uni_req_recv_uni_req ↦ u16 q.receipient_num | _ ↦ 1 ]
        else 0 in
      do
        fs ←
            (if ltb 0 send_fifo_slot_num
              then (fifo_constructor assertions send_fifo_slot_num q.send_size true mes_header cells
                    num
                  >>= λ fs. some (some fs))
              else some q.send_fifo)
        let q' : QpMeta = record q { recv_fifo = some f; send_fifo_num = num; send_fifo = fs }
        some (record q' { work_requests = allocate_work_requests q' })

  -- The arguments in the source's order; the types of the members are those of the arguments.
  unfoldable pub create_per_qp_meta :
      (cells send_wr_num recv_wr_num : ℕ)
      → FlowType
      → RecvType
      → (recv_qp_id receipient_num recv_fifo_slot_num recv_size send_size : ℕ)
      → (mcast_send mcast_recv : Bool)
      → (mcast_qp_id leader_m_id send_fifo_slot_num credits mes_header : ℕ) → QpMeta
      → Option QpMeta
  create_per_qp_meta cells send_wr_num recv_wr_num flow_type recv_type recv_qp_id receipient_num
        recv_fifo_slot_num recv_size send_size mcast_send mcast_recv mcast_qp_id leader_m_id
        send_fifo_slot_num credits mes_header q =
      do
        sized ← qp_meta_ss_batch_q_depth (record q {
          send_wr_num = send_wr_num;
          recv_wr_num = recv_wr_num;
          flow_type = flow_type;
          recv_type = recv_type;
          receipient_num = receipient_num;
          leader_m_id = leader_m_id;
          recv_buf_slot_num = recv_fifo_slot_num;
          recv_buf_size = u32 (recv_fifo_slot_num * recv_size);
          recv_size = recv_size;
          send_size = send_size;
          mcast_send = mcast_send;
          mcast_recv = mcast_recv;
          mcast_qp_id = mcast_qp_id;
          completed_but_not_polled = 0;
          recv_qp_id = recv_qp_id;
        })
        credited ← qp_meta_set_up_credits sized credits
        create_fifos cells send_fifo_slot_num mes_header
            (record credited { enable_inlining = leb send_size maximum_inline_size })

  -- The addresses of the acks, as offsets in the buffer of the send fifo: 16 bytes each.
  unfoldable pub ack_sgl : ℕ → ℕ → List ℕ
  ack_sgl zero m_i = []
  ack_sgl (suc n) m_i = 16 * m_i ∷ ack_sgl n (m_i + 1)

  -- A received ack takes 40 bytes more. It returns the addresses in `send_sgl` too.
  unfoldable pub create_ack_qp_meta :
      (cells recv_qp_id receipient_num remote_senders_num max_remote_credits : ℕ)
      → QpMeta
      → Option (QpMeta × List ℕ)
  create_ack_qp_meta cells recv_qp_id receipient_num remote_senders_num max_remote_credits q = do
    let recvs = u32 (max_remote_credits * remote_senders_num)
    q' ←
        create_per_qp_meta cells (u32 (receipient_num + 1)) recvs send_ack_recv_ack recv_ack
          recv_qp_id receipient_num recvs 56 16 false false 0 0 (u32 (receipient_num + 1)) 0 0 q
    if is_some q'.send_fifo then some (q', ack_sgl (receipient_num + 1) 0) else none

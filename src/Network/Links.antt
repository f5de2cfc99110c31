-- ===== src/Network/Links.antt =====
-- include/general_util/od_rdma_gen_util.h, broadcasts: the work requests of a batch of broadcasts are
-- linked into one list and posted at once.
use odyssey_lib.Base.{
  Bool, List, Option, [], assert_if, false, get_or, if◌then◌else◌, ltb, none, set, some, true, u64,
  ℕ, ◌%◌, ◌*◌, ◌++◌, ◌+◌, ◌-◌, ◌==◌, ◌>>=◌, ◌>>◌, ◌∷◌,
}
use odyssey_lib.Config.{rem_mach_num}
use odyssey_lib.Fifo.{Fifo}
use odyssey_lib.Network.{
  RecvInfo, SendFlags, Sge, Verb, poll_send, post_recvs_with_recv_info, post_send, put,
}
use odyssey_lib.Quorum.{QuorumInfo, relink}

-- What a worker keeps for a queue pair that sends broadcasts. `q_info` is the worker's; the array
-- `send_wr` is the one of index `b` of its `send_wrs`, and `credits` is `credit_ptrs` at `b`, as
-- init_ctx_send_wrs and set_up_ctx_qinfo make them. The members recv_info and recv_wr_num are those of
-- the queue pair `recv_qp_id`.
pub record BcastQp : Type 0 where
  pub send_fifo : Fifo
  pub q_info : QuorumInfo
  pub b : ℕ
  pub flags : ℕ → SendFlags
  pub sgl : ℕ → Sge
  pub time_out_cnt : ℕ
  pub sent_tx : ℕ  -- uint64_t
  pub ss_batch : ℕ
  pub enable_inlining : Bool
  pub recv_info : RecvInfo
  pub recv_wr_num : ℕ

abbrev no_wrs : ℕ → Option ℕ
no_wrs i = none

abbrev pub send_wr : BcastQp → ℕ → Option ℕ
send_wr c = get_or c.q_info.send_wrs c.b no_wrs

abbrev pub set_next : BcastQp → ℕ → Option ℕ → BcastQp
set_next c i next = record c {
  q_info = record c.q_info { send_wrs = set c.q_info.send_wrs c.b (relink (send_wr c) i next) };
}

-- The selective signalling of form_bcast_links: whether the batch is to be signaled, the wait for a
-- completion, and the new `br_tx`.
unfoldable pub bcast_signals : ℕ → ℕ → Bool × List Verb × ℕ
bcast_signals br_tx bcast_ss_batch =
    let tx = u64 (br_tx + 1) in
    (
      br_tx % bcast_ss_batch == 0,
      (if tx % bcast_ss_batch == bcast_ss_batch - 1 then poll_send ∷ [] else []),
      tx,
    )

-- `enable_multicast` stands for ENABLE_MULTICAST.
module _ (assertions enable_multicast : Bool) where
  abbrev pub messages_in_bcast : ℕ
  messages_in_bcast = if enable_multicast then 1 else rem_mach_num

  unfoldable pub get_last_message_of_bcast : ℕ → QuorumInfo → Option ℕ
  get_last_message_of_bcast br_i q = do
    assert_if assertions (ltb 0 br_i)
    some (
        if enable_multicast
        then br_i * messages_in_bcast - 1
        else (br_i - 1) * messages_in_bcast + q.last_active_rm_id)

  unfoldable pub get_first_message_of_next_bcast : ℕ → QuorumInfo → Option ℕ
  get_first_message_of_next_bcast br_i q = do
    assert_if assertions (ltb 0 br_i)
    some (
        if enable_multicast
        then br_i * messages_in_bcast
        else br_i * messages_in_bcast + q.first_active_rm_id)

  unfoldable pub last_mes_of_bcast_point_to_frst_mes_of_next_bcast : ℕ → BcastQp → Option BcastQp
  last_mes_of_bcast_point_to_frst_mes_of_next_bcast br_i c = do
    assert_if assertions (ltb 0 br_i)
    last ← get_last_message_of_bcast br_i c.q_info
    first ← get_first_message_of_next_bcast br_i c.q_info
    some (set_next c last (some first))

  unfoldable pub get_first_mes_of_bcast : QuorumInfo → ℕ
  get_first_mes_of_bcast q = if enable_multicast then 0 else q.first_active_rm_id

  unfoldable pub flag_the_first_bcast_message_signaled : BcastQp → BcastQp
  flag_the_first_bcast_message_signaled c =
      let i = get_first_mes_of_bcast c.q_info in
      record c { flags = put c.flags i (record (c.flags i) { signaled = true }) }

  -- The new state, and the wait for a completion.
  unfoldable pub form_bcast_links : ℕ → BcastQp → Option (BcastQp × List Verb)
  form_bcast_links br_i c = do
    assert_if assertions (ltb 0 c.ss_batch)
    let (signal, waits, tx) = bcast_signals c.sent_tx c.ss_batch
    let c1 = if signal then flag_the_first_bcast_message_signaled c else c
    let c2 = record c1 { sent_tx = tx }
    c3 ← (if ltb 0 br_i then last_mes_of_bcast_point_to_frst_mes_of_next_bcast br_i c2 else some c2)
    some (c3, waits)

  -- ENABLE_ADAPTIVE_INLINING is off.
  unfoldable pub post_quorum_broadasts_and_recvs : ℕ → ℕ → BcastQp → Option (BcastQp × List Verb)
  post_quorum_broadasts_and_recvs recvs_to_post_num br_i c = do
    (r, recvs) ←
        (if ltb 0 recvs_to_post_num
          then post_recvs_with_recv_info assertions c.recv_info recvs_to_post_num
          else some (c.recv_info, []))
    last ← get_last_message_of_bcast br_i c.q_info
    let c1 = set_next (record c { recv_info = r }) last none
    let first = get_first_mes_of_bcast c1.q_info
    let sent = post_send first (send_wr c1) c1.flags c1.sgl
    some (
      record c1 {
        flags = put c1.flags first (record { signaled = false; inlined = c1.enable_inlining });
      },
      recvs ++ sent ∷ [],
    )

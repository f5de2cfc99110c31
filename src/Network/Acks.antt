-- ===== src/Network/Acks.antt =====
-- src/network_api/od_main_loop_api.c and include/network_api/od_templates.h: acks. A worker keeps one ack
-- for each machine in the buffer of its send fifo, and adds the messages it receives to it until the
-- ack is sent.
pub mod Coalesce
pub mod Cover
pub mod Links
pub mod Send
use odyssey_lib.Base.{
  Bool, List, Option, [], assert_if, false, get_elem?, get_or, if◌then◌else◌, leb, ltb, none, not,
  set, some, suc, true, u16, u32, u64, u8, zero, ℕ, ◌%◌, ◌&&◌, ◌++◌, ◌+◌, ◌-◌, ◌==◌, ◌>>=◌, ◌>>◌,
  ◌^◌, ◌||◌, ◌∷◌,
}
use odyssey_lib.Fifo.{Fifo}
use odyssey_lib.Network.{
  RecvInfo, SendFlags, Sge, Verb, ctx_refill_recvs, post_send, put, selective_signaling_for_unicast,
}

-- `ctx_ack_mes_t`
pub record Ack : Type 0 where
  pub l_id : ℕ  -- uint64_t
  pub ack_num : ℕ  -- uint32_t
  pub credits : ℕ  -- uint16_t
  pub m_id : ℕ  -- uint8_t
  pub opcode : ℕ  -- uint8_t

abbrev pub op_ack : ℕ
op_ack = 115

abbrev pub ack_not_yet_sent : ℕ
ack_not_yet_sent = 117

abbrev pub blank_ack : Ack
blank_ack = record { l_id = 0; ack_num = 0; credits = 0; m_id = 0; opcode = op_ack }

-- What `ctx_ack_insert` does to the ack of the machine, and what it returns.
abbrev pub ack_add : Bool → ℕ → ℕ → Ack → Option (Ack × Bool)
ack_add assertions mes_num l_id ack =
    if (assertions && not (ack.opcode == op_ack)) && not (u64 (ack.l_id + ack.ack_num) == l_id)
    then some (ack, false)
    else (if ack.opcode == op_ack
        then some (
          record ack { l_id = l_id; credits = 1; ack_num = mes_num; opcode = ack_not_yet_sent },
          true,
        )
        else (do
          assert_if assertions (u64 (ack.l_id + ack.ack_num) == l_id)
          some (
            record ack { credits = u16 (ack.credits + 1); ack_num = u32 (ack.ack_num + mes_num) },
            true,
          )))

-- The result `none` is a failed assertion, or a machine that has no ack.
unfoldable pub ctx_ack_insert : Bool → List Ack → ℕ → ℕ → ℕ → Option (List Ack × Bool)
ctx_ack_insert assertions acks mes_num l_id m_id = do
  ack ← get_elem? acks m_id
  (ack', inserted) ← ack_add assertions mes_num l_id ack
  some (set acks m_id ack', inserted)

-- `rob` is the fifo of the writes that wait for acks, and `pull_lid` the id of the one at its head.
unfoldable pub od_is_ack_too_old : Ack → Fifo → ℕ → Bool
od_is_ack_too_old ack rob pull_lid =
    rob.capacity == 0 || (leb ack.l_id pull_lid && leb ack.ack_num (pull_lid - ack.l_id))

-- The slot of the first write that the ack is about, and the new `*ack_num`.
unfoldable pub ctx_find_when_the_ack_points_acked : Bool → Ack → Fifo → ℕ → ℕ → Option (ℕ × ℕ)
ctx_find_when_the_ack_points_acked assertions ack rob pull_lid ack_num =
    if leb ack.l_id pull_lid
    then (do
      let left = u32 (ack_num + 2 ^ 64 - (pull_lid - ack.l_id))
      assert_if assertions (ltb 0 left && leb left rob.max_size)
      some (rob.pull_ptr, left))
    else some (u32 (rob.pull_ptr + (ack.l_id - pull_lid)) % rob.max_size, ack_num)

-- `credits` and `max_credits` are those of the queue pair `recv_qp_id`, and `mcast_send` whether that
-- one multicasts.
unfoldable pub ctx_increase_credits_on_polling_ack :
    Bool → Bool → ℕ → List ℕ → Ack → Option (List ℕ)
ctx_increase_credits_on_polling_ack assertions mcast_send max_credits credits ack =
    let total = u16 (get_or credits ack.m_id 0 + ack.credits) in
    if ltb max_credits total
    then (assert_if assertions mcast_send >> some (set credits ack.m_id max_credits))
    else some (set credits ack.m_id total)

-- The members of the queue pair of the acks that are used when they are sent; recv_info and recv_wr_num
-- are those of the queue pair `recv_qp_id`.
pub record AckQp : Type 0 where
  pub acks : List Ack
  pub receipient_num : ℕ
  pub next : ℕ → Option ℕ
  pub flags : ℕ → SendFlags
  pub sgl : ℕ → Sge
  pub sent_tx : ℕ
  pub ss_batch : ℕ
  pub recv_info : RecvInfo
  pub recv_wr_num : ℕ

-- `ack_i`, `prev_ack_i` and `first_wr`, which are bytes, and what the verbs library was asked for. The
-- sum of the credits, `recvs_to_post_num`, is not used.
pub record AckLoop : Type 0 where
  pub qp : AckQp
  pub ack_i : ℕ
  pub prev_ack_i : ℕ
  pub first_wr : ℕ
  pub waits : List Verb

-- the loop's body for an ack that is to be sent
abbrev pub forge_ack : ℕ → AckLoop → AckLoop
forge_ack m_i s =
    let q = s.qp in
    let (flag, waits, tx) = selective_signaling_for_unicast q.sent_tx q.ss_batch true in
    record {
      qp = record q {
        acks = set q.acks m_i (record (get_or q.acks m_i blank_ack) { opcode = op_ack });
        flags = put q.flags m_i flag;
        sent_tx = tx;
        next = (if ltb 0 s.ack_i then put q.next s.prev_ack_i (some m_i) else q.next);
      };
      ack_i = s.ack_i + 1;
      prev_ack_i = m_i;
      first_wr = (if ltb 0 s.ack_i then s.first_wr else m_i);
      waits = s.waits ++ waits;
    }

-- The loop over the machines, from `m_i` on. With 255 recipients or more the byte `m_i` wraps around
-- and the loop does not end, which is `none`.
unfoldable pub ack_loop : ℕ → ℕ → AckLoop → Option AckLoop
ack_loop zero m_i s = none
ack_loop (suc fuel) m_i s =
    if leb m_i s.qp.receipient_num
    then ack_loop fuel (u8 (m_i + 1))
        (if (get_or s.qp.acks m_i blank_ack).opcode == op_ack then s else forge_ack m_i s)
    else some s

-- `send_helper` is the callback of the protocol on top, which may change the messages; the identity
-- stands for NULL. The other callback, `send_debug`, is for checks.
unfoldable pub od_send_acks : Bool → (List Ack → List Ack) → AckQp → Option (AckQp × List Verb)
od_send_acks assertions send_helper qp = do
  s ←
      ack_loop (qp.receipient_num + 2) 0
        (record { qp = qp; ack_i = 0; prev_ack_i = 0; first_wr = 0; waits = [] })
  let q = s.qp
  if s.ack_i == 0 then some (q, s.waits) else (do
    (r, recvs) ← ctx_refill_recvs assertions q.recv_wr_num q.recv_info
    let next = put q.next s.prev_ack_i none
    some (
      record q { acks = send_helper q.acks; recv_info = r; next = next },
      s.waits ++ recvs ++ post_send s.first_wr next q.flags q.sgl ∷ [],
    ))

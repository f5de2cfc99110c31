-- ===== src/Network/Broadcast.antt =====
-- src/network_api/od_main_loop_api.c: sending broadcasts.
pub mod Post
pub mod Drain
pub mod Send
use odyssey_lib.Base.{
  Bool, List, Option, [], assert_if, get_or, if◌then◌else◌, leb, ltb, none, set, some, suc, u16,
  u32, zero, ℕ, ◌&&◌, ◌++◌, ◌+◌, ◌-◌, ◌==◌, ◌>>=◌, ◌>>◌, ◌^◌,
}
use odyssey_lib.Config.{max_bcast_batch}
use odyssey_lib.Fifo.{get_fifo_pull_slot, get_fifo_slot_meta_pull}
use odyssey_lib.Fifo.Send.{fifo_send_from_pull_slot}
use odyssey_lib.Network.{Verb, put}
use odyssey_lib.Network.Links.{BcastQp, form_bcast_links, post_quorum_broadasts_and_recvs}
use odyssey_lib.Quorum.Credits.{check_bcast_credits, decrease_credits}

module _ (machine_id : ℕ) (assertions enable_multicast : Bool) where
  unfoldable pub ctx_forge_bcast_wr : ℕ → BcastQp → Option (BcastQp × List Verb)
  ctx_forge_bcast_wr br_i c = do
    m ← get_fifo_slot_meta_pull assertions c.send_fifo
    addr ← get_fifo_pull_slot assertions c.send_fifo
    form_bcast_links assertions enable_multicast br_i
        (record c { sgl = put c.sgl br_i (record { addr = addr; len = m.byte_size }) })

  -- Receives to post: the difference is a uint32_t.
  abbrev pub post_batch : ℕ → BcastQp → Option (BcastQp × List Verb)
  post_batch br_i c =
      post_quorum_broadasts_and_recvs assertions enable_multicast
        (u32 (c.recv_wr_num + 2 ^ 32 - c.recv_info.posted_recvs)) br_i c

  -- The callback `send_helper`, which the protocol on top installs, may change the messages in the
  -- buffer of the send fifo.
  unfoldable pub send_one : (List ℕ → List ℕ) → ℕ → BcastQp → Option (BcastQp × List Verb)
  send_one send_helper br_i c = do
    let f = c.send_fifo
    (c1, waits) ←
        ctx_forge_bcast_wr br_i (record c {
          send_fifo = record f { fifo = f.fifo >>= λ cells. some (send_helper cells) };
        })
    f' ← fifo_send_from_pull_slot assertions c1.send_fifo
    some (record c1 { send_fifo = f' }, waits)

  -- The loop of `ctx_send_broadcasts`. It returns `br_i` and `mes_sent` as they are at its end.
  unfoldable pub broadcast_loop :
      (List ℕ → List ℕ) → ℕ → ℕ → ℕ → ℕ → BcastQp → Option (BcastQp × List Verb × ℕ × ℕ)
  broadcast_loop send_helper zero available_credits br_i mes_sent c = none
  broadcast_loop send_helper (suc fuel) available_credits br_i mes_sent c =
      if ltb 0 c.send_fifo.net_capacity && ltb mes_sent available_credits
      then (do
        (c1, waits) ← send_one send_helper br_i c
        (c2, posts) ←
            (if br_i + 1 == max_bcast_batch then post_batch (br_i + 1) c1 else some (c1, []))
        let br_i' = if br_i + 1 == max_bcast_batch then 0 else br_i + 1
        (c3, verbs, br, mes) ←
            broadcast_loop send_helper fuel available_credits br_i' (u16 (mes_sent + 1)) c2
        some (c3, waits ++ posts ++ verbs, br, mes))
      else some (c, [], br_i, mes_sent)

  abbrev pub with_credits : BcastQp → List ℕ → BcastQp
  with_credits c credits = record c {
    q_info = record c.q_info { credit_ptrs = set c.q_info.credit_ptrs c.b credits };
  }

  abbrev pub credits_of : BcastQp → List ℕ
  credits_of c = get_or c.q_info.credit_ptrs c.b []

  -- what follows the loop
  unfoldable pub finish_broadcasts : ℕ → ℕ → BcastQp → Option (BcastQp × List Verb)
  finish_broadcasts br_i mes_sent c = do
    (c1, posts) ← (if ltb 0 br_i then post_batch br_i c else some (c, []))
    assert_if assertions (leb c1.recv_info.posted_recvs c1.recv_wr_num)
    credits ←
        (if ltb 0 mes_sent
          then decrease_credits machine_id assertions (credits_of c1) c1.q_info mes_sent
          else some (credits_of c1))
    some (with_credits c1 credits, posts)

  -- Each round takes at least one message off the fifo, so `net_capacity` rounds and the last test are
  -- enough.
  abbrev pub send_available : (List ℕ → List ℕ) → ℕ → BcastQp → Option (BcastQp × List Verb)
  send_available send_helper available_credits c = do
    (c2, verbs, br_i, mes_sent) ←
        broadcast_loop send_helper (c.send_fifo.net_capacity + 1) available_credits 0 0 c
    (c3, posts) ← finish_broadcasts br_i mes_sent c2
    some (c3, verbs ++ posts)

  unfoldable pub ctx_send_broadcasts : (List ℕ → List ℕ) → BcastQp → Option (BcastQp × List Verb)
  ctx_send_broadcasts send_helper c = if c.send_fifo.net_capacity == 0 then some (c, []) else (do
    r ←
        check_bcast_credits machine_id assertions enable_multicast (credits_of c) c.q_info
          c.time_out_cnt 1
    let c1 = record c { q_info = r.q_info; time_out_cnt = r.time_out_cnt }
    elim r.available [
      | none ↦ some (c1, [])
      | some available_credits ↦ send_available send_helper available_credits c1
    ])

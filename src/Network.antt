-- ===== src/Network.antt =====
-- include/general_util/od_rdma_gen_util.h and src/network_api/od_main_loop_api.c: what a worker sends
-- and receives. The calls of the verbs library are recorded as events, in order.
pub mod Receives
pub mod Setup
pub mod Signals
pub mod Links
pub mod Broadcast
pub mod Unicast
pub mod Polling
pub mod Acks
pub mod Commits
pub mod Operations
use odyssey_lib.Base.{
  Bool, List, Option, [], assert_if, if◌then◌else◌, ltb, none, some, suc, u16, u32, u64, zero, ℕ,
  ◌%◌, ◌*◌, ◌+◌, ◌-◌, ◌==◌, ◌>>=◌, ◌>>◌, ◌∷◌,
}

-- `recv_info_t`; the buffer starts at address 0.
pub record RecvInfo : Type 0 where
  pub push_ptr : ℕ  -- uint32_t
  pub buf_slots : ℕ
  pub slot_size : ℕ
  pub posted_recvs : ℕ  -- uint32_t

-- IBV_SEND_SIGNALED and IBV_SEND_INLINE in `send_flags`
pub record SendFlags : Type 0 where
  pub signaled : Bool
  pub inlined : Bool

-- `struct ibv_sge` of a message to send: its place in the buffer of the send fifo, and its length.
pub record Sge : Type 0 where
  pub addr : ℕ
  pub len : ℕ  -- the member `length`

-- A work request of a receive: the address of its buffer, and the index of the next request, none for
-- NULL.
abbrev pub RecvWr : Type 0
RecvWr = ℕ × Option ℕ

-- A call of the verbs library: the array of receives whose first is posted; the first work request
-- posted, with the links, flags and buffers of the array at that time; a completion awaited.
pub data Verb : Type 0 where
  post_recv : (recv_wr : List RecvWr) → Verb
  post_send : (first : ℕ) (next : ℕ → Option ℕ) (flags : ℕ → SendFlags) (sgl : ℕ → Sge) → Verb
  poll_send : Verb

abbrev pub put {ℓ} : {A : Type ℓ} → (ℕ → A) → ℕ → A → ℕ → A
put f i a k = if i == k then a else f k

-- MOD_INCR on a uint32_t
abbrev pub mod_incr_32 : ℕ → ℕ → ℕ
mod_incr_32 x n = if u32 (x + 1) == n then 0 else u32 (x + 1)

-- The buffer that a receive is posted for. With no slots (messages without a payload) it stays at the
-- start.
abbrev pub recv_addr : RecvInfo → ℕ
recv_addr r = if ltb 0 r.buf_slots then u32 (r.push_ptr * r.slot_size) else 0

-- The loop of `post_recvs_with_recv_info` from `j` on, which is a uint16_t: with recv_num above
-- 65535 it does not end. It returns the work requests that it wrote, in the order of
-- the array.
unfoldable pub post_loop : ℕ → ℕ → ℕ → RecvInfo → Option (RecvInfo × List RecvWr)
post_loop zero recv_num j r = none
post_loop (suc fuel) recv_num j r =
    if ltb j recv_num
    then (post_loop fuel recv_num (u16 (j + 1))
          (record r { push_ptr = mod_incr_32 r.push_ptr r.buf_slots })
        >>= λ (r', wrs).
            let next = if j == recv_num - 1 then none else some (j + 1) in
            some (r', (recv_addr r, next) ∷ wrs))
    else some (r, [])

module _ (assertions : Bool) where
  -- The assertion is always about a number below a billion.
  unfoldable pub post_recvs_with_recv_info : RecvInfo → ℕ → Option (RecvInfo × List Verb)
  post_recvs_with_recv_info r recv_num = do
    assert_if assertions (ltb recv_num 1_000_000_000)
    if recv_num == 0 then some (r, []) else (do
      (r', recv_wr) ← post_loop (recv_num + 1) recv_num 0 r
      some (record r' { posted_recvs = u32 (r'.posted_recvs + recv_num) }, post_recv recv_wr ∷ []))

  unfoldable pub ctx_refill_recvs : ℕ → RecvInfo → Option (RecvInfo × List Verb)
  ctx_refill_recvs recv_wr_num r =
      if ltb r.posted_recvs recv_wr_num
      then post_recvs_with_recv_info r (recv_wr_num - r.posted_recvs)
      else some (r, [])

-- `selective_signaling_for_unicast`, without ENABLE_ADAPTIVE_INLINING, which is off: the flags of the
-- message, and whether the call waits for a completion. `tx` is a uint64_t.
unfoldable pub selective_signaling_for_unicast : ℕ → ℕ → Bool → SendFlags × List Verb × ℕ
selective_signaling_for_unicast tx ss_batch allow_inline = (
  record { signaled = tx % ss_batch == 0; inlined = allow_inline },
  (if tx % ss_batch == ss_batch - 1 then poll_send ∷ [] else []),
  u64 (tx + 1),
)

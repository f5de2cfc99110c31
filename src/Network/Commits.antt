-- ===== src/Network/Commits.antt =====
-- src/network_api/od_main_loop_api.c and include/network_api/od_templates.h: commits. The slot that is
-- filled is the one before the push pointer, and the metadata are those at the push pointer: they are
-- the same slot, and the one that is sent, in a fifo of one slot.
pub mod Coalesce
use odyssey_lib.Base.{Bool, Option, if◌then◌else◌, ltb, some, u16, u32, ℕ, ◌+◌, ◌>>=◌, ◌>>◌}
use odyssey_lib.Fifo.{
  Fifo, fifo_increm_capacity, get_fifo_push_prev_slot, get_fifo_slot_meta_push, set_meta,
}
use odyssey_lib.Network.{put}

-- `ctx_com_mes_t`
pub record Com : Type 0 where
  pub l_id : ℕ  -- uint64_t
  pub com_num : ℕ  -- uint32_t
  pub opcode : ℕ  -- uint8_t
  pub m_id : ℕ  -- uint8_t

-- The send fifo, and the commits in its buffer by their addresses.
pub record ComQp : Type 0 where
  pub send_fifo : Fifo
  pub coms : ℕ → Com

unfoldable pub ctx_insert_commit : Bool → ℕ → ℕ → ComQp → Option ComQp
ctx_insert_commit assertions com_num last_committed_id q = do
  addr ← get_fifo_push_prev_slot assertions q.send_fifo
  let commit = q.coms addr
  let joins = ltb 0 q.send_fifo.capacity
  f ← (if joins then some q.send_fifo else fifo_increm_capacity assertions q.send_fifo)
  let f1 = record f { net_capacity = u32 (f.net_capacity + com_num) }
  m ← get_fifo_slot_meta_push assertions f1
  some (record {
    send_fifo =
        set_meta f1 f1.push_ptr (record m { coalesce_num = u16 (m.coalesce_num + com_num) });
    coms = put q.coms addr (
        if joins
        then record commit { com_num = u32 (commit.com_num + com_num) }
        else record commit { l_id = last_committed_id; com_num = com_num });
  })

-- ===== src/Fifo/Send.antt =====
-- include/fifo/od_fifo.h, the send fifos: messages are coalesced in the slot at the push pointer,
-- and a whole slot is sent from the pull pointer. With it `od_insert_mes` of
-- src/network_api/od_main_loop_api.c, as far as it works on the fifo.
pub mod Queue
pub mod Steps
pub mod Messages
pub mod Refine
pub mod Insert
pub mod Dispatch
pub mod Place
pub mod Runs
use odyssey_lib.Base.{
  Bool, List, Option, assert_if, if◌then◌else◌, leb, ltb, not, some, u16, u32, ℕ, ◌&&◌, ◌+◌, ◌-◌,
  ◌==◌, ◌>>=◌, ◌>>◌, ◌^◌, ◌||◌,
}
use odyssey_lib.Fifo.{
  Fifo, SlotMeta, check_fifo, fifo_decrem_capacity, fifo_incr_net_capacity, fifo_incr_pull_ptr,
  fifo_incr_push_ptr, fifo_increm_capacity, get_fifo_push_slot_with_offset, get_fifo_slot_meta_pull,
  get_fifo_slot_meta_push, is_some, mtu, set_meta,
}

-- `new_message` of `get_send_fifo_ptr`, once the response size is added to the slot's.
unfoldable pub new_message : Fifo → SlotMeta → ℕ → Bool → Bool
new_message f m new_size create_new_mes =
    ltb mtu m.resp_size
    || (ltb f.slot_size (u32 (m.byte_size + new_size))
        || (create_new_mes && not (m.coalesce_num == 0)))

module _ (assertions : Bool) where
  unfoldable pub reset_fifo_slot : Fifo → Option Fifo
  reset_fifo_slot f = do
    check_fifo assertions f
    f' ← fifo_incr_push_ptr assertions f
    m ← get_fifo_slot_meta_push assertions f'
    some (
        set_meta f' f'.push_ptr
          (record m { byte_size = u16 f'.mes_header; resp_size = 0; coalesce_num = 0 }))

  -- The part of `get_send_fifo_ptr` behind the choice of the slot.
  unfoldable pub coalesce : Fifo → SlotMeta → ℕ → Option (Fifo × ℕ)
  coalesce f m new_size =
      let m' : SlotMeta = record m {
        coalesce_num = u16 (m.coalesce_num + 1);
        byte_size = u32 (m.byte_size + new_size);
      } in
      let f' = set_meta f f.push_ptr m' in
      do
        assert_if assertions (leb m'.byte_size f'.slot_size)
        assert_if assertions (leb m'.byte_size mtu)
        check_fifo assertions f'
        ptr ← get_fifo_push_slot_with_offset assertions f' m.byte_size
        some (f', ptr)

  -- The branch of `get_send_fifo_ptr` that takes a new slot for the message.
  unfoldable pub start_new_slot : Fifo → SlotMeta → ℕ → Option (Fifo × ℕ)
  start_new_slot f m new_size = do
    assert_if assertions (not (m.coalesce_num == 0))
    fresh ← reset_fifo_slot f
    fresh_meta ← get_fifo_slot_meta_push assertions fresh
    coalesce fresh fresh_meta new_size

  -- The new fifo, and the place of the message in the buffer.
  unfoldable pub get_send_fifo_ptr : Fifo → ℕ → ℕ → Bool → Option (Fifo × ℕ)
  get_send_fifo_ptr f new_size resp_size create_new_mes = do
    check_fifo assertions f
    assert_if assertions (is_some f.slot_meta)
    m ← get_fifo_slot_meta_push assertions f
    let m' = record m { resp_size = u32 (m.resp_size + resp_size) }
    let f' = set_meta f f.push_ptr m'
    if new_message f m' new_size create_new_mes
        then start_new_slot f' m' new_size
        else coalesce f' m' new_size

  unfoldable pub fifo_send_from_pull_slot : Fifo → Option Fifo
  fifo_send_from_pull_slot f = do
    m ← get_fifo_slot_meta_pull assertions f
    let f1 = record f { net_capacity = u32 (f.net_capacity + 2 ^ 32 - m.coalesce_num) }
    f2 ← (if f1.net_capacity == 0 then reset_fifo_slot f1 else some f1)
    f3 ← fifo_decrem_capacity assertions f2
    fifo_incr_pull_ptr assertions f3

  -- `od_insert_mes` on `&qp_meta->send_fifo[fifo_i]`. The callback `insert_helper`, which the
  -- protocol on top installs, is a parameter: what it makes of the buffer, given the place.
  unfoldable pub insert_mes : (ℕ → List ℕ → List ℕ) → Fifo → ℕ → ℕ → Bool → Option Fifo
  insert_mes insert_helper f send_size recv_size break_message = do
    (f1, ptr) ← get_send_fifo_ptr f send_size recv_size break_message
    let f2 = record f1 { fifo = f1.fifo >>= λ cells. some (insert_helper ptr cells) }
    m ← get_fifo_slot_meta_push assertions f2
    f3 ← (if m.coalesce_num == 1 then fifo_increm_capacity assertions f2 else some f2)
    fifo_incr_net_capacity assertions f3

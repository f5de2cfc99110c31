-- ===== src/Fifo.antt =====
-- include/fifo/od_fifo.h: a ring of slots, its push and pull pointers and its counters.
-- An operation on `fifo_t *` takes the fifo and returns the new one. `assertions` stands for
-- ENABLE_ASSERTIONS; the result `none` is a failed assertion or an access through a null pointer.
pub mod Inv
pub mod Ring
pub mod Access
pub mod Mirror
pub mod Send
use odyssey_lib.Base.{
  Bool, List, Option, [], assert_if, false, get_elem?, if◌then◌else◌, leb, ltb, none, replicate,
  set, some, suc, true, u32, zero, ℕ, ◌%◌, ◌&&◌, ◌*◌, ◌+◌, ◌-◌, ◌==◌, ◌>>=◌, ◌>>◌, ◌^◌, ◌∷◌,
}

-- `slot_meta_t`
pub record SlotMeta : Type 0 where
  pub coalesce_num : ℕ  -- uint16_t
  pub byte_size : ℕ  -- uint32_t
  pub resp_size : ℕ  -- uint32_t
  pub backward_ptr : ℕ  -- uint32_t
  pub rm_id : ℕ  -- uint8_t

-- `fifo_t`. The buffer is the array of cells that its user casts it to, and `none` for NULL, as is
-- `slot_meta`. The field `ctx` is never read.
pub record Fifo : Type 0 where
  pub fifo : Option (List ℕ)
  pub slot_meta : Option (List SlotMeta)
  pub push_ptr : ℕ  -- uint32_t, and so are the next six
  pub pull_ptr : ℕ
  pub max_size : ℕ
  pub max_byte_size : ℕ
  pub capacity : ℕ
  pub net_capacity : ℕ
  pub slot_size : ℕ
  pub mes_header : ℕ  -- uint16_t

abbrev pub mtu : ℕ
mtu = 4096

unfoldable pub mod_decr : ℕ → ℕ → ℕ
mod_decr x n = u32 (n + x + 0xffffffff) % n

unfoldable pub mod_incr : ℕ → ℕ → ℕ
mod_incr x n = u32 (x + 1) % n

abbrev pub is_some {ℓ} : {A : Type ℓ} → Option A → Bool
is_some none = false
is_some (some _) = true

-- the conditions that `check_fifo` asserts
abbrev pub fifo_checks : Fifo → Bool
fifo_checks f =
    is_some f.fifo
    && (ltb 0 f.max_size
        && (ltb 0 f.slot_size
            && (leb f.capacity f.max_size
                && ((u32 (f.slot_size * f.max_size) == f.max_byte_size)
                    && (ltb f.push_ptr f.max_size && ltb f.pull_ptr f.max_size)))))

abbrev pub blank_meta : SlotMeta
blank_meta = record { coalesce_num = 0; byte_size = 0; resp_size = 0; backward_ptr = 0; rm_id = 0 }

module _ (assertions : Bool) where
  unfoldable pub check_fifo : Fifo → Option (Unit {0})
  check_fifo f = assert_if assertions (fifo_checks f)

  unfoldable pub check_slot_and_slot_meta : Fifo → ℕ → Option (Unit {0})
  check_slot_and_slot_meta f slot_no = do
    assert_if assertions (ltb slot_no f.max_size)
    assert_if assertions (is_some f.slot_meta)

  -- One round of the constructor's loop: `calloc` gives zeroed memory, here `cells` cells.
  unfoldable pub construct_one : ℕ → ℕ → Bool → ℕ → ℕ → Option Fifo
  construct_one max_size slot_size alloc_slot_meta mes_header cells =
      let metas =
        set (replicate max_size blank_meta) 0 (record blank_meta { byte_size = mes_header }) in
      let f : Fifo = record {
        fifo = some (replicate cells 0);
        slot_meta = if alloc_slot_meta then some metas else none;
        push_ptr = 0;
        pull_ptr = 0;
        max_size = max_size;
        max_byte_size = u32 (max_size * slot_size);
        capacity = 0;
        net_capacity = 0;
        slot_size = slot_size;
        mes_header = mes_header;
      } in
      check_fifo f >> some f

  unfoldable pub fifo_constructor : ℕ → ℕ → Bool → ℕ → ℕ → ℕ → Option (List Fifo)
  fifo_constructor max_size slot_size alloc_slot_meta mes_header cells zero = some []
  fifo_constructor max_size slot_size alloc_slot_meta mes_header cells (suc fifo_num) = do
    f ← construct_one max_size slot_size alloc_slot_meta mes_header cells
    fs ← fifo_constructor max_size slot_size alloc_slot_meta mes_header cells fifo_num
    some (f ∷ fs)

  -- The address is given as its offset in the buffer.
  unfoldable pub get_fifo_slot_private : Fifo → ℕ → ℕ → Option ℕ
  get_fifo_slot_private f slot offset = do
    check_fifo f
    assert_if assertions (ltb slot f.max_size)
    assert_if assertions (ltb (u32 (u32 (f.slot_size * slot) + offset)) f.max_byte_size)
    some (u32 (f.slot_size * slot) + offset)

  unfoldable pub get_fifo_push_slot : Fifo → Option ℕ
  get_fifo_push_slot f = get_fifo_slot_private f f.push_ptr 0

  unfoldable pub get_fifo_pull_slot : Fifo → Option ℕ
  get_fifo_pull_slot f = get_fifo_slot_private f f.pull_ptr 0

  unfoldable pub get_fifo_slot_mod : Fifo → ℕ → Option ℕ
  get_fifo_slot_mod f slot_no = get_fifo_slot_private f (slot_no % f.max_size) 0

  unfoldable pub get_fifo_push_slot_with_offset : Fifo → ℕ → Option ℕ
  get_fifo_push_slot_with_offset f offset = get_fifo_slot_private f f.push_ptr offset

  unfoldable pub get_fifo_prev_slot : Fifo → ℕ → Option ℕ
  get_fifo_prev_slot f slot_no = get_fifo_slot_private f (mod_decr slot_no f.max_size) 0

  unfoldable pub get_fifo_push_prev_slot : Fifo → Option ℕ
  get_fifo_push_prev_slot f = get_fifo_prev_slot f f.push_ptr

  unfoldable pub get_fifo_pull_prev_slot : Fifo → Option ℕ
  get_fifo_pull_prev_slot f = get_fifo_prev_slot f f.pull_ptr

  -- `relative_move` is the `int` argument, converted to uint32_t: -k is 2^32 - k.
  unfoldable pub get_fifo_push_relative_slot : Fifo → ℕ → Option ℕ
  get_fifo_push_relative_slot f relative_move =
      get_fifo_slot_mod f (u32 (f.push_ptr + relative_move))

  unfoldable pub get_fifo_pull_relative_slot : Fifo → ℕ → Option ℕ
  get_fifo_pull_relative_slot f relative_move =
      get_fifo_slot_mod f (u32 (f.pull_ptr + relative_move))

  unfoldable pub fifo_incr_push_ptr : Fifo → Option Fifo
  fifo_incr_push_ptr f = do
    check_fifo f
    let f' = record f { push_ptr = mod_incr f.push_ptr f.max_size }
    check_fifo f'
    some f'

  unfoldable pub fifo_incr_pull_ptr : Fifo → Option Fifo
  fifo_incr_pull_ptr f = do
    check_fifo f
    let f' = record f { pull_ptr = mod_incr f.pull_ptr f.max_size }
    check_fifo f'
    some f'

  unfoldable pub fifo_increm_capacity : Fifo → Option Fifo
  fifo_increm_capacity f = do
    check_fifo f
    let f' = record f { capacity = u32 (f.capacity + 1) }
    check_fifo f'
    some f'

  unfoldable pub fifo_increase_capacity : Fifo → ℕ → Option Fifo
  fifo_increase_capacity f add_num = do
    check_fifo f
    let f' = record f { capacity = u32 (f.capacity + add_num) }
    check_fifo f'
    some f'

  unfoldable pub fifo_decrem_capacity : Fifo → Option Fifo
  fifo_decrem_capacity f = do
    check_fifo f
    let f' = record f { capacity = u32 (f.capacity + 0xffffffff) }
    check_fifo f'
    some f'

  unfoldable pub fifo_decrease_capacity : Fifo → ℕ → Option Fifo
  fifo_decrease_capacity f reduce_num = do
    check_fifo f
    assert_if assertions (leb reduce_num f.capacity)
    let f' = record f { capacity = u32 (f.capacity + 2 ^ 32 - reduce_num) }
    check_fifo f'
    some f'

  unfoldable pub fifo_incr_net_capacity : Fifo → Option Fifo
  fifo_incr_net_capacity f = do
    check_fifo f
    some (record f { net_capacity = u32 (f.net_capacity + 1) })

-- `fifo->slot_meta[slot_no]`, read and written; NULL and an index out of range are faults.
abbrev pub meta_at : Fifo → ℕ → Option SlotMeta
meta_at f slot_no = f.slot_meta >>= λ metas. get_elem? metas slot_no

abbrev pub set_meta : Fifo → ℕ → SlotMeta → Fifo
set_meta f slot_no m = record f { slot_meta = f.slot_meta >>= λ metas. some (set metas slot_no m) }

module _ (assertions : Bool) where
  unfoldable pub get_fifo_slot_meta : Fifo → ℕ → Option SlotMeta
  get_fifo_slot_meta f slot_no = do
    check_fifo assertions f
    check_slot_and_slot_meta assertions f slot_no
    meta_at f slot_no

  unfoldable pub get_fifo_slot_meta_push : Fifo → Option SlotMeta
  get_fifo_slot_meta_push f = get_fifo_slot_meta f f.push_ptr

  unfoldable pub get_fifo_slot_meta_pull : Fifo → Option SlotMeta
  get_fifo_slot_meta_pull f = get_fifo_slot_meta f f.pull_ptr

  unfoldable pub fifo_get_backward_ptr : Fifo → ℕ → Option ℕ
  fifo_get_backward_ptr f slot_no = do m ← get_fifo_slot_meta f slot_no; some m.backward_ptr

  unfoldable pub fifo_set_backward_ptr : Fifo → ℕ → ℕ → Option Fifo
  fifo_set_backward_ptr f slot_no new_ptr = do
    m ← get_fifo_slot_meta f slot_no
    some (set_meta f slot_no (record m { backward_ptr = new_ptr }))

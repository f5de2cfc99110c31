-- ===== src/Fifo/Mirror.antt =====
-- include/fifo/od_fifo.h, buffer mirroring: a ring of 16-bit counts, one for each message that a
-- remote machine has buffered, from which the credits that it must have freed are inferred.
pub mod Counts
pub mod Refine
use odyssey_lib.Base.{
  Bool, List, Option, [], assert_if, assert_that, get_elem?, if◌then◌else◌, leb, length, ltb, none,
  not, set, some, suc, u16, u32, zero, ℕ, ◌+◌, ◌-◌, ◌==◌, ◌>>=◌, ◌>>◌, ◌^◌, ◌∷◌,
}
use odyssey_lib.Fifo.{Fifo, fifo_incr_pull_ptr, fifo_incr_push_ptr}

-- `fifo[slot] = v` on the array of 16-bit cells. NULL and an index out of range are faults.
unfoldable pub cell_at : Fifo → ℕ → Option ℕ
cell_at f i = f.fifo >>= λ cells. get_elem? cells i

unfoldable pub set_cell : Fifo → ℕ → ℕ → Option Fifo
set_cell f i v = f.fifo >>= λ cells.
    if ltb i (length cells) then some (record f { fifo = some (set cells i v) }) else none

module _ (assertions : Bool) where
  -- One round of the loop of `add_to_the_mirrored_buffer`. `missing` is the field `missing_num` of
  -- `*q_info`, and `none` if `q_info` is NULL; these two assertions are always compiled.
  unfoldable pub add_to_mirror : Fifo → ℕ → Option ℕ → Option Fifo
  add_to_mirror f coalesce_num missing = do
    f1 ← set_cell f f.push_ptr (u16 coalesce_num)
    f2 ← fifo_incr_push_ptr assertions f1
    let f3 = record f2 { capacity = u32 (f2.capacity + 1) }
    if ltb f3.max_size f3.capacity then (missing >>= λ m. assert_that (ltb 0 m)) else some tt
    some f3

  unfoldable pub add_to_the_mirrored_buffer : List Fifo → ℕ → Option ℕ → Option (List Fifo)
  add_to_the_mirrored_buffer [] coalesce_num missing = some []
  add_to_the_mirrored_buffer (f ∷ fs) coalesce_num missing = do
    f' ← add_to_mirror f coalesce_num missing
    fs' ← add_to_the_mirrored_buffer fs coalesce_num missing
    some (f' ∷ fs')

  -- The `while` loop on fuel: the last argument is `new_credits`.
  unfoldable pub remove_loop : ℕ → Fifo → ℕ → ℕ → Option (Fifo × ℕ)
  remove_loop zero f remove_num new_credits = none
  remove_loop (suc fuel) f remove_num new_credits =
      if remove_num == 0
      then some (f, new_credits)
      else (cell_at f f.pull_ptr >>= λ x.
          if leb x remove_num
          then (fifo_incr_pull_ptr assertions f >>= λ f1.
              assert_if assertions (not (f1.capacity == 0))
              >> remove_loop fuel (record f1 { capacity = u32 (f1.capacity + 0xffffffff) })
                  (u16 (remove_num + 2 ^ 16 - x)) (u16 (new_credits + 1)))
          else (set_cell f f.pull_ptr (u16 (x + 2 ^ 16 - remove_num)) >>= λ f1.
              remove_loop fuel f1 0 new_credits))

  -- Fuel for one round more than the fifo has entries, and the last test.
  unfoldable pub remove_from_the_mirrored_buffer : List Fifo → ℕ → ℕ → Option (Fifo × ℕ)
  remove_from_the_mirrored_buffer mirror_buf fifo_id remove_num = do
    f ← get_elem? mirror_buf fifo_id
    assert_if assertions (not (f.capacity == 0))
    remove_loop (f.capacity + 2) f remove_num 0

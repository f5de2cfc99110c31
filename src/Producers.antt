-- ===== src/Producers.antt =====
-- client/od_client.c: the producer-consumer ring of `pc_multi_session`. Each session waits until the
-- session with its number on the machine before it raises its flag, reads that session's nodes,
-- writes its own and raises its own flag. PC_IDEAL is 0. NUM_OF_RMW_KEYS is not defined in the
-- repository and is an argument. Not modelled: the statistics and printing.
pub mod Run
pub mod Stages
pub mod Order
pub mod Invariant
pub mod Releases
pub mod Answers
pub mod Rests
pub mod Rounds
pub mod Serving
pub mod Start
pub mod Polled
pub mod Safety
use odyssey_lib.Base.{
  Bool, List, Option, [], assert_if, assert_that, false, if◌then◌else◌, ltb, not, some, suc, true,
  u16, u32, u64, zero, ℕ, ◌%◌, ◌*◌, ◌+◌, ◌-◌, ◌==◌, ◌>>=◌, ◌>>◌, ◌||◌, ◌∷◌,
}
use odyssey_lib.Config.{sessions_per_machine}
use odyssey_lib.Treiber.{global_session_num}

abbrev pub pc_writes_num : ℕ
pc_writes_num = 5

-- the states that the machine uses
pub data PcState : Type 0 where
  pc_try_to_acquire : PcState
  pc_poll_local_store : PcState

-- `struct pc_ptr`, without its bytes
pub record PcPtr : Type 0 where
  pub owner : ℕ
  pub counter : ℕ  -- uint64_t

-- `struct pc_node`, without its bytes
pub record PcNode : Type 0 where
  pub owner : ℕ
  pub times_written : ℕ  -- uint64_t

-- `struct pc_sess_info`; its `last_req_id` is that of `Ring` in `Producers/Run`. `asked` is not in the
-- program: it says whether the session has read its flag, so that `last_req_id` is given.
pub record PcSess : Type 0 where
  pub state : PcState
  pub real_sess_i : ℕ
  pub glob_sess_i : ℕ
  pub session_to_acquire_from : ℕ
  pub asked : Bool
  pub flag_to_acquire : ℕ
  pub flag_to_release : ℕ
  pub w_key : ℕ
  pub r_key : ℕ
  pub acq_num : ℕ
  pub rel_num : ℕ
  pub node_to_read : PcNode
  pub node_to_write : PcNode
  pub rel_flag : PcPtr
  pub acq_flag : PcPtr

-- The calls of the client interface: `async_read_strong` and `async_acquire_strong` of a flag into
-- `acq_flag`, `async_read_strong` of a node into `node_to_read`, `async_write_strong` of a node and
-- `async_release_strong` of a flag.
pub data PcOp : Type 0 where
  read_flag : (key : ℕ) → PcOp
  acquire_flag : (key : ℕ) → PcOp
  read_part : (key : ℕ) → PcOp
  write_part : (key : ℕ) (value : PcNode) → PcOp
  release_flag : (key : ℕ) (value : PcPtr) → PcOp

-- The loop of a round from `i` on, of `n` parts, and the release after it
abbrev pub parts_from : PcSess → ℕ → ℕ → List PcOp
parts_from x zero i = release_flag x.flag_to_release x.rel_flag ∷ []
parts_from x (suc n) i =
    read_part (x.r_key + i) ∷ write_part (x.w_key + i) x.node_to_write ∷ parts_from x n (i + 1)

-- The loop of `pc_init_flags`, and the release after it
abbrev pub writes_from : PcSess → ℕ → ℕ → List PcOp
writes_from x zero i = release_flag x.flag_to_release x.rel_flag ∷ []
writes_from x (suc n) i = write_part (x.w_key + i) x.node_to_write ∷ writes_from x n (i + 1)

-- The session after a round: its node is written once more and its flag goes up.
abbrev pub next_round : PcSess → PcSess
next_round x = record x {
  node_to_write = record x.node_to_write {
    times_written = u64 (x.node_to_write.times_written + 1);
  };
  rel_flag = record x.rel_flag { counter = u64 (x.rel_flag.counter + 1) };
  acq_num = u64 (x.acq_num + 1);
  rel_num = u64 (x.rel_num + 1);
  state = pc_poll_local_store;
}

module _ (client_assertions : Bool) where
  -- The flag is seen raised.
  unfoldable pub pc_round : PcSess → Option (PcSess × List PcOp)
  pc_round x = do
    assert_if client_assertions (x.node_to_write.times_written == x.rel_num)
    assert_if client_assertions (x.node_to_write.owner == x.glob_sess_i)
    assert_if client_assertions
        (not (ltb 0 x.acq_num) || x.node_to_read.owner == x.session_to_acquire_from)
    assert_if client_assertions (not (ltb 0 x.acq_num) || x.node_to_read.times_written == x.acq_num)
    assert_that (u64 (x.rel_flag.counter + 1) == u64 (x.rel_num + 1))
    some (next_round x, acquire_flag x.flag_to_acquire ∷ parts_from (next_round x) pc_writes_num 0)

  unfoldable pub pc_in : PcState → PcSess → Option (PcSess × List PcOp)
  pc_in pc_poll_local_store x =
      some (record x { asked = true; state = pc_try_to_acquire }, read_flag x.flag_to_acquire ∷ [])
  pc_in pc_try_to_acquire x =
      if x.acq_flag.counter == u64 (x.acq_num + 1)
      then pc_round x
      else some (record x { state = pc_poll_local_store }, [])

  -- One round of the loop of `pc_per_sess_state_machine` for one session
  unfoldable pub pc_per_sess_state_machine : PcSess → Option (PcSess × List PcOp)
  pc_per_sess_state_machine x =
      assert_if client_assertions (ltb x.real_sess_i sessions_per_machine) >> pc_in x.state x

abbrev pub zero_ptr : PcPtr
zero_ptr = record { owner = 0; counter = 0 }

abbrev pub zero_part : PcNode
zero_part = record { owner = 0; times_written = 0 }

-- `session_to_acquire_from` of a session
abbrev pub from_session : ℕ → ℕ
from_session g = u16 ((global_session_num + g - sessions_per_machine) % global_session_num)

module _ (num_of_rmw_keys : ℕ) where
  abbrev pub pc_node_offset : ℕ
  pc_node_offset = num_of_rmw_keys + global_session_num

  -- A session as `pc_multi_session` sets it up, by the machine and the session's number on it.
  unfoldable pub init_pc_sess : ℕ → ℕ → PcSess
  init_pc_sess machine_id real_sess_i =
      let g = u16 (sessions_per_machine * machine_id + real_sess_i) in
      record {
        state = pc_try_to_acquire;
        real_sess_i = real_sess_i;
        glob_sess_i = g;
        session_to_acquire_from = from_session g;
        asked = false;
        flag_to_acquire = u32 (num_of_rmw_keys + from_session g);
        flag_to_release = u32 (num_of_rmw_keys + g);
        w_key = u32 (pc_node_offset + g * pc_writes_num);
        r_key = u32 (pc_node_offset + from_session g * pc_writes_num);
        acq_num = 0;
        rel_num = 0;
        node_to_read = zero_part;
        node_to_write = record zero_part { owner = g };
        rel_flag = zero_ptr;
        acq_flag = zero_ptr;
      }

  -- `pc_init_flags` for one session: its node is written and its flag raised.
  unfoldable pub pc_init_flags : PcSess → PcSess × List PcOp
  pc_init_flags x =
      let y : PcSess = record x {
        node_to_write = record x.node_to_write { owner = x.glob_sess_i; times_written = 1 };
        rel_flag = record { counter = 1; owner = x.glob_sess_i };
        rel_num = 1;
      } in
      (y, writes_from y pc_writes_num 0)

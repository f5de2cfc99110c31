-- ===== src/Network/Operations.antt =====
-- src/network_api/od_main_loop_api.c: a worker fills in an operation from the request that a client has
-- pushed. ENABLE_CLIENTS is on; the other branch of `create_inputs_of_op` reads a trace.
pub mod Pull
use odyssey_lib.Base.{
  Bool, List, Option, assert_if, if◌then◌else◌, leb, ltb, not, some, true, ℕ, ◌%◌, ◌&&◌, ◌+◌, ◌-◌,
  ◌==◌, ◌>>=◌, ◌>>◌, ◌||◌,
}
use odyssey_lib.Client.{Session, mod_incr_16, slot_at}
use odyssey_lib.Client.Worker.{is_client_req_active, signal_in_progress_to_client}
use odyssey_lib.Config.{per_session_req_num, sessions_per_thread, value_size}

-- `ctx_trace_op_t`. The pointers to values are to those of the request: the bytes at `value_to_write`, and
-- the address in `value_to_read`.
pub record TraceOp : Type 0 where
  pub key : ℕ
  pub value_to_write : List ℕ
  pub value_to_read : Option ℕ
  pub index_to_req_array : ℕ
  pub real_val_len : ℕ
  pub session_id : ℕ
  pub opcode : ℕ
  pub val_len : ℕ

module _ (assertions : Bool) where
  unfoldable pub check_client_req_state_when_filling_op : ℕ → ℕ → ℕ → Session → Option (Unit {0})
  check_client_req_state_when_filling_op working_session pull_ptr t_id s =
      if assertions
      then (do
        active ← is_client_req_active assertions working_session pull_ptr t_id s
        assert_if assertions active
        let next_pull_ptr = (pull_ptr + 1) % per_session_req_num
        let prev_pull_ptr = (per_session_req_num + pull_ptr - 1) % per_session_req_num
        next_active ← is_client_req_active assertions working_session next_pull_ptr t_id s
        if (not next_active && not (next_pull_ptr == prev_pull_ptr))
              && not (prev_pull_ptr == pull_ptr)
            then (is_client_req_active assertions working_session prev_pull_ptr t_id s
                >>= λ prev_active. assert_if assertions (not prev_active))
            else some tt)
      else some tt

  unfoldable pub create_inputs_of_op : ℕ → ℕ → Session → TraceOp → Option TraceOp
  create_inputs_of_op working_session t_id s op = do
    let pull_ptr = s.wrkr_pull_ptr
    let if_cl_op = slot_at s pull_ptr
    check_client_req_state_when_filling_op working_session pull_ptr t_id s
    some (record op {
      opcode = if_cl_op.opcode;
      key = if_cl_op.key;
      real_val_len = if_cl_op.val_len;
      value_to_write = if_cl_op.value_to_write;
      value_to_read = if_cl_op.value_to_read;
      index_to_req_array = pull_ptr;
    })

  -- `bkt` is the member of that name of a key. Only reads and writes are allowed.
  unfoldable pub od_check_op : (ℕ → ℕ) → TraceOp → Option (Unit {0})
  od_check_op bkt op = do
    assert_if assertions (op.opcode == 112 || op.opcode == 111)
    assert_if assertions (ltb 0 op.real_val_len)
    assert_if assertions (ltb op.index_to_req_array per_session_req_num)
    assert_if assertions (ltb op.session_id sessions_per_thread)
    assert_if assertions (ltb 0 (bkt op.key))

  -- `write_ratio` is a global of the trace. The second assertion is always on.
  unfoldable pub od_fill_trace_op :
      (ℕ → ℕ) → ℕ → ℕ → ℕ → Session → TraceOp → Option (Session × TraceOp)
  od_fill_trace_op bkt write_ratio working_session t_id s op = do
    op1 ← create_inputs_of_op working_session t_id s op
    od_check_op bkt op1
    assert_if assertions (not (op1.opcode == 0))
    let is_update = op1.opcode == 112
    assert_if true (not (leb 1000 write_ratio) || is_update)
    let op2 = record op1 {
      val_len = (if is_update then value_size else 0);
      session_id = working_session;
    }
    s1 ← signal_in_progress_to_client assertions op2.session_id op2.index_to_req_array t_id s
    assert_if assertions (s1.wrkr_pull_ptr == op2.index_to_req_array)
    let s2 = record s1 { wrkr_pull_ptr = mod_incr_16 s1.wrkr_pull_ptr per_session_req_num }
    assert_if assertions (ltb 0 write_ratio || not is_update)
    assert_if assertions (not is_update || ltb 0 op2.val_len)
    some (s2, op2)

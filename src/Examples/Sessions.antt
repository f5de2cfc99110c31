-- ===== src/Examples/Sessions.antt =====
-- A client session at concrete values.
use odyssey_lib.Base.{
  Option, [], arith, false, inl, none, refl, some, suc, true, zero, ℕ, ◌%◌, ◌+◌, ◌<◌, ◌∷◌, ◌≡◌, ◌≤◌,
}
use odyssey_lib.Client.{
  ClientOp, ReqState, Request, Session, active_req, cas_blocking, check_inputs, completed_req,
  fill_client_op, in_progress_req, is_in_progress, is_invalid, no_op, opcode_of,
  rlxd_write_blocking, set_state, slot_at, state_at,
}
use odyssey_lib.Client.Api.{access_async, poll, request_no}
use odyssey_lib.Client.Calls.{access_async-Window, poll-Window}
use odyssey_lib.Client.Rmw.{
  ClientMem, cas_answer, fill_cas, fill_req_array_when_after_rmw,
  fill_req_array_when_after_rmw-Answers,
}
use odyssey_lib.Client.Window.{Window}
use odyssey_lib.Client.Worker.{check_session_id_and_req_array_index, is_client_req_active}
use odyssey_lib.Network.Operations.{
  TraceOp, check_client_req_state_when_filling_op, od_fill_trace_op,
}
use odyssey_lib.Network.Operations.Pull.{Pullable, filled, od_fill_trace_op-Window}

abbrev op_with : ReqState → ClientOp
op_with st = record no_op { state = st }

-- Two requests are pending, the older one is completed.
abbrev busy : Session
busy = record {
  req_array = op_with completed_req ∷ op_with active_req ∷ no_op ∷ no_op ∷ no_op ∷ [];
  clt_push_ptr = 2;
  clt_pull_ptr = 0;
  wrkr_pull_ptr = 1;
  last_pulled_req = 10;
  last_pushed_req = 12;
}

busy_used : (k : ℕ) → k < 2 → is_invalid (state_at busy ((0 + k) % 5)) ≡ false
busy_used zero h = refl
busy_used (suc zero) h = refl
busy_used (suc (suc k)) h = absurd (omega arith)

busy_free : (k : ℕ) → 2 ≤ k → k < 5 → is_invalid (state_at busy ((0 + k) % 5)) ≡ true
busy_free zero a h = absurd (omega arith)
busy_free (suc zero) a h = absurd (omega arith)
busy_free (suc (suc zero)) a h = refl
busy_free (suc (suc (suc zero))) a h = refl
busy_free (suc (suc (suc (suc zero)))) a h = refl
busy_free (suc (suc (suc (suc (suc k))))) a h = absurd (omega arith)

busy-Window : Window busy
busy-Window = record {
  five = refl;
  pull = omega arith;
  pulled = omega arith;
  counted = omega arith;
  bounded = omega arith;
  push = refl;
  used = busy_used;
  free = busy_free;
}

-- A write of two bytes to key 3.
abbrev a_write : Request
a_write = record {
  session_id = 7;
  key_id = 3;
  value_to_read = none;
  value_to_write = some (1 ∷ 2 ∷ []);
  val_len = 2;
  cas_result = none;
  rmw_is_weak = false;
  type = rlxd_write_blocking;
}

a_write_fine : check_inputs a_write ≡ none
unfolding check_inputs
a_write_fine = refl

abbrev same_key : ℕ → ℕ
same_key k = k

abbrev idle_worker : Session → Session
idle_worker s = s

poll-Window_example :
    (r : Session) × (poll true busy ≡ some r)
    × Window r
    × (r.last_pushed_req ≡ 12)
    × (r.last_pulled_req ≡ 11)
poll-Window_example = poll-Window true busy busy-Window

access_async-Window_example :
    (t : Session) × (access_async true same_key idle_worker 1 false a_write busy
      ≡ some (request_no 13, t))
    × Window t
    × (t.last_pushed_req ≡ 13)
    × (t.last_pulled_req ≡ 10)
    × (slot_at t 2 ≡ record (fill_client_op same_key a_write no_op) { state = active_req })
access_async-Window_example =
    access_async-Window true busy busy-Window same_key idle_worker 1 false a_write a_write_fine
      (omega arith) (omega arith)

-- Its second request is in progress.
abbrev working : Session
working = set_state busy 1 in_progress_req

working_used : (k : ℕ) → k < 2 → is_invalid (state_at working ((0 + k) % 5)) ≡ false
working_used zero h = refl
working_used (suc zero) h = refl
working_used (suc (suc k)) h = absurd (omega arith)

working_free : (k : ℕ) → 2 ≤ k → k < 5 → is_invalid (state_at working ((0 + k) % 5)) ≡ true
working_free zero a h = absurd (omega arith)
working_free (suc zero) a h = absurd (omega arith)
working_free (suc (suc zero)) a h = refl
working_free (suc (suc (suc zero))) a h = refl
working_free (suc (suc (suc (suc zero)))) a h = refl
working_free (suc (suc (suc (suc (suc k))))) a h = absurd (omega arith)

working-Window : Window working
working-Window = record {
  five = refl;
  pull = omega arith;
  pulled = omega arith;
  counted = omega arith;
  bounded = omega arith;
  push = refl;
  used = working_used;
  free = working_free;
}

-- A worker that pulls a write of two bytes.
abbrev pulling : Session
pulling = record busy {
  req_array =
      op_with completed_req
      ∷ record (op_with active_req) { opcode = 112; val_len = 2; key = 9 }
      ∷ no_op
      ∷ no_op
      ∷ no_op
      ∷ [];
}

pulling_used : (k : ℕ) → k < 2 → is_invalid (state_at pulling ((0 + k) % 5)) ≡ false
pulling_used zero h = refl
pulling_used (suc zero) h = refl
pulling_used (suc (suc k)) h = absurd (omega arith)

pulling_free : (k : ℕ) → 2 ≤ k → k < 5 → is_invalid (state_at pulling ((0 + k) % 5)) ≡ true
pulling_free zero a h = absurd (omega arith)
pulling_free (suc zero) a h = absurd (omega arith)
pulling_free (suc (suc zero)) a h = refl
pulling_free (suc (suc (suc zero))) a h = refl
pulling_free (suc (suc (suc (suc zero)))) a h = refl
pulling_free (suc (suc (suc (suc (suc k))))) a h = absurd (omega arith)

pulling-Window : Window pulling
pulling-Window = record {
  five = refl;
  pull = omega arith;
  pulled = omega arith;
  counted = omega arith;
  bounded = omega arith;
  push = refl;
  used = pulling_used;
  free = pulling_free;
}

pulling-Pullable : Pullable same_key 500 3 2 pulling
pulling-Pullable = record {
  window = pulling-Window;
  inside = omega arith;
  active = refl;
  read_or_write = inl refl;
  some_value = omega arith;
  some_bkt = omega arith;
  session = omega arith;
  worker = omega arith;
  ratio = (omega arith, omega arith);
}

pulling_checked : check_client_req_state_when_filling_op true 3 1 2 pulling ≡ some tt
unfolding check_client_req_state_when_filling_op is_client_req_active
    check_session_id_and_req_array_index
pulling_checked = refl

abbrev empty_op : TraceOp
empty_op = record {
  key = 0;
  value_to_write = [];
  value_to_read = none;
  index_to_req_array = 0;
  real_val_len = 0;
  session_id = 0;
  opcode = 0;
  val_len = 0;
}

od_fill_trace_op-Window_example :
    (t : Session) × (od_fill_trace_op true same_key 500 3 2 pulling empty_op
      ≡ some (t, filled true 3 pulling 112))
    × Window t
    × (is_in_progress (state_at t 1) ≡ true)
    × (t.wrkr_pull_ptr ≡ 2)
od_fill_trace_op-Window_example =
    od_fill_trace_op-Window true same_key 500 3 2 pulling empty_op pulling-Pullable (omega arith)
      pulling_checked

-- A compare-and-swap of two bytes that fails: its flag is at address 4, its buffer at 7.
abbrev cas_request : Request
cas_request = record {
  session_id = 0;
  key_id = 5;
  value_to_read = some 7;
  value_to_write = some (1 ∷ 2 ∷ []);
  val_len = 2;
  cas_result = some 4;
  rmw_is_weak = true;
  type = cas_blocking;
}

abbrev cas_session : Session
cas_session = record busy { req_array = fill_client_op (λ k. k) cas_request no_op ∷ busy.req_array }

abbrev client_mem : ClientMem
client_mem = record { flags = λ _. true; buffers = λ _. 0 ∷ 0 ∷ 0 ∷ [] }

-- The same request with a NULL pointer for its flag.
abbrev null_request : Request
null_request = record cas_request { cas_result = none }

abbrev null_session : Session
null_session = record busy {
  req_array = fill_client_op (λ k. k) null_request no_op ∷ busy.req_array;
}

null_accepted : check_inputs null_request ≡ none
unfolding check_inputs
null_accepted = refl

cas_answered :
    fill_req_array_when_after_rmw true 0
      (slot_at cas_session 0).opcode
      (some (8 ∷ 9 ∷ []))
      false
      cas_session
      client_mem
    ≡ some (cas_answer 4 7 2 (8 ∷ 9 ∷ []) false client_mem)
unfolding fill_client_op opcode_of fill_req_array_when_after_rmw fill_cas
cas_answered = refl

fill_req_array_when_after_rmw-Answers_example :
    (fill_req_array_when_after_rmw false 0
        (slot_at null_session 0).opcode
        (some (8 ∷ 9 ∷ []))
        false
        null_session
        client_mem
      ≡ none)
    × ((place : Option ℕ)
        → check_inputs (record null_request { cas_result = place }) ≡ check_inputs null_request)
fill_req_array_when_after_rmw-Answers_example =
    fill_req_array_when_after_rmw-Answers false (λ k. k) null_request no_op null_session 0 7 refl
      refl refl (8 ∷ 9 ∷ []) false client_mem

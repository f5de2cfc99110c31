-- ===== src/Client/Worker.antt =====
-- client/od_wrkr_side_calls.c: what a worker does with the requests of a session. `t_id` and
-- `sess_id` name the session; ENABLE_CLIENTS is on.
use odyssey_lib.Base.{
  Bool, Option, assert_if, false, if◌then◌else◌, ltb, not, set, some, suc, zero, ℕ, ◌+◌, ◌==◌,
  ◌>>=◌, ◌>>◌,
}
use odyssey_lib.Client.{
  Session, completed_req, in_progress_req, is_active, is_in_progress, set_state, slot_at, state_at,
}
use odyssey_lib.Config.{per_session_req_num, sessions_per_thread, workers_per_machine}

module _ (assertions : Bool) where
  unfoldable pub check_session_id_and_req_array_index : ℕ → ℕ → ℕ → Option (Unit {0})
  check_session_id_and_req_array_index sess_id req_array_i t_id = do
    assert_if assertions (ltb sess_id sessions_per_thread)
    assert_if assertions (ltb req_array_i per_session_req_num)
    assert_if assertions (ltb t_id workers_per_machine)

  unfoldable pub signal_completion_to_client : ℕ → ℕ → ℕ → Session → Option Session
  signal_completion_to_client sess_id req_array_i t_id s = do
    check_session_id_and_req_array_index sess_id req_array_i t_id
    assert_if assertions (is_in_progress (state_at s req_array_i))
    some (set_state s req_array_i completed_req)

  abbrev pub clear_key : Session → ℕ → Session
  clear_key s i = record s { req_array = set s.req_array i (record (slot_at s i) { key = 0 }) }

  unfoldable pub signal_in_progress_to_client : ℕ → ℕ → ℕ → Session → Option Session
  signal_in_progress_to_client sess_id req_array_i t_id s = do
    check_session_id_and_req_array_index sess_id req_array_i t_id
    assert_if assertions (is_active (state_at s req_array_i))
    some (set_state (if assertions then clear_key s req_array_i else s) req_array_i in_progress_req)

  unfoldable pub is_client_req_active : ℕ → ℕ → ℕ → Session → Option Bool
  is_client_req_active sess_id req_array_i t_id s = do
    check_session_id_and_req_array_index sess_id req_array_i t_id
    some (is_active (state_at s req_array_i))

  -- The loop of `any_request_active`, for `n` slots from `i` on.
  unfoldable pub any_active_loop : ℕ → ℕ → ℕ → ℕ → ℕ → Session → Option Bool
  any_active_loop sess_id req_array_i t_id zero i s = some false
  any_active_loop sess_id req_array_i t_id (suc n) i s =
      is_client_req_active sess_id i t_id s >>= (λ active.
        if active
        then some (not (i == req_array_i))
        else any_active_loop sess_id req_array_i t_id n (i + 1) s)

  unfoldable pub any_request_active : ℕ → ℕ → ℕ → Session → Option Bool
  any_request_active sess_id req_array_i t_id s =
      any_active_loop sess_id req_array_i t_id per_session_req_num 0 s

  unfoldable pub od_pull_request_from_this_session : Bool → ℕ → ℕ → Session → Option Bool
  od_pull_request_from_this_session stalled sess_i t_id s = do
    assert_if assertions (ltb sess_i sessions_per_thread)
    assert_if assertions (ltb s.wrkr_pull_ptr per_session_req_num)
    if stalled then some false else is_client_req_active sess_i s.wrkr_pull_ptr t_id s

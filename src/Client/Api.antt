-- ===== src/Client/Api.antt =====
-- client_api/od_interface.c: polling and issuing requests. A round of polling reads what the worker
-- has done since the last: `worker` is what it does to the session in between. None stands for a
-- failed assertion, and for polling that has not ended when `fuel` runs out.
-- What `access_async` and `access_blocking` return, an int: a negative number, as an error is,
-- without its sign, or another number.
use odyssey_lib.Base.{
  Bool, Option, assert_if, assert_that, false, if◌then◌else◌, leb, ltb, none, set, some, suc, u32,
  u64, zero, ℕ, ◌+◌, ◌-◌, ◌==◌, ◌>>=◌, ◌>>◌, ◌^◌,
}
use odyssey_lib.Client.{
  Request, Session, active_req, check_inputs, fill_client_op, invalid_req, is_completed, is_invalid,
  mod_incr_16, set_state, slot_at, state_at,
}
use odyssey_lib.Config.{per_session_req_num}

pub data Returned : Type 0 where
  error_code : ℕ → Returned
  request_no : ℕ → Returned

-- `return (int) last_pushed_req[session_id];`: from 2^31 on the number is negative, like an error.
unfoldable pub as_int : ℕ → Returned
as_int n = if ltb (u32 n) (2 ^ 31) then request_no (u32 n) else error_code (2 ^ 32 - u32 n)

module _ (assertions : Bool) where
  unfoldable pub check_push_pull_ptrs : Session → Option (Unit {0})
  check_push_pull_ptrs s =
      assert_if assertions
        (u64 (s.last_pushed_req + 2 ^ 64 - s.last_pulled_req) == per_session_req_num)

  -- A round of the loop of `poll`. The slot is that of the pull pointer when `poll` is called.
  unfoldable pub poll_round : ℕ → Session → Option Session
  poll_round pull_ptr s =
      let cleared = set_state s pull_ptr invalid_req in
      do
        assert_if assertions (is_invalid (state_at cleared cleared.clt_push_ptr))
        some (record cleared {
          clt_pull_ptr = mod_incr_16 s.clt_pull_ptr per_session_req_num;
          last_pulled_req = u64 (s.last_pulled_req + 1);
        })

  unfoldable pub poll_loop : ℕ → ℕ → Session → Option Session
  poll_loop zero pull_ptr s = none
  poll_loop (suc fuel) pull_ptr s =
      if is_completed (state_at s pull_ptr)
      then poll_round pull_ptr s >>= (λ r. poll_loop fuel pull_ptr r)
      else some s

  -- The first round leaves the slot invalid, so the loop tests its condition twice at most.
  unfoldable pub poll : Session → Option Session
  poll s = poll_loop 2 s.clt_pull_ptr s

  unfoldable pub poll_until : (Session → Session) → ℕ → ℕ → Session → Option Session
  poll_until worker zero target s = none
  poll_until worker (suc fuel) target s =
      poll (worker s)
      >>= (λ r. if leb target r.last_pulled_req then some r else poll_until worker fuel target r)

  unfoldable pub poll_all_reqs : (Session → Session) → ℕ → Session → Option Session
  poll_all_reqs worker fuel s = poll_until worker fuel s.last_pushed_req s

  unfoldable pub poll_a_req_async : Session → ℕ → Option (Session × Bool)
  poll_a_req_async s target = do r ← poll s; some (r, leb target r.last_pulled_req)

  unfoldable pub poll_a_req_blocking : (Session → Session) → ℕ → Session → ℕ → Option Session
  poll_a_req_blocking worker fuel s target =
      if leb target s.last_pulled_req then some s else poll_until worker fuel target s

  unfoldable pub poll_one_req_blocking : (Session → Session) → ℕ → Session → Option Session
  poll_one_req_blocking worker fuel s = do
    r ← poll_until worker fuel (s.last_pulled_req + 1) s
    assert_if assertions (is_invalid (state_at r r.clt_push_ptr))
    some r

  unfoldable pub is_polled : Session → ℕ → Bool
  is_polled s target = leb target s.last_pulled_req

  -- the part of `access_async` and `access_blocking` that issues the request
  unfoldable pub issue : (ℕ → ℕ) → Request → ℕ → Session → Session
  issue hash r push_ptr s =
      let op = record (fill_client_op hash r (slot_at s push_ptr)) { state = active_req } in
      record s {
        req_array = set s.req_array push_ptr op;
        clt_push_ptr = mod_incr_16 s.clt_push_ptr per_session_req_num;
        last_pushed_req = u64 (s.last_pushed_req + 1);
      }

  -- `access_async` waits for the slot of the push pointer to be free. When it is not, and the access
  -- is weak, the code asserts false.
  unfoldable pub free_async : Bool → (Session → Session) → ℕ → Session → Option Session
  free_async strong worker fuel s = if is_invalid (state_at s s.clt_push_ptr) then some s else (do
    check_push_pull_ptrs s
    t ← poll s
    if is_invalid (state_at t s.clt_push_ptr)
        then some t
        else if strong
        then (do
          u ← poll_one_req_blocking worker fuel t
          assert_if assertions (is_invalid (state_at u s.clt_push_ptr))
          some u)
        else none)

  unfoldable pub free_blocking : (Session → Session) → ℕ → Session → Option Session
  free_blocking worker fuel s = if is_invalid (state_at s s.clt_push_ptr) then some s else (do
    t ← poll s
    if is_invalid (state_at t s.clt_push_ptr) then some t else (do
      u ← poll_one_req_blocking worker fuel t
      assert_that (is_invalid (state_at u s.clt_push_ptr))
      some u))

  unfoldable pub access_async :
      (ℕ → ℕ) → (Session → Session) → ℕ → Bool → Request → Session → Option (Returned × Session)
  access_async hash worker fuel strong r s = elim (check_inputs r) [
    | some e ↦ assert_if assertions false >> some (error_code e, s)
    | none ↦ do
      t ← free_async strong worker fuel s
      assert_if assertions (is_invalid (state_at t s.clt_push_ptr))
      let u = issue hash r s.clt_push_ptr t
      some (as_int u.last_pushed_req, u)
  ]

  unfoldable pub access_blocking :
      (ℕ → ℕ) → (Session → Session) → ℕ → Request → Session → Option (Returned × Session)
  access_blocking hash worker fuel r s = elim (check_inputs r) [
    | some e ↦ some (error_code e, s)
    | none ↦ do
      t ← free_blocking worker fuel s
      u ← poll_all_reqs worker fuel (issue hash r s.clt_push_ptr t)
      assert_if assertions (u.clt_push_ptr == u.clt_pull_ptr)
      some (request_no 1, u)
  ]

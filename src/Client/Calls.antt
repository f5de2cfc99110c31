-- ===== src/Client/Calls.antt =====
-- What polling and issuing requests do to the window of a session.
use odyssey_lib.Base.{
  Bool, Bool-cases, ap, arith, assert_if, assert_if-true, dec_lt, false, get_or-set_self,
  if◌then◌else◌, inl, inr, lt→ltb, none, refl, some, sym, true, true-ne_false, u32, u64, ℕ, ◌%◌,
  ◌+◌, ◌<◌, ◌^◌, ◌∙◌, ◌≡◌,
}
use odyssey_lib.Client.{
  ReqState, Request, Session, active_req, check_inputs, completed_req, fill_client_op,
  in_progress_req, invalid_req, is_completed, is_invalid, no_op, set_state, slot_at, state_at,
}
use odyssey_lib.Client.Api.{
  access_async, as_int, free_async, issue, poll, poll_loop, poll_round, request_no,
}
use odyssey_lib.Client.Window.{
  Window, issue-Window, issued, pending, polled, polled-Window, push_free, state_same,
}
use odyssey_lib.Config.{per_session_req_num}

completed-used : (st : ReqState) → is_completed st ≡ true → is_invalid st ≡ false
completed-used invalid_req h = absurd (true-ne_false (sym h))
completed-used active_req h = refl
completed-used in_progress_req h = refl
completed-used completed_req h = refl

module _ (assertions : Bool) (s : Session) (w : Window s) where
  completed-pending : is_completed (state_at s s.clt_pull_ptr) ≡ true → 0 < pending s
  completed-pending done = elim (dec_lt 0 (pending s)) [
    | yes lt ↦ lt
    | no empty ↦
        let at : (s.clt_pull_ptr + 0) % per_session_req_num ≡ s.clt_pull_ptr =
          omega (arith, w.pull) in
        absurd (
          true-ne_false (
            sym
              (ap (λ i. is_invalid (state_at s i)) (sym at) ∙ w.free 0 (omega arith) (omega arith))
            ∙ completed-used (state_at s s.clt_pull_ptr) done))
  ]

  poll_round-runs :
      is_completed (state_at s s.clt_pull_ptr) ≡ true
      → poll_round assertions s.clt_pull_ptr s ≡ some (polled s w)
  unfolding poll_round
  poll_round-runs done =
      let p = polled-Window s w (completed-pending done) in
      let fits : pending (polled s w) < per_session_req_num =
        omega (arith, w.pulled, w.counted, w.bounded, completed-pending done) in
      let ok : assert_if assertions
            (is_invalid (state_at (set_state s s.clt_pull_ptr invalid_req) s.clt_push_ptr))
          ≡ some tt =
        assert_if-true assertions (push_free (polled s w) p fits) in
      rw ok refl

  -- `poll` on a window returns, its assertions hold, and it leaves a window in which as many requests
  -- were pushed; it pulls one request when the one at the pull pointer is completed, and no request
  -- otherwise.
  pub poll-Window :
      (r : Session) × (poll assertions s ≡ some r)
      × Window r
      × (r.last_pushed_req ≡ s.last_pushed_req)
      × (r.last_pulled_req ≡ (
          if is_completed (state_at s s.clt_pull_ptr)
          then s.last_pulled_req + 1
          else s.last_pulled_req))
  unfolding poll poll_loop poll_round
  poll-Window = elim (Bool-cases (is_completed (state_at s s.clt_pull_ptr))) [
    | inr waiting ↦ (s, rw waiting refl, w, refl, rw waiting refl)
    | inl done ↦
        let p = polled-Window s w (completed-pending done) in
        let cleared : is_completed
              (state_at (set_state s s.clt_pull_ptr invalid_req) s.clt_pull_ptr)
            ≡ false =
          ap is_completed (state_same s w s.clt_pull_ptr _ w.pull) in
        (
          polled s w,
          rw (done, poll_round-runs done, cleared) refl,
          p,
          refl,
          rw done (omega (arith, w.pulled, w.counted)),
        )
  ]

  module _ (hash : ℕ → ℕ) (worker : Session → Session) (fuel : ℕ) (strong : Bool) (r : Request)
      (fine : check_inputs r ≡ none) (room : pending s < per_session_req_num)
      (small : s.last_pushed_req + 1 < 2 ^ 31) where
    -- On a window, while fewer than 2^31 requests are pushed, `access_async` with inputs that pass
    -- the checks and a slot free returns the number of the new request without polling, and leaves a
    -- window with one more request pending, that is active and holds what `fill_client_op` writes.
    pub access_async-Window :
        (t : Session) × (access_async assertions hash worker fuel strong r s
          ≡ some (request_no (s.last_pushed_req + 1), t))
        × Window t
        × (t.last_pushed_req ≡ s.last_pushed_req + 1)
        × (t.last_pulled_req ≡ s.last_pulled_req)
        × (slot_at t s.clt_push_ptr
            ≡ record (fill_client_op hash r (slot_at s s.clt_push_ptr)) { state = active_req })
    unfolding access_async free_async issue as_int
    access_async-Window =
        let empty = push_free s w room in
        let ok : assert_if assertions (is_invalid (state_at s s.clt_push_ptr)) ≡ some tt =
          assert_if-true assertions empty in
        let n : u64 (s.last_pushed_req + 1) ≡ s.last_pushed_req + 1 = omega (arith, small) in
        let k : u32 (s.last_pushed_req + 1) ≡ s.last_pushed_req + 1 = omega (arith, small) in
        let positive = lt→ltb (s.last_pushed_req + 1) (2 ^ 31) small in
        (
          issued s w hash r room assertions,
          rw (fine, empty, ok, n, access_async, free_async, as_int, k, positive) refl,
          issue-Window s w hash r room assertions (omega (arith, small)),
          n,
          refl,
          get_or-set_self s.req_array s.clt_push_ptr _ no_op (omega (arith, w.five, w.push)),
        )

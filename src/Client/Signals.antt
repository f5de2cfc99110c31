-- ===== src/Client/Signals.antt =====
-- What the worker's signals do to the window of a session.
use odyssey_lib.Base.{
  Bool, ap, assert_if-true, false, get_or, get_or-set_ne, if◌then◌else◌, length-set, lt→ltb, refl,
  set, some, subst, sym, true, true-ne_false, ℕ, ℕ_discrete, ◌<◌, ◌∙◌, ◌≡◌, ◌≢◌,
}
use odyssey_lib.Client.{
  ClientOp, ReqState, Session, active_req, completed_req, in_progress_req, invalid_req, is_active,
  is_completed, is_in_progress, is_invalid, no_op, set_state, slot_at, state_at,
}
use odyssey_lib.Client.Window.{Window, state_other, state_same}
use odyssey_lib.Client.Worker.{
  check_session_id_and_req_array_index, clear_key, signal_completion_to_client,
  signal_in_progress_to_client,
}
use odyssey_lib.Config.{per_session_req_num, sessions_per_thread, workers_per_machine}

module _ (s : Session) (w : Window s) where
  -- A change of state between pending states keeps the window.
  relabel-Window :
      (i : ℕ) (op : ClientOp)
      → i < per_session_req_num
      → is_invalid (state_at s i) ≡ false
      → is_invalid op.state ≡ false
      → Window (record s { req_array = set s.req_array i op })
  relabel-Window i op lt old new =
      let same : (j : ℕ)
          → is_invalid (get_or (set s.req_array i op) j no_op).state ≡ is_invalid (state_at s j) =
        λ j. elim (ℕ_discrete i j) [
          | yes e ↦
              subst
                (λ k.
                  is_invalid (get_or (set s.req_array i op) k no_op).state
                  ≡ is_invalid (state_at s k))
                e (ap is_invalid (state_same s w i op lt) ∙ new ∙ sym old)
          | no ne ↦ ap is_invalid (state_other s w i j op ne)
        ] in
      record {
        five = length-set s.req_array i op ∙ w.five;
        pull = w.pull;
        pulled = w.pulled;
        counted = w.counted;
        bounded = w.bounded;
        push = w.push;
        used = λ k x. same _ ∙ w.used k x;
        free = λ k x y. same _ ∙ w.free k x y;
      }

  in_progress-used : (st : ReqState) → is_in_progress st ≡ true → is_invalid st ≡ false
  in_progress-used invalid_req h = absurd (true-ne_false (sym h))
  in_progress-used active_req h = refl
  in_progress-used in_progress_req h = refl
  in_progress-used completed_req h = refl

  module _ (assertions : Bool) (sess_id i t_id : ℕ) (sess : sess_id < sessions_per_thread)
      (slot : i < per_session_req_num) (worker : t_id < workers_per_machine) where
    ids_fine : check_session_id_and_req_array_index assertions sess_id i t_id ≡ some tt
    unfolding check_session_id_and_req_array_index
    ids_fine =
        rw
          (
            assert_if-true assertions (lt→ltb sess_id sessions_per_thread sess),
            assert_if-true assertions (lt→ltb i per_session_req_num slot),
            assert_if-true assertions (lt→ltb t_id workers_per_machine worker),
          )
          refl

    -- On a window, with ids in range, `signal_completion_to_client` for a slot that is in progress passes
    -- its assertions and leaves a window, in which that slot is completed and any other slot `j` is as
    -- before.
    pub signal_completion_to_client-Window :
        is_in_progress (state_at s i) ≡ true
        → (j : ℕ) → i ≢ j
        → (t : Session) × (signal_completion_to_client assertions sess_id i t_id s ≡ some t)
          × Window t
          × (is_completed (state_at t i) ≡ true)
          × (slot_at t j ≡ slot_at s j)
    unfolding signal_completion_to_client
    signal_completion_to_client-Window doing j ne =
        let op = record (slot_at s i) { state = completed_req } in
        (
          set_state s i completed_req,
          rw (ids_fine, assert_if-true assertions doing) refl,
          relabel-Window i op slot (in_progress-used (state_at s i) doing) refl,
          ap is_completed (state_same s w i op slot),
          get_or-set_ne s.req_array i j op no_op ne,
        )

active-used : (st : ReqState) → is_active st ≡ true → is_invalid st ≡ false
active-used invalid_req h = absurd (true-ne_false (sym h))
active-used active_req h = refl
active-used in_progress_req h = refl
active-used completed_req h = refl

-- The session once `signal_in_progress_to_client` may have cleared the key.
abbrev cleared : Bool → Session → ℕ → Session
cleared assertions s i = if assertions then clear_key assertions s i else s

cleared-Window :
    (assertions : Bool) (s : Session)
    → Window s
    → (i : ℕ) → i < per_session_req_num
    → is_active (state_at s i) ≡ true
    → Window (cleared assertions s i) × (is_active (state_at (cleared assertions s i) i) ≡ true)
cleared-Window true s w i lt active =
    let op = record (slot_at s i) { key = 0 } in
    let used = active-used (state_at s i) active in
    (relabel-Window s w i op lt used used, ap is_active (state_same s w i op lt) ∙ active)
cleared-Window false s w i lt active = (w, active)

-- On a window, with ids in range, `signal_in_progress_to_client` for a slot with an active request
-- passes its assertions and leaves a window, in which that slot is in progress.
pub signal_in_progress_to_client-Window :
    (assertions : Bool) (sess_id i t_id : ℕ) (s : Session)
    → Window s
    → sess_id < sessions_per_thread
    → i < per_session_req_num
    → t_id < workers_per_machine
    → is_active (state_at s i) ≡ true
    → (t : Session) × (signal_in_progress_to_client assertions sess_id i t_id s ≡ some t)
      × Window t
      × (is_in_progress (state_at t i) ≡ true)
unfolding signal_in_progress_to_client
signal_in_progress_to_client-Window assertions sess_id i t_id s w sess slot worker active =
    let (w1, active1) = cleared-Window assertions s w i slot active in
    let s1 : Session = cleared assertions s i in
    let op = record (slot_at s1 i) { state = in_progress_req } in
    (
      set_state s1 i in_progress_req,
      rw (ids_fine s w assertions sess_id i t_id sess slot worker, assert_if-true assertions active)
          refl,
      relabel-Window s1 w1 i op slot (active-used (state_at s1 i) active1) refl,
      ap is_in_progress (state_same s1 w1 i op slot),
    )

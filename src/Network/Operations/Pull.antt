-- ===== src/Network/Operations/Pull.antt =====
-- The worker pulls the request at its own pull pointer. The request can be pulled: it is an active
-- read or write with a value of at least a byte.
use odyssey_lib.Base.{
  Bool, Option-cases, ap, arith, assert_if, assert_if-cases, assert_if-true, eq→==, false,
  if◌then◌else◌, inl, inr, leb, lt→ltb, none-ne_some, refl, some, some_injective, sym, true, ℕ, ◌%◌,
  ◌+◌, ◌<◌, ◌==◌, ◌∙◌, ◌≡◌, ◌⊎◌,
}
use odyssey_lib.Client.{Session, is_active, is_in_progress, mod_incr_16, slot_at, state_at}
use odyssey_lib.Client.Signals.{signal_in_progress_to_client-Window}
use odyssey_lib.Client.Window.{Window, mod_incr_16_lem}
use odyssey_lib.Client.Worker.{
  check_session_id_and_req_array_index, clear_key, signal_in_progress_to_client,
}
use odyssey_lib.Config.{per_session_req_num, sessions_per_thread, value_size, workers_per_machine}
use odyssey_lib.Network.Operations.{
  TraceOp, check_client_req_state_when_filling_op, create_inputs_of_op, od_check_op,
  od_fill_trace_op,
}

pub record Pullable (bkt : ℕ → ℕ) (write_ratio working_session t_id : ℕ) (s : Session)
    : Type 0 where
  pub window : Window s
  pub inside : s.wrkr_pull_ptr < per_session_req_num
  pub active : is_active (state_at s s.wrkr_pull_ptr) ≡ true
  pub read_or_write :
      ((slot_at s s.wrkr_pull_ptr).opcode ≡ 112) ⊎ ((slot_at s s.wrkr_pull_ptr).opcode ≡ 111)
  pub some_value : 0 < (slot_at s s.wrkr_pull_ptr).val_len
  pub some_bkt : 0 < bkt (slot_at s s.wrkr_pull_ptr).key
  pub session : working_session < sessions_per_thread
  pub worker : t_id < workers_per_machine
  pub ratio : (0 < write_ratio) × (write_ratio < 1000)

module _ (assertions : Bool) where
  signal_in_progress_to_client-wrkr_pull_ptr :
      (sess_id i t_id : ℕ) (s t : Session)
      → signal_in_progress_to_client assertions sess_id i t_id s ≡ some t
      → t.wrkr_pull_ptr ≡ s.wrkr_pull_ptr
  unfolding signal_in_progress_to_client
  signal_in_progress_to_client-wrkr_pull_ptr sess_id i t_id s t h =
      elim (Option-cases (check_session_id_and_req_array_index assertions sess_id i t_id)) [
        | inl bad ↦ absurd (none-ne_some (rw bad at h))
        | inr (u, ok) ↦
            let a = assert_if-cases assertions _ (rw ok at h) in
            ap (λ (x : Session). x.wrkr_pull_ptr) (sym (some_injective a))
            ∙ elim assertions
                as (λ b.
                  (if b then clear_key assertions s i else s).wrkr_pull_ptr ≡ s.wrkr_pull_ptr) [
                    | true ↦ refl
                    | false ↦ refl
                  ]
      ]

  pointer-Window : (s : Session) (p : ℕ) → Window s → Window (record s { wrkr_pull_ptr = p })
  pointer-Window s p w = record {
    five = w.five;
    pull = w.pull;
    pulled = w.pulled;
    counted = w.counted;
    bounded = w.bounded;
    push = w.push;
    used = w.used;
    free = w.free;
  }

  -- the operation for a request with this opcode
  abbrev pub filled : ℕ → Session → ℕ → TraceOp
  filled working_session s opcode =
      let slot = slot_at s s.wrkr_pull_ptr in
      record {
        key = slot.key;
        value_to_write = slot.value_to_write;
        value_to_read = slot.value_to_read;
        index_to_req_array = s.wrkr_pull_ptr;
        real_val_len = slot.val_len;
        session_id = working_session;
        opcode = opcode;
        val_len = (if opcode == 112 then value_size else 0);
      }

  fills :
      (bkt : ℕ → ℕ) (write_ratio working_session t_id : ℕ) (s t : Session) (op : TraceOp)
      → Pullable bkt write_ratio working_session t_id s
      → op.session_id < sessions_per_thread
      → check_client_req_state_when_filling_op assertions working_session s.wrkr_pull_ptr t_id s
        ≡ some tt
      → signal_in_progress_to_client assertions working_session s.wrkr_pull_ptr t_id s ≡ some t
      → od_fill_trace_op assertions bkt write_ratio working_session t_id s op
        ≡ some (
          record t { wrkr_pull_ptr = mod_incr_16 t.wrkr_pull_ptr per_session_req_num },
          filled working_session s (slot_at s s.wrkr_pull_ptr).opcode,
        )
  unfolding od_fill_trace_op create_inputs_of_op od_check_op
  fills bkt write_ratio working_session t_id s t op p stale checked signaled =
      let passes : assert_if assertions true ≡ some tt = assert_if-true assertions refl in
      let value = lt→ltb 0 (slot_at s s.wrkr_pull_ptr).val_len p.some_value in
      let bucket = lt→ltb 0 (bkt (slot_at s s.wrkr_pull_ptr).key) p.some_bkt in
      let index = lt→ltb s.wrkr_pull_ptr per_session_req_num p.inside in
      let old_session = lt→ltb op.session_id sessions_per_thread stale in
      let some_ratio = lt→ltb 0 write_ratio p.ratio.0 in
      let mixed : leb 1000 write_ratio ≡ false = ground (arith, p.ratio.1) in
      let same : (t.wrkr_pull_ptr == s.wrkr_pull_ptr) ≡ true =
        eq→== t.wrkr_pull_ptr s.wrkr_pull_ptr (
          signal_in_progress_to_client-wrkr_pull_ptr working_session s.wrkr_pull_ptr t_id s t
            signaled) in
      elim p.read_or_write [
        | inl update ↦
            rw
              (
                checked, update, value, index, old_session, bucket, passes, mixed, signaled, same,
                passes, some_ratio, passes,
              )
              refl
        | inr read ↦
            rw
              (
                checked, read, value, index, old_session, bucket, passes, mixed, signaled, same,
                passes, some_ratio, passes,
              )
              refl
      ]

  -- When the slot at the worker's pull pointer has an active read or write of at least a byte, of a
  -- key whose hash has a `bkt` above 0, the ids are in range, the write ratio is above 0 and below
  -- 1000 and the check of the neighbouring requests passes, `od_fill_trace_op` passes its assertions
  -- and gives the operation of that very request. The request is then in progress, the pull pointer
  -- is at the next slot, and the session is still a window of requests.
  pub od_fill_trace_op-Window :
      (bkt : ℕ → ℕ) (write_ratio working_session t_id : ℕ) (s : Session) (op : TraceOp)
      → Pullable bkt write_ratio working_session t_id s
      → op.session_id < sessions_per_thread
      → check_client_req_state_when_filling_op assertions working_session s.wrkr_pull_ptr t_id s
        ≡ some tt
      → (t : Session) × (od_fill_trace_op assertions bkt write_ratio working_session t_id s op
          ≡ some (t, filled working_session s (slot_at s s.wrkr_pull_ptr).opcode))
        × Window t
        × (is_in_progress (state_at t s.wrkr_pull_ptr) ≡ true)
        × (t.wrkr_pull_ptr ≡ (s.wrkr_pull_ptr + 1) % per_session_req_num)
  od_fill_trace_op-Window bkt write_ratio working_session t_id s op p stale checked =
      let (t, signaled, w, doing) =
        signal_in_progress_to_client-Window assertions working_session s.wrkr_pull_ptr t_id s
          p.window p.session p.inside p.worker p.active in
      let same =
        signal_in_progress_to_client-wrkr_pull_ptr working_session s.wrkr_pull_ptr t_id s t
          signaled in
      (
        record t { wrkr_pull_ptr = mod_incr_16 t.wrkr_pull_ptr per_session_req_num },
        fills bkt write_ratio working_session t_id s t op p stale checked signaled,
        pointer-Window t (mod_incr_16 t.wrkr_pull_ptr per_session_req_num) w,
        doing,
        mod_incr_16_lem t.wrkr_pull_ptr (omega (arith, same, p.inside))
            ∙ ap (λ k. (k + 1) % per_session_req_num) same,
      )

-- ===== src/Client/Window.antt =====
-- The requests of a session that are pending are the slots from the pull pointer to the push pointer.
use odyssey_lib.Base.{
  Bool, ap, arith, dec_lt, false, get_or, get_or-set_ne, get_or-set_self, length, length-set, set,
  subst, sym, true, true-ne_false, u64, ℕ, ℕ_discrete, ◌%◌, ◌+◌, ◌-◌, ◌<◌, ◌^◌, ◌∙◌, ◌≡◌, ◌≢◌, ◌≤◌,
}
use odyssey_lib.Client.{
  ClientOp, Request, Session, invalid_req, is_invalid, mod_incr_16, no_op, set_state, state_at,
}
use odyssey_lib.Client.Api.{issue}
use odyssey_lib.Config.{per_session_req_num}

abbrev pub pending : Session → ℕ
pending s = s.last_pushed_req - s.last_pulled_req

pub record Window (s : Session) : Type 0 where
  pub five : length s.req_array ≡ per_session_req_num
  pub pull : s.clt_pull_ptr < per_session_req_num
  pub pulled : s.last_pulled_req ≤ s.last_pushed_req
  pub counted : s.last_pushed_req < 2 ^ 64 - 1
  pub bounded : pending s ≤ per_session_req_num
  pub push : s.clt_push_ptr ≡ (s.clt_pull_ptr + pending s) % per_session_req_num
  pub used :
      (k : ℕ)
      → k < pending s
      → is_invalid (state_at s ((s.clt_pull_ptr + k) % per_session_req_num)) ≡ false
  pub free :
      (k : ℕ)
      → pending s ≤ k
      → k < per_session_req_num
      → is_invalid (state_at s ((s.clt_pull_ptr + k) % per_session_req_num)) ≡ true

pub mod_incr_16_lem :
    (x : ℕ)
    → x < per_session_req_num
    → mod_incr_16 x per_session_req_num ≡ (x + 1) % per_session_req_num
mod_incr_16_lem x h = ground arith

module _ (s : Session) (w : Window s) where
  -- The slot that is pushed next is free exactly when fewer requests than slots are pending.
  pub push_free : pending s < per_session_req_num → is_invalid (state_at s s.clt_push_ptr) ≡ true
  push_free h =
      subst (λ i. is_invalid (state_at s i) ≡ true) (sym w.push)
        (w.free (pending s) (omega arith) h)

  pub free_room : is_invalid (state_at s s.clt_push_ptr) ≡ true → pending s < per_session_req_num
  free_room h = elim (dec_lt (pending s) per_session_req_num) [
    | yes lt ↦ lt
    | no full ↦
        let at : s.clt_push_ptr ≡ (s.clt_pull_ptr + 0) % per_session_req_num =
          omega (arith, w.push, w.bounded, w.pull) in
        absurd (
          true-ne_false
            (sym (subst (λ i. is_invalid (state_at s i) ≡ true) at h) ∙ w.used 0 (omega arith)))
  ]

  -- What a write to one slot does to the states of the slots.
  pub state_same :
      (i : ℕ) (op : ClientOp)
      → i < per_session_req_num
      → (get_or (set s.req_array i op) i no_op).state ≡ op.state
  state_same i op h =
      ap (λ (o : ClientOp). o.state)
        (get_or-set_self s.req_array i op no_op (omega (arith, w.five)))

  pub state_other :
      (i j : ℕ) (op : ClientOp)
      → i ≢ j
      → (get_or (set s.req_array i op) j no_op).state ≡ state_at s j
  state_other i j op ne = ap (λ (o : ClientOp). o.state) (get_or-set_ne s.req_array i j op no_op ne)

  module _ (hash : ℕ → ℕ) (r : Request) (room : pending s < per_session_req_num)
      (assertions : Bool) where
    abbrev pub issued : Session
    issued = issue assertions hash r s.clt_push_ptr s

    pub issue-Window : s.last_pushed_req + 1 < 2 ^ 64 - 1 → Window issued
    unfolding issue
    issue-Window small =
        let n : u64 (s.last_pushed_req + 1) ≡ s.last_pushed_req + 1 = omega (arith, small) in
        let more : pending issued ≡ pending s + 1 = omega (arith, n, w.pulled) in
        record {
          five = length-set s.req_array s.clt_push_ptr _ ∙ w.five;
          pull = w.pull;
          pulled = omega (arith, n, w.pulled);
          counted = omega (arith, n, small);
          bounded = omega (arith, more, room);
          push =
              mod_incr_16_lem s.clt_push_ptr (omega (arith, w.push))
              ∙ omega (arith, more, w.push, w.pull, w.bounded);
          used = λ k x. elim (ℕ_discrete k (pending s)) [
            | yes e ↦
                let at : (s.clt_pull_ptr + k) % per_session_req_num ≡ s.clt_push_ptr =
                  omega (arith, e, w.push) in
                ap (λ i. is_invalid (state_at issued i)) at
                ∙ ap is_invalid (state_same s.clt_push_ptr _ (omega (arith, w.push)))
            | no ne ↦
                let apart : s.clt_push_ptr ≢ (s.clt_pull_ptr + k) % per_session_req_num =
                  omega (arith, x, more, ne, w.push, w.pull, room) in
                ap is_invalid (state_other s.clt_push_ptr _ _ apart)
                ∙ w.used k (omega (arith, x, more, ne))
          ];
          free = λ k x y.
              let apart : s.clt_push_ptr ≢ (s.clt_pull_ptr + k) % per_session_req_num =
                omega (arith, x, y, more, w.push, w.pull, room) in
              ap is_invalid (state_other s.clt_push_ptr _ _ apart)
              ∙ w.free k (omega (arith, x, more)) y;
        }

  -- the session after a poll that finds the pull slot completed
  abbrev pub polled : Session
  polled = record (set_state s s.clt_pull_ptr invalid_req) {
    clt_pull_ptr = mod_incr_16 s.clt_pull_ptr per_session_req_num;
    last_pulled_req = u64 (s.last_pulled_req + 1);
  }

  pub polled-Window : 0 < pending s → Window polled
  polled-Window some_pending =
      let n : u64 (s.last_pulled_req + 1) ≡ s.last_pulled_req + 1 =
        omega (arith, w.pulled, w.counted) in
      let fewer : pending polled + 1 ≡ pending s = omega (arith, n, some_pending) in
      let next : polled.clt_pull_ptr ≡ (s.clt_pull_ptr + 1) % per_session_req_num =
        mod_incr_16_lem s.clt_pull_ptr w.pull in
      record {
        five = length-set s.req_array s.clt_pull_ptr _ ∙ w.five;
        pull = omega (arith, next);
        pulled = omega (arith, n, some_pending);
        counted = w.counted;
        bounded = omega (arith, fewer, w.bounded);
        push = omega (arith, w.push, next, fewer, w.pull, w.bounded);
        used = λ k x.
            let at : (polled.clt_pull_ptr + k) % per_session_req_num
                ≡ (s.clt_pull_ptr + (k + 1)) % per_session_req_num =
              omega (arith, next) in
            let apart : s.clt_pull_ptr ≢ (s.clt_pull_ptr + (k + 1)) % per_session_req_num =
              omega (arith, x, fewer, w.bounded, w.pull) in
            ap (λ i. is_invalid (state_at polled i)) at
            ∙ ap is_invalid (state_other s.clt_pull_ptr _ _ apart)
            ∙ w.used (k + 1) (omega (arith, x, fewer));
        free = λ k x y. elim (ℕ_discrete k 4) [
          | yes e ↦
              let at : (polled.clt_pull_ptr + k) % per_session_req_num ≡ s.clt_pull_ptr =
                omega (arith, next, e, w.pull) in
              ap (λ i. is_invalid (state_at polled i)) at
              ∙ ap is_invalid (state_same s.clt_pull_ptr _ w.pull)
          | no ne ↦
              let at : (polled.clt_pull_ptr + k) % per_session_req_num
                  ≡ (s.clt_pull_ptr + (k + 1)) % per_session_req_num =
                omega (arith, next) in
              let apart : s.clt_pull_ptr ≢ (s.clt_pull_ptr + (k + 1)) % per_session_req_num =
                omega (arith, y, ne, w.pull) in
              ap (λ i. is_invalid (state_at polled i)) at
              ∙ ap is_invalid (state_other s.clt_pull_ptr _ _ apart)
              ∙ w.free (k + 1) (omega (arith, x, fewer)) (omega (arith, y, ne))
        ];
      }

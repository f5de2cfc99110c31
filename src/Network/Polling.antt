-- ===== src/Network/Polling.antt =====
-- src/network_api/od_main_loop_api.c: polling the messages that arrived. The callbacks of the protocol on
-- top are parameters: `recv_handler` and `recv_kvs` on the state `App` that it keeps. A NULL `recv_kvs` is
-- the identity. The check `polling_debug` is left out.
pub mod Conserve
use odyssey_lib.Base.{
  Bool, Option, false, if◌then◌else◌, leb, ltb, none, some, suc, true, u32, zero, ℕ, ◌&&◌, ◌+◌, ◌-◌,
  ◌==◌, ◌>>=◌, ◌>>◌, ◌^◌, ◌||◌,
}
use odyssey_lib.Fifo.{Fifo, fifo_incr_pull_ptr}
use odyssey_lib.Network.Setup.{RecvType, recv_reply}

-- The members of the queue pair that are used; posted_recvs is that of its `recv_info`.
pub record PollQp (App : Type 0) : Type 0 where
  pub app : App
  pub recv_fifo : Fifo
  pub recv_type : RecvType
  pub completed_but_not_polled : ℕ  -- uint32_t, and so are the others
  pub polled_messages : ℕ
  pub outstanding_messages : ℕ
  pub wait_for_reps_ctr : ℕ
  pub posted_recvs : ℕ

-- `find_how_many_messages_can_be_polled`, where the verbs library reports `completions` new ones, which
-- it documents to be at most `buf_slots`, or a negative number. It returns the number, an int that is
-- written as its 32 bits, and the new `*completed_but_not_polled`.
unfoldable pub find_how_many_messages_can_be_polled : ℕ → ℕ → ℕ × ℕ
find_how_many_messages_can_be_polled completions completed_but_not_polled =
    if ltb 0 completed_but_not_polled
    then (u32 (completions + completed_but_not_polled), 0)
    else (completions, completed_but_not_polled)

-- whether an int of these 32 bits is at most 0
unfoldable pub not_positive : ℕ → Bool
not_positive n = n == 0 || leb (2 ^ 31) n

abbrev pub awaits_replies : RecvType → Bool
awaits_replies recv_reply = true
awaits_replies _ = false

module _ {App : Type 0} (assertions : Bool) (recv_handler : App → Fifo → App × Bool)
    (recv_kvs : App → App) where
  -- The loop ends when the handler refuses a message. At most `completed` rounds take one, and one
  -- more ends it.
  unfoldable pub polling_loop : ℕ → ℕ → PollQp App → Option (PollQp App)
  polling_loop zero completed q = none
  polling_loop (suc fuel) completed q =
      if ltb q.polled_messages completed
      then (let (app, taken) = recv_handler q.app q.recv_fifo in
          if taken
          then (do
            f ← fifo_incr_pull_ptr assertions q.recv_fifo
            polling_loop fuel completed (record q {
              app = app;
              recv_fifo = f;
              polled_messages = u32 (q.polled_messages + 1);
            }))
          else some (record q { app = app }))
      else some q

  unfoldable pub ctx_poll_incoming_messages : ℕ → PollQp App → Option (PollQp App)
  ctx_poll_incoming_messages completions q =
      let (completed, left) =
        find_how_many_messages_can_be_polled completions q.completed_but_not_polled in
      let q0 = record q { completed_but_not_polled = left } in
      if not_positive completed
      then some (
          if awaits_replies q0.recv_type && ltb 0 q0.outstanding_messages
          then record q0 { wait_for_reps_ctr = u32 (q0.wait_for_reps_ctr + 1) }
          else q0)
      else (do
        q1 ← polling_loop (completed + 1) completed (record q0 { polled_messages = 0 })
        let q2 = record q1 {
          completed_but_not_polled = u32 (completed + 2 ^ 32 - q1.polled_messages);
          posted_recvs = u32 (q1.posted_recvs + 2 ^ 32 - q1.polled_messages);
        }
        some (if ltb 0 q2.polled_messages then record q2 { app = recv_kvs q2.app } else q2))

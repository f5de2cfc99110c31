-- ===== src/Network/Unicast.antt =====
-- src/network_api/od_main_loop_api.c: sending unicasts.
pub mod Entries
pub mod Loop
pub mod Drain
use odyssey_lib.Base.{
  Bool, List, Option, [], assert_if, assert_that, false, get_elem?, if◌then◌else◌, ltb, none, not,
  set, some, suc, u16, zero, ℕ, ◌++◌, ◌+◌, ◌-◌, ◌==◌, ◌>>=◌, ◌>>◌, ◌^◌, ◌∷◌,
}
use odyssey_lib.Config.{machine_num}
use odyssey_lib.Fifo.{Fifo, get_fifo_pull_slot, get_fifo_slot_meta_pull}
use odyssey_lib.Fifo.Send.{fifo_send_from_pull_slot}
use odyssey_lib.Network.{
  RecvInfo, SendFlags, Sge, Verb, ctx_refill_recvs, post_send, put, selective_signaling_for_unicast,
}

-- The members of the queue pair that are used; recv_info and recv_wr_num are those of the queue pair
-- `recv_qp_id`. The address of a message in `rem_qp` is given by the machine it goes to, `dest`, and the
-- memory region of its buffer by the number of its fifo, `lkey`.
pub record UniQp : Type 0 where
  pub send_fifos : List Fifo  -- `send_fifo`, of which there are `send_fifo_num`
  pub send_wr_num : ℕ
  pub needs_credits : Bool
  pub credits : List ℕ
  pub sgl : ℕ → Sge
  pub lkey : ℕ → ℕ
  pub dest : ℕ → ℕ
  pub next : ℕ → Option ℕ
  pub flags : ℕ → SendFlags
  pub sent_tx : ℕ
  pub ss_batch : ℕ
  pub enable_inlining : Bool
  pub recv_info : RecvInfo
  pub recv_wr_num : ℕ

-- `send_wr` and `send_sgl` have `send_wr_num` elements: writing past them, or reading the first element
-- of the credits that there are not, is `none`, as a failed assertion is.
module _ (machine_id : ℕ) (assertions : Bool) where
  unfoldable pub ctx_forge_unicast_wr : ℕ → ℕ → Fifo → UniQp → Option (UniQp × List Verb)
  ctx_forge_unicast_wr fifo_i mes_i f q = do
    assert_that (ltb mes_i q.send_wr_num)
    m ← get_fifo_slot_meta_pull assertions f
    addr ← get_fifo_pull_slot assertions f
    assert_if assertions (ltb m.rm_id machine_num)
    assert_if assertions (not (m.rm_id == machine_id))
    let (flag, waits, tx) = selective_signaling_for_unicast q.sent_tx q.ss_batch q.enable_inlining
    some (
      record q {
        sgl = put q.sgl mes_i (record { addr = addr; len = m.byte_size });
        lkey = put q.lkey mes_i fifo_i;
        dest = put q.dest mes_i m.rm_id;
        flags = put q.flags mes_i flag;
        sent_tx = tx;
        next = (if ltb 0 mes_i then put q.next (mes_i - 1) (some mes_i) else q.next);
      },
      waits,
    )

  unfoldable pub ctx_can_send_unicasts : Fifo → UniQp → Option Bool
  ctx_can_send_unicasts f q =
      if q.needs_credits
      then (if ltb 0 f.capacity
          then (get_elem? q.credits 0 >>= λ c. some (ltb 0 c))
          else some false)
      else some (ltb 0 f.capacity)

  -- Whether the element that is decremented is there is not checked: `none` is an access out of bounds.
  abbrev pub spend_credit : ℕ → UniQp → Option UniQp
  spend_credit rm_id q =
      if q.needs_credits
      then (get_elem? q.credits rm_id >>= λ c.
          some (record q { credits = set q.credits rm_id (u16 (c + 2 ^ 16 - 1)) }))
      else some q

  -- A round of the inner loop; `send_helper` may change the messages of the fifo, and the identity
  -- stands for NULL. Sending leaves the `rm_id` in `slot_meta`, which is read after it, as it was.
  abbrev pub send_unicast :
      (List ℕ → List ℕ) → ℕ → ℕ → Fifo → UniQp → Option (Fifo × UniQp × List Verb)
  send_unicast send_helper fifo_i mes_i f q = do
    let f1 = record f { fifo = f.fifo >>= λ cells. some (send_helper cells) }
    (q1, waits) ← ctx_forge_unicast_wr fifo_i mes_i f1 q
    m ← get_fifo_slot_meta_pull assertions f1
    f2 ← fifo_send_from_pull_slot assertions f1
    q2 ← spend_credit m.rm_id q1
    some (f2, q2, waits)

  -- The inner loop returns the fifo and `mes_i` too.
  unfoldable pub unicast_loop :
      (List ℕ → List ℕ) → ℕ → ℕ → ℕ → Fifo → UniQp → Option (Fifo × UniQp × List Verb × ℕ)
  unicast_loop send_helper zero fifo_i mes_i f q = none
  unicast_loop send_helper (suc fuel) fifo_i mes_i f q = do
    more ← ctx_can_send_unicasts f q
    if more
        then (do
          (f1, q1, waits) ← send_unicast send_helper fifo_i mes_i f q
          (f2, q2, verbs, mes) ← unicast_loop send_helper fuel fifo_i (u16 (mes_i + 1)) f1 q1
          some (f2, q2, waits ++ verbs, mes))
        else some (f, q, [], mes_i)

  -- The outer loop, over the fifos from `fifo_i` on. A fifo has `capacity` messages to send, so that
  -- many rounds and the last test are enough.
  unfoldable pub fifos_loop :
      (ℕ → List ℕ → List ℕ) → ℕ → ℕ → List Fifo → UniQp → Option (List Fifo × UniQp × List Verb × ℕ)
  fifos_loop send_helper fifo_i mes_i [] q = some ([], q, [], mes_i)
  fifos_loop send_helper fifo_i mes_i (f ∷ fs) q = do
    (f1, q1, verbs, mes) ← unicast_loop (send_helper fifo_i) (f.capacity + 1) fifo_i mes_i f q
    (fs1, q2, more, mes2) ← fifos_loop send_helper (fifo_i + 1) mes fs q1
    some (f1 ∷ fs1, q2, verbs ++ more, mes2)

  -- The helper is told the number of the fifo. What `ctx_check_unicast_before_send` asserts is about
  -- members that only the set-up writes.
  unfoldable pub ctx_send_unicasts : (ℕ → List ℕ → List ℕ) → UniQp → Option (UniQp × List Verb)
  ctx_send_unicasts send_helper q = do
    (fs, q1, verbs, mes_i) ← fifos_loop send_helper 0 0 q.send_fifos q
    let q2 = record q1 { send_fifos = fs }
    if ltb 0 mes_i
        then (do
          (r, recvs) ← ctx_refill_recvs assertions q2.recv_wr_num q2.recv_info
          let q3 = record q2 { recv_info = r; next = put q2.next (mes_i - 1) none }
          some (q3, verbs ++ recvs ++ post_send 0 q3.next q3.flags q3.sgl ∷ []))
        else some (q2, verbs)

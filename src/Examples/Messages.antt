-- ===== src/Examples/Messages.antt =====
-- The theorems about acks, polling and unicasts at concrete inputs.
-- Acks: of machine 1 none is to be sent yet, of machines 2 and 4 one each.
use odyssey_lib.Base.{
  Bool, List, [], arith, false, get_or, if◌then◌else◌, ltb, none, refl, some, true, ℕ, ◌*◌, ◌++◌,
  ◌+◌, ◌<◌, ◌∷◌, ◌≡◌, ◌≤◌, ◌⊎◌,
}
use odyssey_lib.Examples.Network.{recvs, recvs-IsRing}
use odyssey_lib.Examples.Queues.{two_queued, two_queued-Holds}
use odyssey_lib.Fifo.{Fifo, blank_meta}
use odyssey_lib.Fifo.Inv.{IsValid}
use odyssey_lib.Network.{Verb, post_send}
use odyssey_lib.Network.Acks.{
  Ack, AckQp, ack_not_yet_sent, blank_ack, ctx_find_when_the_ack_points_acked, od_is_ack_too_old,
  od_send_acks, op_ack,
}
use odyssey_lib.Network.Acks.Coalesce.{ctx_ack_insert-Coalesces, insert_all}
use odyssey_lib.Network.Acks.Cover.{
  ctx_find_when_the_ack_points_acked-Covers, od_is_ack_too_old_lem,
}
use odyssey_lib.Network.Acks.Links.{Leads, as_sent, to_send}
use odyssey_lib.Network.Acks.Send.{od_send_acks-Leads}
use odyssey_lib.Network.Commits.{ComQp}
use odyssey_lib.Network.Commits.Coalesce.{ctx_insert_commit-Coalesces, insert_commits, one_commit}
use odyssey_lib.Network.Polling.{PollQp, ctx_poll_incoming_messages}
use odyssey_lib.Network.Polling.Conserve.{Takes, ctx_poll_incoming_messages-Polled}
use odyssey_lib.Network.Setup.{recv_req}
use odyssey_lib.Network.Unicast.{UniQp, ctx_send_unicasts}
use odyssey_lib.Network.Unicast.Drain.{AllForged, ctx_send_unicasts-AllSent}
use odyssey_lib.Network.Unicast.Entries.{forged_entry}
use odyssey_lib.Network.Unicast.Loop.{AllHold, AllSent, Linked}

abbrev ack_of : ℕ → ℕ → Ack
ack_of l_id opcode = record { l_id = l_id; ack_num = 5; credits = 2; m_id = 0; opcode = opcode }

abbrev collected_acks : List Ack
collected_acks =
    blank_ack ∷ blank_ack ∷ ack_of 40 ack_not_yet_sent ∷ blank_ack ∷ ack_of 7 ack_not_yet_sent ∷ []

ctx_ack_insert-Coalesces_example :
    insert_all true 1 100 (4 ∷ 2 ∷ 3 ∷ []) collected_acks
    ≡ some (
        blank_ack
        ∷ record blank_ack { l_id = 100; ack_num = 9; credits = 3; opcode = ack_not_yet_sent }
        ∷ ack_of 40 ack_not_yet_sent
        ∷ blank_ack
        ∷ ack_of 7 ack_not_yet_sent
        ∷ [])
ctx_ack_insert-Coalesces_example =
    ctx_ack_insert-Coalesces true 1 4 (2 ∷ 3 ∷ []) 100 collected_acks blank_ack (omega arith)
      (omega arith) (omega arith) refl refl

abbrev rob : Fifo
rob = record two_queued { pull_ptr = 3 }

od_is_ack_too_old_lem_example : od_is_ack_too_old (ack_of 40 op_ack) rob 43 ≡ false
od_is_ack_too_old_lem_example = od_is_ack_too_old_lem (ack_of 40 op_ack) rob 43 (omega arith)

not_too_old : od_is_ack_too_old (ack_of 40 op_ack) rob 43 ≡ false
unfolding od_is_ack_too_old
not_too_old = refl

ctx_find_when_the_ack_points_acked-Covers_example :
    (n : ℕ) × (ctx_find_when_the_ack_points_acked true (ack_of 40 op_ack) rob 43 5 ≡ some (3, n))
    × (43 + n ≡ 45)
    × (0 < n)
ctx_find_when_the_ack_points_acked-Covers_example =
    ctx_find_when_the_ack_points_acked-Covers true (ack_of 40 op_ack) rob 43 not_too_old
      (omega arith) (omega arith) (omega arith) (omega arith) (omega arith) (omega arith)

abbrev ack_qp : AckQp
ack_qp = record {
  acks = collected_acks;
  receipient_num = 4;
  next = λ _. none;
  flags = λ _. record { signaled = false; inlined = true };
  sgl = λ i. record { addr = 16 * i; len = 16 };
  sent_tx = 0;
  ss_batch = 127;
  recv_info = recvs;
  recv_wr_num = 8;
}

ack_qp_ids : to_send collected_acks 5 0 ≡ 2 ∷ 4 ∷ []
unfolding to_send
ack_qp_ids = refl

od_send_acks-Leads_example :
    (qp' : AckQp) × (acks : List Ack) × (before : List Verb) × (last : ℕ) × (od_send_acks true
        (λ a. a)
        ack_qp
      ≡ some (qp', before ++ post_send 2 qp'.next qp'.flags qp'.sgl ∷ []))
    × Leads qp'.next 2 (4 ∷ []) last
    × (qp'.next last ≡ none)
    × (qp'.acks ≡ acks)
    × ((i : ℕ) → i ≤ 4 → get_or acks i blank_ack ≡ as_sent (get_or collected_acks i blank_ack))
od_send_acks-Leads_example =
    od_send_acks-Leads true (λ a. a) ack_qp 2 (4 ∷ []) ack_qp_ids (omega arith) (omega arith)
      recvs-IsRing (omega arith)

-- A handler that counts messages and refuses the third.
abbrev count_two : ℕ → Fifo → ℕ × Bool
count_two a f = if ltb a 2 then (a + 1, true) else (a, false)

abbrev polling : PollQp ℕ
polling = record {
  app = 0;
  recv_fifo = two_queued;
  recv_type = recv_req;
  completed_but_not_polled = 1;
  polled_messages = 0;
  outstanding_messages = 0;
  wait_for_reps_ctr = 0;
  posted_recvs = 6;
}

ctx_poll_incoming_messages-Polled_example :
    (q' : PollQp ℕ) × (n : ℕ) × (app : ℕ) × (ctx_poll_incoming_messages true count_two
        (λ a. a)
        2
        polling
      ≡ some q')
    × Takes count_two n 0 two_queued app q'.recv_fifo
    × (n + q'.completed_but_not_polled ≡ 3)
    × ((q'.completed_but_not_polled ≡ 0) ⊎ ((count_two app q'.recv_fifo).1 ≡ false))
    × (q'.posted_recvs + n ≡ 6)
ctx_poll_incoming_messages-Polled_example =
    ctx_poll_incoming_messages-Polled true count_two (λ a. a) 2 polling (omega arith) (omega arith)
      (omega arith) two_queued-Holds.valid

abbrev unicasts : UniQp
unicasts = record {
  send_fifos = two_queued ∷ two_queued ∷ [];
  send_wr_num = 8;
  needs_credits = false;
  credits = [];
  sgl = λ _. record { addr = 0; len = 0 };
  lkey = λ _. 0;
  dest = λ _. 0;
  next = λ _. none;
  flags = λ _. record { signaled = false; inlined = false };
  sent_tx = 0;
  ss_batch = 127;
  enable_inlining = false;
  recv_info = recvs;
  recv_wr_num = 8;
}

abbrev unicasts_hold : AllHold unicasts.send_fifos ((1 ∷ 2 ∷ []) ∷ (1 ∷ 2 ∷ []) ∷ [])
unicasts_hold = (two_queued-Holds, omega arith, (two_queued-Holds, omega arith, tt))

ctx_send_unicasts-AllSent_example :
    (q' : UniQp) × (before : List Verb) × (ctx_send_unicasts 0 false (λ _ cells. cells) unicasts
      ≡ some (q', before ++ post_send 0 q'.next q'.flags q'.sgl ∷ []))
    × AllSent q'.send_fifos
    × Linked 4 q'.next
    × (q'.next 3 ≡ none)
    × AllForged 0 0 unicasts.send_fifos
        ((1 ∷ 2 ∷ []) ∷ (1 ∷ 2 ∷ []) ∷ [])
        unicasts_hold
        (forged_entry q')
ctx_send_unicasts-AllSent_example =
    ctx_send_unicasts-AllSent 0 (λ _ cells. cells) unicasts ((1 ∷ 2 ∷ []) ∷ (1 ∷ 2 ∷ []) ∷ [])
      unicasts_hold (omega arith) (omega arith) (omega arith) refl recvs-IsRing (omega arith)

-- A fifo of one slot for commits
abbrev com_fifo : Fifo
com_fifo = record rob {
  fifo = some (0 ∷ []);
  slot_meta = some (blank_meta ∷ []);
  max_size = 1;
  slot_size = 16;
  max_byte_size = 16;
  push_ptr = 0;
  pull_ptr = 0;
  capacity = 0;
  net_capacity = 0;
}

abbrev com_qp : ComQp
com_qp = record {
  send_fifo = com_fifo;
  coms = λ _. record { l_id = 0; com_num = 0; opcode = 0; m_id = 1 };
}

com_fifo-IsValid : IsValid com_fifo
com_fifo-IsValid = record {
  buffer = refl;
  slots = omega arith;
  sized = omega arith;
  room = omega arith;
  bytes = refl;
  small = omega arith;
  push_in = omega arith;
  pull_in = omega arith;
}

ctx_insert_commit-Coalesces_example :
    insert_commits true 100 (3 ∷ 2 ∷ []) com_qp
    ≡ some (one_commit true com_qp (blank_meta ∷ []) com_fifo-IsValid refl refl 100 5)
ctx_insert_commit-Coalesces_example =
    ctx_insert_commit-Coalesces true com_qp (blank_meta ∷ []) com_fifo-IsValid refl refl 3 (2 ∷ [])
      100 refl (omega arith) (omega arith) (omega arith)

-- ===== src/Network/Signals.antt =====
-- Selective signalling: which completions a worker waits for, and that they come. One message in
-- `ss_batch` is signaled, and one message later in the same stretch the completion is awaited.
pub mod Serve
pub mod Live
use odyssey_lib.Base.{
  Bool, List, Option, [], if◌then◌else◌, none, some, suc, zero, ℕ, ◌+◌, ◌>>=◌, ◌∷◌, ◌≤◌,
}
use odyssey_lib.Network.{Verb, poll_send, post_recv, post_send, selective_signaling_for_unicast}
use odyssey_lib.Network.Links.{bcast_signals}

-- What the selective signalling does for the message number `tx`: whether the message is signaled, the calls of
-- the verbs library, and the next number.
abbrev pub Call : Type 0
Call = ℕ → Bool × List Verb × ℕ

abbrev pub unicast_call : ℕ → Bool → Call
unicast_call ss_batch allow_inline tx =
    let (flags, waits, tx') = selective_signaling_for_unicast tx ss_batch allow_inline in
    (flags.signaled, waits, tx')

abbrev pub bcast_call : ℕ → Call
bcast_call ss_batch tx = bcast_signals tx ss_batch

-- The send side as the network card sees it: the next number, the signaled messages of the batch that is
-- not posted yet, and the signaled messages posted whose completion was not awaited yet.
pub record SendQueue : Type 0 where
  pub tx : ℕ
  pub unposted : ℕ
  pub pending : ℕ

-- A wait ends if a signaled message that was posted before is left to complete; otherwise it does not
-- end, which is `none`.
unfoldable pub serve : List Verb → ℕ → Option ℕ
serve [] pending = some pending
serve (poll_send ∷ v) zero = none
serve (poll_send ∷ v) (suc pending) = serve v pending
serve (post_recv recv_wr ∷ v) pending = serve v pending
serve (post_send first next flags sgl ∷ v) pending = serve v pending

module _ (call : Call) where
  unfoldable pub form_message : SendQueue → Option SendQueue
  form_message q =
      let (signaled, waits, tx) = call q.tx in
      (serve waits q.pending >>= λ pending. some (record {
        tx = tx;
        unposted = (if signaled then q.unposted + 1 else q.unposted);
        pending = pending;
      }))

  unfoldable pub form_batch : ℕ → SendQueue → Option SendQueue
  form_batch zero q = some (record q { unposted = 0; pending = q.pending + q.unposted })
  form_batch (suc n) q = form_message q >>= form_batch n

  -- Each batch is posted when it is formed.
  unfoldable pub form_batches : List ℕ → SendQueue → Option SendQueue
  form_batches [] q = some q
  form_batches (n ∷ ns) q = form_batch n q >>= form_batches ns

-- every batch has at most `d` messages
abbrev pub AtMost : ℕ → List ℕ → Type 0
AtMost d [] = Unit
AtMost d (n ∷ ns) = (n ≤ d) × AtMost d ns

-- nothing sent yet
abbrev pub fresh : SendQueue
fresh = record { tx = 0; unposted = 0; pending = 0 }

-- ===== src/Producers/Safety.antt =====
-- What holds in every run of client/od_client.c's producer-consumer ring.
use native.Mathlib.Nat.{le_refl}
use odyssey_lib.Base.{
  Bool, List, [], arith, some, some_injective, subst, sym, true, ℕ, ◌*◌, ◌+◌, ◌<◌, ◌^◌, ◌∙◌, ◌≡◌,
  ◌≤◌,
}
use odyssey_lib.Config.{kvs_num_keys}
use odyssey_lib.Producers.{
  PcOp, PcSess, pc_per_sess_state_machine, pc_try_to_acquire, pc_writes_num,
}
use odyssey_lib.Producers.Answers.{Orderly-Serves}
use odyssey_lib.Producers.Invariant.{Orderly}
use odyssey_lib.Producers.Polled.{PcTurn-pushed, polled-none}
use odyssey_lib.Producers.Rounds.{Orderly-Acts}
use odyssey_lib.Producers.Run.{
  IsPcPolled, PcAtomic, PcReached, PcService, PcTurn, Ring, pc_act, pc_acted, pc_answered,
  pc_at_start, pc_performed, pc_turn,
}
use odyssey_lib.Producers.Serving.{Carried}
use odyssey_lib.Producers.Start.{initial-Orderly, on_first}
use odyssey_lib.Treiber.{global_session_num}

module _ {service : PcService} (atomic : PcAtomic service) {client_assertions : Bool} where
  PcTurn-rounds : {s t : Ring} → PcTurn service client_assertions s t → s.rounds ≤ t.rounds
  PcTurn-rounds {s} (pc_performed g lt e done) = le_refl s.rounds
  PcTurn-rounds {s} (pc_act g {o = (x, rs)} lt done ran) = omega arith

  PcTurn-Carried :
      {k0 : ℕ} {works : ℕ → Bool} {s t : Ring}
      → Orderly k0 works s
      → s.rounds + 2 < 2 ^ 64
      → ((g : ℕ)
          → (s.sess g).info.state ≡ pc_try_to_acquire
          → IsPcPolled s g
          → (s.sess g).info.asked ≡ true
          → (s.sess g).queue ≡ [])
      → PcTurn service client_assertions s t
      → Carried k0 t
  PcTurn-Carried {k0} {works} {s} inv small empty (pc_performed g {q = q} lt e done) =
      subst (λ o. Carried k0 (pc_answered s g o q)) (sym (atomic _ _ _ _ _ done))
        (Orderly-Serves inv g lt e)
  PcTurn-Carried {k0} {works} {s} inv small empty (pc_act g {o = o} lt done ran) =
      let (o', runs, carried) =
        Orderly-Acts client_assertions inv g lt (λ try. empty g try (done try)) small in
      subst (λ u. Carried k0 (pc_acted s g u)) (some_injective (sym runs ∙ ran)) carried

module _ {service : PcService} (atomic : PcAtomic service) {client_assertions : Bool} {k0 : ℕ}
    (keys : k0 + global_session_num * (pc_writes_num + 1) ≤ kvs_num_keys) where
  pub PcReached-Carried :
      {s : Ring}
      → PcReached service client_assertions k0 s
      → s.rounds + 2 < 2 ^ 64
      → ((g : ℕ) → s.last_pushed_req g < 2 ^ 32)
      → Carried k0 s
  PcReached-Carried pc_at_start small few = (on_first, initial-Orderly k0 keys)
  PcReached-Carried (pc_turn {s} {t} r mv) small few =
      let before : s.rounds + 2 < 2 ^ 64 = omega (arith, small, PcTurn-rounds atomic mv) in
      let fewer : (g : ℕ) → s.last_pushed_req g < 2 ^ 32 =
        λ g. omega (arith, few g, PcTurn-pushed mv g) in
      let (works, inv) = PcReached-Carried r before fewer in
      PcTurn-Carried atomic inv before (λ g. polled-none atomic r g (fewer g)) mv

  -- If each request is performed at one moment and the keys of the flags and nodes are below
  -- KVS_NUM_KEYS: in a state reached with fewer than 2^64 - 2 rounds and fewer than 2^32 requests of
  -- each session, a session that does not have to poll for the read of its flag goes through the
  -- loop: no assertion fails, so the node that it has read last is the one that the session before it
  -- wrote for that round.
  pub PcReached-runs :
      {s : Ring}
      → PcReached service client_assertions k0 s
      → s.rounds + 2 < 2 ^ 64
      → ((g : ℕ) → s.last_pushed_req g < 2 ^ 32)
      → (g : ℕ) → g < global_session_num
      → ((s.sess g).info.state ≡ pc_try_to_acquire → IsPcPolled s g)
      → (o : PcSess × List PcOp) × (pc_per_sess_state_machine client_assertions (s.sess g).info
          ≡ some o)
  PcReached-runs r small few g lt done =
      let (works, inv) = PcReached-Carried r small few in
      let (o, runs, _) =
        Orderly-Acts client_assertions inv g lt
          (λ try. polled-none atomic r g (few g) try (done try)) small in
      (o, runs)

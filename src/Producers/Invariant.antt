-- ===== src/Producers/Invariant.antt =====
-- Whose turn it is in client/od_client.c's producer-consumer ring.
use odyssey_lib.Base.{
  at_update, at_updates, update, update_other, Bool, List, arith, true, ℕ, ◌%◌, ◌+◌, ◌<◌, ◌≡◌, ◌≢◌,
  ◌≤◌, ◌⊎◌,
}
use odyssey_lib.Config.{sessions_per_machine}
use odyssey_lib.Producers.{PcNode, PcOp, PcPtr, PcSess, from_session, pc_writes_num}
use odyssey_lib.Producers.Run.{PcClient, PcStore, Ring}
use odyssey_lib.Producers.Stages.{AsksFor, Counted, InRing, PcStage-frame}
use odyssey_lib.Quorum.Membership.{others}
use odyssey_lib.Treiber.{global_session_num}
use odyssey_lib.Treiber.Count.{bit}

-- how often a session has raised its flag in the store
abbrev pub raised : ℕ → PcStore → ℕ → ℕ
raised k0 m g = (m.flags (k0 + g)).counter

-- A session has the turn: it works on a round, or the flag before it is raised and it has not begun.
abbrev pub HasTurn : ℕ → PcStore → ℕ → Bool → PcSess → Type 0
HasTurn k0 m g works x = (works ≡ true) ⊎ (x.acq_num < raised k0 m (from_session g))

-- What a session knows of the flag before it, and of its own.
pub record NearAt (own before : ℕ) (works : Bool) (acq_num rel_num counter : ℕ) : Type 0 where
  pub lag : own + bit works ≡ rel_num
  pub low : acq_num ≤ before
  pub high : before ≤ acq_num + 1
  pub begun_round : works ≡ true → before ≡ acq_num
  pub seen : counter ≤ before

abbrev pub Near : ℕ → PcStore → ℕ → Bool → PcSess → Type 0
Near k0 m g works x =
    NearAt (raised k0 m g) (raised k0 m (from_session g)) works x.acq_num x.rel_num
      x.acq_flag.counter

-- Each session stands somewhere in its round, and of the sessions with one number on their machines
-- at most one has the turn.
pub record Orderly (k0 : ℕ) (works : ℕ → Bool) (s : Ring) : Type 0 where
  pub regular : (g : ℕ) → g < global_session_num → InRing k0 g s.rounds (s.sess g).info
  pub queued :
      (g : ℕ) → g < global_session_num → AsksFor s.store (s.sess g).info (s.sess g).queue (works g)
  pub near : (g : ℕ) → g < global_session_num → Near k0 s.store g (works g) (s.sess g).info
  pub one :
      (g h : ℕ)
      → g < global_session_num
      → h < global_session_num
      → g % sessions_per_machine ≡ h % sessions_per_machine
      → HasTurn k0 s.store g (works g) (s.sess g).info
      → HasTurn k0 s.store h (works h) (s.sess h).info
      → g ≡ h

pub Counted-more :
    {g r r' : ℕ} {node : PcNode} {rel_flag : PcPtr} {acq_num rel_num : ℕ}
    → r ≤ r'
    → Counted g r node rel_flag acq_num rel_num
    → Counted g r' node rel_flag acq_num rel_num
Counted-more le c = record {
  owner = c.owner;
  written = c.written;
  flag = c.flag;
  few = omega (arith, c.few, le);
  few_acq = omega (arith, c.few_acq, le);
}

InRing-more : {k0 g r r' : ℕ} {x : PcSess} → r ≤ r' → InRing k0 g r x → InRing k0 g r' x
InRing-more le f = record {
  placed = f.placed;
  counted = Counted-more le f.counted;
  unasked = f.unasked;
}

module _ {k0 : ℕ} {works : ℕ → Bool} {s : Ring} (inv : Orderly k0 works s) (g : ℕ)
    (lt : g < global_session_num) where
  -- One session changes, and no flag does.
  pub calm-Orderly :
      {id n : ℕ → ℕ} (parts : ℕ → PcNode) (x : PcSess) (q : List PcOp) (w : Bool) (rounds : ℕ)
      → s.rounds ≤ rounds
      → let m = record s.store { parts = parts } in
        InRing k0 g rounds x
        → AsksFor m x q w
        → Near k0 m g w x
        → (HasTurn k0 m g w x → HasTurn k0 s.store g (works g) (s.sess g).info)
        → ((h : ℕ)
            → g ≢ h
            → h < global_session_num
            → AsksFor m (s.sess h).info (s.sess h).queue (works h))
        → Orderly k0 (update works g w) (record {
          store = m;
          sess = update s.sess g (record { info = x; queue = q });
          last_req_id = id;
          last_pushed_req = n;
          rounds = rounds;
        })
  calm-Orderly parts x q w rounds le reg que near had_turn others =
      let m : PcStore = record s.store { parts = parts } in
      let e : PcClient = record { info = x; queue = q } in
      let had : (h : ℕ)
          → HasTurn k0 m h (update works g w h) (update s.sess g e h).info
          → HasTurn k0 s.store h (works h) (s.sess h).info =
        at_updates
          (λ h w c. HasTurn k0 m h w c.info → HasTurn k0 s.store h (works h) (s.sess h).info) works
          s.sess g w e had_turn (λ h _ t. t) in
      record {
        regular =
            at_update (λ h c. h < global_session_num → InRing k0 h rounds c.info) s.sess g e
              (λ _. reg) (λ h _ lt'. InRing-more le (inv.regular h lt'));
        queued =
            at_updates (λ h w c. h < global_session_num → AsksFor m c.info c.queue w) works s.sess g
              w e (λ _. que) others;
        near =
            at_updates (λ h w c. h < global_session_num → Near k0 m h w c.info) works s.sess g w e
              (λ _. near) (λ h _. inv.near h);
        one = λ h j lh lj same t t'. inv.one h j lh lj same (had h t) (had j t');
      }

  -- Where a session without flags or nodes changed stands.
  pub others-AsksFor :
      (k : ℕ) (v : PcNode)
      → (h : ℕ) → ((j : ℕ) → j < pc_writes_num → k ≢ (s.sess h).info.w_key + j)
      → h < global_session_num
      → AsksFor
          (record s.store { parts = update s.store.parts k v })
          (s.sess h).info
          (s.sess h).queue
          (works h)
  others-AsksFor k v h apart lt' =
      let u = inv.queued h lt' in
      record {
        round = u.round;
        tail = u.tail;
        shape = u.shape;
        tried = u.tried;
        stage = PcStage-frame u.stage (λ j lj. update_other s.store.parts k _ v (apart j lj));
      }

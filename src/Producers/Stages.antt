-- ===== src/Producers/Stages.antt =====
-- Where a session of client/od_client.c's producer-consumer ring stands in a round.
use odyssey_lib.Base.{
  Bool, List, [], arith, false, suc, true, ℕ, ◌*◌, ◌++◌, ◌+◌, ◌<◌, ◌∙◌, ◌∷◌, ◌≡◌, ◌≤◌,
}
use odyssey_lib.Config.{sessions_per_machine}
use odyssey_lib.Producers.{
  PcNode, PcOp, PcPtr, PcSess, acquire_flag, from_session, parts_from, pc_try_to_acquire,
  pc_writes_num, read_flag, write_part, writes_from,
}
use odyssey_lib.Producers.Run.{PcStore}
use odyssey_lib.Treiber.{global_session_num}

-- the first `i` parts of the session's node are written
abbrev pub Written : PcStore → PcSess → ℕ → Type 0
Written m x i = (j : ℕ) → j < i → m.parts (x.w_key + j) ≡ x.node_to_write

-- the part that was read last is that of this round
abbrev pub HasRead : PcSess → Type 0
HasRead x =
    (x.node_to_read.owner ≡ x.session_to_acquire_from) × (x.node_to_read.times_written ≡ x.acq_num)

-- The requests of a round that are not performed yet, and whether there are any.
pub data PcStage (m : PcStore) (x : PcSess) (b : List PcOp) (works : Bool) : Type 0 where
  resting :
      works ≡ false
      → b ≡ []
      → (0 < x.rel_num → Written m x pc_writes_num)
      → (0 < x.acq_num → HasRead x)
      → PcStage m x b works
  acquiring :
      works ≡ true
      → b ≡ acquire_flag x.flag_to_acquire ∷ parts_from x pc_writes_num 0
      → 0 < x.acq_num
      → PcStage m x b works
  reading :
      (n i : ℕ)
      → works ≡ true
      → n + i ≡ pc_writes_num
      → b ≡ parts_from x n i
      → 0 < x.acq_num
      → Written m x i
      → (0 < i → HasRead x)
      → PcStage m x b works
  writing_part :
      (n i : ℕ)
      → works ≡ true
      → suc n + i ≡ pc_writes_num
      → b ≡ write_part (x.w_key + i) x.node_to_write ∷ parts_from x n (i + 1)
      → 0 < x.acq_num
      → Written m x i
      → HasRead x
      → PcStage m x b works
  starting :
      (n i : ℕ)
      → works ≡ true
      → n + i ≡ pc_writes_num
      → b ≡ writes_from x n i
      → x.acq_num ≡ 0
      → Written m x i
      → PcStage m x b works

-- the read of the flag that may be behind the requests of a round
abbrev pub asks : PcSess → Bool → List PcOp
asks x true = read_flag x.flag_to_acquire ∷ []
asks x false = []

-- The queue of a session.
pub record AsksFor (m : PcStore) (x : PcSess) (q : List PcOp) (works : Bool) : Type 0 where
  pub round : List PcOp
  pub tail : Bool
  pub shape : q ≡ round ++ asks x tail
  pub tried : tail ≡ true → (x.state ≡ pc_try_to_acquire) × (x.asked ≡ true)
  pub stage : PcStage m x round works

-- The numbers and keys of a session, for its place in the ring.
pub record Keyed
    (k0 g real_sess_i glob_sess_i session_to_acquire_from flag_to_acquire flag_to_release w_key
      r_key : ℕ)
    : Type 0 where
  pub real : real_sess_i < sessions_per_machine
  pub glob : glob_sess_i ≡ g
  pub before : session_to_acquire_from ≡ from_session g
  pub acquires : flag_to_acquire ≡ k0 + from_session g
  pub releases : flag_to_release ≡ k0 + g
  pub writes : w_key ≡ k0 + global_session_num + g * pc_writes_num
  pub reads : r_key ≡ k0 + global_session_num + from_session g * pc_writes_num

-- What a session writes, and how often it has.
pub record Counted (g rounds : ℕ) (node : PcNode) (rel_flag : PcPtr) (acq_num rel_num : ℕ)
    : Type 0 where
  pub owner : node.owner ≡ g
  pub written : node.times_written ≡ rel_num
  pub flag : rel_flag.counter ≡ rel_num
  pub few : rel_num ≤ rounds + 1
  pub few_acq : acq_num ≤ rounds

-- What a session knows of itself.
pub record InRing (k0 g rounds : ℕ) (x : PcSess) : Type 0 where
  pub placed :
      Keyed k0 g x.real_sess_i x.glob_sess_i x.session_to_acquire_from x.flag_to_acquire
        x.flag_to_release x.w_key x.r_key
  pub counted : Counted g rounds x.node_to_write x.rel_flag x.acq_num x.rel_num
  pub unasked : x.asked ≡ false → (x.acq_flag.counter ≡ 0) × (x.acq_num ≡ 0)

-- A session stands where it stood while the parts of its node are the same.
pub PcStage-frame :
    {m m' : PcStore} {x : PcSess} {b : List PcOp} {works : Bool}
    → PcStage m x b works
    → ((j : ℕ) → j < pc_writes_num → m'.parts (x.w_key + j) ≡ m.parts (x.w_key + j))
    → PcStage m' x b works
PcStage-frame (resting w e d r) same = resting w e (λ pos j lt. same j lt ∙ d pos j lt) r
PcStage-frame (acquiring w e pos) same = acquiring w e pos
PcStage-frame (reading n i w t e pos d r) same =
    reading n i w t e pos (λ j lt. same j (omega (arith, t, lt)) ∙ d j lt) r
PcStage-frame (writing_part n i w t e pos d r) same =
    writing_part n i w t e pos (λ j lt. same j (omega (arith, t, lt)) ∙ d j lt) r
PcStage-frame (starting n i w t e z d) same =
    starting n i w t e z (λ j lt. same j (omega (arith, t, lt)) ∙ d j lt)

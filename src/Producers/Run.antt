-- ===== src/Producers/Run.antt =====
-- The run of client/od_client.c `pc_multi_session` in all clients, with the store that performs their
-- requests. As in `Treiber/Run`, the workers are the parameter `service`, a session's requests are
-- performed in the order of their issue, and those of different sessions in any order. That it is
-- `PcAtomic`, which makes an acquire the same as a read, is an assumption of the theorems.
use odyssey_lib.Base.{
  update, Bool, List, [], if◌then◌else◌, length, some, u32, ℕ, ◌%◌, ◌++◌, ◌+◌, ◌/◌, ◌<◌, ◌==◌, ◌∷◌,
  ◌≡◌, ◌≤◌,
}
use odyssey_lib.Config.{sessions_per_machine}
use odyssey_lib.Producers.{
  PcNode, PcOp, PcPtr, PcSess, acquire_flag, init_pc_sess, pc_init_flags, pc_per_sess_state_machine,
  pc_try_to_acquire, read_flag, read_part, release_flag, write_part, zero_part, zero_ptr,
}
use odyssey_lib.Treiber.{global_session_num}

-- The flags and the nodes, by their keys.
pub record PcStore : Type 0 where
  pub flags : ℕ → PcPtr
  pub parts : ℕ → PcNode

pub record PcClient : Type 0 where
  pub info : PcSess
  pub queue : List PcOp

-- `last_req_id` is the uint32_t of that name of each session, `last_pushed_req` the number of requests
-- that the client interface keeps for it. `rounds` is not in the program: it counts the rounds that all
-- sessions have begun.
pub record Ring : Type 0 where
  pub store : PcStore
  pub sess : ℕ → PcClient
  pub last_req_id : ℕ → ℕ
  pub last_pushed_req : ℕ → ℕ
  pub rounds : ℕ

-- One request on a store that performs it at one moment.
unfoldable pub pc_perform : PcOp → PcStore → PcSess → PcStore × PcSess
pc_perform (read_flag key) m x = (m, record x { acq_flag = m.flags key })
pc_perform (acquire_flag key) m x = (m, record x { acq_flag = m.flags key })
pc_perform (read_part key) m x = (m, record x { node_to_read = m.parts key })
pc_perform (write_part key v) m x = (record m { parts = update m.parts key v }, x)
pc_perform (release_flag key v) m x = (record m { flags = update m.flags key v }, x)

-- What the workers may make of a request: the store and the session after it.
abbrev pub PcService : Type 1
PcService = PcStore → PcSess → PcOp → PcStore → PcSess → Type 0

-- Each request is performed at one moment.
abbrev pub PcAtomic : PcService → Type 0
PcAtomic service =
    (m m' : PcStore) (x x' : PcSess) (r : PcOp) → service m x r m' x' → (m', x') ≡ pc_perform r m x

abbrev pub pc_answered : Ring → ℕ → PcStore × PcSess → List PcOp → Ring
pc_answered s g (m, x) q = record s {
  store = m;
  sess = update s.sess g (record { info = x; queue = q });
}

-- A round is begun when requests are issued that are more than the read of a flag.
abbrev pub begun : List PcOp → ℕ
begun (acquire_flag _ ∷ _) = 1
begun _ = 0

-- Only the read of a flag gives `last_req_id`: its number as an int, cast to uint32_t.
unfoldable pub pc_req_id_after : ℕ → ℕ → List PcOp → ℕ
pc_req_id_after id n (read_flag _ ∷ []) = u32 (n + 1)
pc_req_id_after id n _ = id

unfoldable pub pc_pushed_after : ℕ → List PcOp → ℕ
pc_pushed_after n rs = n + length rs

-- `poll_a_req_blocking` has returned, as in `Treiber/Run`.
abbrev pub IsPcPolled : Ring → ℕ → Type 0
IsPcPolled s g = s.last_req_id g + length (s.sess g).queue ≤ s.last_pushed_req g

abbrev pub pc_acted : Ring → ℕ → PcSess × List PcOp → Ring
pc_acted s g (x, rs) = record s {
  sess = update s.sess g (record { info = x; queue = (s.sess g).queue ++ rs });
  last_req_id = update s.last_req_id g (pc_req_id_after (s.last_req_id g) (s.last_pushed_req g) rs);
  last_pushed_req = update s.last_pushed_req g (pc_pushed_after (s.last_pushed_req g) rs);
  rounds = s.rounds + begun rs;
}

module _ (service : PcService) (client_assertions : Bool) where
  pub data PcTurn (s : Ring) : Ring → Type 0 where
    pc_performed :
        (g : ℕ) {r : PcOp} {q : List PcOp} {m : PcStore} {x : PcSess}
        → g < global_session_num
        → (s.sess g).queue ≡ r ∷ q
        → service s.store (s.sess g).info r m x
        → PcTurn s (pc_answered s g (m, x) q)
    -- a round of the loop for one session; before the flag is looked at, it polls for its read
    pc_act :
        (g : ℕ) {o : PcSess × List PcOp}
        → g < global_session_num
        → ((s.sess g).info.state ≡ pc_try_to_acquire → IsPcPolled s g)
        → pc_per_sess_state_machine client_assertions (s.sess g).info ≡ some o
        → PcTurn s (pc_acted s g o)

abbrev pub zero_pc_store : PcStore
zero_pc_store = record { flags = λ _. zero_ptr; parts = λ _. zero_part }

-- A session at its start; the first machine calls `pc_init_flags`.
unfoldable pub pc_start_of : ℕ → ℕ → PcClient
pc_start_of num_of_rmw_keys g =
    let x = init_pc_sess num_of_rmw_keys (g / sessions_per_machine) (g % sessions_per_machine) in
    if g / sessions_per_machine == 0
    then record {
      info = (pc_init_flags num_of_rmw_keys x).0;
      queue = (pc_init_flags num_of_rmw_keys x).1;
    }
    else record { info = x; queue = [] }

unfoldable pub pc_initial : ℕ → Ring
pc_initial num_of_rmw_keys = record {
  store = zero_pc_store;
  sess = pc_start_of num_of_rmw_keys;
  last_req_id = λ g. 0;
  last_pushed_req = λ g. length (pc_start_of num_of_rmw_keys g).queue;
  rounds = 0;
}

pub data PcReached (service : PcService) (client_assertions : Bool) (num_of_rmw_keys : ℕ)
    : Ring → Type 0 where
  pc_at_start : PcReached service client_assertions num_of_rmw_keys (pc_initial num_of_rmw_keys)
  pc_turn :
      {s t : Ring}
      → PcReached service client_assertions num_of_rmw_keys s
      → PcTurn service client_assertions s t
      → PcReached service client_assertions num_of_rmw_keys t

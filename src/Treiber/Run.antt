-- ===== src/Treiber/Run.antt =====
-- The run of client/od_client.c `treiber_push_pull_multi_session` in all clients: the sessions' state
-- machines and the store that performs their requests. The workers of the replication protocol, which
-- are not in the repository, are the parameter `service`; that it is `Atomic` is an assumption of the
-- theorems: nothing in the repository says what order the relaxed reads and writes are done in. A
-- session's requests are performed one by one in the order of their issue; requests and machine steps
-- of different sessions come in any order, more than the round robin of each client allows.
use odyssey_lib.Base.{
  update, Bool, List, [], false, if◌then◌else◌, length, not, some, true, u32, ℕ, ◌%◌, ◌&&◌, ◌++◌,
  ◌+◌, ◌/◌, ◌<◌, ◌==◌, ◌∷◌, ◌≡◌, ◌≢◌, ◌≤◌,
}
use odyssey_lib.Config.{sessions_per_machine}
use odyssey_lib.Treiber.{
  Node, Outcome, SessInfo, StoreOp, Top, cas, clients_per_machine, global_session_num,
  init_sess_info, init_stack_id_cntr, machine, read_node, read_top, sessions_per_client, tr_init,
  write_node, zero_node, zero_top,
}

-- The store: the keys below TR_KEY_OFFSET hold tops, the others nodes. `changes` is not in the
-- program: it counts the compare-and-swaps that succeeded.
pub record Store : Type 0 where
  pub tops : ℕ → Top
  pub nodes : ℕ → Node
  pub changes : ℕ

pub record Sess : Type 0 where
  pub info : SessInfo
  pub queue : List StoreOp

-- `last_req_id` is the uint32_t of that name of each session, `last_pushed_req` the uint64_t that the
-- client interface keeps for it: the number of requests that it issued.
pub record Clients : Type 0 where
  pub store : Store
  pub sess : ℕ → Sess
  pub last_req_id : ℕ → ℕ
  pub last_pushed_req : ℕ → ℕ
  pub stack_id_cntr : ℕ → ℕ

-- the comparison of `sizeof(struct top)` bytes
unfoldable pub same_bytes : Top → Top → Bool
same_bytes a b =
    a.fourth_key_id == b.fourth_key_id
    && a.third_key_id == b.third_key_id
    && a.sec_key_id == b.sec_key_id
    && a.key_id == b.key_id
    && a.pop_counter == b.pop_counter
    && a.push_counter == b.push_counter

-- One request on a store that performs it at one moment. A compare-and-swap is weak: it may fail
-- although the values agree, if the first argument says so; one that fails reads the current value.
unfoldable pub perform : Bool → StoreOp → Store → SessInfo → Store × SessInfo
perform fails (read_top stack) m x = (m, record x { top = m.tops stack })
perform fails (read_node key) m x = (m, record x { new_node = m.nodes key })
perform fails (write_node key value) m x = (record m { nodes = update m.nodes key value }, x)
perform fails (cas stack expected desired) m x =
    if same_bytes (m.tops stack) expected && not fails
    then (
      record m { tops = update m.tops stack desired; changes = m.changes + 1 },
      record x { success = true },
    )
    else (m, record x { top = m.tops stack; success = false })

-- the client that runs a session, counted over all machines
abbrev pub client_of : ℕ → ℕ
client_of i = i / sessions_per_client

-- What the workers may make of a request: the store and the session after it.
abbrev pub Service : Type 1
Service = Store → SessInfo → StoreOp → Store → SessInfo → Type 0

-- Each request is performed at one moment.
abbrev pub Atomic : Service → Type 0
Atomic service =
    (m m' : Store) (x x' : SessInfo) (r : StoreOp)
    → service m x r m' x'
    → (fails : Bool) × ((m', x') ≡ perform fails r m x)

-- A session's first request is performed, with the store and the session after it; `q` are left.
abbrev pub answered : Clients → ℕ → Store × SessInfo → List StoreOp → Clients
answered s i (m, x) q = record s {
  store = m;
  sess = update s.sess i (record { info = x; queue = q });
}

abbrev pub served : Clients → ℕ → Bool → StoreOp → List StoreOp → Clients
served s i fails r q = answered s i (perform fails r s.store (s.sess i).info) q

-- The number of requests after some are issued.
unfoldable pub pushed_after : ℕ → List StoreOp → ℕ
pushed_after n rs = n + length rs

-- The last request that a call issues gives `last_req_id`: its number as an int, cast to uint32_t.
unfoldable pub req_id_after : ℕ → ℕ → List StoreOp → ℕ
req_id_after id n [] = id
req_id_after id n (r ∷ rs) = u32 (pushed_after n (r ∷ rs))

-- A call of a session's state machine has ended with the outcome: its requests are issued.
abbrev pub acted : Clients → ℕ → Outcome → Clients
acted s i (x, rs, c) = record s {
  sess = update s.sess i (record { info = x; queue = (s.sess i).queue ++ rs });
  last_req_id = update s.last_req_id i (req_id_after (s.last_req_id i) (s.last_pushed_req i) rs);
  last_pushed_req = update s.last_pushed_req i (pushed_after (s.last_pushed_req i) rs);
  stack_id_cntr = update s.stack_id_cntr (client_of i) c;
}

-- `poll_a_req_blocking` has returned: as many requests of the session are performed as its
-- `last_req_id` says. Those in the queue are issued and not performed.
abbrev pub IsPolled : Clients → ℕ → Type 0
IsPolled s i = s.last_req_id i + length (s.sess i).queue ≤ s.last_pushed_req i

module _ (service : Service) (assertions no_conflicts : Bool) where
  pub data Turn (s : Clients) : Clients → Type 0 where
    performed :
        (i : ℕ) {r : StoreOp} {q : List StoreOp} {m : Store} {x : SessInfo}
        → i < global_session_num
        → (s.sess i).queue ≡ r ∷ q
        → service s.store (s.sess i).info r m x
        → Turn s (answered s i (m, x) q)
    -- a call of a state machine; in all states but the first, it polls for the last request
    act :
        (i : ℕ) {o : Outcome}
        → i < global_session_num
        → ((s.sess i).info.state ≢ tr_init → IsPolled s i)
        → machine assertions no_conflicts (s.sess i).info (s.stack_id_cntr (client_of i)) ≡ some o
        → Turn s (acted s i o)

abbrev pub zero_store : Store
zero_store = record { tops = λ _. zero_top; nodes = λ _. zero_node; changes = 0 }

-- All clients have set up their sessions, and every value of the store is zero.
unfoldable pub initial : Clients
initial = record {
  store = zero_store;
  sess = λ i. record {
    info = init_sess_info (i / sessions_per_machine) (i % sessions_per_machine);
    queue = [];
  };
  last_req_id = λ i. 0;
  last_pushed_req = λ i. 0;
  stack_id_cntr = λ c. init_stack_id_cntr (c / clients_per_machine) (c % clients_per_machine);
}

pub data Reached (service : Service) (assertions no_conflicts : Bool) : Clients → Type 0 where
  at_start : Reached service assertions no_conflicts initial
  turn :
      {s t : Clients}
      → Reached service assertions no_conflicts s
      → Turn service assertions no_conflicts s t
      → Reached service assertions no_conflicts t

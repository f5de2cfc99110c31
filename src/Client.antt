-- ===== src/Client.antt =====
-- client_api/od_interface.c, client/od_wrkr_side_calls.c: the array of requests that a client thread
-- and a worker share for each session. A session id names a worker and a session of it (see Ids), so
-- the state is that of one session. The hash of key ids (CityHash128) is an argument.
pub mod Api
pub mod Worker
pub mod Functions
pub mod Window
pub mod Calls
pub mod Signals
pub mod Rmw
use odyssey_lib.Base.{
  Bool, List, Option, [], false, get_or, if◌then◌else◌, leb, ltb, none, replicate, set, some, suc,
  true, u16, zero, ℕ, ◌&&◌, ◌+◌, ◌==◌, ◌∷◌,
}
use odyssey_lib.Config.{kvs_num_keys, sessions_per_machine, value_size}

-- INVALID_REQ, ACTIVE_REQ, IN_PROGRESS_REQ, COMPLETED_REQ
pub data ReqState : Type 0 where
  invalid_req : ReqState
  active_req : ReqState
  in_progress_req : ReqState
  completed_req : ReqState

abbrev pub is_invalid : ReqState → Bool
is_invalid invalid_req = true
is_invalid _ = false

abbrev pub is_active : ReqState → Bool
is_active active_req = true
is_active _ = false

abbrev pub is_in_progress : ReqState → Bool
is_in_progress in_progress_req = true
is_in_progress _ = false

abbrev pub is_completed : ReqState → Bool
is_completed completed_req = true
is_completed _ = false

-- API_OPCODE
pub data ApiOpcode : Type 0 where
  rlxd_read_blocking : ApiOpcode
  rlxd_write_blocking : ApiOpcode
  acquire_blocking : ApiOpcode
  release_blocking : ApiOpcode
  cas_blocking : ApiOpcode
  faa_blocking : ApiOpcode

-- `client_op_t`. A pointer is an address, none for NULL.
pub record ClientOp : Type 0 where
  pub state : ReqState
  pub opcode : ℕ
  pub val_len : ℕ
  pub rmw_is_successful : Option ℕ
  pub key : ℕ
  pub value_to_read : Option ℕ
  pub value_to_write : List ℕ

-- The members of `struct wrk_clt_if` of one session, and its `last_pulled_req` and
-- `last_pushed_req`.
pub record Session : Type 0 where
  pub req_array : List ClientOp
  pub clt_push_ptr : ℕ
  pub clt_pull_ptr : ℕ
  pub wrkr_pull_ptr : ℕ
  pub last_pulled_req : ℕ
  pub last_pushed_req : ℕ

-- The arguments of `access_async` and `access_blocking`; `value_to_write` gives the bytes that the
-- pointer leads to.
pub record Request : Type 0 where
  pub session_id : ℕ
  pub key_id : ℕ
  pub value_to_read : Option ℕ
  pub value_to_write : Option (List ℕ)
  pub val_len : ℕ
  pub cas_result : Option ℕ
  pub rmw_is_weak : Bool
  pub type : ApiOpcode

abbrev pub no_op : ClientOp
no_op = record {
  state = invalid_req;
  opcode = 0;
  val_len = 0;
  rmw_is_successful = none;
  key = 0;
  value_to_read = none;
  value_to_write = replicate value_size 0;
}

abbrev pub slot_at : Session → ℕ → ClientOp
slot_at s i = get_or s.req_array i no_op

abbrev pub state_at : Session → ℕ → ReqState
state_at s i = (slot_at s i).state

abbrev pub set_state : Session → ℕ → ReqState → Session
set_state s i st = record s { req_array = set s.req_array i (record (slot_at s i) { state = st }) }

-- MOD_INCR
abbrev pub mod_incr_16 : ℕ → ℕ → ℕ
mod_incr_16 x n = if u16 (x + 1) == n then 0 else u16 (x + 1)

abbrev pub needs_read : ApiOpcode → Bool
needs_read rlxd_write_blocking = false
needs_read release_blocking = false
needs_read _ = true

abbrev pub needs_write : ApiOpcode → Bool
needs_write rlxd_read_blocking = false
needs_write acquire_blocking = false
needs_write _ = true

abbrev pub is_none {ℓ} : {A : Type ℓ} → Option A → Bool
is_none none = true
is_none (some a) = false

-- The error that `check_inputs` returns, without its sign; none for its result 1.
unfoldable pub check_inputs : Request → Option ℕ
check_inputs r =
    if leb sessions_per_machine r.session_id
    then some 3
    else if needs_read r.type && is_none r.value_to_read
    then some 6
    else if needs_write r.type && is_none r.value_to_write
    then some 7
    else if leb kvs_num_keys r.key_id
    then some 11
    else if ltb value_size r.val_len
    then some 10
    else none

-- KVS_OP_GET, KVS_OP_PUT, OP_ACQUIRE, OP_RELEASE, COMPARE_AND_SWAP_STRONG and _WEAK, FETCH_AND_ADD
unfoldable pub opcode_of : ApiOpcode → Bool → ℕ
opcode_of rlxd_read_blocking weak = 111
opcode_of rlxd_write_blocking weak = 112
opcode_of acquire_blocking weak = 110
opcode_of release_blocking weak = 109
opcode_of cas_blocking weak = if weak then 97 else 96
opcode_of faa_blocking weak = 98

-- memcpy of `n` bytes
abbrev pub copy : ℕ → List ℕ → List ℕ → List ℕ
copy zero from to = to
copy (suc n) [] to = to
copy (suc n) (b ∷ from) [] = []
copy (suc n) (b ∷ from) (x ∷ to) = b ∷ copy n from to

abbrev pub bytes_of : Option (List ℕ) → List ℕ
bytes_of none = []
bytes_of (some bs) = bs

unfoldable pub fill_client_op : (ℕ → ℕ) → Request → ClientOp → ClientOp
fill_client_op hash r op = record {
  state = op.state;
  opcode = opcode_of r.type r.rmw_is_weak;
  val_len = r.val_len;
  rmw_is_successful = elim r.type [ cas_blocking ↦ r.cas_result | _ ↦ op.rmw_is_successful ];
  key = hash r.key_id;
  value_to_read = if needs_read r.type then r.value_to_read else op.value_to_read;
  value_to_write =
      if needs_write r.type
      then copy r.val_len (bytes_of r.value_to_write) op.value_to_write
      else op.value_to_write;
}

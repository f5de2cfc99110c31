-- ===== src/Client/Rmw.antt =====
-- client/od_wrkr_side_calls.c: what a worker hands to the client when a read-modify-write is done.
use odyssey_lib.Base.{
  Bool, List, Option, ap, assert_if, false, if◌then◌else◌, none, not, refl, some, true, ℕ, ◌==◌,
  ◌>>=◌, ◌>>◌, ◌||◌, ◌∙◌, ◌≡◌,
}
use odyssey_lib.Client.{
  ClientOp, Request, Session, cas_blocking, check_inputs, copy, fill_client_op, is_none, opcode_of,
  slot_at,
}
use odyssey_lib.Client.Worker.{check_session_id_and_req_array_index}
use odyssey_lib.Network.{put}

-- The client's memory that the pointers of its requests lead to: flags and buffers.
pub record ClientMem : Type 0 where
  pub flags : ℕ → Bool
  pub buffers : ℕ → List ℕ

-- A store through a pointer; through NULL there is none.
abbrev pub set_flag : Option ℕ → Bool → ClientMem → Option ClientMem
set_flag none ok mem = none
set_flag (some p) ok mem = some (record mem { flags = put mem.flags p ok })

-- `memcpy(to, from, n)`
abbrev pub copy_to : Option ℕ → Option (List ℕ) → ℕ → ClientMem → Option ClientMem
copy_to (some p) (some from) n mem =
    some (record mem { buffers = put mem.buffers p (copy n from (mem.buffers p)) })
copy_to _ _ n mem = none

abbrev pub fetch_and_add : ℕ
fetch_and_add = 98

abbrev pub rmw_plain_write : ℕ
rmw_plain_write = 99

abbrev pub is_cas : ℕ → Bool
is_cas opcode = opcode == 97 || opcode == 96

module _ (assertions : Bool) where
  -- The case of a compare-and-swap.
  unfoldable pub fill_cas : ClientOp → Option (List ℕ) → Bool → ClientMem → Option ClientMem
  fill_cas cl_op value_to_read ok mem = do
    assert_if assertions (not (is_none value_to_read))
    assert_if assertions (not (is_none cl_op.value_to_read))
    assert_if assertions (not (is_none cl_op.rmw_is_successful))
    mem1 ← set_flag cl_op.rmw_is_successful ok mem
    if not ok then copy_to cl_op.value_to_read value_to_read cl_op.val_len mem1 else some mem1

  -- The case of a fetch-and-add.
  unfoldable pub fill_faa : ClientOp → Option (List ℕ) → ClientMem → Option ClientMem
  fill_faa cl_op value_to_read mem = do
    assert_if assertions (not (is_none value_to_read))
    assert_if assertions (not (is_none cl_op.value_to_read))
    copy_to cl_op.value_to_read value_to_read cl_op.val_len mem

  unfoldable pub fill_req_array_when_after_rmw :
      ℕ → ℕ → Option (List ℕ) → Bool → Session → ClientMem → Option ClientMem
  fill_req_array_when_after_rmw req_array_i opcode value_to_read ok s mem =
      let cl_op = slot_at s req_array_i in
      if opcode == rmw_plain_write
      then some mem
      else if opcode == fetch_and_add
      then fill_faa cl_op value_to_read mem
      else if is_cas opcode
      then fill_cas cl_op value_to_read ok mem
      else (assert_if assertions false >> some mem)

  unfoldable pub fill_req_array_on_rmw_early_fail :
      ℕ → Option (List ℕ) → ℕ → ℕ → Session → ClientMem → Option ClientMem
  fill_req_array_on_rmw_early_fail sess_id value_to_read req_array_i t_id s mem = do
    assert_if assertions (not (is_none value_to_read))
    check_session_id_and_req_array_index assertions sess_id req_array_i t_id
    let cl_op = slot_at s req_array_i
    mem1 ← set_flag cl_op.rmw_is_successful false mem
    copy_to cl_op.value_to_read value_to_read cl_op.val_len mem1

-- What the client of a compare-and-swap finds: the flag at `p`, and the value that was read in its
-- buffer if the swap failed.
abbrev pub cas_answer : ℕ → ℕ → ℕ → List ℕ → Bool → ClientMem → ClientMem
cas_answer p q n v ok mem = record {
  flags = put mem.flags p ok;
  buffers = if ok then mem.buffers else put mem.buffers q (copy n v (mem.buffers q));
}

fill_cas_lem :
    (assertions : Bool) (op : ClientOp) (c : Option ℕ) (q : ℕ)
    → op.rmw_is_successful ≡ c
    → op.value_to_read ≡ some q
    → (v : List ℕ) (ok : Bool) (mem : ClientMem)
    → fill_cas assertions op (some v) ok mem
      ≡ (c >>= λ p. some (cas_answer p q op.val_len v ok mem))
unfolding fill_cas
fill_cas_lem true op none q e f v ok mem = rw (f, e) refl
fill_cas_lem false op none q e f v ok mem = rw e refl
fill_cas_lem true op (some p) q e f v true mem = rw (e, f) refl
fill_cas_lem true op (some p) q e f v false mem = rw (e, f) refl
fill_cas_lem false op (some p) q e f v true mem = rw e refl
fill_cas_lem false op (some p) q e f v false mem = rw (e, f) refl

filled_cas :
    (assertions : Bool) (op : ClientOp) (weak : Bool) (v : List ℕ) (ok : Bool) (s : Session) (i : ℕ)
    (mem : ClientMem)
    → slot_at s i ≡ op
    → fill_req_array_when_after_rmw assertions i (opcode_of cas_blocking weak) (some v) ok s mem
      ≡ fill_cas assertions op (some v) ok mem
unfolding fill_req_array_when_after_rmw opcode_of
filled_cas assertions op true v ok s i mem at = rw at refl
filled_cas assertions op false v ok s i mem at = rw at refl

module _ (assertions : Bool) (hash : ℕ → ℕ) (r : Request) (old : ClientOp) (s : Session) (i q : ℕ)
    (is_cas_request : r.type ≡ cas_blocking) (buffer : r.value_to_read ≡ some q)
    (at : slot_at s i ≡ fill_client_op hash r old) (v : List ℕ) (ok : Bool) (mem : ClientMem) where
  -- When a compare-and-swap is done whose request has a buffer for the value that is read and lies in
  -- the slot, its client finds the flag and, if the swap failed, the value that was read, and nothing
  -- else is changed; without a place for the flag the worker fails, and whether there is a place makes
  -- no difference to `check_inputs`.
  pub fill_req_array_when_after_rmw-Answers :
      (fill_req_array_when_after_rmw assertions i (slot_at s i).opcode (some v) ok s mem
        ≡ (r.cas_result >>= λ p. some (cas_answer p q r.val_len v ok mem)))
      × ((place : Option ℕ) → check_inputs (record r { cas_result = place }) ≡ check_inputs r)
  unfolding fill_client_op check_inputs
  fill_req_array_when_after_rmw-Answers =
      let op = fill_client_op hash r old in
      let code : (slot_at s i).opcode ≡ opcode_of cas_blocking r.rmw_is_weak =
        rw (at, is_cas_request) refl in
      let flag : op.rmw_is_successful ≡ r.cas_result = rw is_cas_request refl in
      let read : op.value_to_read ≡ some q = rw (is_cas_request, buffer) refl in
      (
        ap (λ c. fill_req_array_when_after_rmw assertions i c (some v) ok s mem) code
            ∙ filled_cas assertions op r.rmw_is_weak v ok s i mem at
            ∙ fill_cas_lem assertions op r.cas_result q flag read v ok mem,
        λ place. refl,
      )

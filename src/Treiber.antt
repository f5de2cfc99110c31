-- ===== src/Treiber.antt =====
-- client/od_client.c: the Treiber stacks of `treiber_push_pull_multi_session`. Each session pushes its
-- node to a stack and pops one from it, by asynchronous calls of the client interface; its two state
-- machines are here. A poll that waits for `last_req_id` is a guard of the steps of `Treiber/Run`.
-- TREIBER_WRITES_NUM is 1, so the loops over a node's further parts have no round but the first.
-- Not modelled: the statistics, the debugging counter `pop_dbg`, and printing.
pub mod Run
pub mod Chain
pub mod Count
pub mod Stages
pub mod Progress
pub mod Pushes
pub mod Pops
pub mod Advances
pub mod Invariant
pub mod Abstract
pub mod Serving
pub mod Growth
pub mod Polled
pub mod Safety
use odyssey_lib.Base.{
  Bool, List, Option, [], assert_if, assert_that, false, if◌then◌else◌, leb, ltb, not, some, true,
  u16, u32, ℕ, ◌%◌, ◌&&◌, ◌*◌, ◌+◌, ◌-◌, ◌/◌, ◌==◌, ◌>>=◌, ◌>>◌, ◌||◌, ◌∷◌,
}
use odyssey_lib.Config.{machine_num, sessions_per_machine}
use odyssey_lib.Network.{mod_incr_32}

abbrev pub treiber_writes_num : ℕ
treiber_writes_num = 1

abbrev pub clients_per_machine : ℕ
clients_per_machine = 1

abbrev pub sessions_per_client : ℕ
sessions_per_client = sessions_per_machine / clients_per_machine

abbrev pub global_session_num : ℕ
global_session_num = machine_num * sessions_per_machine

abbrev pub number_of_stacks : ℕ
number_of_stacks = global_session_num

abbrev pub tr_key_offset : ℕ
tr_key_offset = number_of_stacks

abbrev pub max_tr_node_key : ℕ
max_tr_node_key = global_session_num * treiber_writes_num + tr_key_offset

pub data TrState : Type 0 where
  tr_init : TrState
  tr_read_top : TrState
  tr_read_first : TrState

pub data PushOrPull : Type 0 where
  pushing : PushOrPull
  popping : PushOrPull

-- `struct top`
pub record Top : Type 0 where
  pub fourth_key_id : ℕ
  pub third_key_id : ℕ
  pub sec_key_id : ℕ
  pub key_id : ℕ
  pub pop_counter : ℕ
  pub push_counter : ℕ

-- `struct node`; its bytes `value` are one number.
pub record Node : Type 0 where
  pub value : ℕ
  pub pushed : Bool
  pub stack_id : ℕ
  pub owner : ℕ
  pub push_counter : ℕ
  pub key_id : ℕ
  pub next_key_id : ℕ

-- `struct tr_sess_info`; its `last_req_id` is that of `Clients` in `Treiber/Run`.
pub record SessInfo : Type 0 where
  pub state : TrState
  pub push_or_pull_state : PushOrPull
  pub success : Bool
  pub real_sess_i : ℕ
  pub stack_id : ℕ
  pub owned_key : ℕ
  pub top : Top
  pub new_top : Top
  pub new_node : Node
  pub last_pushed_counter : ℕ

-- The calls of the client interface: `async_read_strong` into `info->top` and into `info->new_node`,
-- `async_write_strong` of a node and `async_cas_strong` of a top.
pub data StoreOp : Type 0 where
  read_top : (stack : ℕ) → StoreOp
  read_node : (key : ℕ) → StoreOp
  write_node : (key : ℕ) (value : Node) → StoreOp
  cas : (stack : ℕ) (expected desired : Top) → StoreOp

-- What a call of a state machine ends with: the session, the requests it issued in their order, and
-- the counter of stacks of its client.
abbrev pub Outcome : Type 0
Outcome = SessInfo × List StoreOp × ℕ

unfoldable pub check_top : Bool → Top → Bool
check_top assertions t =
    if assertions
    then (if t.push_counter == t.pop_counter
        then t.key_id == 0
        else if ltb t.pop_counter t.push_counter
        then leb tr_key_offset t.key_id
        else true)
    else true

unfoldable pub check_treiber_values : Top → Top → Bool
check_treiber_values old_top new_top =
    not (ltb new_top.push_counter old_top.push_counter)
    && not (ltb new_top.pop_counter old_top.pop_counter)

unfoldable pub check_node : Bool → Node → Option (Unit {0})
check_node assertions n =
    assert_if assertions
      (n.next_key_id == 0 || leb tr_key_offset n.next_key_id && leb n.next_key_id max_tr_node_key)

-- `new_node[0]` and `new_top` of a push, as its attempt fills them
abbrev pub pushed_node : SessInfo → Node
pushed_node x = record x.new_node { next_key_id = x.top.key_id }

abbrev pub pushed_top : SessInfo → Top
pushed_top x = record x.new_top {
  pop_counter = x.top.pop_counter;
  push_counter = u32 (x.top.push_counter + 1);
  key_id = x.owned_key;
}

-- `new_top` of a pop, as its attempt fills it
abbrev pub popped_top : SessInfo → Top
popped_top x = record x.new_top {
  pop_counter = u32 (x.top.pop_counter + 1);
  push_counter = x.top.push_counter;
  key_id = x.new_node.next_key_id;
}

-- whether the counters and the first key of a top contradict each other
abbrev pub torn : Top → Bool
torn t =
    t.push_counter == t.pop_counter && not (t.key_id == 0)
    || ltb t.pop_counter t.push_counter && t.key_id == 0

module _ (assertions no_conflicts : Bool) where
  unfoldable pub push_attempt : SessInfo → ℕ → Option Outcome
  push_attempt x cntr = do
    assert_if assertions (leb tr_key_offset x.owned_key)
    assert_if assertions (leb x.owned_key max_tr_node_key)
    check_node assertions (pushed_node x)
    assert_that (check_top assertions (pushed_top x))
    assert_that
        (not ((pushed_top x).pop_counter == (pushed_top x).push_counter) || x.owned_key == 0)
    some (
      record x { new_node = pushed_node x; new_top = pushed_top x },
      write_node x.owned_key (pushed_node x) ∷ cas x.stack_id x.top (pushed_top x) ∷ [],
      cntr,
    )

  -- The cases of `switch (info->state)` of a push.
  unfoldable pub push_in : TrState → SessInfo → ℕ → Option Outcome
  push_in tr_init x cntr = do
    assert_if assertions (not x.success)
    some (record x { state = tr_read_top }, read_top x.stack_id ∷ [], cntr)
  push_in tr_read_top x cntr = do
    assert_that (check_top assertions x.top)
    if not x.success
        then push_attempt x cntr
        else some (
          record x {
            success = false;
            push_or_pull_state = popping;
            state = tr_init;
            last_pushed_counter = x.new_top.push_counter;
          },
          [],
          cntr,
        )
  push_in tr_read_first x cntr = assert_if assertions false >> some (x, [], cntr)

  unfoldable pub treiber_push_state_machine : SessInfo → ℕ → Option Outcome
  treiber_push_state_machine x cntr =
      assert_if assertions (ltb x.real_sess_i sessions_per_machine) >> push_in x.state x cntr

  -- The cases of `switch (info->state)` of a pop.
  unfoldable pub pop_in : TrState → SessInfo → ℕ → Option Outcome
  pop_in tr_init x cntr = do
    assert_if assertions (not x.success)
    some (record x { state = tr_read_top }, read_top x.stack_id ∷ [], cntr)
  pop_in tr_read_top x cntr = do
    assert_that
        (not (ltb x.top.key_id tr_key_offset || ltb x.top.push_counter x.last_pushed_counter))
    if not x.success
        then some (record x { state = tr_read_first }, read_node x.top.key_id ∷ [], cntr)
        else assert_that (leb tr_key_offset x.top.key_id)
          >> some (
            record x {
              owned_key = x.top.key_id;
              success = false;
              stack_id = if no_conflicts then x.stack_id else cntr;
              push_or_pull_state = pushing;
              state = tr_init;
            },
            [],
            if no_conflicts then cntr else mod_incr_32 cntr number_of_stacks,
          )
  pop_in tr_read_first x cntr =
      if torn (popped_top x)
      then some (record x { new_top = popped_top x; state = tr_init }, [], cntr)
      else some (
        record x { new_top = popped_top x; state = tr_read_top },
        cas x.stack_id x.top (popped_top x) ∷ [],
        cntr,
      )

  unfoldable pub treiber_pop_state_machine : SessInfo → ℕ → Option Outcome
  treiber_pop_state_machine x cntr =
      assert_if assertions (ltb x.real_sess_i sessions_per_machine) >> pop_in x.state x cntr

  -- `switch (info[s_i].push_or_pull_state)`
  unfoldable pub machine_in : PushOrPull → SessInfo → ℕ → Option Outcome
  machine_in pushing x cntr = treiber_push_state_machine x cntr
  machine_in popping x cntr = treiber_pop_state_machine x cntr

  unfoldable pub machine : SessInfo → ℕ → Option Outcome
  machine x cntr = machine_in x.push_or_pull_state x cntr

abbrev pub zero_top : Top
zero_top = record {
  fourth_key_id = 0;
  third_key_id = 0;
  sec_key_id = 0;
  key_id = 0;
  pop_counter = 0;
  push_counter = 0;
}

abbrev pub zero_node : Node
zero_node = record {
  value = 0;
  pushed = false;
  stack_id = 0;
  owner = 0;
  push_counter = 0;
  key_id = 0;
  next_key_id = 0;
}

-- A session as the client sets it up, by the machine and the session's number on it.
unfoldable pub init_sess_info : ℕ → ℕ → SessInfo
init_sess_info machine_id real_sess_i = record {
  state = tr_init;
  push_or_pull_state = pushing;
  success = false;
  real_sess_i = real_sess_i;
  stack_id = u16 (sessions_per_machine * machine_id + real_sess_i);
  owned_key =
      u32 (tr_key_offset + (sessions_per_machine * machine_id + real_sess_i) * treiber_writes_num);
  top = zero_top;
  new_top = zero_top;
  new_node = zero_node;
  last_pushed_counter = 0;
}

-- `stack_id_cntr` of a client at its start
unfoldable pub init_stack_id_cntr : ℕ → ℕ → ℕ
init_stack_id_cntr machine_id t_id =
    let key_offset = tr_key_offset + sessions_per_machine * machine_id in
    let sess_offset = t_id * sessions_per_client in
    let last_key =
      u32 (key_offset + (sess_offset + (sessions_per_client - 1)) * treiber_writes_num) in
    u32 (machine_id * 100 + last_key) % number_of_stacks

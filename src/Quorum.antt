-- ===== src/Quorum.antt =====
-- include/general_util/od_config_util.h: which remote machines take part in broadcasts, told from
-- the credits that they have left.
pub mod Membership
pub mod Vector
pub mod Credits
pub mod Links
use odyssey_lib.Base.{
  Bool, List, Option, assert_if, false, get_or, if◌then◌else◌, ltb, map, none, not, set, some, suc,
  true, u8, zero, ℕ, ◌*◌, ◌+◌, ◌-◌, ◌==◌, ◌>>=◌, ◌>>◌, ◌∷◌,
}
use odyssey_lib.Config.{machine_num, max_bcast_batch, rem_mach_num}
use odyssey_lib.Ids.{mid_to_rmid, rmid_to_mid}

-- `quorum_info_t`. An array is a list of REM_MACH_NUM elements, of which those from `*_num` on are
-- stale. Each array of `send_wrs` holds, for a work request, the index that its `next` points to.
pub record QuorumInfo : Type 0 where
  pub missing_num : ℕ  -- uint8_t
  pub missing_ids : List ℕ
  pub active_num : ℕ  -- uint8_t
  pub active_ids : List ℕ
  pub send_vector : List Bool
  pub first_active_rm_id : ℕ
  pub last_active_rm_id : ℕ
  pub send_wrs : List (ℕ → Option ℕ)
  pub credit_ptrs : List (List ℕ)
  pub targets : List ℕ

abbrev pub add_missing : QuorumInfo → ℕ → QuorumInfo
add_missing q i = record q {
  missing_ids = set q.missing_ids q.missing_num i;
  missing_num = u8 (q.missing_num + 1);
}

abbrev pub add_active : QuorumInfo → ℕ → QuorumInfo
add_active q i = record q {
  active_ids = set q.active_ids q.active_num i;
  active_num = u8 (q.active_num + 1);
}

module _ (machine_id : ℕ) where
  abbrev pub set_first_last : QuorumInfo → QuorumInfo
  set_first_last q = record q {
    first_active_rm_id = mid_to_rmid machine_id (get_or q.active_ids 0 0);
    last_active_rm_id = mid_to_rmid machine_id (get_or q.active_ids (q.active_num - 1) 0);
  }

  -- The round of the loop of `update_q_info` for machine `i`.
  unfoldable pub update_one : List ℕ → ℕ → ℕ → QuorumInfo → QuorumInfo
  update_one credits min_credits i q =
      if i == machine_id
      then q
      else if ltb (get_or credits i 0) min_credits
      then record (add_missing q i) {
        send_vector = set q.send_vector (mid_to_rmid machine_id i) false;
      }
      else record (add_active q i) {
        send_vector = set q.send_vector (mid_to_rmid machine_id i) true;
      }

  -- The rounds for `n` machines from `i` on.
  unfoldable pub update_loop : List ℕ → ℕ → ℕ → ℕ → QuorumInfo → QuorumInfo
  update_loop credits min_credits zero i q = q
  update_loop credits min_credits (suc n) i q =
      update_loop credits min_credits n (i + 1) (update_one credits min_credits i q)

  -- The assertions at its end, that neither count is above REM_MACH_NUM, are left out.
  unfoldable pub update_q_info : List ℕ → ℕ → QuorumInfo → QuorumInfo
  update_q_info credits min_credits q =
      let r =
        update_loop credits min_credits machine_num 0
          (record q { missing_num = 0; active_num = 0 }) in
      if ltb 0 r.active_num
      then set_first_last r
      else record r { first_active_rm_id = mid_to_rmid machine_id (get_or r.active_ids 0 0) }

  -- The round of the loop of `revive_machine` for the remote id `i`.
  unfoldable pub revive_one : ℕ → QuorumInfo → QuorumInfo
  revive_one i q =
      if get_or q.send_vector i false
      then add_active q (rmid_to_mid machine_id i)
      else add_missing q (rmid_to_mid machine_id i)

  unfoldable pub revive_loop : ℕ → ℕ → QuorumInfo → QuorumInfo
  revive_loop zero i q = q
  revive_loop (suc n) i q = revive_loop n (i + 1) (revive_one i q)

  unfoldable pub revive_machine : Bool → ℕ → QuorumInfo → Option QuorumInfo
  revive_machine assertions revived_mach_id q =
      let rm_id = mid_to_rmid machine_id revived_mach_id in
      do
        assert_if assertions (ltb revived_mach_id machine_num)
        assert_if assertions (not (revived_mach_id == machine_id))
        assert_if assertions (ltb 0 q.missing_num)
        assert_if assertions (not (get_or q.send_vector rm_id false))
        some (
            set_first_last (
              revive_loop rem_mach_num 0 (record q {
                send_vector = set q.send_vector rm_id true;
                missing_num = 0;
                active_num = 0;
              })))

-- The array of work requests, changed at one index.
abbrev pub relink : (ℕ → Option ℕ) → ℕ → Option ℕ → ℕ → Option ℕ
relink wr i next k = if i == k then next else wr k

-- The inner loop of `update_bcast_wr_links`: `wr[4 * j + prev]` to `wr[4 * j + i]`, for `n` values
-- of `j` from `j` on.
unfoldable pub link_batches : ℕ → ℕ → ℕ → ℕ → (ℕ → Option ℕ) → ℕ → Option ℕ
link_batches zero j prev i wr = wr
link_batches (suc n) j prev i wr =
    link_batches n (j + 1) prev i
      (relink wr (rem_mach_num * j + prev) (some (rem_mach_num * j + i)))

-- The outer loop, for `n` remote ids from `i` on.
unfoldable pub link_loop : List Bool → ℕ → ℕ → ℕ → ℕ → (ℕ → Option ℕ) → ℕ → Option ℕ
link_loop send_vector zero i prev avail wr = wr
link_loop send_vector (suc n) i prev avail wr =
    let wr' = relink wr i none in
    let linked = if ltb 0 avail then link_batches max_bcast_batch 0 prev i wr' else wr' in
    if get_or send_vector i false
    then link_loop send_vector n (i + 1) i (avail + 1) linked
    else link_loop send_vector n (i + 1) prev avail wr'

-- `enable_multicast` stands for ENABLE_MULTICAST: with it MESSAGES_IN_BCAST is 1, and the function
-- returns at once.
unfoldable pub update_bcast_wr_links : Bool → QuorumInfo → (ℕ → Option ℕ) → ℕ → Option ℕ
update_bcast_wr_links enable_multicast q wr =
    if enable_multicast then wr else link_loop q.send_vector rem_mach_num 0 0 0 wr

abbrev pub update_all_links : Bool → QuorumInfo → QuorumInfo
update_all_links enable_multicast q = record q {
  send_wrs = map (update_bcast_wr_links enable_multicast q) q.send_wrs;
}

-- `all_q_info_targets_are_reached`, from the first credit target on.
unfoldable pub targets_reached : List (List ℕ) → List ℕ → ℕ → Bool
targets_reached (c ∷ cs) (t ∷ ts) missing_id =
    if get_or c missing_id 0 == t then targets_reached cs ts missing_id else false
targets_reached _ _ missing_id = true

unfoldable pub all_q_info_targets_are_reached : QuorumInfo → ℕ → Bool
all_q_info_targets_are_reached q miss_i =
    targets_reached q.credit_ptrs q.targets (get_or q.missing_ids miss_i 0)

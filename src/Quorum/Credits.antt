-- ===== src/Quorum/Credits.antt =====
-- include/general_util/od_config_util.h: the credits that gate broadcasts.
pub mod Enough
pub mod Kept
pub mod Spend
use odyssey_lib.Base.{
  Bool, List, Option, assert_if, false, get_or, if◌then◌else◌, leb, ltb, none, not, set, some, suc,
  true, u16, u32, zero, ℕ, ◌&&◌, ◌+◌, ◌-◌, ◌==◌, ◌>>=◌, ◌>>◌, ◌^◌,
}
use odyssey_lib.Config.{credit_timeout, machine_num, remote_quorum}
use odyssey_lib.Quorum.{
  QuorumInfo, all_q_info_targets_are_reached, revive_machine, update_all_links, update_q_info,
}

-- `check_bcast_credits` returns what it leaves behind its pointers. `available` is none where the
-- code returns false.
pub record CreditCheck : Type 0 where
  pub q_info : QuorumInfo
  pub time_out_cnt : ℕ  -- uint32_t
  pub available : Option ℕ  -- uint16_t

-- whether one of the first `n` active ids, from `i` on, is short of credits
unfoldable pub active_short : List ℕ → List ℕ → ℕ → ℕ → ℕ → Bool
active_short credits ids min_credits zero i = false
active_short credits ids min_credits (suc n) i =
    if ltb (get_or credits (get_or ids i 0) 0) min_credits
    then true
    else active_short credits ids min_credits n (i + 1)

unfoldable pub least_credits : List ℕ → List ℕ → ℕ → ℕ → ℕ → ℕ
least_credits credits ids zero i avail_cred = avail_cred
least_credits credits ids (suc n) i avail_cred =
    if ltb (get_or credits (get_or ids i 0) 0) avail_cred
    then least_credits credits ids n (i + 1) (get_or credits (get_or ids i 0) 0)
    else least_credits credits ids n (i + 1) avail_cred

-- The assertion of the last loop of `check_bcast_credits`.
unfoldable pub actives_ok : ℕ → List ℕ → ℕ → ℕ → Bool
actives_ok machine_id ids zero i = true
actives_ok machine_id ids (suc n) i =
    if ltb (get_or ids i 0) machine_num && not (get_or ids i 0 == machine_id)
    then actives_ok machine_id ids n (i + 1)
    else false

module _ (machine_id : ℕ) (assertions enable_multicast : Bool) where
  -- The loop over the missing machines. Its bound is read again each round; `fuel` bounds the rounds.
  unfoldable pub revive_missing : ℕ → ℕ → QuorumInfo → Option QuorumInfo
  revive_missing zero i q = some q
  revive_missing (suc fuel) i q =
      if ltb i q.missing_num
      then (if all_q_info_targets_are_reached q i
          then (do
            r ← revive_machine machine_id assertions (get_or q.missing_ids i 0) q
            revive_missing fuel (i + 1) (update_all_links enable_multicast r))
          else revive_missing fuel (i + 1) q)
      else some q

  unfoldable pub count_credits : List ℕ → QuorumInfo → Option CreditCheck
  count_credits credits q =
      if ltb q.active_num remote_quorum
      then some (record { q_info = q; time_out_cnt = 0; available = none })
      else (do
        assert_if assertions (actives_ok machine_id q.active_ids q.active_num 0)
        some (record {
          q_info = q;
          time_out_cnt = 0;
          available = some (least_credits credits q.active_ids q.active_num 0 65535);
        }))

  unfoldable pub credits_timed_out : List ℕ → QuorumInfo → ℕ → ℕ → CreditCheck
  credits_timed_out credits q time_out_cnt min_credits =
      if u32 (time_out_cnt + 1) == credit_timeout
      then record {
        q_info = update_all_links enable_multicast (update_q_info machine_id credits min_credits q);
        time_out_cnt = 0;
        available = none;
      }
      else record { q_info = q; time_out_cnt = u32 (time_out_cnt + 1); available = none }

  -- At most 255 machines are missing, since the count is a byte, so 256 rounds end the loop.
  unfoldable pub check_bcast_credits : List ℕ → QuorumInfo → ℕ → ℕ → Option CreditCheck
  check_bcast_credits credits q time_out_cnt min_credits =
      if active_short credits q.active_ids min_credits q.active_num 0
      then some (credits_timed_out credits q time_out_cnt min_credits)
      else (do r ← revive_missing 256 0 q; count_credits credits r)

module _ (machine_id : ℕ) (assertions : Bool) where
  -- The loop of `decrease_credits`, for `n` active ids from `i` on.
  unfoldable pub decrease_loop : List ℕ → ℕ → ℕ → ℕ → List ℕ → Option (List ℕ)
  decrease_loop ids mes_sent zero i credits = some credits
  decrease_loop ids mes_sent (suc n) i credits =
      let id = get_or ids i 0 in
      do
        assert_if assertions (leb mes_sent (get_or credits id 0))
        assert_if assertions (not (id == machine_id) && ltb id machine_num)
        decrease_loop ids mes_sent n (i + 1)
            (set credits id (u16 (get_or credits id 0 + 2 ^ 16 - mes_sent)))

  unfoldable pub decrease_credits : List ℕ → QuorumInfo → ℕ → Option (List ℕ)
  decrease_credits credits q mes_sent = decrease_loop q.active_ids mes_sent q.active_num 0 credits

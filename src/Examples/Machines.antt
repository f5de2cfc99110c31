-- ===== src/Examples/Machines.antt =====
-- Identifiers, timestamps, credits and the seqlock at concrete values.
use odyssey_lib.Base.{
  List, [], arith, false, get_or, none, refl, some, suc, take, true, zero, ℕ, ◌+◌, ◌<◌, ◌^◌, ◌∷◌,
  ◌≡◌, ◌≢◌, ◌≤◌,
}
use odyssey_lib.Config.{machine_num, rem_mach_num, remote_quorum}
use odyssey_lib.Ids.{
  get_glob_sess_id, glob_ses_id_to_m_id, glob_ses_id_to_sess_id, glob_ses_id_to_t_id,
}
use odyssey_lib.Ids.Laws.{glob_sess_id_parts}
use odyssey_lib.Quorum.{QuorumInfo, update_bcast_wr_links, update_q_info}
use odyssey_lib.Quorum.Credits.{
  CreditCheck, active_short, actives_ok, check_bcast_credits, count_credits, decrease_credits,
  least_credits, revive_missing,
}
use odyssey_lib.Quorum.Credits.Enough.{check_bcast_credits-Enough, credit}
use odyssey_lib.Quorum.Credits.Spend.{Spendable, Spent, decrease_credits-Spent}
use odyssey_lib.Quorum.Links.{Linked, update_bcast_wr_links-Linked}
use odyssey_lib.Quorum.Membership.{Sized, update_q_info_lem}
use odyssey_lib.Timestamps.{
  TsMemory, TsTuple, compare_netw_ts, compare_netw_ts_with_ts, compare_ts, compare_ts_with_netw_ts,
  equal, meta_ts, netw_ts, regular_ts,
}
use odyssey_lib.Timestamps.Generic.{Compares, compare_ts_generic_lem}
use odyssey_lib.Timestamps.Order.{Says, compare_ts-Says}

glob_sess_id_parts_example :
    (glob_ses_id_to_m_id (get_glob_sess_id 4 7 39) ≡ 4)
    × (glob_ses_id_to_t_id (get_glob_sess_id 4 7 39) ≡ 7)
    × (glob_ses_id_to_sess_id (get_glob_sess_id 4 7 39) ≡ 39)
glob_sess_id_parts_example = glob_sess_id_parts 4 7 39 (omega arith) (omega arith) (omega arith)

abbrev early : TsTuple
early = record { m_id = 2; version = 5 }

abbrev late : TsTuple
late = record { m_id = 3; version = 5 }

compare_ts-Says_example : Says (compare_ts early late) 5 2 5 3
compare_ts-Says_example = compare_ts-Says early late

-- Machine 0 has credits from machines 1 to 4; machine 3 is short of them.
abbrev pub some_credits : List ℕ
some_credits = 0 ∷ 9 ∷ 6 ∷ 1 ∷ 8 ∷ []

abbrev pub quorum : QuorumInfo
quorum = record {
  missing_num = 0;
  missing_ids = 0 ∷ 0 ∷ 0 ∷ 0 ∷ [];
  active_num = 4;
  active_ids = 1 ∷ 2 ∷ 3 ∷ 4 ∷ [];
  send_vector = true ∷ true ∷ true ∷ true ∷ [];
  first_active_rm_id = 0;
  last_active_rm_id = 3;
  send_wrs = (λ _. none) ∷ [];
  credit_ptrs = some_credits ∷ [];
  targets = 9 ∷ [];
}

update_q_info_lem_example :
    let r = update_q_info 0 some_credits 2 quorum in
    (take r.active_num r.active_ids ≡ 1 ∷ 2 ∷ 4 ∷ [])
    × (take r.missing_num r.missing_ids ≡ 3 ∷ [])
    × (r.active_num ≡ 3)
    × (r.active_num + r.missing_num ≡ rem_mach_num)
    × Sized r
update_q_info_lem_example =
    update_q_info_lem 0 some_credits 2 quorum (omega arith) (refl, refl, refl)

abbrev checked : CreditCheck
checked = record { q_info = quorum; time_out_cnt = 0; available = some 1 }

check_runs : check_bcast_credits 0 true false some_credits quorum 0 1 ≡ some checked
unfolding check_bcast_credits active_short revive_missing count_credits actives_ok least_credits
check_runs = refl

check_bcast_credits-Enough_example :
    (remote_quorum ≤ 4) × ((k : ℕ) → k < 4 → 1 ≤ credit some_credits (1 ∷ 2 ∷ 3 ∷ 4 ∷ []) k)
check_bcast_credits-Enough_example =
    check_bcast_credits-Enough 0 true false some_credits quorum 0 1 checked 1 check_runs refl

abbrev pub pair : QuorumInfo
pair = record quorum { active_num = 2 }

pub below_two : (P : ℕ → Type 0) → P 0 → P 1 → (k : ℕ) → 0 ≤ k → k < 2 → P k
below_two P p0 p1 zero h x = p0
below_two P p0 p1 (suc zero) h x = p1
below_two P p0 p1 (suc (suc k)) h x = absurd (omega arith)

pub pair_distinct :
    (j k : ℕ) → 0 ≤ j → j < k → k < 2 → get_or pair.active_ids j 0 ≢ get_or pair.active_ids k 0
pair_distinct zero zero a b c = absurd (omega arith)
pair_distinct zero (suc zero) a b c = λ e. absurd (omega arith)
pair_distinct (suc j) zero a b c = absurd (omega arith)
pair_distinct (suc j) (suc zero) a b c = absurd (omega arith)
pair_distinct j (suc (suc k)) a b c = absurd (omega arith)

pair-Spendable : Spendable 0 pair.active_ids 3 some_credits 0 2
pair-Spendable = record {
  remote =
      below_two (λ k. get_or pair.active_ids k 0 ≢ 0) (λ e. absurd (omega arith))
        (λ e. absurd (omega arith));
  known = below_two (λ k. get_or pair.active_ids k 0 < machine_num) (omega arith) (omega arith);
  distinct = pair_distinct;
  enough =
      below_two (λ k. 3 ≤ get_or some_credits (get_or pair.active_ids k 0) 0) (omega arith)
        (omega arith);
  small =
      below_two (λ k. get_or some_credits (get_or pair.active_ids k 0) 0 < 2 ^ 16) (omega arith)
        (omega arith);
  known_credits = refl;
}

decrease_credits-Spent_example :
    (credits' : List ℕ) × (decrease_credits 0 true some_credits pair 3 ≡ some credits')
    × Spent 0 pair.active_ids 3 some_credits credits' 0 2
decrease_credits-Spent_example = decrease_credits-Spent 0 true some_credits pair 3 pair-Spendable

update_bcast_wr_links-Linked_example :
    Linked quorum.send_vector (update_bcast_wr_links false quorum (λ _. none))
update_bcast_wr_links-Linked_example =
    update_bcast_wr_links-Linked true true true true quorum (λ _. none) refl refl

-- The same bytes read in the two layouts.
abbrev memory : TsMemory
memory = record { as_ts = early; as_netw = record { version = 5; m_id = 2 } }

compare_ts_generic_lem_example :
    Compares true memory memory regular_ts netw_ts (compare_ts_with_netw_ts early memory.as_netw)
    × Compares true memory memory regular_ts meta_ts (compare_ts_with_netw_ts early memory.as_netw)
    × Compares true memory memory netw_ts netw_ts (compare_netw_ts memory.as_netw memory.as_netw)
    × Compares true memory memory netw_ts meta_ts (compare_netw_ts memory.as_netw memory.as_netw)
    × Compares true memory memory meta_ts netw_ts (compare_netw_ts memory.as_netw memory.as_netw)
    × Compares true memory memory meta_ts meta_ts (compare_netw_ts memory.as_netw memory.as_netw)
    × Compares true memory memory regular_ts regular_ts equal
    × Compares true memory memory netw_ts regular_ts (compare_netw_ts_with_ts memory.as_netw early)
    × Compares true memory memory meta_ts regular_ts (compare_netw_ts_with_ts memory.as_netw early)
compare_ts_generic_lem_example = compare_ts_generic_lem true memory memory

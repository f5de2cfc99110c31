-- ===== src/Config.antt =====
-- The compile-time constants of include/general_util/od_top.h that the models use, at the values of
-- the source. ENABLE_ASSERTIONS is an argument of the functions that it guards.
use odyssey_lib.Base.{refl, ℕ, ◌*◌, ◌+◌, ◌-◌, ◌/◌, ◌≡◌}

abbrev pub machine_num : ℕ
machine_num = 5

abbrev pub workers_per_machine : ℕ
workers_per_machine = 8

abbrev pub sessions_per_thread : ℕ
sessions_per_thread = 40

abbrev pub per_session_req_num : ℕ
per_session_req_num = 5

abbrev pub value_size : ℕ
value_size = 32

abbrev pub kvs_num_keys : ℕ
kvs_num_keys = 1_000_000

abbrev pub credit_timeout : ℕ
credit_timeout = 16_777_216

abbrev pub max_bcast_batch : ℕ
max_bcast_batch = 4

-- REM_MACH_NUM, QUORUM_NUM, REMOTE_QUORUM and SESSIONS_PER_MACHINE, computed from the above
abbrev pub rem_mach_num : ℕ
rem_mach_num = 4

abbrev pub quorum_num : ℕ
quorum_num = 3

abbrev pub remote_quorum : ℕ
remote_quorum = 2

abbrev pub sessions_per_machine : ℕ
sessions_per_machine = 320

derived :
    (rem_mach_num ≡ machine_num - 1)
    × (quorum_num ≡ machine_num / 2 + 1)
    × (remote_quorum ≡ quorum_num - 1)
    × (sessions_per_machine ≡ workers_per_machine * sessions_per_thread)
derived = (refl, refl, refl, refl)

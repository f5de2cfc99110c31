-- ===== src/Ids/Laws.antt =====
-- The identifiers are read back as they were composed.
use odyssey_lib.Base.{arith, true, ℕ, ◌<◌, ◌↔◌, ◌≡◌, ◌≢◌}
use odyssey_lib.Config.{machine_num, rem_mach_num, sessions_per_thread, workers_per_machine}
use odyssey_lib.Ids.{
  get_gid, get_glob_sess_id, gid_to_mid, glob_ses_id_to_m_id, glob_ses_id_to_sess_id,
  glob_ses_id_to_t_id, is_global_ses_id_local, mid_to_rmid, rmid_to_mid,
}

-- The global id of a thread of a machine, both in range, gives back the machine.
pub gid_to_mid-get_gid :
    (m_id t_id : ℕ)
    → m_id < machine_num
    → t_id < workers_per_machine
    → gid_to_mid (get_gid m_id t_id) ≡ m_id
unfolding gid_to_mid get_gid
gid_to_mid-get_gid m_id t_id hm ht = omega arith

-- The remote ids of the other machines are 0 to REM_MACH_NUM - 1, and each gives its machine back.
pub rmid_to_mid-mid_to_rmid :
    (machine_id m_id : ℕ)
    → m_id < machine_num
    → m_id ≢ machine_id
    → machine_id < machine_num
    → (rmid_to_mid machine_id (mid_to_rmid machine_id m_id) ≡ m_id)
      × (mid_to_rmid machine_id m_id < rem_mach_num)
unfolding rmid_to_mid mid_to_rmid
rmid_to_mid-mid_to_rmid machine_id m_id hm ne hi = ground arith

-- A remote id below REM_MACH_NUM names a machine other than this one, and is its remote id.
pub mid_to_rmid-rmid_to_mid :
    (machine_id rm_id : ℕ)
    → rm_id < rem_mach_num
    → machine_id < machine_num
    → (mid_to_rmid machine_id (rmid_to_mid machine_id rm_id) ≡ rm_id)
      × (rmid_to_mid machine_id rm_id ≢ machine_id)
      × (rmid_to_mid machine_id rm_id < machine_num)
unfolding rmid_to_mid mid_to_rmid
mid_to_rmid-rmid_to_mid machine_id rm_id hr hi = ground arith

-- The global id of a session of a thread of a machine, all in range, gives back the three.
pub glob_sess_id_parts :
    (m_id t_id sess_id : ℕ)
    → m_id < machine_num
    → t_id < workers_per_machine
    → sess_id < sessions_per_thread
    → (glob_ses_id_to_m_id (get_glob_sess_id m_id t_id sess_id) ≡ m_id)
      × (glob_ses_id_to_t_id (get_glob_sess_id m_id t_id sess_id) ≡ t_id)
      × (glob_ses_id_to_sess_id (get_glob_sess_id m_id t_id sess_id) ≡ sess_id)
unfolding glob_ses_id_to_m_id glob_ses_id_to_t_id glob_ses_id_to_sess_id get_glob_sess_id
glob_sess_id_parts m_id t_id sess_id hm ht hs = omega arith

-- A global session id made of parts in range is local to a worker exactly when it was made of that
-- worker's machine and thread.
pub is_global_ses_id_local_iff :
    (machine_id m_id t t_id sess_id : ℕ)
    → m_id < machine_num
    → t < workers_per_machine
    → sess_id < sessions_per_thread
    → (is_global_ses_id_local machine_id (get_glob_sess_id m_id t sess_id) t_id ≡ true)
      ↔ ((m_id ≡ machine_id) × (t ≡ t_id))
unfolding is_global_ses_id_local
is_global_ses_id_local_iff machine_id m_id t t_id sess_id hm ht hs =
    let parts = glob_sess_id_parts m_id t sess_id hm ht hs in
    ((λ h. ground (arith, parts)), (λ h. ground (arith, parts)))

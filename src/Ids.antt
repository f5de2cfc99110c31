-- ===== src/Ids.antt =====
-- include/general_util/od_generic_inline_util.h: identifiers of machines, workers and sessions.
-- `machine_id` is the global variable of that name.
pub mod Laws
use odyssey_lib.Base.{Bool, if◌then◌else◌, ltb, u16, u8, ℕ, ◌%◌, ◌&&◌, ◌*◌, ◌+◌, ◌/◌, ◌==◌}
use odyssey_lib.Config.{sessions_per_machine, sessions_per_thread, workers_per_machine}

unfoldable pub get_gid : ℕ → ℕ → ℕ
get_gid m_id t_id = u16 (m_id * workers_per_machine + t_id)

unfoldable pub gid_to_mid : ℕ → ℕ
gid_to_mid g_id = u8 (g_id / workers_per_machine)

unfoldable pub mid_to_rmid : ℕ → ℕ → ℕ
mid_to_rmid machine_id m_id = if ltb m_id machine_id then m_id else u8 (m_id + 255)

unfoldable pub rmid_to_mid : ℕ → ℕ → ℕ
rmid_to_mid machine_id rm_id = if ltb rm_id machine_id then rm_id else u8 (rm_id + 1)

unfoldable pub get_glob_sess_id : ℕ → ℕ → ℕ → ℕ
get_glob_sess_id m_id t_id sess_id =
    u16 (m_id * sessions_per_machine + t_id * sessions_per_thread + sess_id)

unfoldable pub glob_ses_id_to_m_id : ℕ → ℕ
glob_ses_id_to_m_id glob_sess_id = u8 (glob_sess_id / sessions_per_machine)

unfoldable pub glob_ses_id_to_t_id : ℕ → ℕ
glob_ses_id_to_t_id glob_sess_id = u16 (glob_sess_id % sessions_per_machine / sessions_per_thread)

unfoldable pub glob_ses_id_to_sess_id : ℕ → ℕ
glob_ses_id_to_sess_id glob_sess_id =
    u16 (glob_sess_id % sessions_per_machine % sessions_per_thread)

unfoldable pub is_global_ses_id_local : ℕ → ℕ → ℕ → Bool
unfolding glob_ses_id_to_m_id glob_ses_id_to_t_id
is_global_ses_id_local machine_id glob_sess_id t_id =
    (glob_ses_id_to_t_id glob_sess_id == t_id) && (glob_ses_id_to_m_id glob_sess_id == machine_id)

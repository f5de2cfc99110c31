-- ===== src/Producers/Order.antt =====
-- The ring of sessions in client/od_client.c's producer-consumer program: the session before each.
use odyssey_lib.Base.{arith, ℕ, ◌%◌, ◌<◌, ◌≡◌, ◌≢◌}
use odyssey_lib.Config.{sessions_per_machine}
use odyssey_lib.Producers.{from_session}
use odyssey_lib.Treiber.{global_session_num}

pub from_session-lt : (g : ℕ) → from_session g < global_session_num
from_session-lt g = omega arith

pub from_session-ne : (g : ℕ) → g < global_session_num → g ≢ from_session g
from_session-ne g lt e = omega (arith, lt, e)

-- It has the same number on its machine.
pub from_session-rank :
    (g : ℕ)
    → g < global_session_num
    → from_session g % sessions_per_machine ≡ g % sessions_per_machine
from_session-rank g lt = omega (arith, lt)

pub from_session_injective :
    (g h : ℕ)
    → g < global_session_num
    → h < global_session_num
    → from_session g ≡ from_session h
    → g ≡ h
from_session_injective g h lt lt' e = omega (arith, lt, lt', e)

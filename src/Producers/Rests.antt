-- ===== src/Producers/Rests.antt =====
-- A session of client/od_client.c's producer-consumer ring between two rounds.
use odyssey_lib.Base.{Bool, List, [], false, suc, zero, ◌<◌, ◌≡◌}
use odyssey_lib.Producers.{PcOp, PcSess, PcState, pc_writes_num}
use odyssey_lib.Producers.Run.{PcStore}
use odyssey_lib.Producers.Stages.{
  HasRead, PcStage, Written, acquiring, reading, resting, starting, writing_part,
}

-- A session without requests rests, and knows what it has read.
pub idle_rests :
    (m : PcStore) (x : PcSess) {b : List PcOp} {works : Bool}
    → PcStage m x b works
    → b ≡ []
    → (works ≡ false) × (0 < x.rel_num → Written m x pc_writes_num) × (0 < x.acq_num → HasRead x)
idle_rests m x (resting w _ d r) e = (w, d, r)
idle_rests m x (acquiring _ h _) e = absurd cc
idle_rests m x (reading zero _ _ _ h _ _ _) e = absurd cc
idle_rests m x (reading (suc n) _ _ _ h _ _ _) e = absurd cc
idle_rests m x (writing_part _ _ _ _ h _ _ _) e = absurd cc
idle_rests m x (starting zero _ _ _ h _ _) e = absurd cc
idle_rests m x (starting (suc n) _ _ _ h _ _) e = absurd cc

-- The state and `last_req_id` do not matter to where the session stands.
pub restated :
    (m : PcStore) (x : PcSess) {b : List PcOp} {works : Bool} (st : PcState) (asked : Bool)
    → PcStage m x b works
    → PcStage m (record x { state = st; asked = asked }) b works
restated m x st asked (resting w e d r) = resting w e d r
restated m x st asked (acquiring w e pos) = acquiring w e pos
restated m x st asked (reading n i w t e pos d r) = reading n i w t e pos d r
restated m x st asked (writing_part n i w t e pos d r) = writing_part n i w t e pos d r
restated m x st asked (starting n i w t e z d) = starting n i w t e z d

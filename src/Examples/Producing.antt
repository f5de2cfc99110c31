-- ===== src/Examples/Producing.antt =====
-- The theorems on the producer-consumer ring at a concrete run.
use odyssey_lib.Base.{List, [], arith, true, ℕ, ◌+◌, ◌<◌, ◌∷◌, ◌≡◌}
use odyssey_lib.Producers.{
  PcOp, PcSess, init_pc_sess, pc_init_flags, pc_poll_local_store, read_flag, release_flag,
  write_part,
}
use odyssey_lib.Producers.Run.{PcService, Ring, pc_acted, pc_answered, pc_initial, pc_perform}

abbrev performing : PcService
performing m x r m' x' = (m', x') ≡ pc_perform r m x

abbrev in_range : 0 < 1600
in_range = omega arith

abbrev behind_range : 320 < 1600
behind_range = omega arith

-- Session 0 writes the five parts of its node and raises its flag; session 320, which waits for it,
-- looks at what it has read of the flag, and asks for the flag.
abbrev ready : PcSess
ready = (pc_init_flags 1000 (init_pc_sess 1000 0 0)).0

abbrev part_of : ℕ → PcOp
part_of i = write_part (2600 + i) (record { owner = 0; times_written = 1 })

abbrev raise : PcOp
raise = release_flag 1000 (record { owner = 0; counter = 1 })

abbrev answer_with : Ring → ℕ → PcOp → List PcOp → Ring
answer_with s g r q = pc_answered s g (pc_perform r s.store (s.sess g).info) q

abbrev r1 : Ring
r1 =
    answer_with (pc_initial 1000) 0 (part_of 0)
      (part_of 1 ∷ part_of 2 ∷ part_of 3 ∷ part_of 4 ∷ raise ∷ [])

abbrev r2 : Ring
r2 = answer_with r1 0 (part_of 1) (part_of 2 ∷ part_of 3 ∷ part_of 4 ∷ raise ∷ [])

abbrev r3 : Ring
r3 = answer_with r2 0 (part_of 2) (part_of 3 ∷ part_of 4 ∷ raise ∷ [])

abbrev r4 : Ring
r4 = answer_with r3 0 (part_of 3) (part_of 4 ∷ raise ∷ [])

abbrev r5 : Ring
r5 = answer_with r4 0 (part_of 4) (raise ∷ [])

abbrev r6 : Ring
r6 = answer_with r5 0 raise ([])

abbrev waiting : PcSess
waiting = init_pc_sess 1000 1 0

abbrev r7 : Ring
r7 = pc_acted r6 320 (record waiting { state = pc_poll_local_store }, [])

abbrev r8 : Ring
r8 = pc_acted r7 320 (record waiting { asked = true }, read_flag 1000 ∷ [])

abbrev r9 : Ring
r9 = answer_with r8 320 (read_flag 1000) []

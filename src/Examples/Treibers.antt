-- ===== src/Examples/Treibers.antt =====
-- The theorems on Treiber stacks at concrete runs.
use odyssey_lib.Base.{[], arith, false, refl, ◌<◌, ◌∷◌, ◌≡◌}
use odyssey_lib.Treiber.{SessInfo, Top, cas, read_top, tr_read_top, write_node, zero_node, zero_top}
use odyssey_lib.Treiber.Run.{Clients, Service, acted, initial, perform, same_bytes, served}

-- Workers that perform a compare-and-swap whenever the values agree.
abbrev strong : Service
strong m x r m' x' = (m', x') ≡ perform false r m x

-- Session 0 starts to push: it asks for the top of its stack, reads it, writes its node and swaps the
-- top.
abbrev zero_lt : 0 < 1600
zero_lt = omega arith

abbrev asking : SessInfo
asking = record (initial.sess 0).info { state = tr_read_top }

abbrev s1 : Clients
s1 = acted initial 0 (asking, read_top 0 ∷ [], initial.stack_id_cntr 0)

abbrev s2 : Clients
s2 = served s1 0 false (read_top 0) []

abbrev first_top : Top
first_top = record zero_top { push_counter = 1; key_id = 1600 }

abbrev s3 : Clients
s3 = acted s2 0 (
  record asking { new_top = first_top },
  write_node 1600 zero_node ∷ cas 0 zero_top first_top ∷ [],
  initial.stack_id_cntr 0,
)

abbrev s4 : Clients
s4 = served s3 0 false (write_node 1600 zero_node) (cas 0 zero_top first_top ∷ [])

abbrev s5 : Clients
s5 = served s4 0 false (cas 0 zero_top first_top) []

pushed_key : (s5.store.tops 0).key_id ≡ 1600
unfolding initial perform same_bytes
pushed_key = refl

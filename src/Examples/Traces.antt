-- ===== src/Examples/Traces.antt =====
-- The theorems about traces at concrete inputs.
use odyssey_lib.Base.{arith, false, get_or, length, refl, true, ℕ, ◌*◌, ◌+◌, ◌<◌, ◌≡◌}
use odyssey_lib.Trace.{OpcodeInfo, TraceSettings, manufacture_loop}
use odyssey_lib.Trace.Counts.{counted, manufacture_loop-counted, nop}

abbrev settings : TraceSettings
settings = record {
  enable_rmws = true;
  all_rmws_single_key = false;
  trace_only_cas = false;
  trace_only_fa = true;
  trace_mixed_rmws = false;
  use_weak_cas = true;
  enable_releases = true;
  enable_acquires = true;
  enable_all_conflict_rmw = false;
  rmw_one_key_per_thread = false;
  enable_no_conflict_rmw = false;
  rmw_ratio = 300;
  sc_ratio = 500;
  write_ratio = 500;
  trace_cas_ratio = 500;
}

abbrev no_counts : OpcodeInfo
no_counts = record {
  is_rmw = false;
  is_update = false;
  is_sc = false;
  is_rmw_acquire = false;
  writes = 0;
  reads = 0;
  sc_reads = 0;
  sc_writes = 0;
  rmws = 0;
  rmw_acquires = 0;
  cas = 0;
  fa = 0;
}

abbrev draw : ℕ → ℕ
draw k = 397 * k + 100

manufacture_loop-counted_example :
    let (trace, o') =
      manufacture_loop draw draw settings 1 2 4 no_counts 0
        (record { by_rand = 0; by_rand_r = 0 }) in
    (counted o' ≡ 4)
    × (length trace ≡ 5)
    × ((k : ℕ) → k < 4 → 0 < (get_or trace k nop).opcode)
    × ((get_or trace 4 (record { opcode = 1; key_id = 0 })).opcode ≡ 0)
manufacture_loop-counted_example =
    manufacture_loop-counted draw draw settings 1 2 4 no_counts 0
      (record { by_rand = 0; by_rand_r = 0 }) (omega arith) refl

-- ===== src/Trace.antt =====
-- src/trace/od_trace.c: a manufactured trace. The draws of `rand` and `rand_r` are arguments: the
-- numbers that they give, in order. The parsing of trace files is not modelled.
pub mod Counts
use odyssey_lib.Base.{
  Bool, List, [], false, if◌then◌else◌, ltb, suc, true, u32, zero, ℕ, ◌%◌, ◌&&◌, ◌*◌, ◌+◌, ◌==◌,
  ◌||◌, ◌∷◌,
}
use odyssey_lib.Config.{kvs_num_keys, sessions_per_thread, workers_per_machine}
use odyssey_lib.Network.{mod_incr_32}

-- The compile-time settings of include/general_util/od_top.h, and the global `write_ratio`.
pub record TraceSettings : Type 0 where
  pub enable_rmws : Bool
  pub all_rmws_single_key : Bool
  pub trace_only_cas : Bool
  pub trace_only_fa : Bool
  pub trace_mixed_rmws : Bool
  pub use_weak_cas : Bool
  pub enable_releases : Bool
  pub enable_acquires : Bool
  pub enable_all_conflict_rmw : Bool
  pub rmw_one_key_per_thread : Bool
  pub enable_no_conflict_rmw : Bool
  pub rmw_ratio : ℕ
  pub sc_ratio : ℕ
  pub write_ratio : ℕ
  pub trace_cas_ratio : ℕ

-- `opcode_info_t`; the counters are uint32_t.
pub record OpcodeInfo : Type 0 where
  pub is_rmw : Bool
  pub is_update : Bool
  pub is_sc : Bool
  pub is_rmw_acquire : Bool
  pub writes : ℕ
  pub reads : ℕ
  pub sc_reads : ℕ
  pub sc_writes : ℕ
  pub rmws : ℕ
  pub rmw_acquires : ℕ
  pub cas : ℕ
  pub fa : ℕ

-- how many numbers were drawn, with `rand` and with `rand_r`
pub record Draws : Type 0 where
  pub by_rand : ℕ
  pub by_rand_r : ℕ

-- a command of the trace, with its key id for the key
pub record TraceCommand : Type 0 where
  pub opcode : ℕ
  pub key_id : ℕ

module _ (rand rand_r : ℕ → ℕ) (t : TraceSettings) where
  abbrev pub cas_opcode : ℕ
  cas_opcode = if t.use_weak_cas then 97 else 96

  -- whether the command is a read-modify-write
  abbrev pub draw_rmw : Draws → Bool × Draws
  draw_rmw d =
      if t.enable_rmws
      then (if t.all_rmws_single_key
          then (true, d)
          else (ltb (rand d.by_rand % 1000) t.rmw_ratio, record d { by_rand = d.by_rand + 1 }))
      else (false, d)

  -- the opcode of a read-modify-write; 0 if none of the three settings is on
  abbrev pub rmw_opcode : Draws → ℕ × Draws
  rmw_opcode d =
      if t.trace_only_cas
      then (cas_opcode, d)
      else if t.trace_only_fa
      then (98, d)
      else if t.trace_mixed_rmws
      then (
        (if ltb (rand_r d.by_rand_r % 1000) t.trace_cas_ratio then cas_opcode else 98),
        record d { by_rand_r = d.by_rand_r + 1 },
      )
      else (0, d)

  abbrev pub count_rmw : ℕ → OpcodeInfo → OpcodeInfo
  count_rmw opcode o =
      if opcode == cas_opcode
      then record o { rmws = u32 (o.rmws + 1); cas = u32 (o.cas + 1) }
      else record o { rmws = u32 (o.rmws + 1); fa = u32 (o.fa + 1) }

  abbrev pub count_plain : Bool → Bool → OpcodeInfo → ℕ × OpcodeInfo
  count_plain is_update is_sc o =
      if is_update
      then (if is_sc && t.enable_releases
          then (109, record o { sc_writes = u32 (o.sc_writes + 1) })
          else (112, record o { writes = u32 (o.writes + 1) }))
      else (if is_sc && t.enable_acquires
          then (110, record o { sc_reads = u32 (o.sc_reads + 1) })
          else (111, record o { reads = u32 (o.reads + 1) }))

  unfoldable pub compute_opcode : OpcodeInfo → Draws → ℕ × OpcodeInfo × Draws
  compute_opcode o d =
      let (is_rmw, d1) = draw_rmw d in
      if is_rmw
      then (let (opcode, d2) = rmw_opcode d1 in
          (
            opcode,
            record (count_rmw opcode o) { is_rmw = true; is_update = false; is_sc = false },
            d2,
          ))
      else (let is_update = ltb (rand d1.by_rand % 1000) t.write_ratio in
          let is_sc = ltb (rand (d1.by_rand + 1) % 1000) t.sc_ratio in
          let (opcode, o1) = count_plain is_update is_sc o in
          (
            opcode,
            record o1 { is_rmw = false; is_update = is_update; is_sc = is_sc },
            record d1 { by_rand = d1.by_rand + 2 },
          ))

  module _ (machine_id t_id : ℕ) where
    abbrev session_window : ℕ
    session_window = 10 * sessions_per_thread

    -- The key id, and the new `sess_id`; USE_A_SINGLE_KEY is off, and what it sets is overwritten.
    unfoldable pub manufacture_key : Bool → ℕ → Draws → ℕ × ℕ × Draws
    manufacture_key is_rmw sess_id d =
        if is_rmw
        then (if t.all_rmws_single_key || t.enable_all_conflict_rmw
            then (0, sess_id, d)
            else if t.rmw_one_key_per_thread
            then (t_id, sess_id, d)
            else if t.enable_no_conflict_rmw
            then (
              u32 (
                  machine_id * workers_per_machine * session_window
                  + t_id * session_window
                  + sess_id),
              mod_incr_32 sess_id session_window,
              d,
            )
            else (
              rand_r d.by_rand_r % kvs_num_keys,
              sess_id,
              record d { by_rand_r = d.by_rand_r + 1 },
            ))
        else (rand d.by_rand % kvs_num_keys, sess_id, record d { by_rand = d.by_rand + 1 })

    -- `n` commands, and the one with the opcode NOP that ends the trace
    unfoldable pub manufacture_loop : ℕ → OpcodeInfo → ℕ → Draws → List TraceCommand × OpcodeInfo
    manufacture_loop zero o sess_id d = (record { opcode = 0; key_id = 0 } ∷ [], o)
    manufacture_loop (suc n) o sess_id d =
        let (opcode, o1, d1) = compute_opcode o d in
        let (key_id, sess_id1, d2) = manufacture_key o1.is_rmw sess_id d1 in
        let (trace, o2) = manufacture_loop n o1 sess_id1 d2 in
        (record { opcode = opcode; key_id = key_id } ∷ trace, o2)

-- ===== src/Trace/Counts.antt =====
-- What a manufactured trace consists of.
use odyssey_lib.Base.{
  Bool, Bool-cases, List, arith, false, get_or, inl, inr, length, refl, suc, true, zero, ℕ, ◌&&◌,
  ◌+◌, ◌<◌, ◌==◌, ◌^◌, ◌||◌, ◌∙◌, ◌∷◌, ◌≡◌,
}
use odyssey_lib.Trace.{
  Draws, OpcodeInfo, TraceCommand, TraceSettings, cas_opcode, compute_opcode, count_plain,
  count_rmw, draw_rmw, manufacture_key, manufacture_loop, rmw_opcode,
}

abbrev pub counted : OpcodeInfo → ℕ
counted o = o.writes + o.reads + o.sc_reads + o.sc_writes + o.rmws

-- a setting for the opcode of read-modify-writes is on
abbrev pub rmws_chosen : TraceSettings → Bool
rmws_chosen t = t.trace_only_cas || (t.trace_only_fa || t.trace_mixed_rmws)

abbrev pub nop : TraceCommand
nop = record { opcode = 0; key_id = 0 }

positive_on :
    (c : TraceCommand) (trace : List TraceCommand) (n : ℕ)
    → 0 < c.opcode
    → ((k : ℕ) → k < n → 0 < (get_or trace k nop).opcode)
    → (k : ℕ) → k < suc n
    → 0 < (get_or (c ∷ trace) k nop).opcode
positive_on c trace n pos rest zero lt = pos
positive_on c trace n pos rest (suc k) lt = rest k (omega (arith, lt))

module _ (rand rand_r : ℕ → ℕ) (t : TraceSettings) where
  count_rmw-counted :
      (opcode : ℕ) (o : OpcodeInfo)
      → counted o + 1 < 2 ^ 32
      → counted (count_rmw rand rand_r t opcode o) ≡ counted o + 1
  count_rmw-counted opcode o few = elim (Bool-cases (opcode == cas_opcode rand rand_r t)) [
    | inl cas ↦ rw cas (omega (arith, few))
    | inr fa ↦ rw fa (omega (arith, few))
  ]

  count_plain-counted :
      (is_update is_sc : Bool) (o : OpcodeInfo)
      → counted o + 1 < 2 ^ 32
      → (counted (count_plain rand rand_r t is_update is_sc o).1 ≡ counted o + 1)
        × (0 < (count_plain rand rand_r t is_update is_sc o).0)
  count_plain-counted true is_sc o few = elim (Bool-cases (is_sc && t.enable_releases)) [
    | inl y ↦ rw y (omega (arith, few), omega arith)
    | inr n ↦ rw n (omega (arith, few), omega arith)
  ]
  count_plain-counted false is_sc o few = elim (Bool-cases (is_sc && t.enable_acquires)) [
    | inl y ↦ rw y (omega (arith, few), omega arith)
    | inr n ↦ rw n (omega (arith, few), omega arith)
  ]

  rmw_opcode-positive : (d : Draws) → rmws_chosen t ≡ true → 0 < (rmw_opcode rand rand_r t d).0
  rmw_opcode-positive d chosen = ground arith

  compute_opcode-counted :
      (o : OpcodeInfo) (d : Draws)
      → counted o + 1 < 2 ^ 32
      → rmws_chosen t ≡ true
      → (counted (compute_opcode rand rand_r t o d).1 ≡ counted o + 1)
        × (0 < (compute_opcode rand rand_r t o d).0)
  unfolding compute_opcode
  compute_opcode-counted o d few chosen = elim (Bool-cases (draw_rmw rand rand_r t d).0) [
    | inl y ↦
        rw y (count_rmw-counted _ o few, rmw_opcode-positive (draw_rmw rand rand_r t d).1 chosen)
    | inr n ↦ rw n (count_plain-counted _ _ o few)
  ]

  -- If the opcode of read-modify-writes is chosen, a trace of fewer than 2^32 commands has as many
  -- commands that are not NOP as asked for, with NOP behind them, and the counters add up to their number.
  pub manufacture_loop-counted :
      (machine_id t_id n : ℕ) (o : OpcodeInfo) (sess_id : ℕ) (d : Draws)
      → counted o + n < 2 ^ 32
      → rmws_chosen t ≡ true
      → let (trace, o') = manufacture_loop rand rand_r t machine_id t_id n o sess_id d in
        (counted o' ≡ counted o + n)
        × (length trace ≡ n + 1)
        × ((k : ℕ) → k < n → 0 < (get_or trace k nop).opcode)
        × ((get_or trace n (record { opcode = 1; key_id = 0 })).opcode ≡ 0)
  unfolding manufacture_loop
  manufacture_loop-counted machine_id t_id zero o sess_id d few chosen =
      (omega arith, refl, λ k lt. absurd (omega arith), refl)
  manufacture_loop-counted machine_id t_id (suc n) o sess_id d few chosen =
      let c = compute_opcode rand rand_r t o d in
      let (counts, pos) = compute_opcode-counted o d (omega (arith, few)) chosen in
      let key = manufacture_key rand rand_r t machine_id t_id c.1.is_rmw sess_id c.2 in
      let (total, len, all, last) =
        manufacture_loop-counted machine_id t_id n c.1 key.1 key.2 (omega (arith, few, counts))
          chosen in
      (total ∙ omega (arith, counts), omega (arith, len), positive_on _ _ n pos all, last)

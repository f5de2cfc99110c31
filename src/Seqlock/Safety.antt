-- ===== src/Seqlock/Safety.antt =====
-- What the seqlock guarantees in every reachable state.
use odyssey_lib.Base.{
  Bool-cases, arith, false, inl, inr, subst, true, ℕ, ◌<◌, ◌^◌, ◌∙◌, ◌≡◌, ◌≢◌, ◌≤◌,
}
use odyssey_lib.Seqlock.Defs.{Reach, System, copy_in, copy_out}
use odyssey_lib.Seqlock.Invariant.{IsFresh, Reach-Inv, writing}

-- In a state reached with fewer than 2^64 changes of the lock, while one worker is between winning the
-- lock and releasing it, no other is.
pub mutual_exclusion :
    {size : ℕ} {v : ℕ → ℕ} {s : System}
    → Reach size v s
    → s.mem.writes < 2 ^ 64
    → (i j : ℕ) → i ≢ j
    → writing (s.pc i) ≡ true
    → writing (s.pc j) ≡ false
mutual_exclusion {s = s} r few i j ne hi = elim (Bool-cases (writing (s.pc j))) [
  | inl hj ↦ absurd (ne ((Reach-Inv r few).unique i j hi hj))
  | inr e ↦ e
]

-- In a state reached with fewer than 2^64 changes of the lock, a lock-free read that has copied all
-- bytes and finds the lock as it was has copied, byte for byte, the value of the last completed write.
pub read_committed :
    {size tmp : ℕ} {v buf : ℕ → ℕ} {s : System}
    → Reach size v s
    → s.mem.writes < 2 ^ 64
    → (i done : ℕ) → s.pc i ≡ copy_out tmp buf done
    → size ≤ done
    → s.mem.lock ≡ tmp
    → (j : ℕ) → j < size
    → buf j ≡ s.mem.committed j
read_committed {size} {tmp} {v} {buf} {s} r few i done at full same j lt =
    let inv = Reach-Inv r few in
    let f : IsFresh size s.mem (copy_out tmp buf done) =
      subst (IsFresh size s.mem) at (inv.local i) in
    f.3 same j (omega arith) ∙ inv.stable (omega (arith, f.0, same)) j

-- In a state reached with fewer than 2^64 changes of the lock, once the lock's owner has copied all
-- bytes of its value, each byte of the entry is that of its value.
pub write_complete :
    {size : ℕ} {v new : ℕ → ℕ} {s : System}
    → Reach size v s
    → s.mem.writes < 2 ^ 64
    → (i done : ℕ) → s.pc i ≡ copy_in new done
    → size ≤ done
    → (j : ℕ) → j < size
    → s.mem.value j ≡ new j
write_complete {size} {v} {new} {s} r few i done at full j lt =
    let inv = Reach-Inv r few in
    let f : IsFresh size s.mem (copy_in new done) = subst (IsFresh size s.mem) at (inv.local i) in
    f.2 j (omega arith)

-- ===== src/Seqlock/Defs.antt =====
-- The workers' steps. Worker programs: `KVS_write` and `KVS_local_read` with lock-free reading.
use odyssey_lib.Base.{update, Bool, false, true, u64, ℕ, ◌%◌, ◌+◌, ◌<◌, ◌==◌, ◌≡◌, ◌≢◌, ◌≤◌}

-- What the workers share: `kv_ptr->seqlock` (uint64_t) and the bytes of `kv_ptr->value`.
-- `writes` and `committed` are not in the program: the number of changes of the lock so far, and
-- the value at the last unlock.
pub record Shared : Type 0 where
  pub lock : ℕ
  pub value : ℕ → ℕ
  pub writes : ℕ
  pub committed : ℕ → ℕ

unfoldable pub is_odd : ℕ → Bool
is_odd n = n % 2 == 1

-- Where a worker stands, with its local variables: `tmp_lock`, the number of bytes copied, and the
-- value that it writes or the buffer that it reads into.
pub data Pc : Type 0 where
  idle : Pc
  acquire : (new : ℕ → ℕ) (tmp_lock : ℕ) → Pc  -- in the loops of `lock_seqlock`, after the load
  copy_in : (new : ℕ → ℕ) (done : ℕ) → Pc  -- in the `memcpy` of `KVS_write`
  release : (tmp : ℕ) → Pc  -- in `unlock_seqlock`, after the load
  wait : Pc  -- in the loop of `read_seqlock_lock_free`
  copy_out : (tmp_lock : ℕ) (buf : ℕ → ℕ) (done : ℕ) → Pc  -- in the `memcpy` of `KVS_local_read`
  recheck : (tmp_lock : ℕ) → Pc  -- in the inner loop of `check_seqlock_lock_free`
  have_read : (buf : ℕ → ℕ) → Pc  -- `KVS_local_read` has returned with this value

-- One step of one worker, for values of `size` bytes.
pub data Move (size : ℕ) (m : Shared) : Pc → Shared → Pc → Type 0 where
  -- lock_seqlock
  load_lock : {new : ℕ → ℕ} → Move size m idle m (acquire new m.lock)
  spin :
      {new : ℕ → ℕ} {tmp : ℕ}
      → is_odd tmp ≡ true
      → Move size m (acquire new tmp) m (acquire new m.lock)
  cas_lose :
      {new : ℕ → ℕ} {tmp : ℕ}
      → is_odd tmp ≡ false
      → m.lock ≢ tmp
      → Move size m (acquire new tmp) m (acquire new m.lock)
  cas_win :
      {new : ℕ → ℕ} {tmp : ℕ}
      → is_odd tmp ≡ false
      → m.lock ≡ tmp
      → Move size m
          (acquire new tmp)
          (record m { lock = u64 (tmp + 1); writes = m.writes + 1 })
          (copy_in new 0)
  -- memcpy of KVS_write
  put_byte :
      {new : ℕ → ℕ} {done : ℕ}
      → done < size
      → Move size m
          (copy_in new done)
          (record m { value = update m.value done (new done) })
          (copy_in new (done + 1))
  -- unlock_seqlock
  load_unlock :
      {new : ℕ → ℕ} {done : ℕ} → size ≤ done → Move size m (copy_in new done) m (release m.lock)
  store_unlock :
      {tmp : ℕ}
      → Move size m
          (release tmp)
          (record m { lock = u64 (tmp + 1); writes = m.writes + 1; committed = m.value })
          idle
  -- read_seqlock_lock_free
  start_read : Move size m idle m wait
  see_odd : is_odd m.lock ≡ true → Move size m wait m wait
  see_even : {buf : ℕ → ℕ} → is_odd m.lock ≡ false → Move size m wait m (copy_out m.lock buf 0)
  -- memcpy of KVS_local_read
  get_byte :
      {tmp : ℕ} {buf : ℕ → ℕ} {done : ℕ}
      → done < size
      → Move size m
          (copy_out tmp buf done)
          m
          (copy_out tmp (update buf done (m.value done)) (done + 1))
  -- check_seqlock_lock_free
  check_same :
      {tmp : ℕ} {buf : ℕ → ℕ} {done : ℕ}
      → size ≤ done
      → m.lock ≡ tmp
      → Move size m (copy_out tmp buf done) m (have_read buf)
  check_changed :
      {tmp : ℕ} {buf : ℕ → ℕ} {done : ℕ}
      → size ≤ done
      → m.lock ≢ tmp
      → Move size m (copy_out tmp buf done) m (recheck m.lock)
  recheck_odd : {tmp : ℕ} → is_odd tmp ≡ true → Move size m (recheck tmp) m (recheck m.lock)
  -- the next round of KVS_local_read, which copies into the same buffer again
  retry :
      {tmp : ℕ} {buf : ℕ → ℕ}
      → is_odd tmp ≡ false
      → Move size m (recheck tmp) m (copy_out tmp buf 0)
  finish : {buf : ℕ → ℕ} → Move size m (have_read buf) m idle

pub record System : Type 0 where
  pub mem : Shared
  pub pc : ℕ → Pc

pub data Step (size : ℕ) (s : System) : System → Type 0 where
  pick :
      (i : ℕ) {m : Shared} {p : Pc}
      → Move size s.mem (s.pc i) m p
      → Step size s (record { mem = m; pc = update s.pc i p })

-- An unlocked entry that holds `v`, with every worker idle.
abbrev pub fresh : (ℕ → ℕ) → System
fresh v = record { mem = record { lock = 0; value = v; writes = 0; committed = v }; pc = λ _. idle }

pub data Reach (size : ℕ) (v : ℕ → ℕ) : System → Type 0 where
  begin : Reach size v (fresh v)
  step : {s t : System} → Reach size v s → Step size s t → Reach size v t

-- ===== src/Examples/Tables.antt =====
-- The key-value store and the seqlock at concrete values.
-- An entry is its key id, which is also its tag and bucket.
use odyssey_lib.Base.{arith, false, none, refl, replicate, some, ℕ, ◌+◌, ◌≡◌}
use odyssey_lib.Kvs.{
  MicaKey, MicaKv, entry, find_slot, first_match, free_slot, is_power_of_2, is_power_of_2_below,
  mica_init, mica_insert_one, place, populate_loop,
}
use odyssey_lib.Kvs.Found.{mica_insert_one-found, populate_loop-found}
use odyssey_lib.Kvs.Insert.{IsValid}
use odyssey_lib.Kvs.Room.{mica_init-IsValid, mica_insert_one-returns}
use odyssey_lib.Seqlock.Defs.{
  Reach, System, begin, cas_win, get_byte, is_odd, load_lock, pick, put_byte, see_even, start_read,
  step,
}
use odyssey_lib.Seqlock.Invariant.{writing}
use odyssey_lib.Seqlock.Safety.{mutual_exclusion, read_committed}

abbrev key_for : ℕ → MicaKey
key_for n = record { bkt = n; server = 0; tag = n }

abbrev blank_table : MicaKv ℕ
blank_table = record {
  ht_index = λ b. replicate 8 free_slot;
  ht_log = λ a. none;
  num_bkts = 4;
  log_cap = 4096;
  log_head = 0;
  num_insert_op = 0;
  num_index_evictions = 0;
}

abbrev one_entry : MicaKv ℕ
one_entry = place key_for 128 128 blank_table 5 7

abbrev two_entries : MicaKv ℕ
two_entries = place key_for 128 128 one_entry 6 7

first_insert : mica_insert_one key_for 128 128 blank_table 5 ≡ some one_entry
unfolding mica_insert_one find_slot
first_insert = refl

second_insert : mica_insert_one key_for 128 128 one_entry 6 ≡ some two_entries
unfolding mica_insert_one find_slot
second_insert = refl

init_runs : mica_init key_for 128 128 0 4 4096 blank_table ≡ some blank_table
unfolding mica_init is_power_of_2 is_power_of_2_below
init_runs = refl

blank_table-IsValid : IsValid 128 128 blank_table
blank_table-IsValid =
    (mica_init-IsValid key_for 128 128 (omega arith) 0 4 4096 blank_table blank_table (key_for 0)
      (omega arith) (omega arith) init_runs).0

mica_insert_one-found_example : entry key_for 128 128 one_entry (key_for 5) ≡ some 5
mica_insert_one-found_example =
    mica_insert_one-found key_for 128 128 (omega arith) (omega arith) blank_table one_entry 5
      blank_table-IsValid first_insert

no_match : first_match 5 (replicate 8 free_slot) ≡ none
unfolding first_match
no_match = refl

mica_insert_one-returns_example :
    (kvs' : MicaKv ℕ) × (mica_insert_one key_for 128 128 blank_table 5 ≡ some kvs')
mica_insert_one-returns_example =
    mica_insert_one-returns key_for 128 128 (omega arith) blank_table 5 3 blank_table-IsValid
      no_match (omega arith) refl (omega arith)

abbrev keys_from_5 : ℕ → ℕ
keys_from_5 n = n + 5

populated : populate_loop key_for 128 128 keys_from_5 2 0 blank_table ≡ some two_entries
unfolding populate_loop mica_insert_one find_slot
populated = refl

populate_loop-found_example : entry key_for 128 128 two_entries (key_for 6) ≡ some 6
populate_loop-found_example =
    populate_loop-found key_for 128 128 (omega arith) (omega arith) keys_from_5 2 0 1 blank_table
      two_entries blank_table-IsValid populated (omega arith) (omega arith)

-- A worker that has read the one byte of an entry that holds 7, and one that has written 9 to it.
abbrev seven : ℕ → ℕ
seven j = 7

abbrev nine : ℕ → ℕ
nine j = 9

even_zero : is_odd 0 ≡ false
unfolding is_odd
even_zero = refl

abbrev Entries : System → Type 0
Entries = Reach 1 seven

reading : (s : System) × Entries s
reading = (
  _,
  step (step (step begin (pick 0 start_read)) (pick 0 (see_even {buf = nine} even_zero)))
      (pick 0 (get_byte (omega arith))),
)

read_committed_example : 7 ≡ reading.0.mem.committed 0
unfolding reading
read_committed_example =
    read_committed reading.1 (omega arith) 0 1 refl (omega arith) refl 0 (omega arith)

written : (s : System) × Entries s
written = (
  _,
  step (step (step begin (pick 0 (load_lock {new = nine}))) (pick 0 (cas_win even_zero refl)))
      (pick 0 (put_byte (omega arith))),
)

mutual_exclusion_example : writing (written.0.pc 1) ≡ false
unfolding written
mutual_exclusion_example = mutual_exclusion written.1 (omega arith) 0 1 (omega arith) refl

-- ===== src/Examples/Queues.antt =====
-- Runs of the send fifos and of the mirrors at concrete values.
use odyssey_lib.Base.{
  List, [], arith, false, length, none, refl, replicate, some, true, ℕ, ◌*◌, ◌+◌, ◌-◌, ◌<◌, ◌^◌,
  ◌∷◌, ◌≡◌, ◌≢◌,
}
use odyssey_lib.Fifo.{
  Fifo, SlotMeta, blank_meta, get_fifo_push_prev_slot, get_fifo_push_relative_slot,
  get_fifo_slot_private,
}
use odyssey_lib.Fifo.Access.{push_relative_wrong}
use odyssey_lib.Fifo.Inv.{get_fifo_slot_private_lem}
use odyssey_lib.Fifo.Mirror.{remove_from_the_mirrored_buffer}
use odyssey_lib.Fifo.Mirror.Counts.{Mirrors, Taken, total}
use odyssey_lib.Fifo.Mirror.Refine.{remove_from_the_mirrored_buffer-Mirrors}
use odyssey_lib.Fifo.Send.{fifo_send_from_pull_slot, get_send_fifo_ptr, insert_mes, new_message}
use odyssey_lib.Fifo.Send.Dispatch.{fifo_send_from_pull_slot-Holds}
use odyssey_lib.Fifo.Send.Insert.{insert_mes-Holds, is_new}
use odyssey_lib.Fifo.Send.Place.{Placed, get_send_fifo_ptr-Placed}
use odyssey_lib.Fifo.Send.Queue.{add_message}
use odyssey_lib.Fifo.Send.Refine.{Holds}
use odyssey_lib.Fifo.Send.Runs.{Reach, insert, start}
use odyssey_lib.Fifo.Send.Steps.{charged, open_meta}
use odyssey_lib.Kvs.{place}
use odyssey_lib.Treiber.Count.{count}

abbrev meta_of : ℕ → ℕ → SlotMeta
meta_of bytes count = record blank_meta { byte_size = bytes; coalesce_num = count }

-- Four slots of 64 bytes, with a header of 8 bytes: nothing in it, and two batches, of one message of
-- 16 bytes and of two messages.
abbrev pub nothing_queued : Fifo
nothing_queued = record {
  fifo = some (replicate 4 0);
  slot_meta = some (meta_of 8 0 ∷ blank_meta ∷ blank_meta ∷ blank_meta ∷ []);
  push_ptr = 0;
  pull_ptr = 0;
  max_size = 4;
  max_byte_size = 256;
  capacity = 0;
  net_capacity = 0;
  slot_size = 64;
  mes_header = 8;
}

abbrev pub two_queued : Fifo
two_queued = record nothing_queued {
  slot_meta = some (meta_of 24 1 ∷ meta_of 40 2 ∷ blank_meta ∷ blank_meta ∷ []);
  push_ptr = 1;
  capacity = 2;
  net_capacity = 3;
}

pub two_queued-Holds : Holds two_queued (1 ∷ 2 ∷ [])
two_queued-Holds = record {
  valid = record {
    buffer = refl;
    slots = omega arith;
    sized = omega arith;
    room = omega arith;
    bytes = refl;
    small = omega arith;
    push_in = omega arith;
    pull_in = omega arith;
  };
  metas = meta_of 24 1 ∷ meta_of 40 2 ∷ blank_meta ∷ blank_meta ∷ [];
  has = refl;
  len = refl;
  count = refl;
  net = refl;
  place = refl;
  batches = refl;
  positive = (omega arith, (omega arith, tt));
  fits = omega arith;
  resp = omega arith;
  header = (omega arith, omega arith);
  idle = λ e. absurd (omega arith);
}

nothing_queued-Holds : Holds nothing_queued []
nothing_queued-Holds = record {
  valid = record {
    buffer = refl;
    slots = omega arith;
    sized = omega arith;
    room = omega arith;
    bytes = refl;
    small = omega arith;
    push_in = omega arith;
    pull_in = omega arith;
  };
  metas = meta_of 8 0 ∷ blank_meta ∷ blank_meta ∷ blank_meta ∷ [];
  has = refl;
  len = refl;
  count = refl;
  net = refl;
  place = refl;
  batches = refl;
  positive = tt;
  fits = omega arith;
  resp = omega arith;
  header = (omega arith, omega arith);
  idle = λ e. (refl, refl, refl);
}

abbrev keep_buffer : ℕ → List ℕ → List ℕ
keep_buffer place cells = cells

insert_mes-Holds_example :
    (f' : Fifo) × (insert_mes true keep_buffer two_queued 16 0 false ≡ some f')
    × Holds f' (
        add_message
          (is_new true keep_buffer two_queued-Holds 16 0 false
            (omega arith)
            (omega arith)
            (omega arith)
            (omega arith)
            (omega arith)
            (omega arith))
          (1 ∷ 2 ∷ []))
insert_mes-Holds_example =
    insert_mes-Holds true keep_buffer two_queued-Holds 16 0 false (omega arith) (omega arith)
      (omega arith) (omega arith) (omega arith) (omega arith)

fifo_send_from_pull_slot-Holds_example :
    (f' : Fifo) × (fifo_send_from_pull_slot true two_queued ≡ some f') × Holds f' (2 ∷ [])
fifo_send_from_pull_slot-Holds_example =
    fifo_send_from_pull_slot-Holds true (2 ∷ []) two_queued-Holds (omega arith)

one_inserted : (f : Fifo) × Reach true nothing_queued f
one_inserted =
    let (f, run, held) =
      insert_mes-Holds true keep_buffer nothing_queued-Holds 16 0 false (omega arith) (omega arith)
        (omega arith) (omega arith) (omega arith) (omega arith) in
    (
      f,
      insert keep_buffer 16 0 false start (omega arith) (omega arith) (omega arith) (omega arith)
          (omega arith) (omega arith) run,
    )

get_send_fifo_ptr-Placed_example :
    (f' : Fifo) × (metas' : List SlotMeta) × (start : ℕ) × (get_send_fifo_ptr true two_queued 16 0
        false
      ≡ some (f', two_queued.slot_size * f'.push_ptr + start))
    × (f'.slot_meta ≡ some metas')
    × Placed two_queued
        (open_meta two_queued two_queued-Holds.metas)
        16
        0
        (new_message two_queued (charged (open_meta two_queued two_queued-Holds.metas) 0) 16 false)
        f'
        (open_meta f' metas')
        start
get_send_fifo_ptr-Placed_example =
    get_send_fifo_ptr-Placed true two_queued-Holds 16 0 false (omega arith) (omega arith)
      (omega arith) (omega arith) 1 refl (omega arith)

-- A mirror with the counts 2 and 3.
abbrev mirror : Fifo
mirror = record nothing_queued {
  fifo = some (2 ∷ 3 ∷ 0 ∷ 0 ∷ []);
  slot_meta = none;
  push_ptr = 2;
  max_byte_size = 8;
  capacity = 2;
  slot_size = 2;
}

mirror-Mirrors : Mirrors mirror (2 ∷ 3 ∷ [])
mirror-Mirrors = record {
  valid = record {
    buffer = refl;
    slots = omega arith;
    sized = omega arith;
    room = omega arith;
    bytes = refl;
    small = omega arith;
    push_in = omega arith;
    pull_in = omega arith;
  };
  cells = 2 ∷ 3 ∷ 0 ∷ 0 ∷ [];
  has = refl;
  len = omega arith;
  count = refl;
  place = refl;
  counts = refl;
  small = (omega arith, (omega arith, tt));
}

remove_from_the_mirrored_buffer-Mirrors_example :
    (f' : Fifo) × (q' : List ℕ) × (credits : ℕ) × (remove_from_the_mirrored_buffer true
        (mirror ∷ [])
        0
        4
      ≡ some (f', credits))
    × Mirrors f' q'
    × (total q' + 4 ≡ 5)
    × (length q' + credits ≡ 2)
    × Taken 4 (2 ∷ 3 ∷ []) q' credits
remove_from_the_mirrored_buffer-Mirrors_example =
    remove_from_the_mirrored_buffer-Mirrors true (mirror ∷ []) 0 4 refl mirror-Mirrors (omega arith)
      (omega arith) (omega arith) (omega arith)

-- Three slots: 2^32 is not a multiple of 3.
abbrev three_slots : Fifo
three_slots = record nothing_queued { slot_meta = none; max_size = 3; max_byte_size = 192 }

push_relative_wrong_example :
    get_fifo_push_relative_slot true three_slots (2 ^ 32 - 1)
    ≢ get_fifo_push_prev_slot true three_slots
push_relative_wrong_example =
    push_relative_wrong true {f = three_slots}
      (record {
        buffer = refl;
        slots = omega arith;
        sized = omega arith;
        room = omega arith;
        bytes = refl;
        small = omega arith;
        push_in = omega arith;
        pull_in = omega arith;
      })
      refl (λ e. absurd (omega arith))

get_fifo_slot_private_lem_example :
    (get_fifo_slot_private true two_queued 3 5 ≡ some 197) × (197 < 256)
get_fifo_slot_private_lem_example =
    get_fifo_slot_private_lem two_queued-Holds.valid true 3 5 (omega arith) (omega arith)

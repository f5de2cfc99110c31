-- ===== src/Fifo/Send/Steps.antt =====
-- What the parts of the send path do to a valid fifo that has its slot metadata.
use odyssey_lib.Base.{
  Bool, List, arith, assert_if-true, get_elem?-eq-get_or, get_or, length, le→leb, lt→ltb, refl, set,
  some, true, u16, u32, ℕ, ◌%◌, ◌*◌, ◌+◌, ◌<◌, ◌^◌, ◌≡◌, ◌≤◌,
}
use odyssey_lib.Fifo.{
  Fifo, SlotMeta, blank_meta, check_slot_and_slot_meta, get_fifo_push_slot_with_offset,
  get_fifo_slot_meta, get_fifo_slot_meta_pull, get_fifo_slot_meta_push, mtu,
}
use odyssey_lib.Fifo.Inv.{
  IsValid, check_fifo-IsValid, fifo_incr_push_ptr_lem, get_fifo_slot_private_lem, slot_meta-IsValid,
}
use odyssey_lib.Fifo.Send.{coalesce, reset_fifo_slot}

module _ (b : Bool) {f : Fifo} (v : IsValid f) (metas : List SlotMeta)
    (has : f.slot_meta ≡ some metas) (len : length metas ≡ f.max_size) where
  pub get_fifo_slot_meta_lem :
      (slot : ℕ)
      → slot < f.max_size
      → get_fifo_slot_meta b f slot ≡ some (get_or metas slot blank_meta)
  unfolding get_fifo_slot_meta check_slot_and_slot_meta
  get_fifo_slot_meta_lem slot h =
      rw
        (
          check_fifo-IsValid b v,
          assert_if-true b (lt→ltb slot f.max_size h),
          has,
          assert_if-true b {c = true} refl,
        )
        (get_elem?-eq-get_or metas slot blank_meta (omega arith))

  pub get_fifo_slot_meta_push_lem :
      get_fifo_slot_meta_push b f ≡ some (get_or metas f.push_ptr blank_meta)
  unfolding get_fifo_slot_meta_push
  get_fifo_slot_meta_push_lem = get_fifo_slot_meta_lem f.push_ptr v.push_in

  pub get_fifo_slot_meta_pull_lem :
      get_fifo_slot_meta_pull b f ≡ some (get_or metas f.pull_ptr blank_meta)
  unfolding get_fifo_slot_meta_pull
  get_fifo_slot_meta_pull_lem = get_fifo_slot_meta_lem f.pull_ptr v.pull_in

  -- A message of a size that fits goes to the end of the slot at the push pointer.
  pub coalesce_lem :
      (m : SlotMeta) (new_size : ℕ)
      → 0 < new_size
      → m.byte_size + new_size ≤ f.slot_size
      → f.slot_size ≤ mtu
      → m.coalesce_num + 1 < 2 ^ 16
      → coalesce b f m new_size
        ≡ some (
          record f {
            slot_meta = some (
                set metas f.push_ptr (record m {
                  coalesce_num = m.coalesce_num + 1;
                  byte_size = m.byte_size + new_size;
                }));
          },
          f.slot_size * f.push_ptr + m.byte_size,
        )
  unfolding coalesce get_fifo_push_slot_with_offset
  coalesce_lem m new_size pos fits small few =
      let ec : u16 (m.coalesce_num + 1) ≡ m.coalesce_num + 1 = omega arith in
      let eb : u32 (m.byte_size + new_size) ≡ m.byte_size + new_size = omega arith in
      let v' =
        slot_meta-IsValid v
          {m = some (
            set metas f.push_ptr (record m {
              coalesce_num = m.coalesce_num + 1;
              byte_size = m.byte_size + new_size;
            }))} in
      rw (
        has,
        ec,
        eb,
        assert_if-true b (le→leb (m.byte_size + new_size) f.slot_size fits),
        assert_if-true b (le→leb (m.byte_size + new_size) mtu (omega arith)),
        check_fifo-IsValid b v',
        (get_fifo_slot_private_lem v' b f.push_ptr m.byte_size v.push_in (omega arith)).0,
      )

-- The push pointer moves on, and its slot is made empty.
pub reset_fifo_slot_lem :
    (b : Bool) {f : Fifo} (v : IsValid f) (metas : List SlotMeta)
    → f.slot_meta ≡ some metas
    → length metas ≡ f.max_size
    → f.mes_header < 2 ^ 16
    → let p = (f.push_ptr + 1) % f.max_size in
      reset_fifo_slot b f
      ≡ some (record f {
        push_ptr = p;
        slot_meta = some (
            set metas p (record (get_or metas p blank_meta) {
              byte_size = f.mes_header;
              resp_size = 0;
              coalesce_num = 0;
            }));
      })
unfolding reset_fifo_slot
reset_fifo_slot_lem b {f} v metas has len small =
    let moved = fifo_incr_push_ptr_lem v b in
    let eh : u16 f.mes_header ≡ f.mes_header = omega arith in
    rw (
      check_fifo-IsValid b v,
      moved.0,
      get_fifo_slot_meta_push_lem b moved.1 metas has len,
      has,
      eh,
    )

-- the slot that is open for messages; with the response size added; with a message added
abbrev pub open_meta : Fifo → List SlotMeta → SlotMeta
open_meta f metas = get_or metas f.push_ptr blank_meta

abbrev pub charged : SlotMeta → ℕ → SlotMeta
charged m resp = record m { resp_size = m.resp_size + resp }

abbrev pub grown : SlotMeta → ℕ → SlotMeta
grown m size = record m { coalesce_num = m.coalesce_num + 1; byte_size = m.byte_size + size }

abbrev pub first_message : Fifo → SlotMeta → ℕ → SlotMeta
first_message f m size = record m {
  coalesce_num = 1;
  byte_size = f.mes_header + size;
  resp_size = 0;
}

abbrev pub emptied : Fifo → SlotMeta → SlotMeta
emptied f m = record m { byte_size = f.mes_header; resp_size = 0; coalesce_num = 0 }

abbrev pub next_push : Fifo → ℕ
next_push f = (f.push_ptr + 1) % f.max_size

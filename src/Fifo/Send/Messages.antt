-- ===== src/Fifo/Send/Messages.antt =====
-- What `get_send_fifo_ptr` and `od_insert_mes` do to a valid fifo that has its slot metadata.
use native.Mathlib.Nat.{mod-lt}
use odyssey_lib.Base.{
  ==→eq, Bool, Bool-cases, List, arith, assert_if-true, false, get_or, get_or-set_self,
  if◌then◌else◌, inl, inr, length, length-set, ne→==_false, refl, set, set-set, some, true, u32, ℕ,
  ◌*◌, ◌+◌, ◌<◌, ◌==◌, ◌>>=◌, ◌^◌, ◌∙◌, ◌≡◌, ◌≤◌,
}
use odyssey_lib.Fifo.{Fifo, SlotMeta, blank_meta, fifo_incr_net_capacity, is_some, mtu}
use odyssey_lib.Fifo.Inv.{
  IsValid, check_fifo-IsValid, fifo_increm_capacity_lem, push_ptr-IsValid, slot_meta-IsValid,
}
use odyssey_lib.Fifo.Send.{get_send_fifo_ptr, insert_mes, new_message, start_new_slot}
use odyssey_lib.Fifo.Send.Steps.{
  charged, coalesce_lem, emptied, first_message, get_fifo_slot_meta_push_lem, grown, next_push,
  open_meta, reset_fifo_slot_lem,
}

module _ (b : Bool) {f : Fifo} (v : IsValid f) (metas : List SlotMeta)
    (has : f.slot_meta ≡ some metas) (len : length metas ≡ f.max_size) (size resp : ℕ)
    (pos : 0 < size) (mtu_slots : f.slot_size ≤ mtu)
    (small : (open_meta f metas).resp_size + resp < 2 ^ 32) where
  -- Without a new slot, the slot at the push pointer takes the message.
  pub get_send_fifo_ptr_same :
      (brk : Bool)
      → (open_meta f metas).byte_size + size ≤ f.slot_size
      → (open_meta f metas).coalesce_num + 1 < 2 ^ 16
      → new_message f (charged (open_meta f metas) resp) size brk ≡ false
      → get_send_fifo_ptr b f size resp brk
        ≡ some (
          record f {
            slot_meta = some (set metas f.push_ptr (grown (charged (open_meta f metas) resp) size));
          },
          f.slot_size * f.push_ptr + (open_meta f metas).byte_size,
        )
  unfolding get_send_fifo_ptr
  get_send_fifo_ptr_same brk hb hc old =
      let m = open_meta f metas in
      let metas' = set metas f.push_ptr (charged m resp) in
      let here : is_some f.slot_meta ≡ true = rw has in
      let er : u32 (m.resp_size + resp) ≡ m.resp_size + resp = omega arith in
      let v' = slot_meta-IsValid v {m = some metas'} in
      rw (
        check_fifo-IsValid b v,
        assert_if-true b here,
        get_fifo_slot_meta_push_lem b v metas has len,
        er,
        old,
        has,
        coalesce_lem b v' metas' refl (length-set metas f.push_ptr (charged m resp) ∙ len)
            (charged m resp) size pos hb mtu_slots hc,
        set-set metas f.push_ptr (charged m resp) (grown (charged m resp) size),
      )

  -- With a new one, the next slot starts with the message, behind the header.
  pub get_send_fifo_ptr_new :
      (brk : Bool)
      → f.mes_header < 2 ^ 16
      → f.mes_header + size ≤ f.slot_size
      → 0 < (open_meta f metas).coalesce_num
      → new_message f (charged (open_meta f metas) resp) size brk ≡ true
      → let metas' = set metas f.push_ptr (charged (open_meta f metas) resp) in
        get_send_fifo_ptr b f size resp brk
        ≡ some (
          record f {
            push_ptr = next_push f;
            slot_meta = some (
                set metas'
                  (next_push f)
                  (first_message f (get_or metas' (next_push f) blank_meta) size));
          },
          f.slot_size * next_push f + f.mes_header,
        )
  unfolding get_send_fifo_ptr start_new_slot
  get_send_fifo_ptr_new brk hh hb hc fresh =
      let m = open_meta f metas in
      let p = next_push f in
      let metas' = set metas f.push_ptr (charged m resp) in
      let old = get_or metas' p blank_meta in
      let metas'' = set metas' p (emptied f old) in
      let len' : length metas' ≡ f.max_size = length-set metas f.push_ptr (charged m resp) ∙ len in
      let len'' : length metas'' ≡ f.max_size = length-set metas' p (emptied f old) ∙ len' in
      let inside : p < f.max_size = mod-lt (f.push_ptr + 1) v.slots in
      let here : is_some f.slot_meta ≡ true = rw has in
      let er : u32 (m.resp_size + resp) ≡ m.resp_size + resp = omega arith in
      let ne : (m.coalesce_num == 0) ≡ false = ne→==_false m.coalesce_num 0 (omega arith) in
      let v' = slot_meta-IsValid v {m = some metas'} in
      let v'' = slot_meta-IsValid (push_ptr-IsValid v inside) {m = some metas''} in
      rw (
        check_fifo-IsValid b v,
        assert_if-true b here,
        get_fifo_slot_meta_push_lem b v metas has len,
        er,
        fresh,
        ne,
        has,
        assert_if-true b {c = true} refl,
        reset_fifo_slot_lem b v' metas' refl len' hh,
        get_fifo_slot_meta_push_lem b v'' metas'' refl len'',
        get_or-set_self metas' p (emptied f old) blank_meta (omega (arith, inside, len')),
        coalesce_lem b v'' metas'' refl len'' (emptied f old) size pos hb mtu_slots (omega arith),
        set-set metas' p (emptied f old) (first_message f old size),
      )

-- What `od_insert_mes` leaves, once the message has its place.
abbrev pub finished : (ℕ → List ℕ → List ℕ) → Fifo → ℕ → ℕ → Fifo
finished helper f ptr num = record f {
  fifo = f.fifo >>= λ cells. some (helper ptr cells);
  capacity = if num == 1 then f.capacity + 1 else f.capacity;
  net_capacity = f.net_capacity + 1;
}

pub helper-IsValid :
    {f : Fifo} (helper : ℕ → List ℕ → List ℕ) (ptr : ℕ)
    → IsValid f
    → IsValid (record f { fifo = f.fifo >>= λ cells. some (helper ptr cells) })
helper-IsValid helper ptr v = ground arith

pub insert_mes_lem :
    (b : Bool) (helper : ℕ → List ℕ → List ℕ) (f : Fifo) (size resp : ℕ) (brk : Bool) {f1 : Fifo}
    {ptr : ℕ}
    → get_send_fifo_ptr b f size resp brk ≡ some (f1, ptr)
    → IsValid f1
    → (metas : List SlotMeta) → f1.slot_meta ≡ some metas
    → length metas ≡ f1.max_size
    → (num : ℕ) → (open_meta f1 metas).coalesce_num ≡ num
    → (num ≡ 1 → f1.capacity < f1.max_size)
    → f1.net_capacity + 1 < 2 ^ 32
    → (insert_mes b helper f size resp brk ≡ some (finished helper f1 ptr num))
      × IsValid (finished helper f1 ptr num)
unfolding insert_mes fifo_incr_net_capacity
insert_mes_lem b helper f size resp brk {f1} {ptr} got v metas has len num at room net =
    let v2 = helper-IsValid helper ptr v in
    let en : u32 (f1.net_capacity + 1) ≡ f1.net_capacity + 1 = omega arith in
    elim (Bool-cases (num == 1)) [
      | inl e ↦
          let v3 = fifo_increm_capacity_lem v2 b (room (==→eq num 1 e)) in
          (
            rw (
              got,
              get_fifo_slot_meta_push_lem b v2 metas has len,
              at,
              e,
              v3.0,
              check_fifo-IsValid b v3.1,
              en,
            ),
            rw e (ground arith),
          )
      | inr e ↦ (
        rw (
          got,
          get_fifo_slot_meta_push_lem b v2 metas has len,
          at,
          e,
          check_fifo-IsValid b v2,
          en,
        ),
        rw e (ground arith),
      )
    ]

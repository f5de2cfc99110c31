-- ===== src/Fifo/Send/Place.antt =====
-- Where `get_send_fifo_ptr` places a message, and the response size that it forgets.
use native.Mathlib.Nat.{mod-lt}
use odyssey_lib.Base.{
  Bool, Bool-cases, List, [], ap, arith, false, get_or, get_or-set_self, if◌then◌else◌, inl, inr,
  length, length-set, refl, set, some, subst, suc, sym, true, ℕ, ◌*◌, ◌+◌, ◌<◌, ◌^◌, ◌∙◌, ◌∷◌, ◌≡◌,
  ◌≤◌,
}
use odyssey_lib.Fifo.{Fifo, SlotMeta, blank_meta, mtu}
use odyssey_lib.Fifo.Send.{get_send_fifo_ptr, new_message}
use odyssey_lib.Fifo.Send.Messages.{get_send_fifo_ptr_new, get_send_fifo_ptr_same}
use odyssey_lib.Fifo.Send.Queue.{Positive, Positive-init, batch_window, sum, sum-append}
use odyssey_lib.Fifo.Send.Refine.{Holds, last_open, new_message-false}
use odyssey_lib.Fifo.Send.Steps.{charged, first_message, grown, next_push, open_meta}

-- The message of `size` bytes lies from `start` on in the slot at the push pointer of `f'`, whose
-- metadata is `m'`: behind what the open slot `m` of `f` held, or behind the header of a new slot.
pub record Placed (f : Fifo) (m : SlotMeta) (size resp : ℕ) (fresh : Bool) (f' : Fifo)
    (m' : SlotMeta) (start : ℕ) : Type 0 where
  pub slot : f'.push_ptr ≡ (if fresh then next_push f else f.push_ptr)
  pub behind : start ≡ (if fresh then f.mes_header else m.byte_size)
  pub whole : start + size ≡ m'.byte_size
  pub inside : m'.byte_size ≤ f.slot_size
  pub count : m'.coalesce_num ≡ (if fresh then 1 else m.coalesce_num + 1)
  pub resp_size : m'.resp_size ≡ (if fresh then 0 else m.resp_size + resp)

module _ (b : Bool) {f : Fifo} {q : List ℕ} (h : Holds f q) (size resp : ℕ) (brk : Bool)
    (pos : 0 < size) (head : f.mes_header + size ≤ f.slot_size) (slots : f.slot_size ≤ mtu)
    (answer : resp ≤ mtu) (n : ℕ) (filled : length q ≡ suc n) (few : sum q + 1 < 2 ^ 16) where
  abbrev takes_new : Bool
  takes_new = new_message f (charged (open_meta f h.metas) resp) size brk

  abbrev Result : Bool → Type 0
  Result fresh =
      (f' : Fifo) × (metas' : List SlotMeta) × (start : ℕ) × (get_send_fifo_ptr b f size resp brk
        ≡ some (f', f.slot_size * f'.push_ptr + start))
      × (f'.slot_meta ≡ some metas')
      × Placed f (open_meta f h.metas) size resp fresh f' (open_meta f' metas') start

  open_count :
      (0 < (open_meta f h.metas).coalesce_num) × ((open_meta f h.metas).coalesce_num ≤ sum q)
  open_count =
      let m = open_meta f h.metas in
      let w = batch_window f.max_size h.metas f.pull_ptr n in
      let qe = last_open h n filled in
      let total : sum q ≡ sum w + (m.coalesce_num + 0) =
        ap sum qe ∙ sum-append w (m.coalesce_num ∷ []) in
      ((Positive-init w m.coalesce_num (subst Positive qe h.positive)).1, omega (arith, total))

  place_same : takes_new ≡ false → Result false
  place_same old =
      let m = open_meta f h.metas in
      let within = new_message-false f (charged m resp) size brk old (omega (arith, h.fits)) in
      let got =
        get_send_fifo_ptr_same b h.valid h.metas h.has h.len size resp pos slots
          (omega (arith, within)) brk within.1 (omega (arith, open_count, few)) old in
      let m2 = grown (charged m resp) size in
      let self =
        get_or-set_self h.metas f.push_ptr m2 blank_meta (omega (arith, h.len, h.valid.push_in)) in
      (
        _,
        set h.metas f.push_ptr m2,
        m.byte_size,
        got,
        refl,
        record {
          slot = refl;
          behind = refl;
          whole = sym (ap (λ t. t.byte_size) self);
          inside = rw self within.1;
          count = ap (λ t. t.coalesce_num) self;
          resp_size = ap (λ t. t.resp_size) self;
        },
      )

  place_new : takes_new ≡ true → Result true
  place_new fresh =
      let m = open_meta f h.metas in
      let p = next_push f in
      let metas1 = set h.metas f.push_ptr (charged m resp) in
      let m2 = first_message f (get_or metas1 p blank_meta) size in
      let got =
        get_send_fifo_ptr_new b h.valid h.metas h.has h.len size resp pos slots
          (omega (arith, h.resp)) brk h.header.0 head open_count.0 fresh in
      let len1 : length metas1 ≡ f.max_size =
        length-set h.metas f.push_ptr (charged m resp) ∙ h.len in
      let self =
        get_or-set_self metas1 p m2 blank_meta
          (omega (arith, len1, mod-lt (f.push_ptr + 1) h.valid.slots)) in
      (
        _,
        set metas1 p m2,
        f.mes_header,
        got,
        refl,
        record {
          slot = refl;
          behind = refl;
          whole = sym (ap (λ t. t.byte_size) self);
          inside = rw self head;
          count = ap (λ t. t.coalesce_num) self;
          resp_size = ap (λ t. t.resp_size) self;
        },
      )

  -- From a send fifo that holds at least one batch, with slots within the MTU, and for a message that
  -- is not empty and fits a slot behind the header, whose response fits the MTU, with fewer than 2^16
  -- messages in the fifo, `get_send_fifo_ptr` passes every assertion and returns a place for the
  -- whole message inside one slot: behind the messages of the open slot, or behind the header of the
  -- next one. A new slot starts with the response size 0, whatever response its first message asks
  -- for; in the old slot the response size is added up.
  pub get_send_fifo_ptr-Placed :
      (f' : Fifo) × (metas' : List SlotMeta) × (start : ℕ) × (get_send_fifo_ptr b f size resp brk
        ≡ some (f', f.slot_size * f'.push_ptr + start))
      × (f'.slot_meta ≡ some metas')
      × Placed f
          (open_meta f h.metas)
          size
          resp
          (new_message f (charged (open_meta f h.metas) resp) size brk)
          f'
          (open_meta f' metas')
          start
  get_send_fifo_ptr-Placed = elim (Bool-cases takes_new) [
    | inl fresh ↦ rw fresh (place_new fresh)
    | inr old ↦ rw old (place_same old)
  ]

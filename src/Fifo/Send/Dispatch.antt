-- ===== src/Fifo/Send/Dispatch.antt =====
-- `fifo_send_from_pull_slot` takes the oldest batch off the queue.
use native.Mathlib.Nat.{mod-eq_of_lt, mod-lt, mod-mod}
use odyssey_lib.Base.{
  Bool, List, [], ap, arith, false, get_or, get_or-set_self, length, length-set, ne→==_false, refl,
  set, some, sym, u32, ℕ, ◌%◌, ◌+◌, ◌-◌, ◌<◌, ◌==◌, ◌^◌, ◌∙◌, ◌∷◌, ◌≡◌,
}
use odyssey_lib.Fifo.{Fifo, blank_meta}
use odyssey_lib.Fifo.Inv.{
  IsValid, fifo_decrem_capacity_lem, fifo_incr_pull_ptr_lem, net_capacity-IsValid, push_ptr-IsValid,
  slot_meta-IsValid,
}
use odyssey_lib.Fifo.Ring.{shift}
use odyssey_lib.Fifo.Send.{fifo_send_from_pull_slot}
use odyssey_lib.Fifo.Send.Queue.{coalesce_at, sum}
use odyssey_lib.Fifo.Send.Refine.{Holds}
use odyssey_lib.Fifo.Send.Steps.{emptied, get_fifo_slot_meta_pull_lem, reset_fifo_slot_lem}

-- The pull pointer goes to the next slot, and while batches are left all slots keep their metadata.
pub record MovesOn (f f' : Fifo) (q : List ℕ) : Type 0 where
  pub pull : f'.pull_ptr ≡ (f.pull_ptr + 1) % f.max_size
  pub max : f'.max_size ≡ f.max_size
  pub size : f'.slot_size ≡ f.slot_size
  pub metas : 0 < length q → f'.slot_meta ≡ f.slot_meta

abbrev Sent : Bool → Fifo → List ℕ → Type 0
Sent b f q = (f' : Fifo) × (fifo_send_from_pull_slot b f ≡ some f') × Holds f' q × MovesOn f f' q

-- With nothing left, the push pointer moves on as well, to a slot made empty.
send_last : (b : Bool) {f : Fifo} {x : ℕ} → Holds f (x ∷ []) → f.net_capacity < 2 ^ 32 → Sent b f []
unfolding fifo_send_from_pull_slot
send_last b {f} {x} h short =
    let oldest : coalesce_at h.metas f.pull_ptr ≡ x = cc h.batches in
    let left : u32 (f.net_capacity + 2 ^ 32 - x) ≡ 0 = omega (arith, h.net) in
    let f1 : Fifo = record f { net_capacity = 0 } in
    let v1 : IsValid f1 = net_capacity-IsValid h.valid in
    let p = (f.push_ptr + 1) % f.max_size in
    let inside : p < f.max_size = mod-lt (f.push_ptr + 1) h.valid.slots in
    let fresh = emptied f (get_or h.metas p blank_meta) in
    let metas2 = set h.metas p fresh in
    let v2 = slot_meta-IsValid (push_ptr-IsValid v1 inside) {m = some metas2} in
    let down = fifo_decrem_capacity_lem v2 b (omega (arith, h.count)) in
    let up = fifo_incr_pull_ptr_lem down.1 b in
    let self : get_or metas2 p blank_meta ≡ fresh =
      get_or-set_self h.metas p fresh blank_meta (omega (arith, h.len, inside)) in
    let same : f.push_ptr ≡ f.pull_ptr =
      h.place ∙ ap (λ k. k % f.max_size) (omega arith) ∙ mod-eq_of_lt h.valid.pull_in in
    (
      record f {
        net_capacity = 0;
        push_ptr = p;
        slot_meta = some metas2;
        capacity = f.capacity - 1;
        pull_ptr = (f.pull_ptr + 1) % f.max_size;
      },
      rw (
        get_fifo_slot_meta_pull_lem b h.valid h.metas h.has h.len,
        oldest,
        left,
        reset_fifo_slot_lem b v1 h.metas h.has h.len h.header.0,
        down.0,
        up.0,
      ),
      record {
        valid = up.1;
        metas = metas2;
        has = refl;
        len = length-set h.metas p fresh ∙ h.len;
        count = omega (arith, h.count);
        net = refl;
        place =
            ap (λ k. (k + 1) % f.max_size) same
            ∙ sym (mod-mod (f.pull_ptr + 1) f.max_size)
            ∙ ap (λ k. k % f.max_size) (omega arith);
        batches = refl;
        positive = tt;
        fits = rw self h.header.1;
        resp = rw self (omega arith);
        header = h.header;
        idle = λ _.
            (ap (λ t. t.coalesce_num) self, ap (λ t. t.byte_size) self, ap (λ t. t.resp_size) self);
      },
      record {
        pull = refl;
        max = refl;
        size = refl;
        metas = λ none_left. absurd (omega (arith, none_left));
      },
    )

send_more :
    (b : Bool) {f : Fifo} {x y : ℕ} {q : List ℕ}
    → Holds f (x ∷ y ∷ q)
    → f.net_capacity < 2 ^ 32
    → Sent b f (y ∷ q)
unfolding fifo_send_from_pull_slot
send_more b {f} {x} {y} {q} h short =
    let oldest : coalesce_at h.metas f.pull_ptr ≡ x = cc h.batches in
    let left : u32 (f.net_capacity + 2 ^ 32 - x) ≡ sum (y ∷ q) = omega (arith, h.net) in
    let some_left : (sum (y ∷ q) == 0) ≡ false =
      ne→==_false (sum (y ∷ q)) 0 (omega (arith, h.positive)) in
    let f1 : Fifo = record f { net_capacity = sum (y ∷ q) } in
    let v1 : IsValid f1 = net_capacity-IsValid h.valid in
    let down = fifo_decrem_capacity_lem v1 b (omega (arith, h.count)) in
    let up = fifo_incr_pull_ptr_lem down.1 b in
    (
      record f {
        net_capacity = sum (y ∷ q);
        capacity = f.capacity - 1;
        pull_ptr = (f.pull_ptr + 1) % f.max_size;
      },
      rw (
        get_fifo_slot_meta_pull_lem b h.valid h.metas h.has h.len,
        oldest,
        left,
        some_left,
        down.0,
        up.0,
      ),
      record {
        valid = up.1;
        metas = h.metas;
        has = h.has;
        len = h.len;
        count = omega (arith, h.count);
        net = refl;
        place =
            h.place
            ∙ ap (λ k. (f.pull_ptr + k) % f.max_size) (omega arith)
            ∙ shift f.max_size f.pull_ptr (length q)
            ∙ ap (λ k. ((f.pull_ptr + 1) % f.max_size + k) % f.max_size) (omega arith);
        batches = cc h.batches;
        positive = h.positive.1;
        fits = h.fits;
        resp = h.resp;
        header = h.header;
        idle = λ e. absurd (omega (arith, e));
      },
      record { pull = refl; max = refl; size = refl; metas = λ _. refl },
    )

pub fifo_send_from_pull_slot-MovesOn :
    (b : Bool) {f : Fifo} {x : ℕ} (q : List ℕ)
    → Holds f (x ∷ q)
    → f.net_capacity < 2 ^ 32
    → Sent b f q
fifo_send_from_pull_slot-MovesOn b [] h short = send_last b h short
fifo_send_from_pull_slot-MovesOn b (y ∷ q) h short = send_more b h short

-- In a send fifo that holds at least one batch, and fewer than 2^32 messages,
-- `fifo_send_from_pull_slot` passes every assertion, and leaves the fifo holding the batches behind the
-- oldest one.
pub fifo_send_from_pull_slot-Holds :
    (b : Bool) {f : Fifo} {x : ℕ} (q : List ℕ)
    → Holds f (x ∷ q)
    → f.net_capacity < 2 ^ 32
    → (f' : Fifo) × (fifo_send_from_pull_slot b f ≡ some f') × Holds f' q
fifo_send_from_pull_slot-Holds b q h short =
    let (f', sent, held, on) = fifo_send_from_pull_slot-MovesOn b q h short in (f', sent, held)

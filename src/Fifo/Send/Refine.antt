-- ===== src/Fifo/Send/Refine.antt =====
-- A send fifo refines a bounded queue of batches.
use odyssey_lib.Base.{
  Bool, List, [], ap, arith, false, get_or, length, length-append, some, suc, sym, u32, ℕ, ◌%◌,
  ◌++◌, ◌+◌, ◌-◌, ◌<◌, ◌^◌, ◌∙◌, ◌∷◌, ◌≡◌, ◌≤◌,
}
use odyssey_lib.Fifo.{Fifo, SlotMeta, blank_meta, mtu}
use odyssey_lib.Fifo.Inv.{IsValid}
use odyssey_lib.Fifo.Ring.{window_snoc}
use odyssey_lib.Fifo.Send.{new_message}
use odyssey_lib.Fifo.Send.Queue.{
  Positive, Positive-append, batch_window, coalesce_at, coalesce_of, sum, sum-append,
}
use odyssey_lib.Fifo.Send.Steps.{open_meta}

-- `f` holds the batches `q`, the last of which is still open, and its counters agree.
pub record Holds (f : Fifo) (q : List ℕ) : Type 0 where
  pub valid : IsValid f
  pub metas : List SlotMeta
  pub has : f.slot_meta ≡ some metas
  pub len : length metas ≡ f.max_size
  pub count : f.capacity ≡ length q
  pub net : f.net_capacity ≡ sum q
  pub place : f.push_ptr ≡ (f.pull_ptr + (length q - 1)) % f.max_size
  pub batches : batch_window f.max_size metas f.pull_ptr (length q) ≡ q
  pub positive : Positive q
  pub fits : (get_or metas f.push_ptr blank_meta).byte_size ≤ f.slot_size
  pub resp : (get_or metas f.push_ptr blank_meta).resp_size ≤ mtu
  pub header : (f.mes_header < 2 ^ 16) × (f.mes_header ≤ f.slot_size)
  pub idle :
      length q ≡ 0
      → (coalesce_at metas f.push_ptr ≡ 0)
        × ((get_or metas f.push_ptr blank_meta).byte_size ≡ f.mes_header)
        × ((get_or metas f.push_ptr blank_meta).resp_size ≡ 0)

-- A fifo with at least one batch, told by its last one.
pub reopen :
    {f : Fifo}
    → IsValid f
    → (metas : List SlotMeta) → f.slot_meta ≡ some metas
    → length metas ≡ f.max_size
    → (n : ℕ) → f.capacity ≡ suc n
    → f.push_ptr ≡ (f.pull_ptr + n) % f.max_size
    → (w : List ℕ) (c : ℕ) → length w ≡ n
    → batch_window f.max_size metas f.pull_ptr (suc n) ≡ w ++ c ∷ []
    → f.net_capacity ≡ sum w + c
    → Positive w
    → 0 < c
    → (open_meta f metas).byte_size ≤ f.slot_size
    → (open_meta f metas).resp_size ≤ mtu
    → (f.mes_header < 2 ^ 16) × (f.mes_header ≤ f.slot_size)
    → Holds f (w ++ c ∷ [])
reopen {f} v metas has len n count place w c lw win net pw pc fits resp header =
    let size : length (w ++ c ∷ []) ≡ suc n = omega (arith, length-append w (c ∷ []), lw) in
    record {
      valid = v;
      metas = metas;
      has = has;
      len = len;
      count = count ∙ sym size;
      net = omega (arith, sum-append w (c ∷ []), net);
      place = rw (size, suc-sub-one n) place;
      batches = rw size win;
      positive = Positive-append w c pw pc;
      fits = fits;
      resp = resp;
      header = header;
      idle = λ e. absurd (omega (arith, size, e));
    }
  where
    suc-sub-one : (k : ℕ) → suc k - 1 ≡ k
    suc-sub-one k = omega arith

-- The last batch is the one at the push pointer.
pub last_open :
    {f : Fifo} {q : List ℕ} (h : Holds f q) (n : ℕ)
    → length q ≡ suc n
    → q ≡ batch_window f.max_size h.metas f.pull_ptr n ++ coalesce_at h.metas f.push_ptr ∷ []
last_open {f} {q} h n e =
    let at : (f.pull_ptr + n) % f.max_size ≡ f.push_ptr =
      sym (h.place ∙ ap (λ k. (f.pull_ptr + k) % f.max_size) (omega (arith, e))) in
    let win : batch_window f.max_size h.metas f.pull_ptr (suc n) ≡ q =
      ap (λ k. batch_window f.max_size h.metas f.pull_ptr k) (sym e) ∙ h.batches in
    sym win
    ∙ window_snoc coalesce_of blank_meta f.max_size h.metas n f.pull_ptr h.valid.pull_in
    ∙ ap (λ k. batch_window f.max_size h.metas f.pull_ptr n ++ coalesce_at h.metas k ∷ []) at

pub new_message-false :
    (f : Fifo) (m : SlotMeta) (size : ℕ) (brk : Bool)
    → new_message f m size brk ≡ false
    → m.byte_size + size < 2 ^ 32
    → (m.resp_size ≤ mtu) × (m.byte_size + size ≤ f.slot_size)
unfolding new_message
new_message-false f m size brk h k =
    let e : u32 (m.byte_size + size) ≡ m.byte_size + size = omega arith in ground (arith, e)

pub new_message_empty :
    (f : Fifo) (m : SlotMeta) (size : ℕ) (brk : Bool)
    → m.coalesce_num ≡ 0
    → m.resp_size ≤ mtu
    → m.byte_size + size ≤ f.slot_size
    → new_message f m size brk ≡ false
unfolding new_message
new_message_empty f m size brk h k l =
    let e : u32 (m.byte_size + size) ≤ f.slot_size = omega arith in ground (arith, e)

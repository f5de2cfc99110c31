-- ===== src/Fifo/Send/Runs.antt =====
-- A send fifo from its constructor on, under any sequence of inserts and sends.
use native.Mathlib.Nat.{mod-eq_of_lt, mul_comm}
use odyssey_lib.Base.{
  Bool, List, [], ap, arith, get_or, get_or-set_self, length-replicate, length-set, refl, replicate,
  set, some, some_injective, subst, sym, true, u32, ℕ, ◌*◌, ◌+◌, ◌<◌, ◌^◌, ◌∙◌, ◌∷◌, ◌≡◌, ◌≤◌,
}
use odyssey_lib.Fifo.{Fifo, blank_meta, construct_one, mtu}
use odyssey_lib.Fifo.Inv.{IsValid, check_fifo-IsValid}
use odyssey_lib.Fifo.Send.{fifo_send_from_pull_slot, insert_mes, new_message}
use odyssey_lib.Fifo.Send.Dispatch.{fifo_send_from_pull_slot-Holds}
use odyssey_lib.Fifo.Send.Insert.{insert_mes-Holds, is_new}
use odyssey_lib.Fifo.Send.Queue.{add_message, sum-add_message}
use odyssey_lib.Fifo.Send.Refine.{Holds}
use odyssey_lib.Fifo.Send.Steps.{charged, open_meta}

-- For a positive number of slots of a positive size, together less than 2^32 bytes, and a header that
-- fits a slot, what `fifo_constructor` makes with slot metadata passes its check and holds no batch.
pub construct_one-Holds :
    (b : Bool) (slots size header cells : ℕ)
    → 0 < slots
    → 0 < size
    → size * slots < 2 ^ 32
    → header < 2 ^ 16
    → header ≤ size
    → (f : Fifo) × (construct_one b slots size true header cells ≡ some f) × Holds f []
unfolding construct_one
construct_one-Holds b slots size header cells hs hz hb hh hf =
    let e : u32 (slots * size) ≡ size * slots = ap u32 (mul_comm slots size) ∙ omega arith in
    let first = record blank_meta { byte_size = header } in
    let metas = set (replicate slots blank_meta) 0 first in
    let self : get_or metas 0 blank_meta ≡ first =
      get_or-set_self (replicate slots blank_meta) 0 first blank_meta
        (omega (arith, length-replicate slots blank_meta)) in
    let f : Fifo = record {
      fifo = some (replicate cells 0);
      slot_meta = some metas;
      push_ptr = 0;
      pull_ptr = 0;
      max_size = slots;
      max_byte_size = size * slots;
      capacity = 0;
      net_capacity = 0;
      slot_size = size;
      mes_header = header;
    } in
    let v : IsValid f = record {
      buffer = refl;
      slots = hs;
      sized = hz;
      room = omega arith;
      bytes = refl;
      small = hb;
      push_in = hs;
      pull_in = hs;
    } in
    (
      f,
      rw (e, check_fifo-IsValid b v),
      record {
        valid = v;
        metas = metas;
        has = refl;
        len = length-set (replicate slots blank_meta) 0 first ∙ length-replicate slots blank_meta;
        count = refl;
        net = refl;
        place = sym (mod-eq_of_lt hs);
        batches = refl;
        positive = tt;
        fits = rw self hf;
        resp = rw self (omega arith);
        header = (hh, hf);
        idle = λ _.
            (ap (λ t. t.coalesce_num) self, ap (λ t. t.byte_size) self, ap (λ t. t.resp_size) self);
      },
    )

-- The uses that the callers make of a send fifo `f0`: an insert is made with a slot to spare, of a
-- message that fits an empty slot, and a send where there is a batch.
pub data Reach (b : Bool) (f0 : Fifo) : Fifo → Type 0 where
  start : Reach b f0 f0
  insert :
      {f f' : Fifo} (helper : ℕ → List ℕ → List ℕ) (size resp : ℕ) (brk : Bool)
      → Reach b f0 f
      → 0 < size
      → f.mes_header + size ≤ f.slot_size
      → f.slot_size ≤ mtu
      → resp ≤ mtu
      → f.capacity < f.max_size
      → f.net_capacity + 1 < 2 ^ 16
      → insert_mes b helper f size resp brk ≡ some f'
      → Reach b f0 f'
  send :
      {f f' : Fifo}
      → Reach b f0 f
      → 0 < f.capacity
      → fifo_send_from_pull_slot b f ≡ some f'
      → Reach b f0 f'

abbrev pub Queued : Fifo → Type 0
Queued f = ((q : List ℕ) × Holds f q) × (f.net_capacity < 2 ^ 16)

insert-Queued :
    (b : Bool) (helper : ℕ → List ℕ → List ℕ) (size resp : ℕ) (brk : Bool) {f f' : Fifo}
    → Queued f
    → 0 < size
    → f.mes_header + size ≤ f.slot_size
    → f.slot_size ≤ mtu
    → resp ≤ mtu
    → f.capacity < f.max_size
    → f.net_capacity + 1 < 2 ^ 16
    → insert_mes b helper f size resp brk ≡ some f'
    → Queued f'
insert-Queued b helper size resp brk {f} {f'} ((q, h), short) pos fits slots answer room few run =
    let (g, run', held) =
      insert_mes-Holds b helper h size resp brk pos fits slots answer (omega (arith, h.count))
        (omega (arith, h.net)) in
    let e : g ≡ f' = some_injective (sym run' ∙ run) in
    (
      (
        _,
        subst
            (λ k.
              Holds k (add_message (new_message f (charged (open_meta f h.metas) resp) size brk) q))
            e held,
      ),
      rw (← e) (
          omega (
            arith,
            held.net,
            sum-add_message
                (is_new b helper h size resp brk pos fits slots answer (omega (arith, h.count))
                  (omega (arith, h.net)))
                q,
            h.net,
          )),
    )

send-Queued :
    (b : Bool) {f f' : Fifo}
    → Queued f
    → 0 < f.capacity
    → fifo_send_from_pull_slot b f ≡ some f'
    → Queued f'
send-Queued b {f} {f'} (([], h), short) some_left run = absurd (omega (arith, h.count))
send-Queued b {f} {f'} ((x ∷ q, h), short) some_left run =
    let (g, run', held) = fifo_send_from_pull_slot-Holds b q h (omega arith) in
    let e : g ≡ f' = some_injective (sym run' ∙ run) in
    ((q, subst (λ k. Holds k q) e held), rw (← e) (omega (arith, held.net, h.net)))

-- From a fifo that holds no batch, whatever the order of the inserts and sends that `Reach` allows,
-- the send fifo goes on holding a queue of batches, of fewer than 2^16 messages.
pub Reach-Holds :
    {b : Bool} {f0 f : Fifo}
    → Holds f0 []
    → Reach b f0 f
    → ((q : List ℕ) × Holds f q) × (f.net_capacity < 2 ^ 16)
Reach-Holds h start = (([], h), omega (arith, h.net))
Reach-Holds {b} h (insert helper size resp brk r pos fits slots answer room few run) =
    insert-Queued b helper size resp brk (Reach-Holds h r) pos fits slots answer room few run
Reach-Holds {b} h (send r some_left run) = send-Queued b (Reach-Holds h r) some_left run

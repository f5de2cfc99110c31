-- ===== src/Network/Unicast/Entries.antt =====
-- The work requests that `ctx_forge_unicast_wr` fills in for the messages of a fifo.
use native.Mathlib.Nat.{mod-eq_of_lt}
use odyssey_lib.Base.{
  Bool, List, ap, ap₂, arith, false, get_or, if◌then◌else◌, length, refl, some_injective, suc, sym,
  true, zero, ℕ, ◌%◌, ◌*◌, ◌+◌, ◌<◌, ◌==◌, ◌∙◌, ◌∷◌, ◌≡◌,
}
use odyssey_lib.Fifo.{Fifo, SlotMeta, blank_meta}
use odyssey_lib.Fifo.Ring.{shift}
use odyssey_lib.Fifo.Send.Dispatch.{MovesOn}
use odyssey_lib.Fifo.Send.Refine.{Holds}
use odyssey_lib.Network.{Sge, put}
use odyssey_lib.Network.Unicast.{UniQp}

-- The buffer, the memory region and the receiver of a work request.
abbrev pub Entry : Type 0
Entry = Sge × ℕ × ℕ

abbrev pub forged_entry : UniQp → ℕ → Entry
forged_entry q j = (q.sgl j, q.lkey j, q.dest j)

-- The message in a slot of the fifo `fifo_i`.
abbrev pub message_in : ℕ → ℕ → ℕ → List SlotMeta → Entry
message_in fifo_i slot_size slot metas =
    let m = get_or metas slot blank_meta in
    (record { addr = slot_size * slot + 0; len = m.byte_size }, fifo_i, m.rm_id)

-- The message `k` behind the pull pointer of the fifo `fifo_i`: the slot that it is in, as long as the
-- slot's metadata says, for the machine that they name.
abbrev pub message_at : ℕ → Fifo → List SlotMeta → ℕ → Entry
message_at fifo_i f metas k = message_in fifo_i f.slot_size ((f.pull_ptr + k) % f.max_size) metas

-- The work requests from `mes_i` on are those of the `n` messages of a fifo, and the others before them
-- are as they were.
pub record Forged (fifo_i mes_i n : ℕ) (f : Fifo) (metas : List SlotMeta) (q q' : UniQp)
    : Type 0 where
  pub forged : (k : ℕ) → k < n → forged_entry q' (mes_i + k) ≡ message_at fifo_i f metas k
  pub earlier : (j : ℕ) → j < mes_i → forged_entry q' j ≡ forged_entry q j

-- The message at the pull pointer is at the start of the slot.
pub first_message :
    (fifo_i : ℕ) (f : Fifo) (metas : List SlotMeta)
    → f.pull_ptr < f.max_size
    → message_in fifo_i f.slot_size f.pull_ptr metas ≡ message_at fifo_i f metas 0
first_message fifo_i f metas inside =
    ap (λ slot. message_in fifo_i f.slot_size slot metas)
      (sym (ap (λ p. p % f.max_size) (omega arith) ∙ mod-eq_of_lt inside))

pub put_entry :
    (q : UniQp) (mes_i j : ℕ) (a : Sge) (l d : ℕ)
    → (here : Bool) → (mes_i == j) ≡ here
    → ◌≡◌ {A = Entry}
        (put q.sgl mes_i a j, put q.lkey mes_i l j, put q.dest mes_i d j)
        (if here then (a, l, d) else forged_entry q j)
put_entry q mes_i j a l d true e = rw e refl
put_entry q mes_i j a l d false e = rw e refl

next_message :
    {f f1 : Fifo} {metas metas1 : List SlotMeta} {b : List ℕ} (fifo_i k : ℕ)
    → MovesOn f f1 b
    → metas1 ≡ metas
    → message_at fifo_i f1 metas1 k ≡ message_at fifo_i f metas (suc k)
next_message {f} {f1} {metas} {metas1} fifo_i k on same =
    let slot : (f1.pull_ptr + k) % f1.max_size ≡ (f.pull_ptr + suc k) % f.max_size =
      ap₂ (λ p n. (p + k) % n) on.pull on.max ∙ sym (shift f.max_size f.pull_ptr k) in
    ap (λ i. message_in fifo_i f1.slot_size i metas1) slot
    ∙ ap (λ z. message_in fifo_i z ((f.pull_ptr + suc k) % f.max_size) metas1) on.size
    ∙ ap (message_in fifo_i f.slot_size ((f.pull_ptr + suc k) % f.max_size)) same

pub Forged-step :
    {f f1 : Fifo} {x : ℕ} {b : List ℕ} (h : Holds f (x ∷ b)) (h1 : Holds f1 b) (fifo_i mes_i : ℕ)
    {q q1 q2 : UniQp}
    → MovesOn f f1 b
    → Forged fifo_i mes_i 1 f h.metas q q1
    → Forged fifo_i (mes_i + 1) (length b) f1 h1.metas q1 q2
    → Forged fifo_i mes_i (suc (length b)) f h.metas q q2
Forged-step {f} {f1} {x} {b} h h1 fifo_i mes_i {q} {q1} {q2} on one rest = record {
  forged = all;
  earlier = λ j lt. rest.earlier j (omega (arith, lt)) ∙ one.earlier j lt;
}
  where
    all : (k : ℕ) → k < suc (length b) → forged_entry q2 (mes_i + k) ≡ message_at fifo_i f h.metas k
    all zero lt = rest.earlier (mes_i + 0) (omega arith) ∙ one.forged 0 (omega arith)
    all (suc k) lt =
        let same : h1.metas ≡ h.metas =
          some_injective (sym h1.has ∙ on.metas (omega (arith, lt)) ∙ h.has) in
        ap (forged_entry q2) (omega arith)
        ∙ rest.forged k (omega (arith, lt))
        ∙ next_message fifo_i k on same

-- ===== src/Network/Signals/Serve.antt =====
-- The completions that selective signalling waits for come.
use native.Mathlib.Nat.{mod-add-mod, mod-eq_of_lt, mod-lt, mod_self}
use odyssey_lib.Base.{
  Bool, Bool-cases, List, [], ap, arith, false, if◌then◌else◌, inl, inr, leb, ltb, refl, some,
  subst, suc, sym, u64, zero, ℕ, ◌%◌, ◌+◌, ◌-◌, ◌<◌, ◌==◌, ◌^◌, ◌∙◌, ◌∷◌, ◌≡◌, ◌≢◌, ◌≤◌,
}
use odyssey_lib.Fifo.Send.Queue.{sum}
use odyssey_lib.Network.{poll_send, selective_signaling_for_unicast}
use odyssey_lib.Network.Links.{bcast_signals}
use odyssey_lib.Network.Signals.{
  AtMost, Call, SendQueue, bcast_call, form_batch, form_batches, form_message, fresh, serve,
  unicast_call,
}

-- From the first message of a stretch of `ss_batch` up to the one with number `d` in it, one signaled
-- message is outstanding.
abbrev pub outstanding : ℕ → ℕ → ℕ
outstanding d r = if ltb 0 r then (if leb r d then 1 else 0) else 0

-- `r` is the number of the next message in its stretch, and `n` messages of the batch are formed.
pub record Outstanding (d n r : ℕ) (pending unposted : ℕ) : Type 0 where
  pub one : pending + unposted ≡ outstanding d r
  pub held : unposted ≡ (if leb r n then outstanding d r else 0)

module _ (ss d : ℕ) (some_d : 0 < d) (within : d < ss) where
  next_in : ℕ → ℕ
  next_in r = if r + 1 == ss then 0 else r + 1

  first-Outstanding :
      (n p u : ℕ) → n < d → Outstanding d n 0 p u → Outstanding d (n + 1) (next_in 0) p (u + 1)
  unfolding next_in
  first-Outstanding n p u lt o = record {
    one = ground (arith, o.one, some_d, within);
    held = ground (arith, o.one, some_d, within);
  }

  plain-Outstanding :
      (n r p u : ℕ)
      → n < d
      → 0 < r
      → r < ss
      → r ≢ d
      → Outstanding d n r p u
      → Outstanding d (n + 1) (next_in r) p u
  unfolding next_in
  plain-Outstanding n r p u lt pos inside ne o = record {
    one = ground (arith, o.one, o.held);
    held = ground (arith, o.one, o.held);
  }

  waited-Outstanding :
      (n p u : ℕ)
      → n < d
      → Outstanding d n d p u
      → (u ≡ 0) × (p ≡ 1) × Outstanding d (n + 1) (next_in d) 0 0
  unfolding next_in
  waited-Outstanding n p u lt o = (
    ground (arith, o.one, o.held),
    ground (arith, o.one, o.held),
    record { one = ground arith; held = ground arith },
  )

  next_number : (tx : ℕ) → (tx + 1) % ss ≡ next_in (tx % ss)
  unfolding next_in
  next_number tx = elim (Bool-cases (tx % ss + 1 == ss)) [
    | inl last ↦
        rw last (sym (mod-add-mod tx ss 1) ∙ ap (λ k. k % ss) (ground (arith, last)) ∙ mod_self ss)
    | inr before ↦ rw before (
        sym (mod-add-mod tx ss 1)
        ∙ mod-eq_of_lt (ground (arith, before, mod-lt tx {m = ss} (omega (arith, within)))))
  ]

-- Messages that are the first in their stretch are signaled, and those with number `d` in it wait.
abbrev pub Regular : ℕ → ℕ → Call → Type 0
Regular ss d call =
    (tx : ℕ)
    → tx + 1 < 2 ^ 64
    → call tx ≡ (tx % ss == 0, (if tx % ss == d then poll_send ∷ [] else []), tx + 1)

module _ (ss d : ℕ) (some_d : 0 < d) (within : d < ss) (call : Call)
    (regular : Regular ss d call) where
  abbrev pub Sound : ℕ → SendQueue → Type 0
  Sound n q = Outstanding d n (q.tx % ss) q.pending q.unposted

  form_message-Sound :
      (n : ℕ) (q : SendQueue)
      → n < d
      → q.tx + 1 < 2 ^ 64
      → Sound n q
      → (q' : SendQueue) × (form_message call q ≡ some q') × (q'.tx ≡ q.tx + 1) × Sound (n + 1) q'
  unfolding form_message serve
  form_message-Sound n q lt short o =
      let next = next_number ss d some_d within q.tx in
      let kept : (r p u : ℕ)
          → r ≡ q.tx % ss
          → Outstanding d (n + 1) (next_in ss d some_d within r) p u
          → Outstanding d (n + 1) ((q.tx + 1) % ss) p u =
        λ r p u e h.
          subst (λ k. Outstanding d (n + 1) k p u) (ap (next_in ss d some_d within) e ∙ sym next)
            h in
      elim (Bool-cases (q.tx % ss == 0)) [
        | inl head ↦
            let zero_r : q.tx % ss ≡ 0 = ground (arith, head) in
            let not_d : (q.tx % ss == d) ≡ false = ground (arith, head, some_d) in
            rw (regular q.tx short, head, not_d)
              (
                _,
                refl,
                refl,
                kept 0 _ _ (sym zero_r) (
                    first-Outstanding ss d some_d within n q.pending q.unposted lt
                      (subst (λ k. Outstanding d n k q.pending q.unposted) zero_r o)),
              )
        | inr later ↦ elim (Bool-cases (q.tx % ss == d)) [
          | inl waits ↦
              let is_d : q.tx % ss ≡ d = ground (arith, waits) in
              let (none_held, one_left, rest) =
                waited-Outstanding ss d some_d within n q.pending q.unposted lt
                  (subst (λ k. Outstanding d n k q.pending q.unposted) is_d o) in
              rw (regular q.tx short, later, waits, one_left, none_held)
                (_, refl, refl, kept d 0 0 (sym is_d) rest)
          | inr plain ↦
              rw (regular q.tx short, later, plain)
                (
                  _,
                  refl,
                  refl,
                  kept (q.tx % ss) q.pending q.unposted refl (
                      plain-Outstanding ss d some_d within n (q.tx % ss) q.pending q.unposted lt
                        (ground (arith, later)) (mod-lt q.tx (omega (arith, within)))
                        (ground (arith, plain)) o),
                )
        ]
      ]

  form_batch-Sound :
      (k n : ℕ) (q : SendQueue)
      → n + k ≤ d
      → q.tx + k < 2 ^ 64
      → Sound n q
      → (q' : SendQueue) × (form_batch call k q ≡ some q') × (q'.tx ≡ q.tx + k) × Sound 0 q'
  unfolding form_batch
  form_batch-Sound zero n q le short o =
      (_, refl, omega arith, record { one = ground (arith, o.one, o.held); held = ground arith })
  form_batch-Sound (suc k) n q le short o =
      let (q1, one, tx1, o1) =
        form_message-Sound n q (omega (arith, le)) (omega (arith, short)) o in
      let (q2, rest, tx2, o2) =
        form_batch-Sound k (n + 1) q1 (omega (arith, le)) (omega (arith, short, tx1)) o1 in
      (q2, rw one rest, omega (arith, tx1, tx2), o2)

  pub form_batches-Sound :
      (ns : List ℕ) (q : SendQueue)
      → AtMost d ns
      → q.tx + sum ns < 2 ^ 64
      → Sound 0 q
      → (q' : SendQueue) × (form_batches call ns q ≡ some q') × (q'.tx ≡ q.tx + sum ns) × Sound 0 q'
  unfolding form_batches
  form_batches-Sound [] q few short o = (q, refl, omega arith, o)
  form_batches-Sound (k ∷ ns) q few short o =
      let (q1, one, tx1, o1) =
        form_batch-Sound k 0 q (omega (arith, few.0)) (omega (arith, short)) o in
      let (q2, rest, tx2, o2) = form_batches-Sound ns q1 few.1 (omega (arith, short, tx1)) o1 in
      (q2, rw one rest, omega (arith, tx1, tx2), o2)

pub fresh-Sound :
    (ss d : ℕ) (some_d : 0 < d) (within : d < ss) (call : Call) (regular : Regular ss d call)
    → Sound ss d some_d within call regular 0 fresh
fresh-Sound ss d some_d within call regular =
    let z : 0 % ss ≡ 0 = mod-eq_of_lt (omega (arith, within)) in
    rw z (record { one = refl; held = refl })

pub unicast-Regular :
    (ss : ℕ) (allow_inline : Bool) → 1 < ss → Regular ss (ss - 1) (unicast_call ss allow_inline)
unfolding selective_signaling_for_unicast
unicast-Regular ss allow_inline two tx short =
    let e : u64 (tx + 1) ≡ tx + 1 = omega (arith, short) in rw e refl

pub bcast-Regular : (ss : ℕ) → 2 < ss → Regular ss (ss - 2) (bcast_call ss)
unfolding bcast_signals next_in
bcast-Regular ss three tx short =
    let e : u64 (tx + 1) ≡ tx + 1 = omega (arith, short) in
    let waits : ((tx + 1) % ss == ss - 1) ≡ (tx % ss == ss - 2) =
      rw (next_number ss (ss - 2) (omega (arith, three)) (omega (arith, three)) tx)
        (ground (arith, three, mod-lt tx {m = ss} (omega (arith, three)))) in
    rw (e, waits) refl

-- ===== src/Network/Receives.antt =====
-- The receives that are posted go round the slots of the buffer.
use native.Mathlib.Nat.{mod-add-mod, mod-eq_of_lt, mod-lt, mod_self}
use odyssey_lib.Base.{
  Bool, Bool-cases, List, [], ap, arith, assert_if-true, eq→==, false, get_elem?, if◌then◌else◌,
  none, Option, some, inl, inr, ltb, ltb→lt, lt→ltb, ne→==_false, refl, suc, sym, true, u16, u32,
  zero, ℕ, ℕ_discrete, ◌%◌, ◌*◌, ◌+◌, ◌-◌, ◌<◌, ◌==◌, ◌>>=◌, ◌^◌, ◌∙◌, ◌∷◌, ◌≡◌, ◌≤◌,
}
use odyssey_lib.Network.{
  RecvInfo, RecvWr, Verb, ctx_refill_recvs, mod_incr_32, post_loop, post_recv,
  post_recvs_with_recv_info, recv_addr,
}

-- the values of `f` at `n` numbers from `i` on
abbrev pub each {ℓ} : {A : Type ℓ} → ℕ → (ℕ → A) → ℕ → List A
each zero f i = []
each (suc n) f i = f i ∷ each n f (i + 1)

-- The buffers of the list of work requests that starts at `i`, in the order of its links. With more
-- than `fuel` requests, or a link to none that is in the array, it is none.
unfoldable pub linked_from : ℕ → List RecvWr → ℕ → Option (List ℕ)
linked_from zero recv_wr i = none
linked_from (suc fuel) recv_wr i = do
  (addr, next) ← get_elem? recv_wr i
  elim next [
    | none ↦ some (addr ∷ [])
    | some j ↦ do rest ← linked_from fuel recv_wr j; some (addr ∷ rest)
  ]

get_elem?-each :
    {A : Type 0} (n : ℕ) (f : ℕ → A) (i k : ℕ) → k < n → get_elem? (each n f i) k ≡ some (f (i + k))
get_elem?-each zero f i k lt = absurd (omega arith)
get_elem?-each (suc n) f i zero lt = ap (λ t. some (f t)) (omega arith)
get_elem?-each (suc n) f i (suc k) lt =
    get_elem?-each n f (i + 1) k (omega (arith, lt)) ∙ ap (λ t. some (f t)) (omega arith)

-- the work request `j` of `n`
abbrev work_request : (ℕ → ℕ) → ℕ → ℕ → RecvWr
work_request addr n j = (addr j, if j == n - 1 then none else some (j + 1))

request_at :
    (addr : ℕ → ℕ) (n i : ℕ) (last : Bool)
    → i < n
    → (i == n - 1) ≡ last
    → get_elem? (each n (work_request addr n) 0) i
      ≡ some (addr i, if last then none else some (i + 1))
request_at addr n i last lt e =
    get_elem?-each n (work_request addr n) 0 i lt
    ∙ ap (λ t. some (work_request addr n t)) (omega arith)
    ∙ ap (λ (b : Bool). some (addr i, if b then none else some (i + 1))) e

linked_from-each :
    (addr : ℕ → ℕ) (n m fuel i : ℕ)
    → i + suc m ≡ n
    → m < fuel
    → linked_from fuel (each n (work_request addr n) 0) i ≡ some (each (suc m) addr i)
unfolding linked_from
linked_from-each addr n m zero i e lt = absurd (omega arith)
linked_from-each addr n zero (suc fuel) i e lt =
    let end : (i == n - 1) ≡ true = eq→== i (n - 1) (omega (arith, e)) in
    rw (request_at addr n i true (omega (arith, e)) end) refl
linked_from-each addr n (suc m) (suc fuel) i e lt =
    let on : (i == n - 1) ≡ false = ne→==_false i (n - 1) (λ same. omega (arith, same, e)) in
    let rest = linked_from-each addr n m fuel (i + 1) (omega (arith, e)) (omega (arith, lt)) in
    rw (request_at addr n i false (omega (arith, e)) on, rest) refl

mod_incr_32_lem : (x n : ℕ) → x < n → n < 2 ^ 32 → mod_incr_32 x n ≡ (x + 1) % n
mod_incr_32_lem x n h k = elim (ℕ_discrete (x + 1) n) [
  | yes e ↦
      let small : u32 (x + 1) ≡ n = omega (arith, e) in
      rw (small, eq→== n n refl, e) (sym (mod_self n))
  | no ne ↦
      let small : u32 (x + 1) ≡ x + 1 = omega (arith, ne) in
      rw (small, ne→==_false (x + 1) n ne) (sym (mod-eq_of_lt (omega (arith, ne))))
]

pub record IsRing (r : RecvInfo) : Type 0 where
  pub inside : r.push_ptr < r.buf_slots
  pub small : r.buf_slots * r.slot_size < 2 ^ 32
  pub few : r.buf_slots < 2 ^ 32

module _ (r : RecvInfo) (v : IsRing r) where
  -- the address of the slot `k` behind the push pointer
  abbrev pub slot_behind : ℕ → ℕ
  slot_behind k = (r.push_ptr + k) % r.buf_slots * r.slot_size

  abbrev pub moved : ℕ → RecvInfo
  moved k = record r { push_ptr = (r.push_ptr + k) % r.buf_slots }

  moved-addr : (k : ℕ) → recv_addr (moved k) ≡ slot_behind k
  moved-addr k =
      let some_slots : ltb 0 r.buf_slots ≡ true = lt→ltb 0 r.buf_slots (omega (arith, v.inside)) in
      let lt : (r.push_ptr + k) % r.buf_slots < r.buf_slots =
        mod-lt (r.push_ptr + k) (omega (arith, v.inside)) in
      let small : slot_behind k < 2 ^ 32 = grind (arith, lt, v.small) in
      rw some_slots (mod-eq_of_lt small)

  moved-next :
      (k : ℕ)
      → mod_incr_32 ((r.push_ptr + k) % r.buf_slots) r.buf_slots
        ≡ (r.push_ptr + (k + 1)) % r.buf_slots
  moved-next k =
      mod_incr_32_lem _ r.buf_slots (mod-lt (r.push_ptr + k) (omega (arith, v.inside))) v.few
      ∙ mod-add-mod (r.push_ptr + k) r.buf_slots 1
      ∙ ap (λ t. t % r.buf_slots) (omega arith)

  post_loop-moved :
      (n j fuel recv_num : ℕ)
      → j + n ≡ recv_num
      → recv_num < 2 ^ 16
      → n < fuel
      → post_loop fuel recv_num j (moved j)
        ≡ some (moved recv_num, each n (work_request slot_behind recv_num) j)
  unfolding post_loop
  post_loop-moved n j zero recv_num e small h = absurd (omega arith)
  post_loop-moved zero j (suc fuel) recv_num e small h =
      let done : ltb j recv_num ≡ false = ground (arith, e) in
      let same : j ≡ recv_num = omega (arith, e) in rw done (ap (λ k. some (moved k, [])) same)
  post_loop-moved (suc n) j (suc fuel) recv_num e small h =
      let more : ltb j recv_num ≡ true = lt→ltb j recv_num (omega (arith, e)) in
      let next : u16 (j + 1) ≡ j + 1 = omega (arith, e, small) in
      rw
        (
          more,
          next,
          moved-next j,
          post_loop-moved n (j + 1) fuel recv_num (omega (arith, e)) small (omega (arith, h)),
          moved-addr j,
        )
        refl

  -- On a ring of fewer than 2^32 bytes, where fewer than 2^32 receives are posted in the end,
  -- `post_recvs_with_recv_info` of fewer than 65536 receives, and at least one, ends, passes its
  -- assertions, posts in one call work requests that lead from the first, by their links, over the
  -- slots from the push pointer on, in order and round the ring, and end there, and moves the push
  -- pointer and the number of posted receives on by as many.
  pub post_recvs_with_recv_info-posts :
      (assertions : Bool) (n : ℕ)
      → n < 2 ^ 16
      → 0 < n
      → r.posted_recvs + n < 2 ^ 32
      → (recv_wr : List RecvWr) × (post_recvs_with_recv_info assertions r n
          ≡ some (record (moved n) { posted_recvs = r.posted_recvs + n }, post_recv recv_wr ∷ []))
        × (linked_from n recv_wr 0 ≡ some (each n slot_behind 0))
  unfolding post_recvs_with_recv_info
  post_recvs_with_recv_info-posts assertions n small pos count =
      let start : moved 0 ≡ r =
        ap (λ p. record r { push_ptr = p })
          (ap (λ t. t % r.buf_slots) (omega arith) ∙ mod-eq_of_lt v.inside) in
      let loop : post_loop (n + 1) n 0 r ≡ some (moved n, each n (work_request slot_behind n) 0) =
        ap (post_loop (n + 1) n 0) (sym start)
        ∙ post_loop-moved n 0 (n + 1) n (omega arith) small (omega arith) in
      let number : ltb n 1_000_000_000 ≡ true = lt→ltb n 1_000_000_000 (omega (arith, small)) in
      let some_recvs : (n == 0) ≡ false = ne→==_false n 0 (omega (arith, pos)) in
      let counted : u32 (r.posted_recvs + n) ≡ r.posted_recvs + n = omega (arith, count) in
      let whole : suc (n - 1) ≡ n = omega (arith, pos) in
      let chain : linked_from n (each n (work_request slot_behind n) 0) 0
          ≡ some (each n slot_behind 0) =
        linked_from-each slot_behind n (n - 1) n 0 (omega (arith, pos)) (omega (arith, pos))
        ∙ ap (λ k. some (each k slot_behind 0)) whole in
      (_, rw (assert_if-true assertions number, some_recvs, loop, counted) refl, chain)

  -- after which no fewer receives are posted than there should be
  pub ctx_refill_recvs-refills :
      (assertions : Bool) (recv_wr_num : ℕ)
      → recv_wr_num < 2 ^ 16
      → (r' : RecvInfo) × (posts : List Verb) × (ctx_refill_recvs assertions recv_wr_num r
          ≡ some (r', posts))
        × IsRing r'
        × (recv_wr_num ≤ r'.posted_recvs)
  unfolding ctx_refill_recvs
  ctx_refill_recvs-refills assertions recv_wr_num small =
      elim (Bool-cases (ltb r.posted_recvs recv_wr_num)) [
        | inl fewer ↦
            let lt = ltb→lt r.posted_recvs recv_wr_num fewer in
            let (recv_wr, posted, chain) =
              post_recvs_with_recv_info-posts assertions (recv_wr_num - r.posted_recvs)
                (omega (arith, small)) (omega (arith, lt)) (omega (arith, lt, small)) in
            rw (fewer, posted)
              (
                _,
                _,
                refl,
                record {
                  inside =
                      mod-lt (r.push_ptr + (recv_wr_num - r.posted_recvs))
                        (omega (arith, v.inside));
                  small = v.small;
                  few = v.few;
                },
                omega (arith, lt),
              )
        | inr enough ↦ rw enough (_, _, refl, v, ground (arith, enough))
      ]

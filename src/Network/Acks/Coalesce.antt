-- ===== src/Network/Acks/Coalesce.antt =====
-- Adding messages to an ack.
use odyssey_lib.Base.{
  Bool, List, Option, [], ap, arith, assert_if, assert_if-true, eq→==, false, get_elem?,
  if◌then◌else◌, length, none, none-ne_some, refl, set, set-set, some, suc, true, u16, u32, u64,
  zero, ℕ, ◌+◌, ◌<◌, ◌==◌, ◌>>=◌, ◌^◌, ◌∙◌, ◌∷◌, ◌≡◌,
}
use odyssey_lib.Fifo.Send.Queue.{sum}
use odyssey_lib.Network.Acks.{Ack, ack_add, ack_not_yet_sent, ctx_ack_insert, op_ack}

-- One message after another, each about the given number of ids behind those of the one before
unfoldable pub insert_all : Bool → ℕ → ℕ → List ℕ → List Ack → Option (List Ack)
insert_all assertions m_id l_id [] acks = some acks
insert_all assertions m_id l_id (n ∷ ns) acks =
    ctx_ack_insert assertions acks n l_id m_id >>= λ (acks', inserted).
    (if inserted then insert_all assertions m_id (l_id + n) ns acks' else none)

-- the ack for `k` messages about `count` ids from `l_id` on
abbrev pub ack_for : ℕ → ℕ → ℕ → Ack → Ack
ack_for l_id count k ack = record ack {
  l_id = l_id;
  ack_num = count;
  credits = k;
  opcode = ack_not_yet_sent;
}

add_more :
    (assertions : Bool) (n l_id count k : ℕ) (ack : Ack)
    → l_id + (count + n) < 2 ^ 64
    → count + n < 2 ^ 32
    → k + 1 < 2 ^ 16
    → ack_add assertions n (l_id + count) (ack_for l_id count k ack)
      ≡ some (ack_for l_id (count + n) (k + 1) ack, true)
add_more assertions n l_id count k ack wide few some_k =
    let same : u64 (l_id + count) ≡ l_id + count = omega (arith, wide) in
    let sum32 : u32 (count + n) ≡ count + n = omega (arith, few) in
    let one : u16 (k + 1) ≡ k + 1 = omega (arith, some_k) in
    let eq = eq→== (l_id + count) (l_id + count) refl in
    let fine = assert_if-true assertions eq in
    elim assertions
        as (λ a.
          assert_if a ((l_id + count) == (l_id + count)) ≡ some tt
          → ack_add a n (l_id + count) (ack_for l_id count k ack)
            ≡ some (ack_for l_id (count + n) (k + 1) ack, true)) [
              | true ↦ λ f. rw (same, eq, sum32, one) refl
              | false ↦ λ f. rw (sum32, one) refl
            ]
      fine

module _ (assertions : Bool) (m_id : ℕ) where
  get_elem?-set_self :
      (acks : List Ack) (i : ℕ) (v : Ack) {u : Ack}
      → get_elem? acks i ≡ some u
      → get_elem? (set acks i v) i ≡ some v
  get_elem?-set_self [] i v h = absurd (none-ne_some h)
  get_elem?-set_self (a ∷ acks) zero v h = refl
  get_elem?-set_self (a ∷ acks) (suc i) v h = get_elem?-set_self acks i v h

  insert_rest :
      (ns : List ℕ) (l_id count k : ℕ) (acks : List Ack) (ack : Ack)
      → l_id + (count + sum ns) < 2 ^ 64
      → count + sum ns < 2 ^ 32
      → k + length ns < 2 ^ 16
      → get_elem? acks m_id ≡ some ack
      → insert_all assertions m_id (l_id + count) ns (set acks m_id (ack_for l_id count k ack))
        ≡ some (set acks m_id (ack_for l_id (count + sum ns) (k + length ns) ack))
  unfolding insert_all ctx_ack_insert
  insert_rest [] l_id count k acks ack wide few some_k has =
      let c : count ≡ count + 0 = omega arith in
      let e : k ≡ k + 0 = omega arith in
      ap (λ x. some (set acks m_id (ack_for l_id x k ack))) c
      ∙ ap (λ y. some (set acks m_id (ack_for l_id (count + 0) y ack))) e
  insert_rest (n ∷ ns) l_id count k acks ack wide few some_k has =
      let add =
        add_more assertions n l_id count k ack (omega (arith, wide)) (omega (arith, few))
          (omega (arith, some_k)) in
      let found = get_elem?-set_self acks m_id (ack_for l_id count k ack) has in
      let rest =
        insert_rest ns l_id (count + n) (k + 1) acks ack (omega (arith, wide)) (omega (arith, few))
          (omega (arith, some_k)) has in
      let at : l_id + count + n ≡ l_id + (count + n) = omega arith in
      let total : count + n + sum ns ≡ count + (n + sum ns) = omega arith in
      let many : k + 1 + length ns ≡ k + suc (length ns) = omega arith in
      let here =
        set-set acks m_id (ack_for l_id count k ack) (ack_for l_id (count + n) (k + 1) ack) in
      rw (found, add, here, at, ← total, ← many) rest

  -- Messages about consecutive ids, from `l_id` on, that are added to an ack that was sent, make one ack
  -- for all of them that counts each message, with no gap found and no assertion failed, if the last id
  -- fits 64 bits, the number of ids 32 and the number of messages 16. The acks of the other machines
  -- stay as they are.
  pub ctx_ack_insert-Coalesces :
      (n : ℕ) (ns : List ℕ) (l_id : ℕ) (acks : List Ack) (ack : Ack)
      → l_id + sum (n ∷ ns) < 2 ^ 64
      → sum (n ∷ ns) < 2 ^ 32
      → length (n ∷ ns) < 2 ^ 16
      → get_elem? acks m_id ≡ some ack
      → ack.opcode ≡ op_ack
      → insert_all assertions m_id l_id (n ∷ ns) acks
        ≡ some (set acks m_id (ack_for l_id (sum (n ∷ ns)) (length (n ∷ ns)) ack))
  unfolding insert_all ctx_ack_insert
  ctx_ack_insert-Coalesces n ns l_id acks ack wide few some_k has sent =
      let is_sent = eq→== ack.opcode op_ack sent in
      let start_ack : ack_add assertions n l_id ack ≡ some (ack_for l_id n 1 ack, true) =
        elim assertions as (λ a. ack_add a n l_id ack ≡ some (ack_for l_id n 1 ack, true)) [
          | true ↦ rw is_sent refl
          | false ↦ rw is_sent refl
        ] in
      let one : 1 + length ns ≡ suc (length ns) = omega arith in
      rw (has, start_ack, ← one)
        (insert_rest ns l_id n 1 acks ack wide few (omega (arith, some_k)) has)

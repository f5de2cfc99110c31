-- ===== src/Treiber/Stages.antt =====
-- Where a session of client/od_client.c's Treiber stacks stands, and what its local variables say
-- about the store.
use odyssey_lib.Base.{
  Bool, List, Option, [], ap, ap₂, arith, false, inl, inr, none, some, subst, sym, true, ℕ, ◌+◌,
  ◌<◌, ◌∙◌, ◌∷◌, ◌≡◌, ◌≤◌, ◌⊎◌,
}
use odyssey_lib.Treiber.{
  PushOrPull, SessInfo, StoreOp, Top, TrState, cas, max_tr_node_key, popping, pushing, read_node,
  read_top, tr_init, tr_key_offset, tr_read_first, tr_read_top, write_node,
}
use odyssey_lib.Treiber.Run.{Store}

-- The node key that a session has to itself: what it will push, or has popped.
abbrev pub holds : PushOrPull → Bool → SessInfo → Option ℕ
holds pushing false x = some x.owned_key
holds popping true x = some x.top.key_id
holds _ _ x = none

abbrev pub hold : SessInfo → Option ℕ
hold x = holds x.push_or_pull_state x.success x

abbrev pub tally : Top → ℕ
tally t = t.pop_counter + t.push_counter

-- the counters and the first key of a top that the store held after at most `n` changes
pub record Fit (n : ℕ) (t : Top) : Type 0 where
  pub pops : t.pop_counter ≤ t.push_counter
  pub pushes : t.push_counter ≤ n
  pub when_empty : t.push_counter ≡ t.pop_counter → t.key_id ≡ 0
  pub when_full :
      t.pop_counter < t.push_counter → (tr_key_offset ≤ t.key_id) × (t.key_id ≤ max_tr_node_key)

-- The session has read the top of its stack.
pub record SeenAt (changes : ℕ) (now top : Top) : Type 0 where
  pub fit : Fit changes top
  pub older : tally top ≤ tally now

abbrev pub Seen : Store → SessInfo → Type 0
Seen m x = SeenAt m.changes (m.tops x.stack_id) x.top

-- The session has read a top that it can pop.
pub record PoppableAt (changes : ℕ) (now top : Top) (last_pushed_counter : ℕ) : Type 0 where
  pub seen : SeenAt changes now top
  pub low : tr_key_offset ≤ top.key_id
  pub kept : last_pushed_counter ≤ top.push_counter

abbrev pub Poppable : Store → SessInfo → Type 0
Poppable m x = PoppableAt m.changes (m.tops x.stack_id) x.top x.last_pushed_counter

-- While the top is the one that the session read, its first node points to `next`.
abbrev pub Fresh : Store → SessInfo → ℕ → Type 0
Fresh m x next = m.tops x.stack_id ≡ x.top → (m.nodes x.top.key_id).next_key_id ≡ next

abbrev pub At : SessInfo → PushOrPull → TrState → Bool → Type 0
At x phase st ok = (x.push_or_pull_state ≡ phase) × (x.state ≡ st) × (x.success ≡ ok)

abbrev pub PushesTop : SessInfo → Type 0
PushesTop x =
    (x.new_top.pop_counter ≡ x.top.pop_counter)
    × (x.new_top.push_counter ≡ x.top.push_counter + 1)
    × (x.new_top.key_id ≡ x.owned_key)

abbrev pub PopsTop : SessInfo → Type 0
PopsTop x =
    (x.new_top.pop_counter ≡ x.top.pop_counter + 1) × (x.new_top.push_counter ≡ x.top.push_counter)

-- The places of a session between two steps, with the requests that are not performed yet.
pub data Stage (m : Store) (x : SessInfo) (q : List StoreOp) : Type 0 where
  at_push_start : At x pushing tr_init false → q ≡ [] → Stage m x q
  at_push_read : At x pushing tr_read_top false → q ≡ read_top x.stack_id ∷ [] → Stage m x q
  at_push_ready : At x pushing tr_read_top false → q ≡ [] → Seen m x → Stage m x q
  at_push_write :
      At x pushing tr_read_top false
      → q ≡ write_node x.owned_key x.new_node ∷ cas x.stack_id x.top x.new_top ∷ []
      → Seen m x
      → PushesTop x
      → x.new_node.next_key_id ≡ x.top.key_id
      → Stage m x q
  at_push_cas :
      At x pushing tr_read_top false
      → q ≡ cas x.stack_id x.top x.new_top ∷ []
      → Seen m x
      → PushesTop x
      → (m.nodes x.owned_key).next_key_id ≡ x.top.key_id
      → Stage m x q
  at_push_end :
      At x pushing tr_read_top true
      → q ≡ []
      → Fit m.changes x.top
      → x.new_top.push_counter ≤ (m.tops x.stack_id).push_counter
      → Stage m x q
  at_pop_start :
      At x popping tr_init false
      → q ≡ []
      → x.last_pushed_counter ≤ (m.tops x.stack_id).push_counter
      → Stage m x q
  at_pop_read :
      At x popping tr_read_top false
      → q ≡ read_top x.stack_id ∷ []
      → x.last_pushed_counter ≤ (m.tops x.stack_id).push_counter
      → Stage m x q
  at_pop_ready :
      At x popping tr_read_top false
      → q ≡ []
      → x.last_pushed_counter ≤ (m.tops x.stack_id).push_counter
      → Poppable m x
      → Stage m x q
  at_pop_node :
      At x popping tr_read_first false
      → q ≡ read_node x.top.key_id ∷ []
      → x.last_pushed_counter ≤ (m.tops x.stack_id).push_counter
      → Poppable m x
      → Stage m x q
  at_pop_first :
      At x popping tr_read_first false
      → q ≡ []
      → x.last_pushed_counter ≤ (m.tops x.stack_id).push_counter
      → Poppable m x
      → Fresh m x x.new_node.next_key_id
      → Stage m x q
  at_pop_cas :
      At x popping tr_read_top false
      → q ≡ cas x.stack_id x.top x.new_top ∷ []
      → x.last_pushed_counter ≤ (m.tops x.stack_id).push_counter
      → Poppable m x
      → Fresh m x x.new_top.key_id
      → PopsTop x
      → Stage m x q
  at_pop_end : At x popping tr_read_top true → q ≡ [] → Poppable m x → Stage m x q

pub At-hold :
    (x : SessInfo) {phase : PushOrPull} {st : TrState} {ok : Bool}
    → At x phase st ok
    → hold x ≡ holds phase ok x
At-hold x (p, _, ok) = ap₂ (λ a b. holds a b x) p ok

-- What the steps of other sessions leave of the store for a session.
pub record Later (m m' : Store) (x : SessInfo) : Type 0 where
  pub grown : m.changes ≤ m'.changes
  pub pushed_on : (m.tops x.stack_id).push_counter ≤ (m'.tops x.stack_id).push_counter
  pub moved :
      (m'.tops x.stack_id ≡ m.tops x.stack_id)
      ⊎ (tally (m.tops x.stack_id) < tally (m'.tops x.stack_id))
  pub own : (k : ℕ) → hold x ≡ some k → m'.nodes k ≡ m.nodes k
  pub first :
      tr_key_offset ≤ (m.tops x.stack_id).key_id
      → m'.nodes (m.tops x.stack_id).key_id ≡ m.nodes (m.tops x.stack_id).key_id

module _ {m m' : Store} {x : SessInfo} (l : Later m m' x) where
  Fit-Later : Fit m.changes x.top → Fit m'.changes x.top
  Fit-Later f = record {
    pops = f.pops;
    pushes = omega (arith, f.pushes, l.grown);
    when_empty = f.when_empty;
    when_full = f.when_full;
  }

  tally-Later : tally (m.tops x.stack_id) ≤ tally (m'.tops x.stack_id)
  tally-Later = elim l.moved [
    | inl same ↦ omega (arith, ap tally same)
    | inr more ↦ omega (arith, more)
  ]

  Seen-Later : Seen m x → Seen m' x
  Seen-Later s = record { fit = Fit-Later s.fit; older = omega (arith, s.older, tally-Later) }

  Poppable-Later : Poppable m x → Poppable m' x
  Poppable-Later p = record { seen = Seen-Later p.seen; low = p.low; kept = p.kept }

  Fresh-Later : (next : ℕ) → Poppable m x → Fresh m x next → Fresh m' x next
  Fresh-Later next p f e = elim l.moved [
    | inl same ↦
        let was : m.tops x.stack_id ≡ x.top = sym same ∙ e in
        let node : m'.nodes x.top.key_id ≡ m.nodes x.top.key_id =
          subst (λ t. tr_key_offset ≤ t.key_id → m'.nodes t.key_id ≡ m.nodes t.key_id) was l.first
            p.low in
        ap (λ n. n.next_key_id) node ∙ f was
    | inr more ↦ absurd (omega (arith, more, ap tally e, p.seen.older))
  ]

  -- A session stands where it stood.
  pub Stage-Later : {q : List StoreOp} → Stage m x q → Stage m' x q
  Stage-Later (at_push_start a e) = at_push_start a e
  Stage-Later (at_push_read a e) = at_push_read a e
  Stage-Later (at_push_ready a e s) = at_push_ready a e (Seen-Later s)
  Stage-Later (at_push_write a e s t n) = at_push_write a e (Seen-Later s) t n
  Stage-Later (at_push_cas a e s t n) =
      at_push_cas a e (Seen-Later s) t
        (ap (λ c. c.next_key_id) (l.own x.owned_key (At-hold x a)) ∙ n)
  Stage-Later (at_push_end a e f b) = at_push_end a e (Fit-Later f) (omega (arith, b, l.pushed_on))
  Stage-Later (at_pop_start a e b) = at_pop_start a e (omega (arith, b, l.pushed_on))
  Stage-Later (at_pop_read a e b) = at_pop_read a e (omega (arith, b, l.pushed_on))
  Stage-Later (at_pop_ready a e b p) =
      at_pop_ready a e (omega (arith, b, l.pushed_on)) (Poppable-Later p)
  Stage-Later (at_pop_node a e b p) =
      at_pop_node a e (omega (arith, b, l.pushed_on)) (Poppable-Later p)
  Stage-Later (at_pop_first a e b p f) =
      at_pop_first a e (omega (arith, b, l.pushed_on)) (Poppable-Later p) (Fresh-Later _ p f)
  Stage-Later (at_pop_cas a e b p f t) =
      at_pop_cas a e (omega (arith, b, l.pushed_on)) (Poppable-Later p) (Fresh-Later _ p f) t
  Stage-Later (at_pop_end a e p) = at_pop_end a e (Poppable-Later p)

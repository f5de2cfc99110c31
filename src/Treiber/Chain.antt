-- ===== src/Treiber/Chain.antt =====
-- The lists that the nodes of client/od_client.c's Treiber stacks form in the store.
use odyssey_lib.Base.{
  Bool, List, [], ap, arith, false, length, subst, sym, true, ℕ, ◌<◌, ◌==◌, ◌||◌, ◌∷◌, ◌≡◌, ◌≤◌,
}
use odyssey_lib.Treiber.{Node, max_tr_node_key, tr_key_offset}

abbrev pub has : ℕ → List ℕ → Bool
has k [] = false
has k (x ∷ xs) = (k == x) || has k xs

-- From `key` the `next_key_id`s lead through the distinct node keys of the list to 0.
abbrev pub Chain : (ℕ → Node) → ℕ → List ℕ → Type 0
Chain nodes key [] = key ≡ 0
Chain nodes key (k ∷ ks) =
    (key ≡ k)
    × (tr_key_offset ≤ k)
    × (k ≤ max_tr_node_key)
    × (has k ks ≡ false)
    × Chain nodes (nodes k).next_key_id ks

-- A chain survives any change that spares its own nodes.
pub Chain-frame :
    {nodes nodes' : ℕ → Node} (key : ℕ) (ks : List ℕ)
    → ((k : ℕ) → has k ks ≡ true → nodes' k ≡ nodes k)
    → Chain nodes key ks
    → Chain nodes' key ks
Chain-frame key [] same c = c
Chain-frame {nodes} {nodes'} key (x ∷ xs) same (e, low, high, new, rest) = (
  e,
  low,
  high,
  new,
  let tail : Chain nodes' (nodes x).next_key_id xs =
        Chain-frame _ xs (λ k h. same k (ground arith)) rest in
      let here : nodes' x ≡ nodes x = same x (ground arith) in
      subst (λ n. Chain nodes' n.next_key_id xs) (sym here) tail,
)

-- The first key of a chain, by its length.
pub Chain-empty :
    (nodes : ℕ → Node) (key : ℕ) (ks : List ℕ) → Chain nodes key ks → length ks ≡ 0 → key ≡ 0
Chain-empty nodes key [] c e = c
Chain-empty nodes key (x ∷ xs) c e = absurd (omega arith)

pub Chain-first :
    (nodes : ℕ → Node) (key : ℕ) (ks : List ℕ)
    → Chain nodes key ks
    → 0 < length ks
    → (tr_key_offset ≤ key) × (key ≤ max_tr_node_key) × (has key ks ≡ true)
Chain-first nodes key [] c h = absurd (omega arith)
Chain-first nodes key (x ∷ xs) (e, low, high, _, _) h = (omega arith, omega arith, ground arith)

pub Chain-some :
    (nodes : ℕ → Node) (key : ℕ) (ks : List ℕ)
    → Chain nodes key ks
    → tr_key_offset ≤ key
    → has key ks ≡ true
Chain-some nodes key [] c h = absurd (omega arith)
Chain-some nodes key (x ∷ xs) (e, _, _, _, _) h = ground arith

pub Chain-cons :
    (nodes : ℕ → Node) (key : ℕ) (ks : List ℕ)
    → Chain nodes key ks
    → tr_key_offset ≤ key
    → (rest : List ℕ) × (ks ≡ key ∷ rest)
Chain-cons nodes key [] c h = absurd (omega arith)
Chain-cons nodes key (x ∷ xs) (e, _, _, _, _) h = (xs, ap (λ k. k ∷ xs) (sym e))

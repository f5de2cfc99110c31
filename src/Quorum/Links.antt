-- ===== src/Quorum/Links.antt =====
-- `update_bcast_wr_links` links the work requests of the active machines.
use odyssey_lib.Base.{
  Bool, List, Option, [], false, get_or, if◌then◌else◌, length, map, none, refl, some, subst, suc,
  sym, true, true-ne_false, zero, ℕ, ◌*◌, ◌+◌, ◌||◌, ◌∷◌, ◌≡◌,
}
use odyssey_lib.Config.{machine_num, rem_mach_num}
use odyssey_lib.Quorum.{QuorumInfo, link_batches, link_loop, update_bcast_wr_links}

-- The remote ids from `i` on that the vector marks as active.
abbrev pub active_rm_ids : List Bool → ℕ → List ℕ
active_rm_ids [] i = []
active_rm_ids (b ∷ bs) i = if b then i ∷ active_rm_ids bs (i + 1) else active_rm_ids bs (i + 1)

-- The work requests met in following `next` from `i`, at most `n`.
abbrev pub posted : ℕ → (ℕ → Option ℕ) → Option ℕ → List ℕ
posted zero wr o = []
posted (suc n) wr none = []
posted (suc n) wr (some i) = i ∷ posted n wr (wr i)

abbrev pub in_batch : ℕ → List Bool → List ℕ
in_batch j v = map (λ i. rem_mach_num * j + i) (active_rm_ids v 0)

-- Batch 0 ends after the active machines, and the others have a prefix that is theirs.
abbrev pub Linked : List Bool → (ℕ → Option ℕ) → Type 0
Linked v wr =
    let first = get_or (active_rm_ids v 0) 0 0 in
    let num = length (active_rm_ids v 0) in
    (posted machine_num wr (some first) ≡ in_batch 0 v)
    × (posted num wr (some (rem_mach_num + first)) ≡ in_batch 1 v)
    × (posted num wr (some (rem_mach_num * 2 + first)) ≡ in_batch 2 v)
    × (posted num wr (some (rem_mach_num * 3 + first)) ≡ in_batch 3 v)

link_loop-Linked :
    (a b c d : Bool) (wr : ℕ → Option ℕ)
    → (a || b || c || d) ≡ true
    → Linked (a ∷ b ∷ c ∷ d ∷ []) (link_loop (a ∷ b ∷ c ∷ d ∷ []) rem_mach_num 0 0 0 wr)
unfolding link_loop link_batches
link_loop-Linked true true true true wr active = (refl, refl, refl, refl)
link_loop-Linked true true true false wr active = (refl, refl, refl, refl)
link_loop-Linked true true false true wr active = (refl, refl, refl, refl)
link_loop-Linked true true false false wr active = (refl, refl, refl, refl)
link_loop-Linked true false true true wr active = (refl, refl, refl, refl)
link_loop-Linked true false true false wr active = (refl, refl, refl, refl)
link_loop-Linked true false false true wr active = (refl, refl, refl, refl)
link_loop-Linked true false false false wr active = (refl, refl, refl, refl)
link_loop-Linked false true true true wr active = (refl, refl, refl, refl)
link_loop-Linked false true true false wr active = (refl, refl, refl, refl)
link_loop-Linked false true false true wr active = (refl, refl, refl, refl)
link_loop-Linked false true false false wr active = (refl, refl, refl, refl)
link_loop-Linked false false true true wr active = (refl, refl, refl, refl)
link_loop-Linked false false true false wr active = (refl, refl, refl, refl)
link_loop-Linked false false false true wr active = (refl, refl, refl, refl)
link_loop-Linked false false false false wr active = absurd (true-ne_false (sym active))

-- Without multicast, when the send vector marks a machine, following the work requests from the
-- first active machine's after `update_bcast_wr_links` meets those of the active machines, in order:
-- in batch 0 these and no more, in batches 1 to 3 these first.
pub update_bcast_wr_links-Linked :
    (a b c d : Bool) (q : QuorumInfo) (wr : ℕ → Option ℕ)
    → q.send_vector ≡ a ∷ b ∷ c ∷ d ∷ []
    → (a || b || c || d) ≡ true
    → Linked q.send_vector (update_bcast_wr_links false q wr)
unfolding update_bcast_wr_links
update_bcast_wr_links-Linked a b c d q wr e active =
    subst (λ v. Linked v (link_loop v rem_mach_num 0 0 0 wr)) (sym e)
      (link_loop-Linked a b c d wr active)

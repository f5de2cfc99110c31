-- ===== src/Timestamps/Order.antt =====
-- The comparisons decide the lexicographic order of version and machine.
use odyssey_lib.Base.{
  Bool, arith, if◌then◌else◌, inl, ltb, refl, some, ℕ, ◌<◌, ◌==◌, ◌↔◌, ◌≡◌, ◌≢◌, ◌⊎◌,
}
use odyssey_lib.Timestamps.{
  Compare, TsTuple, assign_netw_ts_to_ts, assign_ts_to_netw_ts, compare_carts,
  compare_carts_esoteric, compare_flat_ts, compare_netw_ts, compare_netw_ts_with_ts, compare_ts,
  compare_ts_with_flat, compare_ts_with_netw_ts, equal, error, greater, smaller,
}

-- A pair before another: the version first, then the machine.
abbrev pub Before : ℕ → ℕ → ℕ → ℕ → Type 0
Before version1 m_id1 version2 m_id2 =
    (version1 < version2) ⊎ ((version1 ≡ version2) × (m_id1 < m_id2))

-- What a comparison says of two pairs.
abbrev pub Says : Compare → ℕ → ℕ → ℕ → ℕ → Type 0
Says smaller v1 m1 v2 m2 = Before v1 m1 v2 m2
Says equal v1 m1 v2 m2 = (v1 ≡ v2) × (m1 ≡ m2)
Says greater v1 m1 v2 m2 = Before v2 m2 v1 m1
Says error v1 m1 v2 m2 = ⊥

-- Every answer of `compare_ts` is right, and none is ERROR.
pub compare_ts-Says :
    (ts1 ts2 : TsTuple) → Says (compare_ts ts1 ts2) ts1.version ts1.m_id ts2.version ts2.m_id
unfolding compare_ts
compare_ts-Says ts1 ts2 = ground arith

abbrev pub flip : Compare → Compare
flip smaller = greater
flip greater = smaller
flip equal = equal
flip error = error

-- Swapping the arguments swaps SMALLER and GREATER.
pub compare_ts_swap : (ts1 ts2 : TsTuple) → compare_ts ts2 ts1 ≡ flip (compare_ts ts1 ts2)
unfolding compare_ts
compare_ts_swap ts1 ts2 = ground arith

-- EQUAL means the same timestamp, and SMALLER is transitive: with the swap law, a total order.
pub compare_ts_order :
    (ts1 ts2 ts3 : TsTuple)
    → ((compare_ts ts1 ts2 ≡ equal) ↔ (ts1 ≡ ts2))
      × (compare_ts ts1 ts2 ≡ smaller → compare_ts ts2 ts3 ≡ smaller → compare_ts ts1 ts3 ≡ smaller)
      × (compare_ts ts2 ts1 ≡ flip (compare_ts ts1 ts2))
unfolding compare_ts
compare_ts_order ts1 ts2 ts3 =
    (((λ h. ground arith), (λ h. ground arith)), (λ h k. ground arith), compare_ts_swap ts1 ts2)

-- The six comparisons agree: each is that of the pairs of version and machine that it is given.
pub compare_agree :
    (ts1 ts2 : TsTuple)
    → let n1 = assign_ts_to_netw_ts ts1 in
      let n2 = assign_ts_to_netw_ts ts2 in
      (compare_netw_ts n1 n2 ≡ compare_ts ts1 ts2)
      × (compare_netw_ts_with_ts n1 ts2 ≡ compare_ts ts1 ts2)
      × (compare_ts_with_netw_ts ts1 n2 ≡ compare_ts ts1 ts2)
      × (compare_ts_with_flat ts1 ts2.version ts2.m_id ≡ compare_ts ts1 ts2)
      × (compare_flat_ts ts1.version ts1.m_id ts2.version ts2.m_id ≡ compare_ts ts1 ts2)
      × (assign_netw_ts_to_ts n1 ≡ ts1)
unfolding compare_ts compare_netw_ts compare_netw_ts_with_ts compare_ts_with_netw_ts
    compare_ts_with_flat compare_flat_ts assign_ts_to_netw_ts assign_netw_ts_to_ts
compare_agree ts1 ts2 = (refl, refl, refl, refl, refl, refl)

-- What a comparison of timestamps makes of two log numbers.
abbrev carts_of : Compare → ℕ → ℕ → Compare
carts_of equal log1 log2 =
    if ltb log2 log1 then greater else if log1 == log2 then equal else smaller
carts_of c log1 log2 = c

abbrev Carts : Compare → Compare → ℕ → ℕ → Type 0
Carts c ts log1 log2 =
    ((c ≡ equal) ↔ ((ts ≡ equal) × (log1 ≡ log2)))
    × ((c ≡ smaller) ↔ ((ts ≡ smaller) ⊎ ((ts ≡ equal) × (log1 < log2))))
    × (c ≢ error)

esoteric-Carts :
    (b : Bool) (ts : Compare) (log1 log2 : ℕ)
    → ts ≢ error
    → (compare_carts_esoteric b ts log1 log2 ≡ some (carts_of ts log1 log2))
      × Carts (carts_of ts log1 log2) ts log1 log2
unfolding compare_carts_esoteric
esoteric-Carts b equal log1 log2 ne = (
  refl,
  (
    ((λ h. ground arith), (λ h. ground arith)),
    ((λ h. ground arith), (λ h. ground arith)),
    (λ h. ground arith),
  ),
)
esoteric-Carts b smaller log1 log2 ne =
    (refl, (((λ h. cc), (λ h. cc)), ((λ h. inl refl), (λ h. refl)), (λ h. cc)))
esoteric-Carts b greater log1 log2 ne =
    (refl, (((λ h. cc), (λ h. cc)), ((λ h. cc), (λ h. ground arith)), (λ h. cc)))
esoteric-Carts b error log1 log2 ne = absurd (ne refl)

compare_ts-ne-error : (ts1 ts2 : TsTuple) → compare_ts ts1 ts2 ≢ error
unfolding compare_ts
compare_ts-ne-error ts1 ts2 h = ground arith

-- `compare_carts` compares the timestamps first and the log numbers last; it never aborts.
pub compare_carts-Carts :
    (b : Bool) (ts1 ts2 : TsTuple) (log1 log2 : ℕ)
    → (c : Compare) × (compare_carts b ts1 log1 ts2 log2 ≡ some c)
      × ((c ≡ equal) ↔ ((compare_ts ts1 ts2 ≡ equal) × (log1 ≡ log2)))
      × ((c ≡ smaller)
          ↔ ((compare_ts ts1 ts2 ≡ smaller) ⊎ ((compare_ts ts1 ts2 ≡ equal) × (log1 < log2))))
      × (c ≢ error)
unfolding compare_carts
compare_carts-Carts b ts1 ts2 log1 log2 =
    let (run, (eq, lt, ne)) =
      esoteric-Carts b (compare_ts ts1 ts2) log1 log2 (compare_ts-ne-error ts1 ts2) in
    (carts_of (compare_ts ts1 ts2) log1 log2, run, eq, lt, ne)

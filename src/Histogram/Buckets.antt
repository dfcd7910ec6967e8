-- ===== src/Histogram/Buckets.antt =====
-- What the buckets and the sums of a histogram of src/core/metrics.cpp say of its observations.
use distributed_job_engine.Prelude.{
  ℕ, zero, suc, ◌+◌, ◌-◌, ◌≤◌, ◌<◌, ◌≡◌, refl, ◌∙◌, ◌⊎◌, inl, inr, ◌&&◌, false, List, [], ◌∷◌, ltb,
  ◌==◌, if◌then◌else◌, All, length, get_elem?, some, arith, Bool-cases,
}
use distributed_job_engine.Histogram.{
  bucket_limit, bucket_upper_us, search_bucket, bucket_index, Histogram, bump, observe, zeros,
  reset,
}

-- Bucket `i` covers (upper (i - 1), upper i]; the last has no upper edge, the first no lower one.
abbrev pub Covers : ℕ → ℕ → Type 0
Covers us i =
    (i < bucket_limit)
    × ((us ≤ bucket_upper_us i) ⊎ (suc i ≡ bucket_limit))
    × ((i ≡ 0) ⊎ (bucket_upper_us (i - 1) < us))

stop_edge :
    (idx us : ℕ)
    → idx < bucket_limit
    → (ltb (idx + 1) bucket_limit && ltb (bucket_upper_us idx) us) ≡ false
    → (us ≤ bucket_upper_us idx) ⊎ (suc idx ≡ bucket_limit)
stop_edge idx us h off = elim (Bool-cases (ltb (idx + 1) bucket_limit)) [
  | inl more ↦ inl (ground (arith, more, off))
  | inr last ↦ inr (ground (arith, last, h))
]

search_bucket_lem :
    (fuel idx us : ℕ)
    → idx < bucket_limit
    → bucket_limit ≤ idx + fuel
    → (idx ≡ 0) ⊎ (bucket_upper_us (idx - 1) < us)
    → Covers us (search_bucket fuel idx us)
unfolding search_bucket
search_bucket_lem zero idx us h enough low = absurd (omega (arith, h, enough))
search_bucket_lem (suc fuel) idx us h enough low =
    elim (Bool-cases (ltb (idx + 1) bucket_limit && ltb (bucket_upper_us idx) us)) [
      | inl on ↦ rw on (
          search_bucket_lem fuel (suc idx) us (ground (arith, on)) (omega (arith, enough))
            (inr (ground (arith, on))))
      | inr off ↦ rw off (h, stop_edge idx us h off, low)
    ]

-- An observation is counted in the bucket whose range it is in: above the upper edge of the bucket
-- before, and at most the upper edge of its own, except in the last bucket, which has no upper edge.
pub bucket_index-Covers : (us : ℕ) → Covers us (bucket_index us)
unfolding bucket_index
bucket_index-Covers us = search_bucket_lem bucket_limit 0 us (omega arith) (omega arith) (inl refl)

unfoldable pub observe_all : List ℕ → Histogram
observe_all [] = reset
observe_all (us ∷ more) = observe us (observe_all more)

unfoldable pub total_of : List ℕ → ℕ
total_of [] = 0
total_of (x ∷ xs) = x + total_of xs

-- How many of the observations fall in bucket `i`.
unfoldable pub falls_in : ℕ → List ℕ → ℕ
falls_in i [] = 0
falls_in i (us ∷ more) =
    let rest = falls_in i more in if bucket_index us == i then suc rest else rest

get-bump :
    (i j : ℕ) (bs : List ℕ) (b : ℕ)
    → get_elem? bs j ≡ some b
    → get_elem? (bump i bs) j ≡ some (if i == j then suc b else b)
unfolding bump
get-bump i j [] b h = absurd (ground (arith, h))
get-bump zero zero (x ∷ bs) b h = ground (arith, h)
get-bump zero (suc j) (x ∷ bs) b h = ground (arith, h)
get-bump (suc i) zero (x ∷ bs) b h = ground (arith, h)
get-bump (suc i) (suc j) (x ∷ bs) b h = get-bump i j bs b h ∙ ground arith

get-zeros : (n i : ℕ) → i < n → get_elem? (zeros n) i ≡ some 0
unfolding zeros
get-zeros zero i h = absurd (omega (arith, h))
get-zeros (suc n) zero h = refl
get-zeros (suc n) (suc i) h = get-zeros n i (omega (arith, h))

upper_bound_mono : (xs : List ℕ) (a b : ℕ) → a ≤ b → All (λ x. x ≤ a) xs → All (λ x. x ≤ b) xs
upper_bound_mono [] a b h below = tt
upper_bound_mono (x ∷ xs) a b h below =
    (omega (arith, h, below.0), upper_bound_mono xs a b h below.1)

-- A histogram that started from zero holds, whatever was observed: in each bucket the number of
-- observations that fall in it, and the number, the sum and an upper bound of all observations.
pub observe_all_lem :
    (xs : List ℕ)
    → ((i : ℕ) → i < bucket_limit → get_elem? (observe_all xs).buckets i ≡ some (falls_in i xs))
      × ((observe_all xs).count ≡ length xs)
      × ((observe_all xs).sum_us ≡ total_of xs)
      × All (λ us. us ≤ (observe_all xs).max_us) xs
unfolding observe_all observe reset total_of falls_in
observe_all_lem [] = (λ i h. get-zeros bucket_limit i h, refl, refl, tt)
observe_all_lem (us ∷ more) =
    let h = observe_all_lem more in
    (
      λ i b.
          get-bump (bucket_index us) i (observe_all more).buckets (falls_in i more) (h.0 i b)
          ∙ ground arith,
      omega (arith, h.1),
      omega (arith, h.2),
      (ground arith, upper_bound_mono more (observe_all more).max_us _ (ground arith) h.3),
    )

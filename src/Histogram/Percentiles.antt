-- ===== src/Histogram/Percentiles.antt =====
-- `mean_us`, `percentile_us` and `to_json` of `Histogram` (src/core/metrics.cpp), and what a
-- percentile says of the observations.
use distributed_job_engine.Prelude.{
  ℕ, zero, suc, ◌+◌, ◌-◌, ◌≤◌, ◌<◌, ◌≡◌, refl, sym, ap, ◌∙◌, subst, ◌⊎◌, inl, inr, Bool, true,
  false, List, [], ◌∷◌, ltb, leb, ◌==◌, if◌then◌else◌, length, get_elem?, some, arith, Bool-cases,
}
use distributed_job_engine.Histogram.{
  bucket_limit, bucket_upper_us, bucket_index, Histogram, bump, observe, zeros, reset,
}
use distributed_job_engine.Histogram.Buckets.{
  Covers, bucket_index-Covers, observe_all, falls_in, observe_all_lem,
}

-- The doubles of the figures: `(p / 100.0) * n`, and `static_cast<double>(cumulative) >= target`.
pub record Shares : Type 0 where
  pub target : ℕ → ℕ → ℕ
  pub reaches : ℕ → ℕ → Bool

-- The loop over the buckets, from the bucket `i`.
unfoldable pub scan : Shares → ℕ → ℕ → ℕ → List ℕ → ℕ
scan sh target i cumulative [] = bucket_upper_us (bucket_limit - 1)
scan sh target i cumulative (b ∷ bs) =
    let rest = scan sh target (suc i) (cumulative + b) bs in
    if sh.reaches (cumulative + b) target then bucket_upper_us i else rest

unfoldable pub percentile_us : Shares → ℕ → Histogram → ℕ
unfolding scan
percentile_us sh p h = if h.count == 0 then 0 else scan sh (sh.target p h.count) 0 0 h.buckets

-- The observations that are at most `u`, and those in the buckets before `i`.
abbrev pub at_most : ℕ → List ℕ → ℕ
at_most u [] = 0
at_most u (x ∷ xs) = let rest = at_most u xs in if leb x u then suc rest else rest

abbrev before : ℕ → List ℕ → ℕ
before i [] = 0
before i (x ∷ xs) = let rest = before i xs in if ltb (bucket_index x) i then suc rest else rest

before-suc : (i : ℕ) (xs : List ℕ) → before (suc i) xs ≡ before i xs + falls_in i xs
unfolding falls_in
before-suc i [] = refl
before-suc i (x ∷ xs) = let h = before-suc i xs in ground (arith, h)

before-zero : (xs : List ℕ) → before 0 xs ≡ 0
before-zero [] = refl
before-zero (x ∷ xs) = let h = before-zero xs in ground (arith, h)

upper_step : (i d : ℕ) → bucket_upper_us i ≤ bucket_upper_us (i + d)
unfolding bucket_upper_us
upper_step i zero = let same : i + 0 ≡ i = omega arith in rw same (omega arith)
upper_step i (suc d) =
    let h = upper_step i d in
    let same : i + suc d ≡ suc (i + d) = omega arith in rw same (omega (arith, h))

upper_mono : (i j : ℕ) → i ≤ j → bucket_upper_us i ≤ bucket_upper_us j
upper_mono i j h =
    let same : i + (j - i) ≡ j = omega (arith, h) in
    subst (λ k. bucket_upper_us i ≤ bucket_upper_us k) same (upper_step i (j - i))

bucket_low : (i us k : ℕ) → Covers us k → suc i < bucket_limit → k ≤ i → us ≤ bucket_upper_us i
bucket_low i us k (inside, high, low) last h =
    let up = upper_mono k i h in
    elim high [ inl le ↦ omega (arith, le, up) | inr end ↦ absurd (omega (arith, end, last, h)) ]

bucket_high : (i us k : ℕ) → Covers us k → i < k → bucket_upper_us i < us
bucket_high i us k (inside, high, low) h =
    let up = upper_mono i (k - 1) (omega (arith, h)) in
    elim low [
      | inl none_below ↦ absurd (omega (arith, none_below, h))
      | inr lt ↦ omega (arith, lt, up)
    ]

-- An observation is in a bucket up to `i` exactly if it is at most the upper edge of `i`.
bucket_leb :
    (i us : ℕ) → suc i < bucket_limit → ltb (bucket_index us) (suc i) ≡ leb us (bucket_upper_us i)
bucket_leb i us last =
    let c = bucket_index-Covers us in
    elim (Bool-cases (ltb (bucket_index us) (suc i))) [
      | inl lt ↦
          let h = bucket_low i us (bucket_index us) c last (ground (arith, lt)) in
          ground (arith, h, lt)
      | inr ge ↦
          let h = bucket_high i us (bucket_index us) c (ground (arith, ge)) in ground (arith, h, ge)
    ]

before-at_most :
    (i : ℕ) (xs : List ℕ)
    → suc i < bucket_limit
    → before (suc i) xs ≡ at_most (bucket_upper_us i) xs
before-at_most i [] last = refl
before-at_most i (x ∷ xs) last =
    let h = before-at_most i xs last in let same = bucket_leb i x last in rw same (rw h refl)

-- What `u` says of `xs`: it is an edge, the first up to which the observations reach the target.
abbrev pub IsPercentile : Shares → ℕ → List ℕ → ℕ → Type 0
IsPercentile sh target xs u =
    (i : ℕ) × (i < bucket_limit)
    × (u ≡ bucket_upper_us i)
    × ((sh.reaches (at_most u xs) target ≡ true) ⊎ (suc i ≡ bucket_limit))
    × ((j : ℕ) → j < i → sh.reaches (at_most (bucket_upper_us j) xs) target ≡ false)

low_next :
    (sh : Shares) (target n i : ℕ) (xs : List ℕ)
    → suc i < bucket_limit
    → n ≡ before (suc i) xs
    → sh.reaches n target ≡ false
    → ((j : ℕ) → j < i → sh.reaches (at_most (bucket_upper_us j) xs) target ≡ false)
    → (j : ℕ) → j < suc i
    → sh.reaches (at_most (bucket_upper_us j) xs) target ≡ false
low_next sh target n i xs last n_lem off low j h = elim (Bool-cases (ltb j i)) [
  | inl lt ↦ low j (ground (arith, lt))
  | inr ge ↦
      let same : i ≡ j = ground (arith, ge, h) in
      let counted : n ≡ at_most (bucket_upper_us i) xs = n_lem ∙ before-at_most i xs last in
      subst (λ k. sh.reaches (at_most (bucket_upper_us k) xs) target ≡ false) same
        (subst (λ m. sh.reaches m target ≡ false) counted off)
]

module _ (sh : Shares) (target : ℕ) (xs : List ℕ) where
  stops_at :
      (i n : ℕ)
      → i < bucket_limit
      → n ≡ before (suc i) xs
      → sh.reaches n target ≡ true
      → ((j : ℕ) → j < i → sh.reaches (at_most (bucket_upper_us j) xs) target ≡ false)
      → IsPercentile sh target xs (bucket_upper_us i)
  stops_at i n h n_lem on low = elim (Bool-cases (ltb (suc i) bucket_limit)) [
    | inl more ↦
        let counted : n ≡ at_most (bucket_upper_us i) xs =
          n_lem ∙ before-at_most i xs (ground (arith, more)) in
        (i, h, refl, inl (subst (λ m. sh.reaches m target ≡ true) counted on), low)
    | inr last ↦ (i, h, refl, inr (ground (arith, last, h)), low)
  ]

  scan_end :
      (i cumulative : ℕ) (bs : List ℕ)
      → length bs ≡ 0
      → scan sh target i cumulative bs ≡ bucket_upper_us (bucket_limit - 1)
  unfolding scan
  scan_end i cumulative [] h = refl
  scan_end i cumulative (b ∷ bs) h = absurd (omega (arith, h))

  ends_at :
      (i n : ℕ) (bs : List ℕ)
      → suc i ≡ bucket_limit
      → suc i + length bs ≡ bucket_limit
      → ((j : ℕ) → j < i → sh.reaches (at_most (bucket_upper_us j) xs) target ≡ false)
      → IsPercentile sh target xs (scan sh target (suc i) n bs)
  ends_at i n bs last len low =
      let edge : bucket_limit - 1 ≡ i = omega (arith, last) in
      (
        i,
        omega (arith, last),
        scan_end (suc i) n bs (omega (arith, len, last)) ∙ ap bucket_upper_us edge,
        inr last,
        low,
      )

  scan_lem :
      (i cumulative : ℕ) (bs : List ℕ)
      → i + length bs ≡ bucket_limit
      → i < bucket_limit
      → cumulative ≡ before i xs
      → ((k : ℕ) → i + k < bucket_limit → get_elem? bs k ≡ some (falls_in (i + k) xs))
      → ((j : ℕ) → j < i → sh.reaches (at_most (bucket_upper_us j) xs) target ≡ false)
      → IsPercentile sh target xs (scan sh target i cumulative bs)
  unfolding scan
  scan_lem i cumulative [] len h c_lem b_lem low = absurd (omega (arith, len, h))
  scan_lem i cumulative (b ∷ bs) len h c_lem b_lem low =
      let zeroth : i + 0 ≡ i = omega arith in
      let first : b ≡ falls_in i xs =
        subst (λ k. b ≡ falls_in k xs) zeroth
          (let f = b_lem 0 (omega (arith, h)) in ground (arith, f)) in
      let counted : cumulative + b ≡ before (suc i) xs =
        let s = before-suc i xs in omega (arith, s, first, c_lem) in
      elim (Bool-cases (sh.reaches (cumulative + b) target)) [
        | inl on ↦ rw on (stops_at i (cumulative + b) h counted on low)
        | inr off ↦ rw off (elim (Bool-cases (ltb (suc i) bucket_limit)) [
          | inl more ↦
              scan_lem (suc i) (cumulative + b) bs (omega (arith, len)) (ground (arith, more))
                counted
                (λ k inside.
                  let same : suc i + k ≡ i + suc k = omega arith in
                  subst (λ m. get_elem? bs k ≡ some (falls_in m xs)) (sym same)
                    (b_lem (suc k) (omega (arith, inside))))
                (low_next sh target (cumulative + b) i xs (ground (arith, more)) counted off low)
          | inr last ↦
              ends_at i (cumulative + b) bs (ground (arith, last, h)) (omega (arith, len)) low
        ])
      ]

length-bump : (i : ℕ) (bs : List ℕ) → length (bump i bs) ≡ length bs
unfolding bump
length-bump i [] = refl
length-bump zero (b ∷ bs) = refl
length-bump (suc i) (b ∷ bs) = let h = length-bump i bs in omega (arith, h)

length-buckets : (xs : List ℕ) → length (observe_all xs).buckets ≡ bucket_limit
unfolding observe_all observe reset zeros
length-buckets [] = refl
length-buckets (x ∷ xs) = length-bump (bucket_index x) (observe_all xs).buckets ∙ length-buckets xs

zero_add : (n : ℕ) → 0 + n ≡ n
zero_add n = omega arith

percentile_some :
    (sh : Shares) (p n : ℕ) (h : Histogram)
    → h.count ≡ suc n
    → percentile_us sh p h ≡ scan sh (sh.target p (suc n)) 0 0 h.buckets
unfolding percentile_us
percentile_some sh p n h counted =
    let some_counted : (suc n == 0) ≡ false = ground arith in rw counted (rw some_counted refl)

-- A percentile of observations, where there are any, is the first upper edge up to which the
-- observations reach the share that was asked for; it is the last edge if they reach it at none.
pub percentile_us_lem :
    (sh : Shares) (p x : ℕ) (xs : List ℕ)
    → IsPercentile sh
        (sh.target p (length (x ∷ xs)))
        (x ∷ xs)
        (percentile_us sh p (observe_all (x ∷ xs)))
percentile_us_lem sh p x xs =
    let (buckets, counted, sums, highest) = observe_all_lem (x ∷ xs) in
    subst (IsPercentile sh (sh.target p (length (x ∷ xs))) (x ∷ xs))
      (sym (percentile_some sh p (length xs) (observe_all (x ∷ xs)) counted))
      (scan_lem sh (sh.target p (length (x ∷ xs))) (x ∷ xs) 0 0 (observe_all (x ∷ xs)).buckets
        (zero_add _ ∙ length-buckets (x ∷ xs)) (omega arith) (sym (before-zero (x ∷ xs)))
        (λ k h.
          subst (λ m. get_elem? (observe_all (x ∷ xs)).buckets k ≡ some (falls_in m (x ∷ xs)))
            (sym (zero_add k)) (buckets k (omega (arith, h))))
        (λ j h. absurd (omega (arith, h))))

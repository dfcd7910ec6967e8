-- ===== src/Engine/Counting.antt =====
-- How often a node occurs in a list, and what the lists of `submit_workflow` (src/engine/engine.cpp)
-- for Kahn's algorithm count.
use distributed_job_engine.Prelude.{
  ℕ, zero, suc, ◌+◌, ◌-◌, ◌≤◌, ◌<◌, ◌≡◌, refl, sym, ap, ◌∙◌, subst, inl, inr, Bool, true, false,
  ◌&&◌, some, List, [], ◌∷◌, ◌++◌, ◌==◌, ltb, if◌then◌else◌, length, length-append, get_elem?,
  arith, Bool-cases,
}
use distributed_job_engine.Engine.Graph.{indegree, degrees, lower, lower_all, roots}

abbrev pub occ : ℕ → List ℕ → ℕ
occ m [] = 0
occ m (x ∷ xs) = if x == m then suc (occ m xs) else occ m xs

pub occ-append : (m : ℕ) (xs ys : List ℕ) → occ m (xs ++ ys) ≡ occ m xs + occ m ys
occ-append m [] ys = omega arith
occ-append m (x ∷ xs) ys = let h = occ-append m xs ys in ground (arith, h)

-- The sum of `f` below `n`.
abbrev pub sum_below : ℕ → (ℕ → ℕ) → ℕ
sum_below zero f = 0
sum_below (suc n) f = sum_below n f + f n

pub sum_below_zero : (n : ℕ) (f : ℕ → ℕ) → ((m : ℕ) → m < n → f m ≡ 0) → sum_below n f ≡ 0
sum_below_zero zero f h = refl
sum_below_zero (suc n) f h =
    let rest = sum_below_zero n f (λ m below. h m (omega (arith, below))) in
    let last = h n (omega arith) in omega (arith, rest, last)

sum_below-occ :
    (n x : ℕ) (xs : List ℕ)
    → sum_below n (λ m. occ m (x ∷ xs)) ≡ sum_below n (λ m. occ m xs) + (if ltb x n then 1 else 0)
sum_below-occ zero x xs = ground arith
sum_below-occ (suc n) x xs = let h = sum_below-occ n x xs in ground (arith, h)

-- A list of numbers below `n` has as many elements as its occurrences below `n` together.
pub length-occ :
    (n : ℕ) (xs : List ℕ)
    → ((m : ℕ) → n ≤ m → occ m xs ≡ 0)
    → length xs ≡ sum_below n (λ m. occ m xs)
length-occ n [] h = sym (sum_below_zero n (λ m. 0) (λ m below. refl))
length-occ n (x ∷ xs) h =
    let rest = length-occ n xs (λ m above. let all = h m above in ground (arith, all)) in
    let sum = sum_below-occ n x xs in
    elim (Bool-cases (ltb x n)) [
      | inl inside ↦ ground (arith, rest, sum, inside)
      | inr outside ↦ let wrong = h x (ground (arith, outside)) in absurd (ground (arith, wrong))
    ]

-- `lower` at one node.
pub lower-get :
    (m k d : ℕ) (deg : List ℕ)
    → get_elem? deg k ≡ some d
    → get_elem? (lower m deg).0 k ≡ some (if m == k then d - 1 else d)
unfolding lower
lower-get m k d [] h = absurd (ground (arith, h))
lower-get zero zero d (x ∷ deg) h = ground (arith, h)
lower-get zero (suc k) d (x ∷ deg) h = ground (arith, h)
lower-get (suc m) zero d (x ∷ deg) h = ground (arith, h)
lower-get (suc m) (suc k) d (x ∷ deg) h = lower-get m k d deg h ∙ ground arith

pub lower-flag :
    (m d : ℕ) (deg : List ℕ) → get_elem? deg m ≡ some d → (lower m deg).1 ≡ ((d - 1) == 0)
unfolding lower
lower-flag m d [] h = absurd (ground (arith, h))
lower-flag zero d (x ∷ deg) h = ground (arith, h)
lower-flag (suc m) d (x ∷ deg) h = lower-flag m d deg h

occ_self : (x : ℕ) (ms : List ℕ) → occ x (x ∷ ms) ≡ suc (occ x ms)
occ_self x ms = ground arith

target_below : (n x : ℕ) (ms : List ℕ) → ((m : ℕ) → n ≤ m → occ m (x ∷ ms) ≡ 0) → x < n
target_below n x ms above = elim (Bool-cases (ltb x n)) [
  | inl inside ↦ ground (arith, inside)
  | inr outside ↦ let wrong = above x (ground (arith, outside)) in absurd (ground (arith, wrong))
]

lowered_count :
    (x m f o : ℕ)
    → (if x == m
        then (f + (if x == m then suc o else o)) - 1
        else f + (if x == m then suc o else o))
      ≡ f + o
lowered_count x m f o = ground arith

ready_step :
    (x m f o : ℕ) (flag : Bool) (others : List ℕ)
    → occ m others ≡ (if (f == 0) && ltb 0 o then 1 else 0)
    → (x ≡ m → flag ≡ ((f + suc o - 1) == 0))
    → occ m (if flag then x ∷ others else others)
      ≡ (if (f == 0) && ltb 0 (if x == m then suc o else o) then 1 else 0)
ready_step x m f o flag others h k = elim (Bool-cases (x == m)) [
  | inl same ↦ let fl = k (ground (arith, same)) in rw same (rw fl (ground (arith, h, same)))
  | inr other ↦ rw other (ground (arith, h, other))
]

none_step :
    (x m n : ℕ) (flag : Bool) (others : List ℕ)
    → x < n
    → n ≤ m
    → occ m others ≡ 0
    → occ m (if flag then x ∷ others else others) ≡ 0
none_step x m n true others inside above h = ground (arith, inside, above, h)
none_step x m n false others inside above h = h

-- The loop over the targets: what is left of each degree, and which nodes became ready.
pub lower_all_lem :
    (n : ℕ) (f : ℕ → ℕ) (ms deg : List ℕ)
    → ((m : ℕ) → n ≤ m → occ m ms ≡ 0)
    → ((m : ℕ) → m < n → get_elem? deg m ≡ some (f m + occ m ms))
    → ((m : ℕ) → m < n → get_elem? (lower_all ms deg).0 m ≡ some (f m))
      × ((m : ℕ)
          → m < n
          → occ m (lower_all ms deg).1 ≡ (if (f m == 0) && ltb 0 (occ m ms) then 1 else 0))
      × ((m : ℕ) → n ≤ m → occ m (lower_all ms deg).1 ≡ 0)
unfolding lower_all
lower_all_lem n f [] deg above h =
    (λ m b. let g = h m b in ground (arith, g), λ m b. ground arith, λ m b. refl)
lower_all_lem n f (x ∷ ms) deg above h =
    let inside = target_below n x ms above in
    let above' : (m : ℕ) → n ≤ m → occ m ms ≡ 0 =
      λ m b. let all = above m b in ground (arith, all) in
    let lowered : (m : ℕ) → m < n → get_elem? (lower x deg).0 m ≡ some (f m + occ m ms) =
      λ m b. lower-get x m _ deg (h m b) ∙ ap some (lowered_count x m (f m) (occ m ms)) in
    let flag = lower-flag x _ deg (h x inside) in
    let (degrees_left, ready, none_above) = lower_all_lem n f ms (lower x deg).0 above' lowered in
    (
      degrees_left,
      λ m b.
          ready_step x m (f m) (occ m ms) (lower x deg).1 (lower_all ms (lower x deg).0).1
            (ready m b)
            (λ same.
              subst (λ k. (lower x deg).1 ≡ ((f k + suc (occ k ms) - 1) == 0)) same
                (flag ∙ ap (λ o. (f x + o - 1) == 0) (occ_self x ms))),
      λ m b.
          none_step x m n (lower x deg).1 (lower_all ms (lower x deg).0).1 inside b
            (none_above m b),
    )

get-append_left :
    (xs ys : List ℕ) (k d : ℕ) → get_elem? xs k ≡ some d → get_elem? (xs ++ ys) k ≡ some d
get-append_left [] ys k d h = absurd (ground (arith, h))
get-append_left (x ∷ xs) ys zero d h = h
get-append_left (x ∷ xs) ys (suc k) d h = get-append_left xs ys k d h

get-append_last : (xs : List ℕ) (y k : ℕ) → length xs ≡ k → get_elem? (xs ++ y ∷ []) k ≡ some y
get-append_last [] y k h = ground (arith, h)
get-append_last (x ∷ xs) y zero h = absurd (omega (arith, h))
get-append_last (x ∷ xs) y (suc k) h = get-append_last xs y k (omega (arith, h))

pub length-degrees : (n : ℕ) (es : List (ℕ × ℕ)) → length (degrees n es) ≡ n
unfolding degrees
length-degrees zero es = refl
length-degrees (suc n) es =
    let h = length-degrees n es in
    let l = length-append (degrees n es) (indegree n es ∷ []) in omega (arith, h, l)

pub get-degrees :
    (n m : ℕ) (es : List (ℕ × ℕ)) → m < n → get_elem? (degrees n es) m ≡ some (indegree m es)
unfolding degrees
get-degrees zero m es h = absurd (omega (arith, h))
get-degrees (suc n) m es h = elim (Bool-cases (ltb m n)) [
  | inl below ↦
      get-append_left (degrees n es) (indegree n es ∷ []) m (indegree m es)
        (get-degrees n m es (ground (arith, below)))
  | inr last ↦
      let same : n ≡ m = ground (arith, last, h) in
      subst (λ k. get_elem? (degrees n es ++ indegree n es ∷ []) k ≡ some (indegree k es)) same
        (get-append_last (degrees n es) (indegree n es) n (length-degrees n es))
]

roots_below : (i m : ℕ) (deg : List ℕ) → m < i → occ m (roots i deg) ≡ 0
unfolding roots
roots_below i m [] h = refl
roots_below i m (d ∷ deg) h =
    let rest = roots_below (suc i) m deg (omega (arith, h)) in ground (arith, rest, h)

pub occ-roots :
    (i k d : ℕ) (deg : List ℕ)
    → get_elem? deg k ≡ some d
    → occ (i + k) (roots i deg) ≡ (if d == 0 then 1 else 0)
unfolding roots
occ-roots i k d [] h = absurd (ground (arith, h))
occ-roots i zero d (x ∷ deg) h =
    let rest = roots_below (suc i) (i + 0) deg (omega arith) in ground (arith, rest, h)
occ-roots i (suc k) d (x ∷ deg) h =
    let same : suc i + k ≡ i + suc k = omega arith in
    let rest : occ (i + suc k) (roots (suc i) deg) ≡ (if d == 0 then 1 else 0) =
      subst (λ j. occ j (roots (suc i) deg) ≡ (if d == 0 then 1 else 0)) same
        (occ-roots (suc i) k d deg h) in
    ground (arith, rest)

pub roots_above : (i m : ℕ) (deg : List ℕ) → i + length deg ≤ m → occ m (roots i deg) ≡ 0
unfolding roots
roots_above i m [] h = refl
roots_above i m (d ∷ deg) h =
    let rest = roots_above (suc i) m deg (omega (arith, h)) in ground (arith, rest, h)

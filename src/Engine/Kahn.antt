-- ===== src/Engine/Kahn.antt =====
-- What Kahn's algorithm in `submit_workflow` (src/engine/engine.cpp) keeps from round to round.
-- `seen` are the nodes that were visited, the last one first.
use distributed_job_engine.Prelude.{
  ℕ, suc, ◌+◌, ◌≤◌, ◌<◌, ◌≡◌, refl, ap, ◌∙◌, subst, inl, inr, false, ◌&&◌, some, List, [], ◌∷◌,
  ◌++◌, ◌==◌, ltb, if◌then◌else◌, length, get_elem?, All, arith, Bool-cases,
}
use distributed_job_engine.Engine.Graph.{targets, lower_all}
use distributed_job_engine.Engine.Counting.{occ, occ-append, lower_all_lem}

-- The edges into `m` from nodes that were not visited.
abbrev pub open_in : List ℕ → ℕ → List (ℕ × ℕ) → ℕ
open_in seen m [] = 0
open_in seen m ((a, b) ∷ es) =
    let rest = open_in seen m es in
    if b == m then if occ a seen == 0 then suc rest else rest else rest

-- The place of a node in the order of the visits, from 1.
abbrev pub place : ℕ → List ℕ → ℕ
place m [] = 0
place m (x ∷ xs) = if x == m then suc (length xs) else place m xs

place_bounded : (m : ℕ) (xs : List ℕ) → place m xs ≤ length xs
place_bounded m [] = omega arith
place_bounded m (x ∷ xs) = let h = place_bounded m xs in ground (arith, h)

-- A visited node was visited after those with an edge to it.
abbrev pub Ordered : List ℕ → ℕ × ℕ → Type 0
Ordered seen e = 1 ≤ occ e.1 seen → (1 ≤ occ e.0 seen) × (place e.0 seen < place e.1 seen)

abbrev pub Within : ℕ → ℕ × ℕ → Type 0
Within n e = (e.0 < n) × (e.1 < n)

-- Each degree counts the open edges; each node is ready or visited once it has no open edge, and then
-- just once; and the visits follow the edges.
abbrev pub Inv : ℕ → List (ℕ × ℕ) → List ℕ → List ℕ → List ℕ → Type 0
Inv n es seen ready deg =
    ((m : ℕ) → m < n → get_elem? deg m ≡ some (open_in seen m es))
    × ((m : ℕ) → m < n → occ m ready + occ m seen ≡ (if open_in seen m es == 0 then 1 else 0))
    × ((m : ℕ) → n ≤ m → occ m ready + occ m seen ≡ 0)
    × All (Ordered seen) es

open_in-targets :
    (seen : List ℕ) (x m : ℕ) (es : List (ℕ × ℕ))
    → occ x seen ≡ 0
    → open_in seen m es ≡ open_in (x ∷ seen) m es + occ m (targets x es)
unfolding targets
open_in-targets seen x m [] h = refl
open_in-targets seen x m ((a, b) ∷ es) h =
    let rest = open_in-targets seen x m es h in
    elim (Bool-cases (a == x)) [
      | inl same ↦
          let eq : x ≡ a = ground (arith, same) in
          let fresh : occ a seen ≡ 0 = subst (λ y. occ y seen ≡ 0) eq h in
          ground (arith, rest, fresh, same)
      | inr other ↦ ground (arith, rest, other)
    ]

targets_below :
    (n x m : ℕ) (es : List (ℕ × ℕ)) → All (Within n) es → n ≤ m → occ m (targets x es) ≡ 0
unfolding targets
targets_below n x m [] inside above = refl
targets_below n x m ((a, b) ∷ es) inside above =
    let rest = targets_below n x m es inside.1 above in
    let b_lem = inside.0.1 in ground (arith, rest, b_lem, above)

not_seen : (seen : List ℕ) (x a : ℕ) → occ x seen ≡ 0 → 1 ≤ occ a seen → (x == a) ≡ false
not_seen seen x a fresh once = elim (Bool-cases (x == a)) [
  | inl same ↦
      let eq : x ≡ a = ground (arith, same) in
      absurd (omega (arith, subst (λ y. occ y seen ≡ 0) eq fresh, once))
  | inr other ↦ other
]

one-Ordered :
    (seen : List ℕ) (x a b : ℕ)
    → occ x seen ≡ 0
    → (b ≡ x → 1 ≤ occ a seen)
    → Ordered seen (a, b)
    → Ordered (x ∷ seen) (a, b)
one-Ordered seen x a b fresh before h once = elim (Bool-cases (x == b)) [
  | inl same ↦
      let sooner = before (ground (arith, same)) in
      let other = not_seen seen x a fresh sooner in
      let bound = place_bounded a seen in
      (ground (arith, sooner, other), ground (arith, bound, other, same))
  | inr later ↦
      let old = h (ground (arith, once, later)) in
      let other = not_seen seen x a fresh old.0 in
      let sooner = old.0 in
      let less = old.1 in (ground (arith, sooner, other), ground (arith, less, other, later))
]

-- A node without open edges can be visited next.
source_seen :
    (seen : List ℕ) (x a b : ℕ) (es : List (ℕ × ℕ))
    → open_in seen x ((a, b) ∷ es) ≡ 0
    → b ≡ x
    → 1 ≤ occ a seen
source_seen seen x a b es closed eq = ground (arith, closed, eq)

next-Ordered :
    (seen : List ℕ) (x : ℕ) (es : List (ℕ × ℕ))
    → occ x seen ≡ 0
    → open_in seen x es ≡ 0
    → All (Ordered seen) es
    → All (Ordered (x ∷ seen)) es
next-Ordered seen x [] fresh closed h = tt
next-Ordered seen x ((a, b) ∷ es) fresh closed h =
    let rest = next-Ordered seen x es fresh (ground (arith, closed)) h.1 in
    (one-Ordered seen x a b fresh (λ eq. source_seen seen x a b es closed eq) h.0, rest)

first_ready :
    (n : ℕ) (es : List (ℕ × ℕ)) (seen : List ℕ) (x : ℕ) (rest deg : List ℕ)
    → Inv n es seen (x ∷ rest) deg
    → (x < n) × (occ x seen ≡ 0) × (open_in seen x es ≡ 0)
first_ready n es seen x rest deg inv = elim (Bool-cases (ltb x n)) [
  | inl inside ↦
      let below : x < n = ground (arith, inside) in
      let once = inv.1 x below in (below, ground (arith, once), ground (arith, once))
  | inr outside ↦ let never = inv.2 x (ground (arith, outside)) in absurd (ground (arith, never))
]

-- `before` and `after` are the open edges into `m`, `gone` those that the visit of `x` closes.
round_count :
    (x m rest seen joined freed before after gone : ℕ)
    → joined ≡ rest + freed
    → freed ≡ (if (after == 0) && ltb 0 gone then 1 else 0)
    → (if x == m then suc rest else rest) + seen ≡ (if before == 0 then 1 else 0)
    → before ≡ after + gone
    → joined + (if x == m then suc seen else seen) ≡ (if after == 0 then 1 else 0)
round_count x m rest seen joined freed before after gone h1 h2 h3 h4 =
    ground (arith, h1, h2, h3, h4)

-- One round of the loop.
pub kahn_round :
    (n : ℕ) (es : List (ℕ × ℕ)) (seen : List ℕ) (x : ℕ) (rest deg : List ℕ)
    → All (Within n) es
    → Inv n es seen (x ∷ rest) deg
    → let r = lower_all (targets x es) deg in Inv n es (x ∷ seen) (rest ++ r.1) r.0
kahn_round n es seen x rest deg within inv =
    let (below, fresh, closed) = first_ready n es seen x rest deg inv in
    let (degrees_left, freed, none_freed) =
      lower_all_lem n (λ m. open_in (x ∷ seen) m es) (targets x es) deg
        (λ m above. targets_below n x m es within above)
        (λ m b. inv.0 m b ∙ ap some (open_in-targets seen x m es fresh)) in
    (
      degrees_left,
      λ m b.
          let joined = occ-append m rest (lower_all (targets x es) deg).1 in
          let now = freed m b in
          let old = inv.1 m b in
          let split = open_in-targets seen x m es fresh in
          round_count x m (occ m rest) (occ m seen) _ _ _ _ _ joined now old split,
      λ m above.
          let joined = occ-append m rest (lower_all (targets x es) deg).1 in
          let now = none_freed m above in
          let old = inv.2 m above in ground (arith, joined, now, old),
      next-Ordered seen x es fresh closed inv.3,
    )

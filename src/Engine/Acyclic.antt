-- ===== src/Engine/Acyclic.antt =====
-- The check for cycles in `submit_workflow` (src/engine/engine.cpp) against an order of the nodes.
use distributed_job_engine.Prelude.{
  ℕ, zero, suc, ◌+◌, ◌≤◌, ◌<◌, ◌≡◌, ◌↔◌, refl, sym, ap, ◌∙◌, subst, inl, inr, true, some, List, [],
  ◌∷◌, ◌++◌, ◌==◌, ltb, if◌then◌else◌, length, All, arith, Bool-cases,
}
use distributed_job_engine.Engine.Graph.{
  targets, indegree, degrees, lower_all, roots, kahn_loop, is_acyclic,
}
use distributed_job_engine.Engine.Counting.{
  occ, sum_below, length-occ, length-degrees, get-degrees, occ-roots, roots_above,
}
use distributed_job_engine.Engine.Kahn.{open_in, place, Ordered, Within, Inv, kahn_round}

sum_below_bounded : (n : ℕ) (f : ℕ → ℕ) → ((m : ℕ) → m < n → f m ≤ 1) → sum_below n f ≤ n
sum_below_bounded zero f h = omega arith
sum_below_bounded (suc n) f h =
    let rest = sum_below_bounded n f (λ m b. h m (omega (arith, b))) in
    let last = h n (omega arith) in omega (arith, rest, last)

sum_below_all : (n : ℕ) (f : ℕ → ℕ) → ((m : ℕ) → m < n → f m ≡ 1) → sum_below n f ≡ n
sum_below_all zero f h = refl
sum_below_all (suc n) f h =
    let rest = sum_below_all n f (λ m b. h m (omega (arith, b))) in
    let last = h n (omega arith) in omega (arith, rest, last)

sum_below_full :
    (n : ℕ) (f : ℕ → ℕ)
    → ((m : ℕ) → m < n → f m ≤ 1)
    → sum_below n f ≡ n
    → (m : ℕ) → m < n
    → f m ≡ 1
sum_below_full zero f h full m b = absurd (omega (arith, b))
sum_below_full (suc n) f h full m b =
    let rest = sum_below_bounded n f (λ k c. h k (omega (arith, c))) in
    let last = h n (omega arith) in
    elim (Bool-cases (ltb m n)) [
      | inl below ↦
          sum_below_full n f (λ k c. h k (omega (arith, c))) (omega (arith, rest, last, full)) m
            (ground (arith, below))
      | inr top ↦
          let same : n ≡ m = ground (arith, top, b) in
          subst (λ k. f k ≡ 1) same (omega (arith, rest, last, full))
    ]

module _ (n : ℕ) (es : List (ℕ × ℕ)) where
  seen_once : (seen ready deg : List ℕ) → Inv n es seen ready deg → (m : ℕ) → m < n → occ m seen ≤ 1
  seen_once seen ready deg inv m b = let once = inv.1 m b in ground (arith, once)

  seen_length :
      (seen ready deg : List ℕ)
      → Inv n es seen ready deg
      → length seen ≡ sum_below n (λ m. occ m seen)
  seen_length seen ready deg inv =
      length-occ n seen (λ m above. let never = inv.2 m above in omega (arith, never))

  -- Where the loop ends, nothing is ready.
  abbrev Ended : ℕ → Type 0
  Ended visited = (seen : List ℕ) × (deg : List ℕ) × Inv n es seen [] deg × (visited ≡ length seen)

  loop_ends :
      (fuel : ℕ) (seen ready deg : List ℕ)
      → All (Within n) es
      → fuel + length seen ≡ suc n
      → Inv n es seen ready deg
      → Ended (kahn_loop fuel es deg ready (length seen))
  unfolding kahn_loop
  loop_ends zero seen ready deg within enough inv =
      let few = sum_below_bounded n (λ m. occ m seen) (seen_once seen ready deg inv) in
      let count = seen_length seen ready deg inv in absurd (omega (arith, few, count, enough))
  loop_ends (suc fuel) seen [] deg within enough inv = (seen, deg, inv, refl)
  loop_ends (suc fuel) seen (x ∷ rest) deg within enough inv =
      loop_ends fuel (x ∷ seen) (rest ++ (lower_all (targets x es) deg).1)
        (lower_all (targets x es) deg).0 within (omega (arith, enough))
        (kahn_round n es seen x rest deg within inv)

  nothing_seen : (m : ℕ) (ds : List (ℕ × ℕ)) → open_in [] m ds ≡ indegree m ds
  unfolding indegree
  nothing_seen m [] = refl
  nothing_seen m ((a, b) ∷ ds) = let h = nothing_seen m ds in ground (arith, h)

  none-Ordered : (ds : List (ℕ × ℕ)) → All (Ordered []) ds
  none-Ordered [] = tt
  none-Ordered (e ∷ ds) = (λ once. absurd (omega (arith, once)), none-Ordered ds)

  start_Inv : Inv n es [] (roots 0 (degrees n es)) (degrees n es)
  start_Inv = (
    λ m b. get-degrees n m es b ∙ ap some (sym (nothing_seen m es)),
    λ m b.
        let zeroth : 0 + m ≡ m = omega arith in
        let root = occ-roots 0 m (indegree m es) (degrees n es) (get-degrees n m es b) in
        let root' : occ m (roots 0 (degrees n es)) ≡ (if indegree m es == 0 then 1 else 0) =
          subst (λ k. occ k (roots 0 (degrees n es)) ≡ (if indegree m es == 0 then 1 else 0)) zeroth
            root in
        let same = nothing_seen m es in rw same (omega (arith, root')),
    λ m above.
        let len = length-degrees n es in
        let none_there = roots_above 0 m (degrees n es) (omega (arith, len, above)) in
        omega (arith, none_there),
    none-Ordered es,
  )

  result :
      All (Within n) es → Ended (kahn_loop (suc n) es (degrees n es) (roots 0 (degrees n es)) 0)
  result within = loop_ends (suc n) [] _ _ within (omega arith) start_Inv

  -- All nodes were visited: the places are an order.
  placed :
      (seen : List ℕ) (ds : List (ℕ × ℕ))
      → ((m : ℕ) → m < n → occ m seen ≡ 1)
      → All (Within n) ds
      → All (Ordered seen) ds
      → All (λ e. place e.0 seen < place e.1 seen) ds
  placed seen [] all within h = tt
  placed seen (e ∷ ds) all within h =
      let once = all e.1 within.0.1 in
      ((h.0 (omega (arith, once))).1, placed seen ds all within.1 h.1)

  -- A node whose sources have all been visited has no open edge.
  closed :
      (r : ℕ → ℕ) (seen : List ℕ) (m k : ℕ) (ds : List (ℕ × ℕ))
      → ((a : ℕ) → a < n → r a < k → occ a seen ≡ 1)
      → r m ≤ k
      → All (Within n) ds
      → All (λ e. r e.0 < r e.1) ds
      → open_in seen m ds ≡ 0
  closed r seen m k [] lower top within ordered = refl
  closed r seen m k ((a, b) ∷ ds) lower top within ordered =
      let rest = closed r seen m k ds lower top within.1 ordered.1 in
      elim (Bool-cases (b == m)) [
        | inl same ↦
            let eq : b ≡ m = ground (arith, same) in
            let up : r b ≤ k = subst (λ j. r j ≤ k) (sym eq) top in
            let once = lower a within.0.0 (omega (arith, ordered.0, up)) in
            ground (arith, rest, once, same)
        | inr other ↦ ground (arith, rest, other)
      ]

  seen_below :
      (r : ℕ → ℕ) (seen deg : List ℕ)
      → Inv n es seen [] deg
      → All (Within n) es
      → All (λ e. r e.0 < r e.1) es
      → (k m : ℕ) → m < n
      → r m < k
      → occ m seen ≡ 1
  seen_below r seen deg inv within ordered zero m b h = absurd (omega (arith, h))
  seen_below r seen deg inv within ordered (suc k) m b h =
      let shut =
        closed r seen m k es
          (λ a a_lem less. seen_below r seen deg inv within ordered k a a_lem less)
          (omega (arith, h)) within ordered in
      let count = inv.1 m b in ground (arith, shut, count)

pub is_acyclic_iff :
    (n : ℕ) (es : List (ℕ × ℕ))
    → All (Within n) es
    → (is_acyclic n es ≡ true) ↔ ((r : ℕ → ℕ) × All (λ (e : ℕ × ℕ). r e.0 < r e.1) es)
unfolding is_acyclic
is_acyclic_iff n es within =
    let (seen, deg, inv, visited) = result n es within in
    let count = seen_length n es seen [] deg inv in
    (
      λ accepted.
          let full : sum_below n (λ m. occ m seen) ≡ n = ground (arith, accepted, visited, count) in
          let all = sum_below_full n (λ m. occ m seen) (seen_once n es seen [] deg inv) full in
          (λ m. place m seen, placed n es seen es all within inv.3),
      λ (r, ordered).
          let all : (m : ℕ) → m < n → occ m seen ≡ 1 =
            λ m b. seen_below n es r seen deg inv within ordered (suc (r m)) m b (omega arith) in
          let full = sum_below_all n (λ m. occ m seen) all in ground (arith, full, visited, count),
    )

-- ===== src/Engine/Cycles.antt =====
-- The edges that `submit_workflow` (src/engine/engine.cpp) has checked, and its check for cycles.
use distributed_job_engine.Prelude.{
  ℕ, suc, ◌+◌, ◌<◌, ◌≡◌, ◌↔◌, refl, sym, ap, ◌∙◌, subst, inl, inr, true, some, List, [], ◌∷◌, ◌==◌,
  if◌then◌else◌, length, All, arith, Bool-cases, Option-cases, Text, text_eq,
}
use distributed_job_engine.Engine.Graph.{
  find_from, find_index, GraphError, Checked, ok, err, ◌>>=◌, check_edge, check_edges, is_acyclic,
}
use distributed_job_engine.Engine.Kahn.{Within}
use distributed_job_engine.Engine.Acyclic.{is_acyclic_iff}

ok_inj : {A : Type 0} (x y : A) → ok x ≡ ok y → x ≡ y
ok_inj {A} x y h = ap (λ r. elim r as (λ r'. A) [ ok z ↦ z | err e ↦ x ]) h

module _ {A B : Type 0} where
  bind_ok :
      (c : Checked A) (f : A → Checked B) (y : B)
      → (c >>= f) ≡ ok y
      → (x : A) × (c ≡ ok x) × (f x ≡ ok y)
  bind_ok (ok x) f y h = (x, refl, h)
  bind_ok (err e) f y h = absurd (ground (arith, h))

find_from_bounded :
    (i k : ℕ) (name : Text) (names : List Text)
    → find_from i name names ≡ some k
    → k < i + length names
unfolding find_from
find_from_bounded i k name [] h = absurd (ground (arith, h))
find_from_bounded i k name (x ∷ names) h = elim (Bool-cases (text_eq x name)) [
  | inl here ↦ ground (arith, h, here)
  | inr later ↦
      let rest = find_from_bounded (suc i) k name names (ground (arith, h, later)) in
      omega (arith, rest)
]

found_below :
    (k : ℕ) (name : Text) (names : List Text) → find_index name names ≡ some k → k < length names
found_below k name names h = let b = find_from_bounded 0 k name names h in omega (arith, b)

check_edge-Within :
    (names : List Text) (a b : Text) (e : ℕ × ℕ)
    → check_edge names (a, b) ≡ ok e
    → Within (length names) e
unfolding check_edge
check_edge-Within names a b e h = elim (Option-cases (find_index a names)) [
  | inl missing ↦ absurd (ground (arith, h, missing))
  | inr (i, from) ↦ elim (Option-cases (find_index b names)) [
    | inl missing ↦ absurd (ground (arith, h, from, missing))
    | inr (j, to) ↦
        let low = found_below i a names from in
        let high = found_below j b names to in
        let read : (if i == j then err GraphError.self_edge else ok (i, j)) ≡ ok e =
          sym (rw (from, to) refl) ∙ h in
        elim (Bool-cases (i == j)) [
          | inl self ↦
              let wrong : err GraphError.self_edge ≡ ok e = sym (rw self refl) ∙ read in
              absurd (ground (arith, wrong))
          | inr apart ↦
              let same : ok (i, j) ≡ ok e = sym (rw apart refl) ∙ read in
              subst (Within (length names)) (ok_inj (i, j) e same) (low, high)
        ]
  ]
]

check_edges-Within :
    (names : List Text) (edges : List (Text × Text)) (es : List (ℕ × ℕ))
    → check_edges names edges ≡ ok es
    → All (Within (length names)) es
unfolding check_edges
check_edges-Within names [] es h = subst (All (Within (length names))) (ok_inj [] es h) tt
check_edges-Within names ((a, b) ∷ edges) es h =
    let (e, one, more) = bind_ok (check_edge names (a, b)) _ es h in
    let (rest, others, done) = bind_ok (check_edges names edges) _ es more in
    subst (All (Within (length names))) (ok_inj (e ∷ rest) es done)
      (check_edge-Within names a b e one, check_edges-Within names edges rest others)

-- Kahn's check accepts the edges of a workflow, once their names are resolved, exactly if the nodes can
-- be numbered so that every edge goes up: there is an order in which to run them, and no cycle.
pub check_edges-is_acyclic :
    (names : List Text) (edges : List (Text × Text)) (es : List (ℕ × ℕ))
    → check_edges names edges ≡ ok es
    → (is_acyclic (length names) es ≡ true) ↔ ((r : ℕ → ℕ) × All (λ (e : ℕ × ℕ). r e.0 < r e.1) es)
check_edges-is_acyclic names edges es h =
    is_acyclic_iff (length names) es (check_edges-Within names edges es h)

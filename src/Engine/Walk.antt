-- ===== src/Engine/Walk.antt =====
-- The rounds of the walk of `skip_descendants` in src/engine/engine.cpp: it ends.
use distributed_job_engine.Prelude.{
  ℕ, suc, zero, ◌+◌, ◌≤◌, ◌≡◌, refl, ap, sym, subst, false, List, [], ◌∷◌, if◌then◌else◌, lookup,
  contains, length, arith, Option-cases, Bool-cases, ◌⊎◌, inl, inr,
}
use distributed_job_engine.Lifecycle.{is_terminal}
use distributed_job_engine.Job.{Job}
use distributed_job_engine.Engine.State.{
  Env, Engine, get_job, set_job, update_job, persist, dequeue,
}
use distributed_job_engine.Engine.Workflow.{
  lookup_or, children_of, skip_one, push_all, Walk, visit_job, visit, walk_loop, edge_count,
}

pub length-push_all :
    (cs frontier : List ℕ) → length (push_all cs frontier) ≡ length cs + length frontier
length-push_all [] frontier = omega arith
length-push_all (c ∷ cs) frontier = omega (arith, length-push_all cs (c ∷ frontier))

-- The edges out of the ids that have not been seen.
abbrev pub unseen_edges : List ℕ → List (ℕ × List ℕ) → ℕ
unseen_edges seen [] = 0
unseen_edges seen ((id, cs) ∷ m) =
    let more = unseen_edges seen m in if contains id seen then more else length cs + more

pub unseen_edges-bound : (m : List (ℕ × List ℕ)) → unseen_edges [] m ≡ edge_count m
unseen_edges-bound [] = refl
unseen_edges-bound ((id, cs) ∷ m) = ground (arith, unseen_edges-bound m)

unseen_edges_mono :
    (id : ℕ) (seen : List ℕ) (m : List (ℕ × List ℕ))
    → unseen_edges (id ∷ seen) m ≤ unseen_edges seen m
unseen_edges_mono id seen [] = omega arith
unseen_edges_mono id seen ((k, cs) ∷ m) = ground (arith, unseen_edges_mono id seen m)

unseen_edges-see :
    (id : ℕ) (seen : List ℕ) (m : List (ℕ × List ℕ))
    → contains id seen ≡ false
    → length (lookup_or [] id m) + unseen_edges (id ∷ seen) m ≤ unseen_edges seen m
unfolding lookup
unseen_edges-see id seen [] new = omega arith
unseen_edges-see id seen ((k, cs) ∷ m) new =
    ground (arith, unseen_edges-see id seen m new, unseen_edges_mono id seen m)

-- The rounds that are left at most.
abbrev pub rounds : Walk → ℕ
rounds w = length w.frontier + unseen_edges w.seen w.engine.children

pub skip_one_children :
    (env : Env) (job : Job) (e : Engine) → (skip_one env job e).0.children ≡ e.children
unfolding skip_one persist update_job set_job dequeue
skip_one_children env job e = ground arith

visit_job_rounds :
    (env : Env) (id : ℕ) (rest : List ℕ) (w : Walk) (job : Job)
    → contains id w.seen ≡ false
    → rounds (visit_job env id rest w job) ≤ length rest + unseen_edges w.seen w.engine.children
unfolding children_of
visit_job_rounds env id rest w job new =
    let less = unseen_edges-see id w.seen w.engine.children new in
    let grown = length-push_all (children_of id w.engine) rest in
    elim (Bool-cases (is_terminal job.state)) [
      | inl over ↦ rw over (omega (arith, less, grown))
      | inr live ↦ rw live (rw skip_one_children (omega (arith, less, grown)))
    ]

visit_rounds :
    (env : Env) (id : ℕ) (rest : List ℕ) (w : Walk)
    → rounds (visit env id rest w) ≤ length rest + unseen_edges w.seen w.engine.children
unfolding visit
visit_rounds env id rest w = elim (Bool-cases (contains id w.seen)) [
  | inl old ↦ rw old (omega arith)
  | inr new ↦ elim (Option-cases (get_job id w.engine)) [
    | inl missing ↦
        rw (new) (rw missing (omega (arith, unseen_edges_mono id w.seen w.engine.children)))
    | inr (job, found) ↦ rw new (rw found (visit_job_rounds env id rest w job new))
  ]
]

no_frontier : (f : List ℕ) → length f ≤ 0 → f ≡ []
no_frontier [] h = refl
no_frontier (x ∷ xs) h = absurd (omega (arith, h))

pub frontier-cases : (f : List ℕ) → (f ≡ []) ⊎ ((id : ℕ) × (rest : List ℕ) × (f ≡ id ∷ rest))
frontier-cases [] = inl refl
frontier-cases (x ∷ xs) = inr (x, xs, refl)

-- The fuel that covers the rounds is enough: the walk stops because the frontier is empty.
pub walk_loop_ends :
    (fuel : ℕ) (env : Env) (w : Walk) → rounds w ≤ fuel → (walk_loop fuel env w).frontier ≡ []
unfolding walk_loop
walk_loop_ends zero env w h = no_frontier w.frontier (omega (arith, h))
walk_loop_ends (suc fuel) env w h = elim (frontier-cases w.frontier) [
  | inl none_left ↦ rw none_left refl
  | inr (id, rest, more) ↦ rw more (
      walk_loop_ends fuel env (visit env id rest w)
        (omega (arith, visit_rounds env id rest w, h, ap length more)))
]

walk_loop_stop :
    (fuel : ℕ) (env : Env) (w : Walk) → w.frontier ≡ [] → walk_loop (suc fuel) env w ≡ w
unfolding walk_loop
walk_loop_stop fuel env w h = ground (arith, h)

walk_loop_round :
    (fuel : ℕ) (env : Env) (w : Walk) (id : ℕ) (rest : List ℕ)
    → w.frontier ≡ id ∷ rest
    → walk_loop (suc fuel) env w ≡ walk_loop fuel env (visit env id rest w)
unfolding walk_loop
walk_loop_round fuel env w id rest h = ground (arith, h)

-- What every round keeps holds at the end.
pub walk_loop-keeps :
    (P : Walk → Type 0) (env : Env)
    → ((id : ℕ) (rest : List ℕ) (w : Walk) → w.frontier ≡ id ∷ rest → P w → P (visit env id rest w))
    → (fuel : ℕ) (w : Walk) → P w
    → P (walk_loop fuel env w)
walk_loop-keeps P env keep zero w h = unfold walk_loop in h
walk_loop-keeps P env keep (suc fuel) w h = elim (frontier-cases w.frontier) [
  | inl none_left ↦ subst P (sym (walk_loop_stop fuel env w none_left)) h
  | inr (id, rest, more) ↦
      subst P (sym (walk_loop_round fuel env w id rest more))
        (walk_loop-keeps P env keep fuel (visit env id rest w) (keep id rest w more h))
]

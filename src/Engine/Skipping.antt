-- ===== src/Engine/Skipping.antt =====
-- What the walk of `skip_descendants` in src/engine/engine.cpp reaches.
use distributed_job_engine.Prelude.{
  ℕ, ◌+◌, ◌≡◌, refl, ap, sym, ◌∙◌, true, false, some, List, [], ◌∷◌, contains, length, arith,
  Option-cases, inl, inr,
}
use distributed_job_engine.Lifecycle.{is_terminal, same_state, skipped}
use distributed_job_engine.Job.{Job}
use distributed_job_engine.Engine.State.{Env, Engine, get_job, count, complete_with, release_slot}
use distributed_job_engine.Engine.Workflow.{
  children_of, push_all, Walk, walk_loop, edge_count, finish_skipped, skip_descendants, skip_walk,
}
use distributed_job_engine.Engine.Rows.{Keyed}
use distributed_job_engine.Engine.Walk.{unseen_edges-bound, walk_loop_ends, walk_loop-keeps}
use distributed_job_engine.Engine.Reach.{
  known, contains-push_all, Reach, start-Reach, visit-Reach, visit-known, below_seen, Below,
}

skipped_if : (job : Job) → (same_state job.state skipped ≡ false → ⊥) → job.state ≡ skipped
skipped_if job h = ground (arith, h)

finish_skipped_rows :
    (k : ℕ) (jobs : List Job) (e : Engine) → get_job k (finish_skipped jobs e) ≡ get_job k e
unfolding finish_skipped complete_with release_slot get_job
finish_skipped_rows k [] e = refl
finish_skipped_rows k (j ∷ js) e = finish_skipped_rows k js (release_slot (complete_with j e))

module _ (env : Env) (e : Engine) (failed_id : ℕ) where
  first : List ℕ
  first = push_all (children_of failed_id e) []

  start : Walk
  start = record { engine = e; frontier = first; seen = []; to_skip = [] }

  end : Walk
  unfolding start first
  end = walk_loop (length first + edge_count e.children) env start

  end_rows : (k : ℕ) → get_job k (skip_descendants env failed_id e).0 ≡ get_job k end.engine
  unfolding skip_descendants start first end count get_job
  end_rows k = finish_skipped_rows k end.to_skip _

  end_empty : end.frontier ≡ []
  unfolding end start first
  end_empty =
      walk_loop_ends (length first + edge_count e.children) env start
        (omega (arith, unseen_edges-bound e.children))

  walk_ends : (skip_walk env failed_id e).frontier ≡ []
  unfolding end start first
  walk_ends = end_empty

  end-Reach : (written : (k : ℕ) → env.writes k ≡ true) → Keyed e → Reach env e written end
  unfolding end start first
  end-Reach written keyed =
      walk_loop-keeps (Reach env e written) env (visit-Reach env e written)
        (length first + edge_count e.children) start (start-Reach env e written first keyed)

  end-known :
      (written : (k : ℕ) → env.writes k ≡ true) (c : ℕ)
      → contains c (children_of failed_id e) ≡ true
      → known c end ≡ true
  unfolding end start first
  end-known written c h =
      walk_loop-keeps (λ w. known c w ≡ true) env (visit-known env e written c)
        (length first + edge_count e.children) start
        (ground (arith, h, contains-push_all c (children_of failed_id e) []))

-- In a keyed store all of whose writes succeed, the walk over the descendants of a job that did not
-- succeed ends with nothing left to visit, and afterwards the row of each job that is below it and
-- that has a row is terminal, and SKIPPED unless it was terminal before.
pub skip_reaches_all :
    (env : Env) (e : Engine) (failed_id d : ℕ) (job : Job)
    → Keyed e
    → ((k : ℕ) → env.writes k ≡ true)
    → Below e failed_id d
    → get_job d e ≡ some job
    → ((skip_walk env failed_id e).frontier ≡ [])
      × (job' : Job) × (get_job d (skip_descendants env failed_id e).0 ≡ some job')
      × (is_terminal job'.state ≡ true)
      × (is_terminal job.state ≡ false → job'.state ≡ skipped)
skip_reaches_all env e failed_id d job keyed written under found =
    let r = end-Reach env e failed_id written keyed in
    let seen =
      below_seen env e written failed_id d (end env e failed_id) r (end_empty env e failed_id)
        (end-known env e failed_id written) under in
    elim (Option-cases (get_job d (end env e failed_id).engine)) [
      | inl missing ↦ absurd (ground (arith, r.rows d, missing, found))
      | inr (job', row) ↦
          let over = r.over d job' seen row in
          (
            walk_ends env e failed_id,
            job',
            end_rows env e failed_id d ∙ row,
            over,
            λ live.
                skipped_if job'
                  (λ h. ground (arith, ap (λ o. o) (sym found ∙ r.kept d job' row h), live, over)),
          )
    ]

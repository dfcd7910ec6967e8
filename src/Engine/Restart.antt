-- ===== src/Engine/Restart.antt =====
-- What a restart forgets.
use distributed_job_engine.Prelude.{
  ℕ, suc, ◌≡◌, ◌≢◌, refl, ap, ◌∙◌, ◌++◌, All, some, List, [], ◌∷◌, lookup, insert, lookup-insert,
  lookup-insert_self, arith,
}
use distributed_job_engine.Job.{Job}
use distributed_job_engine.Engine.State.{Env, Engine, set_job, update_job, persist, enqueue}
use distributed_job_engine.Engine.Workflow.{
  children_of, count_down, count_down_all, release_children, release_dependents,
}
use distributed_job_engine.Engine.Workflows.{add_pending}
use distributed_job_engine.Engine.Recovery.{recover, recover_job, recover_jobs, load_non_terminal}

add_pending_later :
    (child : ℕ) (later : List Job) (m : List (ℕ × ℕ))
    → All (λ j. j.job_id ≢ child) later
    → lookup child (add_pending later m) ≡ lookup child m
unfolding add_pending
add_pending_later child [] m ne = refl
add_pending_later child (j ∷ js) m ne =
    add_pending_later child js (insert j.job_id j.pending_deps m) ne.1
    ∙ ground (arith, lookup-insert j.job_id child j.pending_deps m, ne.0)

add_pending_lem :
    (child : ℕ) (before later : List Job) (row : Job) (m : List (ℕ × ℕ))
    → row.job_id ≡ child
    → All (λ j. j.job_id ≢ child) later
    → lookup child (add_pending (before ++ row ∷ later) m) ≡ some row.pending_deps
unfolding add_pending
add_pending_lem child [] later row m key ne =
    add_pending_later child later (insert row.job_id row.pending_deps m) ne
    ∙ ground (arith, lookup-insert row.job_id child row.pending_deps m, key)
add_pending_lem child (j ∷ js) later row m key ne =
    add_pending_lem child js later row (insert j.job_id j.pending_deps m) key ne

recover_job_deps :
    (env : Env) (j : Job) (e : Engine) → (recover_job env j e).pending_deps ≡ e.pending_deps
unfolding recover_job persist update_job set_job enqueue
recover_job_deps env j e = ground arith

recover_jobs_deps :
    (env : Env) (rows : List Job) (e : Engine)
    → (recover_jobs env rows e).pending_deps ≡ e.pending_deps
unfolding recover_jobs
recover_jobs_deps env [] e = refl
recover_jobs_deps env (j ∷ js) e =
    recover_jobs_deps env js (recover_job env j e) ∙ recover_job_deps env j e

-- `recover` reads the countdown of a job from its row.
recover_deps :
    (env : Env) (f : Engine) (child : ℕ) (before later : List Job) (row : Job)
    → load_non_terminal f.store.jobs ≡ before ++ row ∷ later
    → row.job_id ≡ child
    → All (λ j. j.job_id ≢ child) later
    → lookup child (recover env f).0.pending_deps ≡ some row.pending_deps
unfolding recover
recover_deps env f child before later row rows key ne =
    rw (recover_jobs_deps, rows) (add_pending_lem child before later row _ key ne)

count_down_waiting :
    (env : Env) (parent child n : ℕ) (e : Engine)
    → children_of parent e ≡ child ∷ []
    → lookup child e.pending_deps ≡ some (suc (suc n))
    → release_dependents env parent e
      ≡ record e { pending_deps = insert child (suc n) e.pending_deps }
unfolding release_dependents count_down_all count_down release_children
count_down_waiting env parent child n e kids waits = ground (arith, kids, waits)

-- When a parent succeeds and its only child still waits for others, the countdown goes down in
-- memory and the store is left as it is. A process that then starts on that store takes the
-- countdown of the child from its row, which still counts the parent that has succeeded.
pub restart_forgets_countdown :
    (env env' : Env) (parent child n : ℕ) (row : Job) (before later : List Job) (e f : Engine)
    → children_of parent e ≡ child ∷ []
    → lookup child e.pending_deps ≡ some (suc (suc n))
    → row.job_id ≡ child
    → row.pending_deps ≡ suc (suc n)
    → f.store ≡ (release_dependents env parent e).store
    → load_non_terminal e.store.jobs ≡ before ++ row ∷ later
    → All (λ j. j.job_id ≢ child) later
    → (lookup child (release_dependents env parent e).pending_deps ≡ some (suc n))
      × ((release_dependents env parent e).store ≡ e.store)
      × (lookup child (recover env' f).0.pending_deps ≡ some (suc (suc n)))
restart_forgets_countdown env env' parent child n row before later e f kids waits key deps same rows
      ne =
    let down = count_down_waiting env parent child n e kids waits in
    let store : (release_dependents env parent e).store ≡ e.store = ap (λ r. r.store) down in
    (
      rw down (lookup-insert_self child (suc n) e.pending_deps),
      store,
      recover_deps env' f child before later row
            (ap (λ s. load_non_terminal s.jobs) (same ∙ store) ∙ rows) key ne
          ∙ ap some deps,
    )

-- ===== src/Engine/Recovery.antt =====
-- `recover` of src/engine/engine.cpp: what a new process makes of the rows of the last one.
use distributed_job_engine.Prelude.{
  ℕ, suc, max, Bool, not, ◌&&◌, ◌||◌, none, some, List, [], ◌∷◌, ltb, ◌==◌, if◌then◌else◌, ltz, eqz,
  text, insert, length,
}
use distributed_job_engine.Lifecycle.{
  JobState, queued, running, scheduled, retrying, succeeded, is_terminal, same_state,
}
use distributed_job_engine.Job.{Job}
use distributed_job_engine.Engine.State.{Env, Engine, persist, enqueue}
use distributed_job_engine.Engine.Workflows.{list_workflow_jobs, add_children, add_pending}

-- `ORDER BY priority DESC, seq ASC`.
abbrev comes_first : Job → Job → Bool
comes_first a b = if eqz a.priority b.priority then ltb a.seq b.seq else ltz b.priority a.priority

unfoldable pub insert_row : Job → List Job → List Job
insert_row job [] = job ∷ []
insert_row job (x ∷ xs) =
    let rest = insert_row job xs in if comes_first job x then job ∷ x ∷ xs else x ∷ rest

-- `load_non_terminal_jobs`.
unfoldable pub load_non_terminal : List (ℕ × Job) → List Job
unfolding insert_row
load_non_terminal [] = []
load_non_terminal ((id, job) ∷ rest) =
    let others = load_non_terminal rest in
    if is_terminal job.state then others else insert_row job others

unfoldable pub count_remaining : List Job → ℕ
count_remaining [] = 0
count_remaining (j ∷ js) = let n = count_remaining js in if is_terminal j.state then n else suc n

unfoldable pub count_failures : List Job → ℕ
count_failures [] = 0
count_failures (j ∷ js) =
    let n = count_failures js in
    if is_terminal j.state && not (same_state j.state succeeded) then suc n else n

-- The counters of the workflows that still have a job to run.
unfoldable pub rebuild_counters : List Job → Engine → Engine
unfolding count_remaining count_failures
rebuild_counters [] e = e
rebuild_counters (j ∷ js) e = rebuild_counters js (elim j.workflow_id [
  | none ↦ e
  | some wf_id ↦
      let rows = list_workflow_jobs wf_id e.store.jobs in
      let failures = count_failures rows in
      record e {
        wf_remaining = insert wf_id (count_remaining rows) e.wf_remaining;
        wf_failures = if failures == 0 then e.wf_failures else insert wf_id failures e.wf_failures;
      }
])

unfoldable pub interrupted_job : Env → Job → Job
interrupted_job env job = record job {
  state = queued;
  lease_token = 0;
  lease_owner = none;
  lease_expires_ms = 0;
  ready_at_wall_ms = env.wall;
  error = text "recovered after coordinator restart";
}

abbrev pub waits_in_queue : JobState → Bool
waits_in_queue s = same_state s queued || same_state s scheduled || same_state s retrying

-- One row: an interrupted job becomes QUEUED, and what is eligible enters the queue.
unfoldable pub recover_job : Env → Job → Engine → Engine
unfolding interrupted_job
recover_job env job e =
    let e' = record e { outstanding = suc e.outstanding } in
    if same_state job.state running
    then (let job' = interrupted_job env job in enqueue env job' (persist env job' e'))
    else if waits_in_queue job.state
    then enqueue env job e'
    else e'

unfoldable pub recover_jobs : Env → List Job → Engine → Engine
unfolding recover_job
recover_jobs env [] e = e
recover_jobs env (j ∷ js) e = recover_jobs env js (recover_job env j e)

abbrev pub max_seq : List Job → ℕ
max_seq [] = 0
max_seq (j ∷ js) = max j.seq (max_seq js)

unfoldable pub recover : Env → Engine → Engine × ℕ
unfolding load_non_terminal rebuild_counters recover_jobs
recover env e =
    let rows = load_non_terminal e.store.jobs in
    let e' = rebuild_counters rows e in
    let e'' = record e' {
      children = add_children e'.store.dependencies e'.children;
      pending_deps = add_pending rows e'.pending_deps;
    } in
    let done = recover_jobs env rows e'' in
    (record done { seq_counter = suc (max_seq rows) }, length rows)

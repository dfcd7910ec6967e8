-- ===== src/Engine/State.antt =====
-- The state of `JobEngine` (include/jobengine/engine.hpp), what a call takes from outside, and the
-- small operations that the others share: the store's writes, admission and `enqueue`.
use distributed_job_engine.Prelude.{
  ℕ, not, suc, ◌+◌, ◌-◌, ◌^◌, Bool, true, false, Option, List, [], ◌∷◌, ltb, leb, ◌==◌,
  if◌then◌else◌, Text, lookup, insert,
}
use distributed_job_engine.Retry.{Doubles}
use distributed_job_engine.Job.{
  Job, AttemptRecord, WorkflowRecord, WorkerRecord, RunningInfo, WorkerInfo, CancelCell, Metrics,
  Outcome,
}
use distributed_job_engine.Queue
use distributed_job_engine.Queue.{Queue}

pub record Config : Type 0 where
  pub max_outstanding_jobs : ℕ
  pub lease_duration_ms : ℕ
  pub worker_heartbeat_timeout_ms : ℕ

-- The clocks, the randomness, the answers of SQLite and the registered handlers during one call.
pub record Env : Type 0 where
  pub wall : ℕ
  pub steady : ℕ
  pub steady_us : ℕ
  pub random : ℕ
  pub new_id : ℕ → ℕ
  pub writes : ℕ → Bool
  pub flush_error : Bool
  pub attempt_writes : Bool
  pub workflow_writes : Bool
  pub doubles : Doubles
  pub handler : Text → Option (Job → Outcome)

pub record Store : Type 0 where
  pub jobs : List (ℕ × Job)
  pub attempts : List AttemptRecord
  pub workflows : List (ℕ × WorkflowRecord)
  pub dependencies : List (ℕ × ℕ)
  pub workers : List (ℕ × WorkerRecord)

pub record Engine : Type 0 where
  pub cfg : Config
  pub store : Store
  pub metrics : Metrics
  pub queue : Queue
  pub stop_requested : Bool
  pub outstanding : ℕ
  pub seq_counter : ℕ
  pub running : List (ℕ × RunningInfo)
  pub cells : List (ℕ × CancelCell)
  pub next_cell : ℕ
  pub remote_workers : List (ℕ × WorkerInfo)
  pub children : List (ℕ × List ℕ)
  pub pending_deps : List (ℕ × ℕ)
  pub wf_remaining : List (ℕ × ℕ)
  pub wf_failures : List (ℕ × ℕ)
  -- The jobs given to the completion callback, the newest first.
  pub completed : List Job

unfoldable pub get_job : ℕ → Engine → Option Job
get_job id e = lookup id e.store.jobs

unfoldable pub set_job : Job → Engine → Engine
set_job job e = record e { store = record (e.store) { jobs = insert job.job_id job e.store.jobs } }

-- `JobStore::update_job`, which may fail: nothing is written then.
unfoldable pub update_job : Env → Job → Engine → Engine × Bool
unfolding set_job
update_job env job e = if env.writes job.job_id then (set_job job e, true) else (e, false)

-- `JobStore::insert_job`. It also answers false for a row that is written, while the store keeps the
-- error of an earlier batch (`last_flush_error_`).
unfoldable pub insert_job : Env → Job → Engine → Engine × Bool
unfolding set_job
insert_job env job e =
    if env.writes job.job_id then (set_job job e, not env.flush_error) else (e, false)

-- A failure is only logged.
unfoldable pub persist : Env → Job → Engine → Engine
unfolding update_job
persist env job e = (update_job env job e).0

-- `INSERT OR REPLACE` on the key (job_id, attempt).
unfoldable pub replace_attempt : AttemptRecord → List AttemptRecord → List AttemptRecord
replace_attempt rec [] = rec ∷ []
replace_attempt rec (r ∷ rs) =
    if r.job_id == rec.job_id
    then if r.attempt == rec.attempt then rec ∷ rs else r ∷ replace_attempt rec rs
    else r ∷ replace_attempt rec rs

unfoldable pub append_attempt : Env → AttemptRecord → Engine → Engine
unfolding replace_attempt
append_attempt env rec e =
    if env.attempt_writes
    then record e { store = record (e.store) { attempts = replace_attempt rec e.store.attempts } }
    else e

-- `size_t` is 64 bits wide, and `fetch_sub` wraps at 0.
unfoldable pub release_slot : Engine → Engine
release_slot e = record e {
  outstanding = if e.outstanding == 0 then 2 ^ 64 - 1 else e.outstanding - 1;
}

unfoldable pub reserve_slot : Engine → Engine × Bool
reserve_slot e =
    if leb e.cfg.max_outstanding_jobs e.outstanding
    then (e, false)
    else (record e { outstanding = suc e.outstanding }, true)

-- A push that is refused is only logged.
unfoldable pub enqueue : Env → Job → Engine → Engine
enqueue env job e =
    let ready_steady =
      if ltb env.wall job.ready_at_wall_ms
      then env.steady + (job.ready_at_wall_ms - env.wall)
      else env.steady in
    record e { queue = (Queue.push e.queue job.job_id job.priority ready_steady env.steady).0 }

unfoldable pub dequeue : ℕ → Engine → Engine
dequeue id e = record e { queue = (Queue.remove e.queue id).0 }

unfoldable pub count : (Metrics → Metrics) → Engine → Engine
count f e = record e { metrics = f e.metrics }

unfoldable pub complete_with : Job → Engine → Engine
complete_with job e = record e { completed = job ∷ e.completed }

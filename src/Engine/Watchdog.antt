-- ===== src/Engine/Watchdog.antt =====
-- One round of `watchdog_loop` of src/engine/engine.cpp: deadlines, expired leases, dead workers.
use distributed_job_engine.Prelude.{
  ℕ, suc, ◌+◌, ◌-◌, Bool, true, false, ◌&&◌, none, some, List, [], ◌∷◌, ◌++◌, ltb, ◌==◌,
  if◌then◌else◌, pos, ltz, text, lookup, insert, erase, length,
}
use distributed_job_engine.Lifecycle.{queued, running, failed, same_state}
use distributed_job_engine.Job.{
  Job, RunningInfo, CancelCell, no_reason, timeout, Metrics, WorkerInfo,
}
use distributed_job_engine.Engine.State.{Env, Engine, get_job, persist, enqueue, count}
use distributed_job_engine.Engine.Workflow.{conclude}

-- `now > limit`, where a limit of 0 means none.
abbrev pub is_past : ℕ → ℕ → Bool
is_past now limit = ltb 0 limit && ltb limit now

-- The flag of an attempt past its deadline, unless a reason was given before.
unfoldable pub time_out : ℕ → RunningInfo → List (ℕ × CancelCell) → List (ℕ × CancelCell)
time_out now info cells =
    if is_past now info.deadline_wall_ms
    then elim (lookup info.cell cells) [
      | none ↦ cells
      | some c ↦ elim (c.reason) [
        | no_reason ↦ insert info.cell (record { flag = true; reason = timeout }) cells
        | _ ↦ cells
      ]
    ]
    else cells

unfoldable pub time_out_all :
    ℕ → List (ℕ × RunningInfo) → List (ℕ × CancelCell) → List (ℕ × CancelCell)
unfolding time_out
time_out_all now [] cells = cells
time_out_all now ((id, info) ∷ rest) cells = time_out_all now rest (time_out now info cells)

-- Leases bind remote workers only.
unfoldable pub expired_leases : ℕ → List (ℕ × RunningInfo) → List ℕ
expired_leases now [] = []
expired_leases now ((id, info) ∷ rest) =
    let others = expired_leases now rest in
    if info.remote && is_past now info.lease_expires_ms then id ∷ others else others

abbrev pub is_silent : ℕ → ℕ → WorkerInfo → Bool
is_silent now limit w = w.alive && ltb limit (now - w.last_heartbeat_ms)

unfoldable pub mark_silent : ℕ → ℕ → List (ℕ × WorkerInfo) → List (ℕ × WorkerInfo)
mark_silent now limit [] = []
mark_silent now limit ((id, w) ∷ rest) =
    (id, if is_silent now limit w then record w { alive = false } else w)
    ∷ mark_silent now limit rest

unfoldable pub silent_workers : ℕ → ℕ → List (ℕ × WorkerInfo) → List ℕ
silent_workers now limit [] = []
silent_workers now limit ((id, w) ∷ rest) =
    let others = silent_workers now limit rest in
    if is_silent now limit w then id ∷ others else others

-- `set_worker_state(wid, "DEAD")`; its answer is not looked at.
unfoldable pub bury_worker : Env → ℕ → Engine → Engine
bury_worker env id e = elim (lookup id e.store.workers) [
  | none ↦ e
  | some w ↦
      if env.workflow_writes
      then record e {
        store = record (e.store) {
          workers = insert id (record w { is_alive = false }) e.store.workers;
        };
      }
      else e
]

unfoldable pub owned_by : ℕ → List (ℕ × RunningInfo) → List ℕ
owned_by worker_id [] = []
owned_by worker_id ((id, info) ∷ rest) =
    let others = owned_by worker_id rest in
    if info.remote && (info.owner == worker_id) then id ∷ others else others

-- The loop over the dead workers, with the jobs that each one held.
unfoldable pub bury_workers : Env → List ℕ → Engine → Engine × List ℕ
unfolding bury_worker owned_by
bury_workers env [] e = (e, [])
bury_workers env (id ∷ ids) e =
    let e' = bury_worker env id e in
    let others = bury_workers env ids e' in (others.0, owned_by id e'.running ++ others.1)

-- `sort` and `unique`: each job once, in order.
unfoldable pub insert_sorted : ℕ → List ℕ → List ℕ
insert_sorted x [] = x ∷ []
insert_sorted x (y ∷ ys) =
    let rest = insert_sorted x ys in
    if x == y then y ∷ ys else if ltb x y then x ∷ y ∷ ys else y ∷ rest

unfoldable pub sort_unique : List ℕ → List ℕ
unfolding insert_sorted
sort_unique [] = []
sort_unique (x ∷ xs) = insert_sorted x (sort_unique xs)

abbrev pub count_expired : Metrics → Metrics
count_expired m = record m { leases_expired = suc m.leases_expired }

abbrev pub count_expired_failed : Metrics → Metrics
count_expired_failed m = record m {
  leases_expired = suc m.leases_expired;
  jobs_failed = suc m.jobs_failed;
}

abbrev pub count_reassigned : Metrics → Metrics
count_reassigned m = record m {
  leases_expired = suc m.leases_expired;
  jobs_reassigned = suc m.jobs_reassigned;
}

abbrev unleased : Job → Job
unleased job = record job { lease_token = 0; lease_expires_ms = 0; lease_owner = none }

unfoldable pub exhausted_job : ℕ → Job → Job
exhausted_job now job = record (unleased job) {
  state = failed;
  error = text "lease expired and retry attempts exhausted";
  finished_at_wall_ms = now;
}

unfoldable pub reassigned_job : ℕ → Job → Job
reassigned_job now job = record (unleased job) {
  state = queued;
  ready_at_wall_ms = now;
  error = text "lease expired; reassigned";
}

-- A RUNNING job whose lease is gone: it fails, or goes back to the queue.
unfoldable pub reassign : Env → Job → Engine → Engine
unfolding exhausted_job reassigned_job
reassign env job e =
    if ltz (pos job.attempt) job.retry.max_attempts
    then (let job' = reassigned_job env.wall job in
        enqueue env job' (count count_reassigned (persist env job' e)))
    else (let job' = exhausted_job env.wall job in
        conclude env job' (count count_expired_failed (persist env job' e)))

unfoldable pub expire_lease : Env → ℕ → Engine → Engine
unfolding reassign
expire_lease env job_id e = elim (lookup job_id e.running) [
  | none ↦ e
  | some info ↦
      let e' = record e { running = erase job_id e.running } in
      elim (get_job job_id e') [
        | none ↦ e'
        | some job ↦ if same_state job.state running then reassign env job e' else e'
      ]
]

unfoldable pub expire_all : Env → List ℕ → Engine → Engine
unfolding expire_lease
expire_all env [] e = e
expire_all env (id ∷ ids) e = expire_all env ids (expire_lease env id e)

abbrev count_dead : ℕ → Metrics → Metrics
count_dead n m = record m { workers_marked_dead = m.workers_marked_dead + n }

-- The part under `run_mutex_`: deadlines, and the workers that have fallen silent.
unfoldable pub scan : Env → Engine → Engine
unfolding time_out_all mark_silent silent_workers
scan env e =
    let limit = e.cfg.worker_heartbeat_timeout_ms in
    count (count_dead (length (silent_workers env.wall limit e.remote_workers))) (record e {
      cells = time_out_all env.wall e.running e.cells;
      remote_workers = mark_silent env.wall limit e.remote_workers;
    })

-- The jobs whose lease has run out, and those of the dead workers, each once.
unfoldable pub lost_jobs : Env → Engine → List ℕ → List ℕ
unfolding expired_leases sort_unique
lost_jobs env e owned = sort_unique (expired_leases env.wall e.running ++ owned)

unfoldable pub watchdog_round : Env → Engine → Engine
unfolding scan lost_jobs silent_workers bury_workers expire_all
watchdog_round env e =
    let dead = silent_workers env.wall e.cfg.worker_heartbeat_timeout_ms e.remote_workers in
    let b = bury_workers env dead (scan env e) in expire_all env (lost_jobs env e b.1) b.0

-- ===== src/Engine/Attempts.antt =====
-- The life of one attempt in src/engine/engine.cpp: `begin_attempt` and `cancel`.
-- Each part that runs under `run_mutex_` is a function of its own, so
-- that other calls may come between two of them.
use distributed_job_engine.Prelude.{
  ℕ, suc, ◌+◌, ◌-◌, ◌*◌, Bool, true, false, not, ◌||◌, Option, none, some, ltb, if◌then◌else◌, pos,
  ltz, pos_part, text, lookup, insert, min,
}
use Prim.Native.Nat.{bit_or}
use distributed_job_engine.Histogram.{observe}
use distributed_job_engine.Lifecycle.{
  JobState, queued, scheduled, running, retrying, cancelled, is_terminal, same_state,
}
use distributed_job_engine.Job.{Job, RunningInfo, CancelReason, no_reason, user, Metrics}
use distributed_job_engine.Engine.State.{
  Env, Engine, get_job, update_job, persist, enqueue, dequeue, count,
}
use distributed_job_engine.Engine.Workflow.{conclude}

abbrev pub count_cancelled : Metrics → Metrics
count_cancelled m = record m { jobs_cancelled = suc m.jobs_cancelled }

pub data CancelStatus : Type 0 where
  ok not_found already_terminal : CancelStatus

-- Sets the reason and the flag that the running attempt shares with its handler.
unfoldable pub signal_cancel : CancelReason → ℕ → Engine → Engine
signal_cancel r cell e = record e {
  cells = insert cell (record { flag = true; reason = r }) e.cells;
}

-- The branch of `cancel` on a RUNNING job.
unfoldable pub cancel_running : Env → Job → Engine → Engine × CancelStatus
unfolding signal_cancel
cancel_running env job e =
    let w = update_job env (record job { cancel_requested = true }) e in
    if w.1
    then (
      elim (lookup job.job_id w.0.running) [
        | none ↦ w.0
        | some info ↦ signal_cancel user info.cell w.0
      ],
      ok,
    )
    else (w.0, not_found)

abbrev pub cancelled_job : Env → Job → Job
cancelled_job env job = record job {
  state = cancelled;
  cancel_requested = true;
  finished_at_wall_ms = env.wall;
  error = text "cancelled by client";
}

-- The branch on a job that has not started.
unfoldable pub cancel_waiting : Env → Job → Engine → Engine × CancelStatus
cancel_waiting env job e =
    let job' = cancelled_job env job in
    let w = update_job env job' (dequeue job.job_id e) in
    if w.1 then (conclude env job' (count count_cancelled w.0), ok) else (w.0, not_found)

unfoldable pub cancel : Env → ℕ → Engine → Engine × CancelStatus
unfolding cancel_running cancel_waiting
cancel env job_id e = elim (get_job job_id e) [
  | none ↦ (e, not_found)
  | some job ↦
      if is_terminal job.state
      then (e, already_terminal)
      else if same_state job.state running
      then cancel_running env job e
      else cancel_waiting env job e
]

-- The RUNNING record that `begin_attempt` writes.
unfoldable pub started_job : Env → Engine → ℕ → ℕ → Bool → Job → Job
started_job env e owner eligible_at remote job =
    let lease =
      if ltz (pos 0) job.timeout_ms
      then min e.cfg.lease_duration_ms (pos_part job.timeout_ms + 2000)
      else e.cfg.lease_duration_ms in
    record job {
      attempt = suc job.attempt;
      state = running;
      started_at_wall_ms = env.wall;
      started_at_steady = env.steady;
      started_at_steady_us = env.steady_us;
      queue_wait_us = if ltb 0 eligible_at then (env.steady - eligible_at) * 1000 else 0;
      lease_token = bit_or env.random 1;
      lease_owner = some owner;
      lease_expires_ms = if remote then env.wall + lease else 0;
    }

unfoldable pub running_info : Engine → ℕ → Bool → ℕ → Job → RunningInfo
running_info e owner remote eligible_at job = record {
  cell = e.next_cell;
  lease_token = job.lease_token;
  owner = owner;
  attempt = job.attempt;
  deadline_wall_ms =
      if ltz (pos 0) job.timeout_ms then job.started_at_wall_ms + pos_part job.timeout_ms else 0;
  lease_expires_ms = job.lease_expires_ms;
  started_steady = job.started_at_steady;
  started_steady_us = job.started_at_steady_us;
  started_wall = job.started_at_wall_ms;
  eligible_at_steady = eligible_at;
  remote = remote;
}

abbrev count_started : ℕ → Metrics → Metrics
count_started wait m = record m {
  jobs_started = suc m.jobs_started;
  attempts_started = suc m.attempts_started;
  queue_wait = observe wait m.queue_wait;
}

-- What the worker gets: the RUNNING record and the lease.
abbrev pub Started : Type 0
Started = Option (Job × RunningInfo)

unfoldable pub register_running : RunningInfo → Job → Engine → Engine
register_running info job e = record e {
  running = insert job.job_id info e.running;
  cells = insert info.cell (record { flag = false; reason = no_reason }) e.cells;
  next_cell = suc e.next_cell;
}

-- The job is eligible and not cancelled. If the write fails the entry goes back to the queue.
unfoldable pub start_job : Env → ℕ → ℕ → Bool → Job → Engine → Engine × Started
unfolding started_job running_info register_running
start_job env owner eligible_at remote job e =
    let job' = started_job env e owner eligible_at remote job in
    let w = update_job env job' e in
    let info = running_info e owner remote eligible_at job' in
    if w.1
    then (
      count (count_started job'.queue_wait_us) (register_running info job' w.0),
      some (job', info),
    )
    else (enqueue env (record job' { state = queued; attempt = job'.attempt - 1 }) w.0, none)

-- A cancelled job that is met in the queue; the write's answer is not looked at.
unfoldable pub cancel_at_start : Env → Job → Engine → Engine × Started
cancel_at_start env job e =
    let job' = record job {
      state = cancelled;
      finished_at_wall_ms = env.wall;
      error = text "cancelled by client";
    } in
    (conclude env job' (count count_cancelled (persist env job' e)), none)

abbrev pub can_start : JobState → Bool
can_start s = same_state s queued || same_state s scheduled || same_state s retrying

unfoldable pub begin_attempt : Env → ℕ → ℕ → ℕ → Bool → Engine → Engine × Started
unfolding start_job cancel_at_start
begin_attempt env job_id owner eligible_at remote e = elim (get_job job_id e) [
  | none ↦ (e, none)
  | some job ↦
      if is_terminal job.state
      then (e, none)
      else if not (can_start job.state)
      then (e, none)
      else if job.cancel_requested
      then cancel_at_start env job e
      else start_job env owner eligible_at remote job e
]

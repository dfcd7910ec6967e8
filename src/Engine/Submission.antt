-- ===== src/Engine/Submission.antt =====
-- `submit` of src/engine/engine.cpp.
use distributed_job_engine.Prelude.{
  ℕ, suc, ◌+◌, Bool, true, false, not, Option, none, some, [], ltb, if◌then◌else◌, ℤ, pos, ltz,
  pos_part, Text,
}
use distributed_job_engine.Lifecycle.{JobState, pending, queued, scheduled, same_state}
use distributed_job_engine.Retry.{RetryPolicy}
use distributed_job_engine.Json.{null}
use distributed_job_engine.Job.{Job, SubmitRequest, Metrics}
use distributed_job_engine.Engine.State.{
  Env, Engine, insert_job, enqueue, count, reserve_slot, release_slot,
}

pub data SubmitStatus : Type 0 where
  ok unknown_type queue_full store_error stopped : SubmitStatus

abbrev pub has_handler : Env → Text → Bool
has_handler env type = elim (env.handler type) [ none ↦ false | some f ↦ true ]

-- `if (max_attempts < 1) max_attempts = 1`
unfoldable pub clamp_attempts : RetryPolicy → RetryPolicy
clamp_attempts p = if ltz p.max_attempts (pos 1) then record p { max_attempts = pos 1 } else p

unfoldable pub initial_state : ℕ → ℤ → JobState
initial_state pending_deps delay_ms =
    if ltb 0 pending_deps then pending else if ltz (pos 0) delay_ms then scheduled else queued

-- The row of a new job.
unfoldable pub new_job : Env → ℕ → SubmitRequest → ℕ → Job
unfolding clamp_attempts initial_state
new_job env id req seq = record {
  job_id = id;
  type = req.type;
  payload = req.payload;
  priority = req.priority;
  state = initial_state req.pending_deps req.delay_ms;
  attempt = 0;
  retry = clamp_attempts req.retry;
  timeout_ms = req.timeout_ms;
  created_at_ms = env.wall;
  started_at_wall_ms = 0;
  finished_at_wall_ms = 0;
  ready_at_wall_ms = env.wall + pos_part req.delay_ms;
  enqueued_at_steady = env.steady;
  started_at_steady = 0;
  started_at_steady_us = 0;
  finished_at_steady = 0;
  queue_wait_us = 0;
  exec_us = 0;
  result = null;
  error = [];
  workflow_id = req.workflow_id;
  workflow_node = req.workflow_node;
  pending_deps = req.pending_deps;
  lease_token = 0;
  lease_owner = none;
  lease_expires_ms = 0;
  cancel_requested = false;
  seq = seq;
}

abbrev pub count_rejected : Metrics → Metrics
count_rejected m = record m { jobs_rejected_queue_full = suc m.jobs_rejected_queue_full }

abbrev count_submitted : ℕ → Metrics → Metrics
count_submitted n m = record m { jobs_submitted = m.jobs_submitted + n }

-- `submit` behind its early returns: the slot is reserved.
unfoldable pub admit_job : Env → SubmitRequest → Engine → Engine × SubmitStatus × Option ℕ
unfolding new_job insert_job
admit_job env req e =
    let job = new_job env (env.new_id 0) req e.seq_counter in
    let r = insert_job env job (record e { seq_counter = suc e.seq_counter }) in
    if r.1
    then (let inserted = count (count_submitted 1) r.0 in
        (
          if same_state job.state pending then inserted else enqueue env job inserted,
          SubmitStatus.ok,
          some job.job_id,
        ))
    else (release_slot r.0, SubmitStatus.store_error, none)

unfoldable pub submit : Env → SubmitRequest → Engine → Engine × SubmitStatus × Option ℕ
unfolding admit_job reserve_slot
submit env req e =
    if e.stop_requested
    then (e, SubmitStatus.stopped, none)
    else if not (has_handler env req.type)
    then (e, SubmitStatus.unknown_type, none)
    else let r = reserve_slot e in
      if r.1
      then admit_job env req r.0
      else (count count_rejected r.0, SubmitStatus.queue_full, none)

-- ===== src/Engine/Completion.antt =====
-- The end of an attempt in src/engine/engine.cpp: `finish_attempt`, in its two parts, and
-- `execute_entry`. The first part takes the running entry out under `run_mutex_`; the second
-- writes the outcome with no lock held, so other calls may come between.
use distributed_job_engine.Prelude.{
  ℕ, suc, ◌+◌, ◌-◌, ◌*◌, ◌/◌, Bool, true, false, none, some, [], ◌++◌, ltb, ◌==◌, if◌then◌else◌,
  pos, ltz, pos_part, Text, text, lookup, erase, is_nil,
}
use distributed_job_engine.Histogram.{observe}
use distributed_job_engine.Lifecycle.{
  JobState, retrying, succeeded, failed, timed_out, cancelled, same_state,
}
use distributed_job_engine.Json.{Json, null}
use distributed_job_engine.Retry.{delay_after_attempt}
use distributed_job_engine.Util.{num}
use distributed_job_engine.Job.{
  Job, AttemptRecord, RunningInfo, CancelReason, no_reason, timeout, user, Metrics, Outcome,
  success, failure, threw, threw_other,
}
use distributed_job_engine.Queue.{QueueEntry}
use distributed_job_engine.Engine.State.{Env, Engine, persist, append_attempt, enqueue, count}
use distributed_job_engine.Engine.Workflow.{conclude}
use distributed_job_engine.Engine.Attempts.{begin_attempt}

abbrev pub count_stale : Metrics → Metrics
count_stale m = record m { stale_results_rejected = suc m.stale_results_rejected }

-- The fencing check: the running entry is taken out if it carries the lease token of the attempt.
unfoldable pub claim_finish : ℕ → RunningInfo → Engine → Engine × Bool
claim_finish job_id info e = elim (lookup job_id e.running) [
  | none ↦ (count count_stale e, false)
  | some current ↦
      if current.lease_token == info.lease_token
      then (record e { running = erase job_id e.running }, true)
      else (count count_stale e, false)
]

abbrev pub reason_of : RunningInfo → Engine → CancelReason
reason_of info e = elim (lookup info.cell e.cells) [ none ↦ no_reason | some c ↦ c.reason ]

-- The new state, the status of the attempt and the error.
pub record Verdict : Type 0 where
  pub state : JobState
  pub status : Text
  pub error : Text

abbrev pub retry_or : JobState → Job → JobState
retry_or last job = if ltz (pos job.attempt) job.retry.max_attempts then retrying else last

unfoldable pub decide : CancelReason → Bool → Text → Job → Verdict
decide user ok error job = record {
  state = cancelled;
  status = text "CANCELLED";
  error = if is_nil error then text "cancelled by client" else error;
}
decide timeout ok error job = record {
  state = retry_or timed_out job;
  status = text "TIMED_OUT";
  error = text "deadline exceeded after " ++ num job.timeout_ms ++ text "ms";
}
decide no_reason true error job = record {
  state = succeeded;
  status = text "SUCCEEDED";
  error = error;
}
decide no_reason false error job = record {
  state = retry_or failed job;
  status = text "FAILED";
  error = error;
}

unfoldable pub attempt_record : Env → RunningInfo → Verdict → Job → AttemptRecord
attempt_record env info v job = record {
  job_id = job.job_id;
  attempt = job.attempt;
  status = v.status;
  started_ms = info.started_wall;
  finished_ms = env.wall;
  duration_ms = (env.steady_us - info.started_steady_us) / 1000;
  worker = info.owner;
  error = v.error;
}

abbrev pub count_exec : ℕ → Metrics → Metrics
count_exec us m = record m { exec = observe us m.exec }

abbrev count_retried : Metrics → Metrics
count_retried m = record m { attempts_retried = suc m.attempts_retried }

-- The `switch` on the terminal state.
abbrev pub count_outcome : JobState → Metrics → Metrics
count_outcome succeeded m = record m { jobs_succeeded = suc m.jobs_succeeded }
count_outcome failed m = record m { jobs_failed = suc m.jobs_failed }
count_outcome timed_out m = record m { jobs_timed_out = suc m.jobs_timed_out }
count_outcome cancelled m = record m { jobs_cancelled = suc m.jobs_cancelled }
count_outcome _ m = m

abbrev pub count_end_to_end : ℕ → Job → Metrics → Metrics
count_end_to_end wall job m =
    if ltb 0 job.created_at_ms
    then record m { end_to_end = observe ((wall - job.created_at_ms) * 1000) m.end_to_end }
    else m

-- The fields that every finished attempt sets.
abbrev pub finished_job : Env → RunningInfo → Job → Job
finished_job env info job = record job {
  finished_at_wall_ms = env.wall;
  finished_at_steady = env.steady;
  exec_us = env.steady_us - info.started_steady_us;
  lease_token = 0;
  lease_expires_ms = 0;
}

-- The delay before the next attempt; a delay is never negative.
abbrev pub retry_delay : Env → Job → ℕ
retry_delay env job = pos_part (delay_after_attempt env.doubles job.retry env.random job.attempt)

unfoldable pub retry_job : Env → Verdict → Job → Job
retry_job env v job = record job {
  state = retrying;
  error = v.error;
  result = null;
  ready_at_wall_ms = env.wall + retry_delay env job;
  finished_at_wall_ms = 0;
}

unfoldable pub terminal_job : Verdict → Json → Job → Job
terminal_job v result job = record job {
  state = v.state;
  result = if same_state v.state succeeded then result else null;
  error = if same_state v.state succeeded then [] else v.error;
}

-- The rest of `finish_attempt`, on the caller's copy of the job.
unfoldable pub record_finish : Env → Job → RunningInfo → Bool → Json → Text → Engine → Engine
unfolding decide attempt_record retry_job terminal_job
record_finish env job info ok result error e =
    let v = decide (reason_of info e) ok error job in
    let done = finished_job env info job in
    let e' =
      count (count_exec (env.steady_us - info.started_steady_us))
        (append_attempt env (attempt_record env info v job) e) in
    if same_state v.state retrying
    then (let again = retry_job env v done in
        enqueue env again (count count_retried (persist env again e')))
    else (let final = terminal_job v result done in
        conclude env final (
          count (λ m. count_end_to_end env.wall final (count_outcome final.state m))
            (persist env final e')))

unfoldable pub finish_attempt : Env → Job → RunningInfo → Bool → Json → Text → Engine → Engine
unfolding claim_finish record_finish
finish_attempt env job info ok result error e =
    let c = claim_finish job.job_id info e in
    if c.1 then record_finish env job info ok result error c.0 else c.0

-- The outcome of the handler as `ok`, result and error.
unfoldable pub outcome_ok : Outcome → Bool
outcome_ok (success r) = true
outcome_ok _ = false

unfoldable pub outcome_result : Outcome → Json
outcome_result (success r) = r
outcome_result _ = null

unfoldable pub outcome_error : Outcome → Text
outcome_error (success r) = []
outcome_error (failure m) = m
outcome_error (threw what) = text "handler threw: " ++ what
outcome_error threw_other = text "handler threw a non-standard exception"

-- The part of `execute_entry` behind `begin_attempt`. Other threads act while the handler runs:
-- `others` is what they do to the engine, and `after` the clocks when it returns.
unfoldable pub run_handler : Env → Env → (Engine → Engine) → Job → RunningInfo → Engine → Engine
unfolding finish_attempt outcome_ok outcome_result outcome_error
run_handler env after others job info e = elim (env.handler job.type) [
  | none ↦
      finish_attempt env job info false null (text "no handler registered for type " ++ job.type) e
  | some fn ↦
      let out = fn job in
      finish_attempt after job info (outcome_ok out) (outcome_result out) (outcome_error out)
        (others e)
]

unfoldable pub execute_entry :
    Env → Env → (Engine → Engine) → QueueEntry → ℕ → Engine → Engine × Bool
unfolding run_handler
execute_entry env after others entry owner e =
    let b = begin_attempt env entry.job_id owner entry.eligible_at_steady false e in
    elim b.1 [
      | none ↦ (b.0, false)
      | some (job, info) ↦ (run_handler env after others job info b.0, true)
    ]

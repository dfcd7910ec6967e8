-- ===== src/Engine/Outcomes.antt =====
-- What is left of a job, and of the running attempts, when an attempt is finished by `finish_attempt` of
-- src/engine/engine.cpp.
use distributed_job_engine.Prelude.{
  ◌-◌, ◌≡◌, refl, ◌∙◌, Bool, true, false, some, arith, if_cases, Text,
}
use distributed_job_engine.Lifecycle.{JobState, running, retrying, is_terminal, same_state}
use distributed_job_engine.Json.{Json}
use distributed_job_engine.Job.{Job, RunningInfo, CancelReason, no_reason, timeout, user, Metrics}
use distributed_job_engine.Engine.State.{
  Env, Engine, get_job, set_job, persist, append_attempt, count, enqueue,
}
use distributed_job_engine.Engine.Workflow.{conclude}
use distributed_job_engine.Engine.Completion.{
  record_finish, reason_of, decide, Verdict, terminal_job, retry_job, finished_job, attempt_record,
  count_exec,
}
use distributed_job_engine.Engine.Rows.{
  Keyed, set_job-Keyed, get_job-set_job, conclude-Holds, persist_written, persist_running,
}

-- A terminal row that has just been written does not disturb the running attempts as it concludes.
pub conclude-running :
    (env : Env) (job : Job) (f : Metrics → Metrics) (e : Engine)
    → Keyed e
    → is_terminal job.state ≡ true
    → env.writes job.job_id ≡ true
    → (conclude env job (count f (persist env job e))).running ≡ e.running
conclude-running env job f e keyed final written =
    rw (persist_written env job e written)
      (conclude-Holds job.job_id job final e.running env job (count f (set_job job e)) (
        unfold count get_job set_job in (set_job-Keyed job e keyed, get_job-set_job job e, refl))).2

conclude-row :
    (env : Env) (job : Job) (f : Metrics → Metrics) (e : Engine)
    → Keyed e
    → is_terminal job.state ≡ true
    → env.writes job.job_id ≡ true
    → get_job job.job_id (conclude env job (count f (persist env job e))) ≡ some job
conclude-row env job f e keyed final written =
    rw (persist_written env job e written)
      (conclude-Holds job.job_id job final e.running env job (count f (set_job job e)) (
        unfold count get_job set_job in (set_job-Keyed job e keyed, get_job-set_job job e, refl))).1

enqueue-row :
    (env : Env) (job : Job) (f : Metrics → Metrics) (e : Engine)
    → env.writes job.job_id ≡ true
    → get_job job.job_id (enqueue env job (count f (persist env job e))) ≡ some job
enqueue-row env job f e written =
    rw (persist_written env job e written) (unfold enqueue count get_job in get_job-set_job job e)

decide-terminal :
    (reason : CancelReason) (ok : Bool) (error : Text) (job : Job)
    → same_state (decide reason ok error job).state retrying ≡ false
    → is_terminal (decide reason ok error job).state ≡ true
unfolding decide
decide-terminal user ok error job h = refl
decide-terminal timeout ok error job h = ground arith
decide-terminal no_reason true error job h = refl
decide-terminal no_reason false error job h = ground arith

retrying_eq : (s : JobState) → same_state s retrying ≡ true → retrying ≡ s
retrying_eq retrying h = refl
retrying_eq JobState.pending h = absurd (ground (arith, h))
retrying_eq JobState.queued h = absurd (ground (arith, h))
retrying_eq JobState.scheduled h = absurd (ground (arith, h))
retrying_eq running h = absurd (ground (arith, h))
retrying_eq JobState.succeeded h = absurd (ground (arith, h))
retrying_eq JobState.failed h = absurd (ground (arith, h))
retrying_eq JobState.timed_out h = absurd (ground (arith, h))
retrying_eq JobState.cancelled h = absurd (ground (arith, h))
retrying_eq JobState.skipped h = absurd (ground (arith, h))

module _ (env : Env) (job : Job) (info : RunningInfo) (ok : Bool) (result : Json) (error : Text)
    (e : Engine) (keyed : Keyed e) (written : env.writes job.job_id ≡ true) where
  verdict : Verdict
  verdict = decide (reason_of info e) ok error job

  recorded : Engine
  recorded =
      count (count_exec (env.steady_us - info.started_steady_us))
        (append_attempt env (attempt_record env info verdict job) e)

  recorded-Keyed : Keyed recorded
  unfolding recorded count append_attempt get_job
  recorded-Keyed =
      if_cases
        (λ (r : Engine). Keyed (count (count_exec (env.steady_us - info.started_steady_us)) r))
        env.attempt_writes _ _ (λ _. keyed) (λ _. keyed)

  recorded-running : recorded.running ≡ e.running
  unfolding recorded count append_attempt
  recorded-running =
      if_cases (λ (r : Engine). r.running ≡ e.running) env.attempt_writes _ _ (λ _. refl)
        (λ _. refl)

  pub record_finish-running : (record_finish env job info ok result error e).running ≡ e.running
  unfolding record_finish recorded verdict terminal_job retry_job
  record_finish-running =
      if_cases (λ (r : Engine). r.running ≡ e.running) (same_state verdict.state retrying) _ _
        (λ _. unfold enqueue count in (persist_running env _ recorded ∙ recorded-running))
        (λ over.
          conclude-running env (terminal_job verdict result (finished_job env info job)) _ recorded
            recorded-Keyed (decide-terminal (reason_of info e) ok error job over) written
          ∙ recorded-running)

  -- The row that is left when the attempt is finished has the state of the verdict.
  pub record_finish-row :
      (row : Job) × (get_job job.job_id (record_finish env job info ok result error e) ≡ some row)
      × (row.state ≡ (decide (reason_of info e) ok error job).state)
  unfolding record_finish recorded verdict terminal_job retry_job
  record_finish-row =
      if_cases
        (λ (r : Engine).
          (row : Job) × (get_job job.job_id r ≡ some row) × (row.state ≡ verdict.state))
        (same_state verdict.state retrying) _ _
        (λ again. (
          retry_job env verdict (finished_job env info job),
          enqueue-row env (retry_job env verdict (finished_job env info job)) _ recorded written,
          retrying_eq verdict.state again,
        ))
        (λ over. (
          terminal_job verdict result (finished_job env info job),
          conclude-row env (terminal_job verdict result (finished_job env info job)) _ recorded
              recorded-Keyed (decide-terminal (reason_of info e) ok error job over) written,
          refl,
        ))

-- ===== src/Engine/Cancellation.antt =====
-- Cancelling against starting and finishing: what `cancel` wins, and where it is lost.
use distributed_job_engine.Prelude.{
  ℕ, ◌≡◌, refl, ap, subst, Bool, true, false, none, some, List, arith,
}
use distributed_job_engine.Lifecycle.{running, is_terminal, same_state}
use distributed_job_engine.Job.{Job}
use distributed_job_engine.Engine.State.{Env, Engine, get_job, set_job, update_job, dequeue, count}
use distributed_job_engine.Engine.Workflow.{conclude}
use distributed_job_engine.Engine.Attempts.{
  ok, cancel, cancel_waiting, cancelled_job, count_cancelled, begin_attempt,
}
use distributed_job_engine.Engine.Rows.{
  Keyed, Holds, set_job-Keyed, get_job-set_job, conclude-Holds,
}
use distributed_job_engine.Engine.Final.{Call, run, run-Row}

module _ (env : Env) (id : ℕ) (job : Job) (e : Engine) (keyed : Keyed e)
    (found : get_job id e ≡ some job) (written : env.writes id ≡ true) where
  job_under_id : job.job_id ≡ id
  job_under_id = keyed id job found

  -- The queue plays no part in the rows.
  dequeue-Keyed : Keyed (dequeue job.job_id e)
  unfolding dequeue get_job
  dequeue-Keyed = keyed

  module _ (live : is_terminal job.state ≡ false)
      (waits : same_state job.state running ≡ false) where
    marked : Engine
    marked = count count_cancelled (set_job (cancelled_job env job) (dequeue job.job_id e))

    cancel-eq : cancel env id e ≡ (conclude env (cancelled_job env job) marked, ok)
    unfolding marked cancel cancel_waiting update_job
    cancel-eq = ground (arith, found, live, waits, written, job_under_id)

    marked-Holds : Holds id (cancelled_job env job) refl marked.running marked
    unfolding marked count get_job
    marked-Holds = (
      set_job-Keyed (cancelled_job env job) (dequeue job.job_id e) dequeue-Keyed,
      subst
          (λ k.
            get_job k (set_job (cancelled_job env job) (dequeue job.job_id e))
            ≡ some (cancelled_job env job))
          job_under_id (get_job-set_job (cancelled_job env job) (dequeue job.job_id e)),
      refl,
    )

    cancelled_row :
        Keyed (cancel env id e).0 × (get_job id (cancel env id e).0 ≡ some (cancelled_job env job))
    cancelled_row =
        let kept =
          conclude-Holds id (cancelled_job env job) refl marked.running env (cancelled_job env job)
            marked marked-Holds in
        rw cancel-eq (kept.0, kept.1)

terminal_not_started :
    (env : Env) (id owner eligible_at : ℕ) (remote : Bool) (job : Job) (e : Engine)
    → get_job id e ≡ some job
    → is_terminal job.state ≡ true
    → begin_attempt env id owner eligible_at remote e ≡ (e, none)
unfolding begin_attempt
terminal_not_started env id owner eligible_at remote job e found final =
    ground (arith, found, final)

-- In a keyed store, a cancellation of a job that is neither terminal nor RUNNING, and whose write
-- succeeds, answers ok; and after any list of the calls `cancel`, `begin_attempt`,
-- `heartbeat_worker` and `watchdog_round` its row is CANCELLED, and a start of the job gives nothing
-- and changes nothing.
pub cancel_wins :
    (env env' : Env) (id owner eligible_at : ℕ) (remote : Bool) (job : Job) (e : Engine)
    (cs : List Call)
    → Keyed e
    → get_job id e ≡ some job
    → env.writes id ≡ true
    → is_terminal job.state ≡ false
    → same_state job.state running ≡ false
    → let e' = run (cancel env id e).0 cs in
      ((cancel env id e).1 ≡ ok)
      × (get_job id e' ≡ some (cancelled_job env job))
      × (begin_attempt env' id owner eligible_at remote e' ≡ (e', none))
cancel_wins env env' id owner eligible_at remote job e cs keyed found written live waits =
    let done = cancelled_row env id job e keyed found written live waits in
    let kept = run-Row id (cancelled_job env job) refl (cancel env id e).0 cs done in
    (
      ap (λ r. r.1) (cancel-eq env id job e keyed found written live waits),
      kept.1,
      terminal_not_started env' id owner eligible_at remote (cancelled_job env job) _ kept.1 refl,
    )

-- ===== src/Engine/Table.antt =====
-- The state changes that the engine makes, against the table `is_valid_transition`.
use distributed_job_engine.Prelude.{◌≡◌, ◌≢◌, refl, Bool, true, false, arith, Text, ltz, pos}
use distributed_job_engine.Lifecycle.{JobState, running, retrying, same_state, is_valid_transition}
use distributed_job_engine.Job.{Job, CancelReason, no_reason, timeout, user}
use distributed_job_engine.Engine.Completion.{decide}

-- The outcome of an attempt is a state that the table allows after RUNNING; it is RETRYING only
-- while the attempts started are below `max_attempts` and the client has not cancelled; and without
-- a cancel reason it is SUCCEEDED exactly when the handler succeeded.
pub decide_outcome :
    (reason : CancelReason) (ok : Bool) (error : Text) (job : Job)
    → let s = (decide reason ok error job).state in
      (is_valid_transition running s ≡ true)
      × (same_state s retrying ≡ true
          → (ltz (pos job.attempt) job.retry.max_attempts ≡ true) × (reason ≢ user))
      × (reason ≡ no_reason → same_state s JobState.succeeded ≡ ok)
unfolding decide is_valid_transition
decide_outcome user ok error job = (refl, λ h. ground arith, λ h. ground arith)
decide_outcome timeout ok error job = (ground arith, λ h. ground arith, λ h. ground arith)
decide_outcome no_reason true error job = (refl, λ h. ground arith, λ h. refl)
decide_outcome no_reason false error job = (ground arith, λ h. ground arith, λ h. ground arith)

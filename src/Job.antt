-- ===== src/Job.antt =====
-- The records of include/jobengine/job.hpp, store.hpp and engine.hpp. An identifier is a string
-- that the engine only compares: a number here, and an empty one is `none`.
use distributed_job_engine.Prelude.{ℕ, Bool, Option, ℤ, Text}
use distributed_job_engine.Lifecycle.{JobState}
use distributed_job_engine.Retry.{RetryPolicy}
use distributed_job_engine.Json.{Json}
use distributed_job_engine.Histogram.{Histogram}

pub record Job : Type 0 where
  pub job_id : ℕ
  pub type : Text
  pub payload : Json
  pub priority : ℤ
  pub state : JobState
  pub attempt : ℕ
  pub retry : RetryPolicy
  pub timeout_ms : ℤ
  pub created_at_ms : ℕ
  pub started_at_wall_ms : ℕ
  pub finished_at_wall_ms : ℕ
  pub ready_at_wall_ms : ℕ
  pub enqueued_at_steady : ℕ
  pub started_at_steady : ℕ
  pub started_at_steady_us : ℕ
  pub finished_at_steady : ℕ
  pub queue_wait_us : ℕ
  pub exec_us : ℕ
  pub result : Json
  pub error : Text
  pub workflow_id : Option ℕ
  pub workflow_node : Text
  pub pending_deps : ℕ
  pub lease_token : ℕ
  pub lease_owner : Option ℕ
  pub lease_expires_ms : ℕ
  pub cancel_requested : Bool
  pub seq : ℕ

pub record SubmitRequest : Type 0 where
  pub type : Text
  pub payload : Json
  pub priority : ℤ
  pub retry : RetryPolicy
  pub timeout_ms : ℤ
  pub delay_ms : ℤ
  pub workflow_id : Option ℕ
  pub workflow_node : Text
  pub pending_deps : ℕ

pub record AttemptRecord : Type 0 where
  pub job_id : ℕ
  pub attempt : ℕ
  pub status : Text
  pub started_ms : ℕ
  pub finished_ms : ℕ
  pub duration_ms : ℕ
  pub worker : ℕ
  pub error : Text

pub data WorkflowState : Type 0 where
  running succeeded failed cancelled : WorkflowState

pub record WorkflowRecord : Type 0 where
  pub workflow_id : ℕ
  pub name : Text
  pub state : WorkflowState
  pub created_at_ms : ℕ
  pub finished_at_ms : ℕ
  pub node_count : ℕ

pub record WorkerRecord : Type 0 where
  pub worker_id : ℕ
  pub name : Text
  pub capacity : ℤ
  pub is_alive : Bool
  pub registered_ms : ℕ
  pub last_heartbeat_ms : ℕ

pub data CancelReason : Type 0 where
  no_reason timeout user : CancelReason

-- The two atomics that a running attempt shares with its handler, behind a `shared_ptr`.
pub record CancelCell : Type 0 where
  pub flag : Bool
  pub reason : CancelReason

pub record RunningInfo : Type 0 where
  pub cell : ℕ
  pub lease_token : ℕ
  pub owner : ℕ
  pub attempt : ℕ
  pub deadline_wall_ms : ℕ
  pub lease_expires_ms : ℕ
  pub started_steady : ℕ
  pub started_steady_us : ℕ
  pub started_wall : ℕ
  pub eligible_at_steady : ℕ
  pub remote : Bool

pub record WorkerInfo : Type 0 where
  pub name : Text
  pub capacity : ℤ
  pub last_heartbeat_ms : ℕ
  pub alive : Bool

pub record LeasedJob : Type 0 where
  pub job_id : ℕ
  pub type : Text
  pub payload : Json
  pub attempt : ℕ
  pub lease_token : ℕ
  pub timeout_ms : ℤ
  pub lease_expires_ms : ℕ

-- What a handler does: return an outcome, or throw.
pub data Outcome : Type 0 where
  success : Json → Outcome
  failure : Text → Outcome
  threw : Text → Outcome
  threw_other : Outcome

pub record Metrics : Type 0 where
  pub jobs_submitted : ℕ
  pub jobs_started : ℕ
  pub jobs_succeeded : ℕ
  pub jobs_failed : ℕ
  pub jobs_timed_out : ℕ
  pub jobs_cancelled : ℕ
  pub jobs_skipped : ℕ
  pub jobs_rejected_queue_full : ℕ
  pub attempts_started : ℕ
  pub attempts_retried : ℕ
  pub jobs_reassigned : ℕ
  pub leases_expired : ℕ
  pub stale_results_rejected : ℕ
  pub workers_registered : ℕ
  pub workers_marked_dead : ℕ
  pub workflows_created : ℕ
  pub workflows_succeeded : ℕ
  pub workflows_failed : ℕ
  pub queue_wait : Histogram
  pub exec : Histogram
  pub end_to_end : Histogram

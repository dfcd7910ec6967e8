-- ===== src/Tests/Samples.antt =====
-- Small inputs: an environment, a job, and an engine with one row.
use distributed_job_engine.Prelude.{
  true, false, none, some, [], ◌∷◌, leb, ◌*◌, pos, pos_part, ◌≡◌, refl, lookup, arith,
}
use distributed_job_engine.Histogram.{reset}
use distributed_job_engine.Lifecycle.{JobState}
use distributed_job_engine.Retry.{RetryPolicy, Doubles}
use distributed_job_engine.Json.{null}
use distributed_job_engine.Job.{
  Job, SubmitRequest, RunningInfo, no_reason, Metrics, success, WorkerInfo,
}
use distributed_job_engine.Queue
use distributed_job_engine.Queue.{Queue}
use distributed_job_engine.Engine.State.{Env, Engine, get_job}
use distributed_job_engine.Engine.Rows.{Keyed}

-- Whole numbers in place of doubles.
abbrev pub whole : Doubles
whole = record { of_int = pos_part; mul = ◌*◌; ge = λ a b. leb b a; llround = pos }

abbrev pub doubling : RetryPolicy
doubling = record {
  max_attempts = pos 3;
  backoff_base_ms = pos 100;
  backoff_multiplier = 2;
  backoff_max_ms = pos 300;
  jitter = false;
}

abbrev pub env : Env
env = record {
  wall = 1000;
  steady = 500;
  steady_us = 500000;
  random = 6;
  new_id = λ i. 100;
  writes = λ i. true;
  flush_error = false;
  attempt_writes = true;
  workflow_writes = true;
  doubles = whole;
  handler = λ type. some (λ job. success null);
}

abbrev pub job_in : JobState → Job
job_in state = record {
  job_id = 7;
  type = [];
  payload = null;
  priority = pos 0;
  state = state;
  attempt = 1;
  retry = doubling;
  timeout_ms = pos 0;
  created_at_ms = 900;
  started_at_wall_ms = 0;
  finished_at_wall_ms = 0;
  ready_at_wall_ms = 900;
  enqueued_at_steady = 400;
  started_at_steady = 0;
  started_at_steady_us = 0;
  finished_at_steady = 0;
  queue_wait_us = 0;
  exec_us = 0;
  result = null;
  error = [];
  workflow_id = none;
  workflow_node = [];
  pending_deps = 0;
  lease_token = 0;
  lease_owner = none;
  lease_expires_ms = 0;
  cancel_requested = false;
  seq = 1;
}

abbrev pub request : SubmitRequest
request = record {
  type = [];
  payload = null;
  priority = pos 0;
  retry = doubling;
  timeout_ms = pos 0;
  delay_ms = pos 0;
  workflow_id = none;
  workflow_node = [];
  pending_deps = 0;
}

abbrev pub lease : RunningInfo
lease = record {
  cell = 0;
  lease_token = 5;
  owner = 9;
  attempt = 1;
  deadline_wall_ms = 0;
  lease_expires_ms = 950;
  started_steady = 400;
  started_steady_us = 400000;
  started_wall = 900;
  eligible_at_steady = 400;
  remote = true;
}

abbrev pub worker : WorkerInfo
worker = record { name = []; capacity = pos 1; last_heartbeat_ms = 900; alive = true }

abbrev zero_metrics : Metrics
zero_metrics = record {
  jobs_submitted = 0;
  jobs_started = 0;
  jobs_succeeded = 0;
  jobs_failed = 0;
  jobs_timed_out = 0;
  jobs_cancelled = 0;
  jobs_skipped = 0;
  jobs_rejected_queue_full = 0;
  attempts_started = 0;
  attempts_retried = 0;
  jobs_reassigned = 0;
  leases_expired = 0;
  stale_results_rejected = 0;
  workers_registered = 0;
  workers_marked_dead = 0;
  workflows_created = 0;
  workflows_succeeded = 0;
  workflows_failed = 0;
  queue_wait = reset;
  exec = reset;
  end_to_end = reset;
}

-- One row, in the given state, and one lease of worker 9.
abbrev pub engine_with : Job → Engine
engine_with job = record {
  cfg = record {
    max_outstanding_jobs = 4;
    lease_duration_ms = 200;
    worker_heartbeat_timeout_ms = 300;
  };
  store = record {
    jobs = (7, job) ∷ [];
    attempts = [];
    workflows = [];
    dependencies = [];
    workers = [];
  };
  metrics = zero_metrics;
  queue = Queue.init 4;
  stop_requested = false;
  outstanding = 1;
  seq_counter = 2;
  running = (7, lease) ∷ [];
  cells = (0, record { flag = false; reason = no_reason }) ∷ [];
  next_cell = 1;
  remote_workers = (9, worker) ∷ [];
  children = [];
  pending_deps = [];
  wf_remaining = [];
  wf_failures = [];
  completed = [];
}

pub engine_with-Keyed : (job : Job) → job.job_id ≡ 7 → Keyed (engine_with job)
unfolding get_job lookup
engine_with-Keyed job key k j found = ground (arith, key)

pub row_found : (job : Job) → get_job 7 (engine_with job) ≡ some job
unfolding get_job lookup
row_found job = refl

pub lease_held : (job : Job) → lookup 7 (engine_with job).running ≡ some lease
unfolding lookup
lease_held job = refl

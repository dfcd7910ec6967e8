-- ===== src/Store/Columns.antt =====
-- The columns of the table `jobs`: `write_job_row_locked` and `read_job_row` of src/store/store.cpp.
use distributed_job_engine.Prelude.{
  ℕ, Bool, false, not, Option, none, some, ◌≡◌, refl, ap, ◌==◌, if◌then◌else◌, ℤ, Text, is_nil, [],
  ◌∷◌, arith,
}
use distributed_job_engine.Lifecycle.{JobState, queued, to_string, state_from_string}
use distributed_job_engine.Lifecycle.Names.{state_from_string_iff}
use distributed_job_engine.Json.{Json, null, end, object, boolean, int, double, string, array}
use distributed_job_engine.Json.Result.{ok}
use distributed_job_engine.Json.Printer.{DoubleText, dump}
use distributed_job_engine.Json.Parser.{parse, parse_value, or_null, parse_or_null}
use distributed_job_engine.Json.Scanner.{skip_ws}
use distributed_job_engine.Json.Plain.{Plain}
use distributed_job_engine.Json.RoundTrip.{parse-dump}
use distributed_job_engine.Job.{Job}

-- NULL is the empty text, or `none`; the times of the steady clock have no column.
pub record JobRow : Type 0 where
  pub job_id : ℕ
  pub type : Text
  pub payload : Text
  pub priority : ℤ
  pub state : Text
  pub attempt : ℕ
  pub max_attempts : ℤ
  pub timeout_ms : ℤ
  pub backoff_base_ms : ℤ
  pub backoff_mult : ℕ
  pub backoff_max_ms : ℤ
  pub backoff_jitter : ℕ
  pub created_at_ms : ℕ
  pub started_at_ms : ℕ
  pub finished_at_ms : ℕ
  pub ready_at_ms : ℕ
  pub queue_wait_us : ℕ
  pub exec_us : ℕ
  pub result : Text
  pub error : Text
  pub workflow_id : Option ℕ
  pub workflow_node : Text
  pub pending_deps : ℕ
  pub lease_token : ℕ
  pub lease_owner : Option ℕ
  pub lease_expires_ms : ℕ
  pub cancel_requested : ℕ
  pub seq : ℕ

abbrev pub flag : Bool → ℕ
flag b = if b then 1 else 0

abbrev pub result_text : DoubleText → Json → Text
result_text t null = []
result_text t j = dump t j

unfoldable pub to_row : DoubleText → Job → JobRow
to_row t job = record {
  job_id = job.job_id;
  type = job.type;
  payload = dump t job.payload;
  priority = job.priority;
  state = to_string job.state;
  attempt = job.attempt;
  max_attempts = job.retry.max_attempts;
  timeout_ms = job.timeout_ms;
  backoff_base_ms = job.retry.backoff_base_ms;
  backoff_mult = job.retry.backoff_multiplier;
  backoff_max_ms = job.retry.backoff_max_ms;
  backoff_jitter = flag job.retry.jitter;
  created_at_ms = job.created_at_ms;
  started_at_ms = job.started_at_wall_ms;
  finished_at_ms = job.finished_at_wall_ms;
  ready_at_ms = job.ready_at_wall_ms;
  queue_wait_us = job.queue_wait_us;
  exec_us = job.exec_us;
  result = result_text t job.result;
  error = job.error;
  workflow_id = job.workflow_id;
  workflow_node = job.workflow_node;
  pending_deps = job.pending_deps;
  lease_token = job.lease_token;
  lease_owner = job.lease_owner;
  lease_expires_ms = job.lease_expires_ms;
  cancel_requested = flag job.cancel_requested;
  seq = job.seq;
}

-- A payload that reads as null becomes an empty object.
abbrev pub some_object : Json → Json
some_object null = object end
some_object j = j

abbrev pub read_result : DoubleText → Text → Json
read_result t s = if is_nil s then null else parse_or_null t s

abbrev pub or_queued : Option JobState → JobState
or_queued none = queued
or_queued (some state) = state

abbrev pub read_state : Text → JobState
read_state s = or_queued (state_from_string s)

unfoldable pub read_row : DoubleText → JobRow → Job
read_row t row = record {
  job_id = row.job_id;
  type = row.type;
  payload = some_object (parse_or_null t row.payload);
  priority = row.priority;
  state = read_state row.state;
  attempt = row.attempt;
  retry = record {
    max_attempts = row.max_attempts;
    backoff_base_ms = row.backoff_base_ms;
    backoff_multiplier = row.backoff_mult;
    backoff_max_ms = row.backoff_max_ms;
    jitter = not (row.backoff_jitter == 0);
  };
  timeout_ms = row.timeout_ms;
  created_at_ms = row.created_at_ms;
  started_at_wall_ms = row.started_at_ms;
  finished_at_wall_ms = row.finished_at_ms;
  ready_at_wall_ms = row.ready_at_ms;
  enqueued_at_steady = 0;
  started_at_steady = 0;
  started_at_steady_us = 0;
  finished_at_steady = 0;
  queue_wait_us = row.queue_wait_us;
  exec_us = row.exec_us;
  result = read_result t row.result;
  error = row.error;
  workflow_id = row.workflow_id;
  workflow_node = row.workflow_node;
  pending_deps = row.pending_deps;
  lease_token = row.lease_token;
  lease_owner = row.lease_owner;
  lease_expires_ms = row.lease_expires_ms;
  cancel_requested = not (row.cancel_requested == 0);
  seq = row.seq;
}

-- What is left of a job in its row.
abbrev pub stored : Job → Job
stored job = record job {
  payload = some_object job.payload;
  enqueued_at_steady = 0;
  started_at_steady = 0;
  started_at_steady_us = 0;
  finished_at_steady = 0;
}

parse_or_null-dump : (t : DoubleText) (j : Json) → Plain 0 j → parse_or_null t (dump t j) ≡ j
unfolding parse_or_null
parse_or_null-dump t j h = ap or_null ((parse-dump t 0 j h).0)

-- The parser reads no value in the empty text, so what is printed of one is not empty.
not_empty : (t : DoubleText) (j : Json) (s : Text) → parse t s ≡ ok j → is_nil s ≡ false
unfolding parse parse_value skip_ws
not_empty t j [] h = absurd (ground (arith, h))
not_empty t j (c ∷ s) h = refl

pub dump_not_nil : (t : DoubleText) (j : Json) → Plain 0 j → is_nil (dump t j) ≡ false
dump_not_nil t j h = not_empty t j (dump t j) ((parse-dump t 0 j h).0)

read_dump :
    (t : DoubleText) (j : Json)
    → Plain 0 j
    → is_nil (dump t j) ≡ false
    → read_result t (dump t j) ≡ j
read_dump t j h full = rw full (parse_or_null-dump t j h)

read_result-result_text :
    (t : DoubleText) (j : Json) → Plain 0 j → read_result t (result_text t j) ≡ j
read_result-result_text t null h = refl
read_result-result_text t (double d) h = absurd h
read_result-result_text t (boolean b) h = read_dump t (boolean b) h (dump_not_nil t (boolean b) h)
read_result-result_text t (int i) h = read_dump t (int i) h (dump_not_nil t (int i) h)
read_result-result_text t (string s) h = read_dump t (string s) h (dump_not_nil t (string s) h)
read_result-result_text t (array xs) h = read_dump t (array xs) h (dump_not_nil t (array xs) h)
read_result-result_text t (object fs) h = read_dump t (object fs) h (dump_not_nil t (object fs) h)

read_state-to_string : (s : JobState) → read_state (to_string s) ≡ s
read_state-to_string s = ap or_queued ((state_from_string_iff (to_string s) s).1 refl)

-- A job whose payload and result are plain JSON (no doubles, integers of 64 bits, distinct keys, no
-- deeper than the limit) is, when it is written to its row and read again, the same job, except that
-- the times of the steady clock are zero and a null payload is an empty object.
pub read_row-to_row :
    (t : DoubleText) (job : Job)
    → Plain 0 job.payload
    → Plain 0 job.result
    → read_row t (to_row t job) ≡ stored job
unfolding read_row to_row
read_row-to_row t job h k = ground (
  arith,
  parse_or_null-dump t job.payload h,
  read_result-result_text t job.result k,
  read_state-to_string job.state,
)

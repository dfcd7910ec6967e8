-- ===== src/Api/Submission.antt =====
-- `read_submit_request` and `post_jobs` of src/api/api.cpp.
use distributed_job_engine.Prelude.{
  ℕ, ◌-◌, ◌%◌, ◌^◌, false, ◌||◌, Option, none, some, List, [], ◌∷◌, ◌++◌, ltb, if◌then◌else◌,
  is_nil, Text, text, ℤ, pos, negsuc, ltz,
}
use distributed_job_engine.Lifecycle.{to_string}
use distributed_job_engine.Retry.{RetryPolicy}
use distributed_job_engine.Util.{num}
use distributed_job_engine.Json.{
  Json, Items, int, double, string, array, nil, cons, set, find, get_int, get_bool, get_string,
}
use distributed_job_engine.Job.{Job, SubmitRequest}
use distributed_job_engine.Engine.State.{Env, Engine, get_job}
use distributed_job_engine.Engine.Submission.{SubmitStatus, submit}
use distributed_job_engine.Http.{HttpRequest}
use distributed_job_engine.Api.{
  Context, HttpResponse, Step, replies, goes, empty_object, is_object, answer, error_json,
  parse_body,
}

-- `static_cast<int>` of an `int64_t`: the value modulo 2 ^ 32, from -2 ^ 31 on.
abbrev pub signed_32 : ℕ → ℤ
signed_32 n = if ltb n (2 ^ 31) then pos n else negsuc (2 ^ 32 - 1 - n)

unfoldable pub to_int : ℤ → ℤ
to_int (pos n) = signed_32 (n % 2 ^ 32)
to_int (negsuc n) = signed_32 (2 ^ 32 - 1 - n % 2 ^ 32)

-- `as_double` and `get_double`.
abbrev pub as_double : Context → Json → ℕ → ℕ
as_double ctx (int i) def = ctx.of_int i
as_double ctx (double d) def = d
as_double ctx _ def = def

unfoldable pub get_double : Context → Json → Text → ℕ → ℕ
unfolding find
get_double ctx j key def = elim (find j key) [ none ↦ def | some v ↦ as_double ctx v def ]

-- What a reader gives: the message of an error, or a value.
pub data Read (A : Type 0) : Type 0 where
  fails : Text → Read A
  reads : A → Read A

-- The payload: an object, and an empty one where there is none.
unfoldable pub read_payload : Json → Read Json
unfolding find text
read_payload body = elim (find body (text "payload")) [
  | none ↦ reads empty_object
  | some p ↦ if is_object p then reads p else fails (text "field 'payload' must be an object")
]

abbrev pub read_retry : Context → Json → RetryPolicy
read_retry ctx body = record {
  max_attempts = to_int (get_int ctx.truncate body (text "max_attempts") (pos 1));
  backoff_base_ms = get_int ctx.truncate body (text "backoff_base_ms") (pos 100);
  backoff_multiplier = get_double ctx body (text "backoff_multiplier") ctx.two;
  backoff_max_ms = get_int ctx.truncate body (text "backoff_max_ms") (pos 30000);
  jitter = get_bool body (text "backoff_jitter") false;
}

-- The request that the fields say.
abbrev pub request_of : Context → Json → Json → SubmitRequest
request_of ctx body payload = record {
  type = get_string body (text "type") [];
  payload = payload;
  priority = to_int (get_int ctx.truncate body (text "priority") (pos 0));
  retry = read_retry ctx body;
  timeout_ms = get_int ctx.truncate body (text "timeout_ms") (pos 0);
  delay_ms = get_int ctx.truncate body (text "delay_ms") (pos 0);
  workflow_id = none;
  workflow_node = [];
  pending_deps = 0;
}

-- The tests behind the payload, in their order.
unfoldable pub check_request : Context → ℤ → SubmitRequest → Read SubmitRequest
unfolding text
check_request ctx max_attempts req =
    if ltz max_attempts (pos 1) || ltz (pos 100) max_attempts
    then fails (text "field 'max_attempts' must be between 1 and 100")
    else if ltz req.retry.backoff_base_ms (pos 0) || ltz req.retry.backoff_max_ms (pos 0)
    then fails (text "backoff values must not be negative")
    else if ctx.below_one req.retry.backoff_multiplier
    then fails (text "field 'backoff_multiplier' must be >= 1.0")
    else if ltz req.timeout_ms (pos 0)
    then fails (text "field 'timeout_ms' must not be negative")
    else if ltz req.delay_ms (pos 0)
    then fails (text "field 'delay_ms' must not be negative")
    else reads req

abbrev pub check_payload : Context → Json → Read Json → Read SubmitRequest
check_payload ctx body (fails message) = fails message
check_payload ctx body (reads payload) =
    check_request ctx (get_int ctx.truncate body (text "max_attempts") (pos 1))
      (request_of ctx body payload)

unfoldable pub read_submit_request : Context → Json → Read SubmitRequest
unfolding read_payload check_request get_string get_int get_bool get_double to_int text
read_submit_request ctx body =
    if is_nil (get_string body (text "type") [])
    then fails (text "field 'type' is required and must be a string")
    else check_payload ctx body (read_payload body)

-- `push_back` of each text.
abbrev pub strings : List Text → Items
strings [] = nil
strings (s ∷ ss) = cons (string s) (strings ss)

-- The message that `submit` gives with its status.
unfoldable pub submit_error : Context → Engine → SubmitRequest → SubmitStatus → Text
unfolding num text
submit_error ctx e req SubmitStatus.ok = []
submit_error ctx e req SubmitStatus.stopped = text "engine is stopping"
submit_error ctx e req SubmitStatus.unknown_type = text "unknown job type: " ++ req.type
submit_error ctx e req SubmitStatus.queue_full =
    text "engine at capacity (" ++ num (pos e.cfg.max_outstanding_jobs) ++ text " outstanding jobs)"
submit_error ctx e req SubmitStatus.store_error = ctx.store_message

abbrev pub state_name : Option Job → Text
state_name none = text "QUEUED"
state_name (some job) = to_string job.state

-- The answer to a submission.
unfoldable pub submit_reply :
    Context → SubmitRequest → Engine → SubmitStatus → Option ℕ → HttpResponse
unfolding answer error_json submit_error set to_string get_job text
submit_reply ctx req e SubmitStatus.ok none = answer ctx 201 empty_object
submit_reply ctx req e SubmitStatus.ok (some id) = answer ctx 201 (
    set (set empty_object (text "job_id") (string (ctx.id_text id))) (text "state")
      (string (state_name (get_job id e))))
submit_reply ctx req e SubmitStatus.unknown_type id = answer ctx 400 (
    set
      (set empty_object (text "error") (string (submit_error ctx e req SubmitStatus.unknown_type)))
      (text "known_types") (array (strings ctx.types)))
submit_reply ctx req e SubmitStatus.queue_full id =
    error_json ctx 503 (submit_error ctx e req SubmitStatus.queue_full)
submit_reply ctx req e SubmitStatus.stopped id =
    error_json ctx 503 (submit_error ctx e req SubmitStatus.stopped)
submit_reply ctx req e SubmitStatus.store_error id =
    error_json ctx 500 (submit_error ctx e req SubmitStatus.store_error)

abbrev pub submit_read : Context → Env → Read SubmitRequest → Engine → HttpResponse × Engine
submit_read ctx env (fails message) e = (error_json ctx 400 message, e)
submit_read ctx env (reads req) e =
    let r = submit env req e in (submit_reply ctx req r.0 r.1 r.2, r.0)

abbrev pub post_parsed : Context → Env → Step Json → Engine → HttpResponse × Engine
post_parsed ctx env (replies res) e = (res, e)
post_parsed ctx env (goes body) e = submit_read ctx env (read_submit_request ctx body) e

unfoldable pub post_jobs : Context → Env → HttpRequest → Engine → HttpResponse × Engine
unfolding parse_body read_submit_request submit submit_reply
post_jobs ctx env req e = post_parsed ctx env (parse_body ctx req) e

-- ===== src/Api/Jobs.antt =====
-- The handlers of src/api/api.cpp for jobs, and `Job::to_json` of src/core/job.cpp.
use distributed_job_engine.Prelude.{
  ℕ, Bool, true, ◌||◌, Option, none, some, List, [], ◌∷◌, ◌++◌, ◌==◌, if◌then◌else◌, is_nil, Text,
  text, text_eq, ℤ, pos, pos_part, ltz, length,
}
use distributed_job_engine.Lifecycle.{JobState, to_string, state_from_string}
use distributed_job_engine.Util.{parse_int}
use distributed_job_engine.Json.{
  Json, Items, null, boolean, int, double, string, array, nil, cons, set,
}
use distributed_job_engine.Job.{Job, AttemptRecord}
use distributed_job_engine.Engine.State.{Env, Engine, get_job}
use distributed_job_engine.Engine.Attempts.{CancelStatus, cancel}
use distributed_job_engine.Store.Queries.{list_jobs, count_jobs, list_attempts}
use distributed_job_engine.Http.{HttpRequest, Pairs}
use distributed_job_engine.Api.{
  Context, HttpResponse, Step, replies, goes, ◌>>=◌, empty_object, answer, error_json,
}
use distributed_job_engine.Api.Submission.{to_int}

-- `j.set(key, value)`, for each pair.
unfoldable pub set_all : Json → List (Text × Json) → Json
unfolding set
set_all j [] = j
set_all j ((k, v) ∷ rest) = set_all (set j k v) rest

abbrev pub number : ℕ → Json
number n = int (pos n)

-- `x ? Json(x) : Json()`, and the same for a text and an identifier.
abbrev pub nonzero : ℕ → Json
nonzero n = if n == 0 then null else number n

abbrev pub nonempty : Text → Json
nonempty s = if is_nil s then null else string s

abbrev pub optional_id : Context → Option ℕ → Json
optional_id ctx none = null
optional_id ctx (some id) = string (ctx.id_text id)

unfoldable pub job_json : Context → Job → Json
unfolding set_all to_string text
job_json ctx job = set_all empty_object (
    (text "job_id", string (ctx.id_text job.job_id))
    ∷ (text "type", string job.type)
    ∷ (text "payload", job.payload)
    ∷ (text "priority", int job.priority)
    ∷ (text "state", string (to_string job.state))
    ∷ (text "attempt", number job.attempt)
    ∷ (text "max_attempts", int job.retry.max_attempts)
    ∷ (text "timeout_ms", int job.timeout_ms)
    ∷ (text "created_at_ms", number job.created_at_ms)
    ∷ (text "started_at_ms", nonzero job.started_at_wall_ms)
    ∷ (text "finished_at_ms", nonzero job.finished_at_wall_ms)
    ∷ (text "queue_wait_ms", double (ctx.thousandth job.queue_wait_us))
    ∷ (text "exec_ms", double (ctx.thousandth job.exec_us))
    ∷ (text "queue_wait_us", number job.queue_wait_us)
    ∷ (text "exec_us", number job.exec_us)
    ∷ (text "result", job.result)
    ∷ (text "error", nonempty job.error)
    ∷ (text "workflow_id", optional_id ctx job.workflow_id)
    ∷ (text "workflow_node", nonempty job.workflow_node)
    ∷ (text "pending_deps", number job.pending_deps)
    ∷ (text "lease_owner", optional_id ctx job.lease_owner)
    ∷ [])

abbrev pub job_items : Context → List Job → Items
job_items ctx [] = nil
job_items ctx (j ∷ js) = cons (job_json ctx j) (job_items ctx js)

unfoldable pub job_not_found : Context → Text → HttpResponse
unfolding error_json text
job_not_found ctx id = error_json ctx 404 (text "job not found: " ++ id)

unfoldable pub get_job_reply : Context → Text → Engine → HttpResponse
unfolding get_job job_not_found job_json answer
get_job_reply ctx id e = elim (get_job (ctx.id_of id) e) [
  | none ↦ job_not_found ctx id
  | some job ↦ answer ctx 200 (job_json ctx job)
]

unfoldable pub attempt_json : Context → AttemptRecord → Json
unfolding set_all text
attempt_json ctx a = set_all empty_object (
    (text "attempt", number a.attempt)
    ∷ (text "status", string a.status)
    ∷ (text "started_at_ms", number a.started_ms)
    ∷ (text "finished_at_ms", number a.finished_ms)
    ∷ (text "duration_ms", number a.duration_ms)
    ∷ (text "worker", nonempty (ctx.id_text a.worker))
    ∷ (text "error", nonempty a.error)
    ∷ [])

abbrev pub attempt_items : Context → List AttemptRecord → Items
attempt_items ctx [] = nil
attempt_items ctx (a ∷ rest) = cons (attempt_json ctx a) (attempt_items ctx rest)

unfoldable pub get_job_attempts : Context → Text → Engine → HttpResponse
unfolding get_job job_not_found attempt_json list_attempts answer set_all text
get_job_attempts ctx id e = elim (get_job (ctx.id_of id) e) [
  | none ↦ job_not_found ctx id
  | some job ↦ answer ctx 200 (
      set_all empty_object (
        (text "job_id", string id)
        ∷ (
          text "attempts",
          array (attempt_items ctx (list_attempts (ctx.id_of id) e.store.attempts)),
        )
        ∷ []))
]

-- `query_param(name)`, empty where there is none.
unfoldable pub query_param : Text → Pairs → Text
query_param name [] = []
query_param name ((k, v) ∷ rest) =
    let later = query_param name rest in if text_eq k name then v else later

-- A filter that is given must be the name of a state.
unfoldable pub read_filter : Context → Text → Step (Option JobState)
unfolding state_from_string error_json text
read_filter ctx [] = goes none
read_filter ctx (c ∷ s) = elim (state_from_string (c ∷ s)) [
  | none ↦ replies (error_json ctx 400 (text "unknown state filter: " ++ (c ∷ s)))
  | some state ↦ goes (some state)
]

-- A number that is given must be between `low` and `high`; `high` is `none` for no limit.
abbrev pub outside : ℤ → Option ℤ → Option ℤ → Bool
outside low high none = true
outside low none (some v) = ltz v low
outside low (some high) (some v) = ltz v low || ltz high v

unfoldable pub read_number : Context → ℤ → ℤ → Option ℤ → Text → Text → Step ℤ
unfolding parse_int error_json
read_number ctx def low high message [] = goes def
read_number ctx def low high message (c ∷ s) = elim (parse_int (c ∷ s)) [
  | none ↦ replies (error_json ctx 400 message)
  | some v ↦ if outside low high (some v) then replies (error_json ctx 400 message) else goes v
]

abbrev pub read_limit : Context → HttpRequest → Step ℤ
read_limit ctx req =
    read_number ctx (pos 50) (pos 1) (some (pos 1000))
      (text "limit must be an integer between 1 and 1000") (query_param (text "limit") req.query)

-- `above` is the order of SQLite on identifiers.
unfoldable pub page_reply :
    Context → (ℕ → ℕ → Bool) → Option JobState → ℤ → ℤ → Engine → HttpResponse
unfolding list_jobs count_jobs job_json answer set_all to_int text
page_reply ctx above filter limit offset e =
    let jobs = list_jobs above filter (pos_part (to_int limit)) (to_int offset) e.store.jobs in
    answer ctx 200 (
      set_all empty_object (
        (text "jobs", array (job_items ctx jobs))
        ∷ (text "count", number (length jobs))
        ∷ (text "total", number (count_jobs filter e.store.jobs))
        ∷ []))

abbrev pub reply_of : Step HttpResponse → HttpResponse
reply_of (replies res) = res
reply_of (goes res) = res

unfoldable pub list_jobs_reply : Context → (ℕ → ℕ → Bool) → HttpRequest → Engine → HttpResponse
unfolding read_filter read_number page_reply query_param text
list_jobs_reply ctx above req e = reply_of (
    read_filter ctx (query_param (text "state") req.query) >>= λ filter.
    (read_limit ctx req >>= λ limit.
    (read_number ctx (pos 0) (pos 0) none (text "offset must be a non-negative integer")
        (query_param (text "offset") req.query)
      >>= λ offset. goes (page_reply ctx above filter limit offset e))))

abbrev pub state_of_row : Option Job → JobState
state_of_row none = JobState.queued
state_of_row (some job) = job.state

unfoldable pub cancel_reply : Context → Text → CancelStatus → Engine → HttpResponse
unfolding job_not_found error_json answer set_all to_string get_job text
cancel_reply ctx id CancelStatus.not_found e = job_not_found ctx id
cancel_reply ctx id CancelStatus.already_terminal e =
    error_json ctx 409 (text "job is already in a terminal state: " ++ id)
cancel_reply ctx id CancelStatus.ok e = answer ctx 200 (
    set_all empty_object (
      (text "job_id", string id)
      ∷ (text "state", string (to_string (state_of_row (get_job (ctx.id_of id) e))))
      ∷ (text "cancel_requested", boolean true)
      ∷ []))

unfoldable pub cancel_job : Context → Env → Text → Engine → HttpResponse × Engine
unfolding cancel cancel_reply
cancel_job ctx env id e = let r = cancel env (ctx.id_of id) e in (cancel_reply ctx id r.1 r.0, r.0)

-- ===== src/Api/Workers.antt =====
-- The handlers of src/api/api.cpp for remote workers, with `u64_to_string` and `string_to_u64`.
use distributed_job_engine.Prelude.{
  ℕ, ◌+◌, ◌-◌, ◌*◌, ◌/◌, ◌%◌, ◌^◌, Bool, true, false, ◌&&◌, ◌||◌, none, some, List, [], ◌∷◌, ◌++◌,
  ltb, leb, ◌==◌, if◌then◌else◌, Text, text, text_eq, ℤ, pos, negsuc, pos_part, ltz, min,
}
use distributed_job_engine.Util.{num}
use distributed_job_engine.Json.{
  Json, Items, boolean, int, string, array, nil, cons, find, get_int, get_string, count_items,
}
use distributed_job_engine.Job.{LeasedJob}
use distributed_job_engine.Engine.State.{Env, Engine, count}
use distributed_job_engine.Engine.Completion.{count_stale}
use distributed_job_engine.Engine.Remote.{
  register_worker, heartbeat_worker, claim, BatchWait, CompleteStatus, complete,
}
use distributed_job_engine.Http.{HttpRequest}
use distributed_job_engine.Api.{
  Context, HttpResponse, replies, goes, empty_object, answer, error_json, parse_body,
}
use distributed_job_engine.Api.Submission.{to_int}
use distributed_job_engine.Api.Jobs.{set_all, number, job_not_found}

abbrev pub u64_max : ℕ
u64_max = 2 ^ 64 - 1

-- `%llu` of `snprintf`.
abbrev pub u64_to_string : ℕ → Text
u64_to_string v = num (pos v)

-- `isspace` of the C locale.
abbrev pub is_blank : ℕ → Bool
is_blank c = (c == 32) || (leb 9 c && leb c 13)

-- The value of the digits a text begins with.
unfoldable pub leading : ℕ → Text → ℕ
leading v [] = v
leading v (c ∷ s) =
    let rest = leading (v * 10 + (c - b'0')) s in if leb b'0' c && leb c b'9' then rest else v

-- `-` negates the value in 64 bits; a value that does not fit is the greatest, whatever its sign.
abbrev pub negated : ℕ → ℕ
negated n = if ltb u64_max n then u64_max else (2 ^ 64 - n) % 2 ^ 64

unfoldable pub signed_digits : Text → ℕ
unfolding leading
signed_digits [] = 0
signed_digits (c ∷ s) =
    if c == b'-'
    then negated (leading 0 s)
    else if c == b'+'
    then min u64_max (leading 0 s)
    else min u64_max (leading 0 (c ∷ s))

unfoldable pub skip_blanks : Text → Text
skip_blanks [] = []
skip_blanks (c ∷ s) = let rest = skip_blanks s in if is_blank c then rest else c ∷ s

-- `strtoull` with base 10.
unfoldable pub string_to_u64 : Text → ℕ
unfolding skip_blanks signed_digits
string_to_u64 s = signed_digits (skip_blanks s)

-- A handler that begins with `parse_body`.
abbrev pub with_body :
    Context → HttpRequest → (Json → Engine → HttpResponse × Engine) → Engine → HttpResponse × Engine
with_body ctx req f e = elim (parse_body ctx req) [ replies res ↦ (res, e) | goes body ↦ f body e ]

unfoldable pub worker_register : Context → Env → Json → Engine → HttpResponse × Engine
unfolding register_worker answer error_json set_all get_string get_int to_int text
worker_register ctx env body e =
    let name = get_string body (text "name") (text "worker") in
    let capacity = to_int (get_int ctx.truncate body (text "capacity") (pos 1)) in
    let r = register_worker env name capacity e in
    if ltz capacity (pos 1) || ltz (pos 1024) capacity
    then (error_json ctx 400 (text "field 'capacity' must be between 1 and 1024"), e)
    else (
      answer ctx 200 (
          set_all empty_object (
            (text "worker_id", string (ctx.id_text r.1))
            ∷ (text "heartbeat_interval_ms", number (e.cfg.worker_heartbeat_timeout_ms / 3))
            ∷ (text "lease_duration_ms", number e.cfg.lease_duration_ms)
            ∷ [])),
      r.0,
    )

abbrev pub id_items : Context → List ℕ → Items
id_items ctx [] = nil
id_items ctx (id ∷ ids) = cons (string (ctx.id_text id)) (id_items ctx ids)

unfoldable pub worker_heartbeat : Context → Env → Json → Engine → HttpResponse × Engine
unfolding heartbeat_worker answer error_json set_all get_string text
worker_heartbeat ctx env body e =
    let worker_id = get_string body (text "worker_id") [] in
    let r = heartbeat_worker env (ctx.id_of worker_id) e in
    (
      if r.1
          then answer ctx 200 (
              set_all empty_object
                ((text "ok", boolean true) ∷ (text "cancel", array (id_items ctx r.2)) ∷ []))
          else error_json ctx 404 (text "unknown worker: " ++ worker_id),
      r.0,
    )

unfoldable pub leased_json : Context → LeasedJob → Json
unfolding set_all num text
leased_json ctx lj = set_all empty_object (
    (text "job_id", string (ctx.id_text lj.job_id))
    ∷ (text "type", string lj.type)
    ∷ (text "payload", lj.payload)
    ∷ (text "attempt", number lj.attempt)
    ∷ (text "lease_token", string (u64_to_string lj.lease_token))
    ∷ (text "timeout_ms", int lj.timeout_ms)
    ∷ (text "lease_expires_ms", number lj.lease_expires_ms)
    ∷ [])

unfoldable pub leased_items : Context → List LeasedJob → Items
unfolding leased_json
leased_items ctx [] = nil
leased_items ctx (lj ∷ rest) = cons (leased_json ctx lj) (leased_items ctx rest)

unfoldable pub claim_reply : Context → List LeasedJob → HttpResponse
unfolding leased_items answer set_all count_items text
claim_reply ctx leased =
    let items = leased_items ctx leased in
    answer ctx 200 (
      set_all empty_object
        ((text "jobs", array items) ∷ (text "count", number (count_items items)) ∷ []))

unfoldable pub worker_claim :
    Context → (ℕ → Env) → BatchWait → Json → Engine → HttpResponse × Engine
unfolding claim claim_reply error_json get_string get_int text
worker_claim ctx env wait body e =
    let worker_id = get_string body (text "worker_id") [] in
    let max_jobs = get_int ctx.truncate body (text "max_jobs") (pos 1) in
    let wait_ms = get_int ctx.truncate body (text "wait_ms") (pos 0) in
    let r =
      claim env (ctx.id_of worker_id) (pos_part max_jobs) (record wait { wait_ms = wait_ms }) e in
    if ltz max_jobs (pos 1) || ltz (pos 256) max_jobs
    then (error_json ctx 400 (text "field 'max_jobs' must be between 1 and 256"), e)
    else if ltz wait_ms (pos 0) || ltz (pos 60000) wait_ms
    then (error_json ctx 400 (text "field 'wait_ms' must be between 0 and 60000"), e)
    else (claim_reply ctx r.1, r.0)

-- `complete` with an `int`: no lease has a negative attempt.
unfoldable pub complete_int :
    Env → ℕ → ℕ → ℤ → ℕ → Text → Json → Text → Engine → Engine × CompleteStatus
unfolding complete
complete_int env worker_id job_id (pos attempt) token status result error e =
    complete env worker_id job_id attempt token status result error e
complete_int env worker_id job_id (negsuc n) token status result error e =
    (count count_stale e, CompleteStatus.stale_lease)

unfoldable pub complete_reply : Context → Text → CompleteStatus → HttpResponse
unfolding answer set_all job_not_found text
complete_reply ctx job_id CompleteStatus.accepted =
    answer ctx 200 (set_all empty_object ((text "accepted", boolean true) ∷ []))
complete_reply ctx job_id CompleteStatus.stale_lease = answer ctx 200 (
    set_all empty_object
      ((text "accepted", boolean false) ∷ (text "reason", string (text "stale_lease")) ∷ []))
complete_reply ctx job_id CompleteStatus.not_found = job_not_found ctx job_id

unfoldable pub is_outcome : Text → Bool
unfolding text
is_outcome status =
    text_eq status (text "SUCCEEDED")
    || text_eq status (text "FAILED")
    || text_eq status (text "TIMED_OUT")
    || text_eq status (text "CANCELLED")

-- `find("result")`, an empty object where there is none.
abbrev pub result_of : Json → Json
result_of body = elim (find body (text "result")) [ none ↦ empty_object | some j ↦ j ]

-- The call of the engine that a report makes.
unfoldable pub report : Context → Env → Json → Engine → Engine × CompleteStatus
unfolding complete_int string_to_u64 get_string get_int find to_int text
report ctx env body e =
    complete_int env (ctx.id_of (get_string body (text "worker_id") []))
      (ctx.id_of (get_string body (text "job_id") []))
      (to_int (get_int ctx.truncate body (text "attempt") (pos 0)))
      (string_to_u64 (get_string body (text "lease_token") (text "0")))
      (get_string body (text "status") []) (result_of body) (get_string body (text "error") []) e

unfoldable pub worker_complete : Context → Env → Json → Engine → HttpResponse × Engine
unfolding report complete_reply is_outcome error_json get_string text
worker_complete ctx env body e =
    let r = report ctx env body e in
    if is_outcome (get_string body (text "status") [])
    then (complete_reply ctx (get_string body (text "job_id") []) r.1, r.0)
    else (
      error_json ctx 400
          (text "field 'status' must be one of SUCCEEDED, FAILED, TIMED_OUT, CANCELLED"),
      e,
    )

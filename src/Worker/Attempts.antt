-- ===== src/Worker/Attempts.antt =====
-- The attempts of a remote worker: the loop over the claimed jobs in `poll_loop` of
-- src/worker/remote_worker.cpp.
use distributed_job_engine.Prelude.{
  ℕ, suc, ◌+◌, Bool, true, false, not, Option, none, some, List, [], ◌∷◌, ◌++◌, if◌then◌else◌,
  is_nil, Text, text, text_eq, ℤ, pos, ltz, pos_part, lookup, insert,
}
use distributed_job_engine.Json.{Json, int, string, find, get_int, get_bool, get_string}
use distributed_job_engine.Json.Parser.{parse_or_null}
use distributed_job_engine.Job.{Outcome, success, failure, threw, threw_other}
use distributed_job_engine.Api.{Context, empty_object}
use distributed_job_engine.Api.Submission.{to_int}
use distributed_job_engine.Api.Jobs.{set_all}
use distributed_job_engine.Worker.{HttpClientResponse, Active, RemoteWorker}

-- What the worker reads of one leased job.
pub record Lease : Type 0 where
  pub job_id : Text
  pub type : Text
  pub lease_token : Text
  pub attempt : ℤ
  pub timeout_ms : ℤ
  pub payload : Json

unfoldable pub read_lease : Context → Json → Lease
unfolding get_string get_int find to_int text
read_lease ctx j = record {
  job_id = get_string j (text "job_id") [];
  type = get_string j (text "type") [];
  lease_token = get_string j (text "lease_token") (text "0");
  attempt = to_int (get_int ctx.truncate j (text "attempt") (pos 1));
  timeout_ms = get_int ctx.truncate j (text "timeout_ms") (pos 0);
  payload = elim (find j (text "payload")) [ none ↦ empty_object | some p ↦ p ];
}

-- `active_[job_id] = a`, and `active_.erase(job_id)`.
unfoldable pub set_active : Text → Active → List (Text × Active) → List (Text × Active)
set_active id a [] = (id, a) ∷ []
set_active id a ((k, b) ∷ rest) =
    let later = set_active id a rest in if text_eq k id then (k, a) ∷ rest else (k, b) ∷ later

unfoldable pub erase_active : Text → List (Text × Active) → List (Text × Active)
erase_active id [] = []
erase_active id ((k, b) ∷ rest) =
    let later = erase_active id rest in if text_eq k id then later else (k, b) ∷ later

unfoldable pub begin_lease : ℕ → Lease → RemoteWorker → RemoteWorker
unfolding set_active
begin_lease now lease w = record w {
  flags = insert w.next_cell false w.flags;
  next_cell = suc w.next_cell;
  active =
      set_active lease.job_id
        (record {
          cell = w.next_cell;
          deadline_wall_ms =
              if ltz (pos 0) lease.timeout_ms then now + pos_part lease.timeout_ms else 0;
        })
        w.active;
}

-- The status, the result and the error of a report.
pub record Report : Type 0 where
  pub status : Text
  pub result : Json
  pub error : Text

abbrev reported : Text → Json → Text → Report
reported status result error = record { status = status; result = result; error = error }

-- The handler came back, with the cancel flag as it is then.
unfoldable pub returned : Bool → Outcome → Report
unfolding text
returned flag (threw what) = reported (text "FAILED") empty_object (text "handler threw: " ++ what)
returned flag threw_other =
    reported (text "FAILED") empty_object (text "handler threw a non-standard exception")
returned true (success r) = reported (text "TIMED_OUT") empty_object (text "deadline exceeded")
returned true (failure m) =
    reported (text "TIMED_OUT") empty_object (if is_nil m then text "deadline exceeded" else m)
returned false (success r) = reported (text "SUCCEEDED") r []
returned false (failure m) = reported (text "FAILED") empty_object m

unfoldable pub outcome_report : Text → Bool → Option Outcome → Report
unfolding returned text
outcome_report type flag none =
    reported (text "FAILED") empty_object
      (text "worker has no handler registered for type " ++ type)
outcome_report type flag (some out) = returned flag out

unfoldable pub done_body : Text → Lease → Report → Json
unfolding set_all text
done_body worker_id lease r = set_all empty_object (
    (text "worker_id", string worker_id)
    ∷ (text "job_id", string lease.job_id)
    ∷ (text "attempt", int lease.attempt)
    ∷ (text "lease_token", string lease.lease_token)
    ∷ (text "status", string r.status)
    ∷ (text "result", r.result)
    ∷ (text "error", string r.error)
    ∷ [])

-- The counters behind the answer to a report.
unfoldable pub count_report : Context → Report → HttpClientResponse → RemoteWorker → RemoteWorker
unfolding parse_or_null get_bool text
count_report ctx r res w =
    if not res.ok
    then w
    else if not (get_bool (parse_or_null ctx.double_text res.body) (text "accepted") false)
    then record w { rejected = suc w.rejected }
    else if text_eq r.status (text "SUCCEEDED")
    then record w { completed = suc w.completed }
    else record w { failed = suc w.failed }

abbrev flag_at : ℕ → RemoteWorker → Bool
flag_at cell w = elim (lookup cell w.flags) [ none ↦ false | some b ↦ b ]

-- One turn of the loop over the claimed jobs. While the handler runs, `others` is what the other
-- threads do; `post` is what the coordinator answers to a body.
unfoldable pub run_lease :
    Context
    → ℕ
    → (Lease → Option Outcome)
    → (RemoteWorker → RemoteWorker)
    → (Json → HttpClientResponse)
    → Json
    → RemoteWorker
    → RemoteWorker
unfolding read_lease begin_lease outcome_report erase_active done_body count_report
run_lease ctx now handler others post j w =
    let lease = read_lease ctx j in
    let ran = others (begin_lease now lease w) in
    let r = outcome_report lease.type (flag_at w.next_cell ran) (handler lease) in
    let free = record ran { active = erase_active lease.job_id ran.active } in
    count_report ctx r (post (done_body w.worker_id lease r)) free

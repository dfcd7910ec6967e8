-- ===== src/Worker.antt =====
-- `RemoteWorker` of src/worker/remote_worker.cpp: the bodies that it sends, how it reads the answers,
-- and what it keeps of the attempts that run.
pub mod Attempts
pub mod Reports
use distributed_job_engine.Prelude.{
  ℕ, suc, ◌+◌, Bool, true, false, not, ◌&&◌, Option, none, some, List, [], ◌∷◌, ◌++◌, ltb, ◌==◌,
  if◌then◌else◌, is_nil, Text, text, text_eq, ℤ, pos, ltz, maxz, pos_part, lookup, insert,
}
use distributed_job_engine.Util.{num}
use distributed_job_engine.Json.{
  Json, Items, null, int, string, array, nil, cons, find, get_int, get_bool, get_string,
}
use distributed_job_engine.Json.Parser.{parse_or_null}
use distributed_job_engine.Job.{Outcome, success, failure, threw, threw_other}
use distributed_job_engine.Api.{Context, empty_object}
use distributed_job_engine.Api.Submission.{to_int}
use distributed_job_engine.Api.Jobs.{set_all, number}

pub record HttpClientResponse : Type 0 where
  pub ok : Bool
  pub status : ℤ
  pub body : Text
  pub error : Text

pub record RemoteWorkerConfig : Type 0 where
  pub name : Text
  pub threads : ℕ
  pub poll_wait_ms : ℤ
  pub heartbeat_ms : ℤ

-- An attempt that runs: the cell of its cancel flag, which its handler shares, and its deadline.
pub record Active : Type 0 where
  pub cell : ℕ
  pub deadline_wall_ms : ℕ

pub record RemoteWorker : Type 0 where
  pub cfg : RemoteWorkerConfig
  pub worker_id : Text
  pub heartbeat_interval_ms : ℤ
  pub active : List (Text × Active)
  pub flags : List (ℕ × Bool)
  pub next_cell : ℕ
  pub completed : ℕ
  pub failed : ℕ
  pub rejected : ℕ

unfoldable pub register_body : RemoteWorkerConfig → Json
unfolding set_all text
register_body cfg =
    set_all empty_object
      ((text "name", string cfg.name) ∷ (text "capacity", number cfg.threads) ∷ [])

-- What `start` does with the answer: a message, or the worker with its id and interval.
pub data Registered : Type 0 where
  refused : Text → Registered
  registered : RemoteWorker → Registered

unfoldable pub read_registration : Context → RemoteWorker → Json → Registered
unfolding get_string get_int text
read_registration ctx w reply =
    let id = get_string reply (text "worker_id") [] in
    if is_nil id
    then refused (text "coordinator returned no worker_id")
    else registered (record w {
      worker_id = id;
      heartbeat_interval_ms =
          if ltz (pos 0) w.cfg.heartbeat_ms
          then w.cfg.heartbeat_ms
          else maxz (pos 250)
              (get_int ctx.truncate reply (text "heartbeat_interval_ms") (pos 2000));
    })

abbrev is_200 : ℤ → Bool
is_200 (pos n) = n == 200
is_200 _ = false

unfoldable pub start : Context → HttpClientResponse → RemoteWorker → Registered
unfolding read_registration parse_or_null num text
start ctx res w =
    if not res.ok
    then refused (text "cannot reach coordinator: " ++ res.error)
    else if not (is_200 res.status)
    then refused (text "registration rejected: HTTP " ++ num res.status ++ text " " ++ res.body)
    else read_registration ctx w (parse_or_null ctx.double_text res.body)

unfoldable pub heartbeat_body : RemoteWorker → Json
unfolding set_all text
heartbeat_body w = set_all empty_object ((text "worker_id", string w.worker_id) ∷ [])

unfoldable pub find_active : Text → List (Text × Active) → Option Active
find_active id [] = none
find_active id ((k, a) ∷ rest) =
    let later = find_active id rest in if text_eq k id then some a else later

abbrev raise : ℕ → RemoteWorker → RemoteWorker
raise cell w = record w { flags = insert cell true w.flags }

abbrev as_string : Json → Text
as_string (string s) = s
as_string _ = []

-- The loop over the `cancel` array of an answer.
unfoldable pub apply_cancels : Items → RemoteWorker → RemoteWorker
unfolding find_active
apply_cancels nil w = w
apply_cancels (cons j rest) w =
    apply_cancels rest
      (elim (find_active (as_string j) w.active) [ none ↦ w | some a ↦ raise a.cell w ])

abbrev cancel_items : Option Json → Items
cancel_items (some (array items)) = items
cancel_items _ = nil

-- The loop over the active attempts: those over their deadline are cancelled.
unfoldable pub enforce_deadlines : ℕ → List (Text × Active) → RemoteWorker → RemoteWorker
enforce_deadlines now [] w = w
enforce_deadlines now ((id, a) ∷ rest) w =
    enforce_deadlines now rest
      (if ltb 0 a.deadline_wall_ms && ltb a.deadline_wall_ms now then raise a.cell w else w)

-- One round of `heartbeat_loop` behind the call.
unfoldable pub heartbeat_round : Context → ℕ → HttpClientResponse → RemoteWorker → RemoteWorker
unfolding apply_cancels enforce_deadlines parse_or_null find text
heartbeat_round ctx now res w =
    let cancel = find (parse_or_null ctx.double_text res.body) (text "cancel") in
    let told = apply_cancels (cancel_items cancel) w in
    if res.ok then enforce_deadlines now told.active told else w

unfoldable pub claim_body : RemoteWorker → Json
unfolding set_all text
claim_body w = set_all empty_object (
    (text "worker_id", string w.worker_id)
    ∷ (text "max_jobs", number 1)
    ∷ (text "wait_ms", int w.cfg.poll_wait_ms)
    ∷ [])

-- The jobs of the answer to a claim; none where the call failed or was refused.
unfoldable pub claimed_jobs : Context → HttpClientResponse → Items
unfolding parse_or_null find text
claimed_jobs ctx res =
    let jobs = find (parse_or_null ctx.double_text res.body) (text "jobs") in
    if res.ok && is_200 res.status then cancel_items jobs else nil

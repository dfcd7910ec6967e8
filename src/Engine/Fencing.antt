-- ===== src/Engine/Fencing.antt =====
-- Lease fencing: a result is recorded once, and never after the lease was taken away, also where the
-- check of a report (the first lock of `complete` in src/engine/engine.cpp) has already passed.
use distributed_job_engine.Prelude.{
  ℕ, ◌≡◌, ap, sym, subst, ◌∙◌, Bool, some, List, lookup, arith, Text,
}
use distributed_job_engine.Json.{Json}
use distributed_job_engine.Job.{Job, RunningInfo}
use distributed_job_engine.Engine.State.{Env, Engine, get_job, count}
use distributed_job_engine.Engine.Completion.{claim_finish, finish_attempt, count_stale}
use distributed_job_engine.Engine.Remote.{
  accepted, stale_lease, check_lease, complete_held, complete, reported,
}
use distributed_job_engine.Engine.Watchdog.{expire_lease}
use distributed_job_engine.Engine.Free.{Free, expired-Free}
use distributed_job_engine.Engine.Events.{Event, run_events, NoStart, run_events-Free}

stale_without_lease :
    (env : Env) (worker_id id attempt token : ℕ) (status : Text) (result : Json) (error : Text)
    (e : Engine)
    → Free id e
    → complete env worker_id id attempt token status result error e
      ≡ (count count_stale e, stale_lease)
unfolding complete check_lease
stale_without_lease env worker_id id attempt token status result error e free = ground (arith, free)

finish_without_lease :
    (env : Env) (job : Job) (info : RunningInfo) (ok : Bool) (result : Json) (error : Text)
    (e : Engine)
    → Free job.job_id e
    → finish_attempt env job info ok result error e ≡ count count_stale e
unfolding finish_attempt claim_finish
finish_without_lease env job info ok result error e free = ground (arith, free)

-- The report of a status only touches the shared cell of the attempt.
reported_running :
    (status : Text) (info : RunningInfo) (e : Engine) → (reported status info e).running ≡ e.running
reported_running status info e = ground arith

module _ (env' : Env) (worker_id' attempt' token' : ℕ) (status' : Text) (result' : Json)
    (error' : Text) (job' : Job) (info' : RunningInfo) (ok' : Bool) where
  -- A report of the job is refused as stale, and the end of an attempt of it, whose check may have
  -- passed before, is too: each only adds one to the count of stale results.
  abbrev pub RecordsNothing : ℕ → Engine → Type 0
  RecordsNothing id e =
      (complete env' worker_id' id attempt' token' status' result' error' e
        ≡ (count count_stale e, stale_lease))
      × (finish_attempt env' job' info' ok' result' error' e ≡ count count_stale e)

  Free-RecordsNothing : (id : ℕ) (e : Engine) → job'.job_id ≡ id → Free id e → RecordsNothing id e
  Free-RecordsNothing id e key free = (
    stale_without_lease env' worker_id' id attempt' token' status' result' error' e free,
    finish_without_lease env' job' info' ok' result' error' e
        (subst (λ k. Free k e) (sym key) free),
  )

  -- Once the watchdog has taken the lease of a job away, and after any history of cancellations,
  -- starts, heartbeats, watchdog rounds, checks of reports and ends of attempts in which no start
  -- gives the job, nothing is recorded for it: any report is refused as stale, and the end of any
  -- attempt of it, whose check may have passed before, changes only the count of stale results.
  pub expired_lease_fenced :
      (env : Env) (id : ℕ) (e : Engine) (history : List Event)
      → job'.job_id ≡ id
      → NoStart id (expire_lease env id e) history
      → RecordsNothing id (run_events (expire_lease env id e) history)
  expired_lease_fenced env id e history key no_start =
      let e' = expire_lease env id e in
      Free-RecordsNothing id (run_events e' history) key
        (run_events-Free id e' history no_start (expired-Free id env e))

-- A report whose check found its lease, and which the watchdog then overtakes, is answered as accepted,
-- after any history in which no start gives the job: but all that is left of it is the cancel reason
-- and one more stale result. The job has its row, under its own id.
pub late_report_accepted :
    (env env' : Env) (worker_id id attempt token : ℕ) (info : RunningInfo) (status : Text)
    (result : Json) (error : Text) (job : Job) (e e' : Engine) (history : List Event)
    → check_lease worker_id id attempt token e ≡ (e, some info)
    → NoStart id (expire_lease env id e) history
    → e' ≡ run_events (expire_lease env id e) history
    → get_job id e' ≡ some job
    → job.job_id ≡ id
    → complete_held env' info id status result error e'
      ≡ (count count_stale (reported status info e'), accepted)
unfolding complete_held
late_report_accepted env env' worker_id id attempt token info status result error job e e' history
      passed no_start same found key =
    let free : Free id e' =
      subst (Free id) (sym same)
        (run_events-Free id (expire_lease env id e) history no_start (expired-Free id env e)) in
    let free' : Free job.job_id (reported status info e') =
      subst (λ k. Free k (reported status info e')) (sym key)
        (ap (lookup id) (reported_running status info e') ∙ free) in
    rw (found, complete_held)
      (ap (λ (x : Engine). (x, accepted))
        (finish_without_lease env' job info _ result error (reported status info e') free'))

-- ===== src/Engine/Overwritten.antt =====
-- A cancellation of a job that a remote worker runs, and the report of that worker.
use distributed_job_engine.Prelude.{
  ℕ, ◌≡◌, refl, ap, sym, subst, ◌∙◌, Bool, true, false, some, lookup, erase, lookup-insert_self,
  arith, Text, text, text_eq,
}
use distributed_job_engine.Lifecycle.{running, timed_out, same_state}
use distributed_job_engine.Json.{Json}
use distributed_job_engine.Job.{Job, RunningInfo, CancelReason, CancelCell, timeout, user}
use distributed_job_engine.Engine.State.{Env, Engine, get_job, set_job, update_job}
use distributed_job_engine.Engine.Attempts.{ok, cancel, cancel_running, signal_cancel}
use distributed_job_engine.Engine.Completion.{
  claim_finish, record_finish, finish_attempt, reason_of, decide, retry_or,
}
use distributed_job_engine.Engine.Remote.{accepted, complete, reported, set_reason}
use distributed_job_engine.Engine.Rows.{Keyed, set_job-Keyed, get_job-set_job}
use distributed_job_engine.Engine.Outcomes.{record_finish-row}

complete_found :
    (env : Env) (id : ℕ) (job : Job) (info : RunningInfo) (status : Text) (result : Json)
    (error : Text) (e : Engine)
    → lookup id e.running ≡ some info
    → get_job id e ≡ some job
    → complete env info.owner id info.attempt info.lease_token status result error e ≡ (
      finish_attempt env job info
          (text_eq status (text "SUCCEEDED"))
          result
          error
          (reported status info e),
      accepted,
    )
unfolding complete
complete_found env id job info status result error e held found = ground (arith, held, found)

reported-eq :
    (info : RunningInfo) (e : Engine)
    → reported (text "TIMED_OUT") info e ≡ set_reason timeout info e
unfolding text text_eq
reported-eq info e = refl

reason_of-set_reason :
    (info : RunningInfo) (c : CancelCell) (e : Engine)
    → lookup info.cell e.cells ≡ some c
    → reason_of info (set_reason timeout info e) ≡ timeout
reason_of-set_reason info c e h =
    ground (arith, h, lookup-insert_self info.cell (record c { reason = timeout }) e.cells)

finish_attempt_found :
    (env : Env) (job : Job) (info : RunningInfo) (success : Bool) (result : Json) (error : Text)
    (e : Engine)
    → lookup job.job_id e.running ≡ some info
    → finish_attempt env job info success result error e
      ≡ record_finish env job info success result error
          (record e { running = erase job.job_id e.running })
unfolding finish_attempt claim_finish
finish_attempt_found env job info success result error e held = ground (arith, held)

module _ (env : Env) (id : ℕ) (job : Job) (info : RunningInfo) (e : Engine)
    (found : get_job id e ≡ some job) (key : job.job_id ≡ id)
    (runs : same_state job.state running ≡ true) (held : lookup id e.running ≡ some info)
    (written : env.writes id ≡ true) where
  asked : Job
  asked = record job { cancel_requested = true }

  signalled : Engine
  signalled = signal_cancel user info.cell (set_job asked e)

  cancel-signals : cancel env id e ≡ (signalled, ok)
  unfolding signalled asked cancel cancel_running update_job set_job
  cancel-signals = ground (arith, found, runs, held, written, key)

  signalled-row : get_job id signalled ≡ some asked
  unfolding signalled signal_cancel asked get_job
  signalled-row =
      subst (λ k. get_job k (set_job asked e) ≡ some asked) key (get_job-set_job asked e)

  signalled-held : lookup id signalled.running ≡ some info
  unfolding signalled signal_cancel set_job
  signalled-held = held

  signalled-Keyed : Keyed e → Keyed signalled
  unfolding signalled signal_cancel get_job
  signalled-Keyed keyed = set_job-Keyed asked e keyed

  signalled-cell : lookup info.cell signalled.cells ≡ some (record { flag = true; reason = user })
  unfolding signalled signal_cancel set_job
  signalled-cell = lookup-insert_self info.cell (record { flag = true; reason = user }) e.cells

  answered : Engine
  answered = record (set_reason timeout info signalled) {
    running = erase job.job_id signalled.running;
  }

  answered-Keyed : Keyed e → Keyed answered
  unfolding answered get_job
  answered-Keyed keyed = signalled-Keyed keyed

  answered-reason : reason_of info answered ≡ timeout
  unfolding answered
  answered-reason = reason_of-set_reason info _ signalled signalled-cell

  finished :
      (env' : Env) (result : Json) (error : Text)
      → Keyed e
      → env'.writes id ≡ true
      → (row : Job) × (get_job id (record_finish env' asked info false result error answered)
          ≡ some row)
        × (row.state ≡ retry_or timed_out job)
  unfolding decide asked
  finished env' result error keyed written' =
      let (row, stored, state) =
        record_finish-row env' asked info false result error answered (answered-Keyed keyed)
          (subst (λ k. env'.writes k ≡ true) (sym key) written') in
      (
        row,
        subst
            (λ k. get_job k (record_finish env' asked info false result error answered) ≡ some row)
            key stored,
        state
            ∙ ap (λ (reason : CancelReason). (decide reason false error asked).state)
                answered-reason,
      )

  completed :
      (env' : Env) (result : Json) (error : Text)
      → complete env' info.owner id info.attempt info.lease_token
          (text "TIMED_OUT")
          result
          error
          signalled
        ≡ (record_finish env' asked info false result error answered, accepted)
  unfolding answered text text_eq asked
  completed env' result error =
      complete_found env' id asked info (text "TIMED_OUT") result error signalled signalled-held
        signalled-row
      ∙ ap (λ (r : Engine). (r, accepted))
          (ap (finish_attempt env' asked info false result error) (reported-eq info signalled)
            ∙ finish_attempt_found env' asked info false result error
                (set_reason timeout info signalled)
                (subst (λ k. lookup k signalled.running ≡ some info) (sym key) signalled-held))

  overwritten :
      (env' : Env) (result : Json) (error : Text)
      → Keyed e
      → env'.writes id ≡ true
      → let c = cancel env id e in
        let done =
          complete env' info.owner id info.attempt info.lease_token
            (text "TIMED_OUT")
            result
            error
            c.0 in
        (c.1 ≡ ok)
        × (done.1 ≡ accepted)
        × ((row : Job) × (get_job id done.0 ≡ some row) × (row.state ≡ retry_or timed_out job))
  overwritten env' result error keyed written' =
      rw cancel-signals
        (rw (completed env' result error) (refl, refl, finished env' result error keyed written'))

-- A client cancels a job that a worker holds, and the holder then reports TIMED_OUT, as a worker does
-- for every attempt whose cancel flag is up. The cancellation answers `ok` and the report is accepted,
-- but the row is not CANCELLED: it is RETRYING while the job has attempts left, and TIMED_OUT after
-- its last. The store is keyed and both writes of the row succeed.
pub cancelled_remote_job :
    (env env' : Env) (id : ℕ) (job : Job) (info : RunningInfo) (result : Json) (error : Text)
    (e : Engine)
    → Keyed e
    → get_job id e ≡ some job
    → same_state job.state running ≡ true
    → lookup id e.running ≡ some info
    → env.writes id ≡ true
    → env'.writes id ≡ true
    → let c = cancel env id e in
      let done =
        complete env' info.owner id info.attempt info.lease_token
          (text "TIMED_OUT")
          result
          error
          c.0 in
      (c.1 ≡ ok)
      × (done.1 ≡ accepted)
      × ((row : Job) × (get_job id done.0 ≡ some row) × (row.state ≡ retry_or timed_out job))
cancelled_remote_job env env' id job info result error e keyed found runs held written written' =
    overwritten env id job info e found (keyed id job found) runs held written env' result error
      keyed written'

-- ===== src/Engine/Events.antt =====
-- Histories of the engine in which reports are in flight: the check of a report and its end are events
-- of their own (`complete` and `finish_attempt` of src/engine/engine.cpp take the lock twice).
use distributed_job_engine.Prelude.{
  ℕ, Bool, List, [], ◌∷◌, Text, lookup, arith, Option-cases, Bool-cases, inl, inr,
}
use distributed_job_engine.Json.{Json}
use distributed_job_engine.Job.{Job, RunningInfo}
use distributed_job_engine.Engine.State.{Env, Engine, get_job, count}
use distributed_job_engine.Engine.Completion.{finish_attempt}
use distributed_job_engine.Engine.Attempts.{begin_attempt}
use distributed_job_engine.Engine.Remote.{check_lease, complete_held, reported, is_holder}
use distributed_job_engine.Engine.Final.{Call, cancels, begins, beats, watches, step}
use distributed_job_engine.Engine.Free.{
  Free, GivesOther, same-Free, finish_attempt-Free, cancel-Free, begin_attempt-Free, heartbeat-Free,
  watchdog-Free,
}

-- A call, the check of a report, the rest of a report whose check found `info`, or the end of an
-- attempt of a local worker.
pub data Event : Type 0 where
  calls : Call → Event
  checks : ℕ → ℕ → ℕ → ℕ → Event
  reports : Env → RunningInfo → ℕ → Text → Json → Text → Event
  finishes : Env → Job → RunningInfo → Bool → Json → Text → Event

unfoldable pub handle_event : Engine → Event → Engine
unfolding step
handle_event e (calls c) = step e c
handle_event e (checks worker_id id attempt token) = (check_lease worker_id id attempt token e).0
handle_event e (reports env info id status result error) =
    (complete_held env info id status result error e).0
handle_event e (finishes env job info ok result error) =
    finish_attempt env job info ok result error e

unfoldable pub run_events : Engine → List Event → Engine
unfolding handle_event
run_events e [] = e
run_events e (x ∷ xs) = run_events (handle_event e x) xs

-- The event does not start the job.
abbrev pub Spares : ℕ → Engine → Event → Type 0
Spares id e (calls (begins env k owner eligible_at remote)) =
    GivesOther id (begin_attempt env k owner eligible_at remote e).1
Spares id e _ = Unit {0}

-- No event of the history starts the job.
abbrev pub NoStart : ℕ → Engine → List Event → Type 0
NoStart id e [] = Unit {0}
NoStart id e (x ∷ xs) = Spares id e x × NoStart id (handle_event e x) xs

module _ (id : ℕ) where
  check_lease-Free :
      (worker_id k attempt token : ℕ) (e : Engine)
      → Free id e
      → Free id (check_lease worker_id k attempt token e).0
  unfolding check_lease count
  check_lease-Free worker_id k attempt token e h = elim (Option-cases (lookup k e.running)) [
    | inl missing ↦ rw (missing, check_lease) h
    | inr (info, held) ↦
        rw (held, check_lease)
          (elim (Bool-cases (is_holder worker_id attempt token info)) [
            | inl mine ↦ rw mine h
            | inr other ↦ rw other h
          ])
  ]

  reported-Free :
      (status : Text) (info : RunningInfo) (e : Engine)
      → Free id e
      → Free id (reported status info e)
  reported-Free status info e h = same-Free id e (reported status info e) (ground arith) h

  complete_held-Free :
      (env : Env) (info : RunningInfo) (k : ℕ) (status : Text) (result : Json) (error : Text)
      (e : Engine)
      → Free id e
      → Free id (complete_held env info k status result error e).0
  unfolding complete_held
  complete_held-Free env info k status result error e h = elim (Option-cases (get_job k e)) [
    | inl missing ↦ rw (missing, complete_held) h
    | inr (job, found) ↦
        rw (found, complete_held)
          (finish_attempt-Free id env job info _ result error (reported status info e)
            (reported-Free status info e h))
  ]

  handle_event-Free :
      (e : Engine) (x : Event) → Spares id e x → Free id e → Free id (handle_event e x)
  unfolding handle_event step
  handle_event-Free e (calls (cancels env k)) other h = cancel-Free id env k e h
  handle_event-Free e (calls (begins env k owner eligible_at remote)) other h =
      begin_attempt-Free id env k owner eligible_at remote e h other
  handle_event-Free e (calls (beats env worker_id)) other h = heartbeat-Free id env worker_id e h
  handle_event-Free e (calls (watches env)) other h = watchdog-Free id env e h
  handle_event-Free e (checks worker_id k attempt token) other h =
      check_lease-Free worker_id k attempt token e h
  handle_event-Free e (reports env info k status result error) other h =
      complete_held-Free env info k status result error e h
  handle_event-Free e (finishes env job info ok result error) other h =
      finish_attempt-Free id env job info ok result error e h

  pub run_events-Free :
      (e : Engine) (xs : List Event) → NoStart id e xs → Free id e → Free id (run_events e xs)
  unfolding run_events
  run_events-Free e [] other h = h
  run_events-Free e (x ∷ xs) other h =
      run_events-Free (handle_event e x) xs other.1 (handle_event-Free e x other.0 h)

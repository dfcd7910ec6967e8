-- ===== src/Engine/Free.antt =====
-- Which calls leave the table of running attempts without an entry for a job: all but a start of that
-- job.
use distributed_job_engine.Prelude.{
  ℕ, ◌+◌, ◌==◌, ◌≡◌, ◌≢◌, refl, ◌∙◌, ap, Bool, true, not, none, some, List, [], ◌∷◌, lookup, insert,
  erase, lookup-insert, lookup-erase, lookup-erase_self, arith, Option-cases, Bool-cases, inl, inr,
  if_cases, ltz, pos, Text,
}
use distributed_job_engine.Lifecycle.{running, is_terminal, same_state}
use distributed_job_engine.Json.{Json}
use distributed_job_engine.Job.{Job, RunningInfo}
use distributed_job_engine.Engine.State.{
  Env, Engine, get_job, update_job, persist, enqueue, dequeue, count,
}
use distributed_job_engine.Engine.Completion.{claim_finish, record_finish, finish_attempt}
use distributed_job_engine.Engine.Attempts.{
  CancelStatus, cancel, cancel_running, cancel_waiting, cancelled_job, signal_cancel, Started,
  begin_attempt, start_job, cancel_at_start, register_running, started_job, can_start,
  count_cancelled, running_info,
}
use distributed_job_engine.Engine.Remote.{heartbeat_worker, touch_worker, beat, extend_leases}
use distributed_job_engine.Engine.Watchdog.{
  watchdog_round, scan, lost_jobs, silent_workers, expire_all, expire_lease, reassign, bury_workers,
  bury_worker, reassigned_job, exhausted_job, count_expired_failed,
}
use distributed_job_engine.Engine.Workflow.{conclude}
use distributed_job_engine.Engine.Frames.{
  update_job-running, conclude_frame, persist-running, record_finish_frame,
}

-- No attempt of the job is running.
abbrev pub Free : ℕ → Engine → Type 0
Free id e = lookup id e.running ≡ none

module _ (id : ℕ) where
  pub same-Free : (e e' : Engine) → e'.running ≡ e.running → Free id e → Free id e'
  same-Free e e' same h = ap (lookup id) same ∙ h

  pub finish_attempt-Free :
      (env : Env) (job : Job) (info : RunningInfo) (ok : Bool) (result : Json) (error : Text)
      (e : Engine)
      → Free id e
      → Free id (finish_attempt env job info ok result error e)
  unfolding finish_attempt claim_finish count
  finish_attempt-Free env job info ok result error e h =
      elim (Option-cases (lookup job.job_id e.running)) [
        | inl missing ↦ rw (missing, finish_attempt, claim_finish) h
        | inr (current, held) ↦
            rw (held, finish_attempt, claim_finish)
              (elim (Bool-cases (current.lease_token == info.lease_token)) [
                | inl mine ↦ rw mine (
                    let e' : Engine = record e { running = erase job.job_id e.running } in
                    same-Free e' (record_finish env job info ok result error e')
                      (record_finish_frame env job info ok result error e')
                      (ground (arith, lookup-erase job.job_id id e.running, h)))
                | inr other ↦ rw other h
              ])
      ]

  conclude-Free : (env : Env) (j : Job) (e : Engine) → Free id e → Free id (conclude env j e)
  conclude-Free env j e h = same-Free e (conclude env j e) (conclude_frame env j e) h

  update-Free : (env : Env) (j : Job) (e : Engine) → Free id e → Free id (update_job env j e).0
  update-Free env j e h = same-Free e (update_job env j e).0 (update_job-running env j e) h

  cancel_running-Free :
      (env : Env) (j : Job) (e : Engine) → Free id e → Free id (cancel_running env j e).0
  unfolding cancel_running signal_cancel
  cancel_running-Free env j e h =
      let j' = record j { cancel_requested = true } in
      let kept = update-Free env j' e h in
      if_cases (λ (r : Engine × CancelStatus). Free id r.0) (update_job env j' e).1 _ _
        (λ _. elim (Option-cases (lookup j.job_id (update_job env j' e).0.running)) [
          | inl none_running ↦ rw none_running kept
          | inr (info, found) ↦ rw found kept
        ])
        (λ _. kept)

  cancel_waiting-Free :
      (env : Env) (j : Job) (e : Engine) → Free id e → Free id (cancel_waiting env j e).0
  unfolding cancel_waiting dequeue count
  cancel_waiting-Free env j e h =
      let j' = cancelled_job env j in
      let w = update_job env j' (dequeue j.job_id e) in
      let kept = update-Free env j' (dequeue j.job_id e) h in
      if_cases (λ (r : Engine × CancelStatus). Free id r.0) w.1 _ _
        (λ _. conclude-Free env j' (count count_cancelled w.0) kept) (λ _. kept)

  pub cancel-Free : (env : Env) (k : ℕ) (e : Engine) → Free id e → Free id (cancel env k e).0
  unfolding cancel
  cancel-Free env k e h = elim (Option-cases (get_job k e)) [
    | inl missing ↦ rw (missing, cancel) h
    | inr (j, found) ↦
        rw (found, cancel)
          (if_cases (λ (r : Engine × CancelStatus). Free id r.0) (is_terminal j.state) _ _ (λ _. h)
            (λ _.
              if_cases (λ (r : Engine × CancelStatus). Free id r.0) (same_state j.state running) _ _
                (λ _. cancel_running-Free env j e h) (λ _. cancel_waiting-Free env j e h)))
  ]

  -- The job that a start gives is another one, if it gives one.
  abbrev pub GivesOther : Started → Type 0
  GivesOther none = Unit {0}
  GivesOther (some (job, info)) = job.job_id ≢ id

  start_job-Free :
      (env : Env) (owner eligible_at : ℕ) (remote : Bool) (j : Job) (e : Engine)
      → Free id e
      → GivesOther (start_job env owner eligible_at remote j e).1
      → Free id (start_job env owner eligible_at remote j e).0
  unfolding start_job register_running enqueue count
  start_job-Free env owner eligible_at remote j e h =
      let j' = started_job env e owner eligible_at remote j in
      let info = running_info e owner remote eligible_at j' in
      let kept = update-Free env j' e h in
      if_cases (λ (r : Engine × Started). GivesOther r.1 → Free id r.0) (update_job env j' e).1 _ _
        (λ _ other.
          ground
            (arith, lookup-insert j'.job_id id info (update_job env j' e).0.running, other, kept))
        (λ _ none_given. kept)

  cancel_at_start-Free :
      (env : Env) (j : Job) (e : Engine) → Free id e → Free id (cancel_at_start env j e).0
  unfolding cancel_at_start count persist
  cancel_at_start-Free env j e h = conclude-Free env _ _ (update-Free env _ e h)

  pub begin_attempt-Free :
      (env : Env) (k owner eligible_at : ℕ) (remote : Bool) (e : Engine)
      → Free id e
      → GivesOther (begin_attempt env k owner eligible_at remote e).1
      → Free id (begin_attempt env k owner eligible_at remote e).0
  unfolding begin_attempt
  begin_attempt-Free env k owner eligible_at remote e h = elim (Option-cases (get_job k e)) [
    | inl missing ↦ rw (missing, begin_attempt) (λ o. h)
    | inr (j, found) ↦
        rw (found, begin_attempt)
          (if_cases (λ (r : Engine × Started). GivesOther r.1 → Free id r.0) (is_terminal j.state) _
            _ (λ _ o. h)
            (λ _.
              if_cases (λ (r : Engine × Started). GivesOther r.1 → Free id r.0)
                (not (can_start j.state)) _ _ (λ _ o. h)
                (λ _.
                  if_cases (λ (r : Engine × Started). GivesOther r.1 → Free id r.0)
                    j.cancel_requested _ _ (λ _ o. cancel_at_start-Free env j e h)
                    (λ _. start_job-Free env owner eligible_at remote j e h))))
  ]

  extend_leases-Free :
      (worker_id expires : ℕ) (m : List (ℕ × RunningInfo))
      → lookup id m ≡ none
      → lookup id (extend_leases worker_id expires m) ≡ none
  unfolding extend_leases lookup
  extend_leases-Free worker_id expires [] h = refl
  extend_leases-Free worker_id expires ((k, info) ∷ m) h =
      ground (arith, extend_leases-Free worker_id expires m)

  touch_worker-running :
      (worker_id : ℕ) (env : Env) (e : Engine) → (touch_worker worker_id env e).running ≡ e.running
  unfolding touch_worker
  touch_worker-running worker_id env e = ground arith

  pub heartbeat-Free :
      (env : Env) (worker_id : ℕ) (e : Engine)
      → Free id e
      → Free id (heartbeat_worker env worker_id e).0
  unfolding heartbeat_worker
  heartbeat-Free env worker_id e h = elim (Option-cases (lookup worker_id e.remote_workers)) [
    | inl missing ↦ rw (missing, heartbeat_worker) h
    | inr (w, found) ↦
        let e' : Engine = record e {
          remote_workers = insert worker_id (beat env.wall w) e.remote_workers;
          running = extend_leases worker_id (env.wall + e.cfg.lease_duration_ms) e.running;
        } in
        rw (found, heartbeat_worker)
          (same-Free e' (touch_worker worker_id env e') (touch_worker-running worker_id env e')
            (extend_leases-Free worker_id (env.wall + e.cfg.lease_duration_ms) e.running h))
  ]

  reassign_frame : (env : Env) (j : Job) (e : Engine) → (reassign env j e).running ≡ e.running
  unfolding reassign enqueue count
  reassign_frame env j e =
      if_cases (λ (r : Engine). r.running ≡ e.running) (ltz (pos j.attempt) j.retry.max_attempts) _
        _ (λ _. persist-running env (reassigned_job env.wall j) e)
        (λ _.
          conclude_frame env (exhausted_job env.wall j)
            (count count_expired_failed (persist env (exhausted_job env.wall j) e))
          ∙ persist-running env (exhausted_job env.wall j) e)

  reassign-Free : (env : Env) (j : Job) (e : Engine) → Free id e → Free id (reassign env j e)
  reassign-Free env j e h = same-Free e (reassign env j e) (reassign_frame env j e) h

  -- An expired lease is out of the table, and so are those that were out of it.
  erase-Free : (k : ℕ) (e : Engine) → Free id e → Free id (record e { running = erase k e.running })
  erase-Free k e h = ground (arith, lookup-erase k id e.running, h)

  lease_taken :
      (env : Env) (k : ℕ) (info : RunningInfo) (e : Engine)
      → lookup k e.running ≡ some info
      → Free id (record e { running = erase k e.running })
      → Free id (expire_lease env k e)
  unfolding expire_lease
  lease_taken env k info e held h =
      let e' : Engine = record e { running = erase k e.running } in
      rw (held, expire_lease)
        (elim (Option-cases (get_job k e')) [
          | inl missing ↦ rw missing h
          | inr (j, found) ↦ rw found (
              if_cases (Free id) (same_state j.state running) _ _ (λ _. reassign-Free env j e' h)
                (λ _. h))
        ])

  expire_lease-Free : (env : Env) (k : ℕ) (e : Engine) → Free id e → Free id (expire_lease env k e)
  unfolding expire_lease
  expire_lease-Free env k e h = elim (Option-cases (lookup k e.running)) [
    | inl missing ↦ rw (missing, expire_lease) h
    | inr (info, held) ↦ lease_taken env k info e held (erase-Free k e h)
  ]

  expire_all-Free :
      (env : Env) (ids : List ℕ) (e : Engine) → Free id e → Free id (expire_all env ids e)
  unfolding expire_all
  expire_all-Free env [] e h = h
  expire_all-Free env (k ∷ ks) e h =
      expire_all-Free env ks (expire_lease env k e) (expire_lease-Free env k e h)

  bury_worker-running : (env : Env) (k : ℕ) (e : Engine) → (bury_worker env k e).running ≡ e.running
  unfolding bury_worker
  bury_worker-running env k e = ground arith

  bury_workers-Free :
      (env : Env) (ids : List ℕ) (e : Engine) → Free id e → Free id (bury_workers env ids e).0
  unfolding bury_workers
  bury_workers-Free env [] e h = h
  bury_workers-Free env (k ∷ ks) e h =
      bury_workers-Free env ks (bury_worker env k e)
        (same-Free e (bury_worker env k e) (bury_worker-running env k e) h)

  scan-Free : (env : Env) (e : Engine) → Free id e → Free id (scan env e)
  unfolding scan count
  scan-Free env e h = h

  pub watchdog-Free : (env : Env) (e : Engine) → Free id e → Free id (watchdog_round env e)
  unfolding watchdog_round
  watchdog-Free env e h =
      let dead = silent_workers env.wall e.cfg.worker_heartbeat_timeout_ms e.remote_workers in
      let b = bury_workers env dead (scan env e) in
      expire_all-Free env (lost_jobs env e b.1) b.0
        (bury_workers-Free env dead (scan env e) (scan-Free env e h))

  pub expired-Free : (env : Env) (e : Engine) → Free id (expire_lease env id e)
  unfolding expire_lease
  expired-Free env e = elim (Option-cases (lookup id e.running)) [
    | inl missing ↦ rw (missing, expire_lease) missing
    | inr (info, held) ↦ lease_taken env id info e held (lookup-erase_self id e.running)
  ]

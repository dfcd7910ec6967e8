-- ===== src/Engine/Final.antt =====
-- A terminal row is final: no cancellation, start, lease expiry or heartbeat changes it; so a job
-- that was cancelled before it started is never started.
use distributed_job_engine.Prelude.{
  ℕ, ◌+◌, ◌≡◌, ◌≢◌, refl, Bool, true, false, not, some, List, [], ◌∷◌, lookup, insert, erase, arith,
  Option-cases, inl, inr, if_cases, ltz, pos,
}
use distributed_job_engine.Lifecycle.{running, is_terminal, same_state}
use distributed_job_engine.Job.{Job, RunningInfo}
use distributed_job_engine.Engine.State.{
  Env, Engine, get_job, update_job, persist, enqueue, dequeue, count,
}
use distributed_job_engine.Engine.Workflow.{conclude}
use distributed_job_engine.Engine.Attempts.{
  CancelStatus, cancel, cancel_running, cancel_waiting, cancelled_job, signal_cancel,
  count_cancelled, Started, begin_attempt, start_job, cancel_at_start, register_running, can_start,
  started_job,
}
use distributed_job_engine.Engine.Remote.{heartbeat_worker, touch_worker, beat, extend_leases}
use distributed_job_engine.Engine.Watchdog.{
  watchdog_round, scan, lost_jobs, silent_workers, expire_all, expire_lease, reassign, bury_workers,
  bury_worker, reassigned_job, exhausted_job, count_expired_failed,
}
use distributed_job_engine.Engine.Rows.{Keyed, Holds, update_job-Holds, other_row, conclude-Holds}

-- The calls of other threads that this file speaks of.
pub data Call : Type 0 where
  cancels : Env → ℕ → Call
  begins : Env → ℕ → ℕ → ℕ → Bool → Call
  beats : Env → ℕ → Call
  watches : Env → Call

unfoldable pub step : Engine → Call → Engine
step e (cancels env id) = (cancel env id e).0
step e (begins env id owner eligible_at remote) =
    (begin_attempt env id owner eligible_at remote e).0
step e (beats env worker_id) = (heartbeat_worker env worker_id e).0
step e (watches env) = watchdog_round env e

unfoldable pub run : Engine → List Call → Engine
unfolding step
run e [] = e
run e (c ∷ cs) = run (step e c) cs

module _ (id : ℕ) (job : Job) (final : is_terminal job.state ≡ true) where
  -- The row, in a keyed store.
  abbrev pub Row : Engine → Type 0
  Row e = Keyed e × (get_job id e ≡ some job)

  with_table : (e : Engine) → Row e → Holds id job final e.running e
  with_table e h = (h.0, h.1, refl)

  without_table : (table : List (ℕ × RunningInfo)) (e : Engine) → Holds id job final table e → Row e
  without_table table e h = (h.0, h.1)

  update-Row :
      (env : Env) (j : Job) (e : Engine) → j.job_id ≢ id → Row e → Row (update_job env j e).0
  update-Row env j e ne h =
      without_table e.running (update_job env j e).0
        (update_job-Holds id job final e.running env j e ne (with_table e h))

  conclude-Row : (env : Env) (j : Job) (e : Engine) → Row e → Row (conclude env j e)
  conclude-Row env j e h =
      without_table e.running (conclude env j e)
        (conclude-Holds id job final e.running env j e (with_table e h))

  other :
      (e : Engine) (k : ℕ) (j : Job)
      → Row e
      → get_job k e ≡ some j
      → is_terminal j.state ≡ false
      → j.job_id ≢ id
  other e k j h = other_row id job final e.running e k j (with_table e h)

  cancel_running-Row :
      (env : Env) (j : Job) (e : Engine) → j.job_id ≢ id → Row e → Row (cancel_running env j e).0
  unfolding cancel_running signal_cancel get_job
  cancel_running-Row env j e ne h =
      let j' = record j { cancel_requested = true } in
      let kept = update-Row env j' e ne h in
      if_cases (λ (r : Engine × CancelStatus). Row r.0) (update_job env j' e).1 _ _
        (λ _. elim (Option-cases (lookup j.job_id (update_job env j' e).0.running)) [
          | inl none_running ↦ rw none_running kept
          | inr (info, found) ↦ rw found kept
        ])
        (λ _. kept)

  cancel_waiting-Row :
      (env : Env) (j : Job) (e : Engine) → j.job_id ≢ id → Row e → Row (cancel_waiting env j e).0
  unfolding cancel_waiting dequeue count get_job
  cancel_waiting-Row env j e ne h =
      let j' = cancelled_job env j in
      let w = update_job env j' (dequeue j.job_id e) in
      let kept = update-Row env j' (dequeue j.job_id e) ne h in
      if_cases (λ (r : Engine × CancelStatus). Row r.0) w.1 _ _
        (λ _. conclude-Row env j' (count count_cancelled w.0) kept) (λ _. kept)

  cancel-Row : (env : Env) (k : ℕ) (e : Engine) → Row e → Row (cancel env k e).0
  unfolding cancel
  cancel-Row env k e h = elim (Option-cases (get_job k e)) [
    | inl missing ↦ rw (missing, cancel) h
    | inr (j, found) ↦
        rw (found, cancel)
          (if_cases (λ (r : Engine × CancelStatus). Row r.0) (is_terminal j.state) _ _ (λ _. h)
            (λ live.
              if_cases (λ (r : Engine × CancelStatus). Row r.0) (same_state j.state running) _ _
                (λ _. cancel_running-Row env j e (other e k j h found live) h)
                (λ _. cancel_waiting-Row env j e (other e k j h found live) h)))
  ]

  start_job-Row :
      (env : Env) (owner eligible_at : ℕ) (remote : Bool) (j : Job) (e : Engine)
      → j.job_id ≢ id
      → Row e
      → Row (start_job env owner eligible_at remote j e).0
  unfolding start_job register_running enqueue count get_job
  start_job-Row env owner eligible_at remote j e ne h =
      let j' = started_job env e owner eligible_at remote j in
      let kept = update-Row env j' e (unfold started_job in ne) h in
      if_cases (λ (r : Engine × Started). Row r.0) (update_job env j' e).1 _ _ (λ _. kept)
        (λ _. kept)

  cancel_at_start-Row :
      (env : Env) (j : Job) (e : Engine) → j.job_id ≢ id → Row e → Row (cancel_at_start env j e).0
  unfolding cancel_at_start count persist get_job
  cancel_at_start-Row env j e ne h = conclude-Row env _ _ (update-Row env _ e ne h)

  begin_attempt-Row :
      (env : Env) (k owner eligible_at : ℕ) (remote : Bool) (e : Engine)
      → Row e
      → Row (begin_attempt env k owner eligible_at remote e).0
  unfolding begin_attempt
  begin_attempt-Row env k owner eligible_at remote e h = elim (Option-cases (get_job k e)) [
    | inl missing ↦ rw (missing, begin_attempt) h
    | inr (j, found) ↦
        rw (found, begin_attempt)
          (if_cases (λ (r : Engine × Started). Row r.0) (is_terminal j.state) _ _ (λ _. h)
            (λ live.
              if_cases (λ (r : Engine × Started). Row r.0) (not (can_start j.state)) _ _ (λ _. h)
                (λ _.
                  if_cases (λ (r : Engine × Started). Row r.0) j.cancel_requested _ _
                    (λ _. cancel_at_start-Row env j e (other e k j h found live) h)
                    (λ _.
                      start_job-Row env owner eligible_at remote j e (other e k j h found live)
                        h))))
  ]

  touch_worker-Row :
      (worker_id : ℕ) (env : Env) (e : Engine) → Row e → Row (touch_worker worker_id env e)
  unfolding touch_worker get_job
  touch_worker-Row worker_id env e h = elim (Option-cases (lookup worker_id e.store.workers)) [
    | inl missing ↦ rw (missing, touch_worker) h
    | inr (rec, stored) ↦
        rw (stored, touch_worker) (if_cases Row env.workflow_writes _ _ (λ _. h) (λ _. h))
  ]

  heartbeat-Row :
      (env : Env) (worker_id : ℕ) (e : Engine) → Row e → Row (heartbeat_worker env worker_id e).0
  unfolding heartbeat_worker
  heartbeat-Row env worker_id e h = elim (Option-cases (lookup worker_id e.remote_workers)) [
    | inl missing ↦ rw (missing, heartbeat_worker) h
    | inr (w, found) ↦
        rw (found, heartbeat_worker)
          (touch_worker-Row worker_id env
            (record e {
              remote_workers = insert worker_id (beat env.wall w) e.remote_workers;
              running = extend_leases worker_id (env.wall + e.cfg.lease_duration_ms) e.running;
            })
            (unfold get_job in h))
  ]

  reassign-Row : (env : Env) (j : Job) (e : Engine) → j.job_id ≢ id → Row e → Row (reassign env j e)
  unfolding reassign persist enqueue count get_job
  reassign-Row env j e ne h =
      if_cases Row (ltz (pos j.attempt) j.retry.max_attempts) _ _
        (λ _. update-Row env (reassigned_job env.wall j) e (unfold reassigned_job in ne) h)
        (λ _.
          conclude-Row env (exhausted_job env.wall j)
            (count count_expired_failed (persist env (exhausted_job env.wall j) e))
            (update-Row env (exhausted_job env.wall j) e (unfold exhausted_job in ne) h))

  expire_lease-Row : (env : Env) (k : ℕ) (e : Engine) → Row e → Row (expire_lease env k e)
  unfolding expire_lease get_job
  expire_lease-Row env k e h = elim (Option-cases (lookup k e.running)) [
    | inl missing ↦ rw (missing, expire_lease) h
    | inr (info, held) ↦
        let e' : Engine = record e { running = erase k e.running } in
        rw (held, expire_lease)
          (elim (Option-cases (get_job k e')) [
            | inl missing ↦ rw missing h
            | inr (j, found) ↦ rw found (
                if_cases Row (same_state j.state running) _ _
                  (λ runs. reassign-Row env j e' (other e' k j h found (ground arith)) h) (λ _. h))
          ])
  ]

  expire_all-Row : (env : Env) (ids : List ℕ) (e : Engine) → Row e → Row (expire_all env ids e)
  unfolding expire_all
  expire_all-Row env [] e h = h
  expire_all-Row env (k ∷ ks) e h =
      expire_all-Row env ks (expire_lease env k e) (expire_lease-Row env k e h)

  bury_worker-Row : (env : Env) (k : ℕ) (e : Engine) → Row e → Row (bury_worker env k e)
  unfolding bury_worker get_job
  bury_worker-Row env k e h = elim (Option-cases (lookup k e.store.workers)) [
    | inl missing ↦ rw (missing, bury_worker) h
    | inr (w, found) ↦
        rw (found, bury_worker) (if_cases Row env.workflow_writes _ _ (λ _. h) (λ _. h))
  ]

  bury_workers-Row :
      (env : Env) (ids : List ℕ) (e : Engine) → Row e → Row (bury_workers env ids e).0
  unfolding bury_workers
  bury_workers-Row env [] e h = h
  bury_workers-Row env (k ∷ ks) e h =
      bury_workers-Row env ks (bury_worker env k e) (bury_worker-Row env k e h)

  scan-Row : (env : Env) (e : Engine) → Row e → Row (scan env e)
  unfolding scan count get_job
  scan-Row env e h = h

  watchdog-Row : (env : Env) (e : Engine) → Row e → Row (watchdog_round env e)
  unfolding watchdog_round
  watchdog-Row env e h =
      let dead = silent_workers env.wall e.cfg.worker_heartbeat_timeout_ms e.remote_workers in
      let b = bury_workers env dead (scan env e) in
      expire_all-Row env (lost_jobs env e b.1) b.0
        (bury_workers-Row env dead (scan env e) (scan-Row env e h))

  step-Row : (e : Engine) (c : Call) → Row e → Row (step e c)
  unfolding step
  step-Row e (cancels env k) h = cancel-Row env k e h
  step-Row e (begins env k owner eligible_at remote) h =
      begin_attempt-Row env k owner eligible_at remote e h
  step-Row e (beats env worker_id) h = heartbeat-Row env worker_id e h
  step-Row e (watches env) h = watchdog-Row env e h

  pub run-Row : (e : Engine) (cs : List Call) → Row e → Row (run e cs)
  unfolding run
  run-Row e [] h = h
  run-Row e (c ∷ cs) h = run-Row (step e c) cs (step-Row e c h)

-- Whatever cancellations, starts, heartbeats and watchdog rounds follow, the row of a job that has
-- reached a terminal state stays exactly as it is, in a store where each row is under its own id.
pub terminal_final :
    (id : ℕ) (job : Job) (e : Engine) (cs : List Call)
    → Keyed e
    → is_terminal job.state ≡ true
    → get_job id e ≡ some job
    → get_job id (run e cs) ≡ some job
terminal_final id job e cs keyed final found = (run-Row id job final e cs (keyed, found)).1

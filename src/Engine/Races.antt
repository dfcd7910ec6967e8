-- ===== src/Engine/Races.antt =====
-- The two parts of `finish_attempt` and a cancellation that comes between them.
use distributed_job_engine.Prelude.{
  ℕ, ◌-◌, ◌≡◌, refl, ap, sym, subst, true, some, lookup, erase, lookup-erase_self, arith, if_cases,
  Text,
}
use distributed_job_engine.Lifecycle.{running, succeeded, is_terminal, same_state}
use distributed_job_engine.Json.{Json}
use distributed_job_engine.Job.{Job, RunningInfo, no_reason}
use distributed_job_engine.Engine.State.{
  Env, Engine, get_job, set_job, update_job, persist, append_attempt, count,
}
use distributed_job_engine.Engine.Workflow.{conclude}
use distributed_job_engine.Engine.Attempts.{ok, cancel, cancel_running}
use distributed_job_engine.Engine.Completion.{
  claim_finish, record_finish, reason_of, decide, terminal_job, finished_job, attempt_record,
  count_exec, count_outcome, count_end_to_end,
}
use distributed_job_engine.Engine.Rows.{
  Keyed, Holds, set_job-Keyed, get_job-set_job, conclude-Holds, persist_written,
}

-- The row that a successful attempt writes.
unfoldable pub success_row : Env → RunningInfo → Json → Text → Job → Job
unfolding decide terminal_job
success_row env info result error job =
    terminal_job (decide no_reason true error job) result (finished_job env info job)

module _ (env : Env) (job : Job) (info : RunningInfo) (result : Json) (error : Text) (e : Engine)
    (keyed : Keyed e) (calm : reason_of info e ≡ no_reason)
    (written : env.writes job.job_id ≡ true) where
  recorded : Engine
  recorded =
      count (count_exec (env.steady_us - info.started_steady_us))
        (append_attempt env (attempt_record env info (decide no_reason true error job) job) e)

  final : Job
  final = success_row env info result error job

  final_terminal : is_terminal final.state ≡ true
  unfolding final success_row
  final_terminal = refl

  stored : Engine
  stored =
      count (λ m. count_end_to_end env.wall final (count_outcome final.state m))
        (set_job final recorded)

  persisted : persist env final recorded ≡ set_job final recorded
  unfolding final success_row
  persisted = persist_written env final recorded written

  record_finish-eq : record_finish env job info true result error e ≡ conclude env final stored
  unfolding record_finish stored recorded final success_row
  record_finish-eq = rw calm (
      ap
        (λ r.
          conclude env final
            (count (λ m. count_end_to_end env.wall final (count_outcome final.state m)) r))
        persisted)

  recorded-Keyed : Keyed recorded
  unfolding recorded count append_attempt get_job
  recorded-Keyed =
      if_cases
        (λ (r : Engine). Keyed (count (count_exec (env.steady_us - info.started_steady_us)) r))
        env.attempt_writes _ _ (λ _. keyed) (λ _. keyed)

  stored-Holds : Holds job.job_id final final_terminal stored.running stored
  unfolding stored count get_job final success_row
  stored-Holds = (set_job-Keyed final recorded recorded-Keyed, get_job-set_job final recorded, refl)

  pub success-written :
      get_job job.job_id (record_finish env job info true result error e)
      ≡ some (success_row env info result error job)
  unfolding final
  success-written =
      rw record_finish-eq
        (conclude-Holds job.job_id final final_terminal stored.running env final stored
          stored-Holds).1

module _ (env env' : Env) (id : ℕ) (job : Job) (info : RunningInfo) (result : Json) (error : Text)
    (e : Engine) (keyed : Keyed e) (found : get_job id e ≡ some job)
    (runs : same_state job.state running ≡ true) (held : lookup id e.running ≡ some info)
    (calm : reason_of info e ≡ no_reason) (written : env.writes id ≡ true)
    (written' : env'.writes id ≡ true) where
  claimed : Engine
  claimed = (claim_finish id info e).0

  claimed-eq : claimed ≡ record e { running = erase id e.running }
  unfolding claimed claim_finish
  claimed-eq = ground (arith, held)

  requested : Engine
  requested =
      set_job (record job { cancel_requested = true }) (record e { running = erase id e.running })

  cancel-eq : cancel env id claimed ≡ (requested, ok)
  unfolding requested cancel cancel_running update_job get_job
  cancel-eq =
      rw claimed-eq
        (ground (arith, found, runs, written, keyed id job found, lookup-erase_self id e.running))

  calm-requested : reason_of info requested ≡ no_reason
  unfolding requested set_job
  calm-requested = calm

  requested-Keyed : Keyed requested
  unfolding requested
  requested-Keyed =
      set_job-Keyed (record job { cancel_requested = true })
        (record e { running = erase id e.running }) (unfold get_job in keyed)

  lost :
      let c = cancel env id claimed in
      (c.1 ≡ ok)
      × (get_job id (record_finish env' job info true result error c.0)
          ≡ some (success_row env' info result error job))
  lost = rw cancel-eq (
    refl,
    subst
        (λ k.
          get_job k (record_finish env' job info true result error requested)
          ≡ some (success_row env' info result error job))
        (keyed id job found)
        (success-written env' job info result error requested requested-Keyed calm-requested
          (subst (λ k. env'.writes k ≡ true) (sym (keyed id job found)) written')),
  )

-- A cancellation that comes between the two parts of `finish_attempt` is lost. For any running
-- attempt with no cancel reason yet, whose handler succeeds: the first part takes the running entry
-- out, the client's cancellation then answers `ok`, and the second part writes the caller's copy,
-- so the row is SUCCEEDED and its `cancel_requested` is what it was before the cancellation.
pub lost_cancellation :
    (env env' : Env) (id : ℕ) (job : Job) (info : RunningInfo) (result : Json) (error : Text)
    (e : Engine)
    → Keyed e
    → get_job id e ≡ some job
    → same_state job.state running ≡ true
    → lookup id e.running ≡ some info
    → reason_of info e ≡ no_reason
    → env.writes id ≡ true
    → env'.writes id ≡ true
    → let c = cancel env id (claim_finish id info e).0 in
      let row = success_row env' info result error job in
      (c.1 ≡ ok)
      × (get_job id (record_finish env' job info true result error c.0) ≡ some row)
      × (row.state ≡ succeeded)
      × (row.cancel_requested ≡ job.cancel_requested)
unfolding success_row claimed
lost_cancellation env env' id job info result error e keyed found runs held calm written written' =
    let l = lost env env' id job info result error e keyed found runs held calm written written' in
    (l.0, l.1, refl, refl)

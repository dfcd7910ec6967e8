-- ===== src/Engine/Admission.antt =====
-- Admission control: the slots, and what a refused submission leaves behind.
use distributed_job_engine.Prelude.{
  ℕ, suc, ◌≤◌, ◌<◌, ◌≡◌, refl, inl, inr, ◌⊎◌, true, not, Option, none, some, leb,
  lookup-insert_self, arith, if_cases, Bool-cases,
}
use distributed_job_engine.Job.{SubmitRequest}
use distributed_job_engine.Engine.State.{
  Env, Engine, get_job, set_job, insert_job, enqueue, count, reserve_slot, release_slot,
}
use distributed_job_engine.Engine.Submission.{SubmitStatus, submit, admit_job, new_job, has_handler}
use distributed_job_engine.Engine.Workflows.{WorkflowStatus}

-- What a refused submission leaves in the store: nothing, or the row of the new job, where the store
-- answered with the error of an earlier batch.
abbrev pub Left : Env → SubmitRequest → Engine → SubmitStatus → Engine → Type 0
Left env req e status e' =
    (e'.store ≡ e.store)
    ⊎ ((status ≡ SubmitStatus.store_error)
        × (env.flush_error ≡ true)
        × (get_job (env.new_id 0) e' ≡ some (new_job env (env.new_id 0) req e.seq_counter)))

-- What `submit` answers with, and what it leaves.
abbrev pub Submitted : Env → SubmitRequest → Engine → Engine × SubmitStatus × Option ℕ → Type 0
Submitted env req e (e', SubmitStatus.ok, id) =
    (id ≡ some (env.new_id 0))
    × (get_job (env.new_id 0) e' ≡ some (new_job env (env.new_id 0) req e.seq_counter))
    × (e'.outstanding ≡ suc e.outstanding)
    × (e'.outstanding ≤ e.cfg.max_outstanding_jobs)
Submitted env req e (e', status, id) =
    (id ≡ none) × Left env req e status e' × (e'.queue ≡ e.queue) × (e'.outstanding ≡ e.outstanding)

admit_job-Submitted :
    (env : Env) (req : SubmitRequest) (e : Engine)
    → e.outstanding < e.cfg.max_outstanding_jobs
    → Submitted env req e (admit_job env req (record e { outstanding = suc e.outstanding }))
unfolding admit_job insert_job set_job get_job enqueue count release_slot new_job
admit_job-Submitted env req e room =
    let row =
      lookup-insert_self (env.new_id 0) (new_job env (env.new_id 0) req e.seq_counter)
        e.store.jobs in
    elim (Bool-cases (env.writes (env.new_id 0))) [
      | inl written ↦ rw written (elim (Bool-cases env.flush_error) [
        | inl stale ↦ rw stale (refl, inr (refl, refl, row), refl, ground arith)
        | inr clean ↦ rw clean (ground (arith, row))
      ])
      | inr lost ↦ rw lost (refl, inl refl, refl, ground arith)
    ]

-- A submission that is accepted has its row in the store, under a new id, and takes one slot within
-- the limit of outstanding jobs. One that is refused, for whatever reason, leaves the queue and the
-- number of outstanding jobs as they were, and the store as well, except where the store answers
-- with the error of an earlier batch: then the row of the refused job may be in the store.
pub submit_outcome :
    (env : Env) (req : SubmitRequest) (e : Engine) → Submitted env req e (submit env req e)
unfolding submit reserve_slot count
submit_outcome env req e =
    if_cases (Submitted env req e) e.stop_requested _ _ (λ _. (refl, inl refl, refl, refl))
      (λ _.
        if_cases (Submitted env req e) (not (has_handler env req.type)) _ _
          (λ _. (refl, inl refl, refl, refl))
          (λ _. elim (Bool-cases (leb e.cfg.max_outstanding_jobs e.outstanding)) [
            | inl full ↦ rw full (refl, inl refl, refl, refl)
            | inr room ↦ rw room (admit_job-Submitted env req e (ground arith))
          ]))

-- The engine with other slots taken.
abbrev with_slots : ℕ → Engine → Engine
with_slots n e = record e { outstanding = n }

-- Nothing is left of a workflow that was refused.
abbrev pub Untouched : Engine → Engine × WorkflowStatus × Option ℕ → Type 0
Untouched e (e', WorkflowStatus.ok, id) = Unit {0}
Untouched e (e', status, id) =
    (id ≡ none)
    × (e'.store ≡ e.store)
    × (e'.queue ≡ e.queue)
    × (e'.outstanding ≡ e.outstanding)
    × (e'.children ≡ e.children)
    × (e'.wf_remaining ≡ e.wf_remaining)
    × (e'.wf_failures ≡ e.wf_failures)
    × (e'.pending_deps ≡ e.pending_deps)
    × (e'.running ≡ e.running)

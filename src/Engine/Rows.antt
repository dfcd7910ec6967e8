-- ===== src/Engine/Rows.antt =====
-- The rows of the store: which operations leave a row of a terminal job as it is, and that the row
-- found under an id is that job's.
use distributed_job_engine.Prelude.{
  ℕ, suc, zero, ◌+◌, ◌-◌, ◌≡◌, ◌≢◌, ap, sym, ◌∙◌, Bool, true, false, some, List, [], ◌∷◌, ◌==◌,
  contains, lookup, lookup-insert, lookup-insert_self, arith, Option-cases, inl, inr, if_cases,
  length,
}
use distributed_job_engine.Lifecycle.{pending, succeeded, is_terminal, same_state}
use distributed_job_engine.Job.{Job, RunningInfo, WorkflowState}
use distributed_job_engine.Engine.State.{
  Env, Engine, get_job, set_job, update_job, persist, enqueue, dequeue, count, complete_with,
  release_slot,
}
use distributed_job_engine.Engine.Workflow.{
  children_of, count_down_all, release_child, release_children, release_dependents, skip_one, Walk,
  visit, walk_loop, finish_skipped, skip_descendants, finalize_workflow, update_workflow,
  settle_counters, settle_workflow, on_terminal, conclude, push_all, edge_count, add_skipped,
  same_wf, count_workflow,
}

-- A row is stored under its own id.
abbrev pub Keyed : Engine → Type 0
Keyed e = (k : ℕ) (j : Job) → get_job k e ≡ some j → j.job_id ≡ k

pub set_job-Keyed : (j : Job) (e : Engine) → Keyed e → Keyed (set_job j e)
unfolding set_job get_job
set_job-Keyed j e keyed k r h = ground (arith, lookup-insert j.job_id k j e.store.jobs, keyed k r)

pub get_job-set_job : (j : Job) (e : Engine) → get_job j.job_id (set_job j e) ≡ some j
unfolding set_job get_job
get_job-set_job j e = lookup-insert_self j.job_id j e.store.jobs

pub persist_written :
    (env : Env) (j : Job) (e : Engine) → env.writes j.job_id ≡ true → persist env j e ≡ set_job j e
unfolding persist update_job
persist_written env j e written = ground (arith, written)

pub persist_running : (env : Env) (j : Job) (e : Engine) → (persist env j e).running ≡ e.running
unfolding persist update_job set_job
persist_running env j e = ground arith

-- The row of a terminal job, in a store that is keyed, beside the table of running attempts.
module _ (id : ℕ) (job : Job) (final : is_terminal job.state ≡ true)
    (table : List (ℕ × RunningInfo)) where
  abbrev pub Holds : Engine → Type 0
  Holds e = Keyed e × (get_job id e ≡ some job) × (e.running ≡ table)

  pub set_job-Holds : (j : Job) (e : Engine) → j.job_id ≢ id → Holds e → Holds (set_job j e)
  unfolding set_job get_job
  set_job-Holds j e ne h =
      (set_job-Keyed j e h.0, ground (arith, h.1, lookup-insert j.job_id id j e.store.jobs), h.2)

  pub update_job-Holds :
      (env : Env) (j : Job) (e : Engine) → j.job_id ≢ id → Holds e → Holds (update_job env j e).0
  unfolding update_job
  update_job-Holds env j e ne h =
      if_cases (λ (r : Engine × Bool). Holds r.0) (env.writes j.job_id) _ _
        (λ _. set_job-Holds j e ne h) (λ _. h)

  -- A row that is not terminal is another row.
  pub other_row :
      (e : Engine) (k : ℕ) (j : Job)
      → Holds e
      → get_job k e ≡ some j
      → is_terminal j.state ≡ false
      → j.job_id ≢ id
  other_row e k j h found live same =
      ground (arith, h.1, h.0 k j found, ap (λ i. get_job i e) (sym (h.0 k j found) ∙ same), final)

  release_child-Holds : (env : Env) (c : ℕ) (e : Engine) → Holds e → Holds (release_child env c e)
  unfolding release_child
  release_child-Holds env c e h = elim (Option-cases (get_job c e)) [
    | inl missing ↦ rw (missing, release_child) h
    | inr (j, found) ↦
        rw (found, release_child)
          (if_cases Holds (same_state j.state pending) _ _
            (λ waits.
              unfold enqueue persist get_job in
              update_job-Holds env _ e (other_row e c j h found (ground arith)) h)
            (λ _. h))
  ]

  release_children-Holds :
      (env : Env) (cs : List ℕ) (e : Engine) → Holds e → Holds (release_children env cs e)
  unfolding release_children
  release_children-Holds env [] e h = h
  release_children-Holds env (c ∷ cs) e h =
      release_children-Holds env cs (release_child env c e) (release_child-Holds env c e h)

  release_dependents-Holds :
      (env : Env) (parent : ℕ) (e : Engine) → Holds e → Holds (release_dependents env parent e)
  unfolding release_dependents get_job
  release_dependents-Holds env parent e h =
      release_children-Holds env (count_down_all (children_of parent e) e.pending_deps).1
        (record e { pending_deps = (count_down_all (children_of parent e) e.pending_deps).0 }) h

  visit-Holds :
      (env : Env) (c : ℕ) (rest : List ℕ) (w : Walk)
      → Holds w.engine
      → Holds (visit env c rest w).engine
  unfolding visit
  visit-Holds env c rest w h =
      if_cases (λ (r : Walk). Holds r.engine) (contains c w.seen) _ _ (λ _. h)
        (λ _. elim (Option-cases (get_job c w.engine)) [
          | inl missing ↦ rw missing h
          | inr (j, found) ↦ rw found (
              if_cases (λ (r : Walk). Holds r.engine) (is_terminal j.state) _ _ (λ _. h)
                (λ live.
                  unfold skip_one persist dequeue get_job in
                  update_job-Holds env _ (dequeue j.job_id w.engine)
                    (other_row w.engine c j h found live) h))
        ])

  walk_loop-Holds :
      (fuel : ℕ) (env : Env) (w : Walk) → Holds w.engine → Holds (walk_loop fuel env w).engine
  unfolding walk_loop
  walk_loop-Holds zero env w h = h
  walk_loop-Holds (suc fuel) env w h =
      elim (w.frontier)
        as (λ f.
          Holds
            (elim f as (λ _. Walk) [
              | [] ↦ w
              | c ∷ rest ↦ walk_loop fuel env (visit env c rest w)
            ]).engine) [
              | [] ↦ h
              | c ∷ rest ↦
                  walk_loop-Holds fuel env (visit env c rest w) (visit-Holds env c rest w h)
            ]

  finish_skipped-Holds : (jobs : List Job) (e : Engine) → Holds e → Holds (finish_skipped jobs e)
  unfolding finish_skipped release_slot complete_with get_job
  finish_skipped-Holds [] e h = h
  finish_skipped-Holds (j ∷ js) e h = finish_skipped-Holds js (release_slot (complete_with j e)) h

  skip_descendants-Holds :
      (env : Env) (failed : ℕ) (e : Engine) → Holds e → Holds (skip_descendants env failed e).0
  unfolding skip_descendants count get_job
  skip_descendants-Holds env failed e h =
      let first : List ℕ = push_all (children_of failed e) [] in
      let start : Walk = record { engine = e; frontier = first; seen = []; to_skip = [] } in
      let w : Walk = walk_loop (length first + edge_count e.children) env start in
      finish_skipped-Holds w.to_skip (count (add_skipped (length w.to_skip)) w.engine)
        (walk_loop-Holds (length first + edge_count e.children) env start h)

  finalize_workflow-Holds :
      (env : Env) (wf_id : ℕ) (failed : Bool) (e : Engine)
      → Holds e
      → Holds (finalize_workflow env wf_id failed e)
  unfolding finalize_workflow update_workflow count get_job
  finalize_workflow-Holds env wf_id failed e h =
      elim (Option-cases (lookup wf_id e.store.workflows)) [
        | inl missing ↦ rw (missing, finalize_workflow) h
        | inr (wf, found) ↦
            rw (found, finalize_workflow)
              (if_cases Holds (same_wf wf.state WorkflowState.running) _ _
                (λ _.
                  if_cases (λ (r : Engine × Bool). Holds (count (count_workflow failed) r.0))
                    env.workflow_writes _ _ (λ _. h) (λ _. h))
                (λ _. h))
      ]

  settle_counters-Holds :
      (wf_id : ℕ) (ok : Bool) (n : ℕ) (e : Engine)
      → Holds e
      → Holds (settle_counters wf_id ok n e).0
  unfolding settle_counters get_job
  settle_counters-Holds wf_id ok n e h = elim (Option-cases (lookup wf_id e.wf_remaining)) [
    | inl missing ↦ rw (missing, settle_counters) h
    | inr (left, found) ↦
        rw (found, settle_counters)
          (if_cases (λ (r : Engine × Bool × Bool). Holds r.0) (left - (1 + n) == 0) _ _ (λ _. h)
            (λ _. h))
  ]

  settle_workflow-Holds :
      (env : Env) (wf_id : ℕ) (ok : Bool) (n : ℕ) (e : Engine)
      → Holds e
      → Holds (settle_workflow env wf_id ok n e)
  unfolding settle_workflow
  settle_workflow-Holds env wf_id ok n e h =
      let r = settle_counters wf_id ok n e in
      let kept = settle_counters-Holds wf_id ok n e h in
      if_cases Holds r.1 (finalize_workflow env wf_id r.2 r.0) r.0
        (λ _. finalize_workflow-Holds env wf_id r.2 r.0 kept) (λ _. kept)

  on_terminal-Holds : (env : Env) (j : Job) (e : Engine) → Holds e → Holds (on_terminal env j e)
  unfolding on_terminal
  on_terminal-Holds env j e h = elim (Option-cases j.workflow_id) [
    | inl alone ↦ rw (alone, on_terminal) h
    | inr (wf_id, member) ↦
        rw (member, on_terminal)
          (if_cases Holds (same_state j.state succeeded) _ _
            (λ _.
              settle_workflow-Holds env wf_id true 0 (release_dependents env j.job_id e)
                (release_dependents-Holds env j.job_id e h))
            (λ _.
              settle_workflow-Holds env wf_id false (skip_descendants env j.job_id e).1
                (skip_descendants env j.job_id e).0 (skip_descendants-Holds env j.job_id e h)))
  ]

  -- The end of another job leaves the row and the running attempts alone.
  pub conclude-Holds : (env : Env) (j : Job) (e : Engine) → Holds e → Holds (conclude env j e)
  unfolding conclude release_slot complete_with get_job
  conclude-Holds env j e h = on_terminal-Holds env j e h

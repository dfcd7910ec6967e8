-- ===== src/Engine/Frames.antt =====
-- Which operations leave the table of running attempts (`running_`) as it is: all writes of rows, and
-- all that follows the end of a job.
use distributed_job_engine.Prelude.{
  ℕ, zero, suc, ◌+◌, ◌-◌, ◌≡◌, refl, ◌∙◌, Bool, true, false, List, [], ◌∷◌, arith, Option-cases,
  inl, inr, if_cases, Text, length,
}
use distributed_job_engine.Lifecycle.{succeeded, retrying, same_state}
use distributed_job_engine.Json.{Json}
use distributed_job_engine.Job.{Job, RunningInfo, AttemptRecord}
use distributed_job_engine.Engine.State.{
  Env, Engine, get_job, set_job, update_job, persist, enqueue, dequeue, count, append_attempt,
  release_slot, complete_with,
}
use distributed_job_engine.Engine.Completion.{
  record_finish, decide, reason_of, attempt_record, finished_job, retry_job, terminal_job,
  count_exec, count_end_to_end, count_outcome,
}
use distributed_job_engine.Engine.Walk.{frontier-cases}
use distributed_job_engine.Engine.Workflow.{
  release_child, release_children, count_down_all, children_of, push_all, edge_count, add_skipped,
  release_dependents, skip_one, visit, Walk, walk_loop, skip_walk, finish_skipped, skip_descendants,
  finalize_workflow, update_workflow, settle_counters, settle_workflow, on_terminal, conclude,
}

pub update_job-running :
    (env : Env) (j : Job) (e : Engine) → (update_job env j e).0.running ≡ e.running
unfolding update_job set_job
update_job-running env j e = ground arith

release_child-running :
    (env : Env) (c : ℕ) (e : Engine) → (release_child env c e).running ≡ e.running
unfolding release_child persist update_job set_job enqueue
release_child-running env c e = ground arith

release_children-running :
    (env : Env) (cs : List ℕ) (e : Engine) → (release_children env cs e).running ≡ e.running
unfolding release_children
release_children-running env [] e = refl
release_children-running env (c ∷ cs) e =
    release_children-running env cs (release_child env c e) ∙ release_child-running env c e

skip_one-running : (env : Env) (j : Job) (e : Engine) → (skip_one env j e).0.running ≡ e.running
unfolding skip_one persist update_job set_job dequeue
skip_one-running env j e = ground arith

visit-running :
    (env : Env) (id : ℕ) (rest : List ℕ) (w : Walk)
    → (visit env id rest w).engine.running ≡ w.engine.running
unfolding visit
visit-running env id rest w = elim (Option-cases (get_job id w.engine)) [
  | inl missing ↦ ground (arith, missing)
  | inr (job, found) ↦ ground (arith, found, skip_one-running env job w.engine)
]

walk_loop-running :
    (fuel : ℕ) (env : Env) (w : Walk) → (walk_loop fuel env w).engine.running ≡ w.engine.running
unfolding walk_loop
walk_loop-running zero env w = refl
walk_loop-running (suc fuel) env w = elim (frontier-cases w.frontier) [
  | inl none_left ↦ rw none_left refl
  | inr (id, rest, more) ↦
      rw more (walk_loop-running fuel env (visit env id rest w) ∙ visit-running env id rest w)
]

finish_skipped-running :
    (jobs : List Job) (e : Engine) → (finish_skipped jobs e).running ≡ e.running
unfolding finish_skipped release_slot complete_with
finish_skipped-running [] e = refl
finish_skipped-running (j ∷ js) e = finish_skipped-running js (release_slot (complete_with j e))

skip_descendants-running :
    (env : Env) (id : ℕ) (e : Engine) → (skip_descendants env id e).0.running ≡ e.running
unfolding skip_descendants count
skip_descendants-running env id e =
    let w = skip_walk env id e in
    let first = push_all (children_of id e) [] in
    finish_skipped-running w.to_skip (count (add_skipped (length w.to_skip)) w.engine)
    ∙ walk_loop-running (length first + edge_count e.children) env
        (record { engine = e; frontier = first; seen = []; to_skip = [] })

settle_workflow-running :
    (env : Env) (wf : ℕ) (ok : Bool) (n : ℕ) (e : Engine)
    → (settle_workflow env wf ok n e).running ≡ e.running
unfolding settle_workflow settle_counters finalize_workflow update_workflow count
settle_workflow-running env wf ok n e = ground arith

release_dependents-running :
    (env : Env) (id : ℕ) (e : Engine) → (release_dependents env id e).running ≡ e.running
unfolding release_dependents
release_dependents-running env id e =
    let counted = count_down_all (children_of id e) e.pending_deps in
    release_children-running env counted.1 (record e { pending_deps = counted.0 })

on_terminal-running : (env : Env) (j : Job) (e : Engine) → (on_terminal env j e).running ≡ e.running
unfolding on_terminal
on_terminal-running env j e = elim (Option-cases j.workflow_id) [
  | inl alone ↦ ground (arith, alone)
  | inr (wf, member) ↦
      rw (member, on_terminal)
        (if_cases (λ (r : Engine). r.running ≡ e.running) (same_state j.state succeeded) _ _
          (λ _.
            settle_workflow-running env wf true 0 (release_dependents env j.job_id e)
            ∙ release_dependents-running env j.job_id e)
          (λ _.
            let k = skip_descendants env j.job_id e in
            settle_workflow-running env wf false k.1 k.0 ∙ skip_descendants-running env j.job_id e))
]

pub conclude_frame : (env : Env) (j : Job) (e : Engine) → (conclude env j e).running ≡ e.running
unfolding conclude release_slot complete_with
conclude_frame env j e = on_terminal-running env j e

pub persist-running : (env : Env) (j : Job) (e : Engine) → (persist env j e).running ≡ e.running
unfolding persist
persist-running env j e = update_job-running env j e

append_attempt-running :
    (env : Env) (rec : AttemptRecord) (e : Engine) → (append_attempt env rec e).running ≡ e.running
unfolding append_attempt
append_attempt-running env rec e = ground arith

pub record_finish_frame :
    (env : Env) (job : Job) (info : RunningInfo) (ok : Bool) (result : Json) (error : Text)
    (e : Engine)
    → (record_finish env job info ok result error e).running ≡ e.running
unfolding record_finish count enqueue
record_finish_frame env job info ok result error e =
    let v = decide (reason_of info e) ok error job in
    let rec = attempt_record env info v job in
    let done = finished_job env info job in
    let e' =
      count (count_exec (env.steady_us - info.started_steady_us)) (append_attempt env rec e) in
    let again = retry_job env v done in
    let final = terminal_job v result done in
    if_cases (λ (r : Engine). r.running ≡ e.running) (same_state v.state retrying) _ _
      (λ _. persist-running env again e' ∙ append_attempt-running env rec e)
      (λ _.
        conclude_frame env final (
          count (λ m. count_end_to_end env.wall final (count_outcome final.state m))
            (persist env final e'))
        ∙ persist-running env final e'
        ∙ append_attempt-running env rec e)

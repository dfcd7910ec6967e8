-- ===== src/Engine/Workflow.antt =====
-- What follows the end of a job in a workflow: `on_terminal`, `release_dependents`,
-- `skip_descendants` and `finalize_workflow` of src/engine/engine.cpp.
use distributed_job_engine.Prelude.{
  ℕ, zero, suc, ◌+◌, ◌-◌, Bool, true, false, none, some, List, [], ◌∷◌, ◌++◌, ltb, ◌==◌,
  if◌then◌else◌, text, lookup, insert, erase, contains, length,
}
use distributed_job_engine.Lifecycle.{
  pending, queued, scheduled, succeeded, skipped, is_terminal, same_state,
}
use distributed_job_engine.Job.{Job, WorkflowRecord, WorkflowState, Metrics}
use distributed_job_engine.Engine.State.{
  Env, Engine, get_job, persist, enqueue, dequeue, count, complete_with, release_slot,
}

abbrev pub lookup_or {ℓ} : {A : Type ℓ} → A → ℕ → List (ℕ × A) → A
lookup_or d k m = elim (lookup k m) [ none ↦ d | some v ↦ v ]

unfoldable pub children_of : ℕ → Engine → List ℕ
children_of id e = lookup_or [] id e.children

-- The countdown of one child, and whether it has just become ready.
unfoldable pub count_down : ℕ → List (ℕ × ℕ) → List (ℕ × ℕ) × Bool
count_down child deps = elim (lookup child deps) [
  | none ↦ (deps, false)
  | some n ↦ if ltb 0 n then (insert child (n - 1) deps, (n - 1) == 0) else (deps, false)
]

-- The loop over the children, under `wf_mutex_`.
unfoldable pub count_down_all : List ℕ → List (ℕ × ℕ) → List (ℕ × ℕ) × List ℕ
unfolding count_down
count_down_all [] deps = (deps, [])
count_down_all (child ∷ rest) deps =
    let one = count_down child deps in
    let others = count_down_all rest one.0 in
    (others.0, if one.1 then child ∷ others.1 else others.1)

-- A child whose last dependency has succeeded becomes eligible.
unfoldable pub release_child : Env → ℕ → Engine → Engine
release_child env child_id e = elim (get_job child_id e) [
  | none ↦ e
  | some child ↦
      if same_state child.state pending
      then (let child' = record child {
        state = if ltb env.wall child.ready_at_wall_ms then scheduled else queued;
        pending_deps = 0;
      } in
          enqueue env child' (persist env child' e))
      else e
]

unfoldable pub release_children : Env → List ℕ → Engine → Engine
unfolding release_child
release_children env [] e = e
release_children env (c ∷ cs) e = release_children env cs (release_child env c e)

unfoldable pub release_dependents : Env → ℕ → Engine → Engine
unfolding count_down_all release_children children_of
release_dependents env parent e =
    let counted = count_down_all (children_of parent e) e.pending_deps in
    release_children env counted.1 (record e { pending_deps = counted.0 })

-- One descendant: if it is not terminal yet it leaves the queue and becomes SKIPPED.
unfoldable pub skip_one : Env → Job → Engine → Engine × Job
skip_one env job e =
    let job' = record job {
      state = skipped;
      finished_at_wall_ms = env.wall;
      error = text "skipped: an upstream dependency did not succeed";
    } in
    (persist env job' (dequeue job.job_id e), job')

-- `frontier.push_back` for each child; the back of the vector is the head of the list.
abbrev pub push_all : List ℕ → List ℕ → List ℕ
push_all [] frontier = frontier
push_all (c ∷ cs) frontier = push_all cs (c ∷ frontier)

-- The engine, the frontier, the set of ids seen, and the jobs skipped.
pub record Walk : Type 0 where
  pub engine : Engine
  pub frontier : List ℕ
  pub seen : List ℕ
  pub to_skip : List Job

abbrev pub visit_job : Env → ℕ → List ℕ → Walk → Job → Walk
visit_job env id rest w job =
    let next : List ℕ = push_all (children_of id w.engine) rest in
    let seen : List ℕ = id ∷ w.seen in
    if is_terminal job.state
    then record { engine = w.engine; frontier = next; seen = seen; to_skip = w.to_skip }
    else let s = skip_one env job w.engine in
      record { engine = s.0; frontier = next; seen = seen; to_skip = w.to_skip ++ s.1 ∷ [] }

-- One round of the `while` loop, on the id at the back.
unfoldable pub visit : Env → ℕ → List ℕ → Walk → Walk
unfolding skip_one children_of
visit env id rest w =
    if contains id w.seen then record w { frontier = rest } else elim (get_job id w.engine) [
      | none ↦ record w { frontier = rest; seen = id ∷ w.seen }
      | some job ↦ visit_job env id rest w job
    ]

unfoldable pub walk_loop : ℕ → Env → Walk → Walk
unfolding visit
walk_loop zero env w = w
walk_loop (suc fuel) env w = elim w.frontier [
  | [] ↦ w
  | id ∷ rest ↦ walk_loop fuel env (visit env id rest w)
]

-- Each id puts its children on the frontier once, so there are no more rounds than this.
abbrev pub edge_count : List (ℕ × List ℕ) → ℕ
edge_count [] = 0
edge_count ((id, cs) ∷ m) = length cs + edge_count m

unfoldable pub finish_skipped : List Job → Engine → Engine
finish_skipped [] e = e
finish_skipped (job ∷ jobs) e = finish_skipped jobs (release_slot (complete_with job e))

abbrev pub add_skipped : ℕ → Metrics → Metrics
add_skipped n m = record m { jobs_skipped = m.jobs_skipped + n }

-- The loop, on as many rounds as there are children to start from and edges to follow.
abbrev pub skip_walk : Env → ℕ → Engine → Walk
skip_walk env failed_id e =
    let first = push_all (children_of failed_id e) [] in
    walk_loop (length first + edge_count e.children) env
      (record { engine = e; frontier = first; seen = []; to_skip = [] })

unfoldable pub skip_descendants : Env → ℕ → Engine → Engine × ℕ
unfolding walk_loop finish_skipped children_of
skip_descendants env failed_id e =
    let w = skip_walk env failed_id e in
    let n = length w.to_skip in (finish_skipped w.to_skip (count (add_skipped n) w.engine), n)

abbrev pub count_workflow : Bool → Metrics → Metrics
count_workflow failed m =
    if failed
    then record m { workflows_failed = suc m.workflows_failed }
    else record m { workflows_succeeded = suc m.workflows_succeeded }

abbrev pub same_wf : WorkflowState → WorkflowState → Bool
same_wf WorkflowState.running WorkflowState.running = true
same_wf WorkflowState.succeeded WorkflowState.succeeded = true
same_wf WorkflowState.failed WorkflowState.failed = true
same_wf WorkflowState.cancelled WorkflowState.cancelled = true
same_wf _ _ = false

-- `JobStore::update_workflow`, which may fail.
unfoldable pub update_workflow : Env → WorkflowRecord → Engine → Engine × Bool
update_workflow env wf e =
    if env.workflow_writes
    then (
      record e {
        store = record (e.store) { workflows = insert wf.workflow_id wf e.store.workflows };
      },
      true,
    )
    else (e, false)

unfoldable pub finalize_workflow : Env → ℕ → Bool → Engine → Engine
unfolding update_workflow
finalize_workflow env wf_id failed e = elim (lookup wf_id e.store.workflows) [
  | none ↦ e
  | some wf ↦
      if same_wf wf.state WorkflowState.running
      then (let wf' = record wf {
        state = if failed then WorkflowState.failed else WorkflowState.succeeded;
        finished_at_ms = env.wall;
      } in
          count (count_workflow failed) (update_workflow env wf' e).0)
      else e
]

-- The counters under `wf_mutex_`, with whether the workflow has finished, and failed.
unfoldable pub settle_counters : ℕ → Bool → ℕ → Engine → Engine × Bool × Bool
settle_counters wf_id ok skipped_count e =
    let failures =
      if ok
      then e.wf_failures
      else insert wf_id (lookup_or 0 wf_id e.wf_failures + (1 + skipped_count)) e.wf_failures in
    elim (lookup wf_id e.wf_remaining) [
      | none ↦ (record e { wf_failures = failures }, false, false)
      | some n ↦
          let left = n - (1 + skipped_count) in
          if left == 0
          then (
            record e {
              wf_remaining = erase wf_id e.wf_remaining;
              wf_failures = erase wf_id failures;
            },
            true,
            ltb 0 (lookup_or 0 wf_id failures),
          )
          else (
            record e { wf_remaining = insert wf_id left e.wf_remaining; wf_failures = failures },
            false,
            false,
          )
    ]

unfoldable pub settle_workflow : Env → ℕ → Bool → ℕ → Engine → Engine
unfolding settle_counters finalize_workflow
settle_workflow env wf_id ok skipped_count e =
    let r = settle_counters wf_id ok skipped_count e in
    if r.1 then finalize_workflow env wf_id r.2 r.0 else r.0

unfoldable pub on_terminal : Env → Job → Engine → Engine
unfolding settle_workflow release_dependents skip_descendants
on_terminal env job e = elim job.workflow_id [
  | none ↦ e
  | some wf_id ↦
      if same_state job.state succeeded
      then settle_workflow env wf_id true 0 (release_dependents env job.job_id e)
      else let s = skip_descendants env job.job_id e in settle_workflow env wf_id false s.1 s.0
]

-- What every path to a terminal state ends with: the workflow, the callback and the slot.
unfoldable pub conclude : Env → Job → Engine → Engine
unfolding on_terminal
conclude env job e = release_slot (complete_with job (on_terminal env job e))

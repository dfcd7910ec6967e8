-- ===== src/Engine/Workflows.antt =====
-- `submit_workflow` and `cancel_workflow` of src/engine/engine.cpp.
use distributed_job_engine.Prelude.{
  ℕ, suc, zero, ◌+◌, Bool, false, Option, none, some, List, [], ◌∷◌, ◌++◌, ltb, ◌==◌, if◌then◌else◌,
  Text, lookup, insert, length,
}
use distributed_job_engine.Lifecycle.{pending, is_terminal, same_state}
use distributed_job_engine.Job.{Job, SubmitRequest, Metrics, WorkflowRecord, WorkflowState}
use distributed_job_engine.Engine.State.{
  Env, Engine, set_job, enqueue, count, reserve_slot, release_slot,
}
use distributed_job_engine.Engine.Workflow.{lookup_or, same_wf, update_workflow}
use distributed_job_engine.Engine.Attempts.{CancelStatus, cancel}
use distributed_job_engine.Engine.Graph.{
  Checked, GraphError, check_edges, indegree, is_acyclic, find_index,
}
use distributed_job_engine.Engine.Submission.{has_handler, new_job, count_rejected}

pub data WorkflowStatus : Type 0 where
  ok empty unknown_type duplicate_node unknown_node_ref self_edge : WorkflowStatus
  cycle queue_full store_error stopped : WorkflowStatus

pub record NodeSpec : Type 0 where
  pub name : Text
  pub request : SubmitRequest

abbrev pub names_of : List NodeSpec → List Text
names_of [] = []
names_of (n ∷ ns) = n.name ∷ names_of ns

-- The loop over the nodes: a name that came before, or a type without a handler.
unfoldable pub check_nodes : Env → List Text → List NodeSpec → Option WorkflowStatus
check_nodes env seen [] = none
check_nodes env seen (n ∷ ns) =
    let rest = check_nodes env (seen ++ n.name ∷ []) ns in
    elim (find_index n.name seen) [
      | some i ↦ some WorkflowStatus.duplicate_node
      | none ↦ if has_handler env n.request.type then rest else some WorkflowStatus.unknown_type
    ]

-- One slot a node; the slots are given back if one is refused.
unfoldable pub reserve_slots : ℕ → Engine → Engine × ℕ
unfolding reserve_slot
reserve_slots zero e = (e, 0)
reserve_slots (suc n) e =
    let r = reserve_slot e in
    let more = reserve_slots n r.0 in if r.1 then (more.0, suc more.1) else (r.0, 0)

unfoldable pub release_slots : ℕ → Engine → Engine
unfolding release_slot
release_slots zero e = e
release_slots (suc n) e = release_slots n (release_slot e)

-- The rows of the nodes, from the position `i` on; the edges give the indegrees.
unfoldable pub node_jobs : Env → ℕ → List (ℕ × ℕ) → ℕ → ℕ → List NodeSpec → List Job
unfolding new_job
node_jobs env wf_id es i seq [] = []
node_jobs env wf_id es i seq (n ∷ ns) =
    new_job env (env.new_id (suc i))
      (record (n.request) {
        workflow_id = some wf_id;
        workflow_node = n.name;
        pending_deps = indegree i es;
      })
      seq
    ∷ node_jobs env wf_id es (suc i) (suc seq) ns

-- The edges between the new job ids.
unfoldable pub id_edges : Env → List (ℕ × ℕ) → List (ℕ × ℕ)
id_edges env [] = []
id_edges env ((a, b) ∷ es) = (env.new_id (suc a), env.new_id (suc b)) ∷ id_edges env es

unfoldable pub add_children : List (ℕ × ℕ) → List (ℕ × List ℕ) → List (ℕ × List ℕ)
add_children [] m = m
add_children ((a, b) ∷ es) m = add_children es (insert a (lookup_or [] a m ++ b ∷ []) m)

unfoldable pub add_pending : List Job → List (ℕ × ℕ) → List (ℕ × ℕ)
add_pending [] m = m
add_pending (j ∷ js) m = add_pending js (insert j.job_id j.pending_deps m)

unfoldable pub insert_jobs : List Job → Engine → Engine
insert_jobs [] e = e
insert_jobs (j ∷ js) e = insert_jobs js (set_job j e)

unfoldable pub enqueue_ready : Env → List Job → Engine → Engine
enqueue_ready env [] e = e
enqueue_ready env (j ∷ js) e =
    enqueue_ready env js (if same_state j.state pending then e else enqueue env j e)

abbrev count_created : ℕ → Metrics → Metrics
count_created n m = record m {
  workflows_created = suc m.workflows_created;
  jobs_submitted = m.jobs_submitted + n;
}

-- The part of `submit_workflow` behind the reservation. `insert_workflow` is one transaction.
unfoldable pub admit_workflow :
    Env → Text → List NodeSpec → List (ℕ × ℕ) → Engine → Engine × WorkflowStatus × Option ℕ
unfolding node_jobs id_edges add_children add_pending insert_jobs enqueue_ready release_slots
admit_workflow env name nodes es e =
    let wf_id = env.new_id 0 in
    let n = length nodes in
    let rows = node_jobs env wf_id es 0 e.seq_counter nodes in
    let edges = id_edges env es in
    let wf : WorkflowRecord = record {
      workflow_id = wf_id;
      name = name;
      state = WorkflowState.running;
      created_at_ms = env.wall;
      finished_at_ms = 0;
      node_count = n;
    } in
    let e' = record e { seq_counter = e.seq_counter + n } in
    if env.workflow_writes
    then (let stored = insert_jobs rows (record e' {
      store = record (e'.store) {
        workflows = insert wf_id wf e'.store.workflows;
        dependencies = e'.store.dependencies ++ edges;
      };
      children = add_children edges e'.children;
      pending_deps = add_pending rows e'.pending_deps;
      wf_remaining = insert wf_id n e'.wf_remaining;
      wf_failures = insert wf_id 0 e'.wf_failures;
    }) in
        (enqueue_ready env rows (count (count_created n) stored), WorkflowStatus.ok, some wf_id))
    else (release_slots n e', WorkflowStatus.store_error, none)

abbrev graph_status : GraphError → WorkflowStatus
graph_status GraphError.unknown_node_ref = WorkflowStatus.unknown_node_ref
graph_status GraphError.self_edge = WorkflowStatus.self_edge
graph_status GraphError.cycle = WorkflowStatus.cycle

-- The reservation of all slots or none.
unfoldable pub reserve_and_admit :
    Env → Text → List NodeSpec → List (ℕ × ℕ) → Engine → Engine × WorkflowStatus × Option ℕ
unfolding reserve_slots admit_workflow release_slots
reserve_and_admit env name nodes es e =
    let r = reserve_slots (length nodes) e in
    if ltb r.1 (length nodes)
    then (count count_rejected (release_slots r.1 r.0), WorkflowStatus.queue_full, none)
    else admit_workflow env name nodes es r.0

-- Kahn's check, once the edges are known to be good.
unfoldable pub accept_graph :
    Env
    → Text
    → List NodeSpec
    → Checked (List (ℕ × ℕ))
    → Engine
    → Engine × WorkflowStatus × Option ℕ
unfolding is_acyclic reserve_and_admit
accept_graph env name nodes (Checked.err x) e = (e, graph_status x, none)
accept_graph env name nodes (Checked.ok es) e =
    if is_acyclic (length nodes) es
    then reserve_and_admit env name nodes es e
    else (e, WorkflowStatus.cycle, none)

-- The edges, once the nodes are known to be good.
unfoldable pub accept_nodes :
    Env
    → Text
    → List NodeSpec
    → List (Text × Text)
    → Option WorkflowStatus
    → Engine
    → Engine × WorkflowStatus × Option ℕ
unfolding check_edges accept_graph
accept_nodes env name nodes edges (some status) e = (e, status, none)
accept_nodes env name nodes edges none e =
    accept_graph env name nodes (check_edges (names_of nodes) edges) e

unfoldable pub submit_workflow :
    Env → Text → List NodeSpec → List (Text × Text) → Engine → Engine × WorkflowStatus × Option ℕ
unfolding check_nodes accept_nodes
submit_workflow env name nodes edges e =
    if e.stop_requested
    then (e, WorkflowStatus.stopped, none)
    else if length nodes == 0
    then (e, WorkflowStatus.empty, none)
    else accept_nodes env name nodes edges (check_nodes env [] nodes) e

-- The loop of `cancel_workflow` over the rows that were listed; each call has its own clocks.
unfoldable pub cancel_all : (ℕ → Env) → List Job → Engine → Engine
unfolding cancel
cancel_all env [] e = e
cancel_all env (j ∷ js) e =
    cancel_all (λ i. env (suc i)) js
      (if is_terminal j.state then e else (cancel (env 0) j.job_id e).0)

-- `list_workflow_jobs`; SQLite gives the rows by `seq`, which is the order of insertion here.
abbrev in_workflow : ℕ → Option ℕ → Bool
in_workflow wf_id none = false
in_workflow wf_id (some w) = w == wf_id

unfoldable pub list_workflow_jobs : ℕ → List (ℕ × Job) → List Job
list_workflow_jobs wf_id [] = []
list_workflow_jobs wf_id ((id, job) ∷ rest) =
    let others = list_workflow_jobs wf_id rest in
    if in_workflow wf_id job.workflow_id then job ∷ others else others

unfoldable pub cancel_workflow : (ℕ → Env) → ℕ → Engine → Engine × CancelStatus
unfolding cancel_all list_workflow_jobs update_workflow
cancel_workflow env wf_id e = elim (lookup wf_id e.store.workflows) [
  | none ↦ (e, CancelStatus.not_found)
  | some wf ↦
      if same_wf wf.state WorkflowState.running
      then (let w =
            update_workflow (env 0)
              (record wf { state = WorkflowState.cancelled; finished_at_ms = (env 0).wall }) e in
          if w.1
          then (
            cancel_all (λ i. env (suc i)) (list_workflow_jobs wf_id w.0.store.jobs) w.0,
            CancelStatus.ok,
          )
          else (w.0, CancelStatus.not_found))
      else (e, CancelStatus.already_terminal)
]

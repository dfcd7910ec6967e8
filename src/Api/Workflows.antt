-- ===== src/Api/Workflows.antt =====
-- The handlers of src/api/api.cpp for workflows, with the messages of `submit_workflow` of
-- src/engine/engine.cpp.
use distributed_job_engine.Prelude.{
  ℕ, suc, Option, none, some, List, [], ◌∷◌, ◌++◌, ◌==◌, if◌then◌else◌, Text, text, pos, pos_part,
  lookup, length,
}
use distributed_job_engine.Util.{num}
use distributed_job_engine.Json.{
  Json, Items, string, array, nil, cons, set, get_string, count_items,
}
use distributed_job_engine.Job.{WorkflowRecord, WorkflowState}
use distributed_job_engine.Engine.State.{Env, Engine}
use distributed_job_engine.Engine.Graph.{find_index}
use distributed_job_engine.Engine.Submission.{has_handler}
use distributed_job_engine.Engine.Attempts.{CancelStatus}
use distributed_job_engine.Engine.Workflows.{
  WorkflowStatus, NodeSpec, names_of, submit_workflow, list_workflow_jobs, cancel_workflow,
}
use distributed_job_engine.Store.Queries.{list_workflows}
use distributed_job_engine.Http.{HttpRequest}
use distributed_job_engine.Api.{
  Context, HttpResponse, Step, replies, goes, ◌>>=◌, empty_object, answer, error_json, parse_body,
}
use distributed_job_engine.Api.Submission.{to_int}
use distributed_job_engine.Api.Graphs.{read_workflow}
use distributed_job_engine.Api.Jobs.{
  set_all, number, nonzero, job_items, read_limit, query_param, reply_of,
}

-- `to_string` of a workflow status.
unfoldable pub status_name : WorkflowStatus → Text
unfolding text
status_name WorkflowStatus.ok = text "ok"
status_name WorkflowStatus.empty = text "empty_workflow"
status_name WorkflowStatus.unknown_type = text "unknown_type"
status_name WorkflowStatus.duplicate_node = text "duplicate_node_name"
status_name WorkflowStatus.unknown_node_ref = text "unknown_node_reference"
status_name WorkflowStatus.self_edge = text "self_edge"
status_name WorkflowStatus.cycle = text "cycle_detected"
status_name WorkflowStatus.queue_full = text "queue_full"
status_name WorkflowStatus.store_error = text "store_error"
status_name WorkflowStatus.stopped = text "stopped"

-- What is wrong with the first bad node, and with the first bad edge.
unfoldable pub node_message : Env → List Text → List NodeSpec → Text
unfolding text
node_message env seen [] = []
node_message env seen (n ∷ ns) =
    let rest = node_message env (seen ++ n.name ∷ []) ns in
    elim (find_index n.name seen) [
      | some i ↦ text "duplicate node name: " ++ n.name
      | none ↦
          if has_handler env n.request.type
          then rest
          else text "unknown job type '" ++ n.request.type ++ text "' for node " ++ n.name
    ]

unfoldable pub edge_message : List Text → List (Text × Text) → Text
unfolding text
edge_message names [] = []
edge_message names ((a, b) ∷ es) =
    let rest = edge_message names es in
    elim (find_index a names) [
      | none ↦ text "edge references unknown node: " ++ a
      | some i ↦ elim (find_index b names) [
        | none ↦ text "edge references unknown node: " ++ b
        | some j ↦ if i == j then text "self edge on node: " ++ a else rest
      ]
    ]

-- `err` of `submit_workflow`.
unfoldable pub workflow_error :
    Context → Env → List NodeSpec → List (Text × Text) → WorkflowStatus → Text
unfolding node_message edge_message num text
workflow_error ctx env nodes edges WorkflowStatus.ok = []
workflow_error ctx env nodes edges WorkflowStatus.stopped = text "engine is stopping"
workflow_error ctx env nodes edges WorkflowStatus.empty = text "workflow has no nodes"
workflow_error ctx env nodes edges WorkflowStatus.duplicate_node = node_message env [] nodes
workflow_error ctx env nodes edges WorkflowStatus.unknown_type = node_message env [] nodes
workflow_error ctx env nodes edges WorkflowStatus.unknown_node_ref =
    edge_message (names_of nodes) edges
workflow_error ctx env nodes edges WorkflowStatus.self_edge = edge_message (names_of nodes) edges
workflow_error ctx env nodes edges WorkflowStatus.cycle = text "workflow contains a cycle"
workflow_error ctx env nodes edges WorkflowStatus.queue_full =
    text "engine at capacity for a workflow of " ++ num (pos (length nodes)) ++ text " nodes"
workflow_error ctx env nodes edges WorkflowStatus.store_error = ctx.store_message

abbrev workflow_code : WorkflowStatus → ℕ
workflow_code WorkflowStatus.queue_full = 503
workflow_code WorkflowStatus.stopped = 503
workflow_code WorkflowStatus.store_error = 500
workflow_code _ = 400

-- `out_node_ids` as an object: the ids are the new ones, from the second on.
unfoldable pub node_map : Context → Env → ℕ → List NodeSpec → Json → Json
unfolding set
node_map ctx env i [] j = j
node_map ctx env i (n ∷ ns) j =
    node_map ctx env (suc i) ns (set j n.name (string (ctx.id_text (env.new_id (suc i)))))

abbrev refused_workflow :
    Context → Env → List NodeSpec → List (Text × Text) → WorkflowStatus → HttpResponse
refused_workflow ctx env nodes edges st = answer ctx (workflow_code st) (
    set_all empty_object (
      (text "error", string (workflow_error ctx env nodes edges st))
      ∷ (text "reason", string (status_name st))
      ∷ []))

unfoldable pub workflow_reply :
    Context → Env → List NodeSpec → List (Text × Text) → WorkflowStatus → Option ℕ → HttpResponse
unfolding answer set_all workflow_error status_name node_map text
workflow_reply ctx env nodes edges WorkflowStatus.ok id = answer ctx 201 (
    set_all empty_object (
      (text "workflow_id", string (elim id [ none ↦ [] | some w ↦ ctx.id_text w ]))
      ∷ (text "state", string (text "RUNNING"))
      ∷ (text "jobs", node_map ctx env 0 nodes empty_object)
      ∷ []))
workflow_reply ctx env nodes edges st id = refused_workflow ctx env nodes edges st

abbrev pub submit_graph :
    Context
    → Env
    → Text
    → Step (List NodeSpec × List (Text × Text))
    → Engine
    → HttpResponse × Engine
submit_graph ctx env name (replies res) e = (res, e)
submit_graph ctx env name (goes (nodes, edges)) e =
    let r = submit_workflow env name nodes edges e in
    (workflow_reply ctx env nodes edges r.1 r.2, r.0)

abbrev pub graph_parsed : Context → Env → Step Json → Engine → HttpResponse × Engine
graph_parsed ctx env (replies res) e = (res, e)
graph_parsed ctx env (goes body) e =
    submit_graph ctx env (get_string body (text "name") (text "workflow")) (read_workflow ctx body)
      e

unfoldable pub post_workflows : Context → Env → HttpRequest → Engine → HttpResponse × Engine
unfolding parse_body read_workflow submit_workflow workflow_reply get_string text
post_workflows ctx env req e = graph_parsed ctx env (parse_body ctx req) e

unfoldable pub workflow_state_name : WorkflowState → Text
unfolding text
workflow_state_name WorkflowState.running = text "RUNNING"
workflow_state_name WorkflowState.succeeded = text "SUCCEEDED"
workflow_state_name WorkflowState.failed = text "FAILED"
workflow_state_name WorkflowState.cancelled = text "CANCELLED"

-- The fields of a workflow, which both answers have.
abbrev pub workflow_fields : Context → WorkflowRecord → List (Text × Json)
workflow_fields ctx w =
    (text "workflow_id", string (ctx.id_text w.workflow_id))
    ∷ (text "name", string w.name)
    ∷ (text "state", string (workflow_state_name w.state))
    ∷ (text "created_at_ms", number w.created_at_ms)
    ∷ (text "finished_at_ms", nonzero w.finished_at_ms)
    ∷ (text "node_count", number w.node_count)
    ∷ []

unfoldable pub workflow_not_found : Context → Text → HttpResponse
unfolding error_json text
workflow_not_found ctx id = error_json ctx 404 (text "workflow not found: " ++ id)

unfoldable pub get_workflow_reply : Context → Text → Engine → HttpResponse
unfolding workflow_not_found answer set_all list_workflow_jobs workflow_state_name text
get_workflow_reply ctx id e = elim (lookup (ctx.id_of id) e.store.workflows) [
  | none ↦ workflow_not_found ctx id
  | some wf ↦
      let jobs = list_workflow_jobs (ctx.id_of id) e.store.jobs in
      answer ctx 200 (
        set_all empty_object
          (workflow_fields ctx wf ++ (text "nodes", array (job_items ctx jobs)) ∷ []))
]

abbrev workflow_items : Context → List WorkflowRecord → Items
workflow_items ctx [] = nil
workflow_items ctx (w ∷ ws) =
    cons (set_all empty_object (workflow_fields ctx w)) (workflow_items ctx ws)

unfoldable pub list_workflows_reply : Context → HttpRequest → Engine → HttpResponse
unfolding query_param list_workflows answer set_all workflow_state_name count_items to_int text
list_workflows_reply ctx req e = reply_of (
    read_limit ctx req >>= λ limit.
    (let items = workflow_items ctx (list_workflows (pos_part (to_int limit)) e.store.workflows) in
      goes (
        answer ctx 200 (
          set_all empty_object
            ((text "workflows", array items) ∷ (text "count", number (count_items items)) ∷ [])))))

unfoldable pub cancel_workflow_reply : Context → Text → CancelStatus → HttpResponse
unfolding workflow_not_found error_json answer set_all text
cancel_workflow_reply ctx id CancelStatus.not_found = workflow_not_found ctx id
cancel_workflow_reply ctx id CancelStatus.already_terminal =
    error_json ctx 409 (text "workflow is not running: " ++ id)
cancel_workflow_reply ctx id CancelStatus.ok = answer ctx 200 (
    set_all empty_object
      ((text "workflow_id", string id) ∷ (text "state", string (text "CANCELLED")) ∷ []))

unfoldable pub cancel_workflow_at : Context → (ℕ → Env) → Text → Engine → HttpResponse × Engine
unfolding cancel_workflow cancel_workflow_reply
cancel_workflow_at ctx env id e =
    let r = cancel_workflow env (ctx.id_of id) e in (cancel_workflow_reply ctx id r.1, r.0)

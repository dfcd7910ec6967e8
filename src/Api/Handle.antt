-- ===== src/Api/Handle.antt =====
-- `handle` of src/api/api.cpp, with the calls that `dispatch` makes.
use distributed_job_engine.Prelude.{
  ℕ, suc, Bool, none, some, [], ◌∷◌, ◌++◌, leb, if◌then◌else◌, text,
}
use distributed_job_engine.Json.{array}
use distributed_job_engine.Histogram.{observe}
use distributed_job_engine.Engine.State.{Env, Engine}
use distributed_job_engine.Engine.Remote.{BatchWait}
use distributed_job_engine.Http.{HttpRequest}
use distributed_job_engine.Api.{Context, HttpResponse, empty_object, answer, error_json}
use distributed_job_engine.Api.Routes.{k_routes}
use distributed_job_engine.Api.Dispatch.{Endpoint, dispatch, path_exists}
use distributed_job_engine.Api.Submission.{post_jobs, strings}
use distributed_job_engine.Api.Jobs.{
  list_jobs_reply, get_job_reply, get_job_attempts, cancel_job, set_all,
}
use distributed_job_engine.Api.Workflows.{
  post_workflows, list_workflows_reply, get_workflow_reply, cancel_workflow_at,
}
use distributed_job_engine.Api.Health.{
  Process, ApiCounters, metrics_reply, health_reply, route_names,
}
use distributed_job_engine.Api.Workers.{
  with_body, worker_register, worker_heartbeat, worker_claim, worker_complete,
}

-- What one request is served with: the clocks and outcomes of the engine's calls, the order of the
-- identifiers in SQLite, the wait of a claim, the process, and the time that the request took.
pub record Service : Type 0 where
  pub ctx : Context
  pub env : ℕ → Env
  pub above : ℕ → ℕ → Bool
  pub wait : BatchWait
  pub process : Process
  pub latency_us : ℕ

pub record Router : Type 0 where
  pub engine : Engine
  pub api : ApiCounters

unfoldable pub routes_reply : Context → HttpResponse
unfolding route_names k_routes set_all answer text
routes_reply ctx =
    answer ctx 200
      (set_all empty_object ((text "routes", array (strings (route_names k_routes))) ∷ []))

-- The answer of an endpoint, with the engine behind it.
unfoldable pub serve : Service → Endpoint → HttpRequest → Router → HttpResponse × Engine
unfolding post_jobs list_jobs_reply get_job_reply get_job_attempts cancel_job post_workflows
    list_workflows_reply get_workflow_reply cancel_workflow_at health_reply metrics_reply
    routes_reply worker_register worker_heartbeat worker_claim worker_complete
serve s Endpoint.post_jobs req r = post_jobs s.ctx (s.env 0) req r.engine
serve s Endpoint.list_jobs req r = (list_jobs_reply s.ctx s.above req r.engine, r.engine)
serve s (Endpoint.get_job id) req r = (get_job_reply s.ctx id r.engine, r.engine)
serve s (Endpoint.get_job_attempts id) req r = (get_job_attempts s.ctx id r.engine, r.engine)
serve s (Endpoint.cancel_job id) req r = cancel_job s.ctx (s.env 0) id r.engine
serve s Endpoint.post_workflows req r = post_workflows s.ctx (s.env 0) req r.engine
serve s Endpoint.list_workflows req r = (list_workflows_reply s.ctx req r.engine, r.engine)
serve s (Endpoint.get_workflow id) req r = (get_workflow_reply s.ctx id r.engine, r.engine)
serve s (Endpoint.cancel_workflow id) req r = cancel_workflow_at s.ctx s.env id r.engine
serve s Endpoint.health req r = (health_reply s.ctx s.process r.engine, r.engine)
serve s Endpoint.metrics_endpoint req r = (metrics_reply s.ctx s.process r.api r.engine, r.engine)
serve s Endpoint.list_routes req r = (routes_reply s.ctx, r.engine)
serve s Endpoint.worker_register req r =
    with_body s.ctx req (worker_register s.ctx (s.env 0)) r.engine
serve s Endpoint.worker_heartbeat req r =
    with_body s.ctx req (worker_heartbeat s.ctx (s.env 0)) r.engine
serve s Endpoint.worker_claim req r = with_body s.ctx req (worker_claim s.ctx s.env s.wait) r.engine
serve s Endpoint.worker_complete req r =
    with_body s.ctx req (worker_complete s.ctx (s.env 0)) r.engine

-- The answer where nothing serves the request.
unfoldable pub unserved : Context → HttpRequest → HttpResponse
unfolding path_exists k_routes error_json text
unserved ctx req =
    if path_exists req.path k_routes
    then error_json ctx 405 (text "method " ++ req.method ++ text " not allowed for " ++ req.path)
    else error_json ctx 404 (text "no such endpoint: " ++ req.path)

abbrev counted_request : ApiCounters → ApiCounters
counted_request api = record api { api_requests = suc api.api_requests }

-- The counters behind the answer.
unfoldable pub count_answer : ℕ → ℕ → ApiCounters → ApiCounters
unfolding observe
count_answer status latency api =
    let timed = record api { api_latency = observe latency api.api_latency } in
    if leb 500 status
    then record timed { api_server_errors = suc api.api_server_errors }
    else if leb 400 status
    then record timed { api_client_errors = suc api.api_client_errors }
    else timed

unfoldable pub respond : Service → HttpRequest → Router → HttpResponse × Engine
unfolding dispatch serve unserved
respond s req r = elim (dispatch req.method req.path) [
  | none ↦ (unserved s.ctx req, r.engine)
  | some endpoint ↦ serve s endpoint req r
]

unfoldable pub handle : Service → HttpRequest → Router → HttpResponse × Router
unfolding respond count_answer
handle s req r =
    let counted = counted_request r.api in
    let reply = respond s req (record r { api = counted }) in
    (reply.0, record { engine = reply.1; api = count_answer reply.0.status s.latency_us counted })

-- ===== src/Api/Health.antt =====
-- `health` and `metrics_endpoint` of src/api/api.cpp, with the `to_json` functions of
-- src/core/metrics.cpp.
use distributed_job_engine.Prelude.{
  ℕ, suc, Bool, ◌&&◌, not, List, [], ◌∷◌, ◌++◌, ◌==◌, if◌then◌else◌, Text, text, length,
}
use distributed_job_engine.Json.{Json, double, string, array, set}
use distributed_job_engine.Job.{Metrics, WorkerInfo}
use distributed_job_engine.Histogram.{Histogram}
use distributed_job_engine.Histogram.Percentiles.{Shares, percentile_us}
use distributed_job_engine.Queue
use distributed_job_engine.Engine.State.{Engine}
use distributed_job_engine.Store.Queries.{count_by_state}
use distributed_job_engine.Api.{Context, HttpResponse, empty_object, answer}
use distributed_job_engine.Api.Routes.{Route}
use distributed_job_engine.Api.Submission.{strings}
use distributed_job_engine.Api.Jobs.{set_all, number}

-- What is told of the process: its times, its threads, and the doubles of the figures. `mean_ms` is
-- the quotient of a sum and a count of microseconds, in milliseconds.
pub record Process : Type 0 where
  pub started : Bool
  pub uptime_ms : ℕ
  pub worker_threads : ℕ
  pub shares : Shares
  pub mean_ms : ℕ → ℕ → ℕ

-- The counters of `Metrics` that `handle` keeps.
pub record ApiCounters : Type 0 where
  pub api_requests : ℕ
  pub api_client_errors : ℕ
  pub api_server_errors : ℕ
  pub api_latency : Histogram

abbrev mean_of : Context → Process → Histogram → ℕ
mean_of ctx p h = if h.count == 0 then ctx.thousandth 0 else p.mean_ms h.sum_us h.count

unfoldable pub histogram_json : Context → Process → Histogram → Json
unfolding percentile_us set_all text
histogram_json ctx p h = set_all empty_object (
    (text "count", number h.count)
    ∷ (text "mean_ms", double (mean_of ctx p h))
    ∷ (text "max_ms", double (ctx.thousandth h.max_us))
    ∷ (text "p50_ms_est", double (ctx.thousandth (percentile_us p.shares 50 h)))
    ∷ (text "p95_ms_est", double (ctx.thousandth (percentile_us p.shares 95 h)))
    ∷ (text "p99_ms_est", double (ctx.thousandth (percentile_us p.shares 99 h)))
    ∷ [])

unfoldable pub counters_json : Metrics → ApiCounters → Json
unfolding set_all text
counters_json m api = set_all empty_object (
    (text "jobs_submitted", number m.jobs_submitted)
    ∷ (text "jobs_started", number m.jobs_started)
    ∷ (text "jobs_succeeded", number m.jobs_succeeded)
    ∷ (text "jobs_failed", number m.jobs_failed)
    ∷ (text "jobs_timed_out", number m.jobs_timed_out)
    ∷ (text "jobs_cancelled", number m.jobs_cancelled)
    ∷ (text "jobs_skipped", number m.jobs_skipped)
    ∷ (text "attempts_started", number m.attempts_started)
    ∷ (text "attempts_retried", number m.attempts_retried)
    ∷ (text "jobs_rejected_queue_full", number m.jobs_rejected_queue_full)
    ∷ (text "leases_expired", number m.leases_expired)
    ∷ (text "jobs_reassigned", number m.jobs_reassigned)
    ∷ (text "stale_results_rejected", number m.stale_results_rejected)
    ∷ (text "workers_registered", number m.workers_registered)
    ∷ (text "workers_marked_dead", number m.workers_marked_dead)
    ∷ (text "api_requests", number api.api_requests)
    ∷ (text "api_client_errors", number api.api_client_errors)
    ∷ (text "api_server_errors", number api.api_server_errors)
    ∷ (text "workflows_created", number m.workflows_created)
    ∷ (text "workflows_succeeded", number m.workflows_succeeded)
    ∷ (text "workflows_failed", number m.workflows_failed)
    ∷ [])

unfoldable pub metrics_json : Context → Process → Metrics → ApiCounters → Json
unfolding histogram_json counters_json set_all text
metrics_json ctx p m api = set_all empty_object (
    (text "counters", counters_json m api)
    ∷ (
      text "latency",
      set_all empty_object (
          (text "queue_wait", histogram_json ctx p m.queue_wait)
          ∷ (text "exec", histogram_json ctx p m.exec)
          ∷ (text "end_to_end", histogram_json ctx p m.end_to_end)
          ∷ (text "api", histogram_json ctx p api.api_latency)
          ∷ []),
    )
    ∷ (
      text "note",
      string (
          text "latency percentiles are histogram estimates (bucket upper edges); "
          ++ text "benchmark numbers are computed from raw samples, see BENCHMARKS.md"),
    )
    ∷ [])

abbrev state_counts : List (Text × ℕ) → List (Text × Json)
state_counts [] = []
state_counts ((s, n) ∷ rest) = (s, number n) ∷ state_counts rest

unfoldable pub metrics_reply : Context → Process → ApiCounters → Engine → HttpResponse
unfolding metrics_json set_all set answer text
metrics_reply ctx p api e = answer ctx 200 (
    set (metrics_json ctx p e.metrics api) (text "jobs_by_state")
      (set_all empty_object (state_counts (count_by_state e.store.jobs))))

unfoldable pub alive_workers : List (ℕ × WorkerInfo) → ℕ
alive_workers [] = 0
alive_workers ((id, w) ∷ rest) =
    let others = alive_workers rest in if w.alive then suc others else others

abbrev state_of_engine : Process → Engine → Text
state_of_engine p e = if p.started && not e.stop_requested then text "ok" else text "stopping"

unfoldable pub health_reply : Context → Process → Engine → HttpResponse
unfolding alive_workers set_all answer text
health_reply ctx p e = answer ctx 200 (
    set_all empty_object (
      (text "status", string (state_of_engine p e))
      ∷ (text "uptime_ms", number p.uptime_ms)
      ∷ (text "queue_depth", number (Queue.size e.queue))
      ∷ (text "queue_ready", number e.queue.live_ready)
      ∷ (text "queue_delayed", number e.queue.live_delayed)
      ∷ (text "running", number (length e.running))
      ∷ (text "outstanding", number e.outstanding)
      ∷ (text "worker_threads", number p.worker_threads)
      ∷ (text "remote_workers_alive", number (alive_workers e.remote_workers))
      ∷ (text "job_types", array (strings ctx.types))
      ∷ []))

-- `routes`, the answer to `GET /routes`.
unfoldable pub route_names : List Route → List Text
unfolding text
route_names [] = []
route_names (r ∷ rs) = (r.method ++ text " " ++ r.pattern) ∷ route_names rs

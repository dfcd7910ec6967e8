-- ===== src/Tests/Services.antt =====
-- The API with the engine of one job behind it.
use distributed_job_engine.Prelude.{
  ℕ, ◌≡◌, refl, true, false, some, List, [], ◌∷◌, ◌*◌, leb, arith, text, text_eq, Text, pos,
  if◌then◌else◌,
}
use distributed_job_engine.Lifecycle.{running, queued}
use distributed_job_engine.Util.{num}
use distributed_job_engine.Json.{object, end, null, cons, nil}
use distributed_job_engine.Json.Printer.{dump}
use distributed_job_engine.Job.{LeasedJob}
use distributed_job_engine.Histogram.{reset}
use distributed_job_engine.Histogram.Buckets.{observe_all}
use distributed_job_engine.Histogram.Percentiles.{
  Shares, IsPercentile, percentile_us, percentile_us_lem,
}
use distributed_job_engine.Engine.State.{Engine}
use distributed_job_engine.Engine.Remote.{complete}
use distributed_job_engine.Http.{HttpRequest}
use distributed_job_engine.Api.{Context}
use distributed_job_engine.Api.Routes.{k_routes, match, matches, serves}
use distributed_job_engine.Api.Dispatch.{any_route}
use distributed_job_engine.Api.Workers.{
  string_to_u64, leased_json, with_body, worker_complete, complete_reply, is_outcome, claim_reply,
}
use distributed_job_engine.Worker.{HttpClientResponse, claimed_jobs}
use distributed_job_engine.Api.Tokens.{token_round_trip}
use distributed_job_engine.Api.Health.{Process}
use distributed_job_engine.Api.Handle.{Service, Router, handle}
use distributed_job_engine.Api.Answers.{handle_unserved, get_leaves_engine}
use distributed_job_engine.Worker.Attempts.{Report, read_lease, done_body}
use distributed_job_engine.Worker.Reports.{report_served, claimed_jobs-claim_reply, leased-Plain}
use distributed_job_engine.Tests.Samples.{env, job_in, engine_with}

-- Doubles that are all alike, and identifiers that are written in digits.
abbrev ctx : Context
ctx = record {
  double_text = record { is_finite = λ d. true; format = λ d. text "0.5"; strtod = λ s. 0 };
  truncate = λ d. some (pos d);
  of_int = λ i. 0;
  two = 2;
  below_one = λ d. false;
  thousandth = λ us. us;
  id_of = string_to_u64;
  id_text = λ id. num (pos id);
  types = text "echo" ∷ [];
  parse_message = λ e s. [];
  store_message = text "disk full";
}

abbrev request_to : Text → Text → Text → HttpRequest
request_to method path body = record {
  method = method;
  target = path;
  path = path;
  version = text "HTTP/1.1";
  headers = [];
  query = [];
  body = body;
  keep_alive = true;
}

abbrev one_job : Engine
one_job = engine_with (job_in queued)

abbrev new_job_request : HttpRequest
new_job_request =
    request_to (text "POST") (text "/jobs") (text "{\"type\":\"echo\",\"max_attempts\":3}")

-- A share is reached by a count that is at least `p` times the number of observations, in hundredths.
abbrev shares : Shares
shares = record { target = ◌*◌; reaches = λ n t. leb t (n * 100) }

abbrev waits : List ℕ
waits = 5 ∷ 30 ∷ []

percentile_us_lem_example :
    IsPercentile shares (50 * 3) (20 ∷ waits) (percentile_us shares 50 (observe_all (20 ∷ waits)))
percentile_us_lem_example = percentile_us_lem shares 50 20 waits

abbrev process : Process
process = record {
  started = true;
  uptime_ms = 5;
  worker_threads = 2;
  shares = shares;
  mean_ms = λ sum n. sum;
}

abbrev service : Service
service = record {
  ctx = ctx;
  env = λ i. env;
  above = λ a b. leb b a;
  wait = record { wait_ms = pos 0; rounds = []; between = []; now = 500 };
  process = process;
  latency_us = 40;
}

abbrev router : Router
router = record {
  engine = one_job;
  api = record {
    api_requests = 0;
    api_client_errors = 0;
    api_server_errors = 0;
    api_latency = reset;
  };
}

-- A method that no route has on a path that routes match.
abbrev delete_request : HttpRequest
delete_request = request_to (text "DELETE") (text "/jobs") []

deleted : any_route (serves (text "DELETE") (text "/jobs")) k_routes ≡ false
unfolding k_routes text text_eq match
deleted = refl

handle_unserved_example :
    ((handle service delete_request router).0.status
      ≡ (if any_route (λ route. matches route.pattern (text "/jobs")) k_routes then 405 else 404))
    × ((handle service delete_request router).1.engine ≡ one_job)
    × ((handle service delete_request router).1.api.api_client_errors ≡ 1)
handle_unserved_example = handle_unserved service delete_request router deleted

abbrev list_request : HttpRequest
list_request = request_to (text "GET") (text "/jobs") []

get_leaves_engine_example : (handle service list_request router).1.engine ≡ one_job
get_leaves_engine_example = get_leaves_engine service list_request router refl

abbrev leased : LeasedJob
leased = record {
  job_id = 7;
  type = text "echo";
  payload = object end;
  attempt = 1;
  lease_token = 5;
  timeout_ms = pos 0;
  lease_expires_ms = 950;
}

abbrev success_report : Report
success_report = record { status = text "SUCCEEDED"; result = null; error = [] }

abbrev done_request : HttpRequest
done_request = request_to (text "POST") (text "/internal/complete") (
    dump ctx.double_text
      (done_body (text "9") (read_lease ctx (leased_json ctx leased)) success_report))

succeeded_listed : is_outcome (text "SUCCEEDED") ≡ true
unfolding is_outcome text text_eq
succeeded_listed = refl

abbrev claim_answer : HttpClientResponse
claim_answer = record {
  ok = true;
  status = pos 200;
  body = (claim_reply ctx (leased ∷ [])).body;
  error = [];
}

claimed_one : claimed_jobs ctx claim_answer ≡ cons (leased_json ctx leased) nil
claimed_one =
    claimed_jobs-claim_reply ctx leased claim_answer
      (leased-Plain ctx leased (omega arith) (omega arith) (omega arith, omega arith)
        (omega arith, tt))
      refl refl refl

report_served_example :
    let c =
      complete env
        (string_to_u64 (text "9"))
        7
        1
        5
        (text "SUCCEEDED")
        null
        []
        (engine_with (job_in running)) in
    with_body ctx done_request (worker_complete ctx env) (engine_with (job_in running))
    ≡ (complete_reply ctx (num (pos 7)) c.1, c.0)
report_served_example =
    report_served ctx env (text "9") leased claim_answer (leased_json ctx leased) success_report
      done_request (engine_with (job_in running)) (omega arith) (omega arith) (omega arith)
      (omega arith, omega arith) (omega arith, tt) (token_round_trip 7 (omega arith))
      succeeded_listed (omega arith) refl refl refl claimed_one refl

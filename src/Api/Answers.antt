-- ===== src/Api/Answers.antt =====
-- What `handle` of src/api/api.cpp answers to a request that nothing serves, and what a GET request
-- leaves alone.
use distributed_job_engine.Prelude.{
  ℕ, suc, ◌≡◌, refl, sym, ◌∙◌, subst, Bool, true, false, Option, none, some, List, [], ◌∷◌,
  if◌then◌else◌, Text, text, text_eq, arith,
}
use distributed_job_engine.Engine.State.{Engine}
use distributed_job_engine.Http.{HttpRequest}
use distributed_job_engine.Api.{Context, HttpResponse, error_json, answer}
use distributed_job_engine.Api.Routes.{Route, k_routes, match, matches, serves, is_some}
use distributed_job_engine.Api.Dispatch.{
  Endpoint, on, dispatch, path_exists, any_route, dispatch-routes,
}
use distributed_job_engine.Api.Health.{ApiCounters}
use distributed_job_engine.Api.Handle.{
  Service, Router, serve, unserved, count_answer, respond, handle,
}

not_some : {A : Type 0} (o : Option A) → is_some o ≡ false → o ≡ none
not_some none h = refl
not_some (some x) h = absurd (ground (arith, h))

status-if :
    (b : Bool) (x y : HttpResponse)
    → (if b then x else y).status ≡ (if b then x.status else y.status)
status-if true x y = refl
status-if false x y = refl

unserved_status :
    (ctx : Context) (req : HttpRequest)
    → (unserved ctx req).status ≡ (if path_exists req.path k_routes then 405 else 404)
unfolding unserved error_json answer
unserved_status ctx req = status-if (path_exists req.path k_routes) _ _

client_error :
    (status latency : ℕ) (b : Bool) (api : ApiCounters)
    → status ≡ (if b then 405 else 404)
    → (count_answer status latency api).api_client_errors ≡ suc api.api_client_errors
unfolding count_answer
client_error status latency true api h = ground (arith, h)
client_error status latency false api h = ground (arith, h)

path_exists_lem :
    (path : Text) (rs : List Route)
    → path_exists path rs ≡ any_route (λ r. matches r.pattern path) rs
unfolding path_exists
path_exists_lem path [] = refl
path_exists_lem path (r ∷ rs) = let h = path_exists_lem path rs in ground (arith, h)

unserved_request :
    (s : Service) (req : HttpRequest) (r : Router)
    → any_route (serves req.method req.path) k_routes ≡ false
    → respond s req r ≡ (unserved s.ctx req, r.engine)
unfolding respond
unserved_request s req r h =
    let none_serves =
      not_some (dispatch req.method req.path) (dispatch-routes req.method req.path ∙ h) in
    rw (none_serves, respond) refl

-- A request that no route serves, by its method and its path, is answered with 405 if some route
-- matches its path and with 404 if none does; the engine is as it was, and one client error more is
-- counted.
pub handle_unserved :
    (s : Service) (req : HttpRequest) (r : Router)
    → any_route (serves req.method req.path) k_routes ≡ false
    → ((handle s req r).0.status
        ≡ (if any_route (λ route. matches route.pattern req.path) k_routes then 405 else 404))
      × ((handle s req r).1.engine ≡ r.engine)
      × ((handle s req r).1.api.api_client_errors ≡ suc r.api.api_client_errors)
unfolding handle
handle_unserved s req r h =
    let counted : Router = record r {
      api = record (r.api) { api_requests = suc r.api.api_requests };
    } in
    let reply = unserved_request s req counted h in
    let status = unserved_status s.ctx req in
    let paths = path_exists_lem req.path k_routes in
    rw reply (
      status ∙ rw paths refl,
      refl,
      client_error _ s.latency_us (path_exists req.path k_routes) counted.api status,
    )

-- The endpoints that answer without a change.
abbrev Leaves : Service → HttpRequest → Router → Option Endpoint → Type 0
Leaves s req r none = Unit
Leaves s req r (some endpoint) = (serve s endpoint req r).1 ≡ r.engine

branch-Leaves :
    (s : Service) (req : HttpRequest) (r : Router) (same : Bool) (captured : Option Text)
    (f : Text → Endpoint) (o : Option Endpoint)
    → ((id : Text) → same ≡ true → Leaves s req r (some (f id)))
    → Leaves s req r o
    → Leaves s req r
        (elim same [ false ↦ o | true ↦ elim captured [ none ↦ o | some id ↦ some (f id) ] ])
branch-Leaves s req r false captured f o one others = others
branch-Leaves s req r true none f o one others = others
branch-Leaves s req r true (some id) f o one others = one id refl

-- One test of `dispatch` for a GET request: the endpoint changes nothing, or the method is another.
on-Leaves :
    (s : Service) (req : HttpRequest) (r : Router) (method pattern path : Text)
    (f : Text → Endpoint) (o : Option Endpoint)
    → ((id : Text) → text_eq (text "GET") method ≡ true → Leaves s req r (some (f id)))
    → Leaves s req r o
    → Leaves s req r (on method pattern (text "GET") path f o)
unfolding on
on-Leaves s req r method pattern path f o one others =
    branch-Leaves s req r (text_eq (text "GET") method) (match pattern path) f o one others

not_post : text_eq (text "GET") (text "POST") ≡ true → ⊥
unfolding text text_eq
not_post h = ground (arith, h)

posted :
    (s : Service) (req : HttpRequest) (r : Router) (pattern path : Text) (f : Text → Endpoint)
    (o : Option Endpoint)
    → Leaves s req r o
    → Leaves s req r (on (text "POST") pattern (text "GET") path f o)
posted s req r pattern path f o others =
    on-Leaves s req r (text "POST") pattern path f o (λ id h. absurd (not_post h)) others

dispatch-Leaves :
    (s : Service) (req : HttpRequest) (r : Router) (path : Text)
    → Leaves s req r (dispatch (text "GET") path)
unfolding dispatch serve
dispatch-Leaves s req r path =
    posted s req r (text "/jobs") path (λ x. Endpoint.post_jobs) _
      (on-Leaves s req r (text "GET") (text "/jobs") path (λ x. Endpoint.list_jobs) _ (λ id h. refl)
        (on-Leaves s req r (text "GET") (text "/jobs/{id}") path Endpoint.get_job _ (λ id h. refl)
          (on-Leaves s req r (text "GET") (text "/jobs/{id}/attempts") path
            Endpoint.get_job_attempts _ (λ id h. refl)
            (posted s req r (text "/jobs/{id}/cancel") path Endpoint.cancel_job _ (
              posted s req r (text "/workflows") path (λ x. Endpoint.post_workflows) _
                (on-Leaves s req r (text "GET") (text "/workflows") path
                  (λ x. Endpoint.list_workflows) _ (λ id h. refl)
                  (on-Leaves s req r (text "GET") (text "/workflows/{id}") path
                    Endpoint.get_workflow _ (λ id h. refl)
                    (posted s req r (text "/workflows/{id}/cancel") path Endpoint.cancel_workflow _
                      (on-Leaves s req r (text "GET") (text "/health") path (λ x. Endpoint.health) _
                        (λ id h. refl)
                        (on-Leaves s req r (text "GET") (text "/metrics") path
                          (λ x. Endpoint.metrics_endpoint) _ (λ id h. refl)
                          (on-Leaves s req r (text "GET") (text "/routes") path
                            (λ x. Endpoint.list_routes) _ (λ id h. refl)
                            (posted s req r (text "/internal/workers/register") path
                              (λ x. Endpoint.worker_register) _
                              (posted s req r (text "/internal/workers/heartbeat") path
                                (λ x. Endpoint.worker_heartbeat) _
                                (posted s req r (text "/internal/claim") path
                                  (λ x. Endpoint.worker_claim) _
                                  (posted s req r (text "/internal/complete") path
                                    (λ x. Endpoint.worker_complete) _ tt)))))))))))))))

respond-Leaves :
    (s : Service) (req : HttpRequest) (r : Router) (o : Option Endpoint)
    → Leaves s req r o
    → (elim o as (λ x. HttpResponse × Engine) [
      | none ↦ (unserved s.ctx req, r.engine)
      | some endpoint ↦ serve s endpoint req r
    ]).1
      ≡ r.engine
respond-Leaves s req r none h = refl
respond-Leaves s req r (some endpoint) h = h

-- A GET request leaves the engine as it is, whatever its path, its query and its body.
pub get_leaves_engine :
    (s : Service) (req : HttpRequest) (r : Router)
    → req.method ≡ text "GET"
    → (handle s req r).1.engine ≡ r.engine
unfolding handle respond
get_leaves_engine s req r h =
    let counted : Router = record r {
      api = record (r.api) { api_requests = suc r.api.api_requests };
    } in
    respond-Leaves s req counted (dispatch req.method req.path) (
      subst (λ m. Leaves s req counted (dispatch m req.path)) (sym h)
        (dispatch-Leaves s req counted req.path))

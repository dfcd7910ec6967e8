-- ===== src/Api/Dispatch.antt =====
-- `dispatch` and `handle` of src/api/api.cpp: which handler serves a request.
use distributed_job_engine.Prelude.{
  Bool, true, false, ◌&&◌, ◌||◌, Option, none, some, List, [], ◌∷◌, if◌then◌else◌, Text, text,
  text_eq, ◌≡◌, refl, arith,
}
use distributed_job_engine.Api.Routes.{Route, k_routes, match, is_some, matches, serves}

-- The handlers, with the captured part of the path where they take one.
pub data Endpoint : Type 0 where
  post_jobs list_jobs : Endpoint
  get_job get_job_attempts cancel_job : Text → Endpoint
  post_workflows list_workflows : Endpoint
  get_workflow cancel_workflow : Text → Endpoint
  health metrics_endpoint list_routes : Endpoint
  worker_register worker_heartbeat worker_claim worker_complete : Endpoint

-- One `if` of `dispatch`, with what follows it.
unfoldable pub on :
    Text → Text → Text → Text → (Text → Endpoint) → Option Endpoint → Option Endpoint
unfolding match
on method pattern m path endpoint otherwise = elim (text_eq m method) [
  | false ↦ otherwise
  | true ↦ elim (match pattern path) [ none ↦ otherwise | some id ↦ some (endpoint id) ]
]

unfoldable pub dispatch : Text → Text → Option Endpoint
unfolding on text
dispatch m path =
    on (text "POST") (text "/jobs") m path (λ id. post_jobs)
      (on (text "GET") (text "/jobs") m path (λ id. list_jobs)
        (on (text "GET") (text "/jobs/{id}") m path get_job (
          on (text "GET") (text "/jobs/{id}/attempts") m path get_job_attempts (
            on (text "POST") (text "/jobs/{id}/cancel") m path cancel_job (
              on (text "POST") (text "/workflows") m path (λ id. post_workflows)
                (on (text "GET") (text "/workflows") m path (λ id. list_workflows)
                  (on (text "GET") (text "/workflows/{id}") m path get_workflow (
                    on (text "POST") (text "/workflows/{id}/cancel") m path cancel_workflow (
                      on (text "GET") (text "/health") m path (λ id. health)
                        (on (text "GET") (text "/metrics") m path (λ id. metrics_endpoint)
                          (on (text "GET") (text "/routes") m path (λ id. list_routes)
                            (on (text "POST") (text "/internal/workers/register") m path
                              (λ id. worker_register)
                              (on (text "POST") (text "/internal/workers/heartbeat") m path
                                (λ id. worker_heartbeat)
                                (on (text "POST") (text "/internal/claim") m path
                                  (λ id. worker_claim)
                                  (on (text "POST") (text "/internal/complete") m path
                                    (λ id. worker_complete) none)))))))))))))))

-- The loop of `handle` over the table, when nothing served the request.
unfoldable pub path_exists : Text → List Route → Bool
unfolding match
path_exists path [] = false
path_exists path (r ∷ rs) =
    let rest = path_exists path rs in if matches r.pattern path then true else rest

abbrev pub any_route : (Route → Bool) → List Route → Bool
any_route f [] = false
any_route f (r ∷ rs) = f r || any_route f rs

is_some-on :
    (method pattern m path : Text) (f : Text → Endpoint) (o : Option Endpoint)
    → is_some (on method pattern m path f o)
      ≡ (text_eq m method && matches pattern path) || is_some o
unfolding on
is_some-on method pattern m path f o = ground arith

-- A request is served exactly if a route of the table has its method and matches its path.
pub dispatch-routes :
    (m path : Text) → is_some (dispatch m path) ≡ any_route (serves m path) k_routes
unfolding dispatch k_routes
dispatch-routes m path = simp is_some-on refl

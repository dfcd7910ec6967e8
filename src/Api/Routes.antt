-- ===== src/Api/Routes.antt =====
-- The table `kRoutes` of src/api/api.cpp, and `match`.
use distributed_job_engine.Prelude.{
  ℕ, Bool, true, false, ◌&&◌, Option, none, some, List, [], ◌∷◌, ◌==◌, if◌then◌else◌, is_nil, Text,
  text, text_eq,
}
use distributed_job_engine.Util.{split}

pub record Route : Type 0 where
  pub method : Text
  pub pattern : Text

abbrev route : Text → Text → Route
route method pattern = record { method = method; pattern = pattern }

unfoldable pub k_routes : List Route
unfolding text
k_routes =
    route (text "POST") (text "/jobs")
    ∷ route (text "GET") (text "/jobs")
    ∷ route (text "GET") (text "/jobs/{id}")
    ∷ route (text "GET") (text "/jobs/{id}/attempts")
    ∷ route (text "POST") (text "/jobs/{id}/cancel")
    ∷ route (text "POST") (text "/workflows")
    ∷ route (text "GET") (text "/workflows")
    ∷ route (text "GET") (text "/workflows/{id}")
    ∷ route (text "POST") (text "/workflows/{id}/cancel")
    ∷ route (text "GET") (text "/health")
    ∷ route (text "GET") (text "/metrics")
    ∷ route (text "GET") (text "/routes")
    ∷ route (text "POST") (text "/internal/workers/register")
    ∷ route (text "POST") (text "/internal/workers/heartbeat")
    ∷ route (text "POST") (text "/internal/claim")
    ∷ route (text "POST") (text "/internal/complete")
    ∷ []

-- The last byte of a text.
abbrev ends_with : ℕ → Text → Bool
ends_with c [] = false
ends_with c (x ∷ []) = x == c
ends_with c (x ∷ y ∷ s) = ends_with c (y ∷ s)

-- `{...}`, of two bytes at least.
unfoldable pub is_placeholder : Text → Bool
is_placeholder [] = false
is_placeholder (x ∷ s) = (x == b'{') && ends_with b'}' s

-- The loop of `match` over the parts; `captured` is the part of the last placeholder.
unfoldable pub match_parts : Text → List Text → List Text → Option Text
unfolding is_placeholder
match_parts captured [] [] = some captured
match_parts captured [] (a ∷ as') = none
match_parts captured (p ∷ ps) [] = none
match_parts captured (p ∷ ps) (a ∷ as') =
    if is_placeholder p
    then if is_nil a then none else match_parts a ps as'
    else if text_eq p a
    then match_parts captured ps as'
    else none

unfoldable pub match : Text → Text → Option Text
unfolding match_parts split
match pattern path = match_parts [] (split b'/' pattern) (split b'/' path)

abbrev pub is_some {ℓ} : {A : Type ℓ} → Option A → Bool
is_some none = false
is_some (some x) = true

abbrev pub matches : Text → Text → Bool
matches pattern path = is_some (match pattern path)

abbrev pub serves : Text → Text → Route → Bool
serves method path r = text_eq method r.method && matches r.pattern path

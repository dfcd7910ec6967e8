-- ===== src/Http.antt =====
-- `HttpRequest` of include/jobengine/http.hpp and src/http/http_server.cpp.
pub mod Head
pub mod Feed
pub mod Chunks
pub mod Framing
pub mod Limits
pub mod Errors
pub mod Client
pub mod Lines
pub mod Names
pub mod RequestLine
pub mod Headers
pub mod SentHead
pub mod Sent
use distributed_job_engine.Prelude.{
  ℕ, zero, suc, ◌+◌, ◌-◌, ◌*◌, Bool, true, false, not, ◌&&◌, ◌||◌, Option, none, some, List, [],
  ◌∷◌, ◌++◌, ltb, leb, ◌==◌, if◌then◌else◌, length, is_nil, Text, text, text_eq, take, drop, pos,
  negsuc, ℤ,
}
use distributed_job_engine.Util.{
  num, trim, split, lower_char, to_lower, starts_with, url_decode, parse_int,
}

-- A list of pairs; of two with one key the first counts.
abbrev pub Pairs : Type 0
Pairs = List (Text × Text)

pub record HttpRequest : Type 0 where
  pub method : Text
  pub target : Text
  pub path : Text
  pub version : Text
  pub headers : Pairs
  pub query : Pairs
  pub body : Text
  pub keep_alive : Bool

abbrev pub max_header_bytes : ℕ
max_header_bytes = 16 * 1024

abbrev pub max_body_bytes : ℕ
max_body_bytes = 8 * 1024 * 1024

unfoldable pub iequals : Text → Text → Bool
iequals [] [] = true
iequals [] (b ∷ t) = false
iequals (a ∷ s) [] = false
iequals (a ∷ s) (b ∷ t) =
    let rest = iequals s t in if lower_char a == lower_char b then rest else false

-- `HttpRequest::header`, the empty text where there is none.
unfoldable pub header : Text → Pairs → Text
unfolding iequals
header name [] = []
header name ((k, v) ∷ rest) = let later = header name rest in if iequals k name then v else later

-- `query[key] = value`.
unfoldable pub set_query : Text → Text → Pairs → Pairs
set_query key value [] = (key, value) ∷ []
set_query key value ((k, v) ∷ rest) =
    let later = set_query key value rest in
    if text_eq k key then (key, value) ∷ rest else (k, v) ∷ later

-- What is before and behind the first `c`: `find` with two `substr`.
unfoldable pub cut : ℕ → Text → Option (Text × Text)
cut c [] = none
cut c (x ∷ s) =
    let rest = cut c s in
    if x == c then some ([], s) else elim rest [ none ↦ none | some (a, b) ↦ some (x ∷ a, b) ]

-- One `key=value` of the query string.
unfoldable pub add_pair : Text → Pairs → Pairs
unfolding cut set_query url_decode
add_pair [] query = query
add_pair (c ∷ s) query = elim (cut b'=' (c ∷ s)) [
  | none ↦ set_query (url_decode (c ∷ s)) [] query
  | some (k, v) ↦ set_query (url_decode k) (url_decode v) query
]

unfoldable pub add_pairs : List Text → Pairs → Pairs
unfolding add_pair
add_pairs [] query = query
add_pairs (w ∷ ws) query = add_pairs ws (add_pair w query)

-- The path and the query of a target.
unfoldable pub set_target : Text → HttpRequest → HttpRequest
unfolding cut add_pairs split url_decode
set_target target req = elim (cut b'?' target) [
  | none ↦ record req { target = target; path = url_decode target }
  | some (a, b) ↦ record req {
    target = target;
    path = url_decode a;
    query = add_pairs (split b'&' b) req.query;
  }
]

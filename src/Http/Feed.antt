-- ===== src/Http/Feed.antt =====
-- `HttpRequestParser::feed` of src/http/http_server.cpp.
use distributed_job_engine.Prelude.{
  ℕ, suc, ◌+◌, ◌-◌, Bool, true, false, Option, none, some, List, [], ◌∷◌, ◌++◌, ltb, if◌then◌else◌,
  length, Text, text, take, drop, pos,
}
use distributed_job_engine.Util.{num, starts_with}
use distributed_job_engine.Http.{HttpRequest, max_header_bytes}
use distributed_job_engine.Http.Head.{Parsed, bad, good, parse_head}

pub data Status : Type 0 where
  need_more : Status
  complete : Status
  error : Status

pub record RequestParser : Type 0 where
  pub buffer : Text
  pub request : HttpRequest
  pub headers_done : Bool
  pub body_expected : ℕ
  pub body_start : ℕ
  pub consumed : ℕ
  pub error_status : ℕ
  pub error_message : Text

-- A new parser, and what `reset` leaves.
unfoldable pub fresh : RequestParser
fresh = record {
  buffer = [];
  request = record {
    method = [];
    target = [];
    path = [];
    version = [];
    headers = [];
    query = [];
    body = [];
    keep_alive = true;
  };
  headers_done = false;
  body_expected = 0;
  body_start = 0;
  consumed = 0;
  error_status = 400;
  error_message = [];
}

abbrev pub fail : ℕ → Text → RequestParser → Status × RequestParser
fail status message p = (error, record p { error_status = status; error_message = message })

-- The end of the headers, a carriage return and a line feed, twice.
abbrev pub blank_line : Text
blank_line = 13 ∷ 10 ∷ 13 ∷ 10 ∷ []

-- Where the headers end.
unfoldable pub find_end : Text → Option ℕ
unfolding starts_with
find_end [] = none
find_end (c ∷ s) =
    let rest = find_end s in
    if starts_with (c ∷ s) blank_line
    then some 0
    else elim rest [ none ↦ none | some n ↦ some (suc n) ]

unfoldable pub read_body : RequestParser → Status × RequestParser
unfolding take drop
read_body p = if ltb (length p.buffer - p.body_start) p.body_expected then (need_more, p) else (
  complete,
  record p {
    request = record p.request { body = take p.body_expected (drop p.body_start p.buffer) };
    consumed = p.body_start + p.body_expected;
  },
)

unfoldable pub after_head : Parsed (HttpRequest × ℕ) → RequestParser → Status × RequestParser
unfolding read_body
after_head (bad status message) p = fail status message p
after_head (good (req, n)) p =
    read_body (record p { request = req; body_expected = n; headers_done = true })

unfoldable pub read_head : Option ℕ → RequestParser → Status × RequestParser
unfolding after_head parse_head take num
read_head none p =
    if ltb max_header_bytes (length p.buffer)
    then fail 431 (text "request headers exceed " ++ num (pos max_header_bytes) ++ text " bytes") p
    else (need_more, p)
read_head (some end) p =
    if ltb max_header_bytes end
    then fail 431 (text "request headers too large") p
    else after_head (parse_head (take end p.buffer) p.body_expected p.request)
        (record p { body_start = end + 4 })

unfoldable pub feed : Text → RequestParser → Status × RequestParser
unfolding read_body read_head find_end
feed bytes p =
    let p1 = record p { buffer = p.buffer ++ bytes } in
    if p1.headers_done then read_body p1 else read_head (find_end p1.buffer) p1

abbrev pub wants_more : Status → Bool
wants_more need_more = true
wants_more complete = false
wants_more error = false

-- The loop that reads one request of a connection. It feeds the pieces that `recv` gives until the
-- parser has a request or an error, and leaves the others.
unfoldable pub read_chunks : RequestParser → List Text → (Status × RequestParser) × List Text
unfolding feed
read_chunks p [] = ((need_more, p), [])
read_chunks p (c ∷ cs) =
    let r = feed c p in let later = read_chunks r.1 cs in if wants_more r.0 then later else (r, cs)

-- The bytes behind the request.
abbrev pub leftover : RequestParser → Text
leftover p = if ltb p.consumed (length p.buffer) then drop p.consumed p.buffer else []

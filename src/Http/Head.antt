-- ===== src/Http/Head.antt =====
-- `parse_headers` of src/http/http_server.cpp. What an error leaves in the request is left out: the
-- server does not read it.
use distributed_job_engine.Prelude.{
  ℕ, Bool, true, false, not, ◌||◌, Option, none, some, List, [], ◌∷◌, ◌++◌, ltb, ◌==◌,
  if◌then◌else◌, length, is_nil, Text, text, text_eq, pos, negsuc, ℤ,
}
use distributed_job_engine.Util.{num, trim, split, to_lower, starts_with, parse_int}
use distributed_job_engine.Http.{HttpRequest, Pairs, max_body_bytes, header, set_target, cut}

-- What a part of the parser answers: an error with its status and message, or a value.
pub data Parsed (A : Type 0) : Type 0 where
  bad : ℕ → Text → Parsed A
  good : A → Parsed A

module _ {A B : Type 0} where
  infixl 1 ◌>>=◌
  abbrev pub ◌>>=◌ : Parsed A → (A → Parsed B) → Parsed B
  bad status message >>= f = bad status message
  good x >>= f = f x

abbrev pub is_absolute : Text → Bool
is_absolute [] = false
is_absolute (c ∷ path) = c == b'/'

abbrev pub malformed_line : Parsed HttpRequest
malformed_line = bad 400 (text "malformed request line")

-- The request line in its three parts.
unfoldable pub accept_line : Text → Text → Text → HttpRequest → Parsed HttpRequest
unfolding set_target starts_with
accept_line method target version req =
    let req' = set_target target (record req { method = method; version = version }) in
    if is_nil method || is_nil target
    then malformed_line
    else if ltb 4096 (length target)
    then bad 414 (text "request target too long")
    else if not (starts_with version (text "HTTP/1."))
    then bad 505 (text "unsupported HTTP version")
    else if is_absolute req'.path
    then good req'
    else bad 400 (text "request path must be absolute")

unfoldable pub parse_line : Text → HttpRequest → Parsed HttpRequest
unfolding cut accept_line
parse_line line req = elim (cut 32 line) [
  | none ↦ malformed_line
  | some (method, rest) ↦ elim (cut 32 rest) [
    | none ↦ malformed_line
    | some (target, version) ↦ accept_line method target version req
  ]
]

-- One header line, without the spaces around it.
unfoldable pub add_header : Text → Pairs → Parsed Pairs
unfolding cut trim
add_header [] headers = good headers
add_header (c ∷ s) headers = elim (cut b':' (c ∷ s)) [
  | none ↦ bad 400 (text "malformed header line")
  | some (name, value) ↦
      if is_nil (trim name)
      then bad 400 (text "empty header name")
      else good (headers ++ (trim name, trim value) ∷ [])
]

unfoldable pub add_headers : List Text → Pairs → Parsed Pairs
unfolding add_header trim
add_headers [] headers = good headers
add_headers (line ∷ lines) headers =
    add_header (trim line) headers >>= λ headers'. add_headers lines headers'

abbrev pub keeps_alive : HttpRequest → Bool
keeps_alive req =
    let conn = to_lower (header (text "Connection") req.headers) in
    if text_eq conn (text "close")
    then false
    else if text_eq conn (text "keep-alive")
    then true
    else text_eq req.version (text "HTTP/1.1")

abbrev pub check_length : Option ℤ → Parsed ℕ
check_length none = bad 400 (text "invalid Content-Length")
check_length (some (negsuc n)) = bad 400 (text "invalid Content-Length")
check_length (some (pos n)) =
    if ltb max_body_bytes n
    then bad 413 (text "body exceeds " ++ num (pos max_body_bytes) ++ text " bytes")
    else good n

-- The length of the body; `expected` is the length before.
unfoldable pub body_length : ℕ → Pairs → Parsed ℕ
unfolding header parse_int num to_lower
body_length expected headers =
    let cl = header (text "Content-Length") headers in
    if not (is_nil (to_lower (header (text "Transfer-Encoding") headers)))
    then bad 411 (text "chunked transfer encoding is not supported; send Content-Length")
    else if is_nil cl
    then good expected
    else check_length (parse_int cl)

-- The lines of the headers, the request line first.
unfoldable pub parse_lines : List Text → ℕ → HttpRequest → Parsed (HttpRequest × ℕ)
unfolding parse_line add_headers body_length trim header to_lower text_eq
parse_lines [] expected req = bad 400 (text "empty request")
parse_lines (line ∷ lines) expected req = parse_line (trim line) req >>= λ req1.
    (add_headers lines req1.headers >>= λ headers.
    (let req2 = record req1 { headers = headers } in
      body_length expected headers >>= λ n.
      good (record req2 { keep_alive = keeps_alive req2 }, n)))

-- `parse_headers`, on the bytes before the empty line.
unfoldable pub parse_head : Text → ℕ → HttpRequest → Parsed (HttpRequest × ℕ)
unfolding parse_lines split
parse_head head expected req = parse_lines (split 10 head) expected req

-- ===== src/Http/Errors.antt =====
-- The statuses with which the request parser fails.
use distributed_job_engine.Prelude.{
  ℕ, ◌-◌, ◌++◌, ◌≡◌, refl, subst, Bool, true, false, not, ◌||◌, Option, none, some, List, [], ◌∷◌,
  contains, ltb, if◌then◌else◌, length, is_nil, Text, text, ℤ, pos, negsuc, take,
}
use distributed_job_engine.Util.{trim, to_lower, parse_int, split, starts_with}
use distributed_job_engine.Http.{
  HttpRequest, Pairs, header, set_target, cut, max_header_bytes, max_body_bytes,
}
use distributed_job_engine.Http.Head.{
  Parsed, bad, good, ◌>>=◌, is_absolute, malformed_line, accept_line, parse_line, add_header,
  add_headers, check_length, body_length, parse_lines, parse_head,
}
use distributed_job_engine.Http.Feed.{
  Status, need_more, complete, error, RequestParser, find_end, read_body, after_head, read_head,
  feed,
}

-- Bad request, length required, payload and target too large, headers too large, and the version.
abbrev pub parser_statuses : List ℕ
parser_statuses = 400 ∷ 411 ∷ 413 ∷ 414 ∷ 431 ∷ 505 ∷ []

abbrev Known : ℕ → Type 0
Known status = contains status parser_statuses ≡ true

module _ {A : Type 0} where
  -- An error has one of the statuses.
  abbrev FailsKnown : Parsed A → Type 0
  FailsKnown (bad status message) = Known status
  FailsKnown (good x) = Unit

  if-FailsKnown :
      (c : Bool) (x y : Parsed A) → FailsKnown x → FailsKnown y → FailsKnown (if c then x else y)
  if-FailsKnown true x y h k = h
  if-FailsKnown false x y h k = k

module _ {A B : Type 0} where
  bind-FailsKnown :
      (r : Parsed A) (f : A → Parsed B)
      → FailsKnown r
      → ((x : A) → FailsKnown (f x))
      → FailsKnown (r >>= f)
  bind-FailsKnown (bad status message) f h k = h
  bind-FailsKnown (good x) f h k = k x

accept_line-FailsKnown :
    (method target version : Text) (req : HttpRequest)
    → FailsKnown (accept_line method target version req)
unfolding accept_line
accept_line-FailsKnown method target version req =
    let req' = set_target target (record req { method = method; version = version }) in
    if-FailsKnown (is_nil method || is_nil target) _ _ refl (
      if-FailsKnown (ltb 4096 (length target)) _ _ refl (
        if-FailsKnown (not (starts_with version (text "HTTP/1."))) _ _ refl
          (if-FailsKnown (is_absolute req'.path) (good req') _ tt refl)))

parts-FailsKnown :
    (o : Option (Text × Text)) (k : Text × Text → Parsed HttpRequest)
    → ((x : Text × Text) → FailsKnown (k x))
    → FailsKnown (elim o as (λ x. Parsed HttpRequest) [ none ↦ malformed_line | some x ↦ k x ])
parts-FailsKnown none k h = refl
parts-FailsKnown (some x) k h = h x

parse_line-FailsKnown : (line : Text) (req : HttpRequest) → FailsKnown (parse_line line req)
unfolding parse_line
parse_line-FailsKnown line req =
    parts-FailsKnown (cut 32 line) _
      (λ x. parts-FailsKnown (cut 32 x.1) _ (λ y. accept_line-FailsKnown x.0 y.0 y.1 req))

named-FailsKnown :
    (o : Option (Text × Text)) (headers : Pairs)
    → FailsKnown (elim o as (λ x. Parsed Pairs) [
      | none ↦ bad 400 (text "malformed header line")
      | some (name, value) ↦
          if is_nil (trim name)
          then bad 400 (text "empty header name")
          else good (headers ++ (trim name, trim value) ∷ [])
    ])
named-FailsKnown none headers = refl
named-FailsKnown (some (name, value)) headers = if-FailsKnown (is_nil (trim name)) _ _ refl tt

add_header-FailsKnown : (line : Text) (headers : Pairs) → FailsKnown (add_header line headers)
unfolding add_header
add_header-FailsKnown [] headers = tt
add_header-FailsKnown (c ∷ s) headers = named-FailsKnown (cut b':' (c ∷ s)) headers

add_headers-FailsKnown :
    (lines : List Text) (headers : Pairs) → FailsKnown (add_headers lines headers)
unfolding add_headers
add_headers-FailsKnown [] headers = tt
add_headers-FailsKnown (line ∷ lines) headers =
    bind-FailsKnown (add_header (trim line) headers) _ (add_header-FailsKnown (trim line) headers)
      (λ hs. add_headers-FailsKnown lines hs)

check_length-FailsKnown : (v : Option ℤ) → FailsKnown (check_length v)
check_length-FailsKnown none = refl
check_length-FailsKnown (some (negsuc n)) = refl
check_length-FailsKnown (some (pos n)) = if-FailsKnown (ltb max_body_bytes n) _ _ refl tt

body_length-FailsKnown :
    (expected : ℕ) (headers : Pairs) → FailsKnown (body_length expected headers)
unfolding body_length
body_length-FailsKnown expected headers =
    let cl = header (text "Content-Length") headers in
    if-FailsKnown (not (is_nil (to_lower (header (text "Transfer-Encoding") headers)))) _ _ refl
      (if-FailsKnown (is_nil cl) (good expected) _ tt (check_length-FailsKnown (parse_int cl)))

parse_lines-FailsKnown :
    (lines : List Text) (expected : ℕ) (req : HttpRequest)
    → FailsKnown (parse_lines lines expected req)
unfolding parse_lines
parse_lines-FailsKnown [] expected req = refl
parse_lines-FailsKnown (line ∷ lines) expected req =
    bind-FailsKnown (parse_line (trim line) req) _ (parse_line-FailsKnown (trim line) req) (λ req1.
      bind-FailsKnown (add_headers lines req1.headers) _ (add_headers-FailsKnown lines req1.headers)
        (λ headers.
          bind-FailsKnown (body_length expected headers) _ (body_length-FailsKnown expected headers)
            (λ n. tt)))

-- An answer that is an error has one of the statuses in its parser.
abbrev ErrorKnown : Status × RequestParser → Type 0
ErrorKnown (error, p) = Known p.error_status
ErrorKnown (need_more, p) = Unit
ErrorKnown (complete, p) = Unit

if-ErrorKnown :
    (c : Bool) (x y : Status × RequestParser)
    → ErrorKnown x
    → ErrorKnown y
    → ErrorKnown (if c then x else y)
if-ErrorKnown true x y h k = h
if-ErrorKnown false x y h k = k

read_body-ErrorKnown : (p : RequestParser) → ErrorKnown (read_body p)
unfolding read_body
read_body-ErrorKnown p =
    if-ErrorKnown (ltb (length p.buffer - p.body_start) p.body_expected) _ _ tt tt

after_head-ErrorKnown :
    (r : Parsed (HttpRequest × ℕ)) (p : RequestParser) → FailsKnown r → ErrorKnown (after_head r p)
unfolding after_head
after_head-ErrorKnown (bad status message) p h = h
after_head-ErrorKnown (good x) p h = read_body-ErrorKnown _

read_head-ErrorKnown : (o : Option ℕ) (p : RequestParser) → ErrorKnown (read_head o p)
unfolding read_head parse_head
read_head-ErrorKnown none p = if-ErrorKnown (ltb max_header_bytes (length p.buffer)) _ _ refl tt
read_head-ErrorKnown (some end) p = if-ErrorKnown (ltb max_header_bytes end) _ _ refl (
    after_head-ErrorKnown (parse_head (take end p.buffer) p.body_expected p.request) _
      (parse_lines-FailsKnown (split 10 (take end p.buffer)) p.body_expected p.request))

feed-ErrorKnown : (bytes : Text) (p : RequestParser) → ErrorKnown (feed bytes p)
unfolding feed
feed-ErrorKnown bytes p =
    let p1 = record p { buffer = p.buffer ++ bytes } in
    if-ErrorKnown p.headers_done _ _ (read_body-ErrorKnown p1)
      (read_head-ErrorKnown (find_end p1.buffer) p1)

-- Whatever bytes it is given, in whatever state, the parser fails with 400, 411, 413, 414, 431 or 505
-- only.
pub feed_error_status :
    (bytes : Text) (p p' : RequestParser)
    → feed bytes p ≡ (error, p')
    → contains p'.error_status parser_statuses ≡ true
feed_error_status bytes p p' h = subst ErrorKnown h (feed-ErrorKnown bytes p)

-- ===== src/Http/RequestLine.antt =====
-- The lines of a call of the client, and how its request line is read.
use distributed_job_engine.Prelude.{
  ℕ, ◌≤◌, ◌≡◌, refl, ap, Bool, true, false, not, ◌&&◌, none, some, List, [], ◌∷◌, ◌++◌, All, ltb,
  ◌==◌, if◌then◌else◌, length, is_nil, Text, text, arith, pos,
}
use distributed_job_engine.Util.{num, url_decode, starts_with}
use distributed_job_engine.Util.Texts.{IsDigit}
use distributed_job_engine.Http.{HttpRequest, cut, set_target, max_header_bytes, max_body_bytes}
use distributed_job_engine.Http.Head.{good, parse_line, accept_line, is_absolute}
use distributed_job_engine.Http.Feed.{fresh}
use distributed_job_engine.Http.Client.{ClientCall}
use distributed_job_engine.Http.Lines.{InLine, Visible, head_text, cut-Visible}

abbrev pub request_line : ClientCall → Text
request_line c = c.method ++ 32 ∷ (c.path ++ text " HTTP/1.1")

abbrev pub host_value : ClientCall → Text
host_value c = c.host ++ b':' ∷ num (pos c.port)

abbrev pub host_line : ClientCall → Text
host_line c = text "Host: " ++ host_value c

abbrev pub connection_line : Text
connection_line = text "Connection: keep-alive"

abbrev pub length_line : ClientCall → Text
length_line c = text "Content-Length: " ++ num (pos (length c.body))

abbrev pub type_lines : ClientCall → List Text
type_lines c =
    if is_nil c.body
    then length_line c ∷ []
    else (text "Content-Type: " ++ c.content_type) ∷ length_line c ∷ []

abbrev pub head_of : ClientCall → Text
head_of c = head_text (request_line c) (host_line c ∷ connection_line ∷ type_lines c)

-- A byte of a path that is sent as it is and read as it is.
abbrev pub PathByte : ℕ → Type 0
PathByte x = Visible x × ((x == b'%') ≡ false) × ((x == b'+') ≡ false) × ((x == b'?') ≡ false)

-- The same, as a test.
abbrev pub is_path : Text → Bool
is_path [] = true
is_path (x ∷ xs) = ltb 32 x && not (x == b'%') && not (x == b'+') && not (x == b'?') && is_path xs

pub is_path-All : (xs : Text) → is_path xs ≡ true → All PathByte xs
is_path-All [] h = tt
is_path-All (x ∷ xs) h = (
  (ground (arith, h), ground (arith, h), ground (arith, h), ground (arith, h)),
  is_path-All xs (ground (arith, h)),
)

-- The calls whose text is read back: a method, a path and a type without spaces, the path absolute
-- and without escapes and query, and all within the limits of the parser.
abbrev pub IsSendable : ClientCall → Type 0
IsSendable c =
    All Visible c.method
    × (is_nil c.method ≡ false)
    × All PathByte c.path
    × (starts_with c.path (b'/' ∷ []) ≡ true)
    × (length c.path ≤ 4096)
    × All Visible c.host
    × All Visible c.content_type
    × (is_nil c.content_type ≡ false)
    × (length c.body ≤ max_body_bytes)
    × (length (head_of c) ≤ max_header_bytes)

pub All-append : (P : ℕ → Type 0) (xs ys : Text) → All P xs → All P ys → All P (xs ++ ys)
All-append P [] ys h k = k
All-append P (x ∷ xs) ys h k = (h.0, All-append P xs ys h.1 k)

pub Visible-InLine : (xs : Text) → All Visible xs → All InLine xs
Visible-InLine [] h = tt
Visible-InLine (x ∷ xs) h = (omega (arith, h.0), Visible-InLine xs h.1)

pub PathByte-Visible : (xs : Text) → All PathByte xs → All Visible xs
PathByte-Visible [] h = tt
PathByte-Visible (x ∷ xs) h = (h.0.0, PathByte-Visible xs h.1)

pub digits-Visible : (xs : Text) → All IsDigit xs → All Visible xs
digits-Visible [] h = tt
digits-Visible (x ∷ xs) h = (omega (arith, h.0.0), digits-Visible xs h.1)

url_decode-PathByte : (xs : Text) → All PathByte xs → url_decode xs ≡ xs
unfolding url_decode
url_decode-PathByte [] h = refl
url_decode-PathByte (a ∷ []) h = rw (h.0.2) refl
url_decode-PathByte (a ∷ b ∷ []) h = rw (h.0.2) (rw (h.1.0.2) refl)
url_decode-PathByte (a ∷ b ∷ c ∷ s) h =
    let rest = url_decode-PathByte (b ∷ c ∷ s) h.1 in rw (h.0.1) (rw (h.0.2) (ap (λ w. a ∷ w) rest))

cut-PathByte : (xs : Text) → All PathByte xs → cut b'?' xs ≡ none
unfolding cut
cut-PathByte [] h = refl
cut-PathByte (a ∷ s) h = rw (h.0.3) (rw (cut-PathByte s h.1) refl)

-- The request line is read into the method and the path.
abbrev pub requested : ClientCall → HttpRequest
requested c = record fresh.request {
  method = c.method;
  target = c.path;
  path = c.path;
  version = text "HTTP/1.1";
}

set_target-PathByte :
    (path : Text) (req : HttpRequest)
    → All PathByte path
    → set_target path req ≡ record req { target = path; path = path }
unfolding set_target
set_target-PathByte path req h =
    rw (cut-PathByte path h, set_target) (rw (url_decode-PathByte path h) refl)

slash_first :
    (path : Text)
    → starts_with path (b'/' ∷ []) ≡ true
    → (is_nil path ≡ false) × (is_absolute path ≡ true)
unfolding starts_with
slash_first [] h = absurd (ground (arith, h))
slash_first (x ∷ path) h = (refl, ground (arith, h))

accept_line-requested :
    (c : ClientCall)
    → IsSendable c
    → accept_line c.method c.path (text "HTTP/1.1") fresh.request ≡ good (requested c)
unfolding accept_line set_target
accept_line-requested c h =
    let slash = slash_first c.path h.3 in
    let short : ltb 4096 (length c.path) ≡ false = ground (arith, h.4) in
    let read =
      set_target-PathByte c.path
        (record fresh.request { method = c.method; version = text "HTTP/1.1" }) h.2 in
    rw (h.1, accept_line)
      (rw (slash.0) (rw short (rw read (unfold text starts_with in (rw (slash.1) refl)))))

pub parse_line-requested :
    (c : ClientCall) → IsSendable c → parse_line (request_line c) fresh.request ≡ good (requested c)
unfolding parse_line
parse_line-requested c h =
    let first = cut-Visible c.method (c.path ++ text " HTTP/1.1") h.0 in
    let second : cut 32 (c.path ++ text " HTTP/1.1") ≡ some (c.path, text "HTTP/1.1") =
      unfold text in cut-Visible c.path (text "HTTP/1.1") (PathByte-Visible c.path h.2) in
    rw (first, parse_line) (rw second (accept_line-requested c h))

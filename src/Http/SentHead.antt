-- ===== src/Http/SentHead.antt =====
-- How the head of a call of the client is split and read.
use distributed_job_engine.Prelude.{
  ◌≡◌, refl, ◌∙◌, Bool, true, false, ◌&&◌, [], ◌∷◌, ◌++◌, All, ltb, length, is_nil, Text, text,
  arith, Bool-cases, inl, inr, pos,
}
use mathlib.Core.List.{append_assoc}
use distributed_job_engine.Util.{num, trim, trim_right, split}
use distributed_job_engine.Http.Head.{good, parse_head, parse_lines}
use distributed_job_engine.Http.Feed.{fresh, blank_line}
use distributed_job_engine.Http.Client.{ClientCall, request_text}
use distributed_job_engine.Http.Lines.{
  InLine, Visible, head_text, split_lines, IsLine, split-head_text, append_full, trim_right-append,
  trim_cr,
}
use distributed_job_engine.Http.RequestLine.{
  request_line, host_value, host_line, connection_line, length_line, type_lines, head_of,
  IsSendable, All-append, Visible-InLine, PathByte-Visible, parse_line-requested,
}
use distributed_job_engine.Http.Headers.{
  num-Visible, host_value-Visible, header_lines, header_lines-read, body_length-sent,
  keeps_alive-sent, received,
}

trim_request :
    (m rest : Text)
    → All Visible m
    → is_nil m ≡ false
    → trim_right rest ≡ rest
    → is_nil rest ≡ false
    → trim ((m ++ rest) ++ 13 ∷ []) ≡ m ++ rest
trim_request [] rest h named h' full = absurd (ground (arith, named))
trim_request (x ∷ m) rest h named h' full =
    trim_cr x (m ++ rest) h.0 (trim_right-append (x ∷ m) rest h' full)

request_line-trim :
    (c : ClientCall) → IsSendable c → trim (request_line c ++ 13 ∷ []) ≡ request_line c
request_line-trim c h =
    let version : trim_right (text " HTTP/1.1") ≡ text " HTTP/1.1" =
      unfold trim_right text in refl in
    let full : is_nil (text " HTTP/1.1") ≡ false = unfold text in refl in
    let end = trim_right-append (32 ∷ c.path) (text " HTTP/1.1") version full in
    trim_request c.method (32 ∷ (c.path ++ text " HTTP/1.1")) h.0 h.1 end refl

parse_lines-sent :
    (c : ClientCall)
    → IsSendable c
    → parse_lines ((request_line c ++ 13 ∷ []) ∷ header_lines c) 0 fresh.request
      ≡ good (received c, length c.body)
unfolding parse_lines
parse_lines-sent c h =
    let none_before : fresh.request.headers ≡ [] = unfold fresh in refl in
    rw (request_line-trim c h, parse_lines)
      (rw (parse_line-requested c h) (
        rw none_before
          (rw (header_lines-read c h) (rw (body_length-sent c h) (rw (keeps_alive-sent c) refl)))))

-- The lines of a call are lines.
abbrev in_line : Text → Bool
in_line [] = true
in_line (x ∷ xs) = ltb 31 x && in_line xs

in_line-All : (xs : Text) → in_line xs ≡ true → All InLine xs
in_line-All [] h = tt
in_line-All (x ∷ xs) h = (ground (arith, h), in_line-All xs (ground (arith, h)))

pub request_line-IsLine : (c : ClientCall) → IsSendable c → IsLine (request_line c)
request_line-IsLine c h =
    let version : All InLine (text " HTTP/1.1") =
      unfold text in in_line-All (text " HTTP/1.1") refl in
    let rest =
      All-append InLine c.path _ (Visible-InLine c.path (PathByte-Visible c.path h.2)) version in
    (
      All-append InLine c.method (32 ∷ (c.path ++ text " HTTP/1.1")) (Visible-InLine c.method h.0)
          (omega arith, rest),
      append_full c.method (32 ∷ (c.path ++ text " HTTP/1.1")) refl,
    )

value-IsLine :
    (name value : Text)
    → All InLine name
    → is_nil name ≡ false
    → All Visible value
    → IsLine (name ++ value)
value-IsLine [] value h named v = absurd (ground (arith, named))
value-IsLine (x ∷ name) value h named v =
    (All-append InLine (x ∷ name) value h (Visible-InLine value v), refl)

type_lines-IsLine : (c : ClientCall) → IsSendable c → All IsLine (type_lines c)
type_lines-IsLine c h =
    let last : IsLine (length_line c) =
      unfold text in
      value-IsLine (text "Content-Length: ") (num (pos (length c.body)))
        (in_line-All (text "Content-Length: ") refl) refl (num-Visible (length c.body)).0 in
    let type : IsLine (text "Content-Type: " ++ c.content_type) =
      unfold text in
      value-IsLine (text "Content-Type: ") c.content_type (in_line-All (text "Content-Type: ") refl)
        refl h.6 in
    elim (Bool-cases (is_nil c.body)) [
      | inl empty ↦ rw empty (last, tt)
      | inr full ↦ rw full (type, (last, tt))
    ]

pub other_lines-IsLine :
    (c : ClientCall) → IsSendable c → All IsLine (host_line c ∷ connection_line ∷ type_lines c)
other_lines-IsLine c h =
    let host : IsLine (host_line c) =
      unfold text in
      value-IsLine (text "Host: ") (host_value c) (in_line-All (text "Host: ") refl) refl
        (host_value-Visible c h) in
    let alive : IsLine connection_line =
      unfold text in (in_line-All (text "Connection: keep-alive") refl, refl) in
    (host, (alive, type_lines-IsLine c h))

head_of-split :
    (c : ClientCall)
    → IsSendable c
    → split 10 (head_of c) ≡ (request_line c ++ 13 ∷ []) ∷ header_lines c
unfolding split_lines
head_of-split c h =
    split-head_text (request_line c) _ (request_line-IsLine c h) (other_lines-IsLine c h)
    ∙ (elim (Bool-cases (is_nil c.body)) [ inl empty ↦ rw empty refl | inr full ↦ rw full refl ])

pub parse_head-sent :
    (c : ClientCall)
    → IsSendable c
    → parse_head (head_of c) 0 fresh.request ≡ good (received c, length c.body)
unfolding parse_head
parse_head-sent c h = rw (head_of-split c h, parse_head) (parse_lines-sent c h)

pub request_text-head : (c : ClientCall) → request_text c ≡ head_of c ++ (blank_line ++ c.body)
unfolding request_text head_text text
request_text-head c = elim (Bool-cases (is_nil c.body)) [
  | inl empty ↦ rw empty (simp append_assoc refl)
  | inr full ↦ rw full (simp append_assoc refl)
]

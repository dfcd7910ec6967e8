-- ===== src/Http/Headers.antt =====
-- How the header lines of a call of the client are read.
use distributed_job_engine.Prelude.{
  ℕ, suc, ◌≡◌, refl, ◌∙◌, true, false, List, [], ◌∷◌, ◌++◌, All, ltb, if◌then◌else◌, length, is_nil,
  Text, text, text_eq, arith, Bool-cases, inl, inr, pos,
}
use distributed_job_engine.Util.{num, digits, trim, to_lower}
use distributed_job_engine.Util.Texts.{parse_int-num, digits-All, digits_not_nil}
use distributed_job_engine.Http.{HttpRequest, Pairs, header, iequals, max_body_bytes}
use distributed_job_engine.Http.Head.{good, add_header, add_headers, body_length, keeps_alive}
use distributed_job_engine.Http.Client.{ClientCall}
use distributed_job_engine.Http.Names.{is_name-All, IsName-Visible, add_header-cr, add_header-last}
use distributed_job_engine.Http.Lines.{Visible, append_full}
use distributed_job_engine.Http.RequestLine.{
  host_value, host_line, connection_line, length_line, IsSendable, All-append, digits-Visible,
  requested,
}

add_headers-step :
    (l : Text) (ls : List Text) (hs hs' : Pairs)
    → add_header (trim l) hs ≡ good hs'
    → add_headers (l ∷ ls) hs ≡ add_headers ls hs'
unfolding add_headers
add_headers-step l ls hs hs' h = rw (h, add_headers) refl

pub num-Visible : (n : ℕ) → All Visible (num (pos n)) × (is_nil (num (pos n)) ≡ false)
unfolding num
num-Visible n = (digits-Visible (digits (suc n) n) (digits-All (suc n) n), digits_not_nil n n)

pub host_value-Visible : (c : ClientCall) → IsSendable c → All Visible (host_value c)
host_value-Visible c h =
    All-append Visible c.host (b':' ∷ num (pos c.port)) h.5 (omega arith, (num-Visible c.port).0)

host_full : (c : ClientCall) → is_nil (host_value c) ≡ false
host_full c = append_full c.host (b':' ∷ num (pos c.port)) refl

-- The headers of a call.
abbrev sent_headers : ClientCall → Pairs
sent_headers c =
    (text "Host", host_value c)
    ∷ (text "Connection", text "keep-alive")
    ∷ (if is_nil c.body
        then (text "Content-Length", num (pos (length c.body))) ∷ []
        else (text "Content-Type", c.content_type)
          ∷ (text "Content-Length", num (pos (length c.body)))
          ∷ [])

add_headers-sent :
    (c : ClientCall) (ls : List Text)
    → IsSendable c
    → add_headers ((host_line c ++ 13 ∷ []) ∷ (connection_line ++ 13 ∷ []) ∷ ls) []
      ≡ add_headers ls ((text "Host", host_value c) ∷ (text "Connection", text "keep-alive") ∷ [])
add_headers-sent c ls h =
    let host' : Pairs = (text "Host", host_value c) ∷ [] in
    let first : add_header (trim (host_line c ++ 13 ∷ [])) [] ≡ good host' =
      unfold text in
      add_header-cr (text "Host") (host_value c) [] (is_name-All (text "Host") refl) refl
        (host_value-Visible c h) (host_full c) in
    let second : add_header (trim (connection_line ++ 13 ∷ [])) host'
        ≡ good (host' ++ (text "Connection", text "keep-alive") ∷ []) =
      unfold text in
      add_header-cr (text "Connection") (text "keep-alive") host'
        (is_name-All (text "Connection") refl) refl
        (IsName-Visible (text "keep-alive") (is_name-All (text "keep-alive") refl)) refl in
    add_headers-step _ _ [] host' first ∙ add_headers-step _ ls host' _ second

length_added :
    (c : ClientCall) (hs : Pairs)
    → add_headers (length_line c ∷ []) hs
      ≡ good (hs ++ (text "Content-Length", num (pos (length c.body))) ∷ [])
length_added c hs =
    let last : add_header (trim (length_line c)) hs
        ≡ good (hs ++ (text "Content-Length", num (pos (length c.body))) ∷ []) =
      unfold text in
      add_header-last (text "Content-Length") (num (pos (length c.body))) hs
        (is_name-All (text "Content-Length") refl) refl (num-Visible (length c.body)).0
        (num-Visible (length c.body)).1 in
    add_headers-step _ [] hs _ last ∙ (unfold add_headers in refl)

type_added :
    (c : ClientCall) (ls : List Text) (hs : Pairs)
    → IsSendable c
    → add_headers (((text "Content-Type: " ++ c.content_type) ++ 13 ∷ []) ∷ ls) hs
      ≡ add_headers ls (hs ++ (text "Content-Type", c.content_type) ∷ [])
type_added c ls hs h =
    let line : add_header (trim ((text "Content-Type: " ++ c.content_type) ++ 13 ∷ [])) hs
        ≡ good (hs ++ (text "Content-Type", c.content_type) ∷ []) =
      unfold text in
      add_header-cr (text "Content-Type") c.content_type hs (is_name-All (text "Content-Type") refl)
        refl h.6 h.7 in
    add_headers-step _ ls hs _ line

-- The header lines, as `split` gives them.
abbrev pub header_lines : ClientCall → List Text
header_lines c =
    (host_line c ++ 13 ∷ [])
    ∷ (connection_line ++ 13 ∷ [])
    ∷ (if is_nil c.body
        then length_line c ∷ []
        else ((text "Content-Type: " ++ c.content_type) ++ 13 ∷ []) ∷ length_line c ∷ [])

pub header_lines-read :
    (c : ClientCall) → IsSendable c → add_headers (header_lines c) [] ≡ good (sent_headers c)
header_lines-read c h = elim (Bool-cases (is_nil c.body)) [
  | inl empty ↦ rw empty (add_headers-sent c _ h ∙ length_added c _)
  | inr full ↦ rw full (add_headers-sent c _ h ∙ type_added c _ _ h ∙ length_added c _)
]

length_found :
    (c : ClientCall) → header (text "Content-Length") (sent_headers c) ≡ num (pos (length c.body))
unfolding header iequals text
length_found c = elim (Bool-cases (is_nil c.body)) [
  | inl empty ↦ rw empty refl
  | inr full ↦ rw full refl
]

encoding_missing : (c : ClientCall) → header (text "Transfer-Encoding") (sent_headers c) ≡ []
unfolding header iequals text
encoding_missing c = elim (Bool-cases (is_nil c.body)) [
  | inl empty ↦ rw empty refl
  | inr full ↦ rw full refl
]

connection_found :
    (c : ClientCall) → header (text "Connection") (sent_headers c) ≡ text "keep-alive"
unfolding header iequals text
connection_found c = refl

-- What the headers say of the body and of the connection.
pub body_length-sent :
    (c : ClientCall) → IsSendable c → body_length 0 (sent_headers c) ≡ good (length c.body)
unfolding body_length
body_length-sent c h =
    let number = parse_int-num (pos (length c.body)) (omega (arith, h.8)) in
    let fits : ltb max_body_bytes (length c.body) ≡ false = ground (arith, h.8) in
    let bare : to_lower [] ≡ [] = unfold to_lower in refl in
    rw (encoding_missing c, body_length)
      (rw bare
        (rw (length_found c) (rw ((num-Visible (length c.body)).1) (rw number (rw fits refl)))))

pub keeps_alive-sent :
    (c : ClientCall) → keeps_alive (record (requested c) { headers = sent_headers c }) ≡ true
keeps_alive-sent c = rw (connection_found c) (unfold to_lower text text_eq in refl)

-- The request that the server has then.
abbrev pub received : ClientCall → HttpRequest
received c = record (requested c) { headers = sent_headers c; keep_alive = true }

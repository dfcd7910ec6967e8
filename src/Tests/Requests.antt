-- ===== src/Tests/Requests.antt =====
-- Requests in pieces.
use distributed_job_engine.Prelude.{
  true, arith, ◌≡◌, ◌+◌, ◌≤◌, refl, [], ◌∷◌, ◌++◌, Text, text, length, take, drop,
}
use distributed_job_engine.Util.{
  num, digits, trim, trim_left, trim_right, split, starts_with, url_decode, parse_int, parse_digits,
  to_lower,
}
use distributed_job_engine.Http.{
  max_header_bytes, max_body_bytes, header, iequals, cut, set_target, set_query, add_pair,
  add_pairs,
}
use distributed_job_engine.Http.Head.{
  parse_head, parse_lines, parse_line, accept_line, add_header, add_headers, body_length,
}
use distributed_job_engine.Http.Feed.{
  complete, RequestParser, fresh, feed, read_head, read_body, after_head, find_end, read_chunks,
  leftover,
}
use distributed_job_engine.Http.Chunks.{ReadsAs, read_chunks_lem}
use distributed_job_engine.Http.Framing.{complete-append}
use distributed_job_engine.Http.Limits.{complete_bounds}
use distributed_job_engine.Http.Client.{ClientCall, request_text}
use distributed_job_engine.Http.RequestLine.{IsSendable, is_path-All}
use distributed_job_engine.Http.Lines.{head_text}
use distributed_job_engine.Http.Names.{is_name-All, IsName-Visible}
use distributed_job_engine.Http.Sent.{feed-request_text}

-- A request with a body of two bytes.
abbrev post : Text
post = text "POST /jobs?a=1 HTTP/1.1\r\nContent-Length: 2\r\n\r\nhi"

abbrev posted : RequestParser
posted = (feed post fresh).1

posted_completes : feed post fresh ≡ (complete, posted)
unfolding feed read_head read_body after_head find_end fresh parse_head parse_lines parse_line
    accept_line add_header add_headers body_length header iequals cut set_target set_query add_pair
    add_pairs num digits trim trim_left trim_right split starts_with url_decode parse_int
    parse_digits to_lower text take drop
posted_completes = refl

read_chunks_lem_example :
    ReadsAs
      (read_chunks fresh (take 9 post ∷ drop 9 post ∷ post ∷ []))
      []
      (take 9 post ∷ drop 9 post ∷ post ∷ [])
read_chunks_lem_example = read_chunks_lem (take 9 post ∷ drop 9 post ∷ post ∷ [])

complete-append_example :
    let p' = record posted { buffer = post ++ text "GET" } in
    (feed (post ++ text "GET") fresh ≡ (complete, p'))
    × (leftover p' ≡ leftover posted ++ text "GET")
complete-append_example = complete-append post (text "GET") posted posted_completes

complete_bounds_example :
    (posted.body_start ≤ max_header_bytes + 4)
    × (length posted.request.body ≡ posted.body_expected)
    × (posted.body_expected ≤ max_body_bytes)
    × (posted.consumed ≡ posted.body_start + posted.body_expected)
    × (posted.consumed ≤ length post)
complete_bounds_example = complete_bounds post posted posted_completes

-- A call with a body.
abbrev submission : ClientCall
submission = record {
  host = text "localhost";
  port = 8080;
  method = text "POST";
  path = text "/jobs";
  body = text "{}";
  content_type = text "application/json";
}

submission-IsSendable : IsSendable submission
unfolding text starts_with num digits head_text
submission-IsSendable = (
  IsName-Visible (text "POST") (is_name-All (text "POST") refl),
  refl,
  is_path-All (text "/jobs") refl,
  refl,
  omega arith,
  IsName-Visible (text "localhost") (is_name-All (text "localhost") refl),
  IsName-Visible (text "application/json") (is_name-All (text "application/json") refl),
  refl,
  omega arith,
  omega arith,
)

feed-request_text_example :
    let r = feed (request_text submission) fresh in
    (r.0 ≡ complete)
    × (r.1.request.method ≡ submission.method)
    × (r.1.request.path ≡ submission.path)
    × (r.1.request.body ≡ submission.body)
    × (r.1.request.keep_alive ≡ true)
    × (leftover r.1 ≡ [])
feed-request_text_example = feed-request_text submission submission-IsSendable

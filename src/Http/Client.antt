-- ===== src/Http/Client.antt =====
-- The text of a request, in `HttpClient::request` of src/http/http_client.cpp.
use distributed_job_engine.Prelude.{◌++◌, [], ℕ, Text, text, if◌then◌else◌, is_nil, pos, length}
use distributed_job_engine.Util.{num}

pub record ClientCall : Type 0 where
  pub host : Text
  pub port : ℕ
  pub method : Text
  pub path : Text
  pub body : Text
  pub content_type : Text

-- The header of the type, where there is a body.
abbrev pub type_line : ClientCall → Text
type_line c = if is_nil c.body then [] else text "Content-Type: " ++ c.content_type ++ text "\r\n"

unfoldable pub request_text : ClientCall → Text
unfolding text num
request_text c =
    c.method
    ++ text " "
    ++ c.path
    ++ text " HTTP/1.1\r\nHost: "
    ++ c.host
    ++ text ":"
    ++ num (pos c.port)
    ++ text "\r\nConnection: keep-alive\r\n"
    ++ type_line c
    ++ text "Content-Length: "
    ++ num (pos (length c.body))
    ++ text "\r\n\r\n"
    ++ c.body

-- ===== src/Api.antt =====
-- `HttpResponse` of include/jobengine/http.hpp, and what the handlers of src/api/api.cpp share: the
-- answers with a JSON body and the reading of a request body.
pub mod Routes
pub mod Dispatch
pub mod Submission
pub mod Accepted
pub mod Jobs
pub mod Graphs
pub mod Workflows
pub mod Workers
pub mod Tokens
pub mod Health
pub mod Handle
pub mod Answers
use distributed_job_engine.Prelude.{
  ℕ, suc, ◌+◌, Bool, true, false, Option, none, some, List, [], ◌∷◌, ◌++◌, if◌then◌else◌, is_nil,
  Text, text, ℤ, text_eq,
}
use distributed_job_engine.Json.{Json, object, end, string, set}
use distributed_job_engine.Json.Result.{Result, ok, err, out_of_fuel, Error}
use distributed_job_engine.Json.Printer.{DoubleText, dump}
use distributed_job_engine.Json.Parser.{parse}
use distributed_job_engine.Http.{HttpRequest, Pairs}

pub record HttpResponse : Type 0 where
  pub status : ℕ
  pub content_type : Text
  pub headers : Pairs
  pub body : Text

-- What the handlers use of doubles, and how an identifier is written. An identifier is a text for a
-- client and a number for the engine, which only compares it; `id_of` and `id_text` go to and fro.
pub record Context : Type 0 where
  pub double_text : DoubleText
  -- `static_cast<int64_t>` of a finite double, `none` of another, and the other way.
  pub truncate : ℕ → Option ℤ
  pub of_int : ℤ → ℕ
  pub two : ℕ
  pub below_one : ℕ → Bool
  -- The microseconds of a count, in milliseconds.
  pub thousandth : ℕ → ℕ
  pub id_of : Text → ℕ
  pub id_text : ℕ → Text
  -- The sorted names of the registered handlers.
  pub types : List Text
  -- The message of the JSON parser with its offset.
  pub parse_message : Error → Text → Text
  -- The message of a write that SQLite refused.
  pub store_message : Text

-- `res.json`, on the response that the server hands to the handler.
abbrev pub json_response : ℕ → Text → HttpResponse
json_response status body = record {
  status = status;
  content_type = text "application/json";
  headers = [];
  body = body;
}

abbrev pub empty_object : Json
empty_object = object end

-- `res.json(status, j.dump())`
unfoldable pub answer : Context → ℕ → Json → HttpResponse
unfolding dump text
answer ctx status j = json_response status (dump ctx.double_text j)

unfoldable pub error_json : Context → ℕ → Text → HttpResponse
unfolding answer set text
error_json ctx status message = answer ctx status (set empty_object (text "error") (string message))

-- What a part of a handler gives: an answer to send at once, or a value.
pub data Step (A : Type 0) : Type 0 where
  replies : HttpResponse → Step A
  goes : A → Step A

module _ {A B : Type 0} where
  infixl 1 ◌>>=◌
  abbrev pub ◌>>=◌ : Step A → (A → Step B) → Step B
  replies res >>= f = replies res
  goes x >>= f = f x

abbrev pub is_object : Json → Bool
is_object (object fields) = true
is_object _ = false

-- The object that a text holds. The parser always comes to an end.
unfoldable pub object_of : Context → Text → Result Json → Step Json
unfolding error_json text
object_of ctx body (err e) =
    replies (error_json ctx 400 (text "invalid JSON: " ++ ctx.parse_message e body))
object_of ctx body out_of_fuel = replies (error_json ctx 400 (text "invalid JSON: "))
object_of ctx body (ok j) =
    if is_object j
    then goes j
    else replies (error_json ctx 400 (text "request body must be a JSON object"))

unfoldable pub parse_body : Context → HttpRequest → Step Json
unfolding object_of parse error_json text
parse_body ctx req =
    if is_nil req.body
    then replies (error_json ctx 400 (text "request body is required and must be a JSON object"))
    else object_of ctx req.body (parse ctx.double_text req.body)

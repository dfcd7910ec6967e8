-- ===== src/Api/Accepted.antt =====
-- What `post_jobs` of src/api/api.cpp accepts, and what its answer says of the engine.
use distributed_job_engine.Prelude.{
  suc, ◌%◌, ◌^◌, ◌≤◌, ◌≡◌, ◌⊎◌, inl, inr, refl, sym, ap, ◌∙◌, subst, Bool, true, false, ◌||◌,
  Option, none, some, [], if◌then◌else◌, is_nil, Text, text, ℤ, pos, negsuc, ltz, ◌≤ℤ◌, arith,
  Bool-cases,
}
use distributed_job_engine.Json.{Json, get_int, get_bool, get_string, find}
use distributed_job_engine.Json.Parser.{parse}
use distributed_job_engine.Json.Result.{Result, ok, err, out_of_fuel}
use distributed_job_engine.Job.{SubmitRequest}
use distributed_job_engine.Engine.State.{Env, Engine, get_job}
use distributed_job_engine.Engine.Submission.{new_job}
use distributed_job_engine.Http.{HttpRequest}
use distributed_job_engine.Api.{
  Context, HttpResponse, Step, replies, goes, empty_object, is_object, answer, error_json,
  parse_body, object_of,
}
use distributed_job_engine.Api.Submission.{
  to_int, get_double, Read, fails, reads, read_payload, request_of, check_request, check_payload,
  read_submit_request,
}

-- What an accepted request satisfies.
abbrev pub IsAccepted : Context → SubmitRequest → Type 0
IsAccepted ctx req =
    (is_nil req.type ≡ false)
    × (is_object req.payload ≡ true)
    × (pos 1 ≤ℤ req.retry.max_attempts)
    × (req.retry.max_attempts ≤ℤ pos 100)
    × (pos 0 ≤ℤ req.retry.backoff_base_ms)
    × (pos 0 ≤ℤ req.retry.backoff_max_ms)
    × (ctx.below_one req.retry.backoff_multiplier ≡ false)
    × (pos 0 ≤ℤ req.timeout_ms)
    × (pos 0 ≤ℤ req.delay_ms)

-- A small number is its own `int`.
to_int_small : (v : ℤ) → pos 1 ≤ℤ v → v ≤ℤ pos 100 → to_int v ≡ v
unfolding to_int
to_int_small (pos n) low high =
    let same : n % 2 ^ 32 ≡ n = omega (arith, high) in rw same (ground (arith, high))
to_int_small (negsuc n) low high = absurd (omega (arith, low))

not_ltz : (a b : ℤ) → ltz a b ≡ false → b ≤ℤ a
not_ltz a b h = ground (arith, h)

or_false : (a b : Bool) → a || b ≡ false → (a ≡ false) × (b ≡ false)
or_false false b h = (refl, h)
or_false true b h = absurd (ground (arith, h))

module _ {A : Type 0} where
  reads_inj : (x y : A) → reads x ≡ reads y → x ≡ y
  reads_inj x y h = ap (λ r. elim r as (λ r'. A) [ fails message ↦ x | reads z ↦ z ]) h

  else_reads :
      (c : Bool) (message : Text) (r : Read A) (x : A)
      → (if c then fails message else r) ≡ reads x
      → (c ≡ false) × (r ≡ reads x)
  else_reads true message r x h = absurd (ground (arith, h))
  else_reads false message r x h = (refl, h)

check_request-reads :
    (ctx : Context) (max : ℤ) (req sr : SubmitRequest)
    → check_request ctx max req ≡ reads sr
    → (req ≡ sr)
      × (pos 1 ≤ℤ max)
      × (max ≤ℤ pos 100)
      × (pos 0 ≤ℤ req.retry.backoff_base_ms)
      × (pos 0 ≤ℤ req.retry.backoff_max_ms)
      × (ctx.below_one req.retry.backoff_multiplier ≡ false)
      × (pos 0 ≤ℤ req.timeout_ms)
      × (pos 0 ≤ℤ req.delay_ms)
unfolding check_request
check_request-reads ctx max req sr h =
    let attempts = else_reads (ltz max (pos 1) || ltz (pos 100) max) _ _ sr h in
    let backoff =
      else_reads (ltz req.retry.backoff_base_ms (pos 0) || ltz req.retry.backoff_max_ms (pos 0)) _ _
        sr attempts.1 in
    let multiplier = else_reads (ctx.below_one req.retry.backoff_multiplier) _ _ sr backoff.1 in
    let timeout = else_reads (ltz req.timeout_ms (pos 0)) _ _ sr multiplier.1 in
    let delay = else_reads (ltz req.delay_ms (pos 0)) _ (reads req) sr timeout.1 in
    let small = or_false _ _ attempts.0 in
    let backs = or_false _ _ backoff.0 in
    (
      reads_inj req sr delay.1,
      not_ltz max (pos 1) small.0,
      not_ltz (pos 100) max small.1,
      not_ltz req.retry.backoff_base_ms (pos 0) backs.0,
      not_ltz req.retry.backoff_max_ms (pos 0) backs.1,
      multiplier.0,
      not_ltz req.timeout_ms (pos 0) timeout.0,
      not_ltz req.delay_ms (pos 0) delay.0,
    )

payload-reads :
    (ctx : Context) (body : Json) (r : Read Json) (sr : SubmitRequest)
    → check_payload ctx body r ≡ reads sr
    → (payload : Json) × (r ≡ reads payload)
      × (check_request ctx
            (get_int ctx.truncate body (text "max_attempts") (pos 1))
            (request_of ctx body payload)
          ≡ reads sr)
payload-reads ctx body (fails message) sr h = absurd (ground (arith, h))
payload-reads ctx body (reads payload) sr h = (payload, refl, h)

object_read :
    (o : Option Json) (payload : Json)
    → (elim o as (λ x. Read Json) [
      | none ↦ reads empty_object
      | some p ↦ if is_object p then reads p else fails (text "field 'payload' must be an object")
    ])
      ≡ reads payload
    → is_object payload ≡ true
object_read none payload h = subst (λ j. is_object j ≡ true) (reads_inj _ _ h) refl
object_read (some p) payload h = elim (Bool-cases (is_object p)) [
  | inl yes_object ↦
      let same : reads p ≡ reads payload = sym (rw yes_object refl) ∙ h in
      subst (λ j. is_object j ≡ true) (reads_inj _ _ same) yes_object
  | inr other ↦
      let wrong : fails (text "field 'payload' must be an object") ≡ reads payload =
        sym (rw other refl) ∙ h in
      absurd (ground (arith, wrong))
]

read_payload-object :
    (body payload : Json) → read_payload body ≡ reads payload → is_object payload ≡ true
unfolding read_payload
read_payload-object body payload h = object_read (find body (text "payload")) payload h

-- A request that is read has a type, an object as its payload, between 1 and 100 attempts, and no
-- negative time.
pub read_submit_request-IsAccepted :
    (ctx : Context) (body : Json) (sr : SubmitRequest)
    → read_submit_request ctx body ≡ reads sr
    → IsAccepted ctx sr
unfolding read_submit_request
read_submit_request-IsAccepted ctx body sr h =
    let typed = else_reads (is_nil (get_string body (text "type") [])) _ _ sr h in
    let (payload, object, checked) = payload-reads ctx body (read_payload body) sr typed.1 in
    let req = request_of ctx body payload in
    let facts = check_request-reads ctx _ req sr checked in
    let max = get_int ctx.truncate body (text "max_attempts") (pos 1) in
    let same = to_int_small max facts.1 facts.2 in
    subst (IsAccepted ctx) facts.0 (
      typed.0,
      read_payload-object body payload object,
      rw same facts.1,
      rw same facts.2,
      facts.3,
      facts.4,
      facts.5,
      facts.6,
      facts.7,
    )

-- The payload that a body names, or an empty object.
abbrev pub PayloadOf : Option Json → Json → Type 0
PayloadOf none payload = payload ≡ empty_object
PayloadOf (some p) payload = payload ≡ p

-- What the keys of a body say, each with its default.
abbrev pub Says : Context → Json → SubmitRequest → Type 0
Says ctx body sr =
    (sr.type ≡ get_string body (text "type") [])
    × PayloadOf (find body (text "payload")) sr.payload
    × (sr.priority ≡ to_int (get_int ctx.truncate body (text "priority") (pos 0)))
    × (sr.timeout_ms ≡ get_int ctx.truncate body (text "timeout_ms") (pos 0))
    × (sr.delay_ms ≡ get_int ctx.truncate body (text "delay_ms") (pos 0))
    × (sr.retry.max_attempts ≡ get_int ctx.truncate body (text "max_attempts") (pos 1))
    × (sr.retry.backoff_base_ms ≡ get_int ctx.truncate body (text "backoff_base_ms") (pos 100))
    × (sr.retry.backoff_max_ms ≡ get_int ctx.truncate body (text "backoff_max_ms") (pos 30000))
    × (sr.retry.backoff_multiplier ≡ get_double ctx body (text "backoff_multiplier") ctx.two)
    × (sr.retry.jitter ≡ get_bool body (text "backoff_jitter") false)
    × (sr.pending_deps ≡ 0)

-- `sr` is what the HTTP request asks for, and is accepted.
abbrev pub Asks : Context → HttpRequest → SubmitRequest → Type 0
Asks ctx req sr =
    (body : Json) × (parse_body ctx req ≡ goes body) × Says ctx body sr × IsAccepted ctx sr

-- The row of the new job is what the HTTP request asks for.
abbrev pub HasRow : Context → Env → HttpRequest → Engine → Engine → Type 0
HasRow ctx env req e e' =
    (sr : SubmitRequest) × Asks ctx req sr
    × (get_job (env.new_id 0) e' ≡ some (new_job env (env.new_id 0) sr e.seq_counter))

-- What an answer to `POST /jobs` says of the engine.
abbrev pub Posted : Context → Env → HttpRequest → Engine → HttpResponse × Engine → Type 0
Posted ctx env req e (res, e') =
    ((res.status ≡ 201)
      × HasRow ctx env req e e'
      × (e'.outstanding ≡ suc e.outstanding)
      × (e'.outstanding ≤ e.cfg.max_outstanding_jobs))
    ⊎ ((400 ≤ res.status)
        × ((e'.store ≡ e.store)
            ⊎ ((res.status ≡ 500) × (env.flush_error ≡ true) × HasRow ctx env req e e'))
        × (e'.queue ≡ e.queue)
        × (e'.outstanding ≡ e.outstanding))

-- An answer of `parse_body` is a bad request.
abbrev pub Refuses : Step Json → Type 0
Refuses (replies res) = res.status ≡ 400
Refuses (goes j) = Unit

if-Refuses : (c : Bool) (x y : Step Json) → Refuses x → Refuses y → Refuses (if c then x else y)
if-Refuses true x y h k = h
if-Refuses false x y h k = k

object_of-Refuses : (ctx : Context) (body : Text) (r : Result Json) → Refuses (object_of ctx body r)
unfolding object_of error_json answer
object_of-Refuses ctx body (err x) = refl
object_of-Refuses ctx body out_of_fuel = refl
object_of-Refuses ctx body (ok j) = if-Refuses (is_object j) (goes j) _ tt refl

pub parse_body-Refuses : (ctx : Context) (req : HttpRequest) → Refuses (parse_body ctx req)
unfolding parse_body error_json answer
parse_body-Refuses ctx req =
    if-Refuses (is_nil req.body) _ _ refl
      (object_of-Refuses ctx req.body (parse ctx.double_text req.body))

-- ===== src/Worker/Reports.antt =====
-- The way of a lease: from the answer to a claim (src/api/api.cpp) through the worker
-- (src/worker/remote_worker.cpp) and back to `complete` of src/engine/engine.cpp.
use distributed_job_engine.Prelude.{
  ℕ, ◌%◌, ◌^◌, ◌≤◌, ◌<◌, ◌≡◌, refl, ◌∙◌, true, [], Text, text, text_eq, pos, arith, ap, sym, ◌∷◌,
}
use distributed_job_engine.Json.{
  Json, find, find_field, set, set_field, get_string, get_int, as_int, Items, cons, nil, array, int,
  null,
}
use distributed_job_engine.Json.Plain.{Plain}
use distributed_job_engine.Json.Printer.{dump}
use distributed_job_engine.Json.Parser.{max_depth, parse_or_null}
use distributed_job_engine.Json.RoundTrip.{parse-dump}
use distributed_job_engine.Store.Columns.{dump_not_nil}
use distributed_job_engine.Http.{HttpRequest}
use distributed_job_engine.Job.{LeasedJob}
use distributed_job_engine.Engine.State.{Env, Engine}
use distributed_job_engine.Engine.Remote.{complete}
use distributed_job_engine.Api.{
  Context, goes, is_object, object_of, parse_body, empty_object, answer,
}
use distributed_job_engine.Api.Submission.{to_int}
use distributed_job_engine.Api.Jobs.{set_all}
use distributed_job_engine.Api.Workers.{
  leased_json, report, with_body, worker_complete, complete_reply, is_outcome, complete_int,
  string_to_u64, u64_to_string, u64_max, claim_reply, leased_items,
}
use distributed_job_engine.Worker.{HttpClientResponse, claimed_jobs}
use distributed_job_engine.Api.Tokens.{token_round_trip}
use distributed_job_engine.Worker.Attempts.{Lease, Report, read_lease, done_body}

to_int-pos : (n : ℕ) → n < 2 ^ 31 → to_int (pos n) ≡ pos n
unfolding to_int
to_int-pos n h = let same : n % 2 ^ 32 ≡ n = omega (arith, h) in rw same (ground (arith, h))

-- The lease that the worker reads is the one that was given.
read_lease-leased :
    (ctx : Context) (lj : LeasedJob)
    → read_lease ctx (leased_json ctx lj) ≡ record {
      job_id = ctx.id_text lj.job_id;
      type = lj.type;
      lease_token = u64_to_string lj.lease_token;
      attempt = to_int (pos lj.attempt);
      timeout_ms = lj.timeout_ms;
      payload = lj.payload;
    }
unfolding read_lease leased_json set_all set set_field find find_field get_string get_int as_int
    text text_eq
read_lease-leased ctx lj = refl

-- What the coordinator reads of a report.
report-done_body :
    (ctx : Context) (env : Env) (worker_id : Text) (lease : Lease) (r : Report) (e : Engine)
    → report ctx env (done_body worker_id lease r) e
      ≡ complete_int env
          (ctx.id_of worker_id)
          (ctx.id_of lease.job_id)
          (to_int lease.attempt)
          (string_to_u64 lease.lease_token)
          r.status
          r.result
          r.error
          e
unfolding report done_body set_all set set_field find find_field get_string get_int as_int text
    text_eq
report-done_body ctx env worker_id lease r e = refl

report_lease :
    (ctx : Context) (env : Env) (worker_id : Text) (lj : LeasedJob) (r : Report) (e : Engine)
    → lj.attempt < 2 ^ 31
    → lj.lease_token ≤ u64_max
    → ctx.id_of (ctx.id_text lj.job_id) ≡ lj.job_id
    → report ctx env (done_body worker_id (read_lease ctx (leased_json ctx lj)) r) e
      ≡ complete env
          (ctx.id_of worker_id)
          lj.job_id
          lj.attempt
          lj.lease_token
          r.status
          r.result
          r.error
          e
report_lease ctx env worker_id lj r e small token same =
    let fits = to_int-pos lj.attempt small in
    rw (read_lease-leased ctx lj) (
      report-done_body ctx env worker_id _ r e
      ∙ rw (fits, fits, same, token_round_trip lj.lease_token token) (unfold complete_int in refl))

complete_listed :
    (ctx : Context) (env : Env) (body : Json) (e : Engine)
    → is_outcome (get_string body (text "status") []) ≡ true
    → worker_complete ctx env body e ≡ (
      complete_reply ctx (get_string body (text "job_id") []) (report ctx env body e).1,
      (report ctx env body e).0,
    )
unfolding worker_complete report
complete_listed ctx env body e h = rw h refl

-- A body that is the text of a plain object is read as that object.
parse_body-dump :
    (ctx : Context) (req : HttpRequest) (j : Json)
    → req.body ≡ dump ctx.double_text j
    → Plain 0 j
    → is_object j ≡ true
    → parse_body ctx req ≡ goes j
unfolding parse_body object_of
parse_body-dump ctx req j text plain object = rw text (
    rw (dump_not_nil ctx.double_text j plain)
      (rw (parse-dump ctx.double_text 0 j plain).0 (rw object refl)))

module _ (ctx : Context) (env : Env) (worker_id : Text) (lj : LeasedJob) (r : Report)
    (small : lj.attempt < 2 ^ 31) where
  sent : Json
  sent = done_body worker_id (read_lease ctx (leased_json ctx lj)) r

  sent-Plain : Plain 1 r.result → Plain 0 sent
  unfolding sent done_body set_all set set_field find_field text text_eq
  sent-Plain plain =
      let d0 : 0 ≤ max_depth = omega arith in
      let d1 : 1 ≤ max_depth = omega arith in
      rw (read_lease-leased ctx lj) (
        rw (to_int-pos lj.attempt small) (
          d0,
          (
            refl,
            d1,
            (
              refl,
              d1,
              (
                refl,
                (d1, omega (arith, small)),
                (refl, d1, (refl, d1, (refl, plain, (refl, d1, tt)))),
              ),
            ),
          ),
        ))

  sent-object : is_object sent ≡ true
  unfolding sent done_body set_all set
  sent-object = refl

  sent-status : is_outcome (get_string sent (text "status") []) ≡ is_outcome r.status
  unfolding sent done_body set_all set set_field find find_field get_string text text_eq
  sent-status = refl

  sent-job_id : get_string sent (text "job_id") [] ≡ ctx.id_text lj.job_id
  unfolding sent done_body set_all set set_field find find_field get_string text text_eq
  sent-job_id = rw (read_lease-leased ctx lj) refl

  sent-report :
      (e : Engine)
      → lj.lease_token ≤ u64_max
      → ctx.id_of (ctx.id_text lj.job_id) ≡ lj.job_id
      → report ctx env sent e
        ≡ complete env
            (ctx.id_of worker_id)
            lj.job_id
            lj.attempt
            lj.lease_token
            r.status
            r.result
            r.error
            e
  unfolding sent
  sent-report e token same = report_lease ctx env worker_id lj r e small token same

  served :
      (req : HttpRequest) (e : Engine)
      → lj.lease_token ≤ u64_max
      → ctx.id_of (ctx.id_text lj.job_id) ≡ lj.job_id
      → is_outcome r.status ≡ true
      → Plain 1 r.result
      → req.body ≡ dump ctx.double_text sent
      → with_body ctx req (worker_complete ctx env) e ≡ (
          let c =
            complete env
              (ctx.id_of worker_id)
              lj.job_id
              lj.attempt
              lj.lease_token
              r.status
              r.result
              r.error
              e in
          (complete_reply ctx (ctx.id_text lj.job_id) c.1, c.0))
  served req e token same known plain body =
      let read = parse_body-dump ctx req sent body (sent-Plain plain) sent-object in
      let reached = sent-report e token same in
      let listed : is_outcome (get_string sent (text "status") []) ≡ true = sent-status ∙ known in
      rw (read, with_body)
        (complete_listed ctx env sent e listed ∙ rw sent-job_id (rw reached refl))

-- The answer to a claim, through its text.
pub leased-Plain :
    (ctx : Context) (lj : LeasedJob)
    → lj.attempt < 2 ^ 31
    → lj.lease_expires_ms < 2 ^ 63
    → Plain 3 (int lj.timeout_ms)
    → Plain 3 lj.payload
    → Plain 2 (leased_json ctx lj)
unfolding leased_json set_all set set_field find_field text text_eq
leased-Plain ctx lj small expires timeout payload =
    let d2 : 2 ≤ max_depth = omega arith in
    let d3 : 3 ≤ max_depth = omega arith in
    (
      d2,
      (
        refl,
        d3,
        (
          refl,
          d3,
          (
            refl,
            payload,
            (
              refl,
              (d3, omega (arith, small)),
              (refl, d3, (refl, timeout, (refl, (d3, omega (arith, expires)), tt))),
            ),
          ),
        ),
      ),
    )

claim_json : Context → LeasedJob → Json
claim_json ctx lj =
    set_all empty_object
      ((text "jobs", array (cons (leased_json ctx lj) nil)) ∷ (text "count", int (pos 1)) ∷ [])

claim_json-Plain :
    (ctx : Context) (lj : LeasedJob) → Plain 2 (leased_json ctx lj) → Plain 0 (claim_json ctx lj)
unfolding claim_json set_all set set_field find_field text text_eq
claim_json-Plain ctx lj plain =
    let d0 : 0 ≤ max_depth = omega arith in
    let d1 : 1 ≤ max_depth = omega arith in
    (d0, (refl, (d1, (plain, tt)), (refl, (d1, omega arith), tt)))

claim_reply-text :
    (ctx : Context) (lj : LeasedJob)
    → (claim_reply ctx (lj ∷ [])).body ≡ dump ctx.double_text (claim_json ctx lj)
unfolding claim_reply leased_items answer claim_json
claim_reply-text ctx lj = refl

pub claimed_jobs-claim_reply :
    (ctx : Context) (lj : LeasedJob) (res : HttpClientResponse)
    → Plain 2 (leased_json ctx lj)
    → res.ok ≡ true
    → res.status ≡ pos 200
    → res.body ≡ (claim_reply ctx (lj ∷ [])).body
    → claimed_jobs ctx res ≡ cons (leased_json ctx lj) nil
unfolding claimed_jobs parse_or_null claim_json set_all set set_field find find_field text text_eq
claimed_jobs-claim_reply ctx lj res plain fine status body =
    let parsed =
      (parse-dump ctx.double_text 0 (claim_json ctx lj) (claim_json-Plain ctx lj plain)).0 in
    rw (body ∙ claim_reply-text ctx lj) (rw parsed (rw fine (rw status refl)))

abbrev first_item : Items → Json
first_item nil = null
first_item (cons x xs) = x

-- A worker claims one job, the answer reaches it as text, and its report goes back as text: then the
-- report is answered by the outcome of `complete` for the id, the attempt and the token of the job that
-- was given, with the worker's own status, result and error. The attempt fits an `int`, the token and
-- the times 64 bits, the id is read as it was written, the status is one of the four, and the payload
-- and the result are plain JSON.
pub report_served :
    (ctx : Context) (env : Env) (worker_id : Text) (lj : LeasedJob) (res : HttpClientResponse)
    (j : Json) (r : Report) (req : HttpRequest) (e : Engine)
    → lj.attempt < 2 ^ 31
    → lj.lease_token ≤ u64_max
    → lj.lease_expires_ms < 2 ^ 63
    → Plain 3 (int lj.timeout_ms)
    → Plain 3 lj.payload
    → ctx.id_of (ctx.id_text lj.job_id) ≡ lj.job_id
    → is_outcome r.status ≡ true
    → Plain 1 r.result
    → res.ok ≡ true
    → res.status ≡ pos 200
    → res.body ≡ (claim_reply ctx (lj ∷ [])).body
    → claimed_jobs ctx res ≡ cons j nil
    → req.body ≡ dump ctx.double_text (done_body worker_id (read_lease ctx j) r)
    → let c =
        complete env
          (ctx.id_of worker_id)
          lj.job_id
          lj.attempt
          lj.lease_token
          r.status
          r.result
          r.error
          e in
      with_body ctx req (worker_complete ctx env) e
      ≡ (complete_reply ctx (ctx.id_text lj.job_id) c.1, c.0)
unfolding sent
report_served ctx env worker_id lj res j r req e small token expires timeout payload same known
      plain fine status answered claimed body =
    let given = leased-Plain ctx lj small expires timeout payload in
    let read : j ≡ leased_json ctx lj =
      ap first_item
        (sym claimed ∙ claimed_jobs-claim_reply ctx lj res given fine status answered) in
    served ctx env worker_id lj r small req e token same known plain
      (body ∙ ap (λ k. dump ctx.double_text (done_body worker_id (read_lease ctx k) r)) read)

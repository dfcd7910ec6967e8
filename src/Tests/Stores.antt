-- ===== src/Tests/Stores.antt =====
-- The JSON text, the columns of a row and the write-behind buffer.
use distributed_job_engine.Prelude.{
  text_eq, ◌≡◌, refl, true, false, some, [], ◌∷◌, negsuc, List, ◌≢◌, arith, text, lookup, length,
  take, drop,
}
use distributed_job_engine.Lifecycle.{queued, running, succeeded}
use distributed_job_engine.Json.{
  Json, null, int, string, array, object, nil, cons, end, field, find_field, set_field,
}
use distributed_job_engine.Json.Result.{ok, out_of_fuel}
use distributed_job_engine.Json.Printer.{DoubleText, dump, dump_pretty}
use distributed_job_engine.Json.Parser.{parse}
use distributed_job_engine.Json.Plain.{Plain}
use distributed_job_engine.Json.RoundTrip.{parse-dump}
use distributed_job_engine.Json.Total.{parse_returns}
use distributed_job_engine.Job.{Job}
use distributed_job_engine.Store.Columns.{to_row, read_row, stored, read_row-to_row}
use distributed_job_engine.Store.Buffer.{
  Call, JobStore, StoreConfig, Transaction, begin_insert, buffer_inserts, commit_batch, empty_store,
  flushed, flusher_at, flusher_step, flushes, get_job, insert_answer, insert_done, inserts, retire,
  run, step, take_batch, update_job, updates,
}
use distributed_job_engine.Store.Reads.{read_newest, AllAllowed}
use distributed_job_engine.Store.Refinement.{get_job-run}
use distributed_job_engine.Store.Drain.{flush_steps, flush_returns}
use distributed_job_engine.Store.Acknowledge.{answer_before_durable}
use distributed_job_engine.Store.Failures.{error_sticks, failed_update_reverts}
use distributed_job_engine.Tests.Samples.{job_in}

-- Doubles that are all printed alike.
abbrev no_doubles : DoubleText
no_doubles = record { is_finite = λ d. true; format = λ d. text "0.5"; strtod = λ s. 0 }

-- An escaped key, a nested array and a negative number.
abbrev document : Json
document = object (
    field (text "a\"b") (array (cons null (cons (int (negsuc 4)) nil)))
      (field (text "c") (string (text "x\ny")) end))

document-Plain : Plain 0 document
unfolding find_field set_field text_eq text
document-Plain = (
  omega arith,
  (refl, (omega arith, (omega arith, ((omega arith, omega arith), tt))), (refl, omega arith, tt)),
)

parse-dump_example :
    (parse no_doubles (dump no_doubles document) ≡ ok document)
    × (parse no_doubles (dump_pretty no_doubles 2 document) ≡ ok document)
parse-dump_example = parse-dump no_doubles 2 document document-Plain

parse_returns_example : parse no_doubles (text "[1, {\"k\": tru") ≢ out_of_fuel
parse_returns_example = parse_returns no_doubles (text "[1, {\"k\": tru")

abbrev paid_job : Job
paid_job = record (job_in running) { payload = document; result = document }

read_row-to_row_example : read_row no_doubles (to_row no_doubles paid_job) ≡ stored paid_job
read_row-to_row_example = read_row-to_row no_doubles paid_job document-Plain document-Plain

-- Batches of one row.
abbrev one_row : StoreConfig
one_row = record { max_batch = 1; double_text = no_doubles }

abbrev succeeds : Transaction
succeeds = record { begins = true; steps = λ i. true; commits = true }

abbrev fails : Transaction
fails = record { begins = false; steps = λ i. true; commits = true }

abbrev busy_store : JobStore
busy_store =
    update_job (job_in running) (begin_insert (job_in running ∷ paid_job ∷ []) empty_store).0

flush_returns_example : flushed (flush_steps one_row (λ i. fails) 11 busy_store) ≡ true
flush_returns_example =
    flush_returns one_row (λ i. fails) 11 busy_store (omega arith)
      (unfold update_job begin_insert buffer_inserts empty_store in omega arith)

abbrev two_jobs : List Job
two_jobs = job_in running ∷ paid_job ∷ []

answer_before_durable_example :
    let call = begin_insert two_jobs empty_store in
    let s' = flush_steps one_row (λ i. succeeds) 3 call.0 in
    (insert_done call.1 s' ≡ true) × (length s'.pending_inserts ≡ 1)
answer_before_durable_example =
    answer_before_durable one_row (λ i. succeeds) two_jobs empty_store (unfold empty_store in refl)
      (unfold empty_store in refl) (omega arith) (omega arith)

-- An update of job 8 that fails, and job 9 is looked for meanwhile.
abbrev waiting_store : JobStore
waiting_store = update_job (record (job_in queued) { job_id = 8 }) empty_store

abbrev failed_store : JobStore
failed_store =
    run one_row (flush_steps one_row (λ i. fails) 3 waiting_store) (flushes succeeds ∷ [])

error_sticks_example :
    let call = begin_insert (job_in running ∷ []) failed_store in
    let s' = flush_steps one_row (λ i. succeeds) 3 call.0 in
    (insert_answer failed_store ≡ false)
    × (insert_done call.1 s' ≡ true)
    × (insert_answer s' ≡ false)
    × (lookup 7 s'.tables.jobs ≡ some (to_row no_doubles (job_in running)))
unfolding empty_store update_job commit_batch take flush_steps flusher_step flusher_at take_batch
    run step retire lookup drop
error_sticks_example =
    error_sticks one_row (λ i. fails) (λ i. succeeds) (flushes succeeds ∷ []) (job_in running)
      waiting_store failed_store refl refl refl refl refl refl (omega arith) refl refl refl refl

-- A store that has the row of a job, in an earlier state.
abbrev stored_store : JobStore
stored_store = record empty_store {
  tables = record { jobs = (7, to_row no_doubles (job_in queued)) ∷ []; attempts = [] };
}

failed_update_reverts_example :
    let before = update_job (job_in running) stored_store in
    let after = flush_steps one_row (λ i. fails) 3 before in
    (get_job no_doubles 7 before ≡ some (job_in running))
    × (get_job no_doubles 7 after ≡ some (read_row no_doubles (to_row no_doubles (job_in queued))))
    × (flushed after ≡ true)
failed_update_reverts_example =
    failed_update_reverts one_row (λ i. fails) (job_in running) (to_row no_doubles (job_in queued))
      stored_store (unfold empty_store in refl) (unfold empty_store in refl) (omega arith)
      (unfold lookup in refl) refl

-- A job is inserted, taken by the flusher and updated while it is on its way.
abbrev calls : List Call
calls =
    inserts (paid_job ∷ [])
    ∷ flushes succeeds
    ∷ updates (record paid_job { state = succeeded })
    ∷ flushes succeeds
    ∷ []

calls_allowed : AllAllowed one_row empty_store calls
unfolding step begin_insert buffer_inserts update_job flusher_step flusher_at take_batch take drop
    empty_store
calls_allowed = ((refl, tt), (tt, (refl, (tt, tt))))

get_job-run_example :
    get_job no_doubles 7 (run one_row empty_store calls)
    ≡ read_newest no_doubles 7 (run one_row empty_store calls)
get_job-run_example = get_job-run one_row no_doubles 7 calls calls_allowed

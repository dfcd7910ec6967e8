-- ===== src/Store/Buffer.antt =====
-- The group commit of src/store/store.cpp. A buffer takes the writes, and the flusher takes a batch of
-- them, commits it in one transaction, and retires it. Other calls may come between these three.
use distributed_job_engine.Prelude.{
  take, drop, ℕ, suc, ◌+◌, Bool, true, false, not, ◌&&◌, ◌||◌, Option, none, some, List, [], ◌∷◌,
  ◌++◌, ltb, leb, ◌==◌, if◌then◌else◌, length, is_nil, lookup, insert, erase,
}
use distributed_job_engine.Json.Printer.{DoubleText}
use distributed_job_engine.Job.{Job, AttemptRecord}
use distributed_job_engine.Engine.State.{replace_attempt}
use distributed_job_engine.Store.Columns.{JobRow, to_row, read_row}

pub record VersionedJob : Type 0 where
  pub version : ℕ
  pub insert_seq : ℕ
  pub job : Job

-- The tables `jobs` and `job_attempts`.
pub record Tables : Type 0 where
  pub jobs : List (ℕ × JobRow)
  pub attempts : List AttemptRecord

pub record Batch : Type 0 where
  pub inserts : List VersionedJob
  pub updates : List VersionedJob
  pub attempts : List AttemptRecord

-- Where the flusher is: waiting, with a batch to commit, or with a batch that was committed or, with
-- false, rolled back.
pub data Flusher : Type 0 where
  idle : Flusher
  taken : Batch → Flusher
  finished : Batch → Bool → Flusher

pub record StoreConfig : Type 0 where
  pub max_batch : ℕ
  pub double_text : DoubleText

pub record JobStore : Type 0 where
  pub pending_inserts : List VersionedJob
  pub pending_updates : List VersionedJob
  pub pending_attempts : List AttemptRecord
  pub cache : List (ℕ × VersionedJob)
  pub version_counter : ℕ
  pub insert_seq : ℕ
  pub committed_insert_seq : ℕ
  -- `last_flush_error_` is not empty.
  pub flush_failed : Bool
  pub flusher : Flusher
  pub batches_committed : ℕ
  pub writes_committed : ℕ
  pub tables : Tables

-- What SQLite answers in one transaction: BEGIN, each statement by its number, COMMIT. After a COMMIT
-- that failed, the next BEGIN may fail too.
pub record Transaction : Type 0 where
  pub begins : Bool
  pub steps : ℕ → Bool
  pub commits : Bool

-- INSERT fails on a key that is there, UPDATE leaves the table alone on a key that is not.
unfoldable pub write_job_row :
    DoubleText → Bool → Job → List (ℕ × JobRow) → Option (List (ℕ × JobRow))
write_job_row t true job rows = elim (lookup job.job_id rows) [
  | none ↦ some (insert job.job_id (to_row t job) rows)
  | some old ↦ none
]
write_job_row t false job rows = elim (lookup job.job_id rows) [
  | none ↦ some rows
  | some old ↦ some (insert job.job_id (to_row t job) rows)
]

-- The statements for a list of rows; `k` is the number of the first.
unfoldable pub write_job_rows :
    DoubleText
    → Bool
    → Transaction
    → ℕ
    → List VersionedJob
    → List (ℕ × JobRow)
    → Option (List (ℕ × JobRow))
unfolding write_job_row
write_job_rows t is_insert tx k [] rows = some rows
write_job_rows t is_insert tx k (v ∷ vs) rows =
    let more = λ (rows' : List (ℕ × JobRow)). write_job_rows t is_insert tx (suc k) vs rows' in
    if tx.steps k
    then elim (write_job_row t is_insert v.job rows) [ none ↦ none | some rows' ↦ more rows' ]
    else none

unfoldable pub write_attempts :
    Transaction → ℕ → List AttemptRecord → List AttemptRecord → Option (List AttemptRecord)
unfolding replace_attempt
write_attempts tx k [] rows = some rows
write_attempts tx k (a ∷ rest) rows =
    let more = write_attempts tx (suc k) rest (replace_attempt a rows) in
    if tx.steps k then more else none

abbrev pub write_batch : DoubleText → Transaction → Batch → Tables → Option Tables
write_batch t tx b tables = elim (write_job_rows t true tx 0 b.inserts tables.jobs) [
  | none ↦ none
  | some jobs1 ↦ elim (write_job_rows t false tx (length b.inserts) b.updates jobs1) [
    | none ↦ none
    | some jobs2 ↦
        elim (write_attempts tx (length b.inserts + length b.updates) b.attempts tables.attempts) [
          | none ↦ none
          | some attempts ↦ some (record { jobs = jobs2; attempts = attempts })
        ]
  ]
]

-- Inserts first. A failure anywhere rolls everything back.
unfoldable pub commit_batch : DoubleText → Transaction → Batch → Tables → Tables × Bool
unfolding write_job_rows write_attempts
commit_batch t tx b tables =
    if is_nil b.inserts && is_nil b.updates && is_nil b.attempts
    then (tables, true)
    else if not tx.begins
    then (tables, false)
    else (elim (write_batch t tx b tables) [
      | none ↦ (tables, false)
      | some tables' ↦ if tx.commits then (tables', true) else (tables, false)
    ])

abbrev pub put_cache : VersionedJob → List (ℕ × VersionedJob) → List (ℕ × VersionedJob)
put_cache v cache = insert v.job.job_id v cache

-- The rows of one call of `insert_jobs` enter the buffer under one `insert_seq`.
unfoldable pub buffer_inserts : List Job → JobStore → JobStore
buffer_inserts [] s = s
buffer_inserts (job ∷ jobs) s =
    let v : VersionedJob = record {
      version = suc s.version_counter;
      insert_seq = s.insert_seq;
      job = job;
    } in
    buffer_inserts jobs (record s {
      version_counter = suc s.version_counter;
      pending_inserts = s.pending_inserts ++ v ∷ [];
      cache = put_cache v s.cache;
    })

-- The first half of `insert_jobs`; the second waits for the number that it gives. A call without jobs
-- answers at once and changes nothing.
unfoldable pub begin_insert : List Job → JobStore → JobStore × ℕ
unfolding buffer_inserts
begin_insert [] s = (s, 0)
begin_insert (job ∷ jobs) s =
    let s' = record s { insert_seq = suc s.insert_seq } in
    (buffer_inserts (job ∷ jobs) s', s'.insert_seq)

-- The wait is over, and what `insert_jobs` then answers.
abbrev pub insert_done : ℕ → JobStore → Bool
insert_done my_seq s = leb my_seq s.committed_insert_seq

abbrev pub insert_answer : JobStore → Bool
insert_answer s = not s.flush_failed

-- `update_job`, behind the bounded wait for room in the buffer.
unfoldable pub update_job : Job → JobStore → JobStore
update_job job s =
    let v : VersionedJob = record { version = suc s.version_counter; insert_seq = 0; job = job } in
    record s {
      version_counter = suc s.version_counter;
      pending_updates = s.pending_updates ++ v ∷ [];
      cache = put_cache v s.cache;
    }

unfoldable pub append_attempt : AttemptRecord → JobStore → JobStore
append_attempt rec s = record s {
  pending_attempts = s.pending_attempts ++ rec ∷ [];
  version_counter = suc s.version_counter;
}

-- The cache first, then the table.
unfoldable pub get_job : DoubleText → ℕ → JobStore → Option Job
unfolding read_row
get_job t id s = elim (lookup id s.cache) [
  | some v ↦ some v.job
  | none ↦ elim (lookup id s.tables.jobs) [ none ↦ none | some row ↦ some (read_row t row) ]
]

abbrev pub has_pending : JobStore → Bool
has_pending s =
    not (is_nil s.pending_inserts)
    || not (is_nil s.pending_updates)
    || not (is_nil s.pending_attempts)

-- The flusher takes at most `max_batch` writes of each kind.
unfoldable pub take_batch : StoreConfig → JobStore → JobStore
unfolding take drop
take_batch cfg s =
    let b : Batch = record {
      inserts = take cfg.max_batch s.pending_inserts;
      updates = take cfg.max_batch s.pending_updates;
      attempts = take cfg.max_batch s.pending_attempts;
    } in
    record s {
      pending_inserts = drop cfg.max_batch s.pending_inserts;
      pending_updates = drop cfg.max_batch s.pending_updates;
      pending_attempts = drop cfg.max_batch s.pending_attempts;
      flusher = taken b;
    }

unfoldable pub retire : List VersionedJob → List (ℕ × VersionedJob) → List (ℕ × VersionedJob)
retire [] cache = cache
retire (v ∷ vs) cache = elim (lookup v.job.job_id cache) [
  | none ↦ retire vs cache
  | some c ↦ retire vs (if c.version == v.version then erase v.job.job_id cache else cache)
]

-- `inserts.back().insert_seq`, and 0 where there is none.
unfoldable pub last_insert_seq : List VersionedJob → ℕ
last_insert_seq [] = 0
last_insert_seq (v ∷ []) = v.insert_seq
last_insert_seq (v ∷ w ∷ vs) = last_insert_seq (w ∷ vs)

abbrev pub finish_batch : Batch → Bool → JobStore → JobStore
finish_batch b committed s =
    let seq = last_insert_seq b.inserts in
    record s {
      cache = retire b.updates (retire b.inserts s.cache);
      flush_failed = if committed then s.flush_failed else true;
      committed_insert_seq = if ltb s.committed_insert_seq seq then seq else s.committed_insert_seq;
      flusher = idle;
      batches_committed = suc s.batches_committed;
      writes_committed =
          s.writes_committed + (length b.inserts + length b.updates + length b.attempts);
    }

abbrev pub commit_taken : StoreConfig → Transaction → Batch → JobStore → JobStore
commit_taken cfg tx b s =
    let r = commit_batch cfg.double_text tx b s.tables in
    record s { tables = r.0; flusher = finished b r.1 }

unfoldable pub flusher_at : StoreConfig → Transaction → Flusher → JobStore → JobStore
unfolding take_batch commit_batch retire last_insert_seq
flusher_at cfg tx idle s = if has_pending s then take_batch cfg s else s
flusher_at cfg tx (taken b) s = commit_taken cfg tx b s
flusher_at cfg tx (finished b committed) s = finish_batch b committed s

-- One part of a round of `flusher_loop`, by where it is.
unfoldable pub flusher_step : StoreConfig → Transaction → JobStore → JobStore
unfolding flusher_at
flusher_step cfg tx s = flusher_at cfg tx s.flusher s

-- `flush` returns where nothing is pending and nothing is in flight.
abbrev pub flushed : JobStore → Bool
flushed s = elim s.flusher [ idle ↦ not (has_pending s) | _ ↦ false ]

unfoldable pub empty_store : JobStore
empty_store = record {
  pending_inserts = [];
  pending_updates = [];
  pending_attempts = [];
  cache = [];
  version_counter = 0;
  insert_seq = 0;
  committed_insert_seq = 0;
  flush_failed = false;
  flusher = idle;
  batches_committed = 0;
  writes_committed = 0;
  tables = record { jobs = []; attempts = [] };
}

-- The calls of the threads, and the flusher's steps.
pub data Call : Type 0 where
  inserts : List Job → Call
  updates : Job → Call
  appends : AttemptRecord → Call
  flushes : Transaction → Call

unfoldable pub step : StoreConfig → JobStore → Call → JobStore
unfolding begin_insert update_job append_attempt flusher_step
step cfg s (inserts jobs) = (begin_insert jobs s).0
step cfg s (updates job) = update_job job s
step cfg s (appends rec) = append_attempt rec s
step cfg s (flushes tx) = flusher_step cfg tx s

unfoldable pub run : StoreConfig → JobStore → List Call → JobStore
unfolding step
run cfg s [] = s
run cfg s (c ∷ cs) = run cfg (step cfg s c) cs

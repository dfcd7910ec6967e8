-- ===== src/Store/Reads.antt =====
-- A store without the cache of src/store/store.cpp: there a read looks through the writes that are not
-- settled yet, and then at the table.
use distributed_job_engine.Prelude.{
  ℕ, suc, ◌+◌, ◌≤◌, ◌<◌, ◌≡◌, Option, none, some, List, [], ◌∷◌, ◌++◌, lookup,
}
use distributed_job_engine.Json.Printer.{DoubleText}
use distributed_job_engine.Job.{Job}
use distributed_job_engine.Store.Columns.{read_row}
use distributed_job_engine.Store.Buffer.{
  VersionedJob, Batch, Flusher, idle, taken, finished, StoreConfig, JobStore, put_cache, Call,
  inserts, updates, step,
}
use distributed_job_engine.Store.Newest.{or_else, latest, writes_of, versions}

abbrev pub no_batch : Batch
no_batch = record { inserts = []; updates = []; attempts = [] }

-- The writes that the flusher holds.
abbrev pub batch_of : Flusher → Batch
batch_of idle = no_batch
batch_of (taken b) = b
batch_of (finished b committed) = b

-- Updates are newer than inserts, and those that wait newer than those on their way.
abbrev pub newest_in : ℕ → List VersionedJob → List VersionedJob → Batch → Option VersionedJob
newest_in id pending_inserts pending_updates b =
    or_else (latest id pending_updates)
      (or_else (latest id b.updates) (or_else (latest id pending_inserts) (latest id b.inserts)))

abbrev pub newest : ℕ → JobStore → Option VersionedJob
newest id s = newest_in id s.pending_inserts s.pending_updates (batch_of s.flusher)

-- The read without a cache.
unfoldable pub read_newest : DoubleText → ℕ → JobStore → Option Job
unfolding read_row
read_newest t id s = elim (newest id s) [
  | some v ↦ some v.job
  | none ↦ elim (lookup id s.tables.jobs) [ none ↦ none | some row ↦ some (read_row t row) ]
]

-- A job is inserted once, while no write of it is under way, and updated when its insert no longer
-- waits.
abbrev pub buffer_one : Job → JobStore → JobStore
buffer_one job s =
    let v : VersionedJob = record {
      version = suc s.version_counter;
      insert_seq = s.insert_seq;
      job = job;
    } in
    record s {
      version_counter = suc s.version_counter;
      pending_inserts = s.pending_inserts ++ v ∷ [];
      cache = put_cache v s.cache;
    }

abbrev pub Unwritten : ℕ → JobStore → Type 0
Unwritten id s =
    writes_of id s.pending_inserts
      + writes_of id s.pending_updates
      + writes_of id (batch_of s.flusher).inserts
      + writes_of id (batch_of s.flusher).updates
    ≡ 0

abbrev pub FreshAll : List Job → JobStore → Type 0
FreshAll [] s = Unit
FreshAll (job ∷ jobs) s = Unwritten job.job_id s × FreshAll jobs (buffer_one job s)

abbrev pub IsAllowed : JobStore → Call → Type 0
IsAllowed s (inserts jobs) = FreshAll jobs (record s { insert_seq = suc s.insert_seq })
IsAllowed s (updates job) = writes_of job.job_id s.pending_inserts ≡ 0
IsAllowed s _ = Unit

abbrev pub AllAllowed : StoreConfig → JobStore → List Call → Type 0
AllAllowed cfg s [] = Unit
AllAllowed cfg s (c ∷ cs) = IsAllowed s c × AllAllowed cfg (step cfg s c) cs

-- No version is shared, no insert of a job waits beside another write of it, and the cache has the
-- newest write.
abbrev pub InvAt : Batch → JobStore → Type 0
InvAt b s =
    ((k : ℕ)
      → versions k s.pending_inserts
          + versions k s.pending_updates
          + versions k b.inserts
          + versions k b.updates
        ≤ 1)
    × ((k : ℕ)
        → s.version_counter < k
        → versions k s.pending_inserts
            + versions k s.pending_updates
            + versions k b.inserts
            + versions k b.updates
          ≡ 0)
    × ((id : ℕ)
        → (writes_of id s.pending_inserts + writes_of id b.inserts ≤ 1)
          × (1 ≤ writes_of id s.pending_inserts
              → writes_of id s.pending_updates + writes_of id b.updates ≡ 0))
    × ((id : ℕ) → lookup id s.cache ≡ newest_in id s.pending_inserts s.pending_updates b)

abbrev pub Inv : JobStore → Type 0
Inv s = InvAt (batch_of s.flusher) s

-- ===== src/Store/Failures.antt =====
-- What `JobStore` of src/store/store.cpp does after a transaction that failed.
use distributed_job_engine.Prelude.{
  take, drop, ℕ, zero, suc, ◌≤◌, ◌<◌, ◌≡◌, refl, ap, ◌∙◌, true, false, not, none, some, List, [],
  ◌∷◌, ◌++◌, length, is_nil, lookup, insert, lookup-insert_self, lookup-erase_self, arith,
}
use distributed_job_engine.Json.Printer.{DoubleText}
use distributed_job_engine.Job.{Job}
use distributed_job_engine.Store.Columns.{JobRow, to_row, read_row}
use distributed_job_engine.Store.Buffer.{
  VersionedJob, Batch, Flusher, idle, taken, finished, StoreConfig, JobStore, Transaction, Tables,
  has_pending, take_batch, commit_batch, last_insert_seq, begin_insert, insert_done, insert_answer,
  write_job_row, write_job_rows, write_attempts, put_cache, update_job, get_job, flushed, retire,
  buffer_inserts, flusher_at, append_attempt, flusher_step, Call, inserts, updates, appends,
  flushes, step, run,
}
use distributed_job_engine.Store.Drain.{flush_steps}
use distributed_job_engine.Store.Acknowledge.{next_batch, after_round, three_steps, pending-inserts}

nil_of : {A : Type 0} (xs : List A) → is_nil xs ≡ true → xs ≡ []
nil_of [] h = refl
nil_of (x ∷ xs) h = absurd (ground (arith, h))

is_nil-drop {ℓ} : {A : Type ℓ} (n : ℕ) (xs : List A) → is_nil xs ≡ true → is_nil (drop n xs) ≡ true
unfolding drop
is_nil-drop zero xs h = h
is_nil-drop (suc n) [] h = refl
is_nil-drop (suc n) (x ∷ xs) h = absurd (ground (arith, h))

drop_one : (n : ℕ) (v : VersionedJob) → 0 < n → is_nil (drop n (v ∷ [])) ≡ true
unfolding drop
drop_one zero v room = absurd (omega (arith, room))
drop_one (suc n) v room = is_nil-drop n [] refl

take_one : (n : ℕ) (v : VersionedJob) → 0 < n → take n (v ∷ []) ≡ v ∷ []
unfolding take
take_one zero v room = absurd (omega (arith, room))
take_one (suc zero) v room = refl
take_one (suc (suc n)) v room = refl

take_none {ℓ} : {A : Type ℓ} (n : ℕ) (xs : List A) → is_nil xs ≡ true → take n xs ≡ []
unfolding take
take_none zero xs h = refl
take_none (suc n) [] h = refl
take_none (suc n) (x ∷ xs) h = absurd (ground (arith, h))

-- A transaction that inserts one new row.
commit_one :
    (t : DoubleText) (tx : Transaction) (v : VersionedJob) (tables : Tables)
    → lookup v.job.job_id tables.jobs ≡ none
    → tx.begins ≡ true
    → tx.steps 0 ≡ true
    → tx.commits ≡ true
    → commit_batch t tx (record { inserts = v ∷ []; updates = []; attempts = [] }) tables
      ≡ (record tables { jobs = insert v.job.job_id (to_row t v.job) tables.jobs }, true)
unfolding commit_batch write_job_row write_job_rows write_attempts
commit_one t tx v tables fresh begins steps commits =
    rw begins (rw steps (rw fresh (rw commits refl)))

one_round :
    (cfg : StoreConfig) (tx : Transaction) (v : VersionedJob) (s : JobStore)
    → s.pending_inserts ≡ v ∷ []
    → is_nil s.pending_updates ≡ true
    → is_nil s.pending_attempts ≡ true
    → 0 < cfg.max_batch
    → lookup v.job.job_id s.tables.jobs ≡ none
    → tx.begins ≡ true
    → tx.steps 0 ≡ true
    → tx.commits ≡ true
    → let s' = after_round cfg tx s in
      (s'.flush_failed ≡ s.flush_failed)
      × (v.insert_seq ≤ s'.committed_insert_seq)
      × (s'.tables.jobs ≡ insert v.job.job_id (to_row cfg.double_text v.job) s.tables.jobs)
unfolding take_batch last_insert_seq
one_round cfg tx v s ins upd att room fresh begins steps commits =
    let b : Batch = record { inserts = v ∷ []; updates = []; attempts = [] } in
    let taken_ins : take cfg.max_batch s.pending_inserts ≡ v ∷ [] =
      ap (take cfg.max_batch) ins ∙ take_one cfg.max_batch v room in
    let same : next_batch cfg s ≡ b = rw taken_ins (
      rw (take_none cfg.max_batch s.pending_updates upd)
        (rw (take_none cfg.max_batch s.pending_attempts att) refl)) in
    let wrote = commit_one cfg.double_text tx v s.tables fresh begins steps commits in
    rw same (rw wrote (refl, ground arith, refl))

nothing_pending :
    (s : JobStore)
    → has_pending s ≡ false
    → (s.pending_inserts ≡ [])
      × (is_nil s.pending_updates ≡ true)
      × (is_nil s.pending_attempts ≡ true)
nothing_pending s h =
    (nil_of s.pending_inserts (ground (arith, h)), ground (arith, h), ground (arith, h))

-- The flag of a failed batch is never lowered.
buffer_inserts-failed :
    (jobs : List Job) (s : JobStore) → (buffer_inserts jobs s).flush_failed ≡ s.flush_failed
unfolding buffer_inserts
buffer_inserts-failed [] s = refl
buffer_inserts-failed (job ∷ jobs) s = buffer_inserts-failed jobs _

flusher_at-failed :
    (cfg : StoreConfig) (tx : Transaction) (at : Flusher) (s : JobStore)
    → s.flush_failed ≡ true
    → (flusher_at cfg tx at s).flush_failed ≡ true
unfolding flusher_at take_batch
flusher_at-failed cfg tx idle s h = ground (arith, h)
flusher_at-failed cfg tx (taken b) s h = ground (arith, h)
flusher_at-failed cfg tx (finished b committed) s h = ground (arith, h)

step-failed :
    (cfg : StoreConfig) (s : JobStore) (c : Call)
    → s.flush_failed ≡ true
    → (step cfg s c).flush_failed ≡ true
unfolding step begin_insert update_job append_attempt flusher_step
step-failed cfg s (inserts []) h = h
step-failed cfg s (inserts (job ∷ jobs)) h =
    buffer_inserts-failed (job ∷ jobs) (record s { insert_seq = suc s.insert_seq }) ∙ h
step-failed cfg s (updates job) h = h
step-failed cfg s (appends rec) h = h
step-failed cfg s (flushes tx) h = flusher_at-failed cfg tx s.flusher s h

run-failed :
    (cfg : StoreConfig) (s : JobStore) (cs : List Call)
    → s.flush_failed ≡ true
    → (run cfg s cs).flush_failed ≡ true
unfolding run
run-failed cfg s [] h = h
run-failed cfg s (c ∷ cs) h = run-failed cfg (step cfg s c) cs (step-failed cfg s c h)

bad_round :
    (cfg : StoreConfig) (tx : ℕ → Transaction) (s : JobStore)
    → s.flusher ≡ idle
    → has_pending s ≡ true
    → (commit_batch cfg.double_text (tx 1) (next_batch cfg s) s.tables).1 ≡ false
    → (flush_steps cfg tx 3 s).flush_failed ≡ true
bad_round cfg tx s at more fails = rw (three_steps cfg tx s at more) (ground (arith, fails))

-- After one round of the flusher whose transaction did not commit, and any calls behind it,
-- `insert_jobs` answers with the error of that round: also for a new row that is then alone in the
-- buffer and that the next transaction commits.
pub error_sticks :
    (cfg : StoreConfig) (bad tx : ℕ → Transaction) (cs : List Call) (job : Job) (s0 s : JobStore)
    → s0.flusher ≡ idle
    → has_pending s0 ≡ true
    → (commit_batch cfg.double_text (bad 1) (next_batch cfg s0) s0.tables).1 ≡ false
    → s ≡ run cfg (flush_steps cfg bad 3 s0) cs
    → s.flusher ≡ idle
    → has_pending s ≡ false
    → 0 < cfg.max_batch
    → lookup job.job_id s.tables.jobs ≡ none
    → (tx 1).begins ≡ true
    → (tx 1).steps 0 ≡ true
    → (tx 1).commits ≡ true
    → let call = begin_insert (job ∷ []) s in
      let s' = flush_steps cfg tx 3 call.0 in
      (insert_answer s ≡ false)
      × (insert_done call.1 s' ≡ true)
      × (insert_answer s' ≡ false)
      × (lookup job.job_id s'.tables.jobs ≡ some (to_row cfg.double_text job))
unfolding begin_insert
error_sticks cfg bad tx cs job s0 s at0 more0 fails same at empty room fresh begins steps commits =
    let failed : s.flush_failed ≡ true =
      ap (λ (x : JobStore). x.flush_failed) same
      ∙ run-failed cfg (flush_steps cfg bad 3 s0) cs (bad_round cfg bad s0 at0 more0 fails) in
    let v : VersionedJob = record {
      version = suc s.version_counter;
      insert_seq = suc s.insert_seq;
      job = job;
    } in
    let none_left = nothing_pending s empty in
    let s1 = (begin_insert (job ∷ []) s).0 in
    let only : s1.pending_inserts ≡ v ∷ [] = ap (λ vs. vs ++ v ∷ []) none_left.0 in
    let more : has_pending s1 ≡ true =
      pending-inserts s1 (omega (arith, ap (λ (vs : List VersionedJob). length vs) only)) in
    let done =
      one_round cfg (tx 1) v s1 only none_left.1 none_left.2 room fresh begins steps commits in
    rw (three_steps cfg tx s1 at more) (
      ap not failed,
      ground (arith, done.1),
      ap not (done.0 ∙ failed),
      ap (lookup job.job_id) done.2
          ∙ lookup-insert_self job.job_id (to_row cfg.double_text job) s.tables.jobs,
    )

-- A transaction that cannot begin, for one update.
failed_one :
    (t : DoubleText) (tx : Transaction) (v : VersionedJob) (tables : Tables)
    → tx.begins ≡ false
    → commit_batch t tx (record { inserts = []; updates = v ∷ []; attempts = [] }) tables
      ≡ (tables, false)
unfolding commit_batch
failed_one t tx v tables fails = rw fails refl

retire_one :
    (v : VersionedJob) (cache : List (ℕ × VersionedJob))
    → lookup v.job.job_id (retire (v ∷ []) (put_cache v cache)) ≡ none
unfolding retire
retire_one v cache =
    rw (lookup-insert_self v.job.job_id v cache, retire)
      (ground (arith, lookup-erase_self v.job.job_id (put_cache v cache)))

failed_round :
    (cfg : StoreConfig) (tx : Transaction) (v : VersionedJob) (s : JobStore)
    → is_nil s.pending_inserts ≡ true
    → s.pending_updates ≡ v ∷ []
    → is_nil s.pending_attempts ≡ true
    → 0 < cfg.max_batch
    → tx.begins ≡ false
    → let s' = after_round cfg tx s in
      (s'.cache ≡ retire (v ∷ []) s.cache) × (s'.tables ≡ s.tables) × (flushed s' ≡ true)
unfolding take_batch retire
failed_round cfg tx v s ins upd att room fails =
    let b : Batch = record { inserts = []; updates = v ∷ []; attempts = [] } in
    let taken_upd : take cfg.max_batch s.pending_updates ≡ v ∷ [] =
      ap (take cfg.max_batch) upd ∙ take_one cfg.max_batch v room in
    let same : next_batch cfg s ≡ b =
      rw (take_none cfg.max_batch s.pending_inserts ins)
        (rw taken_upd (rw (take_none cfg.max_batch s.pending_attempts att) refl)) in
    let none_wrote = failed_one cfg.double_text tx v s.tables fails in
    let left : is_nil (drop cfg.max_batch s.pending_updates) ≡ true =
      rw upd (drop_one cfg.max_batch v room) in
    rw same (
      rw none_wrote (
        ap (λ (b1 : Batch). retire b1.updates (retire b1.inserts s.cache)) same,
        refl,
        ground (
          arith,
          left,
          is_nil-drop cfg.max_batch s.pending_inserts ins,
          is_nil-drop cfg.max_batch s.pending_attempts att,
        ),
      ))

get_job_cached :
    (t : DoubleText) (id : ℕ) (v : VersionedJob) (s : JobStore)
    → lookup id s.cache ≡ some v
    → get_job t id s ≡ some v.job
unfolding get_job
get_job_cached t id v s h = rw (h, get_job) refl

get_job_row :
    (t : DoubleText) (id : ℕ) (row : JobRow) (s : JobStore)
    → lookup id s.cache ≡ none
    → lookup id s.tables.jobs ≡ some row
    → get_job t id s ≡ some (read_row t row)
unfolding get_job
get_job_row t id row s gone kept = rw (gone, get_job) (rw kept refl)

-- An update on an idle buffer whose transaction cannot begin is dropped. A read gives the job of the
-- update while it is in the buffer, and what the table has once the transaction is rolled back.
pub failed_update_reverts :
    (cfg : StoreConfig) (tx : ℕ → Transaction) (job : Job) (row : JobRow) (s : JobStore)
    → s.flusher ≡ idle
    → has_pending s ≡ false
    → 0 < cfg.max_batch
    → lookup job.job_id s.tables.jobs ≡ some row
    → (tx 1).begins ≡ false
    → let before = update_job job s in
      let after = flush_steps cfg tx 3 before in
      (get_job cfg.double_text job.job_id before ≡ some job)
      × (get_job cfg.double_text job.job_id after ≡ some (read_row cfg.double_text row))
      × (flushed after ≡ true)
unfolding update_job
failed_update_reverts cfg tx job row s at empty room there fails =
    let v : VersionedJob = record { version = suc s.version_counter; insert_seq = 0; job = job } in
    let s1 = update_job job s in
    let none_left = nothing_pending s empty in
    let only : s1.pending_updates ≡ v ∷ [] =
      ap (λ (vs : List VersionedJob). vs ++ v ∷ []) (nil_of s.pending_updates none_left.1) in
    let more : has_pending s1 ≡ true = rw only (ground arith) in
    let done = failed_round cfg (tx 1) v s1 (ap is_nil none_left.0) only none_left.2 room fails in
    let after = after_round cfg (tx 1) s1 in
    let gone : lookup job.job_id after.cache ≡ none =
      ap (lookup job.job_id) done.0 ∙ retire_one v s.cache in
    let kept : lookup job.job_id after.tables.jobs ≡ some row =
      ap (λ (ts : Tables). lookup job.job_id ts.jobs) done.1 ∙ there in
    rw (three_steps cfg tx s1 at more) (
      get_job_cached cfg.double_text job.job_id v s1 (lookup-insert_self job.job_id v s.cache),
      get_job_row cfg.double_text job.job_id row after gone kept,
      done.2,
    )

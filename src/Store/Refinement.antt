-- ===== src/Store/Refinement.antt =====
-- The cache of src/store/store.cpp refines a store that has none.
use distributed_job_engine.Prelude.{
  ℕ, suc, ◌≡◌, refl, sym, subst, inl, inr, List, [], ◌∷◌, lookup, arith, Bool-cases,
}
use distributed_job_engine.Json.Printer.{DoubleText}
use distributed_job_engine.Job.{Job}
use distributed_job_engine.Store.Buffer.{
  Flusher, idle, taken, finished, StoreConfig, JobStore, Transaction, buffer_inserts, begin_insert,
  update_job, append_attempt, get_job, has_pending, flusher_at, flusher_step, empty_store, Call,
  inserts, updates, appends, flushes, step, run,
}
use distributed_job_engine.Store.Entering.{inserted, updated}
use distributed_job_engine.Store.Leaving.{take_batch-Inv, finish_batch-Inv}
use distributed_job_engine.Store.Reads.{
  batch_of, read_newest, buffer_one, FreshAll, IsAllowed, AllAllowed, InvAt, Inv,
}

empty_Inv : Inv empty_store
unfolding empty_store lookup
empty_Inv =
    (λ k. omega arith, λ k h. omega arith, λ id. (omega arith, λ h. omega arith), λ id. refl)

get_job-read_newest :
    (t : DoubleText) (id : ℕ) (s : JobStore) → Inv s → get_job t id s ≡ read_newest t id s
unfolding read_newest get_job
get_job-read_newest t id s inv = let cached = inv.3 id in rw (cached, get_job) refl

flusher_at-Inv :
    (cfg : StoreConfig) (tx : Transaction) (f : Flusher) (s : JobStore)
    → s.flusher ≡ f
    → InvAt (batch_of f) s
    → Inv (flusher_at cfg tx f s)
unfolding flusher_at
flusher_at-Inv cfg tx idle s at inv = elim (Bool-cases (has_pending s)) [
  | inl busy ↦ rw busy (take_batch-Inv cfg s inv)
  | inr free ↦ rw free (subst (λ f. InvAt (batch_of f) s) (sym at) inv)
]
flusher_at-Inv cfg tx (taken b) s at inv = inv
flusher_at-Inv cfg tx (finished b committed) s at inv = finish_batch-Inv b committed s inv

buffer_inserts-Inv :
    (jobs : List Job) (s : JobStore) → FreshAll jobs s → Inv s → Inv (buffer_inserts jobs s)
unfolding buffer_inserts
buffer_inserts-Inv [] s fresh inv = inv
buffer_inserts-Inv (job ∷ jobs) s fresh inv =
    buffer_inserts-Inv jobs (buffer_one job s) fresh.1
      (inserted (batch_of s.flusher) s job s.insert_seq inv fresh.0)

begin_insert-Inv :
    (jobs : List Job) (s : JobStore)
    → FreshAll jobs (record s { insert_seq = suc s.insert_seq })
    → Inv s
    → Inv (begin_insert jobs s).0
unfolding begin_insert
begin_insert-Inv [] s fresh inv = inv
begin_insert-Inv (job ∷ jobs) s fresh inv =
    buffer_inserts-Inv (job ∷ jobs) (record s { insert_seq = suc s.insert_seq }) fresh inv

step-Inv :
    (cfg : StoreConfig) (s : JobStore) (c : Call) → IsAllowed s c → Inv s → Inv (step cfg s c)
unfolding step flusher_step update_job append_attempt
step-Inv cfg s (inserts jobs) allowed inv = begin_insert-Inv jobs s allowed inv
step-Inv cfg s (updates job) allowed inv = updated (batch_of s.flusher) s job 0 inv allowed
step-Inv cfg s (appends rec) allowed inv = (inv.0, λ k h. inv.1 k (omega (arith, h)), inv.2, inv.3)
step-Inv cfg s (flushes tx) allowed inv = flusher_at-Inv cfg tx s.flusher s refl inv

run-Inv :
    (cfg : StoreConfig) (s : JobStore) (cs : List Call)
    → AllAllowed cfg s cs
    → Inv s
    → Inv (run cfg s cs)
unfolding run
run-Inv cfg s [] allowed inv = inv
run-Inv cfg s (c ∷ cs) allowed inv =
    run-Inv cfg (step cfg s c) cs allowed.1 (step-Inv cfg s c allowed.0 inv)

-- After any allowed calls, and whatever the transactions answer, a read through the cache gives what
-- the store without a cache gives: the newest write that is waiting or held by the flusher, and the row
-- of the table where there is none. Calls are allowed that insert a job once, while no write of it is
-- under way, and update it when its insert no longer waits.
pub get_job-run :
    (cfg : StoreConfig) (t : DoubleText) (id : ℕ) (cs : List Call)
    → AllAllowed cfg empty_store cs
    → get_job t id (run cfg empty_store cs) ≡ read_newest t id (run cfg empty_store cs)
get_job-run cfg t id cs allowed =
    get_job-read_newest t id (run cfg empty_store cs) (run-Inv cfg empty_store cs allowed empty_Inv)

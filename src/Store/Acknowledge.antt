-- ===== src/Store/Acknowledge.antt =====
-- When `insert_jobs` of src/store/store.cpp answers, and what it answers.
use distributed_job_engine.Prelude.{
  take, length-drop, ℕ, zero, suc, ◌+◌, ◌-◌, ◌<◌, ◌≡◌, refl, ap, ◌∙◌, true, false, List, [], ◌∷◌,
  ◌++◌, All, length, length-append, is_nil, arith,
}
use distributed_job_engine.Job.{Job}
use distributed_job_engine.Store.Buffer.{
  VersionedJob, Batch, idle, finished, StoreConfig, JobStore, Transaction, has_pending, take_batch,
  finish_batch, commit_batch, flusher_at, flusher_step, last_insert_seq, buffer_inserts,
  begin_insert, insert_done, put_cache,
}
use distributed_job_engine.Store.Drain.{flush_steps, flusher_step-eq}

-- The batch that the flusher takes next.
abbrev pub next_batch : StoreConfig → JobStore → Batch
next_batch cfg s = record {
  inserts = take cfg.max_batch s.pending_inserts;
  updates = take cfg.max_batch s.pending_updates;
  attempts = take cfg.max_batch s.pending_attempts;
}

-- A whole round of the flusher: take, commit, retire.
abbrev pub after_round : StoreConfig → Transaction → JobStore → JobStore
after_round cfg tx s =
    let b = next_batch cfg s in
    let r = commit_batch cfg.double_text tx b s.tables in
    finish_batch b r.1 (record (take_batch cfg s) { tables = r.0; flusher = finished b r.1 })

pub three_steps :
    (cfg : StoreConfig) (tx : ℕ → Transaction) (s : JobStore)
    → s.flusher ≡ idle
    → has_pending s ≡ true
    → flush_steps cfg tx 3 s ≡ after_round cfg (tx 1) s
unfolding flush_steps flusher_step flusher_at take_batch
three_steps cfg tx s at more =
    let first : flusher_step cfg (tx 0) s ≡ take_batch cfg s =
      flusher_step-eq cfg (tx 0) idle s at ∙ rw more refl in
    ap (λ (s1 : JobStore). flush_steps cfg (λ i. tx (suc i)) 2 s1) first

All-snoc {ℓ κ} :
    {A : Type ℓ} (P : A → Type κ) (xs : List A) (x : A) → All P xs → P x → All P (xs ++ x ∷ [])
All-snoc P [] x all p = (p, tt)
All-snoc P (y ∷ xs) x all p = (all.0, All-snoc P xs x all.1 p)

buffer_inserts_lem :
    (jobs : List Job) (s : JobStore) (seq : ℕ)
    → s.insert_seq ≡ seq
    → All (λ v. v.insert_seq ≡ seq) s.pending_inserts
    → let s' = buffer_inserts jobs s in
      (length s'.pending_inserts ≡ length s.pending_inserts + length jobs)
      × All (λ v. v.insert_seq ≡ seq) s'.pending_inserts
      × (s'.flusher ≡ s.flusher)
      × (s'.flush_failed ≡ s.flush_failed)
unfolding buffer_inserts
buffer_inserts_lem [] s seq h all = (omega arith, all, refl, refl)
buffer_inserts_lem (job ∷ jobs) s seq h all =
    let v : VersionedJob = record {
      version = suc s.version_counter;
      insert_seq = s.insert_seq;
      job = job;
    } in
    let s1 = record s {
      version_counter = suc s.version_counter;
      pending_inserts = s.pending_inserts ++ v ∷ [];
      cache = put_cache v s.cache;
    } in
    let rest =
      buffer_inserts_lem jobs s1 seq h
        (All-snoc (λ v. v.insert_seq ≡ seq) s.pending_inserts v all h) in
    (omega (arith, rest.0, length-append s.pending_inserts (v ∷ [])), rest.1, rest.2, rest.3)

last_insert_seq-take :
    (n seq : ℕ) (vs : List VersionedJob)
    → 0 < n
    → All (λ v. v.insert_seq ≡ seq) vs
    → 0 < length vs
    → last_insert_seq (take n vs) ≡ seq
unfolding last_insert_seq take
last_insert_seq-take zero seq vs room all some_left = absurd (omega (arith, room))
last_insert_seq-take (suc n) seq [] room all some_left = absurd (omega (arith, some_left))
last_insert_seq-take (suc zero) seq (v ∷ vs) room all some_left = all.0
last_insert_seq-take (suc (suc n)) seq (v ∷ []) room all some_left = all.0
last_insert_seq-take (suc (suc n)) seq (v ∷ w ∷ vs) room all some_left =
    last_insert_seq-take (suc n) seq (w ∷ vs) (omega arith) all.1 (omega arith)

not_nil {ℓ} : {A : Type ℓ} (xs : List A) → 0 < length xs → is_nil xs ≡ false
not_nil [] h = absurd (omega (arith, h))
not_nil (x ∷ xs) h = refl

pub pending-inserts : (s : JobStore) → 0 < length s.pending_inserts → has_pending s ≡ true
pending-inserts s some_left =
    let full : is_nil s.pending_inserts ≡ false = not_nil s.pending_inserts some_left in
    rw full refl

round_of :
    (cfg : StoreConfig) (tx : ℕ → Transaction) (s : JobStore) (seq : ℕ)
    → s.flusher ≡ idle
    → 0 < cfg.max_batch
    → 0 < length s.pending_inserts
    → All (λ v. v.insert_seq ≡ seq) s.pending_inserts
    → let s' = flush_steps cfg tx 3 s in
      (insert_done seq s' ≡ true)
      × (length s'.pending_inserts ≡ length s.pending_inserts - cfg.max_batch)
unfolding take_batch
round_of cfg tx s seq at room some_left all =
    let last : last_insert_seq (take cfg.max_batch s.pending_inserts) ≡ seq =
      last_insert_seq-take cfg.max_batch seq s.pending_inserts room all some_left in
    rw (three_steps cfg tx s at (pending-inserts s some_left))
      (ground (arith, last), length-drop cfg.max_batch s.pending_inserts)

-- The answer of `insert_jobs` may come before its rows are written: for a call with more rows than a
-- batch holds, on a buffer without inserts, the call's wait is over after one round of the flusher,
-- while all its rows beyond the first `max_batch` are still in the buffer.
pub answer_before_durable :
    (cfg : StoreConfig) (tx : ℕ → Transaction) (jobs : List Job) (s : JobStore)
    → s.flusher ≡ idle
    → s.pending_inserts ≡ []
    → 0 < cfg.max_batch
    → cfg.max_batch < length jobs
    → let call = begin_insert jobs s in
      let s' = flush_steps cfg tx 3 call.0 in
      (insert_done call.1 s' ≡ true) × (length s'.pending_inserts ≡ length jobs - cfg.max_batch)
unfolding begin_insert
answer_before_durable cfg tx [] s at none_left room many = absurd (omega (arith, many))
answer_before_durable cfg tx (job ∷ jobs) s at none_left room many =
    let s0 = record s { insert_seq = suc s.insert_seq } in
    let facts = buffer_inserts_lem (job ∷ jobs) s0 (suc s.insert_seq) refl (rw none_left tt) in
    let call = begin_insert (job ∷ jobs) s in
    let size : length call.0.pending_inserts ≡ suc (length jobs) =
      facts.0 ∙ rw none_left (omega arith) in
    let done =
      round_of cfg tx call.0 (suc s.insert_seq) (facts.2 ∙ at) room (omega (arith, size)) facts.1 in
    (done.0, done.1 ∙ rw size refl)

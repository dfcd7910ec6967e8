-- ===== src/Store/Entering.antt =====
-- The cache of src/store/store.cpp when a write enters the buffer.
use distributed_job_engine.Prelude.{
  ℕ, suc, ◌+◌, ◌≤◌, ◌<◌, ◌≡◌, refl, ◌∙◌, subst, inl, inr, some, List, [], ◌∷◌, ◌++◌, ◌==◌,
  if◌then◌else◌, lookup-insert, arith, Bool-cases,
}
use distributed_job_engine.Job.{Job}
use distributed_job_engine.Store.Buffer.{VersionedJob, Batch, JobStore, put_cache}
use distributed_job_engine.Store.Newest.{
  latest, writes_of, versions, latest-append, writes_of-append, versions-append, latest-none,
}
use distributed_job_engine.Store.Reads.{InvAt}

latest_one :
    (id : ℕ) (xs : List VersionedJob) (v : VersionedJob)
    → latest id (xs ++ v ∷ []) ≡ (if v.job.job_id == id then some v else latest id xs)
latest_one id xs v = latest-append id xs (v ∷ []) ∙ ground arith

-- A write that enters the buffer has a version of its own.
versions_one :
    (k : ℕ) (xs : List VersionedJob) (v : VersionedJob)
    → versions k (xs ++ v ∷ []) ≡ versions k xs + (if v.version == k then 1 else 0)
versions_one k xs v = let h = versions-append k xs (v ∷ []) in ground (arith, h)

writes_of_one :
    (id : ℕ) (xs : List VersionedJob) (v : VersionedJob)
    → writes_of id (xs ++ v ∷ []) ≡ writes_of id xs + (if v.job.job_id == id then 1 else 0)
writes_of_one id xs v = let h = writes_of-append id xs (v ∷ []) in ground (arith, h)

insert_count :
    (j id pi pu bi bu : ℕ)
    → (j ≡ id → pi + pu + bi + bu ≡ 0)
    → (pi + bi ≤ 1) × (1 ≤ pi → pu + bu ≡ 0)
    → (pi + (if j == id then 1 else 0) + bi ≤ 1)
      × (1 ≤ pi + (if j == id then 1 else 0) → pu + bu ≡ 0)
insert_count j id pi pu bi bu free old = elim (Bool-cases (j == id)) [
  | inl same ↦
      let none_yet = free (ground (arith, same)) in
      (ground (arith, none_yet, same), λ h. omega (arith, none_yet))
  | inr other ↦
      let few = old.0 in (ground (arith, few, other), λ h. old.1 (ground (arith, h, other)))
]

module _ (b : Batch) (s : JobStore) (job : Job) (seq : ℕ) (inv : InvAt b s) where
  abbrev pub entry : VersionedJob
  entry = record { version = suc s.version_counter; insert_seq = seq; job = job }

  new_version :
      (k : ℕ)
      → versions k s.pending_inserts
          + versions k s.pending_updates
          + versions k b.inserts
          + versions k b.updates
          + (if suc s.version_counter == k then 1 else 0)
        ≤ 1
  new_version k = elim (Bool-cases (suc s.version_counter == k)) [
    | inl same ↦ let none_yet = inv.1 k (ground (arith, same)) in ground (arith, none_yet, same)
    | inr other ↦ let old = inv.0 k in ground (arith, old, other)
  ]

  higher :
      (k : ℕ)
      → suc s.version_counter < k
      → versions k s.pending_inserts
          + versions k s.pending_updates
          + versions k b.inserts
          + versions k b.updates
          + (if suc s.version_counter == k then 1 else 0)
        ≡ 0
  higher k h = let old = inv.1 k (omega (arith, h)) in ground (arith, old, h)

  pub inserted :
      writes_of job.job_id s.pending_inserts
          + writes_of job.job_id s.pending_updates
          + writes_of job.job_id b.inserts
          + writes_of job.job_id b.updates
        ≡ 0
      → InvAt b (record s {
        version_counter = suc s.version_counter;
        pending_inserts = s.pending_inserts ++ entry ∷ [];
        cache = put_cache entry s.cache;
      })
  inserted free = (
    λ k.
        let one = versions_one k s.pending_inserts entry in
        let all = new_version k in omega (arith, one, all),
    λ k h.
        let one = versions_one k s.pending_inserts entry in
        let all = higher k h in omega (arith, one, all),
    λ id. rw (writes_of_one id s.pending_inserts entry) (
        insert_count job.job_id id _ _ _ _
          (λ eq.
            subst
              (λ k.
                writes_of k s.pending_inserts
                  + writes_of k s.pending_updates
                  + writes_of k b.inserts
                  + writes_of k b.updates
                ≡ 0)
              eq free)
          (inv.2 id)),
    λ id. elim (Bool-cases (job.job_id == id)) [
      | inl same ↦
          let eq : job.job_id ≡ id = ground (arith, same) in
          let pu =
            latest-none id s.pending_updates
              (subst (λ k. writes_of k s.pending_updates ≡ 0) eq (omega (arith, free))) in
          let bu =
            latest-none id b.updates
              (subst (λ k. writes_of k b.updates ≡ 0) eq (omega (arith, free))) in
          rw (lookup-insert job.job_id id entry s.cache)
            (rw (latest_one id s.pending_inserts entry) (rw same (rw pu (rw bu refl))))
      | inr other ↦
          rw (lookup-insert job.job_id id entry s.cache)
            (rw (latest_one id s.pending_inserts entry) (rw other (inv.3 id)))
    ],
  )

  pub updated :
      writes_of job.job_id s.pending_inserts ≡ 0
      → InvAt b (record s {
        version_counter = suc s.version_counter;
        pending_updates = s.pending_updates ++ entry ∷ [];
        cache = put_cache entry s.cache;
      })
  updated out = (
    λ k.
        let one = versions_one k s.pending_updates entry in
        let all = new_version k in omega (arith, one, all),
    λ k h.
        let one = versions_one k s.pending_updates entry in
        let all = higher k h in omega (arith, one, all),
    λ id. (
      (inv.2 id).0,
      λ waits. elim (Bool-cases (job.job_id == id)) [
        | inl same ↦
            let eq : job.job_id ≡ id = ground (arith, same) in
            absurd (omega (arith, waits, subst (λ k. writes_of k s.pending_inserts ≡ 0) eq out))
        | inr other ↦
            let one = writes_of_one id s.pending_updates entry in
            let old = (inv.2 id).1 waits in ground (arith, one, old, other)
      ],
    ),
    λ id. elim (Bool-cases (job.job_id == id)) [
      | inl same ↦
          rw (lookup-insert job.job_id id entry s.cache)
            (rw (latest_one id s.pending_updates entry) (rw same refl))
      | inr other ↦
          rw (lookup-insert job.job_id id entry s.cache)
            (rw (latest_one id s.pending_updates entry) (rw other (inv.3 id)))
    ],
  )

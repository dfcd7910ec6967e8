-- ===== src/Store/Leaving.antt =====
-- The cache of src/store/store.cpp when the flusher takes a batch and when it settles it.
use distributed_job_engine.Prelude.{
  take, drop, ℕ, ◌+◌, ◌≤◌, ◌≡◌, refl, sym, ap, ◌∙◌, inl, inr, Bool, Option, none, some, List,
  lookup, arith, Option-cases,
}
use distributed_job_engine.Store.Buffer.{
  VersionedJob, Batch, StoreConfig, JobStore, take_batch, retire, finish_batch,
}
use distributed_job_engine.Store.Newest.{
  or_else, latest, writes_of, versions, latest-append, writes_of-append, versions-append, take-drop,
  latest-none, latest-some, retire-none, retire-keeps, retire-drops,
}
use distributed_job_engine.Store.Reads.{no_batch, newest_in, InvAt, Inv}

or_else-none : {A : Type 0} (o : Option A) → or_else o none ≡ o
or_else-none none = refl
or_else-none (some x) = refl

or_else_parts :
    {A : Type 0} (later_u first_u later_i first_i : Option A)
    → or_else (or_else later_u first_u) (or_else (or_else later_i first_i) none)
      ≡ or_else later_u (or_else first_u (or_else later_i first_i))
or_else_parts none none none first_i = or_else-none first_i
or_else_parts none none (some x) first_i = refl
or_else_parts none (some x) later_i first_i = refl
or_else_parts (some x) first_u later_i first_i = refl

module _ (n : ℕ) (xs : List VersionedJob) where
  split-versions : (k : ℕ) → versions k xs ≡ versions k (take n xs) + versions k (drop n xs)
  split-versions k =
      ap (versions k) (sym (take-drop n xs)) ∙ versions-append k (take n xs) (drop n xs)

  split-writes : (id : ℕ) → writes_of id xs ≡ writes_of id (take n xs) + writes_of id (drop n xs)
  split-writes id =
      ap (writes_of id) (sym (take-drop n xs)) ∙ writes_of-append id (take n xs) (drop n xs)

  split-latest : (id : ℕ) → latest id xs ≡ or_else (latest id (drop n xs)) (latest id (take n xs))
  split-latest id = ap (latest id) (sym (take-drop n xs)) ∙ latest-append id (take n xs) (drop n xs)

pub take_batch-Inv : (cfg : StoreConfig) (s : JobStore) → InvAt no_batch s → Inv (take_batch cfg s)
unfolding take_batch
take_batch-Inv cfg s inv =
    let pi = s.pending_inserts in
    let pu = s.pending_updates in
    let n = cfg.max_batch in
    (
      λ k.
          let i = split-versions n pi k in
          let u = split-versions n pu k in let old = inv.0 k in omega (arith, i, u, old),
      λ k h.
          let i = split-versions n pi k in
          let u = split-versions n pu k in let old = inv.1 k h in omega (arith, i, u, old),
      λ id.
          let i = split-writes n pi id in
          let u = split-writes n pu id in
          let old = inv.2 id in
          let few = old.0 in
          (
            omega (arith, i, few),
            λ waits. let none_left = old.1 (omega (arith, i, waits)) in omega (arith, u, none_left),
          ),
      λ id.
          inv.3 id
          ∙ ap (λ o. or_else o (or_else (latest id pi) none)) (split-latest n pu id)
          ∙ ap
              (λ o.
                or_else (or_else (latest id (drop n pu)) (latest id (take n pu))) (or_else o none))
              (split-latest n pi id)
          ∙ or_else_parts (latest id (drop n pu)) (latest id (take n pu)) (latest id (drop n pi))
              (latest id (take n pi)),
    )

module _ (b : Batch) (s : JobStore) (inv : InvAt b s) (id : ℕ) where
  left : List (ℕ × VersionedJob)
  left = retire b.updates (retire b.inserts s.cache)

  -- The newest write stays where it is in neither list of the batch.
  left-keeps :
      (v : VersionedJob)
      → lookup id s.cache ≡ some v
      → 1 ≤ versions v.version s.pending_inserts + versions v.version s.pending_updates
      → lookup id left ≡ some v
  unfolding left
  left-keeps v cached waits =
      let all = inv.0 v.version in
      retire-keeps id b.updates (retire b.inserts s.cache) v
        (retire-keeps id b.inserts s.cache v cached (omega (arith, all, waits)))
        (omega (arith, all, waits))

  left-updates :
      (v : VersionedJob)
      → lookup id s.cache ≡ some v
      → latest id b.updates ≡ some v
      → lookup id left ≡ none
  unfolding left
  left-updates v cached last =
      let all = inv.0 v.version in
      let there = (latest-some id b.updates v last).1 in
      retire-drops id b.updates (retire b.inserts s.cache) v
        (retire-keeps id b.inserts s.cache v cached (omega (arith, all, there))) last

  left-inserts :
      (v : VersionedJob)
      → lookup id s.cache ≡ some v
      → latest id b.inserts ≡ some v
      → lookup id left ≡ none
  unfolding left
  left-inserts v cached last =
      retire-none id b.updates (retire b.inserts s.cache)
        (retire-drops id b.inserts s.cache v cached last)

  left-none : lookup id s.cache ≡ none → lookup id left ≡ none
  unfolding left
  left-none cached =
      retire-none id b.updates (retire b.inserts s.cache) (retire-none id b.inserts s.cache cached)

  left-batch :
      latest id s.pending_updates ≡ none
      → latest id s.pending_inserts ≡ none
      → lookup id left ≡ none
  left-batch pu pi = elim (Option-cases (latest id b.updates)) [
    | inr (v, bu) ↦ left-updates v (inv.3 id ∙ rw pu (rw bu refl)) bu
    | inl bu ↦ elim (Option-cases (latest id b.inserts)) [
      | inr (v, bi) ↦ left-inserts v (inv.3 id ∙ rw pu (rw bu (rw pi bi))) bi
      | inl bi ↦ left-none (inv.3 id ∙ rw pu (rw bu (rw pi bi)))
    ]
  ]

  left-newest : lookup id left ≡ newest_in id s.pending_inserts s.pending_updates no_batch
  left-newest = elim (Option-cases (latest id s.pending_updates)) [
    | inr (v, pu) ↦
        let there = (latest-some id s.pending_updates v pu).1 in
        rw pu (left-keeps v (inv.3 id ∙ rw pu refl) (omega (arith, there)))
    | inl pu ↦ elim (Option-cases (latest id s.pending_inserts)) [
      | inr (v, pi) ↦
          let there = latest-some id s.pending_inserts v pi in
          let alone = (inv.2 id).1 there.0 in
          let bu = latest-none id b.updates (omega (arith, alone)) in
          let waits = there.1 in
          rw pu
            (rw pi (left-keeps v (inv.3 id ∙ rw pu (rw bu (rw pi refl))) (omega (arith, waits))))
      | inl pi ↦ rw pu (rw pi (left-batch pu pi))
    ]
  ]

pub finish_batch-Inv :
    (b : Batch) (committed : Bool) (s : JobStore) → InvAt b s → Inv (finish_batch b committed s)
unfolding left
finish_batch-Inv b committed s inv = (
  λ k. let old = inv.0 k in omega (arith, old),
  λ k h. let old = inv.1 k h in omega (arith, old),
  λ id.
      let few = (inv.2 id).0 in
      (omega (arith, few), λ waits. let none_left = (inv.2 id).1 waits in omega (arith, none_left)),
  λ id. left-newest b s inv id,
)

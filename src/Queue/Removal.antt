-- ===== src/Queue/Removal.antt =====
-- A job that is not in the index is not handed out until it is pushed again.
use distributed_job_engine.Prelude.{
  ℕ, ◌≡◌, ◌≢◌, refl, ap, inl, inr, false, List, [], ◌∷◌, Option, some, none, contains, lookup,
  lookup-erase, lookup-insert, lookup-erase_self, arith, leb, ltb, Option-cases, ℤ, if_cases, All,
}
use distributed_job_engine.Queue.{
  QueueEntry, Loc, Queue, init, push, remove, close, poll, bury, replace_existing, admit,
  promote_entry, promote_loop, promote_matured, take_entry, bury_entry, take_loop, take_ready,
}
use distributed_job_engine.Queue.Waiting.{Call, pushes, removes, polls, closes, step, run}
use distributed_job_engine.Queue.Invariant.{Inv, top_known, bury_entry-Inv, promote_matured-Inv}
use distributed_job_engine.Queue.Histories.{step-Inv, run-Inv, run-init-Inv, remove-Inv}

module _ (id : ℕ) where
  abbrev Absent : Queue → Type 0
  Absent q = lookup id q.index ≡ none

  bury-Absent : (id' : ℕ) (loc : Loc) (q : Queue) → Absent q → Absent (bury id' loc q)
  unfolding bury
  bury-Absent id' loc q h = ground (arith, lookup-erase id' id q.index)

  remove-Absent : (q : Queue) (id' : ℕ) → Absent q → Absent (remove q id').0
  unfolding remove
  remove-Absent q id' h = elim (Option-cases (lookup id' q.index)) [
    | inl e ↦ rw (e, remove) h
    | inr (loc, e) ↦ rw (e, remove) (bury-Absent id' loc q h)
  ]

  replace_existing-Absent : (q : Queue) (id' : ℕ) → Absent q → Absent (replace_existing id' q)
  unfolding replace_existing
  replace_existing-Absent q id' h = elim (Option-cases (lookup id' q.index)) [
    | inl e ↦ rw (e, replace_existing) h
    | inr (loc, e) ↦ rw (e, replace_existing) (bury-Absent id' loc q h)
  ]

  admit-Absent :
      (q : Queue) (id' : ℕ) (priority : ℤ) (at now : ℕ)
      → id' ≢ id
      → Absent q
      → Absent (admit q id' priority at now)
  unfolding admit
  admit-Absent q id' priority at now ne h =
      ground
        (arith, lookup-insert id' id (record { seq = q.next_seq; delayed = ltb now at }) q.index)

  push-Absent :
      (q : Queue) (id' : ℕ) (priority : ℤ) (at now : ℕ)
      → id' ≢ id
      → Absent q
      → Absent (push q id' priority at now).0
  unfolding push
  push-Absent q id' priority at now ne h =
      let admitted =
        admit-Absent (replace_existing id' q) id' priority at now ne
          (replace_existing-Absent q id' h) in
      ground (arith, admitted)

  promote_entry-Absent :
      (e : QueueEntry) (rest : List QueueEntry) (q : Queue)
      → Absent q
      → Absent (promote_entry e rest q)
  unfolding promote_entry
  promote_entry-Absent e rest q h =
      ground (arith, lookup-insert e.job_id id (record { seq = e.seq; delayed = false }) q.index)

  promote_loop-Absent :
      (now : ℕ) (es : List QueueEntry) (q : Queue) → Absent q → Absent (promote_loop now es q)
  unfolding promote_loop
  promote_loop-Absent now [] q h = h
  promote_loop-Absent now (e ∷ rest) q h =
      if_cases Absent (leb e.ready_at_ms now) _ _
        (λ _.
          promote_loop-Absent now rest (promote_entry e rest q) (promote_entry-Absent e rest q h))
        (λ _. h)

  take_entry-Absent :
      (e : QueueEntry) (rest : List QueueEntry) (q : Queue)
      → Absent q
      → Absent (take_entry e rest q)
  unfolding take_entry
  take_entry-Absent e rest q h = ground (arith, lookup-erase e.job_id id q.index)

  -- The entry that is given, if any, is not of the job.
  abbrev pub Avoids : Option QueueEntry → Type 0
  Avoids none = Unit {0}
  Avoids (some e) = e.job_id ≢ id

  take_loop-Avoids :
      (es : List QueueEntry) (q : Queue)
      → Inv q
      → q.ready ≡ es
      → Absent q
      → Avoids (take_loop es q).0 × Absent (take_loop es q).1
  unfolding take_loop bury_entry
  take_loop-Avoids [] q inv r h = (tt, h)
  take_loop-Avoids (e ∷ rest) q inv r h =
      if_cases (λ (t : Option QueueEntry × Queue). Avoids t.0 × Absent t.1)
        (contains e.seq q.tombstones) _ _
        (λ dead.
          take_loop-Avoids rest (bury_entry e rest q) (bury_entry-Inv q inv e rest r dead) refl h)
        (λ live. (
          λ same. ground (arith, top_known q inv e rest r live, ap (λ j. lookup j q.index) same),
          take_entry-Absent e rest q h,
        ))

  poll-Avoids :
      (now : ℕ) (q : Queue) → Inv q → Absent q → Avoids (poll now q).0 × Absent (poll now q).1
  unfolding poll promote_matured take_ready
  poll-Avoids now q inv h =
      take_loop-Avoids (promote_matured now q).ready (promote_matured now q)
        (promote_matured-Inv now q inv) refl (promote_loop-Absent now q.delayed q h)

  -- The call does not push the job.
  abbrev pub DoesNotPush : Call → Type 0
  DoesNotPush (pushes id' priority at now) = id' ≢ id
  DoesNotPush _ = Unit {0}

  step-Absent : (q : Queue) (c : Call) → Inv q → DoesNotPush c → Absent q → Absent (step q c)
  unfolding step close
  step-Absent q (pushes id' priority at now) inv ne h = push-Absent q id' priority at now ne h
  step-Absent q (removes id') inv ne h = remove-Absent q id' h
  step-Absent q (polls now) inv ne h = (poll-Avoids now q inv h).1
  step-Absent q closes inv ne h = h

  run-Absent :
      (q : Queue) (cs : List Call) → Inv q → All DoesNotPush cs → Absent q → Absent (run q cs)
  unfolding run
  run-Absent q [] inv ne h = h
  run-Absent q (c ∷ cs) inv ne h =
      run-Absent (step q c) cs (step-Inv q c inv) ne.1 (step-Absent q c inv ne.0 h)

  remove_clears : (q : Queue) → Absent (remove q id).0
  unfolding remove bury
  remove_clears q = ground (arith, lookup-erase_self id q.index)

  -- Once `remove` has been called for a job, no poll gives an entry of that job, whatever other calls
  -- come before and after, until the job is pushed again.
  pub remove_final :
      (capacity now : ℕ) (before after : List Call)
      → All DoesNotPush after
      → Avoids (poll now (run (remove (run (init capacity) before) id).0 after)).0
  remove_final capacity now before after ne =
      let q = run (init capacity) before in
      let removed-Inv = remove-Inv q id (run-init-Inv capacity before) in
      let still = run-Inv (remove q id).0 after removed-Inv in
      (poll-Avoids now (run (remove q id).0 after) still
        (run-Absent (remove q id).0 after removed-Inv ne (remove_clears q))).0

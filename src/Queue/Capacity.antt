-- ===== src/Queue/Capacity.antt =====
-- The number of live entries never passes the capacity.
use distributed_job_engine.Prelude.{
  ℕ, suc, ◌+◌, ◌≤◌, ◌≡◌, refl, ap, ◌∙◌, inl, inr, true, false, List, [], ◌∷◌, if◌then◌else◌,
  contains, lookup, arith, Option-cases, ℤ,
}
use distributed_job_engine.Queue.{
  QueueEntry, Loc, Queue, init, push, remove, close, poll, size, bury, replace_existing, admit,
  promote_entry, promote_loop, promote_matured, take_entry, bury_entry, take_loop, take_ready,
}
use distributed_job_engine.Queue.Waiting.{Call, pushes, removes, polls, closes, step, run}
use distributed_job_engine.Queue.Heap.{live_count}
use distributed_job_engine.Queue.Invariant.{Inv, delayed-promote_entry, promote_entry-Inv}
use distributed_job_engine.Queue.Histories.{step-Inv, init-Inv, run-init-Inv}

-- `q'` has the capacity of `q` and no more live entries.
abbrev Shrinks : Queue → Queue → Type 0
Shrinks q q' = (size q' ≤ size q) × (q'.capacity ≡ q.capacity)

bury-Shrinks : (id : ℕ) (loc : Loc) (q : Queue) → Shrinks q (bury id loc q)
unfolding bury size
bury-Shrinks id loc q = ground arith

replace_existing-Shrinks : (id : ℕ) (q : Queue) → Shrinks q (replace_existing id q)
unfolding replace_existing
replace_existing-Shrinks id q = elim (Option-cases (lookup id q.index)) [
  | inl e ↦ rw (e, replace_existing) (omega arith, refl)
  | inr (loc, e) ↦ rw (e, replace_existing) (bury-Shrinks id loc q)
]

remove-Shrinks : (id : ℕ) (q : Queue) → Shrinks q (remove q id).0
unfolding remove
remove-Shrinks id q = elim (Option-cases (lookup id q.index)) [
  | inl e ↦ rw (e, remove) (omega arith, refl)
  | inr (loc, e) ↦ rw (e, remove) (bury-Shrinks id loc q)
]

admit-grows :
    (q : Queue) (id : ℕ) (priority : ℤ) (at now : ℕ)
    → (size (admit q id priority at now) ≡ suc (size q))
      × ((admit q id priority at now).capacity ≡ q.capacity)
unfolding admit size
admit-grows q id priority at now = ground arith

push_fits :
    (q : Queue) (id : ℕ) (priority : ℤ) (at now : ℕ)
    → size q ≤ q.capacity
    → (size (push q id priority at now).0 ≤ q.capacity)
      × ((push q id priority at now).0.capacity ≡ q.capacity)
unfolding push size
push_fits q id priority at now h =
    ground
      (arith, replace_existing-Shrinks id q, admit-grows (replace_existing id q) id priority at now)

head_live :
    (q : Queue) (e : QueueEntry) (rest : List QueueEntry)
    → q.delayed ≡ e ∷ rest
    → live_count q.tombstones q.delayed
      ≡ (if (if contains e.seq q.tombstones then false else true) then 1 else 0)
        + live_count q.tombstones rest
unfolding live_count
head_live q e rest top = ap (live_count q.tombstones) top

promote_entry-Shrinks :
    (q : Queue) (e : QueueEntry) (rest : List QueueEntry)
    → Inv q
    → q.delayed ≡ e ∷ rest
    → Shrinks q (promote_entry e rest q)
unfolding promote_entry size
promote_entry-Shrinks q e rest inv top = ground (arith, head_live q e rest, inv.delayed_exact)

promote_loop-Shrinks :
    (now : ℕ) (es : List QueueEntry) (q : Queue)
    → Inv q
    → q.delayed ≡ es
    → Shrinks q (promote_loop now es q)
unfolding promote_loop
promote_loop-Shrinks now [] q inv h = (omega arith, refl)
promote_loop-Shrinks now (e ∷ rest) q inv h =
    let first = promote_entry-Shrinks q e rest inv h in
    let others =
      promote_loop-Shrinks now rest (promote_entry e rest q) (promote_entry-Inv q inv e rest h)
        (delayed-promote_entry q e rest) in
    ground (arith, first, others)

take_loop-Shrinks : (es : List QueueEntry) (q : Queue) → Shrinks q (take_loop es q).1
unfolding take_loop take_entry bury_entry size
take_loop-Shrinks [] q = (omega arith, refl)
take_loop-Shrinks (e ∷ rest) q = ground (arith, take_loop-Shrinks rest (bury_entry e rest q))

poll-Shrinks : (now : ℕ) (q : Queue) → Inv q → Shrinks q (poll now q).1
unfolding poll take_ready promote_matured
poll-Shrinks now q inv =
    let p = promote_loop-Shrinks now q.delayed q inv refl in
    let t = take_loop-Shrinks (promote_matured now q).ready (promote_matured now q) in
    ground (arith, p, t)

step_fits :
    (q : Queue) (c : Call)
    → Inv q
    → size q ≤ q.capacity
    → (size (step q c) ≤ q.capacity) × ((step q c).capacity ≡ q.capacity)
unfolding step close size
step_fits q (pushes id priority at now) inv h = push_fits q id priority at now h
step_fits q (removes id) inv h = ground (arith, remove-Shrinks id q)
step_fits q (polls now) inv h = ground (arith, poll-Shrinks now q inv)
step_fits q closes inv h = (h, refl)

run_fits :
    (q : Queue) (cs : List Call) (capacity : ℕ)
    → Inv q
    → q.capacity ≡ capacity
    → size q ≤ capacity
    → size (run q cs) ≤ capacity
unfolding run
run_fits q [] capacity inv c h = h
run_fits q (x ∷ cs) capacity inv c h =
    let fits = step_fits q x inv (omega arith) in
    run_fits (step q x) cs capacity (step-Inv q x inv) (fits.1 ∙ c) (omega (arith, fits))

-- After any calls the queue counts at most `capacity` entries, ready and delayed together, and the
-- count is the number of entries of the two heaps that are not tombstoned.
pub size_bounded :
    (capacity : ℕ) (cs : List Call)
    → let q = run (init capacity) cs in
      (size q ≤ capacity)
      × (size q ≡ live_count q.tombstones q.ready + live_count q.tombstones q.delayed)
unfolding init size
size_bounded capacity cs =
    let inv = run-init-Inv capacity cs in
    (
      run_fits (init capacity) cs capacity (init-Inv capacity) refl (omega arith),
      omega (arith, inv.ready_exact, inv.delayed_exact),
    )

-- ===== src/Queue/Histories.antt =====
-- The queue after any sequence of calls: the invariant, the counters and the capacity.
use distributed_job_engine.Prelude.{ℕ, refl, inl, inr, List, [], ◌∷◌, lookup, arith, Option-cases}
use distributed_job_engine.Queue.{Queue, init, remove, close, poll, promote_matured}
use distributed_job_engine.Queue.Waiting.{Call, pushes, removes, polls, closes, step, run}
use distributed_job_engine.Queue.Heap.{occurrences, occurrences_of, live_count}
use distributed_job_engine.Queue.Invariant.{
  Inv, bury-Inv, push-Inv, take_ready-Inv, promote_matured-Inv,
}

pub init-Inv : (capacity : ℕ) → Inv (init capacity)
unfolding init occurrences occurrences_of live_count lookup
init-Inv capacity = record {
  distinct = λ t. omega arith;
  fresh = λ t h. refl;
  buried = λ t h. ground arith;
  indexed = λ id loc h. ground arith;
  known = λ d id t h k. ground arith;
  ready_exact = refl;
  delayed_exact = refl;
}

pub remove-Inv : (q : Queue) (id : ℕ) → Inv q → Inv (remove q id).0
unfolding remove
remove-Inv q id inv = elim (Option-cases (lookup id q.index)) [
  | inl e ↦ rw (e, remove) inv
  | inr (loc, e) ↦ rw (e, remove) (bury-Inv q inv id loc e)
]

close-Inv : (q : Queue) → Inv q → Inv (close q)
unfolding close
close-Inv q inv = record {
  distinct = inv.distinct;
  fresh = inv.fresh;
  buried = inv.buried;
  indexed = inv.indexed;
  known = inv.known;
  ready_exact = inv.ready_exact;
  delayed_exact = inv.delayed_exact;
}

poll-Inv : (now : ℕ) (q : Queue) → Inv q → Inv (poll now q).1
unfolding poll
poll-Inv now q inv = take_ready-Inv (promote_matured now q) (promote_matured-Inv now q inv)

pub step-Inv : (q : Queue) (c : Call) → Inv q → Inv (step q c)
unfolding step
step-Inv q (pushes id priority at now) inv = push-Inv q id priority at now inv
step-Inv q (removes id) inv = remove-Inv q id inv
step-Inv q (polls now) inv = poll-Inv now q inv
step-Inv q closes inv = close-Inv q inv

pub run-Inv : (q : Queue) (cs : List Call) → Inv q → Inv (run q cs)
unfolding run
run-Inv q [] inv = inv
run-Inv q (c ∷ cs) inv = run-Inv (step q c) cs (step-Inv q c inv)

-- After any calls on a new queue the invariant holds: no sequence number is shared, every tombstone
-- stands for one entry still in a heap, the index has exactly the live entries, each on its side,
-- and the two counters are the numbers of live entries.
pub run-init-Inv : (capacity : ℕ) (cs : List Call) → Inv (run (init capacity) cs)
run-init-Inv capacity cs = run-Inv (init capacity) cs (init-Inv capacity)

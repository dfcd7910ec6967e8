-- ===== src/Queue/Scheduling.antt =====
-- What `poll` promises after any calls: strict priority with first in, first out within a level,
-- among the entries that are due and that were not replaced or removed.
use distributed_job_engine.Prelude.{ℕ, refl, List, Option, some, none}
use distributed_job_engine.Queue.{QueueEntry, Queue, init, poll, promote_matured, take_ready}
use distributed_job_engine.Queue.Waiting.{Call, run}
use distributed_job_engine.Queue.Invariant.{Inv, promote_matured-Inv}
use distributed_job_engine.Queue.Histories.{run-init-Inv}
use distributed_job_engine.Queue.Order.{IsOrdered}
use distributed_job_engine.Queue.Rounds.{run-IsOrdered, promote_loop-IsOrdered}
use distributed_job_engine.Queue.Front.{
  Precedes, Due, AllDue, First, take_loop-First, promote_loop-Due,
}

init-IsOrdered : (capacity : ℕ) → IsOrdered (init capacity)
unfolding init
init-IsOrdered capacity = record { ready_sorted = tt; delayed_sorted = tt }

-- An entry that was live and due, and that no other live entry that was due precedes; or nothing,
-- and no live entry was due.
abbrev pub Best : ℕ → Queue → Option QueueEntry → Type 0
Best now q none = AllDue now (λ x. ⊥) q
Best now q (some e) = Due now q e × AllDue now (Precedes e) q

First-Best :
    (now : ℕ) (q : Queue) (o : Option QueueEntry)
    → Inv q
    → IsOrdered q
    → First (promote_matured now q) o
    → Best now q o
unfolding promote_matured
First-Best now q none inv ordered first =
    (promote_loop-Due now q.delayed q inv ordered refl).1 (λ x. ⊥) first
First-Best now q (some e) inv ordered (live, here, all) =
    let p = promote_loop-Due now q.delayed q inv ordered refl in
    (p.0 e live here, p.1 (Precedes e) all)

poll-First :
    (now : ℕ) (q : Queue) → Inv q → IsOrdered q → First (promote_matured now q) (poll now q).0
unfolding poll take_ready promote_matured
poll-First now q inv ordered =
    let p = promote_loop-IsOrdered now q.delayed q refl ordered in
    take_loop-First (promote_matured now q).ready (promote_matured now q)
      (promote_matured-Inv now q inv) refl p.0.ready_sorted

-- After any history of calls, the entry that a poll at time `now` gives stood in the queue before the
-- poll, was not replaced or removed, was ready or delayed until `now` at the latest, and precedes
-- every such entry: it has a higher priority, or the same and the smaller sequence number. The poll
-- gives none only if every entry was replaced or removed or is delayed beyond `now`.
pub poll-Best :
    (capacity now : ℕ) (cs : List Call)
    → let q = run (init capacity) cs in Best now q (poll now q).0
poll-Best capacity now cs =
    let q = run (init capacity) cs in
    let inv = run-init-Inv capacity cs in
    let ordered = run-IsOrdered (init capacity) cs (init-IsOrdered capacity) in
    First-Best now q (poll now q).0 inv ordered (poll-First now q inv ordered)

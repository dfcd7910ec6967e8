-- ===== src/Queue/Waiting.antt =====
-- The blocking calls `pop`, `pop_for` and `pop_batch` of src/queue/queue.cpp. The loop of a waiting
-- call is a list of rounds: what other threads did to the queue since the last round, and the clock.
use distributed_job_engine.Prelude.{
  ℕ, suc, zero, ◌+◌, Option, none, some, List, [], ◌∷◌, leb, if◌then◌else◌, ℤ, pos_part,
}
use distributed_job_engine.Queue.{
  QueueEntry, Queue, push, remove, poll, close, promote_matured, take_ready,
}

-- What another thread may do to the queue while this one waits.
pub data Call : Type 0 where
  pushes : ℕ → ℤ → ℕ → ℕ → Call
  removes : ℕ → Call
  polls : ℕ → Call
  closes : Call

unfoldable pub step : Queue → Call → Queue
unfolding push remove poll close
step q (pushes job_id priority ready_at_ms now) = (push q job_id priority ready_at_ms now).0
step q (removes job_id) = (remove q job_id).0
step q (polls now) = (poll now q).1
step q closes = close q

unfoldable pub run : Queue → List Call → Queue
unfolding step
run q [] = q
run q (c ∷ cs) = run (step q c) cs

-- `got` returns an entry, `ended` returns `nullopt`, `blocked` is still waiting.
pub data Popped : Type 0 where
  got : QueueEntry → Queue → Popped
  ended : Queue → Popped
  blocked : Queue → Popped

abbrev settle : Option QueueEntry × Queue → Popped → Popped
settle (some e, q) wait = got e q
settle (none, q) wait = if q.closed then ended q else wait

-- `pop`, over the rounds of its loop: the clock of each, and what others did before it.
unfoldable pub pop : List (ℕ × List Call) → Queue → Popped
unfolding poll run
pop [] q = blocked q
pop ((now, others) ∷ rounds) q =
    let r = poll now (run q others) in let wait = pop rounds r.1 in settle r wait

-- `pop_for`: `deadline` is fixed before the first round, and no waiting goes past it.
unfoldable pub pop_until : ℕ → List (ℕ × List Call) → Queue → Popped
unfolding poll run
pop_until deadline [] q = blocked q
pop_until deadline ((now, others) ∷ rounds) q =
    let r = poll now (run q others) in
    let wait = pop_until deadline rounds r.1 in
    settle r (if leb deadline now then ended r.1 else wait)

-- `start` is the clock at the call; a negative timeout counts as 0.
unfoldable pub pop_for : ℕ → ℤ → List (ℕ × List Call) → Queue → Popped
unfolding pop_until
pop_for start timeout_ms rounds q = pop_until (start + pos_part timeout_ms) rounds q

-- The second loop of `pop_batch`: at most `n` more entries, with no waiting.
unfoldable pub take_up_to : ℕ → Queue → List QueueEntry × Queue
unfolding take_ready
take_up_to zero q = ([], q)
take_up_to (suc n) q =
    let r = take_ready q in
    let more = take_up_to n r.1 in elim r.0 [ none ↦ ([], r.1) | some e ↦ (e ∷ more.0, more.1) ]

-- What follows the first entry of a batch, under the lock that is taken anew.
unfoldable pub batch_rest : ℕ → ℕ → List Call → Popped → List QueueEntry × Queue
unfolding take_up_to promote_matured run
batch_rest n now others (got e q) =
    let more = take_up_to n (promote_matured now (run q others)) in (e ∷ more.0, more.1)
batch_rest n now others (ended q) = ([], q)
batch_rest n now others (blocked q) = ([], q)

-- `pop_batch`: `between` is what other threads do between the two locks, and `now` the second clock.
unfoldable pub pop_batch :
    ℕ → ℕ → ℤ → List (ℕ × List Call) → List Call → ℕ → Queue → List QueueEntry × Queue
unfolding pop_for batch_rest
pop_batch zero start wait_ms rounds between now q = ([], q)
pop_batch (suc n) start wait_ms rounds between now q =
    batch_rest n now between (pop_for start wait_ms rounds q)

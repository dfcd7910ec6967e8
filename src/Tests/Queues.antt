-- ===== src/Tests/Queues.antt =====
-- Histories of the queue.
use distributed_job_engine.Prelude.{List, [], ◌∷◌, pos, ◌≡◌, ◌≤◌, ◌+◌, arith}
use distributed_job_engine.Queue.{init, poll, remove, size}
use distributed_job_engine.Queue.Waiting.{Call, pushes, removes, polls, run}
use distributed_job_engine.Queue.Heap.{live_count}
use distributed_job_engine.Queue.Invariant.{Inv}
use distributed_job_engine.Queue.Histories.{run-init-Inv}
use distributed_job_engine.Queue.Scheduling.{Best, poll-Best}
use distributed_job_engine.Queue.Capacity.{size_bounded}
use distributed_job_engine.Queue.Removal.{Avoids, remove_final}

-- Two jobs at once, one of a higher priority, one delayed, one pushed again, one removed.
abbrev busy : List Call
busy =
    pushes 1 (pos 0) 10 10
    ∷ pushes 2 (pos 5) 10 10
    ∷ pushes 3 (pos 0) 90 10
    ∷ pushes 1 (pos 1) 20 20
    ∷ removes 2
    ∷ polls 30
    ∷ []

poll-Best_example : Best 100 (run (init 4) busy) (poll 100 (run (init 4) busy)).0
poll-Best_example = poll-Best 4 100 busy

run-init-Inv_example : Inv (run (init 4) busy)
run-init-Inv_example = run-init-Inv 4 busy

size_bounded_example :
    (size (run (init 4) busy) ≤ 4)
    × (size (run (init 4) busy)
        ≡ live_count (run (init 4) busy).tombstones (run (init 4) busy).ready
          + live_count (run (init 4) busy).tombstones (run (init 4) busy).delayed)
size_bounded_example = size_bounded 4 busy

remove_final_example :
    Avoids 3 (poll 200 (run (remove (run (init 4) busy) 3).0 (pushes 4 (pos 0) 50 50 ∷ []))).0
remove_final_example = remove_final 3 4 200 busy (pushes 4 (pos 0) 50 50 ∷ []) (omega arith, tt)

-- ===== src/Tests/Engines.antt =====
-- The engine with one job, worker 9 and its lease.
use distributed_job_engine.Prelude.{
  insert, ◌≡◌, ◌≢◌, refl, true, false, none, some, List, [], ◌∷◌, lookup, arith, text, text_eq, pos,
  ltz, ℕ, Text, All, ◌<◌, ◌↔◌,
}
use distributed_job_engine.Lifecycle.{
  skipped, is_terminal, queued, running, succeeded, pending, retrying, same_state,
  is_valid_transition, timed_out,
}
use distributed_job_engine.Json.{null}
use distributed_job_engine.Job.{Job, no_reason, user}
use distributed_job_engine.Engine.State.{
  Engine, get_job, count, set_job, update_job, persist, enqueue,
}
use distributed_job_engine.Engine.Workflow.{
  skip_descendants, skip_walk, release_dependents, children_of,
}
use distributed_job_engine.Engine.Attempts.{ok, cancel, cancelled_job, begin_attempt}
use distributed_job_engine.Engine.Completion.{
  claim_finish, record_finish, finish_attempt, reason_of, decide, count_stale, retry_or,
}
use distributed_job_engine.Engine.Remote.{
  accepted, stale_lease, check_lease, complete_held, complete, reported, heartbeat_worker,
}
use distributed_job_engine.Engine.Watchdog.{expire_lease, reassign, reassigned_job, expired_leases}
use distributed_job_engine.Engine.Submission.{submit}
use distributed_job_engine.Engine.Workflows.{NodeSpec}
use distributed_job_engine.Engine.Recovery.{recover, load_non_terminal, insert_row}
use distributed_job_engine.Engine.Final.{Call, cancels, begins, beats, watches, run, terminal_final}
use distributed_job_engine.Engine.Cancellation.{cancel_wins}
use distributed_job_engine.Engine.Rows.{Keyed}
use distributed_job_engine.Engine.Reach.{Below}
use distributed_job_engine.Engine.Skipping.{skip_reaches_all}
use distributed_job_engine.Engine.Races.{success_row, lost_cancellation}
use distributed_job_engine.Engine.Graph.{find_from, Checked, check_edges, is_acyclic}
use distributed_job_engine.Engine.Cycles.{check_edges-is_acyclic}
use distributed_job_engine.Engine.Overwritten.{cancelled_remote_job}
use distributed_job_engine.Engine.Fencing.{expired_lease_fenced, late_report_accepted}
use distributed_job_engine.Engine.Events.{Event, calls, checks, finishes, run_events}
use distributed_job_engine.Engine.Table.{decide_outcome}
use distributed_job_engine.Engine.Restart.{restart_forgets_countdown}
use distributed_job_engine.Engine.Admission.{Submitted, submit_outcome}
use distributed_job_engine.Engine.Leases.{others_expired, heartbeat_keeps_leases}
use distributed_job_engine.Tests.Samples.{
  env, job_in, request, lease, worker, engine_with, engine_with-Keyed, row_found, lease_held,
}

-- Other threads cancel, start and watch.
abbrev traffic : List Call
traffic = cancels env 7 ∷ begins env 7 9 500 true ∷ beats env 9 ∷ watches env ∷ []

terminal_final_example :
    get_job 7 (run (engine_with (job_in succeeded)) traffic) ≡ some (job_in succeeded)
terminal_final_example =
    terminal_final 7 (job_in succeeded) (engine_with (job_in succeeded)) traffic
      (engine_with-Keyed (job_in succeeded) refl) refl (row_found (job_in succeeded))

cancel_wins_example :
    ((cancel env 7 (engine_with (job_in queued))).1 ≡ ok)
    × (get_job 7 (run (cancel env 7 (engine_with (job_in queued))).0 traffic)
        ≡ some (cancelled_job env (job_in queued)))
    × (begin_attempt env 7 9 500 true (run (cancel env 7 (engine_with (job_in queued))).0 traffic)
        ≡ (run (cancel env 7 (engine_with (job_in queued))).0 traffic, none))
cancel_wins_example =
    cancel_wins env env 7 9 500 true (job_in queued) (engine_with (job_in queued)) traffic
      (engine_with-Keyed (job_in queued) refl) (row_found (job_in queued)) refl refl refl

-- Worker 9 reports its attempt.
abbrev busy : Engine
busy = engine_with (job_in running)

-- What other threads do meanwhile: the watchdog runs, another report is checked and an attempt ends.
abbrev meanwhile : List Event
meanwhile =
    checks 9 7 1 5
    ∷ calls (watches env)
    ∷ finishes env (job_in running) lease true null []
    ∷ calls (beats env 9)
    ∷ []

expired_lease_fenced_example :
    let e' = run_events (expire_lease env 7 busy) meanwhile in
    (complete env 9 7 1 5 (text "SUCCEEDED") null [] e' ≡ (count count_stale e', stale_lease))
    × (finish_attempt env (job_in running) lease true null [] e' ≡ count count_stale e')
expired_lease_fenced_example =
    expired_lease_fenced env 9 1 5 (text "SUCCEEDED") null [] (job_in running) lease true env 7 busy
      meanwhile refl (tt, (tt, (tt, (tt, tt))))

check_passed : check_lease 9 7 1 5 busy ≡ (busy, some lease)
unfolding check_lease lookup
check_passed = refl

-- The row of the job once the watchdog has put it back into the queue.
requeued_row : get_job 7 (expire_lease env 7 busy) ≡ some (reassigned_job env.wall (job_in running))
unfolding expire_lease reassign reassigned_job persist update_job set_job enqueue count get_job
    lookup insert
requeued_row = refl

late_report_accepted_example :
    let e' = expire_lease env 7 busy in
    complete_held env lease 7 (text "SUCCEEDED") null [] e'
    ≡ (count count_stale (reported (text "SUCCEEDED") lease e'), accepted)
late_report_accepted_example =
    late_report_accepted env env 9 7 1 5 lease (text "SUCCEEDED") null []
      (reassigned_job env.wall (job_in running)) busy (expire_lease env 7 busy) [] check_passed tt
      (unfold run_events in refl) requeued_row (unfold reassigned_job in refl)

no_reason_yet : reason_of lease busy ≡ no_reason
unfolding lookup
no_reason_yet = refl

lost_cancellation_example :
    ((cancel env 7 (claim_finish 7 lease busy).0).1 ≡ ok)
    × (get_job 7 (
          record_finish env
            (job_in running)
            lease
            true
            null
            []
            (cancel env 7 (claim_finish 7 lease busy).0).0)
        ≡ some (success_row env lease null [] (job_in running)))
    × ((success_row env lease null [] (job_in running)).state ≡ succeeded)
    × ((success_row env lease null [] (job_in running)).cancel_requested ≡ false)
lost_cancellation_example =
    lost_cancellation env env 7 (job_in running) lease null [] busy
      (engine_with-Keyed (job_in running) refl) (row_found (job_in running)) refl
      (lease_held (job_in running)) no_reason_yet refl refl

worker_known : lookup 9 busy.remote_workers ≡ some worker
unfolding lookup
worker_known = refl

heartbeat_keeps_leases_example :
    expired_leases 1100 (heartbeat_worker env 9 busy).0.running ≡ others_expired 9 1100 busy.running
heartbeat_keeps_leases_example =
    heartbeat_keeps_leases env 9 1100 worker busy worker_known (omega arith)

decide_outcome_example :
    (is_valid_transition running (decide no_reason false [] (job_in running)).state ≡ true)
    × (same_state (decide no_reason false [] (job_in running)).state retrying ≡ true
        → (ltz (pos 1) (pos 3) ≡ true) × (no_reason ≢ user))
    × (no_reason ≡ no_reason
        → same_state (decide no_reason false [] (job_in running)).state succeeded ≡ false)
decide_outcome_example = decide_outcome no_reason false [] (job_in running)

submit_outcome_example :
    Submitted env request
      (engine_with (job_in queued))
      (submit env request (engine_with (job_in queued)))
submit_outcome_example = submit_outcome env request (engine_with (job_in queued))

-- Two nodes and the edge between them.
abbrev nodes : List NodeSpec
nodes =
    record { name = text "a"; request = request }
    ∷ record { name = text "b"; request = request }
    ∷ []

-- Job 8 waits for two parents, one of which is job 7.
abbrev child : Job
child = record (job_in pending) { job_id = 8; pending_deps = 2; seq = 3 }

abbrev waiting_child : Engine
waiting_child = record (engine_with (job_in succeeded)) {
  store = record (engine_with (job_in succeeded)).store { jobs = (8, child) ∷ [] };
  children = (7, 8 ∷ []) ∷ [];
  pending_deps = (8, 2) ∷ [];
}

waiting_child-Keyed : Keyed waiting_child
unfolding get_job lookup
waiting_child-Keyed k j found = ground arith

-- The same, where job 7 did not succeed.
skip_reaches_all_example :
    ((skip_walk env 7 waiting_child).frontier ≡ [])
    × (job' : Job) × (get_job 8 (skip_descendants env 7 waiting_child).0 ≡ some job')
    × (is_terminal job'.state ≡ true)
    × (false ≡ false → job'.state ≡ skipped)
unfolding children_of get_job lookup
skip_reaches_all_example =
    skip_reaches_all env waiting_child 7 8 child waiting_child-Keyed (λ k. refl)
      (Below.child 8 refl) refl

abbrev restarted : Engine
restarted = record busy { store = (release_dependents env 7 waiting_child).store }

restart_forgets_countdown_example :
    (lookup 8 (release_dependents env 7 waiting_child).pending_deps ≡ some 1)
    × ((release_dependents env 7 waiting_child).store ≡ waiting_child.store)
    × (lookup 8 (recover env restarted).0.pending_deps ≡ some 2)
unfolding children_of lookup load_non_terminal insert_row
restart_forgets_countdown_example =
    restart_forgets_countdown env env 7 8 0 child [] [] waiting_child restarted refl refl refl refl
      refl refl tt

cancelled_remote_job_example :
    let c = cancel env 7 (engine_with (job_in running)) in
    let done = complete env 9 7 1 5 (text "TIMED_OUT") null [] c.0 in
    (c.1 ≡ ok)
    × (done.1 ≡ accepted)
    × ((row : Job) × (get_job 7 done.0 ≡ some row)
        × (row.state ≡ retry_or timed_out (job_in running)))
cancelled_remote_job_example =
    cancelled_remote_job env env 7 (job_in running) lease null [] (engine_with (job_in running))
      (engine_with-Keyed (job_in running) refl) (row_found (job_in running)) refl
      (lease_held (job_in running)) refl refl

abbrev two_nodes : List Text
two_nodes = text "a" ∷ text "b" ∷ []

abbrev one_edge : List (Text × Text)
one_edge = (text "a", text "b") ∷ []

one_edge_checked : check_edges two_nodes one_edge ≡ Checked.ok ((0, 1) ∷ [])
unfolding check_edges find_from text text_eq
one_edge_checked = refl

check_edges-is_acyclic_example :
    (is_acyclic 2 ((0, 1) ∷ []) ≡ true)
    ↔ ((r : ℕ → ℕ) × All (λ (e : ℕ × ℕ). r e.0 < r e.1) ((0, 1) ∷ []))
check_edges-is_acyclic_example =
    check_edges-is_acyclic two_nodes one_edge ((0, 1) ∷ []) one_edge_checked

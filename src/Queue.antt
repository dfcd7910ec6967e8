-- ===== src/Queue.antt =====
-- `PriorityJobQueue` of src/queue/queue.cpp. A method takes the queue under its lock and returns
-- the new queue; the clock is an argument. Waiting is in Queue/Waiting.
mod Defs
pub mod Heap
pub mod Invariant
pub mod Waiting
pub mod Histories
pub mod Order
pub mod Rounds
pub mod Front
pub mod Scheduling
pub mod Capacity
pub mod Removal
unfoldable pub use Defs.*
use distributed_job_engine.Prelude.{
  ℕ, suc, ◌+◌, ◌-◌, Bool, true, false, not, ◌&&◌, Option, none, some, List, [], ◌∷◌, ◌++◌, ltb, leb,
  ◌==◌, if◌then◌else◌, ℤ, contains, discard, lookup, insert, erase, length,
}

unfoldable pub init : ℕ → Queue
init capacity = record {
  ready = [];
  delayed = [];
  index = [];
  tombstones = [];
  capacity = capacity;
  live_ready = 0;
  live_delayed = 0;
  next_seq = 1;
  pushed = 0;
  popped = 0;
  closed = false;
}

-- The entry at `loc` no longer counts: `if (live > 0) --live` on the side that holds it.
abbrev drop_live : Loc → Queue → Queue
drop_live loc q =
    if loc.delayed
    then record q { live_delayed = q.live_delayed - 1 }
    else record q { live_ready = q.live_ready - 1 }

-- The tombstone, the count and the index, for a live entry that is replaced or removed.
unfoldable pub bury : ℕ → Loc → Queue → Queue
bury job_id loc q =
    let q' = drop_live loc (record q { tombstones = loc.seq ∷ q.tombstones }) in
    record q' { index = erase job_id q'.index }

unfoldable pub replace_existing : ℕ → Queue → Queue
unfolding bury
replace_existing job_id q = elim (lookup job_id q.index) [ none ↦ q | some loc ↦ bury job_id loc q ]

-- The rest of `push`, behind its two early returns.
unfoldable pub admit : Queue → ℕ → ℤ → ℕ → ℕ → Queue
admit q job_id priority ready_at_ms now =
    let is_delayed = ltb now ready_at_ms in
    let e : QueueEntry = record {
      job_id = job_id;
      priority = priority;
      seq = q.next_seq;
      ready_at_ms = ready_at_ms;
      eligible_at_steady = if is_delayed then ready_at_ms else now;
    } in
    let q' = record q {
      next_seq = suc q.next_seq;
      pushed = suc q.pushed;
      index = insert job_id (record { seq = q.next_seq; delayed = is_delayed }) q.index;
    } in
    if is_delayed
    then record q' {
      delayed = heap_push delayed_order e q'.delayed;
      live_delayed = suc q'.live_delayed;
    }
    else record q' { ready = heap_push ready_order e q'.ready; live_ready = suc q'.live_ready }

unfoldable pub push : Queue → ℕ → ℤ → ℕ → ℕ → Queue × PushStatus
unfolding admit replace_existing
push q job_id priority ready_at_ms now =
    if q.closed
    then (q, shut)
    else if leb q.capacity (q.live_ready + q.live_delayed)
    then (q, full)
    else (admit (replace_existing job_id q) job_id priority ready_at_ms now, ok)

-- The loop of `promote_matured_locked` over the delayed heap.
abbrev mark_ready : QueueEntry → Queue → Queue
mark_ready e q = elim (lookup e.job_id q.index) [
  | none ↦ q
  | some loc ↦
      if loc.seq == e.seq
      then record q { index = insert e.job_id (record loc { delayed = false }) q.index }
      else q
]

unfoldable pub promote_entry : QueueEntry → List QueueEntry → Queue → Queue
promote_entry e rest q =
    let q' = record q { delayed = rest } in
    if contains e.seq q.tombstones
    then record q' { tombstones = discard e.seq q'.tombstones }
    else let q'' = record q' {
      live_delayed = q'.live_delayed - 1;
      live_ready = suc q'.live_ready;
    } in
      let m = mark_ready e q'' in record m { ready = heap_push ready_order e m.ready }

unfoldable pub promote_loop : ℕ → List QueueEntry → Queue → Queue
promote_loop now [] q = q
promote_loop now (e ∷ rest) q =
    let on = promote_loop now rest (promote_entry e rest q) in
    if leb e.ready_at_ms now then on else q

unfoldable pub promote_matured : ℕ → Queue → Queue
unfolding promote_loop promote_entry
promote_matured now q = promote_loop now q.delayed q

-- The loop of `take_ready_locked` over the ready heap.
abbrev forget : QueueEntry → Queue → Queue
forget e q = elim (lookup e.job_id q.index) [
  | none ↦ q
  | some loc ↦ if loc.seq == e.seq then record q { index = erase e.job_id q.index } else q
]

unfoldable pub take_entry : QueueEntry → List QueueEntry → Queue → Queue
take_entry e rest q =
    let q' = forget e (record q { ready = rest; live_ready = q.live_ready - 1 }) in
    record q' { popped = suc q'.popped }

unfoldable pub bury_entry : QueueEntry → List QueueEntry → Queue → Queue
bury_entry e rest q = record q { ready = rest; tombstones = discard e.seq q.tombstones }

unfoldable pub take_loop : List QueueEntry → Queue → Option QueueEntry × Queue
take_loop [] q = (none, q)
take_loop (e ∷ rest) q =
    let on = take_loop rest (bury_entry e rest q) in
    if contains e.seq q.tombstones then on else (some e, take_entry e rest q)

unfoldable pub take_ready : Queue → Option QueueEntry × Queue
unfolding take_loop take_entry bury_entry
take_ready q = take_loop q.ready q

unfoldable pub remove : Queue → ℕ → Queue × Bool
unfolding bury
remove q job_id = elim (lookup job_id q.index) [
  | none ↦ (q, false)
  | some loc ↦ (bury job_id loc q, true)
]

unfoldable pub close : Queue → Queue
close q = record q { closed = true }

unfoldable pub size : Queue → ℕ
size q = q.live_ready + q.live_delayed

-- One round of the loop of `pop`: promote, then take.
unfoldable pub poll : ℕ → Queue → Option QueueEntry × Queue
unfolding take_ready promote_matured
poll now q = take_ready (promote_matured now q)

-- ===== src/Queue/Invariant/Defs.antt =====
-- The invariant of the queue.
use distributed_job_engine.Prelude.{
  ℕ, ◌+◌, ◌≤◌, ◌<◌, ◌≡◌, Bool, true, false, List, some, if◌then◌else◌, contains, lookup,
}
use distributed_job_engine.Queue.Defs.{QueueEntry, Loc, Queue}
use distributed_job_engine.Queue.Heap.{occurrences, occurrences_of, live_count}

-- How often a sequence number stands in the two heaps.
abbrev pub total : ℕ → Queue → ℕ
total t q = occurrences t q.ready + occurrences t q.delayed

abbrev pub side : Bool → Queue → List QueueEntry
side d q = if d then q.delayed else q.ready

pub record Inv (q : Queue) : Type 0 where
  pub distinct : (t : ℕ) → total t q ≤ 1
  pub fresh : (t : ℕ) → q.next_seq ≤ t → total t q ≡ 0
  pub buried : (t : ℕ) → contains t q.tombstones ≡ true → total t q ≡ 1
  pub indexed :
      (id : ℕ) (loc : Loc)
      → lookup id q.index ≡ some loc
      → (contains loc.seq q.tombstones ≡ false)
        × (occurrences_of id loc.seq (side loc.delayed q) ≡ 1)
  pub known :
      (d : Bool) (id t : ℕ)
      → contains t q.tombstones ≡ false
      → 0 < occurrences_of id t (side d q)
      → lookup id q.index ≡ some (record { seq = t; delayed = d })
  pub ready_exact : q.live_ready ≡ live_count q.tombstones q.ready
  pub delayed_exact : q.live_delayed ≡ live_count q.tombstones q.delayed

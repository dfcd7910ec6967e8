-- ===== src/Queue/Invariant/Push.antt =====
-- A new entry, under a fresh sequence number and for a job that has no live entry.
use distributed_job_engine.Prelude.{
  ℕ, ◌+◌, ◌<◌, ◌≡◌, inl, inr, Bool, false, some, none, if◌then◌else◌, contains, lookup,
  lookup-insert, lookup-erase_self, arith, ◌==◌, Option-cases, ℤ, ltb,
}
use distributed_job_engine.Queue.Defs.{QueueEntry, Loc, Queue, ready_order, delayed_order}
use distributed_job_engine.Queue.Heap.{
  occurrences_of, occurrences_of-le, occurrences-heap_push, occurrences_of-heap_push,
  live_count-heap_push,
}
use distributed_job_engine.Queue.{bury, replace_existing, admit, push}
use distributed_job_engine.Queue.Invariant.Defs.{total, side, Inv}
use distributed_job_engine.Queue.Invariant.Bury.{bury-Inv}

module _ (q : Queue) (inv : Inv q) (id : ℕ) (absent : lookup id q.index ≡ none) (priority : ℤ)
    (at now : ℕ) where
  abbrev entry : QueueEntry
  entry = record {
    job_id = id;
    priority = priority;
    seq = q.next_seq;
    ready_at_ms = at;
    eligible_at_steady = if ltb now at then at else now;
  }

  abbrev after : Queue
  after = admit q id priority at now

  total-admit : (t : ℕ) → total t after ≡ (if q.next_seq == t then 1 else 0) + total t q
  unfolding admit
  total-admit t = ground (
    arith,
    occurrences-heap_push ready_order entry t q.ready,
    occurrences-heap_push delayed_order entry t q.delayed,
  )

  not_buried : contains q.next_seq q.tombstones ≡ false
  not_buried = ground (arith, inv.buried q.next_seq, inv.fresh q.next_seq)

  admit-indexed :
      (id' : ℕ) (loc : Loc)
      → lookup id' after.index ≡ some loc
      → (contains loc.seq after.tombstones ≡ false)
        × (occurrences_of id' loc.seq (side loc.delayed after) ≡ 1)
  unfolding admit
  admit-indexed id' loc h = ground (
    arith,
    lookup-insert id id' (record { seq = q.next_seq; delayed = ltb now at }) q.index,
    inv.indexed id' loc,
    not_buried,
    inv.fresh q.next_seq,
    occurrences_of-le id q.next_seq q.ready,
    occurrences_of-le id q.next_seq q.delayed,
    occurrences_of-heap_push ready_order entry id' loc.seq q.ready,
    occurrences_of-heap_push delayed_order entry id' loc.seq q.delayed,
  )

  admit-known :
      (d : Bool) (id' t : ℕ)
      → contains t after.tombstones ≡ false
      → 0 < occurrences_of id' t (side d after)
      → lookup id' after.index ≡ some (record { seq = t; delayed = d })
  unfolding admit
  admit-known d id' t h k = ground (
    arith,
    lookup-insert id id' (record { seq = q.next_seq; delayed = ltb now at }) q.index,
    inv.known d id' t,
    occurrences_of-heap_push ready_order entry id' t q.ready,
    occurrences_of-heap_push delayed_order entry id' t q.delayed,
  )

  admit-Inv : Inv after
  unfolding admit
  admit-Inv = record {
    distinct = λ t. ground (arith, total-admit t, inv.distinct t, inv.fresh t);
    fresh = λ t h. ground (arith, total-admit t, inv.fresh t);
    buried = λ t h. ground (arith, total-admit t, inv.buried t, not_buried);
    indexed = admit-indexed;
    known = admit-known;
    ready_exact = ground (
      arith,
      inv.ready_exact,
      not_buried,
      live_count-heap_push ready_order entry q.tombstones q.ready,
    );
    delayed_exact = ground (
      arith,
      inv.delayed_exact,
      not_buried,
      live_count-heap_push delayed_order entry q.tombstones q.delayed,
    );
  }

pub replace_existing-Inv : (q : Queue) (id : ℕ) → Inv q → Inv (replace_existing id q)
unfolding replace_existing
replace_existing-Inv q id inv = elim (Option-cases (lookup id q.index)) [
  | inl e ↦ rw (e, replace_existing) inv
  | inr (loc, e) ↦ rw (e, replace_existing) (bury-Inv q inv id loc e)
]

pub replace_existing-absent : (q : Queue) (id : ℕ) → lookup id (replace_existing id q).index ≡ none
unfolding replace_existing bury
replace_existing-absent q id = ground (arith, lookup-erase_self id q.index)

pub push-Inv :
    (q : Queue) (id : ℕ) (priority : ℤ) (at now : ℕ) → Inv q → Inv (push q id priority at now).0
unfolding push
push-Inv q id priority at now inv =
    let admitted =
      admit-Inv (replace_existing id q) (replace_existing-Inv q id inv) id
        (replace_existing-absent q id) priority at now in
    ground (arith, admitted)

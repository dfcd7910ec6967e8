-- ===== src/Queue/Invariant/Promote.antt =====
-- The top of the delayed heap is moved to the ready heap, or discarded with its tombstone.
use distributed_job_engine.Prelude.{
  ℕ, ◌+◌, ◌<◌, ◌≡◌, refl, ap, Bool, true, false, List, [], ◌∷◌, some, if◌then◌else◌, contains,
  contains-discard, lookup, lookup-insert, arith, ◌==◌, ◌&&◌, Bool-cases, inl, inr, leb,
}
use distributed_job_engine.Queue.Defs.{QueueEntry, Loc, Queue, ready_order}
use distributed_job_engine.Queue.Heap.{
  one_if, occurrences, occurrences_of, live_count, occurrences_of-le, live_count-discard,
  occurrences-heap_push, occurrences_of-heap_push, live_count-heap_push,
}
use distributed_job_engine.Queue.{promote_entry, promote_loop, promote_matured}
use distributed_job_engine.Queue.Invariant.Defs.{side, Inv}

module _ (q : Queue) (inv : Inv q) (e : QueueEntry) (rest : List QueueEntry)
    (top : q.delayed ≡ e ∷ rest) where
  head_total : (t : ℕ) → occurrences t q.delayed ≡ one_if (e.seq == t) + occurrences t rest
  unfolding occurrences
  head_total t = ap (occurrences t) top

  head_of :
      (id t : ℕ)
      → occurrences_of id t q.delayed
        ≡ one_if ((e.job_id == id) && (e.seq == t)) + occurrences_of id t rest
  unfolding occurrences_of
  head_of id t = ap (occurrences_of id t) top

  head_live :
      live_count q.tombstones q.delayed
      ≡ one_if (if contains e.seq q.tombstones then false else true) + live_count q.tombstones rest
  unfolding live_count
  head_live = ap (live_count q.tombstones) top

  top_alone : (occurrences e.seq rest ≡ 0) × (occurrences e.seq q.ready ≡ 0)
  top_alone = ground (arith, head_total e.seq, inv.distinct e.seq)

  module _ (dead : contains e.seq q.tombstones ≡ true) where
    dead-Inv : Inv (promote_entry e rest q)
    unfolding promote_entry
    dead-Inv = rw dead (record {
      distinct = λ t. ground (arith, inv.distinct t, head_total t);
      fresh = λ t h. ground (arith, inv.fresh t, head_total t);
      buried =
          λ t h. ground (arith, inv.buried t, head_total t, contains-discard t e.seq q.tombstones);
      indexed = λ id loc h. ground (
        arith,
        inv.indexed id loc,
        head_of id loc.seq,
        contains-discard loc.seq e.seq q.tombstones,
      );
      known = λ d id t h k. ground (
        arith,
        inv.known d id t,
        head_of id t,
        top_alone,
        contains-discard t e.seq q.tombstones,
        occurrences_of-le id t rest,
        occurrences_of-le id t q.ready,
      );
      ready_exact =
          ground (arith, inv.ready_exact, top_alone, live_count-discard e.seq q.tombstones q.ready);
      delayed_exact = ground (
        arith,
        inv.delayed_exact,
        head_live,
        top_alone,
        live_count-discard e.seq q.tombstones rest,
      );
    })

  module _ (live : contains e.seq q.tombstones ≡ false) where
    top_known : lookup e.job_id q.index ≡ some (record { seq = e.seq; delayed = true })
    top_known = ground (arith, inv.known true e.job_id e.seq, head_of e.job_id e.seq)

    move-indexed :
        (id : ℕ) (loc : Loc)
        → lookup id (promote_entry e rest q).index ≡ some loc
        → (contains loc.seq q.tombstones ≡ false)
          × (occurrences_of id loc.seq (side loc.delayed (promote_entry e rest q)) ≡ 1)
    unfolding promote_entry
    move-indexed id loc h = ground (
      arith,
      top_known,
      live,
      lookup-insert e.job_id id (record { seq = e.seq; delayed = false }) q.index,
      inv.indexed id loc,
      head_of id loc.seq,
      top_alone,
      occurrences_of-le id loc.seq q.ready,
      occurrences_of-heap_push ready_order e id loc.seq q.ready,
    )

    move-known :
        (d : Bool) (id t : ℕ)
        → contains t q.tombstones ≡ false
        → 0 < occurrences_of id t (side d (promote_entry e rest q))
        → lookup id (promote_entry e rest q).index ≡ some (record { seq = t; delayed = d })
    unfolding promote_entry
    move-known d id t h k = ground (
      arith,
      top_known,
      live,
      lookup-insert e.job_id id (record { seq = e.seq; delayed = false }) q.index,
      inv.known d id t,
      head_of id t,
      top_alone,
      occurrences_of-le id t rest,
      occurrences_of-le id t q.ready,
      occurrences_of-heap_push ready_order e id t q.ready,
    )

    move-Inv : Inv (promote_entry e rest q)
    unfolding promote_entry
    move-Inv = record {
      distinct = λ t. ground (
        arith,
        live,
        inv.distinct t,
        head_total t,
        top_known,
        occurrences-heap_push ready_order e t q.ready,
      );
      fresh = λ t h. ground (
        arith,
        live,
        inv.fresh t,
        head_total t,
        top_known,
        occurrences-heap_push ready_order e t q.ready,
      );
      buried = λ t h. ground (
        arith,
        live,
        inv.buried t,
        head_total t,
        top_known,
        occurrences-heap_push ready_order e t q.ready,
      );
      indexed = λ id loc h. ground (arith, live, move-indexed id loc, top_known);
      known = λ d id t h k. ground (arith, live, move-known d id t, top_known);
      ready_exact = ground (
        arith,
        live,
        inv.ready_exact,
        top_known,
        live_count-heap_push ready_order e q.tombstones q.ready,
      );
      delayed_exact = ground (arith, live, inv.delayed_exact, head_live, top_known);
    }

  pub promote_entry-Inv : Inv (promote_entry e rest q)
  promote_entry-Inv = elim (Bool-cases (contains e.seq q.tombstones)) [
    | inl dead ↦ dead-Inv dead
    | inr live ↦ move-Inv live
  ]

-- The delayed heap of the next round is the rest of this one.
pub delayed-promote_entry :
    (q : Queue) (e : QueueEntry) (rest : List QueueEntry) → (promote_entry e rest q).delayed ≡ rest
unfolding promote_entry
delayed-promote_entry q e rest = ground arith

pub promote_loop-Inv :
    (now : ℕ) (es : List QueueEntry) (q : Queue)
    → Inv q
    → q.delayed ≡ es
    → Inv (promote_loop now es q)
unfolding promote_loop
promote_loop-Inv now [] q inv h = inv
promote_loop-Inv now (e ∷ rest) q inv h = elim (Bool-cases (leb e.ready_at_ms now)) [
  | inl due ↦ rw due (
      promote_loop-Inv now rest (promote_entry e rest q) (promote_entry-Inv q inv e rest h)
        (delayed-promote_entry q e rest))
  | inr later ↦ rw later inv
]

pub promote_matured-Inv : (now : ℕ) (q : Queue) → Inv q → Inv (promote_matured now q)
unfolding promote_matured
promote_matured-Inv now q inv = promote_loop-Inv now q.delayed q inv refl

-- ===== src/Queue/Invariant/Take.antt =====
-- The top of the ready heap is taken, or discarded with its tombstone.
use distributed_job_engine.Prelude.{
  ℕ, ◌+◌, ◌<◌, ◌≡◌, refl, ap, Bool, true, false, List, [], ◌∷◌, some, if◌then◌else◌, contains,
  contains-discard, lookup, lookup-erase, arith, ◌==◌, ◌&&◌, Bool-cases, inl, inr,
}
use distributed_job_engine.Queue.Defs.{QueueEntry, Loc, Queue}
use distributed_job_engine.Queue.Heap.{
  one_if, occurrences, occurrences_of, live_count, occurrences_of-le, live_count-discard,
}
use distributed_job_engine.Queue.{bury_entry, take_entry, take_loop, take_ready}
use distributed_job_engine.Queue.Invariant.Defs.{side, Inv}

module _ (q : Queue) (inv : Inv q) (e : QueueEntry) (rest : List QueueEntry)
    (top : q.ready ≡ e ∷ rest) where
  head_total : (t : ℕ) → occurrences t q.ready ≡ one_if (e.seq == t) + occurrences t rest
  unfolding occurrences
  head_total t = ap (occurrences t) top

  head_of :
      (id t : ℕ)
      → occurrences_of id t q.ready
        ≡ one_if ((e.job_id == id) && (e.seq == t)) + occurrences_of id t rest
  unfolding occurrences_of
  head_of id t = ap (occurrences_of id t) top

  head_live :
      live_count q.tombstones q.ready
      ≡ one_if (if contains e.seq q.tombstones then false else true) + live_count q.tombstones rest
  unfolding live_count
  head_live = ap (live_count q.tombstones) top

  -- No other entry has the number of the top.
  top_alone : (occurrences e.seq rest ≡ 0) × (occurrences e.seq q.delayed ≡ 0)
  top_alone = ground (arith, head_total e.seq, inv.distinct e.seq)

  module _ (dead : contains e.seq q.tombstones ≡ true) where
    pub bury_entry-Inv : Inv (bury_entry e rest q)
    unfolding bury_entry
    bury_entry-Inv = record {
      distinct = λ t. ground (arith, inv.distinct t, head_total t);
      fresh = λ t h. ground (arith, inv.fresh t, head_total t);
      buried =
          λ t h. ground (arith, inv.buried t, head_total t, contains-discard t e.seq q.tombstones);
      indexed = λ id loc h. ground (
        arith,
        inv.indexed id loc,
        head_of id loc.seq,
        contains-discard loc.seq e.seq q.tombstones,
      );
      known = λ d id t h k. ground (
        arith,
        inv.known d id t,
        head_of id t,
        top_alone,
        contains-discard t e.seq q.tombstones,
        occurrences_of-le id t rest,
        occurrences_of-le id t q.delayed,
      );
      ready_exact = ground (
        arith,
        inv.ready_exact,
        head_live,
        top_alone,
        live_count-discard e.seq q.tombstones rest,
      );
      delayed_exact =
          ground
            (arith, inv.delayed_exact, top_alone, live_count-discard e.seq q.tombstones q.delayed);
    }

  module _ (live : contains e.seq q.tombstones ≡ false) where
    pub top_known : lookup e.job_id q.index ≡ some (record { seq = e.seq; delayed = false })
    top_known = ground (arith, inv.known false e.job_id e.seq, head_of e.job_id e.seq)

    take-indexed :
        (id : ℕ) (loc : Loc)
        → lookup id (take_entry e rest q).index ≡ some loc
        → (contains loc.seq q.tombstones ≡ false)
          × (occurrences_of id loc.seq (side loc.delayed (take_entry e rest q)) ≡ 1)
    unfolding take_entry
    take-indexed id loc h =
        ground (
          arith,
          top_known,
          lookup-erase e.job_id id q.index,
          inv.indexed id loc,
          head_of id loc.seq,
        )

    take-known :
        (d : Bool) (id t : ℕ)
        → contains t q.tombstones ≡ false
        → 0 < occurrences_of id t (side d (take_entry e rest q))
        → lookup id (take_entry e rest q).index ≡ some (record { seq = t; delayed = d })
    unfolding take_entry
    take-known d id t h k = ground (
      arith,
      top_known,
      lookup-erase e.job_id id q.index,
      inv.known d id t,
      head_of id t,
      top_alone,
      occurrences_of-le id t rest,
      occurrences_of-le id t q.delayed,
    )

    pub take_entry-Inv : Inv (take_entry e rest q)
    unfolding take_entry
    take_entry-Inv = record {
      distinct = λ t. ground (arith, inv.distinct t, head_total t, top_known);
      fresh = λ t h. ground (arith, inv.fresh t, head_total t, top_known);
      buried = λ t h. ground (arith, inv.buried t, head_total t, live, top_known);
      indexed = λ id loc h. ground (arith, take-indexed id loc, top_known);
      known = λ d id t h k. ground (arith, take-known d id t, top_known);
      ready_exact = ground (arith, inv.ready_exact, head_live, top_known);
      delayed_exact = ground (arith, inv.delayed_exact, top_known);
    }

pub take_loop-Inv :
    (es : List QueueEntry) (q : Queue) → Inv q → q.ready ≡ es → Inv (take_loop es q).1
unfolding take_loop bury_entry
take_loop-Inv [] q inv h = inv
take_loop-Inv (e ∷ rest) q inv h = elim (Bool-cases (contains e.seq q.tombstones)) [
  | inl dead ↦
      rw dead (take_loop-Inv rest (bury_entry e rest q) (bury_entry-Inv q inv e rest h dead) refl)
  | inr live ↦ rw live (take_entry-Inv q inv e rest h live)
]

pub take_ready-Inv : (q : Queue) → Inv q → Inv (take_ready q).1
unfolding take_ready
take_ready-Inv q inv = take_loop-Inv q.ready q inv refl

-- ===== src/Queue/Invariant/Bury.antt =====
-- A live entry that is tombstoned and taken out of the index.
use distributed_job_engine.Prelude.{
  ℕ, ◌<◌, ◌≡◌, Bool, true, false, some, if◌then◌else◌, contains, lookup, lookup-erase, arith,
}
use distributed_job_engine.Queue.Defs.{Loc, Queue}
use distributed_job_engine.Queue.Heap.{
  occurrences, occurrences_of, occurrences_of-le, occurrences_of_two, live_count-cons,
}
use distributed_job_engine.Queue.{bury}
use distributed_job_engine.Queue.Invariant.Defs.{side, Inv}

module _ (q : Queue) (inv : Inv q) (id : ℕ) (loc : Loc) (found : lookup id q.index ≡ some loc) where
  pub loc_live :
      (contains loc.seq q.tombstones ≡ false)
      × (occurrences loc.seq (side loc.delayed q) ≡ 1)
      × (occurrences loc.seq (side (if loc.delayed then false else true) q) ≡ 0)
  loc_live = ground (
    arith,
    inv.indexed id loc found,
    inv.distinct loc.seq,
    occurrences_of-le id loc.seq (side loc.delayed q),
  )

  bury-indexed :
      (id' : ℕ) (loc' : Loc)
      → lookup id' (bury id loc q).index ≡ some loc'
      → (contains loc'.seq (bury id loc q).tombstones ≡ false)
        × (occurrences_of id' loc'.seq (side loc'.delayed (bury id loc q)) ≡ 1)
  unfolding bury
  bury-indexed id' loc' h = ground (
    arith,
    lookup-erase id id' q.index,
    inv.indexed id' loc',
    inv.indexed id loc found,
    inv.distinct loc.seq,
    occurrences_of_two id id' loc.seq q.ready,
    occurrences_of_two id id' loc.seq q.delayed,
    occurrences_of-le id loc.seq q.ready,
    occurrences_of-le id loc.seq q.delayed,
    occurrences_of-le id' loc.seq q.ready,
    occurrences_of-le id' loc.seq q.delayed,
  )

  bury-known :
      (d : Bool) (id' t : ℕ)
      → contains t (bury id loc q).tombstones ≡ false
      → 0 < occurrences_of id' t (side d (bury id loc q))
      → lookup id' (bury id loc q).index ≡ some (record { seq = t; delayed = d })
  unfolding bury
  bury-known d id' t h k = ground (arith, lookup-erase id id' q.index, inv.known d id' t)

  pub bury-Inv : Inv (bury id loc q)
  unfolding bury
  bury-Inv = record {
    distinct = λ t. ground (arith, inv.distinct t);
    fresh = λ t h. ground (arith, inv.fresh t);
    buried = λ t h. ground (arith, inv.buried t, loc_live);
    indexed = bury-indexed;
    known = bury-known;
    ready_exact =
        ground (arith, inv.ready_exact, loc_live, live_count-cons loc.seq q.tombstones q.ready);
    delayed_exact =
        ground (arith, inv.delayed_exact, loc_live, live_count-cons loc.seq q.tombstones q.delayed);
  }

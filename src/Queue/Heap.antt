-- ===== src/Queue/Heap.antt =====
-- Counting the entries of a heap: by sequence number, by job and sequence number, and those that
-- are not tombstoned; and what a push, a tombstone and a discarded tombstone do to the counts.
use distributed_job_engine.Prelude.{
  ℕ, ◌+◌, ◌≤◌, ◌≡◌, ◌≢◌, refl, Bool, true, false, List, [], ◌∷◌, ◌==◌, ◌&&◌, if◌then◌else◌,
  contains, discard, contains-discard, arith,
}
use distributed_job_engine.Queue.Defs.{QueueEntry, heap_push}

abbrev pub one_if : Bool → ℕ
one_if b = if b then 1 else 0

unfoldable pub occurrences : ℕ → List QueueEntry → ℕ
occurrences t [] = 0
occurrences t (e ∷ es) = one_if (e.seq == t) + occurrences t es

unfoldable pub occurrences_of : ℕ → ℕ → List QueueEntry → ℕ
occurrences_of id t [] = 0
occurrences_of id t (e ∷ es) = one_if ((e.job_id == id) && (e.seq == t)) + occurrences_of id t es

unfoldable pub live_count : List ℕ → List QueueEntry → ℕ
live_count ts [] = 0
live_count ts (e ∷ es) = one_if (if contains e.seq ts then false else true) + live_count ts es

module _ (less : QueueEntry → QueueEntry → Bool) (e : QueueEntry) where
  pub occurrences-heap_push :
      (t : ℕ) (es : List QueueEntry)
      → occurrences t (heap_push less e es) ≡ one_if (e.seq == t) + occurrences t es
  unfolding occurrences heap_push
  occurrences-heap_push t [] = refl
  occurrences-heap_push t (x ∷ es) = ground (arith, occurrences-heap_push t es)

  pub occurrences_of-heap_push :
      (id t : ℕ) (es : List QueueEntry)
      → occurrences_of id t (heap_push less e es)
        ≡ one_if ((e.job_id == id) && (e.seq == t)) + occurrences_of id t es
  unfolding occurrences_of heap_push
  occurrences_of-heap_push id t [] = refl
  occurrences_of-heap_push id t (x ∷ es) = ground (arith, occurrences_of-heap_push id t es)

  pub live_count-heap_push :
      (ts : List ℕ) (es : List QueueEntry)
      → live_count ts (heap_push less e es)
        ≡ one_if (if contains e.seq ts then false else true) + live_count ts es
  unfolding live_count heap_push
  live_count-heap_push ts [] = refl
  live_count-heap_push ts (x ∷ es) = ground (arith, live_count-heap_push ts es)

pub occurrences_of-le :
    (id t : ℕ) (es : List QueueEntry) → occurrences_of id t es ≤ occurrences t es
unfolding occurrences occurrences_of
occurrences_of-le id t [] = omega arith
occurrences_of-le id t (e ∷ es) = ground (arith, occurrences_of-le id t es)

-- Two jobs do not share an entry.
pub occurrences_of_two :
    (id id' t : ℕ) (es : List QueueEntry)
    → id ≢ id'
    → occurrences_of id t es + occurrences_of id' t es ≤ occurrences t es
unfolding occurrences occurrences_of
occurrences_of_two id id' t [] ne = omega arith
occurrences_of_two id id' t (e ∷ es) ne = ground (arith, occurrences_of_two id id' t es ne)

-- A new tombstone takes the entries of its number out of the count.
pub live_count-cons :
    (t : ℕ) (ts : List ℕ) (es : List QueueEntry)
    → contains t ts ≡ false
    → live_count (t ∷ ts) es + occurrences t es ≡ live_count ts es
unfolding live_count occurrences
live_count-cons t ts [] h = refl
live_count-cons t ts (e ∷ es) h = ground (arith, live_count-cons t ts es h)

pub live_count-discard :
    (t : ℕ) (ts : List ℕ) (es : List QueueEntry)
    → occurrences t es ≡ 0
    → live_count (discard t ts) es ≡ live_count ts es
unfolding live_count occurrences
live_count-discard t ts [] h = refl
live_count-discard t ts (e ∷ es) h =
    ground (arith, live_count-discard t ts es, contains-discard e.seq t ts)

-- ===== src/Queue/Front.antt =====
-- Which entry `poll` gives, against the queue before the poll: the loops of `promote_matured_locked`
-- and `take_ready_locked` of src/queue/queue.cpp skip tombstoned entries only.
use distributed_job_engine.Prelude.{
  ℕ, ◌≤◌, ◌<◌, ◌≡◌, refl, sym, subst, ap, ◌⊎◌, inl, inr, Bool, true, false, List, [], ◌∷◌, Option,
  some, none, if◌then◌else◌, contains, contains-discard, discard, ◌==◌, arith, ltz, eqz, leb, All,
  Bool-cases,
}
use distributed_job_engine.Queue.{
  QueueEntry, Queue, bury_entry, take_loop, promote_entry, promote_loop, ready_order, delayed_order,
  heap_push,
}
use distributed_job_engine.Queue.Heap.{occurrences}
use distributed_job_engine.Queue.Invariant.{
  Inv, bury_entry-Inv, promote_entry-Inv, delayed-promote_entry,
}
use distributed_job_engine.Queue.Order.{Sorted, IsOrdered, All-map}
use distributed_job_engine.Queue.Rounds.{Later, promote_entry-IsOrdered, not_due}

-- `e` has a higher priority than `x`, or the same and was pushed no later.
abbrev pub Precedes : QueueEntry → QueueEntry → Type 0
Precedes e x =
    (ltz x.priority e.priority ≡ true) ⊎ ((eqz x.priority e.priority ≡ true) × (e.seq ≤ x.seq))

-- Replaced or removed.
abbrev pub Dead : Queue → QueueEntry → Type 0
Dead q x = contains x.seq q.tombstones ≡ true

abbrev pub Live : Queue → QueueEntry → Type 0
Live q x = contains x.seq q.tombstones ≡ false

abbrev pub Among : QueueEntry → List QueueEntry → Type 0
Among e [] = ⊥
Among e (x ∷ xs) = (e ≡ x) ⊎ Among e xs

-- `e` waits in the queue and may be given at time `now`.
abbrev pub Due : ℕ → Queue → QueueEntry → Type 0
Due now q e = Live q e × (Among e q.ready ⊎ (Among e q.delayed × (e.ready_at_ms ≤ now)))

-- Every live entry of the ready heap has `P`.
abbrev pub Ready : (QueueEntry → Type 0) → Queue → Type 0
Ready P q = All (λ x. Dead q x ⊎ P x) q.ready

-- Every live entry that is due has `P`.
abbrev pub AllDue : ℕ → (QueueEntry → Type 0) → Queue → Type 0
AllDue now P q = Ready P q × All (λ x. Later now x ⊎ (Dead q x ⊎ P x)) q.delayed

Among-occurrences : (e : QueueEntry) (xs : List QueueEntry) → Among e xs → 0 < occurrences e.seq xs
unfolding occurrences
Among-occurrences e [] h = absurd h
Among-occurrences e (x ∷ xs) (inl same) = rw same (ground arith)
Among-occurrences e (x ∷ xs) (inr more) = ground (arith, Among-occurrences e xs more)

Among-heap_push :
    (less : QueueEntry → QueueEntry → Bool) (f e : QueueEntry) (es : List QueueEntry)
    → Among f (heap_push less e es)
    → (f ≡ e) ⊎ Among f es
unfolding heap_push
Among-heap_push less f e [] h = h
Among-heap_push less f e (x ∷ es) h = elim (Bool-cases (less e x)) [
  | inl later ↦
      elim (subst (λ (b : Bool). Among f (if b then x ∷ heap_push less e es else e ∷ x ∷ es)) later
        h) [
          | inl first ↦ inr (inl first)
          | inr more ↦ elim (Among-heap_push less f e es more) [
            | inl same ↦ inl same
            | inr old ↦ inr (inr old)
          ]
        ]
  | inr front ↦
      subst (λ (b : Bool). Among f (if b then x ∷ heap_push less e es else e ∷ x ∷ es)) front h
]

All-heap_push_inv :
    (P : QueueEntry → Type 0) (less : QueueEntry → QueueEntry → Bool) (e : QueueEntry)
    (es : List QueueEntry)
    → All P (heap_push less e es)
    → P e × All P es
unfolding heap_push
All-heap_push_inv P less e [] h = h
All-heap_push_inv P less e (x ∷ es) h = elim (Bool-cases (less e x)) [
  | inl later ↦
      let h' =
        subst (λ (b : Bool). All P (if b then x ∷ heap_push less e es else e ∷ x ∷ es)) later h in
      let rest = All-heap_push_inv P less e es h'.1 in (rest.0, (h'.0, rest.1))
  | inr front ↦
      subst (λ (b : Bool). All P (if b then x ∷ heap_push less e es else e ∷ x ∷ es)) front h
]

-- What a discarded tombstone does to another entry.
contains-discard_old :
    (t s : ℕ) (ts : List ℕ) → contains t (discard s ts) ≡ true → contains t ts ≡ true
contains-discard_old t s ts h = ground (arith, contains-discard t s ts)

still-Live :
    (t s : ℕ) (ts : List ℕ)
    → (s == t) ≡ false
    → contains t (discard s ts) ≡ false
    → contains t ts ≡ false
still-Live t s ts ne h = ground (arith, contains-discard t s ts)

before-Dead :
    (P : QueueEntry → Type 0) (s : ℕ) (ts : List ℕ) (x : QueueEntry)
    → (contains x.seq (discard s ts) ≡ true) ⊎ P x
    → (contains x.seq ts ≡ true) ⊎ P x
before-Dead P s ts x (inl dead) = inl (contains-discard_old x.seq s ts dead)
before-Dead P s ts x (inr p) = inr p

-- What the loop of `take_ready_locked` gives: the first live entry of the ready heap.
abbrev pub First : Queue → Option QueueEntry → Type 0
First q none = Ready (λ x. ⊥) q
First q (some e) = Live q e × Among e q.ready × Ready (Precedes e) q

top-First :
    (e : QueueEntry) (rest : List QueueEntry) (q : Queue)
    → q.ready ≡ e ∷ rest
    → Live q e
    → All (λ y. ready_order e y ≡ false) rest
    → First q (some e)
unfolding ready_order
top-First e rest q h live sorted = (
  live,
  subst (Among e) (sym h) (inl refl),
  subst (All (λ x. Dead q x ⊎ Precedes e x)) (sym h) (
    inr (ground arith),
    All-map (λ y. ready_order e y ≡ false) (λ x. Dead q x ⊎ Precedes e x) rest
        (λ y k. inr (ground arith)) sorted,
  ),
)

apart :
    (q : Queue) (e f : QueueEntry) (rest : List QueueEntry)
    → Inv q
    → q.ready ≡ e ∷ rest
    → Among f rest
    → (e.seq == f.seq) ≡ false
unfolding occurrences
apart q e f rest inv h in_rest =
    let count : occurrences f.seq q.ready ≡ occurrences f.seq (e ∷ rest) =
      ap (occurrences f.seq) h in
    ground (arith, inv.distinct f.seq, count, Among-occurrences f rest in_rest)

past-Dead :
    (e : QueueEntry) (rest : List QueueEntry) (q : Queue) (o : Option QueueEntry)
    → Inv q
    → q.ready ≡ e ∷ rest
    → Dead q e
    → First (bury_entry e rest q) o
    → First q o
unfolding bury_entry
past-Dead e rest q none inv h dead all =
    subst (All (λ x. Dead q x ⊎ ⊥)) (sym h)
      (inl dead, All-map _ (λ x. Dead q x ⊎ ⊥) rest (before-Dead (λ x. ⊥) e.seq q.tombstones) all)
past-Dead e rest q (some f) inv h dead (live, among, all) = (
  still-Live f.seq e.seq q.tombstones (apart q e f rest inv h among) live,
  subst (Among f) (sym h) (inr among),
  subst (All (λ x. Dead q x ⊎ Precedes f x)) (sym h) (
    inl dead,
    All-map _ (λ x. Dead q x ⊎ Precedes f x) rest (before-Dead (Precedes f) e.seq q.tombstones) all,
  ),
)

pub take_loop-First :
    (es : List QueueEntry) (q : Queue)
    → Inv q
    → q.ready ≡ es
    → Sorted ready_order es
    → First q (take_loop es q).0
unfolding take_loop bury_entry
take_loop-First [] q inv h s = subst (All (λ x. Dead q x ⊎ ⊥)) (sym h) tt
take_loop-First (e ∷ rest) q inv h s = elim (Bool-cases (contains e.seq q.tombstones)) [
  | inl dead ↦ rw dead (
      past-Dead e rest q _ inv h dead
        (take_loop-First rest (bury_entry e rest q) (bury_entry-Inv q inv e rest h dead) refl s.1))
  | inr live ↦ rw live (top-First e rest q h live s.0)
]

-- What is due after a promotion was due before it, and the other way round.
module _ (now : ℕ) (q : Queue) (inv : Inv q) (e : QueueEntry) (rest : List QueueEntry)
    (top : q.delayed ≡ e ∷ rest) (ripe : e.ready_at_ms ≤ now) where
  other :
      (f : QueueEntry)
      → Dead q e
      → Among f q.ready ⊎ (Among f rest × (f.ready_at_ms ≤ now))
      → (e.seq == f.seq) ≡ false
  unfolding occurrences
  other f dead (inl here) =
      let count : occurrences f.seq q.delayed ≡ occurrences f.seq (e ∷ rest) =
        ap (occurrences f.seq) top in
      ground (arith, inv.distinct f.seq, count, Among-occurrences f q.ready here)
  other f dead (inr (later, when)) =
      let count : occurrences f.seq q.delayed ≡ occurrences f.seq (e ∷ rest) =
        ap (occurrences f.seq) top in
      ground (arith, inv.distinct f.seq, count, Among-occurrences f rest later)

  waited :
      (f : QueueEntry)
      → Among f q.ready ⊎ (Among f rest × (f.ready_at_ms ≤ now))
      → Among f q.ready ⊎ (Among f q.delayed × (f.ready_at_ms ≤ now))
  waited f (inl here) = inl here
  waited f (inr (later, when)) = inr (subst (Among f) (sym top) (inr later), when)

  promoted-Live :
      Live q e
      → ((promote_entry e rest q).tombstones ≡ q.tombstones)
        × ((promote_entry e rest q).ready ≡ heap_push ready_order e q.ready)
  unfolding promote_entry
  promoted-Live live = ground (arith, live)

  promoted-Dead :
      Dead q e
      → ((promote_entry e rest q).tombstones ≡ discard e.seq q.tombstones)
        × ((promote_entry e rest q).ready ≡ q.ready)
  unfolding promote_entry
  promoted-Dead dead = ground (arith, dead)

  moved : (f : QueueEntry) → Live q e → Live q f → (f ≡ e) ⊎ Among f q.ready → Due now q f
  moved f live_e live (inl same) = (
    live,
    inr (subst (Among f) (sym top) (inl same), subst (λ x. x.ready_at_ms ≤ now) (sym same) ripe),
  )
  moved f live_e live (inr here) = (live, inl here)

  promote_entry-Due : (f : QueueEntry) → Due now (promote_entry e rest q) f → Due now q f
  promote_entry-Due f (live, at) =
      let rest_only = delayed-promote_entry q e rest in
      elim (Bool-cases (contains e.seq q.tombstones)) [
        | inl dead ↦
            let (ts, rs) = promoted-Dead dead in
            let at' : Among f q.ready ⊎ (Among f rest × (f.ready_at_ms ≤ now)) = elim at [
              | inl here ↦ inl (subst (Among f) rs here)
              | inr (later, when) ↦ inr (subst (Among f) rest_only later, when)
            ] in
            (
              still-Live f.seq e.seq q.tombstones (other f dead at')
                  (subst (λ us. contains f.seq us ≡ false) ts live),
              waited f at',
            )
        | inr live_e ↦
            let (ts, rs) = promoted-Live live_e in
            let live' : Live q f = subst (λ us. contains f.seq us ≡ false) ts live in
            elim at [
              | inl here ↦
                  moved f live_e live'
                    (Among-heap_push ready_order f e q.ready (subst (Among f) rs here))
              | inr (later, when) ↦ (live', waited f (inr (subst (Among f) rest_only later, when)))
            ]
      ]

  module _ (P : QueueEntry → Type 0) where
    weaken :
        (x : QueueEntry)
        → Later now x ⊎ ((contains x.seq (discard e.seq q.tombstones) ≡ true) ⊎ P x)
        → Later now x ⊎ (Dead q x ⊎ P x)
    weaken x (inl later) = inl later
    weaken x (inr h) = inr (before-Dead P e.seq q.tombstones x h)

    promote_entry-AllDue : AllDue now P (promote_entry e rest q) → AllDue now P q
    promote_entry-AllDue (here, later) =
        let q1 = promote_entry e rest q in
        let back = delayed-promote_entry q e rest in
        elim (Bool-cases (contains e.seq q.tombstones)) [
          | inl dead ↦
              let (ts, rs) = promoted-Dead dead in
              let here' =
                subst (λ us. All (λ x. (contains x.seq us ≡ true) ⊎ P x) q1.ready) ts here in
              let later' =
                subst (λ us. All (λ x. Later now x ⊎ ((contains x.seq us ≡ true) ⊎ P x)) q1.delayed)
                  ts later in
              (
                All-map _ (λ x. Dead q x ⊎ P x) q.ready (before-Dead P e.seq q.tombstones)
                    (subst (All _) rs here'),
                subst (All (λ x. Later now x ⊎ (Dead q x ⊎ P x))) (sym top) (
                  inr (inl dead),
                  All-map _ (λ x. Later now x ⊎ (Dead q x ⊎ P x)) rest weaken
                      (subst (All _) back later'),
                ),
              )
          | inr live ↦
              let (ts, rs) = promoted-Live live in
              let here' =
                subst (λ us. All (λ x. (contains x.seq us ≡ true) ⊎ P x) q1.ready) ts here in
              let later' =
                subst (λ us. All (λ x. Later now x ⊎ ((contains x.seq us ≡ true) ⊎ P x)) q1.delayed)
                  ts later in
              let split =
                All-heap_push_inv (λ x. Dead q x ⊎ P x) ready_order e q.ready
                  (subst (All (λ x. Dead q x ⊎ P x)) rs here') in
              (
                split.1,
                subst (All (λ x. Later now x ⊎ (Dead q x ⊎ P x))) (sym top)
                    (inr split.0, subst (All (λ x. Later now x ⊎ (Dead q x ⊎ P x))) back later'),
              )
        ]

-- Promotion changes nothing of what is due.
pub promote_loop-Due :
    (now : ℕ) (es : List QueueEntry) (q : Queue)
    → Inv q
    → IsOrdered q
    → q.delayed ≡ es
    → ((f : QueueEntry)
        → Live (promote_loop now es q) f
        → Among f (promote_loop now es q).ready
        → Due now q f)
      × ((P : QueueEntry → Type 0) → Ready P (promote_loop now es q) → AllDue now P q)
unfolding promote_loop
promote_loop-Due now [] q inv o h =
    (λ f live here. (live, inl here), λ P all. (all, subst (All _) (sym h) tt))
promote_loop-Due now (e ∷ rest) q inv o h = elim (Bool-cases (leb e.ready_at_ms now)) [
  | inl due ↦
      let ripe : e.ready_at_ms ≤ now = ground (arith, due) in
      let on =
        promote_loop-Due now rest (promote_entry e rest q) (promote_entry-Inv q inv e rest h)
          (promote_entry-IsOrdered q e rest h o) (delayed-promote_entry q e rest) in
      rw due (
        λ f live here. promote_entry-Due now q inv e rest h ripe f (on.0 f live here),
        λ P all. promote_entry-AllDue now q inv e rest h ripe P (on.1 P all),
      )
  | inr later ↦ rw later (
    λ f live here. (live, inl here),
    λ P all. (
      all,
      subst (All (λ x. Later now x ⊎ (Dead q x ⊎ P x))) (sym h) (
        inl (ground arith),
        All-map (Later now) (λ x. Later now x ⊎ (Dead q x ⊎ P x)) rest (λ x k. inl k)
            (not_due now e rest later (subst (Sorted delayed_order) h o.delayed_sorted).0),
      ),
    ),
  )
]

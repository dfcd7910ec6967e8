-- ===== src/Queue/Rounds.antt =====
-- What a round of the waiting loop does to the orders: promotion, then the top of the ready heap.
use distributed_job_engine.Prelude.{
  ℕ, ◌<◌, ◌≡◌, refl, sym, subst, if_cases, ◌⊎◌, inl, inr, false, List, [], ◌∷◌, Option, some, none,
  contains, arith, leb, All,
}
use distributed_job_engine.Queue.{
  QueueEntry, Queue, remove, close, poll, promote_entry, promote_loop, promote_matured, take_entry,
  bury_entry, take_loop, take_ready, ready_order, delayed_order, heap_push,
}
use distributed_job_engine.Queue.Invariant.{delayed-promote_entry}
use distributed_job_engine.Queue.Waiting.{Call, pushes, removes, polls, closes, step, run}
use distributed_job_engine.Queue.Order.{
  Sorted, IsOrdered, All-map, heap_push-Sorted, ready_order-IsOrder, push-IsOrdered, remove_heaps,
  same_heaps,
}

promote_entry_ready :
    (q : Queue) (e : QueueEntry) (rest : List QueueEntry)
    → ((promote_entry e rest q).ready ≡ q.ready)
      ⊎ ((promote_entry e rest q).ready ≡ heap_push ready_order e q.ready)
unfolding promote_entry
promote_entry_ready q e rest = ground arith

pub promote_entry-IsOrdered :
    (q : Queue) (e : QueueEntry) (rest : List QueueEntry)
    → q.delayed ≡ e ∷ rest
    → IsOrdered q
    → IsOrdered (promote_entry e rest q)
promote_entry-IsOrdered q e rest h o = record {
  ready_sorted = elim (promote_entry_ready q e rest) [
    | inl same ↦ subst (Sorted ready_order) (sym same) o.ready_sorted
    | inr more ↦
        subst (Sorted ready_order) (sym more)
          (heap_push-Sorted ready_order ready_order-IsOrder e q.ready o.ready_sorted)
  ];
  delayed_sorted =
      subst (Sorted delayed_order) (sym (delayed-promote_entry q e rest))
        (subst (Sorted delayed_order) h o.delayed_sorted).1;
}

-- Promotion keeps the orders, and what stays in the delayed heap matures later.
abbrev pub Later : ℕ → QueueEntry → Type 0
Later now e = now < e.ready_at_ms

pub not_due :
    (now : ℕ) (e : QueueEntry) (es : List QueueEntry)
    → leb e.ready_at_ms now ≡ false
    → All (λ y. delayed_order e y ≡ false) es
    → All (Later now) es
unfolding delayed_order
not_due now e es h s =
    All-map (λ y. delayed_order e y ≡ false) (Later now) es (λ y k. ground arith) s

pub promote_loop-IsOrdered :
    (now : ℕ) (es : List QueueEntry) (q : Queue)
    → q.delayed ≡ es
    → IsOrdered q
    → IsOrdered (promote_loop now es q) × All (Later now) (promote_loop now es q).delayed
unfolding promote_loop
promote_loop-IsOrdered now [] q h o = (o, subst (All (Later now)) (sym h) tt)
promote_loop-IsOrdered now (e ∷ rest) q h o =
    if_cases (λ r. IsOrdered r × All (Later now) r.delayed) (leb e.ready_at_ms now) _ _
      (λ _.
        promote_loop-IsOrdered now rest (promote_entry e rest q) (delayed-promote_entry q e rest)
          (promote_entry-IsOrdered q e rest h o))
      (λ later. (
        o,
        subst (All (Later now)) (sym h) (
          ground arith,
          not_due now e rest later (subst (Sorted delayed_order) h o.delayed_sorted).0,
        ),
      ))

-- `e` is not popped later than any entry of the list.
abbrev pub Top : QueueEntry → List QueueEntry → Type 0
Top e = All (λ y. ready_order e y ≡ false)

abbrev pub Taken : Option QueueEntry × Queue → Type 0
Taken (none, q) = q.ready ≡ []
Taken (some e, q) = Top e q.ready

take_entry_heaps :
    (e : QueueEntry) (rest : List QueueEntry) (q : Queue)
    → ((take_entry e rest q).ready ≡ rest) × ((take_entry e rest q).delayed ≡ q.delayed)
unfolding take_entry
take_entry_heaps e rest q = ground arith

pub take_loop-IsOrdered :
    (es : List QueueEntry) (q : Queue)
    → q.ready ≡ es
    → IsOrdered q
    → IsOrdered (take_loop es q).1
      × Taken (take_loop es q)
      × ((take_loop es q).1.delayed ≡ q.delayed)
unfolding take_loop bury_entry
take_loop-IsOrdered [] q h o = (o, h, refl)
take_loop-IsOrdered (e ∷ rest) q h o =
    let s = subst (Sorted ready_order) h o.ready_sorted in
    let (r, d) = take_entry_heaps e rest q in
    if_cases (λ t. IsOrdered t.1 × Taken t × (t.1.delayed ≡ q.delayed))
      (contains e.seq q.tombstones) _ _
      (λ _.
        take_loop-IsOrdered rest (bury_entry e rest q) refl
          (record { ready_sorted = s.1; delayed_sorted = o.delayed_sorted }))
      (λ _. (
        record {
          ready_sorted = subst (Sorted ready_order) (sym r) s.1;
          delayed_sorted = subst (Sorted delayed_order) (sym d) o.delayed_sorted;
        },
        subst (Top e) (sym r) s.0,
        d,
      ))

pub poll-IsOrdered :
    (now : ℕ) (q : Queue)
    → IsOrdered q
    → IsOrdered (poll now q).1 × Taken (poll now q) × All (Later now) (poll now q).1.delayed
unfolding poll promote_matured take_ready
poll-IsOrdered now q o =
    let p = promote_loop-IsOrdered now q.delayed q refl o in
    let t = take_loop-IsOrdered (promote_matured now q).ready (promote_matured now q) refl p.0 in
    (t.0, t.1, subst (All (Later now)) (sym t.2) p.1)

step-IsOrdered : (q : Queue) (c : Call) → IsOrdered q → IsOrdered (step q c)
unfolding step close
step-IsOrdered q (pushes id priority at now) o = push-IsOrdered q id priority at now o
step-IsOrdered q (removes id) o =
    let (r, d) = remove_heaps q id in same_heaps q (remove q id).0 r d o
step-IsOrdered q (polls now) o = (poll-IsOrdered now q o).0
step-IsOrdered q closes o = record {
  ready_sorted = o.ready_sorted;
  delayed_sorted = o.delayed_sorted;
}

pub run-IsOrdered : (q : Queue) (cs : List Call) → IsOrdered q → IsOrdered (run q cs)
unfolding run
run-IsOrdered q [] o = o
run-IsOrdered q (c ∷ cs) o = run-IsOrdered (step q c) cs (step-IsOrdered q c o)

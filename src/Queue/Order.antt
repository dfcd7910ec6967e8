-- ===== src/Queue/Order.antt =====
-- The heaps stay in their orders, so that a poll gives the entry that is due first.
use distributed_job_engine.Prelude.{
  ℕ, ◌+◌, ◌≡◌, sym, subst, if_cases, inl, inr, Bool, true, false, List, [], ◌∷◌, arith, leb, ltb,
  Bool-cases, ℤ, All,
}
use distributed_job_engine.Queue.{
  QueueEntry, Queue, PushStatus, push, remove, bury, replace_existing, admit, ready_order,
  delayed_order, heap_push,
}

abbrev pub Less : Type 0
Less = QueueEntry → QueueEntry → Bool

pub All-map {ℓ κ μ} :
    {A : Type ℓ} (P : A → Type κ) (Q : A → Type μ) (xs : List A)
    → ((x : A) → P x → Q x)
    → All P xs
    → All Q xs
All-map P Q [] f h = tt
All-map P Q (x ∷ xs) f h = (f x h.0, All-map P Q xs f h.1)

pub All-heap_push {κ} :
    (P : QueueEntry → Type κ) (less : Less) (e : QueueEntry) (es : List QueueEntry)
    → P e
    → All P es
    → All P (heap_push less e es)
unfolding heap_push
All-heap_push P less e [] p h = (p, tt)
All-heap_push P less e (x ∷ es) p h = elim (Bool-cases (less e x)) [
  | inl later ↦ rw later (h.0, All-heap_push P less e es p h.1)
  | inr first ↦ rw first (p, h)
]

-- No entry of the list is popped before the ones in front of it.
abbrev pub Sorted : Less → List QueueEntry → Type 0
Sorted less [] = Unit {0}
Sorted less (x ∷ xs) = All (λ y. less x y ≡ false) xs × Sorted less xs

pub record IsOrder (less : Less) : Type 0 where
  pub asym : (a b : QueueEntry) → less a b ≡ true → less b a ≡ false
  pub negative_trans : (a b c : QueueEntry) → less a b ≡ false → less b c ≡ false → less a c ≡ false

pub ready_order-IsOrder : IsOrder ready_order
unfolding ready_order
ready_order-IsOrder = record {
  asym = λ a b h. ground arith;
  negative_trans = λ a b c h k. ground arith;
}

pub delayed_order-IsOrder : IsOrder delayed_order
unfolding delayed_order
delayed_order-IsOrder = record {
  asym = λ a b h. ground arith;
  negative_trans = λ a b c h k. ground arith;
}

pub heap_push-Sorted :
    (less : Less) (o : IsOrder less) (e : QueueEntry) (es : List QueueEntry)
    → Sorted less es
    → Sorted less (heap_push less e es)
unfolding heap_push
heap_push-Sorted less o e [] s = (tt, tt)
heap_push-Sorted less o e (x ∷ es) s = elim (Bool-cases (less e x)) [
  | inl later ↦ rw later (
    All-heap_push (λ y. less x y ≡ false) less e es (o.asym e x later) s.0,
    heap_push-Sorted less o e es s.1,
  )
  | inr first ↦ rw first (
    (
      first,
      All-map (λ y. less x y ≡ false) (λ y. less e y ≡ false) es
          (λ y h. o.negative_trans e x y first h) s.0,
    ),
    s,
  )
]

pub record IsOrdered (q : Queue) : Type 0 where
  pub ready_sorted : Sorted ready_order q.ready
  pub delayed_sorted : Sorted delayed_order q.delayed

-- Both heaps are replaced by lists that are sorted.
pub same_heaps :
    (q q' : Queue) → q'.ready ≡ q.ready → q'.delayed ≡ q.delayed → IsOrdered q → IsOrdered q'
same_heaps q q' r d o = record {
  ready_sorted = subst (Sorted ready_order) (sym r) o.ready_sorted;
  delayed_sorted = subst (Sorted delayed_order) (sym d) o.delayed_sorted;
}

replace_existing_heaps :
    (q : Queue) (id : ℕ)
    → ((replace_existing id q).ready ≡ q.ready) × ((replace_existing id q).delayed ≡ q.delayed)
unfolding replace_existing bury
replace_existing_heaps q id = ground arith

pub remove_heaps :
    (q : Queue) (id : ℕ) → ((remove q id).0.ready ≡ q.ready) × ((remove q id).0.delayed ≡ q.delayed)
unfolding remove bury
remove_heaps q id = ground arith

admit-IsOrdered :
    (q : Queue) (id : ℕ) (priority : ℤ) (at now : ℕ)
    → IsOrdered q
    → IsOrdered (admit q id priority at now)
unfolding admit
admit-IsOrdered q id priority at now o = elim (Bool-cases (ltb now at)) [
  | inl later ↦ rw later (record {
    ready_sorted = o.ready_sorted;
    delayed_sorted =
        heap_push-Sorted delayed_order delayed_order-IsOrder _ q.delayed o.delayed_sorted;
  })
  | inr due ↦ rw due (record {
    ready_sorted = heap_push-Sorted ready_order ready_order-IsOrder _ q.ready o.ready_sorted;
    delayed_sorted = o.delayed_sorted;
  })
]

pub push-IsOrdered :
    (q : Queue) (id : ℕ) (priority : ℤ) (at now : ℕ)
    → IsOrdered q
    → IsOrdered (push q id priority at now).0
unfolding push
push-IsOrdered q id priority at now o =
    let (r, d) = replace_existing_heaps q id in
    let admitted =
      admit-IsOrdered (replace_existing id q) id priority at now
        (same_heaps q (replace_existing id q) r d o) in
    if_cases (λ (p : Queue × PushStatus). IsOrdered p.0) q.closed _ _ (λ _. o)
      (λ _.
        if_cases (λ (p : Queue × PushStatus). IsOrdered p.0)
          (leb q.capacity (q.live_ready + q.live_delayed)) _ _ (λ _. o) (λ _. admitted))

-- ===== src/Queue/Defs.antt =====
-- The data of include/jobengine/queue.hpp: entries, the two heap orders and the queue's fields. A
-- heap is the list of its entries in the order in which `top()` would give them.
use distributed_job_engine.Prelude.{
  ℕ, Bool, not, List, [], ◌∷◌, ltb, ◌==◌, if◌then◌else◌, ℤ, ltz, eqz,
}

pub record QueueEntry : Type 0 where
  pub job_id : ℕ
  pub priority : ℤ
  pub seq : ℕ
  pub ready_at_ms : ℕ
  pub eligible_at_steady : ℕ

-- Where the live entry of a job is.
pub record Loc : Type 0 where
  pub seq : ℕ
  pub delayed : Bool

-- `a` is popped later than `b`.
unfoldable pub ready_order : QueueEntry → QueueEntry → Bool
ready_order a b =
    if not (eqz a.priority b.priority) then ltz a.priority b.priority else ltb b.seq a.seq

unfoldable pub delayed_order : QueueEntry → QueueEntry → Bool
delayed_order a b =
    if not (a.ready_at_ms == b.ready_at_ms)
    then ltb b.ready_at_ms a.ready_at_ms
    else if not (eqz a.priority b.priority)
    then ltz a.priority b.priority
    else ltb b.seq a.seq

-- `std::priority_queue::push`, by the order `less`.
unfoldable pub heap_push :
    (QueueEntry → QueueEntry → Bool) → QueueEntry → List QueueEntry → List QueueEntry
heap_push less e [] = e ∷ []
heap_push less e (x ∷ xs) =
    let rest = heap_push less e xs in if less e x then x ∷ rest else e ∷ x ∷ xs

pub record Queue : Type 0 where
  pub ready : List QueueEntry
  pub delayed : List QueueEntry
  pub index : List (ℕ × Loc)
  pub tombstones : List ℕ
  pub capacity : ℕ
  pub live_ready : ℕ
  pub live_delayed : ℕ
  pub next_seq : ℕ
  pub pushed : ℕ
  pub popped : ℕ
  pub closed : Bool

pub data PushStatus : Type 0 where
  ok full shut : PushStatus

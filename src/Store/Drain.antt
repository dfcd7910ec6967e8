-- ===== src/Store/Drain.antt =====
-- The flusher of src/store/store.cpp empties the buffer.
use distributed_job_engine.Prelude.{
  length-drop, ℕ, zero, suc, ◌+◌, ◌-◌, ◌*◌, ◌≤◌, ◌<◌, ◌≡◌, refl, ap, ◌∙◌, ◌⊎◌, ◌==◌, Bool, true,
  false, not, List, [], ◌∷◌, length, is_nil, arith, Bool-cases, inl, inr,
}
use distributed_job_engine.Store.Buffer.{
  Flusher, idle, taken, finished, StoreConfig, JobStore, Transaction, has_pending, take_batch,
  flusher_at, flusher_step, flushed,
}

-- The flusher alone, each transaction with its own answers.
unfoldable pub flush_steps : StoreConfig → (ℕ → Transaction) → ℕ → JobStore → JobStore
unfolding flusher_step
flush_steps cfg tx zero s = s
flush_steps cfg tx (suc n) s = flush_steps cfg (λ i. tx (suc i)) n (flusher_step cfg (tx 0) s)

abbrev pub buffered : JobStore → ℕ
buffered s = length s.pending_inserts + length s.pending_updates + length s.pending_attempts

-- The steps to the end of the batch that the flusher has.
abbrev pub steps_left : Flusher → ℕ
steps_left idle = 0
steps_left (taken b) = 2
steps_left (finished b committed) = 1

length_zero {ℓ} : {A : Type ℓ} (xs : List A) → length xs ≡ 0 → is_nil xs ≡ true
length_zero [] h = refl
length_zero (x ∷ xs) h = absurd (omega (arith, h))

nil_length {ℓ} : {A : Type ℓ} (xs : List A) → is_nil xs ≡ true → length xs ≡ 0
nil_length [] h = refl
nil_length (x ∷ xs) h = absurd (ground (arith, h))

-- A step of the flusher comes closer to the end, unless everything is flushed.
abbrev work : JobStore → ℕ
work s = 3 * buffered s + steps_left s.flusher

is_nil-length {ℓ} : {A : Type ℓ} (xs : List A) → is_nil xs ≡ (length xs == 0)
is_nil-length [] = ground arith
is_nil-length (x ∷ xs) = ground arith

steps_left-bound : (f : Flusher) → steps_left f ≤ 2
steps_left-bound idle = omega arith
steps_left-bound (taken b) = omega arith
steps_left-bound (finished b committed) = omega arith

has_pending-buffered : (s : JobStore) → has_pending s ≡ not (buffered s == 0)
has_pending-buffered s = ground (
  arith,
  is_nil-length s.pending_inserts,
  is_nil-length s.pending_updates,
  is_nil-length s.pending_attempts,
)

take_batch-work :
    (cfg : StoreConfig) (s : JobStore)
    → 0 < cfg.max_batch
    → 0 < buffered s
    → work (take_batch cfg s) < 3 * buffered s
unfolding take_batch
take_batch-work cfg s room some_left = omega (
  arith,
  room,
  some_left,
  length-drop cfg.max_batch s.pending_inserts,
  length-drop cfg.max_batch s.pending_updates,
  length-drop cfg.max_batch s.pending_attempts,
)

pub flusher_step-eq :
    (cfg : StoreConfig) (tx : Transaction) (f : Flusher) (s : JobStore)
    → s.flusher ≡ f
    → flusher_step cfg tx s ≡ flusher_at cfg tx f s
unfolding flusher_step
flusher_step-eq cfg tx f s at = ap (λ (g : Flusher). flusher_at cfg tx g s) at

abbrev Progress : JobStore → JobStore → Type 0
Progress s s' = (work s' < work s) ⊎ ((work s ≡ 0) × (s' ≡ s))

flusher_at-Progress :
    (cfg : StoreConfig) (tx : Transaction) (f : Flusher) (s : JobStore)
    → 0 < cfg.max_batch
    → s.flusher ≡ f
    → Progress s (flusher_at cfg tx f s)
unfolding flusher_at
flusher_at-Progress cfg tx idle s room at = elim (Bool-cases (has_pending s)) [
  | inl more ↦
      let some_left : 0 < buffered s = ground (arith, more, has_pending-buffered s) in
      rw more (inl (omega (arith, take_batch-work cfg s room some_left)))
  | inr none_left ↦
      let empty : buffered s ≡ 0 = ground (arith, none_left, has_pending-buffered s) in
      rw none_left (inr (omega (arith, empty, ap steps_left at), refl))
]
flusher_at-Progress cfg tx (taken b) s room at = inl (omega (arith, ap steps_left at))
flusher_at-Progress cfg tx (finished b committed) s room at = inl (omega (arith, ap steps_left at))

step-Progress :
    (cfg : StoreConfig) (tx : Transaction) (s : JobStore)
    → 0 < cfg.max_batch
    → Progress s (flusher_step cfg tx s)
unfolding flusher_step
step-Progress cfg tx s room = flusher_at-Progress cfg tx s.flusher s room refl

flush_steps-work :
    (cfg : StoreConfig) (tx : ℕ → Transaction) (n : ℕ) (s : JobStore)
    → 0 < cfg.max_batch
    → work (flush_steps cfg tx n s) ≤ work s - n
unfolding flush_steps
flush_steps-work cfg tx zero s room = omega arith
flush_steps-work cfg tx (suc n) s room =
    let rest = flush_steps-work cfg (λ i. tx (suc i)) n (flusher_step cfg (tx 0) s) room in
    elim (step-Progress cfg (tx 0) s room) [
      | inl less ↦ omega (arith, rest, less)
      | inr (none_left, same) ↦ omega (arith, rest, none_left, ap work same)
    ]

flushed_at : (f : Flusher) (s : JobStore) → s.flusher ≡ f → work s ≡ 0 → flushed s ≡ true
flushed_at idle s at h =
    let empty : has_pending s ≡ false = ground (arith, h, has_pending-buffered s) in
    ap (λ (f : Flusher). elim f as (λ x. Bool) [ idle ↦ not (has_pending s) | _ ↦ false ]) at
    ∙ ap not empty
flushed_at (taken b) s at h = absurd (omega (arith, h, ap steps_left at))
flushed_at (finished b committed) s at h = absurd (omega (arith, h, ap steps_left at))

flushed_at_rest : (s : JobStore) → work s ≡ 0 → flushed s ≡ true
flushed_at_rest s h = flushed_at s.flusher s refl h

-- However the transactions end, and whatever was in the buffer or on its way, the flusher alone
-- empties the buffer: after at most three steps for each buffered write, and two more, `flush`
-- finds nothing pending and nothing in flight. A batch holds at least one write.
pub flush_returns :
    (cfg : StoreConfig) (tx : ℕ → Transaction) (n : ℕ) (s : JobStore)
    → 0 < cfg.max_batch
    → 3 * buffered s + 2 ≤ n
    → flushed (flush_steps cfg tx n s) ≡ true
flush_returns cfg tx n s room enough =
    flushed_at_rest (flush_steps cfg tx n s)
      (omega (arith, flush_steps-work cfg tx n s room, enough, steps_left-bound s.flusher))

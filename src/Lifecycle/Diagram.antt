-- ===== src/Lifecycle/Diagram.antt =====
-- The transition table against the documented transitions, written as a relation: which states are final,
-- and what can be reached from the others.
use distributed_job_engine.Prelude.{◌≡◌, refl, ◌↔◌, ◌⊎◌, inl, inr, true, false, arith}
use distributed_job_engine.Lifecycle.{
  JobState, pending, queued, scheduled, running, retrying, succeeded, failed, timed_out, cancelled,
  skipped, is_terminal, is_failure_terminal, is_valid_transition,
}

-- The legal transitions that docs/REQUIREMENTS.md lists in section 6.
pub data Edge : JobState → JobState → Type 0 where
  release_now : Edge pending queued
  release_later : Edge pending scheduled
  cancel_pending : Edge pending cancelled
  skip : Edge pending skipped
  mature : Edge scheduled queued
  cancel_scheduled : Edge scheduled cancelled
  start : Edge queued running
  cancel_queued : Edge queued cancelled
  finish : Edge running succeeded
  back_off : Edge running retrying
  give_up : Edge running failed
  overrun : Edge running timed_out
  cancel_running : Edge running cancelled
  reclaim : Edge running queued
  wake : Edge retrying queued
  cancel_retrying : Edge retrying cancelled
  retry_failed : Edge retrying failed
  retry_timed_out : Edge retrying timed_out

-- The transitions that are not in that list and that the table has.
pub data Unlisted : JobState → JobState → Type 0 where
  skip_scheduled : Unlisted scheduled skipped
  skip_queued : Unlisted queued skipped
  skip_retrying : Unlisted retrying skipped

ruleset edges = (
  release_now, release_later, cancel_pending, skip, mature, cancel_scheduled, start, cancel_queued,
  finish, back_off, give_up, overrun, cancel_running, reclaim, wake, cancel_retrying, retry_failed,
  retry_timed_out, skip_scheduled, skip_queued, skip_retrying,
)

Edge-valid : {from to : JobState} → Edge from to → is_valid_transition from to ≡ true
unfolding is_valid_transition
Edge-valid release_now = refl
Edge-valid release_later = refl
Edge-valid cancel_pending = refl
Edge-valid skip = refl
Edge-valid mature = refl
Edge-valid cancel_scheduled = refl
Edge-valid start = refl
Edge-valid cancel_queued = refl
Edge-valid finish = refl
Edge-valid back_off = refl
Edge-valid give_up = refl
Edge-valid overrun = refl
Edge-valid cancel_running = refl
Edge-valid reclaim = refl
Edge-valid wake = refl
Edge-valid cancel_retrying = refl
Edge-valid retry_failed = refl
Edge-valid retry_timed_out = refl

Unlisted-valid : {from to : JobState} → Unlisted from to → is_valid_transition from to ≡ true
unfolding is_valid_transition
Unlisted-valid skip_scheduled = refl
Unlisted-valid skip_queued = refl
Unlisted-valid skip_retrying = refl

valid-Edge :
    (from to : JobState) → is_valid_transition from to ≡ true → Edge from to ⊎ Unlisted from to
unfolding is_valid_transition
valid-Edge from to h = grind (arith, edges)

Edge-valid_either :
    {from to : JobState} → Edge from to ⊎ Unlisted from to → is_valid_transition from to ≡ true
Edge-valid_either (inl listed) = Edge-valid listed
Edge-valid_either (inr unlisted) = Unlisted-valid unlisted

-- The table accepts a transition exactly when it is one of the legal transitions that the documents
-- list, or a change to SKIPPED from SCHEDULED, QUEUED or RETRYING, which they do not list.
pub is_valid_transition_iff :
    (from to : JobState) → (is_valid_transition from to ≡ true) ↔ (Edge from to ⊎ Unlisted from to)
is_valid_transition_iff from to = (valid-Edge from to, Edge-valid_either)

infix 40 ◌⟶*◌
-- A sequence of transitions that the table accepts.
pub data ◌⟶*◌ : JobState → JobState → Type 0 where
  here : {s : JobState} → s ⟶* s
  next : {s t u : JobState} → is_valid_transition s t ≡ true → t ⟶* u → s ⟶* u

terminal_stuck : (s t : JobState) → is_terminal s ≡ true → is_valid_transition s t ≡ false
unfolding is_valid_transition
terminal_stuck s t h = ground arith

stuck_terminal :
    (s : JobState) → ((t : JobState) → is_valid_transition s t ≡ false) → is_terminal s ≡ true
unfolding is_valid_transition
stuck_terminal s all = ground (arith, all cancelled)

⟶*-succeeded : (s : JobState) → is_terminal s ≡ false → s ⟶* succeeded
unfolding is_valid_transition
⟶*-succeeded pending h = next {t = queued} refl (next {t = running} refl (next refl here))
⟶*-succeeded queued h = next {t = running} refl (next refl here)
⟶*-succeeded scheduled h = next {t = queued} refl (next {t = running} refl (next refl here))
⟶*-succeeded running h = next refl here
⟶*-succeeded retrying h = next {t = queued} refl (next {t = running} refl (next refl here))
⟶*-succeeded succeeded h = here
⟶*-succeeded failed h = cc
⟶*-succeeded timed_out h = cc
⟶*-succeeded cancelled h = cc
⟶*-succeeded skipped h = cc

-- A state has no transition out of it exactly when it is terminal; and every state that is not
-- terminal still has a way to SUCCEEDED.
pub terminal_absorbing :
    (s : JobState)
    → ((is_terminal s ≡ true) ↔ ((t : JobState) → is_valid_transition s t ≡ false))
      × (is_terminal s ≡ false → s ⟶* succeeded)
terminal_absorbing s = ((λ h t. terminal_stuck s t h, stuck_terminal s), ⟶*-succeeded s)

-- Along any sequence of accepted transitions, a job that is in a failure state stays in that state.
pub failure_final : (s t : JobState) → is_failure_terminal s ≡ true → s ⟶* t → t ≡ s
unfolding is_failure_terminal is_valid_transition
failure_final s t h here = refl
failure_final s t h (next v r) = ground arith

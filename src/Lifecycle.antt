-- ===== src/Lifecycle.antt =====
-- The job state machine of include/jobengine/job.hpp and src/core/job.cpp: the ten states, their
-- names, the classification and the transition table.
pub mod Diagram
pub mod Names
use distributed_job_engine.Prelude.{
  ℕ, ◌≡◌, Bool, true, false, not, ◌&&◌, ◌||◌, Option, none, some, List, [], ◌∷◌, ◌==◌,
  if◌then◌else◌, Text, text, text_eq,
}

pub data JobState : Type 0 where
  pending queued scheduled running retrying : JobState
  succeeded failed timed_out cancelled skipped : JobState

-- The value of the enumerator, by which `==` compares.
abbrev pub ordinal : JobState → ℕ
ordinal pending = 0
ordinal queued = 1
ordinal scheduled = 2
ordinal running = 3
ordinal retrying = 4
ordinal succeeded = 5
ordinal failed = 6
ordinal timed_out = 7
ordinal cancelled = 8
ordinal skipped = 9

abbrev pub same_state : JobState → JobState → Bool
same_state a b = ordinal a == ordinal b

unfoldable pub to_string : JobState → Text
unfolding text
to_string pending = text "PENDING"
to_string queued = text "QUEUED"
to_string scheduled = text "SCHEDULED"
to_string running = text "RUNNING"
to_string retrying = text "RETRYING"
to_string succeeded = text "SUCCEEDED"
to_string failed = text "FAILED"
to_string timed_out = text "TIMED_OUT"
to_string cancelled = text "CANCELLED"
to_string skipped = text "SKIPPED"

abbrev pub all_states : List JobState
all_states =
    pending ∷ queued ∷ scheduled ∷ running ∷ retrying ∷ succeeded ∷ failed ∷ timed_out ∷ cancelled
    ∷ skipped ∷ []

-- The loop over `all_states()`: the first state of that name.
unfoldable pub find_state : Text → List JobState → Option JobState
find_state s [] = none
find_state s (st ∷ rest) = if text_eq s (to_string st) then some st else find_state s rest

unfoldable pub state_from_string : Text → Option JobState
unfolding find_state
state_from_string s = find_state s all_states

abbrev pub is_terminal : JobState → Bool
is_terminal succeeded = true
is_terminal failed = true
is_terminal timed_out = true
is_terminal cancelled = true
is_terminal skipped = true
is_terminal _ = false

unfoldable pub is_failure_terminal : JobState → Bool
is_failure_terminal s = is_terminal s && not (same_state s succeeded)

-- The `switch` on the source state.
abbrev allowed_targets : JobState → JobState → Bool
allowed_targets pending to =
    same_state to queued
    || same_state to scheduled
    || same_state to cancelled
    || same_state to skipped
allowed_targets scheduled to =
    same_state to queued || same_state to cancelled || same_state to skipped
allowed_targets queued to =
    same_state to running || same_state to cancelled || same_state to skipped
allowed_targets running to =
    same_state to succeeded
    || same_state to retrying
    || same_state to failed
    || same_state to timed_out
    || same_state to cancelled
    || same_state to queued
allowed_targets retrying to =
    same_state to queued
    || same_state to cancelled
    || same_state to failed
    || same_state to timed_out
    || same_state to skipped
allowed_targets _ to = false

unfoldable pub is_valid_transition : JobState → JobState → Bool
is_valid_transition from to =
    if same_state from to
    then false
    else if is_terminal from
    then false
    else allowed_targets from to

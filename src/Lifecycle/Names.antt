-- ===== src/Lifecycle/Names.antt =====
-- The names of the states, as the store and the API write and read them.
use distributed_job_engine.Prelude.{
  ◌≡◌, refl, ◌↔◌, some, List, [], ◌∷◌, text, Text, text_eq, text_eq→eq, arith,
}
use distributed_job_engine.Lifecycle.{
  JobState, pending, to_string, all_states, find_state, state_from_string,
}

state_from_string-to_string : (s : JobState) → state_from_string (to_string s) ≡ some s
unfolding state_from_string to_string text text_eq
state_from_string-to_string pending = refl
state_from_string-to_string _ = refl

find_state-to_string :
    (t : Text) (ss : List JobState) (s : JobState) → find_state t ss ≡ some s → t ≡ to_string s
unfolding find_state
find_state-to_string t [] s h = ground arith
find_state-to_string t (st ∷ rest) s h =
    ground (arith, text_eq→eq t (to_string st), find_state-to_string t rest s)

-- A text is read as a state exactly when it is that state's name.
pub state_from_string_iff :
    (t : Text) (s : JobState) → (state_from_string t ≡ some s) ↔ (t ≡ to_string s)
unfolding state_from_string
state_from_string_iff t s =
    (find_state-to_string t all_states s, λ e. rw e (state_from_string-to_string s))

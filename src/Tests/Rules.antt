-- ===== src/Tests/Rules.antt =====
-- The state machine, the backoff, the text helpers and the histograms.
use distributed_job_engine.Prelude.{none, ◌≡◌, refl, ◌↔◌, ◌⊎◌, true, pos, ◌≤ℤ◌, maxz, text, some}
use distributed_job_engine.Lifecycle.{
  queued, running, to_string, state_from_string, is_valid_transition,
}
use distributed_job_engine.Lifecycle.Diagram.{Edge, Unlisted, is_valid_transition_iff}
use distributed_job_engine.Lifecycle.Names.{state_from_string_iff}
use distributed_job_engine.Util.{parse_int, url_decode, trim, trim_left, trim_right, parse_digits}
use distributed_job_engine.Retry.{delay_after_attempt, backoff_loop}
use distributed_job_engine.Retry.Bounds.{delay_bounds}
use distributed_job_engine.Tests.Samples.{whole, doubling}

is_valid_transition_iff_example :
    (is_valid_transition queued running ≡ true) ↔ (Edge queued running ⊎ Unlisted queued running)
is_valid_transition_iff_example = is_valid_transition_iff queued running

state_from_string_iff_example :
    (state_from_string (text "RUNNING") ≡ some running) ↔ (text "RUNNING" ≡ to_string running)
state_from_string_iff_example = state_from_string_iff (text "RUNNING") running

delay_bounds_example :
    (pos 0 ≤ℤ delay_after_attempt whole doubling 12345 3)
    × (delay_after_attempt whole doubling 12345 3 ≤ℤ maxz (pos 300) (pos 0))
delay_bounds_example = delay_bounds whole doubling 12345 3

-- 100, 200, 400 cut to 300.
delay_values :
    (delay_after_attempt whole doubling 0 1 ≡ pos 100)
    × (delay_after_attempt whole doubling 0 2 ≡ pos 200)
    × (delay_after_attempt whole doubling 0 9 ≡ pos 300)
unfolding delay_after_attempt backoff_loop
delay_values = (refl, refl, refl)

-- The least integer prints, and does not parse.
parse_int_least : parse_int (text "-9223372036854775808") ≡ none
unfolding parse_int trim trim_left trim_right parse_digits text
parse_int_least = refl

url_decode_values :
    (url_decode (text "a%2Fb+c") ≡ text "a/b c") × (url_decode (text "50%") ≡ text "50%")
unfolding url_decode text
url_decode_values = (refl, refl)

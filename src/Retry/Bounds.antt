-- ===== src/Retry/Bounds.antt =====
-- The backoff delay stays in its range, and the early exit of the loop changes nothing.
use distributed_job_engine.Prelude.{
  ℕ, zero, suc, ◌≡◌, refl, true, false, ℤ, pos, ◌≤ℤ◌, minz, maxz, arith, Bool-cases, inl, inr, ◌⊎◌,
}
use distributed_job_engine.Retry.{RetryPolicy, Doubles, backoff_loop, delay_after_attempt}

-- Whatever the doubles do, the delay is not negative and is at most `backoff_max_ms`, or 0 where
-- that is negative; with jitter too.
pub delay_bounds :
    (doubles : Doubles) (p : RetryPolicy) (random failed_attempt : ℕ)
    → (pos 0 ≤ℤ delay_after_attempt doubles p random failed_attempt)
      × (delay_after_attempt doubles p random failed_attempt ≤ℤ maxz p.backoff_max_ms (pos 0))
unfolding delay_after_attempt
delay_bounds doubles p random failed_attempt = ground arith

-- The delay as the comment on `delay_after_attempt` states it: `base * multiplier ^ (n - 1)`, with
-- no early exit, cut to the limits.
module _ (doubles : Doubles) where
  open doubles use {of_int, mul, llround}

  unfoldable pub power_loop : RetryPolicy → ℕ → ℕ → ℕ
  power_loop p zero d = d
  power_loop p (suc rounds) d = power_loop p rounds (mul d p.backoff_multiplier)

  unfoldable pub full_delay : RetryPolicy → ℕ → ℤ
  full_delay p rounds =
      maxz (minz (llround (power_loop p rounds (of_int p.backoff_base_ms))) p.backoff_max_ms)
        (pos 0)

-- What is used of IEEE arithmetic: a product with a factor of at least one does not fall below an
-- integer that the other factor reaches, and rounding respects the limit.
pub record GrowsTo (doubles : Doubles) (p : RetryPolicy) : Type 0 where
  pub mul_keeps :
      (d : ℕ)
      → doubles.ge d (doubles.of_int p.backoff_max_ms) ≡ true
      → doubles.ge (doubles.mul d p.backoff_multiplier) (doubles.of_int p.backoff_max_ms) ≡ true
  pub round_keeps :
      (d : ℕ)
      → doubles.ge d (doubles.of_int p.backoff_max_ms) ≡ true
      → p.backoff_max_ms ≤ℤ doubles.llround d

module _ (doubles : Doubles) (p : RetryPolicy) (grows : GrowsTo doubles p) where
  abbrev Reaches : ℕ → Type 0
  Reaches d = doubles.ge d (doubles.of_int p.backoff_max_ms) ≡ true

  power_loop_keeps : (rounds d : ℕ) → Reaches d → Reaches (power_loop doubles p rounds d)
  unfolding power_loop
  power_loop_keeps zero d h = h
  power_loop_keeps (suc rounds) d h = power_loop_keeps rounds _ (grows.mul_keeps d h)

  -- The two loops agree, or both have reached the limit.
  loops_agree :
      (rounds d : ℕ)
      → (backoff_loop doubles p rounds d ≡ power_loop doubles p rounds d)
        ⊎ (Reaches (backoff_loop doubles p rounds d) × Reaches (power_loop doubles p rounds d))
  unfolding power_loop backoff_loop
  loops_agree zero d = inl refl
  loops_agree (suc rounds) d =
      let d' = doubles.mul d p.backoff_multiplier in
      elim (Bool-cases (doubles.ge d' (doubles.of_int p.backoff_max_ms))) [
        | inl out ↦ rw out (inr (out, power_loop_keeps rounds d' out))
        | inr stay ↦ rw stay (loops_agree rounds d')
      ]

  -- Without jitter, the delay after attempt n is `backoff_base * multiplier ^ (n - 1)` rounded and
  -- cut to the limits: leaving the loop early changes nothing. It is assumed that a product does
  -- not fall back below `backoff_max_ms` and that rounding respects that limit.
  pub delay_early_exit :
      (random failed_attempt : ℕ)
      → p.jitter ≡ false
      → delay_after_attempt doubles p random (suc failed_attempt)
        ≡ full_delay doubles p failed_attempt
  unfolding delay_after_attempt full_delay
  delay_early_exit random failed_attempt h = ground (
    arith,
    loops_agree failed_attempt (doubles.of_int p.backoff_base_ms),
    grows.round_keeps (power_loop doubles p failed_attempt (doubles.of_int p.backoff_base_ms)),
    grows.round_keeps (backoff_loop doubles p failed_attempt (doubles.of_int p.backoff_base_ms)),
  )

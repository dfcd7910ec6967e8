-- ===== src/Retry.antt =====
-- `RetryPolicy` and `delay_after_attempt` of src/core/job.cpp. Doubles are a parameter: the
-- arithmetic of the machine is not part of the repository. A double is kept as its bit pattern.
pub mod Bounds
use distributed_job_engine.Prelude.{
  ℕ, zero, suc, ◌+◌, ◌-◌, ◌%◌, ◌≤◌, ◌≡◌, Bool, true, ◌&&◌, ltb, if◌then◌else◌, ℤ, pos, ltz, ◌≤ℤ◌,
  minz, maxz, pos_part,
}

pub record RetryPolicy : Type 0 where
  pub max_attempts : ℤ
  pub backoff_base_ms : ℤ
  pub backoff_multiplier : ℕ
  pub backoff_max_ms : ℤ
  pub jitter : Bool

-- The operations on `double` that the backoff uses, on bit patterns.
pub record Doubles : Type 0 where
  pub of_int : ℤ → ℕ
  pub mul : ℕ → ℕ → ℕ
  pub ge : ℕ → ℕ → Bool
  pub llround : ℕ → ℤ

module _ (doubles : Doubles) where
  open doubles use {of_int, mul, ge, llround}

  -- The loop `for (i = 1; i < failed_attempt; ++i)`, over the rounds that are left.
  unfoldable pub backoff_loop : RetryPolicy → ℕ → ℕ → ℕ
  backoff_loop p zero d = d
  backoff_loop p (suc rounds) d =
      let d' = mul d p.backoff_multiplier in
      let rest = backoff_loop p rounds d' in if ge d' (of_int p.backoff_max_ms) then d' else rest

  -- `random` is the value of `random_u64()`.
  unfoldable pub delay_after_attempt : RetryPolicy → ℕ → ℕ → ℤ
  delay_after_attempt p random failed_attempt =
      let attempt = if ltb failed_attempt 1 then 1 else failed_attempt in
      let d = backoff_loop p (attempt - 1) (of_int p.backoff_base_ms) in
      let delay = maxz (minz (llround d) p.backoff_max_ms) (pos 0) in
      if p.jitter && ltz (pos 0) delay then pos (random % (pos_part delay + 1)) else delay

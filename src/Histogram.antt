-- ===== src/Histogram.antt =====
-- `Histogram` of include/jobengine/metrics.hpp and src/core/metrics.cpp. The counters do not wrap.
pub mod Buckets
pub mod Percentiles
use distributed_job_engine.Prelude.{ℕ, zero, suc, ◌+◌, ◌*◌, ◌&&◌, List, [], ◌∷◌, ltb, if◌then◌else◌}

abbrev pub bucket_limit : ℕ
bucket_limit = 24

-- The loop that doubles 16 `i` times.
unfoldable pub bucket_upper_us : ℕ → ℕ
bucket_upper_us zero = 16
bucket_upper_us (suc i) = bucket_upper_us i * 2

-- The `while` loop of `observe`, from the bucket `idx`.
unfoldable pub search_bucket : ℕ → ℕ → ℕ → ℕ
search_bucket zero idx us = idx
search_bucket (suc fuel) idx us =
    let rest = search_bucket fuel (suc idx) us in
    if ltb (idx + 1) bucket_limit && ltb (bucket_upper_us idx) us then rest else idx

unfoldable pub bucket_index : ℕ → ℕ
unfolding search_bucket
bucket_index us = search_bucket bucket_limit 0 us

pub record Histogram : Type 0 where
  pub buckets : List ℕ
  pub count : ℕ
  pub sum_us : ℕ
  pub max_us : ℕ

unfoldable pub bump : ℕ → List ℕ → List ℕ
bump i [] = []
bump zero (b ∷ bs) = suc b ∷ bs
bump (suc i) (b ∷ bs) = b ∷ bump i bs

unfoldable pub observe : ℕ → Histogram → Histogram
unfolding bump bucket_index
observe us h = record {
  buckets = bump (bucket_index us) h.buckets;
  count = suc h.count;
  sum_us = h.sum_us + us;
  max_us = if ltb h.max_us us then us else h.max_us;
}

unfoldable pub zeros : ℕ → List ℕ
zeros zero = []
zeros (suc n) = 0 ∷ zeros n

unfoldable pub reset : Histogram
unfolding zeros
reset = record { buckets = zeros bucket_limit; count = 0; sum_us = 0; max_us = 0 }

-- ===== src/Stats/Latency.antt =====
-- `LatencyStats`.
use milk_carton.Base.{
  ℕ, ◌+◌, ◌≤◌, ◌<◌, ◌≡◌, max, Option, none, some, List, [], ◌∷◌, length, arith, leb, ltb, nat_eq,
  Bool, ◌&&◌, ◌||◌, ◌==◌, ℕ-Eq, Option-Eq, ==_refl, ap, ◌∙◌,
}
use milk_carton.Stats.Counts.{
  sat_add, u64_max, position, bump_at, add_all, sum, checked_sum, position-le, length-bump_at,
  sum-bump_at, checked_sum-sum,
}

pub record LatencyStats : Type 0 where
  pub count : ℕ
  pub sum_ms : ℕ
  pub max_ms : ℕ
  pub buckets : List ℕ

abbrev pub no_buckets : List ℕ
no_buckets = 0 ∷ 0 ∷ 0 ∷ 0 ∷ 0 ∷ 0 ∷ 0 ∷ 0 ∷ []

-- `Default`
abbrev pub empty_latency : LatencyStats
empty_latency = record { count = 0; sum_ms = 0; max_ms = 0; buckets = no_buckets }

abbrev pub latency_bucket_upper_ms : List ℕ
latency_bucket_upper_ms = 10 ∷ 50 ∷ 100 ∷ 250 ∷ 500 ∷ 1_000 ∷ 5_000 ∷ []

unfoldable pub observe_latency : Option ℕ → LatencyStats → LatencyStats
observe_latency none stats = stats
observe_latency (some value) stats = record {
  count = sat_add stats.count 1;
  sum_ms = sat_add stats.sum_ms value;
  max_ms = max stats.max_ms value;
  buckets = bump_at (position value latency_bucket_upper_ms) stats.buckets;
}

unfoldable pub merge_latency : LatencyStats → LatencyStats → LatencyStats
merge_latency stats other = record {
  count = sat_add stats.count other.count;
  sum_ms = sat_add stats.sum_ms other.sum_ms;
  max_ms = max stats.max_ms other.max_ms;
  buckets = add_all stats.buckets other.buckets;
}

-- The closure `latency_valid` of `validate_stats_shard`.
unfoldable pub latency_valid : ℕ → LatencyStats → Bool
latency_valid observed latency =
    leb latency.count observed
    && checked_sum 0 latency.buckets == some latency.count
    && (ltb 0 latency.count || nat_eq latency.sum_ms 0 && nat_eq latency.max_ms 0)
    && leb latency.max_ms latency.sum_ms

-- What `observe` keeps, where `n` bounds the number of observations.
pub record LatencyAccounts (n : ℕ) (latency : LatencyStats) : Type 0 where
  pub count : latency.count ≤ n
  pub size : length latency.buckets ≡ 8
  pub total : sum latency.buckets ≡ latency.count
  pub nothing : latency.count ≡ 0 → (latency.sum_ms ≡ 0) × (latency.max_ms ≡ 0)
  pub largest : latency.max_ms ≤ latency.sum_ms
  pub longest : latency.max_ms ≤ u64_max

abbrev pub OptionFits : Option ℕ → Type 0
OptionFits none = Unit {0}
OptionFits (some value) = value ≤ u64_max

pub observe_latency-LatencyAccounts :
    (n : ℕ) (value : Option ℕ) (latency : LatencyStats)
    → n < u64_max
    → OptionFits value
    → LatencyAccounts n latency
    → LatencyAccounts (n + 1) (observe_latency value latency)
unfolding observe_latency
observe_latency-LatencyAccounts n none latency u f h = record {
  count = omega (arith, h.count);
  size = h.size;
  total = h.total;
  nothing = h.nothing;
  largest = h.largest;
  longest = h.longest;
}
observe_latency-LatencyAccounts n (some value) latency u f h =
    let bucket = position-le value latency_bucket_upper_ms in
    let inside : position value latency_bucket_upper_ms < length latency.buckets =
      omega (arith, bucket, h.size) in
    record {
      count = omega (arith, h.count);
      size =
          omega (
            arith,
            length-bump_at (position value latency_bucket_upper_ms) latency.buckets,
            h.size,
          );
      total = omega (
        arith,
        sum-bump_at (position value latency_bucket_upper_ms) latency.buckets inside
            (omega (arith, h.total, h.count, u)),
        h.total,
        h.count,
        u,
      );
      nothing = λ zero. absurd (omega (arith, zero));
      largest = omega (arith, h.largest, h.longest, f);
      longest = omega (arith, h.longest, f);
    }

pub latency_valid-LatencyAccounts :
    (n : ℕ) (latency : LatencyStats)
    → n ≤ u64_max
    → LatencyAccounts n latency
    → latency_valid n latency ≡ Bool.true
unfolding latency_valid
latency_valid-LatencyAccounts n latency u h =
    let folded : checked_sum 0 latency.buckets ≡ some latency.count =
      checked_sum-sum 0 latency.buckets (omega (arith, h.total, h.count, u))
      ∙ ap some (omega (arith, h.total)) in
    rw (folded, ==_refl (some latency.count)) (ground (arith, h.count, h.nothing, h.largest))

-- ===== src/Stats/Observed/Shard.antt =====
-- Values that keep the accounts pass `validate_stats_shard`.
use milk_carton.Base.{
  ℕ, ◌+◌, ◌≤◌, ◌≡◌, refl, sym, ap, ◌∙◌, Bool, true, Option, some, List, [], ◌∷◌, Bytes, length, all,
  All, arith, not, nat_eq, nat_eq_iff, ◌==◌, ==_refl, ℕ-Eq, Option-Eq, leb, ◌&&◌, subst,
}
use milk_carton.Stats.Counts.{
  u64_max, sum, values, checked_add, checked_sum, checked_sum-sum, IsPositive,
}
use milk_carton.Stats.Latency.{latency_valid, latency_valid-LatencyAccounts}
use milk_carton.Stats.Values.{StatsValues}
use milk_carton.Stats.Valid.{
  stats_values_valid, class_valid, keys, then_add, then_add_option, total_within,
}
use milk_carton.Stats.Accounts.{Accounts, all_at, IsClass}
use milk_carton.Stats.Observed.{Recorded, IsRecordedRequest, observe_all, observe_all-Accounts}

infixl 3 ◌⊗◌
◌⊗◌ : {a b : Bool} → a ≡ true → b ≡ true → (a && b) ≡ true
h ⊗ k = rw (h, k) refl

leb-true : (a b : ℕ) → a ≤ b → leb a b ≡ true
leb-true a b h = ground (arith, h)

is_some_eq : {o : Option ℕ} {n : ℕ} → o ≡ some n → (o == some n) ≡ true
is_some_eq {o} {n} h = rw (h, ==_refl (some n)) refl

checked_add-fits : (a b n : ℕ) → a + b ≡ n → n ≤ u64_max → checked_add a b ≡ some n
checked_add-fits a b n e u =
    let fits : leb (a + b) u64_max ≡ true = ground (arith, e, u) in rw fits (ap some e)

then_add-fits :
    {o : Option ℕ} (a b n : ℕ) → o ≡ some a → a + b ≡ n → n ≤ u64_max → then_add o b ≡ some n
then_add-fits a b n h e u = rw h (checked_add-fits a b n e u)

five-fits :
    (a b c d e n : ℕ)
    → a + b + c + d + e ≡ n
    → n ≤ u64_max
    → then_add (then_add (then_add (checked_add a b) c) d) e ≡ some n
five-fits a b c d e n same u =
    then_add-fits (a + b + c + d) e n
      (then_add-fits (a + b + c) d _
        (then_add-fits (a + b) c _ (checked_add-fits a b _ refl (omega (arith, same, u))) refl
          (omega (arith, same, u)))
        refl (omega (arith, same, u)))
      same u

checked_sum-fits : (xs : List ℕ) (n : ℕ) → sum xs ≡ n → n ≤ u64_max → checked_sum 0 xs ≡ some n
checked_sum-fits xs n e u = checked_sum-sum 0 xs (omega (arith, e, u)) ∙ ap some (omega (arith, e))

then_add_option-fits :
    {o t : Option ℕ} (a b n : ℕ)
    → o ≡ some a
    → t ≡ some b
    → a + b ≡ n
    → n ≤ u64_max
    → then_add_option o t ≡ some n
then_add_option-fits a b n h k e u = rw (k, h) (checked_add-fits a b n e u)

all_positive : (xs : List ℕ) → All IsPositive xs → all (λ n. not (nat_eq n 0)) xs ≡ true
all_positive [] h = refl
all_positive (x ∷ xs) h = ground (arith, h.0, all_positive xs h.1)

all_classes : (xs : List Bytes) → All IsClass xs → all class_valid xs ≡ true
all_classes [] h = refl
all_classes (x ∷ xs) h = h.0 ⊗ all_classes xs h.1

sums_within :
    (observed : ℕ) (xs : List ℕ)
    → sum xs ≤ observed
    → observed ≤ u64_max
    → total_within observed (checked_sum 0 xs) ≡ true
sums_within observed xs h u =
    rw (checked_sum-fits xs (sum xs) refl (omega (arith, h, u))) (ground (arith, h))

pub Accounts-valid :
    (n : ℕ) (v : StatsValues) → n ≤ u64_max → Accounts (all_at n) v → stats_values_valid v ≡ true
unfolding stats_values_valid
Accounts-valid n v u h =
    let observed : v.observed ≡ n = h.0.0 in
    let blocked : checked_sum 0 (values v.route_blocked_reason_counts) ≡ some v.route_ineligible =
      checked_sum-fits _ _ h.4.2 (omega (arith, h.4.0, u)) in
    let fallbacks : checked_sum 0 (values v.route_fallback_counts)
        ≡ some (sum (values v.route_fallback_counts)) =
      checked_sum-fits _ _ refl (omega (arith, h.4.0, h.4.1, h.4.3, u)) in
    let fits : v.observed ≤ u64_max = omega (arith, observed, u) in
    leb-true v.eligible v.observed (omega (arith, h.0.3, observed))
    ⊗ leb-true v.selected v.eligible h.0.4
    ⊗ leb-true v.captured v.selected (omega (arith, h.0.5))
    ⊗ leb-true v.oversized v.selected (omega (arith, h.0.5))
    ⊗ leb-true v.capture_failed v.selected (omega (arith, h.0.5))
    ⊗ (nat_eq_iff v.queued v.observed).1 (omega (arith, h.0.0, h.0.1))
    ⊗ (nat_eq_iff v.traces_persisted v.captured).1 h.0.6
    ⊗ (nat_eq_iff v.trace_persist_failures v.capture_failed).1 h.0.7
    ⊗ is_some_eq (
        five-fits v.captured v.not_selected v.oversized v.interrupted v.capture_failed _
          (omega (arith, h.3, observed)) fits)
    ⊗ is_some_eq
        (checked_add-fits v.chat_completions v.responses _ (omega (arith, h.1, observed)) fits)
    ⊗ is_some_eq (
        checked_add-fits v.request_parse_success v.request_parse_failure _
          (omega (arith, h.2, observed)) fits)
    ⊗ leb-true v.streaming v.observed (omega (arith, h.0.2, observed))
    ⊗ is_some_eq (
        checked_add-fits v.route_eligible v.route_ineligible _ (omega (arith, h.4.0, observed))
          fits)
    ⊗ is_some_eq
        (checked_add-fits v.route_selected v.route_not_selected _ h.4.1 (omega (arith, h.4.0, u)))
    ⊗ is_some_eq blocked
    ⊗ is_some_eq (
        then_add_option-fits v.candidate (sum (values v.route_fallback_counts)) v.route_selected
          refl fallbacks h.4.3 (omega (arith, h.4.0, h.4.1, u)))
    ⊗ is_some_eq (
        then_add_option-fits (v.route_ineligible + v.route_not_selected) _ _
          (then_add-fits v.route_ineligible v.route_not_selected _ blocked refl
            (omega (arith, h.4.0, h.4.1, u)))
          fallbacks h.4.4 (omega (arith, h.4.0, h.4.1, h.4.3, h.4.4, u)))
    ⊗ is_some_eq (
        five-fits v.status_2xx v.status_4xx v.status_5xx v.status_other v.status_missing _
          (omega (arith, h.5, observed)) fits)
    ⊗ is_some_eq (checked_sum-fits v.request_size_buckets _ (omega (arith, h.6.0, observed)) fits)
    ⊗ all_positive (values v.route_blocked_reason_counts) h.4.5
    ⊗ all_positive (values v.route_fallback_counts) h.4.6
    ⊗ leb-true (length v.errors) 64 (ground (arith, h.7.3))
    ⊗ all_classes (keys v.errors) h.7.2
    ⊗ all_positive (values v.errors) h.7.1
    ⊗ sums_within v.observed (values v.errors) (omega (arith, h.7.0, observed)) fits
    ⊗ subst (λ m. latency_valid m v.ttft ≡ true) (sym observed)
        (latency_valid-LatencyAccounts n v.ttft u h.8.0)
    ⊗ subst (λ m. latency_valid m v.completion ≡ true) (sym observed)
        (latency_valid-LatencyAccounts n v.completion u h.8.1)

-- The statistics of at most 2^64 - 1 requests, counted in any order and from empty, pass every
-- condition of `validate_stats_shard` on the values of a shard, and count each request once. Each
-- request has a known endpoint, a capture only if it was selected, which only an eligible one is,
-- times that are `u64`, and an error class of the allowed form.
pub observe_all-valid :
    (rs : List Recorded)
    → length rs ≤ u64_max
    → All IsRecordedRequest rs
    → (stats_values_valid (observe_all rs) ≡ true) × ((observe_all rs).observed ≡ length rs)
observe_all-valid rs u h =
    let accounts = observe_all-Accounts rs u h in
    (Accounts-valid (length rs) (observe_all rs) u accounts, accounts.0.0)

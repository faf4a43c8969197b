-- ===== src/Stats/Valid.antt =====
-- The conditions of `validate_stats_shard` on the values of a shard.
use milk_carton.Base.{
  ℕ, Bool, ◌&&◌, ◌||◌, not, Option, none, some, List, [], ◌∷◌, Bytes, length, all, any, leb, nat_eq,
  ◌==◌, ℕ-Eq, Option-Eq,
}
use milk_carton.Text.Utf8.{trim}
use milk_carton.Route.Decide.{chars}
use milk_carton.Stats.Counts.{checked_add, checked_sum, values}
use milk_carton.Stats.Latency.{latency_valid}
use milk_carton.Stats.Values.{StatsValues}
use milk_carton.Stats.{max_stats_error_classes}

-- `and_then(|value| value.checked_add(next))`
abbrev pub then_add : Option ℕ → ℕ → Option ℕ
then_add none next = none
then_add (some value) next = checked_add value next

abbrev pub then_add_option : Option ℕ → Option ℕ → Option ℕ
then_add_option total none = none
then_add_option total (some next) = then_add total next

-- `bounded_nonempty` and the line breaks that a class may not hold.
unfoldable pub class_valid : Bytes → Bool
class_valid class =
    not (nat_eq (length (trim (chars class))) 0)
    && leb (length class) 128
    && not (any (λ c. nat_eq c 13 || nat_eq c 10) class)

abbrev pub keys {ℓ} : {K : Type ℓ} → List (K × ℕ) → List K
keys [] = []
keys ((k, n) ∷ rest) = k ∷ keys rest

-- `total.is_some_and(|total| total <= observed)`
abbrev pub total_within : ℕ → Option ℕ → Bool
total_within observed none = Bool.false
total_within observed (some total) = leb total observed

unfoldable pub stats_values_valid : StatsValues → Bool
stats_values_valid v =
    let blocked_total = checked_sum 0 (values v.route_blocked_reason_counts) in
    let fallback_total = checked_sum 0 (values v.route_fallback_counts) in
    leb v.eligible v.observed
    && leb v.selected v.eligible
    && leb v.captured v.selected
    && leb v.oversized v.selected
    && leb v.capture_failed v.selected
    && nat_eq v.queued v.observed
    && nat_eq v.traces_persisted v.captured
    && nat_eq v.trace_persist_failures v.capture_failed
    && then_add
        (then_add (then_add (checked_add v.captured v.not_selected) v.oversized) v.interrupted)
        v.capture_failed
      == some v.observed
    && checked_add v.chat_completions v.responses == some v.observed
    && checked_add v.request_parse_success v.request_parse_failure == some v.observed
    && leb v.streaming v.observed
    && checked_add v.route_eligible v.route_ineligible == some v.observed
    && checked_add v.route_selected v.route_not_selected == some v.route_eligible
    && blocked_total == some v.route_ineligible
    && then_add_option (some v.candidate) fallback_total == some v.route_selected
    && then_add_option (then_add blocked_total v.route_not_selected) fallback_total
      == some v.baseline
    && then_add
        (then_add (then_add (checked_add v.status_2xx v.status_4xx) v.status_5xx) v.status_other)
        v.status_missing
      == some v.observed
    && checked_sum 0 v.request_size_buckets == some v.observed
    && all (λ n. not (nat_eq n 0)) (values v.route_blocked_reason_counts)
    && all (λ n. not (nat_eq n 0)) (values v.route_fallback_counts)
    && leb (length v.errors) max_stats_error_classes
    && all class_valid (keys v.errors)
    && all (λ n. not (nat_eq n 0)) (values v.errors)
    && total_within v.observed (checked_sum 0 (values v.errors))
    && latency_valid v.observed v.ttft
    && latency_valid v.observed v.completion

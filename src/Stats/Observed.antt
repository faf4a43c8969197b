-- ===== src/Stats/Observed.antt =====
-- The statistics of any sequence of recorded requests pass the conditions of `validate_stats_shard`.
pub mod Shard
use milk_carton.Base.{
  ℕ, zero, suc, ◌+◌, ◌-◌, ◌^◌, ◌≤◌, ◌<◌, ◌≡◌, inl, inr, refl, sym, ap, ◌∙◌, Bool, true, false,
  Option, none, some, List, [], ◌∷◌, Bytes, length, all, All, arith, not, nat_eq, ◌==◌, ==_refl,
  ℕ-Eq, Option-Eq, leb,
}
use milk_carton.Stats.Counts.{
  u64_max, sum, values, checked_add, checked_sum, checked_sum-sum, IsPositive, from_bool,
  contains_key,
}
use milk_carton.Stats.Latency.{
  LatencyStats, empty_latency, no_buckets, latency_valid, latency_valid-LatencyAccounts,
  LatencyAccounts,
}
use milk_carton.Stats.Values.{CaptureState, TraceCatalog, StatsValues}
use milk_carton.Stats.{
  observe, observe_request, observe_endpoint, observe_parse, observe_capture, observe_route,
  observe_status, observe_sizes, observe_error,
}
use milk_carton.Stats.Valid.{
  stats_values_valid, class_valid, keys, then_add, then_add_option, total_within,
}
use milk_carton.Stats.Accounts.{Accounts, all_at, IsRecorded, IsClass}
use milk_carton.Stats.Accounts.Stages.{
  observe_request-Accounts, observe_endpoint-Accounts, observe_parse-Accounts,
  observe_capture-Accounts, observe_status-Accounts, observe_sizes-Accounts,
  observe_latencies-Accounts,
}
use milk_carton.Stats.Accounts.Maps.{observe_route-Accounts, observe_error-Accounts}

-- One more recorded request moves every group of accounts by one.
pub observe-Accounts :
    (n : ℕ) (catalog : TraceCatalog) (state : CaptureState) (captured : Bool) (v : StatsValues)
    → n < u64_max
    → IsRecorded catalog state captured
    → Accounts (all_at n) v
    → Accounts (all_at (n + 1)) (observe catalog state captured v)
unfolding observe
observe-Accounts n catalog state captured v u r h =
    let p1 = record (all_at n) {
      requests = n + 1;
      uncaptured = from_bool catalog.capture_selected;
    } in
    let p2 = record p1 { endpoints = n + 1 } in
    let p3 = record p2 { parses = n + 1 } in
    let p4 = record p3 { captures = n + 1; uncaptured = 0 } in
    let p5 = record p4 { routes = n + 1 } in
    let p6 = record p5 { statuses = n + 1 } in
    let p7 = record p6 { sizes = n + 1 } in
    let p8 = record p7 { errors = n + 1 } in
    let v1 = observe_request catalog v in
    let v2 = observe_endpoint catalog.endpoint v1 in
    let v3 = observe_parse catalog.request_parse_success v2 in
    let v4 = observe_capture state captured v3 in
    let v5 = observe_route catalog.route v4 in
    let v6 = observe_status catalog.provider_status v5 in
    let v7 = observe_sizes catalog.request_bytes catalog.response_bytes v6 in
    let v8 = observe_error catalog.error_class v7 in
    let a1 = observe_request-Accounts (all_at n) catalog v u r.eligible refl h in
    let a2 = observe_endpoint-Accounts p1 catalog.endpoint v1 u r.endpoint a1 in
    let a3 = observe_parse-Accounts p2 catalog.request_parse_success v2 u a2 in
    let a4 = observe_capture-Accounts p3 state captured v3 u r.taken a3 in
    let a5 = observe_route-Accounts p4 catalog.route v4 u a4 in
    let a6 = observe_status-Accounts p5 catalog.provider_status v5 u a5 in
    let a7 = observe_sizes-Accounts p6 catalog.request_bytes catalog.response_bytes v6 u a6 in
    let a8 = observe_error-Accounts p7 catalog.error_class v7 u r.error a7 in
    observe_latencies-Accounts p8 catalog.ttft_ms catalog.completion_ms v8 u r.ttft r.completion a8

-- `StatsValues::default()`
abbrev pub default_values : StatsValues
default_values = record {
  observed = 0;
  chat_completions = 0;
  responses = 0;
  streaming = 0;
  request_parse_success = 0;
  request_parse_failure = 0;
  eligible = 0;
  selected = 0;
  captured = 0;
  not_selected = 0;
  oversized = 0;
  interrupted = 0;
  capture_failed = 0;
  queued = 0;
  dropped = 0;
  traces_persisted = 0;
  trace_persist_failures = 0;
  stats_persist_failures = 0;
  route_eligible = 0;
  route_ineligible = 0;
  route_selected = 0;
  route_not_selected = 0;
  baseline = 0;
  candidate = 0;
  route_blocked_reason_counts = [];
  route_fallback_counts = [];
  status_2xx = 0;
  status_4xx = 0;
  status_5xx = 0;
  status_other = 0;
  status_missing = 0;
  request_bytes = 0;
  response_bytes = 0;
  request_size_buckets = no_buckets;
  errors = [];
  ttft = empty_latency;
  completion = empty_latency;
}

empty_latency-LatencyAccounts : LatencyAccounts 0 empty_latency
unfolding sum
empty_latency-LatencyAccounts = record {
  count = omega arith;
  size = refl;
  total = refl;
  nothing = λ e. (refl, refl);
  largest = omega arith;
  longest = omega arith;
}

default_values-Accounts : Accounts (all_at 0) default_values
unfolding sum values
default_values-Accounts = (
  (refl, refl, omega arith, omega arith, omega arith, omega arith, refl, refl),
  refl,
  refl,
  refl,
  (refl, refl, refl, refl, refl, tt, tt),
  refl,
  (refl, refl),
  (omega arith, tt, tt, inl (omega arith)),
  (empty_latency-LatencyAccounts, empty_latency-LatencyAccounts),
)

-- A request as it is counted: what was recorded, the state of its capture, and whether it was stored.
abbrev pub Recorded : Type 0
Recorded = TraceCatalog × CaptureState × Bool

abbrev pub IsRecordedRequest : Recorded → Type 0
IsRecordedRequest r = IsRecorded r.0 r.1 r.2

-- The requests in the order of their observation, the last one first.
unfoldable pub observe_all : List Recorded → StatsValues
observe_all [] = default_values
observe_all (r ∷ rs) = observe r.0 r.1 r.2 (observe_all rs)

pub observe_all-Accounts :
    (rs : List Recorded)
    → length rs ≤ u64_max
    → All IsRecordedRequest rs
    → Accounts (all_at (length rs)) (observe_all rs)
unfolding observe_all
observe_all-Accounts [] u h = default_values-Accounts
observe_all-Accounts (r ∷ rs) u h =
    let before = observe_all-Accounts rs (omega (arith, u)) h.1 in
    let next : length rs + 1 ≡ length (r ∷ rs) = omega arith in
    rw (← next)
      (observe-Accounts (length rs) r.0 r.1 r.2 (observe_all rs) (omega (arith, u)) h.0 before)

-- ===== src/Stats/Accounts.antt =====
-- The accounts that the statistics keep while requests are observed, group by group.
pub mod Stages
pub mod Maps
use milk_carton.Base.{
  ℕ, ◌+◌, ◌≤◌, ◌<◌, ◌≡◌, ◌⊎◌, Bool, true, false, Option, none, some, List, Bytes, length, codes,
  All, List-Eq, ℕ-Eq, ◌||◌,
}
use milk_carton.Stats.Counts.{sum, values, contains_key, IsPositive, from_bool}
use milk_carton.Stats.Latency.{LatencyAccounts, LatencyStats, OptionFits}
use milk_carton.Stats.Values.{
  CaptureState, oversized, interrupted, persist_failed, TraceCatalog, StatsValues,
}
use milk_carton.Stats.Valid.{class_valid, keys}

-- `k` captures of the selected requests are still to be counted.
abbrev pub Requests : ℕ → ℕ → StatsValues → Type 0
Requests n k v =
    (v.observed ≡ n)
    × (v.queued ≡ n)
    × (v.streaming ≤ n)
    × (v.eligible ≤ n)
    × (v.selected ≤ v.eligible)
    × (v.captured + v.oversized + v.capture_failed + k ≤ v.selected)
    × (v.traces_persisted ≡ v.captured)
    × (v.trace_persist_failures ≡ v.capture_failed)

abbrev pub Endpoints : ℕ → StatsValues → Type 0
Endpoints n v = v.chat_completions + v.responses ≡ n

abbrev pub Parses : ℕ → StatsValues → Type 0
Parses n v = v.request_parse_success + v.request_parse_failure ≡ n

abbrev pub Captures : ℕ → StatsValues → Type 0
Captures n v = v.captured + v.not_selected + v.oversized + v.interrupted + v.capture_failed ≡ n

abbrev pub Routes : ℕ → StatsValues → Type 0
Routes n v =
    (v.route_eligible + v.route_ineligible ≡ n)
    × (v.route_selected + v.route_not_selected ≡ v.route_eligible)
    × (sum (values v.route_blocked_reason_counts) ≡ v.route_ineligible)
    × (v.candidate + sum (values v.route_fallback_counts) ≡ v.route_selected)
    × (v.route_ineligible + v.route_not_selected + sum (values v.route_fallback_counts)
        ≡ v.baseline)
    × (All IsPositive (values v.route_blocked_reason_counts))
    × (All IsPositive (values v.route_fallback_counts))

abbrev pub Statuses : ℕ → StatsValues → Type 0
Statuses n v = v.status_2xx + v.status_4xx + v.status_5xx + v.status_other + v.status_missing ≡ n

abbrev pub Sizes : ℕ → StatsValues → Type 0
Sizes n v = (sum v.request_size_buckets ≡ n) × (length v.request_size_buckets ≡ 8)

-- The last of the 64 classes is the one that stands for all others.
abbrev pub Bounded : List (Bytes × ℕ) → Type 0
Bounded errors =
    (length errors ≤ 63) ⊎ ((length errors ≤ 64) × (contains_key (codes "other") errors ≡ true))

abbrev pub IsClass : Bytes → Type 0
IsClass class = class_valid class ≡ true

abbrev pub Errors : ℕ → StatsValues → Type 0
Errors n v =
    (sum (values v.errors) ≤ n)
    × (All IsPositive (values v.errors))
    × (All IsClass (keys v.errors))
    × (Bounded v.errors)

abbrev pub Latencies : ℕ → StatsValues → Type 0
Latencies n v = (LatencyAccounts n v.ttft) × (LatencyAccounts n v.completion)

-- How many observations each group has counted.
pub record Progress : Type 0 where
  pub requests : ℕ
  pub uncaptured : ℕ
  pub endpoints : ℕ
  pub parses : ℕ
  pub captures : ℕ
  pub routes : ℕ
  pub statuses : ℕ
  pub sizes : ℕ
  pub errors : ℕ
  pub latencies : ℕ

abbrev pub Accounts : Progress → StatsValues → Type 0
Accounts p v =
    (Requests p.requests p.uncaptured v)
    × (Endpoints p.endpoints v)
    × (Parses p.parses v)
    × (Captures p.captures v)
    × (Routes p.routes v)
    × (Statuses p.statuses v)
    × (Sizes p.sizes v)
    × (Errors p.errors v)
    × (Latencies p.latencies v)

abbrev pub all_at : ℕ → Progress
all_at n = record {
  requests = n;
  uncaptured = 0;
  endpoints = n;
  parses = n;
  captures = n;
  routes = n;
  statuses = n;
  sizes = n;
  errors = n;
  latencies = n;
}

-- The outcomes that are for selected requests only.
abbrev pub takes_capture : CaptureState → Bool → Bool
takes_capture state true = true
takes_capture CaptureState.not_selected false = false
takes_capture oversized false = true
takes_capture interrupted false = false
takes_capture persist_failed false = true

abbrev pub OptionClass : Option Bytes → Type 0
OptionClass none = Unit {0}
OptionClass (some class) = IsClass class

-- What the proxy records of a request: a known endpoint, captures of selected requests only, which
-- are eligible ones, times that are `u64`, and an error class of the allowed form.
pub record IsRecorded (catalog : TraceCatalog) (state : CaptureState) (captured : Bool)
    : Type 0 where
  pub endpoint :
      (catalog.endpoint ≡ codes "chat_completions") ⊎ (catalog.endpoint ≡ codes "responses")
  pub eligible : from_bool catalog.capture_selected ≤ from_bool catalog.capture_eligible
  pub taken : from_bool (takes_capture state captured) ≤ from_bool catalog.capture_selected
  pub ttft : OptionFits catalog.ttft_ms
  pub completion : OptionFits catalog.completion_ms
  pub error : OptionClass catalog.error_class

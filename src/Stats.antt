-- ===== src/Stats.antt =====
-- The statistics of records.rs: `LatencyStats`, `StatsValues` with `observe`, `merge` and `is_empty`,
-- and the part of `validate_stats_shard` that is about the values. A `u64` is its number; a
-- `BTreeMap` is its list of entries, whose order nothing here reads.
pub mod Counted
pub mod Counts
pub mod Latency
pub mod Values
pub mod Merge
pub mod Valid
pub mod Accounts
pub mod Observed
use milk_carton.Base.{
  ℕ, Bool, true, false, ◌&&◌, ◌||◌, Option, none, some, List, [], ◌∷◌, Bytes, codes, length, leb,
  ltb, nat_eq, if◌then◌else◌, ◌==◌, ℕ-Eq, List-Eq, Eq, ◌≡◌, ◌↔◌, arith, ◌-◌,
}
use milk_carton.Route.Policy.{BaselineReason}
use milk_carton.Stats.Counts.{sat_add, bump, contains_key, bump_at, position, from_bool}
use milk_carton.Stats.Latency.{observe_latency}
use milk_carton.Stats.Values.{
  RouteBlockReason, candidate_credential_missing, content_encoding, model_mismatch, policy_absent,
  policy_expired, policy_not_yet_valid, policy_zero, query_string, reasoning_effort_mismatch,
  route_secret_missing, unsupported_capability, unsupported_content_type, unsupported_request,
  RouteFallbackReason, candidate_capacity, candidate_failure, candidate_unhealthy, RouteObservation,
  ineligible, fallback, CaptureState, oversized, interrupted, persist_failed, TraceCatalog,
  StatsValues,
}

abbrev pub request_size_bucket_upper_bytes : List ℕ
request_size_bucket_upper_bytes =
    1_024 ∷ 4_096 ∷ 16_384 ∷ 65_536 ∷ 262_144 ∷ 1_048_576 ∷ 4_194_304 ∷ []

abbrev pub max_stats_error_classes : ℕ
max_stats_error_classes = 64

abbrev pub more : ℕ → ℕ
more count = sat_add count 1

-- The discriminants of the two enumerations of reasons, by which the derived `Ord` compares the keys.
unfoldable pub block_reason_key : RouteBlockReason → ℕ
block_reason_key candidate_credential_missing = 0
block_reason_key content_encoding = 1
block_reason_key model_mismatch = 2
block_reason_key policy_absent = 3
block_reason_key policy_expired = 4
block_reason_key policy_not_yet_valid = 5
block_reason_key policy_zero = 6
block_reason_key query_string = 7
block_reason_key reasoning_effort_mismatch = 8
block_reason_key route_secret_missing = 9
block_reason_key unsupported_capability = 10
block_reason_key unsupported_content_type = 11
block_reason_key unsupported_request = 12

unfoldable pub fallback_reason_key : RouteFallbackReason → ℕ
fallback_reason_key candidate_capacity = 0
fallback_reason_key candidate_failure = 1
fallback_reason_key candidate_unhealthy = 2

unfoldable pub observe_endpoint : Bytes → StatsValues → StatsValues
observe_endpoint endpoint v =
    if endpoint == codes "chat_completions"
    then record v { chat_completions = more v.chat_completions }
    else if endpoint == codes "responses"
    then record v { responses = more v.responses }
    else v

unfoldable pub observe_parse : Bool → StatsValues → StatsValues
observe_parse true v = record v { request_parse_success = more v.request_parse_success }
observe_parse false v = record v { request_parse_failure = more v.request_parse_failure }

unfoldable pub observe_capture : CaptureState → Bool → StatsValues → StatsValues
observe_capture state true v = record v {
  captured = more v.captured;
  traces_persisted = more v.traces_persisted;
}
observe_capture CaptureState.not_selected false v = record v { not_selected = more v.not_selected }
observe_capture oversized false v = record v { oversized = more v.oversized }
observe_capture interrupted false v = record v { interrupted = more v.interrupted }
observe_capture persist_failed false v = record v {
  capture_failed = more v.capture_failed;
  trace_persist_failures = more v.trace_persist_failures;
}

unfoldable pub observe_route : RouteObservation → StatsValues → StatsValues
observe_route (ineligible reason) v = record v {
  route_ineligible = more v.route_ineligible;
  baseline = more v.baseline;
  route_blocked_reason_counts = bump (block_reason_key reason) 1 v.route_blocked_reason_counts;
}
observe_route RouteObservation.not_selected v = record v {
  route_eligible = more v.route_eligible;
  route_not_selected = more v.route_not_selected;
  baseline = more v.baseline;
}
observe_route RouteObservation.candidate v = record v {
  route_eligible = more v.route_eligible;
  route_selected = more v.route_selected;
  candidate = more v.candidate;
}
observe_route (fallback reason) v = record v {
  route_eligible = more v.route_eligible;
  route_selected = more v.route_selected;
  baseline = more v.baseline;
  route_fallback_counts = bump (fallback_reason_key reason) 1 v.route_fallback_counts;
}

unfoldable pub observe_status : Option ℕ → StatsValues → StatsValues
observe_status none v = record v { status_missing = more v.status_missing }
observe_status (some status) v =
    if leb 200 status && leb status 299
    then record v { status_2xx = more v.status_2xx }
    else if leb 400 status && leb status 499
    then record v { status_4xx = more v.status_4xx }
    else if leb 500 status && leb status 599
    then record v { status_5xx = more v.status_5xx }
    else record v { status_other = more v.status_other }

unfoldable pub observe_sizes : ℕ → ℕ → StatsValues → StatsValues
observe_sizes request_bytes response_bytes v = record v {
  request_bytes = sat_add v.request_bytes request_bytes;
  response_bytes = sat_add v.response_bytes response_bytes;
  request_size_buckets =
      bump_at (position request_bytes request_size_bucket_upper_bytes) v.request_size_buckets;
}

-- The class that an error is counted under: the map never has more than 64 classes.
unfoldable pub error_key : Bytes → List (Bytes × ℕ) → Bytes
error_key error errors =
    if contains_key error errors || ltb (length errors) (max_stats_error_classes - 1)
    then error
    else codes "other"

unfoldable pub observe_error : Option Bytes → StatsValues → StatsValues
observe_error none v = v
observe_error (some error) v = record v { errors = bump (error_key error v.errors) 1 v.errors }

unfoldable pub observe_latencies : Option ℕ → Option ℕ → StatsValues → StatsValues
observe_latencies ttft_ms completion_ms v = record v {
  ttft = observe_latency ttft_ms v.ttft;
  completion = observe_latency completion_ms v.completion;
}

-- The counters of the request that are not under a `match`.
unfoldable pub observe_request : TraceCatalog → StatsValues → StatsValues
observe_request catalog v = record v {
  observed = more v.observed;
  streaming = sat_add v.streaming (from_bool catalog.streaming);
  queued = more v.queued;
  eligible = sat_add v.eligible (from_bool catalog.capture_eligible);
  selected = sat_add v.selected (from_bool catalog.capture_selected);
}

unfoldable pub observe : TraceCatalog → CaptureState → Bool → StatsValues → StatsValues
observe catalog state captured v = observe_latencies catalog.ttft_ms catalog.completion_ms (
    observe_error catalog.error_class (
      observe_sizes catalog.request_bytes catalog.response_bytes (
        observe_status catalog.provider_status (
          observe_route catalog.route (
            observe_capture state captured (
              observe_parse catalog.request_parse_success
                (observe_endpoint catalog.endpoint (observe_request catalog v))))))))

unfoldable pub is_empty : StatsValues → Bool
is_empty v = nat_eq v.observed 0 && nat_eq v.dropped 0 && nat_eq v.stats_persist_failures 0

-- ===== src/Stats/Merge.antt =====
-- `StatsValues::merge`.
use milk_carton.Base.{List-Eq, ℕ-Eq}
use milk_carton.Stats.Counts.{sat_add, add_all, merge_counts}
use milk_carton.Stats.Latency.{merge_latency}
use milk_carton.Stats.Values.{StatsValues}

unfoldable pub merge : StatsValues → StatsValues → StatsValues
merge v other = record {
  observed = sat_add v.observed other.observed;
  chat_completions = sat_add v.chat_completions other.chat_completions;
  responses = sat_add v.responses other.responses;
  streaming = sat_add v.streaming other.streaming;
  request_parse_success = sat_add v.request_parse_success other.request_parse_success;
  request_parse_failure = sat_add v.request_parse_failure other.request_parse_failure;
  eligible = sat_add v.eligible other.eligible;
  selected = sat_add v.selected other.selected;
  captured = sat_add v.captured other.captured;
  not_selected = sat_add v.not_selected other.not_selected;
  oversized = sat_add v.oversized other.oversized;
  interrupted = sat_add v.interrupted other.interrupted;
  capture_failed = sat_add v.capture_failed other.capture_failed;
  queued = sat_add v.queued other.queued;
  dropped = sat_add v.dropped other.dropped;
  traces_persisted = sat_add v.traces_persisted other.traces_persisted;
  trace_persist_failures = sat_add v.trace_persist_failures other.trace_persist_failures;
  stats_persist_failures = sat_add v.stats_persist_failures other.stats_persist_failures;
  route_eligible = sat_add v.route_eligible other.route_eligible;
  route_ineligible = sat_add v.route_ineligible other.route_ineligible;
  route_selected = sat_add v.route_selected other.route_selected;
  route_not_selected = sat_add v.route_not_selected other.route_not_selected;
  baseline = sat_add v.baseline other.baseline;
  candidate = sat_add v.candidate other.candidate;
  route_blocked_reason_counts =
      merge_counts v.route_blocked_reason_counts other.route_blocked_reason_counts;
  route_fallback_counts = merge_counts v.route_fallback_counts other.route_fallback_counts;
  status_2xx = sat_add v.status_2xx other.status_2xx;
  status_4xx = sat_add v.status_4xx other.status_4xx;
  status_5xx = sat_add v.status_5xx other.status_5xx;
  status_other = sat_add v.status_other other.status_other;
  status_missing = sat_add v.status_missing other.status_missing;
  request_bytes = sat_add v.request_bytes other.request_bytes;
  response_bytes = sat_add v.response_bytes other.response_bytes;
  request_size_buckets = add_all v.request_size_buckets other.request_size_buckets;
  errors = merge_counts v.errors other.errors;
  ttft = merge_latency v.ttft other.ttft;
  completion = merge_latency v.completion other.completion;
}

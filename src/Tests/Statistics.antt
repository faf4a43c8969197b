-- ===== src/Tests/Statistics.antt =====
-- Tests and witnesses of Stats.
use milk_carton.Base.{
  ◌≡◌, inl, inr, refl, true, false, none, some, List, [], ◌∷◌, codes, arith, All,
}
use milk_carton.Text.Utf8.{trim, trim_start, from_utf8}
use milk_carton.Route.Decide.{chars}
use milk_carton.Stats.Values.{
  ineligible, fallback, candidate_failure, query_string, CaptureState, oversized, TraceCatalog,
  SamplingUnitKind, uncertain,
}
use milk_carton.Stats.Valid.{class_valid, stats_values_valid}
use milk_carton.Stats.Accounts.{IsClass}
use milk_carton.Stats.Observed.{Recorded, IsRecordedRequest, observe_all}
use milk_carton.Stats.Observed.Shard.{observe_all-valid}

abbrev pub failing : TraceCatalog
failing = record {
  scope = 5;
  trace_id = 11;
  occurred_at = 1_000;
  endpoint = codes "chat_completions";
  request_parse_success = true;
  streaming = true;
  route_revision = codes "r1";
  route = fallback candidate_failure;
  provider_status = some 502;
  error_class = some (codes "upstream");
  ttft_ms = none;
  completion_ms = some 120;
  request_bytes = 2_000;
  response_bytes = 10;
  sampler_id = codes "hmac_sha256_session_root_v1";
  sampling_unit_kind = SamplingUnitKind.request;
  sampling_unit_hmac_sha256 = codes "00";
  sampling_independence = uncertain;
  sampling_key_version = codes "k1";
  previous_response_hmac_sha256 = none;
  capture_basis_points = 100;
  capture_eligible = true;
  capture_selected = true;
  capture_policy_version = none;
  rights_state = codes "unknown";
  retention_until = none;
}

abbrev pub plain : TraceCatalog
plain = record {
  scope = 5;
  trace_id = 12;
  occurred_at = 1_001;
  endpoint = codes "responses";
  request_parse_success = true;
  streaming = false;
  route_revision = codes "r1";
  route = ineligible query_string;
  provider_status = some 200;
  error_class = none;
  ttft_ms = some 20;
  completion_ms = some 90;
  request_bytes = 100;
  response_bytes = 300;
  sampler_id = codes "hmac_sha256_session_root_v1";
  sampling_unit_kind = SamplingUnitKind.request;
  sampling_unit_hmac_sha256 = codes "00";
  sampling_independence = uncertain;
  sampling_key_version = codes "k1";
  previous_response_hmac_sha256 = none;
  capture_basis_points = 100;
  capture_eligible = false;
  capture_selected = false;
  capture_policy_version = none;
  rights_state = codes "unknown";
  retention_until = none;
}

upstream_IsClass : IsClass (codes "upstream")
unfolding class_valid trim trim_start chars from_utf8
upstream_IsClass = refl

abbrev requests : List Recorded
requests = (failing, oversized, false) ∷ (plain, CaptureState.not_selected, false) ∷ []

requests-IsRecordedRequest : All IsRecordedRequest requests
requests-IsRecordedRequest = (
  record {
    endpoint = inl refl;
    eligible = omega arith;
    taken = omega arith;
    ttft = tt;
    completion = omega arith;
    error = upstream_IsClass;
  },
  (
    record {
      endpoint = inr refl;
      eligible = omega arith;
      taken = omega arith;
      ttft = omega arith;
      completion = omega arith;
      error = tt;
    },
    tt,
  ),
)

observe_all-valid_example :
    (stats_values_valid (observe_all requests) ≡ true) × ((observe_all requests).observed ≡ 2)
observe_all-valid_example = observe_all-valid requests (omega arith) requests-IsRecordedRequest

-- ===== src/Stats/Values.antt =====
-- The data of the statistics: what is observed of a request, and `StatsValues`.
use milk_carton.Base.{ℕ, Bool, Option, List, Bytes}
use milk_carton.Route.Types.{Uuid, DateTime}
use milk_carton.Stats.Latency.{LatencyStats}

pub data RouteBlockReason : Type 0 where
  candidate_credential_missing content_encoding model_mismatch policy_absent : RouteBlockReason
  policy_expired policy_not_yet_valid policy_zero query_string : RouteBlockReason
  reasoning_effort_mismatch route_secret_missing unsupported_capability : RouteBlockReason
  unsupported_content_type unsupported_request : RouteBlockReason

pub data RouteFallbackReason : Type 0 where
  candidate_capacity candidate_failure candidate_unhealthy : RouteFallbackReason

pub data RouteObservation : Type 0 where
  ineligible : RouteBlockReason → RouteObservation
  not_selected : RouteObservation
  candidate : RouteObservation
  fallback : RouteFallbackReason → RouteObservation

pub data CaptureState : Type 0 where
  not_selected oversized interrupted persist_failed : CaptureState

pub data SamplingUnitKind : Type 0 where
  chat_session_header responses_conversation request : SamplingUnitKind

pub data SamplingIndependence : Type 0 where
  independent uncertain : SamplingIndependence

-- `scope` is its one field, `scope_id`.
pub record TraceCatalog : Type 0 where
  pub scope : Uuid
  pub trace_id : Uuid
  pub occurred_at : DateTime
  pub endpoint : Bytes
  pub request_parse_success : Bool
  pub streaming : Bool
  pub route_revision : Bytes
  pub route : RouteObservation
  pub provider_status : Option ℕ
  pub error_class : Option Bytes
  pub ttft_ms : Option ℕ
  pub completion_ms : Option ℕ
  pub request_bytes : ℕ
  pub response_bytes : ℕ
  pub sampler_id : Bytes
  pub sampling_unit_kind : SamplingUnitKind
  pub sampling_unit_hmac_sha256 : Bytes
  pub sampling_independence : SamplingIndependence
  pub sampling_key_version : Bytes
  pub previous_response_hmac_sha256 : Option Bytes
  pub capture_basis_points : ℕ
  pub capture_eligible : Bool
  pub capture_selected : Bool
  pub capture_policy_version : Option Bytes
  pub rights_state : Bytes
  pub retention_until : Option DateTime

pub record StatsValues : Type 0 where
  pub observed : ℕ
  pub chat_completions : ℕ
  pub responses : ℕ
  pub streaming : ℕ
  pub request_parse_success : ℕ
  pub request_parse_failure : ℕ
  pub eligible : ℕ
  pub selected : ℕ
  pub captured : ℕ
  pub not_selected : ℕ
  pub oversized : ℕ
  pub interrupted : ℕ
  pub capture_failed : ℕ
  pub queued : ℕ
  pub dropped : ℕ
  pub traces_persisted : ℕ
  pub trace_persist_failures : ℕ
  pub stats_persist_failures : ℕ
  pub route_eligible : ℕ
  pub route_ineligible : ℕ
  pub route_selected : ℕ
  pub route_not_selected : ℕ
  pub baseline : ℕ
  pub candidate : ℕ
  pub route_blocked_reason_counts : List (ℕ × ℕ)
  pub route_fallback_counts : List (ℕ × ℕ)
  pub status_2xx : ℕ
  pub status_4xx : ℕ
  pub status_5xx : ℕ
  pub status_other : ℕ
  pub status_missing : ℕ
  pub request_bytes : ℕ
  pub response_bytes : ℕ
  pub request_size_buckets : List ℕ
  pub errors : List (Bytes × ℕ)
  pub ttft : LatencyStats
  pub completion : LatencyStats

-- ===== src/Route/Types.antt =====
-- The records and enumerations of route.rs. A `String` is its bytes, a `Uuid` its number, a
-- `DateTime<Utc>` and an `Instant` are nanoseconds.
use milk_carton.Base.{ℕ, ◌*◌, Bool, true, false, ◌≡◌, ◌↔◌, Option, List, Bytes, Eq, arith}

abbrev pub Uuid : Type 0
Uuid = ℕ

abbrev pub DateTime : Type 0
DateTime = ℕ

abbrev pub Instant : Type 0
Instant = ℕ

abbrev pub seconds : ℕ → ℕ
seconds n = n * 1_000_000_000

pub record RouteStartupConfig : Type 0 where
  pub signing_public_key_hex : Bytes
  pub signing_key_id : Bytes
  pub allow_private_candidate_http : Bool
  pub candidate_max_in_flight : ℕ

pub record RouteScope : Type 0 where
  pub scope_id : Uuid

pub record RouteLivePointerWire : Type 0 where
  pub schema_version : Bytes
  pub scope : RouteScope
  pub route_revision : Bytes
  pub previous_route_revision : Option Bytes

pub record RouteLivePointer : Type 0 where
  pub scope : RouteScope
  pub route_revision : Bytes
  pub previous_route_revision : Option Bytes

pub data RouteCapability : Type 0 where
  stream responses : RouteCapability

pub data RouteTarget : Type 0 where
  baseline candidate : RouteTarget

pub data RouteEndpoint : Type 0 where
  chat_completions responses : RouteEndpoint

pub data CandidateReasoningEffort : Type 0 where
  low medium high max : CandidateReasoningEffort

pub data HarnessProfile : Type 0 where
  mechanics production : HarnessProfile

pub record OperatorRouteCandidate : Type 0 where
  pub eval_sha256 : Bytes
  pub candidate_id : Bytes
  pub api_base_url : Bytes
  pub model : Bytes
  pub candidate_api_key_sha256 : Bytes
  pub supported_capabilities : List RouteCapability
  pub reasoning_effort : Option CandidateReasoningEffort
  pub max_input_utf8_bytes : ℕ
  pub max_input_messages : ℕ
  pub max_input_request_bytes : ℕ

pub record HarnessTeacherBinding : Type 0 where
  pub api_url : Bytes
  pub model : Bytes
  pub reasoning_effort : Bytes
  pub timeout_seconds : ℕ
  pub max_input_tokens : ℕ
  pub max_output_tokens : ℕ

pub record HarnessPromptDigests : Type 0 where
  pub classifier : Bytes
  pub eval_generation : Bytes
  pub eval_validation : Bytes

pub record HarnessJobIds : Type 0 where
  pub classifier : Bytes
  pub eval_generation : Bytes
  pub eval_validation : Bytes
  pub candidate_score : Bytes

pub record HarnessTeacherResultDigests : Type 0 where
  pub classifier : Bytes
  pub eval_generation : Bytes
  pub eval_validation : Bytes

-- Without the binding of the candidate score, which nothing in route.rs reads.
pub record OperatorRouteProvenance : Type 0 where
  pub harness_revision : Bytes
  pub config_sha256 : Bytes
  pub taxonomy_version : Bytes
  pub prompt_sha256s : HarnessPromptDigests
  pub teacher : HarnessTeacherBinding
  pub job_ids : HarnessJobIds
  pub teacher_result_sha256s : HarnessTeacherResultDigests
  pub provider_tokens : ℕ

pub record OperatorRouteProposal : Type 0 where
  pub schema_version : Bytes
  pub scope_id : Uuid
  pub profile : HarnessProfile
  pub series_id : Bytes
  pub code_version : Bytes
  pub source_manifest_sha256 : Bytes
  pub summary_sha256 : Bytes
  pub readiness_sha256 : Bytes
  pub eval_sha256 : Bytes
  pub eval_validation_sha256 : Bytes
  pub candidate_score_sha256 : Bytes
  pub candidate_id : Bytes
  pub api_base_url : Bytes
  pub model : Bytes
  pub candidate_basis_points : ℕ
  pub provenance : OperatorRouteProvenance

pub record OperatorRouteManifest : Type 0 where
  pub schema_version : Bytes
  pub scope : RouteScope
  pub proposal_sha256 : Bytes
  pub profile : HarnessProfile
  pub candidate : Option OperatorRouteCandidate
  pub candidate_basis_points : ℕ
  pub previous_route_revision : Option Bytes
  pub route_secret_sha256 : Option Bytes
  pub not_before : DateTime
  pub not_after : DateTime
  pub signing_key_id : Bytes

pub record RuntimeRouteCandidate : Type 0 where
  pub model : Bytes
  pub candidate_api_key_sha256 : Bytes
  pub supported_capabilities : List RouteCapability
  pub reasoning_effort : Option CandidateReasoningEffort
  pub max_input_utf8_bytes : ℕ
  pub max_input_messages : ℕ
  pub max_input_request_bytes : ℕ
  pub candidate_sha256 : Bytes
  pub artifact_sha256 : Bytes

pub record RuntimeRouteManifest : Type 0 where
  pub candidate : Option RuntimeRouteCandidate
  pub candidate_basis_points : ℕ
  pub route_secret_sha256 : Option Bytes
  pub not_before : DateTime
  pub not_after : DateTime

pub record RoutePublication : Type 0 where
  pub has_candidate : Bool
  pub revision : Bytes
  pub cohort_sha256 : Bytes
  pub proposal_sha256 : Bytes
  pub candidate_api_key_sha256 : Option Bytes
  pub candidate_basis_points : ℕ
  pub previous_route_revision : Option Bytes
  pub not_after : DateTime

unfoldable pub capability_eq : RouteCapability → RouteCapability → Bool
capability_eq stream stream = true
capability_eq responses responses = true
capability_eq _ _ = false

pub capability_eq_iff : (a b : RouteCapability) → (capability_eq a b ≡ true) ↔ (a ≡ b)
unfolding capability_eq
capability_eq_iff a b = ground arith

instance abbrev pub RouteCapability-Eq : Eq RouteCapability
RouteCapability-Eq = record { beq = capability_eq; beq_iff = capability_eq_iff }

unfoldable pub effort_eq : CandidateReasoningEffort → CandidateReasoningEffort → Bool
effort_eq low low = true
effort_eq medium medium = true
effort_eq high high = true
effort_eq max max = true
effort_eq _ _ = false

pub effort_eq_iff : (a b : CandidateReasoningEffort) → (effort_eq a b ≡ true) ↔ (a ≡ b)
unfolding effort_eq
effort_eq_iff a b = ground arith

instance abbrev pub CandidateReasoningEffort-Eq : Eq CandidateReasoningEffort
CandidateReasoningEffort-Eq = record { beq = effort_eq; beq_iff = effort_eq_iff }

unfoldable pub profile_eq : HarnessProfile → HarnessProfile → Bool
profile_eq mechanics mechanics = true
profile_eq production production = true
profile_eq _ _ = false

pub profile_eq_iff : (a b : HarnessProfile) → (profile_eq a b ≡ true) ↔ (a ≡ b)
unfolding profile_eq
profile_eq_iff a b = ground arith

instance abbrev pub HarnessProfile-Eq : Eq HarnessProfile
HarnessProfile-Eq = record { beq = profile_eq; beq_iff = profile_eq_iff }

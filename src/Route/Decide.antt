-- ===== src/Route/Decide.antt =====
-- `RoutePolicy::decide` with `parse_candidate_request` and `candidate_input_items`.
pub mod Admits
pub mod Laws
use milk_carton.Base.{
  ℕ, ◌+◌, ◌-◌, ◌*◌, Bool, true, false, ◌&&◌, ◌||◌, not, Option, none, some, List, [], ◌∷◌, ◌++◌,
  Bytes, String, codes, length, any, leb, ltb, nat_eq, if◌then◌else◌, ◌==◌, ℕ-Eq, List-Eq,
  Option-Eq,
}
use mathlib.Core.Option
use mathlib.Core.Option.{get_or}
use milk_carton.Sampling.{sticky_sample, selected}
use milk_carton.Text.{is_json_content_type}
use milk_carton.Text.Utf8.{from_utf8, trim, trim_start}
use milk_carton.Route.Types.{
  RouteCapability, stream, responses, RouteCapability-Eq, CandidateReasoningEffort-Eq,
  RuntimeRouteCandidate, Instant, RouteTarget, RouteEndpoint,
}
use milk_carton.Route.Url.{Url}
use milk_carton.Route.Libs.{
  Libs, CandidateRequestMetadata, CandidateChat, CandidateResponses, CandidateResponsesReasoning,
}
use milk_carton.Route.Policy.{
  BaselineReason, policy_zero, policy_expired, unsupported_content_type, content_encoding,
  query_string, unsupported_request, model_mismatch, unsupported_capability,
  reasoning_effort_mismatch, not_sampled, ActiveRoute, RouteState, dormant, active, RoutePolicy,
}

pub record RouteRequest : Type 0 where
  pub endpoint : RouteEndpoint
  pub body : Bytes
  pub content_type : Option Bytes
  pub has_multiple_content_types : Bool
  pub has_content_encoding : Bool
  pub has_openai_beta : Bool
  pub query : Bytes
  pub routing_cohort : Bytes

pub record CandidateRoute : Type 0 where
  pub endpoint : Url
  pub candidate_sha256 : Bytes
  pub artifact_sha256 : Bytes
  pub deployment_sha256 : Bytes
  pub candidate_api_key_sha256 : Bytes
  pub max_in_flight : ℕ

pub record RouteDecision : Type 0 where
  pub target : RouteTarget
  pub route_revision : Bytes
  pub candidate : Option CandidateRoute
  pub baseline_reason : Option BaselineReason

unfoldable pub candidate_route : ActiveRoute → RuntimeRouteCandidate → CandidateRoute
candidate_route route candidate = record {
  endpoint = route.endpoint;
  candidate_sha256 = candidate.candidate_sha256;
  artifact_sha256 = candidate.artifact_sha256;
  deployment_sha256 = route.deployment_sha256;
  candidate_api_key_sha256 = candidate.candidate_api_key_sha256;
  max_in_flight = route.max_in_flight;
}

-- `RoutePolicy::candidate`; the code panics where an active route has no candidate.
unfoldable pub policy_candidate : RoutePolicy → Option CandidateRoute
policy_candidate policy = elim policy.state [
  | dormant reason ↦ none
  | active route ↦ Option.map (candidate_route route) route.manifest.candidate
]

unfoldable pub baseline_decision : RoutePolicy → BaselineReason → RouteDecision
baseline_decision policy reason = record {
  target = RouteTarget.baseline;
  route_revision = policy.revision;
  candidate = none;
  baseline_reason = some reason;
}

-- A step of `decide`, which returns early with a reason.
pub data Check {ℓ} (A : Type ℓ) : Type ℓ where
  pass : A → Check A
  blocked : BaselineReason → Check A

infixl 5 ◌>>=◌ ◌>>◌
abbrev pub ◌>>=◌ {ℓ κ} : {A : Type ℓ} {B : Type κ} → Check A → (A → Check B) → Check B
pass a >>= f = f a
blocked r >>= f = blocked r

abbrev pub ◌>>◌ {ℓ} : {B : Type ℓ} → Check (Unit {0}) → Check B → Check B
m >> k = m >>= λ _. k

abbrev pub block_if : Bool → BaselineReason → Check (Unit {0})
block_if true reason = blocked reason
block_if false reason = pass tt

abbrev pub or_block {ℓ} : {A : Type ℓ} → Option A → BaselineReason → Check A
or_block none reason = blocked reason
or_block (some a) reason = pass a

-- The decision that the checks end in.
unfoldable pub settle : RoutePolicy → Check CandidateRoute → RouteDecision
settle policy (blocked reason) = baseline_decision policy reason
settle policy (pass chosen) = record {
  target = RouteTarget.candidate;
  route_revision = policy.revision;
  candidate = some chosen;
  baseline_reason = none;
}

-- The characters of a `str`, which is always UTF-8.
unfoldable pub chars : Bytes → List ℕ
chars value = get_or (from_utf8 value) []

unfoldable pub contains : List RouteCapability → RouteCapability → Bool
contains capabilities capability = any (λ c. c == capability) capabilities

unfoldable pub is_responses : RouteEndpoint → Bool
is_responses RouteEndpoint.chat_completions = false
is_responses RouteEndpoint.responses = true

unfoldable pub stream_flag : Option Bytes → Check Bool
stream_flag none = pass false
stream_flag (some value) =
    let text = trim (chars value) in
    if text == codes "false"
    then pass false
    else if text == codes "true"
    then pass true
    else blocked unsupported_request

module _ (libs : Libs) where
  open libs use {crypto, parse_chat_json, parse_responses_json, parse_array_json}

  unfoldable pub parse_candidate_request : RouteEndpoint → Bytes → Option CandidateRequestMetadata
  parse_candidate_request RouteEndpoint.chat_completions body =
      Option.map
        (λ (parsed : CandidateChat). record {
          model = parsed.model;
          input = some parsed.messages;
          stream = parsed.stream;
          reasoning_effort = parsed.reasoning_effort;
        })
        (parse_chat_json body)
  parse_candidate_request RouteEndpoint.responses body =
      Option.map
        (λ (parsed : CandidateResponses). record {
          model = parsed.model;
          input = parsed.input;
          stream = parsed.stream;
          reasoning_effort = Option.bind parsed.reasoning (λ reasoning. reasoning.effort);
        })
        (parse_responses_json body)

  unfoldable pub input_items : List ℕ → Option ℕ
  input_items [] = none
  input_items (c ∷ rest) =
      if nat_eq c b'['
      then parse_array_json (c ∷ rest)
      else if nat_eq c b'"' || nat_eq c b'{'
      then some 1
      else none

  unfoldable pub candidate_input_items : Bytes → Option ℕ
  candidate_input_items input = input_items (trim_start (chars input))

  -- The body's part that `decide` bounds.
  unfoldable pub check_input : RuntimeRouteCandidate → Option Bytes → Check (Unit {0})
  check_input candidate none = pass tt
  check_input candidate (some input) = do
    items ← or_block (candidate_input_items input) unsupported_request
    block_if
        (ltb candidate.max_input_messages items
          || ltb candidate.max_input_utf8_bytes (length input))
        unsupported_capability

  unfoldable pub check_request : ActiveRoute → RouteRequest → Instant → Check CandidateRoute
  check_request route request monotonic_now = do
    block_if (leb route.expires_at monotonic_now) policy_expired
    candidate ← or_block route.manifest.candidate policy_zero
    block_if (request.has_multiple_content_types || not (is_json_content_type request.content_type))
        unsupported_content_type
    block_if request.has_content_encoding content_encoding
    block_if request.has_openai_beta unsupported_capability
    block_if (not (nat_eq (length request.query) 0)) query_string
    block_if (ltb candidate.max_input_request_bytes (length request.body)) unsupported_capability
    block_if
        (is_responses request.endpoint && not (contains candidate.supported_capabilities responses))
        unsupported_capability
    parsed ← or_block (parse_candidate_request request.endpoint request.body) unsupported_request
    block_if (not (parsed.model == candidate.model)) model_mismatch
    block_if (not (parsed.reasoning_effort == candidate.reasoning_effort)) reasoning_effort_mismatch
    check_input candidate parsed.input
    streaming ← stream_flag parsed.stream
    block_if (streaming && not (contains candidate.supported_capabilities stream))
        unsupported_capability
    block_if
        (not (
          selected (sticky_sample crypto route.hmac_key route.cohort_sha256 request.routing_cohort)
            route.manifest.candidate_basis_points))
        not_sampled
    pass (candidate_route route candidate)

  -- A dormant policy returns its reason first.
  unfoldable pub check_state : RouteState → RouteRequest → Instant → Check CandidateRoute
  check_state (dormant reason) request monotonic_now = blocked reason
  check_state (active route) request monotonic_now = check_request route request monotonic_now

  unfoldable pub decide : RoutePolicy → RouteRequest → Instant → RouteDecision
  decide policy request monotonic_now =
      settle policy (check_state policy.state request monotonic_now)

-- ===== src/Route/Validate.antt =====
-- `validate_operator_candidate`, `validate_operator_manifest` and `verify_signature`.
use milk_carton.Base.{
  ℕ, ◌-◌, ◌*◌, Bool, false, ◌||◌, not, Option, none, some, List, [], ◌∷◌, ◌++◌, Bytes, codes,
  length, any, leb, ltb, nat_eq, if◌then◌else◌, ◌==◌, ℕ-Eq, List-Eq, Result, ok, err, bail_if,
  context, transpose, ◌>>=◌, ◌>>◌,
}
use mathlib.Core.Option
use milk_carton.Hex.{decode_lowercase_hex_32}
use milk_carton.Text.{valid_bounded_ascii, valid_model_alias}
use milk_carton.Route.Types.{
  RouteStartupConfig, RouteScope, RouteCapability, RouteCapability-Eq, production,
  HarnessProfile-Eq, OperatorRouteCandidate, OperatorRouteManifest, seconds,
}
use milk_carton.Route.Url.{Url, is_some, validate_candidate_api_base_url}
use milk_carton.Route.Libs.{Libs}

unfoldable pub operator_route_schema_version : Bytes
operator_route_schema_version = codes "milk.route.v1"

abbrev pub max_route_manifest_bytes : ℕ
max_route_manifest_bytes = 8 * 1024

abbrev pub ed25519_signature_bytes : ℕ
ed25519_signature_bytes = 64

abbrev pub max_key_id_bytes : ℕ
max_key_id_bytes = 128

abbrev max_execution_id_bytes : ℕ
max_execution_id_bytes = 256

abbrev max_capabilities : ℕ
max_capabilities = 8

abbrev pub candidate_max_input_utf8_bytes : ℕ
candidate_max_input_utf8_bytes = 2048

abbrev pub candidate_max_input_messages : ℕ
candidate_max_input_messages = 16

abbrev pub candidate_max_input_request_bytes : ℕ
candidate_max_input_request_bytes = 16384

abbrev pub max_route_validity : ℕ
max_route_validity = seconds (24 * 60 * 60)

abbrev pub max_publication_start_delay : ℕ
max_publication_start_delay = seconds (5 * 60)

-- The loop over the capabilities, each looked for among those before it.
has_duplicate : List RouteCapability → List RouteCapability → Bool
has_duplicate before [] = false
has_duplicate before (capability ∷ rest) =
    any (λ c. c == capability) before || has_duplicate (before ++ capability ∷ []) rest

module _ (libs : Libs) where
  open libs use {verify_ed25519, parse_url}

  unfoldable pub validate_operator_candidate :
      RouteStartupConfig → OperatorRouteCandidate → Result Url
  unfolding has_duplicate
  validate_operator_candidate config candidate = do
    decode_lowercase_hex_32 candidate.eval_sha256 "route proposal eval SHA-256"
    bail_if (not (valid_bounded_ascii candidate.candidate_id max_execution_id_bytes))
        "operator route candidate ID is invalid"
    bail_if (not (valid_model_alias candidate.model)) "operator route candidate model is invalid"
    decode_lowercase_hex_32 candidate.candidate_api_key_sha256 "candidate API key SHA-256"
    bail_if (ltb max_capabilities (length candidate.supported_capabilities))
        "operator route candidate has too many supported capabilities"
    bail_if (has_duplicate [] candidate.supported_capabilities)
        "operator route candidate contains a duplicate capability"
    bail_if
        (not (nat_eq candidate.max_input_utf8_bytes candidate_max_input_utf8_bytes)
          || not (nat_eq candidate.max_input_messages candidate_max_input_messages)
          || not (nat_eq candidate.max_input_request_bytes candidate_max_input_request_bytes))
        "operator route candidate input bounds are unsupported"
    validate_candidate_api_base_url parse_url candidate.api_base_url
        config.allow_private_candidate_http

  -- The `match` on the candidate and its share.
  unfoldable pub validate_share :
      RouteStartupConfig
      → OperatorRouteManifest
      → Option OperatorRouteCandidate
      → Result (Option Url)
  validate_share config manifest none =
      if nat_eq manifest.candidate_basis_points 0
      then (do
        bail_if (is_some manifest.route_secret_sha256)
            "baseline-only route cannot contain a route secret digest"
        ok none)
      else err "baseline-only route must use zero candidate basis points"
  validate_share config manifest (some candidate) =
      if nat_eq manifest.candidate_basis_points 0
      then err "zero-basis-point route must not contain a candidate"
      else if leb manifest.candidate_basis_points 10000
      then (do
        bail_if (not (manifest.profile == production))
            "candidate routes require production-qualified evidence"
        route_secret ←
            context manifest.route_secret_sha256 "candidate route requires a route secret digest"
        decode_lowercase_hex_32 route_secret "route secret SHA-256"
        url ← validate_operator_candidate config candidate
        ok (some url))
      else err "candidate_basis_points cannot exceed 10000"

  unfoldable pub validate_operator_manifest :
      RouteStartupConfig → RouteScope → OperatorRouteManifest → Result (Option Url)
  validate_operator_manifest config expected_scope manifest = do
    bail_if (not (manifest.schema_version == operator_route_schema_version))
        "operator route manifest has an unsupported schema version"
    bail_if (not (nat_eq manifest.scope.scope_id expected_scope.scope_id))
        "operator route manifest scope does not match startup configuration"
    bail_if
        (nat_eq (length config.signing_key_id) 0
          || ltb max_key_id_bytes (length config.signing_key_id)
          || not (manifest.signing_key_id == config.signing_key_id))
        "operator route manifest signing key ID does not match startup configuration"
    bail_if
        (leb manifest.not_after manifest.not_before
          || ltb max_route_validity (manifest.not_after - manifest.not_before))
        "operator route validity must be positive and no longer than 24 hours"
    decode_lowercase_hex_32 manifest.proposal_sha256 "route proposal SHA-256"
    transpose (
        Option.map (λ value. decode_lowercase_hex_32 value "previous route revision")
          manifest.previous_route_revision)
    validate_share config manifest manifest.candidate

  unfoldable pub verify_signature : RouteStartupConfig → Bytes → Bytes → Result (Unit {0})
  verify_signature config manifest_bytes signature_bytes = do
    bail_if (ltb max_route_manifest_bytes (length manifest_bytes))
        "route manifest exceeds 8192 bytes"
    bail_if (not (nat_eq (length signature_bytes) ed25519_signature_bytes))
        "route signature must contain exactly 64 raw bytes"
    public_key ← decode_lowercase_hex_32 config.signing_public_key_hex "route signing public key"
    bail_if (not (verify_ed25519 public_key manifest_bytes signature_bytes))
        "route signature verification failed"

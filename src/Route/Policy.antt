-- ===== src/Route/Policy.antt =====
-- `RoutePolicy`: its states, `baseline`, `from_signed_bytes` and `RouteStartupConfig::validate_common`.
pub mod Activation
use milk_carton.Base.{
  ℕ, ◌+◌, ◌-◌, ◌*◌, Bool, true, false, ◌&&◌, ◌||◌, not, Option, none, some, List, [], ◌∷◌, ◌++◌,
  Bytes, String, codes, length, any, leb, ltb, nat_eq, if◌then◌else◌, ◌==◌, ℕ-Eq, List-Eq, Result,
  ok, err, bail_if, context, transpose, ◌>>=◌, ◌>>◌,
}
use mathlib.Core.Option
use milk_carton.Hex.{decode_lowercase_hex_32, hex_digest}
use milk_carton.Route.Types.{
  RouteStartupConfig, RouteScope, RuntimeRouteCandidate, RuntimeRouteManifest, DateTime, Instant,
}
use milk_carton.Route.Url.{Url, is_none}
use milk_carton.Route.Libs.{Libs}
use milk_carton.Route.Validate.{verify_signature, max_key_id_bytes}
use milk_carton.Route.Manifest.{ParsedRouteManifest, parse_manifest}

pub data BaselineReason : Type 0 where
  policy_absent policy_zero policy_expired policy_not_yet_valid : BaselineReason
  route_secret_missing candidate_credential_missing : BaselineReason
  unsupported_content_type content_encoding query_string unsupported_request : BaselineReason
  model_mismatch unsupported_capability reasoning_effort_mismatch not_sampled : BaselineReason

pub record ActiveRoute : Type 0 where
  pub manifest : RuntimeRouteManifest
  pub endpoint : Url
  pub cohort_sha256 : Bytes
  pub deployment_sha256 : Bytes
  pub expires_at : Instant
  pub hmac_key : Bytes
  pub max_in_flight : ℕ

pub data RouteState : Type 0 where
  dormant : BaselineReason → RouteState
  active : ActiveRoute → RouteState

pub record RoutePolicy : Type 0 where
  pub revision : Bytes
  pub state : RouteState

unfoldable pub baseline : RoutePolicy
baseline = record { revision = codes "openai-baseline-v1"; state = dormant policy_absent }

unfoldable pub validate_common : RouteStartupConfig → ℕ → Result (Unit {0})
validate_common config gateway_max_in_flight = do
  decode_lowercase_hex_32 config.signing_public_key_hex "route signing public key"
  bail_if
      (nat_eq (length config.signing_key_id) 0
        || ltb max_key_id_bytes (length config.signing_key_id))
      "route signing key ID is invalid"
  bail_if
      (ltb gateway_max_in_flight 2
        || nat_eq config.candidate_max_in_flight 0
        || leb gateway_max_in_flight config.candidate_max_in_flight)
      "candidate_max_in_flight must reserve at least one baseline request slot"

-- Why a verified manifest is not in force.
unfoldable pub dormant_reason :
    RuntimeRouteManifest → DateTime → Option Bytes → Option Bytes → Option BaselineReason
dormant_reason manifest wall_now route_secret_hex candidate_api_key =
    if leb manifest.not_after wall_now
    then some policy_expired
    else if ltb wall_now manifest.not_before
    then some policy_not_yet_valid
    else if nat_eq manifest.candidate_basis_points 0
    then some policy_zero
    else if is_none route_secret_hex
    then some route_secret_missing
    else if is_none candidate_api_key
    then some candidate_credential_missing
    else none

module _ (libs : Libs) where
  open libs use {sha256, last_instant}

  -- Only a secret and a digest that are both there are compared.
  unfoldable pub check_route_secret : Option Bytes → Option Bytes → Result (Unit {0})
  check_route_secret (some route_secret) (some expected) = do
    expected_route_secret_sha256 ← decode_lowercase_hex_32 expected "route secret SHA-256"
    bail_if (not (sha256 route_secret == expected_route_secret_sha256))
        "route secret does not match the signed manifest"
  check_route_secret _ _ = ok tt

  unfoldable pub activate :
      RouteStartupConfig
      → Option Bytes
      → Option Bytes
      → DateTime
      → Instant
      → ParsedRouteManifest
      → Result RoutePolicy
  activate config secret api_key wall_now monotonic_now parsed = do
    route_secret ← context secret "active route secret is missing"
    candidate_api_key ← context api_key "active candidate API key is missing"
    candidate ← context parsed.manifest.candidate "active route is missing its candidate"
    expected_candidate_api_key_sha256 ←
        decode_lowercase_hex_32 candidate.candidate_api_key_sha256 "candidate API key SHA-256"
    bail_if (not (sha256 candidate_api_key == expected_candidate_api_key_sha256))
        "candidate API key differs from the admitted credential"
    let expires_at = monotonic_now + (parsed.manifest.not_after - wall_now)
    bail_if (ltb last_instant expires_at) "route expiry overflows the monotonic clock"
    endpoint ← context parsed.endpoint "active route is missing its candidate endpoint"
    ok (record {
      revision = hex_digest parsed.revision;
      state = active (record {
        manifest = parsed.manifest;
        endpoint = endpoint;
        cohort_sha256 = parsed.cohort_sha256;
        deployment_sha256 = hex_digest parsed.deployment_sha256;
        expires_at = expires_at;
        hmac_key = route_secret;
        max_in_flight = config.candidate_max_in_flight;
      });
    })

  unfoldable pub from_signed_bytes :
      RouteStartupConfig
      → RouteScope
      → Option Bytes
      → Option Bytes
      → ℕ
      → DateTime
      → Instant
      → Bytes
      → Bytes
      → Result RoutePolicy
  from_signed_bytes config expected_scope route_secret_hex candidate_api_key gateway_max_in_flight
        wall_now monotonic_now manifest_bytes signature_bytes =
      do
        verify_signature libs config manifest_bytes signature_bytes
        parsed ← parse_manifest libs config expected_scope manifest_bytes
        validate_common config gateway_max_in_flight
        route_secret ←
            transpose
              (Option.map (λ value. decode_lowercase_hex_32 value "route secret") route_secret_hex)
        check_route_secret route_secret parsed.manifest.route_secret_sha256
        elim (dormant_reason parsed.manifest wall_now route_secret_hex candidate_api_key) [
          | some reason ↦
              ok (record { revision = hex_digest parsed.revision; state = dormant reason })
          | none ↦ activate config route_secret candidate_api_key wall_now monotonic_now parsed
        ]

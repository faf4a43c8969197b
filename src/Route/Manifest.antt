-- ===== src/Route/Manifest.antt =====
-- `parse_manifest` with `parse_operator_manifest`, and `RoutePublication::parse`.
pub mod Parsed
use milk_carton.Base.{
  ℕ, ◌+◌, ◌-◌, ◌*◌, Bool, true, false, ◌&&◌, ◌||◌, not, Option, none, some, List, [], ◌∷◌, ◌++◌,
  Bytes, String, codes, length, any, leb, ltb, nat_eq, if◌then◌else◌, ◌==◌, ℕ-Eq, List-Eq, Result,
  ok, err, bail_if, context, transpose, ◌>>=◌, ◌>>◌,
}
use mathlib.Core.Option
use milk_carton.Hex.{decode_lowercase_hex_32, hex_digest}
use milk_carton.Text.{valid_bounded_ascii, valid_model_alias}
use milk_carton.Route.Types.{
  RouteStartupConfig, RouteScope, RouteCapability, RouteCapability-Eq, HarnessProfile, production,
  HarnessProfile-Eq, OperatorRouteCandidate, OperatorRouteManifest, RuntimeRouteCandidate,
  RuntimeRouteManifest, RoutePublication, DateTime, seconds,
}
use milk_carton.Route.Url.{Url, is_some, validate_candidate_api_base_url}
use milk_carton.Route.Libs.{Libs}
use milk_carton.Route.Validate.{
  max_route_manifest_bytes, max_route_validity, max_publication_start_delay, verify_signature,
  validate_operator_manifest,
}

-- What `parse_operator_manifest` returns.
pub record ParsedRouteManifest : Type 0 where
  pub manifest : RuntimeRouteManifest
  pub endpoint : Option Url
  pub cohort_sha256 : Bytes
  pub deployment_sha256 : Bytes
  pub revision : Bytes
  pub publication : RoutePublication

-- The candidate of a manifest at run time, its digest, the digest of its deployment and that of its
-- API key; a manifest with no candidate has zero digests.
pub record RuntimeIdentity : Type 0 where
  pub candidate : Option RuntimeRouteCandidate
  pub candidate_sha256 : Bytes
  pub deployment_sha256 : Bytes
  pub candidate_api_key_sha256 : Option Bytes

abbrev zero_digest : Bytes
zero_digest = let eight = 0 ∷ 0 ∷ 0 ∷ 0 ∷ 0 ∷ 0 ∷ 0 ∷ 0 ∷ [] in eight ++ eight ++ eight ++ eight

-- The test of `RoutePublication::parse` on the validity.
unfoldable pub outside_window : RuntimeRouteManifest → Option DateTime → Bool
outside_window manifest none = false
outside_window manifest (some now) =
    leb manifest.not_after now
    || ltb (now + max_route_validity) manifest.not_after
    || ltb (now + max_publication_start_delay) manifest.not_before

module _ (libs : Libs) where
  open libs use {sha256, parse_manifest_json, manifest_json, candidate_json}

  unfoldable pub runtime_identity : Option OperatorRouteCandidate → Result RuntimeIdentity
  runtime_identity none = ok (record {
    candidate = none;
    candidate_sha256 = zero_digest;
    deployment_sha256 = zero_digest;
    candidate_api_key_sha256 = none;
  })
  runtime_identity (some candidate) = do
    let candidate_sha256 = sha256 (candidate_json candidate)
    let artifact_sha256 = sha256 (codes "milk.route-model.v1" ++ 0 ∷ candidate.model)
    let deployment_sha256 = sha256 (codes "milk.route-deployment.v1" ++ 0 ∷ candidate.api_base_url)
    candidate_api_key_sha256 ←
        decode_lowercase_hex_32 candidate.candidate_api_key_sha256 "candidate API key SHA-256"
    ok (record {
      candidate = some (record {
        model = candidate.model;
        candidate_api_key_sha256 = candidate.candidate_api_key_sha256;
        supported_capabilities = candidate.supported_capabilities;
        reasoning_effort = candidate.reasoning_effort;
        max_input_utf8_bytes = candidate.max_input_utf8_bytes;
        max_input_messages = candidate.max_input_messages;
        max_input_request_bytes = candidate.max_input_request_bytes;
        candidate_sha256 = hex_digest candidate_sha256;
        artifact_sha256 = hex_digest artifact_sha256;
      });
      candidate_sha256 = candidate_sha256;
      deployment_sha256 = deployment_sha256;
      candidate_api_key_sha256 = some candidate_api_key_sha256;
    })

  -- The record that `parse_operator_manifest` builds once all fields are decoded.
  unfoldable pub assemble :
      Bytes
      → OperatorRouteManifest
      → Option Url
      → Bytes
      → Option Bytes
      → RuntimeIdentity
      → ParsedRouteManifest
  assemble manifest_bytes manifest endpoint proposal_sha256 previous_route_revision identity =
      let cohort_sha256 : Bytes =
        if is_some identity.candidate then identity.candidate_sha256 else proposal_sha256 in
      record {
        manifest = record {
          candidate = identity.candidate;
          candidate_basis_points = manifest.candidate_basis_points;
          route_secret_sha256 = manifest.route_secret_sha256;
          not_before = manifest.not_before;
          not_after = manifest.not_after;
        };
        endpoint = endpoint;
        cohort_sha256 = cohort_sha256;
        deployment_sha256 = identity.deployment_sha256;
        revision = sha256 manifest_bytes;
        publication = record {
          has_candidate = is_some identity.candidate;
          revision = sha256 manifest_bytes;
          cohort_sha256 = cohort_sha256;
          proposal_sha256 = proposal_sha256;
          candidate_api_key_sha256 = identity.candidate_api_key_sha256;
          candidate_basis_points = manifest.candidate_basis_points;
          previous_route_revision = previous_route_revision;
          not_after = manifest.not_after;
        };
      }

  -- The canonical JSON of a manifest.
  unfoldable pub canonical_manifest : Bytes → Result OperatorRouteManifest
  canonical_manifest manifest_bytes = do
    manifest ←
        context (parse_manifest_json manifest_bytes)
          "operator route manifest is not strict typed JSON"
    bail_if (not (manifest_json manifest == manifest_bytes)) "route manifest is not canonical JSON"
    ok manifest

  unfoldable pub parse_operator_manifest :
      RouteStartupConfig → RouteScope → Bytes → Result ParsedRouteManifest
  parse_operator_manifest config expected_scope manifest_bytes = do
    manifest ← canonical_manifest manifest_bytes
    endpoint ← validate_operator_manifest libs config expected_scope manifest
    proposal_sha256 ← decode_lowercase_hex_32 manifest.proposal_sha256 "route proposal SHA-256"
    previous_route_revision ← transpose (
        Option.map (λ value. decode_lowercase_hex_32 value "previous route revision")
          manifest.previous_route_revision)
    transpose (
        Option.map (λ value. decode_lowercase_hex_32 value "route secret SHA-256")
          manifest.route_secret_sha256)
    identity ← runtime_identity manifest.candidate
    ok (assemble manifest_bytes manifest endpoint proposal_sha256 previous_route_revision identity)

  unfoldable pub parse_manifest :
      RouteStartupConfig → RouteScope → Bytes → Result ParsedRouteManifest
  parse_manifest config expected_scope manifest_bytes = do
    bail_if (ltb max_route_manifest_bytes (length manifest_bytes))
        "route manifest exceeds 8192 bytes"
    parse_operator_manifest config expected_scope manifest_bytes

  -- The signature and the current time are checked where they are given.
  unfoldable pub parse_publication :
      RouteStartupConfig
      → RouteScope
      → Bytes
      → Option Bytes
      → Option DateTime
      → Result RoutePublication
  parse_publication config expected_scope manifest_bytes signature_bytes now = do
    decode_lowercase_hex_32 config.signing_public_key_hex "route signing public key"
    transpose (Option.map (verify_signature libs config manifest_bytes) signature_bytes)
    parsed ← parse_manifest config expected_scope manifest_bytes
    bail_if (outside_window parsed.manifest now)
        "route publication validity must start within five minutes and end within 24 hours"
    ok parsed.publication

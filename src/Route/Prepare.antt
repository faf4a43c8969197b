-- ===== src/Route/Prepare.antt =====
-- `parse_operator_route_proposal`, `prepare_operator_route_manifest_inner` with its two callers, and
-- `verify_operator_manifest_proposal_binding`.
pub mod Prepared
use milk_carton.Base.{
  ℕ, ◌+◌, ◌-◌, ◌*◌, ◌%◌, Bool, true, false, ◌&&◌, ◌||◌, not, Option, none, some, List, [], ◌∷◌,
  ◌++◌, Bytes, String, codes, length, all, any, leb, ltb, nat_eq, if◌then◌else◌, ◌==◌, ℕ-Eq,
  List-Eq, Result, ok, err, bail_if, context, transpose, ◌>>=◌, ◌>>◌,
}
use mathlib.Core.Option
use milk_carton.Hex.{decode_lowercase_hex_32, hex_digest}
use milk_carton.Hex.Digits.{is_lowercase_hex}
use milk_carton.Text.{valid_harness_identifier, valid_model_alias}
use milk_carton.Route.Types.{
  RouteStartupConfig, RouteScope, RouteCapability, stream, RouteCapability-Eq, HarnessProfile,
  production, HarnessProfile-Eq, OperatorRouteCandidate, OperatorRouteManifest,
  OperatorRouteProposal, RoutePublication, DateTime, seconds,
}
use milk_carton.Route.Url.{Url, is_none, is_some, validate_candidate_api_base_url}
use milk_carton.Route.Libs.{Libs}
use milk_carton.Route.Validate.{
  operator_route_schema_version, max_route_manifest_bytes, candidate_max_input_utf8_bytes,
  candidate_max_input_messages, candidate_max_input_request_bytes, validate_operator_manifest,
}
use milk_carton.Route.Manifest.{canonical_manifest, parse_publication}

unfoldable pub operator_route_proposal_schema_version : Bytes
operator_route_proposal_schema_version = codes "milk.unsigned-route-proposal.v3"

unfoldable pub harness_code_version : Bytes
harness_code_version = codes "milk.harness-run-once.v5"

unfoldable pub harness_taxonomy_version : Bytes
harness_taxonomy_version = codes "milk.semantic-taxonomy.v1"

abbrev pub operator_candidate_valid_for_seconds : ℕ
operator_candidate_valid_for_seconds = 15 * 60

abbrev pub operator_zero_valid_for_seconds : ℕ
operator_zero_valid_for_seconds = 60

-- The loop over the digests of a proposal.
unfoldable pub decode_all : List (Bytes × String) → Result (Unit {0})
decode_all [] = ok tt
decode_all ((value, description) ∷ rest) = do
  decode_lowercase_hex_32 value description
  decode_all rest

abbrev proposal_digests : OperatorRouteProposal → List (Bytes × String)
proposal_digests proposal =
    (proposal.source_manifest_sha256, "source manifest SHA-256")
    ∷ (proposal.summary_sha256, "summary SHA-256")
    ∷ (proposal.readiness_sha256, "readiness SHA-256")
    ∷ (proposal.eval_sha256, "eval SHA-256")
    ∷ (proposal.eval_validation_sha256, "eval validation SHA-256")
    ∷ (proposal.candidate_score_sha256, "candidate score SHA-256")
    ∷ (proposal.provenance.config_sha256, "harness config SHA-256")
    ∷ (proposal.provenance.prompt_sha256s.classifier, "classifier prompt SHA-256")
    ∷ (proposal.provenance.prompt_sha256s.eval_generation, "eval generation prompt SHA-256")
    ∷ (proposal.provenance.prompt_sha256s.eval_validation, "eval validation prompt SHA-256")
    ∷ (proposal.provenance.job_ids.classifier, "classifier job ID")
    ∷ (proposal.provenance.job_ids.eval_generation, "eval generation job ID")
    ∷ (proposal.provenance.job_ids.eval_validation, "eval validation job ID")
    ∷ (proposal.provenance.job_ids.candidate_score, "candidate score job ID")
    ∷ (proposal.provenance.teacher_result_sha256s.classifier, "classifier result SHA-256")
    ∷ (proposal.provenance.teacher_result_sha256s.eval_generation, "eval generation result SHA-256")
    ∷ (proposal.provenance.teacher_result_sha256s.eval_validation, "eval validation result SHA-256")
    ∷ []

module _ (libs : Libs) where
  open libs use {parse_url, parse_proposal_json, proposal_json}

  unfoldable pub parse_operator_route_proposal :
      RouteStartupConfig → RouteScope → Bytes → Result OperatorRouteProposal
  parse_operator_route_proposal config scope proposal_bytes = do
    bail_if (ltb max_route_manifest_bytes (length proposal_bytes))
        "route proposal exceeds 8192 bytes"
    proposal ←
        context (parse_proposal_json proposal_bytes) "route proposal is not strict typed JSON"
    bail_if (not (proposal_json proposal ++ 10 ∷ [] == proposal_bytes))
        "route proposal must be canonical key-sorted compact JSON plus one LF"
    bail_if (not (proposal.schema_version == operator_route_proposal_schema_version))
        "route proposal has an unsupported schema version"
    bail_if (not (nat_eq proposal.scope_id scope.scope_id))
        "route proposal scope does not match startup configuration"
    decode_all (proposal_digests proposal)
    bail_if (not (proposal.profile == production))
        "candidate proposals require production-qualified evidence"
    bail_if
        (not (valid_harness_identifier proposal.series_id)
          || not (valid_harness_identifier proposal.candidate_id)
          || not (valid_model_alias proposal.model)
          || not (proposal.code_version == harness_code_version)
          || not (proposal.provenance.taxonomy_version == harness_taxonomy_version)
          || not (nat_eq (length proposal.provenance.harness_revision) 40)
          || not (all is_lowercase_hex proposal.provenance.harness_revision))
        "route proposal harness identity is invalid"
    validate_candidate_api_base_url parse_url proposal.api_base_url
        config.allow_private_candidate_http
    ok proposal

  -- A zero route is only for the live candidate route of the same proposal.
  unfoldable pub check_zero :
      OperatorRouteProposal → Bytes → Option RoutePublication → Result (Unit {0})
  check_zero proposal proposal_sha256 previous = do
    live ← context previous "operator zero route requires a live predecessor"
    bail_if
        (nat_eq proposal.candidate_basis_points 0
          || not live.has_candidate
          || nat_eq live.candidate_basis_points 0
          || not (live.proposal_sha256 == proposal_sha256))
        "operator zero route requires the live candidate route for this exact proposal"

module _ (libs : Libs) where
  open libs use {sha256, last_date_time, manifest_json}

  unfoldable pub prepare_candidate :
      OperatorRouteProposal → ℕ → Option Bytes → Result (Option OperatorRouteCandidate)
  prepare_candidate proposal candidate_basis_points candidate_api_key =
      if nat_eq candidate_basis_points 0 then ok none else (do
        api_key ← context candidate_api_key "candidate route requires its API key"
        bail_if (nat_eq (length api_key) 0) "candidate API key cannot be empty"
        ok (
            some (record {
              eval_sha256 = proposal.eval_sha256;
              candidate_id = proposal.candidate_id;
              api_base_url = proposal.api_base_url;
              model = proposal.model;
              candidate_api_key_sha256 = hex_digest (sha256 api_key);
              supported_capabilities = stream ∷ [];
              reasoning_effort = none;
              max_input_utf8_bytes = candidate_max_input_utf8_bytes;
              max_input_messages = candidate_max_input_messages;
              max_input_request_bytes = candidate_max_input_request_bytes;
            })))

  unfoldable pub prepare_secret :
      Option OperatorRouteCandidate → Option Bytes → Result (Option Bytes)
  prepare_secret none route_secret_hex = ok none
  prepare_secret (some candidate) route_secret_hex = do
    value ← context route_secret_hex "candidate route requires the operator route secret"
    secret ← decode_lowercase_hex_32 value "route secret"
    ok (some (hex_digest (sha256 secret)))

  abbrev pub valid_for : Option OperatorRouteCandidate → ℕ
  valid_for candidate =
      if is_some candidate
      then operator_candidate_valid_for_seconds
      else operator_zero_valid_for_seconds

  unfoldable pub prepare_operator_route_manifest_inner :
      RouteStartupConfig
      → RouteScope
      → Bytes
      → Option Bytes
      → Option Bytes
      → Option RoutePublication
      → DateTime
      → Bool
      → Result (Bytes × RoutePublication)
  prepare_operator_route_manifest_inner config scope proposal_bytes route_secret_hex
        candidate_api_key previous now zero =
      do
        proposal ← parse_operator_route_proposal libs config scope proposal_bytes
        let proposal_sha256 = sha256 proposal_bytes
        if zero then check_zero libs proposal proposal_sha256 previous else ok tt
        let candidate_basis_points = if zero then 0 else proposal.candidate_basis_points
        candidate ← prepare_candidate proposal candidate_basis_points candidate_api_key
        route_secret_sha256 ← prepare_secret candidate route_secret_hex
        let not_before = now - now % seconds 1
        let not_after = not_before + seconds (valid_for candidate)
        bail_if (ltb last_date_time not_after) "route validity overflow"
        let manifest = manifest_json (record {
          schema_version = operator_route_schema_version;
          scope = scope;
          proposal_sha256 = hex_digest proposal_sha256;
          profile = proposal.profile;
          candidate = candidate;
          candidate_basis_points = candidate_basis_points;
          previous_route_revision =
              Option.map (λ (publication : RoutePublication). hex_digest publication.revision)
                previous;
          route_secret_sha256 = route_secret_sha256;
          not_before = not_before;
          not_after = not_after;
          signing_key_id = config.signing_key_id;
        })
        publication ← parse_publication libs config scope manifest none (some now)
        ok (manifest, publication)

  unfoldable pub prepare_operator_route_manifest :
      RouteStartupConfig
      → RouteScope
      → Bytes
      → Option Bytes
      → Option Bytes
      → Option RoutePublication
      → DateTime
      → Result (Bytes × RoutePublication)
  prepare_operator_route_manifest config scope proposal_bytes route_secret_hex candidate_api_key
        previous now =
      prepare_operator_route_manifest_inner config scope proposal_bytes route_secret_hex
        candidate_api_key previous now false

  unfoldable pub prepare_operator_zero_route_manifest :
      RouteStartupConfig
      → RouteScope
      → Bytes
      → RoutePublication
      → DateTime
      → Result (Bytes × RoutePublication)
  prepare_operator_zero_route_manifest config scope proposal_bytes previous now =
      prepare_operator_route_manifest_inner config scope proposal_bytes none none (some previous)
        now true

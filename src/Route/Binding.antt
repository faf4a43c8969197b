-- ===== src/Route/Binding.antt =====
-- `verify_operator_manifest_proposal_binding`.
pub mod Prepares
use milk_carton.Base.{
  ℕ, ◌+◌, ◌-◌, ◌%◌, Bool, true, false, ◌&&◌, ◌||◌, not, Option, none, some, List, [], ◌∷◌, Bytes,
  nat_eq, ◌==◌, ℕ-Eq, List-Eq, Result, ok, err, bail_if, ◌>>=◌, ◌>>◌,
}
use milk_carton.Hex.{hex_digest}
use milk_carton.Route.Types.{
  RouteStartupConfig, RouteScope, stream, RouteCapability-Eq, HarnessProfile-Eq,
  OperatorRouteCandidate, OperatorRouteManifest, OperatorRouteProposal, seconds,
}
use milk_carton.Route.Url.{is_none, is_some}
use milk_carton.Route.Libs.{Libs}
use milk_carton.Route.Validate.{validate_operator_manifest}
use milk_carton.Route.Manifest.{canonical_manifest}
use milk_carton.Route.Prepare.{
  operator_candidate_valid_for_seconds, operator_zero_valid_for_seconds,
  parse_operator_route_proposal,
}

-- The validity that a manifest must have, in seconds, if its candidate is that of the proposal.
unfoldable pub expected_validity :
    OperatorRouteManifest → OperatorRouteProposal → Option OperatorRouteCandidate → Result ℕ
expected_validity manifest proposal (some candidate) = do
  bail_if
      (not (nat_eq manifest.candidate_basis_points proposal.candidate_basis_points)
        || nat_eq proposal.candidate_basis_points 0
        || not (candidate.eval_sha256 == proposal.eval_sha256)
        || not (candidate.candidate_id == proposal.candidate_id)
        || not (candidate.api_base_url == proposal.api_base_url)
        || not (candidate.model == proposal.model)
        || not (candidate.supported_capabilities == stream ∷ [])
        || is_some candidate.reasoning_effort)
      "signed candidate route differs from its stored proposal"
  ok operator_candidate_valid_for_seconds
expected_validity manifest proposal none = do
  bail_if
      (nat_eq proposal.candidate_basis_points 0
        || not (nat_eq manifest.candidate_basis_points 0)
        || is_none manifest.previous_route_revision)
      "signed zero route differs from its candidate proposal lineage"
  ok operator_zero_valid_for_seconds

module _ (libs : Libs) where
  open libs use {sha256}

  unfoldable pub verify_operator_manifest_proposal_binding :
      RouteStartupConfig → RouteScope → Bytes → Bytes → Result (Unit {0})
  verify_operator_manifest_proposal_binding config scope manifest_bytes proposal_bytes = do
    proposal ← parse_operator_route_proposal libs config scope proposal_bytes
    manifest ← canonical_manifest libs manifest_bytes
    validate_operator_manifest libs config scope manifest
    bail_if (not (manifest.profile == proposal.profile))
        "signed route profile differs from its stored proposal"
    bail_if (not (manifest.proposal_sha256 == hex_digest (sha256 proposal_bytes)))
        "signed route does not reference the exact stored proposal"
    validity ← expected_validity manifest proposal manifest.candidate
    bail_if
        (not (nat_eq (manifest.not_before % seconds 1) 0)
          || not (nat_eq (manifest.not_after % seconds 1) 0)
          || not (nat_eq (manifest.not_after - manifest.not_before) (seconds validity)))
        "signed operator route validity differs from the bounded prepared route"

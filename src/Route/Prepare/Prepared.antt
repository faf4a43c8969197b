-- ===== src/Route/Prepare/Prepared.antt =====
-- What a prepared route has passed, and the manifest that was encoded.
use milk_carton.Base.{
  ◌+◌, ◌-◌, ◌%◌, ◌≡◌, Bool, Option, none, some, Bytes, ltb, if◌then◌else◌, ok, >>=-eq-ok,
  bail_if-eq-ok, ok-injective, sym, ap,
}
use mathlib.Core.Option
use mathlib.Core.Path.{subst₂}
use milk_carton.Hex.{hex_digest}
use milk_carton.Route.Types.{
  RouteStartupConfig, RouteScope, OperatorRouteCandidate, OperatorRouteManifest,
  OperatorRouteProposal, RoutePublication, DateTime, seconds,
}
use milk_carton.Route.Libs.{Libs}
use milk_carton.Route.Validate.{operator_route_schema_version}
use milk_carton.Route.Manifest.{parse_publication}
use milk_carton.Route.Prepare.{
  parse_operator_route_proposal, check_zero, prepare_candidate, prepare_secret, valid_for,
  prepare_operator_route_manifest_inner,
}

module _ (libs : Libs) (config : RouteStartupConfig) (scope : RouteScope) (proposal_bytes : Bytes)
    (secret api_key : Option Bytes) (previous : Option RoutePublication) (now : DateTime)
    (zero : Bool) where
  -- The manifest that is encoded.
  unfoldable pub prepared_manifest :
      OperatorRouteProposal → Option OperatorRouteCandidate → Option Bytes → OperatorRouteManifest
  prepared_manifest proposal candidate route_secret_sha256 = record {
    schema_version = operator_route_schema_version;
    scope = scope;
    proposal_sha256 = hex_digest (libs.sha256 proposal_bytes);
    profile = proposal.profile;
    candidate = candidate;
    candidate_basis_points = if zero then 0 else proposal.candidate_basis_points;
    previous_route_revision =
        Option.map (λ (publication : RoutePublication). hex_digest publication.revision) previous;
    route_secret_sha256 = route_secret_sha256;
    not_before = now - now % seconds 1;
    not_after = now - now % seconds 1 + seconds (valid_for libs candidate);
    signing_key_id = config.signing_key_id;
  }

  pub record IsPrepared (bytes : Bytes) (publication : RoutePublication) : Type 0 where
    pub proposal : OperatorRouteProposal
    pub candidate : Option OperatorRouteCandidate
    pub route_secret_sha256 : Option Bytes
    pub parsed : parse_operator_route_proposal libs config scope proposal_bytes ≡ ok proposal
    pub zero_checked :
        (if zero then check_zero libs proposal (libs.sha256 proposal_bytes) previous else ok tt)
        ≡ ok tt
    pub is_candidate :
        prepare_candidate libs proposal
          (if zero then 0 else proposal.candidate_basis_points)
          api_key
        ≡ ok candidate
    pub is_secret : prepare_secret libs candidate secret ≡ ok route_secret_sha256
    pub encoded :
        bytes ≡ libs.manifest_json (prepared_manifest proposal candidate route_secret_sha256)
    pub published : parse_publication libs config scope bytes none (some now) ≡ ok publication

  pub prepare-IsPrepared :
      {bytes : Bytes} {publication : RoutePublication}
      → prepare_operator_route_manifest_inner libs config scope proposal_bytes secret api_key
          previous now zero
        ≡ ok (bytes, publication)
      → IsPrepared bytes publication
  unfolding prepare_operator_route_manifest_inner prepared_manifest
  prepare-IsPrepared {bytes} {publication} h =
      let (proposal, parsed, h) =
        >>=-eq-ok (parse_operator_route_proposal libs config scope proposal_bytes) _ h in
      let (_, zero_checked, h) =
        >>=-eq-ok
          (if zero then check_zero libs proposal (libs.sha256 proposal_bytes) previous else ok tt) _
          h in
      let (candidate, is_candidate, h) =
        >>=-eq-ok
          (prepare_candidate libs proposal (if zero then 0 else proposal.candidate_basis_points)
            api_key)
          _ h in
      let (route_secret_sha256, is_secret, h) =
        >>=-eq-ok (prepare_secret libs candidate secret) _ h in
      let (_, h) = bail_if-eq-ok (ltb libs.last_date_time _) _ _ h in
      let (other, published, h) =
        >>=-eq-ok (parse_publication libs config scope _ none (some now)) _ h in
      let e = ok-injective h in
      let same_bytes = ap (λ (p : Bytes × RoutePublication). p.0) e in
      let same_publication = ap (λ (p : Bytes × RoutePublication). p.1) e in
      record {
        proposal = proposal;
        candidate = candidate;
        route_secret_sha256 = route_secret_sha256;
        parsed = parsed;
        zero_checked = zero_checked;
        is_candidate = is_candidate;
        is_secret = is_secret;
        encoded = sym same_bytes;
        published =
            subst₂
              (λ (b : Bytes) (p : RoutePublication).
                parse_publication libs config scope b none (some now) ≡ ok p)
              same_bytes same_publication published;
      }

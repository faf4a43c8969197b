-- ===== src/Route/Manifest/Parsed.antt =====
-- What a manifest that is parsed or published has passed.
use milk_carton.Base.{
  ◌≡◌, false, Option, Bytes, ℕ-Eq, List-Eq, ==_iff, ok, context, transpose, >>=-eq-ok,
  bail_if-eq-ok, context-eq-ok, ok-injective, some, sym, ap, ◌∙◌, not-false,
}
use mathlib.Core.Option
use milk_carton.Hex.{decode_lowercase_hex_32}
use milk_carton.Route.Types.{
  RouteStartupConfig, RouteScope, OperatorRouteManifest, DateTime, RoutePublication,
}
use milk_carton.Route.Url.{Url}
use milk_carton.Route.Libs.{Libs}
use milk_carton.Route.Validate.{validate_operator_manifest, verify_signature}
use milk_carton.Route.Manifest.{
  ParsedRouteManifest, RuntimeIdentity, runtime_identity, assemble, canonical_manifest,
  parse_operator_manifest, parse_manifest, parse_publication, outside_window,
}

module _ (libs : Libs) (config : RouteStartupConfig) (scope : RouteScope) (bytes : Bytes) where
  pub record IsParsed (parsed : ParsedRouteManifest) : Type 0 where
    pub manifest : OperatorRouteManifest
    pub endpoint : Option Url
    pub proposal_sha256 : Bytes
    pub previous_route_revision : Option Bytes
    pub identity : RuntimeIdentity
    pub canonical : canonical_manifest libs bytes ≡ ok manifest
    pub valid : validate_operator_manifest libs config scope manifest ≡ ok endpoint
    pub proposal :
        decode_lowercase_hex_32 manifest.proposal_sha256 "route proposal SHA-256"
        ≡ ok proposal_sha256
    pub previous :
        transpose (
          Option.map
            (λ value. decode_lowercase_hex_32 value "previous route revision")
            manifest.previous_route_revision)
        ≡ ok previous_route_revision
    pub identified : runtime_identity libs manifest.candidate ≡ ok identity
    pub assembled :
        parsed
        ≡ assemble libs bytes manifest endpoint proposal_sha256 previous_route_revision identity

  pub parse_operator_manifest-IsParsed :
      {parsed : ParsedRouteManifest}
      → parse_operator_manifest libs config scope bytes ≡ ok parsed
      → IsParsed parsed
  unfolding parse_operator_manifest
  parse_operator_manifest-IsParsed h =
      let (manifest, canonical, h) = >>=-eq-ok (canonical_manifest libs bytes) _ h in
      let (endpoint, valid, h) =
        >>=-eq-ok (validate_operator_manifest libs config scope manifest) _ h in
      let (proposal_sha256, proposal, h) =
        >>=-eq-ok (decode_lowercase_hex_32 manifest.proposal_sha256 _) _ h in
      let (previous_route_revision, previous, h) =
        >>=-eq-ok (transpose (Option.map _ manifest.previous_route_revision)) _ h in
      let (_, _, h) = >>=-eq-ok (transpose (Option.map _ manifest.route_secret_sha256)) _ h in
      let (identity, identified, h) = >>=-eq-ok (runtime_identity libs manifest.candidate) _ h in
      record {
        manifest = manifest;
        endpoint = endpoint;
        proposal_sha256 = proposal_sha256;
        previous_route_revision = previous_route_revision;
        identity = identity;
        canonical = canonical;
        valid = valid;
        proposal = proposal;
        previous = previous;
        identified = identified;
        assembled = sym (ok-injective h);
      }

  pub parse_manifest-IsParsed :
      {parsed : ParsedRouteManifest}
      → parse_manifest libs config scope bytes ≡ ok parsed
      → IsParsed parsed
  unfolding parse_manifest
  parse_manifest-IsParsed h = parse_operator_manifest-IsParsed (bail_if-eq-ok _ _ _ h).1

  pub canonical_manifest-json :
      {manifest : OperatorRouteManifest}
      → canonical_manifest libs bytes ≡ ok manifest
      → (libs.parse_manifest_json bytes ≡ some manifest) × (libs.manifest_json manifest ≡ bytes)
  unfolding canonical_manifest
  canonical_manifest-json h =
      let (found, parsed, h) = >>=-eq-ok (context (libs.parse_manifest_json bytes) _) _ h in
      let (same, h) = bail_if-eq-ok _ _ _ h in
      let e = ok-injective h in
      let canonical = (==_iff (libs.manifest_json found) bytes).0 (not-false _ same) in
      (context-eq-ok _ _ parsed ∙ ap some e, ap libs.manifest_json (sym e) ∙ canonical)

  -- A publication is that of a manifest which is parsed, inside the window where a time is given.
  pub record IsPublished (now : Option DateTime) (publication : RoutePublication) : Type 0 where
    pub parsed : ParsedRouteManifest
    pub is_parsed : IsParsed parsed
    pub inside : outside_window parsed.manifest now ≡ false
    pub published : publication ≡ parsed.publication

  pub parse_publication-IsPublished :
      (signature : Option Bytes) (now : Option DateTime) {publication : RoutePublication}
      → parse_publication libs config scope bytes signature now ≡ ok publication
      → IsPublished now publication
  unfolding parse_publication
  parse_publication-IsPublished signature now h =
      let (_, _, h) = >>=-eq-ok (decode_lowercase_hex_32 config.signing_public_key_hex _) _ h in
      let (_, _, h) =
        >>=-eq-ok (transpose (Option.map (verify_signature libs config bytes) signature)) _ h in
      let (parsed, is_parsed, h) = >>=-eq-ok (parse_manifest libs config scope bytes) _ h in
      let (inside, h) = bail_if-eq-ok (outside_window parsed.manifest now) _ _ h in
      record {
        parsed = parsed;
        is_parsed = parse_manifest-IsParsed is_parsed;
        inside = inside;
        published = sym (ok-injective h);
      }

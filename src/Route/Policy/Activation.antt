-- ===== src/Route/Policy/Activation.antt =====
-- What it takes for a signed route to become active.
use milk_carton.Base.{
  ℕ, ◌+◌, ◌-◌, ◌≤◌, ◌<◌, ◌≡◌, ◌≢◌, refl, sym, ap, ◌∙◌, not, Option, none, some, Bytes, ltb, ◌==◌,
  ==_iff, ℕ-Eq, List-Eq, Result, ok, context, transpose, >>=-eq-ok, bail_if-eq-ok, context-eq-ok,
  ok-injective, not-false, arith, eq-of-some, bail_if-ok,
}
use mathlib.Core.Option
use milk_carton.Hex.{decode_lowercase_hex_32, hex_digest}
use milk_carton.Route.Types.{
  RouteStartupConfig, RouteScope, RuntimeRouteCandidate, RuntimeRouteManifest, DateTime, Instant,
}
use milk_carton.Route.Libs.{Libs}
use milk_carton.Route.Validate.{verify_signature}
use milk_carton.Route.Manifest.{ParsedRouteManifest, parse_manifest}
use milk_carton.Route.Manifest.Parsed.{IsParsed, parse_manifest-IsParsed}
use milk_carton.Route.Policy.{
  BaselineReason, ActiveRoute, dormant, active, RoutePolicy, validate_common, dormant_reason,
  check_route_secret, activate, from_signed_bytes,
}

dormant_reason-none :
    (manifest : RuntimeRouteManifest) (wall_now : DateTime) (secret api_key : Option Bytes)
    → dormant_reason manifest wall_now secret api_key ≡ none
    → (manifest.not_before ≤ wall_now)
      × (wall_now < manifest.not_after)
      × (manifest.candidate_basis_points ≢ 0)
      × ((s : Bytes) × (secret ≡ some s))
      × ((k : Bytes) × (api_key ≡ some k))
unfolding dormant_reason
dormant_reason-none manifest wall_now none api_key h = absurd (ground arith)
dormant_reason-none manifest wall_now (some s) none h = absurd (ground arith)
dormant_reason-none manifest wall_now (some s) (some k) h =
    (ground arith, ground arith, ground arith, (s, refl), (k, refl))

-- What an active route of a parsed manifest has passed.
pub record IsActivated (libs : Libs) (config : RouteStartupConfig)
    (secret_hex api_key : Option Bytes) (wall_now : DateTime) (monotonic_now : Instant)
    (parsed : ParsedRouteManifest) (route : ActiveRoute) : Type 0 where
  pub begun : parsed.manifest.not_before ≤ wall_now
  pub lasting : wall_now < parsed.manifest.not_after
  pub share : parsed.manifest.candidate_basis_points ≢ 0
  pub expires : route.expires_at ≡ monotonic_now + (parsed.manifest.not_after - wall_now)
  pub manifest : route.manifest ≡ parsed.manifest
  pub cohort : route.cohort_sha256 ≡ parsed.cohort_sha256
  pub in_flight : route.max_in_flight ≡ config.candidate_max_in_flight
  pub secret : Bytes
  pub has_secret : secret_hex ≡ some secret
  pub secret_key : decode_lowercase_hex_32 secret "route secret" ≡ ok route.hmac_key
  pub secret_digest :
      (expected : Bytes)
      → parsed.manifest.route_secret_sha256 ≡ some expected
      → decode_lowercase_hex_32 expected "route secret SHA-256" ≡ ok (libs.sha256 route.hmac_key)
  pub candidate : RuntimeRouteCandidate
  pub has_candidate : parsed.manifest.candidate ≡ some candidate
  pub key : Bytes
  pub has_key : api_key ≡ some key
  pub key_digest :
      decode_lowercase_hex_32 candidate.candidate_api_key_sha256 "candidate API key SHA-256"
      ≡ ok (libs.sha256 key)

check_route_secret-ok :
    (libs : Libs) (secret : Bytes) (digest : Option Bytes) (expected : Bytes)
    → check_route_secret libs (some secret) digest ≡ ok tt
    → digest ≡ some expected
    → decode_lowercase_hex_32 expected "route secret SHA-256" ≡ ok (libs.sha256 secret)
unfolding check_route_secret
check_route_secret-ok libs secret none expected h e = cc
check_route_secret-ok libs secret (some other) expected h e =
    let (decoded, read, h) = >>=-eq-ok (decode_lowercase_hex_32 other _) _ h in
    let differs = bail_if-ok _ _ h in
    let same = (==_iff (libs.sha256 secret) decoded).0 (not-false _ differs) in
    rw (← eq-of-some e) (read ∙ ap ok (sym same))

dormant-ne-active : {r : BaselineReason} {a : ActiveRoute} → dormant r ≢ active a
dormant-ne-active h = cc

active-injective : {a b : ActiveRoute} → active a ≡ active b → a ≡ b
active-injective h = cc

transpose-map-some :
    (f : Bytes → Result Bytes) (o p : Option Bytes) (value a : Bytes)
    → transpose (Option.map f o) ≡ ok p
    → o ≡ some value
    → p ≡ some a
    → f value ≡ ok a
transpose-map-some f none p value a h e q = absurd (cc)
transpose-map-some f (some v) p value a h e q = ground arith

module _ (libs : Libs) (config : RouteStartupConfig) (secret_hex api_key : Option Bytes)
    (wall_now : DateTime) (monotonic_now : Instant) (parsed : ParsedRouteManifest) where
  activate-IsActivated :
      (secret : Option Bytes) {policy : RoutePolicy} (route : ActiveRoute)
      → transpose (Option.map (λ value. decode_lowercase_hex_32 value "route secret") secret_hex)
        ≡ ok secret
      → check_route_secret libs secret parsed.manifest.route_secret_sha256 ≡ ok tt
      → dormant_reason parsed.manifest wall_now secret_hex api_key ≡ none
      → activate libs config secret api_key wall_now monotonic_now parsed ≡ ok policy
      → policy.state ≡ active route
      → IsActivated libs config secret_hex api_key wall_now monotonic_now parsed route
  unfolding activate
  activate-IsActivated secret {policy} route read checked awake h is_active =
      let (begun, lasting, share, (s, has_secret), (k, has_key)) =
        dormant_reason-none parsed.manifest wall_now secret_hex api_key awake in
      let (route_secret, is_secret, h) = >>=-eq-ok (context secret _) _ h in
      let (key, is_key, h) = >>=-eq-ok (context api_key _) _ h in
      let (candidate, is_candidate, h) = >>=-eq-ok (context parsed.manifest.candidate _) _ h in
      let (expected, decoded, h) =
        >>=-eq-ok (decode_lowercase_hex_32 candidate.candidate_api_key_sha256 _) _ h in
      let (differs, h) = bail_if-eq-ok (not (libs.sha256 key == expected)) _ _ h in
      let (_, h) = bail_if-eq-ok (ltb libs.last_instant _) _ _ h in
      let (endpoint, _, h) = >>=-eq-ok (context parsed.endpoint _) _ h in
      let built =
        active-injective (ap (λ (p : RoutePolicy). p.state) (ok-injective h) ∙ is_active) in
      let secret_key = ap (λ (r : ActiveRoute). r.hmac_key) built in
      let some_secret = context-eq-ok secret _ is_secret in
      record {
        begun = begun;
        lasting = lasting;
        share = share;
        expires = sym (ap (λ (r : ActiveRoute). r.expires_at) built);
        manifest = sym (ap (λ (r : ActiveRoute). r.manifest) built);
        cohort = sym (ap (λ (r : ActiveRoute). r.cohort_sha256) built);
        in_flight = sym (ap (λ (r : ActiveRoute). r.max_in_flight) built);
        secret = s;
        has_secret = has_secret;
        secret_key =
            transpose-map-some (λ value. decode_lowercase_hex_32 value "route secret") secret_hex
              secret s route.hmac_key read has_secret (some_secret ∙ ap some secret_key);
        secret_digest = λ expected e.
            rw (← secret_key)
              (check_route_secret-ok libs route_secret _ expected (rw (← some_secret) checked) e);
        candidate = candidate;
        has_candidate = context-eq-ok parsed.manifest.candidate _ is_candidate;
        key = key;
        has_key = context-eq-ok api_key _ is_key;
        key_digest =
            decoded ∙ ap ok (sym ((==_iff (libs.sha256 key) expected).0 (not-false _ differs)));
      }

  abbrev resume : ParsedRouteManifest → Option Bytes → Option BaselineReason → Result RoutePolicy
  resume p secret reason = elim reason [
    | some r ↦ ok (record { revision = hex_digest p.revision; state = dormant r })
    | none ↦ activate libs config secret api_key wall_now monotonic_now p
  ]

  awake_or_dormant :
      (secret : Option Bytes) {policy : RoutePolicy} (route : ActiveRoute)
      → transpose (Option.map (λ value. decode_lowercase_hex_32 value "route secret") secret_hex)
        ≡ ok secret
      → check_route_secret libs secret parsed.manifest.route_secret_sha256 ≡ ok tt
      → (reason : Option BaselineReason)
      → dormant_reason parsed.manifest wall_now secret_hex api_key ≡ reason
      → resume parsed secret reason ≡ ok policy
      → policy.state ≡ active route
      → IsActivated libs config secret_hex api_key wall_now monotonic_now parsed route
  awake_or_dormant secret route read checked none e h is_active =
      activate-IsActivated secret route read checked e h is_active
  awake_or_dormant secret {policy} route read checked (some reason) e h is_active =
      absurd (dormant-ne-active (ap (λ (p : RoutePolicy). p.state) (ok-injective h) ∙ is_active))

module _ (libs : Libs) (config : RouteStartupConfig) (scope : RouteScope)
    (secret_hex api_key : Option Bytes) (max_in_flight : ℕ) (wall_now : DateTime)
    (monotonic_now : Instant) (bytes signature : Bytes) where
  -- A route that is active was signed over these exact bytes, which parse as a valid manifest; the
  -- manifest is in its validity and its share is not zero; the secret and the API key are the ones
  -- whose digests it names, and the route ends on the monotonic clock when the manifest ends.
  pub from_signed_bytes-active :
      {policy : RoutePolicy} (route : ActiveRoute)
      → from_signed_bytes libs config scope secret_hex api_key max_in_flight wall_now monotonic_now
          bytes signature
        ≡ ok policy
      → policy.state ≡ active route
      → (parsed : ParsedRouteManifest) × (IsParsed libs config scope bytes parsed)
        × (verify_signature libs config bytes signature ≡ ok tt)
        × (IsActivated libs config secret_hex api_key wall_now monotonic_now parsed route)
  unfolding from_signed_bytes
  from_signed_bytes-active {policy} route h is_active =
      let (_, verified, h) = >>=-eq-ok (verify_signature libs config bytes signature) _ h in
      let (parsed, is_parsed, h) = >>=-eq-ok (parse_manifest libs config scope bytes) _ h in
      let (_, _, h) = >>=-eq-ok (validate_common config max_in_flight) _ h in
      let (secret, read, h) = >>=-eq-ok (transpose (Option.map _ secret_hex)) _ h in
      let (_, checked, h) =
        >>=-eq-ok (check_route_secret libs secret parsed.manifest.route_secret_sha256) _ h in
      (
        parsed,
        parse_manifest-IsParsed libs config scope bytes is_parsed,
        verified,
        awake_or_dormant libs config secret_hex api_key wall_now monotonic_now parsed secret route
            read checked _ refl h is_active,
      )

-- ===== src/Route/Binding/Prepares.antt =====
-- A prepared route passes the check that binds a signed manifest to its stored proposal.
use milk_carton.Base.{
  ◌⊎◌, inl, inr, ℕ, ◌+◌, ◌-◌, ◌%◌, ◌≡◌, ◌≢◌, refl, sym, ap, ◌∙◌, subst, Bool, true, false, Option,
  none, some, [], ◌∷◌, Bytes, nat_eq, if◌then◌else◌, ok, ==_refl, ℕ-Eq, List-Eq, arith, eq-of-some,
  Bool-cases,
}
use milk_carton.Hex.{hex_digest}
use milk_carton.Route.Types.{
  RouteStartupConfig, RouteScope, OperatorRouteCandidate, OperatorRouteManifest, stream,
  OperatorRouteProposal, RoutePublication, DateTime, seconds, HarnessProfile-Eq, RouteCapability-Eq,
}
use milk_carton.Route.Libs.{Libs, JsonRoundTrip}
use milk_carton.Route.Validate.{validate_operator_manifest}
use milk_carton.Route.Manifest.{ParsedRouteManifest, canonical_manifest, assemble}
use milk_carton.Route.Manifest.Parsed.{
  IsPublished, canonical_manifest-json, parse_publication-IsPublished,
}
use milk_carton.Route.Prepare.{
  check_zero, prepare_candidate, valid_for, prepare_operator_route_manifest,
  prepare_operator_zero_route_manifest, operator_candidate_valid_for_seconds,
}
use milk_carton.Route.Prepare.Prepared.{prepared_manifest, IsPrepared, prepare-IsPrepared}
use milk_carton.Route.Binding.{expected_validity, verify_operator_manifest_proposal_binding}

prepared_window :
    (now n : ℕ)
    → let start = now - now % seconds 1 in
      (nat_eq (start % seconds 1) 0 ≡ true)
      × (nat_eq ((start + seconds n) % seconds 1) 0 ≡ true)
      × (nat_eq (start + seconds n - start) (seconds n) ≡ true)
prepared_window now n = (ground arith, ground arith, ground arith)

module _ (libs : Libs) (json : JsonRoundTrip libs) (config : RouteStartupConfig)
    (scope : RouteScope) (proposal_bytes : Bytes) (secret api_key : Option Bytes)
    (previous : Option RoutePublication) (now : DateTime) (zero : Bool) (bytes : Bytes)
    (publication : RoutePublication)
    (prepared : IsPrepared libs config scope proposal_bytes secret api_key previous now zero bytes
      publication) where
  abbrev manifest : OperatorRouteManifest
  manifest =
      prepared_manifest libs config scope proposal_bytes secret api_key previous now zero
        prepared.proposal prepared.candidate prepared.route_secret_sha256

  published : IsPublished libs config scope bytes (some now) publication
  published =
      parse_publication-IsPublished libs config scope bytes none (some now) prepared.published

  read_back : published.is_parsed.manifest ≡ manifest
  read_back =
      let canonical =
        canonical_manifest-json libs config scope bytes published.is_parsed.canonical in
      eq-of-some
        (sym canonical.0 ∙ ap libs.parse_manifest_json prepared.encoded ∙ json.manifest manifest)

  canonical : canonical_manifest libs bytes ≡ ok manifest
  canonical = published.is_parsed.canonical ∙ ap ok read_back

  valid : validate_operator_manifest libs config scope manifest ≡ ok published.is_parsed.endpoint
  valid =
      subst (λ m. validate_operator_manifest libs config scope m ≡ ok published.is_parsed.endpoint)
        read_back published.is_parsed.valid

  share_published :
      publication.candidate_basis_points
      ≡ (if zero then 0 else prepared.proposal.candidate_basis_points)
  unfolding assemble prepared_manifest
  share_published =
      ap (λ (p : RoutePublication). p.candidate_basis_points) published.published
      ∙ ap (λ (p : ParsedRouteManifest). p.publication.candidate_basis_points)
          published.is_parsed.assembled
      ∙ ap (λ (m : OperatorRouteManifest). m.candidate_basis_points) read_back

  binds :
      expected_validity manifest prepared.proposal prepared.candidate
        ≡ ok (valid_for libs prepared.candidate)
      → verify_operator_manifest_proposal_binding libs config scope bytes proposal_bytes ≡ ok tt
  unfolding verify_operator_manifest_proposal_binding prepared_manifest
  binds e =
      let w = prepared_window now (valid_for libs prepared.candidate) in
      rw (prepared.parsed, canonical)
        (rw valid (
          rw (==_refl prepared.proposal.profile)
            (rw (==_refl (hex_digest (libs.sha256 proposal_bytes))) (rw e (ground arith)))))

module _ (libs : Libs) (proposal : OperatorRouteProposal) where
  -- The candidate that is prepared with a key of this digest.
  unfoldable pub with_key : Bytes → OperatorRouteCandidate
  with_key key_sha256 = record {
    eval_sha256 = proposal.eval_sha256;
    candidate_id = proposal.candidate_id;
    api_base_url = proposal.api_base_url;
    model = proposal.model;
    candidate_api_key_sha256 = key_sha256;
    supported_capabilities = stream ∷ [];
    reasoning_effort = none;
    max_input_utf8_bytes = 2048;
    max_input_messages = 16;
    max_input_request_bytes = 16384;
  }

  pub prepare_candidate-cases :
      (share : ℕ) (api_key : Option Bytes) {candidate : Option OperatorRouteCandidate}
      → prepare_candidate libs proposal share api_key ≡ ok candidate
      → ((share ≡ 0) × (candidate ≡ none))
        ⊎ ((share ≢ 0)
            × ((key : Bytes) × (candidate ≡ some (with_key (hex_digest (libs.sha256 key))))))
  unfolding prepare_candidate with_key
  prepare_candidate-cases share none h = inl (ground arith)
  prepare_candidate-cases share (some key) h = elim (Bool-cases (nat_eq share 0)) [
    | inl e ↦ inl (ground arith)
    | inr e ↦ inr (ground arith, (key, ground arith))
  ]

  expected_validity-with_key :
      (manifest : OperatorRouteManifest) (key_sha256 : Bytes)
      → manifest.candidate_basis_points ≡ proposal.candidate_basis_points
      → proposal.candidate_basis_points ≢ 0
      → expected_validity manifest proposal (some (with_key key_sha256))
        ≡ ok operator_candidate_valid_for_seconds
  unfolding expected_validity with_key
  expected_validity-with_key manifest key_sha256 e h =
      simp
        (
          ==_refl proposal.eval_sha256,
          ==_refl proposal.candidate_id,
          ==_refl proposal.api_base_url,
          ==_refl proposal.model,
          ==_refl (stream ∷ []),
        )
        (ground arith)

module _ (libs : Libs) (json : JsonRoundTrip libs) (config : RouteStartupConfig)
    (scope : RouteScope) (proposal_bytes : Bytes) (now : DateTime) {bytes : Bytes}
    {publication : RoutePublication} where
  -- An operator who prepares a route from a proposal with a share above zero gets a manifest that
  -- passes the check of a signed manifest against that proposal.
  pub prepare-binds :
      (secret api_key : Option Bytes) (previous : Option RoutePublication)
      → prepare_operator_route_manifest libs config scope proposal_bytes secret api_key previous now
        ≡ ok (bytes, publication)
      → publication.candidate_basis_points ≢ 0
      → verify_operator_manifest_proposal_binding libs config scope bytes proposal_bytes ≡ ok tt
  unfolding prepare_operator_route_manifest prepared_manifest
  prepare-binds secret api_key previous h share =
      elim (prepare_candidate-cases libs p.proposal p.proposal.candidate_basis_points api_key
        p.is_candidate) [
          | inl (zero, _) ↦ absurd (share (published_share ∙ zero))
          | inr (positive, (key, e)) ↦
              binds libs json config scope proposal_bytes secret api_key previous now false bytes
                publication p (rw e (expected_validity-with_key libs p.proposal _ _ refl positive))
        ]
    where
      p :
          IsPrepared libs config scope proposal_bytes secret api_key previous now false bytes
            publication
      p = prepare-IsPrepared libs config scope proposal_bytes secret api_key previous now false h

      published_share : publication.candidate_basis_points ≡ p.proposal.candidate_basis_points
      published_share =
          share_published libs json config scope proposal_bytes secret api_key previous now false
            bytes publication p

  -- A prepared zero route passes that check too, against the proposal of the route that it ends.
  pub prepare_zero-binds :
      (previous : RoutePublication)
      → prepare_operator_zero_route_manifest libs config scope proposal_bytes previous now
        ≡ ok (bytes, publication)
      → verify_operator_manifest_proposal_binding libs config scope bytes proposal_bytes ≡ ok tt
  unfolding prepare_operator_zero_route_manifest prepared_manifest expected_validity check_zero
  prepare_zero-binds previous h =
      elim (prepare_candidate-cases libs p.proposal 0 none p.is_candidate) [
        | inl (_, e) ↦
            binds libs json config scope proposal_bytes none none (some previous) now true bytes
              publication p (rw e (ground (arith, p.zero_checked)))
        | inr (positive, _) ↦ absurd (positive refl)
      ]
    where
      p :
          IsPrepared libs config scope proposal_bytes none none
            (some previous)
            now
            true
            bytes
            publication
      p = prepare-IsPrepared libs config scope proposal_bytes none none (some previous) now true h

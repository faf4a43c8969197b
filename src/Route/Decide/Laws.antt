-- ===== src/Route/Decide/Laws.antt =====
-- What `decide` promises.
use milk_carton.Base.{
  ℕ, ◌+◌, ◌-◌, ◌^◌, ◌≤◌, ◌<◌, ◌≡◌, ◌≢◌, ◌↔◌, ◌⊎◌, inl, inr, refl, sym, ap, ◌∙◌, subst, Option, none,
  some, Bytes, ok, arith,
}
use milk_carton.Sampling.{selected}
use milk_carton.Sampling.Laws.{selected_mono}
use milk_carton.Route.Types.{RouteStartupConfig, RouteScope, DateTime, Instant, RouteTarget}
use milk_carton.Route.Libs.{Libs}
use milk_carton.Route.Policy.{
  BaselineReason, ActiveRoute, RouteState, dormant, active, RoutePolicy, from_signed_bytes,
}
use milk_carton.Route.Policy.Activation.{from_signed_bytes-active}
use milk_carton.Route.Manifest.{ParsedRouteManifest}
use milk_carton.Route.Manifest.Parsed.{IsParsed}
use milk_carton.Route.Decide.{
  RouteRequest, CandidateRoute, RouteDecision, candidate_route, baseline_decision, Check, pass,
  blocked, check_request, check_state, settle, decide,
}
use milk_carton.Route.Decide.Admits.{Admits, check_request-Admits, Admits-check_request}

Check-cases {ℓ} :
    {A : Type ℓ} (c : Check A) → ((r : BaselineReason) × (c ≡ blocked r)) ⊎ ((a : A) × (c ≡ pass a))
Check-cases (pass a) = inr (a, refl)
Check-cases (blocked r) = inl (r, refl)

RouteState-cases :
    (s : RouteState)
    → ((r : BaselineReason) × (s ≡ dormant r)) ⊎ ((a : ActiveRoute) × (s ≡ active a))
RouteState-cases (dormant r) = inl (r, refl)
RouteState-cases (active a) = inr (a, refl)

active-injective : {a b : ActiveRoute} → active a ≡ active b → a ≡ b
active-injective h = cc

baseline-ne-candidate :
    (policy : RoutePolicy) (reason : BaselineReason)
    → (baseline_decision policy reason).target ≢ RouteTarget.candidate
unfolding baseline_decision
baseline-ne-candidate policy reason h = cc

selects :
    (libs : Libs) (policy : RoutePolicy) (request : RouteRequest) (now : Instant)
    (route : ActiveRoute)
    → policy.state ≡ active route
    → Admits libs route request now
    → (decide libs policy request now).target ≡ RouteTarget.candidate
unfolding decide settle check_state
selects libs policy request now route e admits =
    ap (λ (c : Check CandidateRoute). (settle policy c).target)
      (ap (λ s. check_state libs s request now) e
        ∙ Admits-check_request libs route request now admits)

module _ (libs : Libs) (policy : RoutePolicy) (request : RouteRequest) (now : Instant) where
  -- The decision on every branch: either the candidate, with the identity of the active route and no
  -- reason, and then the request meets every condition; or the baseline, with no candidate and a
  -- reason, and then the policy is dormant or the checks of the request block it for that reason.
  pub decide-cases :
      ((route : ActiveRoute) × (policy.state ≡ active route)
        × (admits : Admits libs route request now) × (decide libs policy request now ≡ record {
          target = RouteTarget.candidate;
          route_revision = policy.revision;
          candidate = some (candidate_route route admits.candidate);
          baseline_reason = none;
        }))
      ⊎ ((reason : BaselineReason) × (decide libs policy request now
            ≡ baseline_decision policy reason)
          × ((policy.state ≡ dormant reason)
              ⊎ ((route : ActiveRoute) × (policy.state ≡ active route)
                  × (check_request libs route request now ≡ blocked reason))))
  unfolding decide settle check_state
  decide-cases = elim (RouteState-cases policy.state) [
    | inl (reason, e) ↦
        inr (reason, ap (settle policy) (ap (λ s. check_state libs s request now) e), inl e)
    | inr (route, e) ↦ elim (Check-cases (check_request libs route request now)) [
      | inl (reason, c) ↦ inr (
        reason,
        ap (settle policy) (ap (λ s. check_state libs s request now) e ∙ c),
        inr (route, e, c),
      )
      | inr (chosen, c) ↦
          let admits = check_request-Admits libs route request now c in
          inl (
            route,
            e,
            admits,
            ap (settle policy) (
                ap (λ s. check_state libs s request now) e
                ∙ Admits-check_request libs route request now admits),
          )
    ]
  ]

  -- `decide` selects the candidate for exactly the requests that an active route admits.
  pub decide-candidate_iff :
      ((decide libs policy request now).target ≡ RouteTarget.candidate)
      ↔ ((route : ActiveRoute) × (policy.state ≡ active route) × (Admits libs route request now))
  decide-candidate_iff = (forth, back)
    where
      forth :
          (decide libs policy request now).target ≡ RouteTarget.candidate
          → (route : ActiveRoute) × (policy.state ≡ active route) × (Admits libs route request now)
      forth h = elim decide-cases [
        | inl (route, e, admits, _) ↦ (route, e, admits)
        | inr (reason, d, _) ↦
            absurd (
              baseline-ne-candidate policy reason
                (sym (ap (λ (d : RouteDecision). d.target) d) ∙ h))
      ]

      back :
          ((route : ActiveRoute) × (policy.state ≡ active route) × (Admits libs route request now))
          → (decide libs policy request now).target ≡ RouteTarget.candidate
      back (route, e, admits) = selects libs policy request now route e admits

-- A route with another share.
abbrev pub with_share : ActiveRoute → ℕ → ActiveRoute
with_share route share = record route {
  manifest = record route.manifest { candidate_basis_points = share };
}

abbrev pub policy_of : Bytes → ActiveRoute → RoutePolicy
policy_of revision route = record { revision = revision; state = active route }

Admits-with_share :
    (libs : Libs) (route : ActiveRoute) (request : RouteRequest) (now : Instant) (share : ℕ)
    → route.manifest.candidate_basis_points ≤ share
    → share < 2 ^ 16
    → Admits libs route request now
    → Admits libs (with_share route share) request now
Admits-with_share libs route request now share l u a = record {
  before_expiry = a.before_expiry;
  candidate = a.candidate;
  has_candidate = a.has_candidate;
  single_type = a.single_type;
  json_type = a.json_type;
  no_encoding = a.no_encoding;
  no_beta = a.no_beta;
  no_query = a.no_query;
  body_bounded = a.body_bounded;
  endpoint_supported = a.endpoint_supported;
  metadata = a.metadata;
  is_parsed = a.is_parsed;
  same_model = a.same_model;
  same_effort = a.same_effort;
  input_bounded = a.input_bounded;
  streaming = a.streaming;
  is_streaming = a.is_streaming;
  streaming_supported = a.streaming_supported;
  sampled = selected_mono _ route.manifest.candidate_basis_points share l u a.sampled;
}

-- A session that goes to the candidate at some share goes to it at every larger `u16` share of the
-- same route: raising the share moves no session back.
pub decide-with_share :
    (libs : Libs) (revision : Bytes) (route : ActiveRoute) (request : RouteRequest) (now : Instant)
    (share : ℕ)
    → route.manifest.candidate_basis_points ≤ share
    → share < 2 ^ 16
    → (decide libs (policy_of revision route) request now).target ≡ RouteTarget.candidate
    → (decide libs (policy_of revision (with_share route share)) request now).target
      ≡ RouteTarget.candidate
decide-with_share libs revision route request now share l u h =
    let (other, e, admits) = (decide-candidate_iff libs _ request now).0 h in
    (decide-candidate_iff libs _ request now).1 (
      with_share route share,
      refl,
      Admits-with_share libs route request now share l u
          (subst (λ r. Admits libs r request now) (sym (active-injective e)) admits),
    )

-- A policy that was made at `wall_now` and `monotonic_now` sends a request, at that moment or later,
-- to the candidate only while the signed manifest is valid, as the monotonic clock measures it, and
-- only with a share above zero.
pub decide_within_validity :
    (libs : Libs) (config : RouteStartupConfig) (scope : RouteScope)
    (secret_hex api_key : Option Bytes) (max_in_flight : ℕ) (wall_now : DateTime)
    (monotonic_now : Instant) (bytes signature : Bytes) (policy : RoutePolicy)
    (request : RouteRequest) (now : Instant)
    → from_signed_bytes libs config scope secret_hex api_key max_in_flight wall_now monotonic_now
        bytes signature
      ≡ ok policy
    → monotonic_now ≤ now
    → (decide libs policy request now).target ≡ RouteTarget.candidate
    → (parsed : ParsedRouteManifest) × (IsParsed libs config scope bytes parsed)
      × (parsed.manifest.not_before ≤ wall_now + (now - monotonic_now))
      × (wall_now + (now - monotonic_now) < parsed.manifest.not_after)
      × (0 < parsed.manifest.candidate_basis_points)
decide_within_validity libs config scope secret_hex api_key max_in_flight wall_now monotonic_now
      bytes signature policy request now h later selected =
    let (route, e, admits) = (decide-candidate_iff libs policy request now).0 selected in
    let (parsed, is_parsed, _, activated) =
      from_signed_bytes-active libs config scope secret_hex api_key max_in_flight wall_now
        monotonic_now bytes signature route h e in
    (
      parsed,
      is_parsed,
      omega (arith, activated.begun),
      omega (arith, activated.begun, activated.lasting, activated.expires, admits.before_expiry),
      omega (arith, activated.share),
    )

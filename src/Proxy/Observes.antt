-- ===== src/Proxy/Observes.antt =====
-- What is observed of a request is what has answered it.
use milk_carton.Base.{◌≡◌, ◌≢◌, ◌⊎◌, ◌↔◌, inl, inr, sym, ap, ◌∙◌, Bool, [], ◌∷◌, Option, none, some}
use milk_carton.Route.Types.{Instant, RouteTarget}
use milk_carton.Route.Libs.{Libs}
use milk_carton.Route.Policy.{BaselineReason, RoutePolicy}
use milk_carton.Route.Decide.{RouteRequest, RouteDecision, baseline_decision, decide}
use milk_carton.Route.Decide.Laws.{decide-cases}
use milk_carton.Stats.Values.{RouteBlockReason, RouteObservation, RouteFallbackReason, fallback}
use milk_carton.Proxy.{
  CandidateTransport, Response, Reply, replied, forwarded, local_error, from_baseline_reason,
  from_block_reason, block_reason, Outcome, proxy_decided,
}
use milk_carton.Proxy.Exchanged.{AtCandidate, IsObserved, Unsent}
use milk_carton.Proxy.Cases.{proxy_decided-cases}

fallback-ne-candidate :
    (reason : RouteFallbackReason) → fallback reason ≢ RouteObservation.candidate
fallback-ne-candidate reason h = cc

baseline-ne-candidate : RouteTarget.baseline ≢ RouteTarget.candidate
baseline-ne-candidate h = cc

block-ne-candidate :
    (o : Option RouteBlockReason) → from_block_reason o ≢ RouteObservation.candidate
unfolding from_block_reason
block-ne-candidate none h = cc
block-ne-candidate (some r) h = cc

reason-ne-candidate :
    (reason : BaselineReason) → from_baseline_reason (some reason) ≢ RouteObservation.candidate
unfolding from_baseline_reason
reason-ne-candidate reason h = block-ne-candidate (block_reason reason) h

-- A decision is for the candidate and has no reason, or is for the baseline and has one.
abbrev IsDecision : RouteDecision → Type 0
IsDecision d =
    ((d.target ≡ RouteTarget.candidate) × (d.baseline_reason ≡ none))
    ⊎ ((d.target ≡ RouteTarget.baseline)
        × ((reason : BaselineReason) × (d.baseline_reason ≡ some reason)))

decide-IsDecision :
    (libs : Libs) (policy : RoutePolicy) (request : RouteRequest) (now : Instant)
    → IsDecision (decide libs policy request now)
unfolding baseline_decision
decide-IsDecision libs policy request now = elim (decide-cases libs policy request now) [
  | inl (route, _, _, d) ↦
      inl (ap (λ (d : RouteDecision). d.target) d, ap (λ (d : RouteDecision). d.baseline_reason) d)
  | inr (reason, d, _) ↦ inr (
    ap (λ (d : RouteDecision). d.target) d,
    (reason, ap (λ (d : RouteDecision). d.baseline_reason) d),
  )
]

module _ (decision : RouteDecision) (outcome : Outcome) (is_decision : IsDecision decision) where
  at_candidate :
      (transport : Option CandidateTransport) (reply : Reply)
      → AtCandidate decision transport reply outcome
      → outcome.observation ≡ RouteObservation.candidate
  unfolding from_baseline_reason
  at_candidate transport reply h = elim is_decision [
    | inl (_, no_reason) ↦ h.observation ∙ ap from_baseline_reason no_reason
    | inr (base, _) ↦ absurd (baseline-ne-candidate (sym base ∙ h.decided))
  ]

  not_candidate :
      IsObserved decision outcome.observation → outcome.observation ≢ RouteObservation.candidate
  not_candidate observed_as observed = elim observed_as [
    | inr (reason, e) ↦ fallback-ne-candidate reason (sym e ∙ observed)
    | inl (base, e) ↦ elim is_decision [
      | inl (cand, _) ↦ baseline-ne-candidate (sym base ∙ cand)
      | inr (_, (reason, has_reason)) ↦
          reason-ne-candidate reason (sym (e ∙ ap from_baseline_reason has_reason) ∙ observed)
    ]
  ]

-- The client gets the response of the candidate, or, before anybody is asked, the error that the
-- headers of its request cannot be forwarded to it.
abbrev pub ForCandidate : Reply → Outcome → Type 0
ForCandidate candidate_reply outcome =
    (outcome.target ≡ RouteTarget.candidate)
    × (((response : Response) × (candidate_reply ≡ replied response)
          × (outcome.answer ≡ forwarded response.status)
          × (outcome.sent ≡ RouteTarget.candidate ∷ []))
        ⊎ ((outcome.answer ≡ local_error "invalid_request_headers") × (outcome.sent ≡ [])))

-- The outcome for a request that `decide` has decided.
abbrev pub proxied :
    Libs
    → RoutePolicy
    → RouteRequest
    → Instant
    → Option CandidateTransport
    → (RouteTarget → Bool)
    → Reply
    → Reply
    → Outcome
proxied libs policy request now transport valid baseline_reply candidate_reply =
    proxy_decided (decide libs policy request now) transport valid baseline_reply candidate_reply

Unsent-ForCandidate :
    (decision : RouteDecision) (transport : Option CandidateTransport) (valid : RouteTarget → Bool)
    (reply : Reply) (outcome : Outcome)
    → IsDecision decision
    → Unsent decision transport valid outcome
    → (outcome.observation ≡ RouteObservation.candidate) ↔ ForCandidate reply outcome
unfolding from_baseline_reason
Unsent-ForCandidate decision transport valid reply outcome is_decision h = elim h.chosen [
  | inl (target, decided, ready, observation) ↦ elim is_decision [
    | inl (_, no_reason) ↦ (
      λ _. (target, inr (h.answer, h.sent)),
      λ _. observation ∙ ap from_baseline_reason no_reason,
    )
    | inr (base, _) ↦ absurd (baseline-ne-candidate (sym base ∙ decided))
  ]
  | inr (target, neither, observed_as) ↦ (
    λ observed. absurd (not_candidate decision outcome is_decision observed_as observed),
    λ is_for. absurd (baseline-ne-candidate (sym target ∙ is_for.0)),
  )
]

-- A request that `decide` has decided is observed as a candidate request exactly when the candidate is
-- the target that the client is told of: it gets the response of the candidate, which alone was asked,
-- or `invalid_request_headers`, for which nobody was asked.
pub proxy_decided_observes :
    (libs : Libs) (policy : RoutePolicy) (request : RouteRequest) (now : Instant)
    (transport : Option CandidateTransport) (valid : RouteTarget → Bool)
    (baseline_reply candidate_reply : Reply)
    → ((proxied libs policy request now transport valid baseline_reply candidate_reply).observation
        ≡ RouteObservation.candidate)
      ↔ ForCandidate candidate_reply
          (proxied libs policy request now transport valid baseline_reply candidate_reply)
proxy_decided_observes libs policy request now transport valid baseline_reply candidate_reply =
    let decision = decide libs policy request now in
    let outcome = proxy_decided decision transport valid baseline_reply candidate_reply in
    let is_decision = decide-IsDecision libs policy request now in
    elim (proxy_decided-cases decision baseline_reply candidate_reply transport valid) [
      | inl h ↦ Unsent-ForCandidate decision transport valid candidate_reply outcome is_decision h
      | inr (sendable, inl h) ↦ (
        λ _. (h.target, inl (h.response, h.is_response, h.answer, h.sent)),
        λ _. at_candidate decision outcome is_decision transport candidate_reply h,
      )
      | inr (sendable, inr (inl h)) ↦ (
        λ observed. absurd (fallback-ne-candidate _ (sym h.observation ∙ observed)),
        λ is_for. absurd (baseline-ne-candidate (sym h.target ∙ is_for.0)),
      )
      | inr (sendable, inr (inr h)) ↦ (
        λ observed. absurd (not_candidate decision outcome is_decision h.observation observed),
        λ is_for. absurd (baseline-ne-candidate (sym h.target ∙ is_for.0)),
      )
    ]

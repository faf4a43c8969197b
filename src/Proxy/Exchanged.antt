-- ===== src/Proxy/Exchanged.antt =====
-- What the proxy guarantees about the candidate: who answers, what is observed, and the permits.
use milk_carton.Base.{
  ℕ, ◌+◌, ◌<◌, ◌≡◌, ◌⊎◌, inl, inr, refl, Bool, true, false, ◌||◌, not, Option, none, some, [], ◌∷◌,
  if◌then◌else◌, Bool-cases, or-false, not-false,
}
use milk_carton.Route.Types.{RouteTarget}
use milk_carton.Route.Decide.{RouteDecision}
use milk_carton.Stats.Values.{RouteObservation, fallback, candidate_failure, RouteFallbackReason}
use milk_carton.Proxy.{
  CandidateTransport, Response, Reply, failed, replied, from_baseline_reason, is_redirection,
  status_valid, candidate_response_requires_fallback, should_fallback, Exchange, Answer,
  local_error, forwarded, Outcome, fuse_if_candidate, release_if_candidate, unavailable, reject,
  is_candidate, forward, respond_to, respond,
}

-- The candidate can take the request: it is healthy and a permit is left.
abbrev pub IsReady : Option CandidateTransport → Type 0
IsReady none = ⊥
IsReady (some c) = (c.healthy ≡ true) × (0 < c.permits)

abbrev pub permits : Option CandidateTransport → ℕ
permits none = 0
permits (some c) = c.permits

abbrev pub is_healthy : Option CandidateTransport → Bool
is_healthy none = false
is_healthy (some c) = c.healthy

-- What the client is answered with when the baseline has replied.
unfoldable pub baseline_answer : Reply → Answer
baseline_answer failed = local_error "upstream_unavailable"
baseline_answer (replied response) =
    if is_redirection response.status
    then local_error "upstream_redirect_rejected"
    else if not (status_valid response.status) || not (response.headers_valid RouteTarget.baseline)
    then local_error "invalid_upstream_response"
    else forwarded response.status

-- The three ways that a decided request ends once it can be sent. The candidate's response is
-- forwarded, and its permit stays with the body.
pub record AtCandidate (decision : RouteDecision) (transport : Option CandidateTransport)
    (candidate_reply : Reply) (outcome : Outcome) : Type 0 where
  pub target : outcome.target ≡ RouteTarget.candidate
  pub decided : decision.target ≡ RouteTarget.candidate
  pub ready : IsReady transport
  pub response : Response
  pub is_response : candidate_reply ≡ replied response
  pub accepted : candidate_response_requires_fallback response ≡ false
  pub answer : outcome.answer ≡ forwarded response.status
  pub observation : outcome.observation ≡ from_baseline_reason decision.baseline_reason
  pub sent : outcome.sent ≡ RouteTarget.candidate ∷ []
  pub permit : permits transport ≡ permits outcome.transport + 1
  pub healthy : is_healthy outcome.transport ≡ true

-- The candidate was asked and failed: its fuse is open, its permit is back, and the baseline answers.
pub record FellBack (decision : RouteDecision) (transport : Option CandidateTransport)
    (baseline_reply candidate_reply : Reply) (outcome : Outcome) : Type 0 where
  pub target : outcome.target ≡ RouteTarget.baseline
  pub decided : decision.target ≡ RouteTarget.candidate
  pub ready : IsReady transport
  pub refused : should_fallback candidate_reply ≡ true
  pub answer : outcome.answer ≡ baseline_answer baseline_reply
  pub observation : outcome.observation ≡ fallback candidate_failure
  pub sent : outcome.sent ≡ RouteTarget.candidate ∷ RouteTarget.baseline ∷ []
  pub permit : permits outcome.transport ≡ permits transport
  pub healthy : is_healthy outcome.transport ≡ false

-- Only the baseline was asked, and the candidate is as it was.
pub record AtBaseline (decision : RouteDecision) (transport : Option CandidateTransport)
    (baseline_reply : Reply) (outcome : Outcome) : Type 0 where
  pub target : outcome.target ≡ RouteTarget.baseline
  pub reason : (decision.target ≡ RouteTarget.candidate) × (IsReady transport) → ⊥
  pub answer : outcome.answer ≡ baseline_answer baseline_reply
  pub observation :
      ((decision.target ≡ RouteTarget.baseline)
        × (outcome.observation ≡ from_baseline_reason decision.baseline_reason))
      ⊎ ((reason : RouteFallbackReason) × (outcome.observation ≡ fallback reason))
  pub sent : outcome.sent ≡ RouteTarget.baseline ∷ []
  pub unchanged : outcome.transport ≡ transport

-- The observation of a request that is not for the candidate: the decision's, or why it fell back.
abbrev pub IsObserved : RouteDecision → RouteObservation → Type 0
IsObserved decision observation =
    ((decision.target ≡ RouteTarget.baseline)
      × (observation ≡ from_baseline_reason decision.baseline_reason))
    ⊎ ((reason : RouteFallbackReason) × (observation ≡ fallback reason))

-- The headers of the request can be forwarded to the baseline, and to the candidate if it is chosen.
pub record IsSendable (decision : RouteDecision) (transport : Option CandidateTransport)
    (request_headers_valid : RouteTarget → Bool) : Type 0 where
  pub to_baseline : request_headers_valid RouteTarget.baseline ≡ true
  pub to_candidate :
      decision.target ≡ RouteTarget.candidate
      → IsReady transport
      → request_headers_valid RouteTarget.candidate ≡ true

-- The headers of the request could not be forwarded: nobody was asked, and no permit is held. The target
-- that is named is the one that was chosen.
pub record Unsent (decision : RouteDecision) (transport : Option CandidateTransport)
    (request_headers_valid : RouteTarget → Bool) (outcome : Outcome) : Type 0 where
  pub answer : outcome.answer ≡ local_error "invalid_request_headers"
  pub sent : outcome.sent ≡ []
  pub unchanged : outcome.transport ≡ transport
  pub invalid :
      (request_headers_valid RouteTarget.baseline ≡ false)
      ⊎ ((outcome.target ≡ RouteTarget.candidate)
          × (request_headers_valid RouteTarget.candidate ≡ false))
  pub chosen :
      ((outcome.target ≡ RouteTarget.candidate)
        × (decision.target ≡ RouteTarget.candidate)
        × IsReady transport
        × (outcome.observation ≡ from_baseline_reason decision.baseline_reason))
      ⊎ ((outcome.target ≡ RouteTarget.baseline)
          × ((decision.target ≡ RouteTarget.candidate) × (IsReady transport) → ⊥)
          × IsObserved decision outcome.observation)

-- A response to the baseline's request: the answer is the baseline's, and nothing else changes.
pub respond-baseline :
    (e : Exchange) (reply : Reply)
    → e.target ≡ RouteTarget.baseline
    → ((respond e reply).answer ≡ baseline_answer reply)
      × ((respond e reply).target ≡ RouteTarget.baseline)
      × ((respond e reply).sent ≡ e.sent)
      × ((respond e reply).transport ≡ e.transport)
      × ((respond e reply).observation ≡ e.observation)
unfolding respond respond_to reject forward baseline_answer unavailable fuse_if_candidate
    release_if_candidate is_candidate
respond-baseline e failed h = (rw h refl, h, refl, rw h refl, refl)
respond-baseline e (replied r) h = elim (Bool-cases (is_redirection r.status)) [
  | inl red ↦ rw red (refl, h, refl, rw h refl, refl)
  | inr no_red ↦ elim (Bool-cases (status_valid r.status)) [
    | inr invalid ↦ rw (no_red, invalid) (refl, h, refl, rw h refl, refl)
    | inl valid ↦ elim (Bool-cases (r.headers_valid RouteTarget.baseline)) [
      | inr bad ↦ rw (no_red, valid, h, bad) (refl, refl, refl, refl, refl)
      | inl good ↦ rw (no_red, valid, h, good) (refl, refl, refl, refl, refl)
    ]
  ]
]

-- A response that needs no fallback is forwarded, with the fuse as it was.
pub respond-candidate :
    (e : Exchange) (r : Response)
    → e.target ≡ RouteTarget.candidate
    → candidate_response_requires_fallback r ≡ false
    → respond e (replied r) ≡ record {
      answer = forwarded r.status;
      target = e.target;
      observation = e.observation;
      transport = e.transport;
      sent = e.sent;
    }
unfolding respond respond_to forward candidate_response_requires_fallback is_candidate
respond-candidate e r h accepted =
    let (rest, bad) = or-false _ (not (r.headers_valid RouteTarget.candidate)) accepted in
    let (rest, invalid) = or-false _ (not (status_valid r.status)) rest in
    let (no_red, well) = or-false (is_redirection r.status) _ rest in
    let good = not-false _ bad in
    let valid = not-false _ invalid in rw (no_red, valid, h, good, well) refl

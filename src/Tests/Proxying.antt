-- ===== src/Tests/Proxying.antt =====
-- Tests and witnesses of Proxy.
use milk_carton.Base.{◌≡◌, ◌⊎◌, ◌↔◌, refl, Bool, true, false, Option, none, some, [], ◌∷◌}
use milk_carton.Route.Types.{RouteTarget}
use milk_carton.Route.Decide.{RouteDecision}
use milk_carton.Stats.Values.{RouteObservation, fallback, candidate_failure}
use milk_carton.Proxy.{
  CandidateTransport, Reply, replied, failed, forwarded, select_target, select_for,
  select_candidate, from_baseline_reason, send_to, send_candidate, should_fallback,
  candidate_response_requires_fallback, is_redirection, candidate_health_failure, status_valid,
  open_candidate_fuse, release, respond, respond_to, forward, is_candidate, proxy_decided,
  local_error, reject_headers, release_if_candidate,
}
use milk_carton.Proxy.Exchanged.{AtCandidate, FellBack, AtBaseline, IsSendable, Unsent}
use milk_carton.Proxy.Cases.{proxy_decided-cases}
use milk_carton.Proxy.Observes.{ForCandidate, proxied, proxy_decided_observes}
use milk_carton.Tests.Setup.{libs}
use milk_carton.Tests.Decisions.{policy, request}

abbrev decision : RouteDecision
decision = record {
  target = RouteTarget.candidate;
  route_revision = [];
  candidate = none;
  baseline_reason = none;
}

abbrev two_permits : Option CandidateTransport
two_permits = some (record { healthy = true; permits = 2 })

abbrev accepted : RouteTarget → Bool
accepted target = true

abbrev is_baseline : RouteTarget → Bool
is_baseline RouteTarget.baseline = true
is_baseline RouteTarget.candidate = false

abbrev success : Reply
success = replied (record { status = 200; headers_valid = λ target. true })

abbrev overloaded : Reply
overloaded = replied (record { status = 503; headers_valid = λ target. true })

-- The candidate is overloaded: the baseline's response is forwarded.
falls_back : proxy_decided decision two_permits accepted success overloaded ≡ record {
  answer = forwarded 200;
  target = RouteTarget.baseline;
  observation = fallback candidate_failure;
  transport = some (record { healthy = false; permits = 2 });
  sent = RouteTarget.candidate ∷ RouteTarget.baseline ∷ [];
}
unfolding proxy_decided select_target select_for select_candidate from_baseline_reason send_to
    send_candidate should_fallback candidate_response_requires_fallback is_redirection
    candidate_health_failure status_valid open_candidate_fuse release respond respond_to forward
    is_candidate
falls_back = refl

-- The headers of the request cannot go to the candidate: it has its permit back, and nobody is asked.
refuses : proxy_decided decision two_permits is_baseline success success ≡ record {
  answer = local_error "invalid_request_headers";
  target = RouteTarget.candidate;
  observation = RouteObservation.candidate;
  transport = two_permits;
  sent = [];
}
unfolding proxy_decided select_target select_for select_candidate from_baseline_reason is_candidate
    reject_headers release_if_candidate release
refuses = refl

proxy_decided-cases_example :
    Unsent decision two_permits accepted
      (proxy_decided decision two_permits accepted success overloaded)
    ⊎ (IsSendable decision two_permits accepted
        × ((AtCandidate decision two_permits overloaded
              (proxy_decided decision two_permits accepted success overloaded))
            ⊎ (FellBack decision two_permits success overloaded
                (proxy_decided decision two_permits accepted success overloaded))
            ⊎ (AtBaseline decision two_permits success
                (proxy_decided decision two_permits accepted success overloaded))))
proxy_decided-cases_example = proxy_decided-cases decision success overloaded two_permits accepted

proxy_decided_observes_example :
    ((proxied libs policy request 5 two_permits accepted failed success).observation
      ≡ RouteObservation.candidate)
    ↔ ForCandidate success (proxied libs policy request 5 two_permits accepted failed success)
proxy_decided_observes_example =
    proxy_decided_observes libs policy request 5 two_permits accepted failed success

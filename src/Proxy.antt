-- ===== src/Proxy.antt =====
-- The middle of `proxy_openai` of main.rs, from the decision on a request to the response: the choice
-- of the target, the fallback from the candidate to the baseline, the fuse of the candidate, its
-- permits, and the errors that the gateway answers with. Whether the headers of the request can be
-- forwarded, and the replies of the two providers, with their transport errors and deadlines, are
-- arguments.
pub mod Cases
pub mod Chosen
pub mod Exchanged
pub mod Fates
pub mod Observes
use milk_carton.Base.{
  ℕ, suc, ◌-◌, Bool, true, false, ◌&&◌, ◌||◌, not, Option, none, some, List, [], ◌∷◌, leb, ltb,
  nat_eq, if◌then◌else◌, String,
}
use milk_carton.Route.Types.{RouteTarget}
use milk_carton.Route.Policy.{BaselineReason}
use milk_carton.Route.Decide.{RouteDecision}
use milk_carton.Stats.Values.{
  RouteBlockReason, RouteObservation, ineligible, fallback, candidate_capacity, candidate_failure,
  candidate_unhealthy,
}

-- The health of the candidate and the permits that its semaphore has left.
pub record CandidateTransport : Type 0 where
  pub healthy : Bool
  pub permits : ℕ

-- A response of a provider; `headers_valid` says whether `downstream_response_headers` accepts its
-- headers for the target.
pub record Response : Type 0 where
  pub status : ℕ
  pub headers_valid : RouteTarget → Bool

pub data Reply : Type 0 where
  failed : Reply
  replied : Response → Reply

unfoldable pub block_reason : BaselineReason → Option RouteBlockReason
block_reason BaselineReason.policy_absent = some RouteBlockReason.policy_absent
block_reason BaselineReason.policy_zero = some RouteBlockReason.policy_zero
block_reason BaselineReason.policy_expired = some RouteBlockReason.policy_expired
block_reason BaselineReason.policy_not_yet_valid = some RouteBlockReason.policy_not_yet_valid
block_reason BaselineReason.route_secret_missing = some RouteBlockReason.route_secret_missing
block_reason BaselineReason.candidate_credential_missing =
    some RouteBlockReason.candidate_credential_missing
block_reason BaselineReason.unsupported_content_type =
    some RouteBlockReason.unsupported_content_type
block_reason BaselineReason.content_encoding = some RouteBlockReason.content_encoding
block_reason BaselineReason.query_string = some RouteBlockReason.query_string
block_reason BaselineReason.reasoning_effort_mismatch =
    some RouteBlockReason.reasoning_effort_mismatch
block_reason BaselineReason.unsupported_request = some RouteBlockReason.unsupported_request
block_reason BaselineReason.model_mismatch = some RouteBlockReason.model_mismatch
block_reason BaselineReason.unsupported_capability = some RouteBlockReason.unsupported_capability
block_reason BaselineReason.not_sampled = none

unfoldable pub from_block_reason : Option RouteBlockReason → RouteObservation
from_block_reason none = RouteObservation.not_selected
from_block_reason (some reason) = ineligible reason

unfoldable pub from_baseline_reason : Option BaselineReason → RouteObservation
from_baseline_reason none = RouteObservation.candidate
from_baseline_reason (some reason) = from_block_reason (block_reason reason)

-- The local variables of the handler that the choice of the target sets.
pub record Selection : Type 0 where
  pub target : RouteTarget
  pub observation : RouteObservation
  pub transport : Option CandidateTransport

unfoldable pub select_candidate : Option CandidateTransport → RouteObservation → Selection
select_candidate none observation = record {
  target = RouteTarget.baseline;
  observation = fallback candidate_unhealthy;
  transport = none;
}
select_candidate (some c) observation =
    if not c.healthy
    then record {
      target = RouteTarget.baseline;
      observation = fallback candidate_unhealthy;
      transport = some c;
    }
    else if nat_eq c.permits 0
    then record {
      target = RouteTarget.baseline;
      observation = fallback candidate_capacity;
      transport = some c;
    }
    else record {
      target = RouteTarget.candidate;
      observation = observation;
      transport = some (record c { permits = c.permits - 1 });
    }

unfoldable pub select_for : RouteTarget → RouteObservation → Option CandidateTransport → Selection
select_for RouteTarget.baseline observation transport = record {
  target = RouteTarget.baseline;
  observation = observation;
  transport = transport;
}
select_for RouteTarget.candidate observation transport = select_candidate transport observation

unfoldable pub select_target : RouteDecision → Option CandidateTransport → Selection
select_target decision transport =
    select_for decision.target (from_baseline_reason decision.baseline_reason) transport

unfoldable pub is_redirection : ℕ → Bool
is_redirection status = leb 300 status && ltb status 400

unfoldable pub candidate_health_failure : ℕ → Bool
candidate_health_failure status =
    nat_eq status 401
    || nat_eq status 403
    || nat_eq status 404
    || nat_eq status 408
    || nat_eq status 429
    || leb 500 status && ltb status 600

-- `StatusCode::from_u16(status).is_ok()`
unfoldable pub status_valid : ℕ → Bool
status_valid status = leb 100 status && ltb status 1000

unfoldable pub candidate_response_requires_fallback : Response → Bool
candidate_response_requires_fallback response =
    is_redirection response.status
    || candidate_health_failure response.status
    || not (status_valid response.status)
    || not (response.headers_valid RouteTarget.candidate)

unfoldable pub should_fallback : Reply → Bool
should_fallback failed = true
should_fallback (replied response) = candidate_response_requires_fallback response

unfoldable pub open_candidate_fuse : Option CandidateTransport → Option CandidateTransport
open_candidate_fuse none = none
open_candidate_fuse (some c) = some (record c { healthy = false })

-- `drop` of the permit.
unfoldable pub release : Option CandidateTransport → Option CandidateTransport
release none = none
release (some c) = some (record c { permits = suc c.permits })

-- The local variables once a response, or an error, is there, and the targets that were tried in turn.
-- An endpoint of the candidate that is no URL counts as tried, with a failed reply.
pub record Exchange : Type 0 where
  pub target : RouteTarget
  pub observation : RouteObservation
  pub transport : Option CandidateTransport
  pub sent : List RouteTarget
  pub reply : Reply

unfoldable pub send_candidate : Selection → Reply → Reply → Exchange
send_candidate selection baseline_reply candidate_reply =
    if should_fallback candidate_reply
    then record {
      target = RouteTarget.baseline;
      observation = fallback candidate_failure;
      transport = release (open_candidate_fuse selection.transport);
      sent = RouteTarget.candidate ∷ RouteTarget.baseline ∷ [];
      reply = baseline_reply;
    }
    else record {
      target = RouteTarget.candidate;
      observation = selection.observation;
      transport = selection.transport;
      sent = RouteTarget.candidate ∷ [];
      reply = candidate_reply;
    }

unfoldable pub send_to : RouteTarget → Selection → Reply → Reply → Exchange
send_to RouteTarget.baseline selection baseline_reply candidate_reply = record {
  target = RouteTarget.baseline;
  observation = selection.observation;
  transport = selection.transport;
  sent = RouteTarget.baseline ∷ [];
  reply = baseline_reply;
}
send_to RouteTarget.candidate selection baseline_reply candidate_reply =
    send_candidate selection baseline_reply candidate_reply

-- What the client is answered with: an error of the gateway, with its code, or the response.
pub data Answer : Type 0 where
  local_error : String → Answer
  forwarded : ℕ → Answer

pub record Outcome : Type 0 where
  pub answer : Answer
  pub target : RouteTarget
  pub observation : RouteObservation
  pub transport : Option CandidateTransport
  pub sent : List RouteTarget

-- `if target == RouteTarget::Candidate { open_candidate_fuse(..) }`
unfoldable pub fuse_if_candidate :
    RouteTarget → Option CandidateTransport → Option CandidateTransport
fuse_if_candidate RouteTarget.baseline transport = transport
fuse_if_candidate RouteTarget.candidate transport = open_candidate_fuse transport

-- A permit that is still held is released when the handler returns.
unfoldable pub release_if_candidate :
    RouteTarget → Option CandidateTransport → Option CandidateTransport
release_if_candidate RouteTarget.baseline transport = transport
release_if_candidate RouteTarget.candidate transport = release transport

unfoldable pub unavailable : RouteTarget → String
unavailable RouteTarget.baseline = "upstream_unavailable"
unavailable RouteTarget.candidate = "candidate_unavailable"

unfoldable pub reject : Exchange → String → Outcome
reject e code = record {
  answer = local_error code;
  target = e.target;
  observation = e.observation;
  transport = release_if_candidate e.target (fuse_if_candidate e.target e.transport);
  sent = e.sent;
}

unfoldable pub is_candidate : RouteTarget → Bool
is_candidate RouteTarget.baseline = false
is_candidate RouteTarget.candidate = true

-- The permit of a forwarded response stays with its body.
unfoldable pub forward : Exchange → ℕ → Outcome
forward e status = record {
  answer = forwarded status;
  target = e.target;
  observation = e.observation;
  transport =
      (if is_candidate e.target && candidate_health_failure status
        then open_candidate_fuse e.transport
        else e.transport);
  sent = e.sent;
}

unfoldable pub respond_to : Exchange → Response → Outcome
respond_to e response =
    if is_redirection response.status
    then reject e "upstream_redirect_rejected"
    else if not (status_valid response.status)
    then reject e "invalid_upstream_response"
    else if not (response.headers_valid e.target)
    then reject e "invalid_upstream_response"
    else forward e response.status

unfoldable pub respond : Exchange → Reply → Outcome
respond e failed = reject e (unavailable e.target)
respond e (replied response) = respond_to e response

-- The return when the headers of the request cannot be forwarded: nothing was sent, and the permit that
-- may be held is released.
unfoldable pub reject_headers : Selection → Outcome
reject_headers selection = record {
  answer = local_error "invalid_request_headers";
  target = selection.target;
  observation = selection.observation;
  transport = release_if_candidate selection.target selection.transport;
  sent = [];
}

-- `request_headers_valid` says whether `upstream_request_headers` accepts the headers of the request for
-- a target; those for the candidate are made only if it is the target.
unfoldable pub proxy_decided :
    RouteDecision
    → Option CandidateTransport
    → (request_headers_valid : RouteTarget → Bool) → (baseline_reply candidate_reply : Reply)
    → Outcome
proxy_decided decision transport request_headers_valid baseline_reply candidate_reply =
    let selection = select_target decision transport in
    let exchange = send_to selection.target selection baseline_reply candidate_reply in
    if not (request_headers_valid RouteTarget.baseline)
    then reject_headers selection
    else if is_candidate selection.target && not (request_headers_valid RouteTarget.candidate)
    then reject_headers selection
    else respond exchange exchange.reply

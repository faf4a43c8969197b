-- ===== src/Route/Libs.antt =====
-- The third-party code that route.rs calls: the digests and signatures of ring and sha2, the parser
-- of the crate url, and serde_json on the types of route.rs. `parse_*` is `serde_json::from_slice`
-- with its error dropped, `*_json` is `serde_json::to_vec`.
use milk_carton.Base.{ℕ, ◌≡◌, Option, some, List, Bytes}
use milk_carton.Crypto.{Crypto}
use milk_carton.Route.Types.{
  OperatorRouteManifest, OperatorRouteCandidate, OperatorRouteProposal, RouteLivePointerWire,
  CandidateReasoningEffort, DateTime, Instant,
}
use milk_carton.Route.Url.{Url}

-- The fields of a request body that `decide` reads; a raw JSON value is its text.
pub record CandidateRequestMetadata : Type 0 where
  pub model : Bytes
  pub input : Option Bytes
  pub stream : Option Bytes
  pub reasoning_effort : Option CandidateReasoningEffort

pub record CandidateChat : Type 0 where
  pub model : Bytes
  pub messages : Bytes
  pub stream : Option Bytes
  pub reasoning_effort : Option CandidateReasoningEffort

pub record CandidateResponsesReasoning : Type 0 where
  pub effort : Option CandidateReasoningEffort

pub record CandidateResponses : Type 0 where
  pub model : Bytes
  pub input : Option Bytes
  pub stream : Option Bytes
  pub reasoning : Option CandidateResponsesReasoning

pub record Libs : Type 0 where
  pub crypto : Crypto
  pub open crypto use {sha256, hmac_sha256, verify_ed25519}
  pub parse_url : Bytes → Option Url
  pub parse_manifest_json : Bytes → Option OperatorRouteManifest
  pub manifest_json : OperatorRouteManifest → Bytes
  pub candidate_json : OperatorRouteCandidate → Bytes
  pub parse_proposal_json : Bytes → Option OperatorRouteProposal
  -- through `serde_json::to_value`, which sorts the keys
  pub proposal_json : OperatorRouteProposal → Bytes
  pub parse_pointer_json : Bytes → Option RouteLivePointerWire
  pub pointer_json : RouteLivePointerWire → Bytes
  pub parse_chat_json : Bytes → Option CandidateChat
  pub parse_responses_json : Bytes → Option CandidateResponses
  -- the number of items of a text that is a JSON array
  pub parse_array_json : List ℕ → Option ℕ
  -- the last moments that `DateTime<Utc>` and `Instant` can hold
  pub last_date_time : DateTime
  pub last_instant : Instant

-- What serde documents of derived implementations: reading back what was written gives the value.
pub record JsonRoundTrip (libs : Libs) : Type 0 where
  pub manifest :
      (value : OperatorRouteManifest)
      → libs.parse_manifest_json (libs.manifest_json value) ≡ some value
  pub pointer :
      (value : RouteLivePointerWire)
      → libs.parse_pointer_json (libs.pointer_json value) ≡ some value

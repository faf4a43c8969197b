-- ===== src/Route/Decide/Admits.antt =====
-- When `decide` selects the candidate.
use milk_carton.Base.{
  ℕ, ◌≤◌, ◌<◌, ◌≡◌, refl, Bool, true, false, ◌&&◌, ◌||◌, not, Option, none, some, Bytes, length,
  nat_eq, ltb, leb, ◌==◌, ==_iff, ℕ-Eq, List-Eq, Option-Eq, arith, not-false, or-false,
}
use milk_carton.Sampling.{sticky_sample, selected}
use milk_carton.Text.{is_json_content_type}
use milk_carton.Route.Types.{
  stream, responses, RuntimeRouteCandidate, Instant, CandidateReasoningEffort-Eq,
}
use milk_carton.Route.Libs.{Libs, CandidateRequestMetadata}
use milk_carton.Route.Policy.{BaselineReason, ActiveRoute}
use milk_carton.Route.Decide.{
  RouteRequest, CandidateRoute, candidate_route, Check, pass, blocked, ◌>>=◌, ◌>>◌, block_if,
  or_block, contains, is_responses, parse_candidate_request, candidate_input_items, check_input,
  stream_flag, check_request,
}

module _ {ℓ κ} {A : Type ℓ} {B : Type κ} where
  >>=-eq-pass :
      (m : Check A) (f : A → Check B) {b : B}
      → (m >>= f) ≡ pass b
      → (a : A) × (m ≡ pass a) × (f a ≡ pass b)
  >>=-eq-pass (pass a) f h = (a, refl, h)
  >>=-eq-pass (blocked r) f h = cc

module _ {ℓ} {A : Type ℓ} where
  block_if-eq-pass :
      (b : Bool) (r : BaselineReason) (k : Check A) {a : A}
      → (block_if b r >> k) ≡ pass a
      → (b ≡ false) × (k ≡ pass a)
  block_if-eq-pass true r k h = cc
  block_if-eq-pass false r k h = (refl, h)

  or_block-eq-pass :
      (o : Option A) (r : BaselineReason) {a : A} → or_block o r ≡ pass a → o ≡ some a
  or_block-eq-pass none r h = cc
  or_block-eq-pass (some x) r h = cc

-- The request's input is bounded by the candidate's limits, if there is one.
abbrev pub WithinInput : Libs → RuntimeRouteCandidate → Option Bytes → Type 0
WithinInput libs candidate none = Unit {0}
WithinInput libs candidate (some input) =
    (items : ℕ) × (candidate_input_items libs input ≡ some items)
    × (items ≤ candidate.max_input_messages)
    × (length input ≤ candidate.max_input_utf8_bytes)

module _ (libs : Libs) where
  -- All that a request must meet to go to the candidate of an active route.
  pub record Admits (route : ActiveRoute) (request : RouteRequest) (now : Instant) : Type 0 where
    pub before_expiry : now < route.expires_at
    pub candidate : RuntimeRouteCandidate
    pub has_candidate : route.manifest.candidate ≡ some candidate
    pub single_type : request.has_multiple_content_types ≡ false
    pub json_type : is_json_content_type request.content_type ≡ true
    pub no_encoding : request.has_content_encoding ≡ false
    pub no_beta : request.has_openai_beta ≡ false
    pub no_query : length request.query ≡ 0
    pub body_bounded : length request.body ≤ candidate.max_input_request_bytes
    pub endpoint_supported :
        is_responses request.endpoint && not (contains candidate.supported_capabilities responses)
        ≡ false
    pub metadata : CandidateRequestMetadata
    pub is_parsed : parse_candidate_request libs request.endpoint request.body ≡ some metadata
    pub same_model : metadata.model ≡ candidate.model
    pub same_effort : metadata.reasoning_effort ≡ candidate.reasoning_effort
    pub input_bounded : WithinInput libs candidate metadata.input
    pub streaming : Bool
    pub is_streaming : stream_flag metadata.stream ≡ pass streaming
    pub streaming_supported :
        streaming && not (contains candidate.supported_capabilities stream) ≡ false
    pub sampled :
        selected
          (sticky_sample libs.crypto route.hmac_key route.cohort_sha256 request.routing_cohort)
          route.manifest.candidate_basis_points
        ≡ true

  check_input-within :
      (candidate : RuntimeRouteCandidate) (input : Option Bytes)
      → check_input libs candidate input ≡ pass tt
      → WithinInput libs candidate input
  unfolding check_input
  check_input-within candidate none h = tt
  check_input-within candidate (some input) h =
      let (items, found, h) = >>=-eq-pass (or_block (candidate_input_items libs input) _) _ h in
      (
        items,
        or_block-eq-pass (candidate_input_items libs input) _ found,
        ground arith,
        ground arith,
      )

  within-check_input :
      (candidate : RuntimeRouteCandidate) (input : Option Bytes)
      → WithinInput libs candidate input
      → check_input libs candidate input ≡ pass tt
  unfolding check_input
  within-check_input candidate none h = refl
  within-check_input candidate (some input) (items, found, few, short) = rw found (ground arith)

  module _ (route : ActiveRoute) (request : RouteRequest) (now : Instant) where
    pub check_request-Admits :
        {chosen : CandidateRoute}
        → check_request libs route request now ≡ pass chosen
        → Admits route request now
    unfolding check_request
    check_request-Admits h =
        let (early, h) = block_if-eq-pass (leb route.expires_at now) _ _ h in
        let (candidate, found, h) = >>=-eq-pass (or_block route.manifest.candidate _) _ h in
        let (typed, h) = block_if-eq-pass (request.has_multiple_content_types || _) _ _ h in
        let (encoding, h) = block_if-eq-pass request.has_content_encoding _ _ h in
        let (beta, h) = block_if-eq-pass request.has_openai_beta _ _ h in
        let (query, h) = block_if-eq-pass (not (nat_eq (length request.query) 0)) _ _ h in
        let (body, h) = block_if-eq-pass (ltb candidate.max_input_request_bytes _) _ _ h in
        let (endpoint, h) = block_if-eq-pass (is_responses request.endpoint && _) _ _ h in
        let (metadata, parsed, h) =
          >>=-eq-pass (or_block (parse_candidate_request libs request.endpoint request.body) _) _
            h in
        let (model, h) = block_if-eq-pass (not (metadata.model == candidate.model)) _ _ h in
        let (effort, h) =
          block_if-eq-pass (not (metadata.reasoning_effort == candidate.reasoning_effort)) _ _ h in
        let (_, input, h) = >>=-eq-pass (check_input libs candidate metadata.input) _ h in
        let (streaming, is_streaming, h) = >>=-eq-pass (stream_flag metadata.stream) _ h in
        let (supported, h) = block_if-eq-pass (streaming && _) _ _ h in
        let (sampled, h) = block_if-eq-pass (not (selected _ _)) _ _ h in
        let (single, json) = or-false _ _ typed in
        record {
          before_expiry = ground arith;
          candidate = candidate;
          has_candidate = or_block-eq-pass route.manifest.candidate _ found;
          single_type = single;
          json_type = not-false _ json;
          no_encoding = encoding;
          no_beta = beta;
          no_query = ground (arith, query);
          body_bounded = ground (arith, body);
          endpoint_supported = endpoint;
          metadata = metadata;
          is_parsed =
              or_block-eq-pass (parse_candidate_request libs request.endpoint request.body) _
                parsed;
          same_model = (==_iff metadata.model candidate.model).0 (not-false _ model);
          same_effort =
              (==_iff metadata.reasoning_effort candidate.reasoning_effort).0 (not-false _ effort);
          input_bounded = check_input-within candidate metadata.input input;
          streaming = streaming;
          is_streaming = is_streaming;
          streaming_supported = supported;
          sampled = not-false _ sampled;
        }

    pub Admits-check_request :
        (admits : Admits route request now)
        → check_request libs route request now ≡ pass (candidate_route route admits.candidate)
    unfolding check_request
    Admits-check_request a =
        let early : leb route.expires_at now ≡ false = ground (arith, a.before_expiry) in
        let body : ltb a.candidate.max_input_request_bytes (length request.body) ≡ false =
          ground (arith, a.body_bounded) in
        rw early (
          rw a.has_candidate (
            rw a.single_type (
              rw a.json_type (
                rw a.no_encoding (
                  rw a.no_beta (
                    rw a.no_query (
                      rw body (
                        rw a.endpoint_supported (
                          rw a.is_parsed (
                            rw ((==_iff a.metadata.model a.candidate.model).1 a.same_model) (
                              rw
                                ((==_iff a.metadata.reasoning_effort a.candidate.reasoning_effort).1
                                  a.same_effort)
                                (rw
                                  (within-check_input a.candidate a.metadata.input a.input_bounded)
                                  (rw a.is_streaming
                                    (rw a.streaming_supported (rw a.sampled)))))))))))))))

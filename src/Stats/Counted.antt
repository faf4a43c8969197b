-- ===== src/Stats/Counted.antt =====
-- `observe` counts the request once, in `observed`.
use milk_carton.Base.{
  ◌≡◌, refl, ◌∙◌, ℕ, Bool, true, false, ◌&&◌, Option, none, some, List, codes, leb, if-either, ◌==◌,
  ℕ-Eq, List-Eq,
}
use milk_carton.Stats.Counts.{sat_add}
use milk_carton.Stats.Values.{TraceCatalog, CaptureState, StatsValues, RouteObservation}
use milk_carton.Stats.{
  observe, observe_request, observe_endpoint, observe_parse, observe_capture, observe_route,
  observe_status, observe_sizes, observe_error, observe_latencies,
}

observe_endpoint_observed :
    (e : List ℕ) (v : StatsValues) → (observe_endpoint e v).observed ≡ v.observed
unfolding observe_endpoint
observe_endpoint_observed e v =
    if-either (λ (w : StatsValues). w.observed ≡ v.observed) (e == codes "chat_completions") _ _
      (λ h. refl)
      (λ h.
        if-either (λ (w : StatsValues). w.observed ≡ v.observed) (e == codes "responses") _ _
          (λ h. refl) (λ h. refl))

observe_status_observed :
    (s : Option ℕ) (v : StatsValues) → (observe_status s v).observed ≡ v.observed
unfolding observe_status
observe_status_observed none v = refl
observe_status_observed (some s) v =
    if-either (λ (w : StatsValues). w.observed ≡ v.observed) (leb 200 s && leb s 299) _ _
      (λ h. refl)
      (λ h.
        if-either (λ (w : StatsValues). w.observed ≡ v.observed) (leb 400 s && leb s 499) _ _
          (λ h. refl)
          (λ h.
            if-either (λ (w : StatsValues). w.observed ≡ v.observed) (leb 500 s && leb s 599) _ _
              (λ h. refl) (λ h. refl)))

observe_parse_observed : (b : Bool) (v : StatsValues) → (observe_parse b v).observed ≡ v.observed
unfolding observe_parse
observe_parse_observed true v = refl
observe_parse_observed false v = refl

observe_capture_observed :
    (s : CaptureState) (b : Bool) (v : StatsValues) → (observe_capture s b v).observed ≡ v.observed
unfolding observe_capture
observe_capture_observed s true v = refl
observe_capture_observed CaptureState.not_selected false v = refl
observe_capture_observed CaptureState.oversized false v = refl
observe_capture_observed CaptureState.interrupted false v = refl
observe_capture_observed CaptureState.persist_failed false v = refl

observe_route_observed :
    (r : RouteObservation) (v : StatsValues) → (observe_route r v).observed ≡ v.observed
unfolding observe_route
observe_route_observed (RouteObservation.ineligible reason) v = refl
observe_route_observed RouteObservation.not_selected v = refl
observe_route_observed RouteObservation.candidate v = refl
observe_route_observed (RouteObservation.fallback reason) v = refl

observe_error_observed :
    (e : Option (List ℕ)) (v : StatsValues) → (observe_error e v).observed ≡ v.observed
unfolding observe_error
observe_error_observed none v = refl
observe_error_observed (some e) v = refl

-- One more, unless the counter is at its end.
pub observe_observed :
    (c : TraceCatalog) (s : CaptureState) (b : Bool) (v : StatsValues)
    → (observe c s b v).observed ≡ sat_add v.observed 1
unfolding observe observe_request observe_sizes observe_latencies
observe_observed c s b v =
    let v1 = observe_request c v in
    let v2 = observe_endpoint c.endpoint v1 in
    let v3 = observe_parse c.request_parse_success v2 in
    let v4 = observe_capture s b v3 in
    let v5 = observe_route c.route v4 in
    let v6 = observe_status c.provider_status v5 in
    observe_error_observed c.error_class (observe_sizes c.request_bytes c.response_bytes v6)
    ∙ observe_status_observed c.provider_status v5
    ∙ observe_route_observed c.route v4
    ∙ observe_capture_observed s b v3
    ∙ observe_parse_observed c.request_parse_success v2
    ∙ observe_endpoint_observed c.endpoint v1

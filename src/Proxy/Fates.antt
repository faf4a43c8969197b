-- ===== src/Proxy/Fates.antt =====
-- A decided request whose headers can be forwarded ends in one of three ways.
use milk_carton.Base.{
  ◌-◌, ◌+◌, ◌≡◌, ◌⊎◌, inl, inr, refl, sym, ap, ◌∙◌, not, Option, none, some, [], ◌∷◌, nat_eq,
  if-true, if-false, Bool-cases, arith, subst,
}
use milk_carton.Route.Types.{RouteTarget}
use milk_carton.Route.Decide.{RouteDecision}
use milk_carton.Stats.Values.{
  RouteObservation, fallback, candidate_capacity, candidate_failure, candidate_unhealthy,
}
use milk_carton.Proxy.{
  CandidateTransport, Reply, failed, replied, from_baseline_reason, Selection, select_candidate,
  select_for, select_target, candidate_response_requires_fallback, should_fallback,
  open_candidate_fuse, release, Exchange, send_candidate, send_to, Outcome, respond,
}
use milk_carton.Proxy.Exchanged.{
  IsReady, IsObserved, permits, is_healthy, baseline_answer, AtCandidate, FellBack, AtBaseline,
  respond-baseline, respond-candidate,
}

module _ (decision : RouteDecision) (baseline_reply candidate_reply : Reply) where
  abbrev pub Fate : Option CandidateTransport → Outcome → Type 0
  Fate transport outcome =
      (AtCandidate decision transport candidate_reply outcome)
      ⊎ (FellBack decision transport baseline_reply candidate_reply outcome)
      ⊎ (AtBaseline decision transport baseline_reply outcome)

  abbrev observed : RouteObservation
  observed = from_baseline_reason decision.baseline_reason

  -- Only the baseline is asked.
  baseline-Fate :
      (transport : Option CandidateTransport) (observation : RouteObservation)
      → ((decision.target ≡ RouteTarget.candidate) × (IsReady transport) → ⊥)
      → IsObserved decision observation
      → (e : Exchange)
      → e ≡ record {
        target = RouteTarget.baseline;
        observation = observation;
        transport = transport;
        sent = RouteTarget.baseline ∷ [];
        reply = baseline_reply;
      }
      → Fate transport (respond e e.reply)
  baseline-Fate transport observation reason is_observed e h =
      let facts = respond-baseline e e.reply (ap (λ (e : Exchange). e.target) h) in
      inr (
        inr (record {
          target = facts.1;
          reason = reason;
          answer = facts.0 ∙ ap (λ (e : Exchange). baseline_answer e.reply) h;
          sent = facts.2 ∙ ap (λ (e : Exchange). e.sent) h;
          observation =
              subst (IsObserved decision) (sym (facts.4 ∙ ap (λ (e : Exchange). e.observation) h))
                is_observed;
          unchanged = facts.3 ∙ ap (λ (e : Exchange). e.transport) h;
        }))

  -- The candidate is asked.
  asked-Fate :
      (c : CandidateTransport)
      → decision.target ≡ RouteTarget.candidate
      → IsReady (some c)
      → (reply : Reply) → candidate_reply ≡ reply
      → (selection : Selection) → selection.observation ≡ observed
      → selection.transport ≡ some (record c { permits = c.permits - 1 })
      → Fate (some c) (
          respond
            (send_candidate selection baseline_reply reply)
            (send_candidate selection baseline_reply reply).reply)
  unfolding send_candidate should_fallback release open_candidate_fuse
  asked-Fate c decided ready failed same selection obs trans =
      let e : Exchange = record {
        target = RouteTarget.baseline;
        observation = fallback candidate_failure;
        transport = release (open_candidate_fuse selection.transport);
        sent = RouteTarget.candidate ∷ RouteTarget.baseline ∷ [];
        reply = baseline_reply;
      } in
      let facts = respond-baseline e baseline_reply refl in
      inr (
        inl (record {
          target = facts.1;
          decided = decided;
          ready = ready;
          refused = rw same refl;
          answer = facts.0;
          observation = facts.4;
          sent = facts.2;
          permit = ap permits facts.3 ∙ (rw trans (omega (arith, ready.1)));
          healthy = ap is_healthy facts.3 ∙ (rw trans refl);
        }))
  asked-Fate c decided ready (replied r) same selection obs trans =
      elim (Bool-cases (candidate_response_requires_fallback r)) [
        | inl refused ↦
            let e : Exchange = record {
              target = RouteTarget.baseline;
              observation = fallback candidate_failure;
              transport = release (open_candidate_fuse selection.transport);
              sent = RouteTarget.candidate ∷ RouteTarget.baseline ∷ [];
              reply = baseline_reply;
            } in
            let facts = respond-baseline e baseline_reply refl in
            rw refused (
              inr (
                inl (record {
                  target = facts.1;
                  decided = decided;
                  ready = ready;
                  refused = rw same refused;
                  answer = facts.0;
                  observation = facts.4;
                  sent = facts.2;
                  permit = ap permits facts.3 ∙ (rw trans (omega (arith, ready.1)));
                  healthy = ap is_healthy facts.3 ∙ (rw trans refl);
                })))
        | inr accepted ↦
            let e : Exchange = record {
              target = RouteTarget.candidate;
              observation = selection.observation;
              transport = selection.transport;
              sent = RouteTarget.candidate ∷ [];
              reply = replied r;
            } in
            let whole = respond-candidate e r refl accepted in
            rw accepted (
              inl (record {
                target = ap (λ (o : Outcome). o.target) whole;
                decided = decided;
                ready = ready;
                response = r;
                is_response = same;
                accepted = accepted;
                answer = ap (λ (o : Outcome). o.answer) whole;
                observation = ap (λ (o : Outcome). o.observation) whole ∙ obs;
                sent = ap (λ (o : Outcome). o.sent) whole;
                permit = sym (
                    ap (λ (o : Outcome). permits o.transport + 1) whole
                    ∙ (rw trans (omega (arith, ready.1))));
                healthy = ap (λ (o : Outcome). is_healthy o.transport) whole ∙ (rw trans ready.0);
              }))
      ]

  abbrev Ends : Option CandidateTransport → Selection → Type 0
  Ends transport selection = Fate transport (
      respond (send_to selection.target selection baseline_reply candidate_reply)
        (send_to selection.target selection baseline_reply candidate_reply).reply)

  unready-Fate :
      (c : CandidateTransport) (observation : RouteObservation)
      → (IsReady (some c) → ⊥)
      → IsObserved decision observation
      → Ends
          (some c)
          (record { target = RouteTarget.baseline; observation = observation; transport = some c })
  unfolding send_to
  unready-Fate c observation unready is_observed =
      baseline-Fate (some c) observation (λ both. unready both.1) is_observed _ refl

  ready-Fate :
      (c : CandidateTransport)
      → decision.target ≡ RouteTarget.candidate
      → IsReady (some c)
      → Ends (some c) (record {
        target = RouteTarget.candidate;
        observation = observed;
        transport = some (record c { permits = c.permits - 1 });
      })
  unfolding send_to
  ready-Fate c decided ready = asked-Fate c decided ready candidate_reply refl _ refl refl

  candidate-Fate :
      (transport : Option CandidateTransport)
      → decision.target ≡ RouteTarget.candidate
      → Ends transport (select_candidate transport observed)
  unfolding select_candidate send_to
  candidate-Fate none decided =
      baseline-Fate none (fallback candidate_unhealthy) (λ ready. ready.1)
        (inr (candidate_unhealthy, refl)) _ refl
  candidate-Fate (some c) decided = elim (Bool-cases c.healthy) [
    | inr ill ↦ subst (Ends (some c)) (sym (if-true (not c.healthy) _ _ (ground (arith, ill)))) (
        unready-Fate c (fallback candidate_unhealthy)
          (λ ready. absurd (ground (arith, ill, ready.0))) (inr (candidate_unhealthy, refl)))
    | inl healthy ↦
        subst (Ends (some c)) (sym (if-false (not c.healthy) _ _ (ground (arith, healthy))))
          (elim (Bool-cases (nat_eq c.permits 0)) [
            | inl full ↦ subst (Ends (some c)) (sym (if-true (nat_eq c.permits 0) _ _ full)) (
                unready-Fate c (fallback candidate_capacity)
                  (λ ready. absurd (ground (arith, full, ready.1)))
                  (inr (candidate_capacity, refl)))
            | inr free ↦
                subst (Ends (some c)) (sym (if-false (nat_eq c.permits 0) _ _ free))
                  (ready-Fate c decided (healthy, ground (arith, free)))
          ])
  ]

  select-Fate :
      (transport : Option CandidateTransport) (target : RouteTarget)
      → decision.target ≡ target
      → Ends transport (select_for target observed transport)
  unfolding select_for send_to
  select-Fate transport RouteTarget.baseline same =
      baseline-Fate transport observed (λ ready. absurd (cc)) (inl (same, refl)) _ refl
  select-Fate transport RouteTarget.candidate same = candidate-Fate transport same

  pub selected-Fate :
      (transport : Option CandidateTransport) → Ends transport (select_target decision transport)
  unfolding select_target
  selected-Fate transport = select-Fate transport decision.target refl

-- ===== src/Proxy/Cases.antt =====
-- Every decided request ends in one of four ways.
use milk_carton.Base.{
  ◌≡◌, ◌⊎◌, inl, inr, refl, sym, not, Option, Bool, true, false, ◌&&◌, if-true, if-false,
  Bool-cases, arith, subst,
}
use milk_carton.Route.Types.{RouteTarget}
use milk_carton.Route.Decide.{RouteDecision}
use milk_carton.Proxy.{
  CandidateTransport, Reply, select_target, Outcome, is_candidate, reject_headers, proxy_decided,
}
use milk_carton.Proxy.Chosen.{select_target-IsChosen}
use milk_carton.Proxy.Exchanged.{IsSendable, Unsent, AtCandidate, FellBack, AtBaseline}
use milk_carton.Proxy.Fates.{Fate, selected-Fate}

and-true : (a b : Bool) → (a && b) ≡ true → (a ≡ true) × (b ≡ true)
and-true a b h = ground arith

not-true : (b : Bool) → not b ≡ true → b ≡ false
not-true b h = ground arith

module _ (decision : RouteDecision) (baseline_reply candidate_reply : Reply) where
  abbrev Sorted : Option CandidateTransport → (RouteTarget → Bool) → Outcome → Type 0
  Sorted transport valid outcome =
      Unsent decision transport valid outcome
      ⊎ (IsSendable decision transport valid
          × Fate decision baseline_reply candidate_reply transport outcome)

  -- What the return before the sending leaves.
  reject_headers-Unsent :
      (transport : Option CandidateTransport) (valid : RouteTarget → Bool)
      → (valid RouteTarget.baseline ≡ false)
        ⊎ (((select_target decision transport).target ≡ RouteTarget.candidate)
            × (valid RouteTarget.candidate ≡ false))
      → Unsent decision transport valid (reject_headers (select_target decision transport))
  unfolding reject_headers
  reject_headers-Unsent transport valid invalid =
      let chosen = select_target-IsChosen decision transport in
      record {
        answer = refl;
        sent = refl;
        unchanged = chosen.restored;
        invalid = invalid;
        chosen = chosen.chosen;
      }

  sendable :
      (transport : Option CandidateTransport) (valid : RouteTarget → Bool)
      → valid RouteTarget.baseline ≡ true
      → (is_candidate (select_target decision transport).target
          && not (valid RouteTarget.candidate))
        ≡ false
      → IsSendable decision transport valid
  unfolding is_candidate
  sendable transport valid to_baseline passed = record {
    to_baseline = to_baseline;
    to_candidate = λ decided ready. elim (select_target-IsChosen decision transport).chosen [
      | inl (is_target, decided_too, ready_too, observation) ↦
          passes (select_target decision transport).target is_target passed
      | inr (is_base, neither, observation) ↦ absurd (neither (decided, ready))
    ];
  }
    where
      passes :
          (target : RouteTarget)
          → target ≡ RouteTarget.candidate
          → (is_candidate target && not (valid RouteTarget.candidate)) ≡ false
          → valid RouteTarget.candidate ≡ true
      passes RouteTarget.candidate e h = ground (arith, h)
      passes RouteTarget.baseline e h = absurd cc

  is_candidate-candidate :
      (target : RouteTarget) → is_candidate target ≡ true → target ≡ RouteTarget.candidate
  unfolding is_candidate
  is_candidate-candidate RouteTarget.candidate h = refl
  is_candidate-candidate RouteTarget.baseline h = cc

  -- A decided request ends in one of four ways. The first: its headers cannot be forwarded to the
  -- baseline, or to the candidate that was chosen; then nobody is asked, the client gets
  -- `invalid_request_headers` for the chosen target, and the candidate is as it was. Otherwise the
  -- headers can be forwarded. Then the response is the candidate's, if the decision is for the
  -- candidate, the candidate is healthy and has a permit left, and its response needs no fallback; one
  -- permit is held. Or the candidate was asked and failed: its fuse is open, its permit is back, the
  -- baseline was asked next, and answers. Or only the baseline was asked, the candidate is as it was,
  -- and not both decided and ready.
  pub proxy_decided-cases :
      (transport : Option CandidateTransport) (valid : RouteTarget → Bool)
      → (let outcome = proxy_decided decision transport valid baseline_reply candidate_reply in
          Unsent decision transport valid outcome
          ⊎ (IsSendable decision transport valid
              × ((AtCandidate decision transport candidate_reply outcome)
                  ⊎ (FellBack decision transport baseline_reply candidate_reply outcome)
                  ⊎ (AtBaseline decision transport baseline_reply outcome))))
  unfolding proxy_decided
  proxy_decided-cases transport valid =
      let selection = select_target decision transport in
      elim (Bool-cases (valid RouteTarget.baseline)) [
        | inr bad ↦ inl (
            subst (Unsent decision transport valid)
              (sym (if-true (not (valid RouteTarget.baseline)) _ _ (ground (arith, bad))))
              (reject_headers-Unsent transport valid (inl bad)))
        | inl good ↦
            subst (Sorted transport valid)
              (sym (if-false (not (valid RouteTarget.baseline)) _ _ (ground (arith, good))))
              (elim (Bool-cases
                (is_candidate selection.target && not (valid RouteTarget.candidate))) [
                  | inl refused ↦
                      let (is_target, bad) =
                        and-true (is_candidate selection.target) (not (valid RouteTarget.candidate))
                          refused in
                      inl (
                        subst (Unsent decision transport valid) (sym (if-true _ _ _ refused)) (
                          reject_headers-Unsent transport valid (
                            inr (
                              is_candidate-candidate selection.target is_target,
                              not-true (valid RouteTarget.candidate) bad,
                            ))))
                  | inr passed ↦ inr (
                    sendable transport valid good passed,
                    subst (Fate decision baseline_reply candidate_reply transport)
                        (sym (if-false _ _ _ passed))
                        (selected-Fate decision baseline_reply candidate_reply transport),
                  )
                ])
      ]

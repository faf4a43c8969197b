-- ===== src/Proxy/Chosen.antt =====
-- The choice of the target in `proxy_openai` of main.rs: who is chosen, and what the permit is.
use milk_carton.Base.{
  ◌-◌, ◌≡◌, ◌⊎◌, inl, inr, refl, sym, ap, subst, suc, ℕ, not, Option, none, some, nat_eq, if-true,
  if-false, Bool-cases, arith,
}
use milk_carton.Route.Types.{RouteTarget}
use milk_carton.Route.Decide.{RouteDecision}
use milk_carton.Stats.Values.{candidate_capacity, candidate_unhealthy}
use milk_carton.Proxy.{
  CandidateTransport, from_baseline_reason, Selection, select_candidate, select_for, select_target,
  release, release_if_candidate,
}
use milk_carton.Proxy.Exchanged.{IsReady, IsObserved}

module _ (decision : RouteDecision) where
  -- The candidate is chosen if the decision is for it and it is ready; else the baseline is. A permit
  -- that was taken can be given back.
  pub record IsChosen (transport : Option CandidateTransport) (selection : Selection) : Type 0 where
    pub restored : release_if_candidate selection.target selection.transport ≡ transport
    pub chosen :
        ((selection.target ≡ RouteTarget.candidate)
          × (decision.target ≡ RouteTarget.candidate)
          × IsReady transport
          × (selection.observation ≡ from_baseline_reason decision.baseline_reason))
        ⊎ ((selection.target ≡ RouteTarget.baseline)
            × ((decision.target ≡ RouteTarget.candidate) × (IsReady transport) → ⊥)
            × IsObserved decision selection.observation)

  candidate-IsChosen :
      (transport : Option CandidateTransport)
      → decision.target ≡ RouteTarget.candidate
      → IsChosen transport
          (select_candidate transport (from_baseline_reason decision.baseline_reason))
  unfolding select_candidate release_if_candidate release
  candidate-IsChosen none decided = record {
    restored = refl;
    chosen = inr (refl, λ both. both.1, inr (candidate_unhealthy, refl));
  }
  candidate-IsChosen (some c) decided = elim (Bool-cases c.healthy) [
    | inr ill ↦
        subst (IsChosen (some c)) (sym (if-true (not c.healthy) _ _ (ground (arith, ill))))
          (record {
            restored = refl;
            chosen = inr (
              refl,
              λ both. absurd (ground (arith, ill, both.1.0)),
              inr (candidate_unhealthy, refl),
            );
          })
    | inl healthy ↦
        subst (IsChosen (some c)) (sym (if-false (not c.healthy) _ _ (ground (arith, healthy))))
          (elim (Bool-cases (nat_eq c.permits 0)) [
            | inl full ↦
                subst (IsChosen (some c)) (sym (if-true (nat_eq c.permits 0) _ _ full)) (record {
                  restored = refl;
                  chosen = inr (
                    refl,
                    λ both. absurd (ground (arith, full, both.1.1)),
                    inr (candidate_capacity, refl),
                  );
                })
            | inr free ↦ subst (IsChosen (some c)) (sym (if-false (nat_eq c.permits 0) _ _ free)) (
                let one_back : suc (c.permits - 1) ≡ c.permits = ground (arith, free) in
                record {
                  restored = ap (λ (n : ℕ). some (record c { permits = n })) one_back;
                  chosen = inl (refl, decided, (healthy, ground (arith, free)), refl);
                })
          ])
  ]

  select_for-IsChosen :
      (transport : Option CandidateTransport) (target : RouteTarget)
      → decision.target ≡ target
      → IsChosen transport
          (select_for target (from_baseline_reason decision.baseline_reason) transport)
  unfolding select_for release_if_candidate
  select_for-IsChosen transport RouteTarget.baseline same = record {
    restored = refl;
    chosen = inr (refl, λ both. absurd cc, inl (same, refl));
  }
  select_for-IsChosen transport RouteTarget.candidate same = candidate-IsChosen transport same

  pub select_target-IsChosen :
      (transport : Option CandidateTransport)
      → IsChosen transport (select_target decision transport)
  unfolding select_target
  select_target-IsChosen transport = select_for-IsChosen transport decision.target refl

-- ===== src/Writer/Counted.antt =====
-- What one result of a batch adds to the counters and the statistics of the writer.
use milk_carton.Base.{
  ◌≡◌, refl, ◌∙◌, ℕ, suc, ◌+◌, ◌-◌, ◌≤◌, ◌<◌, Bool, true, false, ◌&&◌, Option, none, some, List, [],
  ◌∷◌, ltb, nat_eq, if◌then◌else◌, if-either, if-false, Bool-cases, inl, inr, ◌⊎◌, Result, ok, err,
  arith,
}
use milk_carton.Route.Types.{Uuid, DateTime}
use milk_carton.Stats.Counts.{u64_max, sat_add}
use milk_carton.Stats.Values.{TraceCatalog, CaptureState, persist_failed, StatsValues}
use milk_carton.Stats.{observe}
use milk_carton.Stats.Counted.{observe_observed}
use milk_carton.Stats.Observed.{default_values}
use milk_carton.Queue.{StatsCounters, persistence_failure_recovery_seconds}
use milk_carton.Writer.{
  health, count_failure, count_success, hour_start, StatsMap, change_entry, Tally, observe_result,
  settle_result,
}

-- The result of the persistence of an item; `none` when the catalog is not the writer's.
abbrev pub ItemResult : Type 0
ItemResult = Option (Result (CaptureState × Bool))

-- The trace could not be stored.
abbrev pub failed : ItemResult → ℕ
failed none = 1
failed (some (err error)) = 1
failed (some (ok done)) = 0

-- The trace has been stored.
abbrev pub stored : ItemResult → ℕ
stored none = 0
stored (some (err error)) = 0
stored (some (ok (state, true))) = 1
stored (some (ok (state, false))) = 0

-- The request is told of in the statistics.
abbrev pub counted : ItemResult → ℕ
counted none = 0
counted (some result) = 1

abbrev pub sum_of : (ItemResult → ℕ) → List ItemResult → ℕ
sum_of count [] = 0
sum_of count (result ∷ results) = count result + sum_of count results

abbrev pub observed_in : StatsMap → ℕ
observed_in [] = 0
observed_in ((scope, hour, values) ∷ rest) = values.observed + observed_in rest

change_entry_observed :
    (scope : Uuid) (hour : DateTime) (change : StatsValues → StatsValues) (stats : StatsMap)
    → ((v : StatsValues) → (change v).observed ≡ sat_add v.observed 1)
    → observed_in stats < u64_max
    → observed_in (change_entry scope hour change stats) ≡ suc (observed_in stats)
unfolding change_entry
change_entry_observed scope hour change [] h small = let e = h default_values in omega (arith, e)
change_entry_observed scope hour change ((s, k, values) ∷ rest) h small =
    if-either (λ (m : StatsMap). observed_in m ≡ suc (values.observed + observed_in rest))
      (nat_eq s scope && nat_eq k hour) _ _ (λ same. let e = h values in omega (arith, e, small))
      (λ other.
        let e = change_entry_observed scope hour change rest h (omega (arith, small)) in
        omega (arith, e))

-- What one result adds to the tally, while no counter is at its end.
pub record IsCounted (result : ItemResult) (t u : Tally) : Type 0 where
  pub persisted : u.counters.traces_persisted ≡ t.counters.traces_persisted + stored result
  pub failures :
      u.counters.trace_persist_failures ≡ t.counters.trace_persist_failures + failed result
  pub observed : observed_in u.stats ≡ observed_in t.stats + counted result

counts :
    (catalog : TraceCatalog) (state : CaptureState) (captured : Bool) (t : Tally)
    → observed_in t.stats < u64_max
    → observed_in (
        change_entry catalog.scope
          (hour_start catalog.occurred_at)
          (observe catalog state captured)
          t.stats)
      ≡ observed_in t.stats + 1
counts catalog state captured t o =
    let e =
      change_entry_observed catalog.scope (hour_start catalog.occurred_at)
        (observe catalog state captured) t.stats (observe_observed catalog state captured) o in
    omega (arith, e)

pub settle_result-IsCounted :
    (now : ℕ) (catalog : TraceCatalog) (result : ItemResult) (t : Tally)
    → t.counters.traces_persisted < u64_max
    → t.counters.trace_persist_failures < u64_max
    → observed_in t.stats < u64_max
    → IsCounted result t (settle_result now catalog result t)
unfolding settle_result observe_result count_failure count_success
settle_result-IsCounted now catalog none t p f o = record {
  persisted = omega arith;
  failures = omega (arith, f);
  observed = omega arith;
}
settle_result-IsCounted now catalog (some (err error)) t p f o = record {
  persisted = omega arith;
  failures = omega (arith, f);
  observed = counts catalog persist_failed false t o;
}
settle_result-IsCounted now catalog (some (ok (state, true))) t p f o = record {
  persisted = omega (arith, p);
  failures = omega arith;
  observed = counts catalog state true t o;
}
settle_result-IsCounted now catalog (some (ok (state, false))) t p f o = record {
  persisted = omega arith;
  failures = omega arith;
  observed = counts catalog state false t o;
}

pub at_most_one :
    (result : ItemResult) → (stored result ≤ 1) × (failed result ≤ 1) × (counted result ≤ 1)
at_most_one none = (omega arith, omega arith, omega arith)
at_most_one (some (err error)) = (omega arith, omega arith, omega arith)
at_most_one (some (ok (state, true))) = (omega arith, omega arith, omega arith)
at_most_one (some (ok (state, false))) = (omega arith, omega arith, omega arith)

abbrev pub last_failure : Tally → ℕ
last_failure t = t.counters.last_persist_failure_unix_seconds

-- What `count_failure` writes is kept until the batch ends.
settle_result_last :
    (now : ℕ) (catalog : TraceCatalog) (result : ItemResult) (t : Tally)
    → (settle_result now catalog result t).counters.last_persist_failure_unix_seconds
      ≡ (if nat_eq (failed result) 0 then t.counters.last_persist_failure_unix_seconds else now)
unfolding settle_result observe_result count_failure count_success
settle_result_last now catalog none t = refl
settle_result_last now catalog (some (err error)) t = refl
settle_result_last now catalog (some (ok (state, true))) t = refl
settle_result_last now catalog (some (ok (state, false))) t = refl

pub settle_result-last_failure :
    (now : ℕ) (catalog : TraceCatalog) (result : ItemResult) (t : Tally) (later : ℕ)
    → (last_failure t ≡ now) ⊎ (0 < failed result + later)
    → (last_failure (settle_result now catalog result t) ≡ now) ⊎ (0 < later)
settle_result-last_failure now catalog result t later (inl e) = inl (
    settle_result_last now catalog result t
    ∙ if-either (λ n. n ≡ now) (nat_eq (failed result) 0) _ _ (λ h. e) (λ h. refl))
settle_result-last_failure now catalog result t later (inr h) =
    elim (Bool-cases (nat_eq (failed result) 0)) [
      | inl fine ↦ inr (ground (arith, fine, h))
      | inr bad ↦ inl (settle_result_last now catalog result t ∙ if-false _ _ _ bad)
    ]

pub health_ready :
    (later : ℕ) (c : StatsCounters)
    → 0 < c.last_persist_failure_unix_seconds
    → later < c.last_persist_failure_unix_seconds + persistence_failure_recovery_seconds
    → (health later c).ready ≡ false
unfolding health
health_ready later c past soon =
    let known : ltb 0 c.last_persist_failure_unix_seconds ≡ true = ground (arith, past) in
    let recent : ltb (later - c.last_persist_failure_unix_seconds)
          persistence_failure_recovery_seconds
        ≡ true =
      ground (arith, past, soon) in
    rw known (rw recent (ground arith))

-- ===== src/Writer/Batch.antt =====
-- What `process_batch` of records.rs does with a batch, whose items are persisted at the same time: every
-- item is counted once, whatever became of it, and a failure is seen by `health`.
use mathlib.Core.List.{Permᴰ}
use milk_carton.Base.{
  ◌≡◌, refl, ◌∙◌, ap, ℕ, suc, ◌+◌, ◌≤◌, ◌<◌, Bool, true, false, some, none, if◌then◌else◌, Result,
  subst, sym, List, [], ◌∷◌, length, inl, inr, ◌⊎◌, arith,
}
use milk_carton.Stats.Counts.{u64_max, from_bool}
use milk_carton.Trace.{Allocator, event_catalog}
use milk_carton.Queue.{QueuedTrace, persistence_failure_recovery_seconds}
use milk_carton.Store.{ObjectStore}
use milk_carton.Persist.Keys.{RecordLibs}
use milk_carton.Persist.Event.{persist_event}
use milk_carton.Stats.Values.{CaptureState}
use milk_carton.Writer.{
  StatsRuntime, accepts, health, Tally, settle_result, Run, persist_accepted, process_batch,
}
use milk_carton.Writer.Counted.{
  ItemResult, failed, stored, counted, sum_of, observed_in, settle_result-IsCounted, at_most_one,
  last_failure, settle_result-last_failure, health_ready,
}

-- 1 for an item that is the writer's.
abbrev pub accepted : StatsRuntime → QueuedTrace → ℕ
accepted runtime queued = from_bool (accepts runtime (event_catalog queued.event))

-- The items that are the writer's.
abbrev pub accepted_in : StatsRuntime → List QueuedTrace → ℕ
accepted_in runtime [] = 0
accepted_in runtime (queued ∷ rest) = accepted runtime queued + accepted_in runtime rest

accepted_in-Permᴰ :
    (runtime : StatsRuntime) {first second : List QueuedTrace}
    → Permᴰ first second
    → accepted_in runtime first ≡ accepted_in runtime second
accepted_in-Permᴰ runtime Permᴰ.nil = refl
accepted_in-Permᴰ runtime (Permᴰ.cons e p) =
    let same = ap (accepted runtime) e in
    let rest = accepted_in-Permᴰ runtime p in omega (arith, same, rest)
accepted_in-Permᴰ runtime (Permᴰ.swap e f) =
    let one = ap (accepted runtime) e in
    let other = ap (accepted runtime) f in omega (arith, one, other)
accepted_in-Permᴰ runtime (Permᴰ.trans p q) =
    accepted_in-Permᴰ runtime p ∙ accepted_in-Permᴰ runtime q

length-Permᴰ : {first second : List QueuedTrace} → Permᴰ first second → length first ≡ length second
length-Permᴰ Permᴰ.nil = refl
length-Permᴰ (Permᴰ.cons e p) = ap suc (length-Permᴰ p)
length-Permᴰ (Permᴰ.swap e f) = refl
length-Permᴰ (Permᴰ.trans p q) = length-Permᴰ p ∙ length-Permᴰ q

module _ {S : Type 0} (heap : Allocator) (libs : RecordLibs) (store : ObjectStore S)
    (max_trace_bytes : ℕ) where
  abbrev pub items : List (Run S) → List QueuedTrace
  items [] = []
  items (run ∷ rest) = run.queued ∷ items rest

  -- What became of an item: its persistence, if it is the writer's.
  abbrev pub result : StatsRuntime → Run S → ItemResult
  result runtime run =
      if accepts runtime (event_catalog run.queued.event)
      then some (persist_event heap libs store run.others max_trace_bytes run.queued run.start).0
      else none

  -- What became of the items, in the order in which they ended.
  abbrev pub results : StatsRuntime → List (Run S) → List ItemResult
  results runtime [] = []
  results runtime (run ∷ rest) = result runtime run ∷ results runtime rest

  accepted_result :
      (b : Bool) (run : Run S)
      → persist_accepted heap libs store max_trace_bytes b run ≡ (
          if b
          then some
              (persist_event heap libs store run.others max_trace_bytes run.queued run.start).0
          else none)
  unfolding persist_accepted
  accepted_result true run = refl
  accepted_result false run = refl

  abbrev processed : ℕ → StatsRuntime → List (Run S) → Tally → Tally
  processed = process_batch heap libs store max_trace_bytes

  pub record IsTallied (runtime : StatsRuntime) (batch : List QueuedTrace) (runs : List (Run S))
      (t u : Tally) : Type 0 where
    pub persisted :
        u.counters.traces_persisted
        ≡ t.counters.traces_persisted + sum_of stored (results runtime runs)
    pub failures :
        u.counters.trace_persist_failures
        ≡ t.counters.trace_persist_failures + sum_of failed (results runtime runs)
    pub observed : observed_in u.stats ≡ observed_in t.stats + accepted_in runtime batch

  result_counted :
      (b : Bool) (r : Result (CaptureState × Bool))
      → counted (if b then some r else none) ≡ from_bool b
  result_counted true r = refl
  result_counted false r = refl

  -- A step of the loop, by what became of the item.
  processed_step :
      (now : ℕ) (runtime : StatsRuntime) (run : Run S) (rest : List (Run S)) (t : Tally)
      → processed now runtime (run ∷ rest) t
        ≡ processed now runtime rest
            (settle_result now (event_catalog run.queued.event) (result runtime run) t)
  unfolding process_batch
  processed_step now runtime run rest t =
      ap (λ r. processed now runtime rest (settle_result now (event_catalog run.queued.event) r t))
        (accepted_result (accepts runtime (event_catalog run.queued.event)) run)

  items-IsTallied :
      (now : ℕ) (runtime : StatsRuntime) (runs : List (Run S)) (t : Tally)
      → t.counters.traces_persisted + length (items runs) ≤ u64_max
      → t.counters.trace_persist_failures + length (items runs) ≤ u64_max
      → observed_in t.stats + length (items runs) ≤ u64_max
      → IsTallied runtime (items runs) runs t (processed now runtime runs t)
  unfolding process_batch
  items-IsTallied now runtime [] t p f o = record {
    persisted = omega arith;
    failures = omega arith;
    observed = omega arith;
  }
  items-IsTallied now runtime (run ∷ rest) t p f o =
      let catalog = event_catalog run.queued.event in
      let done = result runtime run in
      let one =
        settle_result-IsCounted now catalog done t (omega (arith, p)) (omega (arith, f))
          (omega (arith, o)) in
      let (few, fewer, fewest) = at_most_one done in
      let mine =
        result_counted (accepts runtime catalog)
          (persist_event heap libs store run.others max_trace_bytes run.queued run.start).0 in
      let later =
        items-IsTallied now runtime rest (settle_result now catalog done t)
          (omega (arith, one.persisted, few, p)) (omega (arith, one.failures, fewer, f))
          (omega (arith, one.observed, fewest, o)) in
      subst (IsTallied runtime (items (run ∷ rest)) (run ∷ rest) t)
        (sym (processed_step now runtime run rest t))
        (record {
          persisted = omega (arith, one.persisted, later.persisted);
          failures = omega (arith, one.failures, later.failures);
          observed = omega (arith, one.observed, later.observed, mine);
        })

  -- However the persistence of the items of a batch interleaves, and in whatever order the items end,
  -- the batch counts each of them once: as many traces as were stored, as many failures as there were,
  -- and in the statistics one more observed request for each item of the batch that is the writer's,
  -- while no counter is at its end.
  pub process_batch-IsTallied :
      (now : ℕ) (runtime : StatsRuntime) (batch : List QueuedTrace) (runs : List (Run S))
      (t : Tally)
      → Permᴰ (items runs) batch
      → t.counters.traces_persisted + length batch ≤ u64_max
      → t.counters.trace_persist_failures + length batch ≤ u64_max
      → observed_in t.stats + length batch ≤ u64_max
      → IsTallied runtime batch runs t
          (process_batch heap libs store max_trace_bytes now runtime runs t)
  process_batch-IsTallied now runtime batch runs t order p f o =
      let size = length-Permᴰ order in
      let whole =
        items-IsTallied now runtime runs t (omega (arith, size, p)) (omega (arith, size, f))
          (omega (arith, size, o)) in
      record {
        persisted = whole.persisted;
        failures = whole.failures;
        observed =
            whole.observed ∙ ap (λ n. observed_in t.stats + n) (accepted_in-Permᴰ runtime order);
      }

  -- The time of the last failure is that of the batch, if an item failed.
  process_batch_last :
      (now : ℕ) (runtime : StatsRuntime) (runs : List (Run S)) (t : Tally)
      → (t.counters.last_persist_failure_unix_seconds ≡ now)
        ⊎ (0 < sum_of failed (results runtime runs))
      → last_failure (processed now runtime runs t) ≡ now
  unfolding process_batch
  process_batch_last now runtime [] t (inl e) = e
  process_batch_last now runtime [] t (inr some_failed) = omega arith
  process_batch_last now runtime (run ∷ rest) t h =
      let catalog = event_catalog run.queued.event in
      let done = result runtime run in
      ap last_failure (processed_step now runtime run rest t)
      ∙ process_batch_last now runtime rest (settle_result now catalog done t)
          (settle_result-last_failure now catalog done t _ h)

  -- After a batch with a failure the writer is not ready, whatever succeeded after the failure, until
  -- `persistence_failure_recovery_seconds` have passed.
  pub process_batch-health :
      (now later : ℕ) (runtime : StatsRuntime) (runs : List (Run S)) (t : Tally)
      → 0 < sum_of failed (results runtime runs)
      → 0 < now
      → later < now + persistence_failure_recovery_seconds
      → (health later
          (process_batch heap libs store max_trace_bytes now runtime runs t).counters).ready
        ≡ false
  process_batch-health now later runtime runs t some_failed past soon =
      let e = process_batch_last now runtime runs t (inr some_failed) in
      health_ready later _ (omega (arith, e, past)) (omega (arith, e, soon))

-- ===== src/Writer/Losses.antt =====
-- The losses that `flush_stats` of records.rs tells of, and the entries that it keeps.
use milk_carton.Base.{
  ◌≡◌, ◌⊎◌, inl, inr, refl, sym, ap, ◌∙◌, subst, ℕ, ◌+◌, ◌<◌, true, false, ◌&&◌, ◌||◌, Option, none,
  some, List, [], ◌∷◌, ltb, nat_eq, if-true, if-false, Bool-cases, Result, ok, err, arith,
}
use milk_carton.Route.Types.{Uuid, DateTime}
use milk_carton.Stats.Values.{StatsValues}
use milk_carton.Stats.{is_empty}
use milk_carton.Stats.Observed.{default_values}
use milk_carton.Trace.{Allocator}
use milk_carton.Queue.{StatsCounters}
use milk_carton.Store.{ObjectStore}
use milk_carton.Persist.{EncodedObject, PutDisposition, put_create_same}
use milk_carton.Persist.Keys.{RecordLibs}
use milk_carton.Writer.{
  StatsMap, change_entry, hour_start, count_success, settle_put, flush_pending, flush_pending_stats,
}
use milk_carton.Writer.Flush.{add_losses, tell_losses}
use milk_carton.Writer.Acknowledged.{HasEntry}

-- The entry is there as it was, or is the one that is changed.
abbrev KeepsEntry :
    (scope : Uuid) (hour : DateTime) (change : StatsValues → StatsValues) (stats : StatsMap)
    → Uuid
    → DateTime
    → StatsValues
    → Type 0
KeepsEntry scope hour change stats s h v =
    HasEntry s h v stats ⊎ ((s ≡ scope) × (h ≡ hour) × HasEntry s h (change v) stats)

later :
    (scope : Uuid) (hour : DateTime) (change : StatsValues → StatsValues) (stats : StatsMap)
    (e : Uuid × DateTime × StatsValues) (s : Uuid) (h : DateTime) (v : StatsValues)
    → KeepsEntry scope hour change stats s h v
    → KeepsEntry scope hour change (e ∷ stats) s h v
later scope hour change stats e s h v (inl there) = inl (inr there)
later scope hour change stats e s h v (inr (a, b, there)) = inr (a, b, inr there)

change_entry-KeepsEntry :
    (scope : Uuid) (hour : DateTime) (change : StatsValues → StatsValues) (stats : StatsMap)
    (s : Uuid) (h : DateTime) (v : StatsValues)
    → HasEntry s h v stats
    → KeepsEntry scope hour change (change_entry scope hour change stats) s h v
unfolding change_entry
change_entry-KeepsEntry scope hour change [] s h v there = absurd there
change_entry-KeepsEntry scope hour change ((t, k, values) ∷ rest) s h v there =
    elim (Bool-cases (nat_eq t scope && nat_eq k hour)) [
      | inl same ↦
          subst (λ m. KeepsEntry scope hour change m s h v)
            (sym (if-true (nat_eq t scope && nat_eq k hour) _ _ same)) (at same there)
      | inr other ↦
          subst (λ m. KeepsEntry scope hour change m s h v)
            (sym (if-false (nat_eq t scope && nat_eq k hour) _ _ other))
            (past (change_entry-KeepsEntry scope hour change rest s h v) there)
    ]
  where
    at :
        (nat_eq t scope && nat_eq k hour) ≡ true
        → HasEntry s h v ((t, k, values) ∷ rest)
        → KeepsEntry scope hour change ((t, k, change values) ∷ rest) s h v
    at same (inl e) =
        let scope_same : t ≡ scope = ground (arith, same) in
        let hour_same : k ≡ hour = ground (arith, same) in
        inr (
          sym (ap (λ (p : Uuid × DateTime × StatsValues). p.0) e) ∙ scope_same,
          sym (ap (λ (p : Uuid × DateTime × StatsValues). p.1) e) ∙ hour_same,
          inl (ap (λ (p : Uuid × DateTime × StatsValues). (p.0, p.1, change p.2)) e),
        )
    at same (inr i) = inl (inr i)

    past :
        (HasEntry s h v rest
          → KeepsEntry scope hour change (change_entry scope hour change rest) s h v)
        → HasEntry s h v ((t, k, values) ∷ rest)
        → KeepsEntry scope hour change ((t, k, values) ∷ change_entry scope hour change rest) s h v
    past below (inl e) = inl (inl e)
    past below (inr i) =
        later scope hour change (change_entry scope hour change rest) (t, k, values) s h v (below i)

-- The values that are changed: those of the entry, or the default.
abbrev pub IsBefore : Uuid → DateTime → StatsMap → StatsValues → Type 0
IsBefore scope hour stats before = HasEntry scope hour before stats ⊎ (before ≡ default_values)

change_entry-HasEntry :
    (scope : Uuid) (hour : DateTime) (change : StatsValues → StatsValues) (stats : StatsMap)
    → (before : StatsValues) × IsBefore scope hour stats before
      × HasEntry scope hour (change before) (change_entry scope hour change stats)
unfolding change_entry
change_entry-HasEntry scope hour change [] = (default_values, inr refl, inl refl)
change_entry-HasEntry scope hour change ((t, k, values) ∷ rest) =
    elim (Bool-cases (nat_eq t scope && nat_eq k hour)) [
      | inl same ↦
          let t_same : t ≡ scope = ground (arith, same) in
          let k_same : k ≡ hour = ground (arith, same) in
          (
            values,
            inl (inl (λ i. (t_same i, k_same i, values))),
            subst (HasEntry scope hour (change values))
                (sym (if-true (nat_eq t scope && nat_eq k hour) _ _ same))
                (inl (λ i. (t_same i, k_same i, change values))),
          )
      | inr other ↦
          let (before, is_before, there) = change_entry-HasEntry scope hour change rest in
          (
            before,
            in_rest before is_before,
            subst (HasEntry scope hour (change before))
                (sym (if-false (nat_eq t scope && nat_eq k hour) _ _ other)) (inr there),
          )
    ]
  where
    in_rest :
        (before : StatsValues)
        → IsBefore scope hour rest before
        → IsBefore scope hour ((t, k, values) ∷ rest) before
    in_rest before (inl i) = inl (inr i)
    in_rest before (inr e) = inr e

-- What is told: the new losses are in the entry of the only scope at this hour, and every other entry is
-- there as it was.
pub tell_losses-HasEntry :
    (only : Option Uuid) (now : DateTime) (dropped failures : ℕ) (stats : StatsMap) (scope : Uuid)
    (hour : DateTime) (values : StatsValues)
    → HasEntry scope hour values stats
    → HasEntry scope hour values (tell_losses only now dropped failures stats)
      ⊎ ((only ≡ some scope)
          × (hour ≡ hour_start now)
          × HasEntry scope hour
              (add_losses dropped failures values)
              (tell_losses only now dropped failures stats))
unfolding tell_losses
tell_losses-HasEntry none now dropped failures stats scope hour values there = inl there
tell_losses-HasEntry (some single) now dropped failures stats scope hour values there =
    elim (Bool-cases (ltb 0 dropped || ltb 0 failures)) [
      | inr no_loss ↦ inl (
          subst (HasEntry scope hour values)
            (sym (if-false (ltb 0 dropped || ltb 0 failures) _ _ no_loss)) there)
      | inl loss ↦
          elim (change_entry-KeepsEntry single (hour_start now) (add_losses dropped failures) stats
            scope hour values there) [
              | inl kept ↦ inl (
                  subst (HasEntry scope hour values)
                    (sym (if-true (ltb 0 dropped || ltb 0 failures) _ _ loss)) kept)
              | inr (s, h, changed) ↦ inr (
                ap some (sym s),
                h,
                subst (HasEntry scope hour (add_losses dropped failures values))
                    (sym (if-true (ltb 0 dropped || ltb 0 failures) _ _ loss)) changed,
              )
            ]
    ]

pub tell_losses-IsBefore :
    (scope : Uuid) (now : DateTime) (dropped failures : ℕ) (stats : StatsMap)
    → 0 < dropped + failures
    → (before : StatsValues) × IsBefore scope (hour_start now) stats before
      × HasEntry scope
          (hour_start now)
          (add_losses dropped failures before)
          (tell_losses (some scope) now dropped failures stats)
unfolding tell_losses
tell_losses-IsBefore scope now dropped failures stats h =
    let loss : (ltb 0 dropped || ltb 0 failures) ≡ true = ground (arith, h) in
    let (before, is_before, there) =
      change_entry-HasEntry scope (hour_start now) (add_losses dropped failures) stats in
    (
      before,
      is_before,
      subst (HasEntry scope (hour_start now) (add_losses dropped failures before))
          (sym (if-true (ltb 0 dropped || ltb 0 failures) _ _ loss)) there,
    )

pub add_losses-is_empty :
    (dropped failures : ℕ) (values : StatsValues)
    → (is_empty values ≡ false) ⊎ (0 < dropped + failures)
    → is_empty (add_losses dropped failures values) ≡ false
unfolding is_empty
add_losses-is_empty dropped failures values h = ground (arith, h)

module _ {S : Type 0} (heap : Allocator) (libs : RecordLibs) (store : ObjectStore S)
    (others : S → S) (max_trace_bytes : ℕ) where
  -- Without a failure, nothing that a flush tells of is counted.
  record IsSilent (failed : List EncodedObject) (c c' : StatsCounters) : Type 0 where
    none_failed : failed ≡ []
    dropped : c'.dropped ≡ c.dropped
    failures : c'.stats_persist_failures ≡ c.stats_persist_failures

  settle_put-IsSilent :
      (now : ℕ) (object : EncodedObject) (put : Result PutDisposition) (c : StatsCounters)
      (failed : List EncodedObject)
      → (settle_put heap libs store others max_trace_bytes now object put (c, failed)).1 ≡ []
      → IsSilent failed c
          (settle_put heap libs store others max_trace_bytes now object put (c, failed)).0
  unfolding settle_put count_success
  settle_put-IsSilent now object (ok done) c failed h = record {
    none_failed = h;
    dropped = refl;
    failures = refl;
  }
  settle_put-IsSilent now object (err e) c [] h = cc
  settle_put-IsSilent now object (err e) c (x ∷ failed) h = cc

  flush_pending-IsSilent :
      (now : ℕ) (pending : List EncodedObject) (c : StatsCounters) (failed : List EncodedObject)
      (s : S)
      → (flush_pending heap libs store others max_trace_bytes now pending (c, failed) s).0.1 ≡ []
      → IsSilent failed c
          (flush_pending heap libs store others max_trace_bytes now pending (c, failed) s).0.0
  unfolding flush_pending
  flush_pending-IsSilent now [] c failed s h = record {
    none_failed = h;
    dropped = refl;
    failures = refl;
  }
  flush_pending-IsSilent now (object ∷ rest) c failed s h =
      let put = put_create_same libs.crypto store others object s in
      let settled =
        settle_put heap libs store others max_trace_bytes now object put.0 (c, failed) in
      let after = flush_pending-IsSilent now rest settled.0 settled.1 put.1 h in
      let one = settle_put-IsSilent now object put.0 c failed after.none_failed in
      record {
        none_failed = one.none_failed;
        dropped = after.dropped ∙ one.dropped;
        failures = after.failures ∙ one.failures;
      }

  pub flush_pending_stats-counters :
      (now : ℕ) (pending : List EncodedObject) (c : StatsCounters) (s : S)
      → (flush_pending_stats heap libs store others max_trace_bytes now c pending s).0.1 ≡ []
      → ((flush_pending_stats heap libs store others max_trace_bytes now c pending s).0.0.dropped
          ≡ c.dropped)
        × ((flush_pending_stats heap libs store others max_trace_bytes now c pending
              s).0.0.stats_persist_failures
            ≡ c.stats_persist_failures)
  unfolding flush_pending_stats
  flush_pending_stats-counters now pending c s h =
      let silent = flush_pending-IsSilent now pending c [] s h in (silent.dropped, silent.failures)

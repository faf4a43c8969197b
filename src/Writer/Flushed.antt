-- ===== src/Writer/Flushed.antt =====
-- What the acknowledgement of a flush in `run` of records.rs says of the statistics that were there
-- before, and of what was lost since the last flush.
use milk_carton.Base.{
  ◌≡◌, ◌⊎◌, inl, inr, sym, subst, ap, ◌∙◌, ℕ, ◌+◌, ◌-◌, ◌<◌, true, false, Option, some, [], Bytes,
}
use milk_carton.Route.Types.{Uuid, DateTime}
use milk_carton.Stats.Values.{StatsValues}
use milk_carton.Stats.{is_empty}
use milk_carton.Trace.{Allocator}
use milk_carton.Store.{ObjectStore, StoreLaws}
use milk_carton.Persist.{EncodedObject}
use milk_carton.Persist.Keys.{RecordLibs}
use milk_carton.Persist.Keeps.{KeepLaws, Present, Grows}
use milk_carton.Writer.{StatsRuntime, StatsShard, WriterState, single_scope, hour_start}
use milk_carton.Writer.Flush.{add_losses, tell_losses, with_losses, flush_stats, acknowledge_flush}
use milk_carton.Writer.Stored.{In}
use milk_carton.Writer.Acknowledged.{
  HasEntry, IsStoredEntry, no_objects-nil, first_flush, told, flush_stats-told,
  acknowledge_flush-first,
}
use milk_carton.Writer.Losses.{
  IsBefore, tell_losses-HasEntry, tell_losses-IsBefore, add_losses-is_empty,
  flush_pending_stats-counters,
}

-- What was dropped, and what the writer failed to store, since the last flush.
abbrev pub new_dropped : WriterState → ℕ
new_dropped w = w.tally.counters.dropped - w.dropped_snapshot

abbrev pub new_failures : WriterState → ℕ
new_failures w = w.tally.counters.stats_persist_failures - w.stats_failure_snapshot

module _ {S : Type 0} (heap : Allocator) (libs : RecordLibs) (store : ObjectStore S)
    (others : S → S) (max_trace_bytes : ℕ) (shard_json : StatsShard → Option Bytes)
    (flush_id : ℕ → Uuid) (writer_id : Uuid) (runtime : StatsRuntime) where
  -- The values are stored as they are, or with the losses, if they are those of the only scope in this hour.
  abbrev pub IsStoredWith : DateTime → WriterState → Uuid → DateTime → StatsValues → S → Type 0
  IsStoredWith recorded_at w scope hour values s =
      IsStoredEntry heap libs store others max_trace_bytes shard_json flush_id writer_id runtime
        recorded_at scope hour values s
      ⊎ ((single_scope runtime ≡ some scope)
          × (hour ≡ hour_start recorded_at)
          × IsStoredEntry heap libs store others max_trace_bytes shard_json flush_id writer_id
              runtime recorded_at scope hour (add_losses (new_dropped w) (new_failures w) values) s)

  told-tell_losses :
      (now : ℕ) (recorded_at : DateTime) (w : WriterState) (s : S)
      → (first_flush heap libs store others max_trace_bytes shard_json flush_id writer_id runtime
          now w s).0.1
        ≡ []
      → (told heap libs store others max_trace_bytes shard_json flush_id writer_id runtime now
          recorded_at w s).tally.stats
        ≡ tell_losses
            (single_scope runtime)
            recorded_at
            (new_dropped w)
            (new_failures w)
            w.tally.stats
  unfolding with_losses
  told-tell_losses now recorded_at w s h =
      let (dropped, failures) =
        flush_pending_stats-counters heap libs store others max_trace_bytes now w.pending
          w.tally.counters s h in
      λ i.
        tell_losses (single_scope runtime) recorded_at (dropped i - w.dropped_snapshot)
          (failures i - w.stats_failure_snapshot) w.tally.stats

  module _ (laws : StoreLaws store) (keeps : KeepLaws store)
      (others_grow : (s : S) → Grows store s (others s)) where
    -- A flush that is acknowledged as done has stored every object that was pending, and every entry
    -- that the statistics had before and that counts something: as it was, or with the losses since
    -- the last flush, if it is the entry of the only scope in this hour. If there is one scope, and
    -- something was lost since the last flush, then the losses are stored, added to the entry of this
    -- hour or to an empty one. Other writers may act between all accesses, as long as they delete
    -- nothing.
    pub flush_stats-acknowledge_flush :
        (now : ℕ) (recorded_at : DateTime) (w : WriterState) (s : S)
        → acknowledge_flush
            (flush_stats heap libs store others max_trace_bytes shard_json flush_id writer_id
              runtime now recorded_at w s).0
          ≡ true
        → ((object : EncodedObject)
            → In object w.pending
            → Present store object.key object.payload
                (flush_stats heap libs store others max_trace_bytes shard_json flush_id writer_id
                  runtime now recorded_at w s).1)
          × ((scope : Uuid) (hour : DateTime) (values : StatsValues)
              → HasEntry scope hour values w.tally.stats
              → is_empty values ≡ false
              → IsStoredWith recorded_at w scope hour values
                  (flush_stats heap libs store others max_trace_bytes shard_json flush_id writer_id
                    runtime now recorded_at w s).1)
          × ((scope : Uuid)
              → single_scope runtime ≡ some scope
              → 0 < new_dropped w + new_failures w
              → (before : StatsValues) × IsBefore scope
                  (hour_start recorded_at)
                  w.tally.stats
                  before
                × IsStoredEntry heap libs store others max_trace_bytes shard_json flush_id writer_id
                    runtime recorded_at scope
                    (hour_start recorded_at)
                    (add_losses (new_dropped w) (new_failures w) before)
                    (flush_stats heap libs store others max_trace_bytes shard_json flush_id
                      writer_id runtime now recorded_at w s).1)
    flush_stats-acknowledge_flush now recorded_at w s h =
        let (objects, entries) =
          flush_stats-told heap libs store others max_trace_bytes shard_json flush_id writer_id
            runtime laws keeps others_grow now recorded_at w s h in
        let none_left = no_objects-nil _ (
          acknowledge_flush-first heap libs store others max_trace_bytes shard_json flush_id
            writer_id runtime laws keeps others_grow now recorded_at w s h) in
        let is_told = told-tell_losses now recorded_at w s none_left in
        (
          objects,
          λ scope hour values there filled.
              elim (tell_losses-HasEntry (single_scope runtime) recorded_at (new_dropped w)
                (new_failures w) w.tally.stats scope hour values there) [
                  | inl kept ↦ inl (
                      entries scope hour values
                        (subst (HasEntry scope hour values) (sym is_told) kept) filled)
                  | inr (only, this_hour, changed) ↦ inr (
                    only,
                    this_hour,
                    entries scope hour (add_losses (new_dropped w) (new_failures w) values)
                        (subst
                          (HasEntry scope hour (add_losses (new_dropped w) (new_failures w) values))
                          (sym is_told) changed)
                        (add_losses-is_empty (new_dropped w) (new_failures w) values (inl filled)),
                  )
                ],
          λ scope only lost.
              let (before, is_before, there) =
                tell_losses-IsBefore scope recorded_at (new_dropped w) (new_failures w)
                  w.tally.stats lost in
              (
                before,
                is_before,
                entries scope (hour_start recorded_at)
                    (add_losses (new_dropped w) (new_failures w) before)
                    (subst
                      (HasEntry scope (hour_start recorded_at)
                        (add_losses (new_dropped w) (new_failures w) before))
                      (ap
                          (λ o.
                            tell_losses o recorded_at (new_dropped w) (new_failures w)
                              w.tally.stats)
                          (sym only)
                        ∙ sym is_told)
                      there)
                    (add_losses-is_empty (new_dropped w) (new_failures w) before (inr lost)),
              ),
        )

-- ===== src/Writer/Flush.antt =====
-- `flush_stats` of records.rs, and the acknowledgement of a flush in `run`. `shard_json` is serde_json on
-- `StatsShard`, and `flush_id n` the identifier that `Uuid::now_v7` gives the n-th entry.
use milk_carton.Base.{
  ℕ, suc, ◌-◌, Bool, true, false, ◌&&◌, ◌||◌, Option, none, some, List, [], ◌∷◌, Bytes, codes, ltb,
  if◌then◌else◌,
}
use milk_carton.Route.Types.{Uuid, DateTime}
use milk_carton.Stats.Counts.{sat_add}
use milk_carton.Stats.Values.{StatsValues}
use milk_carton.Stats.{is_empty}
use milk_carton.Trace.{Allocator}
use milk_carton.Queue.{StatsCounters, capture_sampler_id}
use milk_carton.Store.{ObjectStore}
use milk_carton.Persist.{EncodedObject, encode_json}
use milk_carton.Persist.Keys.{RecordLibs}
use milk_carton.Writer.{
  StatsRuntime, single_scope, count_failure, count_stats_failure, hour_start, StatsMap,
  change_entry, StatsShard, WriterState, flush_pending_stats, stats_key,
}

abbrev pub no_objects : List EncodedObject → Bool
no_objects [] = true
no_objects (object ∷ rest) = false

abbrev pub no_entries : StatsMap → Bool
no_entries [] = true
no_entries (entry ∷ rest) = false

abbrev pub add_losses : ℕ → ℕ → StatsValues → StatsValues
add_losses dropped failures values = record values {
  dropped = sat_add values.dropped dropped;
  stats_persist_failures = sat_add values.stats_persist_failures failures;
}

-- What was dropped since the last flush is told of the only scope.
unfoldable pub tell_losses : Option Uuid → DateTime → ℕ → ℕ → StatsMap → StatsMap
tell_losses none now dropped failures stats = stats
tell_losses (some scope) now dropped failures stats =
    if ltb 0 dropped || ltb 0 failures
    then change_entry scope (hour_start now) (add_losses dropped failures) stats
    else stats

-- What `run` sends as the acknowledgement of a flush.
unfoldable pub acknowledge_flush : WriterState → Bool
acknowledge_flush w = no_entries w.tally.stats && no_objects w.pending

-- The encoding of the entries: the counters, the entries that stay, and the objects to put.
pub record Encoding : Type 0 where
  pub counters : StatsCounters
  pub kept : StatsMap
  pub objects : List EncodedObject

module _ {S : Type 0} (heap : Allocator) (libs : RecordLibs) (store : ObjectStore S)
    (others : S → S) (max_trace_bytes : ℕ) (shard_json : StatsShard → Option Bytes)
    (flush_id : ℕ → Uuid) (writer_id : Uuid) (runtime : StatsRuntime) where
  open libs use {crypto}

  unfoldable pub shard_of : ℕ → DateTime → Uuid → DateTime → StatsValues → StatsShard
  shard_of n recorded_at scope hour values = record {
    schema_version = codes "milk.stats-shard.v1";
    scope = scope;
    writer_id = writer_id;
    flush_id = flush_id n;
    hour = hour;
    recorded_at = recorded_at;
    sampler_id = capture_sampler_id;
    capture_policy_version = runtime.capture_policy_version;
    sampling_key_version = runtime.sampling_key_version;
    capture_basis_points = runtime.capture_basis_points;
    values = values;
  }

  unfoldable pub add_encoded :
      ℕ → ℕ → Uuid → DateTime → StatsValues → Option Bytes → Encoding → Encoding
  add_encoded now n scope hour values (some json) e = record e {
    objects =
        encode_json crypto
          (stats_key heap libs store others max_trace_bytes scope hour writer_id (flush_id n)) json
        ∷ e.objects;
  }
  add_encoded now n scope hour values none e = record e {
    counters = count_failure now (count_stats_failure e.counters);
    kept = (scope, hour, values) ∷ e.kept;
  }

  unfoldable pub encode_entry :
      ℕ → DateTime → ℕ → Uuid → DateTime → StatsValues → Encoding → Encoding
  encode_entry now recorded_at n scope hour values e =
      if is_empty values
      then e
      else add_encoded now n scope hour values
          (shard_json (shard_of n recorded_at scope hour values)) e

  unfoldable pub encode_entries : ℕ → DateTime → ℕ → StatsMap → StatsCounters → Encoding
  encode_entries now recorded_at n [] c = record { counters = c; kept = []; objects = [] }
  encode_entries now recorded_at n ((scope, hour, values) ∷ rest) c =
      encode_entry now recorded_at n scope hour values
        (encode_entries now recorded_at (suc n) rest c)

  -- The end of `flush_stats`, when nothing is pending.
  unfoldable pub flush_entries : ℕ → DateTime → WriterState → S → WriterState × S
  flush_entries now recorded_at w s =
      let e = encode_entries now recorded_at 0 w.tally.stats w.tally.counters in
      let put =
        flush_pending_stats heap libs store others max_trace_bytes now e.counters e.objects s in
      (record w { tally = record { counters = put.0.0; stats = e.kept }; pending = put.0.1 }, put.1)

  -- The state after the first `flush_pending_stats`, with the losses that are new.
  unfoldable pub with_losses :
      DateTime → StatsCounters × List EncodedObject → WriterState → WriterState
  with_losses recorded_at put w = record {
    tally = record {
      counters = put.0;
      stats =
          tell_losses (single_scope runtime) recorded_at (put.0.dropped - w.dropped_snapshot)
            (put.0.stats_persist_failures - w.stats_failure_snapshot) w.tally.stats;
    };
    pending = put.1;
    dropped_snapshot = put.0.dropped;
    stats_failure_snapshot = put.0.stats_persist_failures;
  }

  unfoldable pub flush_unless_pending : ℕ → DateTime → WriterState → S → WriterState × S
  flush_unless_pending now recorded_at w s =
      if no_objects w.pending then flush_entries now recorded_at w s else (w, s)

  unfoldable pub flush_stats : ℕ → DateTime → WriterState → S → WriterState × S
  flush_stats now recorded_at w s =
      let put =
        flush_pending_stats heap libs store others max_trace_bytes now w.tally.counters w.pending
          s in
      flush_unless_pending now recorded_at (with_losses recorded_at put.0 w) put.1

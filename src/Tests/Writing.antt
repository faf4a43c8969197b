-- ===== src/Tests/Writing.antt =====
-- A flush of one entry of the statistics to an empty shelf.
use milk_carton.Base.{
  ◌≡◌, ◌⊎◌, ◌+◌, ◌<◌, inl, inr, refl, ℕ, true, false, Option, none, some, [], ◌∷◌, Bytes, codes,
  List,
}
use milk_carton.Route.Types.{Uuid, DateTime}
use milk_carton.Stats.{is_empty}
use milk_carton.Stats.Values.{StatsValues}
use milk_carton.Stats.Observed.{default_values}
use milk_carton.Queue.{no_counts}
use milk_carton.Persist.{EncodedObject}
use milk_carton.Persist.Keeps.{Present}
use milk_carton.Writer.{
  StatsRuntime, StatsShard, WriterState, single_scope, hour_start, flush_pending_stats,
}
use milk_carton.Writer.Flush.{add_losses, acknowledge_flush, flush_stats}
use milk_carton.Writer.Stored.{In, Accounted, flush_pending_stats-Accounted}
use milk_carton.Writer.Acknowledged.{HasEntry, IsStoredEntry}
use milk_carton.Writer.Losses.{IsBefore}
use milk_carton.Writer.Flushed.{
  new_dropped, new_failures, IsStoredWith, flush_stats-acknowledge_flush,
}
use milk_carton.Tests.Recording.{heap}
use milk_carton.Tests.Persistence.{libs, alone, object}
use milk_carton.Tests.Shelf.{Shelf, lookup, shelf, shelf-StoreLaws, shelf-KeepLaws}

abbrev runtime : StatsRuntime
runtime = record {
  scopes = 5 ∷ [];
  capture_basis_points = 100;
  capture_policy_version = none;
  sampling_key_version = codes "k1";
}

abbrev shard_json : StatsShard → Option Bytes
shard_json shard = some (codes "{}")

abbrev flush_id : ℕ → Uuid
flush_id n = n

abbrev entries : List (Uuid × DateTime × StatsValues)
entries = (5, 0, record default_values { observed = 3 }) ∷ []

abbrev before : WriterState
before = record {
  tally = record { counters = record no_counts { dropped = 2 }; stats = entries };
  pending = object ∷ [];
  dropped_snapshot = 0;
  stats_failure_snapshot = 0;
}

abbrev flushed : WriterState × Shelf
flushed = flush_stats heap libs shelf alone 4_000 shard_json flush_id 9 runtime 100 7_000 before []

is_acknowledged : acknowledge_flush flushed.0 ≡ true
unfolding acknowledge_flush flush_stats milk_carton.Writer.Flush.flush_unless_pending
    milk_carton.Writer.Flush.with_losses flush_pending_stats milk_carton.Writer.flush_pending
    milk_carton.Writer.settle_put milk_carton.Persist.put_create_same shelf lookup
    milk_carton.Writer.Flush.flush_entries milk_carton.Writer.Flush.encode_entries
    milk_carton.Writer.Flush.tell_losses milk_carton.Writer.single_scope
    milk_carton.Writer.count_success milk_carton.Writer.Flush.encode_entry is_empty
    milk_carton.Writer.Flush.add_encoded milk_carton.Base.list_eq milk_carton.Base.option_eq
    milk_carton.Persist.Keys.scope_prefix milk_carton.Persist.after_put_create
    milk_carton.Persist.encode_json milk_carton.Persist.load_bytes milk_carton.Persist.same_object
    milk_carton.Writer.Flush.shard_of milk_carton.Writer.change_entry
    milk_carton.Writer.count_failure milk_carton.Writer.hour_start milk_carton.Writer.stats_key
is_acknowledged = refl

flush_pending_stats-Accounted_example :
    Accounted heap libs shelf alone 4_000 shelf-StoreLaws shelf-KeepLaws
      (λ s key there f. f)
      (flush_pending_stats heap libs shelf alone 4_000 100 no_counts (object ∷ []) []).0.1
      (flush_pending_stats heap libs shelf alone 4_000 100 no_counts (object ∷ []) []).1
      object
flush_pending_stats-Accounted_example =
    flush_pending_stats-Accounted heap libs shelf alone 4_000 shelf-StoreLaws shelf-KeepLaws
      (λ s key there f. f) 100 no_counts (object ∷ []) [] object (inl refl)

flush_stats-acknowledge_flush_example :
    ((stored : EncodedObject)
      → In stored (object ∷ [])
      → Present shelf stored.key stored.payload flushed.1)
    × ((scope : Uuid) (hour : DateTime) (values : StatsValues)
        → HasEntry scope hour values entries
        → is_empty values ≡ false
        → IsStoredWith heap libs shelf alone 4_000 shard_json flush_id 9 runtime 7_000 before scope
            hour values flushed.1)
    × ((scope : Uuid)
        → single_scope runtime ≡ some scope
        → 0 < new_dropped before + new_failures before
        → (values : StatsValues) × IsBefore scope (hour_start 7_000) entries values
          × IsStoredEntry heap libs shelf alone 4_000 shard_json flush_id 9 runtime 7_000 scope
              (hour_start 7_000)
              (add_losses (new_dropped before) (new_failures before) values)
              flushed.1)
flush_stats-acknowledge_flush_example =
    flush_stats-acknowledge_flush heap libs shelf alone 4_000 shard_json flush_id 9 runtime
      shelf-StoreLaws shelf-KeepLaws (λ s key there f. f) 100 7_000 before [] is_acknowledged

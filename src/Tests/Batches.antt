-- ===== src/Tests/Batches.antt =====
-- A batch of two traces that end in the other order, under a sampling key that is not theirs.
use mathlib.Core.List.{Permᴰ}
use milk_carton.Base.{list_eq, refl, ◌≡◌, false, none, List, [], ◌∷◌, codes, arith, ◌<◌}
use milk_carton.Trace.{event_catalog}
use milk_carton.Queue.{QueuedTrace, no_counts}
use milk_carton.Writer.{StatsRuntime, Tally, accepts, health, Run, process_batch, persist_accepted}
use milk_carton.Writer.Counted.{failed, sum_of}
use milk_carton.Writer.Batch.{results, IsTallied, process_batch-IsTallied, process_batch-health}
use milk_carton.Tests.Recording.{heap}
use milk_carton.Tests.Persistence.{libs, alone, after, queued_trace}
use milk_carton.Tests.Shelf.{Shelf, shelf}

-- Its sampling key is older than that of the trace.
abbrev stale : StatsRuntime
stale = record {
  scopes = 5 ∷ [];
  capture_basis_points = 100;
  capture_policy_version = none;
  sampling_key_version = codes "k0";
}

abbrev empty_tally : Tally
empty_tally = record { counters = no_counts; stats = [] }

abbrev other_trace : QueuedTrace
other_trace = record queued_trace { budget = 1_000 }

abbrev batch : List QueuedTrace
batch = queued_trace ∷ other_trace ∷ []

-- The second item ends first; the first starts when the second has stored its objects.
abbrev run : QueuedTrace → Shelf → Run Shelf
run queued s = record { queued = queued; start = s; others = alone }

abbrev runs : List (Run Shelf)
runs = run other_trace [] ∷ run queued_trace after ∷ []

process_batch-IsTallied_example :
    IsTallied heap libs shelf 4_000 stale batch runs empty_tally
      (process_batch heap libs shelf 4_000 100 stale runs empty_tally)
process_batch-IsTallied_example =
    process_batch-IsTallied heap libs shelf 4_000 100 stale batch runs empty_tally
      (Permᴰ.swap refl refl) (omega arith) (omega arith) (omega arith)

is_failed : 0 < sum_of failed (results heap libs shelf 4_000 stale runs)
unfolding accepts persist_accepted event_catalog list_eq
is_failed = omega arith

process_batch-health_example :
    (health 200 (process_batch heap libs shelf 4_000 100 stale runs empty_tally).counters).ready
    ≡ false
process_batch-health_example =
    process_batch-health heap libs shelf 4_000 100 200 stale runs empty_tally is_failed
      (omega arith) (omega arith)

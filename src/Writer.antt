-- ===== src/Writer.antt =====
-- The batch writer of records.rs: `StatsRuntime`, `process_batch`, `flush_stats` and
-- `flush_pending_stats`. The statistics are a list of entries in the order in which the hash map is
-- read. The items of a batch are persisted at the same time: a batch is the list of their runs, in the
-- order in which they end, each with its own view of the store.
pub mod Batch
pub mod Counted
pub mod Acknowledged
pub mod Flush
pub mod Flushed
pub mod Losses
pub mod Stored
use milk_carton.Base.{
  ℕ, suc, ◌+◌, ◌-◌, ◌*◌, ◌/◌, ◌^◌, ◌%◌, Bool, true, false, ◌&&◌, ◌||◌, not, Option, none, some,
  List, [], ◌∷◌, ◌++◌, Bytes, codes, any, leb, ltb, nat_eq, if◌then◌else◌, ◌==◌, ℕ-Eq, List-Eq,
  Result, ok, err,
}
use milk_carton.Route.Types.{Uuid, DateTime, seconds}
use milk_carton.Stats.Counts.{sat_add}
use milk_carton.Stats.Values.{TraceCatalog, CaptureState, persist_failed, StatsValues}
use milk_carton.Stats.{observe, is_empty}
use milk_carton.Stats.Observed.{default_values}
use milk_carton.Trace.{Allocator, event_catalog}
use milk_carton.Queue.{
  StatsCounters, QueuedTrace, fetch_add_one, capture_sampler_id,
  persistence_failure_recovery_seconds,
}
use milk_carton.Store.{ObjectStore}
use milk_carton.Effect.{Act}
use milk_carton.Persist.{EncodedObject, PutDisposition, encode_json, put_create_same}
use milk_carton.Persist.Keys.{RecordLibs, scope_prefix}
use milk_carton.Persist.Event.{persist_event}

pub record StatsRuntime : Type 0 where
  pub scopes : List Uuid
  pub capture_basis_points : ℕ
  pub capture_policy_version : Option Bytes
  pub sampling_key_version : Bytes

pub record RecordsHealth : Type 0 where
  pub ready : Bool
  pub writer_alive : Bool
  pub recent_persist_failure : Bool
  pub consecutive_persist_failures : ℕ
  pub queued : ℕ
  pub dropped : ℕ
  pub traces_persisted : ℕ
  pub trace_persist_failures : ℕ
  pub stats_persist_failures : ℕ

unfoldable pub single_scope : StatsRuntime → Option Uuid
single_scope runtime = elim runtime.scopes [ scope ∷ [] ↦ some scope | _ ↦ none ]

unfoldable pub accepts : StatsRuntime → TraceCatalog → Bool
accepts runtime catalog =
    any (λ scope. nat_eq scope catalog.scope) runtime.scopes
    && catalog.sampler_id == capture_sampler_id
    && nat_eq catalog.capture_basis_points runtime.capture_basis_points
    && catalog.sampling_key_version == runtime.sampling_key_version

-- `StatsRuntime::health` at a time in seconds; a time of 0 is no failure.
unfoldable pub health : ℕ → StatsCounters → RecordsHealth
health now c =
    let recent =
      ltb 0 c.last_persist_failure_unix_seconds
      && ltb (now - c.last_persist_failure_unix_seconds) persistence_failure_recovery_seconds in
    record {
      ready = c.writer_alive && nat_eq c.consecutive_persist_failures 0 && not recent;
      writer_alive = c.writer_alive;
      recent_persist_failure = recent;
      consecutive_persist_failures = c.consecutive_persist_failures;
      queued = c.queued;
      dropped = c.dropped;
      traces_persisted = c.traces_persisted;
      trace_persist_failures = c.trace_persist_failures;
      stats_persist_failures = c.stats_persist_failures;
    }

-- `StatsRuntime::persist_failed` and `persist_succeeded`.
unfoldable pub count_failure : ℕ → StatsCounters → StatsCounters
count_failure now c = record c {
  consecutive_persist_failures = fetch_add_one c.consecutive_persist_failures;
  last_persist_failure_unix_seconds = now;
}

unfoldable pub count_success : StatsCounters → StatsCounters
count_success c = record c { consecutive_persist_failures = 0 }

abbrev count_trace_failure : StatsCounters → StatsCounters
count_trace_failure c = record c { trace_persist_failures = fetch_add_one c.trace_persist_failures }

abbrev count_trace : StatsCounters → StatsCounters
count_trace c = record c { traces_persisted = fetch_add_one c.traces_persisted }

abbrev pub count_stats_failure : StatsCounters → StatsCounters
count_stats_failure c = record c { stats_persist_failures = fetch_add_one c.stats_persist_failures }

unfoldable pub hour_start : DateTime → DateTime
hour_start t = t - t % seconds 3_600

-- The entries of `HashMap<(Scope, DateTime<Utc>), StatsValues>`.
abbrev pub StatsMap : Type 0
StatsMap = List (Uuid × DateTime × StatsValues)

-- `stats.entry((scope, hour)).or_default()`, changed by `change`.
unfoldable pub change_entry : Uuid → DateTime → (StatsValues → StatsValues) → StatsMap → StatsMap
change_entry scope hour change [] = (scope, hour, change default_values) ∷ []
change_entry scope hour change ((s, h, values) ∷ rest) =
    let later = change_entry scope hour change rest in
    if nat_eq s scope && nat_eq h hour then (s, h, change values) ∷ rest else (s, h, values) ∷ later

-- The counters with the entries.
pub record Tally : Type 0 where
  pub counters : StatsCounters
  pub stats : StatsMap

unfoldable pub observe_result : TraceCatalog → CaptureState → Bool → Tally → Tally
observe_result catalog state captured t = record {
  counters = if captured then count_trace (count_success t.counters) else t.counters;
  stats =
      change_entry catalog.scope (hour_start catalog.occurred_at) (observe catalog state captured)
        t.stats;
}

-- One result of the batch; `none` when the catalog is not the writer's.
unfoldable pub settle_result :
    ℕ → TraceCatalog → Option (Result (CaptureState × Bool)) → Tally → Tally
settle_result now catalog none t = record t {
  counters = count_failure now (count_trace_failure t.counters);
}
settle_result now catalog (some (ok (state, captured))) t = observe_result catalog state captured t
settle_result now catalog (some (err error)) t =
    observe_result catalog persist_failed false
      (record t { counters = count_failure now (count_trace_failure t.counters) })

pub record StatsShard : Type 0 where
  pub schema_version : Bytes
  pub scope : Uuid
  pub writer_id : Uuid
  pub flush_id : Uuid
  pub hour : DateTime
  pub recorded_at : DateTime
  pub sampler_id : Bytes
  pub capture_policy_version : Option Bytes
  pub sampling_key_version : Bytes
  pub capture_basis_points : ℕ
  pub values : StatsValues

-- The state of `run` around its queue: what `flush_stats` is called with.
pub record WriterState : Type 0 where
  pub tally : Tally
  pub pending : List EncodedObject
  pub dropped_snapshot : ℕ
  pub stats_failure_snapshot : ℕ

-- One item of a batch while it is persisted: the store when its persistence starts, and what others do
-- to the store before each of its accesses. The others are the other writers and the items of the
-- batch that are persisted at the same time.
pub record Run (S : Type 0) : Type 0 where
  pub queued : QueuedTrace
  pub start : S
  pub others : S → S

module _ {S : Type 0} (heap : Allocator) (libs : RecordLibs) (store : ObjectStore S)
    (max_trace_bytes : ℕ) where
  -- The result of an item; `none` when the catalog is not the writer's, and nothing is persisted.
  unfoldable pub persist_accepted : Bool → Run S → Option (Result (CaptureState × Bool))
  persist_accepted false run = none
  persist_accepted true run =
      some (persist_event heap libs store run.others max_trace_bytes run.queued run.start).0

  -- The runs stand in the order in which they end, in which `buffer_unordered` hands them on.
  unfoldable pub process_batch : ℕ → StatsRuntime → List (Run S) → Tally → Tally
  process_batch now runtime [] t = t
  process_batch now runtime (run ∷ rest) t =
      let catalog = event_catalog run.queued.event in
      process_batch now runtime rest
        (settle_result now catalog (persist_accepted (accepts runtime catalog) run) t)

module _ {S : Type 0} (heap : Allocator) (libs : RecordLibs) (store : ObjectStore S)
    (others : S → S) (max_trace_bytes : ℕ) where
  open libs use {crypto, uuid_text, hour_path}

  -- The object that could not be put stays pending.
  unfoldable pub settle_put :
      ℕ
      → EncodedObject
      → Result PutDisposition
      → StatsCounters × List EncodedObject
      → StatsCounters × List EncodedObject
  settle_put now object (ok disposition) (c, failed) = (count_success c, failed)
  settle_put now object (err error) (c, failed) =
      (count_stats_failure (count_failure now c), failed ++ (object ∷ []))

  unfoldable pub flush_pending :
      ℕ
      → List EncodedObject
      → StatsCounters × List EncodedObject
      → S
      → (StatsCounters × List EncodedObject) × S
  flush_pending now [] t s = (t, s)
  flush_pending now (object ∷ rest) t s =
      let put = put_create_same crypto store others object s in
      flush_pending now rest (settle_put now object put.0 t) put.1

  unfoldable pub flush_pending_stats :
      ℕ → StatsCounters → List EncodedObject → S → (StatsCounters × List EncodedObject) × S
  flush_pending_stats now c pending s = flush_pending now pending (c, []) s

  unfoldable pub stats_key : Uuid → DateTime → Uuid → Uuid → Bytes
  stats_key scope hour writer_id flush_id =
      scope_prefix libs scope
      ++ (codes "/stats/"
          ++ hour_path hour
          ++ codes "/"
          ++ uuid_text writer_id
          ++ codes "/"
          ++ uuid_text flush_id
          ++ codes ".json")

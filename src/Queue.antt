-- ===== src/Queue.antt =====
-- The trace queue of records.rs: `Records` with its channel and its budget of bytes, the counters of
-- `StatsRuntime`, and `try_enqueue`, `try_observe` and `try_capture`. `tokio::sync::mpsc` and
-- `Semaphore` are modelled by what they document: a bounded queue, and a number of permits that a
-- queued item holds until it is dropped.
pub mod Budget
pub mod Refines
pub mod Rounds
pub mod Worker
use milk_carton.Base.{
  ℕ, suc, ◌+◌, ◌-◌, ◌*◌, ◌^◌, ◌%◌, Bool, true, false, ◌&&◌, not, Option, none, some, List, [], ◌∷◌,
  ◌++◌, Bytes, codes, length, any, leb, ltb, nat_eq, if◌then◌else◌, ◌==◌, ℕ-Eq, List-Eq,
}
use milk_carton.Route.Types.{Uuid, DateTime}
use milk_carton.Stats.Values.{TraceCatalog, CaptureState, oversized}
use milk_carton.Trace.{
  Allocator, TraceCapture, TraceEvent, observation, capture, catalog_bytes, capture_bytes,
}

abbrev pub trace_queue_records : ℕ
trace_queue_records = 1_024

abbrev pub persistence_failure_recovery_seconds : ℕ
persistence_failure_recovery_seconds = 5 * 60

abbrev pub capture_sampler_id : Bytes
capture_sampler_id = codes "hmac_sha256_session_root_v1"

pub data EnqueueResult : Type 0 where
  queued queue_full queue_closed too_large : EnqueueResult

pub record StatsCounters : Type 0 where
  pub queued : ℕ
  pub dropped : ℕ
  pub traces_persisted : ℕ
  pub trace_persist_failures : ℕ
  pub stats_persist_failures : ℕ
  pub writer_alive : Bool
  pub consecutive_persist_failures : ℕ
  pub last_persist_failure_unix_seconds : ℕ

-- `StatsCounters::default`
abbrev pub no_counts : StatsCounters
no_counts = record {
  queued = 0;
  dropped = 0;
  traces_persisted = 0;
  trace_persist_failures = 0;
  stats_persist_failures = 0;
  writer_alive = true;
  consecutive_persist_failures = 0;
  last_persist_failure_unix_seconds = 0;
}

-- `AtomicU64::fetch_add(1)`, which wraps.
abbrev pub fetch_add_one : ℕ → ℕ
fetch_add_one n = (n + 1) % 2 ^ 64

abbrev pub count_dropped : StatsCounters → StatsCounters
count_dropped c = record c { dropped = fetch_add_one c.dropped }

abbrev pub count_queued : StatsCounters → StatsCounters
count_queued c = record c { queued = fetch_add_one c.queued }

pub record QueuedTrace : Type 0 where
  pub event : TraceEvent
  pub budget : ℕ

-- A `Flush` is named by the receiver of its acknowledgement.
pub data QueueItem : Type 0 where
  trace : QueuedTrace → QueueItem
  flush : ℕ → QueueItem

-- The channel with its oldest item first, the permits that `queue_budget` has left, and the counters.
pub record Records : Type 0 where
  pub channel : List QueueItem
  pub receiver_alive : Bool
  pub queue_budget : ℕ
  pub max_trace_bytes : ℕ
  pub counters : StatsCounters

-- `Sender::try_send`, which gives the item back when it fails.
pub data SendOutcome : Type 0 where
  sent full closed : SendOutcome

unfoldable pub try_send : Records → SendOutcome
try_send r =
    if not r.receiver_alive
    then closed
    else if ltb (length r.channel) trace_queue_records
    then sent
    else full

-- What `try_enqueue` does with a permit: an item that is not sent is dropped with its permit.
unfoldable pub send_trace : TraceEvent → ℕ → Records → SendOutcome → EnqueueResult × Records
send_trace event bytes r sent = (
  queued,
  record r {
    channel = r.channel ++ (trace (record { event = event; budget = bytes }) ∷ []);
    queue_budget = r.queue_budget - bytes;
    counters = count_queued r.counters;
  },
)
send_trace event bytes r full = (queue_full, record r { counters = count_dropped r.counters })
send_trace event bytes r closed = (queue_closed, record r { counters = count_dropped r.counters })

unfoldable pub try_enqueue : TraceEvent → ℕ → Records → EnqueueResult × Records
unfolding try_send send_trace
try_enqueue event bytes r =
    if not (ltb bytes (2 ^ 32))
    then (too_large, record r { counters = count_dropped r.counters })
    else if ltb r.queue_budget bytes
    then (queue_full, record r { counters = count_dropped r.counters })
    else send_trace event bytes r (try_send r)

module _ (heap : Allocator) where
  unfoldable pub try_observe : TraceCatalog → CaptureState → Records → EnqueueResult × Records
  unfolding catalog_bytes
  try_observe catalog state = try_enqueue (observation catalog state) (catalog_bytes heap catalog)

  unfoldable pub try_capture : TraceCapture → Records → EnqueueResult × Records
  unfolding capture_bytes
  try_capture c r =
      if ltb r.max_trace_bytes (capture_bytes heap c)
      then try_observe c.catalog oversized r
      else try_enqueue (capture c) (capture_bytes heap c) r

-- ===== src/Queue/Worker.antt =====
-- The trace queue as its producers and its worker use it: the items that are sent, the batches that
-- `RecordStore::run` collects, the permits that come back when an item has been processed, and the
-- end of the worker, which drops what is left.
use milk_carton.Base.{
  ℕ, zero, suc, ◌+◌, ◌<◌, ◌≡◌, true, false, Option, none, some, List, [], ◌∷◌, ◌++◌, length,
}
use milk_carton.Trace.{TraceEvent}
use milk_carton.Queue.{
  QueuedTrace, QueueItem, trace, flush, Records, no_counts, trace_queue_records, try_enqueue,
}

abbrev pub batch_limit : ℕ
batch_limit = 256

-- The batch, the flush that ended it, and the items that stay in the channel.
pub record Collected : Type 0 where
  pub batch : List QueuedTrace
  pub flush : Option ℕ
  pub rest : List QueueItem

abbrev with_trace : QueuedTrace → Collected → Collected
with_trace queued c = record c { batch = queued ∷ c.batch }

-- One round of the loop of `run`: `recv`, and `try_recv` while the batch has room and there was no
-- flush.
unfoldable pub collect : ℕ → List QueueItem → Collected
collect zero items = record { batch = []; flush = none; rest = items }
collect (suc room) [] = record { batch = []; flush = none; rest = [] }
collect (suc room) (trace queued ∷ items) = with_trace queued (collect room items)
collect (suc room) (flush acknowledge ∷ items) = record {
  batch = [];
  flush = some acknowledge;
  rest = items;
}

-- The permits that items hold.
unfoldable pub batch_bytes : List QueuedTrace → ℕ
batch_bytes [] = 0
batch_bytes (queued ∷ rest) = queued.budget + batch_bytes rest

unfoldable pub item_bytes : QueueItem → ℕ
item_bytes (trace queued) = queued.budget
item_bytes (flush acknowledge) = 0

unfoldable pub channel_bytes : List QueueItem → ℕ
channel_bytes [] = 0
channel_bytes (item ∷ rest) = item_bytes item + channel_bytes rest

-- The queue and the batch that its worker is at.
pub record Worker : Type 0 where
  pub records : Records
  pub batch : List QueuedTrace

-- `Records::start_with_sampling`: an empty channel and all of the budget.
unfoldable pub started : ℕ → ℕ → Worker
started queue_max_bytes max_trace_bytes = record {
  records = record {
    channel = [];
    receiver_alive = true;
    queue_budget = queue_max_bytes;
    max_trace_bytes = max_trace_bytes;
    counters = no_counts;
  };
  batch = [];
}

abbrev send_flush : ℕ → Records → Records
send_flush acknowledge r = record r { channel = r.channel ++ (flush acknowledge ∷ []) }

abbrev take_batch : Collected → Worker → Worker
take_batch c w = record { records = record w.records { channel = c.rest }; batch = c.batch }

abbrev give_back : ℕ → List QueuedTrace → Worker → Worker
give_back bytes batch w = record {
  records = record w.records { queue_budget = w.records.queue_budget + bytes };
  batch = batch;
}

abbrev close : Records → Records
close r = record r {
  channel = [];
  receiver_alive = false;
  queue_budget = r.queue_budget + channel_bytes r.channel;
}

-- The steps of the producers and of the worker, in any order. The items of a batch are processed
-- concurrently, so that they end in any order.
pub data Step : Worker → Worker → Type 0 where
  enqueue :
      (event : TraceEvent) (bytes : ℕ) (w : Worker)
      → Step w (record w { records = (try_enqueue event bytes w.records).1 })
  ask :
      (acknowledge : ℕ) (w : Worker)
      → w.records.receiver_alive ≡ true
      → length w.records.channel < trace_queue_records
      → Step w (record w { records = send_flush acknowledge w.records })
  receive :
      (w : Worker) → w.batch ≡ [] → Step w (take_batch (collect batch_limit w.records.channel) w)
  settle :
      (w : Worker) (before after : List QueuedTrace) (queued : QueuedTrace)
      → w.batch ≡ before ++ queued ∷ after
      → Step w (give_back queued.budget (before ++ after) w)
  stop : (w : Worker) → Step w (record w { records = close w.records })

pub data Reach (w : Worker) : Worker → Type 0 where
  here : Reach w w
  next : {u v : Worker} → Reach w u → Step u v → Reach w v

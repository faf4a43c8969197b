-- ===== src/Queue/Refines.antt =====
-- The trace queue as a bounded first-in-first-out queue that counts the bytes of the work it holds,
-- and the permits of `queue_budget` as an implementation of it.
use milk_carton.Base.{
  ℕ, zero, suc, ◌+◌, ◌^◌, ◌≤◌, ◌≡◌, refl, sym, ap, subst, Bool, true, false, Option, none, some,
  List, [], ◌∷◌, ◌++◌, map, length, arith, ltb, not, if◌then◌else◌, Bool-cases, inl, inr,
}
use milk_carton.Trace.{TraceEvent}
use milk_carton.Queue.{
  QueuedTrace, QueueItem, trace, flush, Records, EnqueueResult, queued, queue_full, queue_closed,
  too_large, trace_queue_records, sent, full, closed, try_send, send_trace, try_enqueue,
}
use milk_carton.Queue.Worker.{
  batch_limit, collect, batch_bytes, channel_bytes, Worker, started, Step, enqueue, ask, receive,
  settle, stop, Reach, here, next,
}
use milk_carton.Queue.Budget.{IsSound, collect-bytes, Step-IsSound, started-IsSound, Reach-started}

-- The queue as a user sees it: what waits, what is processed, and whether it takes more.
pub record BoundedQueue : Type 0 where
  pub waiting : List QueueItem
  pub busy : List QueuedTrace
  pub accepting : Bool

-- The bytes of the work that is not done.
unfoldable pub load : BoundedQueue → ℕ
load q = channel_bytes q.waiting + batch_bytes q.busy

unfoldable pub answer : ℕ → ℕ → BoundedQueue → EnqueueResult
answer capacity bytes q =
    if not (ltb bytes (2 ^ 32))
    then too_large
    else if ltb capacity (load q + bytes)
    then queue_full
    else if not q.accepting
    then queue_closed
    else if ltb (length q.waiting) trace_queue_records
    then queued
    else queue_full

-- An event that is taken is the last to wait; one that is refused changes nothing.
unfoldable pub admit : TraceEvent → ℕ → EnqueueResult → BoundedQueue → BoundedQueue
admit event bytes queued q = record q {
  waiting = q.waiting ++ (trace (record { event = event; budget = bytes }) ∷ []);
}
admit event bytes _ q = q

abbrev pub flush_items : Option ℕ → List QueueItem
flush_items none = []
flush_items (some acknowledge) = flush acknowledge ∷ []

pub data Move (capacity : ℕ) : BoundedQueue → BoundedQueue → Type 0 where
  offer :
      (event : TraceEvent) (bytes : ℕ) (q : BoundedQueue)
      → Move capacity q (admit event bytes (answer capacity bytes q) q)
  ask_flush :
      (acknowledge : ℕ) (q : BoundedQueue)
      → Move capacity q (record q { waiting = q.waiting ++ (flush acknowledge ∷ []) })
  -- The oldest items leave in their order, up to a flush.
  serve :
      (q : BoundedQueue) (batch : List QueuedTrace) (ending : Option ℕ) (rest : List QueueItem)
      → q.busy ≡ []
      → q.waiting ≡ map trace batch ++ (flush_items ending ++ rest)
      → length batch ≤ batch_limit
      → Move capacity q (record q { waiting = rest; busy = batch })
  complete :
      (q : BoundedQueue) (before after : List QueuedTrace) (done : QueuedTrace)
      → q.busy ≡ before ++ done ∷ after
      → Move capacity q (record q { busy = before ++ after })
  shut : (q : BoundedQueue) → Move capacity q (record q { waiting = []; accepting = false })

abbrev pub view : Worker → BoundedQueue
view w = record {
  waiting = w.records.channel;
  busy = w.batch;
  accepting = w.records.receiver_alive;
}

-- What is collected is the front of the channel, in its order.
pub collect-append :
    (room : ℕ) (items : List QueueItem)
    → items
      ≡ map trace (collect room items).batch
        ++ (flush_items (collect room items).flush ++ (collect room items).rest)
unfolding collect
collect-append zero items = refl
collect-append (suc room) [] = refl
collect-append (suc room) (trace event ∷ items) =
    ap (λ v. trace event ∷ v) (collect-append room items)
collect-append (suc room) (flush acknowledge ∷ items) = refl

-- A view of what `try_enqueue` returns.
abbrev seen : List QueuedTrace → EnqueueResult × Records → EnqueueResult × BoundedQueue
seen batch p = (p.0, view (record { records = p.1; batch = batch }))

abbrev answered : TraceEvent → ℕ → BoundedQueue → EnqueueResult → EnqueueResult × BoundedQueue
answered event bytes q result = (result, admit event bytes result q)

fits-load :
    (total bytes : ℕ) (w : Worker)
    → IsSound total w
    → ltb total (load (view w) + bytes) ≡ ltb w.records.queue_budget bytes
unfolding load
fits-load total bytes w s = ground (arith, s.budget)

send_trace-answered :
    (event : TraceEvent) (bytes : ℕ) (r : Records) (batch : List QueuedTrace) (alive room : Bool)
    → r.receiver_alive ≡ alive
    → ltb (length r.channel) trace_queue_records ≡ room
    → seen batch
        (send_trace event bytes r (if not alive then closed else if room then sent else full))
      ≡ answered event bytes
          (view (record { records = r; batch = batch }))
          (if not alive then queue_closed else if room then queued else queue_full)
unfolding send_trace admit
send_trace-answered event bytes r batch false room h k = refl
send_trace-answered event bytes r batch true false h k = refl
send_trace-answered event bytes r batch true true h k = refl

-- The permits that are left answer as the bytes that are held.
try_enqueue-answer :
    (total : ℕ) (event : TraceEvent) (bytes : ℕ) (w : Worker)
    → IsSound total w
    → seen w.batch (try_enqueue event bytes w.records)
      ≡ answered event bytes (view w) (answer total bytes (view w))
unfolding try_enqueue answer admit try_send
try_enqueue-answer total event bytes w s = elim (Bool-cases (ltb bytes (2 ^ 32))) [
  | inr large ↦ rw large refl
  | inl small ↦ elim (Bool-cases (ltb w.records.queue_budget bytes)) [
    | inl short ↦ rw (fits-load total bytes w s, small, short) refl
    | inr fits ↦
        rw (fits-load total bytes w s, small, fits)
          (send_trace-answered event bytes w.records w.batch w.records.receiver_alive
            (ltb (length w.records.channel) trace_queue_records) refl refl)
  ]
]

-- Each step of the implementation is a move of the queue.
Step-Move : (total : ℕ) {w v : Worker} → Step w v → IsSound total w → Move total (view w) (view v)
Step-Move total (enqueue event bytes w) s =
    subst (Move total (view w))
      (sym
        (ap (λ (p : EnqueueResult × BoundedQueue). p.1) (try_enqueue-answer total event bytes w s)))
      (offer event bytes (view w))
Step-Move total (ask acknowledge w alive room) s = ask_flush acknowledge (view w)
Step-Move total (receive w empty) s =
    let c = collect batch_limit w.records.channel in
    serve (view w) c.batch c.flush c.rest empty (collect-append batch_limit w.records.channel)
      (collect-bytes batch_limit w.records.channel).1
Step-Move total (settle w before after done e) s = complete (view w) before after done e
Step-Move total (stop w) s = shut (view w)

pub data Moves (capacity : ℕ) (q : BoundedQueue) : BoundedQueue → Type 0 where
  none_made : Moves capacity q q
  then_move : {p r : BoundedQueue} → Moves capacity q p → Move capacity p r → Moves capacity q r

-- The queue with its permits refines the bounded queue: whatever its producers and its worker do is a
-- run of the bounded queue whose capacity is the budget, from the empty queue.
pub Reach-Moves :
    (total limit : ℕ) {w : Worker}
    → Reach (started total limit) w
    → Moves total (record { waiting = []; busy = []; accepting = true }) (view w)
unfolding started
Reach-Moves total limit r = (refined r (started-IsSound total limit)).0
  where
    refined :
        {w v : Worker}
        → Reach w v
        → IsSound total w
        → Moves total (view w) (view v) × IsSound total v
    refined here s = (none_made, s)
    refined (next before st) s =
        let (m, s') = refined before s in
        (then_move m (Step-Move total st s'), Step-IsSound total st s')

-- An event is taken just when the bounded queue has room for it, whatever happened before.
pub try_enqueue-queued :
    (total limit : ℕ) (event : TraceEvent) (bytes : ℕ) {w : Worker}
    → Reach (started total limit) w
    → (try_enqueue event bytes w.records).0 ≡ answer total bytes (view w)
try_enqueue-queued total limit event bytes {w} r =
    ap (λ (p : EnqueueResult × BoundedQueue). p.0)
      (try_enqueue-answer total event bytes w (Reach-started total limit r))

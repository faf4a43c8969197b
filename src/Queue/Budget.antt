-- ===== src/Queue/Budget.antt =====
-- The budget of the trace queue: no permit is lost or made.
use milk_carton.Base.{
  ℕ, zero, suc, ◌+◌, ◌^◌, ◌≤◌, ◌<◌, ◌≡◌, refl, ap, ◌∙◌, List, [], ◌∷◌, ◌++◌, length, arith, ltb,
  not, length-append, if-either,
}
use milk_carton.Trace.{TraceEvent}
use milk_carton.Queue.{
  QueuedTrace, QueueItem, trace, flush, Records, EnqueueResult, trace_queue_records, SendOutcome,
  sent, full, closed, try_send, send_trace, try_enqueue,
}
use milk_carton.Queue.Worker.{
  batch_limit, collect, batch_bytes, item_bytes, channel_bytes, Worker, started, Step, enqueue, ask,
  receive, settle, stop, Reach, here, next,
}

-- Every permit of the budget is free, in the channel or in the batch, and both are bounded.
pub record IsSound (total : ℕ) (w : Worker) : Type 0 where
  pub budget :
      w.records.queue_budget + channel_bytes w.records.channel + batch_bytes w.batch ≡ total
  pub channel_bounded : length w.records.channel ≤ trace_queue_records
  pub batch_bounded : length w.batch ≤ batch_limit

channel_bytes-append :
    (xs ys : List QueueItem) → channel_bytes (xs ++ ys) ≡ channel_bytes xs + channel_bytes ys
unfolding channel_bytes
channel_bytes-append [] ys = omega arith
channel_bytes-append (x ∷ xs) ys = omega (arith, channel_bytes-append xs ys)

batch_bytes-append :
    (xs ys : List QueuedTrace) → batch_bytes (xs ++ ys) ≡ batch_bytes xs + batch_bytes ys
unfolding batch_bytes
batch_bytes-append [] ys = omega arith
batch_bytes-append (x ∷ xs) ys = omega (arith, batch_bytes-append xs ys)

-- What is collected had its permits and its order in the channel.
pub collect-bytes :
    (room : ℕ) (items : List QueueItem)
    → (batch_bytes (collect room items).batch + channel_bytes (collect room items).rest
        ≡ channel_bytes items)
      × (length (collect room items).batch ≤ room)
      × (length (collect room items).rest ≤ length items)
unfolding collect batch_bytes channel_bytes item_bytes
collect-bytes zero items = (omega arith, omega arith, omega arith)
collect-bytes (suc room) [] = (omega arith, omega arith, omega arith)
collect-bytes (suc room) (trace queued ∷ items) =
    let (b, l, r) = collect-bytes room items in
    (omega (arith, b), omega (arith, l), omega (arith, r))
collect-bytes (suc room) (flush acknowledge ∷ items) = (omega arith, omega arith, omega arith)

try_send-room : (r : Records) → try_send r ≡ sent → length r.channel < trace_queue_records
unfolding try_send
try_send-room r e = ground arith

-- The parts of the queue that an enqueueing changes.
record Enqueued (bytes : ℕ) (r r' : Records) : Type 0 where
  balance : r'.queue_budget + channel_bytes r'.channel ≡ r.queue_budget + channel_bytes r.channel
  bounded : length r.channel ≤ trace_queue_records → length r'.channel ≤ trace_queue_records

send_trace-Enqueued :
    (event : TraceEvent) (bytes : ℕ) (r : Records) (outcome : SendOutcome)
    → bytes ≤ r.queue_budget
    → try_send r ≡ outcome
    → Enqueued bytes r (send_trace event bytes r outcome).1
unfolding send_trace try_send channel_bytes item_bytes
send_trace-Enqueued event bytes r sent fits e =
    let last = trace (record { event = event; budget = bytes }) in
    record {
      balance = omega (arith, channel_bytes-append r.channel (last ∷ []));
      bounded = λ b. omega (arith, try_send-room r e, length-append r.channel (last ∷ []));
    }
send_trace-Enqueued event bytes r full fits e = record { balance = refl; bounded = λ b. b }
send_trace-Enqueued event bytes r closed fits e = record { balance = refl; bounded = λ b. b }

try_enqueue-Enqueued :
    (event : TraceEvent) (bytes : ℕ) (r : Records) → Enqueued bytes r (try_enqueue event bytes r).1
unfolding try_enqueue
try_enqueue-Enqueued event bytes r =
    if-either (λ (p : EnqueueResult × Records). Enqueued bytes r p.1) (not (ltb bytes (2 ^ 32))) _ _
      (λ h. record { balance = refl; bounded = λ b. b })
      (λ h.
        if-either (λ (p : EnqueueResult × Records). Enqueued bytes r p.1) (ltb r.queue_budget bytes)
          _ _ (λ k. record { balance = refl; bounded = λ b. b })
          (λ k. send_trace-Enqueued event bytes r (try_send r) (ground arith) refl))

pub Step-IsSound : (total : ℕ) {w v : Worker} → Step w v → IsSound total w → IsSound total v
unfolding channel_bytes item_bytes batch_bytes
Step-IsSound total (enqueue event bytes w) s =
    let e = try_enqueue-Enqueued event bytes w.records in
    record {
      budget = omega (arith, e.balance, s.budget);
      channel_bounded = e.bounded s.channel_bounded;
      batch_bounded = s.batch_bounded;
    }
Step-IsSound total (ask acknowledge w alive room) s =
    let last = flush acknowledge ∷ [] in
    record {
      budget = omega (arith, channel_bytes-append w.records.channel last, s.budget);
      channel_bounded = omega (arith, length-append w.records.channel last, room);
      batch_bounded = s.batch_bounded;
    }
Step-IsSound total (receive w empty) s =
    let (b, l, r) = collect-bytes batch_limit w.records.channel in
    let none_held = ap batch_bytes empty in
    record {
      budget = omega (arith, b, none_held, s.budget);
      channel_bounded = omega (arith, r, s.channel_bounded);
      batch_bounded = l;
    }
Step-IsSound total (settle w before after queued e) s =
    let all_held = ap batch_bytes e ∙ batch_bytes-append before (queued ∷ after) in
    let count = ap (λ (v : List QueuedTrace). length v) e ∙ length-append before (queued ∷ after) in
    record {
      budget = omega (arith, all_held, batch_bytes-append before after, s.budget);
      channel_bounded = s.channel_bounded;
      batch_bounded = omega (arith, count, length-append before after, s.batch_bounded);
    }
Step-IsSound total (stop w) s = record {
  budget = omega (arith, s.budget);
  channel_bounded = omega arith;
  batch_bounded = s.batch_bounded;
}

pub started-IsSound : (total limit : ℕ) → IsSound total (started total limit)
unfolding started channel_bytes batch_bytes
started-IsSound total limit = record {
  budget = omega arith;
  channel_bounded = omega arith;
  batch_bounded = omega arith;
}

Reach-IsSound : (total : ℕ) {w v : Worker} → Reach w v → IsSound total w → IsSound total v
Reach-IsSound total here s = s
Reach-IsSound total (next r st) s = Step-IsSound total st (Reach-IsSound total r s)

-- However the producers and the worker take turns, the free permits with those that the queued and
-- the collected items hold are the whole budget, and the channel and the batch keep their bounds.
pub Reach-started : (total limit : ℕ) {w : Worker} → Reach (started total limit) w → IsSound total w
Reach-started total limit r = Reach-IsSound total r (started-IsSound total limit)

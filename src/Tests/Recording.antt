-- ===== src/Tests/Recording.antt =====
-- A recorded stream whose terminal marker is cut, and a queue that is nearly full.
use milk_carton.Base.{
  ℕ, ◌+◌, ◌*◌, ◌≤◌, ◌≡◌, ◌↔◌, refl, Bool, true, false, Option, none, some, List, [], ◌∷◌, ◌++◌,
  Bytes, codes, length, arith,
}
use milk_carton.Route.Types.{chat_completions}
use milk_carton.Trace.{Allocator, TraceEvent, observation}
use milk_carton.Stats.Values.{TraceCatalog, CaptureState}
use milk_carton.Queue.{QueueItem, trace, flush, Records, no_counts, try_enqueue}
use milk_carton.Queue.Worker.{Collected, Worker, started, enqueue, Reach, here, next}
use milk_carton.Queue.Budget.{IsSound, Reach-started}
use milk_carton.Queue.Refines.{Moves, view, answer, Reach-Moves, try_enqueue-queued}
use milk_carton.Queue.Rounds.{run_rounds, processed, traces_of, run_rounds-traces_of}
use milk_carton.Recorder.{TraceRecorder, markers}
use milk_carton.Recorder.Body.{Poll, chunk, ended, pending, respond_with}
use milk_carton.Recorder.Markers.{AnyOccurs}
use milk_carton.Recorder.Terminal.{terminal_in}
use milk_carton.Recorder.Stream.{observe_all, joined}
use milk_carton.Recorder.Ends.{chunks_of, ending_of}
use milk_carton.Recorder.Report.{Reported, expected_catalog, expected_class}
use milk_carton.Recorder.Reported.{
  IsFresh, terminal_seen-AnyOccurs, respond_with-Reported, observe_all-response_limit,
}
use milk_carton.Tests.Statistics.{plain}

-- Buffers that allocate what they hold.
abbrev pub heap : Allocator
heap = record { capacity = λ v. length v; try_reserve = λ v n. some (length v + n) }

abbrev catalog : TraceCatalog
catalog = record plain { response_bytes = 0; capture_eligible = true; capture_selected = true }

abbrev recorder : TraceRecorder
recorder = record {
  catalog = some catalog;
  first_byte = none;
  request = some (codes "{}");
  request_content_type = none;
  request_content_encoding = none;
  response = [];
  response_content_type = none;
  response_content_encoding = none;
  response_limit = 100;
  record_limit = 10_000;
  selected = true;
  oversized = false;
  stream_protocol = some chat_completions;
  stream_terminal_seen = false;
  stream_terminal_tail = [];
}

recorder-IsFresh : IsFresh recorder
recorder-IsFresh = record {
  first_byte = refl;
  response = refl;
  oversized = refl;
  seen = refl;
  tail = refl;
  catalog = refl;
}

abbrev chunks : List (ℕ × Bytes)
chunks = (5, codes "a data: [DO") ∷ (6, []) ∷ (7, codes "NE] b") ∷ []

seen_across : (observe_all heap chunks recorder).stream_terminal_seen ≡ true
unfolding observe_all milk_carton.Recorder.observe milk_carton.Recorder.observe_stream_terminal
    milk_carton.Recorder.scan milk_carton.Recorder.markers milk_carton.Recorder.any_marker
    milk_carton.Recorder.next_tail milk_carton.Recorder.tail_limit
    milk_carton.Recorder.Search.contains_bytes milk_carton.Recorder.keep_bytes
    milk_carton.Recorder.keep_reserved milk_carton.Recorder.capture_memory_bytes
    milk_carton.Trace.catalog_bytes milk_carton.Base.list_eq
seen_across = refl

terminal_seen-AnyOccurs_example :
    ((observe_all heap chunks recorder).stream_terminal_seen ≡ true)
    ↔ AnyOccurs (markers chat_completions) (joined chunks)
terminal_seen-AnyOccurs_example =
    terminal_seen-AnyOccurs heap recorder chat_completions chunks recorder-IsFresh refl

observe_all-response_limit_example : length (observe_all heap chunks recorder).response ≤ 100
observe_all-response_limit_example =
    observe_all-response_limit heap recorder chunks recorder-IsFresh

abbrev records : Records
records = record {
  channel = [];
  receiver_alive = true;
  queue_budget = 4_000;
  max_trace_bytes = 3_000;
  counters = no_counts;
}

abbrev polls : List Poll
polls =
    chunk 5 (codes "a data: [DO")
    ∷ pending
    ∷ chunk 7 (codes "NE] b")
    ∷ ended 9
    ∷ chunk 10 (codes "late")
    ∷ []

abbrev class : Option Bytes
class =
    expected_class (ending_of polls 11) (codes "upstream_stream") (some chat_completions)
      (terminal_in (some chat_completions) (joined (chunks_of polls)))

respond_with-Reported_example :
    (records' : Records) × ((respond_with heap polls 11
        (record {
          stream_error_class = codes "upstream_stream";
          candidate_health = none;
          recorder = some recorder;
        })
        (some records)).2
      ≡ some records')
    × Reported heap recorder
        (expected_catalog (ending_of polls 11) class (chunks_of polls) catalog)
        class
        (joined (chunks_of polls))
        records
        records'
respond_with-Reported_example =
    respond_with-Reported heap recorder catalog polls 11 (codes "upstream_stream") none records
      recorder-IsFresh refl

-- Two events and a flush, the second event too much for the budget, and the worker's first round.
abbrev event : TraceEvent
event = observation catalog CaptureState.interrupted

abbrev first_sent : Worker
first_sent = record (started 4_000 3_000) { records = (try_enqueue event 2_500 records).1 }

abbrev second_refused : Worker
second_refused = record first_sent { records = (try_enqueue event 2_500 first_sent.records).1 }

busy : Reach (started 4_000 3_000) second_refused
unfolding started
busy = next (next here (enqueue event 2_500 (started 4_000 3_000))) (enqueue event 2_500 first_sent)

Reach-started_example : IsSound 4_000 second_refused
Reach-started_example = Reach-started 4_000 3_000 busy

Reach-Moves_example :
    Moves 4_000 (record { waiting = []; busy = []; accepting = true }) (view second_refused)
Reach-Moves_example = Reach-Moves 4_000 3_000 busy

try_enqueue-queued_example :
    (try_enqueue event 1_500 second_refused.records).0 ≡ answer 4_000 1_500 (view second_refused)
try_enqueue-queued_example = try_enqueue-queued 4_000 3_000 event 1_500 busy

abbrev sent_items : List QueueItem
sent_items =
    trace (record { event = event; budget = 10 })
    ∷ flush 1
    ∷ trace (record { event = event; budget = 20 })
    ∷ []

run_rounds-traces_of_example :
    (rounds : List Collected) × (run_rounds 3 sent_items ≡ some rounds)
    × (processed rounds ≡ traces_of sent_items)
run_rounds-traces_of_example = run_rounds-traces_of 3 sent_items (omega arith)

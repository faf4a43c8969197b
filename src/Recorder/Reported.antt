-- ===== src/Recorder/Reported.antt =====
-- What is recorded of a streamed response, from the recorder that it began with and the whole stream.
use milk_carton.Base.{
  ℕ, ◌-◌, ◌≤◌, ◌≡◌, ◌↔◌, inl, inr, refl, sym, ap, ◌∙◌, subst, Bool, true, false, Option, none, some,
  List, [], Bytes, length, drop, arith,
}
use milk_carton.Route.Types.{RouteEndpoint}
use milk_carton.Stats.Counts.{sat_add}
use milk_carton.Stats.Values.{TraceCatalog}
use milk_carton.Trace.{Allocator}
use milk_carton.Queue.{Records}
use milk_carton.Recorder.{TraceRecorder, markers, tail_limit, count_bytes}
use milk_carton.Recorder.Body.{
  Poll, replace_class, final_class, record_end, finish_taken, ended_catalog, finish, respond_with,
}
use milk_carton.Recorder.Chunk.{Holds, nothing, bodies}
use milk_carton.Recorder.Markers.{AnyOccurs}
use milk_carton.Recorder.Terminal.{Scanned, nothing_occurs, terminal_in, Scans, seen-terminal_in}
use milk_carton.Recorder.Stream.{Tracks, observe_all, joined, first_byte_of, observe_all-Tracks}
use milk_carton.Recorder.Ends.{
  Ending, at_failure, at_end, at_drop, chunks_of, ending_of, time_of, given_class, finish_at,
  respond_with-finish_at,
}
use milk_carton.Recorder.Report.{expected_class, expected_catalog, Reported, record_end-Reported}

-- The recorder as `proxy_openai` makes it, before the first chunk.
pub record IsFresh (r : TraceRecorder) : Type 0 where
  pub first_byte : r.first_byte ≡ none
  pub response : r.response ≡ []
  pub oversized : r.oversized ≡ false
  pub seen : r.stream_terminal_seen ≡ false
  pub tail : r.stream_terminal_tail ≡ []
  pub catalog : r.catalog ≡ count_bytes 0 r.catalog

fresh-Scans :
    (protocol : Option RouteEndpoint) (r : TraceRecorder) → IsFresh r → Scans protocol [] r
fresh-Scans none r fresh = fresh.seen
fresh-Scans (some endpoint) r fresh = inr (
  fresh.seen,
  nothing_occurs endpoint,
  fresh.tail ∙ sym (none_left (tail_limit (markers endpoint))),
)
  where
    none_left : (n : ℕ) → drop {A = ℕ} (0 - n) [] ≡ []
    none_left n = let e : 0 - n ≡ 0 = omega arith in rw e refl

fresh-Tracks : (r : TraceRecorder) → IsFresh r → Tracks r [] none r
fresh-Tracks r fresh = (
  (refl, refl, refl, fresh.first_byte, fresh.catalog, fresh-Scans r.stream_protocol r fresh),
  bodies fresh.oversized refl refl refl refl refl (λ selected. fresh.response)
      (omega (arith, ap (λ (v : Bytes). length v) fresh.response)),
)

Tracks-chunks :
    (heap : Allocator) (r : TraceRecorder) (chunks : List (ℕ × Bytes))
    → IsFresh r
    → Tracks r (joined chunks) (first_byte_of chunks none) (observe_all heap chunks r)
Tracks-chunks heap r chunks fresh =
    observe_all-Tracks heap r chunks [] none r (fresh-Tracks r fresh)

-- The terminal marker is seen just when one of the endpoint's markers is a part of the stream, however
-- the stream is cut into chunks.
pub terminal_seen-AnyOccurs :
    (heap : Allocator) (r : TraceRecorder) (endpoint : RouteEndpoint) (chunks : List (ℕ × Bytes))
    → IsFresh r
    → r.stream_protocol ≡ some endpoint
    → ((observe_all heap chunks r).stream_terminal_seen ≡ true)
      ↔ AnyOccurs (markers endpoint) (joined chunks)
terminal_seen-AnyOccurs heap r endpoint chunks fresh e = of_scanned (
    subst (λ protocol. Scans protocol (joined chunks) (observe_all heap chunks r)) e
      (Tracks-chunks heap r chunks fresh).0.5)
  where
    of_scanned :
        Scanned (markers endpoint) (joined chunks) (observe_all heap chunks r)
        → ((observe_all heap chunks r).stream_terminal_seen ≡ true)
          ↔ AnyOccurs (markers endpoint) (joined chunks)
    of_scanned (inl (found, occurs)) = (λ h. occurs, λ h. found)
    of_scanned (inr (unseen, absent, tail)) = (λ h. absurd cc, λ h. absurd (absent h))

final_class-given_class :
    (ending : Ending) (class : Bytes) (protocol : Option RouteEndpoint) (seen : Bool)
    → final_class (given_class ending class seen) protocol seen
      ≡ expected_class ending class protocol seen
unfolding given_class expected_class
final_class-given_class (at_failure elapsed) class protocol seen = refl
final_class-given_class (at_end elapsed) class protocol seen = refl
final_class-given_class (at_drop elapsed) class protocol false = refl
final_class-given_class (at_drop elapsed) class none true = refl
final_class-given_class (at_drop elapsed) class (some endpoint) true = refl

finish-record_end :
    (heap : Allocator) (elapsed : ℕ) (class : Option Bytes) (r : TraceRecorder)
    (catalog : TraceCatalog) (records : Records)
    → r.catalog ≡ some catalog
    → (finish heap elapsed class r (some records)).1
      ≡ some
          (record_end heap
            (final_class class r.stream_protocol r.stream_terminal_seen)
            (record r { catalog = none })
            (ended_catalog elapsed
              (final_class class r.stream_protocol r.stream_terminal_seen)
              (record r { catalog = none })
              catalog)
            records).1
unfolding finish
finish-record_end heap elapsed class r catalog records e =
    ap (λ c. (finish_taken heap elapsed class r c (some records)).1) e

taken-Holds :
    (start : TraceRecorder) (stream : Bytes) (r : TraceRecorder)
    → Holds start stream r
    → Holds start stream (record r { catalog = none })
taken-Holds start stream r (nothing c o q p) = nothing c o q p
taken-Holds start stream r (bodies o q a b c d p m) = bodies o q a b c d p m

ended_catalog-expected_catalog :
    (ending : Ending) (class : Option Bytes) (chunks : List (ℕ × Bytes)) (r : TraceRecorder)
    (catalog : TraceCatalog)
    → r.first_byte ≡ first_byte_of chunks none
    → ended_catalog (time_of ending) class r (record catalog {
      response_bytes = sat_add catalog.response_bytes (length (joined chunks));
    })
      ≡ expected_catalog ending class chunks catalog
unfolding ended_catalog expected_catalog
ended_catalog-expected_catalog ending class chunks r catalog e =
    ap
      (λ t. record catalog {
        response_bytes = sat_add catalog.response_bytes (length (joined chunks));
        ttft_ms = t;
        completion_ms = some (time_of ending);
        error_class = replace_class class catalog.error_class;
      })
      e

-- One event is enqueued for the response: with the class and the catalog that its end and its whole
-- stream determine, and with the bodies only when they are whole.
pub respond_with-Reported :
    (heap : Allocator) (r : TraceRecorder) (catalog : TraceCatalog) (polls : List Poll)
    (dropped : ℕ) (error : Bytes) (health : Option Bool) (records : Records)
    → IsFresh r
    → r.catalog ≡ some catalog
    → (records' : Records) × ((respond_with heap polls dropped
          (record { stream_error_class = error; candidate_health = health; recorder = some r })
          (some records)).2
        ≡ some records')
      × Reported heap r
          (expected_catalog
            (ending_of polls dropped)
            (expected_class
              (ending_of polls dropped)
              error
              r.stream_protocol
              (terminal_in r.stream_protocol (joined (chunks_of polls))))
            (chunks_of polls)
            catalog)
          (expected_class
            (ending_of polls dropped)
            error
            r.stream_protocol
            (terminal_in r.stream_protocol (joined (chunks_of polls))))
          (joined (chunks_of polls))
          records
          records'
unfolding finish_at
respond_with-Reported heap r catalog polls dropped error health records fresh e =
    let ending = ending_of polls dropped in
    let chunks = chunks_of polls in
    let end = observe_all heap chunks r in
    let (k, h) = Tracks-chunks heap r chunks fresh in
    let given = given_class ending error end.stream_terminal_seen in
    let counted = k.4 ∙ ap (count_bytes (length (joined chunks))) e in
    let counted_catalog : TraceCatalog = record catalog {
      response_bytes = sat_add catalog.response_bytes (length (joined chunks));
    } in
    let class = final_class given end.stream_protocol end.stream_terminal_seen in
    let class_as_expected =
      final_class-given_class ending error end.stream_protocol end.stream_terminal_seen
      ∙ ap (λ seen. expected_class ending error end.stream_protocol seen)
          (seen-terminal_in r.stream_protocol (joined chunks) end k.5)
      ∙ ap
          (λ protocol.
            expected_class ending error protocol (terminal_in r.stream_protocol (joined chunks)))
          k.0 in
    let catalog_as_expected =
      ended_catalog-expected_catalog ending class chunks (record end { catalog = none }) catalog
        k.3 in
    let taken : TraceRecorder = record end { catalog = none } in
    let final =
      (record_end heap class taken (ended_catalog (time_of ending) class taken counted_catalog)
        records).1 in
    (
      final,
      respond_with-finish_at heap polls dropped error health r (some records)
          ∙ finish-record_end heap (time_of ending) given end counted_catalog records counted,
      subst
          (λ c.
            Reported heap r (expected_catalog ending c chunks catalog) c (joined chunks) records
              final)
          class_as_expected
          (subst (λ c. Reported heap r c class (joined chunks) records final) catalog_as_expected
            (record_end-Reported heap r taken
              (ended_catalog (time_of ending) class taken counted_catalog) class (joined chunks)
              records k.1 (taken-Holds r (joined chunks) end h))),
    )

-- The recorder never holds more of the response than the response limit.
pub observe_all-response_limit :
    (heap : Allocator) (r : TraceRecorder) (chunks : List (ℕ × Bytes))
    → IsFresh r
    → length (observe_all heap chunks r).response ≤ r.response_limit
observe_all-response_limit heap r chunks fresh = held (Tracks-chunks heap r chunks fresh).1
  where
    held :
        Holds r (joined chunks) (observe_all heap chunks r)
        → length (observe_all heap chunks r).response ≤ r.response_limit
    held (nothing c o q p) = omega (arith, ap (λ (v : Bytes). length v) p)
    held (bodies o q a b c d p m) = m

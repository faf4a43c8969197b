-- ===== src/Recorder/Report.antt =====
-- The event that the end of a recorded response hands to the queue, and the catalog that it has.
use milk_carton.Base.{
  ℕ, ◌≤◌, ◌≡◌, refl, sym, ap, Bool, true, false, ◌&&◌, not, Option, none, some, List, Bytes, codes,
  length, arith, if◌then◌else◌,
}
use milk_carton.Route.Types.{RouteEndpoint}
use milk_carton.Route.Url.{is_some}
use milk_carton.Stats.Counts.{sat_add}
use milk_carton.Stats.Values.{TraceCatalog, CaptureState}
use milk_carton.Trace.{Allocator, TraceCapture}
use milk_carton.Queue.{Records, try_observe, try_capture}
use milk_carton.Recorder.{TraceRecorder}
use milk_carton.Recorder.Body.{replace_class, or_empty, record_whole, record_end}
use milk_carton.Recorder.Chunk.{Holds, nothing, bodies}
use milk_carton.Recorder.Stream.{joined, first_byte_of}
use milk_carton.Recorder.Ends.{Ending, at_failure, at_end, at_drop, time_of}

-- The error class that the recorded catalog is given: a failed stream, a client that left before the
-- terminal marker, or a stream that ended without one.
unfoldable pub expected_class : Ending → Bytes → Option RouteEndpoint → Bool → Option Bytes
expected_class (at_failure elapsed) class protocol complete = some class
expected_class (at_end elapsed) class protocol complete =
    if is_some protocol && not complete then some (codes "upstream_stream_incomplete") else none
expected_class (at_drop elapsed) class protocol complete =
    if complete then none else some (codes "downstream_disconnected")

unfoldable pub expected_catalog :
    Ending → Option Bytes → List (ℕ × Bytes) → TraceCatalog → TraceCatalog
expected_catalog ending class chunks catalog = record catalog {
  response_bytes = sat_add catalog.response_bytes (length (joined chunks));
  ttft_ms = first_byte_of chunks none;
  completion_ms = some (time_of ending);
  error_class = replace_class class catalog.error_class;
}

abbrev whole_capture : TraceRecorder → TraceCatalog → Bytes → TraceCapture
whole_capture r catalog response = record {
  catalog = catalog;
  request_content_type = r.request_content_type;
  request_content_encoding = r.request_content_encoding;
  request = or_empty r.request;
  response_content_type = r.response_content_type;
  response_content_encoding = r.response_content_encoding;
  response = response;
}

-- The one event that is recorded, by what became of the response.
pub data Reported (heap : Allocator) (r : TraceRecorder) (catalog : TraceCatalog)
    (class : Option Bytes) (stream : Bytes) (records records' : Records) : Type 0 where
  interrupted :
      (error : Bytes)
      → class ≡ some error
      → records' ≡ (try_observe heap catalog CaptureState.interrupted records).1
      → Reported heap r catalog class stream records records'
  unselected :
      class ≡ none
      → r.selected ≡ false
      → records' ≡ (try_observe heap catalog CaptureState.not_selected records).1
      → Reported heap r catalog class stream records records'
  too_large :
      class ≡ none
      → r.selected ≡ true
      → records' ≡ (try_observe heap catalog CaptureState.oversized records).1
      → Reported heap r catalog class stream records records'
  whole :
      class ≡ none
      → r.selected ≡ true
      → length stream ≤ r.response_limit
      → records' ≡ (try_capture heap (whole_capture r catalog stream) records).1
      → Reported heap r catalog class stream records records'

record_whole-Reported :
    (heap : Allocator) (start r : TraceRecorder) (catalog : TraceCatalog) (stream : Bytes)
    (records : Records) (oversized selected : Bool)
    → r.oversized ≡ oversized
    → start.selected ≡ selected
    → Holds start stream r
    → Reported heap start catalog none stream records
        (record_whole heap oversized selected r catalog records).1
unfolding record_whole
record_whole-Reported heap start r catalog stream records true selected o s (nothing c o' q p) =
    too_large refl c refl
record_whole-Reported heap start r catalog stream records true selected o s
      (bodies o' q a b c d p m) =
    absurd cc
record_whole-Reported heap start r catalog stream records false selected o s (nothing c o' q p) =
    absurd cc
record_whole-Reported heap start r catalog stream records false false o s
      (bodies o' q a b c d p m) =
    unselected refl s refl
record_whole-Reported heap start r catalog stream records false true o s (bodies o' q a b c d p m) =
    let whole_stream = p s in
    whole refl s (omega (arith, m, ap (λ (v : Bytes). length v) whole_stream)) cc

pub record_end-Reported :
    (heap : Allocator) (start r : TraceRecorder) (catalog : TraceCatalog) (class : Option Bytes)
    (stream : Bytes) (records : Records)
    → r.selected ≡ start.selected
    → Holds start stream r
    → Reported heap start catalog class stream records (record_end heap class r catalog records).1
unfolding record_end
record_end-Reported heap start r catalog (some class) stream records s h =
    interrupted class refl refl
record_end-Reported heap start r catalog none stream records s h =
    record_whole-Reported heap start r catalog stream records r.oversized r.selected refl (sym s) h

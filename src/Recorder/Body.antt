-- ===== src/Recorder/Body.antt =====
-- `TraceRecorder::finish`, `UpstreamBody::poll_next` and its `Drop`, of main.rs. The polls of the
-- provider's stream are the input; each carries the time at which the recorder reads the clock. The
-- permits that a body holds are fields without code.
use milk_carton.Base.{
  ℕ, Bool, true, false, ◌&&◌, not, Option, none, some, List, [], ◌∷◌, Bytes, codes, if◌then◌else◌,
}
use milk_carton.Route.Types.{RouteEndpoint}
use milk_carton.Route.Url.{is_some}
use milk_carton.Stats.Values.{TraceCatalog, CaptureState}
use milk_carton.Trace.{Allocator, TraceCapture}
use milk_carton.Queue.{Records, try_observe, try_capture}
use milk_carton.Recorder.{TraceRecorder, observe}

-- `unwrap_or_default`
abbrev pub or_empty : Option Bytes → Bytes
or_empty none = []
or_empty (some bytes) = bytes

-- `error_class.or_else`, by the protocol of the stream and whether its terminal marker was seen.
abbrev pub final_class : Option Bytes → Option RouteEndpoint → Bool → Option Bytes
final_class (some class) protocol seen = some class
final_class none protocol seen =
    if is_some protocol && not seen then some (codes "upstream_stream_incomplete") else none

-- `if let Some(error_class)` replaces the class that the catalog has.
abbrev pub replace_class : Option Bytes → Option Bytes → Option Bytes
replace_class none old = old
replace_class (some class) old = some class

-- The catalog at the end of the response.
unfoldable pub ended_catalog : ℕ → Option Bytes → TraceRecorder → TraceCatalog → TraceCatalog
ended_catalog elapsed class r catalog = record catalog {
  ttft_ms = r.first_byte;
  completion_ms = some elapsed;
  error_class = replace_class class catalog.error_class;
}

abbrev pub captured : TraceRecorder → TraceCatalog → TraceCapture
captured r catalog = record {
  catalog = catalog;
  request_content_type = r.request_content_type;
  request_content_encoding = r.request_content_encoding;
  request = or_empty r.request;
  response_content_type = r.response_content_type;
  response_content_encoding = r.response_content_encoding;
  response = r.response;
}

-- What the capture takes out of the recorder.
abbrev emptied : TraceRecorder → TraceRecorder
emptied r = record r {
  request_content_type = none;
  request_content_encoding = none;
  request = none;
  response_content_type = none;
  response_content_encoding = none;
  response = [];
}

pub data Poll : Type 0 where
  chunk : ℕ → Bytes → Poll
  failed : ℕ → Poll
  ended : ℕ → Poll
  pending : Poll

pub data Item : Type 0 where
  bytes : Bytes → Item
  bad_gateway : Item
  no_more : Item
  not_ready : Item

-- `candidate_health` is the flag that the body shares with the candidate's transport.
pub record UpstreamBody : Type 0 where
  pub stream_error_class : Bytes
  pub candidate_health : Option Bool
  pub recorder : Option TraceRecorder

abbrev unhealthy : Option Bool → Option Bool
unhealthy none = none
unhealthy (some flag) = some false

abbrev pub disconnected : Bool → Option Bytes
disconnected seen = if seen then none else some (codes "downstream_disconnected")

module _ (heap : Allocator) where
  -- What `finish` enqueues without an error class, by `oversized` and `selected`; the result is only
  -- logged.
  unfoldable pub record_whole :
      Bool → Bool → TraceRecorder → TraceCatalog → Records → TraceRecorder × Records
  record_whole true selected r catalog records =
      (r, (try_observe heap catalog CaptureState.oversized records).1)
  record_whole false true r catalog records =
      (emptied r, (try_capture heap (captured r catalog) records).1)
  record_whole false false r catalog records =
      (r, (try_observe heap catalog CaptureState.not_selected records).1)

  unfoldable pub record_end :
      Option Bytes → TraceRecorder → TraceCatalog → Records → TraceRecorder × Records
  record_end (some class) r catalog records =
      (r, (try_observe heap catalog CaptureState.interrupted records).1)
  record_end none r catalog records = record_whole r.oversized r.selected r catalog records

  -- The recorder without its catalog, that `finish` has taken.
  abbrev pub finish_records :
      ℕ
      → Option Bytes
      → TraceRecorder
      → TraceCatalog
      → Option Records
      → TraceRecorder × Option Records
  finish_records elapsed class r catalog none = (r, none)
  finish_records elapsed class r catalog (some records) =
      let done = record_end class r (ended_catalog elapsed class r catalog) records in
      (done.0, some done.1)

  abbrev pub finish_taken :
      ℕ
      → Option Bytes
      → TraceRecorder
      → Option TraceCatalog
      → Option Records
      → TraceRecorder × Option Records
  finish_taken elapsed class r none records = (r, records)
  finish_taken elapsed class r (some catalog) records =
      finish_records elapsed (final_class class r.stream_protocol r.stream_terminal_seen)
        (record r { catalog = none }) catalog records

  unfoldable pub finish :
      ℕ → Option Bytes → TraceRecorder → Option Records → TraceRecorder × Option Records
  finish elapsed class r records = finish_taken elapsed class r r.catalog records

  -- `if let Some(recorder) = self.recorder.as_mut()`
  unfoldable pub observe_some : ℕ → Bytes → Option TraceRecorder → Option TraceRecorder
  unfolding observe
  observe_some elapsed b none = none
  observe_some elapsed b (some r) = some (observe heap elapsed b r)

  unfoldable pub finish_some :
      ℕ
      → Option Bytes
      → Option TraceRecorder
      → Option Records
      → Option TraceRecorder × Option Records
  unfolding finish
  finish_some elapsed class none records = (none, records)
  finish_some elapsed class (some r) records =
      let done = finish elapsed class r records in (some done.0, done.1)

  unfoldable pub poll_next :
      Poll → UpstreamBody → Option Records → Item × UpstreamBody × Option Records
  unfolding observe_some finish_some
  poll_next (chunk elapsed b) body records =
      (bytes b, record body { recorder = observe_some elapsed b body.recorder }, records)
  poll_next (failed elapsed) body records =
      let done = finish_some elapsed (some body.stream_error_class) body.recorder records in
      (
        bad_gateway,
        record body { candidate_health = unhealthy body.candidate_health; recorder = done.0 },
        done.1,
      )
  poll_next (ended elapsed) body records =
      let done = finish_some elapsed none body.recorder records in
      (no_more, record body { recorder = done.0 }, done.1)
  poll_next pending body records = (not_ready, body, records)

  -- `Drop for UpstreamBody`
  unfoldable pub drop_recorder : ℕ → Option TraceRecorder → Option Records → Option Records
  unfolding finish
  drop_recorder elapsed none records = records
  drop_recorder elapsed (some r) records =
      (finish elapsed (disconnected r.stream_terminal_seen) r records).1

  unfoldable pub drop_body : ℕ → UpstreamBody → Option Records → Option Records
  unfolding drop_recorder
  drop_body elapsed body records = drop_recorder elapsed body.recorder records

  -- The polls of a body one after another, up to its drop, with the items that are forwarded.
  unfoldable pub respond_with :
      List Poll → ℕ → UpstreamBody → Option Records → List Item × Option Bool × Option Records
  unfolding poll_next drop_body
  respond_with [] elapsed body records = ([], body.candidate_health, drop_body elapsed body records)
  respond_with (poll ∷ rest) elapsed body records =
      let next = poll_next poll body records in
      let later = respond_with rest elapsed next.1 next.2 in (next.0 ∷ later.0, later.1, later.2)

-- ===== src/Recorder.antt =====
-- `TraceRecorder` and `UpstreamBody` of main.rs: what is recorded of a streamed response. The time
-- that `started.elapsed()` reads is an argument, in milliseconds as `duration_ms` gives it.
pub mod Search
pub mod Seam
pub mod Body
pub mod Chunk
pub mod Ends
pub mod Report
pub mod Reported
pub mod Stream
pub mod Markers
pub mod Terminal
use milk_carton.Base.{
  ℕ, ◌+◌, ◌-◌, min, Bool, true, false, ◌&&◌, ◌||◌, not, Option, none, some, List, [], ◌∷◌, ◌++◌,
  Bytes, codes, length, take, drop, any, leb, ltb, if◌then◌else◌,
}
use milk_carton.Route.Types.{RouteEndpoint, chat_completions, responses}
use milk_carton.Stats.Counts.{sat_add, u64_max}
use milk_carton.Stats.Values.{TraceCatalog}
use milk_carton.Trace.{Allocator, catalog_bytes, map_or_zero, saturating_sum}
use Search.{is_empty, contains_bytes}

pub record TraceRecorder : Type 0 where
  pub catalog : Option TraceCatalog
  pub first_byte : Option ℕ
  pub request : Option Bytes
  pub request_content_type : Option Bytes
  pub request_content_encoding : Option Bytes
  pub response : Bytes
  pub response_content_type : Option Bytes
  pub response_content_encoding : Option Bytes
  pub response_limit : ℕ
  pub record_limit : ℕ
  pub selected : Bool
  pub oversized : Bool
  pub stream_protocol : Option RouteEndpoint
  pub stream_terminal_seen : Bool
  pub stream_terminal_tail : Bytes

unfoldable pub markers : RouteEndpoint → List Bytes
markers chat_completions = codes "data: [DONE]" ∷ []
markers responses =
    codes "event: response.completed"
    ∷ codes "event: response.failed"
    ∷ codes "event: response.incomplete"
    ∷ []

-- `markers.iter().map(|marker| marker.len().saturating_sub(1)).max().unwrap_or(0)`
unfoldable pub tail_limit : List Bytes → ℕ
tail_limit [] = 0
tail_limit (marker ∷ rest) =
    let m = tail_limit rest in let l = length marker - 1 in if leb l m then m else l

-- `markers.iter().any(|marker| contains_bytes(value, marker))`
unfoldable pub any_marker : List Bytes → Bytes → Bool
any_marker all_markers value = any (λ marker. contains_bytes value marker) all_markers

abbrev pub terminal : TraceRecorder → TraceRecorder
terminal r = record r { stream_terminal_seen = true; stream_terminal_tail = [] }

-- The last `limit` bytes of what the tail and the chunk make.
unfoldable pub next_tail : ℕ → Bytes → Bytes → Bytes
next_tail limit tail bytes =
    if leb limit (length bytes)
    then drop (length bytes - limit) bytes
    else drop (length tail - (limit - length bytes)) tail ++ bytes

-- The tail with the first bytes of the chunk holds a marker.
abbrev pub at_boundary : List Bytes → Bytes → Bytes → Bool
at_boundary all_markers tail bytes =
    not (is_empty tail)
    && any_marker all_markers (tail ++ take (min (length bytes) (tail_limit all_markers)) bytes)

abbrev pub keep_tail : List Bytes → Bytes → TraceRecorder → TraceRecorder
keep_tail all_markers bytes r = record r {
  stream_terminal_tail = next_tail (tail_limit all_markers) r.stream_terminal_tail bytes;
}

abbrev pub scan_boundary : List Bytes → Bytes → TraceRecorder → TraceRecorder
scan_boundary all_markers bytes r =
    if at_boundary all_markers r.stream_terminal_tail bytes
    then terminal r
    else keep_tail all_markers bytes r

unfoldable pub scan : List Bytes → Bytes → TraceRecorder → TraceRecorder
scan all_markers bytes r =
    if any_marker all_markers bytes then terminal r else scan_boundary all_markers bytes r

abbrev pub scan_protocol : Option RouteEndpoint → Bytes → TraceRecorder → TraceRecorder
scan_protocol none bytes r = r
scan_protocol (some endpoint) bytes r =
    if r.stream_terminal_seen || is_empty bytes then r else scan (markers endpoint) bytes r

unfoldable pub observe_stream_terminal : Bytes → TraceRecorder → TraceRecorder
unfolding scan markers
observe_stream_terminal bytes r = scan_protocol r.stream_protocol bytes r

unfoldable pub mark_oversized : TraceRecorder → TraceRecorder
mark_oversized r = record r {
  oversized = true;
  request = none;
  request_content_type = none;
  request_content_encoding = none;
  response = [];
  response_content_type = none;
  response_content_encoding = none;
}

-- `self.first_byte = Some(self.started.elapsed())` at the first byte.
abbrev pub mark_first_byte : ℕ → Bytes → Option ℕ → Option ℕ
mark_first_byte elapsed bytes (some t) = some t
mark_first_byte elapsed bytes none = if is_empty bytes then none else some elapsed

abbrev pub count_bytes : ℕ → Option TraceCatalog → Option TraceCatalog
count_bytes n none = none
count_bytes n (some c) = some (record c { response_bytes = sat_add c.response_bytes n })

module _ (heap : Allocator) where
  abbrev catalog_memory : Option TraceCatalog → ℕ
  catalog_memory none = 0
  catalog_memory (some c) = catalog_bytes heap c

  -- `response` is the capacity that the response has, with the bytes that are reserved.
  unfoldable pub capture_memory_bytes : ℕ → TraceRecorder → ℕ
  capture_memory_bytes response r = saturating_sum (catalog_memory r.catalog) (
      map_or_zero length r.request
      ∷ response
      ∷ heap.capacity r.stream_terminal_tail
      ∷ map_or_zero heap.capacity r.request_content_type
      ∷ map_or_zero heap.capacity r.request_content_encoding
      ∷ map_or_zero heap.capacity r.response_content_type
      ∷ map_or_zero heap.capacity r.response_content_encoding
      ∷ [])

  -- The chunk after `try_reserve`.
  unfoldable pub keep_reserved : Option ℕ → Bytes → TraceRecorder → TraceRecorder
  unfolding mark_oversized capture_memory_bytes
  keep_reserved none bytes r = mark_oversized r
  keep_reserved (some capacity) bytes r =
      if ltb r.record_limit (capture_memory_bytes capacity r)
      then mark_oversized r
      else record r { response = r.response ++ bytes }

  -- The end of `observe`, where the chunk is kept if the limits allow it.
  unfoldable pub keep_bytes : Bytes → TraceRecorder → TraceRecorder
  unfolding mark_oversized keep_reserved
  keep_bytes bytes r =
      if is_empty bytes || not r.selected || r.oversized
      then r
      else if not (leb (length r.response + length bytes) u64_max)
          || ltb r.response_limit (length r.response + length bytes)
      then mark_oversized r
      else keep_reserved (heap.try_reserve r.response (length bytes)) bytes r

  unfoldable pub observe : ℕ → Bytes → TraceRecorder → TraceRecorder
  unfolding keep_bytes observe_stream_terminal
  observe elapsed bytes r = keep_bytes bytes (
      observe_stream_terminal bytes (record r {
        first_byte = mark_first_byte elapsed bytes r.first_byte;
        catalog = count_bytes (length bytes) r.catalog;
      }))

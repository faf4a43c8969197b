-- ===== src/Tests/Persistence.antt =====
-- A captured trace is persisted on an empty shelf.
use milk_carton.Base.{
  ℕ, ◌≡◌, refl, true, false, Option, none, some, [], ◌∷◌, ◌++◌, Bytes, codes, length, Result, ok,
}
use milk_carton.Stats.Values.{CaptureState}
use milk_carton.Trace.{TraceCapture, capture}
use milk_carton.Queue.{QueuedTrace}
use milk_carton.Persist.{EncodedObject, PutDisposition, created, encode_json, put_create_same}
use milk_carton.Persist.Keys.{RecordLibs, snapshot_trace_frontier_key, frontier_key_at}
use milk_carton.Persist.Encode.{encode_trace}
use milk_carton.Persist.Event.{persist_event}
use milk_carton.Persist.Keeps.{Present, IsFound, put_create_same-Present}
use milk_carton.Store.{found}
use milk_carton.Persist.Stored.{IsStored, marker_key_of, persist_event-IsStored}
use milk_carton.Persist.Order.{IsIndexed, persist_event-Indexed}
use milk_carton.Tests.Setup.{crypto}
use milk_carton.Tests.Statistics.{plain}
use milk_carton.Tests.Recording.{heap}
use milk_carton.Tests.Shelf.{Shelf, lookup, shelf, shelf-StoreLaws, shelf-KeepLaws}

abbrev pub libs : RecordLibs
libs = record {
  crypto = crypto;
  uuid_text = λ id. id ∷ [];
  get_timestamp = λ id. some 1_000;
  from_timestamp = λ time. some time;
  hour_path = λ time. codes "2026/01/01/00";
  hour_text = λ time. codes "2026010100";
  due_text = λ time. codes "1";
  version_text = λ version. version ∷ [];
  base64 = λ bytes. bytes;
  decode_base64 = λ text. some text;
  trace_json = λ object. object.request.body_base64 ++ object.response.body_base64;
  parse_trace = λ json. none;
  frontier_json = λ frontier. frontier.trace_object_key;
  marker_json = λ marker. marker.object_key;
  parse_marker = λ json. none;
  zstd = λ bytes. bytes;
  decode_zstd = λ bytes. some bytes;
}

abbrev taken : TraceCapture
taken = record {
  catalog = record plain { retention_until = some 9_000 };
  request_content_type = none;
  request_content_encoding = none;
  request = codes "{}";
  response_content_type = none;
  response_content_encoding = none;
  response = codes "ok";
}

abbrev pub queued_trace : QueuedTrace
queued_trace = record { event = capture taken; budget = 2_000 }

abbrev pub alone : Shelf → Shelf
alone s = s

abbrev pub after : Shelf
after = (persist_event heap libs shelf alone 4_000 queued_trace []).1

abbrev pub object : EncodedObject
object = record {
  key =
      codes "milk/v1/scopes/"
      ++ (5 ∷ [])
      ++ codes "/traffic/2026/01/01/00/"
      ++ (12 ∷ [])
      ++ codes ".json.zst";
  payload = codes "{}ok";
  sha256 = crypto.sha256 [];
}

is_captured :
    persist_event heap libs shelf alone 4_000 queued_trace []
    ≡ (ok (CaptureState.not_selected, true), after)
unfolding persist_event milk_carton.Persist.Event.persist_kind
    milk_carton.Persist.Event.persist_capture milk_carton.Persist.Event.persist_object
    milk_carton.Persist.Event.persist_live milk_carton.Persist.Event.persist_encoded
    milk_carton.Persist.Event.after_marker milk_carton.Persist.Event.existing_marker
    milk_carton.Persist.Event.frontier_of milk_carton.Persist.Event.marker_differs
    milk_carton.Persist.Event.put_marker milk_carton.Persist.Event.write_expiry_marker
    milk_carton.Persist.ensure_not_tombstoned milk_carton.Persist.exists
    milk_carton.Persist.after_put_create milk_carton.Persist.ensure_live_after_write
    milk_carton.Persist.load_bytes milk_carton.Persist.same_object encode_json put_create_same shelf
    lookup milk_carton.Base.list_eq milk_carton.Base.option_eq milk_carton.Hex.Digits.hex_digit
    milk_carton.Hex.hex_digest milk_carton.Persist.Keys.expiry_marker_key
    milk_carton.Persist.Keys.kind_text milk_carton.Persist.Keys.trace_tombstone_key frontier_key_at
    snapshot_trace_frontier_key milk_carton.Trace.capture_bytes milk_carton.Trace.catalog_bytes
    encode_trace milk_carton.Persist.Encode.trace_object milk_carton.Persist.Encode.body_from_bytes
    milk_carton.Persist.Keys.trace_key milk_carton.Persist.Keys.trace_time
    milk_carton.Persist.Encode.encode_compressed milk_carton.Persist.Keys.trace_key_at
    milk_carton.Persist.Keys.scope_prefix
is_captured = refl

is_encoded : encode_trace heap libs taken 4_000 ≡ ok object
unfolding milk_carton.Trace.capture_bytes milk_carton.Trace.catalog_bytes encode_trace
    milk_carton.Persist.Encode.trace_object milk_carton.Persist.Encode.body_from_bytes
    milk_carton.Persist.Keys.trace_key milk_carton.Persist.Keys.trace_time
    milk_carton.Persist.Encode.encode_compressed milk_carton.Persist.Keys.trace_key_at
    milk_carton.Persist.Keys.scope_prefix
is_encoded = refl

has_frontier_key :
    snapshot_trace_frontier_key libs taken.catalog.scope taken.catalog.trace_id
    ≡ ok (frontier_key_at libs 5 12 1_000)
unfolding snapshot_trace_frontier_key milk_carton.Persist.Keys.trace_time
has_frontier_key = refl

persist_event-IsStored_example :
    (c : TraceCapture) × (queued_trace.event ≡ capture c)
    × (CaptureState.not_selected ≡ CaptureState.not_selected)
    × ((stored : EncodedObject) × IsStored heap libs shelf alone 4_000 c stored after)
persist_event-IsStored_example =
    persist_event-IsStored heap libs shelf alone 4_000 shelf-StoreLaws shelf-KeepLaws
      (λ s key there f. f) queued_trace [] after CaptureState.not_selected is_captured

abbrev LeadsTo : Shelf → Type 0
LeadsTo =
    IsIndexed heap libs shelf alone 4_000 object.key (frontier_key_at libs 5 12 1_000)
      (marker_key_of heap libs shelf alone 4_000 taken 9_000 object)

nothing_there : LeadsTo []
unfolding shelf lookup
nothing_there (there, f) = cc

is_stored :
    lookup after object.key
    ≡ found (record { payload = codes "{}ok"; meta = record { e_tag = none; version = some [] } })
unfolding persist_event milk_carton.Persist.Event.persist_kind
    milk_carton.Persist.Event.persist_capture milk_carton.Persist.Event.persist_object
    milk_carton.Persist.Event.persist_live milk_carton.Persist.Event.persist_encoded
    milk_carton.Persist.Event.after_marker milk_carton.Persist.Event.existing_marker
    milk_carton.Persist.Event.frontier_of milk_carton.Persist.Event.marker_differs
    milk_carton.Persist.Event.put_marker milk_carton.Persist.Event.write_expiry_marker
    milk_carton.Persist.ensure_not_tombstoned milk_carton.Persist.exists
    milk_carton.Persist.after_put_create milk_carton.Persist.ensure_live_after_write
    milk_carton.Persist.load_bytes milk_carton.Persist.same_object encode_json put_create_same shelf
    lookup milk_carton.Base.list_eq milk_carton.Base.option_eq milk_carton.Hex.Digits.hex_digit
    milk_carton.Hex.hex_digest milk_carton.Persist.Keys.expiry_marker_key
    milk_carton.Persist.Keys.kind_text milk_carton.Persist.Keys.trace_tombstone_key frontier_key_at
    snapshot_trace_frontier_key milk_carton.Trace.capture_bytes milk_carton.Trace.catalog_bytes
    encode_trace milk_carton.Persist.Encode.trace_object milk_carton.Persist.Encode.body_from_bytes
    milk_carton.Persist.Keys.trace_key milk_carton.Persist.Keys.trace_time
    milk_carton.Persist.Encode.encode_compressed milk_carton.Persist.Keys.trace_key_at
    milk_carton.Persist.Keys.scope_prefix
is_stored = refl

trace-IsFound : IsFound shelf object.key after
unfolding shelf
trace-IsFound = (
  record { payload = codes "{}ok"; meta = record { e_tag = none; version = some [] } },
  is_stored,
)

persist_event-Indexed_example :
    IsFound shelf (frontier_key_at libs 5 12 1_000) after
    × IsFound shelf (marker_key_of heap libs shelf alone 4_000 taken 9_000 object) after
persist_event-Indexed_example =
    persist_event-Indexed heap libs shelf alone 4_000 shelf-StoreLaws shelf-KeepLaws
      (λ s key there f. f) taken 9_000 object (frontier_key_at libs 5 12 1_000) refl is_encoded
      has_frontier_key (λ s indexed. indexed) queued_trace [] refl nothing_there trace-IsFound

abbrev object_put : Result PutDisposition × Shelf
object_put = put_create_same crypto shelf alone object []

is_put : object_put ≡ (ok created, object_put.1)
unfolding put_create_same milk_carton.Persist.after_put_create shelf lookup
is_put = refl

put_create_same-Present_example : Present shelf object.key object.payload (object_put.1)
put_create_same-Present_example =
    put_create_same-Present crypto shelf alone shelf-StoreLaws object [] created object_put.1 is_put

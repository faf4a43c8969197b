-- ===== src/Persist/Event.antt =====
-- `write_expiry_marker` and `persist_event` of records.rs: how a captured trace is
-- written, after the objects that lead to it.
use milk_carton.Base.{
  ℕ, Bool, true, false, ◌||◌, not, Option, none, [], ◌∷◌, Bytes, codes, length, ltb, nat_eq,
  if◌then◌else◌, ◌==◌, ℕ-Eq, List-Eq, Option-Eq, Result, ok, err, bail_if, context,
}
use milk_carton.Hex.{hex_digest}
use milk_carton.Route.Types.{Uuid, DateTime}
use milk_carton.Stats.Values.{CaptureState}
use milk_carton.Trace.{Allocator, TraceCapture, TraceEvent, observation, capture, capture_bytes}
use milk_carton.Queue.{QueuedTrace}
use milk_carton.Store.{PutOutcome, done, already_exists, precondition, put_failed, ObjectStore}
use milk_carton.Effect.{Act, continue, ◌>>=◌, ◌>>◌, lift, return}
use milk_carton.Persist.{
  EncodedObject, encode_json, load_bytes, put_create_same, ensure_not_tombstoned,
  ensure_live_after_write,
}
use milk_carton.Persist.Keys.{
  SnapshotTraceFrontier, ExpiryKind, trace, outcome, ExpiryMarker, RecordLibs, trace_time,
  trace_tombstone_key, snapshot_trace_frontier_key, expiry_marker_key,
}
use milk_carton.Persist.Encode.{encode_trace}

abbrev kind_eq : ExpiryKind → ExpiryKind → Bool
kind_eq trace trace = true
kind_eq outcome outcome = true
kind_eq _ _ = false

-- The marker that is there leads to the same object.
unfoldable pub marker_differs : ExpiryMarker → ExpiryMarker → Bool
marker_differs a b =
    not (a.schema_version == b.schema_version)
    || not (nat_eq a.scope b.scope)
    || not (kind_eq a.kind b.kind)
    || not (nat_eq a.trace_id b.trace_id)
    || not (a.outcome_version == b.outcome_version)
    || not (nat_eq a.retention_until b.retention_until)
    || not (a.object_key == b.object_key)
    || not (a.object_sha256 == b.object_sha256)
    || not (nat_eq a.created_at b.created_at)

unfoldable pub frontier_of : TraceCapture → DateTime → EncodedObject → SnapshotTraceFrontier
frontier_of c retention_until object = record {
  schema_version = codes "milk.snapshot-trace-frontier.v1";
  scope = c.catalog.scope;
  trace_id = c.catalog.trace_id;
  occurred_at = c.catalog.occurred_at;
  retention_until = retention_until;
  trace_object_key = object.key;
  trace_payload_sha256 = hex_digest object.sha256;
}

module _ {S : Type 0} (heap : Allocator) (libs : RecordLibs) (store : ObjectStore S)
    (others : S → S) (max_trace_bytes : ℕ) where
  open libs use {crypto, frontier_json, marker_json, parse_marker}

  unfoldable pub existing_marker : Bytes → ExpiryMarker → Act S (Unit {0})
  existing_marker key marker = do
    payload ← load_bytes crypto store others key max_trace_bytes
    present ← lift (context (parse_marker payload) "expiry marker is not typed JSON")
    lift (bail_if (marker_differs present marker) "expiry marker identity collision")

  unfoldable pub after_marker : Bytes → ExpiryMarker → PutOutcome × S → Result Bytes × S
  after_marker key marker (done, s) = (ok key, s)
  after_marker key marker (already_exists, s) =
      continue (existing_marker key marker s) (λ _. return key)
  after_marker key marker (precondition, s) = (err "precondition", s)
  after_marker key marker (put_failed error, s) = (err error, s)

  unfoldable pub put_marker : Bytes → ExpiryMarker → Act S Bytes
  put_marker key marker s =
      after_marker key marker (store.create (others s) key (marker_json marker))

  unfoldable pub write_expiry_marker :
      Uuid → ExpiryKind → Uuid → Option ℕ → DateTime → Bytes → Bytes → Act S Bytes
  write_expiry_marker scope kind trace_id outcome_version retention_until object_key object_sha256 =
      do
        created_at ← lift (trace_time libs trace_id)
        let key =
            expiry_marker_key libs scope kind trace_id outcome_version retention_until object_sha256
        put_marker key (record {
          schema_version = codes "milk.expiry-marker.v1";
          scope = scope;
          kind = kind;
          trace_id = trace_id;
          outcome_version = outcome_version;
          retention_until = retention_until;
          object_key = object_key;
          object_sha256 = hex_digest object_sha256;
          created_at = created_at;
        })

  -- The writes of a capture that has its encoding: the frontier and the marker come before the trace.
  unfoldable pub persist_encoded :
      TraceCapture → DateTime → EncodedObject → Act S (CaptureState × Bool)
  persist_encoded c retention_until object = do
    frontier_key ← lift (snapshot_trace_frontier_key libs c.catalog.scope c.catalog.trace_id)
    put_create_same crypto store others
        (encode_json crypto frontier_key (frontier_json (frontier_of c retention_until object)))
    write_expiry_marker c.catalog.scope trace c.catalog.trace_id none retention_until object.key
        object.sha256
    put_create_same crypto store others object
    ensure_live_after_write crypto store others
        (trace_tombstone_key libs c.catalog.scope c.catalog.trace_id ∷ [])
    return (CaptureState.not_selected, true)

  unfoldable pub persist_live : TraceCapture → EncodedObject → Act S (CaptureState × Bool)
  persist_live c object = do
    ensure_not_tombstoned crypto store others
        (trace_tombstone_key libs c.catalog.scope c.catalog.trace_id)
    retention_until ← lift (context c.catalog.retention_until "captured trace is missing retention")
    persist_encoded c retention_until object

  unfoldable pub persist_object : TraceCapture → EncodedObject → Act S (CaptureState × Bool)
  persist_object c object =
      if ltb max_trace_bytes (length object.payload)
      then return (CaptureState.oversized, false)
      else persist_live c object

  unfoldable pub persist_capture : TraceCapture → Act S (CaptureState × Bool)
  persist_capture c =
      if ltb max_trace_bytes (capture_bytes heap c)
      then return (CaptureState.oversized, false)
      else (lift (encode_trace heap libs c max_trace_bytes) >>= λ object. persist_object c object)

  unfoldable pub persist_kind : TraceEvent → Act S (CaptureState × Bool)
  persist_kind (observation catalog capture_state) = return (capture_state, false)
  persist_kind (capture c) = persist_capture c

  unfoldable pub persist_event : QueuedTrace → Act S (CaptureState × Bool)
  persist_event queued = persist_kind queued.event

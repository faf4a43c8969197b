-- ===== src/Persist/Keys.antt =====
-- The record types that a captured trace is stored with, and the keys of their objects.
use milk_carton.Base.{ℕ, Option, none, some, ◌++◌, Bytes, codes, Result, ok, context, ◌>>=◌}
use milk_carton.Crypto.{Crypto}
use milk_carton.Hex.{hex_digest}
use milk_carton.Route.Types.{Uuid, DateTime}
use milk_carton.Stats.Values.{TraceCatalog}

pub record CapturedBody : Type 0 where
  pub content_type : Option Bytes
  pub content_encoding : Option Bytes
  pub body_base64 : Bytes
  pub byte_len : ℕ

-- `TraceObject`, and `StoredTraceObject` when it is read.
pub record TraceObject : Type 0 where
  pub schema_version : Bytes
  pub catalog : TraceCatalog
  pub request : CapturedBody
  pub response : CapturedBody

pub record SnapshotTraceFrontier : Type 0 where
  pub schema_version : Bytes
  pub scope : Uuid
  pub trace_id : Uuid
  pub occurred_at : DateTime
  pub retention_until : DateTime
  pub trace_object_key : Bytes
  pub trace_payload_sha256 : Bytes

pub data ExpiryKind : Type 0 where
  trace outcome : ExpiryKind

pub record ExpiryMarker : Type 0 where
  pub schema_version : Bytes
  pub scope : Uuid
  pub kind : ExpiryKind
  pub trace_id : Uuid
  pub outcome_version : Option ℕ
  pub retention_until : DateTime
  pub object_key : Bytes
  pub object_sha256 : Bytes
  pub created_at : DateTime

-- What the code calls of the crates: uuid, chrono, base64, serde_json on the types above, and zstd.
pub record RecordLibs : Type 0 where
  pub crypto : Crypto
  pub uuid_text : Uuid → Bytes
  pub get_timestamp : Uuid → Option ℕ
  pub from_timestamp : ℕ → Option DateTime
  -- the formats `%Y/%m/%d/%H` and `%Y%m%d%H`, and `expiry_due_time_key`
  pub hour_path : DateTime → Bytes
  pub hour_text : DateTime → Bytes
  pub due_text : DateTime → Bytes
  pub version_text : ℕ → Bytes
  pub base64 : Bytes → Bytes
  pub decode_base64 : Bytes → Option Bytes
  pub trace_json : TraceObject → Bytes
  pub parse_trace : Bytes → Option TraceObject
  pub frontier_json : SnapshotTraceFrontier → Bytes
  pub marker_json : ExpiryMarker → Bytes
  pub parse_marker : Bytes → Option ExpiryMarker
  pub zstd : Bytes → Bytes
  pub decode_zstd : Bytes → Option Bytes

unfoldable pub kind_text : ExpiryKind → Bytes
kind_text trace = codes "trace"
kind_text outcome = codes "outcome"

module _ (libs : RecordLibs) where
  open libs use {
    uuid_text, get_timestamp, from_timestamp, hour_path, hour_text, due_text, version_text,
  }

  unfoldable pub scope_prefix : Uuid → Bytes
  scope_prefix scope = codes "milk/v1/scopes/" ++ uuid_text scope

  unfoldable pub trace_time : Uuid → Result DateTime
  trace_time trace_id = do
    timestamp ← context (get_timestamp trace_id) "trace_id must be UUIDv7"
    context (from_timestamp timestamp) "trace_id timestamp is out of range"

  -- The keys of a trace, by its time.
  unfoldable pub trace_key_at : Uuid → Uuid → DateTime → Bytes
  trace_key_at scope trace_id time =
      scope_prefix scope
      ++ (codes "/traffic/"
          ++ hour_path time
          ++ codes "/"
          ++ uuid_text trace_id
          ++ codes ".json.zst")

  unfoldable pub trace_key : Uuid → Uuid → Result Bytes
  trace_key scope trace_id = do time ← trace_time trace_id; ok (trace_key_at scope trace_id time)

  unfoldable pub trace_tombstone_key : Uuid → Uuid → Bytes
  trace_tombstone_key scope trace_id =
      scope_prefix scope ++ (codes "/tombstones/traces/" ++ uuid_text trace_id ++ codes ".json")

  unfoldable pub frontier_key_at : Uuid → Uuid → DateTime → Bytes
  frontier_key_at scope trace_id time =
      scope_prefix scope
      ++ (codes "/frontier/snapshots/"
          ++ hour_text time
          ++ codes "/"
          ++ uuid_text trace_id
          ++ codes ".json")

  unfoldable pub snapshot_trace_frontier_key : Uuid → Uuid → Result Bytes
  snapshot_trace_frontier_key scope trace_id = do
    time ← trace_time trace_id
    ok (frontier_key_at scope trace_id time)

  abbrev outcome_text : Option ℕ → Bytes
  outcome_text none = codes "trace"
  outcome_text (some version) = version_text version

  unfoldable pub expiry_marker_key : Uuid → ExpiryKind → Uuid → Option ℕ → DateTime → Bytes → Bytes
  expiry_marker_key scope kind trace_id outcome_version retention_until object_sha256 =
      scope_prefix scope
      ++ (codes "/expiry-index/"
          ++ due_text retention_until
          ++ codes "/"
          ++ kind_text kind
          ++ codes "/"
          ++ uuid_text trace_id
          ++ codes "/"
          ++ outcome_text outcome_version
          ++ codes "/"
          ++ hex_digest object_sha256
          ++ codes ".json")

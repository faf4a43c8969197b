-- ===== src/Persist/Encode.antt =====
-- `CapturedBody`, `encode_trace` and `decode_compressed` of records.rs: the bytes that a captured trace
-- is stored as. serde_json and zstd do not fail when they write these types to memory.
use milk_carton.Base.{
  ℕ, ◌*◌, ◌+◌, not, Option, none, some, Bytes, codes, length, take, leb, ltb, nat_eq, if◌then◌else◌,
  Result, ok, bail_if, context, ◌>>=◌, ◌>>◌,
}
use milk_carton.Route.Url.{is_none}
use milk_carton.Stats.Counts.{u64_max}
use milk_carton.Trace.{Allocator, TraceCapture, capture_bytes}
use milk_carton.Persist.{EncodedObject}
use milk_carton.Persist.Keys.{CapturedBody, TraceObject, RecordLibs, trace_key}

abbrev pub trace_schema_version : Bytes
trace_schema_version = codes "milk.trace.v1"

abbrev pub max_json_bytes_per_capture_byte : ℕ
max_json_bytes_per_capture_byte = 6

abbrev pub max_decode_expansion : ℕ
max_decode_expansion = 8

-- `usize::checked_mul`
abbrev pub checked_mul : ℕ → ℕ → Option ℕ
checked_mul a b = if leb (a * b) u64_max then some (a * b) else none

module _ (heap : Allocator) (libs : RecordLibs) where
  open libs use {
    crypto, get_timestamp, base64, decode_base64, trace_json, parse_trace, zstd, decode_zstd,
  }

  -- `CapturedBody::from_bytes`
  unfoldable pub body_from_bytes : Option Bytes → Option Bytes → Bytes → CapturedBody
  body_from_bytes content_type content_encoding bytes = record {
    content_type = content_type;
    content_encoding = content_encoding;
    body_base64 = base64 bytes;
    byte_len = length bytes;
  }

  unfoldable pub trace_object : TraceCapture → TraceObject
  trace_object c = record {
    schema_version = trace_schema_version;
    catalog = c.catalog;
    request = body_from_bytes c.request_content_type c.request_content_encoding c.request;
    response = body_from_bytes c.response_content_type c.response_content_encoding c.response;
  }

  unfoldable pub encode_compressed : Bytes → Bytes → EncodedObject
  encode_compressed key json = record {
    key = key;
    payload = zstd json;
    sha256 = crypto.sha256 (zstd json);
  }

  unfoldable pub encode_trace : TraceCapture → ℕ → Result EncodedObject
  encode_trace c max_record_bytes = do
    bail_if (ltb max_record_bytes (capture_bytes heap c))
        "raw trace exceeds its per-record memory limit"
    bail_if (is_none (get_timestamp c.catalog.trace_id)) "trace_id must be UUIDv7"
    limit ←
        context (checked_mul max_record_bytes max_json_bytes_per_capture_byte)
          "trace encoding limit overflow"
    bail_if (ltb limit (length (trace_json (trace_object c))))
        "serialized trace exceeds bounded expansion"
    key ← trace_key libs c.catalog.scope c.catalog.trace_id
    ok (encode_compressed key (trace_json (trace_object c)))

  -- `CapturedBody::decode`
  unfoldable pub decode_body : CapturedBody → Result Bytes
  decode_body body = do
    bytes ← context (decode_base64 body.body_base64) "stored body is not valid base64"
    bail_if (not (nat_eq (length bytes) body.byte_len))
        "stored body byte count does not match its metadata"
    ok bytes

  -- The reader is cut one byte after the limit.
  unfoldable pub decode_compressed : Bytes → ℕ → Result TraceObject
  decode_compressed payload max_bytes = do
    max_decoded ←
        context (checked_mul max_bytes max_decode_expansion) "decoded object limit overflow"
    decoded ← context (decode_zstd payload) "stored object is not valid zstd"
    let json = take (max_decoded + 1) decoded
    bail_if (ltb max_decoded (length json)) "stored object exceeds decoded byte limit"
    context (parse_trace json) "stored object is not valid typed JSON"

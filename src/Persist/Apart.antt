-- ===== src/Persist/Apart.antt =====
-- The keys of a trace object, its frontier and its expiry marker, which differ.
use milk_carton.Base.{
  ℕ, ◌≡◌, ◌≢◌, arith, sym, ap, ◌∙◌, none, ◌∷◌, Bytes, length, ltb, ok, context, ok-injective,
  bail_if-eq-ok, >>=-eq-ok,
}
use mathlib.Core.List.{append_cancel_left}
use milk_carton.Route.Types.{Uuid, DateTime}
use milk_carton.Route.Url.{is_none}
use milk_carton.Trace.{Allocator, TraceCapture, capture_bytes}
use milk_carton.Persist.{EncodedObject}
use milk_carton.Persist.Keys.{
  trace, RecordLibs, trace_time, scope_prefix, trace_key, trace_key_at, frontier_key_at,
  expiry_marker_key,
}
use milk_carton.Persist.Encode.{
  encode_trace, checked_mul, max_json_bytes_per_capture_byte, trace_object, encode_compressed,
}

abbrev second_of : Bytes → ℕ
second_of (a ∷ b ∷ rest) = b
second_of _ = 0

module _ (libs : RecordLibs) where
  pub trace_key_at-frontier_key_at :
      (scope trace_id : Uuid) (t u : DateTime)
      → trace_key_at libs scope trace_id t ≢ frontier_key_at libs scope trace_id u
  unfolding trace_key_at frontier_key_at
  trace_key_at-frontier_key_at scope trace_id t u e =
      let differ : b't' ≡ b'f' =
        ap second_of (append_cancel_left (scope_prefix libs scope) _ _ e) in
      omega (arith, differ)

  pub trace_key_at-expiry_marker_key :
      (scope trace_id : Uuid) (t until : DateTime) (sha256 : Bytes)
      → trace_key_at libs scope trace_id t
        ≢ expiry_marker_key libs scope trace trace_id none until sha256
  unfolding trace_key_at expiry_marker_key
  trace_key_at-expiry_marker_key scope trace_id t until sha256 e =
      let differ : b't' ≡ b'e' =
        ap second_of (append_cancel_left (scope_prefix libs scope) _ _ e) in
      omega (arith, differ)

  pub encode_trace-key :
      (heap : Allocator) (c : TraceCapture) (max_bytes : ℕ) (object : EncodedObject)
      → encode_trace heap libs c max_bytes ≡ ok object
      → (time : DateTime) × (object.key ≡ trace_key_at libs c.catalog.scope c.catalog.trace_id time)
  unfolding encode_trace encode_compressed trace_key
  encode_trace-key heap c max_bytes object h =
      let (small, h1) =
        bail_if-eq-ok (ltb max_bytes (capture_bytes heap c))
          "raw trace exceeds its per-record memory limit" _ h in
      let (stamped, h2) =
        bail_if-eq-ok (is_none (libs.get_timestamp c.catalog.trace_id)) "trace_id must be UUIDv7" _
          h1 in
      let (limit, e3, h3) =
        >>=-eq-ok
          (context (checked_mul max_bytes max_json_bytes_per_capture_byte)
            "trace encoding limit overflow")
          _ h2 in
      let (fits, h4) =
        bail_if-eq-ok (ltb limit (length (libs.trace_json (trace_object heap libs c))))
          "serialized trace exceeds bounded expansion" _ h3 in
      let (key, e5, h5) = >>=-eq-ok (trace_key libs c.catalog.scope c.catalog.trace_id) _ h4 in
      let (time, e6, h6) = >>=-eq-ok (trace_time libs c.catalog.trace_id) _ e5 in
      (time, sym (ap (λ (o : EncodedObject). o.key) (ok-injective h5)) ∙ sym (ok-injective h6))

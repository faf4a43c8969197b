-- ===== src/Trace.antt =====
-- The traces of records.rs, `TraceCapture` and `TraceEvent`, and the memory that they are charged for.
-- The capacity of a buffer is the allocator's, a parameter by the contents of the buffer.
use milk_carton.Base.{ℕ, Option, none, some, List, [], ◌∷◌, Bytes, length, ◌++◌}
use milk_carton.Stats.Counts.{sat_add}
use milk_carton.Stats.Values.{TraceCatalog, CaptureState}

-- `capacity` is what a `String` or a `Vec` with these bytes has allocated; `try_reserve` is what a
-- buffer has allocated after it has reserved so many more bytes, or `none` when that fails.
pub record Allocator : Type 0 where
  pub capacity : Bytes → ℕ
  pub try_reserve : Bytes → ℕ → Option ℕ

abbrev pub metadata_record_bytes : ℕ
metadata_record_bytes = 1_024

pub record TraceCapture : Type 0 where
  pub catalog : TraceCatalog
  pub request_content_type : Option Bytes
  pub request_content_encoding : Option Bytes
  pub request : Bytes
  pub response_content_type : Option Bytes
  pub response_content_encoding : Option Bytes
  pub response : Bytes

pub data TraceEvent : Type 0 where
  observation : TraceCatalog → CaptureState → TraceEvent
  capture : TraceCapture → TraceEvent

-- `TraceEvent::catalog`
unfoldable pub event_catalog : TraceEvent → TraceCatalog
event_catalog (observation catalog state) = catalog
event_catalog (capture c) = c.catalog

-- `.iter().map(String::capacity)`, at most one item.
abbrev optional : (Bytes → ℕ) → Option Bytes → List ℕ
optional f none = []
optional f (some text) = f text ∷ []

-- `.as_ref().map_or(0, f)`
abbrev pub map_or_zero : (Bytes → ℕ) → Option Bytes → ℕ
map_or_zero f none = 0
map_or_zero f (some text) = f text

-- `.fold(start, usize::saturating_add)`
abbrev pub saturating_sum : ℕ → List ℕ → ℕ
saturating_sum total [] = total
saturating_sum total (n ∷ rest) = saturating_sum (sat_add total n) rest

module _ (heap : Allocator) where
  -- `TraceCatalog::memory_bytes`
  unfoldable pub catalog_bytes : TraceCatalog → ℕ
  catalog_bytes c = sat_add metadata_record_bytes (
      saturating_sum 0 (
        heap.capacity c.endpoint
        ∷ heap.capacity c.route_revision
        ∷ (optional heap.capacity c.error_class
            ++ (heap.capacity c.sampler_id
                ∷ heap.capacity c.sampling_unit_hmac_sha256
                ∷ heap.capacity c.sampling_key_version
                ∷ (optional heap.capacity c.previous_response_hmac_sha256
                    ++ (optional heap.capacity c.capture_policy_version
                        ++ (heap.capacity c.rights_state ∷ [])))))))

  -- `TraceCapture::memory_bytes`
  unfoldable pub capture_bytes : TraceCapture → ℕ
  capture_bytes c = saturating_sum (catalog_bytes c.catalog) (
      length c.request
      ∷ heap.capacity c.response
      ∷ map_or_zero heap.capacity c.request_content_type
      ∷ map_or_zero heap.capacity c.request_content_encoding
      ∷ map_or_zero heap.capacity c.response_content_type
      ∷ map_or_zero heap.capacity c.response_content_encoding
      ∷ [])

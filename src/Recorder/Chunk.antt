-- ===== src/Recorder/Chunk.antt =====
-- What `observe` does with a chunk: the marker that it looks for, and the bytes that it keeps.
use milk_carton.Base.{
  ℕ, ◌+◌, ◌≤◌, ◌≡◌, refl, sym, ap, ◌∙◌, subst, Bool, true, false, ◌||◌, not, Option, none, some,
  List, [], ◌∷◌, ◌++◌, Bytes, length, leb, ltb, arith, if-either, length-append, append-nil,
}
use milk_carton.Route.Types.{RouteEndpoint}
use milk_carton.Stats.Counts.{u64_max}
use milk_carton.Trace.{Allocator}
use milk_carton.Recorder.{
  TraceRecorder, markers, any_marker, at_boundary, keep_tail, scan_boundary, terminal, scan,
  scan_protocol, mark_oversized, keep_reserved, keep_bytes,
}
use milk_carton.Recorder.Search.{is_empty}

-- The recorder with another view of the terminal marker.
abbrev pub with_terminal : Bool → Bytes → TraceRecorder → TraceRecorder
with_terminal seen tail r = record r { stream_terminal_seen = seen; stream_terminal_tail = tail }

pub data IsFrame (r r' : TraceRecorder) : Type 0 where
  changed : (seen : Bool) (tail : Bytes) → r' ≡ with_terminal seen tail r → IsFrame r r'

scan-IsFrame : (ms : List Bytes) (bytes : Bytes) (r : TraceRecorder) → IsFrame r (scan ms bytes r)
unfolding scan
scan-IsFrame ms bytes r =
    if-either (IsFrame r) (any_marker ms bytes) (terminal r) (scan_boundary ms bytes r)
      (λ h. changed true [] refl)
      (λ h.
        if-either (IsFrame r) (at_boundary ms r.stream_terminal_tail bytes) (terminal r)
          (keep_tail ms bytes r) (λ k. changed true [] refl)
          (λ k. changed r.stream_terminal_seen _ refl))

pub scan_protocol-IsFrame :
    (protocol : Option RouteEndpoint) (bytes : Bytes) (r : TraceRecorder)
    → IsFrame r (scan_protocol protocol bytes r)
scan_protocol-IsFrame none bytes r = changed r.stream_terminal_seen r.stream_terminal_tail refl
scan_protocol-IsFrame (some endpoint) bytes r =
    if-either (IsFrame r) _ _ _ (λ h. changed r.stream_terminal_seen r.stream_terminal_tail refl)
      (λ h. scan-IsFrame (markers endpoint) bytes r)

-- The three things that can become of a chunk.
pub data Kept (bytes : Bytes) (r r' : TraceRecorder) : Type 0 where
  ignored : (is_empty bytes || not r.selected || r.oversized) ≡ true → r' ≡ r → Kept bytes r r'
  refused : r.selected ≡ true → r.oversized ≡ false → r' ≡ mark_oversized r → Kept bytes r r'
  appended :
      r.oversized ≡ false
      → length r.response + length bytes ≤ r.response_limit
      → r' ≡ record r { response = r.response ++ bytes }
      → Kept bytes r r'

keep_reserved-Kept :
    (heap : Allocator) (reserved : Option ℕ) (bytes : Bytes) (r : TraceRecorder)
    → r.selected ≡ true
    → r.oversized ≡ false
    → length r.response + length bytes ≤ r.response_limit
    → Kept bytes r (keep_reserved heap reserved bytes r)
unfolding keep_reserved
keep_reserved-Kept heap none bytes r s h fits = refused s h refl
keep_reserved-Kept heap (some capacity) bytes r s h fits =
    if-either (Kept bytes r) _ _ _ (λ k. refused s h refl) (λ k. appended h fits refl)

within_limit :
    (total limit : ℕ) → (not (leb total u64_max) || ltb limit total) ≡ false → total ≤ limit
within_limit total limit h = ground arith

last_false : (a b c : Bool) → (a || b || c) ≡ false → c ≡ false
last_false a b c h = ground arith

middle_false : (a b c : Bool) → (a || not b || c) ≡ false → b ≡ true
middle_false a b c h = ground arith

pub keep_bytes-Kept :
    (heap : Allocator) (bytes : Bytes) (r : TraceRecorder) → Kept bytes r (keep_bytes heap bytes r)
unfolding keep_bytes
keep_bytes-Kept heap bytes r =
    if-either (Kept bytes r) _ _ _ (λ h. ignored h refl)
      (λ h.
        let chosen = middle_false (is_empty bytes) r.selected r.oversized h in
        let room = last_false (is_empty bytes) (not r.selected) r.oversized h in
        if-either (Kept bytes r) _ _ _ (λ k. refused chosen room refl)
          (λ k.
            keep_reserved-Kept heap _ bytes r chosen room
              (within_limit (length r.response + length bytes) r.response_limit k)))

-- What the recorder holds of the bodies.
pub data Holds (start : TraceRecorder) (seen : Bytes) (r : TraceRecorder) : Type 0 where
  nothing :
      start.selected ≡ true
      → r.oversized ≡ true
      → r.request ≡ none
      → r.response ≡ []
      → Holds start seen r
  bodies :
      r.oversized ≡ false
      → r.request ≡ start.request
      → r.request_content_type ≡ start.request_content_type
      → r.request_content_encoding ≡ start.request_content_encoding
      → r.response_content_type ≡ start.response_content_type
      → r.response_content_encoding ≡ start.response_content_encoding
      → (start.selected ≡ true → r.response ≡ seen)
      → length r.response ≤ start.response_limit
      → Holds start seen r

selected_ignored :
    (bytes : Bytes) (selected oversized : Bool)
    → (is_empty bytes || not selected || oversized) ≡ true
    → oversized ≡ false
    → selected ≡ true
    → bytes ≡ []
selected_ignored [] selected oversized h o s = refl
selected_ignored (b ∷ bytes) selected oversized h o s = absurd (ground arith)

pub Kept-Holds :
    (start : TraceRecorder) (seen bytes : Bytes) (r r' : TraceRecorder)
    → r.selected ≡ start.selected
    → r.response_limit ≡ start.response_limit
    → Kept bytes r r'
    → Holds start seen r
    → Holds start (seen ++ bytes) r'
unfolding mark_oversized
Kept-Holds start seen bytes r r' s l (refused chosen o e) h =
    subst (Holds start (seen ++ bytes)) (sym e) (nothing (sym s ∙ chosen) refl refl refl)
Kept-Holds start seen bytes r r' s l (ignored i e) (nothing c o q p) =
    subst (Holds start (seen ++ bytes)) (sym e) (nothing c o q p)
Kept-Holds start seen bytes r r' s l (ignored i e) (bodies o q a b c d p m) =
    subst (Holds start (seen ++ bytes)) (sym e) (
      bodies o q a b c d
        (λ t.
          p t
          ∙ sym (
              ap (λ v. seen ++ v) (selected_ignored bytes r.selected r.oversized i o (s ∙ t))
              ∙ append-nil seen))
        m)
Kept-Holds start seen bytes r r' s l (appended o fits e) (nothing c o' q p) = absurd cc
Kept-Holds start seen bytes r r' s l (appended o fits e) (bodies o' q a b c d p m) =
    subst (Holds start (seen ++ bytes)) (sym e) (
      bodies o q a b c d (λ t. ap (λ v. v ++ bytes) (p t))
        (omega (arith, length-append r.response bytes, fits, l)))

pub frame-Holds :
    (start : TraceRecorder) (seen : Bytes) (r r' : TraceRecorder)
    → IsFrame r r'
    → Holds start seen r
    → Holds start seen r'
frame-Holds start seen r r' (changed s t e) (nothing c o q p) =
    subst (Holds start seen) (sym e) (nothing c o q p)
frame-Holds start seen r r' (changed s t e) (bodies o q a b c d p m) =
    subst (Holds start seen) (sym e) (bodies o q a b c d p m)

-- ===== src/Recorder/Stream.antt =====
-- The recorder after any sequence of chunks: what it knows of the stream and what it keeps of it.
use milk_carton.Base.{
  ℕ, ◌+◌, ◌≡◌, refl, sym, ap, ◌∙◌, subst, Option, none, some, List, [], ◌∷◌, ◌++◌, Bytes, length,
  arith, length-append, append-nil, append_assoc,
}
use milk_carton.Stats.Values.{TraceCatalog}
use milk_carton.Trace.{Allocator}
use milk_carton.Recorder.{
  TraceRecorder, scan_protocol, observe_stream_terminal, mark_oversized, mark_first_byte,
  count_bytes, observe,
}
use milk_carton.Recorder.Terminal.{Scans, scan_protocol-Scans}
use milk_carton.Recorder.Chunk.{
  IsFrame, changed, scan_protocol-IsFrame, Kept, ignored, refused, appended, keep_bytes-Kept, Holds,
  nothing, bodies, Kept-Holds, frame-Holds,
}

-- What the recorder knows of the response that began at `start`, after the bytes `seen`.
abbrev pub Knows : TraceRecorder → Bytes → Option ℕ → TraceRecorder → Type 0
Knows start seen first r =
    (r.stream_protocol ≡ start.stream_protocol)
    × (r.selected ≡ start.selected)
    × (r.response_limit ≡ start.response_limit)
    × (r.first_byte ≡ first)
    × (r.catalog ≡ count_bytes (length seen) start.catalog)
    × Scans start.stream_protocol seen r

Kept-Knows :
    (start : TraceRecorder) (seen bytes : Bytes) (first : Option ℕ) (r r' : TraceRecorder)
    → Kept bytes r r'
    → Knows start seen first r
    → Knows start seen first r'
unfolding mark_oversized
Kept-Knows start seen bytes first r r' (ignored h e) k = subst (Knows start seen first) (sym e) k
Kept-Knows start seen bytes first r r' (refused c h e) k = subst (Knows start seen first) (sym e) k
Kept-Knows start seen bytes first r r' (appended h l e) k = subst (Knows start seen first) (sym e) k

abbrev pub Tracks : TraceRecorder → Bytes → Option ℕ → TraceRecorder → Type 0
Tracks start seen first r = Knows start seen first r × Holds start seen r

count_bytes-count_bytes :
    (m n : ℕ) (c : Option TraceCatalog) → count_bytes n (count_bytes m c) ≡ count_bytes (m + n) c
count_bytes-count_bytes m n none = refl
count_bytes-count_bytes m n (some c) =
    ap (λ t. some (record c { response_bytes = t })) (omega arith)

-- What the terminal marker does not touch.
abbrev Plain : TraceRecorder → Bytes → Option ℕ → TraceRecorder → Type 0
Plain start seen first r =
    (r.stream_protocol ≡ start.stream_protocol)
    × (r.selected ≡ start.selected)
    × (r.response_limit ≡ start.response_limit)
    × (r.first_byte ≡ first)
    × (r.catalog ≡ count_bytes (length seen) start.catalog)

frame-Plain :
    (start : TraceRecorder) (seen : Bytes) (first : Option ℕ) (r r' : TraceRecorder)
    → IsFrame r r'
    → Plain start seen first r
    → Plain start seen first r'
frame-Plain start seen first r r' (changed s t e) h = subst (Plain start seen first) (sym e) h

unfoldable pub observed : ℕ → Bytes → TraceRecorder → TraceRecorder
observed elapsed bytes r = record r {
  first_byte = mark_first_byte elapsed bytes r.first_byte;
  catalog = count_bytes (length bytes) r.catalog;
}

scan-Knows :
    (start : TraceRecorder) (seen bytes : Bytes) (first : Option ℕ) (elapsed : ℕ)
    (r : TraceRecorder)
    → Knows start seen first r
    → Knows start
        (seen ++ bytes)
        (mark_first_byte elapsed bytes first)
        (observe_stream_terminal bytes (observed elapsed bytes r))
unfolding observed observe_stream_terminal
scan-Knows start seen bytes first elapsed r (p, s, l, f, c, t) =
    let (p', s', l', f', c') =
      frame-Plain start (seen ++ bytes) (mark_first_byte elapsed bytes first)
        (observed elapsed bytes r) _
        (scan_protocol-IsFrame r.stream_protocol bytes (observed elapsed bytes r))
        (p, s, l, ap (mark_first_byte elapsed bytes) f, counted) in
    (
      p',
      s',
      l',
      f',
      c',
      subst
          (λ protocol.
            Scans start.stream_protocol (seen ++ bytes)
              (scan_protocol protocol bytes (observed elapsed bytes r)))
          (sym p)
          (scan_protocol-Scans start.stream_protocol seen bytes (observed elapsed bytes r) t),
    )
  where
    counted :
        count_bytes (length bytes) r.catalog ≡ count_bytes (length (seen ++ bytes)) start.catalog
    counted =
        ap (count_bytes (length bytes)) c
        ∙ count_bytes-count_bytes (length seen) (length bytes) start.catalog
        ∙ ap (λ n. count_bytes n start.catalog) (sym (length-append seen bytes))

observed-Holds :
    (start : TraceRecorder) (seen bytes : Bytes) (elapsed : ℕ) (r : TraceRecorder)
    → Holds start seen r
    → Holds start seen (observed elapsed bytes r)
unfolding observed
observed-Holds start seen bytes elapsed r (nothing c o q p) = nothing c o q p
observed-Holds start seen bytes elapsed r (bodies o q a b c d p m) = bodies o q a b c d p m

pub observe-Tracks :
    (heap : Allocator) (start : TraceRecorder) (seen bytes : Bytes) (first : Option ℕ) (elapsed : ℕ)
    (r : TraceRecorder)
    → Tracks start seen first r
    → Tracks start
        (seen ++ bytes)
        (mark_first_byte elapsed bytes first)
        (observe heap elapsed bytes r)
unfolding observe observed observe_stream_terminal
observe-Tracks heap start seen bytes first elapsed r (k, h) =
    let scanned = observe_stream_terminal bytes (observed elapsed bytes r) in
    let knows = scan-Knows start seen bytes first elapsed r k in
    let kept = keep_bytes-Kept heap bytes scanned in
    let framed =
      frame-Holds start seen (observed elapsed bytes r) scanned
        (scan_protocol-IsFrame r.stream_protocol bytes (observed elapsed bytes r))
        (observed-Holds start seen bytes elapsed r h) in
    (
      Kept-Knows start (seen ++ bytes) bytes (mark_first_byte elapsed bytes first) scanned _ kept
          knows,
      Kept-Holds start seen bytes scanned _ knows.1 knows.2 kept framed,
    )

frame-catalog : (r r' : TraceRecorder) → IsFrame r r' → r'.catalog ≡ r.catalog
frame-catalog r r' (changed s t e) = ap (λ (x : TraceRecorder). x.catalog) e

Kept-catalog : (bytes : Bytes) (r r' : TraceRecorder) → Kept bytes r r' → r'.catalog ≡ r.catalog
unfolding mark_oversized
Kept-catalog bytes r r' (ignored h e) = ap (λ (x : TraceRecorder). x.catalog) e
Kept-catalog bytes r r' (refused c h e) = ap (λ (x : TraceRecorder). x.catalog) e
Kept-catalog bytes r r' (appended h l e) = ap (λ (x : TraceRecorder). x.catalog) e

pub observe-catalog :
    (heap : Allocator) (elapsed : ℕ) (bytes : Bytes) (r : TraceRecorder)
    → (observe heap elapsed bytes r).catalog ≡ count_bytes (length bytes) r.catalog
unfolding observe observed observe_stream_terminal
observe-catalog heap elapsed bytes r =
    let scanned = observe_stream_terminal bytes (observed elapsed bytes r) in
    Kept-catalog bytes scanned _ (keep_bytes-Kept heap bytes scanned)
    ∙ frame-catalog (observed elapsed bytes r) scanned
        (scan_protocol-IsFrame r.stream_protocol bytes (observed elapsed bytes r))

-- The chunks one after another.
unfoldable pub observe_all : Allocator → List (ℕ × Bytes) → TraceRecorder → TraceRecorder
observe_all heap [] r = r
observe_all heap ((elapsed, bytes) ∷ rest) r = observe_all heap rest (observe heap elapsed bytes r)

unfoldable pub joined : List (ℕ × Bytes) → Bytes
joined [] = []
joined ((elapsed, bytes) ∷ rest) = bytes ++ joined rest

-- The time of the first chunk that is not empty.
unfoldable pub first_byte_of : List (ℕ × Bytes) → Option ℕ → Option ℕ
first_byte_of [] first = first
first_byte_of ((elapsed, bytes) ∷ rest) first =
    first_byte_of rest (mark_first_byte elapsed bytes first)

pub observe_all-Tracks :
    (heap : Allocator) (start : TraceRecorder) (chunks : List (ℕ × Bytes)) (seen : Bytes)
    (first : Option ℕ) (r : TraceRecorder)
    → Tracks start seen first r
    → Tracks start (seen ++ joined chunks) (first_byte_of chunks first) (observe_all heap chunks r)
unfolding observe_all joined first_byte_of
observe_all-Tracks heap start [] seen first r h =
    subst (λ v. Tracks start v first r) (sym (append-nil seen)) h
observe_all-Tracks heap start ((elapsed, bytes) ∷ rest) seen first r h =
    subst
      (λ v.
        Tracks start v (first_byte_of rest (mark_first_byte elapsed bytes first))
          (observe_all heap rest (observe heap elapsed bytes r)))
      (append_assoc seen bytes (joined rest))
      (observe_all-Tracks heap start rest (seen ++ bytes) _ _
        (observe-Tracks heap start seen bytes first elapsed r h))

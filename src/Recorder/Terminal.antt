-- ===== src/Recorder/Terminal.antt =====
-- `observe_stream_terminal` against a search in the whole stream: a marker that is cut by the bounds of
-- the chunks is found, and nothing else is.
use milk_carton.Base.{
  ℕ, ◌-◌, ◌≡◌, ◌⊎◌, inl, inr, refl, sym, ap, ◌∙◌, subst, Bool, true, false, ◌||◌, Option, none,
  some, List, [], ◌∷◌, ◌++◌, Bytes, length, take, drop, arith, All, Bool-cases, if-true, if-false,
  length-append, take-min, append-nil, append_empty, take-append-drop, min,
}
use milk_carton.Route.Types.{RouteEndpoint, chat_completions, responses}
use milk_carton.Recorder.{
  TraceRecorder, markers, tail_limit, any_marker, next_tail, scan, scan_protocol,
}
use milk_carton.Recorder.Search.{is_empty, Occurs, Occurs-append_left, Occurs-append_right}
use milk_carton.Recorder.Seam.{around, Occurs-around}
use milk_carton.Recorder.Markers.{
  AnyOccurs, IsWithin, any_marker-AnyOccurs, AnyOccurs-append, AnyOccurs-map, next_tail_lem,
  is_empty-nil,
}

-- What the recorder knows after it has seen these bytes.
abbrev ScannedBy : List Bytes → Bytes → Bool → Bytes → Type 0
ScannedBy ms stream found tail =
    ((found ≡ true) × AnyOccurs ms stream)
    ⊎ ((found ≡ false)
        × (AnyOccurs ms stream → ⊥)
        × (tail ≡ drop (length stream - tail_limit ms) stream))

abbrev pub Scanned : List Bytes → Bytes → TraceRecorder → Type 0
Scanned ms stream r = ScannedBy ms stream r.stream_terminal_seen r.stream_terminal_tail

module _ (ms : List Bytes) (within : All (IsWithin (tail_limit ms)) ms) (seen bytes : Bytes)
    (r : TraceRecorder) (fresh : r.stream_terminal_seen ≡ false) (absent : AnyOccurs ms seen → ⊥)
    (tail : r.stream_terminal_tail ≡ drop (length seen - tail_limit ms) seen) where
  -- Not in the new bytes and not around the seam.
  scan_absent :
      (AnyOccurs ms bytes → ⊥)
      → (AnyOccurs ms (around (tail_limit ms) seen bytes) → ⊥)
      → AnyOccurs ms (seen ++ bytes)
      → ⊥
  scan_absent first second occurs =
      elim (AnyOccurs-append (tail_limit ms) ms seen bytes within occurs) [
        | inl a ↦ absent a
        | inr (inl b) ↦ first b
        | inr (inr c) ↦ second c
      ]

  -- Around an empty tail there are only the first of the new bytes.
  around_empty :
      (AnyOccurs ms bytes → ⊥)
      → is_empty r.stream_terminal_tail ≡ true
      → AnyOccurs ms (around (tail_limit ms) seen bytes)
      → ⊥
  around_empty first empty occurs = first (
      AnyOccurs-map ms _ bytes all_of (
        subst (AnyOccurs ms)
          (ap (λ v. v ++ take (tail_limit ms) bytes) (sym tail ∙ is_empty-nil _ empty)) occurs))
    where
      all_of : (m : Bytes) → Occurs m (take (tail_limit ms) bytes) → Occurs m bytes
      all_of m h =
          subst (Occurs m) (take-append-drop (tail_limit ms) bytes)
            (Occurs-append_left m _ (drop (tail_limit ms) bytes) h)

  boundary :
      r.stream_terminal_tail ++ take (min (length bytes) (tail_limit ms)) bytes
      ≡ around (tail_limit ms) seen bytes
  boundary = rw (tail, take-min (tail_limit ms) bytes) refl

  missed : (v : Bytes) → any_marker ms v ≡ false → AnyOccurs ms v → ⊥
  missed v miss occurs = let hit = (any_marker-AnyOccurs (tail_limit ms) ms v within).1 occurs in cc

  next :
      next_tail (tail_limit ms) r.stream_terminal_tail bytes
      ≡ drop (length (seen ++ bytes) - tail_limit ms) (seen ++ bytes)
  next = rw tail (next_tail_lem (tail_limit ms) seen bytes)

  scan-Scanned : Scanned ms (seen ++ bytes) (scan ms bytes r)
  unfolding scan
  scan-Scanned = elim (Bool-cases (any_marker ms bytes)) [
    | inl hit ↦ rw hit (
        inl (
          refl,
          AnyOccurs-map ms bytes _ (λ m. Occurs-append_right m seen bytes)
              ((any_marker-AnyOccurs (tail_limit ms) ms bytes within).0 hit),
        ))
    | inr miss ↦
        let first : AnyOccurs ms bytes → ⊥ = missed bytes miss in
        elim (Bool-cases (is_empty r.stream_terminal_tail)) [
          | inl empty ↦
              rw (miss, empty) (inr (fresh, scan_absent first (around_empty first empty), next))
          | inr filled ↦
              elim (Bool-cases (
                any_marker ms
                  (r.stream_terminal_tail ++ take (min (length bytes) (tail_limit ms)) bytes))) [
                    | inl hit ↦
                        rw (miss, filled, hit)
                          (inl (
                            refl,
                            AnyOccurs-map ms _ _ (λ m. Occurs-around (tail_limit ms) m seen bytes)
                                ((any_marker-AnyOccurs (tail_limit ms) ms _ within).0
                                  (subst (λ v. any_marker ms v ≡ true) boundary hit)),
                          ))
                    | inr absent_there ↦
                        rw (miss, filled, absent_there)
                          (inr (
                            fresh,
                            scan_absent first (
                                missed _
                                  (subst (λ v. any_marker ms v ≡ false) boundary absent_there)),
                            next,
                          ))
                  ]
        ]
  ]

markers-IsWithin :
    (endpoint : RouteEndpoint) → All (IsWithin (tail_limit (markers endpoint))) (markers endpoint)
unfolding markers tail_limit
markers-IsWithin chat_completions = ((omega arith, omega arith), tt)
markers-IsWithin responses =
    ((omega arith, omega arith), ((omega arith, omega arith), ((omega arith, omega arith), tt)))

or_true : (b : Bool) → (b || true) ≡ true
or_true b = ground arith

-- What is known after a chunk.
scan_protocol-Scanned :
    (endpoint : RouteEndpoint) (seen bytes : Bytes) (r : TraceRecorder)
    → Scanned (markers endpoint) seen r
    → Scanned (markers endpoint) (seen ++ bytes) (scan_protocol (some endpoint) bytes r)
scan_protocol-Scanned endpoint seen bytes r (inl (found, occurs)) =
    subst (Scanned (markers endpoint) (seen ++ bytes))
      (sym (if-true (r.stream_terminal_seen || is_empty bytes) r _ (rw found refl)))
      (inl (
        found,
        AnyOccurs-map (markers endpoint) seen _ (λ m. Occurs-append_left m seen bytes) occurs,
      ))
scan_protocol-Scanned endpoint seen [] r (inr fresh) =
    subst (Scanned (markers endpoint) (seen ++ []))
      (sym (if-true (r.stream_terminal_seen || true) r _ (or_true r.stream_terminal_seen)))
      (rw (append-nil seen) (inr fresh))
scan_protocol-Scanned endpoint seen (b ∷ bytes) r (inr (fresh, absent, tail)) =
    subst (Scanned (markers endpoint) (seen ++ b ∷ bytes))
      (sym (
        if-false (r.stream_terminal_seen || false) r (scan (markers endpoint) (b ∷ bytes) r)
          (rw fresh refl)))
      (scan-Scanned (markers endpoint) (markers-IsWithin endpoint) seen (b ∷ bytes) r fresh absent
        tail)

AnyOccurs-nil : (limit : ℕ) (ms : List Bytes) → All (IsWithin limit) ms → AnyOccurs ms [] → ⊥
AnyOccurs-nil limit [] h occurs = occurs
AnyOccurs-nil limit (m ∷ ms) h (inl (before, after, e)) =
    let rest = append_empty before (m ++ after) (sym e) in
    omega (arith, h.0.0, length-append m after, ap (λ (v : Bytes). length v) rest)
AnyOccurs-nil limit (m ∷ ms) h (inr later) = AnyOccurs-nil limit ms h.1 later

-- No marker is within no bytes.
pub nothing_occurs : (endpoint : RouteEndpoint) → AnyOccurs (markers endpoint) [] → ⊥
nothing_occurs endpoint =
    AnyOccurs-nil (tail_limit (markers endpoint)) (markers endpoint) (markers-IsWithin endpoint)

-- Whether the stream has a terminal marker of its protocol, by a search in the whole of it.
unfoldable pub terminal_in : Option RouteEndpoint → Bytes → Bool
terminal_in none stream = false
terminal_in (some endpoint) stream = any_marker (markers endpoint) stream

-- `Scanned` for a protocol that may be absent.
abbrev ScansBy : Option RouteEndpoint → Bytes → Bool → Bytes → Type 0
ScansBy none stream found tail = found ≡ false
ScansBy (some endpoint) stream found tail = ScannedBy (markers endpoint) stream found tail

abbrev pub Scans : Option RouteEndpoint → Bytes → TraceRecorder → Type 0
Scans protocol stream r = ScansBy protocol stream r.stream_terminal_seen r.stream_terminal_tail

pub scan_protocol-Scans :
    (protocol : Option RouteEndpoint) (seen bytes : Bytes) (r : TraceRecorder)
    → Scans protocol seen r
    → Scans protocol (seen ++ bytes) (scan_protocol protocol bytes r)
scan_protocol-Scans none seen bytes r h = h
scan_protocol-Scans (some endpoint) seen bytes r h = scan_protocol-Scanned endpoint seen bytes r h

pub seen-terminal_in :
    (protocol : Option RouteEndpoint) (stream : Bytes) (r : TraceRecorder)
    → Scans protocol stream r
    → r.stream_terminal_seen ≡ terminal_in protocol stream
unfolding terminal_in
seen-terminal_in none stream r h = h
seen-terminal_in (some endpoint) stream r (inl (found, occurs)) =
    found
    ∙ sym (
        (any_marker-AnyOccurs (tail_limit (markers endpoint)) (markers endpoint) stream
            (markers-IsWithin endpoint)).1
          occurs)
seen-terminal_in (some endpoint) stream r (inr (unseen, absent, tail)) =
    elim (Bool-cases (any_marker (markers endpoint) stream)) [
      | inl hit ↦ absurd (
          absent (
            (any_marker-AnyOccurs (tail_limit (markers endpoint)) (markers endpoint) stream
                (markers-IsWithin endpoint)).0
              hit))
      | inr miss ↦ unseen ∙ sym miss
    ]

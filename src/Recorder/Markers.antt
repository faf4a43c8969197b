-- ===== src/Recorder/Markers.antt =====
-- `observe_stream_terminal` against a search for the markers: what the tail of the stream must keep.
use milk_carton.Base.{
  ℕ, ◌+◌, ◌-◌, ◌≤◌, ◌<◌, ◌≡◌, ◌↔◌, ◌⊎◌, inl, inr, refl, sym, ap, ◌∙◌, true, false, List, [], ◌∷◌,
  ◌++◌, Bytes, length, drop, leb, arith, All, Some, Bool-cases, length-append, length-drop,
  drop_within, drop_past, drop-drop,
}
use milk_carton.Recorder.{any_marker, next_tail}
use milk_carton.Recorder.Search.{is_empty, Occurs, contains_bytes-Occurs}
use milk_carton.Recorder.Seam.{around, Occurs-append}

-- One of the markers is a part of the value.
abbrev pub AnyOccurs : List Bytes → Bytes → Type 0
AnyOccurs all_markers value = Some (λ marker. Occurs marker value) all_markers

-- Markers that a tail of `limit` bytes is long enough for.
abbrev pub IsWithin : ℕ → Bytes → Type 0
IsWithin limit marker = (0 < length marker) × (length marker ≤ limit + 1)

pub any_marker-AnyOccurs :
    (limit : ℕ) (ms : List Bytes) (value : Bytes)
    → All (IsWithin limit) ms
    → (any_marker ms value ≡ true) ↔ AnyOccurs ms value
unfolding any_marker
any_marker-AnyOccurs limit [] value h = (λ e. cc, λ a. absurd a)
any_marker-AnyOccurs limit (m ∷ ms) value h =
    ground (arith, contains_bytes-Occurs value m h.0.0, any_marker-AnyOccurs limit ms value h.1)

pub AnyOccurs-append :
    (limit : ℕ) (ms : List Bytes) (first second : Bytes)
    → All (IsWithin limit) ms
    → AnyOccurs ms (first ++ second)
    → AnyOccurs ms first ⊎ (AnyOccurs ms second ⊎ AnyOccurs ms (around limit first second))
AnyOccurs-append limit [] first second h occurs = absurd occurs
AnyOccurs-append limit (m ∷ ms) first second h (inl here) =
    elim (Occurs-append limit m first second h.0.1 here) [
      | inl a ↦ inl (inl a)
      | inr (inl b) ↦ inr (inl (inl b))
      | inr (inr c) ↦ inr (inr (inl c))
    ]
AnyOccurs-append limit (m ∷ ms) first second h (inr later) =
    elim (AnyOccurs-append limit ms first second h.1 later) [
      | inl a ↦ inl (inr a)
      | inr (inl b) ↦ inr (inl (inr b))
      | inr (inr c) ↦ inr (inr (inr c))
    ]

pub AnyOccurs-map :
    (ms : List Bytes) (v w : Bytes)
    → ((m : Bytes) → Occurs m v → Occurs m w)
    → AnyOccurs ms v
    → AnyOccurs ms w
AnyOccurs-map [] v w f occurs = absurd occurs
AnyOccurs-map (m ∷ ms) v w f (inl here) = inl (f m here)
AnyOccurs-map (m ∷ ms) v w f (inr later) = inr (AnyOccurs-map ms v w f later)

pub next_tail_lem :
    (limit : ℕ) (seen bytes : Bytes)
    → next_tail limit (drop (length seen - limit) seen) bytes
      ≡ drop (length (seen ++ bytes) - limit) (seen ++ bytes)
unfolding next_tail
next_tail_lem limit seen bytes = elim (Bool-cases (leb limit (length bytes))) [
  | inl long ↦ rw long (
      sym (drop_past (length bytes - limit) seen bytes)
      ∙ ap (λ k. drop k (seen ++ bytes)) (ground (arith, long, length-append seen bytes)))
  | inr short ↦ rw short (
      ap (λ v. v ++ bytes)
        (drop-drop _ (length seen - limit) seen ∙ ap (λ k. drop k seen) (count short))
      ∙ sym (
          drop_within (length (seen ++ bytes) - limit) seen bytes
            (ground (arith, short, length-append seen bytes))))
]
  where
    count :
        leb limit (length bytes) ≡ false
        → (length seen - limit)
            + (length (drop (length seen - limit) seen) - (limit - length bytes))
          ≡ length (seen ++ bytes) - limit
    count short =
        ground (arith, short, length-append seen bytes, length-drop (length seen - limit) seen)

pub is_empty-nil : (v : Bytes) → is_empty v ≡ true → v ≡ []
is_empty-nil [] h = refl
is_empty-nil (b ∷ v) h = cc

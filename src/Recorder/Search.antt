-- ===== src/Recorder/Search.antt =====
-- `contains_bytes` of main.rs, with the search that it specifies.
use milk_carton.Base.{
  ℕ, ◌≤◌, ◌<◌, ◌≡◌, ◌↔◌, ◌⊎◌, inl, inr, sym, ap, ◌∙◌, Bool, true, false, ◌&&◌, not, List, [], ◌∷◌,
  ◌++◌, Bytes, length, take, drop, any, leb, arith, ◌==◌, ==_iff, ℕ-Eq, List-Eq, length-append,
  append_assoc, take-append, take-append-drop,
}

-- `<[u8]>::is_empty`
abbrev pub is_empty : Bytes → Bool
is_empty [] = true
is_empty (b ∷ rest) = false

-- `value.windows(size)`
unfoldable windows : ℕ → Bytes → List Bytes
windows size [] = []
windows size (b ∷ rest) = elim (leb size (length (b ∷ rest))) [
  | true ↦ take size (b ∷ rest) ∷ windows size rest
  | false ↦ []
]

unfoldable pub contains_bytes : Bytes → Bytes → Bool
unfolding windows
contains_bytes value needle =
    not (is_empty needle) && any (λ window. window == needle) (windows (length needle) value)

-- The needle is a contiguous part of the value.
abbrev pub Occurs : Bytes → Bytes → Type 0
Occurs needle value = (before : Bytes) × (after : Bytes) × (value ≡ before ++ (needle ++ after))

-- The first window, or a later one.
windows-cases :
    (needle : Bytes) (b : ℕ) (rest : Bytes)
    → any (λ window. window == needle) (windows (length needle) (b ∷ rest)) ≡ true
    → (take (length needle) (b ∷ rest) ≡ needle)
      ⊎ (any (λ window. window == needle) (windows (length needle) rest) ≡ true)
unfolding windows
windows-cases needle b rest = ground (arith, ==_iff (take (length needle) (b ∷ rest)) needle)

windows-Occurs :
    (needle value : Bytes)
    → any (λ window. window == needle) (windows (length needle) value) ≡ true
    → Occurs needle value
unfolding windows
windows-Occurs needle [] h = cc
windows-Occurs needle (b ∷ rest) h = elim (windows-cases needle b rest h) [
  | inl here ↦ (
    [],
    drop (length needle) (b ∷ rest),
    sym (
        ap (λ window. window ++ drop (length needle) (b ∷ rest)) (sym here)
        ∙ take-append-drop (length needle) (b ∷ rest)),
  )
  | inr later ↦ let (before, after, e) = windows-Occurs needle rest later in (b ∷ before, after, cc)
]

windows_first :
    (needle : Bytes) (b : ℕ) (rest : Bytes)
    → length needle ≤ length (b ∷ rest)
    → take (length needle) (b ∷ rest) ≡ needle
    → any (λ window. window == needle) (windows (length needle) (b ∷ rest)) ≡ true
unfolding windows
windows_first needle b rest = ground (arith, ==_iff (take (length needle) (b ∷ rest)) needle)

windows_later :
    (needle : Bytes) (b : ℕ) (rest : Bytes)
    → length needle ≤ length (b ∷ rest)
    → any (λ window. window == needle) (windows (length needle) rest) ≡ true
    → any (λ window. window == needle) (windows (length needle) (b ∷ rest)) ≡ true
unfolding windows
windows_later needle b rest = ground arith

Occurs-windows :
    (needle before after : Bytes)
    → 0 < length needle
    → any (λ window. window == needle) (windows (length needle) (before ++ (needle ++ after)))
      ≡ true
Occurs-windows [] [] after h = absurd (omega arith)
Occurs-windows (n ∷ needle) [] after h =
    windows_first (n ∷ needle) n (needle ++ after) (omega (arith, length-append needle after))
      (ap (λ r. n ∷ r) (take-append needle after))
Occurs-windows needle (b ∷ before) after h =
    windows_later needle b (before ++ (needle ++ after))
      (omega (arith, length-append before (needle ++ after), length-append needle after))
      (Occurs-windows needle before after h)

pub contains_bytes-Occurs :
    (value needle : Bytes)
    → 0 < length needle
    → (contains_bytes value needle ≡ true) ↔ Occurs needle value
unfolding contains_bytes
contains_bytes-Occurs value [] h = absurd (omega arith)
contains_bytes-Occurs value (n ∷ needle) h = (
  windows-Occurs (n ∷ needle) value,
  λ (before, after, e). rw e (Occurs-windows (n ∷ needle) before after h),
)

pub Occurs-append_left : (needle xs ys : Bytes) → Occurs needle xs → Occurs needle (xs ++ ys)
Occurs-append_left needle xs ys (before, after, e) = (
  before,
  after ++ ys,
  ap (λ v. v ++ ys) e
      ∙ append_assoc before (needle ++ after) ys
      ∙ ap (λ v. before ++ v) (append_assoc needle after ys),
)

pub Occurs-append_right : (needle xs ys : Bytes) → Occurs needle ys → Occurs needle (xs ++ ys)
Occurs-append_right needle xs ys (before, after, e) =
    (xs ++ before, after, ap (λ v. xs ++ v) e ∙ sym (append_assoc xs before (needle ++ after)))

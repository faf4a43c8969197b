-- ===== src/Recorder/Seam.antt =====
-- Where a needle in an append can stand: in one of the parts, or across the seam.
use milk_carton.Base.{
  ℕ, ◌+◌, ◌-◌, ◌≤◌, ◌≡◌, ◌⊎◌, inl, inr, refl, sym, ap, ◌∙◌, subst, [], ◌∷◌, ◌++◌, Bytes, length,
  take, drop, arith, length-append, append-cases, append_assoc, take_past, take-append-drop,
  drop_within, append-nil,
}
use milk_carton.Recorder.Search.{Occurs, Occurs-append_left, Occurs-append_right}

-- The bytes around the seam: the last of the first part, and the first of the second.
abbrev pub around : ℕ → Bytes → Bytes → Bytes
around limit first second = drop (length first - limit) first ++ take limit second

-- What stands across the seam occurs in the bytes around it.
Occurs-seam :
    (limit : ℕ) (before left right after : Bytes)
    → length left ≤ limit
    → length right ≤ limit
    → Occurs (left ++ right) (around limit (before ++ left) (right ++ after))
Occurs-seam limit before left right after l r = (drop cut before, rest, cut_first ∙ regroup)
  where
    cut : ℕ
    cut = length (before ++ left) - limit

    rest : Bytes
    rest = take (limit - length right) after

    bounded : cut ≤ length before
    bounded = omega (arith, length-append before left)

    second : take limit (right ++ after) ≡ right ++ rest
    second =
        ap (λ k. take k (right ++ after)) (omega arith)
        ∙ take_past (limit - length right) right after

    cut_first :
        around limit (before ++ left) (right ++ after)
        ≡ (drop cut before ++ left) ++ (right ++ rest)
    cut_first = rw (second, drop_within cut before left bounded) refl

    regroup :
        (drop cut before ++ left) ++ (right ++ rest) ≡ drop cut before ++ ((left ++ right) ++ rest)
    regroup =
        append_assoc (drop cut before) left (right ++ rest)
        ∙ ap (λ v. drop cut before ++ v) (sym (append_assoc left right rest))

Occurs-cases :
    (limit : ℕ) (before left right after : Bytes)
    → length (left ++ right) ≤ limit + 1
    → Occurs (left ++ right) (before ++ left)
      ⊎ (Occurs (left ++ right) (right ++ after)
          ⊎ Occurs (left ++ right) (around limit (before ++ left) (right ++ after)))
Occurs-cases limit before [] right after h = inr (inl ([], after, refl))
Occurs-cases limit before (l ∷ left) [] after h = inl (
  before,
  [],
  ap (λ v. before ++ v) (sym (append-nil ((l ∷ left) ++ []) ∙ append-nil (l ∷ left))),
)
Occurs-cases limit before (l ∷ left) (r ∷ right) after h = inr (
    inr (
      Occurs-seam limit before (l ∷ left) (r ∷ right) after
        (omega (arith, length-append (l ∷ left) (r ∷ right)))
        (omega (arith, length-append (l ∷ left) (r ∷ right)))))

-- A needle of at most `limit + 1` bytes occurs in an append just when it occurs in one of the parts or
-- around the seam.
pub Occurs-append :
    (limit : ℕ) (needle first second : Bytes)
    → length needle ≤ limit + 1
    → Occurs needle (first ++ second)
    → Occurs needle first ⊎ (Occurs needle second ⊎ Occurs needle (around limit first second))
Occurs-append limit needle first second h (before, after, e) =
    elim (append-cases before (needle ++ after) first second (sym e)) [
      | inl (mid, e1, e2) ↦ elim (append-cases needle after mid second e2) [
        | inl (rest, f1, f2) ↦ inl (before, rest, e1 ∙ ap (λ v. before ++ v) f1)
        | inr (rest, f1, f2) ↦
            rw (e1, f1, f2) (Occurs-cases limit before mid rest after (rw f1 at h))
      ]
      | inr (mid, e1, e2) ↦ inr (inl (mid, after, e2))
    ]

pub Occurs-around :
    (limit : ℕ) (needle first second : Bytes)
    → Occurs needle (around limit first second)
    → Occurs needle (first ++ second)
Occurs-around limit needle first second h =
    subst (λ v. Occurs needle v) rejoined
      (Occurs-append_right needle (take cut first) _
        (Occurs-append_left needle _ (drop limit second) h))
  where
    cut : ℕ
    cut = length first - limit

    rejoined : take cut first ++ (around limit first second ++ drop limit second) ≡ first ++ second
    rejoined =
        ap (λ v. take cut first ++ v)
          (append_assoc (drop cut first) (take limit second) (drop limit second))
        ∙ ap (λ v. take cut first ++ (drop cut first ++ v)) (take-append-drop limit second)
        ∙ sym (append_assoc (take cut first) (drop cut first) second)
        ∙ ap (λ v. v ++ second) (take-append-drop cut first)

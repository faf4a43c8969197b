-- ===== src/Stats/Counts.antt =====
-- Saturating counters, the entries of a `BTreeMap` of counters, and arrays of buckets.
use milk_carton.Base.{
  ℕ, zero, suc, ◌+◌, ◌-◌, ◌^◌, ◌≤◌, ◌<◌, ◌≡◌, refl, ap, ◌∙◌, min, Bool, true, false, ◌||◌, Option,
  none, some, List, [], ◌∷◌, length, leb, if◌then◌else◌, ◌==◌, Eq, ==_iff, arith, All, Bool-cases,
  inl, inr,
}

-- `u64::MAX`
abbrev pub u64_max : ℕ
u64_max = 2 ^ 64 - 1

-- `u64::saturating_add`
abbrev pub sat_add : ℕ → ℕ → ℕ
sat_add a b = min (a + b) u64_max

-- `u64::from(bool)`
abbrev pub from_bool : Bool → ℕ
from_bool true = 1
from_bool false = 0

-- `u64::checked_add`
abbrev pub checked_add : ℕ → ℕ → Option ℕ
checked_add a b = if leb (a + b) u64_max then some (a + b) else none

-- `iter().position(|upper| value <= *upper).unwrap_or(len)`
unfoldable pub position : ℕ → List ℕ → ℕ
position value [] = 0
position value (upper ∷ rest) =
    let later = suc (position value rest) in if leb value upper then 0 else later

-- One more in a bucket.
unfoldable pub bump_at : ℕ → List ℕ → List ℕ
bump_at i [] = []
bump_at zero (x ∷ xs) = sat_add x 1 ∷ xs
bump_at (suc i) (x ∷ xs) = x ∷ bump_at i xs

-- The buckets of two arrays, one by one.
unfoldable pub add_all : List ℕ → List ℕ → List ℕ
add_all (x ∷ xs) (y ∷ ys) = sat_add x y ∷ add_all xs ys
add_all xs [] = xs
add_all [] ys = []

unfoldable pub sum : List ℕ → ℕ
sum [] = 0
sum (x ∷ xs) = x + sum xs

-- `try_fold(0, u64::checked_add)`, from a total.
unfoldable pub checked_sum : ℕ → List ℕ → Option ℕ
checked_sum total [] = some total
checked_sum total (x ∷ xs) = elim (checked_add total x) [
  | none ↦ none
  | some next ↦ checked_sum next xs
]

module _ {ℓ} {K : Type ℓ} ⦃e : Eq K⦄ where
  -- `*entry(key).or_default() = count.saturating_add(n)`
  unfoldable pub bump : K → ℕ → List (K × ℕ) → List (K × ℕ)
  bump key n [] = (key, sat_add 0 n) ∷ []
  bump key n ((k, count) ∷ rest) =
      let later = bump key n rest in
      if k == key then (k, sat_add count n) ∷ rest else (k, count) ∷ later

  unfoldable pub contains_key : K → List (K × ℕ) → Bool
  contains_key key [] = false
  contains_key key ((k, count) ∷ rest) = k == key || contains_key key rest

  -- The loop of `merge` over another map.
  unfoldable pub merge_counts : List (K × ℕ) → List (K × ℕ) → List (K × ℕ)
  merge_counts counts [] = counts
  merge_counts counts ((key, n) ∷ other) = merge_counts (bump key n counts) other

unfoldable pub values {ℓ} : {K : Type ℓ} → List (K × ℕ) → List ℕ
values [] = []
values ((k, n) ∷ rest) = n ∷ values rest

abbrev pub IsPositive : ℕ → Type 0
IsPositive n = 0 < n

pub position-le : (value : ℕ) (uppers : List ℕ) → position value uppers ≤ length uppers
unfolding position
position-le value [] = omega arith
position-le value (upper ∷ rest) = ground (arith, position-le value rest)

pub length-bump_at : (i : ℕ) (xs : List ℕ) → length (bump_at i xs) ≡ length xs
unfolding bump_at
length-bump_at i [] = refl
length-bump_at zero (x ∷ xs) = refl
length-bump_at (suc i) (x ∷ xs) = omega (arith, length-bump_at i xs)

pub sum-bump_at :
    (i : ℕ) (xs : List ℕ) → i < length xs → sum xs < u64_max → sum (bump_at i xs) ≡ sum xs + 1
unfolding sum bump_at
sum-bump_at i [] h u = absurd (omega (arith, h))
sum-bump_at zero (x ∷ xs) h u = omega (arith, u)
sum-bump_at (suc i) (x ∷ xs) h u =
    omega (arith, sum-bump_at i xs (omega (arith, h)) (omega (arith, u)))

-- A fold of checked additions succeeds when the total fits.
pub checked_sum-sum :
    (total : ℕ) (xs : List ℕ)
    → total + sum xs ≤ u64_max
    → checked_sum total xs ≡ some (total + sum xs)
unfolding checked_sum sum
checked_sum-sum total [] h = ap some (omega arith)
checked_sum-sum total (x ∷ xs) h =
    let fits : leb (total + x) u64_max ≡ true = ground (arith, h) in
    rw (fits, checked_sum)
      (checked_sum-sum (total + x) xs (omega (arith, h)) ∙ ap some (omega arith))

module _ {ℓ} {K : Type ℓ} ⦃e : Eq K⦄ where
  pub sum-bump :
      (key : K) (counts : List (K × ℕ))
      → sum (values counts) < u64_max
      → sum (values (bump key 1 counts)) ≡ sum (values counts) + 1
  unfolding sum values bump
  sum-bump key [] u = omega arith
  sum-bump key ((k, n) ∷ rest) u = elim (Bool-cases (k == key)) [
    | inl same ↦ rw same (omega (arith, u))
    | inr other ↦ rw other (omega (arith, sum-bump key rest (omega (arith, u))))
  ]

  pub IsPositive-bump :
      (key : K) (counts : List (K × ℕ))
      → All IsPositive (values counts)
      → All IsPositive (values (bump key 1 counts))
  unfolding values bump
  IsPositive-bump key [] h = (omega arith, tt)
  IsPositive-bump key ((k, n) ∷ rest) h = elim (Bool-cases (k == key)) [
    | inl same ↦ rw same (omega arith, h.1)
    | inr other ↦ rw other (h.0, IsPositive-bump key rest h.1)
  ]

  -- A new key is one more entry.
  pub length-bump :
      (key : K) (n : ℕ) (counts : List (K × ℕ))
      → length (bump key n counts)
        ≡ (if contains_key key counts then length counts else suc (length counts))
  unfolding bump contains_key
  length-bump key n [] = refl
  length-bump key n ((k, c) ∷ rest) = elim (Bool-cases (k == key)) [
    | inl same ↦ rw same refl
    | inr other ↦ elim (Bool-cases (contains_key key rest)) [
      | inl there ↦ rw (other, there) (omega (arith, rw there at (length-bump key n rest)))
      | inr absent ↦ rw (other, absent) (omega (arith, rw absent at (length-bump key n rest)))
    ]
  ]

  -- A key that is bumped is there, and so are those that were.
  pub contains_key-bump :
      (other key : K) (n : ℕ) (counts : List (K × ℕ))
      → contains_key other (bump key n counts) ≡ (contains_key other counts || key == other)
  unfolding bump contains_key
  contains_key-bump other key n [] = ground arith
  contains_key-bump other key n ((k, c) ∷ rest) = elim (Bool-cases (k == key)) [
    | inl same ↦ rw same (ground (arith, (==_iff k key).0 same))
    | inr differs ↦ rw differs (ground (arith, contains_key-bump other key n rest))
  ]

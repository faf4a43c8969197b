-- ===== src/Stats/Accounts/Maps.antt =====
-- The parts of `observe` that count in maps: the route and the error class.
use milk_carton.Base.{
  ℕ, ◌+◌, ◌-◌, ◌<◌, inl, inr, refl, Option, none, some, List, [], ◌∷◌, Bytes, length, codes, All,
  List-Eq, ℕ-Eq, arith, ◌==◌, ==_iff, Bool-cases, ltb, ◌||◌,
}
use milk_carton.Text.Utf8.{trim, trim_start, from_utf8}
use milk_carton.Route.Decide.{chars}
use milk_carton.Stats.Counts.{
  u64_max, contains_key, bump, sum-bump, IsPositive-bump, length-bump, contains_key-bump,
}
use milk_carton.Stats.Values.{RouteObservation, ineligible, fallback, StatsValues}
use milk_carton.Stats.{
  observe_route, observe_error, error_key, block_reason_key, fallback_reason_key,
}
use milk_carton.Stats.Valid.{class_valid, keys}
use milk_carton.Stats.Accounts.{Progress, Accounts, Bounded, IsClass, OptionClass}

pub observe_route-Accounts :
    (p : Progress) (route : RouteObservation) (v : StatsValues)
    → p.routes < u64_max
    → Accounts p v
    → Accounts (record p { routes = p.routes + 1 }) (observe_route route v)
unfolding observe_route
observe_route-Accounts p (ineligible reason) v u h =
    let key = block_reason_key reason in
    let counted = sum-bump key v.route_blocked_reason_counts (omega (arith, h.4.0, h.4.2, u)) in
    (
      h.0,
      h.1,
      h.2,
      h.3,
      (
        omega (arith, h.4.0, u),
        h.4.1,
        omega (arith, counted, h.4.0, h.4.2, u),
        h.4.3,
        omega (arith, h.4.0, h.4.1, h.4.3, h.4.4, u),
        IsPositive-bump key v.route_blocked_reason_counts h.4.5,
        h.4.6,
      ),
      h.5,
      h.6,
      h.7,
      h.8,
    )
observe_route-Accounts p RouteObservation.not_selected v u h = (
  h.0,
  h.1,
  h.2,
  h.3,
  (
    omega (arith, h.4.0, u),
    omega (arith, h.4.0, h.4.1, u),
    h.4.2,
    h.4.3,
    omega (arith, h.4.0, h.4.1, h.4.3, h.4.4, u),
    h.4.5,
    h.4.6,
  ),
  h.5,
  h.6,
  h.7,
  h.8,
)
observe_route-Accounts p RouteObservation.candidate v u h = (
  h.0,
  h.1,
  h.2,
  h.3,
  (
    omega (arith, h.4.0, u),
    omega (arith, h.4.0, h.4.1, u),
    h.4.2,
    omega (arith, h.4.0, h.4.1, h.4.3, u),
    h.4.4,
    h.4.5,
    h.4.6,
  ),
  h.5,
  h.6,
  h.7,
  h.8,
)
observe_route-Accounts p (fallback reason) v u h =
    let key = fallback_reason_key reason in
    let counted = sum-bump key v.route_fallback_counts (omega (arith, h.4.0, h.4.1, h.4.3, u)) in
    (
      h.0,
      h.1,
      h.2,
      h.3,
      (
        omega (arith, h.4.0, u),
        omega (arith, h.4.0, h.4.1, u),
        h.4.2,
        omega (arith, counted, h.4.0, h.4.1, h.4.3, u),
        omega (arith, counted, h.4.0, h.4.1, h.4.3, h.4.4, u),
        h.4.5,
        IsPositive-bump key v.route_fallback_counts h.4.6,
      ),
      h.5,
      h.6,
      h.7,
      h.8,
    )

keys-bump :
    (P : Bytes → Type 0) (key : Bytes) (n : ℕ) (counts : List (Bytes × ℕ))
    → P key
    → All P (keys counts)
    → All P (keys (bump key n counts))
unfolding bump
keys-bump P key n [] p h = (p, tt)
keys-bump P key n ((k, c) ∷ rest) p h = elim (Bool-cases (k == key)) [
  | inl same ↦ rw same h
  | inr other ↦ rw other (h.0, keys-bump P key n rest p h.1)
]

other_IsClass : IsClass (codes "other")
unfolding class_valid trim trim_start chars from_utf8
other_IsClass = refl

error_key-IsClass :
    (error : Bytes) (errors : List (Bytes × ℕ)) → IsClass error → IsClass (error_key error errors)
unfolding error_key
error_key-IsClass error errors valid =
    elim (Bool-cases (contains_key error errors || ltb (length errors) (64 - 1))) [
      | inl own ↦ rw own valid
      | inr shared ↦ rw shared other_IsClass
    ]

-- At most 63 classes have their own name, and `other` is the 64th.
error_key-Bounded :
    (error : Bytes) (errors : List (Bytes × ℕ))
    → Bounded errors
    → Bounded (bump (error_key error errors) 1 errors)
unfolding error_key
error_key-Bounded error errors bounded =
    elim (Bool-cases (contains_key error errors || ltb (length errors) (64 - 1))) [
      | inl own ↦ rw own (
          ground (
            arith,
            own,
            bounded,
            length-bump error 1 errors,
            contains_key-bump (codes "other") error 1 errors,
          ))
      | inr shared ↦ rw shared (
          ground (
            arith,
            shared,
            bounded,
            length-bump (codes "other") 1 errors,
            contains_key-bump (codes "other") (codes "other") 1 errors,
            (==_iff (codes "other") (codes "other")).1 refl,
          ))
    ]

pub observe_error-Accounts :
    (p : Progress) (error : Option Bytes) (v : StatsValues)
    → p.errors < u64_max
    → OptionClass error
    → Accounts p v
    → Accounts (record p { errors = p.errors + 1 }) (observe_error error v)
unfolding observe_error
observe_error-Accounts p none v u valid h =
    (h.0, h.1, h.2, h.3, h.4, h.5, h.6, (omega (arith, h.7.0), h.7.1, h.7.2, h.7.3), h.8)
observe_error-Accounts p (some error) v u valid h =
    let key = error_key error v.errors in
    (
      h.0,
      h.1,
      h.2,
      h.3,
      h.4,
      h.5,
      h.6,
      (
        omega (arith, sum-bump key v.errors (omega (arith, h.7.0, u)), h.7.0),
        IsPositive-bump key v.errors h.7.1,
        keys-bump IsClass key 1 v.errors (error_key-IsClass error v.errors valid) h.7.2,
        error_key-Bounded error v.errors h.7.3,
      ),
      h.8,
    )

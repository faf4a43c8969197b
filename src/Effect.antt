-- ===== src/Effect.antt =====
-- Stateful code that can fail: an operation on the state of a store returns a result and the state
-- that it leaves, also when it fails.
use milk_carton.Base.{◌≡◌, ◌⊎◌, inl, inr, refl, Bool, true, false, if◌then◌else◌, Result, ok, err}

abbrev pub Act {ℓ} : Type 0 → Type ℓ → Type ℓ
Act S A = S → Result A × S

module _ {S : Type 0} where
  abbrev pub continue {ℓ κ} :
      {A : Type ℓ} {B : Type κ} → Result A × S → (A → Act S B) → Result B × S
  continue (err message, s) next = (err message, s)
  continue (ok value, s) next = next value s

  infixl 5 ◌>>=◌ ◌>>◌
  -- `?` on what an operation returns.
  abbrev pub ◌>>=◌ {ℓ κ} : {A : Type ℓ} {B : Type κ} → Act S A → (A → Act S B) → Act S B
  ◌>>=◌ first next s = continue (first s) next

  abbrev pub ◌>>◌ {ℓ κ} : {A : Type ℓ} {B : Type κ} → Act S A → Act S B → Act S B
  first >> second = first >>= λ _. second

  -- Code that does not touch the store.
  abbrev pub lift {ℓ} : {A : Type ℓ} → Result A → Act S A
  lift result s = (result, s)

  abbrev pub return {ℓ} : {A : Type ℓ} → A → Act S A
  return value s = (ok value, s)

  pub continue-eq-ok {ℓ κ} :
      {A : Type ℓ} {B : Type κ} (first : Result A × S) (next : A → Act S B) (final : B) (s' : S)
      → continue first next ≡ (ok final, s')
      → (value : A) × (s : S) × (first ≡ (ok value, s)) × (next value s ≡ (ok final, s'))
  continue-eq-ok (err message, s) next final s' h = cc
  continue-eq-ok (ok value, s) next final s' h = (value, s, refl, h)

  -- What every operation of a chain keeps, the chain keeps, however it ends.
  pub continue-keeps {ℓ κ μ} :
      {A : Type ℓ} {B : Type κ} (P : S → Type μ) (first : Result A × S) (next : A → Act S B)
      → P first.1
      → ((value : A) (s : S) → first ≡ (ok value, s) → P s → P (next value s).1)
      → P (continue first next).1
  continue-keeps P (err message, s) next h k = h
  continue-keeps P (ok value, s) next h k = k value s refl h

  pub if-cases {ℓ} :
      {A : Type ℓ} (b : Bool) (first second : Act S A) (s : S) {final : Result A × S}
      → (if b then first else second) s ≡ final
      → ((b ≡ true) × (first s ≡ final)) ⊎ ((b ≡ false) × (second s ≡ final))
  if-cases true first second s h = inl (refl, h)
  if-cases false first second s h = inr (refl, h)

  pub if-keeps {ℓ μ} :
      {A : Type ℓ} (P : S → Type μ) (b : Bool) (first second : Act S A) (s : S)
      → P (first s).1
      → P (second s).1
      → P ((if b then first else second) s).1
  if-keeps P true first second s h k = h
  if-keeps P false first second s h k = k

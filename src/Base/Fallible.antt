-- ===== src/Base/Fallible.antt =====
-- `anyhow::Result`: an error is the message that the code gives, the outermost context.
use Prim.Native.String.{String}
use mathlib.Core.Path.{◌≡◌, refl}
use mathlib.Core.Bool.{Bool, true, false}
use milk_carton.Base.Tests.{if◌then◌else◌}
use mathlib.Core.Option.{Option, none, some}

pub data Result {ℓ} (A : Type ℓ) : Type ℓ where
  ok : A → Result A
  err : String → Result A

infixl 5 ◌>>=◌ ◌>>◌
abbrev pub ◌>>=◌ {ℓ κ} : {A : Type ℓ} {B : Type κ} → Result A → (A → Result B) → Result B
err message >>= next = err message
ok value >>= next = next value

abbrev pub ◌>>◌ {ℓ κ} : {A : Type ℓ} {B : Type κ} → Result A → Result B → Result B
first >> second = first >>= λ _. second

-- `if condition { bail!(message) }`
abbrev pub bail_if : Bool → String → Result (Unit {0})
bail_if true e = err e
bail_if false e = ok tt

-- `Option::context`
abbrev pub context {ℓ} : {A : Type ℓ} → Option A → String → Result A
context none e = err e
context (some a) e = ok a

-- `Option<Result>::transpose`
abbrev pub transpose {ℓ} : {A : Type ℓ} → Option (Result A) → Result (Option A)
transpose none = ok none
transpose (some (ok a)) = ok (some a)
transpose (some (err e)) = err e

pub >>=-eq-ok {ℓ κ} :
    {A : Type ℓ} {B : Type κ} (first : Result A) (next : A → Result B) {final : B}
    → (first >>= next) ≡ ok final
    → (value : A) × (first ≡ ok value) × (next value ≡ ok final)
>>=-eq-ok (err message) next h = cc
>>=-eq-ok (ok value) next h = (value, refl, h)

pub bail_if-eq-ok {ℓ} :
    {A : Type ℓ} (b : Bool) (e : String) (k : Result A) {a : A}
    → (bail_if b e >> k) ≡ ok a
    → (b ≡ false) × (k ≡ ok a)
bail_if-eq-ok true e k h = cc
bail_if-eq-ok false e k h = (refl, h)

pub context-eq-ok {ℓ} :
    {A : Type ℓ} (o : Option A) (e : String) {a : A} → context o e ≡ ok a → o ≡ some a
context-eq-ok none e h = cc
context-eq-ok (some x) e h = cc

pub ok-injective {ℓ} : {A : Type ℓ} {a b : A} → ok a ≡ ok b → a ≡ b
ok-injective h = cc

pub bail_if-ok : (b : Bool) (e : String) → bail_if b e ≡ ok tt → b ≡ false
bail_if-ok true e h = cc
bail_if-ok false e h = refl

pub if-eq-ok {ℓ} :
    {A : Type ℓ} (b : Bool) (e : String) (k : Result A) {a : A}
    → (if b then err e else k) ≡ ok a
    → (b ≡ false) × (k ≡ ok a)
if-eq-ok true e k h = cc
if-eq-ok false e k h = (refl, h)

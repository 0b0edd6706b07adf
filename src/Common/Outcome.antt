-- ===== src/Common/Outcome.antt =====
-- A computation that may fail: Rust's `Result`, with the error type as a parameter.
use mathlib.Core.Path.{◌≡◌, refl}
use mathlib.Core.Logic.{◌⊎◌, inl, inr}
use mathlib.Core.Bool.{Bool, true, false}
use mathlib.Core.Option.{Option, none, some}
use native.Mathlib.Omega.{arith}

pub data Result {ℓ κ} (E : Type κ) (A : Type ℓ) : Type (ℓ ⊔ κ) where
  ok : A → Result E A
  err : E → Result E A

-- `result?` in front of the code that follows it.
infixl 5 ◌>>=◌ ◌>>◌
abbrev pub ◌>>=◌ {ℓ κ ν} :
    {A : Type ℓ} {B : Type κ} {E : Type ν} (result : Result E A) (then : A → Result E B)
    → Result E B
err why >>= then = err why
ok value >>= then = then value

-- The same where the value of the first is `()`.
abbrev pub ◌>>◌ {κ ν} :
    {B : Type κ} {E : Type ν} (result : Result E (Unit {0})) (then : Result E B) → Result E B
result >> then = result >>= λ done. then

-- `if !test { bail!(e) }`
abbrev pub ensure {ν} : {E : Type ν} → Bool → E → Result E (Unit {0})
ensure true e = ok tt
ensure false e = err e

-- `Option::ok_or`
abbrev pub ok_or {ℓ ν} : {E : Type ν} {A : Type ℓ} → Option A → E → Result E A
ok_or none e = err e
ok_or (some a) e = ok a

-- A chain that succeeds: its first part did, and what follows it does from the value that it gave.
pub >>=-eq-ok {ℓ κ ν} :
    {A : Type ℓ} {B : Type κ} {E : Type ν} (result : Result E A) (then : A → Result E B) {final : B}
    → (result >>= then) ≡ ok final
    → (value : A) × (result ≡ ok value) × (then value ≡ ok final)
>>=-eq-ok (err why) then h = cc
>>=-eq-ok (ok value) then h = (value, refl, h)

pub ok-injective {ℓ κ} :
    {E : Type κ} {A : Type ℓ} {a b : A} → ◌≡◌ {A = Result E A} (ok a) (ok b) → a ≡ b
ok-injective e = ground arith

pub some-injective {ℓ} : {A : Type ℓ} {a b : A} → some a ≡ some b → a ≡ b
some-injective e = ground arith

-- A chain that fails: its first part did, or what follows it.
pub >>=-eq-err {ℓ κ ν} :
    {A : Type ℓ} {B : Type κ} {E : Type ν} (result : Result E A) (then : A → Result E B) {why : E}
    → (result >>= then) ≡ err why
    → (result ≡ err why) ⊎ ((value : A) × (result ≡ ok value) × (then value ≡ err why))
>>=-eq-err (err why) then h = inl (ground arith)
>>=-eq-err (ok value) then h = inr (value, refl, h)

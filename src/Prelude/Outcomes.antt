-- ===== src/Prelude/Outcomes.antt =====
-- What a fallible Rust function does: it returns `Ok`, it returns `Err(())`, or it panics.
use mathlib.Core.Path.{◌≡◌, refl}
use mathlib.Core.Bool.{Bool, true, false}

pub data Outcome {ℓ} (A : Type ℓ) : Type ℓ where
  ok : A → Outcome A
  err : Outcome A
  panic : Outcome A

infixl 5 ◌>>=◌ ◌>>◌
abbrev pub ◌>>=◌ {ℓ κ} : {A : Type ℓ} {B : Type κ} → Outcome A → (A → Outcome B) → Outcome B
ok a >>= f = f a
err >>= f = err
panic >>= f = panic

abbrev pub ◌>>◌ {ℓ} : {B : Type ℓ} → Outcome (Unit {0}) → Outcome B → Outcome B
m >> k = m >>= λ _. k

-- `assert!`, and an index that is checked.
abbrev pub assert : Bool → Outcome (Unit {0})
assert true = ok tt
assert false = panic

-- An early `return Err(())`.
abbrev pub ensure : Bool → Outcome (Unit {0})
ensure true = ok tt
ensure false = err

-- `.unwrap()` on a result.
abbrev pub unwrap {ℓ} : {A : Type ℓ} → Outcome A → Outcome A
unwrap (ok a) = ok a
unwrap err = panic
unwrap panic = panic

-- The computation returns a value.
abbrev pub IsOk {ℓ} : {A : Type ℓ} → Outcome A → Type 0
IsOk (ok a) = Unit {0}
IsOk err = ⊥
IsOk panic = ⊥

pub ok_of {ℓ} : {A : Type ℓ} (m : Outcome A) → IsOk m → (a : A) × (m ≡ ok a)
ok_of (ok a) h = (a, refl)
ok_of err h = absurd h
ok_of panic h = absurd h

-- The computation does not return `Err`.
abbrev pub IsOkOrPanic {ℓ} : {A : Type ℓ} → Outcome A → Type 0
IsOkOrPanic (ok a) = Unit {0}
IsOkOrPanic err = ⊥
IsOkOrPanic panic = Unit {0}

pub then-panic {ℓ κ} :
    {A : Type ℓ} {B : Type κ} (m : Outcome A) {f : A → Outcome B}
    → IsOkOrPanic m
    → ((a : A) → f a ≡ panic)
    → (m >>= f) ≡ panic
then-panic (ok a) h k = k a
then-panic err h k = absurd h
then-panic panic h k = refl

-- A successful chain, taken apart.
pub >>=-eq-ok {ℓ κ} :
    {A : Type ℓ} {B : Type κ} {last : B} (r : Outcome A) (next : A → Outcome B)
    → (r >>= next) ≡ ok last
    → (x : A) × (r ≡ ok x) × (next x ≡ ok last)
>>=-eq-ok err next e = cc
>>=-eq-ok panic next e = cc
>>=-eq-ok (ok x) next e = (x, refl, e)

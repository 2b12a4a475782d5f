-- ===== src/Prelude/Bits/Digit.antt =====
-- The lowest binary digit of `bit_or` and `bit_and`.
use Prim.Native.Nat.{
  ℕ, zero, suc, ◌+◌, ◌*◌, ◌/◌, ◌%◌, ◌≤◌, min, max, bit_and, bit_or, digits, bit_and-bitwise,
  bit_or-bitwise,
}
use mathlib.Core.Path.{◌≡◌, refl}
use native.Mathlib.Omega.{arith}

-- The fuel of `digits` does not matter once it covers the first number.
module _ (at_zero : ℕ → ℕ) (join : ℕ → ℕ → ℕ) where
  digits-fuel :
      (a b m n : ℕ) (k : ℕ)
      → a ≤ k
      → k ≤ m
      → k ≤ n
      → digits at_zero join m a b ≡ digits at_zero join n a b
  digits-fuel zero b zero zero k h p q = refl
  digits-fuel zero b zero (suc n) k h p q = refl
  digits-fuel zero b (suc m) zero k h p q = refl
  digits-fuel zero b (suc m) (suc n) k h p q = refl
  digits-fuel (suc a) b m n zero h p q = elim h [ ]
  digits-fuel (suc a) b zero n (suc k) h p q = elim p [ ]
  digits-fuel (suc a) b (suc m) zero (suc k) h p q = elim q [ ]
  digits-fuel (suc a) b (suc m) (suc n) (suc k) h p q =
      rw (digits-fuel (suc a / 2) (b / 2) m n k (omega arith) (omega arith) (omega arith))

pub bit_or-digit : (a b : ℕ) → bit_or a b ≡ bit_or (a / 2) (b / 2) * 2 + max (a % 2) (b % 2)
bit_or-digit zero b = simp bit_or-bitwise (omega arith)
bit_or-digit (suc a) b =
    let half = suc a / 2 in
    simp bit_or-bitwise (
      omega (
        arith,
        digits-fuel (λ y. y) max half (b / 2) a half half (omega arith) (omega arith) (omega arith),
      ))

pub bit_and-digit : (a b : ℕ) → bit_and a b ≡ bit_and (a / 2) (b / 2) * 2 + min (a % 2) (b % 2)
bit_and-digit zero b = simp bit_and-bitwise (omega arith)
bit_and-digit (suc a) b =
    let half = suc a / 2 in
    simp bit_and-bitwise (
      omega (
        arith,
        digits-fuel (λ y. 0) min half (b / 2) a half half (omega arith) (omega arith) (omega arith),
      ))

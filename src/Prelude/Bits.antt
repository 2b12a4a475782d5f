-- ===== src/Prelude/Bits.antt =====
-- Masks, disjoint fields and single bits of a word as plain arithmetic, at every width.
pub mod Digit
use Prim.Native.Nat.{ℕ, zero, suc, ◌+◌, ◌-◌, ◌*◌, ◌/◌, ◌%◌, ◌^◌, ◌≤◌, ◌<◌, bit_and, bit_or}
use mathlib.Core.Path.{◌≡◌, refl, ap}
use mathlib.Core.Bool.{Bool, true, false}
use native.Mathlib.Nat.{pow-suc, one-le-pow}
use native.Mathlib.Omega.{arith}
use Digit.{bit_or-digit, bit_and-digit}

or-zero_upto : (n a : ℕ) → a ≤ n → bit_or a 0 ≡ a
or-zero_upto n zero h = refl
or-zero_upto zero (suc a) h = elim h [ ]
or-zero_upto (suc n) (suc a) h =
    omega (arith, bit_or-digit (suc a) 0, or-zero_upto n (suc a / 2) (omega arith))

zero-or_upto : (n a : ℕ) → a ≤ n → bit_or 0 a ≡ a
zero-or_upto n zero h = refl
zero-or_upto zero (suc a) h = elim h [ ]
zero-or_upto (suc n) (suc a) h =
    omega (arith, bit_or-digit 0 (suc a), zero-or_upto n (suc a / 2) (omega arith))

and-zero_upto : (n a : ℕ) → a ≤ n → bit_and a 0 ≡ 0
and-zero_upto n zero h = refl
and-zero_upto zero (suc a) h = elim h [ ]
and-zero_upto (suc n) (suc a) h =
    omega (arith, bit_and-digit (suc a) 0, and-zero_upto n (suc a / 2) (omega arith))

pub bit_or-zero : (a : ℕ) → bit_or a 0 ≡ a
bit_or-zero a = or-zero_upto a a (omega arith)

pub zero-bit_or : (a : ℕ) → bit_or 0 a ≡ a
zero-bit_or a = zero-or_upto a a (omega arith)

double : (q k : ℕ) → q * 2 ^ suc k ≡ 2 * (q * 2 ^ k)
double q k = omega (arith, ap (λ (t : ℕ). q * t) (pow-suc 2 k))

-- A field below bit `k` joins what stands above it, from either side.
pub high-or-low : (k q r : ℕ) → r < 2 ^ k → bit_or (q * 2 ^ k) r ≡ q * 2 ^ k + r
high-or-low zero q r h = ground (arith, bit_or-zero q)
high-or-low (suc k) q r h =
    ground
      (arith, bit_or-digit (q * 2 ^ suc k) r, double q k, high-or-low k q (r / 2) (omega arith))

pub low-or-high : (k q r : ℕ) → r < 2 ^ k → bit_or r (q * 2 ^ k) ≡ r + q * 2 ^ k
low-or-high zero q r h = ground (arith, zero-bit_or q)
low-or-high (suc k) q r h =
    ground
      (arith, bit_or-digit r (q * 2 ^ suc k), double q k, low-or-high k q (r / 2) (omega arith))

and-low_field : (k q r : ℕ) → r < 2 ^ k → bit_and (q * 2 ^ k + r) (2 ^ k - 1) ≡ r
and-low_field zero q r h = ground (arith, and-zero_upto (q * 1 + r) (q * 1 + r) (omega arith))
and-low_field (suc k) q r h = ground (
  arith,
  bit_and-digit (q * 2 ^ suc k + r) (2 ^ suc k - 1),
  double q k,
  pow-suc 2 k,
  and-low_field k q (r / 2) (omega arith),
)

-- A mask of `k` ones keeps the remainder by `2 ^ k`.
pub bit_and-mask : (k a : ℕ) → bit_and a (2 ^ k - 1) ≡ a % 2 ^ k
bit_and-mask k a = ground (arith, one-le-pow k 2, and-low_field k (a / 2 ^ k) (a % 2 ^ k))

-- ===== src/Hardware/Random.antt =====
-- src/hardware/rng.rs: the generator of random numbers. Its four words have 64 bits; a shift to the left
-- loses the bits above them.
pub mod Bounds
use rucoonos.Prelude.{
  ℕ, ◌+◌, ◌*◌, ◌/◌, ◌%◌, ◌^◌, bit_xor, ltb, if◌then◌else◌, Outcome, ok, panic, ◌>>=◌,
}
use rucoonos.Net.Wire.{Profile, debug, release}

pub record Kiss : Type 0 where
  pub x : ℕ
  pub y : ℕ
  pub z : ℕ
  pub c : ℕ

unfoldable pub new : ℕ → ℕ → ℕ → ℕ → Outcome Kiss
new seed y z c = ok (record { x = seed; y = y; z = z; c = c })

-- `a + b` on `u64`
pub add_u64 : Profile → ℕ → ℕ → Outcome ℕ
add_u64 profile a b =
    if ltb (a + b) (2 ^ 64)
    then ok (a + b)
    else elim profile [ debug ↦ panic | release ↦ ok ((a + b) % 2 ^ 64) ]

-- `self.y ^= self.y << 13`, `self.y ^= self.y >> 17` and `self.y ^= self.y << 43`
pub xorshift : ℕ → ℕ
xorshift y =
    let a = bit_xor y (y * 2 ^ 13 % 2 ^ 64) in
    let b = bit_xor a (a / 2 ^ 17) in bit_xor b (b * 2 ^ 43 % 2 ^ 64)

-- The number, and the generator afterwards.
pub rand : Profile → Kiss → Outcome (ℕ × Kiss)
unfolding xorshift add_u64
rand profile k =
    let x = (6906969069 * k.x % 2 ^ 64 + 1234567) % 2 ^ 64 in
    let y = xorshift k.y in
    add_u64 profile (k.z * 2 ^ 58 % 2 ^ 64) k.c >>= λ t.
    let z = (k.z + t) % 2 ^ 64 in
    add_u64 profile (k.z / 2 ^ 6) (if ltb z t then 1 else 0) >>= λ c.
    ok (((x + y) % 2 ^ 64 + z) % 2 ^ 64, record { x = x; y = y; z = z; c = c })

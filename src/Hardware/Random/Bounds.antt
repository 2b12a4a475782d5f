-- ===== src/Hardware/Random/Bounds.antt =====
-- src/hardware/rng.rs: when a number is drawn without an overflow.
use rucoonos.Prelude.{
  ℕ, ◌+◌, ◌*◌, ◌/◌, ◌%◌, ◌^◌, ◌<◌, ◌≤◌, ◌≡◌, refl, ap, ◌∙◌, arith, ltb, Bool, if◌then◌else◌,
  Outcome, ok, panic, ◌>>=◌, lt→ltb, le→ltb,
}
use rucoonos.Net.Wire.{Profile, debug}
use rucoonos.Hardware.Random.{Kiss, add_u64, xorshift, rand}

-- The carry is one that a step can leave.
pub record IsValid (k : Kiss) : Type 0 where
  pub z : k.z < 2 ^ 64
  pub c : k.c ≤ 2 ^ 58

pub add_u64-small :
    (profile : Profile) (a b : ℕ) → a + b < 2 ^ 64 → add_u64 profile a b ≡ ok (a + b)
unfolding add_u64
add_u64-small profile a b h = rw (lt→ltb (a + b) (2 ^ 64) h) refl

-- Unless the lowest six bits of `z` are all set and the carry is the largest one, a valid generator gives
-- a number of 64 bits, in a debug and in a release build, and is valid again.
pub rand-IsValid :
    (profile : Profile) (k : Kiss)
    → IsValid k
    → k.z % 64 + k.c < 63 + 2 ^ 58
    → (n : ℕ) × (k' : Kiss) × (rand profile k ≡ ok (n, k')) × (n < 2 ^ 64) × IsValid k'
unfolding rand
rand-IsValid profile k v h =
    let t : ℕ = k.z * 2 ^ 58 % 2 ^ 64 + k.c in
    let z : ℕ = (k.z + t) % 2 ^ 64 in
    let carry : ℕ = if ltb z t then 1 else 0 in
    let x : ℕ = (6906969069 * k.x % 2 ^ 64 + 1234567) % 2 ^ 64 in
    let y : ℕ = xorshift k.y in
    let number : ℕ = ((x + y) % 2 ^ 64 + z) % 2 ^ 64 in
    let last : ℕ → Outcome (ℕ × Kiss) = λ c. ok (number, record { x = x; y = y; z = z; c = c }) in
    (
      number,
      record { x = x; y = y; z = z; c = k.z / 2 ^ 6 + carry },
      ap
            (λ o. o >>= λ t.
              let z = (k.z + t) % 2 ^ 64 in
              add_u64 profile (k.z / 2 ^ 6) (if ltb z t then 1 else 0) >>= λ c.
              ok (((x + y) % 2 ^ 64 + z) % 2 ^ 64, record { x = x; y = y; z = z; c = c }))
            (add_u64-small profile (k.z * 2 ^ 58 % 2 ^ 64) k.c (room k.z k.c v.z v.c h))
          ∙ ap (λ o. o >>= last)
              (add_u64-small profile (k.z / 2 ^ 6) carry (carried k.z (ltb z t) v.z)),
      omega arith,
      record { z = omega arith; c = kept k.z (ltb z t) v.z },
    )
  where
    room :
        (z c : ℕ)
        → z < 2 ^ 64
        → c ≤ 2 ^ 58
        → z % 64 + c < 63 + 2 ^ 58
        → z * 2 ^ 58 % 2 ^ 64 + c < 2 ^ 64
    room z c h i j = omega arith

    carried : (z : ℕ) (b : Bool) → z < 2 ^ 64 → z / 2 ^ 6 + (if b then 1 else 0) < 2 ^ 64
    carried z b h = ground arith

    kept : (z : ℕ) (b : Bool) → z < 2 ^ 64 → z / 2 ^ 6 + (if b then 1 else 0) ≤ 2 ^ 58
    kept z b h = ground arith

-- With all of these bits set and the largest carry, a debug build panics.
rand_overflow : (k : Kiss) → k.z % 64 ≡ 63 → k.c ≡ 2 ^ 58 → rand debug k ≡ panic
unfolding rand add_u64
rand_overflow k e f = rw (le→ltb (k.z * 2 ^ 58 % 2 ^ 64 + k.c) (2 ^ 64) (omega arith)) refl

-- ===== src/Hardware/Registers/Bits.antt =====
-- Single bits of a register's word, written and read.
use rucoonos.Prelude.{
  ℕ, Bool, true, false, ◌+◌, ◌≡◌, ◌<◌, ◌/◌, ◌%◌, ◌^◌, ◌*◌, ◌∙◌, ap, sym, arith, bit_or,
}
use rucoonos.Prelude.Bits.{low-or-high, bit_and-mask}
use rucoonos.Hardware.Registers.{bit, set}

abbrev pub value : Bool → ℕ
value true = 1
value false = 0

set-adds : (k r : ℕ) (b : Bool) → r < 2 ^ k → set k b r ≡ r + value b * 2 ^ k
set-adds k r true h =
    let one : 1 * 2 ^ k ≡ 2 ^ k = omega arith in ap (bit_or r) (sym one) ∙ low-or-high k 1 r h
set-adds k r false h = omega arith

pub bit-is : (raw k : ℕ) (b : Bool) → (raw / 2 ^ k) % 2 ≡ value b → bit raw k ≡ b
bit-is raw k true h = rw (bit_and-mask 1 (raw / 2 ^ k), h)
bit-is raw k false h = rw (bit_and-mask 1 (raw / 2 ^ k), h)

pub value-fits : (b : Bool) → value b < 2
value-fits true = omega arith
value-fits false = omega arith

pub step : (k : ℕ) (b : Bool) (x v : ℕ) → x ≡ v → v < 2 ^ k → set k b x ≡ v + value b * 2 ^ k
step k b x v e h = ap (set k b) e ∙ set-adds k v b h

pub step_field : (k f x v : ℕ) → x ≡ v → v < 2 ^ k → bit_or x (f * 2 ^ k) ≡ v + f * 2 ^ k
step_field k f x v e h = ap (λ x. bit_or x (f * 2 ^ k)) e ∙ low-or-high k f v h

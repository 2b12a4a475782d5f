-- ===== src/Hardware/Pci/Address.antt =====
-- src/hardware/pci.rs: the addresses of the configuration space.
use rucoonos.Prelude.{ℕ, ◌≡◌, ◌<◌, ◌+◌, ◌*◌, ◌/◌, ◌%◌, ◌^◌, arith, bit_and, bit_or}
use rucoonos.Prelude.Bits.{high-or-low, low-or-high, bit_and-mask}
use rucoonos.Prelude.Bits.Digit.{bit_and-digit}
use rucoonos.Hardware.Pci.{address}

-- The last field, in whole words.
abbrev word : ℕ → ℕ
word offset = bit_and offset 0xfc

word_lem : (offset : ℕ) → word offset ≡ offset / 4 % 64 * 4
word_lem offset =
    ground (
      arith,
      bit_and-digit offset 0xfc,
      bit_and-digit (offset / 2) 0x7e,
      bit_and-mask 6 (offset / 4),
    )

-- The fields do not overlap.
pub address-sum :
    (bus slot func offset : ℕ)
    → slot < 2 ^ 5
    → func < 2 ^ 3
    → bus < 2 ^ 8
    → address bus slot func offset
      ≡ bus * 2 ^ 16 + slot * 2 ^ 11 + func * 2 ^ 8 + offset / 4 % 64 * 4 + 2 ^ 31
unfolding address
address-sum bus slot func offset hs hf hb =
    let w = word_lem offset in
    let a = high-or-low 16 bus (slot * 2 ^ 11) (omega arith) in
    let a' : bit_or (bus * 2 ^ 16) (slot * 2 ^ 11) ≡ (bus * 32 + slot) * 2 ^ 11 = omega arith in
    let b = high-or-low 11 (bus * 32 + slot) (func * 2 ^ 8) (omega arith) in
    let b' : bit_or ((bus * 32 + slot) * 2 ^ 11) (func * 2 ^ 8)
        ≡ ((bus * 32 + slot) * 8 + func) * 2 ^ 8 =
      omega arith in
    let c = high-or-low 8 ((bus * 32 + slot) * 8 + func) (word offset) (omega arith) in
    let d = low-or-high 31 1 (((bus * 32 + slot) * 8 + func) * 2 ^ 8 + word offset) (omega arith) in
    rw (a', b', c, d) (omega arith)

-- For the numbers that a bus, a slot and a function can have, equal addresses have the same bus,
-- slot, function and word of the offset, which is its bits 2 to 7.
address-injective :
    (bus slot func offset bus' slot' func' offset' : ℕ)
    → bus < 2 ^ 8
    → slot < 2 ^ 5
    → func < 2 ^ 3
    → bus' < 2 ^ 8
    → slot' < 2 ^ 5
    → func' < 2 ^ 3
    → address bus slot func offset ≡ address bus' slot' func' offset'
    → (bus ≡ bus') × (slot ≡ slot') × (func ≡ func') × (offset / 4 % 64 ≡ offset' / 4 % 64)
address-injective bus slot func offset bus' slot' func' offset' hb hs hf hb' hs' hf' e =
    let l = address-sum bus slot func offset hs hf hb in
    let r = address-sum bus' slot' func' offset' hs' hf' hb' in
    (omega arith, omega arith, omega arith, omega arith)

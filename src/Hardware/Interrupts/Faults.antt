-- ===== src/Hardware/Interrupts/Faults.antt =====
-- src/interrupts.rs: the fields of an error code.
use rucoonos.Prelude.{ℕ, ◌+◌, ◌*◌, ◌/◌, ◌%◌, ◌<◌, ◌≡◌, ap, ◌∙◌, arith, bit_and, not, ◌==◌, refl}
use rucoonos.Prelude.Bits.{bit_and-mask}
use rucoonos.Prelude.Bits.Digit.{bit_and-digit}
use rucoonos.Hardware.Interrupts.{general_protection_handler}

-- The mask of the index, a bit at a time.
and-index : (e : ℕ) → bit_and e 0xfff8 / 8 ≡ e / 8 % 8192
and-index e = omega (
  arith,
  bit_and-digit e 0xfff8,
  bit_and-digit (e / 2) 0x7ffc,
  bit_and-digit (e / 2 / 2) 0x3ffe,
  bit_and-mask 13 (e / 2 / 2 / 2),
)

-- Of an error code with a table and an index, the handler reads the index, and the lower one of the two bits
-- of the table.
fields_of_code :
    (external table index : ℕ)
    → external < 2
    → table < 4
    → index < 8192
    → general_protection_handler (external + 2 * table + 8 * index)
      ≡ record { external = not (external == 0); tbl = table % 2; index = index }
unfolding general_protection_handler
fields_of_code external table index he ht hi =
    let e = external + 2 * table + 8 * index in
    let low : bit_and e 0x1 ≡ external = bit_and-mask 1 e ∙ omega arith in
    let two : bit_and e 0x3 / 2 ≡ table % 2 = ap (λ x. x / 2) (bit_and-mask 2 e) ∙ omega arith in
    let high : bit_and e 0xfff8 / 8 ≡ index = and-index e ∙ omega arith in rw (low, two, high) refl

-- ===== src/Hardware/Interrupts.antt =====
-- src/interrupts.rs and interrupts/timer.rs: the masks of the two interrupt controllers, the error code of a
-- general protection fault, and the set-up of the timer. The table of the handlers is that of its child Table.
pub mod Faults
pub mod Masks
pub mod Table
use rucoonos.Prelude.{
  ℕ, ◌+◌, ◌-◌, ◌*◌, ◌/◌, ◌%◌, ◌^◌, ◌==◌, not, List, [], ◌∷◌, bit_and, Bool, true, false, ltb,
  if◌then◌else◌, Outcome, ok, panic,
}
use rucoonos.Net.Wire.{Array2, array2, Profile, debug, release}

-- `PIC_1_OFFSET`
abbrev pub pic_1_offset : ℕ
pic_1_offset = 32

-- `InterruptIndex::as_usize`
pub data InterruptIndex : Type 0 where
  timer keyboard : InterruptIndex

pub as_usize : InterruptIndex → ℕ
as_usize InterruptIndex.timer = pic_1_offset
as_usize InterruptIndex.keyboard = pic_1_offset + 1

-- `mask & !(1 << k)` of 8 bits
abbrev pub cleared : ℕ → ℕ → ℕ
cleared k mask = bit_and mask (255 - 2 ^ k)

-- The masks that `set_interrupt` writes for a number of the descriptor table.
pub unmasked : ℕ → Array2 → Array2
unmasked irq_line prev =
    if ltb irq_line 8
    then array2 (cleared irq_line prev.b0) prev.b1
    else if ltb irq_line 16
    then array2 prev.b0 (cleared (irq_line - 8) prev.b1)
    else prev

pub set_interrupt : Profile → ℕ → Array2 → Outcome Array2
unfolding unmasked
set_interrupt profile line prev =
    if ltb line pic_1_offset
    then elim profile [ debug ↦ panic | release ↦ ok prev ]
    else ok (unmasked (line - pic_1_offset) prev)

-- What `general_protection_handler` reads from the error code before it panics.
pub record ErrorCode : Type 0 where
  pub external : Bool
  pub tbl : ℕ
  pub index : ℕ

pub general_protection_handler : ℕ → ErrorCode
general_protection_handler error_code = record {
  external = not (bit_and error_code 0x1 == 0);
  tbl = bit_and error_code 0x3 / 2 ^ 1;
  index = bit_and error_code 0xfff8 / 2 ^ 3;
}

-- `FREQUENCY` and `DIVISOR`
abbrev pub frequency : ℕ
frequency = 100

abbrev pub divisor : ℕ
divisor = 1193182 / frequency % 2 ^ 16

-- `configure_pit`: the bytes that are written to the ports of the timer.
pub configure_pit : List (ℕ × ℕ)
configure_pit = (0x43, 0x36) ∷ (0x40, divisor % 2 ^ 8) ∷ (0x40, divisor / 2 ^ 8) ∷ []

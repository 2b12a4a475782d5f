-- ===== src/Acpi/Addresses.antt =====
-- src/acpi.rs and src/acpi/ptr.rs: the additions of addresses that fit 64 bits.
use rucoonos.Prelude.{ℕ, ◌+◌, ◌^◌, ◌<◌, ◌≤◌, ◌≡◌, refl, arith, lt→ltb}
use rucoonos.Net.Wire.{Profile}
use rucoonos.Hardware.Loop.{returned}
use rucoonos.Acpi.{OffsetMapper, add_raw, translate, last_offset}

pub add_raw-fits :
    (profile : Profile) (ptr offset : ℕ)
    → ptr + offset < 2 ^ 64
    → add_raw profile ptr offset ≡ returned (ptr + offset)
unfolding add_raw
add_raw-fits profile ptr offset h = rw (lt→ltb (ptr + offset) (2 ^ 64) h) refl

pub translate-fits :
    (profile : Profile) (mapping : OffsetMapper) (ptr : ℕ)
    → ptr + mapping.offset < 2 ^ 64
    → translate profile mapping ptr ≡ returned (ptr + mapping.offset)
unfolding translate
translate-fits profile mapping ptr h = add_raw-fits profile ptr mapping.offset h

pub last_offset_small : (memory : ℕ → ℕ) (e_type : ℕ) → last_offset memory e_type ≤ 8
unfolding last_offset
last_offset_small memory e_type = ground arith

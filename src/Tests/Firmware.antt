-- ===== src/Tests/Firmware.antt =====
-- The tables of the firmware.
use rucoonos.Prelude.{ℕ, ◌≡◌, ap, ◌∙◌, arith, List, [], ◌∷◌, Option, none, some, Bytes, ◌-◌}
use rucoonos.Prelude.Arrays.{get_elem?}
use rucoonos.Net.Wire.{release}
use rucoonos.Hardware.Loop.{returned}
use rucoonos.Acpi.{
  OffsetMapper, ApicEntry, process_local, local_apic_non_maskable_interrupts, collect_entries,
}
use rucoonos.Acpi.Controllers.{collect_entries-encode_all}
use rucoonos.Acpi.Entries.{Holds, encode_all}
use rucoonos.Acpi.Aml.{Reported}
use rucoonos.Acpi.Aml.Blocks

abbrev or_zero : Option ℕ → ℕ
or_zero none = 0
or_zero (some x) = x

-- A memory with these bytes from 0x1100 on, and 0 elsewhere.
abbrev memory : Bytes → ℕ → ℕ
memory bytes a = or_zero (get_elem? bytes (a - 0x1100))

memory-Holds : (bytes : Bytes) → Holds (memory bytes) 0x1100 bytes
memory-Holds bytes i x e = ap (λ k. or_zero (get_elem? bytes k)) (omega arith) ∙ ap or_zero e

abbrev mapping : OffsetMapper
mapping = record { offset = 0x1000 }

-- Two processors' entries, an entry of another type with two bytes, and a pin of the processors.
abbrev entries : List (ApicEntry × Bytes)
entries =
    (process_local 0 0 1, [])
    ∷ (process_local 1 2 1, [])
    ∷ (ApicEntry.unknown 9, 7 ∷ 7 ∷ [])
    ∷ (local_apic_non_maskable_interrupts 0xff 5 1, [])
    ∷ []

collect_entries-encode_all_example :
    collect_entries
      (memory (encode_all entries))
      5
      release
      mapping
      (record { ptr = 0x100; remaining_size = 26 })
    ≡ returned (
        process_local 0 0 1
        ∷ process_local 1 2 1
        ∷ ApicEntry.unknown 9
        ∷ local_apic_non_maskable_interrupts 0xff 5 1
        ∷ [])
collect_entries-encode_all_example =
    collect_entries-encode_all (memory (encode_all entries)) release mapping entries 0x100 5
      (
        omega arith,
        (
          omega arith,
          (
            ((λ e. omega arith), (λ e. omega arith), (λ e. omega arith), (λ e. omega arith)),
            (omega arith, tt),
          ),
        ),
      )
      (memory-Holds (encode_all entries)) (omega arith) (omega arith) (omega arith)

-- A name, an unknown operation, and a scope.
abbrev operations : List Reported
operations = Reported.unknown 0x08 ∷ Reported.scope 3 (0x5f ∷ 1 ∷ 2 ∷ []) ∷ []

-- ===== src/Acpi/Aml/Blocks.antt =====
-- src/acpi/acpi/aml.rs: what the parser makes of operations that follow one another.
use rucoonos.Prelude.{
  ℕ, suc, ◌+◌, ◌⊎◌, ◌/◌, ◌%◌, ◌^◌, ◌<◌, ◌≤◌, ◌≡◌, ◌≢◌, ltb, if◌then◌else◌, List, [], ◌∷◌, ◌++◌,
  Bytes, length,
}
use rucoonos.Hardware.Loop.{◌then◌}
use rucoonos.Acpi.Aml.{Reported, unknown, scope}

-- The leading bytes of a scope's length, which counts them: one byte for a length of at most 63, as the
-- specification has it, and otherwise the form of two bytes.
abbrev pub encode_length : ℕ → Bytes
encode_length n = if ltb n 63 then (n + 1) ∷ [] else (0x40 + (n + 2) % 16) ∷ ((n + 2) / 16) ∷ []

abbrev pub opcode : Reported → ℕ
opcode (unknown op) = op
opcode (scope size inner) = 0x10

abbrev pub operand : Reported → Bytes
operand (unknown op) = []
operand (scope size inner) = encode_length size ++ inner

-- The lengths that the parser reads as they are written: it takes five bits of the length in one byte,
-- which has six.
abbrev pub IsReadLength : ℕ → Type 0
IsReadLength n = (n < 31) ⊎ ((63 ≤ n) × (n + 2 < 2 ^ 12))

-- The operations that the parser gets past: any but a scope, and a scope that its length fits, one that is
-- read as it is written, whose name is not from the root.
abbrev pub IsReadable : Reported → Type 0
IsReadable (unknown op) = op ≢ 0x10
IsReadable (scope size []) = ⊥
IsReadable (scope size (b ∷ inner)) = (size ≡ suc (length inner)) × (b ≢ 0x5c) × IsReadLength size

abbrev pub encode_all : List Reported → Bytes
encode_all [] = []
encode_all (r ∷ rs) = opcode r ∷ (operand r ++ encode_all rs)

abbrev pub AreReadable : List Reported → Type 0
AreReadable [] = Unit {0}
AreReadable (r ∷ rs) = IsReadable r × AreReadable rs

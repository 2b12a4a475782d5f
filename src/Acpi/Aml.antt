-- ===== src/Acpi/Aml.antt =====
-- src/acpi/acpi/aml.rs: the parser of the firmware's byte code. It gives what it prints of each operation.
pub mod Blocks
pub mod Ending
use rucoonos.Prelude.{
  ℕ, zero, suc, ◌*◌, ◌/◌, ◌^◌, bit_and, bit_or, ◌==◌, if◌then◌else◌, List, [], ◌∷◌, Option, none,
  some, Bytes, length, take, drop,
}
use rucoonos.Net.Wire.{Profile}
use rucoonos.Hardware.Loop.{Exec, returned, panicked, running, ◌then◌}
use rucoonos.Acpi.{sub}

-- An unknown operation, or a scope with its length and the bytes of it that are printed.
pub data Reported : Type 0 where
  unknown : (op : ℕ) → Reported
  scope : (size : ℕ) (inner : Bytes) → Reported

-- The package length of two bytes.
pub next_byte : Profile → ℕ → Bytes → Exec (Option ℕ × Bytes)
next_byte profile initial [] = returned (none, [])
next_byte profile initial (b ∷ rest) =
    sub 64 profile (bit_or (b * 2 ^ 4) (bit_and initial 0x0f)) 2 then λ n. returned (some n, rest)

-- The length, and the bytes behind it; longer forms end in a `todo!`.
pub parse_pkg_length : Profile → Bytes → Exec (Option ℕ × Bytes)
unfolding next_byte
parse_pkg_length profile [] = returned (none, [])
parse_pkg_length profile (initial ∷ rest) =
    if initial / 2 ^ 6 == 0
    then (sub 64 profile (bit_and initial 0x1f) 1 then λ n. returned (some n, rest))
    else if initial / 2 ^ 6 == 1
    then next_byte profile initial rest
    else panicked

-- Every form of a name ends in a `todo!`, and so does a missing one in an `unwrap`.
pub parse_namepath : Bytes → Exec (Unit {0})
parse_namepath [] = panicked
parse_namepath (initial ∷ rest) = panicked

-- The bytes of the scope, and those behind it.
pub named : ℕ → Bytes → Bytes → Exec (Reported × Bytes)
unfolding parse_namepath
named size [] left = panicked
named size (b ∷ inner) left =
    if b == 0x5c
    then (parse_namepath inner then λ _. returned (scope size inner, left))
    else returned (scope size (b ∷ inner), left)

pub sized : Option ℕ → Bytes → Exec (Reported × Bytes)
unfolding named
sized none rest = panicked
sized (some size) rest = named size (take size rest) (drop size rest)

-- One round of the loop, behind the leading byte.
pub parse_op : Profile → ℕ → Bytes → Exec (Reported × Bytes)
unfolding parse_pkg_length sized
parse_op profile leading rest =
    if leading == 0x10
    then (parse_pkg_length profile rest then λ (size, rest'). sized size rest')
    else returned (unknown leading, rest)

pub parse_all : Profile → ℕ → Bytes → Exec (List Reported)
unfolding parse_op
parse_all profile zero bytes = running
parse_all profile (suc fuel) [] = returned []
parse_all profile (suc fuel) (leading ∷ rest) = parse_op profile leading rest then λ (r, left).
    parse_all profile fuel left then λ rs. returned (r ∷ rs)

-- Each round takes a byte at least.
pub parse : Profile → Bytes → Exec (List Reported)
unfolding parse_all
parse profile content = parse_all profile (suc (length content)) content

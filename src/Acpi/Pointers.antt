-- ===== src/Acpi/Pointers.antt =====
-- src/acpi.rs: the tables that the root table points to.
use rucoonos.Prelude.{
  ℕ, zero, suc, ◌+◌, ◌-◌, ◌/◌, ◌^◌, ◌<◌, ◌≤◌, ◌≡◌, refl, ap, ◌∙◌, arith, Bool, true, ◌==◌,
  if◌then◌else◌, List, [], ◌∷◌, none, some, Bytes, ne→==, le→ltb,
}
use rucoonos.Net.Wire.{Profile, debug, release}
use rucoonos.Hardware.Loop.{returned, ◌then◌}
use rucoonos.Acpi.Addresses.{add_raw-fits, translate-fits}
use rucoonos.Acpi.{
  OffsetMapper, header_at, SdtHeader, Rsdp, RsdtIter, read32, read64, load_header, next_table,
  collect_tables, starts, load_rsdt, sub,
}

module _ (memory : ℕ → ℕ) (mapping : OffsetMapper) where
  -- The address of a table, as it stands in an array of pointers of 4 or of 8 bytes.
  abbrev pub pointer : ℕ → ℕ → ℕ
  pointer size ptr =
      if size == 4
      then read32 memory (ptr + mapping.offset)
      else read64 memory (ptr + mapping.offset)

  -- The headers behind `n` pointers of the array, and what follows each.
  unfoldable pub tables_at : ℕ → ℕ → ℕ → List (SdtHeader × ℕ)
  tables_at size ptr zero = []
  tables_at size ptr (suc n) =
      (header_at memory (pointer size ptr + mapping.offset), pointer size ptr + 36)
      ∷ tables_at size (ptr + size) n

  -- No address that the iteration works out exceeds 64 bits.
  abbrev pub AreInside : ℕ → ℕ → ℕ → Type 0
  AreInside size ptr zero = Unit {0}
  AreInside size ptr (suc n) =
      (ptr + mapping.offset < 2 ^ 64)
      × (ptr + size < 2 ^ 64)
      × (pointer size ptr + mapping.offset < 2 ^ 64)
      × (pointer size ptr + 36 < 2 ^ 64)
      × AreInside size (ptr + size) n

  module _ (profile : Profile) where
    next_table-pointer :
        (size ptr n : ℕ)
        → ptr + mapping.offset < 2 ^ 64
        → ptr + size < 2 ^ 64
        → pointer size ptr + mapping.offset < 2 ^ 64
        → pointer size ptr + 36 < 2 ^ 64
        → next_table memory profile mapping (record { ptr = ptr; size = size; left = suc n })
          ≡ returned (
              some (
                (header_at memory (pointer size ptr + mapping.offset), pointer size ptr + 36),
                record { ptr = ptr + size; size = size; left = n },
              ))
    unfolding next_table load_header
    next_table-pointer size ptr n a b c d =
        rw
          (
            ne→== (suc n) 0 (λ e. omega arith),
            translate-fits profile mapping ptr a,
            translate-fits profile mapping (pointer size ptr) c,
            add_raw-fits profile (pointer size ptr) 36 d,
            add_raw-fits profile ptr size b,
          )
          (ap
            (λ k. returned (
              some (
                (header_at memory (pointer size ptr + mapping.offset), pointer size ptr + 36),
                record { ptr = ptr + size; size = size; left = k },
              )))
            (less n))
      where
        less : (n : ℕ) → suc n - 1 ≡ n
        less n = omega arith

    -- The iteration over the tables ends after exactly as many as its counter says.
    collect_tables-tables_at :
        (size n ptr fuel : ℕ)
        → n < fuel
        → AreInside size ptr n
        → collect_tables memory fuel profile mapping (record { ptr = ptr; size = size; left = n })
          ≡ returned (tables_at size ptr n)
    unfolding collect_tables tables_at next_table
    collect_tables-tables_at size n ptr zero lt inside = elim lt [ ]
    collect_tables-tables_at size zero ptr (suc fuel) lt inside = refl
    collect_tables-tables_at size (suc n) ptr (suc fuel) lt (a, b, c, d, inside) =
        ap
          (λ r. r then λ r. elim r [
            | none ↦ returned []
            | some (table, it') ↦ collect_tables memory fuel profile mapping it' then λ tables.
                returned (table ∷ tables)
          ])
          (next_table-pointer size ptr n a b c d)
        ∙ ap
            (λ r. r then λ tables. returned (
              (header_at memory (pointer size ptr + mapping.offset), pointer size ptr + 36)
              ∷ tables))
            (collect_tables-tables_at size n (ptr + size) fuel (omega arith) inside)

    sub_le : (a b : ℕ) → b ≤ a → a < 2 ^ 32 → sub 64 profile a b ≡ returned (a - b)
    unfolding sub
    sub_le a b h lt = both profile
      where
        both : (profile : Profile) → sub 64 profile a b ≡ returned (a - b)
        both debug = unfold sub in rw (le→ltb a b h) refl
        both release = unfold sub in ap returned (omega arith)

    -- Where the signature of the root table is text, its length covers the header, and no address exceeds 64
    -- bits, the table is loaded, and the iteration over its tables ends after as many as pointers fit
    -- behind the header, of 8 bytes under the signature XSDT and of 4 under any other: it gives the tables
    -- behind these pointers in their order.
    load_rsdt-collect_tables :
        (is_utf8 : Bytes → Bool) (rsdp : Rsdp) (size : ℕ)
        → let header = header_at memory (rsdp.rsdt_addr + mapping.offset) in
          is_utf8 header.signature ≡ true
          → 36 ≤ header.length
          → header.length < 2 ^ 32
          → (if starts header.signature 0x58 0x53 0x44 0x54 then 8 else 4) ≡ size
          → rsdp.rsdt_addr + mapping.offset < 2 ^ 64
          → rsdp.rsdt_addr + 36 < 2 ^ 64
          → AreInside size (rsdp.rsdt_addr + 36) ((header.length - 36) / size)
          → (it : RsdtIter) × (load_rsdt memory is_utf8 profile rsdp mapping
              ≡ returned (header, it))
            × (collect_tables memory (suc ((header.length - 36) / size)) profile mapping it
                ≡ returned (tables_at size (rsdp.rsdt_addr + 36) ((header.length - 36) / size)))
    unfolding load_rsdt load_header header_at
    load_rsdt-collect_tables is_utf8 rsdp size text long lt width here start inside =
        let header = header_at memory (rsdp.rsdt_addr + mapping.offset) in
        (
          record { ptr = rsdp.rsdt_addr + 36; size = size; left = (header.length - 36) / size },
          rw
              (
                translate-fits profile mapping rsdp.rsdt_addr here,
                text,
                sub_le header.length 36 long lt,
                add_raw-fits profile rsdp.rsdt_addr 36 start,
                width,
              )
              refl,
          collect_tables-tables_at size ((header.length - 36) / size) (rsdp.rsdt_addr + 36) _
              (omega arith) inside,
        )

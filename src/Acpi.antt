-- ===== src/Acpi.antt =====
-- src/acpi.rs, src/acpi/ptr.rs and src/acpi/acpi.rs: the tables of the firmware. The memory is a
-- function from virtual addresses to bytes, which nothing writes while the tables are read; physical
-- addresses are mapped by `OffsetMapper`. Whether bytes are valid UTF-8 is a parameter. For an address of more
-- than 64 bits the memory gives what is at its lowest 64.
pub mod Addresses
pub mod Controllers
pub mod Entries
pub mod Pointers
pub mod Aml
use rucoonos.Prelude.{
  ℕ, zero, suc, ◌+◌, ◌-◌, ◌*◌, ◌/◌, ◌%◌, ◌^◌, Bool, true, false, ◌&&◌, ◌==◌, ltb, if◌then◌else◌,
  List, [], ◌∷◌, ◌++◌, Option, none, some, Bytes,
}
use rucoonos.Net.Wire.{Profile, debug, release}
use rucoonos.Hardware.Loop.{Exec, returned, panicked, running, ◌then◌}

-- `PhysicalPtr` and `VirtualPtr` are their addresses.
abbrev pub PhysicalPtr : Type 0
PhysicalPtr = ℕ

abbrev pub VirtualPtr : Type 0
VirtualPtr = ℕ

pub record OffsetMapper : Type 0 where
  pub offset : ℕ

-- `add_raw`, an addition of 64 bits: a debug build panics where it does not fit, a release build wraps around.
pub add_raw : Profile → ℕ → ℕ → Exec ℕ
add_raw profile ptr offset =
    if ltb (ptr + offset) (2 ^ 64)
    then returned (ptr + offset)
    else elim profile [ debug ↦ panicked | release ↦ returned ((ptr + offset) % 2 ^ 64) ]

-- `PhysicalPtr::translate` with `OffsetMapper::map`
pub translate : Profile → OffsetMapper → PhysicalPtr → Exec VirtualPtr
unfolding add_raw
translate profile mapping ptr = add_raw profile ptr mapping.offset

pub record SdtHeader : Type 0 where
  pub signature : Bytes
  pub length : ℕ
  pub revision : ℕ
  pub checksum : ℕ
  pub oemid : Bytes
  pub oemtableid : Bytes
  pub oemrevision : ℕ
  pub creatorid : ℕ
  pub creatorrevision : ℕ

pub record Rsdp : Type 0 where
  pub signature : Bytes
  pub checksum : ℕ
  pub oemid : Bytes
  pub revision : ℕ
  pub rsdt_addr : PhysicalPtr

-- `RSDTPointers` and `RSDTIter`
pub record RsdtIter : Type 0 where
  pub ptr : PhysicalPtr
  pub size : ℕ
  pub left : ℕ

pub record AcipApicEntry : Type 0 where
  pub local_addr : ℕ
  pub flags : ℕ
  pub starting_addr : PhysicalPtr
  pub remaining : ℕ

-- The fixed table of the firmware is kept as its bytes.
pub data AcipEntry : Type 0 where
  apic : AcipApicEntry → AcipEntry
  fadt : (raw : Bytes) → AcipEntry
  high_precision_event_timer : SdtHeader → PhysicalPtr → AcipEntry
  windows_acpi_emulated_devices : SdtHeader → PhysicalPtr → AcipEntry
  unknown : SdtHeader → PhysicalPtr → AcipEntry

pub data ApicEntry : Type 0 where
  process_local : (processor_id apic_id flags : ℕ) → ApicEntry
  io_apic : (id reserved address gsi_base : ℕ) → ApicEntry
  io_apic_interrupt_source_override : (bus_source irq_source gsi flags : ℕ) → ApicEntry
  local_apic_non_maskable_interrupts : (acpi_processor_id flags lint : ℕ) → ApicEntry
  unknown : (id : ℕ) → ApicEntry

-- `APICEntryIter`
pub record ApicEntryIter : Type 0 where
  pub ptr : PhysicalPtr
  pub remaining_size : ℕ

-- `AcipApicEntry::entries`
pub entries : AcipApicEntry → ApicEntryIter
entries e = record { ptr = e.starting_addr; remaining_size = e.remaining }

-- `a - b` of `w` bits: a debug build panics below 0, a release build wraps around.
pub sub : ℕ → Profile → ℕ → ℕ → Exec ℕ
sub w debug a b = if ltb a b then panicked else returned (a - b)
sub w release a b = returned ((a + 2 ^ w - b) % 2 ^ w)

-- The result, where a test does not panic first.
abbrev guarded {ℓ} : {A : Type ℓ} → Bool → Exec A → Exec A
guarded true rest = rest
guarded false rest = panicked

abbrev pub starts : Bytes → ℕ → ℕ → ℕ → ℕ → Bool
starts (x ∷ y ∷ z ∷ w ∷ []) a b c d = (x == a) && (y == b) && (z == c) && (w == d)
starts other a b c d = false

module _ (memory : VirtualPtr → ℕ) where
  -- `read` of the types `u8`, `u16`, `u32`, `u64` and of arrays, in the order of the processor.
  abbrev pub read16 : VirtualPtr → ℕ
  read16 a = memory a + 256 * memory (a + 1)

  abbrev pub read32 : VirtualPtr → ℕ
  read32 a = read16 a + 2 ^ 16 * read16 (a + 2)

  abbrev pub read64 : VirtualPtr → ℕ
  read64 a = read32 a + 2 ^ 32 * read32 (a + 4)

  abbrev pub read_array : ℕ → VirtualPtr → Bytes
  read_array zero a = []
  read_array (suc n) a = memory a ∷ read_array n (a + 1)

  -- `RSDP::load`
  pub load_rsdp : Profile → PhysicalPtr → OffsetMapper → Exec Rsdp
  unfolding translate
  load_rsdp profile ptr mapping = translate profile mapping ptr then λ a. returned (record {
    signature = read_array 8 a;
    checksum = memory (a + 8);
    oemid = read_array 6 (a + 9);
    revision = memory (a + 15);
    rsdt_addr = read32 (a + 16);
  })

  -- The header that stands at an address.
  unfoldable pub header_at : VirtualPtr → SdtHeader
  header_at a = record {
    signature = read_array 4 a;
    length = read32 (a + 4);
    revision = memory (a + 8);
    checksum = memory (a + 9);
    oemid = read_array 6 (a + 10);
    oemtableid = read_array 8 (a + 16);
    oemrevision = read32 (a + 24);
    creatorid = read32 (a + 28);
    creatorrevision = read32 (a + 32);
  }

  -- `SDTHeader::load`
  pub load_header : Profile → PhysicalPtr → OffsetMapper → Exec SdtHeader
  unfolding header_at translate
  load_header profile ptr mapping = translate profile mapping ptr then λ a. returned (header_at a)

  -- `RSDTIter::next`
  pub next_table :
      Profile → OffsetMapper → RsdtIter → Exec (Option ((SdtHeader × PhysicalPtr) × RsdtIter))
  unfolding load_header
  next_table profile mapping it =
      if it.left == 0
      then returned none
      else (translate profile mapping it.ptr then λ a.
          let table = if it.size == 4 then read32 a else read64 a in
          load_header profile table mapping then λ header. add_raw profile table 36 then λ rest_ptr.
          add_raw profile it.ptr it.size then λ next.
          returned (some ((header, rest_ptr), record it { ptr = next; left = it.left - 1 })))

  -- A `for` loop over the tables, for at most so many rounds.
  pub collect_tables : ℕ → Profile → OffsetMapper → RsdtIter → Exec (List (SdtHeader × PhysicalPtr))
  unfolding next_table
  collect_tables zero profile mapping it = running
  collect_tables (suc fuel) profile mapping it = next_table profile mapping it then λ r. elim r [
    | none ↦ returned []
    | some (table, it') ↦
        collect_tables fuel profile mapping it' then λ tables. returned (table ∷ tables)
  ]

  -- The match on the type of an entry.
  pub entry_at : VirtualPtr → ℕ → ApicEntry
  entry_at a e_type =
      if e_type == 0
      then ApicEntry.process_local (memory (a + 2)) (memory (a + 3)) (read32 (a + 4))
      else if e_type == 1
      then ApicEntry.io_apic (memory (a + 2)) (memory (a + 3)) (read32 (a + 4)) (read32 (a + 8))
      else if e_type == 2
      then ApicEntry.io_apic_interrupt_source_override (memory (a + 2)) (memory (a + 3))
          (read32 (a + 4)) (read16 (a + 8))
      else if e_type == 4
      then ApicEntry.local_apic_non_maskable_interrupts (memory (a + 2)) (read16 (a + 3))
          (memory (a + 5))
      else ApicEntry.unknown e_type

  -- The largest offset that is added to the pointer of an entry.
  pub last_offset : ℕ → ℕ
  last_offset e_type =
      if e_type == 0
      then 4
      else if e_type == 1
      then 8
      else if e_type == 2
      then 8
      else if e_type == 4
      then 5
      else 1

  -- `APICEntryIter::next`
  pub next_entry :
      Profile → OffsetMapper → ApicEntryIter → Exec (Option (ApicEntry × ApicEntryIter))
  unfolding entry_at last_offset translate sub
  next_entry profile mapping it =
      if it.remaining_size == 0
      then returned none
      else (translate profile mapping it.ptr then λ a.
          add_raw profile a (last_offset (memory a)) then λ _.
          add_raw profile it.ptr (memory (a + 1)) then λ ptr.
          sub 32 profile it.remaining_size (memory (a + 1)) then λ left.
          returned (some (entry_at a (memory a), record { ptr = ptr; remaining_size = left })))

  -- A `for` loop over the entries, for at most so many rounds.
  pub collect_entries : ℕ → Profile → OffsetMapper → ApicEntryIter → Exec (List ApicEntry)
  unfolding next_entry
  collect_entries zero profile mapping it = running
  collect_entries (suc fuel) profile mapping it = next_entry profile mapping it then λ r. elim r [
    | none ↦ returned []
    | some (entry, it') ↦ collect_entries fuel profile mapping it' then λ es. returned (entry ∷ es)
  ]

  module _ (is_utf8 : Bytes → Bool) where
    -- `RSDP::load_rsdt` with `RSDT::load` and `RSDT::iter`: the header and the iterator.
    pub load_rsdt : Profile → Rsdp → OffsetMapper → Exec (SdtHeader × RsdtIter)
    unfolding load_header sub
    load_rsdt profile rsdp mapping = load_header profile rsdp.rsdt_addr mapping then λ header.
        let ptr_size = if starts header.signature 0x58 0x53 0x44 0x54 then 8 else 4 in
        guarded (is_utf8 header.signature) (
          sub 64 profile header.length 36 then λ size.
          add_raw profile rsdp.rsdt_addr 36 then λ start.
          returned (header, record { ptr = start; size = ptr_size; left = size / ptr_size }))

    -- `AcipEntry::load`
    pub load_entry : Profile → SdtHeader → PhysicalPtr → OffsetMapper → Exec AcipEntry
    unfolding sub translate
    load_entry profile header other mapping =
        let s = header.signature in
        guarded (is_utf8 s) (
          if starts s 0x41 0x50 0x49 0x43
          then (translate profile mapping other then λ a. add_raw profile a 4 then λ flags.
              add_raw profile other 8 then λ starting_addr. sub 32 profile header.length 8 then λ n.
              sub 32 profile n 36 then λ remaining. returned (
                AcipEntry.apic (record {
                  local_addr = read32 a;
                  flags = read32 flags;
                  starting_addr = starting_addr;
                  remaining = remaining;
                })))
          else if starts s 0x46 0x41 0x43 0x50
          then (translate profile mapping other then λ a.
              returned (AcipEntry.fadt (read_array 208 a)))
          else if starts s 0x48 0x50 0x45 0x54
          then returned (AcipEntry.high_precision_event_timer header other)
          else if starts s 0x57 0x41 0x45 0x54
          then returned (AcipEntry.windows_acpi_emulated_devices header other)
          else returned (AcipEntry.unknown header other))

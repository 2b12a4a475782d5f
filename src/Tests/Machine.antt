-- ===== src/Tests/Machine.antt =====
-- Registers, the PCI bus and the levels of the log.
use rucoonos.Prelude.{ℕ, ◌≡◌, ◌<◌, ◌/◌, ◌↔◌, ◌==◌, if◌then◌else◌, some, ◌%◌, ◌^◌, arith, none}
use mathlib.Core.List.{Memᴰ}
use rucoonos.Hardware.Pci.{Device, present, load_device, bruteforce}
use rucoonos.Hardware.Pci.Search.{IsDevice, header_word, bruteforce_iff}

-- One device, an Ethernet card of vendor 0x8086 in slot 3 of bus 0.
abbrev config : ℕ → ℕ
config a = if a / 256 == 0x800018 then 0x100e8086 else 0xffffffff

abbrev found : Device
found = present config 0 3 0x8086

bruteforce_iff_example :
    (Memᴰ found (bruteforce config) ↔ (
      (bus : ℕ) × (slot : ℕ) × (bus < 255)
      × (slot < 32)
      × (load_device config bus slot ≡ some found)
      × IsDevice config bus slot found))
    × ((load_device config 0 3 ≡ none) ↔ (header_word config 0 3 0 % 2 ^ 16 ≡ 0xffff))
bruteforce_iff_example = bruteforce_iff config found 0 3 (omega arith) (omega arith)

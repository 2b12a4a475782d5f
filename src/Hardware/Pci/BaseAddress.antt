-- ===== src/Hardware/Pci/BaseAddress.antt =====
-- src/hardware/pci.rs: the base address registers.
use rucoonos.Prelude.{ℕ, Bool, false, ◌≡◌, ◌==◌, arith, bit_and}
use rucoonos.Prelude.Bits.Digit.{bit_and-digit}
use rucoonos.Hardware.Pci.{BaseAddressRegister, base_address}

never_one : (raw : ℕ) → (bit_and raw 8 == 1) ≡ false
never_one raw = ground (arith, bit_and-digit raw 8)

-- A register that is read as memory is marked as not prefetchable.
base_address-prefetchable :
    (raw address ty : ℕ) (prefetchable : Bool)
    → base_address raw ≡ BaseAddressRegister.memory_space address prefetchable ty
    → prefetchable ≡ false
unfolding base_address
base_address-prefetchable raw address ty prefetchable e = let n = never_one raw in ground arith

-- ===== src/Hardware/Coms/Targets.antt =====
-- src/hardware/device/e1000/coms.rs: where the accesses to the registers go.
use rucoonos.Prelude.{
  ℕ, ◌+◌, ◌^◌, ◌≡◌, refl, arith, ap, sym, ◌∙◌, Bool, true, ◌==◌, if◌then◌else◌, List, [], ◌∷◌, ◌++◌,
  ◌≤◌, ltb, ◌&&◌, map, append-nil, append_assoc, Outcome, ok, ◌>>=◌, All, IsU16,
}
use rucoonos.Net.Wire.{Profile}
use rucoonos.Hardware.Random.{add_u64}
use rucoonos.Hardware.Random.Bounds.{add_u64-small}
use rucoonos.Hardware.Pci.{BaseAddressRegister}
use rucoonos.Hardware.Registers.{IMaskRegister, InterruptCauseRegister}
use rucoonos.Hardware.Registers.Interrupts.{imask_from-imask_into, cause_from-cause_into}
use rucoonos.Hardware.Driver.Start.{initial, rx_writes, tx_writes}
use rucoonos.Hardware.Driver.{RxDesc}
use rucoonos.Hardware.Coms.{
  Coms, Writes, target_address, write_command, Capability, readable_rw, writeable_rw, imask,
  interrupt_cause, imask_from_u32, imask_into_u32, cause_from_u32, cause_into_u32, FromU32, IntoU32,
  Register, read, write, write_raw, read_command,
}

-- The registers are mapped to addresses below `2 ^ 64`.
data IsMapped : Coms → ℕ → Type 0 where
  mapped :
      (address offset : ℕ) (prefetchable : Bool) (ty : ℕ)
      → address + offset + 2 ^ 16 ≤ 2 ^ 64
      → IsMapped
          (record {
            bar = BaseAddressRegister.memory_space address prefetchable ty;
            offset = offset;
          })
          (address + offset)

-- The writes to registers, one after the other.
replay : Profile → Coms → List (ℕ × ℕ) → Writes → Outcome Writes
unfolding write_command
replay profile coms [] trace = ok trace
replay profile coms ((register, value) ∷ rest) trace =
    write_command profile coms register value trace >>= λ more. replay profile coms rest more

-- The last value that was written to an address, and `value` if none was.
latest : ℕ → ℕ → Writes → ℕ
latest a value [] = value
latest a value ((target, next) ∷ rest) = latest a (if target == a then next else value) rest

latest-append :
    (a value next : ℕ) (trace : Writes) → latest a value (trace ++ ((a, next) ∷ [])) ≡ next
unfolding latest
latest-append a value next [] = ground arith
latest-append a value next ((target, v) ∷ trace) =
    latest-append a (if target == a then v else value) next trace

-- Whether all registers have 16 bits.
all_u16 : List (ℕ × ℕ) → Bool
all_u16 [] = true
all_u16 ((register, value) ∷ writes) = ltb register (2 ^ 16) && all_u16 writes

all_u16-All : (writes : List (ℕ × ℕ)) → all_u16 writes ≡ true → All (λ w. IsU16 w.0) writes
unfolding all_u16
all_u16-All [] h = tt
all_u16-All ((register, value) ∷ writes) h = (ground arith, all_u16-All writes (ground arith))

module _ (profile : Profile) where
  target_address-mapped :
      (coms : Coms) (base p_address : ℕ)
      → IsMapped coms base
      → IsU16 p_address
      → target_address profile coms.bar coms.offset p_address ≡ ok (base + p_address)
  unfolding target_address
  target_address-mapped coms base p_address (mapped address offset prefetchable ty h) small =
      ap (λ sum. sum >>= λ a. add_u64 profile a offset)
        (add_u64-small profile address p_address (omega arith))
      ∙ add_u64-small profile (address + p_address) offset (omega arith)
      ∙ ap ok (omega arith)

  write_command-mapped :
      (coms : Coms) (base register value : ℕ) (trace : Writes)
      → IsMapped coms base
      → IsU16 register
      → write_command profile coms register value trace
        ≡ ok (trace ++ ((base + register, value) ∷ []))
  unfolding write_command
  write_command-mapped coms base register value trace m small =
      ap (λ a. a >>= λ target. ok (trace ++ ((target, value) ∷ [])))
        (target_address-mapped coms base register m small)

  -- What is written to a typed register is what is read from it, where reads give the last value written.
  write-read :
      {T : Type 0} ⦃f : FromU32 T⦄ ⦃g : IntoU32 T⦄ (coms : Coms) (base : ℕ)
      (r : Register T Capability.register_rw) (x : T) (trace : Writes)
      → IsMapped coms base
      → IsU16 r.addr
      → f.from (g.into x) ≡ x
      → (after : Writes) × (write profile r coms x trace ≡ ok after)
        × (read profile (λ a. latest a 0 after) r coms ≡ ok x)
  unfolding write write_raw read read_command
  write-read ⦃f⦄ ⦃g⦄ coms base r x trace m small same = (
    trace ++ ((base + r.addr, g.into x) ∷ []),
    write_command-mapped coms base r.addr (g.into x) trace m small,
    ap
          (λ a.
            (a >>= λ target. ok (latest target 0 (trace ++ ((base + r.addr, g.into x) ∷ []))))
            >>= λ raw. ok (f.from raw))
          (target_address-mapped coms base r.addr m small)
        ∙ ap (λ raw. ok (f.from raw)) (latest-append (base + r.addr) 0 (g.into x) trace)
        ∙ ap ok same,
  )

  write-read_mask :
      (coms : Coms) (base : ℕ) (r : IMaskRegister) (trace : Writes)
      → IsMapped coms base
      → (after : Writes) × (write profile imask coms r trace ≡ ok after)
        × (read profile (λ a. latest a 0 after) imask coms ≡ ok r)
  write-read_mask coms base r trace m =
      write-read coms base imask r trace m (omega arith) (imask_from-imask_into r)

  write-read_interrupts :
      (coms : Coms) (base : ℕ) (r : InterruptCauseRegister) (trace : Writes)
      → IsMapped coms base
      → (after : Writes) × (write profile interrupt_cause coms r trace ≡ ok after)
        × (read profile (λ a. latest a 0 after) interrupt_cause coms ≡ ok r)
  write-read_interrupts coms base r trace m =
      write-read coms base interrupt_cause r trace m (omega arith) (cause_from-cause_into r)

  replay-mapped :
      (coms : Coms) (base : ℕ) (writes : List (ℕ × ℕ)) (trace : Writes)
      → IsMapped coms base
      → All (λ w. IsU16 w.0) writes
      → replay profile coms writes trace ≡ ok (trace ++ map (λ w. (base + w.0, w.1)) writes)
  unfolding replay
  replay-mapped coms base [] trace m all = ap ok (sym (append-nil trace))
  replay-mapped coms base ((register, value) ∷ writes) trace m (small, all) =
      ap (λ x. x >>= λ more. replay profile coms writes more)
        (write_command-mapped coms base register value trace m small)
      ∙ replay-mapped coms base writes (trace ++ ((base + register, value) ∷ [])) m all
      ∙ ap ok
          (append_assoc trace ((base + register, value) ∷ []) (map (λ w. (base + w.0, w.1)) writes))

  -- No write of the card's set-up fails, and each goes to its register's place in the card's memory.
  initial-mapped :
      (coms : Coms) (base id : ℕ) (has_eeprom : Bool) (descriptors : List RxDesc) (buffers : List ℕ)
      (rx_phys tx_phys : ℕ)
      → IsMapped coms base
      → replay profile coms (initial id has_eeprom descriptors buffers rx_phys tx_phys).writes []
        ≡ ok (
            map
              (λ w. (base + w.0, w.1))
              (initial id has_eeprom descriptors buffers rx_phys tx_phys).writes)
  unfolding initial rx_writes tx_writes all_u16
  initial-mapped coms base id has_eeprom descriptors buffers rx_phys tx_phys m =
      replay-mapped coms base (initial id has_eeprom descriptors buffers rx_phys tx_phys).writes []
        m (all_u16-All (initial id has_eeprom descriptors buffers rx_phys tx_phys).writes refl)

-- ===== src/Hardware/Coms.antt =====
-- src/hardware/device/e1000/coms.rs and the typed registers of regs.rs: the access to the registers of the
-- card. A volatile write is recorded with its address, and what a volatile read gives is a parameter.
pub mod Targets
use rucoonos.Prelude.{ℕ, ◌+◌, List, [], ◌∷◌, ◌++◌, Outcome, ok, panic, ◌>>=◌}
use rucoonos.Net.Wire.{Profile}
use rucoonos.Hardware.Random.{add_u64}
use rucoonos.Hardware.Pci.{BaseAddressRegister}
use rucoonos.Hardware.Registers.{
  CtrlRegister, IMaskRegister, InterruptCauseRegister, ctrl_from, ctrl_into, imask_from, imask_into,
  cause_from, cause_into,
}
use rucoonos.Hardware.Registers.Status.{StatusRegister, status_from}

pub record Coms : Type 0 where
  pub bar : BaseAddressRegister
  pub offset : ℕ

-- The writes, each an address and a value, the last one at the end.
abbrev pub Writes : Type 0
Writes = List (ℕ × ℕ)

-- `target_address`; the other space of addresses is a `todo!`.
pub target_address : Profile → BaseAddressRegister → ℕ → ℕ → Outcome ℕ
target_address profile (BaseAddressRegister.memory_space address prefetchable ty) offset p_address =
    add_u64 profile address p_address >>= λ sum. add_u64 profile sum offset
target_address profile (BaseAddressRegister.io_space address) offset p_address = panic

pub write_command : Profile → Coms → ℕ → ℕ → Writes → Outcome Writes
unfolding target_address
write_command profile coms p_address value trace =
    target_address profile coms.bar coms.offset p_address >>= λ target.
    ok (trace ++ ((target, value) ∷ []))

pub read_command : Profile → (memory : ℕ → ℕ) → Coms → ℕ → Outcome ℕ
unfolding target_address
read_command profile memory coms p_address =
    target_address profile coms.bar coms.offset p_address >>= λ target. ok (memory target)

-- `RegisterRW`, `RegisterRO` and `RegisterWO`
pub data Capability : Type 0 where
  register_rw register_ro register_wo : Capability

pub data ReadableRegister : Capability → Type 0 where
  reads_rw : ReadableRegister Capability.register_rw
  reads_ro : ReadableRegister Capability.register_ro

pub data WriteableRegister : Capability → Type 0 where
  writes_rw : WriteableRegister Capability.register_rw
  writes_wo : WriteableRegister Capability.register_wo

instance abbrev pub readable_rw : ReadableRegister Capability.register_rw
readable_rw = ReadableRegister.reads_rw

instance abbrev pub readable_ro : ReadableRegister Capability.register_ro
readable_ro = ReadableRegister.reads_ro

instance abbrev pub writeable_rw : WriteableRegister Capability.register_rw
writeable_rw = WriteableRegister.writes_rw

instance abbrev pub writeable_wo : WriteableRegister Capability.register_wo
writeable_wo = WriteableRegister.writes_wo

-- `From<u32>` and `Into<u32>`
pub record FromU32 (T : Type 0) : Type 0 where
  pub from : ℕ → T

pub record IntoU32 (T : Type 0) : Type 0 where
  pub into : T → ℕ

-- `Register<ADDR, T, RT>`; what it holds and what it allows are in its type.
pub record Register (T : Type 0) (rt : Capability) : Type 0 where
  pub addr : ℕ

module _ {T : Type 0} {rt : Capability} (profile : Profile) where
  pub read :
      ⦃f : FromU32 T⦄ ⦃allowed : ReadableRegister rt⦄ → (ℕ → ℕ) → Register T rt → Coms → Outcome T
  unfolding read_command
  read ⦃f⦄ memory r coms = read_command profile memory coms r.addr >>= λ raw. ok (f.from raw)

  pub write_raw :
      ⦃allowed : WriteableRegister rt⦄ → Register T rt → Coms → ℕ → Writes → Outcome Writes
  unfolding write_command
  write_raw r coms value trace = write_command profile coms r.addr value trace

  pub write :
      ⦃f : IntoU32 T⦄ ⦃allowed : WriteableRegister rt⦄
      → Register T rt
      → Coms
      → T
      → Writes
      → Outcome Writes
  unfolding write_raw
  write ⦃f⦄ r coms value trace = write_raw r coms (f.into value) trace

instance abbrev pub ctrl_from_u32 : FromU32 CtrlRegister
ctrl_from_u32 = record { from = ctrl_from }

instance abbrev pub ctrl_into_u32 : IntoU32 CtrlRegister
ctrl_into_u32 = record { into = ctrl_into }

instance abbrev pub status_from_u32 : FromU32 StatusRegister
status_from_u32 = record { from = status_from }

instance abbrev pub imask_from_u32 : FromU32 IMaskRegister
imask_from_u32 = record { from = imask_from }

instance abbrev pub imask_into_u32 : IntoU32 IMaskRegister
imask_into_u32 = record { into = imask_into }

instance abbrev pub cause_from_u32 : FromU32 InterruptCauseRegister
cause_from_u32 = record { from = cause_from }

instance abbrev pub cause_into_u32 : IntoU32 InterruptCauseRegister
cause_into_u32 = record { into = cause_into }

-- `CTRL`, `STATUS`, `IMASK` and `InterruptCause`
abbrev pub ctrl : Register CtrlRegister Capability.register_rw
ctrl = record { addr = 0x0000 }

abbrev pub status : Register StatusRegister Capability.register_ro
status = record { addr = 0x0008 }

abbrev pub imask : Register IMaskRegister Capability.register_rw
imask = record { addr = 0x00d0 }

abbrev pub interrupt_cause : Register InterruptCauseRegister Capability.register_rw
interrupt_cause = record { addr = 0x00c0 }

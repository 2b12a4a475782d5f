-- ===== src/Hardware/Registers/Cause.antt =====
-- src/hardware/device/e1000/regs.rs: the default of the interrupt cause register, and its setters.
use rucoonos.Prelude.{Bool, false}
use rucoonos.Hardware.Registers.{InterruptCauseRegister}

-- `InterruptCauseRegister::default()`
abbrev pub default : InterruptCauseRegister
default = record {
  txdw = false;
  txqe = false;
  lsc = false;
  rxdmt = false;
  dsw = false;
  rxo = false;
  rxt = false;
  txd_low = false;
  int_asserted = false;
}

abbrev pub set_txdw : Bool → InterruptCauseRegister → InterruptCauseRegister
set_txdw value r = record r { txdw = value }

abbrev pub set_txqe : Bool → InterruptCauseRegister → InterruptCauseRegister
set_txqe value r = record r { txqe = value }

abbrev pub set_txd_low : Bool → InterruptCauseRegister → InterruptCauseRegister
set_txd_low value r = record r { txd_low = value }

abbrev pub set_asserted : Bool → InterruptCauseRegister → InterruptCauseRegister
set_asserted value r = record r { int_asserted = value }

-- ===== src/Hardware/Registers/Mask.antt =====
-- src/hardware/device/e1000/regs.rs: the default of the interrupt mask register, and its setters.
use rucoonos.Prelude.{Bool, false}
use rucoonos.Hardware.Registers.{IMaskRegister}

-- `IMaskRegister::default()`
abbrev pub default : IMaskRegister
default = record {
  txdw = false;
  txqe = false;
  lsc = false;
  rxdmto = false;
  dsw = false;
  rxo = false;
  rxto = false;
  mdac = false;
  phyint = false;
  lsecpn = false;
  txd_low = false;
}

abbrev pub set_txdw : Bool → IMaskRegister → IMaskRegister
set_txdw value r = record r { txdw = value }

abbrev pub set_txqe : Bool → IMaskRegister → IMaskRegister
set_txqe value r = record r { txqe = value }

abbrev pub set_lsc : Bool → IMaskRegister → IMaskRegister
set_lsc value r = record r { lsc = value }

abbrev pub set_rxdmto : Bool → IMaskRegister → IMaskRegister
set_rxdmto value r = record r { rxdmto = value }

abbrev pub set_dsw : Bool → IMaskRegister → IMaskRegister
set_dsw value r = record r { dsw = value }

abbrev pub set_rxo : Bool → IMaskRegister → IMaskRegister
set_rxo value r = record r { rxo = value }

abbrev pub set_rxto : Bool → IMaskRegister → IMaskRegister
set_rxto value r = record r { rxto = value }

abbrev pub set_mdac : Bool → IMaskRegister → IMaskRegister
set_mdac value r = record r { mdac = value }

abbrev pub set_phyint : Bool → IMaskRegister → IMaskRegister
set_phyint value r = record r { phyint = value }

abbrev pub set_lsecpn : Bool → IMaskRegister → IMaskRegister
set_lsecpn value r = record r { lsecpn = value }

abbrev pub set_txd_low : Bool → IMaskRegister → IMaskRegister
set_txd_low value r = record r { txd_low = value }

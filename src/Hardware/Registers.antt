-- ===== src/Hardware/Registers.antt =====
-- src/hardware/device/e1000/regs.rs: the registers of the E1000 card, as 32 bit words.
pub mod Bits
pub mod Interrupts
pub mod Control
pub mod Cause
pub mod Mask
pub mod Status
use rucoonos.Prelude.{
  ℕ, Bool, true, false, not, ◌==◌, ◌/◌, ◌%◌, ◌^◌, ◌*◌, bit_and, bit_or, if◌then◌else◌,
}

-- `((raw >> k) & 0b01) != 0`
abbrev pub bit : ℕ → ℕ → Bool
bit raw k = not (bit_and (raw / 2 ^ k) 1 == 0)

-- `if b { result |= 1 << k; }`
abbrev pub set : ℕ → Bool → ℕ → ℕ
set k b result = if b then bit_or result (2 ^ k) else result

pub record InterruptCauseRegister : Type 0 where
  pub txdw : Bool
  pub txqe : Bool
  pub lsc : Bool
  pub rxdmt : Bool
  pub dsw : Bool
  pub rxo : Bool
  pub rxt : Bool
  pub txd_low : Bool
  pub int_asserted : Bool

pub cause_from : ℕ → InterruptCauseRegister
cause_from raw = record {
  txdw = bit raw 0;
  txqe = bit raw 1;
  lsc = bit raw 2;
  rxdmt = bit raw 4;
  dsw = bit raw 5;
  rxo = bit raw 6;
  rxt = bit raw 7;
  txd_low = bit raw 15;
  int_asserted = bit raw 31;
}

pub cause_into : InterruptCauseRegister → ℕ
cause_into r = set 31 r.int_asserted (
    set 15 r.txd_low (
      set 7 r.rxt
        (set 6 r.rxo (set 5 r.dsw (set 4 r.rxdmt (set 2 r.lsc (set 1 r.txqe (set 0 r.txdw 0))))))))

pub record IMaskRegister : Type 0 where
  pub txdw : Bool
  pub txqe : Bool
  pub lsc : Bool
  pub rxdmto : Bool
  pub dsw : Bool
  pub rxo : Bool
  pub rxto : Bool
  pub mdac : Bool
  pub phyint : Bool
  pub lsecpn : Bool
  pub txd_low : Bool

pub imask_from : ℕ → IMaskRegister
imask_from raw = record {
  txdw = bit raw 0;
  txqe = bit raw 1;
  lsc = bit raw 2;
  rxdmto = bit raw 4;
  dsw = bit raw 5;
  rxo = bit raw 6;
  rxto = bit raw 7;
  mdac = bit raw 9;
  phyint = bit raw 12;
  lsecpn = bit raw 14;
  txd_low = bit raw 15;
}

pub imask_into : IMaskRegister → ℕ
imask_into r = set 15 r.txd_low (
    set 14 r.lsecpn (
      set 12 r.phyint (
        set 9 r.mdac (
          set 7 r.rxto (
            set 6 r.rxo
              (set 5 r.dsw (set 4 r.rxdmto (set 2 r.lsc (set 1 r.txqe (set 0 r.txdw 0))))))))))

pub record CtrlRegister : Type 0 where
  pub full_duplex : Bool
  pub master_disable : Bool
  -- two bits of a `u8`
  pub speed_selection : ℕ
  pub force_speed : Bool
  pub force_duplex : Bool
  pub lanphypc_override : Bool
  pub lanphypc_value : Bool
  pub lcd_power_down : Bool
  pub host_to_me_interrupt : Bool
  pub host_software_reset : Bool
  pub receive_flow_control_enable : Bool
  pub transmit_flow_control_enable : Bool
  pub vlan_mode_enable : Bool
  pub lan_connected_device_reset : Bool

pub ctrl_from : ℕ → CtrlRegister
ctrl_from raw = record {
  full_duplex = bit raw 0;
  master_disable = bit raw 2;
  speed_selection = bit_and (raw / 2 ^ 8) 3;
  force_speed = bit raw 11;
  force_duplex = bit raw 12;
  lanphypc_override = bit raw 16;
  lanphypc_value = bit raw 17;
  lcd_power_down = bit raw 24;
  host_to_me_interrupt = bit raw 25;
  host_software_reset = bit raw 26;
  receive_flow_control_enable = bit raw 27;
  transmit_flow_control_enable = bit raw 28;
  vlan_mode_enable = bit raw 30;
  lan_connected_device_reset = bit raw 31;
}

-- The bits up to the speed, which is shifted in as a whole.
pub ctrl_low : CtrlRegister → ℕ
ctrl_low r = bit_or (set 2 r.master_disable (set 0 r.full_duplex 0)) (r.speed_selection * 2 ^ 8)

pub ctrl_into : CtrlRegister → ℕ
unfolding ctrl_low
ctrl_into r = set 31 r.lan_connected_device_reset (
    set 30 r.vlan_mode_enable (
      set 28 r.transmit_flow_control_enable (
        set 27 r.receive_flow_control_enable (
          set 26 r.host_software_reset (
            set 25 r.host_to_me_interrupt (
              set 24 r.lcd_power_down (
                set 17 r.lanphypc_value (
                  set 16 r.lanphypc_override
                    (set 12 r.force_duplex (set 11 r.force_speed (ctrl_low r)))))))))))

-- ===== src/Hardware/Registers/Status.antt =====
-- src/hardware/device/e1000/regs.rs: the status register, which is only read, and the default of the
-- control register.
use rucoonos.Prelude.{ℕ, Bool, true, false, not, bit_and, ◌/◌, ◌^◌}
use rucoonos.Hardware.Registers.{bit, CtrlRegister}

-- Two of its fields are two bits of a `u8`.
pub record StatusRegister : Type 0 where
  pub full_duplex : Bool
  pub link_up : Bool
  pub phy_type_indication : ℕ
  pub transmition_paused : Bool
  pub phy_power_up : Bool
  pub link_speed : ℕ
  pub master_read_completions_blocked : Bool
  pub lan_init_done : Bool
  pub phy_reset_asserted : Bool
  pub master_enable_status : Bool
  pub pcim_function_state : Bool
  pub clock_control_quarter : Bool

abbrev pub status_from : ℕ → StatusRegister
status_from raw = record {
  full_duplex = bit raw 0;
  link_up = bit raw 1;
  phy_type_indication = bit_and (raw / 2 ^ 2) 3;
  transmition_paused = bit raw 4;
  phy_power_up = not (bit raw 5);
  link_speed = bit_and (raw / 2 ^ 6) 3;
  master_read_completions_blocked = bit raw 8;
  lan_init_done = bit raw 9;
  phy_reset_asserted = bit raw 10;
  master_enable_status = bit raw 19;
  pcim_function_state = bit raw 30;
  clock_control_quarter = bit raw 31;
}

-- `CtrlRegister::default()`
abbrev pub ctrl_default : CtrlRegister
ctrl_default = record {
  full_duplex = true;
  master_disable = false;
  speed_selection = 2;
  force_speed = false;
  force_duplex = false;
  lanphypc_override = false;
  lanphypc_value = false;
  lcd_power_down = false;
  host_to_me_interrupt = false;
  host_software_reset = false;
  receive_flow_control_enable = false;
  transmit_flow_control_enable = false;
  vlan_mode_enable = false;
  lan_connected_device_reset = false;
}

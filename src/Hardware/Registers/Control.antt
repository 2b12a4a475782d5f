-- ===== src/Hardware/Registers/Control.antt =====
-- src/hardware/device/e1000/regs.rs: the control register, written and read.
use rucoonos.Prelude.{ℕ, ◌+◌, ◌≡◌, ◌<◌, ◌/◌, ◌^◌, ◌*◌, ◌∙◌, refl, arith, bit_and}
use rucoonos.Prelude.Bits.{bit_and-mask}
use rucoonos.Hardware.Registers.{bit, CtrlRegister, ctrl_from, ctrl_low, ctrl_into}
use rucoonos.Hardware.Registers.Bits.{value, value-fits, step, step_field, bit-is}

-- The word as a sum of bits and of the speed.
ctrl_sum : CtrlRegister → ℕ
ctrl_sum r =
    0
    + value r.full_duplex * 2 ^ 0
    + value r.master_disable * 2 ^ 2
    + r.speed_selection * 2 ^ 8
    + value r.force_speed * 2 ^ 11
    + value r.force_duplex * 2 ^ 12
    + value r.lanphypc_override * 2 ^ 16
    + value r.lanphypc_value * 2 ^ 17
    + value r.lcd_power_down * 2 ^ 24
    + value r.host_to_me_interrupt * 2 ^ 25
    + value r.host_software_reset * 2 ^ 26
    + value r.receive_flow_control_enable * 2 ^ 27
    + value r.transmit_flow_control_enable * 2 ^ 28
    + value r.vlan_mode_enable * 2 ^ 30
    + value r.lan_connected_device_reset * 2 ^ 31

ctrl_into-sum : (r : CtrlRegister) → r.speed_selection < 4 → ctrl_into r ≡ ctrl_sum r
unfolding ctrl_into ctrl_low ctrl_sum
ctrl_into-sum r h8 =
    let h0 = value-fits r.full_duplex in
    let h2 = value-fits r.master_disable in
    let h11 = value-fits r.force_speed in
    let h12 = value-fits r.force_duplex in
    let h16 = value-fits r.lanphypc_override in
    let h17 = value-fits r.lanphypc_value in
    let h24 = value-fits r.lcd_power_down in
    let h25 = value-fits r.host_to_me_interrupt in
    let h26 = value-fits r.host_software_reset in
    let h27 = value-fits r.receive_flow_control_enable in
    let h28 = value-fits r.transmit_flow_control_enable in
    let h30 = value-fits r.vlan_mode_enable in
    let h31 = value-fits r.lan_connected_device_reset in
    step 31 r.lan_connected_device_reset _ _
      (step 30 r.vlan_mode_enable _ _
        (step 28 r.transmit_flow_control_enable _ _
          (step 27 r.receive_flow_control_enable _ _
            (step 26 r.host_software_reset _ _
              (step 25 r.host_to_me_interrupt _ _
                (step 24 r.lcd_power_down _ _
                  (step 17 r.lanphypc_value _ _
                    (step 16 r.lanphypc_override _ _
                      (step 12 r.force_duplex _ _
                        (step 11 r.force_speed _ _
                          (step_field 8 r.speed_selection _ _
                            (step 2 r.master_disable _ _
                              (step 0 r.full_duplex _ _ refl (omega arith)) (omega arith))
                            (omega arith))
                          (omega arith))
                        (omega arith))
                      (omega arith))
                    (omega arith))
                  (omega arith))
                (omega arith))
              (omega arith))
            (omega arith))
          (omega arith))
        (omega arith))
      (omega arith)

-- A field is read back.
ctrl_bits :
    (r : CtrlRegister)
    → r.speed_selection < 4
    → (bit (ctrl_into r) 0 ≡ r.full_duplex)
      × (bit (ctrl_into r) 2 ≡ r.master_disable)
      × (bit_and (ctrl_into r / 2 ^ 8) 3 ≡ r.speed_selection)
      × (bit (ctrl_into r) 11 ≡ r.force_speed)
      × (bit (ctrl_into r) 12 ≡ r.force_duplex)
      × (bit (ctrl_into r) 16 ≡ r.lanphypc_override)
      × (bit (ctrl_into r) 17 ≡ r.lanphypc_value)
      × (bit (ctrl_into r) 24 ≡ r.lcd_power_down)
      × (bit (ctrl_into r) 25 ≡ r.host_to_me_interrupt)
      × (bit (ctrl_into r) 26 ≡ r.host_software_reset)
      × (bit (ctrl_into r) 27 ≡ r.receive_flow_control_enable)
      × (bit (ctrl_into r) 28 ≡ r.transmit_flow_control_enable)
      × (bit (ctrl_into r) 30 ≡ r.vlan_mode_enable)
      × (bit (ctrl_into r) 31 ≡ r.lan_connected_device_reset)
unfolding ctrl_sum
ctrl_bits r h8 =
    let e = ctrl_into-sum r h8 in
    let h0 = value-fits r.full_duplex in
    let h2 = value-fits r.master_disable in
    let h11 = value-fits r.force_speed in
    let h12 = value-fits r.force_duplex in
    let h16 = value-fits r.lanphypc_override in
    let h17 = value-fits r.lanphypc_value in
    let h24 = value-fits r.lcd_power_down in
    let h25 = value-fits r.host_to_me_interrupt in
    let h26 = value-fits r.host_software_reset in
    let h27 = value-fits r.receive_flow_control_enable in
    let h28 = value-fits r.transmit_flow_control_enable in
    let h30 = value-fits r.vlan_mode_enable in
    let h31 = value-fits r.lan_connected_device_reset in
    (
      bit-is (ctrl_into r) 0 r.full_duplex (omega arith),
      bit-is (ctrl_into r) 2 r.master_disable (omega arith),
      bit_and-mask 2 (ctrl_into r / 2 ^ 8) ∙ omega arith,
      bit-is (ctrl_into r) 11 r.force_speed (omega arith),
      bit-is (ctrl_into r) 12 r.force_duplex (omega arith),
      bit-is (ctrl_into r) 16 r.lanphypc_override (omega arith),
      bit-is (ctrl_into r) 17 r.lanphypc_value (omega arith),
      bit-is (ctrl_into r) 24 r.lcd_power_down (omega arith),
      bit-is (ctrl_into r) 25 r.host_to_me_interrupt (omega arith),
      bit-is (ctrl_into r) 26 r.host_software_reset (omega arith),
      bit-is (ctrl_into r) 27 r.receive_flow_control_enable (omega arith),
      bit-is (ctrl_into r) 28 r.transmit_flow_control_enable (omega arith),
      bit-is (ctrl_into r) 30 r.vlan_mode_enable (omega arith),
      bit-is (ctrl_into r) 31 r.lan_connected_device_reset (omega arith),
    )

-- Every content of the control register with a speed of two bits is read back from the word that is
-- written for it.
ctrl_from-ctrl_into : (r : CtrlRegister) → r.speed_selection < 4 → ctrl_from (ctrl_into r) ≡ r
unfolding ctrl_from
ctrl_from-ctrl_into r h =
    let (e0, e2, e8, e11, e12, e16, e17, e24, e25, e26, e27, e28, e30, e31) = ctrl_bits r h in
    rw (e0, e2, e8, e11, e12, e16, e17, e24, e25, e26, e27, e28, e30, e31)

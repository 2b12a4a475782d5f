-- ===== src/Hardware/Registers/Interrupts.antt =====
-- src/hardware/device/e1000/regs.rs: the interrupt registers, written and read.
use rucoonos.Prelude.{ℕ, ◌+◌, ◌≡◌, ◌^◌, ◌*◌, refl, arith}
use rucoonos.Hardware.Registers.{
  bit, InterruptCauseRegister, cause_from, cause_into, IMaskRegister, imask_from, imask_into,
}
use rucoonos.Hardware.Registers.Bits.{value, value-fits, step, bit-is}

-- The word as a sum of bits.
cause_sum : InterruptCauseRegister → ℕ
cause_sum r =
    0
    + value r.txdw * 2 ^ 0
    + value r.txqe * 2 ^ 1
    + value r.lsc * 2 ^ 2
    + value r.rxdmt * 2 ^ 4
    + value r.dsw * 2 ^ 5
    + value r.rxo * 2 ^ 6
    + value r.rxt * 2 ^ 7
    + value r.txd_low * 2 ^ 15
    + value r.int_asserted * 2 ^ 31

cause_into-sum : (r : InterruptCauseRegister) → cause_into r ≡ cause_sum r
unfolding cause_into cause_sum
cause_into-sum r =
    let h0 = value-fits r.txdw in
    let h1 = value-fits r.txqe in
    let h2 = value-fits r.lsc in
    let h4 = value-fits r.rxdmt in
    let h5 = value-fits r.dsw in
    let h6 = value-fits r.rxo in
    let h7 = value-fits r.rxt in
    let h15 = value-fits r.txd_low in
    let h31 = value-fits r.int_asserted in
    step 31 r.int_asserted _ _
      (step 15 r.txd_low _ _
        (step 7 r.rxt _ _
          (step 6 r.rxo _ _
            (step 5 r.dsw _ _
              (step 4 r.rxdmt _ _
                (step 2 r.lsc _ _
                  (step 1 r.txqe _ _ (step 0 r.txdw _ _ refl (omega arith)) (omega arith))
                  (omega arith))
                (omega arith))
              (omega arith))
            (omega arith))
          (omega arith))
        (omega arith))
      (omega arith)

-- A field is read back.
cause_bits :
    (r : InterruptCauseRegister)
    → (bit (cause_into r) 0 ≡ r.txdw)
      × (bit (cause_into r) 1 ≡ r.txqe)
      × (bit (cause_into r) 2 ≡ r.lsc)
      × (bit (cause_into r) 4 ≡ r.rxdmt)
      × (bit (cause_into r) 5 ≡ r.dsw)
      × (bit (cause_into r) 6 ≡ r.rxo)
      × (bit (cause_into r) 7 ≡ r.rxt)
      × (bit (cause_into r) 15 ≡ r.txd_low)
      × (bit (cause_into r) 31 ≡ r.int_asserted)
unfolding cause_sum
cause_bits r =
    let e = cause_into-sum r in
    let h0 = value-fits r.txdw in
    let h1 = value-fits r.txqe in
    let h2 = value-fits r.lsc in
    let h4 = value-fits r.rxdmt in
    let h5 = value-fits r.dsw in
    let h6 = value-fits r.rxo in
    let h7 = value-fits r.rxt in
    let h15 = value-fits r.txd_low in
    let h31 = value-fits r.int_asserted in
    (
      bit-is (cause_into r) 0 r.txdw (omega arith),
      bit-is (cause_into r) 1 r.txqe (omega arith),
      bit-is (cause_into r) 2 r.lsc (omega arith),
      bit-is (cause_into r) 4 r.rxdmt (omega arith),
      bit-is (cause_into r) 5 r.dsw (omega arith),
      bit-is (cause_into r) 6 r.rxo (omega arith),
      bit-is (cause_into r) 7 r.rxt (omega arith),
      bit-is (cause_into r) 15 r.txd_low (omega arith),
      bit-is (cause_into r) 31 r.int_asserted (omega arith),
    )

-- Every content of the interrupt cause register is read back from the word that is written for
-- it.
pub cause_from-cause_into : (r : InterruptCauseRegister) → cause_from (cause_into r) ≡ r
unfolding cause_from
cause_from-cause_into r =
    let (e0, e1, e2, e4, e5, e6, e7, e15, e31) = cause_bits r in
    rw (e0, e1, e2, e4, e5, e6, e7, e15, e31)

-- The word as a sum of bits.
imask_sum : IMaskRegister → ℕ
imask_sum r =
    0
    + value r.txdw * 2 ^ 0
    + value r.txqe * 2 ^ 1
    + value r.lsc * 2 ^ 2
    + value r.rxdmto * 2 ^ 4
    + value r.dsw * 2 ^ 5
    + value r.rxo * 2 ^ 6
    + value r.rxto * 2 ^ 7
    + value r.mdac * 2 ^ 9
    + value r.phyint * 2 ^ 12
    + value r.lsecpn * 2 ^ 14
    + value r.txd_low * 2 ^ 15

imask_into-sum : (r : IMaskRegister) → imask_into r ≡ imask_sum r
unfolding imask_into imask_sum
imask_into-sum r =
    let h0 = value-fits r.txdw in
    let h1 = value-fits r.txqe in
    let h2 = value-fits r.lsc in
    let h4 = value-fits r.rxdmto in
    let h5 = value-fits r.dsw in
    let h6 = value-fits r.rxo in
    let h7 = value-fits r.rxto in
    let h9 = value-fits r.mdac in
    let h12 = value-fits r.phyint in
    let h14 = value-fits r.lsecpn in
    let h15 = value-fits r.txd_low in
    step 15 r.txd_low _ _
      (step 14 r.lsecpn _ _
        (step 12 r.phyint _ _
          (step 9 r.mdac _ _
            (step 7 r.rxto _ _
              (step 6 r.rxo _ _
                (step 5 r.dsw _ _
                  (step 4 r.rxdmto _ _
                    (step 2 r.lsc _ _
                      (step 1 r.txqe _ _ (step 0 r.txdw _ _ refl (omega arith)) (omega arith))
                      (omega arith))
                    (omega arith))
                  (omega arith))
                (omega arith))
              (omega arith))
            (omega arith))
          (omega arith))
        (omega arith))
      (omega arith)

-- A field is read back.
imask_bits :
    (r : IMaskRegister)
    → (bit (imask_into r) 0 ≡ r.txdw)
      × (bit (imask_into r) 1 ≡ r.txqe)
      × (bit (imask_into r) 2 ≡ r.lsc)
      × (bit (imask_into r) 4 ≡ r.rxdmto)
      × (bit (imask_into r) 5 ≡ r.dsw)
      × (bit (imask_into r) 6 ≡ r.rxo)
      × (bit (imask_into r) 7 ≡ r.rxto)
      × (bit (imask_into r) 9 ≡ r.mdac)
      × (bit (imask_into r) 12 ≡ r.phyint)
      × (bit (imask_into r) 14 ≡ r.lsecpn)
      × (bit (imask_into r) 15 ≡ r.txd_low)
unfolding imask_sum
imask_bits r =
    let e = imask_into-sum r in
    let h0 = value-fits r.txdw in
    let h1 = value-fits r.txqe in
    let h2 = value-fits r.lsc in
    let h4 = value-fits r.rxdmto in
    let h5 = value-fits r.dsw in
    let h6 = value-fits r.rxo in
    let h7 = value-fits r.rxto in
    let h9 = value-fits r.mdac in
    let h12 = value-fits r.phyint in
    let h14 = value-fits r.lsecpn in
    let h15 = value-fits r.txd_low in
    (
      bit-is (imask_into r) 0 r.txdw (omega arith),
      bit-is (imask_into r) 1 r.txqe (omega arith),
      bit-is (imask_into r) 2 r.lsc (omega arith),
      bit-is (imask_into r) 4 r.rxdmto (omega arith),
      bit-is (imask_into r) 5 r.dsw (omega arith),
      bit-is (imask_into r) 6 r.rxo (omega arith),
      bit-is (imask_into r) 7 r.rxto (omega arith),
      bit-is (imask_into r) 9 r.mdac (omega arith),
      bit-is (imask_into r) 12 r.phyint (omega arith),
      bit-is (imask_into r) 14 r.lsecpn (omega arith),
      bit-is (imask_into r) 15 r.txd_low (omega arith),
    )

-- Every content of the interrupt mask register is read back from the word that is written for it.
pub imask_from-imask_into : (r : IMaskRegister) → imask_from (imask_into r) ≡ r
unfolding imask_from
imask_from-imask_into r =
    let (e0, e1, e2, e4, e5, e6, e7, e9, e12, e14, e15) = imask_bits r in
    rw (e0, e1, e2, e4, e5, e6, e7, e9, e12, e14, e15)

-- ===== src/Hardware/Driver/Start/Registers.antt =====
-- src/hardware/device/e1000.rs: the card and its registers after the set-up.
use rucoonos.Prelude.{
  ℕ, zero, suc, ◌+◌, ◌*◌, ◌%◌, ◌^◌, ◌<◌, ◌≡◌, refl, ap, ◌∙◌, arith, true, false, List, [], ◌∷◌,
  ◌++◌, Option, some, length, if◌then◌else◌, ◌==◌, All, ==_self,
}
use rucoonos.Hardware.Loop.{returned, ◌then◌}
use rucoonos.Hardware.Registers.{
  cause_from, cause_into, imask_from, imask_into, InterruptCauseRegister,
}
use rucoonos.Hardware.Registers.Cause
use rucoonos.Hardware.Registers.Interrupts.{cause_from-cause_into, imask_from-imask_into}
use rucoonos.Hardware.Driver.{RxDesc, Card, is_filled, tx_tail, rx_tail}
use rucoonos.Hardware.Driver.Pending.{IsValid}
use rucoonos.Hardware.Driver.Start.{
  init, any_read, initial, rx_descriptors, rx_pointers, rx_writes, tx_writes, rx_default, unwrapped,
  notify, enable_interrupts, enabled,
}

-- The value that a register has after some writes, 0 before the first.
abbrev pub value : ℕ → List (ℕ × ℕ) → ℕ → ℕ
value register [] last = last
value register ((r, v) ∷ writes) last = value register writes (if r == register then v else last)

module _ (translate_addr : ℕ → Option ℕ) where
  -- Every box with a number from `k` on, below `k + n`, is mapped: the descriptors are there, each
  -- with no frame.
  rx_descriptors-length :
      (box : ℕ → ℕ) (n k : ℕ)
      → ((i : ℕ) → (addr : ℕ) × (translate_addr (box i) ≡ some addr))
      → (ds : List RxDesc) × (rx_descriptors translate_addr box n k ≡ returned ds)
        × (length ds ≡ n)
        × All (λ d. is_filled d ≡ false) ds
  unfolding rx_descriptors rx_default
  rx_descriptors-length box zero k maps = ([], refl, refl, tt)
  rx_descriptors-length box (suc n) k maps =
      let (addr, e) = maps k in
      let (ds, r, l, empty) = rx_descriptors-length box n (suc k) maps in
      (
        _,
        ap
              (λ x. unwrapped x then λ phys.
                rx_descriptors translate_addr box n (suc k) then λ rest.
                returned (record rx_default { addr = phys; status = 0 } ∷ rest))
              e
            ∙ ap
                (λ x.
                  x then λ rest. returned (record rx_default { addr = addr; status = 0 } ∷ rest))
                r,
        ap suc l,
        (refl, empty),
      )

  -- Where the allocated memory is mapped, `init` returns a valid card with its number and with the result of the
  -- test for its memory: no descriptor of its receiving
  -- ring holds a frame, both rings of the card are empty for it (head and tail of the sending ring are
  -- 0, the receiving ring runs from 0 to 31), and its registers hold the physical address of the
  -- sending ring, and of the receiving ring the low 32 bits alone.
  pub init-IsValid :
      (reads : ℕ → ℕ) (id : ℕ) (box : ℕ → ℕ) (rx_ptr tx_ptr rx_phys tx_phys : ℕ)
      → ((i : ℕ) → (addr : ℕ) × (translate_addr (box i) ≡ some addr))
      → translate_addr rx_ptr ≡ some rx_phys
      → translate_addr tx_ptr ≡ some tx_phys
      → tx_phys < 2 ^ 64
      → (c : Card) × (init translate_addr reads id box rx_ptr tx_ptr ≡ returned c)
        × IsValid c
        × (c.id ≡ id)
        × (c.has_eeprom ≡ any_read reads 1000 0)
        × All (λ d. is_filled d ≡ false) c.rx_ring
        × (value 0x3810 c.writes 0 ≡ 0)
        × (value tx_tail c.writes 0 ≡ 0)
        × (value 0x2810 c.writes 0 ≡ 0)
        × (value rx_tail c.writes 0 ≡ 31)
        × (value 0x3800 c.writes 0 + 2 ^ 32 * value 0x3804 c.writes 0 ≡ tx_phys)
        × (value 0x2800 c.writes 0 + 2 ^ 32 * value 0x2804 c.writes 0 ≡ rx_phys % 2 ^ 32)
  unfolding init initial rx_writes tx_writes rx_pointers
  init-IsValid reads id box rx_ptr tx_ptr rx_phys tx_phys maps rx tx lt =
      let (ds, r, l, empty) = rx_descriptors-length box 33 0 maps in
      (
        card ds,
        ap
              (λ x. x then λ ds. unwrapped (translate_addr rx_ptr) then λ rx_phys.
                unwrapped (translate_addr tx_ptr) then λ tx_phys.
                returned (made ds rx_phys tx_phys))
              r
            ∙ ap
                (λ x. unwrapped x then λ rx_phys. unwrapped (translate_addr tx_ptr) then λ tx_phys.
                  returned (made ds rx_phys tx_phys))
                rx
            ∙ ap (λ x. unwrapped x then λ tx_phys. returned (made ds rx_phys tx_phys)) tx,
        record {
          rx_ring = l;
          rx_buffers = refl;
          cur_rx = omega arith;
          tx_ring = refl;
          tx_buffers = refl;
          cur_tx = omega arith;
          last_reclaimed_tx = omega arith;
        },
        refl,
        refl,
        empty,
        refl,
        refl,
        refl,
        refl,
        omega arith,
        omega arith,
      )
    where
      made : List RxDesc → ℕ → ℕ → Card
      made ds rx_phys tx_phys =
          initial id (any_read reads 1000 0) ds (rx_pointers translate_addr box 32 0) rx_phys
            tx_phys

      card : List RxDesc → Card
      card ds = made ds rx_phys tx_phys

value-last :
    (register v : ℕ) (ws : List (ℕ × ℕ)) (last : ℕ)
    → value register (ws ++ ((register, v) ∷ [])) last ≡ v
value-last register v [] last = ap (λ b. if b then v else last) (==_self register)
value-last register v ((r, x) ∷ ws) last =
    value-last register v ws (if r == register then x else last)

-- After `enable_interrupts` the mask register reads back with the causes that the interrupt handler
-- acts on, and the cause that a sender raises by `notify` reads back as `txd_low` alone of these.
enable_interrupts-notify :
    (c : Card)
    → let mask = imask_from (value 0x00d0 (enable_interrupts c).writes 0) in
      let cause = cause_from (value 0xc8 (notify c).writes 0) in
      (mask.rxto ≡ true)
      × (mask.txdw ≡ true)
      × (mask.txd_low ≡ true)
      × (cause.txd_low ≡ true)
      × (cause.txdw ≡ false)
      × (cause.rxt ≡ false)
unfolding enable_interrupts notify enabled
enable_interrupts-notify c =
    let e =
      ap imask_from
        (value-last 0x00d0 (imask_into enabled) (c.writes ++ ((0x3828, 2 * 2 ^ 25) ∷ [])) 0)
      ∙ imask_from-imask_into enabled in
    let f =
      ap cause_from (value-last 0xc8 (cause_into low) c.writes 0) ∙ cause_from-cause_into low in
    (
      ap (λ r. r.rxto) e,
      ap (λ r. r.txdw) e,
      ap (λ r. r.txd_low) e,
      ap (λ r. r.txd_low) f,
      ap (λ r. r.txdw) f,
      ap (λ r. r.rxt) f,
    )
  where
    low : InterruptCauseRegister
    low = Cause.set_asserted false (Cause.set_txd_low true Cause.default)

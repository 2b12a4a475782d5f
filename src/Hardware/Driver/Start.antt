-- ===== src/Hardware/Driver/Start.antt =====
-- src/hardware/device/e1000.rs: the set-up of a card, and its hardware address. The addresses of the
-- memory that is allocated, the page table and the words that the card gives at register 0x0014 are
-- parameters; the status, which `init` reads and drops, is left out.
pub mod Registers
pub mod Eeprom
use rucoonos.Prelude.{
  ℕ, zero, suc, ◌+◌, ◌-◌, ◌*◌, ◌/◌, ◌%◌, ◌^◌, Bool, true, false, not, ◌==◌, if◌then◌else◌, bit_and,
  bit_or, List, [], ◌∷◌, ◌++◌, Option, none, some,
}
use rucoonos.Net.Wire.{Array6, array6}
use rucoonos.Hardware.Loop.{Exec, returned, panicked, ◌then◌, Round, again, stop, loop}
use rucoonos.Hardware.Registers.{cause_into, IMaskRegister, imask_into}
use rucoonos.Hardware.Registers.Cause
use rucoonos.Hardware.Registers.Mask
use rucoonos.Hardware.Driver.{RxDesc, TxDesc, Card, write_command, tx_tail, rx_tail}

-- `RxDesc::default()` and `TxDesc::default()`
pub rx_default : RxDesc
rx_default = record { addr = 0; length = 0; checksum = 0; status = 0; errors = 0; special = 0 }

pub tx_default : TxDesc
tx_default = record { addr = 0; length = 0; cso = 0; cmd = 0; status = 0; css = 0; special = 0 }

abbrev pub copies {ℓ} : {A : Type ℓ} → ℕ → A → List A
copies zero a = []
copies (suc n) a = a ∷ copies n a

-- `.unwrap()` on an option
abbrev pub unwrapped {ℓ} : {A : Type ℓ} → Option A → Exec A
unwrapped none = panicked
unwrapped (some a) = returned a

-- `(0..n).any(|_| coms.read_command(0x0014) & 0x10 > 0)`, from the read with the number `k` on.
unfoldable pub any_read : (ℕ → ℕ) → ℕ → ℕ → Bool
any_read reads zero k = false
any_read reads (suc n) k =
    let rest = any_read reads n (suc k) in if bit_and (reads k) 0x10 == 0 then rest else true

-- `RCTL_EN | RCTL_SBP | RCTL_UPE | RCTL_MPE | RCTL_BAM | RCTL_SECRC`; the other flags are 0.
abbrev rctl : ℕ
rctl = bit_or (bit_or (bit_or (bit_or (bit_or (2 ^ 1) (2 ^ 2)) (2 ^ 3)) (2 ^ 4)) (2 ^ 15)) (2 ^ 26)

-- `TCTL_EN | TCTL_PSP | (15 << TCTL_CT_SHIFT) | (64 << TCTL_COLD_SHIFT) | TCTL_RTLC`
abbrev tctl : ℕ
tctl = bit_or (bit_or (bit_or (bit_or (2 ^ 1) (2 ^ 3)) (15 * 2 ^ 4)) (64 * 2 ^ 12)) (2 ^ 24)

module _ (translate_addr : ℕ → Option ℕ) where
  -- The descriptors of the boxes with the numbers from `k` on.
  pub rx_descriptors : (ℕ → ℕ) → ℕ → ℕ → Exec (List RxDesc)
  unfolding rx_default
  rx_descriptors box zero k = returned []
  rx_descriptors box (suc n) k = unwrapped (translate_addr (box k)) then λ phys.
      rx_descriptors box n (suc k) then λ rest.
      returned (record rx_default { addr = phys; status = 0 } ∷ rest)

  -- The pointers to the first `n` boxes from `k` on.
  pub rx_pointers : (ℕ → ℕ) → ℕ → ℕ → List ℕ
  rx_pointers box zero k = []
  rx_pointers box (suc n) k = box k ∷ rx_pointers box n (suc k)

-- The writes that set up the receiving ring at a physical address, and the sending ring.
unfoldable pub rx_writes : ℕ → List (ℕ × ℕ)
rx_writes ptr =
    (0x3800, ptr / 2 ^ 32 % 2 ^ 32)
    ∷ (0x3804, ptr % 2 ^ 32)
    ∷ (0x2800, ptr % 2 ^ 32)
    ∷ (0x2804, 0)
    ∷ (0x2808, 32 * 16)
    ∷ (0x2810, 0)
    ∷ (rx_tail, 32 - 1)
    ∷ (0x0100, rctl)
    ∷ []

unfoldable pub tx_writes : ℕ → List (ℕ × ℕ)
tx_writes ptr =
    (0x3804, ptr / 2 ^ 32 % 2 ^ 32)
    ∷ (0x3800, ptr % 2 ^ 32)
    ∷ (0x3808, 8 * 16)
    ∷ (0x3810, 0)
    ∷ (tx_tail, 0)
    ∷ (0x400, tctl)
    ∷ (0x0410, 0x0060200a)
    ∷ []

-- What `init` makes, with an empty packet queue.
unfoldable pub initial : ℕ → Bool → List RxDesc → List ℕ → ℕ → ℕ → Card
unfolding tx_default rx_writes tx_writes
initial id has_eeprom descriptors buffers rx_phys tx_phys = record {
  id = id;
  has_eeprom = has_eeprom;
  rx_ring = descriptors;
  tx_ring = copies 9 (record tx_default { addr = 0; cmd = 0; status = 1 });
  cur_tx = 0;
  cur_rx = 0;
  last_reclaimed_tx = 0;
  rx_buffers = buffers;
  tx_buffers = copies 8 0;
  packet_queue = [];
  messages = [];
  dropped = [];
  writes = (0x0014, 1) ∷ rx_writes rx_phys ++ tx_writes tx_phys;
}

-- `E1000Card::init`, with the memory for 33 boxes and the two rings.
pub init :
    (translate_addr : ℕ → Option ℕ) (reads : ℕ → ℕ)
    → ℕ
    → (box : ℕ → ℕ) (rx_ptr tx_ptr : ℕ) → Exec Card
unfolding any_read rx_descriptors rx_pointers initial
init translate_addr reads id box rx_ptr tx_ptr =
    rx_descriptors translate_addr box 33 0 then λ descriptors.
    unwrapped (translate_addr rx_ptr) then λ rx_phys.
    unwrapped (translate_addr tx_ptr) then λ tx_phys. returned (
      initial id (any_read reads 1000 0) descriptors (rx_pointers translate_addr box 32 0) rx_phys
        tx_phys)

-- The closure that a sender of frames calls: an interrupt with the cause `txd_low`.
pub notify : Card → Card
notify c =
    write_command 0xc8
      (cause_into (Cause.set_asserted false (Cause.set_txd_low true Cause.default))) c

-- The mask that `enable_interrupts` builds.
pub enabled : IMaskRegister
enabled = Mask.set_txd_low true (
    Mask.set_rxto true (
      Mask.set_rxo false (
        Mask.set_rxdmto false
          (Mask.set_lsc true (Mask.set_txqe false (Mask.set_txdw true Mask.default))))))

-- `E1000Card::enable_interrupts`, without the read at its end, whose result is dropped.
unfoldable pub enable_interrupts : Card → Card
unfolding enabled
enable_interrupts c =
    write_command 0x00d0 (imask_into enabled) (write_command 0x3828 (2 * 2 ^ 25) c)

-- One read of the loop in `read_eeprom`, the one with the number `k`.
pub polled : (ℕ → ℕ) → ℕ → Round ℕ
polled reads k = if bit_and (reads k) (2 ^ 4) == 0 then again (suc k) else stop k

-- `E1000Card::read_eeprom`: what the card answers from the request on is `reads`.
pub read_eeprom : ℕ → ℕ → (ℕ → ℕ) → Card → Exec (ℕ × Card)
unfolding polled
read_eeprom fuel addr reads c =
    if c.has_eeprom
    then (loop (polled reads) fuel 0 then λ k.
        returned
          (bit_and (reads k / 2 ^ 16) 0xffff, write_command 0x0014 (bit_or 1 (addr * 2 ^ 8)) c))
    else panicked

-- `E1000Card::read_mac_address`, with what the card answers to the three requests.
pub read_mac_address : ℕ → (ℕ → ℕ → ℕ) → Card → Exec (Array6 × Card)
unfolding read_eeprom
read_mac_address fuel reads c =
    if c.has_eeprom
    then (read_eeprom fuel 0 (reads 0) c then λ (first2, c1).
        read_eeprom fuel 1 (reads 1) c1 then λ (second2, c2).
        read_eeprom fuel 2 (reads 2) c2 then λ (third2, c3). returned (
          array6 (bit_and first2 0xff) (first2 / 2 ^ 8 % 2 ^ 8) (bit_and second2 0xff)
              (second2 / 2 ^ 8 % 2 ^ 8) (bit_and third2 0xff) (third2 / 2 ^ 8 % 2 ^ 8),
          c3,
        ))
    else panicked

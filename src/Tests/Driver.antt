-- ===== src/Tests/Driver.antt =====
-- The driver of the network card and the frames of the memory.
use rucoonos.Prelude.{
  ℕ, true, false, ◌≡◌, refl, arith, List, [], ◌∷◌, ◌++◌, Option, some, Bytes, zeros, ◌≤◌, ◌+◌, ◌*◌,
  ◌/◌, ◌%◌, ◌^◌, All,
}
use rucoonos.Hardware.Loop.{returned}
use rucoonos.Hardware.Registers.{InterruptCauseRegister}
use rucoonos.Hardware.Registers.Cause
use rucoonos.Hardware.Driver.{
  Card, RxDesc, TxDesc, receive, send, reclaim, handle_interrupt, is_filled, tx_tail, rx_tail,
}
use rucoonos.Hardware.Driver.Pending.{IsValid, pending}
use rucoonos.Hardware.Driver.Receive.{IsDrained, receive-IsDrained}
use rucoonos.Hardware.Driver.Enqueue.{handed_over, DescribeAll, IsMapped}
use rucoonos.Hardware.Driver.Transmit.{send-handed_over}
use rucoonos.Hardware.Driver.Sent.{sent_buffers}
use rucoonos.Hardware.Driver.Reclaim.{reclaim-dropped}
use rucoonos.Hardware.Driver.Interrupt.{handle_interrupt-returned}
use rucoonos.Hardware.Driver.Start.{copies, init, any_read}
use rucoonos.Hardware.Driver.Start.Registers.{value, init-IsValid}
use rucoonos.Hardware.Memory.{MemoryRegion, allocate_frames}
use rucoonos.Hardware.Memory
use rucoonos.Hardware.Memory.Frames.{IsInside, allocate_frames-IsInside}

-- The bytes behind any pointer.
abbrev memory : ℕ → ℕ → Bytes
memory ptr len = zeros len

abbrev translate_addr : ℕ → Option ℕ
translate_addr ptr = some (ptr + 0x1000)

abbrev rx : ℕ → RxDesc
rx status = record {
  addr = 0x2000;
  length = 60;
  checksum = 0;
  status = status;
  errors = 0;
  special = 0;
}

abbrev tx : ℕ → TxDesc
tx status = record {
  addr = 0x3000;
  length = 60;
  cso = 0;
  cmd = 11;
  status = status;
  css = 0;
  special = 0;
}

-- Two frames are received, around the end of the ring; three are sent, and one waits.
abbrev card : Card
card = record {
  id = 0;
  has_eeprom = true;
  rx_ring = rx 1 ∷ copies 30 (rx 0) ++ rx 3 ∷ rx 0 ∷ [];
  tx_ring = copies 9 (tx 1);
  cur_tx = 3;
  cur_rx = 31;
  last_reclaimed_tx = 0;
  rx_buffers = copies 32 0x2000;
  tx_buffers = 5 ∷ 6 ∷ 7 ∷ copies 5 0;
  packet_queue = record { data_ptr = 8; len = 60 } ∷ [];
  messages = [];
  dropped = [];
  writes = [];
}

card-IsValid : IsValid card
card-IsValid = record {
  rx_ring = refl;
  rx_buffers = refl;
  cur_rx = omega arith;
  tx_ring = refl;
  tx_buffers = refl;
  cur_tx = omega arith;
  last_reclaimed_tx = omega arith;
}

receive-IsDrained_example :
    (c' : Card) × (receive memory 33 card ≡ returned c')
    × IsDrained memory card (pending memory 0 card.rx_buffers card.rx_ring 31 32) c'
receive-IsDrained_example = receive-IsDrained memory card card-IsValid

mapped : All (IsMapped translate_addr) card.packet_queue
mapped = ((0x1008, refl), tt)

send-handed_over_example :
    (c' : Card) × (send translate_addr 8 card.packet_queue card ≡ returned c')
    × IsValid c'
    × (c'.packet_queue ≡ [])
    × DescribeAll translate_addr card.packet_queue (handed_over c'.tx_ring 3 c'.cur_tx)
send-handed_over_example =
    send-handed_over translate_addr card.packet_queue card card-IsValid mapped

reclaim-dropped_example :
    (c' : Card) × (reclaim 8 3 card ≡ returned c')
    × (c'.dropped ≡ sent_buffers card.tx_ring card.tx_buffers 0 3)
    × IsValid c'
reclaim-dropped_example = reclaim-dropped 3 card card-IsValid (omega arith)

abbrev cause : InterruptCauseRegister
cause = record (Cause.set_txdw true Cause.default) { rxt = true }

handle_interrupt-returned_example :
    (c' : Card) × (handle_interrupt memory translate_addr 33 cause 3 3 card ≡ returned c')
    × IsValid c'
    × (c'.messages ≡ pending memory 0 card.rx_buffers card.rx_ring 31 32)
    × (c'.packet_queue ≡ [])
handle_interrupt-returned_example =
    handle_interrupt-returned memory translate_addr cause 3 3 card card-IsValid (omega arith) mapped

init-IsValid_example :
    (c : Card) × (init translate_addr (λ k. 0x10) 0 (λ i. 0x2000 + i) 0x9000 0xa000 ≡ returned c)
    × IsValid c
    × (c.id ≡ 0)
    × (c.has_eeprom ≡ any_read (λ k. 0x10) 1000 0)
    × All (λ d. is_filled d ≡ false) c.rx_ring
    × (value 0x3810 c.writes 0 ≡ 0)
    × (value tx_tail c.writes 0 ≡ 0)
    × (value 0x2810 c.writes 0 ≡ 0)
    × (value rx_tail c.writes 0 ≡ 31)
    × (value 0x3800 c.writes 0 + 2 ^ 32 * value 0x3804 c.writes 0 ≡ 0xb000)
    × (value 0x2800 c.writes 0 + 2 ^ 32 * value 0x2804 c.writes 0 ≡ 0xa000 % 2 ^ 32)
init-IsValid_example =
    init-IsValid translate_addr (λ k. 0x10) 0 (λ i. 0x2000 + i) 0x9000 0xa000 0xa000 0xb000
      (λ i. (0x2000 + i + 0x1000, refl)) refl refl (omega arith)

-- Two usable regions, of one and of two frames, and a reserved one between them.
abbrev regions : List MemoryRegion
regions =
    record { start = 0x1000; end = 0x2000; is_usable = true }
    ∷ record { start = 0x2000; end = 0x4000; is_usable = false }
    ∷ record { start = 0x5000; end = 0x7000; is_usable = true }
    ∷ []

-- The frame that starts at or before an address.
abbrev containing_address : ℕ → ℕ
containing_address a = a / 4096 * 4096

allocate_frames-IsInside_example :
    (0x1000 + 4096 ≤ 0x6000) × IsInside regions 0x1000 × IsInside regions 0x6000
unfolding Memory.allocate_frames Memory.allocate_frame Memory.usable_frames Memory.frame_addresses
    Memory.range_steps Memory.steps Memory.init
allocate_frames-IsInside_example =
    allocate_frames-IsInside containing_address 3 0 2 0x1000 0x6000 regions
      (λ a. (omega arith, omega arith, omega arith))
      (
        (omega arith),
        (omega arith),
        refl,
        refl,
        ((omega arith), (omega arith), refl, refl, ((omega arith), (omega arith), refl, refl, tt)),
      )
      (omega arith) (omega arith) refl refl

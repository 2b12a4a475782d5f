-- ===== src/Hardware/Driver.antt =====
-- src/hardware/device/e1000.rs: the card's descriptor rings, as the interrupt handler works on them.
-- Buffers are the addresses of their blocks and 0 is the null pointer; what stands behind the two ring
-- pointers is part of the state, as the driver and the card share it. The writes to the card's
-- registers are a list, the last one at its end. What the code reads from the card, the memory behind
-- a pointer and the translation of addresses are parameters.
pub mod Pending
pub mod Receive
pub mod Enqueue
pub mod Transmit
pub mod Sent
pub mod Reclaim
pub mod Identity
pub mod Interrupt
pub mod Start
use rucoonos.Prelude.{
  ℕ, zero, suc, ◌+◌, ◌%◌, ◌^◌, Bool, true, false, not, ◌&&◌, ◌||◌, ◌==◌, if◌then◌else◌, bit_and,
  bit_or, List, [], ◌∷◌, ◌++◌, Option, none, some, Bytes,
}
use rucoonos.Prelude.Arrays.{get_elem?, set}
use rucoonos.Net.Buffer
use rucoonos.Net.Handler.State.{RawPacket}
use rucoonos.Hardware.Registers.{InterruptCauseRegister}
use rucoonos.Hardware.Loop.{Exec, returned, panicked, ◌then◌, Round, again, stop, fault, loop}

pub record RxDesc : Type 0 where
  pub addr : ℕ
  pub length : ℕ
  pub checksum : ℕ
  pub status : ℕ
  pub errors : ℕ
  pub special : ℕ

pub record TxDesc : Type 0 where
  pub addr : ℕ
  pub length : ℕ
  pub cso : ℕ
  pub cmd : ℕ
  pub status : ℕ
  pub css : ℕ
  pub special : ℕ

-- What `into_buffer` and `into_raw` give of a frame that waits to be sent.
pub record Outgoing : Type 0 where
  pub data_ptr : ℕ
  pub len : ℕ

-- `E1000Card`, with the rings behind `rx_ptr` and `tx_ptr`, the messages it enqueued for the network
-- handler, the buffers it dropped, and its writes to the registers.
pub record Card : Type 0 where
  pub id : ℕ
  pub has_eeprom : Bool
  pub rx_ring : List RxDesc
  pub tx_ring : List TxDesc
  pub cur_tx : ℕ
  pub cur_rx : ℕ
  pub last_reclaimed_tx : ℕ
  pub rx_buffers : List ℕ
  pub tx_buffers : List ℕ
  pub packet_queue : List Outgoing
  pub messages : List RawPacket
  pub dropped : List ℕ
  pub writes : List (ℕ × ℕ)

-- `write_command`
abbrev pub write_command : ℕ → ℕ → Card → Card
write_command register value c = record c { writes = c.writes ++ ((register, value) ∷ []) }

-- `TXDESCTAIL` and `RXDESCTAIL`
abbrev pub tx_tail : ℕ
tx_tail = 0x3818

abbrev pub rx_tail : ℕ
rx_tail = 0x2818

-- `(desc.status & 0b01) == 0`, negated
abbrev pub is_filled : RxDesc → Bool
is_filled d = not (bit_and d.status 1 == 0)

-- The memory behind a pointer: `slice::from_raw_parts`.
module _ (memory : ℕ → ℕ → Bytes) where
  unfoldable pub packet_of : ℕ → RxDesc → ℕ → RawPacket
  packet_of id d ptr = record { buffer = Buffer.new (memory ptr d.length); id = id }

  -- The body of the receiving loop after the test of the status.
  pub received : Card → RxDesc → ℕ → Card
  unfolding packet_of
  received c d ptr = record c {
    messages = c.messages ++ (packet_of c.id d ptr ∷ []);
    rx_ring = set c.rx_ring c.cur_rx (record d { status = 0 });
    cur_rx = (c.cur_rx + 1) % 32;
    writes = c.writes ++ ((rx_tail, c.cur_rx) ∷ []);
  }

  pub tested : Card → RxDesc → Bool → Option ℕ → Round Card
  unfolding received
  tested c d false ptr = stop c
  tested c d true none = fault
  tested c d true (some ptr) = again (received c d ptr)

  pub fetched : Card → Option RxDesc → Option ℕ → Round Card
  unfolding tested
  fetched c none ptr = fault
  fetched c (some d) ptr = tested c d (is_filled d) ptr

  -- One round of the receiving loop.
  pub receive_one : Card → Round Card
  unfolding fetched
  receive_one c = fetched c (get_elem? c.rx_ring c.cur_rx) (get_elem? c.rx_buffers c.cur_rx)

  pub receive : ℕ → Card → Exec Card
  unfolding receive_one
  receive fuel c = loop receive_one fuel c

-- `CMD_EOP | CMD_IFCS | CMD_RS`
abbrev cmd_send : ℕ
cmd_send = bit_or (bit_or (2 ^ 0) (2 ^ 1)) (2 ^ 3)

-- `translate_addr` of the page table.
module _ (translate_addr : ℕ → Option ℕ) where
  -- What is written into a descriptor; the remaining fields stay.
  pub filled : TxDesc → ℕ → ℕ → TxDesc
  filled d addr len = record d { addr = addr; length = len % 2 ^ 16; cmd = cmd_send; status = 0 }

  pub enqueued : Card → Outgoing → Option TxDesc → Option ℕ → Option ℕ → Exec Card
  unfolding filled
  enqueued c p none addr slot = panicked
  enqueued c p (some d) none slot = panicked
  enqueued c p (some d) (some addr) none = panicked
  enqueued c p (some d) (some addr) (some old) = returned (record c {
    tx_ring = set c.tx_ring c.cur_tx (filled d addr p.len);
    tx_buffers = set c.tx_buffers c.cur_tx p.data_ptr;
    writes = c.writes ++ ((tx_tail, (c.cur_tx + 1) % 8) ∷ []);
    cur_tx = (c.cur_tx + 1) % 8;
  })

  pub enqueue_packet : Card → Outgoing → Exec Card
  unfolding enqueued
  enqueue_packet c p =
      enqueued c p (get_elem? c.tx_ring c.cur_tx) (translate_addr p.data_ptr)
        (get_elem? c.tx_buffers c.cur_tx)

  -- The loop over `0..n` that takes frames from the packet queue.
  pub send : ℕ → List Outgoing → Card → Exec Card
  unfolding enqueue_packet
  send zero queue c = returned (record c { packet_queue = queue })
  send (suc n) [] c = returned (record c { packet_queue = [] })
  send (suc n) (p ∷ ps) c = enqueue_packet c p then (λ c'. send n ps c')

  -- Only while the card has nothing left to send.
  pub transmit : InterruptCauseRegister → ℕ → ℕ → Card → Exec Card
  unfolding send
  transmit cause head tail c =
      if (head == tail) && (cause.txd_low || cause.txdw)
      then send 8 c.packet_queue c
      else returned c

-- The iterator of the reclaiming loop: the next index, and the card.
pub record Cycle : Type 0 where
  pub next : ℕ
  pub card : Card

-- The frame of the pointer is taken back and dropped. `Box::from_raw` of a null pointer is undefined in the
-- source; here it is a 0 in `dropped`.
pub reclaimed : Card → ℕ → ℕ → Card
reclaimed c i ptr = record c {
  dropped = c.dropped ++ (ptr ∷ []);
  tx_buffers = set c.tx_buffers i 0;
  last_reclaimed_tx = (i + 1) % 8;
}

pub checked : Cycle → Option ℕ → Bool → Round Cycle
unfolding reclaimed
checked s ptr false = again (record s { next = (s.next + 1) % 8 })
checked s none true = fault
checked s (some ptr) true =
    again (record { next = (s.next + 1) % 8; card = reclaimed s.card s.next ptr })

pub visited : Cycle → Bool → Option TxDesc → Option ℕ → Round Cycle
unfolding checked
visited s true d ptr = stop s
visited s false none ptr = fault
visited s false (some d) ptr = checked s ptr (d.status == 1)

-- One index of the loop: `take_while`, `continue` at a frame that is not sent, or its buffer's end.
pub reclaim_one : ℕ → Cycle → Round Cycle
unfolding visited
reclaim_one head s =
    visited s (s.next == head) (get_elem? s.card.tx_ring s.next)
      (get_elem? s.card.tx_buffers s.next)

-- `(0..8u32).cycle().skip(last_reclaimed_tx).take_while(|i| *i != cur_tx_head)`
pub reclaim : ℕ → ℕ → Card → Exec Card
unfolding reclaim_one
reclaim fuel head c =
    loop (reclaim_one head) fuel (record { next = c.last_reclaimed_tx % 8; card = c }) then λ s.
    returned s.card

-- `handle_interrupt`, with what it reads: the cause, the head and the tail of the sending ring.
pub handle_interrupt :
    (memory : ℕ → ℕ → Bytes) (translate_addr : ℕ → Option ℕ)
    → ℕ
    → InterruptCauseRegister
    → ℕ
    → ℕ
    → Card
    → Exec Card
unfolding receive transmit reclaim
handle_interrupt memory translate_addr fuel cause head tail c =
    (if cause.rxt then receive memory fuel c else returned c)
    then (λ c. transmit translate_addr cause head tail c)
    then (λ c. if cause.txdw then reclaim fuel head c else returned c)

-- ===== src/Tests/Flow.antt =====
-- The way of frames between the card and the handler.
use rucoonos.Prelude.{
  ℕ, Bool, true, false, ◌≡◌, refl, arith, [], ◌∷◌, Option, none, some, Bytes, zeros, ◌+◌, ok, ◌++◌,
  inl,
}
use rucoonos.Prelude.Arrays.{set}
use rucoonos.Net.Wire.{Array4, array4, array6, debug}
use rucoonos.Net.Buffer
use rucoonos.Net.Ethernet
use rucoonos.Net.Ethernet.{EthType}
use rucoonos.Net.Arp
use rucoonos.Net.IpMap
use rucoonos.Net.IpMap.{try_get}
use rucoonos.Net.Handler.{
  Device, Shared, World, DhcpExchange, RawPacket, action, send_arp_request, handle_arp, step,
  enqueue_all,
}
use rucoonos.Net.Flow.{Node, placed, interrupt, handle_next}
use rucoonos.Net.Flow.Answers.{idle, arp_request-transmitted}
use rucoonos.Net.Flow.Reachable.{Reach, Step, IsSound, interrupt-IsSound, Reach-interrupt}
use rucoonos.Net.Api.GetMac.{GetMac, Dequeue, pending, ready, poll, answer_of}
use rucoonos.Net.Api.GetMac.Answer.{poll-answer}
use rucoonos.Main.Ping.{PingTask, Seen, run_task}
use rucoonos.Main.Ping.Requests.{IsKept, Pings, due, answers, run_task-IsKept}
use rucoonos.Hardware.Loop.{returned}
use rucoonos.Hardware.Registers.{InterruptCauseRegister}
use rucoonos.Hardware.Registers.Cause
use rucoonos.Hardware.Driver.{Card, RxDesc, TxDesc, packet_of}
use rucoonos.Hardware.Driver.Start.{copies}
use rucoonos.Hardware.Driver.Pending
use rucoonos.Hardware.Driver.Pending.{IsValid}
use rucoonos.Hardware.Driver.Enqueue.{DescribeAll, handed_over}

-- An ARP frame of a router to the device.
abbrev message : (operation : ℕ) → Bytes
message operation =
    0xff ∷ 0xff ∷ 0xff ∷ 0xff ∷ 0xff ∷ 0xff ∷ 0x52 ∷ 0x55 ∷ 10 ∷ 0 ∷ 2 ∷ 2 ∷ 8 ∷ 6 ∷ 0 ∷ 1 ∷ 8 ∷ 0
    ∷ 6 ∷ 4 ∷ 0 ∷ operation ∷ 0x52 ∷ 0x55 ∷ 10 ∷ 0 ∷ 2 ∷ 2 ∷ 10 ∷ 0 ∷ 2 ∷ 2 ∷ 0 ∷ 0 ∷ 0 ∷ 0 ∷ 0 ∷ 0
    ∷ 10 ∷ 0 ∷ 2 ∷ 15 ∷ []

-- Its question for the device's address.
abbrev question : Bytes
question = message 1

abbrev memory : ℕ → ℕ → Bytes
memory ptr len = question

abbrev translate_addr : ℕ → Option ℕ
translate_addr ptr = some (ptr + 0x1000)

abbrev data_ptr : Ethernet.Packet → ℕ
data_ptr p = 0x8000

abbrev always : ℕ → Bool
always q = true

abbrev rx : ℕ → RxDesc
rx status = record {
  addr = 0x2000;
  length = 42;
  checksum = 0;
  status = status;
  errors = 0;
  special = 0;
}

abbrev tx : TxDesc
tx = record { addr = 0; length = 0; cso = 0; cmd = 0; status = 0; css = 0; special = 0 }

abbrev card : Card
card = record {
  id = 1;
  has_eeprom = true;
  rx_ring = rx 3 ∷ copies 32 (rx 0);
  tx_ring = copies 9 tx;
  cur_tx = 7;
  cur_rx = 0;
  last_reclaimed_tx = 0;
  rx_buffers = copies 32 0x2000;
  tx_buffers = copies 8 0;
  packet_queue = [];
  messages = [];
  dropped = [];
  writes = [];
}

card-IsValid : IsValid card
card-IsValid = record {
  rx_ring = refl;
  rx_buffers = refl;
  cur_rx = omega arith;
  tx_ring = refl;
  tx_buffers = refl;
  cur_tx = omega arith;
  last_reclaimed_tx = omega arith;
}

abbrev device : Option Array4 → DhcpExchange → Device
device ip dhcp = record {
  id = 1;
  packet_queue = [];
  metadata = record { mac = array6 0x52 0x54 0 0x12 0x34 0x56; ip = ip; dhcp = dhcp };
}

abbrev nothing : Shared
nothing = record { ips = IpMap.new; udp = []; arp = []; ping = []; events = [] }

abbrev received : InterruptCauseRegister
received = record Cause.default { rxt = true }

abbrev notified : InterruptCauseRegister
notified = record Cause.default { txd_low = true }

abbrev raw : RawPacket
raw = record { buffer = Buffer.new question; id = 1 }

abbrev asked : Arp.Packet
asked = record {
  eth_packet = Ethernet.new (Buffer.new question);
  hardware_ty = 1;
  protocol_ty = 0x800;
  hardware_size = 6;
  protocol_size = 4;
  operation = 1;
  src_mac = array6 0x52 0x55 10 0 2 2;
  src_ip = array4 10 0 2 2;
  dest_mac = array6 0 0 0 0 0 0;
  dest_ip = array4 10 0 2 15;
}

asked-new : Arp.new (Ethernet.new (Buffer.new question)) ≡ ok asked
unfolding Arp.new Ethernet.new Ethernet.content Buffer.new zeros
asked-new = refl

asked-mac :
    Ethernet.destination_mac (Ethernet.new (Buffer.new question))
    ≡ ok (array6 255 255 255 255 255 255)
unfolding Ethernet.new Ethernet.destination_mac Buffer.new zeros
asked-mac = refl

asked-type : Ethernet.ether_type (Ethernet.new (Buffer.new question)) ≡ ok EthType.arp
unfolding Ethernet.new Ethernet.ether_type Ethernet.from_array Buffer.new zeros
asked-type = refl

waiting : Pending.pending memory 1 card.rx_buffers card.rx_ring 0 32 ≡ raw ∷ []
unfolding Pending.pending packet_of
waiting = refl

-- The answer stands on the last descriptor of the ring.
arp_request-transmitted_example :
    (n1 : Node) × (n2 : Node) × (n3 : Node) × (q : Ethernet.Packet) × (b : Arp.Packet) × (interrupt
        memory translate_addr data_ptr 33 received 0 0
        (idle card (device (some (array4 10 0 2 15)) DhcpExchange.done) nothing)
      ≡ returned n1)
    × (handle_next debug always n1 n1.inbox ≡ ok n2)
    × (interrupt memory translate_addr data_ptr 33 notified 7 7 n2 ≡ returned n3)
    × DescribeAll translate_addr
        (placed data_ptr q ∷ [])
        (handed_over n3.card.tx_ring n2.card.cur_tx n3.card.cur_tx)
    × (n3 ≡ idle n3.card (device (some (array4 10 0 2 15)) DhcpExchange.done) nothing)
    × IsValid n3.card
    × (Ethernet.destination_mac q ≡ ok (array6 0x52 0x55 10 0 2 2))
    × (Ethernet.ether_type q ≡ ok EthType.arp)
    × (Arp.new q ≡ ok b)
    × (Arp.operation_of b ≡ Arp.Operation.response)
    × (b.src_mac ≡ array6 0x52 0x54 0 0x12 0x34 0x56)
    × (b.src_ip ≡ array4 10 0 2 15)
    × (b.dest_mac ≡ array6 0x52 0x55 10 0 2 2)
    × (b.dest_ip ≡ array4 10 0 2 2)
arp_request-transmitted_example =
    arp_request-transmitted debug always memory translate_addr data_ptr received notified 0 0 7 card
      (device (some (array4 10 0 2 15)) DhcpExchange.done) nothing raw
      (array6 255 255 255 255 255 255) asked (array4 10 0 2 15) (λ p. (0x9000, mapped p))
      card-IsValid refl (omega arith) refl refl refl refl waiting asked-mac refl asked-type
      asked-new refl refl refl
  where
    mapped : (p : Ethernet.Packet) → translate_addr (placed data_ptr p).data_ptr ≡ some 0x9000
    mapped p = unfold placed in refl

abbrev start : Node
start = idle card (device none DhcpExchange.initial) nothing

start-IsSound : IsSound start
start-IsSound = record { card = card-IsValid; same_id = refl; settled = inl refl; inbox = tt }

placed-mapped : (p : Ethernet.Packet) → translate_addr (placed data_ptr p).data_ptr ≡ some 0x9000
unfolding placed
placed-mapped p = refl

first_interrupt :
    (n : Node) × (interrupt memory translate_addr data_ptr 33 received 0 0 start ≡ returned n)
    × IsSound n
first_interrupt =
    interrupt-IsSound debug always translate_addr data_ptr (λ p. (0x9000, placed-mapped p)) memory
      received 0 0 start (omega arith) start-IsSound

-- The card after its first interrupt, and a frame that it then receives.
abbrev refilled : Node
refilled =
    let n = first_interrupt.0 in
    record n { card = record (n.card) { rx_ring = set n.card.rx_ring 1 (rx 3) } }

-- An interrupt, another frame, a request for an address, and the next interrupt.
Reach-interrupt_example :
    (t' : Node) × (interrupt
        (λ ptr len. [])
        translate_addr
        data_ptr
        33
        received
        0
        0
        (record refilled {
          inbox = refilled.inbox ++ (action (send_arp_request (array4 10 0 2 2) 5) ∷ []);
        })
      ≡ returned t')
    × IsSound t'
Reach-interrupt_example =
    Reach-interrupt debug always translate_addr data_ptr (λ p. (0x9000, placed-mapped p)) start _
      (λ ptr len. []) received 0 0 card-IsValid refl refl refl
      (Reach.next
        (Reach.next
          (Reach.next Reach.here
            (Step.interrupted memory received 0 0 (omega arith) first_interrupt.1))
          (Step.filled 1 (rx 3)))
        (Step.requested (send_arp_request (array4 10 0 2 2) 5)))
      (omega arith)

-- A user that waits for the address of the router.
abbrev before : World
before = record { devices = []; shared = nothing }

abbrev listening : World
listening = record { devices = []; shared = record nothing { arp = (array4 10 0 2 2, 5) ∷ [] } }

listens : step debug always before (action (send_arp_request (array4 10 0 2 2) 5)) ≡ ok listening
unfolding step enqueue_all IpMap.insert
listens = refl

abbrev reply : Ethernet.Packet
reply = Ethernet.new (Buffer.new (message 2))

abbrev answer : Arp.Packet
answer = record asked { operation = 2; eth_packet = reply }

answer-new : Arp.new reply ≡ ok answer
unfolding Arp.new Ethernet.new Ethernet.content Buffer.new zeros
answer-new = refl

nothing_yet : answer_of 5 [] ≡ Dequeue.empty
unfolding answer_of
nothing_yet = refl

poll-answer_example :
    (poll true Dequeue.empty (GetMac.asking (array4 10 0 2 2) 5)
      ≡ ok (pending, GetMac.listening 5, action (send_arp_request (array4 10 0 2 2) 5) ∷ []))
    × (poll true (answer_of 5 []) (GetMac.listening 5) ≡ ok (pending, GetMac.listening 5, []))
    × (s : Shared) × (handle_arp debug always
          (device none DhcpExchange.initial)
          listening.shared
          reply
        ≡ ok (device none DhcpExchange.initial, s))
    × (poll true (answer_of 5 s.events) (GetMac.listening 5)
        ≡ ok (ready (some (array6 0x52 0x55 10 0 2 2)), GetMac.finished, []))
    × (try_get s.ips (array4 10 0 2 2) ≡ some (array6 0x52 0x55 10 0 2 2))
poll-answer_example =
    poll-answer debug always before listening (device none DhcpExchange.initial) 5 (array4 10 0 2 2)
      reply answer nothing_yet refl listens answer-new refl refl

-- A poll that finds the last ping answered or not, and lets the task go on.
abbrev seen : Bool → Seen
seen raised = record {
  accepted = true;
  found = Dequeue.empty;
  raised = raised;
  yielded = true;
  flag = 4;
  waker = 5;
}

run_task-IsKept_example : IsKept (array4 10 0 2 2) (array6 0x52 0x55 10 0 2 2) 3 (
    run_task
      (array4 10 0 2 2)
      (PingTask.yielding (array6 0x52 0x55 10 0 2 2))
      (seen false ∷ seen true ∷ seen false ∷ seen true ∷ []))
unfolding Pings due answers
run_task-IsKept_example =
    run_task-IsKept (array4 10 0 2 2) (array6 0x52 0x55 10 0 2 2)
      (PingTask.yielding (array6 0x52 0x55 10 0 2 2))
      (seen false ∷ seen true ∷ seen false ∷ seen true ∷ []) refl

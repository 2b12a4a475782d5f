-- ===== src/Net/Arp.antt =====
-- src/extensions/networking/protocols/arp.rs: ARP packets, and the builder that writes them.
-- A builder `PacketBuilder<S>` is its state `S`.
pub mod RoundTrip
use rucoonos.Prelude.{
  ℕ, [], ◌∷◌, Bytes, length, Outcome, ok, err, panic, ◌>>=◌, ◌>>◌, ensure, not, ltb, ◌==◌,
  if◌then◌else◌,
}
use rucoonos.Net.Wire.{
  Array2, Array4, Array6, array2, list2, list4, list6, read2, read4, read6, index, copy_at, store,
  from_be, to_be, filling,
}
use rucoonos.Net.Ethernet
use rucoonos.Net.Ethernet.{EthType}

pub data Operation : Type 0 where
  request response : Operation
  unknown : ℕ → Operation

unfoldable pub from_u16 : ℕ → Operation
from_u16 raw =
    if raw == 1
    then Operation.request
    else if raw == 2
    then Operation.response
    else Operation.unknown raw

unfoldable pub into_u16 : Operation → ℕ
into_u16 Operation.request = 1
into_u16 Operation.response = 2
into_u16 (Operation.unknown u) = u

pub record Packet : Type 0 where
  pub hardware_ty : ℕ
  pub protocol_ty : ℕ
  pub hardware_size : ℕ
  pub protocol_size : ℕ
  pub operation : ℕ
  pub src_mac : Array6
  pub src_ip : Array4
  pub dest_mac : Array6
  pub dest_ip : Array4
  pub eth_packet : Ethernet.Packet

unfoldable pub new : Ethernet.Packet → Outcome Packet
new eth = do
  content ← Ethernet.content eth
  ensure (not (ltb (length content) 28))
  hardware_ty ← read2 0 content
  protocol_ty ← read2 2 content
  hardware_size ← index 4 content
  protocol_size ← index 5 content
  op ← read2 6 content
  src_mac ← read6 8 content
  src_ip ← read4 14 content
  dest_mac ← read6 18 content
  dest_ip ← read4 24 content
  ok (record {
    hardware_ty = from_be hardware_ty;
    protocol_ty = from_be protocol_ty;
    hardware_size = hardware_size;
    protocol_size = protocol_size;
    operation = from_be op;
    src_mac = src_mac;
    src_ip = src_ip;
    dest_mac = dest_mac;
    dest_ip = dest_ip;
    eth_packet = eth;
  })

-- `Packet::operation`
unfoldable pub operation_of : Packet → Operation
unfolding from_u16
operation_of p = from_u16 p.operation

pub record SenderState : Type 0 where
  pub mac : Array6
  pub ip : Array4

pub record DestinationState : Type 0 where
  pub sender : SenderState
  pub mac : Array6
  pub ip : Array4

pub record OperationState : Type 0 where
  pub destination : DestinationState
  pub operation : ℕ

unfoldable pub sender : Array6 → Array4 → SenderState
sender mac ip = record { mac = mac; ip = ip }

unfoldable pub destination : SenderState → Array6 → Array4 → DestinationState
destination s mac ip = record { sender = s; mac = mac; ip = ip }

unfoldable pub operation : DestinationState → Operation → OperationState
unfolding into_u16
operation s op = record { destination = s; operation = into_u16 op }

-- The closure that `finish` hands to the frame's builder.
abbrev write : OperationState → Bytes → Outcome (ℕ × Bytes)
write s p0 = do
  let d = s.destination
  p1 ← copy_at 0 (0 ∷ 1 ∷ []) p0
  p2 ← copy_at 2 (0x08 ∷ 0 ∷ []) p1
  p3 ← store 4 6 p2
  p4 ← store 5 4 p3
  p5 ← copy_at 6 (list2 (to_be s.operation)) p4
  p6 ← copy_at 8 (list6 d.sender.mac) p5
  p7 ← copy_at 14 (list4 d.sender.ip) p6
  p8 ← copy_at 18 (list6 d.mac) p7
  p9 ← copy_at 24 (list4 d.ip) p8
  ok (28, p9)

-- The frame that `finish` starts from: addressed to the destination, and of type ARP.
unfoldable pub frame : OperationState → Ethernet.EtherTypeState
frame s = Ethernet.ether_ty (Ethernet.destination (Ethernet.source d.sender.mac) d.mac) EthType.arp
  where
    open s use {destination as d}

pub finish : OperationState → Outcome Ethernet.Packet
unfolding frame
finish s = Ethernet.finish (frame s) (filling (write s))

-- ===== src/Net/Arp/RoundTrip.antt =====
-- src/extensions/networking/protocols/arp.rs: a frame of the builder, taken apart by the parser.
use rucoonos.Prelude.{
  ◌<◌, ◌≡◌, refl, arith, ◌∷◌, Bytes, length, zeros, length-zeros, ok, err, IsU16, lt→ltb, le→ltb,
}
use rucoonos.Net.Wire.{filling, to_be, from_be-to_be}
use rucoonos.Net.Ethernet
use rucoonos.Net.Ethernet.{EthType, EtherTypeState}
use rucoonos.Net.Ethernet.Frame.{finish-IsFrame}
use rucoonos.Net.Arp.{Packet, OperationState, new, write, frame, finish}

-- The 28 bytes of a packet, and what follows them.
abbrev bytes : OperationState → Bytes → Bytes
bytes s rest =
    0
    ∷ 1
    ∷ 8
    ∷ 0
    ∷ 6
    ∷ 4
    ∷ (to_be s.operation).b0
    ∷ (to_be s.operation).b1
    ∷ m.b0
    ∷ m.b1
    ∷ m.b2
    ∷ m.b3
    ∷ m.b4
    ∷ m.b5
    ∷ i.b0
    ∷ i.b1
    ∷ i.b2
    ∷ i.b3
    ∷ n.b0
    ∷ n.b1
    ∷ n.b2
    ∷ n.b3
    ∷ n.b4
    ∷ n.b5
    ∷ j.b0
    ∷ j.b1
    ∷ j.b2
    ∷ j.b3
    ∷ rest
  where
    open s use {destination as d}
    open d.sender use {mac as m, ip as i}
    open d use {mac as n, ip as j}

zeros_1486 :
    zeros 1486
    ≡ 0
      ∷ 0
      ∷ 0
      ∷ 0
      ∷ 0
      ∷ 0
      ∷ 0
      ∷ 0
      ∷ 0
      ∷ 0
      ∷ 0
      ∷ 0
      ∷ 0
      ∷ 0
      ∷ 0
      ∷ 0
      ∷ 0
      ∷ 0
      ∷ 0
      ∷ 0
      ∷ 0
      ∷ 0
      ∷ 0
      ∷ 0
      ∷ 0
      ∷ 0
      ∷ 0
      ∷ 0
      ∷ zeros 1458
unfolding zeros
zeros_1486 = refl

written : (s : OperationState) → filling (write s) (zeros 1486) ≡ (ok 28, bytes s (zeros 1458))
written s = rw zeros_1486

-- The packet that the parser makes of those bytes.
abbrev pub parsed : OperationState → Ethernet.Packet → Packet
parsed s p = record {
  hardware_ty = 1;
  protocol_ty = 0x0800;
  hardware_size = 6;
  protocol_size = 4;
  operation = s.operation;
  src_mac = s.destination.sender.mac;
  src_ip = s.destination.sender.ip;
  dest_mac = s.destination.mac;
  dest_ip = s.destination.ip;
  eth_packet = p;
}

new-bytes :
    (s : OperationState) (rest : Bytes) (p : Ethernet.Packet)
    → IsU16 s.operation
    → Ethernet.content p ≡ ok (bytes s rest)
    → new p ≡ ok (parsed s p)
unfolding new
new-bytes s rest p h e =
    rw (e, le→ltb (length (bytes s rest)) 28 (omega arith), from_be-to_be s.operation h)

-- For an operation of 16 bits, the builder returns a frame that the parser takes apart again
-- into an Ethernet ARP packet with the builder's operation and addresses. The frame is sent by the
-- sender's address to the destination's, with the type of ARP.
pub new-finish :
    (s : OperationState)
    → IsU16 s.operation
    → (p : Ethernet.Packet) × (finish s ≡ ok p)
      × (new p ≡ ok (parsed s p))
      × (Ethernet.destination_mac p ≡ ok s.destination.mac)
      × (Ethernet.source_mac p ≡ ok s.destination.sender.mac)
      × (Ethernet.ether_type p ≡ ok EthType.arp)
unfolding finish Ethernet.ether_ty Ethernet.destination Ethernet.source Ethernet.from_array
new-finish s h =
    let (p, e, f) =
      finish-IsFrame (frame s) (filling (write s)) 28 (bytes s (zeros 1458)) (written s)
        (omega (arith, length-zeros 1458)) (omega arith) in
    (p, e, new-bytes s _ p h f.holds, f.to, f.by, f.type)

-- A frame with fewer than 28 bytes of content is refused.
pub new_short :
    (p : Ethernet.Packet) (c : Bytes) → Ethernet.content p ≡ ok c → length c < 28 → new p ≡ err
unfolding new
new_short p c e h = rw (e, lt→ltb (length c) 28 h)

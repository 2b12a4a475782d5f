-- ===== src/Tests/Frames.antt =====
-- Frames, ARP packets and IPv4 packets.
use rucoonos.Prelude.{ℕ, ◌≡◌, max, refl, arith, take, zeros, length-zeros, ok, panic}
use rucoonos.Net.Wire.{Array4, Array6, debug, release, Fill, array2, array4, array6}
use rucoonos.Net.Ethernet
use rucoonos.Net.Ethernet.{EthType}
use rucoonos.Net.Ethernet.Frame.{IsFrame, finish-IsFrame}
use rucoonos.Net.Arp
use rucoonos.Net.Arp.RoundTrip.{parsed, new-finish}
use rucoonos.Net.Ipv4
use rucoonos.Net.Ipv4.{PacketHeader, Protocol}
use rucoonos.Net.Ipv4.Checksum.{
  IsValid, Verifies, cleared, set_checksum-Verifies, set_checksum_carry,
}
use rucoonos.Net.IpMap
use rucoonos.Net.IpMap.{IpMap, eq4}

abbrev card : Array6
card = array6 0x52 0x54 0 0x12 0x34 0x56

abbrev gateway : Array6
gateway = array6 0x52 0x55 10 0 2 2

abbrev own_ip : Array4
own_ip = array4 10 0 2 15

abbrev gateway_ip : Array4
gateway_ip = array4 10 0 2 2

abbrev frame_state : Ethernet.EtherTypeState
frame_state = record { source = card; destination = gateway; ether_ty = array2 0x08 0x06 }

-- Reports what it is told to and writes nothing.
abbrev reports : ℕ → Fill
reports n b = (ok n, b)

finish-IsFrame_example :
    (p : Ethernet.Packet) × (Ethernet.finish frame_state (reports 3) ≡ ok p)
    × IsFrame frame_state (take (max 3 46) (zeros 1486)) p
finish-IsFrame_example =
    finish-IsFrame frame_state (reports 3) 3 (zeros 1486) refl (length-zeros 1486) (omega arith)

abbrev question : Arp.OperationState
question = record {
  destination = record {
    sender = record { mac = card; ip = own_ip };
    mac = gateway;
    ip = gateway_ip;
  };
  operation = 1;
}

abbrev builder : Ipv4.DestinationState
builder = record {
  dscp = 0;
  ident = 7;
  ttl = 20;
  protocol = Protocol.udp;
  source = own_ip;
  source_mac = card;
  destination = gateway_ip;
  destination_mac = gateway;
}

abbrev plain : PacketHeader
plain = Ipv4.plain_header builder 30

plain-IsValid : IsValid plain
unfolding Ipv4.into_u8
plain-IsValid = record {
  dscp_fits = omega arith;
  length_fits = omega arith;
  ident_fits = omega arith;
  fragment_fits = omega arith;
  ttl_fits = omega arith;
  protocol_fits = omega arith;
  source_fits = omega arith;
  destination_fits = omega arith;
}

set_checksum-Verifies_example :
    (h : PacketHeader) × (Ipv4.set_checksum debug plain ≡ ok h)
    × (cleared h ≡ cleared plain)
    × Verifies h
set_checksum-Verifies_example =
    set_checksum-Verifies debug plain plain-IsValid (unfold Ipv4.into_u8 in omega arith)

-- The words of this header sum to 0x1ffff.
abbrev carries_twice : PacketHeader
carries_twice = record plain {
  total_length = 0;
  identification = 0xffff;
  ttl = 0;
  protocol = Protocol.unknown 0;
  source_ip = array4 0xbb 0 0 0;
  destination_ip = array4 0 0 0 0;
}

carries_twice-IsValid : IsValid carries_twice
unfolding Ipv4.into_u8
carries_twice-IsValid = record {
  dscp_fits = omega arith;
  length_fits = omega arith;
  ident_fits = omega arith;
  fragment_fits = omega arith;
  ttl_fits = omega arith;
  protocol_fits = omega arith;
  source_fits = omega arith;
  destination_fits = omega arith;
}

set_checksum_carry_example :
    (Ipv4.set_checksum debug carries_twice ≡ panic)
    × (h : PacketHeader) × (Ipv4.set_checksum release carries_twice ≡ ok h)
    × (Verifies h → ⊥)
set_checksum_carry_example =
    set_checksum_carry carries_twice carries_twice-IsValid (unfold Ipv4.into_u8 in omega arith)

abbrev known : IpMap
known = IpMap.set IpMap.new gateway_ip gateway

new-finish_example :
    (p : Ethernet.Packet) × (Arp.finish question ≡ ok p)
    × (Arp.new p ≡ ok (parsed question p))
    × (Ethernet.destination_mac p ≡ ok gateway)
    × (Ethernet.source_mac p ≡ ok card)
    × (Ethernet.ether_type p ≡ ok EthType.arp)
new-finish_example = new-finish question (omega arith)

-- ===== src/Main/Announce.antt =====
-- src/main.rs: the packet that `kernel_main` sends from every device.
use rucoonos.Prelude.{
  ◌≡◌, refl, arith, inr, List, [], ◌∷◌, Outcome, ok, ◌>>=◌, unwrap, zeros, length-zeros,
}
use rucoonos.Net.Wire.{Array6, Profile, array4}
use rucoonos.Net.Ethernet
use rucoonos.Net.Ipv4
use rucoonos.Net.Ipv4.Builder
use rucoonos.Net.Udp
use rucoonos.Net.Udp.RoundTrip.{finish-header-payload}
use rucoonos.Net.Handler.State.{broadcast, enqueue}
use rucoonos.Hardware.Instance.{Device}

abbrev ip_builder : Array6 → Ipv4.DestinationState
ip_builder mac =
    Builder.destination
      (Builder.source
        (Builder.protocol (Builder.ttl (Builder.identification (Builder.dscp 0) 0x2345) 20)
          Ipv4.Protocol.udp)
        (array4 0 0 0 0) mac)
      (array4 255 255 255 255) broadcast

-- An empty UDP packet.
empty_packet : Profile → Array6 → Outcome Ethernet.Packet
unfolding Udp.source_port Udp.destination_port
empty_packet profile mac =
    Udp.finish profile (Udp.destination_port (Udp.source_port 68) 67) (ip_builder mac)
      (λ b. (ok 0, b)) 0

-- The closure for each networking device, and its `unwrap`.
announce : Profile → List Device → Outcome (List Device)
unfolding empty_packet
announce profile [] = ok []
announce profile (Device.network d ∷ ds) = do
  p ← unwrap (empty_packet profile d.metadata.mac)
  rest ← announce profile ds
  ok (Device.network (enqueue d p) ∷ rest)
announce profile (Device.graphics ∷ ds) = do rest ← announce profile ds; ok (Device.graphics ∷ rest)

-- The packet is built for every hardware address, in a debug and in a release build, and reads back as one
-- between the ports 68 and 67 with nothing but its header.
empty_packet-header :
    (profile : Profile) (mac : Array6)
    → (p : Ethernet.Packet) × (empty_packet profile mac ≡ ok p)
      × (Udp.header (Udp.new (Ipv4.new p))
          ≡ ok (record { source_port = 68; destination_port = 67; length = 8; checksum = 0 }))
unfolding empty_packet Ipv4.into_u8 Builder.dscp Builder.identification Builder.ttl Builder.protocol
    Builder.source Builder.destination Udp.source_port Udp.destination_port
empty_packet-header profile mac =
    let (p, e, h, _, _, _) =
      finish-header-payload profile (Udp.destination_port (Udp.source_port 68) 67) (ip_builder mac)
        (λ b. (ok 0, b)) 0 (zeros 1458) (omega arith) (omega arith)
        (record {
          dscp_fits = omega arith;
          length_fits = omega arith;
          ident_fits = omega arith;
          fragment_fits = omega arith;
          ttl_fits = omega arith;
          protocol_fits = omega arith;
          source_fits = omega arith;
          destination_fits = omega arith;
        })
        (inr (omega arith)) refl (length-zeros 1458) (omega arith) in
    (p, e, h)

-- ===== src/Net/Udp.antt =====
-- src/extensions/networking/protocols/udp.rs: UDP headers, packets, and the builder.
-- A builder `PacketBuilder<S>` is its state `S`.
pub mod RoundTrip
use rucoonos.Prelude.{
  ℕ, ◌+◌, ◌%◌, ◌^◌, [], ◌∷◌, Bytes, length, Outcome, ok, err, panic, ◌>>=◌, ◌>>◌, ensure, assert,
  unwrap, not, ltb, ◌==◌,
}
use rucoonos.Net.Wire.{Profile, Fill, read2, slice, from, copy_at, list2, from_be, to_be, fill_from}
use rucoonos.Net.Ethernet
use rucoonos.Net.Ipv4

pub record Packet : Type 0 where
  pub ip_packet : Ipv4.Packet

pub record PacketHeader : Type 0 where
  pub source_port : ℕ
  pub destination_port : ℕ
  pub length : ℕ
  pub checksum : ℕ

-- `TryFrom<&[u8]>`
pub try_from : Bytes → Outcome PacketHeader
try_from value = do
  ensure (not (ltb (length value) 8))
  source_port ← read2 0 value
  destination_port ← read2 2 value
  len ← read2 4 value
  checksum ← read2 6 value
  ok (record {
    source_port = from_be source_port;
    destination_port = from_be destination_port;
    length = from_be len;
    checksum = from_be checksum;
  })

pub to_bytes : PacketHeader → Bytes → Outcome Bytes
to_bytes h t = do
  ensure (not (ltb (length t) 8))
  t0 ← copy_at 0 (list2 (to_be h.source_port)) t
  t1 ← copy_at 2 (list2 (to_be h.destination_port)) t0
  t2 ← copy_at 4 (list2 (to_be h.length)) t1
  copy_at 6 (list2 (to_be h.checksum)) t2

unfoldable pub new : Ipv4.Packet → Packet
new packet = record { ip_packet = packet }

pub header : Packet → Outcome PacketHeader
header p = do raw ← Ipv4.payload p.ip_packet; first ← slice 0 8 raw; unwrap (try_from first)

pub payload : Packet → Outcome Bytes
payload p = do raw ← Ipv4.payload p.ip_packet; from 8 raw

unfoldable pub ip_packet : Packet → Ipv4.Packet
ip_packet p = p.ip_packet

pub record SourcePort : Type 0 where
  pub source_port : ℕ

pub record DestinationPort : Type 0 where
  pub source_port : ℕ
  pub destination_port : ℕ

unfoldable pub source_port : ℕ → SourcePort
source_port port = record { source_port = port }

unfoldable pub destination_port : SourcePort → ℕ → DestinationPort
destination_port s port = record { source_port = s.source_port; destination_port = port }

-- `let _ = header.to_bytes(&mut ip_payload[0..8])`: an error would leave the slice as it is.
abbrev put_header : PacketHeader → Bytes → Outcome Bytes
put_header h b = do
  target ← slice 0 8 b
  elim (to_bytes h target) [ ok t ↦ copy_at 0 t b | err ↦ ok b | panic ↦ panic ]

abbrev header_of : DestinationPort → ℕ → PacketHeader
header_of s size = record {
  source_port = s.source_port;
  destination_port = s.destination_port;
  length = (8 + size) % 2 ^ 16;
  checksum = 0;
}

-- The closure that `finish` hands to the IPv4 builder.
abbrev pub fill : DestinationPort → Fill → ℕ → Fill
fill s payload_func size b = elim (put_header (header_of s size) b) [
  | ok b' ↦
      let (r, c) = fill_from 8 payload_func b' in
      (r >>= λ n. assert (n == size) >> ok (8 + size), c)
  | err ↦ (err, b)
  | panic ↦ (panic, b)
]

pub finish : Profile → DestinationPort → Ipv4.DestinationState → Fill → ℕ → Outcome Ethernet.Packet
finish profile s ip payload_func size = Ipv4.finish profile ip (fill s payload_func size) (8 + size)

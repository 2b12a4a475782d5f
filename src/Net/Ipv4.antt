-- ===== src/Net/Ipv4.antt =====
-- src/extensions/networking/protocols/ipv4.rs: addresses, headers and their checksum, packets, and
-- the builder. A builder `PacketBuilder<S>` is its state `S`.
-- A sum of two `u16` that overflows panics in a debug build and wraps in a release build
-- (Cargo.toml leaves `overflow-checks` at its defaults): the profile is an argument.
pub mod Builder
pub mod Checksum
pub mod Parse
pub mod RoundTrip
use rucoonos.Prelude.{
  ℕ, ◌+◌, ◌-◌, ◌*◌, ◌/◌, ◌%◌, ◌^◌, Bool, true, false, ◌&&◌, ◌||◌, not, bit_and, bit_or, [], ◌∷◌,
  Bytes, length, zeros, Outcome, ok, err, panic, ◌>>=◌, ◌>>◌, ensure, assert, unwrap, ltb, ◌==◌,
  if◌then◌else◌,
}
use rucoonos.Net.Wire.{
  Array2, Array4, Array6, array2, list2, list4, read2, read4, index, slice, from, upto, copy_at,
  store, from_be, to_be, word_sum, Profile, add_u16, Fill, fill_from,
}
use rucoonos.Net.Ethernet
use rucoonos.Net.Ethernet.{EthType}

-- `Address([u8; 4])`
pub record Address : Type 0 where
  pub octets : Array4

pub data AddressType : Type 0 where
  lan wan loopback : AddressType

unfoldable pub from_array : Array4 → Address
from_array raw = record { octets = raw }

unfoldable pub into_array : Address → Array4
into_array a = a.octets

pub address_ty : Address → AddressType
address_ty a =
    if b0 == 127
    then AddressType.loopback
    else if b0 == 10 || (b0 == 192 && b1 == 0 && b2 == 0) || (b0 == 192 && b1 == 168)
    then AddressType.lan
    else AddressType.wan
  where
    open a.octets use {b0, b1, b2}

pub record Packet : Type 0 where
  pub eth_packet : Ethernet.Packet

pub data Protocol : Type 0 where
  icmp udp tcp : Protocol
  unknown : ℕ → Protocol

unfoldable pub into_u8 : Protocol → ℕ
into_u8 Protocol.icmp = 1
into_u8 Protocol.udp = 17
into_u8 Protocol.tcp = 6
into_u8 (Protocol.unknown proto) = proto

unfoldable pub from_u8 : ℕ → Protocol
from_u8 raw =
    if raw == 1
    then Protocol.icmp
    else if raw == 6
    then Protocol.tcp
    else if raw == 17
    then Protocol.udp
    else Protocol.unknown raw

pub record PacketHeader : Type 0 where
  pub version : ℕ
  pub ihl : ℕ
  pub dscp : ℕ
  pub ecn : ℕ
  pub total_length : ℕ
  pub identification : ℕ
  pub flags : ℕ
  pub fragment_offset : ℕ
  pub ttl : ℕ
  pub protocol : Protocol
  pub header_checksum : ℕ
  pub source_ip : Array4
  pub destination_ip : Array4

-- A left shift of a `u8` drops the bits that leave it.
pub to_bytes : PacketHeader → Bytes → Outcome Bytes
unfolding into_u8
to_bytes h t = do
  ensure (not (ltb (length t) 20))
  t0 ← store 0 (bit_or (bit_or 0 (h.version * 2 ^ 4 % 256)) (bit_and h.ihl 0x0f)) t
  t1 ← store 1 (bit_or (bit_or 0 (h.dscp * 2 ^ 1 % 256)) (bit_and h.ecn 0x01)) t0
  t2 ← copy_at 2 (list2 (to_be h.total_length)) t1
  t3 ← copy_at 4 (list2 (to_be h.identification)) t2
  t4 ← copy_at 6 (list2 (to_be h.fragment_offset)) t3
  x ← index 6 t4
  t5 ← store 6 (bit_or x (h.flags * 2 ^ 5 % 256)) t4
  t6 ← store 8 h.ttl t5
  t7 ← store 9 (into_u8 h.protocol) t6
  t8 ← copy_at 10 (list2 (to_be h.header_checksum)) t7
  t9 ← copy_at 12 (list4 h.source_ip) t8
  copy_at 16 (list4 h.destination_ip) t9

-- `let _ =` drops the error of `to_bytes`; 20 bytes are enough for it.
pub set_checksum : Profile → PacketHeader → Outcome PacketHeader
set_checksum profile h0 = do
  let h = record h0 { header_checksum = 0 }
  raw_bytes ← to_bytes h (zeros 20)
  let raw_result = word_sum raw_bytes
  let overflows = raw_result / 2 ^ 16 % 2 ^ 16
  let raw_checksum = bit_and raw_result 0xffff % 2 ^ 16
  sum ← add_u16 profile raw_checksum overflows
  ok (record h { header_checksum = 0xffff - sum })

unfoldable pub new : Ethernet.Packet → Packet
new raw = record { eth_packet = raw }

-- The flags and the fragment offset are read from the bytes 7 and 8, as in the source.
pub header : Packet → Outcome PacketHeader
unfolding from_u8
header p = do
  raw ← Ethernet.content p.eth_packet
  first ← index 0 raw
  let header_size = bit_and first 0x0f * 4
  d ← slice 0 header_size raw
  d0 ← index 0 d
  d1 ← index 1 d
  total_length ← read2 2 d
  identification ← read2 4 d
  d7 ← index 7 d
  d8 ← index 8 d
  d9 ← index 9 d
  header_checksum ← read2 10 d
  source_ip ← read4 12 d
  destination_ip ← read4 16 d
  ok (record {
    version = d0 / 2 ^ 4;
    ihl = bit_and d0 0x0f;
    dscp = d1 / 2 ^ 2;
    ecn = bit_and d1 0x03;
    total_length = from_be total_length;
    identification = from_be identification;
    flags = d7 / 2 ^ 5;
    fragment_offset = from_be (array2 (bit_and d7 0x1f) d8);
    ttl = d8;
    protocol = from_u8 d9;
    header_checksum = from_be header_checksum;
    source_ip = source_ip;
    destination_ip = destination_ip;
  })

unfoldable pub eth : Packet → Ethernet.Packet
eth p = p.eth_packet

pub payload : Packet → Outcome Bytes
payload p = do
  raw ← Ethernet.content p.eth_packet
  first ← index 0 raw
  let header_size = bit_and first 0x0f * 4
  from header_size raw

-- The last state of the builder.
pub record DestinationState : Type 0 where
  pub dscp : ℕ
  pub ident : ℕ
  pub ttl : ℕ
  pub protocol : Protocol
  pub source : Array4
  pub source_mac : Array6
  pub destination : Array4
  pub destination_mac : Array6

-- The header that `finish` sends, before its checksum. The payload's size is a `usize` that is cut
-- to 16 bits.
abbrev pub plain_header : DestinationState → ℕ → PacketHeader
plain_header s size = record {
  version = 4;
  ihl = 5;
  dscp = s.dscp;
  ecn = 0;
  total_length = (20 + size) % 2 ^ 16;
  identification = s.ident;
  flags = 0;
  fragment_offset = 0;
  ttl = s.ttl;
  protocol = s.protocol;
  header_checksum = 0;
  source_ip = s.source;
  destination_ip = s.destination;
}

-- `header.to_bytes(&mut eth_payload[0..20]).unwrap()`, with the header made before it.
abbrev pub put_header : Profile → DestinationState → ℕ → Bytes → Outcome Bytes
put_header profile s size b = do
  h ← set_checksum profile (plain_header s size)
  target ← slice 0 20 b
  t ← unwrap (to_bytes h target)
  copy_at 0 t b

-- The closure that `finish` hands to the frame's builder.
abbrev pub fill : Profile → DestinationState → Fill → ℕ → Fill
fill profile s payload_func size b = elim (put_header profile s size b) [
  | ok b' ↦
      let (r, c) = fill_from 20 payload_func b' in
      (r >>= λ n. assert (n == size) >> ok (20 + size), c)
  | err ↦ (err, b)
  | panic ↦ (panic, b)
]

unfoldable pub frame : DestinationState → Ethernet.EtherTypeState
frame s =
    Ethernet.ether_ty (Ethernet.destination (Ethernet.source s.source_mac) s.destination_mac)
      EthType.ipv4

pub finish : Profile → DestinationState → Fill → ℕ → Outcome Ethernet.Packet
finish profile s payload_func size = Ethernet.finish (frame s) (fill profile s payload_func size)

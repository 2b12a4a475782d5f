-- ===== src/Net/Dhcp.antt =====
-- src/extensions/networking/protocols/dhcp.rs: DHCP messages and the two that the client sends.
pub mod Options
pub mod Messages
use rucoonos.Prelude.{
  ℕ, zero, suc, ◌-◌, [], ◌∷◌, Bytes, length, drop, Outcome, ok, panic, ◌>>=◌, ◌>>◌, ensure, unwrap,
  not, ltb, ◌==◌, if◌then◌else◌,
}
use rucoonos.Net.Wire.{
  Array4, Array6, Profile, debug, release, Fill, array4, array6, list4, list6, index, read2, read4,
  slice, copy_at, store, from_be, from_be32, to_be32, filling,
}
use rucoonos.Net.Ethernet
use rucoonos.Net.Ipv4
use rucoonos.Net.Ipv4.Builder
use rucoonos.Net.Udp

pub record Packet : Type 0 where
  pub datagram : Udp.Packet

pub data Operation : Type 0 where
  discover offer request ack : Operation
  unknown : ℕ → Operation

unfoldable pub from_u8 : ℕ → Operation
from_u8 raw =
    if raw == 1
    then discover
    else if raw == 2
    then offer
    else if raw == 3
    then request
    else if raw == 5
    then ack
    else unknown raw

-- `chaddr` is a `[u8; 16]`.
pub record Data : Type 0 where
  pub op : ℕ
  pub htype : ℕ
  pub hlen : ℕ
  pub hops : ℕ
  pub xid : ℕ
  pub secs : ℕ
  pub flags : ℕ
  pub ciaddr : Array4
  pub yiaddr : Array4
  pub siaddr : Array4
  pub giaddr : Array4
  pub chaddr : Bytes
  pub operation : Operation

-- How many bytes `iter.by_ref().skip((len - 1) as usize).next()` takes: `len - 1` on `u8` panics at 0,
-- or wraps.
abbrev pub taken : Profile → ℕ → Outcome ℕ
taken debug zero = panic
taken release zero = ok 256
taken profile (suc n) = ok (suc n)

-- The loop over the options, with the bytes still to be taken: the value of option 53.
pub scan : Profile → ℕ → Bytes → Outcome ℕ
scan profile n [] = panic
scan profile (suc n) (x ∷ r) = scan profile n r
scan profile zero (code ∷ []) = panic
scan profile zero (code ∷ len ∷ r) =
    let next = taken profile len >>= λ n. scan profile n r in if code == 53 then index 0 r else next

-- `TryFrom<&[u8]> for Data`
pub try_from : Profile → Bytes → Outcome Data
unfolding from_u8
try_from profile value = do
  ensure (not (ltb (length value) 244))
  raw_op ← scan profile 0 (drop 240 value)
  op ← index 0 value
  htype ← index 1 value
  hlen ← index 2 value
  hops ← index 3 value
  xid ← read4 4 value
  secs ← read2 8 value
  flags ← read2 10 value
  ciaddr ← read4 12 value
  yiaddr ← read4 16 value
  siaddr ← read4 20 value
  giaddr ← read4 24 value
  chaddr ← slice 28 44 value
  ok (record {
    op = op;
    htype = htype;
    hlen = hlen;
    hops = hops;
    xid = from_be32 xid;
    secs = from_be secs;
    flags = from_be flags;
    ciaddr = ciaddr;
    yiaddr = yiaddr;
    siaddr = siaddr;
    giaddr = giaddr;
    chaddr = chaddr;
    operation = from_u8 raw_op;
  })

unfoldable pub new : Udp.Packet → Packet
new datagram = record { datagram = datagram }

pub get : Profile → Packet → Outcome Data
get profile p = do value ← Udp.payload p.datagram; unwrap (try_from profile value)

unfoldable pub udp_datagram : Packet → Udp.Packet
udp_datagram p = p.datagram

-- The IPv4 and UDP builders of both messages: from 0.0.0.0 to the broadcast address.
abbrev pub ip_builder : Array6 → ℕ → Ipv4.DestinationState
ip_builder own_mac ip_ident =
    Builder.destination
      (Builder.source
        (Builder.protocol (Builder.ttl (Builder.identification (Builder.dscp 0) ip_ident) 20)
          Ipv4.Protocol.udp)
        (array4 0 0 0 0) own_mac)
      (array4 255 255 255 255) (array6 0xff 0xff 0xff 0xff 0xff 0xff)

abbrev pub udp_builder : Udp.DestinationPort
udp_builder = Udp.destination_port (Udp.source_port 68) 67

-- The closure of `discover_message`.
abbrev write_discover : Array6 → ℕ → Bytes → Outcome (ℕ × Bytes)
write_discover own_mac xid p0 = do
  p1 ← store 0 0x1 p0
  p2 ← store 1 0x1 p1
  p3 ← store 2 0x6 p2
  p4 ← store 3 0x0 p3
  p5 ← copy_at 4 (list4 (to_be32 xid)) p4
  p6 ← copy_at 8 (0 ∷ 0 ∷ []) p5
  p7 ← copy_at 10 (0x80 ∷ 0 ∷ []) p6
  p8 ← copy_at 12 (0 ∷ 0 ∷ 0 ∷ 0 ∷ []) p7
  p9 ← copy_at 16 (0 ∷ 0 ∷ 0 ∷ 0 ∷ []) p8
  p10 ← copy_at 20 (0 ∷ 0 ∷ 0 ∷ 0 ∷ []) p9
  p11 ← copy_at 24 (0 ∷ 0 ∷ 0 ∷ 0 ∷ []) p10
  p12 ← copy_at 28 (list6 own_mac) p11
  p13 ← copy_at 236 (list4 (to_be32 0x63825363)) p12
  p14 ← store 240 53 p13
  p15 ← store 241 1 p14
  p16 ← store 242 1 p15
  p17 ← store 243 0xff p16
  ok (244, p17)

pub discover_message : Profile → Array6 → ℕ → ℕ → Outcome Ethernet.Packet
discover_message profile own_mac xid ip_ident =
    Udp.finish profile udp_builder (ip_builder own_mac ip_ident)
      (filling (write_discover own_mac xid)) 244

-- The closure of `request_message`.
abbrev write_request : Array6 → ℕ → Array4 → Array4 → Bytes → Outcome (ℕ × Bytes)
write_request own_mac xid ip server_ip p0 = do
  p1 ← store 0 0x1 p0
  p2 ← store 1 0x1 p1
  p3 ← store 2 0x6 p2
  p4 ← store 3 0x0 p3
  p5 ← copy_at 4 (list4 (to_be32 xid)) p4
  p6 ← copy_at 8 (0 ∷ 0 ∷ []) p5
  p7 ← copy_at 10 (0x80 ∷ 0 ∷ []) p6
  p8 ← copy_at 12 (list4 ip) p7
  p9 ← copy_at 16 (0 ∷ 0 ∷ 0 ∷ 0 ∷ []) p8
  p10 ← copy_at 20 (list4 server_ip) p9
  p11 ← copy_at 24 (0 ∷ 0 ∷ 0 ∷ 0 ∷ []) p10
  p12 ← copy_at 28 (list6 own_mac) p11
  p13 ← copy_at 236 (list4 (to_be32 0x63825363)) p12
  p14 ← store 240 53 p13
  p15 ← store 241 1 p14
  p16 ← store 242 3 p15
  p17 ← store 243 54 p16
  p18 ← store 244 4 p17
  p19 ← copy_at 245 (list4 server_ip) p18
  p20 ← store 250 50 p19
  p21 ← store 251 4 p20
  p22 ← copy_at 252 (list4 ip) p21
  p23 ← store 257 0xff p22
  ok (257, p23)

pub request_message : Profile → Array6 → ℕ → Array4 → Array4 → ℕ → Outcome Ethernet.Packet
request_message profile own_mac xid ip server_ip ip_ident =
    Udp.finish profile udp_builder (ip_builder own_mac ip_ident)
      (filling (write_request own_mac xid ip server_ip)) 257

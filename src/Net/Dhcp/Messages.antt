-- ===== src/Net/Dhcp/Messages.antt =====
-- src/extensions/networking/protocols/dhcp.rs: the two messages of the client, as a server reads them.
use rucoonos.Prelude.{
  ℕ, ◌+◌, ◌≡◌, refl, ◌∙◌, arith, [], ◌∷◌, ◌++◌, Bytes, length, take, zeros, ok, IsU16, IsU32,
}
use rucoonos.Net.Wire.{Array4, Array6, Profile, array4, list6, filling, to_be32, from_be32-to_be32}
use rucoonos.Net.Ethernet
use rucoonos.Net.Ipv4
use rucoonos.Net.Ipv4.Builder
use rucoonos.Net.Ipv4.Checksum.{IsValid}
use rucoonos.Net.Ipv4.RoundTrip.{Seals}
use rucoonos.Net.Udp
use rucoonos.Net.Udp.RoundTrip.{finish-header-payload}
use rucoonos.Net.Dhcp.{
  Data, Operation, discover, request, from_u8, scan, try_from, new, get, ip_builder, udp_builder,
  write_discover, discover_message, write_request, request_message,
}

-- The fixed part of a message up to the options: the addresses, the hardware address, and 202
-- bytes of zeros before the magic number.
abbrev fixed : ℕ → Array4 → Array4 → Array6 → Bytes → Bytes
fixed xid c s m rest =
    1
    ∷ 1
    ∷ 6
    ∷ 0
    ∷ (to_be32 xid).b0
    ∷ (to_be32 xid).b1
    ∷ (to_be32 xid).b2
    ∷ (to_be32 xid).b3
    ∷ 0
    ∷ 0
    ∷ 0x80
    ∷ 0
    ∷ c.b0
    ∷ c.b1
    ∷ c.b2
    ∷ c.b3
    ∷ 0
    ∷ 0
    ∷ 0
    ∷ 0
    ∷ s.b0
    ∷ s.b1
    ∷ s.b2
    ∷ s.b3
    ∷ 0
    ∷ 0
    ∷ 0
    ∷ 0
    ∷ m.b0
    ∷ m.b1
    ∷ m.b2
    ∷ m.b3
    ∷ m.b4
    ∷ m.b5
    ∷ (zeros 202 ++ (0x63 ∷ 0x82 ∷ 0x53 ∷ 0x63 ∷ rest))

discover_bytes : Array6 → ℕ → Bytes
discover_bytes mac xid =
    fixed xid (array4 0 0 0 0) (array4 0 0 0 0) mac (53 ∷ 1 ∷ 1 ∷ 0xff ∷ zeros 1214)

discover-writes :
    (mac : Array6) (xid : ℕ)
    → filling (write_discover mac xid) (zeros 1458) ≡ (ok 244, discover_bytes mac xid)
unfolding zeros discover_bytes
discover-writes mac xid = refl

request_bytes : Array6 → ℕ → Array4 → Array4 → Bytes
request_bytes mac xid ip server = fixed xid ip server mac (
    53
    ∷ 1
    ∷ 3
    ∷ 54
    ∷ 4
    ∷ server.b0
    ∷ server.b1
    ∷ server.b2
    ∷ server.b3
    ∷ 0
    ∷ 50
    ∷ 4
    ∷ ip.b0
    ∷ ip.b1
    ∷ ip.b2
    ∷ ip.b3
    ∷ 0
    ∷ 0xff
    ∷ zeros 1200)

request-writes :
    (mac : Array6) (xid : ℕ) (ip server : Array4)
    → filling (write_request mac xid ip server) (zeros 1458)
      ≡ (ok 257, request_bytes mac xid ip server)
unfolding zeros request_bytes
request-writes mac xid ip server = refl

-- What the server reads.
abbrev pub sent : ℕ → Array4 → Array4 → Array6 → Operation → Data
sent xid ciaddr siaddr mac operation = record {
  op = 1;
  htype = 1;
  hlen = 6;
  hops = 0;
  xid = xid;
  secs = 0;
  flags = 0x8000;
  ciaddr = ciaddr;
  yiaddr = array4 0 0 0 0;
  siaddr = siaddr;
  giaddr = array4 0 0 0 0;
  chaddr = list6 mac ++ zeros 10;
  operation = operation;
}

try_from-discover :
    (profile : Profile) (mac : Array6) (xid : ℕ)
    → IsU32 xid
    → try_from profile (take 244 (discover_bytes mac xid))
      ≡ ok (sent xid (array4 0 0 0 0) (array4 0 0 0 0) mac discover)
unfolding zeros discover_bytes try_from scan from_u8
try_from-discover profile mac xid h = rw (from_be32-to_be32 xid h)

try_from-request :
    (profile : Profile) (mac : Array6) (xid : ℕ) (ip server : Array4)
    → IsU32 xid
    → try_from profile (take 257 (request_bytes mac xid ip server))
      ≡ ok (sent xid ip server mac request)
unfolding zeros request_bytes try_from scan from_u8
try_from-request profile mac xid ip server h = rw (from_be32-to_be32 xid h)

-- The header of a message of 8 and `size` bytes, before its checksum.
abbrev pub message_header : Array6 → ℕ → ℕ → Ipv4.PacketHeader
message_header mac ident size = Ipv4.plain_header (ip_builder mac ident) (8 + size)

message_header-IsValid :
    (mac : Array6) (ident size : ℕ) → IsU16 ident → IsValid (message_header mac ident size)
unfolding Ipv4.into_u8 Builder.dscp Builder.identification Builder.ttl Builder.protocol
    Builder.source Builder.destination
message_header-IsValid mac ident size h = record {
  dscp_fits = omega arith;
  length_fits = omega arith;
  ident_fits = h;
  fragment_fits = omega arith;
  ttl_fits = omega arith;
  protocol_fits = omega arith;
  source_fits = omega arith;
  destination_fits = omega arith;
}

-- For 32 bits of transaction, 16 bits of identification and a checksum that can be sealed,
-- `discover_message` returns a packet between the ports 68 and 67, which a reader of either build
-- decodes as a discovery with the transaction and the hardware address given.
pub discover-get :
    (profile reader : Profile) (mac : Array6) (xid ident : ℕ)
    → IsU32 xid
    → IsU16 ident
    → Seals profile (message_header mac ident 244)
    → (p : Ethernet.Packet) × (discover_message profile mac xid ident ≡ ok p)
      × (Udp.header (Udp.new (Ipv4.new p))
          ≡ ok (record { source_port = 68; destination_port = 67; length = 252; checksum = 0 }))
      × (get reader (new (Udp.new (Ipv4.new p)))
          ≡ ok (sent xid (array4 0 0 0 0) (array4 0 0 0 0) mac discover))
unfolding discover_message get new Udp.source_port Udp.destination_port
discover-get profile reader mac xid ident hx hi q =
    let (p, e, head, body, _, _) =
      finish-header-payload profile udp_builder (ip_builder mac ident)
        (filling (write_discover mac xid)) 244 (discover_bytes mac xid) (omega arith) (omega arith)
        (message_header-IsValid mac ident 244 hi) q (discover-writes mac xid)
        (unfold discover_bytes zeros in refl) (omega arith) in
    (p, e, head, rw (body, try_from-discover reader mac xid hx))

-- For 32 bits of transaction, 16 bits of identification and a header that can be sealed,
-- `request_message` returns a packet that a reader of either build decodes as a request with the
-- transaction, the hardware address and the two IP addresses given. The message has 257 bytes,
-- and its last byte is 0, not the end mark of the options.
pub request-get :
    (profile reader : Profile) (mac : Array6) (xid : ℕ) (ip server : Array4) (ident : ℕ)
    → IsU32 xid
    → IsU16 ident
    → Seals profile (message_header mac ident 257)
    → (p : Ethernet.Packet) × (request_message profile mac xid ip server ident ≡ ok p)
      × (get reader (new (Udp.new (Ipv4.new p))) ≡ ok (sent xid ip server mac request))
      × (front : Bytes) × (length front ≡ 256)
      × (Udp.payload (Udp.new (Ipv4.new p)) ≡ ok (front ++ (0 ∷ [])))
unfolding request_message get new Udp.source_port Udp.destination_port
request-get profile reader mac xid ip server ident hx hi q =
    let (p, e, _, body, _, _) =
      finish-header-payload profile udp_builder (ip_builder mac ident)
        (filling (write_request mac xid ip server)) 257 (request_bytes mac xid ip server)
        (omega arith) (omega arith) (message_header-IsValid mac ident 257 hi) q
        (request-writes mac xid ip server) (unfold request_bytes zeros in refl) (omega arith) in
    (
      p,
      e,
      rw (body, try_from-request reader mac xid ip server hx),
      take 256 (request_bytes mac xid ip server),
      unfold request_bytes zeros in refl,
      body ∙ unfold request_bytes zeros in refl,
    )

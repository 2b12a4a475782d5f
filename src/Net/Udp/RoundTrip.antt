-- ===== src/Net/Udp/RoundTrip.antt =====
-- src/extensions/networking/protocols/udp.rs: a packet of the builder, taken apart by the parser.
use rucoonos.Prelude.{
  ℕ, ap, ◌∙◌, suc, ◌+◌, ◌/◌, ◌%◌, ◌≤◌, max, ◌≡◌, refl, arith, [], ◌∷◌, Bytes, length, take, zeros,
  Outcome, ok, IsU16, ==_self, le→ltb,
}
use rucoonos.Net.Wire.{Profile, Fill}
use rucoonos.Net.Ethernet
use rucoonos.Net.Ipv4
use rucoonos.Net.Ipv4.Checksum.{IsValid}
use rucoonos.Net.Ipv4.RoundTrip.{Seals, IsPacket, finish-IsPacket}
use rucoonos.Net.Udp.{
  PacketHeader, DestinationPort, to_bytes, try_from, new, header, payload, header_of, put_header,
  fill, finish,
}

-- What `to_bytes` writes, in front of the rest of the buffer.
abbrev bytes_of : PacketHeader → Bytes → Bytes
bytes_of h rest =
    h.source_port / 256 % 256
    ∷ h.source_port % 256
    ∷ h.destination_port / 256 % 256
    ∷ h.destination_port % 256
    ∷ h.length / 256 % 256
    ∷ h.length % 256
    ∷ h.checksum / 256 % 256
    ∷ h.checksum % 256
    ∷ rest

pub record Fits (h : PacketHeader) : Type 0 where
  pub source_fits : IsU16 h.source_port
  pub destination_fits : IsU16 h.destination_port
  pub length_fits : IsU16 h.length
  pub checksum_fits : IsU16 h.checksum

try_from-bytes_of : (h : PacketHeader) (rest : Bytes) → Fits h → try_from (bytes_of h rest) ≡ ok h
unfolding try_from
try_from-bytes_of h rest v = rw (le→ltb (length (bytes_of h rest)) 8 (omega arith)) (ground arith)

zeros_1466 : zeros 1466 ≡ 0 ∷ 0 ∷ 0 ∷ 0 ∷ 0 ∷ 0 ∷ 0 ∷ 0 ∷ zeros 1458
unfolding zeros
zeros_1466 = refl

put_header-bytes_of :
    (h : PacketHeader) (rest : Bytes)
    → put_header h (0 ∷ 0 ∷ 0 ∷ 0 ∷ 0 ∷ 0 ∷ 0 ∷ 0 ∷ rest) ≡ ok (bytes_of h rest)
unfolding to_bytes
put_header-bytes_of h rest = refl

put_header-zeros : (h : PacketHeader) → put_header h (zeros 1466) ≡ ok (bytes_of h (zeros 1458))
put_header-zeros h = ap (put_header h) zeros_1466 ∙ put_header-bytes_of h (zeros 1458)

fill-ok :
    (s : DestinationPort) (f : Fill) (size : ℕ) (b : Bytes)
    → f (zeros 1458) ≡ (ok size, b)
    → fill s f size (zeros 1466) ≡ (ok (8 + size), bytes_of (header_of s size) b)
fill-ok s f size b e = rw (put_header-zeros (header_of s size), fill, e, ==_self size)

past_header : (n : ℕ) → max (8 + n) 26 ≡ suc (suc (suc (suc (suc (suc (suc (suc (max n 18))))))))
past_header n = omega arith

header-body :
    (p : Ethernet.Packet) (h : PacketHeader) (rest : Bytes)
    → Fits h
    → Ipv4.payload (Ipv4.new p) ≡ ok (bytes_of h rest)
    → (header (new (Ipv4.new p)) ≡ ok h) × (payload (new (Ipv4.new p)) ≡ ok rest)
unfolding header payload new
header-body p h rest v e = (rw (e, try_from-bytes_of h [] v), rw e)

-- For ports of 16 bits and a payload of at most 1458 bytes, in an IPv4 packet whose fields fit and
-- whose checksum can be sealed: `finish` returns a packet of the IPv4 builder. Its UDP header has
-- the ports, the payload's length with 8 added, and no checksum. Its UDP payload is what the closure
-- wrote, with what follows it in the buffer up to 18 bytes.
pub finish-header-payload :
    (profile : Profile) (s : DestinationPort) (ip : Ipv4.DestinationState) (f : Fill) (size : ℕ)
    (b : Bytes)
    → IsU16 s.source_port
    → IsU16 s.destination_port
    → IsValid (Ipv4.plain_header ip (8 + size))
    → Seals profile (Ipv4.plain_header ip (8 + size))
    → f (zeros 1458) ≡ (ok size, b)
    → length b ≡ 1458
    → size ≤ 1458
    → (p : Ethernet.Packet) × (finish profile s ip f size ≡ ok p)
      × (header (new (Ipv4.new p))
          ≡ ok (record {
            source_port = s.source_port;
            destination_port = s.destination_port;
            length = 8 + size;
            checksum = 0;
          }))
      × (payload (new (Ipv4.new p)) ≡ ok (take (max size 18) b))
      × (rest : Bytes) × IsPacket ip (8 + size) rest p
unfolding finish
finish-header-payload profile s ip f size b hs hd v q e l h =
    let (p, r, w) =
      finish-IsPacket profile ip (fill s f size) (8 + size) (bytes_of (header_of s size) b) v q
        (fill-ok s f size b e) (omega arith) (omega arith) in
    let (x, y) =
      header-body p (header_of s size) (take (max size 18) b) (omega arith)
        (rw (past_header size) at w.body) in
    (p, r, x ∙ ap with_length (omega arith), y, _, w)
  where
    with_length : ℕ → Outcome PacketHeader
    with_length n = ok (record {
      source_port = s.source_port;
      destination_port = s.destination_port;
      length = n;
      checksum = 0;
    })

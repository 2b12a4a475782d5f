-- ===== src/Net/Ipv4/RoundTrip.antt =====
-- src/extensions/networking/protocols/ipv4.rs: a packet of the builder, taken apart by the parser.
use rucoonos.Prelude.{
  err, panic, ◌≢◌, ne→==, ◌⊎◌, inl, inr, ℕ, suc, ◌+◌, ◌-◌, ◌*◌, ◌/◌, ◌%◌, ◌^◌, ◌≤◌, ◌<◌, max, ◌≡◌,
  refl, arith, ◌∷◌, Bytes, length, take, zeros, ok, ==_self, IsU16,
}
use rucoonos.Prelude.Bits.{bit_or-zero, zero-bit_or, bit_and-mask}
use rucoonos.Net.Wire.{Profile, release, Fill}
use rucoonos.Net.Ethernet
use rucoonos.Net.Ethernet.{EthType}
use rucoonos.Net.Ethernet.Frame.{IsFrame, finish-IsFrame, finish-err, finish-eq}
use rucoonos.Net.Ipv4.{
  PacketHeader, DestinationState, plain_header, from_u8, into_u8, to_bytes, set_checksum,
  put_header, fill, frame, finish, new, header, payload,
}
use rucoonos.Net.Ipv4.Checksum.{
  bytes_of, fold, header_sum, cleared, IsValid, set_checksum-sealed, set_checksum-release,
}

zeros_1486 :
    zeros 1486
    ≡ 0 ∷ 0 ∷ 0 ∷ 0 ∷ 0 ∷ 0 ∷ 0 ∷ 0 ∷ 0 ∷ 0 ∷ 0 ∷ 0 ∷ 0 ∷ 0 ∷ 0 ∷ 0 ∷ 0 ∷ 0 ∷ 0 ∷ 0 ∷ zeros 1466
unfolding zeros
zeros_1486 = refl

-- The header of the builder with a checksum in it.
abbrev pub with_checksum : DestinationState → ℕ → ℕ → PacketHeader
with_checksum s size k = record (plain_header s size) { header_checksum = k }

put_header-zeros :
    (profile : Profile) (s : DestinationState) (size k : ℕ)
    → set_checksum profile (plain_header s size) ≡ ok (with_checksum s size k)
    → put_header profile s size (zeros 1486) ≡ ok (bytes_of (with_checksum s size k) (zeros 1466))
unfolding to_bytes
put_header-zeros profile s size k e = rw (zeros_1486, e)

module _ (profile : Profile) (s : DestinationState) (f : Fill) (size k : ℕ) (b : Bytes)
    (sealed : set_checksum profile (plain_header s size) ≡ ok (with_checksum s size k)) where
  fill-ok :
      f (zeros 1466) ≡ (ok size, b)
      → fill profile s f size (zeros 1486) ≡ (ok (20 + size), bytes_of (with_checksum s size k) b)
  fill-ok e = rw (put_header-zeros profile s size k sealed, fill, e, ==_self size)

  past_header :
      max (20 + size) 46
      ≡ suc (
          suc (
            suc (
              suc (
                suc (
                  suc (
                    suc (
                      suc (
                        suc (
                          suc (
                            suc (
                              suc (
                                suc (
                                  suc (suc (suc (suc (suc (suc (suc (max size 26))))))))))))))))))))
  past_header = omega arith

  -- A payload that fits: the frame is addressed as the builder says, of type IPv4, and its content
  -- is the header and the payload, with at least 26 bytes for the payload.
  pub finish-IsFrame_ipv4 :
      f (zeros 1466) ≡ (ok size, b)
      → length b ≡ 1466
      → size ≤ 1466
      → (p : Ethernet.Packet) × (finish profile s f size ≡ ok p)
        × IsFrame (frame s) (bytes_of (with_checksum s size k) (take (max size 26) b)) p
  unfolding finish
  finish-IsFrame_ipv4 e l h =
      let (p, q, w) =
        finish-IsFrame (frame s) (fill profile s f size) (20 + size)
          (bytes_of (with_checksum s size k) b) (fill-ok e) (omega arith) (omega arith) in
      (p, q, rw past_header at w)

-- What the parser makes of the builder's header. The DSCP was shifted by one bit and is read two bits
-- up, with the bits under it as the ECN; the fragment offset is read one byte too far.
abbrev pub parsed : DestinationState → ℕ → ℕ → PacketHeader
parsed s size k = record {
  version = 4;
  ihl = 5;
  dscp = s.dscp * 2 / 4;
  ecn = s.dscp * 2 % 4;
  total_length = 20 + size;
  identification = s.ident;
  flags = 0;
  fragment_offset = s.ttl;
  ttl = s.ttl;
  protocol = from_u8 (into_u8 s.protocol);
  header_checksum = k;
  source_ip = s.source;
  destination_ip = s.destination;
}

header-bytes :
    (s : DestinationState) (size k : ℕ) (rest : Bytes) (p : Ethernet.Packet)
    → s.dscp < 2 ^ 6
    → IsU16 s.ident
    → size ≤ 1466
    → IsU16 k
    → Ethernet.content p ≡ ok (bytes_of (with_checksum s size k) rest)
    → header (new p) ≡ ok (parsed s size k)
unfolding header new
header-bytes s size k rest p hd hi hs hk e =
    rw (e, bit_or-zero, zero-bit_or, bit_and-mask 2) (ground arith)

payload-bytes :
    (s : DestinationState) (size k : ℕ) (rest : Bytes) (p : Ethernet.Packet)
    → Ethernet.content p ≡ ok (bytes_of (with_checksum s size k) rest)
    → payload (new p) ≡ ok rest
unfolding payload new
payload-bytes s size k rest p e = rw e

-- The header can be sealed: the build does not check for overflow, or there is none.
abbrev pub Seals : Profile → PacketHeader → Type 0
Seals profile h = (profile ≡ release) ⊎ (fold (header_sum (cleared h)) < 2 ^ 16)

pub seal :
    (profile : Profile) (s : DestinationState) (size : ℕ)
    → IsValid (plain_header s size)
    → Seals profile (plain_header s size)
    → (k : ℕ) × IsU16 k × (set_checksum profile (plain_header s size) ≡ ok (with_checksum s size k))
seal profile s size v (inr f) = (
  0xffff - fold (header_sum (plain_header s size)),
  omega arith,
  set_checksum-sealed profile (plain_header s size) v f,
)
seal profile s size v (inl e) = (
  0xffff - fold (header_sum (plain_header s size)) % 2 ^ 16,
  omega arith,
  rw e (set_checksum-release (plain_header s size) v),
)

-- What a receiver reads from a packet of the builder: the addresses and the type of the frame, the
-- header, and the payload.
pub record IsPacket (s : DestinationState) (size : ℕ) (b : Bytes) (p : Ethernet.Packet)
    : Type 0 where
  pub to : Ethernet.destination_mac p ≡ ok s.destination_mac
  pub by : Ethernet.source_mac p ≡ ok s.source_mac
  pub type : Ethernet.ether_type p ≡ ok EthType.ipv4
  pub checksum : ℕ
  pub head : header (new p) ≡ ok (parsed s size checksum)
  pub body : payload (new p) ≡ ok b

pub finish-IsPacket :
    (profile : Profile) (s : DestinationState) (f : Fill) (size : ℕ) (b : Bytes)
    → IsValid (plain_header s size)
    → Seals profile (plain_header s size)
    → f (zeros 1466) ≡ (ok size, b)
    → length b ≡ 1466
    → size ≤ 1466
    → (p : Ethernet.Packet) × (finish profile s f size ≡ ok p)
      × IsPacket s size (take (max size 26) b) p
unfolding frame Ethernet.ether_ty Ethernet.destination Ethernet.source Ethernet.from_array
finish-IsPacket profile s f size b v q e l h =
    let (k, kb, sealed) = seal profile s size v q in
    let (p, r, w) = finish-IsFrame_ipv4 profile s f size k b sealed e l h in
    (
      p,
      r,
      record {
        to = w.to;
        by = w.by;
        type = w.type;
        checksum = k;
        head = header-bytes s size k _ p v.dscp_fits v.ident_fits h kb w.holds;
        body = payload-bytes s size k _ p w.holds;
      },
    )

-- The closure's error is the builder's, if the header can be sealed.
pub finish-err_ipv4 :
    (profile : Profile) (s : DestinationState) (f : Fill) (size : ℕ) (b : Bytes)
    → IsValid (plain_header s size)
    → Seals profile (plain_header s size)
    → f (zeros 1466) ≡ (err, b)
    → finish profile s f size ≡ err
unfolding finish
finish-err_ipv4 profile s f size b v q e =
    let (k, kb, sealed) = seal profile s size v q in
    finish-err (frame s) (fill profile s f size) (bytes_of (with_checksum s size k) b)
      (rw (put_header-zeros profile s size k sealed, fill, e))

-- In a packet whose fields fit and whose header can be sealed, a closure that reports another
-- size than was announced makes `finish` panic.
finish_mismatch :
    (profile : Profile) (s : DestinationState) (f : Fill) (size n : ℕ) (b : Bytes)
    → IsValid (plain_header s size)
    → Seals profile (plain_header s size)
    → f (zeros 1466) ≡ (ok n, b)
    → n ≢ size
    → finish profile s f size ≡ panic
unfolding finish
finish_mismatch profile s f size n b v q e ne =
    let (k, kb, sealed) = seal profile s size v q in
    rw (finish-eq, put_header-zeros profile s size k sealed, fill, e, ne→== n size ne)

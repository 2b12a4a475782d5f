-- ===== src/Net/Ipv4/Checksum.antt =====
-- src/extensions/networking/protocols/ipv4.rs: the 20 bytes of a header and their checksum.
use rucoonos.Prelude.{
  ℕ, ◌+◌, ◌-◌, ◌*◌, ◌/◌, ◌%◌, ◌^◌, ◌≤◌, ◌<◌, ◌≡◌, refl, arith, bit_and, bit_or, [], ◌∷◌, Bytes,
  length, zeros, ok, err, panic, ◌>>=◌, IsU8, IsU16, lt→ltb, le→ltb,
}
use rucoonos.Prelude.Bits.{bit_and-mask, high-or-low, low-or-high, zero-bit_or}
use rucoonos.Net.Wire.{Profile, debug, release, add_u16, word_sum}
use rucoonos.Net.Ipv4.{PacketHeader, into_u8, to_bytes, set_checksum}

-- What `to_bytes` writes, in front of the rest of the buffer.
abbrev pub bytes_of : PacketHeader → Bytes → Bytes
bytes_of h rest =
    bit_or (bit_or 0 (h.version * 2 ^ 4 % 256)) (bit_and h.ihl 0x0f)
    ∷ bit_or (bit_or 0 (h.dscp * 2 ^ 1 % 256)) (bit_and h.ecn 0x01)
    ∷ h.total_length / 256 % 256
    ∷ h.total_length % 256
    ∷ h.identification / 256 % 256
    ∷ h.identification % 256
    ∷ bit_or (h.fragment_offset / 256 % 256) (h.flags * 2 ^ 5 % 256)
    ∷ h.fragment_offset % 256
    ∷ h.ttl
    ∷ into_u8 h.protocol
    ∷ h.header_checksum / 256 % 256
    ∷ h.header_checksum % 256
    ∷ s.b0
    ∷ s.b1
    ∷ s.b2
    ∷ s.b3
    ∷ d.b0
    ∷ d.b1
    ∷ d.b2
    ∷ d.b3
    ∷ rest
  where
    open h use {source_ip as s, destination_ip as d}

-- Every field fits the bits that the header has for it.
pub record IsValid (h : PacketHeader) : Type 0 where
  pub dscp_fits : h.dscp < 2 ^ 6
  pub length_fits : IsU16 h.total_length
  pub ident_fits : IsU16 h.identification
  pub fragment_fits : h.fragment_offset < 2 ^ 13
  pub ttl_fits : IsU8 h.ttl
  pub protocol_fits : IsU8 (into_u8 h.protocol)
  pub source_fits :
      IsU8 h.source_ip.b0 × IsU8 h.source_ip.b1 × IsU8 h.source_ip.b2 × IsU8 h.source_ip.b3
  pub destination_fits :
      IsU8 h.destination_ip.b0
      × IsU8 h.destination_ip.b1
      × IsU8 h.destination_ip.b2
      × IsU8 h.destination_ip.b3

pub to_bytes-zeros : (h : PacketHeader) → to_bytes h (zeros 20) ≡ ok (bytes_of h [])
unfolding to_bytes zeros
to_bytes-zeros h = refl

pub to_bytes_short : (h : PacketHeader) (t : Bytes) → length t < 20 → to_bytes h t ≡ err
unfolding to_bytes
to_bytes_short h t short = rw (lt→ltb (length t) 20 short)

-- The sum of the header's words, with its checksum as it stands.
abbrev pub header_sum : PacketHeader → ℕ
header_sum h = word_sum (bytes_of h [])

-- One round of carrying the bits over 16 back to the low end.
abbrev pub fold : ℕ → ℕ
fold n = n % 2 ^ 16 + n / 2 ^ 16

abbrev pub cleared : PacketHeader → PacketHeader
cleared h = record h { header_checksum = 0 }

-- The receiver's test (RFC 1071): the words add up to all ones in ones' complement arithmetic.
abbrev pub Verifies : PacketHeader → Type 0
Verifies h = (0 < header_sum h) × (header_sum h % 0xffff ≡ 0)

-- Two fields that fill a byte, as `to_bytes` joins them.
or_fields :
    (k v r : ℕ)
    → k ≤ 8
    → r < 2 ^ k
    → v * 2 ^ k < 2 ^ 8
    → bit_or (bit_or 0 (v * 2 ^ k % 256)) r ≡ v * 2 ^ k + r
or_fields k v r hk hr hv = rw (zero-bit_or, small) (high-or-low k v r hr)
  where
    small : v * 2 ^ k % 256 ≡ v * 2 ^ k
    small = omega arith

first_byte-lt :
    (h : PacketHeader) → bit_or (bit_or 0 (h.version * 2 ^ 4 % 256)) (bit_and h.ihl 0x0f) < 256
first_byte-lt h =
    rw (wrap, bit_and-mask 4 h.ihl) (omega (arith, zero-bit_or (h.version % 16 * 2 ^ 4), or_lem))
  where
    wrap : h.version * 2 ^ 4 % 256 ≡ h.version % 16 * 2 ^ 4
    wrap = omega arith

    or_lem :
        bit_or (bit_or 0 (h.version % 16 * 2 ^ 4)) (h.ihl % 2 ^ 4)
        ≡ h.version % 16 * 2 ^ 4 + h.ihl % 2 ^ 4
    or_lem = rw zero-bit_or (high-or-low 4 (h.version % 16) (h.ihl % 2 ^ 4) (omega arith))

second_byte-lt :
    (h : PacketHeader) → bit_or (bit_or 0 (h.dscp * 2 ^ 1 % 256)) (bit_and h.ecn 0x01) < 256
second_byte-lt h = rw (wrap, bit_and-mask 1 h.ecn) (omega (arith, or_lem))
  where
    wrap : h.dscp * 2 ^ 1 % 256 ≡ h.dscp % 128 * 2 ^ 1
    wrap = omega arith

    or_lem :
        bit_or (bit_or 0 (h.dscp % 128 * 2 ^ 1)) (h.ecn % 2 ^ 1)
        ≡ h.dscp % 128 * 2 ^ 1 + h.ecn % 2 ^ 1
    or_lem = rw zero-bit_or (high-or-low 1 (h.dscp % 128) (h.ecn % 2 ^ 1) (omega arith))

seventh_byte-lt :
    (h : PacketHeader)
    → h.fragment_offset < 2 ^ 13
    → bit_or (h.fragment_offset / 256 % 256) (h.flags * 2 ^ 5 % 256) < 256
seventh_byte-lt h f = rw wrap (omega (arith, or_lem))
  where
    wrap : h.flags * 2 ^ 5 % 256 ≡ h.flags % 8 * 2 ^ 5
    wrap = omega arith

    or_lem :
        bit_or (h.fragment_offset / 256 % 256) (h.flags % 8 * 2 ^ 5)
        ≡ h.fragment_offset / 256 % 256 + h.flags % 8 * 2 ^ 5
    or_lem = low-or-high 5 (h.flags % 8) (h.fragment_offset / 256 % 256) (omega arith)

-- Ten words of 16 bits.
sum_bound : (h : PacketHeader) → IsValid h → header_sum (cleared h) ≤ 10 * 0xffff
sum_bound h v = omega (arith, first_byte-lt h, second_byte-lt h, seventh_byte-lt h v.fragment_fits)

sum_with :
    (h : PacketHeader) (k : ℕ)
    → IsU16 k
    → header_sum (record h { header_checksum = k }) ≡ header_sum (cleared h) + k
sum_with h k hk = omega arith

low_half : (x : ℕ) → bit_and x 0xffff % 2 ^ 16 ≡ x % 2 ^ 16
low_half x = rw (bit_and-mask 16 x) (omega arith)

set_checksum-eq :
    (profile : Profile) (h : PacketHeader)
    → set_checksum profile h ≡ (
        add_u16 profile (header_sum (cleared h) % 2 ^ 16) (header_sum (cleared h) / 2 ^ 16 % 2 ^ 16)
        >>= λ s. ok (record h { header_checksum = 0xffff - s }))
unfolding set_checksum
set_checksum-eq profile h = rw (to_bytes-zeros (cleared h), low_half (header_sum (cleared h)))

-- What `set_checksum` stores when the sum does not overflow.
abbrev pub sealed : PacketHeader → PacketHeader
sealed h = record h { header_checksum = 0xffff - fold (header_sum (cleared h)) }

pub set_checksum-sealed :
    (profile : Profile) (h : PacketHeader)
    → IsValid h
    → fold (header_sum (cleared h)) < 2 ^ 16
    → set_checksum profile h ≡ ok (sealed h)
unfolding add_u16
set_checksum-sealed profile h v f = rw (set_checksum-eq, carry, lt→ltb _ _ f)
  where
    carry : header_sum (cleared h) / 2 ^ 16 % 2 ^ 16 ≡ header_sum (cleared h) / 2 ^ 16
    carry = omega (arith, sum_bound h v)

-- For a header whose fields fit, and whose words, its checksum taken as 0, sum to a number that
-- one round of carrying brings under 2 ^ 16, `set_checksum` succeeds in every build. It changes
-- only the checksum, and a receiver accepts the header.
pub set_checksum-Verifies :
    (profile : Profile) (h : PacketHeader)
    → IsValid h
    → fold (header_sum (cleared h)) < 2 ^ 16
    → (h' : PacketHeader) × (set_checksum profile h ≡ ok h')
      × (cleared h' ≡ cleared h)
      × Verifies h'
set_checksum-Verifies profile h v f = (
  sealed h,
  set_checksum-sealed profile h v f,
  refl,
  omega (arith, sum_with h (0xffff - fold (header_sum (cleared h))) (omega arith)),
)

-- In a release build the sum wraps, and `set_checksum` returns in any case.
pub set_checksum-release :
    (h : PacketHeader)
    → IsValid h
    → set_checksum release h
      ≡ ok (record h { header_checksum = 0xffff - fold (header_sum (cleared h)) % 2 ^ 16 })
unfolding add_u16
set_checksum-release h v = rw (set_checksum-eq, carry) (ground arith)
  where
    carry : header_sum (cleared h) / 2 ^ 16 % 2 ^ 16 ≡ header_sum (cleared h) / 2 ^ 16
    carry = omega (arith, sum_bound h v)

-- For a header whose fields fit and whose sum one round of carrying does not bring under 2 ^ 16,
-- a debug build panics, and a release build returns a header that no receiver accepts.
pub set_checksum_carry :
    (h : PacketHeader)
    → IsValid h
    → 2 ^ 16 ≤ fold (header_sum (cleared h))
    → (set_checksum debug h ≡ panic)
      × (h' : PacketHeader) × (set_checksum release h ≡ ok h')
      × ¬ Verifies h'
unfolding add_u16
set_checksum_carry h v f = (
  rw (set_checksum-eq, carry, le→ltb _ _ f),
  wrapped,
  set_checksum-release h v,
  λ (pos, e). omega (arith, sum_with h k (omega arith), sum_bound h v),
)
  where
    carry : header_sum (cleared h) / 2 ^ 16 % 2 ^ 16 ≡ header_sum (cleared h) / 2 ^ 16
    carry = omega (arith, sum_bound h v)

    k : ℕ
    k = 0xffff - fold (header_sum (cleared h)) % 2 ^ 16

    wrapped : PacketHeader
    wrapped = record h { header_checksum = k }

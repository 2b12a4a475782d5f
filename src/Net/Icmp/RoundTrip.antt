-- ===== src/Net/Icmp/RoundTrip.antt =====
-- src/extensions/networking/protocols/icmp.rs: a packet of the builder, taken apart by the parser.
use rucoonos.Prelude.{
  ℕ, ap, ◌∙◌, suc, ◌+◌, ◌-◌, ◌/◌, ◌%◌, ◌^◌, ◌≤◌, ◌<◌, max, ◌≡◌, ◌≢◌, ◌⊎◌, refl, arith, ◌∷◌, Bytes,
  length, take, zeros, Outcome, ok, err, panic, IsU16, false, ◌&&◌, ◌==◌,
}
use rucoonos.Net.Wire.{Profile, release, Fill, filling, words_sum, add_u16}
use rucoonos.Net.Ethernet
use rucoonos.Net.Ipv4
use rucoonos.Net.Ipv4.Checksum.{IsValid, fold}
use rucoonos.Net.Ipv4.RoundTrip.{Seals, IsPacket, finish-IsPacket}
use rucoonos.Net.Icmp.{
  Kind, echo_request, echo_reply, unknown, header_size, from_bytes, into_arrays, new, get_type,
  payload, write, payload_written, TypeState, finish,
}

-- The message of a type with a checksum and a payload.
abbrev pub bytes_of : Kind → ℕ → Bytes → Bytes
bytes_of ty k rest = t.b0 ∷ t.b1 ∷ k / 256 % 256 ∷ k % 256 ∷ r.b0 ∷ r.b1 ∷ r.b2 ∷ r.b3 ∷ rest
  where
    open into_arrays ty use {«0» as t, «1» as r}

-- The sum of the words that the checksum covers, with the checksum as it stands.
abbrev pub message_sum : Kind → ℕ → ℕ → Bytes → ℕ
message_sum ty size k rest = words_sum ((8 + size) / 2) (bytes_of ty k rest)

-- The checksum can be taken: the build does not check for overflow, or there is none.
abbrev pub Sums : Profile → ℕ → Type 0
Sums profile n = (profile ≡ release) ⊎ (fold n < 2 ^ 16)

zeros_1466 : zeros 1466 ≡ 0 ∷ 0 ∷ 0 ∷ 0 ∷ 0 ∷ 0 ∷ 0 ∷ 0 ∷ zeros 1458
unfolding zeros
zeros_1466 = refl

header_size_lem : (ty : Kind) → header_size ty ≡ 8
header_size_lem (echo_request i s) = refl
header_size_lem (echo_reply i s) = refl
header_size_lem (unknown d) = refl

payload_written-ok :
    (f : Fill) (a b c d e g h i : ℕ) (rest left : Bytes) (r : Outcome ℕ)
    → f rest ≡ (r, left)
    → r ≢ panic
    → payload_written f (a ∷ b ∷ c ∷ d ∷ e ∷ g ∷ h ∷ i ∷ rest)
      ≡ ok (a ∷ b ∷ c ∷ d ∷ e ∷ g ∷ h ∷ i ∷ left)
payload_written-ok f a b c d e g h i rest left r q np = ap after q ∙ returns r np
  where
    after : Outcome ℕ × Bytes → Outcome Bytes
    after s = elim s.0 [
      | ok n ↦ ok (a ∷ b ∷ c ∷ d ∷ e ∷ g ∷ h ∷ i ∷ s.1)
      | err ↦ ok (a ∷ b ∷ c ∷ d ∷ e ∷ g ∷ h ∷ i ∷ s.1)
      | panic ↦ panic
    ]

    returns :
        (r : Outcome ℕ) → r ≢ panic → after (r, left) ≡ ok (a ∷ b ∷ c ∷ d ∷ e ∷ g ∷ h ∷ i ∷ left)
    returns (ok n) np = refl
    returns err np = refl
    returns panic np = absurd (np refl)

module _ (profile : Profile) (ty : Kind) (f : Fill) (size sum : ℕ) (b : Bytes) where
  -- The checksum's sum could be taken.
  abbrev pub Added : Type 0
  Added =
      add_u16 profile (message_sum ty size 0 b % 2 ^ 16) (message_sum ty size 0 b / 2 ^ 16 % 2 ^ 16)
      ≡ ok sum

  write-bytes_of :
      (r : Outcome ℕ)
      → f (zeros 1458) ≡ (r, b)
      → r ≢ panic
      → Added
      → write profile ty f size (0 ∷ 0 ∷ 0 ∷ 0 ∷ 0 ∷ 0 ∷ 0 ∷ 0 ∷ zeros 1458)
        ≡ ok (8 + size, bytes_of ty (0xffff - sum) b)
  write-bytes_of r e np a =
      rw (payload_written-ok f _ _ _ _ _ _ _ _ (zeros 1458) b r e np, header_size_lem ty, a)

  fill-ok :
      (r : Outcome ℕ)
      → f (zeros 1458) ≡ (r, b)
      → r ≢ panic
      → Added
      → filling (write profile ty f size) (zeros 1466)
        ≡ (ok (8 + size), bytes_of ty (0xffff - sum) b)
  fill-ok r e np a =
      ap (filling (write profile ty f size)) zeros_1466 ∙ rw (write-bytes_of r e np a, filling)

finish_lem :
    (profile : Profile) (s : TypeState) (ip : Ipv4.DestinationState) (f : Fill) (size : ℕ)
    → finish profile s ip f size
      ≡ Ipv4.finish profile ip (filling (write profile s.ty f size)) (8 + size)
unfolding finish
finish_lem profile s ip f size =
    ap (λ n. Ipv4.finish profile ip (filling (write profile s.ty f size)) (n + size))
      (header_size_lem s.ty)

-- A type that the parser tells from the others.
abbrev pub IsKnown : Kind → Type 0
IsKnown (echo_request i s) = IsU16 i × IsU16 s
IsKnown (echo_reply i s) = IsU16 i × IsU16 s
IsKnown (unknown d) = (d.b0 == 0 && d.b1 == 0 ≡ false) × (d.b0 == 8 && d.b1 == 0 ≡ false)

from_bytes-bytes_of :
    (ty : Kind) (k : ℕ) (rest : Bytes) → IsKnown ty → from_bytes (bytes_of ty k rest) ≡ ok ty
unfolding from_bytes
from_bytes-bytes_of (echo_request i s) k rest (hi, hs) = ground arith
from_bytes-bytes_of (echo_reply i s) k rest (hi, hs) = ground arith
from_bytes-bytes_of (unknown d) k rest (h0, h8) = rw (h0, h8)

past_header : (n : ℕ) → max (8 + n) 26 ≡ suc (suc (suc (suc (suc (suc (suc (suc (max n 18))))))))
past_header n = omega arith

-- For a type that the parser knows and a payload closure that does not panic, in an IPv4 packet
-- whose fields fit and whose checksum can be sealed, where the two halves of the message's sum
-- add up to `sum` in the build: `finish` returns a packet that reads as the type, with what the
-- closure left in the buffer as its payload, and with the ones' complement of `sum` as its
-- checksum.
pub finish-get_type :
    (profile : Profile) (s : TypeState) (ip : Ipv4.DestinationState) (f : Fill) (size sum : ℕ)
    (b : Bytes) (r : Outcome ℕ)
    → IsKnown s.ty
    → IsValid (Ipv4.plain_header ip (8 + size))
    → Seals profile (Ipv4.plain_header ip (8 + size))
    → f (zeros 1458) ≡ (r, b)
    → r ≢ panic
    → length b ≡ 1458
    → size ≤ 1458
    → Added profile s.ty f size sum b
    → (p : Ethernet.Packet) × (finish profile s ip f size ≡ ok p)
      × (get_type (new (Ipv4.new p)) ≡ ok s.ty)
      × (payload (new (Ipv4.new p)) ≡ ok (take (max size 18) b))
      × IsPacket ip (8 + size) (bytes_of s.ty (0xffff - sum) (take (max size 18) b)) p
unfolding get_type payload new
finish-get_type profile s ip f size sum b r known v q e np l h a =
    let (p, d, w) =
      finish-IsPacket profile ip (filling (write profile s.ty f size)) (8 + size)
        (bytes_of s.ty (0xffff - sum) b) v q (fill-ok profile s.ty f size sum b r e np a)
        (omega arith) (omega arith) in
    let body = rw (past_header size) at w.body in
    (
      p,
      finish_lem profile s ip f size ∙ d,
      rw (body, from_bytes-bytes_of s.ty (0xffff - sum) (take (max size 18) b) known),
      rw (
        body,
        from_bytes-bytes_of s.ty (0xffff - sum) (take (max size 18) b) known,
        header_size_lem s.ty,
      ),
      rw (past_header size) at w,
    )

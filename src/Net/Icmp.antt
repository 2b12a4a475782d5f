-- ===== src/Net/Icmp.antt =====
-- src/extensions/networking/protocols/icmp.rs: ICMP types, packets, and the builder.
-- A builder `PacketBuilder<S>` is its state `S`.
pub mod RoundTrip
pub mod Checksum
use rucoonos.Prelude.{
  ℕ, zero, suc, ◌+◌, ◌-◌, ◌/◌, ◌%◌, ◌^◌, ◌&&◌, [], ◌∷◌, Bytes, Outcome, ok, err, panic, ◌>>=◌, ◌==◌,
  if◌then◌else◌,
}
use rucoonos.Net.Wire.{
  Array2, Array4, Profile, Fill, array2, array4, list2, list4, index, read2, from, copy_at, from_be,
  to_be, add_u16, words_sum, fill_from, filling,
}
use rucoonos.Net.Ethernet
use rucoonos.Net.Ipv4

pub record Packet : Type 0 where
  pub ip_packet : Ipv4.Packet

pub data Kind : Type 0 where
  echo_request echo_reply : (identifier sequence : ℕ) → Kind
  unknown : Array2 → Kind

-- `From<&[u8]> for Type`
pub from_bytes : Bytes → Outcome Kind
from_bytes raw = do
  ty ← index 0 raw
  sub_ty ← index 1 raw
  if ty == 0 && sub_ty == 0
      then echo echo_reply
      else if ty == 8 && sub_ty == 0
      then echo echo_request
      else ok (unknown (array2 ty sub_ty))
  where
    echo : (ℕ → ℕ → Kind) → Outcome Kind
    echo c = do
      identifier ← read2 4 raw
      sequence ← read2 6 raw
      ok (c (from_be identifier) (from_be sequence))

-- `Into<([u8; 2], [u8; 4])> for Type`
abbrev pub into_arrays : Kind → Array2 × Array4
into_arrays (echo_reply identifier sequence) =
    let s = to_be sequence in let i = to_be identifier in (array2 0 0, array4 i.b0 i.b1 s.b0 s.b1)
into_arrays (echo_request identifier sequence) =
    let s = to_be sequence in let i = to_be identifier in (array2 8 0, array4 i.b0 i.b1 s.b0 s.b1)
into_arrays (unknown d) = (d, array4 0 0 0 0)

unfoldable pub new : Ipv4.Packet → Packet
new packet = record { ip_packet = packet }

pub get_type : Packet → Outcome Kind
get_type p = do raw_data ← Ipv4.payload p.ip_packet; from_bytes raw_data

unfoldable pub ipv4_packet : Packet → Ipv4.Packet
ipv4_packet p = p.ip_packet

abbrev pub header_size : Kind → ℕ
header_size (echo_reply i s) = 8
header_size (echo_request i s) = 8
header_size (unknown d) = 8

pub payload : Packet → Outcome Bytes
payload p = do
  raw_payload ← Ipv4.payload p.ip_packet
  ty ← get_type p
  from (header_size ty) raw_payload

-- `let _ = payload_func(&mut payload[8..])`: only a panic stops the packet.
abbrev payload_written : Fill → Bytes → Outcome Bytes
payload_written payload_func p =
    let (r, c) = fill_from 8 payload_func p in elim r [ ok n ↦ ok c | err ↦ ok c | panic ↦ panic ]

-- The checksum is taken of the words up to the payload's announced size.
abbrev put_checksum : Profile → ℕ → Bytes → Outcome Bytes
put_checksum profile words p = do
  let raw_checksum = words_sum words p
  sum ← add_u16 profile (raw_checksum % 2 ^ 16) (raw_checksum / 2 ^ 16 % 2 ^ 16)
  copy_at 2 (list2 (to_be (0xffff - sum))) p

abbrev write : Profile → Kind → Fill → ℕ → Bytes → Outcome (ℕ × Bytes)
write profile ty payload_func size p0 = do
  let (type_bytes, rest_header_bytes) = into_arrays ty
  p1 ← copy_at 0 (list2 type_bytes) p0
  p2 ← copy_at 2 (0 ∷ 0 ∷ []) p1
  p3 ← copy_at 4 (list4 rest_header_bytes) p2
  p4 ← payload_written payload_func p3
  p5 ← put_checksum profile ((header_size ty + size) / 2) p4
  ok (header_size ty + size, p5)

pub record TypeState : Type 0 where
  pub ty : Kind

unfoldable pub set_type : Kind → TypeState
set_type ty = record { ty = ty }

pub finish : Profile → TypeState → Ipv4.DestinationState → Fill → ℕ → Outcome Ethernet.Packet
finish profile s builder payload_func size =
    Ipv4.finish profile builder (filling (write profile s.ty payload_func size))
      (header_size s.ty + size)

-- ===== src/Net/Ethernet.antt =====
-- src/extensions/networking/protocols/ethernet.rs: frames, and the builder that fills them.
-- A builder `PacketBuilder<S>` is its state `S`.
pub mod Frame
use rucoonos.Prelude.{
  ℕ, ◌+◌, max, Bool, ◌&&◌, Bytes, zeros, Outcome, ok, err, panic, ◌>>=◌, ◌==◌, if◌then◌else◌,
}
use rucoonos.Net.Wire.{
  Array2, Array6, array2, list2, list6, slice, read2, read6, upto, copy_at, Fill, fill_from,
}
use rucoonos.Net.Buffer.{Buffer}
use rucoonos.Net.Buffer

pub record Packet : Type 0 where
  pub buffer : Buffer

pub data EthType : Type 0 where
  ipv4 ipv6 arp wake_on_lan : EthType
  unknown : Array2 → EthType

abbrev is2 : Array2 → ℕ → ℕ → Bool
is2 a x y = (a.b0 == x) && (a.b1 == y)

unfoldable pub from_array : Array2 → EthType
from_array raw =
    if is2 raw 0x08 0x00
    then EthType.ipv4
    else if is2 raw 0x08 0x06
    then EthType.arp
    else if is2 raw 0x08 0x42
    then EthType.wake_on_lan
    else if is2 raw 0x86 0xdd
    then EthType.ipv6
    else EthType.unknown raw

unfoldable pub into_array : EthType → Array2
into_array EthType.ipv4 = array2 0x08 0x00
into_array EthType.arp = array2 0x08 0x06
into_array EthType.wake_on_lan = array2 0x08 0x42
into_array EthType.ipv6 = array2 0x86 0xdd
into_array (EthType.unknown u) = u

unfoldable pub new : Buffer → Packet
new b = record { buffer = b }

unfoldable pub destination_mac : Packet → Outcome Array6
destination_mac p = read6 0 p.buffer.raw

pub source_mac : Packet → Outcome Array6
source_mac p = read6 6 p.buffer.raw

unfoldable pub ether_type : Packet → Outcome EthType
ether_type p = read2 12 p.buffer.raw >>= λ a. ok (from_array a)

unfoldable pub content : Packet → Outcome Bytes
content p = slice 14 p.buffer.len p.buffer.raw

unfoldable pub into_buffer : Packet → Buffer
into_buffer p = p.buffer

pub record SourceState : Type 0 where
  pub source : Array6

pub record DestinationState : Type 0 where
  pub source : Array6
  pub destination : Array6

pub record EtherTypeState : Type 0 where
  pub source : Array6
  pub destination : Array6
  pub ether_ty : Array2

unfoldable pub source : Array6 → SourceState
source mac = record { source = mac }

unfoldable pub destination : SourceState → Array6 → DestinationState
destination s mac = record { source = s.source; destination = mac }

unfoldable pub ether_ty : DestinationState → EthType → EtherTypeState
unfolding into_array
ether_ty s ty = record { source = s.source; destination = s.destination; ether_ty = into_array ty }

-- The frame of 1500 bytes is filled, and cut to what was written, at least 46 bytes of content.
pub finish : EtherTypeState → Fill → Outcome Packet
finish s payload = do
  c0 ← copy_at 0 (list6 s.destination) (zeros 1500)
  c1 ← copy_at 6 (list6 s.source) c0
  c2 ← copy_at 12 (list2 s.ether_ty) c1
  let (written, c3) = fill_from 14 payload c2
  written_len ← written
  let len = max written_len 46
  frame ← upto (len + 14) c3
  ok (new (Buffer.new frame))

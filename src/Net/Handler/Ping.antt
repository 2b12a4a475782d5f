-- ===== src/Net/Handler/Ping.antt =====
-- src/extensions/networking/handler.rs: the ICMP messages that the builder makes, handled.
use rucoonos.Prelude.{
  ℕ, Bool, ◌≡◌, ◌≢◌, ◌+◌, ◌≤◌, ◌∙◌, ap, arith, [], ◌∷◌, ◌++◌, Bytes, length, zeros, none, some,
  Outcome, ok, panic,
}
use rucoonos.Net.Wire.{Array4, Profile, Fill}
use rucoonos.Net.Ethernet
use rucoonos.Net.Ipv4
use rucoonos.Net.Ipv4.Checksum.{IsValid}
use rucoonos.Net.Ipv4.RoundTrip.{Seals}
use rucoonos.Net.Icmp
use rucoonos.Net.Icmp.RoundTrip.{IsKnown, Added, finish-get_type}
use rucoonos.Net.IpMap.{eq4, get, remove}
use rucoonos.Net.Handler.{Device, Shared, Event, Handled, handle_icmp, handle_ipv4}

-- What becomes of a message from the address `ip`.
abbrev pub answered : Device → Shared → Array4 → Icmp.Kind → Handled
answered d s ip (Icmp.echo_request i q) = panic
answered d s ip (Icmp.echo_reply i q) = elim (get eq4 ip s.ping) [
  | none ↦ ok (d, s)
  | some (waker, flag) ↦ ok (
    d,
    record s {
      ping = remove eq4 ip s.ping;
      events = (s.events ++ (Event.raised flag ∷ [])) ++ (Event.woken waker ∷ []);
    },
  )
]
answered d s ip (Icmp.unknown u) = ok (d, s)

protocol_kept :
    (x : Ipv4.Protocol)
    → x ≡ Ipv4.Protocol.icmp
    → Ipv4.from_u8 (Ipv4.into_u8 x) ≡ Ipv4.Protocol.icmp
unfolding Ipv4.from_u8 Ipv4.into_u8
protocol_kept x e = ap (λ x. Ipv4.from_u8 (Ipv4.into_u8 x)) e

module _ (profile : Profile) (accepts : ℕ → Bool) (d : Device) (s : Shared) where
  handle_icmp-answered :
      (p : Ipv4.Packet) (h : Ipv4.PacketHeader) (ty : Icmp.Kind)
      → Ipv4.header p ≡ ok h
      → Icmp.get_type (Icmp.new p) ≡ ok ty
      → handle_icmp profile accepts d s p ≡ answered d s h.source_ip ty
  unfolding handle_icmp
  handle_icmp-answered p h (Icmp.echo_request i q) e t = rw t
  handle_icmp-answered p h (Icmp.echo_reply i q) e t = rw (t, e)
  handle_icmp-answered p h (Icmp.unknown u) e t = rw t

  handle_ipv4-icmp :
      (p : Ethernet.Packet) (h : Ipv4.PacketHeader)
      → Ipv4.header (Ipv4.new p) ≡ ok h
      → h.protocol ≡ Ipv4.Protocol.icmp
      → handle_ipv4 profile accepts d s p ≡ handle_icmp profile accepts d s (Ipv4.new p)
  unfolding handle_ipv4
  handle_ipv4-icmp p h e t = ground arith

  -- A message of a host's `finish`, for a type that the parser knows, a closure that does not
  -- panic, header fields that fit and checksums that can be taken: the handler panics at an echo
  -- request. An echo reply raises the flag and calls the waker of the ping that waits for the
  -- host and takes the ping away. Any other message, or a reply that none waits for, changes
  -- nothing.
  pub handle_ipv4-finish :
      (sender : Profile) (t : Icmp.TypeState) (ip : Ipv4.DestinationState) (f : Fill) (size sum : ℕ)
      (b : Bytes) (r : Outcome ℕ)
      → IsKnown t.ty
      → ip.protocol ≡ Ipv4.Protocol.icmp
      → IsValid (Ipv4.plain_header ip (8 + size))
      → Seals sender (Ipv4.plain_header ip (8 + size))
      → f (zeros 1458) ≡ (r, b)
      → r ≢ panic
      → length b ≡ 1458
      → size ≤ 1458
      → Added sender t.ty f size sum b
      → (p : Ethernet.Packet) × (Icmp.finish sender t ip f size ≡ ok p)
        × (handle_ipv4 profile accepts d s p ≡ answered d s ip.source t.ty)
  handle_ipv4-finish sender t ip f size sum b r known pr v q e np l h a =
      let (p, done, ty, _, w) = finish-get_type sender t ip f size sum b r known v q e np l h a in
      (
        p,
        done,
        handle_ipv4-icmp p _ w.head (protocol_kept ip.protocol pr)
            ∙ handle_icmp-answered (Ipv4.new p) _ t.ty w.head ty,
      )

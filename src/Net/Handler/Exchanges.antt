-- ===== src/Net/Handler/Exchanges.antt =====
-- src/extensions/networking/handler.rs: exchanges of messages, through the handlers of both sides.
use rucoonos.Prelude.{ℕ, Bool, ◌≡◌, refl, ◌∙◌, arith, [], ◌∷◌, ◌++◌, some, ok, IsU32, ==_self}
use rucoonos.Net.Wire.{Array4, Profile}
use rucoonos.Net.Ethernet
use rucoonos.Net.Ethernet.{EthType}
use rucoonos.Net.Arp
use rucoonos.Net.Arp.RoundTrip
use rucoonos.Net.Ipv4
use rucoonos.Net.Ipv4.RoundTrip.{Seals}
use rucoonos.Net.Udp
use rucoonos.Net.Dhcp
use rucoonos.Net.Dhcp.Messages.{sent, message_header, request-get}
use rucoonos.Net.IpMap.{eq4_self, try_get}
use rucoonos.Net.Handler.{
  Device, Shared, DhcpExchange, Event, broadcast, log, enqueue, set_dhcp, set_ip, arp_question,
  handle_arp, exchange, handle_frame,
}
use rucoonos.Net.Handler.Replies.{arp_request-answer, arp_response-try_get}

response-operation :
    (b : Arp.Packet) → Arp.operation_of b ≡ Arp.Operation.response → b.operation ≡ 2
unfolding Arp.operation_of
response-operation b h = ground arith

module _ (profile : Profile) (accepts : ℕ → Bool) where
  -- The question for the IP address that another device has, handled by that device, is answered
  -- by one frame. Once the asker has handled this frame without a panic, the asker is as before
  -- and the address is known as that of the other device.
  pub arp_question-try_get :
      (asker other : Device) (s s' : Shared) (ip : Array4)
      → other.metadata.ip ≡ some ip
      → (q r : Ethernet.Packet) × (Arp.finish (arp_question ip asker) ≡ ok q)
        × (handle_frame profile accepts other s q ≡ ok (enqueue other r, s))
        × ((e : Device) (t : Shared)
            → handle_arp profile accepts asker s' r ≡ ok (e, t)
            → (e ≡ asker) × (try_get t.ips ip ≡ some other.metadata.mac))
  unfolding arp_question Arp.operation_of Arp.operation Arp.destination Arp.sender try_get
  arp_question-try_get asker other s s' ip h =
      let (q, f, new_q, dest, _, ty) = RoundTrip.new-finish (arp_question ip asker) (omega arith) in
      let (r, handled, _, _, b, new_r, op, mac, src, _, _) =
        arp_request-answer profile accepts other s q broadcast _ ip dest refl ty new_q refl h
          refl in
      (
        q,
        r,
        f,
        handled,
        λ e t k.
            let (same, known) =
              arp_response-try_get profile accepts asker s' r b e t new_r (response-operation b op)
                k in
            (same, known ip ∙ rw (src, eq4_self ip, mac) refl),
      )

  -- For a device that has sent a discovery with a transaction of 32 bits, where the header of its
  -- request can be sealed: an offer for the transaction makes the device send one request, which
  -- a server of either build reads as a request for the two addresses of the offer. An
  -- acknowledgement for the transaction after that gives the device the address of the offer,
  -- ends the exchange and raises the flag of its start.
  pub offer-ack :
      (reader : Profile) (d : Device) (s : Shared) (indicator xid : ℕ) (offer ack : Dhcp.Data)
      → d.metadata.dhcp ≡ DhcpExchange.discover indicator xid
      → IsU32 xid
      → Seals profile (message_header d.metadata.mac 0 257)
      → offer.operation ≡ Dhcp.offer
      → offer.xid ≡ xid
      → ack.operation ≡ Dhcp.ack
      → ack.xid ≡ xid
      → (p : Ethernet.Packet) × (e : Device) × (exchange profile accepts d s offer ≡ ok (e, s))
        × (e.packet_queue ≡ d.packet_queue ++ (p ∷ []))
        × (Dhcp.get reader (Dhcp.new (Udp.new (Ipv4.new p)))
            ≡ ok (sent xid offer.yiaddr offer.siaddr d.metadata.mac Dhcp.request))
        × (exchange profile accepts e s ack
            ≡ ok (
              set_ip (set_dhcp e DhcpExchange.done) offer.yiaddr,
              log s (Event.raised indicator),
            ))
  unfolding exchange
  offer-ack reader d s indicator xid o a st hx q oo ox ao ax =
      let (p, sent_p, read, _, _, _) =
        request-get profile reader d.metadata.mac xid o.yiaddr o.siaddr 0 hx (omega arith) q in
      (
        p,
        set_dhcp (enqueue d p) (DhcpExchange.requested indicator xid o.yiaddr o.siaddr),
        ground (arith, ==_self xid),
        refl,
        read,
        ground (arith, ==_self xid),
      )

-- ===== src/Tests/Messages.antt =====
-- UDP, ICMP and DHCP messages.
use rucoonos.Prelude.{
  false, ℕ, Bool, false, ◌-◌, ◌^◌, ◌≡◌, ◌≢◌, ◌<◌, max, refl, arith, inl, [], ◌∷◌, ◌++◌, Bytes,
  length, take, zeros, length-zeros, some, Outcome, ok, panic,
}
use rucoonos.Net.Wire.{Array4, Array6, debug, release, Fill, add_u16, array4, array6}
use rucoonos.Net.Ethernet
use rucoonos.Net.Ipv4
use rucoonos.Net.Ipv4.{PacketHeader, Protocol}
use rucoonos.Net.Ipv4.Checksum.{IsValid}
use rucoonos.Net.Ipv4.RoundTrip.{IsPacket}
use rucoonos.Net.Udp
use rucoonos.Net.Udp.RoundTrip.{finish-header-payload}
use rucoonos.Net.Icmp
use rucoonos.Net.Icmp.RoundTrip.{message_sum, Added, finish-get_type, bytes_of}
use rucoonos.Net.Icmp.Checksum.{Leaves, odd_rest, finish-Verifies}
use rucoonos.Net.Ipv4.Checksum.{fold}
use rucoonos.Net.Dhcp
use rucoonos.Net.Dhcp.Messages.{sent, discover-get, request-get}
use rucoonos.Net.Handler.{
  Device, DhcpExchange, Event, Shared, World, handle_ipv4, step, enqueue_all,
}
use rucoonos.Net.Handler.State.{action, ping_request}
use rucoonos.Net.Api.{PingFuture, raw_ping, poll, is_raised}
use rucoonos.Net.Api.Ping.{poll-ready}
use rucoonos.Kernel.{ready, pending}
use rucoonos.Net.Handler.Ping.{answered, handle_ipv4-finish}
use rucoonos.Net.IpMap
use rucoonos.Net.IpMap.{IpMap}

abbrev card : Array6
card = array6 0x52 0x54 0 0x12 0x34 0x56

abbrev gateway : Array6
gateway = array6 0x52 0x55 10 0 2 2

abbrev own_ip : Array4
own_ip = array4 10 0 2 15

abbrev gateway_ip : Array4
gateway_ip = array4 10 0 2 2

abbrev builder : Protocol → Ipv4.DestinationState
builder protocol = record {
  dscp = 0;
  ident = 7;
  ttl = 20;
  protocol = protocol;
  source = gateway_ip;
  source_mac = gateway;
  destination = own_ip;
  destination_mac = card;
}

plain-IsValid : (p : Protocol) → Ipv4.into_u8 p < 2 ^ 8 → IsValid (Ipv4.plain_header (builder p) 38)
plain-IsValid p h = record {
  dscp_fits = omega arith;
  length_fits = omega arith;
  ident_fits = omega arith;
  fragment_fits = omega arith;
  ttl_fits = omega arith;
  protocol_fits = h;
  source_fits = omega arith;
  destination_fits = omega arith;
}

abbrev reports : ℕ → Fill
reports n b = (ok n, b)

abbrev ports : Udp.DestinationPort
ports = record { source_port = 5000; destination_port = 53 }

finish-header-payload_example :
    (p : Ethernet.Packet) × (Udp.finish release ports (builder Protocol.udp) (reports 30) 30 ≡ ok p)
    × (Udp.header (Udp.new (Ipv4.new p))
        ≡ ok (record { source_port = 5000; destination_port = 53; length = 38; checksum = 0 }))
    × (Udp.payload (Udp.new (Ipv4.new p)) ≡ ok (take (max 30 18) (zeros 1458)))
    × (rest : Bytes) × IsPacket (builder Protocol.udp) 38 rest p
finish-header-payload_example =
    finish-header-payload release ports (builder Protocol.udp) (reports 30) 30 (zeros 1458)
      (omega arith) (omega arith) (plain-IsValid Protocol.udp (unfold Ipv4.into_u8 in omega arith))
      (inl refl) refl (length-zeros 1458) (omega arith)

abbrev reply : Icmp.TypeState
reply = record { ty = Icmp.echo_reply 0x1234 0x2345 }

returned : ◌≢◌ {A = Outcome ℕ} (ok 30) panic
returned e = cc

added : Added release reply.ty (reports 30) 30 0x3579 (zeros 1458)
unfolding add_u16 zeros
added = refl

finish-get_type_example :
    (p : Ethernet.Packet) × (Icmp.finish release reply (builder Protocol.icmp) (reports 30) 30
      ≡ ok p)
    × (Icmp.get_type (Icmp.new (Ipv4.new p)) ≡ ok (Icmp.echo_reply 0x1234 0x2345))
    × (Icmp.payload (Icmp.new (Ipv4.new p)) ≡ ok (take (max 30 18) (zeros 1458)))
    × IsPacket
        (builder Protocol.icmp)
        38
        (bytes_of reply.ty (0xffff - 0x3579) (take (max 30 18) (zeros 1458)))
        p
finish-get_type_example =
    finish-get_type release reply (builder Protocol.icmp) (reports 30) 30 0x3579 (zeros 1458)
      (ok 30) (omega arith, omega arith)
      (plain-IsValid Protocol.icmp (unfold Ipv4.into_u8 in omega arith)) (inl refl) refl returned
      (length-zeros 1458) (omega arith) added

request-get_example :
    (p : Ethernet.Packet) × (Dhcp.request_message release card 0x12345678 own_ip gateway_ip 0
      ≡ ok p)
    × (Dhcp.get debug (Dhcp.new (Udp.new (Ipv4.new p)))
        ≡ ok (sent 0x12345678 own_ip gateway_ip card Dhcp.request))
    × (front : Bytes) × (length front ≡ 256)
    × (Udp.payload (Udp.new (Ipv4.new p)) ≡ ok (front ++ (0 ∷ [])))
request-get_example =
    request-get release debug card 0x12345678 own_ip gateway_ip 0 (omega arith) (omega arith)
      (inl refl)

abbrev device : Device
device = record {
  id = 0;
  packet_queue = [];
  metadata = record { mac = card; ip = some own_ip; dhcp = DhcpExchange.done };
}

-- A ping of the gateway waits with waker 3 and flag 4.
abbrev waiting : Shared
waiting = record {
  ips = IpMap.new;
  udp = [];
  arp = [];
  ping = (gateway_ip, (3, 4)) ∷ [];
  events = [];
}

abbrev never : ℕ → Bool
never q = false

handle_ipv4-finish_example :
    (p : Ethernet.Packet) × (Icmp.finish release reply (builder Protocol.icmp) (reports 30) 30
      ≡ ok p)
    × (handle_ipv4 debug never device waiting p ≡ answered device waiting gateway_ip reply.ty)
handle_ipv4-finish_example =
    handle_ipv4-finish debug never device waiting release reply (builder Protocol.icmp) (reports 30)
      30 0x3579 (zeros 1458) (ok 30) (omega arith, omega arith) refl
      (plain-IsValid Protocol.icmp (unfold Ipv4.into_u8 in omega arith)) (inl refl) refl returned
      (length-zeros 1458) (omega arith) added

-- The reply raises the flag and calls the waker.
ping_events :
    answered device waiting gateway_ip reply.ty
    ≡ ok (device, record waiting { ping = []; events = Event.raised 4 ∷ Event.woken 3 ∷ [] })
unfolding IpMap.get IpMap.remove
ping_events = refl

few : fold (message_sum reply.ty 30 0 (zeros 1458)) < 2 ^ 16
unfolding zeros
few = omega arith

finish-Verifies_example :
    (p : Ethernet.Packet) × (m : Bytes) × (Icmp.finish release reply
        (builder Protocol.icmp)
        (reports 30)
        30
      ≡ ok p)
    × (Ipv4.payload (Ipv4.new p) ≡ ok m)
    × Leaves 38 m (odd_rest 30 (zeros 1458))
finish-Verifies_example =
    finish-Verifies release reply (builder Protocol.icmp) (reports 30) 30 (zeros 1458) (ok 30)
      (omega arith, omega arith) (plain-IsValid Protocol.icmp (unfold Ipv4.into_u8 in omega arith))
      (inl refl) refl returned (length-zeros 1458) (omega arith) few

-- The handler takes a ping of the gateway, with waker 3 and flag 4, while it has no device.
abbrev idle : World
idle = record { devices = []; shared = record waiting { ping = [] } }

takes :
    step debug never idle (action (ping_request 3 gateway_ip gateway 4))
    ≡ ok (record { devices = []; shared = waiting })
unfolding step enqueue_all IpMap.insert
takes = refl

poll-ready_example :
    (ping : PingFuture) × (poll false 3 (raw_ping gateway_ip gateway 4)
      ≡ ok (pending, ping, action (ping_request 3 gateway_ip gateway 4) ∷ []))
    × (poll false 3 ping ≡ ok (pending, ping, []))
    × (p : Ethernet.Packet) × (s : Shared) × (Icmp.finish release reply
          (builder Protocol.icmp)
          (reports 30)
          30
        ≡ ok p)
    × (handle_ipv4 debug never device waiting p ≡ ok (device, s))
    × (poll (is_raised 4 s.events) 3 ping ≡ ok (ready, ping, []))
poll-ready_example =
    poll-ready debug never idle (record { devices = []; shared = waiting }) device 3 4 gateway_ip
      gateway release _ _ reply (builder Protocol.icmp) (reports 30) 30 0x3579 (zeros 1458) (ok 30)
      takes refl refl (omega arith, omega arith) refl
      (plain-IsValid Protocol.icmp (unfold Ipv4.into_u8 in omega arith)) (inl refl) refl returned
      (length-zeros 1458) (omega arith) added

discover-get_example :
    (p : Ethernet.Packet) × (Dhcp.discover_message release card 0x12345678 13 ≡ ok p)
    × (Udp.header (Udp.new (Ipv4.new p))
        ≡ ok (record { source_port = 68; destination_port = 67; length = 252; checksum = 0 }))
    × (Dhcp.get debug (Dhcp.new (Udp.new (Ipv4.new p)))
        ≡ ok (sent 0x12345678 (array4 0 0 0 0) (array4 0 0 0 0) card Dhcp.discover))
discover-get_example =
    discover-get release debug card 0x12345678 13 (omega arith) (omega arith) (inl refl)

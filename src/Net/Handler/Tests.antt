-- ===== src/Net/Handler/Tests.antt =====
-- Runs of the handler's theorems at concrete devices and frames.
use rucoonos.Net.Buffer
use rucoonos.Net.Ethernet.Frame.{IsFrame, framed, header}
use rucoonos.Prelude.{
  panic, ℕ, Bool, true, ◌≡◌, refl, arith, inl, [], ◌∷◌, All, Option, none, some, ok,
}
use rucoonos.Net.Wire.{array2, Array4, Array6, debug, release, array4, array6}
use rucoonos.Net.Ethernet
use rucoonos.Net.Ethernet.{EthType}
use rucoonos.Net.Arp
use rucoonos.Net.Arp.RoundTrip.{parsed, new-finish}
use rucoonos.Net.Ipv4
use rucoonos.Net.Udp
use rucoonos.Net.Dhcp
use rucoonos.Net.Dhcp.Messages.{sent, discover-get}
use rucoonos.Net.IpMap
use rucoonos.Net.IpMap.{eq4, eq6, try_get}
use rucoonos.Net.Handler.{
  Device, Shared, World, DhcpExchange, Event, HandlerMessage, action, send_arp_request, broadcast,
  log, enqueue, set_dhcp, set_ip, arp_question, enqueue_all, handle_arp, exchange, handle_frame,
  step, run, start, tx_id,
}
use rucoonos.Net.Handler.Invariant.{IsSettled, start-run-IsSettled}
use rucoonos.Net.Handler.Replies.{handle_frame_short}
use rucoonos.Net.Handler.Exchanges.{arp_question-try_get, offer-ack}

abbrev card : Array6
card = array6 0x52 0x54 0 0x12 0x34 0x56

abbrev gateway : Array6
gateway = array6 0x52 0x55 10 0 2 2

abbrev own_ip : Array4
own_ip = array4 10 0 2 15

abbrev gateway_ip : Array4
gateway_ip = array4 10 0 2 2

abbrev always : ℕ → Bool
always q = true

abbrev device : Array6 → Option Array4 → DhcpExchange → Device
device mac ip dhcp = record {
  id = 0;
  packet_queue = [];
  metadata = record { mac = mac; ip = ip; dhcp = dhcp };
}

abbrev fresh : Device
fresh = device card none DhcpExchange.initial

abbrev settled : Device
settled = device card (some own_ip) DhcpExchange.done

abbrev router : Device
router = device gateway (some gateway_ip) DhcpExchange.done

abbrev idle : Shared
idle = record { ips = IpMap.new; udp = []; arp = []; ping = []; events = [] }

arp_question-try_get_example :
    (q : Ethernet.Packet) × (r : Ethernet.Packet) × (Arp.finish (arp_question gateway_ip settled)
      ≡ ok q)
    × (handle_frame debug always router idle q ≡ ok (enqueue router r, idle))
    × ((e : Device) (t : Shared)
        → handle_arp debug always settled idle r ≡ ok (e, t)
        → (e ≡ settled) × (try_get t.ips gateway_ip ≡ some gateway))
arp_question-try_get_example =
    arp_question-try_get debug always settled router idle idle gateway_ip refl

-- The server's messages.
abbrev offer : Dhcp.Data
offer = record (sent tx_id (array4 0 0 0 0) gateway_ip card Dhcp.offer) { yiaddr = own_ip }

abbrev ack : Dhcp.Data
ack = record offer { operation = Dhcp.ack }

abbrev discovering : Device
discovering = device card none (DhcpExchange.discover 0 tx_id)

offer-ack_example :
    (p : Ethernet.Packet) × (e : Device) × (exchange release always discovering idle offer
      ≡ ok (e, idle))
    × (e.packet_queue ≡ p ∷ [])
    × (Dhcp.get debug (Dhcp.new (Udp.new (Ipv4.new p)))
        ≡ ok (sent tx_id own_ip gateway_ip card Dhcp.request))
    × (exchange release always e idle ack
        ≡ ok (set_ip (set_dhcp e DhcpExchange.done) own_ip, log idle (Event.raised 0)))
offer-ack_example =
    offer-ack release always debug discovering idle 0 tx_id offer ack refl (omega arith) (inl refl)
      refl refl refl refl

abbrev question : Arp.OperationState
question = arp_question own_ip router

-- The router's question for the device's address, and the device's answer to it.
asked :
    (p : Ethernet.Packet) × (Arp.finish question ≡ ok p)
    × (Arp.new p ≡ ok (parsed question p))
    × (Ethernet.destination_mac p ≡ ok broadcast)
    × (Ethernet.source_mac p ≡ ok gateway)
    × (Ethernet.ether_type p ≡ ok EthType.arp)
unfolding arp_question Arp.operation Arp.destination Arp.sender
asked = new-finish question (omega arith)

abbrev response : Arp.OperationState
response =
    Arp.operation (Arp.destination (Arp.sender gateway gateway_ip) card own_ip)
      Arp.Operation.response

replied :
    (p : Ethernet.Packet) × (Arp.finish response ≡ ok p)
    × (Arp.new p ≡ ok (parsed response p))
    × (Ethernet.destination_mac p ≡ ok card)
    × (Ethernet.source_mac p ≡ ok gateway)
    × (Ethernet.ether_type p ≡ ok EthType.arp)
unfolding Arp.operation Arp.destination Arp.sender
replied = new-finish response (omega arith)

abbrev taught : Shared
taught = record idle { ips = IpMap.set IpMap.new gateway_ip gateway }

learns : handle_arp debug always settled idle replied.0 ≡ ok (settled, taught)
unfolding handle_arp Arp.operation_of Arp.operation Arp.destination Arp.sender IpMap.get
learns = rw replied.2

abbrev world : World
world = record { devices = router ∷ []; shared = idle }

abbrev message : HandlerMessage
message = action (send_arp_request own_ip 5)

abbrev waiting : Shared
waiting = record idle { arp = (own_ip, 5) ∷ [] }

asks :
    step debug always world message
    ≡ ok (record { devices = enqueue router asked.0 ∷ []; shared = waiting })
unfolding step enqueue_all IpMap.insert
asks = rw asked.1

discovery :
    (p : Ethernet.Packet) × (Dhcp.discover_message release card tx_id 13 ≡ ok p)
    × (Udp.header (Udp.new (Ipv4.new p))
        ≡ ok (record { source_port = 68; destination_port = 67; length = 252; checksum = 0 }))
    × (Dhcp.get debug (Dhcp.new (Udp.new (Ipv4.new p)))
        ≡ ok (sent tx_id (array4 0 0 0 0) (array4 0 0 0 0) card Dhcp.discover))
discovery = discover-get release debug card tx_id 13 (omega arith) (omega arith) (inl refl)

abbrev started : Device
started = enqueue (set_dhcp fresh (DhcpExchange.discover 0 tx_id)) discovery.0

starts : start release always 0 (fresh ∷ []) ≡ ok (started ∷ [])
unfolding start
starts = rw discovery.1

abbrev query : Arp.OperationState
query = arp_question gateway_ip started

queried :
    (p : Ethernet.Packet) × (Arp.finish query ≡ ok p)
    × (Arp.new p ≡ ok (parsed query p))
    × (Ethernet.destination_mac p ≡ ok query.destination.mac)
    × (Ethernet.source_mac p ≡ ok query.destination.sender.mac)
    × (Ethernet.ether_type p ≡ ok EthType.arp)
unfolding arp_question Arp.operation Arp.destination Arp.sender
queried = new-finish query (omega arith)

runs :
    run release always
      (record { devices = started ∷ []; shared = idle })
      (action (send_arp_request gateway_ip 5) ∷ [])
    ≡ ok (record {
      devices = enqueue started queried.0 ∷ [];
      shared = record idle { arp = (gateway_ip, 5) ∷ [] };
    })
unfolding run step enqueue_all IpMap.insert
runs = rw queried.1

start-run-IsSettled_example : All IsSettled (enqueue started queried.0 ∷ [])
start-run-IsSettled_example =
    start-run-IsSettled release always 0 (fresh ∷ []) (started ∷ []) idle
      (action (send_arp_request gateway_ip 5) ∷ [])
      (record {
        devices = enqueue started queried.0 ∷ [];
        shared = record idle { arp = (gateway_ip, 5) ∷ [] };
      })
      (refl, tt) starts runs

-- A frame of 14 bytes, to all.
abbrev cut_short : Ethernet.EtherTypeState
cut_short = record { source = gateway; destination = broadcast; ether_ty = array2 0x08 0x06 }

abbrev empty : Ethernet.Packet
empty = Ethernet.new (Buffer.new (header cut_short []))

empty-IsFrame : IsFrame cut_short [] empty
empty-IsFrame = framed cut_short [] (omega arith)

handle_frame_short_example : handle_frame debug always settled idle empty ≡ panic
unfolding Ethernet.from_array
handle_frame_short_example =
    handle_frame_short debug always settled idle empty broadcast [] empty-IsFrame.to refl
      empty-IsFrame.type empty-IsFrame.holds (omega arith)

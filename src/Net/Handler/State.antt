-- ===== src/Net/Handler/State.antt =====
-- src/hardware/device.rs, src/extensions/networking.rs and src/extensions/networking/handler.rs: the
-- types that the handler works on.
use rucoonos.Prelude.{ℕ, List, [], ◌∷◌, ◌++◌, Option, some, Outcome}
use rucoonos.Net.Wire.{Array4, Array6, array6}
use rucoonos.Net.Buffer.{Buffer}
use rucoonos.Net.Ethernet
use rucoonos.Net.Ethernet.{EthType}
use rucoonos.Net.Udp
use rucoonos.Net.IpMap.{IpMap}

-- `DHCPExchange`
pub data DhcpExchange : Type 0 where
  initial done : DhcpExchange
  discover : (indicator transaction_id : ℕ) → DhcpExchange
  requested : (indicator transaction_id : ℕ) (own_ip server_ip : Array4) → DhcpExchange

pub record Metadata : Type 0 where
  pub mac : Array6
  pub ip : Option Array4
  pub dhcp : DhcpExchange

-- `NetworkDevice`. The handler does not use its own address and bindings, only those of the metadata
-- and of `Shared`.
pub record Device : Type 0 where
  pub id : ℕ
  pub packet_queue : List Ethernet.Packet
  pub metadata : Metadata

pub data Event : Type 0 where
  -- the answer to an ARP request, on the listener's queue
  answered : (listener : ℕ) (mac : Array6) → Event
  -- `store(true)` on a flag
  raised : (flag : ℕ) → Event
  woken : (waker : ℕ) → Event
  delivered : (queue : ℕ) (packet : Udp.Packet) → Event

-- The three `Bindings`, the map of addresses, and what was done.
pub record Shared : Type 0 where
  pub ips : IpMap
  pub udp : List (ℕ × ℕ)
  pub arp : List (Array4 × ℕ)
  pub ping : List (Array4 × (ℕ × ℕ))
  pub events : List Event

pub record World : Type 0 where
  pub devices : List Device
  pub shared : Shared

pub record RawPacket : Type 0 where
  pub id : ℕ
  pub buffer : Buffer

pub data ActionRequest : Type 0 where
  send_arp_request : (ip : Array4) (ret_queue : ℕ) → ActionRequest
  ping_request : (waker : ℕ) (ip : Array4) (mac : Array6) (result : ℕ) → ActionRequest

pub data HandlerMessage : Type 0 where
  packet : RawPacket → HandlerMessage
  action : ActionRequest → HandlerMessage

abbrev pub broadcast : Array6
broadcast = array6 0xff 0xff 0xff 0xff 0xff 0xff

abbrev pub log : Shared → Event → Shared
log s e = record s { events = s.events ++ (e ∷ []) }

-- `device.packet_queue.enqueue(p)`
abbrev pub enqueue : Device → Ethernet.Packet → Device
enqueue d p = record d { packet_queue = d.packet_queue ++ (p ∷ []) }

abbrev pub set_dhcp : Device → DhcpExchange → Device
set_dhcp d x = record d { metadata = record (d.metadata) { dhcp = x } }

abbrev pub set_ip : Device → Array4 → Device
set_ip d ip = record d { metadata = record (d.metadata) { ip = some ip } }

-- What a handler leaves: the device and the rest.
abbrev pub Handled : Type 0
Handled = Outcome (Device × Shared)

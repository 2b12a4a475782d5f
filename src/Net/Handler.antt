-- ===== src/Net/Handler.antt =====
-- src/extensions/networking/handler.rs: the task that handles received packets and the users' actions,
-- over the types of its child State.
-- A queue, a waker and a shared flag are numbers; what is done to them is a list of events. A device's
-- packet queue is the list of the packets sent into it, first to last. Output on the console is
-- left out. The queues of the `nolock` crate are not in the repository: `accepts` says whether a
-- listener's queue takes one more element, and a packet's queue always does.
pub mod State
pub mod Invariant
pub mod Replies
pub mod Exchanges
pub mod Ping
mod Tests
use rucoonos.Prelude.{
  ℕ, suc, Bool, true, false, not, ◌&&◌, List, [], ◌∷◌, ◌++◌, Option, none, some, Outcome, ok, err,
  panic, ◌>>=◌, unwrap, ◌==◌, if◌then◌else◌,
}
use rucoonos.Net.Wire.{Array4, Array6, Profile, Fill, array4, array6}
use rucoonos.Net.Buffer.{Buffer}
use rucoonos.Net.Ethernet
use rucoonos.Net.Ethernet.{EthType}
use rucoonos.Net.Arp
use rucoonos.Net.Ipv4
use rucoonos.Net.Ipv4.Builder
use rucoonos.Net.Icmp
use rucoonos.Net.Udp
use rucoonos.Net.Dhcp
use rucoonos.Net.IpMap.{IpMap, eq4, eq6, get, insert, remove, set}
pub use rucoonos.Net.Handler.State.*

-- The answer to a request for the address `ip` of the device.
abbrev pub arp_answer : Device → Array4 → Arp.Packet → Arp.OperationState
arp_answer d ip p =
    Arp.operation (Arp.destination (Arp.sender d.metadata.mac ip) p.src_mac p.src_ip)
      Arp.Operation.response

-- `for device in devices.iter() { device.packet_queue.enqueue(make(device).unwrap()) }`
unfoldable pub enqueue_all :
    (Device → Outcome Ethernet.Packet) → List Device → Outcome (List Device)
enqueue_all make [] = ok []
enqueue_all make (d ∷ ds) = do
  p ← unwrap (make d)
  rest ← enqueue_all make ds
  ok (enqueue d p ∷ rest)

abbrev own_ip : Device → Array4
own_ip d = elim d.metadata.ip [ none ↦ array4 0 0 0 0 | some ip ↦ ip ]

pub arp_question : Array4 → Device → Arp.OperationState
arp_question ip d =
    Arp.operation (Arp.destination (Arp.sender d.metadata.mac (own_ip d)) broadcast ip)
      Arp.Operation.request

abbrev pub tx_id : ℕ
tx_id = 0x12345678

module _ (profile : Profile) (accepts : ℕ → Bool) where
  pub handle_arp : Device → Shared → Ethernet.Packet → Handled
  unfolding Arp.operation_of get remove set
  handle_arp d s eth = do
    p ← unwrap (Arp.new eth)
    elim (Arp.operation_of p) [
      | Arp.Operation.request ↦ elim d.metadata.ip [
        | none ↦ ok (d, s)
        | some ip ↦
            if eq4 ip p.dest_ip
            then (unwrap (Arp.finish (arp_answer d ip p)) >>= λ answer. ok (enqueue d answer, s))
            else ok (d, s)
      ]
      | Arp.Operation.response ↦
          let s' = record s { ips = set s.ips p.src_ip p.src_mac } in
          elim (get eq4 p.src_ip s.arp) [
            | none ↦ ok (d, s')
            | some listener ↦
                if accepts listener
                then ok (
                  d,
                  log (record s' { arp = remove eq4 p.src_ip s.arp })
                      (Event.answered listener p.src_mac),
                )
                else panic
          ]
      | Arp.Operation.unknown u ↦ ok (d, s)
    ]

  -- An echo request ends in `todo!`.
  pub handle_icmp : Device → Shared → Ipv4.Packet → Handled
  unfolding Icmp.new get remove
  handle_icmp d s ip_packet = do
    ty ← Icmp.get_type (Icmp.new ip_packet)
    elim ty [
      | Icmp.echo_request i q ↦ panic
      | Icmp.echo_reply i q ↦
          (Ipv4.header ip_packet >>= λ h. elim (get eq4 h.source_ip s.ping) [
            | none ↦ ok (d, s)
            | some (waker, result) ↦ ok (
              d,
              log (log (record s { ping = remove eq4 h.source_ip s.ping }) (Event.raised result))
                  (Event.woken waker),
            )
          ])
      | Icmp.unknown u ↦ ok (d, s)
    ]

  -- The match on the exchange and the operation; any other pair leaves the exchange as it was.
  pub exchange : Device → Shared → Dhcp.Data → Handled
  exchange d s m = elim d.metadata.dhcp [
    | discover indicator transaction_id ↦ elim m.operation [
      | Dhcp.offer ↦
          if transaction_id == m.xid
          then (unwrap
                (Dhcp.request_message profile d.metadata.mac transaction_id m.yiaddr m.siaddr 0)
              >>= λ p. ok (
                set_dhcp (enqueue d p)
                    (DhcpExchange.requested indicator transaction_id m.yiaddr m.siaddr),
                s,
              ))
          else ok (d, s)
      | _ ↦ ok (d, s)
    ]
    | requested indicator transaction_id own_ip server_ip ↦ elim m.operation [
      | Dhcp.ack ↦
          if transaction_id == m.xid
          then ok (set_ip (set_dhcp d DhcpExchange.done) own_ip, log s (Event.raised indicator))
          else ok (d, s)
      | _ ↦ ok (d, s)
    ]
    | _ ↦ ok (d, s)
  ]

  pub handle_udp : Device → Shared → Ipv4.Packet → Handled
  unfolding Udp.new Dhcp.new get
  handle_udp d s ip_packet = do
    let udp_packet = Udp.new ip_packet
    h ← Udp.header udp_packet
    if h.source_port == 67 && h.destination_port == 68
        then (Dhcp.get profile (Dhcp.new udp_packet) >>= exchange d s)
        else elim (get ◌==◌ h.destination_port s.udp) [
          | some queue ↦ ok (d, log s (Event.delivered queue udp_packet))
          | none ↦ (Udp.payload udp_packet >>= λ _. ok (d, s))
        ]

  pub handle_ipv4 : Device → Shared → Ethernet.Packet → Handled
  unfolding Ipv4.new
  handle_ipv4 d s eth = do
    h ← Ipv4.header (Ipv4.new eth)
    elim h.protocol [
      | Ipv4.Protocol.icmp ↦ handle_icmp d s (Ipv4.new eth)
      | Ipv4.Protocol.udp ↦ handle_udp d s (Ipv4.new eth)
      | Ipv4.Protocol.tcp ↦ ok (d, s)
      | Ipv4.Protocol.unknown u ↦ ok (d, s)
    ]

  -- The match on the type of a frame that is for the device.
  pub dispatch : Device → Shared → Ethernet.Packet → EthType → Handled
  dispatch d s eth EthType.arp = handle_arp d s eth
  dispatch d s eth EthType.wake_on_lan = Ethernet.content eth >>= λ _. ok (d, s)
  dispatch d s eth EthType.ipv4 = handle_ipv4 d s eth
  dispatch d s eth EthType.ipv6 = ok (d, s)
  dispatch d s eth (EthType.unknown tag) = ok (d, s)

  -- `handle_packet_` for the device that the packet came in on.
  pub handle_frame : Device → Shared → Ethernet.Packet → Handled
  handle_frame d s eth = do
    destination ← Ethernet.destination_mac eth
    if not (eq6 destination broadcast) && not (eq6 destination d.metadata.mac)
        then ok (d, s)
        else (Ethernet.ether_type eth >>= dispatch d s eth)

  -- The first device with the packet's number is found and changed; without one, `unwrap` panics.
  pub handle_packet : RawPacket → List Device → Shared → Outcome World
  unfolding Ethernet.new
  handle_packet raw [] s = panic
  handle_packet raw (d ∷ ds) s =
      let later = handle_packet raw ds s >>= λ w.
      ok (record { devices = d ∷ w.devices; shared = w.shared }) in
      if d.id == raw.id
      then (handle_frame d s (Ethernet.new raw.buffer) >>= λ r.
          ok (record { devices = r.0 ∷ ds; shared = r.1 }))
      else later

  pub ping_packet : Array4 → Array6 → Device → Outcome Ethernet.Packet
  ping_packet ip mac d =
      Icmp.finish profile (Icmp.set_type (Icmp.echo_request 0x1234 0x2345))
        (Builder.destination
          (Builder.source
            (Builder.protocol (Builder.ttl (Builder.identification (Builder.dscp 0) 0x1234) 20)
              Ipv4.Protocol.icmp)
            (own_ip d) d.metadata.mac)
          ip mac)
        (λ b. (ok 0, b)) 0

  -- One round of the loop of `network_handler`.
  unfoldable pub step : World → HandlerMessage → Outcome World
  unfolding insert arp_question ping_packet
  step w (packet raw) = handle_packet raw w.devices w.shared
  step w (action (send_arp_request ip ret_queue)) = do
    let s = record (w.shared) { arp = insert eq4 ip ret_queue w.shared.arp }
    ds ← enqueue_all (λ d. Arp.finish (arp_question ip d)) w.devices
    ok (record { devices = ds; shared = s })
  step w (action (ping_request waker ip mac result)) = do
    let s = record (w.shared) { ping = insert eq4 ip (waker, result) w.shared.ping }
    ds ← enqueue_all (ping_packet ip mac) w.devices
    ok (record { devices = ds; shared = s })

  -- The loop, up to where its queue is closed.
  pub run : World → List HandlerMessage → Outcome World
  run w [] = ok w
  run w (m ∷ ms) = step w m >>= λ w'. run w' ms

  -- The start of `network_handler`: every device asks for an address. The flags are numbered by the
  -- devices' positions from `n` on.
  pub start : ℕ → List Device → Outcome (List Device)
  start n [] = ok []
  start n (d ∷ ds) = do
    p ← unwrap (Dhcp.discover_message profile d.metadata.mac tx_id 13)
    rest ← start (suc n) ds
    ok (enqueue (set_dhcp d (DhcpExchange.discover n tx_id)) p ∷ rest)

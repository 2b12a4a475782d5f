-- ===== src/Net/Handler/Invariant.antt =====
-- src/extensions/networking/handler.rs: what a round of the handler leaves of the devices.
use rucoonos.Prelude.{
  ℕ, suc, Bool, ◌==◌, Bool-cases, ◌≡◌, ◌⊎◌, inl, inr, refl, arith, List, [], ◌∷◌, none, Outcome, ok,
  err, panic, All, ◌&&◌, not, true, false, if◌then◌else◌, ◌>>=◌, >>=-eq-ok, unwrap,
}
use rucoonos.Net.Wire.{Profile}
use rucoonos.Net.Ethernet
use rucoonos.Net.Ethernet.{EthType}
use rucoonos.Net.Ipv4
use rucoonos.Net.Dhcp
use rucoonos.Net.IpMap.{eq6}
use rucoonos.Net.Handler.{
  Device, Shared, World, DhcpExchange, HandlerMessage, packet, action, send_arp_request,
  ping_request, enqueue, set_dhcp, tx_id, RawPacket, Handled, broadcast, handle_arp, handle_icmp,
  exchange, handle_udp, handle_ipv4, dispatch, handle_frame, handle_packet, step, run, start,
  enqueue_all,
}

-- A device that has an address got it by a completed exchange.
abbrev pub IsSettled : Device → Type 0
IsSettled d = (d.metadata.ip ≡ none) ⊎ (d.metadata.dhcp ≡ DhcpExchange.done)

-- What a handler keeps of its device.
pub record Keeps (d e : Device) : Type 0 where
  pub same_id : e.id ≡ d.id
  pub same_mac : e.metadata.mac ≡ d.metadata.mac
  pub settled : IsSettled d → IsSettled e

Keeps-refl : (d : Device) → Keeps d d
Keeps-refl d = record { same_id = refl; same_mac = refl; settled = λ h. h }

module _ (profile : Profile) (accepts : ℕ → Bool) where
  exchange-Keeps :
      (d e : Device) (s t : Shared) (m : Dhcp.Data)
      → exchange profile accepts d s m ≡ ok (e, t)
      → Keeps d e
  unfolding exchange
  exchange-Keeps d e s t m h = ground arith

  handle_arp-Keeps :
      (d e : Device) (s t : Shared) (p : Ethernet.Packet)
      → handle_arp profile accepts d s p ≡ ok (e, t)
      → Keeps d e
  unfolding handle_arp
  handle_arp-Keeps d e s t p h = ground arith

  handle_icmp-Keeps :
      (d e : Device) (s t : Shared) (p : Ipv4.Packet)
      → handle_icmp profile accepts d s p ≡ ok (e, t)
      → Keeps d e
  unfolding handle_icmp
  handle_icmp-Keeps d e s t p h = ground arith

  handle_udp-Keeps :
      (d e : Device) (s t : Shared) (p : Ipv4.Packet)
      → handle_udp profile accepts d s p ≡ ok (e, t)
      → Keeps d e
  unfolding handle_udp
  handle_udp-Keeps d e s t p h = grind (arith, exchange-Keeps)

  handle_ipv4-Keeps :
      (d e : Device) (s t : Shared) (p : Ethernet.Packet)
      → handle_ipv4 profile accepts d s p ≡ ok (e, t)
      → Keeps d e
  unfolding handle_ipv4
  handle_ipv4-Keeps d e s t p h =
      ground (arith, handle_udp-Keeps d e s t (Ipv4.new p), handle_icmp-Keeps d e s t (Ipv4.new p))

  dispatch-Keeps :
      (d e : Device) (s t : Shared) (p : Ethernet.Packet) (ty : EthType)
      → dispatch profile accepts d s p ty ≡ ok (e, t)
      → Keeps d e
  unfolding dispatch
  dispatch-Keeps d e s t p EthType.arp h = handle_arp-Keeps d e s t p h
  dispatch-Keeps d e s t p EthType.ipv4 h = handle_ipv4-Keeps d e s t p h
  dispatch-Keeps d e s t p ty h = ground arith

  for_device-Keeps :
      (other : Bool) (d e : Device) (s t : Shared) (p : Ethernet.Packet)
      → (if other then ok (d, s) else (Ethernet.ether_type p >>= dispatch profile accepts d s p))
        ≡ ok (e, t)
      → Keeps d e
  for_device-Keeps true d e s t p h = ground arith
  for_device-Keeps false d e s t p h =
      let (ty, _, g) = >>=-eq-ok (Ethernet.ether_type p) (dispatch profile accepts d s p) h in
      dispatch-Keeps d e s t p ty g

  handle_frame-Keeps :
      (d e : Device) (s t : Shared) (p : Ethernet.Packet)
      → handle_frame profile accepts d s p ≡ ok (e, t)
      → Keeps d e
  unfolding handle_frame
  handle_frame-Keeps d e s t p h =
      let (m, _, g) = >>=-eq-ok (Ethernet.destination_mac p) _ h in
      for_device-Keeps (not (eq6 m broadcast) && not (eq6 m d.metadata.mac)) d e s t p g

-- The devices before and after, one by one.
abbrev pub KeepsAll : List Device → List Device → Type 0
KeepsAll [] [] = Unit {0}
KeepsAll (d ∷ ds) (e ∷ es) = Keeps d e × KeepsAll ds es
KeepsAll _ _ = ⊥

KeepsAll-refl : (ds : List Device) → KeepsAll ds ds
KeepsAll-refl [] = tt
KeepsAll-refl (d ∷ ds) = (Keeps-refl d, KeepsAll-refl ds)

module _ (d : Device) (ds : List Device) (w : World) where
  found-KeepsAll :
      (r : Handled)
      → ((e : Device) (t : Shared) → r ≡ ok (e, t) → Keeps d e)
      → (r >>= λ r. ok (record { devices = r.0 ∷ ds; shared = r.1 })) ≡ ok w
      → KeepsAll (d ∷ ds) w.devices
  found-KeepsAll (ok (e, t)) k h =
      let devices : w.devices ≡ e ∷ ds = ground arith in rw devices (k e t refl, KeepsAll-refl ds)
  found-KeepsAll err k h = cc
  found-KeepsAll panic k h = cc

  later-KeepsAll :
      (r : Outcome World)
      → ((v : World) → r ≡ ok v → KeepsAll ds v.devices)
      → (r >>= λ v. ok (record { devices = d ∷ v.devices; shared = v.shared })) ≡ ok w
      → KeepsAll (d ∷ ds) w.devices
  later-KeepsAll (ok v) k h =
      let devices : w.devices ≡ d ∷ v.devices = ground arith in rw devices (Keeps-refl d, k v refl)
  later-KeepsAll err k h = cc
  later-KeepsAll panic k h = cc

module _ (profile : Profile) (accepts : ℕ → Bool) where
  handle_packet-KeepsAll :
      (raw : RawPacket) (ds : List Device) (s : Shared) (w : World)
      → handle_packet profile accepts raw ds s ≡ ok w
      → KeepsAll ds w.devices
  unfolding handle_packet Ethernet.new
  handle_packet-KeepsAll raw [] s w h = cc
  handle_packet-KeepsAll raw (d ∷ ds) s w h = elim (Bool-cases (d.id == raw.id)) [
    | inl e ↦
        found-KeepsAll d ds w (handle_frame profile accepts d s (Ethernet.new raw.buffer))
          (λ e t. handle_frame-Keeps profile accepts d e s t _) (rw e at h)
    | inr e ↦
        later-KeepsAll d ds w (handle_packet profile accepts raw ds s)
          (λ v. handle_packet-KeepsAll raw ds s v) (rw e at h)
  ]

enqueue_all-KeepsAll :
    (make : Device → Outcome Ethernet.Packet) (ds es : List Device)
    → enqueue_all make ds ≡ ok es
    → KeepsAll ds es
unfolding enqueue_all
enqueue_all-KeepsAll make [] [] h = tt
enqueue_all-KeepsAll make [] (e ∷ es) h = cc
enqueue_all-KeepsAll make (d ∷ ds) es h =
    let (p, _, g) = >>=-eq-ok (unwrap (make d)) _ h in
    let (rest, r, q) = >>=-eq-ok (enqueue_all make ds) _ g in
    let whole : es ≡ enqueue d p ∷ rest = ground arith in
    rw whole (
      record { same_id = refl; same_mac = refl; settled = λ k. k },
      enqueue_all-KeepsAll make ds rest r,
    )

-- The two actions.
module _ (w v : World) (s : Shared) where
  acted-KeepsAll :
      (r : Outcome (List Device))
      → ((es : List Device) → r ≡ ok es → KeepsAll w.devices es)
      → (r >>= λ ds. ok (record { devices = ds; shared = s })) ≡ ok v
      → KeepsAll w.devices v.devices
  acted-KeepsAll (ok es) k h = let devices : v.devices ≡ es = ground arith in rw devices (k es refl)
  acted-KeepsAll err k h = cc
  acted-KeepsAll panic k h = cc

module _ (profile : Profile) (accepts : ℕ → Bool) where
  -- A round that ends without a panic or an error keeps every device's number and address, and a
  -- device that had no IP address or a completed exchange has no IP address or a completed
  -- exchange after it.
  pub step-KeepsAll :
      (w v : World) (m : HandlerMessage)
      → step profile accepts w m ≡ ok v
      → KeepsAll w.devices v.devices
  unfolding step
  step-KeepsAll w v (packet raw) h =
      handle_packet-KeepsAll profile accepts raw w.devices w.shared v h
  step-KeepsAll w v (action (send_arp_request ip q)) h =
      acted-KeepsAll w v _ _ (enqueue_all-KeepsAll _ w.devices) h
  step-KeepsAll w v (action (ping_request k ip mac r)) h =
      acted-KeepsAll w v _ _ (enqueue_all-KeepsAll _ w.devices) h

KeepsAll-settled : (ds es : List Device) → KeepsAll ds es → All IsSettled ds → All IsSettled es
KeepsAll-settled [] [] k h = tt
KeepsAll-settled [] (e ∷ es) k h = absurd k
KeepsAll-settled (d ∷ ds) [] k h = absurd k
KeepsAll-settled (d ∷ ds) (e ∷ es) (k, ks) (h, hs) = (k.settled h, KeepsAll-settled ds es ks hs)

-- As `E1000Driver::new` makes a device's metadata.
abbrev pub HasNoIp : Device → Type 0
HasNoIp d = d.metadata.ip ≡ none

module _ (profile : Profile) (accepts : ℕ → Bool) where
  start-HasNoIp :
      (n : ℕ) (ds es : List Device)
      → start profile accepts n ds ≡ ok es
      → All HasNoIp ds
      → All HasNoIp es
  unfolding start
  start-HasNoIp n [] [] h k = tt
  start-HasNoIp n [] (e ∷ es) h k = cc
  start-HasNoIp n (d ∷ ds) es h (k, ks) =
      let (p, _, g) =
        >>=-eq-ok (unwrap (Dhcp.discover_message profile d.metadata.mac tx_id 13)) _ h in
      let (rest, r, q) = >>=-eq-ok (start profile accepts (suc n) ds) _ g in
      let whole : es ≡ enqueue (set_dhcp d (DhcpExchange.discover n tx_id)) p ∷ rest =
        ground arith in
      rw whole (k, start-HasNoIp (suc n) ds rest r ks)

  HasNoIp-settled : (ds : List Device) → All HasNoIp ds → All IsSettled ds
  HasNoIp-settled [] h = tt
  HasNoIp-settled (d ∷ ds) (h, hs) = (inl h, HasNoIp-settled ds hs)

  run-settled :
      (w v : World) (ms : List HandlerMessage)
      → run profile accepts w ms ≡ ok v
      → All IsSettled w.devices
      → All IsSettled v.devices
  unfolding run
  run-settled w v [] h k = let same : v ≡ w = ground arith in rw same k
  run-settled w v (m ∷ ms) h k =
      let (u, e, g) = >>=-eq-ok (step profile accepts w m) _ h in
      run-settled u v ms g
        (KeepsAll-settled w.devices u.devices (step-KeepsAll profile accepts w u m e) k)

  -- From devices with no IP address, after the start of `network_handler` and any messages that
  -- it handled without a panic or an error, a device that has an IP address has completed its
  -- DHCP exchange.
  pub start-run-IsSettled :
      (n : ℕ) (ds es : List Device) (s : Shared) (ms : List HandlerMessage) (v : World)
      → All HasNoIp ds
      → start profile accepts n ds ≡ ok es
      → run profile accepts (record { devices = es; shared = s }) ms ≡ ok v
      → All IsSettled v.devices
  start-run-IsSettled n ds es s ms v h e r =
      run-settled _ v ms r (HasNoIp-settled es (start-HasNoIp n ds es e h))

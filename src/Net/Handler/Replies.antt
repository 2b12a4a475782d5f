-- ===== src/Net/Handler/Replies.antt =====
-- src/extensions/networking/handler.rs: frames for other addresses, and ARP frames.
use rucoonos.Prelude.{
  Bytes, length, panic, ◌<◌, ℕ, Bool, true, false, ◌||◌, ◌≡◌, ◌≢◌, refl, ◌∙◌, arith, Option, none,
  some, ok, if◌then◌else◌, inl, inr, Bool-cases, ap, sym, List, [], ◌∷◌, ◌++◌, eq→==, ◌>>=◌,
}
use rucoonos.Net.Wire.{Array4, Array6, Profile}
use rucoonos.Net.Ethernet
use rucoonos.Net.Ethernet.{EthType}
use rucoonos.Net.Arp
use rucoonos.Net.Arp.RoundTrip
use rucoonos.Net.IpMap.{eq4, eq6, eq4_iff, try_get, try_get-set, set, get, remove}
use rucoonos.Net.Handler.{
  Handled, Device, Shared, Event, RawPacket, broadcast, enqueue, arp_answer, handle_arp, dispatch,
  handle_frame, handle_packet,
}

module _ (profile : Profile) (accepts : ℕ → Bool) (d : Device) (s : Shared)
    (p : Ethernet.Packet) where
  -- A frame neither to the device's address nor to all changes nothing.
  handle_frame-other :
      (m : Array6)
      → Ethernet.destination_mac p ≡ ok m
      → eq6 m broadcast ≡ false
      → eq6 m d.metadata.mac ≡ false
      → handle_frame profile accepts d s p ≡ ok (d, s)
  unfolding handle_frame
  handle_frame-other m e b o = rw (e, b, o)

  -- A frame to the device's address or to all is handled by its type.
  for_device :
      (m : Array6) (ty : EthType)
      → Ethernet.destination_mac p ≡ ok m
      → (eq6 m broadcast || eq6 m d.metadata.mac) ≡ true
      → Ethernet.ether_type p ≡ ok ty
      → handle_frame profile accepts d s p ≡ dispatch profile accepts d s p ty
  unfolding handle_frame
  for_device m ty e own t = rw e (ground arith)

  answer-enqueue :
      (a : Arp.Packet) (ip : Array4) (q : Ethernet.Packet)
      → Arp.new p ≡ ok a
      → a.operation ≡ 1
      → d.metadata.ip ≡ some ip
      → a.dest_ip ≡ ip
      → Arp.finish (arp_answer d ip a) ≡ ok q
      → handle_arp profile accepts d s p ≡ ok (enqueue d q, s)
  unfolding handle_arp Arp.operation_of
  answer-enqueue a ip q n op hip own f = ground arith

  -- An ARP request for the device's own IP address, in a frame to the device or to all, is
  -- answered by one packet and changes nothing else: an ARP response from the device's addresses
  -- to the asker's.
  pub arp_request-answer :
      (m : Array6) (a : Arp.Packet) (ip : Array4)
      → Ethernet.destination_mac p ≡ ok m
      → (eq6 m broadcast || eq6 m d.metadata.mac) ≡ true
      → Ethernet.ether_type p ≡ ok EthType.arp
      → Arp.new p ≡ ok a
      → a.operation ≡ 1
      → d.metadata.ip ≡ some ip
      → a.dest_ip ≡ ip
      → (q : Ethernet.Packet) × (handle_frame profile accepts d s p ≡ ok (enqueue d q, s))
        × (Ethernet.destination_mac q ≡ ok a.src_mac)
        × (Ethernet.ether_type q ≡ ok EthType.arp)
        × (b : Arp.Packet) × (Arp.new q ≡ ok b)
        × (Arp.operation_of b ≡ Arp.Operation.response)
        × (b.src_mac ≡ d.metadata.mac)
        × (b.src_ip ≡ ip)
        × (b.dest_mac ≡ a.src_mac)
        × (b.dest_ip ≡ a.src_ip)
  unfolding dispatch Arp.operation_of Arp.operation Arp.destination Arp.sender
  arp_request-answer m a ip e own t n op hip own_ip =
      let (q, f, new_q, dest, _, ty) = RoundTrip.new-finish (arp_answer d ip a) (omega arith) in
      (
        q,
        for_device m EthType.arp e own t ∙ answer-enqueue a ip q n op hip own_ip f,
        dest,
        ty,
        _,
        new_q,
        refl,
        refl,
        refl,
        refl,
        refl,
      )

  other_ip :
      (o : Option Array4) (ip : Array4) (a : Handled) (b : Array4 → Handled)
      → o ≢ some ip
      → elim o [ none ↦ a | some own ↦ if eq4 own ip then b own else a ] ≡ a
  other_ip none ip a b other = refl
  other_ip (some own) ip a b other = elim (Bool-cases (eq4 own ip)) [
    | inl e ↦ absurd (other (ap some ((eq4_iff own ip).0 e)))
    | inr e ↦ rw e
  ]

  -- An ARP request for the device while it has no IP address, or for another one, changes nothing.
  arp_request-other :
      (a : Arp.Packet)
      → Arp.new p ≡ ok a
      → a.operation ≡ 1
      → d.metadata.ip ≢ some a.dest_ip
      → handle_arp profile accepts d s p ≡ ok (d, s)
  unfolding handle_arp Arp.operation_of
  arp_request-other a n op other = rw (n, op) (other_ip d.metadata.ip a.dest_ip _ _ other)

  -- An ARP response that the handler takes in without a panic changes nothing of the device, and
  -- from then on the sender's address is known and every other is known as before.
  pub arp_response-try_get :
      (a : Arp.Packet) (e : Device) (t : Shared)
      → Arp.new p ≡ ok a
      → a.operation ≡ 2
      → handle_arp profile accepts d s p ≡ ok (e, t)
      → (e ≡ d)
        × ((j : Array4)
            → try_get t.ips j ≡ (if eq4 a.src_ip j then some a.src_mac else try_get s.ips j))
  unfolding handle_arp Arp.operation_of set
  arp_response-try_get a e t n op h =
      let both : (e ≡ d) × (t.ips ≡ set s.ips a.src_ip a.src_mac) = ground arith in
      (both.0, λ j. rw (both.1, try_get-set s.ips a.src_ip j a.src_mac))

  -- An ARP response that a listener waits for is handed to it, if its queue takes it.
  pub arp_response-answered :
      (a : Arp.Packet) (listener : ℕ)
      → Arp.new p ≡ ok a
      → a.operation ≡ 2
      → get eq4 a.src_ip s.arp ≡ some listener
      → accepts listener ≡ true
      → (t : Shared) × (handle_arp profile accepts d s p ≡ ok (d, t))
        × (t.events ≡ s.events ++ (Event.answered listener a.src_mac ∷ []))
  unfolding handle_arp Arp.operation_of set
  arp_response-answered a listener n op bound takes = (
    record s {
      ips = set s.ips a.src_ip a.src_mac;
      arp = remove eq4 a.src_ip s.arp;
      events = s.events ++ (Event.answered listener a.src_mac ∷ []);
    },
    ground arith,
    refl,
  )

  -- A frame of the ARP type, to the device or to all, with fewer than 28 bytes of content, makes
  -- the handler panic.
  pub handle_frame_short :
      (m : Array6) (c : Bytes)
      → Ethernet.destination_mac p ≡ ok m
      → (eq6 m broadcast || eq6 m d.metadata.mac) ≡ true
      → Ethernet.ether_type p ≡ ok EthType.arp
      → Ethernet.content p ≡ ok c
      → length c < 28
      → handle_frame profile accepts d s p ≡ panic
  unfolding dispatch handle_arp
  handle_frame_short m c e own t content short =
      for_device m EthType.arp e own t ∙ rw (RoundTrip.new_short p c content short)

  -- A packet with the number of the first device is a frame for this device.
  pub handle_packet-first :
      (ds : List Device) (raw : RawPacket) (e : Device) (t : Shared)
      → raw.id ≡ d.id
      → p ≡ Ethernet.new raw.buffer
      → handle_frame profile accepts d s p ≡ ok (e, t)
      → handle_packet profile accepts raw (d ∷ ds) s ≡ ok (record { devices = e ∷ ds; shared = t })
  unfolding handle_packet
  handle_packet-first ds raw e t same frame h = rw (eq→== d.id raw.id (sym same)) (
      ap (λ r. r >>= λ (r : Device × Shared). ok (record { devices = r.0 ∷ ds; shared = r.1 }))
        (ap (handle_frame profile accepts d s) (sym frame) ∙ h))

-- ===== src/Net/Api/GetMac/Answer.antt =====
-- src/extensions/networking/api.rs and handler.rs: a search for a hardware address from its first poll to its
-- last.
use rucoonos.Prelude.{
  ℕ, ◌≡◌, refl, sym, ap, ◌∙◌, Bool, true, if◌then◌else◌, ==_self, List, arith, [], ◌∷◌, ◌++◌, some,
  ok, >>=-eq-ok,
}
use rucoonos.Net.Wire.{Array4, Profile}
use rucoonos.Net.Ethernet
use rucoonos.Net.Arp
use rucoonos.Net.IpMap.{eq4, eq4_self, get, get-insert, insert, try_get}
use rucoonos.Net.Handler.{
  Device, Shared, World, Event, action, send_arp_request, handle_arp, enqueue_all, arp_question,
  step,
}
use rucoonos.Net.Handler.Replies.{arp_response-try_get, arp_response-answered}
use rucoonos.Net.Api.GetMac.{GetMac, empty, value, pending, ready, awaited, poll, answer_of}

answer_of-append :
    (listener : ℕ) (es : List Event) (e : Event)
    → answer_of listener es ≡ empty
    → answer_of listener (es ++ (e ∷ [])) ≡ answer_of listener (e ∷ [])
unfolding answer_of
answer_of-append listener [] e h = refl
answer_of-append listener (Event.answered other mac ∷ es) e h =
    ground (arith, answer_of-append listener es e)
answer_of-append listener (Event.raised g ∷ es) e h = answer_of-append listener es e h
answer_of-append listener (Event.woken w ∷ es) e h = answer_of-append listener es e h
answer_of-append listener (Event.delivered queue packet ∷ es) e h = answer_of-append listener es e h

module _ (profile : Profile) (accepts : ℕ → Bool) where
  -- After its request, the listener is bound to the address, and nothing has happened yet.
  step-listens :
      (w w' : World) (ip : Array4) (listener : ℕ)
      → step profile accepts w (action (send_arp_request ip listener)) ≡ ok w'
      → (get eq4 ip w'.shared.arp ≡ some listener) × (w'.shared.events ≡ w.shared.events)
  unfolding step
  step-listens w w' ip listener e =
      let s : Shared = record (w.shared) { arp = insert eq4 ip listener w.shared.arp } in
      let (ds, _, f) =
        >>=-eq-ok (enqueue_all (λ d. Arp.finish (arp_question ip d)) w.devices)
          (λ ds. ok (record { devices = ds; shared = s })) e in
      let same : w' ≡ record { devices = ds; shared = s } = inner (sym f) in
      (
        ap (λ w. get eq4 ip w.shared.arp) same
            ∙ get-insert ip ip listener w.shared.arp
            ∙ ap (λ b. if b then some listener else get eq4 ip w.shared.arp) (eq4_self ip),
        ap (λ w. w.shared.events) same,
      )
    where
      inner : {A : Type 0} {a b : A} → ok a ≡ ok b → a ≡ b
      inner e = cc

  -- The first poll of `get_mac` sends one request to the handler's queue, which takes it, and a poll before
  -- the answer sends no second one. Once the handler has taken the request in a round that does not panic,
  -- an ARP response from the address is handled without a panic if the queue of the answer takes it; the
  -- next poll gives the hardware address of the response, and the address is known from then on. No answer
  -- stood in the new queue before.
  pub poll-answer :
      (w w' : World) (d : Device) (listener : ℕ) (ip : Array4) (p : Ethernet.Packet)
      (a : Arp.Packet)
      → answer_of listener w.shared.events ≡ empty
      → accepts listener ≡ true
      → step profile accepts w (action (send_arp_request ip listener)) ≡ ok w'
      → Arp.new p ≡ ok a
      → a.operation ≡ 2
      → a.src_ip ≡ ip
      → (poll true empty (GetMac.asking ip listener)
          ≡ ok (pending, GetMac.listening listener, action (send_arp_request ip listener) ∷ []))
        × (poll true (answer_of listener w'.shared.events) (GetMac.listening listener)
            ≡ ok (pending, GetMac.listening listener, []))
        × (s : Shared) × (handle_arp profile accepts d w'.shared p ≡ ok (d, s))
        × (poll true (answer_of listener s.events) (GetMac.listening listener)
            ≡ ok (ready (some a.src_mac), GetMac.finished, []))
        × (try_get s.ips ip ≡ some a.src_mac)
  unfolding poll awaited answer_of
  poll-answer w w' d listener ip p a fresh takes e n op src =
      let (bound, same) = step-listens w w' ip listener e in
      let none_yet : answer_of listener w'.shared.events ≡ empty =
        ap (answer_of listener) same ∙ fresh in
      let (s, handled, events) =
        arp_response-answered profile accepts d w'.shared p a listener n op
          (ap (λ i. get eq4 i w'.shared.arp) src ∙ bound) takes in
      let (_, known) = arp_response-try_get profile accepts d w'.shared p a d s n op handled in
      (
        refl,
        ap (awaited listener []) none_yet,
        s,
        handled,
        ap (awaited listener []) (
            ap (answer_of listener) events
            ∙ answer_of-append listener w'.shared.events (Event.answered listener a.src_mac)
                none_yet
            ∙ ap (λ b. if b then value a.src_mac else empty) (==_self listener)),
        known ip
            ∙ ap (λ b. if b then some a.src_mac else try_get w'.shared.ips ip)
                (ap (λ i. eq4 i ip) src ∙ eq4_self ip),
      )

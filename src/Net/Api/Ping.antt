-- ===== src/Net/Api/Ping.antt =====
-- src/extensions/networking/api.rs and handler.rs: a ping from its first poll to its last.
use rucoonos.Prelude.{
  ℕ, ◌+◌, ◌≤◌, ◌≡◌, ◌≢◌, refl, sym, ap, ◌∙◌, Bool, true, false, if◌then◌else◌, ==_self, Bytes,
  zeros, length, List, arith, [], ◌∷◌, ◌++◌, Option, none, some, Outcome, ok, panic, >>=-eq-ok,
  append_assoc,
}
use rucoonos.Net.Wire.{Array4, Array6, Profile, Fill}
use rucoonos.Net.Ethernet
use rucoonos.Net.Ipv4
use rucoonos.Net.Ipv4.Checksum.{IsValid}
use rucoonos.Net.Ipv4.RoundTrip.{Seals}
use rucoonos.Net.Icmp
use rucoonos.Net.Icmp.RoundTrip.{IsKnown, Added}
use rucoonos.Net.IpMap.{eq4, eq4_self, get, get-insert, insert, remove}
use rucoonos.Net.Handler.{
  Device, Shared, World, Event, Handled, handle_ipv4, enqueue_all, ping_packet, step,
}
use rucoonos.Net.Handler.State.{action, ping_request}
use rucoonos.Net.Handler.Ping.{answered, handle_ipv4-finish}
use rucoonos.Kernel.{ready, pending}
use rucoonos.Net.Api.{PingFuture, raw_ping, requested, poll, is_raised}

is_raised-append :
    (flag : ℕ) (es : List Event) (waker : ℕ)
    → is_raised flag (es ++ (Event.raised flag ∷ Event.woken waker ∷ [])) ≡ true
unfolding is_raised
is_raised-append flag [] waker = rw (==_self flag) refl
is_raised-append flag (Event.answered listener mac ∷ es) waker = is_raised-append flag es waker
is_raised-append flag (Event.raised g ∷ es) waker = ground (arith, is_raised-append flag es waker)
is_raised-append flag (Event.woken w ∷ es) waker = is_raised-append flag es waker
is_raised-append flag (Event.delivered queue packet ∷ es) waker = is_raised-append flag es waker

-- What becomes of an echo reply from the address `ip`, for the ping that waits for it.
abbrev replied : Device → Shared → Array4 → Option (ℕ × ℕ) → Handled
replied d s ip waiting = elim waiting [
  | none ↦ ok (d, s)
  | some (waker, flag) ↦ ok (
    d,
    record s {
      ping = remove eq4 ip s.ping;
      events = (s.events ++ (Event.raised flag ∷ [])) ++ (Event.woken waker ∷ []);
    },
  )
]

module _ (profile : Profile) (accepts : ℕ → Bool) where
  -- After its request, the ping's waker and flag are bound to the host.
  step-ping :
      (w w' : World) (waker flag : ℕ) (ip : Array4) (mac : Array6)
      → step profile accepts w (action (ping_request waker ip mac flag)) ≡ ok w'
      → get eq4 ip w'.shared.ping ≡ some (waker, flag)
  unfolding step
  step-ping w w' waker flag ip mac e =
      let s : Shared = record (w.shared) { ping = insert eq4 ip (waker, flag) w.shared.ping } in
      let (ds, _, f) =
        >>=-eq-ok (enqueue_all (ping_packet profile accepts ip mac) w.devices)
          (λ ds. ok (record { devices = ds; shared = s })) e in
      ap (λ w. get eq4 ip w.shared.ping)
        (inner {a = w'} {b = record { devices = ds; shared = s }} (sym f))
      ∙ get-insert ip ip (waker, flag) w.shared.ping
      ∙ ap (λ b. if b then some (waker, flag) else get eq4 ip w.shared.ping) (eq4_self ip)
    where
      inner : {A : Type 0} {a b : A} → ok a ≡ ok b → a ≡ b
      inner e = cc

  -- The first poll of a ping enqueues one request for the handler, and a poll without an answer enqueues
  -- no second one. Once the handler has taken the request in a round that does not panic, an echo reply of
  -- the host's builder, for a closure that does not panic, header fields that fit and checksums that can
  -- be taken, raises the ping's flag, so that the next poll is ready.
  pub poll-ready :
      (w w' : World) (d : Device) (waker flag : ℕ) (ip : Array4) (mac : Array6) (sender : Profile)
      (i q : ℕ) (t : Icmp.TypeState) (host : Ipv4.DestinationState) (f : Fill) (size sum : ℕ)
      (b : Bytes) (r : Outcome ℕ)
      → step profile accepts w (action (ping_request waker ip mac flag)) ≡ ok w'
      → host.source ≡ ip
      → t.ty ≡ Icmp.echo_reply i q
      → IsKnown t.ty
      → host.protocol ≡ Ipv4.Protocol.icmp
      → IsValid (Ipv4.plain_header host (8 + size))
      → Seals sender (Ipv4.plain_header host (8 + size))
      → f (zeros 1458) ≡ (r, b)
      → r ≢ panic
      → length b ≡ 1458
      → size ≤ 1458
      → Added sender t.ty f size sum b
      → (ping : PingFuture) × (poll false waker (raw_ping ip mac flag)
          ≡ ok (pending, ping, action (ping_request waker ip mac flag) ∷ []))
        × (poll false waker ping ≡ ok (pending, ping, []))
        × (p : Ethernet.Packet) × (s : Shared) × (Icmp.finish sender t host f size ≡ ok p)
        × (handle_ipv4 profile accepts d w'.shared p ≡ ok (d, s))
        × (poll (is_raised flag s.events) waker ping ≡ ok (ready, ping, []))
  unfolding poll requested raw_ping
  poll-ready w w' d waker flag ip mac sender i q t host f size sum b r st src ty known pr v se e np
        l h a =
      let (p, done, handled) =
        handle_ipv4-finish profile accepts d w'.shared sender t host f size sum b r known pr v se e
          np l h a in
      let ping : PingFuture = record { ip = none; mac = none; send = true; returned = flag } in
      let old = w'.shared.events in
      let s : Shared = record (w'.shared) {
        ping = remove eq4 ip w'.shared.ping;
        events = (old ++ (Event.raised flag ∷ [])) ++ (Event.woken waker ∷ []);
      } in
      (
        ping,
        refl,
        refl,
        p,
        s,
        done,
        handled
            ∙ ap (λ k. answered d w'.shared host.source k) ty
            ∙ ap (λ j. answered d w'.shared j (Icmp.echo_reply i q)) src
            ∙ ap (λ o. replied d w'.shared ip o) (step-ping w w' waker flag ip mac st),
        ap (λ x. poll x waker ping)
            (ap (is_raised flag)
                (append_assoc old (Event.raised flag ∷ []) (Event.woken waker ∷ []))
              ∙ is_raised-append flag old waker),
      )

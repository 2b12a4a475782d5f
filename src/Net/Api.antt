-- ===== src/Net/Api.antt =====
-- src/extensions/networking/api.rs: a ping as a future. The flag that it shares with the handler is
-- given by its number; a poll gets the value that it loads and its task's waker. The queue to the handler
-- is set up.
pub mod Ping
pub mod GetMac
use rucoonos.Prelude.{
  ℕ, Bool, true, false, if◌then◌else◌, ◌==◌, List, [], ◌∷◌, Option, none, some, Outcome, ok, panic,
}
use rucoonos.Net.Wire.{Array4, Array6}
use rucoonos.Net.Handler.State.{Event, HandlerMessage, action, ping_request}
use rucoonos.Kernel.{Poll, ready, pending}

pub record PingFuture : Type 0 where
  pub ip : Option Array4
  pub mac : Option Array6
  pub send : Bool
  pub returned : ℕ

unfoldable pub raw_ping : Array4 → Array6 → ℕ → PingFuture
raw_ping ip mac returned = record {
  ip = some ip;
  mac = some mac;
  send = false;
  returned = returned;
}

-- The result of a poll: the future afterwards, and what it enqueued for the handler.
abbrev pub Polled : Type 0
Polled = Outcome (Poll × PingFuture × List HandlerMessage)

-- The two `expect`s, and the request.
pub requested : ℕ → PingFuture → Option Array6 → Option Array4 → Polled
requested waker f none ip = panic
requested waker f (some mac) none = panic
requested waker f (some mac) (some ip) = ok (
  pending,
  record f { ip = none; mac = none; send = true },
  action (ping_request waker ip mac f.returned) ∷ [],
)

-- `PingFuture::poll`
unfoldable pub poll : Bool → ℕ → PingFuture → Polled
unfolding requested
poll true waker f = ok (ready, f, [])
poll false waker f = if f.send then ok (pending, f, []) else requested waker f f.mac f.ip

-- What `load` gives after these events.
pub is_raised : ℕ → List Event → Bool
is_raised flag [] = false
is_raised flag (Event.answered listener mac ∷ es) = is_raised flag es
is_raised flag (Event.raised g ∷ es) =
    let rest = is_raised flag es in if g == flag then true else rest
is_raised flag (Event.woken waker ∷ es) = is_raised flag es
is_raised flag (Event.delivered queue packet ∷ es) = is_raised flag es

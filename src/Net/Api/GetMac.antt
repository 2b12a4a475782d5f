-- ===== src/Net/Api/GetMac.antt =====
-- src/extensions/networking/api.rs: the search for a hardware address as a future. The queue that it makes
-- for the answer is given by its number; a poll gets whether the handler's queue takes the request, and
-- what is in the queue of the answer.
pub mod Answer
use rucoonos.Prelude.{
  ℕ, Bool, true, false, if◌then◌else◌, ◌==◌, List, [], ◌∷◌, Option, none, some, Outcome, ok, panic,
}
use rucoonos.Net.Wire.{Array4, Array6}
use rucoonos.Net.Handler.State.{Event, HandlerMessage, action, send_arp_request}

-- `get_mac` before its first poll, at its `await`, and after its end.
pub data GetMac : Type 0 where
  asking : (ip : Array4) (ret_queue : ℕ) → GetMac
  listening : (ret_queue : ℕ) → GetMac
  finished : GetMac

-- What `dequeue` finds.
pub data Dequeue : Type 0 where
  empty closed : Dequeue
  value : Array6 → Dequeue

pub data Poll : Type 0 where
  pending : Poll
  ready : Option Array6 → Poll

abbrev pub Polled : Type 0
Polled = Outcome (Poll × GetMac × List HandlerMessage)

-- `recv.dequeue().await.ok()`, with what was sent to the handler in this poll.
pub awaited : ℕ → List HandlerMessage → Dequeue → Polled
awaited ret_queue sent empty = ok (pending, GetMac.listening ret_queue, sent)
awaited ret_queue sent closed = ok (ready none, GetMac.finished, sent)
awaited ret_queue sent (value mac) = ok (ready (some mac), GetMac.finished, sent)

-- A poll after the end panics.
pub poll : (accepted : Bool) → Dequeue → GetMac → Polled
unfolding awaited
poll true found (GetMac.asking ip ret_queue) =
    awaited ret_queue (action (send_arp_request ip ret_queue) ∷ []) found
poll false found (GetMac.asking ip ret_queue) = ok (ready none, GetMac.finished, [])
poll accepted found (GetMac.listening ret_queue) = awaited ret_queue [] found
poll accepted found GetMac.finished = panic

-- What is in the queue after these events: the first answer, as its receiver takes one only.
unfoldable pub answer_of : ℕ → List Event → Dequeue
answer_of queue [] = empty
answer_of queue (Event.answered listener mac ∷ es) =
    let rest = answer_of queue es in if listener == queue then value mac else rest
answer_of queue (Event.raised flag ∷ es) = answer_of queue es
answer_of queue (Event.woken waker ∷ es) = answer_of queue es
answer_of queue (Event.delivered q p ∷ es) = answer_of queue es

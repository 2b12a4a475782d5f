-- ===== src/Main/Ping.antt =====
-- src/main.rs: the task that pings a host again and again. `yield_now` is that of the `rucoon` crate: a poll
-- is given whether it is ready.
pub mod Requests
use rucoonos.Prelude.{
  ℕ, suc, ◌+◌, ◌≡◌, refl, arith, Bool, true, false, if◌then◌else◌, List, [], ◌∷◌, ◌++◌, length,
  Option, none, some, Outcome, ok, err, panic, sym, ◌>>=◌, >>=-eq-ok, length-append, All,
  All-append, ◌≤◌,
}
use mathlib.Core.Path.{subst}
use rucoonos.Net.Wire.{Array4, Array6}
use rucoonos.Net.Handler.State.{HandlerMessage, action, ping_request}
use rucoonos.Net.Api
use rucoonos.Net.Api.{PingFuture, raw_ping}
use rucoonos.Net.Api.GetMac
use rucoonos.Net.Api.GetMac.{GetMac, Dequeue}
use rucoonos.Kernel

-- The task at each of its `await`s.
pub data PingTask : Type 0 where
  resolving : (future : GetMac) → PingTask
  pinging : (mac : Array6) (ping : PingFuture) → PingTask
  yielding : (mac : Array6) → PingTask

-- What a poll is given: whether the handler's queue takes a message, what is in the queue of the answer,
-- what the flag of the ping holds, whether `yield_now` is ready, and the number of a new flag.
pub record Seen : Type 0 where
  pub accepted : Bool
  pub found : Dequeue
  pub raised : Bool
  pub yielded : Bool
  pub flag : ℕ
  pub waker : ℕ

abbrev pub Polled : Type 0
Polled = Outcome (PingTask × List HandlerMessage)

-- The start of a round: a new flag holds `false`, so its ping is not ready.
pub begun : Array6 → Kernel.Poll × PingFuture × List HandlerMessage → Polled
begun mac (Kernel.pending, ping, sent) = ok (PingTask.pinging mac ping, sent)
begun mac (Kernel.ready, ping, sent) = ok (PingTask.yielding mac, sent)

pub begin : Array4 → Seen → Array6 → Polled
unfolding begun
begin target_ip seen mac =
    Api.poll false seen.waker (raw_ping target_ip mac seen.flag) >>= begun mac

-- With what was sent before in this poll.
pub with_sent : List HandlerMessage → Polled → Polled
with_sent sent polled = polled >>= λ (task, more). ok (task, sent ++ more)

-- What the search's poll and the ping's poll lead to.
pub searched : Array4 → Seen → GetMac.Poll × GetMac × List HandlerMessage → Polled
unfolding begin with_sent
searched target_ip seen (GetMac.pending, future, sent) = ok (PingTask.resolving future, sent)
searched target_ip seen (GetMac.ready none, future, sent) = panic
searched target_ip seen (GetMac.ready (some mac), future, sent) =
    with_sent sent (begin target_ip seen mac)

pub rested : Array4 → Seen → Array6 → Polled
unfolding begin
rested target_ip seen mac =
    if seen.yielded then begin target_ip seen mac else ok (PingTask.yielding mac, [])

pub replied : Array4 → Seen → Array6 → Kernel.Poll × PingFuture × List HandlerMessage → Polled
unfolding rested with_sent
replied target_ip seen mac (Kernel.pending, ping, sent) = ok (PingTask.pinging mac ping, sent)
replied target_ip seen mac (Kernel.ready, ping, sent) = with_sent sent (rested target_ip seen mac)

-- A poll of `ping(target_ip)`.
pub poll_task : Array4 → Seen → PingTask → Polled
unfolding searched replied
poll_task target_ip seen (PingTask.resolving future) =
    GetMac.poll seen.accepted seen.found future >>= searched target_ip seen
poll_task target_ip seen (PingTask.pinging mac ping) =
    Api.poll seen.raised seen.waker ping >>= replied target_ip seen mac
poll_task target_ip seen (PingTask.yielding mac) = rested target_ip seen mac

-- Polls one after the other, with all that they send.
pub run_task : Array4 → PingTask → List Seen → Polled
unfolding poll_task with_sent
run_task target_ip task [] = ok (task, [])
run_task target_ip task (seen ∷ rest) =
    poll_task target_ip seen task >>= λ (next, sent). with_sent sent (run_task target_ip next rest)

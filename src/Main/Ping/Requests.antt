-- ===== src/Main/Ping/Requests.antt =====
-- src/main.rs: what the task that pings a host sends.
use rucoonos.Prelude.{
  ℕ, suc, ◌+◌, ◌≡◌, refl, arith, Bool, true, false, if◌then◌else◌, List, [], ◌∷◌, length, none, ok,
  err, panic, sym, ◌>>=◌, length-append, All, All-append, ◌≤◌,
}
use mathlib.Core.Path.{subst}
use rucoonos.Net.Wire.{Array4, Array6}
use rucoonos.Net.Handler.State.{HandlerMessage, action, ping_request}
use rucoonos.Net.Api
use rucoonos.Net.Api.{PingFuture, raw_ping}
use rucoonos.Kernel
use rucoonos.Main.Ping.{
  PingTask, Seen, Polled, begun, begin, with_sent, rested, replied, poll_task, run_task,
}

-- The task pings the host with this hardware address, and its current ping has been sent.
unfoldable pub Pings : Array6 → PingTask → Type 0
Pings mac (PingTask.resolving future) = ⊥
Pings mac (PingTask.pinging m ping) = (m ≡ mac) × (ping.send ≡ true)
Pings mac (PingTask.yielding m) = m ≡ mac

-- A ping that is due.
unfoldable pub due : PingTask → ℕ
due (PingTask.resolving future) = 0
due (PingTask.pinging mac ping) = 0
due (PingTask.yielding mac) = 1

-- A request for a ping of the host.
unfoldable pub IsRequest : Array4 → Array6 → HandlerMessage → Type 0
IsRequest target_ip mac message =
    (waker : ℕ) × (flag : ℕ) × (message ≡ action (ping_request waker target_ip mac flag))

-- How many polls found the flag of the ping set.
unfoldable pub answers : List Seen → ℕ
answers [] = 0
answers (seen ∷ rest) = if seen.raised then suc (answers rest) else answers rest

begin-request :
    (target_ip : Array4) (seen : Seen) (mac : Array6)
    → begin target_ip seen mac
      ≡ ok (
        PingTask.pinging mac (record { ip = none; mac = none; send = true; returned = seen.flag }),
        action (ping_request seen.waker target_ip mac seen.flag) ∷ [],
      )
unfolding begin begun Api.poll raw_ping
begin-request target_ip seen mac = refl

-- The poll does not fail, the task goes on to ping the host, all that was sent are requests for pings of the host, and there are, with
-- the one that is due, at most `n`.
abbrev pub IsKept : Array4 → Array6 → ℕ → Polled → Type 0
IsKept target_ip mac n (ok (task, sent)) =
    Pings mac task × All (IsRequest target_ip mac) sent × (length sent + due task ≤ n)
IsKept target_ip mac n err = ⊥
IsKept target_ip mac n panic = ⊥

module _ (target_ip : Array4) (mac : Array6) where
  rested-IsKept :
      (seen : Seen) (m : Array6) → m ≡ mac → IsKept target_ip mac 1 (rested target_ip seen m)
  unfolding rested Pings due IsRequest
  rested-IsKept seen m same =
      subst (λ m. IsKept target_ip mac 1 (rested target_ip seen m)) (sym same)
        (either (begin target_ip seen mac) (ok (PingTask.yielding mac, [])) seen.yielded
          (subst (IsKept target_ip mac 1) (sym (begin-request target_ip seen mac))
            ((refl, refl), ((seen.waker, seen.flag, refl), tt), omega arith))
          (refl, tt, omega arith))
    where
      either :
          (x y : Polled) (b : Bool)
          → IsKept target_ip mac 1 x
          → IsKept target_ip mac 1 y
          → IsKept target_ip mac 1 (if b then x else y)
      either x y true h k = h
      either x y false h k = k

  with_nothing-IsKept :
      (n : ℕ) (polled : Polled)
      → IsKept target_ip mac n polled
      → IsKept target_ip mac n (with_sent [] polled)
  unfolding with_sent
  with_nothing-IsKept n (ok (task, sent)) h = h
  with_nothing-IsKept n err h = absurd h
  with_nothing-IsKept n panic h = absurd h

  weaker :
      (polled : Polled) (n k : ℕ)
      → n ≤ k
      → IsKept target_ip mac n polled
      → IsKept target_ip mac k polled
  weaker (ok (task, sent)) n k le (h, all, few) = (h, all, omega arith)
  weaker err n k le h = absurd h
  weaker panic n k le h = absurd h

  poll_task-IsKept :
      (seen : Seen) (task : PingTask)
      → Pings mac task
      → IsKept target_ip mac
          (due task + (if seen.raised then 1 else 0))
          (poll_task target_ip seen task)
  unfolding poll_task replied Api.poll Pings due
  poll_task-IsKept seen (PingTask.resolving future) h = absurd h
  poll_task-IsKept seen (PingTask.pinging m ping) (same, asked) = flagged seen.raised
    where
      flagged :
          (b : Bool)
          → IsKept target_ip mac
              (0 + (if b then 1 else 0))
              (Api.poll b seen.waker ping >>= replied target_ip seen m)
      flagged true = with_nothing-IsKept 1 (rested target_ip seen m) (rested-IsKept seen m same)
      flagged false =
          subst
            (λ b. IsKept target_ip mac 0 (
              (if b
                then ok (Kernel.pending, ping, [])
                else Api.requested seen.waker ping ping.mac ping.ip)
              >>= replied target_ip seen m))
            (sym asked) ((same, asked), tt, omega arith)
  poll_task-IsKept seen (PingTask.yielding m) same =
      weaker (rested target_ip seen m) 1 _ (omega arith) (rested-IsKept seen m same)

  then-IsKept :
      (n k : ℕ) (polled : Polled) (rest : List Seen)
      → IsKept target_ip mac n polled
      → ((next : PingTask)
          → Pings mac next
          → IsKept target_ip mac (due next + k) (run_task target_ip next rest))
      → IsKept target_ip mac
          (n + k)
          (polled >>= λ (next, sent). with_sent sent (run_task target_ip next rest))
  unfolding with_sent
  then-IsKept n k (ok (next, sent)) rest (h, all, few) go =
      joined (run_task target_ip next rest) (go next h)
    where
      joined :
          (polled : Polled)
          → IsKept target_ip mac (due next + k) polled
          → IsKept target_ip mac (n + k) (with_sent sent polled)
      joined (ok (task, more)) (h', all', few') = (
        h',
        All-append (IsRequest target_ip mac) sent more all all',
        omega (arith, length-append sent more),
      )
      joined err h' = absurd h'
      joined panic h' = absurd h'
  then-IsKept n k err rest h go = absurd h
  then-IsKept n k panic rest h go = absurd h

  -- Once the task pings a host, its ping sent or due, no poll fails, it goes on to ping this host at the
  -- hardware address that was found, and sends nothing but requests for such pings: however often it is
  -- polled, one at most for each poll that found the flag of the last ping set, and one for the round that
  -- was due.
  pub run_task-IsKept :
      (task : PingTask) (seens : List Seen)
      → Pings mac task
      → IsKept target_ip mac (due task + answers seens) (run_task target_ip task seens)
  unfolding run_task answers
  run_task-IsKept task [] h = (h, tt, omega arith)
  run_task-IsKept task (seen ∷ rest) h =
      weaker (run_task target_ip task (seen ∷ rest))
        ((due task + (if seen.raised then 1 else 0)) + answers rest) _ (counted seen.raised)
        (then-IsKept (due task + (if seen.raised then 1 else 0)) (answers rest)
          (poll_task target_ip seen task) rest (poll_task-IsKept seen task h)
          (λ next k. run_task-IsKept next rest k))
    where
      counted :
          (b : Bool)
          → (due task + (if b then 1 else 0)) + answers rest
            ≤ due task + (if b then suc (answers rest) else answers rest)
      counted true = omega arith
      counted false = omega arith

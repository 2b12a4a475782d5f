-- ===== src/Kernel.antt =====
-- kernel/src/lib.rs, task.rs and handle.rs: the executor of the kernel's tasks.
-- The two queues of the `nolock` crate are lists, first in, first out, that never refuse an element
-- while the kernel lives. A future is given by what its n-th poll does, counting from 0: whether it
-- is ready, and in their order its calls of its own waker, of the other tasks' wakers, and of
-- `add_task`. Counters are natural numbers; the 64 bits of `usize` are left out.
pub mod Invariant
pub mod Fifo
pub mod Wakers
use rucoonos.Prelude.{
  ℕ, zero, suc, Bool, List, [], ◌∷◌, ◌++◌, Option, none, some, ◌==◌, if◌then◌else◌,
}

-- `Poll<()>`
pub data Poll : Type 0 where
  ready pending : Poll

-- A future by the number that its behaviour has in the program.
abbrev pub Future : Type 0
Future = ℕ

-- What one poll asks of the kernel, in its order.
pub data Call : Type 0 where
  -- its own waker
  wake_by_ref : Call
  -- a waker that the task with this number handed out
  wake : (id : ℕ) → Call
  add_task : Future → Call

-- `Task`, with the number of its polls so far and the last result.
pub record Task : Type 0 where
  pub id : ℕ
  pub future : Future
  pub polls : ℕ

-- `Kernel` with its `Handle`.
pub record Kernel : Type 0 where
  pub queue : List ℕ
  pub tasks : List Task
  pub task_add_queue : List Task
  pub id_count : ℕ

-- `Kernel::setup`
pub setup : Kernel
setup = record { queue = []; tasks = []; task_add_queue = []; id_count = 0 }

-- `Handle::add_task` and `Handle::add_raw_task`
pub add_task_to : Kernel → Future → Kernel
add_task_to k fut = record k {
  id_count = suc k.id_count;
  task_add_queue = k.task_add_queue ++ (record { id = k.id_count; future = fut; polls = 0 } ∷ []);
  queue = k.queue ++ (k.id_count ∷ []);
}

-- `wake` and `wake_by_ref` of a waker
pub wake_task : Kernel → ℕ → Kernel
wake_task k id = record k { queue = k.queue ++ (id ∷ []) }

-- A call of the task `self`.
pub call : ℕ → Kernel → Call → Kernel
unfolding wake_task add_task_to
call self k wake_by_ref = wake_task k self
call self k (wake id) = wake_task k id
call self k (add_task fut) = add_task_to k fut

pub calls : ℕ → Kernel → List Call → Kernel
calls self k [] = k
calls self k (c ∷ cs) = calls self (call self k c) cs

-- `self.tasks.iter_mut().find(|task| task.id == run_id)`, and the task's poll: the tasks after it
-- and the task as it was.
pub poll_first : ℕ → List Task → Option (Task × List Task)
poll_first id [] = none
poll_first id (t ∷ ts) =
    let later = poll_first id ts in
    if t.id == id
    then some (t, record t { polls = suc t.polls } ∷ ts)
    else elim later [ none ↦ none | some (u, us) ↦ some (u, t ∷ us) ]

-- The tasks of the add queue move to the end of the tasks.
pub drain : Kernel → Kernel
drain k = record k { tasks = k.tasks ++ k.task_add_queue; task_add_queue = [] }

module _ (poll : Future → ℕ → Poll × List Call) where
  -- The match on the task that was found, and its poll. A ready task stays.
  pub polled : ℕ → Kernel → Option (Task × List Task) → Kernel
  polled id k none = k
  polled id k (some (t, ts)) = calls id (record k { tasks = ts }) (poll t.future t.polls).1

  -- The rest of a round, for the number that was taken from the queue.
  pub run_task : Kernel → ℕ → Kernel
  run_task k id = polled id k (poll_first id k.tasks)

  -- A round for what the queue gives; `none` while it is empty and `dequeue` waits. The kernel
  -- holds a sender of the queue, so it is never closed.
  pub dequeued : Kernel → List ℕ → Option Kernel
  unfolding drain
  dequeued k [] = none
  dequeued k (id ∷ ids) = some (run_task (drain (record k { queue = ids })) id)

  -- One round of the loop of `Kernel::run`.
  pub round : Kernel → Option Kernel
  round k = dequeued k k.queue

  -- Up to `n` rounds.
  pub run : ℕ → Kernel → Kernel
  run zero k = k
  run (suc n) k = elim (round k) [ none ↦ k | some k' ↦ run n k' ]

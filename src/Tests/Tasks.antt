-- ===== src/Tests/Tasks.antt =====
-- The executor, from one task that wakes itself and the first task, and adds a task.
use rucoonos.Prelude.{ℕ, ◌≡◌, ◌≤◌, refl, arith, List, [], ◌∷◌, All, some}
use rucoonos.Kernel.{Kernel, Task, Poll, Call, Future, wake_by_ref, wake, add_task, round, run}
use rucoonos.Kernel.Invariant.{IsValid, IsKnown, Runs, round-IsValid}
use rucoonos.Kernel.Fifo.{run-queue}
use rucoonos.Kernel.Wakers.{Use, no_wakers, perform_all}
use rucoonos.Kernel.Wakers.Ownership.{Continues, perform_all-IsSound}

abbrev poll : Future → ℕ → Poll × List Call
poll fut n = (Poll.pending, wake_by_ref ∷ wake 0 ∷ add_task 1 ∷ [])

known : (fut i : ℕ) → All (IsKnown 1) (poll fut i).1
known fut i = (tt, (omega arith, (tt, tt)))

abbrev task : ℕ → Task
task id = record { id = id; future = 0; polls = 0 }

-- Two tasks, the second not yet taken over.
abbrev kernel : Kernel
kernel = record {
  queue = 1 ∷ 0 ∷ [];
  tasks = task 0 ∷ [];
  task_add_queue = task 1 ∷ [];
  id_count = 2;
}

kernel-IsValid : IsValid kernel
kernel-IsValid = record {
  numbered = (refl, (refl, refl));
  queued = (omega arith, (omega arith, tt));
}

round-IsValid_example :
    (t : Task) × (k : Kernel) × (round poll kernel ≡ some k)
    × (t.id ≡ 1)
    × Runs poll kernel 1 (0 ∷ []) t k
    × IsValid k
    × (2 ≤ k.id_count)
round-IsValid_example =
    round-IsValid poll 1 kernel 1 (0 ∷ []) known (omega arith) kernel-IsValid refl

run-queue_example :
    IsValid (run poll 1 kernel) × (new : List ℕ) × ((run poll 1 kernel).queue ≡ 0 ∷ new)
run-queue_example =
    run-queue poll 1 known kernel (1 ∷ []) (0 ∷ []) (omega arith) kernel-IsValid refl

-- A poll that clones its waker, uses the clone, and gives its own waker up.
perform_all-IsSound_example :
    Continues 3
      (perform_all 3 no_wakers (Use.created ∷ Use.cloned 0 ∷ Use.woken 0 ∷ Use.dropped 0 ∷ []))
perform_all-IsSound_example =
    perform_all-IsSound 3 (Use.created ∷ Use.cloned 0 ∷ Use.woken 0 ∷ Use.dropped 0 ∷ [])

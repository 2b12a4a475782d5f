-- ===== src/Kernel/Invariant.antt =====
-- kernel/src: the numbers of the tasks.
use rucoonos.Prelude.{
  ℕ, zero, suc, false, ◌==◌, Bool-cases, ==_iff, ◌≡◌, ◌⊎◌, inl, inr, refl, ap, sym, ◌∙◌, arith, ◌<◌,
  ◌≤◌, List, [], ◌∷◌, ◌++◌, none, some, All, append_assoc, append-nil,
}
use mathlib.Core.Path.{subst}
use rucoonos.Kernel.{
  Kernel, Task, Poll, Call, Future, setup, call, calls, poll_first, dequeued, drain, polled,
  run_task, round, run, wake_by_ref, wake, add_task,
}

-- The tasks are numbered from `n` on up to `m`, in their order.
abbrev pub IsNumbered : ℕ → List Task → ℕ → Type 0
IsNumbered n [] m = n ≡ m
IsNumbered n (t ∷ ts) m = (t.id ≡ n) × IsNumbered (suc n) ts m

-- The tasks and then the waiting ones are numbered from 0 up to the counter, and every number in the
-- run queue is below the counter.
pub record IsValid (k : Kernel) : Type 0 where
  pub numbered : IsNumbered 0 (k.tasks ++ k.task_add_queue) k.id_count
  pub queued : All (λ id. id < k.id_count) k.queue

pub setup-IsValid : IsValid setup
unfolding setup
setup-IsValid = record { numbered = refl; queued = tt }

IsNumbered-snoc :
    (n m : ℕ) (ts : List Task) (t : Task)
    → t.id ≡ m
    → IsNumbered n ts m
    → IsNumbered n (ts ++ (t ∷ [])) (suc m)
IsNumbered-snoc n m [] t e h = (omega arith, omega arith)
IsNumbered-snoc n m (u ∷ ts) t e (h, hs) = (h, IsNumbered-snoc (suc n) m ts t e hs)

All-snoc : (P : ℕ → Type 0) (xs : List ℕ) (x : ℕ) → All P xs → P x → All P (xs ++ (x ∷ []))
All-snoc P [] x h p = (p, tt)
All-snoc P (y ∷ xs) x (h, hs) p = (h, All-snoc P xs x hs p)

All-later : (n : ℕ) (xs : List ℕ) → All (λ id. id < n) xs → All (λ id. id < suc n) xs
All-later n [] h = tt
All-later n (x ∷ xs) (h, hs) = (omega arith, All-later n xs hs)

-- A waker stands for a task that was there.
abbrev pub IsKnown : ℕ → Call → Type 0
IsKnown n wake_by_ref = Unit {0}
IsKnown n (wake id) = id < n
IsKnown n (add_task fut) = Unit {0}

wakes-IsValid :
    (k : Kernel) (id : ℕ)
    → IsValid k
    → id < k.id_count
    → IsValid (record k { queue = k.queue ++ (id ∷ []) })
wakes-IsValid k id v h = record { numbered = v.numbered; queued = All-snoc _ k.queue id v.queued h }

call-IsValid :
    (n self : ℕ) (k : Kernel) (c : Call)
    → IsValid k
    → self < k.id_count
    → n ≤ k.id_count
    → IsKnown n c
    → IsValid (call self k c) × (k.id_count ≤ (call self k c).id_count)
unfolding call
call-IsValid n self k wake_by_ref v s le h = (wakes-IsValid k self v s, omega arith)
call-IsValid n self k (wake id) v s le h = (wakes-IsValid k id v (omega arith), omega arith)
call-IsValid n self k (add_task fut) v s le h = (
  record {
    numbered =
        rw⁻¹ (append_assoc k.tasks k.task_add_queue _)
          (IsNumbered-snoc 0 k.id_count (k.tasks ++ k.task_add_queue) _ refl v.numbered);
    queued = All-snoc _ k.queue k.id_count (All-later k.id_count k.queue v.queued) (omega arith);
  },
  omega arith,
)

calls-IsValid :
    (n self : ℕ) (k : Kernel) (cs : List Call)
    → IsValid k
    → self < k.id_count
    → n ≤ k.id_count
    → All (IsKnown n) cs
    → IsValid (calls self k cs) × (k.id_count ≤ (calls self k cs).id_count)
unfolding calls
calls-IsValid n self k [] v s le h = (v, omega arith)
calls-IsValid n self k (c ∷ cs) v s le (h, hs) =
    let (v', le') = call-IsValid n self k c v s le h in
    let (v'', le'') = calls-IsValid n self (call self k c) cs v' (omega arith) (omega arith) hs in
    (v'', omega arith)

later_le : (n a id : ℕ) → a ≡ n → n ≤ id → (a == id) ≡ false → suc n ≤ id
later_le n a id h le e = ground arith

-- In a numbered list every number is found, and its poll leaves the list numbered.
pub poll_first-IsNumbered :
    (n m id : ℕ) (ts : List Task)
    → IsNumbered n ts m
    → n ≤ id
    → id < m
    → (t : Task) × (us : List Task) × (poll_first id ts ≡ some (t, us))
      × (t.id ≡ id)
      × IsNumbered n us m
unfolding poll_first
poll_first-IsNumbered n m id [] h le lt = absurd (omega arith)
poll_first-IsNumbered n m id (t ∷ ts) (h, hs) le lt = elim (Bool-cases (t.id == id)) [
  | inl e ↦ (t, record t { polls = suc t.polls } ∷ ts, rw e, (==_iff t.id id).0 e, (h, hs))
  | inr e ↦
      let (u, us, f, same, num) =
        poll_first-IsNumbered (suc n) m id ts hs (later_le n t.id id h le e) lt in
      (u, t ∷ us, rw (e, f), same, (h, num))
]

take_next-IsValid :
    (k : Kernel) (id : ℕ) (ids : List ℕ)
    → k.queue ≡ id ∷ ids
    → IsValid k
    → IsValid (record k { queue = ids }) × (id < k.id_count)
take_next-IsValid k id ids e v =
    let (h, hs) : All (λ id. id < k.id_count) (id ∷ ids) = rw e at v.queued in
    (record { numbered = v.numbered; queued = hs }, h)

module _ (poll : Future → ℕ → Poll × List Call) where
  -- What a kernel runs next, once the number `id` is taken from its queue.
  abbrev pub Runs : Kernel → ℕ → List ℕ → Task → Kernel → Type 0
  Runs k id ids t k' =
      (us : List Task) × (poll_first id (k.tasks ++ k.task_add_queue) ≡ some (t, us))
      × (k'
          ≡ calls id (record k { queue = ids; tasks = us; task_add_queue = [] })
              (poll t.future t.polls).1)

  dequeued_found :
      (k : Kernel) (id : ℕ) (ids : List ℕ) (t : Task) (us : List Task)
      → poll_first id (k.tasks ++ k.task_add_queue) ≡ some (t, us)
      → dequeued poll k (id ∷ ids)
        ≡ some (
            calls id
              (record k { queue = ids; tasks = us; task_add_queue = [] })
              (poll t.future t.polls).1)
  unfolding dequeued run_task drain polled
  dequeued_found k id ids t us f =
      ap (λ r. some (polled poll id (drain (record k { queue = ids })) r)) f

  round_found :
      (k : Kernel) (id : ℕ) (ids : List ℕ) (t : Task) (us : List Task)
      → k.queue ≡ id ∷ ids
      → poll_first id (k.tasks ++ k.task_add_queue) ≡ some (t, us)
      → round poll k
        ≡ some (
            calls id
              (record k { queue = ids; tasks = us; task_add_queue = [] })
              (poll t.future t.polls).1)
  unfolding round
  round_found k id ids t us e f = ap (dequeued poll k) e ∙ dequeued_found k id ids t us f

  -- Where every poll calls, besides its own waker, only wakers of tasks that the kernel already
  -- has: in a valid kernel with a task in the run queue, the next round finds the task of that
  -- number, polls it once more, carries out the calls of the poll, and leaves a valid kernel with
  -- no fewer tasks.
  pub round-IsValid :
      (n : ℕ) (k : Kernel) (id : ℕ) (ids : List ℕ)
      → ((fut i : ℕ) → All (IsKnown n) (poll fut i).1)
      → n ≤ k.id_count
      → IsValid k
      → k.queue ≡ id ∷ ids
      → (t : Task) × (k' : Kernel) × (round poll k ≡ some k')
        × (t.id ≡ id)
        × Runs k id ids t k'
        × IsValid k'
        × (k.id_count ≤ k'.id_count)
  round-IsValid n k id ids known le v e =
      let (w, lt) = take_next-IsValid k id ids e v in
      let (t, us, f, same, num) =
        poll_first-IsNumbered 0 k.id_count id (k.tasks ++ k.task_add_queue) v.numbered (omega arith)
          lt in
      let num' : IsNumbered 0 (us ++ []) k.id_count = rw (append-nil us) num in
      let (y, le') =
        calls-IsValid n id (record k { queue = ids; tasks = us; task_add_queue = [] })
          (poll t.future t.polls).1 (record { numbered = num'; queued = w.queued }) lt le
          (known t.future t.polls) in
      (t, _, round_found k id ids t us e f, same, (us, f, refl), y, le')

  queue_cases : (q : List ℕ) → (q ≡ []) ⊎ ((id : ℕ) × (ids : List ℕ) × (q ≡ id ∷ ids))
  queue_cases [] = inl refl
  queue_cases (id ∷ ids) = inr (id, ids, refl)

  round_waits : (k : Kernel) → k.queue ≡ [] → round poll k ≡ none
  unfolding round dequeued
  round_waits k e = ap (dequeued poll k) e

  pub run-round :
      (rounds : ℕ) (k k' : Kernel)
      → round poll k ≡ some k'
      → run poll (suc rounds) k ≡ run poll rounds k'
  unfolding run
  run-round rounds k k' e = ap (λ r. elim r [ none ↦ k | some k' ↦ run poll rounds k' ]) e

  run_waits : (rounds : ℕ) (k : Kernel) → k.queue ≡ [] → run poll rounds k ≡ k
  unfolding run round
  run_waits zero k e = refl
  run_waits (suc rounds) k e =
      ap (λ r. elim r [ none ↦ k | some k' ↦ run poll rounds k' ]) (round_waits k e)

  -- Where every poll calls, besides its own waker, only wakers of tasks that the kernel already
  -- has, any number of rounds leaves a valid kernel valid.
  run-IsValid :
      (n rounds : ℕ) (k : Kernel)
      → ((fut i : ℕ) → All (IsKnown n) (poll fut i).1)
      → n ≤ k.id_count
      → IsValid k
      → IsValid (run poll rounds k)
  unfolding run
  run-IsValid n zero k known le v = v
  run-IsValid n (suc rounds) k known le v = elim (queue_cases k.queue) [
    | inl e ↦ subst IsValid (sym (run_waits (suc rounds) k e)) v
    | inr (id, ids, e) ↦
        let (t, k', r, _, _, v', le') = round-IsValid n k id ids known le v e in
        subst IsValid (sym (run-round rounds k k' r))
          (run-IsValid n rounds k' known (omega arith) v')
  ]

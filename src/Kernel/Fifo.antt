-- ===== src/Kernel/Fifo.antt =====
-- kernel/src: the order of the rounds.
use rucoonos.Prelude.{
  ℕ, ◌≡◌, refl, sym, ◌∙◌, ap, arith, ◌≤◌, List, [], ◌∷◌, ◌++◌, All, append_assoc, append-nil,
  length,
}
use mathlib.Core.Path.{subst}
use rucoonos.Kernel.{Kernel, Poll, Call, Future, calls, call, run, wake, wake_by_ref, add_task}
use rucoonos.Kernel.Invariant.{IsValid, IsKnown, round-IsValid, run-round}

call-queue :
    (self : ℕ) (k : Kernel) (c : Call) → (new : List ℕ) × ((call self k c).queue ≡ k.queue ++ new)
unfolding call
call-queue self k wake_by_ref = (self ∷ [], refl)
call-queue self k (wake id) = (id ∷ [], refl)
call-queue self k (add_task fut) = (k.id_count ∷ [], refl)

-- A poll only appends to the run queue.
calls-queue :
    (self : ℕ) (k : Kernel) (cs : List Call)
    → (new : List ℕ) × ((calls self k cs).queue ≡ k.queue ++ new)
unfolding calls
calls-queue self k [] = ([], sym (append-nil k.queue))
calls-queue self k (c ∷ cs) =
    let (first, e) = call-queue self k c in
    let (rest, f) = calls-queue self (call self k c) cs in
    (first ++ rest, f ∙ ap (λ q. q ++ rest) e ∙ append_assoc k.queue first rest)

module _ (poll : Future → ℕ → Poll × List Call) (n : ℕ)
    (known : (fut i : ℕ) → All (IsKnown n) (poll fut i).1) where
  -- Where every poll calls, besides its own waker, only wakers of tasks that the valid kernel
  -- already has: after one round for each of the first tasks of the run queue, what followed them
  -- stands at its front, and the kernel is valid. The run queue is first in, first out.
  pub run-queue :
      (k : Kernel) (xs ys : List ℕ)
      → n ≤ k.id_count
      → IsValid k
      → k.queue ≡ xs ++ ys
      → IsValid (run poll (length xs) k)
        × (new : List ℕ) × ((run poll (length xs) k).queue ≡ ys ++ new)
  unfolding run
  run-queue k [] ys le v e = (v, [], e ∙ sym (append-nil ys))
  run-queue k (x ∷ xs) ys le v e =
      let (t, k', r, _, (us, _, q), v', le') = round-IsValid poll n k x (xs ++ ys) known le v e in
      let (more, f) = calls-queue x _ (poll t.future t.polls).1 in
      let k'_queue : k'.queue ≡ xs ++ (ys ++ more) =
        ap (λ k. k.queue) q ∙ f ∙ append_assoc xs ys more in
      let (w, new, g) = run-queue k' xs (ys ++ more) (omega arith) v' k'_queue in
      let same = run-round poll (length xs) k k' r in
      (
        subst IsValid (sym same) w,
        more ++ new,
        ap (λ k. k.queue) same ∙ g ∙ append_assoc ys more new,
      )

-- ===== src/Kernel/Wakers.antt =====
-- kernel/src/task.rs: the wakers of one task, each a pointer to a box of its own. A box is named by the number
-- of its allocation; an access to a box that is not there, which the source leaves undefined, gives `none`.
-- The other boxes of the kernel are left out, and the run queue takes every element.
pub mod Ownership
use rucoonos.Prelude.{ℕ, zero, suc, ◌==◌, if◌then◌else◌, List, [], ◌∷◌, ◌++◌, Option, none, some}

-- Its queue is the one of the kernel.
pub record InternalWaker : Type 0 where
  pub id : ℕ

pub record Store : Type 0 where
  pub boxes : List (ℕ × InternalWaker)
  pub next : ℕ
  pub queue : List ℕ

-- `Box::new` and `Box::into_raw`
pub boxed : InternalWaker → Store → ℕ × Store
boxed waker s = (s.next, record s { boxes = (s.next, waker) ∷ s.boxes; next = suc s.next })

pub create_waker : ℕ → Store → ℕ × Store
unfolding boxed
create_waker id s = boxed (record { id = id }) s

pub find_box : ℕ → List (ℕ × InternalWaker) → Option InternalWaker
find_box ptr [] = none
find_box ptr ((at, waker) ∷ boxes) = if at == ptr then some waker else find_box ptr boxes

pub remove_box : ℕ → List (ℕ × InternalWaker) → List (ℕ × InternalWaker)
remove_box ptr [] = []
remove_box ptr ((at, waker) ∷ boxes) =
    if at == ptr then boxes else (at, waker) ∷ remove_box ptr boxes

-- `InternalWaker::ptr_ref`
pub ptr_ref : ℕ → Store → Option InternalWaker
unfolding find_box
ptr_ref ptr s = find_box ptr s.boxes

pub clone : ℕ → Store → Option (ℕ × Store)
unfolding ptr_ref boxed
clone ptr s = elim (ptr_ref ptr s) [
  | none ↦ none
  | some waker ↦ some (boxed (record { id = waker.id }) s)
]

pub wake : ℕ → Store → Option Store
unfolding ptr_ref
wake ptr s = elim (ptr_ref ptr s) [
  | none ↦ none
  | some waker ↦ some (record s { queue = s.queue ++ (waker.id ∷ []) })
]

pub wake_by_ref : ℕ → Store → Option Store
unfolding ptr_ref
wake_by_ref ptr s = elim (ptr_ref ptr s) [
  | none ↦ none
  | some waker ↦ some (record s { queue = s.queue ++ (waker.id ∷ []) })
]

-- `Box::from_raw`, and the end of the box.
pub drop : ℕ → Store → Option Store
unfolding ptr_ref remove_box
drop ptr s = elim (ptr_ref ptr s) [
  | none ↦ none
  | some waker ↦ some (record s { boxes = remove_box ptr s.boxes })
]

-- The wakers that there are, and those that a `wake` used up.
pub record Wakers : Type 0 where
  pub store : Store
  pub owned : List ℕ
  pub woken : List ℕ

-- What is done with the wakers of the task: one is made for a poll, or the one at a place among those that
-- there are is cloned, used or given up. A `Waker` that is used by `wake` is not dropped.
pub data Use : Type 0 where
  created : Use
  cloned woken woken_by_ref dropped : (place : ℕ) → Use

pub behind : ℕ → Option (ℕ × List ℕ) → Option (ℕ × List ℕ)
behind x none = none
behind x (some (y, ys)) = some (y, x ∷ ys)

-- The waker at a place, and the others.
pub take_at : ℕ → List ℕ → Option (ℕ × List ℕ)
unfolding behind
take_at place [] = none
take_at zero (x ∷ xs) = some (x, xs)
take_at (suc n) (x ∷ xs) = behind x (take_at n xs)

pub with_clone : Wakers → Option (ℕ × Store) → Option Wakers
with_clone w none = none
with_clone w (some (ptr, s)) = some (record w { store = s; owned = ptr ∷ w.owned })

pub with_store : Wakers → Option Store → Option Wakers
with_store w none = none
with_store w (some s) = some (record w { store = s })

-- There is nothing to do where there is no such waker.
pub perform_at : Use → Wakers → Option (ℕ × List ℕ) → Option Wakers
unfolding clone wake wake_by_ref drop with_clone with_store
perform_at action w none = some w
perform_at Use.created w (some (ptr, rest)) = some w
perform_at (Use.cloned place) w (some (ptr, rest)) = with_clone w (clone ptr w.store)
perform_at (Use.woken place) w (some (ptr, rest)) =
    with_store (record w { owned = rest; woken = ptr ∷ w.woken }) (wake ptr w.store)
perform_at (Use.woken_by_ref place) w (some (ptr, rest)) = with_store w (wake_by_ref ptr w.store)
perform_at (Use.dropped place) w (some (ptr, rest)) =
    with_store (record w { owned = rest }) (drop ptr w.store)

pub perform : ℕ → Wakers → Use → Option Wakers
unfolding create_waker take_at perform_at
perform id w Use.created = some (record w {
  store = (create_waker id w.store).1;
  owned = (create_waker id w.store).0 ∷ w.owned;
})
perform id w (Use.cloned place) = perform_at (Use.cloned place) w (take_at place w.owned)
perform id w (Use.woken place) = perform_at (Use.woken place) w (take_at place w.owned)
perform id w (Use.woken_by_ref place) =
    perform_at (Use.woken_by_ref place) w (take_at place w.owned)
perform id w (Use.dropped place) = perform_at (Use.dropped place) w (take_at place w.owned)

pub perform_all : ℕ → Wakers → List Use → Option Wakers
unfolding perform
perform_all id w [] = some w
perform_all id w (action ∷ uses) = elim (perform id w action) [
  | none ↦ none
  | some next ↦ perform_all id next uses
]

abbrev pub no_wakers : Wakers
no_wakers = record { store = record { boxes = []; next = 0; queue = [] }; owned = []; woken = [] }

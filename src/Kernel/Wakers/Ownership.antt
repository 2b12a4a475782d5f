-- ===== src/Kernel/Wakers/Ownership.antt =====
-- kernel/src/task.rs: which boxes of wakers there are.
use rucoonos.Prelude.{
  ℕ, zero, suc, ◌+◌, ◌<◌, ◌≡◌, refl, arith, ap, sym, ◌∙◌, Bool-cases, inl, inr, ◌==◌, if◌then◌else◌,
  List, [], ◌∷◌, ◌++◌, map, Option, none, some, All, All-append,
}
use mathlib.Core.Path.{subst}
use rucoonos.Kernel.Wakers.{
  InternalWaker, Store, boxed, create_waker, find_box, remove_box, ptr_ref, clone, wake,
  wake_by_ref, drop, Wakers, Use, behind, take_at, with_clone, with_store, perform_at, perform,
  perform_all, no_wakers,
}

-- How often a pointer is in a list.
unfoldable pub count : ℕ → List ℕ → ℕ
count p [] = 0
count p (x ∷ xs) = let n = count p xs in if x == p then suc n else n

abbrev pub pointers : Store → List ℕ
pointers s = map (λ b. b.0) s.boxes

-- Each waker that there is has its box, each that was used up still has it, there are no other boxes, and all of
-- them are for the task, as is everything in the queue.
pub record IsSound (id : ℕ) (w : Wakers) : Type 0 where
  pub boxed_once : (p : ℕ) → count p (pointers w.store) ≡ count p w.owned + count p w.woken
  pub own_boxes : All (λ b. b.1.id ≡ id) w.store.boxes
  pub own_queue : All (λ x. x ≡ id) w.store.queue

take_at-count :
    (place : ℕ) (xs : List ℕ) (ptr : ℕ) (rest : List ℕ)
    → take_at place xs ≡ some (ptr, rest)
    → (p : ℕ) → count p xs ≡ count p (ptr ∷ rest)
unfolding take_at behind count
take_at-count place [] ptr rest e p = cc
take_at-count zero (x ∷ xs) ptr rest e p =
    ap (λ t. elim t [ none ↦ 0 | some (y, ys) ↦ count p (y ∷ ys) ]) e
take_at-count (suc n) (x ∷ xs) ptr rest e p =
    later (take_at n xs) (λ y ys e. take_at-count n xs y ys e p) e
  where
    later :
        (t : Option (ℕ × List ℕ))
        → ((y : ℕ) (ys : List ℕ) → t ≡ some (y, ys) → count p xs ≡ count p (y ∷ ys))
        → behind x t ≡ some (ptr, rest)
        → count p (x ∷ xs) ≡ count p (ptr ∷ rest)
    later none h e = cc
    later (some (y, ys)) h e = ground (
      arith,
      ap {B = ℕ} (λ t. elim t [ none ↦ 0 | some (y, ys) ↦ count p (y ∷ ys) ]) e,
      h y ys refl,
    )

find_box-some :
    (id ptr : ℕ) (boxes : List (ℕ × InternalWaker))
    → All (λ b. b.1.id ≡ id) boxes
    → 0 < count ptr (map (λ b. b.0) boxes)
    → (waker : InternalWaker) × (find_box ptr boxes ≡ some waker) × (waker.id ≡ id)
unfolding find_box count
find_box-some id ptr [] all lt = ground arith
find_box-some id ptr ((at, waker) ∷ boxes) (own, all) lt = elim (Bool-cases (at == ptr)) [
  | inl same ↦ (waker, ground arith, own)
  | inr other ↦
      let (found, e, same) = find_box-some id ptr boxes all (ground arith) in
      (found, ground arith, same)
]

remove_box-count :
    (ptr : ℕ) (boxes : List (ℕ × InternalWaker))
    → 0 < count ptr (map (λ b. b.0) boxes)
    → (p : ℕ)
    → count p (map (λ b. b.0) boxes) ≡ count p (ptr ∷ map (λ b. b.0) (remove_box ptr boxes))
unfolding remove_box count
remove_box-count ptr [] lt p = ground arith
remove_box-count ptr ((at, waker) ∷ boxes) lt p = elim (Bool-cases (at == ptr)) [
  | inl same ↦ ground arith
  | inr other ↦ ground (arith, remove_box-count ptr boxes (ground arith) p)
]

remove_box-All :
    (id ptr : ℕ) (boxes : List (ℕ × InternalWaker))
    → All (λ b. b.1.id ≡ id) boxes
    → All (λ b. b.1.id ≡ id) (remove_box ptr boxes)
unfolding remove_box
remove_box-All id ptr [] all = tt
remove_box-All id ptr ((at, waker) ∷ boxes) (own, all) = elim (Bool-cases (at == ptr)) [
  | inl same ↦
      subst (All (λ b. b.1.id ≡ id))
        (sym (ap (λ b. if b then boxes else (at, waker) ∷ remove_box ptr boxes) same)) all
  | inr other ↦
      subst (All (λ b. b.1.id ≡ id))
        (sym (ap (λ b. if b then boxes else (at, waker) ∷ remove_box ptr boxes) other))
        (own, remove_box-All id ptr boxes all)
]

module _ (id : ℕ) where
  abbrev pub Continues : Option Wakers → Type 0
  Continues o = (w : Wakers) × (o ≡ some w) × IsSound id w

  -- The box of a waker that there is.
  ptr_ref-some :
      (w : Wakers) (ptr : ℕ) (rest : List ℕ)
      → IsSound id w
      → ((p : ℕ) → count p w.owned ≡ count p (ptr ∷ rest))
      → (0 < count ptr (pointers w.store))
        × (waker : InternalWaker) × (ptr_ref ptr w.store ≡ some waker)
        × (waker.id ≡ id)
  unfolding ptr_ref count
  ptr_ref-some w ptr rest h counted =
      let lt : 0 < count ptr (pointers w.store) = ground (arith, counted ptr, h.boxed_once ptr) in
      let (waker, e, own) = find_box-some id ptr w.store.boxes h.own_boxes lt in (lt, waker, e, own)

  created-IsSound : (w : Wakers) → IsSound id w → Continues (perform id w Use.created)
  unfolding perform create_waker boxed count
  created-IsSound w h = (
    _,
    refl,
    record {
      boxed_once = λ p. ground (arith, h.boxed_once p);
      own_boxes = (refl, h.own_boxes);
      own_queue = h.own_queue;
    },
  )

  perform_at-IsSound :
      (action : Use) (w : Wakers) (ptr : ℕ) (rest : List ℕ)
      → IsSound id w
      → ((p : ℕ) → count p w.owned ≡ count p (ptr ∷ rest))
      → Continues (perform_at action w (some (ptr, rest)))
  unfolding perform_at with_clone with_store clone wake wake_by_ref drop boxed count
  perform_at-IsSound Use.created w ptr rest h counted = (w, refl, h)
  perform_at-IsSound (Use.cloned place) w ptr rest h counted =
      let (lt, waker, e, own) = ptr_ref-some w ptr rest h counted in
      (
        _,
        ap
            (λ o. with_clone w (elim o [
              | none ↦ none
              | some waker ↦ some (boxed (record { id = waker.id }) w.store)
            ]))
            e,
        record {
          boxed_once = λ p. ground (arith, h.boxed_once p);
          own_boxes = (own, h.own_boxes);
          own_queue = h.own_queue;
        },
      )
  perform_at-IsSound (Use.woken place) w ptr rest h counted =
      let (lt, waker, e, own) = ptr_ref-some w ptr rest h counted in
      (
        _,
        ap
            (λ o.
              with_store (record w { owned = rest; woken = ptr ∷ w.woken })
                (elim o [
                  | none ↦ none
                  | some waker ↦ some (record w.store { queue = w.store.queue ++ (waker.id ∷ []) })
                ]))
            e,
        record {
          boxed_once = λ p. ground (arith, counted p, h.boxed_once p);
          own_boxes = h.own_boxes;
          own_queue = All-append (λ x. x ≡ id) w.store.queue (waker.id ∷ []) h.own_queue (own, tt);
        },
      )
  perform_at-IsSound (Use.woken_by_ref place) w ptr rest h counted =
      let (lt, waker, e, own) = ptr_ref-some w ptr rest h counted in
      (
        _,
        ap
            (λ o. with_store w (elim o [
              | none ↦ none
              | some waker ↦ some (record w.store { queue = w.store.queue ++ (waker.id ∷ []) })
            ]))
            e,
        record {
          boxed_once = h.boxed_once;
          own_boxes = h.own_boxes;
          own_queue = All-append (λ x. x ≡ id) w.store.queue (waker.id ∷ []) h.own_queue (own, tt);
        },
      )
  perform_at-IsSound (Use.dropped place) w ptr rest h counted =
      let (lt, waker, e, own) = ptr_ref-some w ptr rest h counted in
      (
        _,
        ap
            (λ o.
              with_store (record w { owned = rest })
                (elim o [
                  | none ↦ none
                  | some waker ↦ some (record w.store { boxes = remove_box ptr w.store.boxes })
                ]))
            e,
        record {
          boxed_once = λ p.
              ground (arith, counted p, h.boxed_once p, remove_box-count ptr w.store.boxes lt p);
          own_boxes = remove_box-All id ptr w.store.boxes h.own_boxes;
          own_queue = h.own_queue;
        },
      )

  taken-IsSound :
      (action : Use) (w : Wakers) (place : ℕ) (t : Option (ℕ × List ℕ))
      → take_at place w.owned ≡ t
      → IsSound id w
      → Continues (perform_at action w t)
  unfolding perform_at
  taken-IsSound action w place none e h = (w, refl, h)
  taken-IsSound action w place (some (ptr, rest)) e h =
      perform_at-IsSound action w ptr rest h (take_at-count place w.owned ptr rest e)

  perform-IsSound : (w : Wakers) (action : Use) → IsSound id w → Continues (perform id w action)
  unfolding perform
  perform-IsSound w Use.created h = created-IsSound w h
  perform-IsSound w (Use.cloned place) h = taken-IsSound (Use.cloned place) w place _ refl h
  perform-IsSound w (Use.woken place) h = taken-IsSound (Use.woken place) w place _ refl h
  perform-IsSound w (Use.woken_by_ref place) h =
      taken-IsSound (Use.woken_by_ref place) w place _ refl h
  perform-IsSound w (Use.dropped place) h = taken-IsSound (Use.dropped place) w place _ refl h

  perform_all-IsSound_from :
      (w : Wakers) (actions : List Use) → IsSound id w → Continues (perform_all id w actions)
  unfolding perform_all
  perform_all-IsSound_from w [] h = (w, refl, h)
  perform_all-IsSound_from w (action ∷ actions) h =
      let (next, e, k) = perform-IsSound w action h in
      let (last, q, l) = perform_all-IsSound_from next actions k in
      (last, ap (λ o. elim o [ none ↦ none | some next ↦ perform_all id next actions ]) e ∙ q, l)

  -- Whatever is done with the wakers of a task, none reads a box that is not there. There is always one box
  -- for each waker that there is, and one for each that a `wake` used up, which is never freed, and no
  -- other; all of them hold the task's number, as does everything that they put into the queue.
  pub perform_all-IsSound : (actions : List Use) → Continues (perform_all id no_wakers actions)
  unfolding count
  perform_all-IsSound actions =
      perform_all-IsSound_from no_wakers actions
        (record { boxed_once = λ p. refl; own_boxes = tt; own_queue = tt })

-- ===== src/Prelude/Arrays.antt =====
-- Arrays as lists, read and written at an index.
use rucoonos.Prelude.{
  ℕ, zero, suc, ◌<◌, ◌≢◌, ◌≡◌, refl, ap, arith, List, [], ◌∷◌, Option, none, some, length,
}

module _ {ℓ} {A : Type ℓ} where
  abbrev pub get_elem? : List A → ℕ → Option A
  get_elem? [] i = none
  get_elem? (x ∷ xs) zero = some x
  get_elem? (x ∷ xs) (suc i) = get_elem? xs i

  -- Past the end it changes nothing.
  abbrev pub set : List A → ℕ → A → List A
  set [] i y = []
  set (x ∷ xs) zero y = y ∷ xs
  set (x ∷ xs) (suc i) y = x ∷ set xs i y

  pub length-set : (xs : List A) (i : ℕ) (y : A) → length (set xs i y) ≡ length xs
  length-set [] i y = refl
  length-set (x ∷ xs) zero y = refl
  length-set (x ∷ xs) (suc i) y = ap suc (length-set xs i y)

  -- Inside its bounds an array has an element.
  pub get_elem?_total : (xs : List A) (i : ℕ) → i < length xs → (x : A) × (get_elem? xs i ≡ some x)
  get_elem?_total [] i h = elim h [ ]
  get_elem?_total (x ∷ xs) zero h = (x, refl)
  get_elem?_total (x ∷ xs) (suc i) h = get_elem?_total xs i (omega arith)

  -- What is written is read back.
  pub get_elem?-set :
      (xs : List A) (i : ℕ) (y : A) → i < length xs → get_elem? (set xs i y) i ≡ some y
  get_elem?-set [] i y h = elim h [ ]
  get_elem?-set (x ∷ xs) zero y h = refl
  get_elem?-set (x ∷ xs) (suc i) y h = get_elem?-set xs i y (omega arith)

  -- A write changes no other element.
  pub get_elem?-set_ne :
      (xs : List A) (i j : ℕ) (y : A) → j ≢ i → get_elem? (set xs i y) j ≡ get_elem? xs j
  get_elem?-set_ne [] i j y ne = refl
  get_elem?-set_ne (x ∷ xs) zero zero y ne = absurd (ne refl)
  get_elem?-set_ne (x ∷ xs) zero (suc j) y ne = refl
  get_elem?-set_ne (x ∷ xs) (suc i) zero y ne = refl
  get_elem?-set_ne (x ∷ xs) (suc i) (suc j) y ne = get_elem?-set_ne xs i j y (λ e. ne (ap suc e))

-- ===== src/Hardware/Loop.antt =====
-- The loops of the drivers that end at a `break`, on fuel.
use rucoonos.Prelude.{ℕ, zero, suc, ◌≤◌, ◌≡◌, refl, sym, ◌∙◌, ap, arith, ◌⊎◌, inl, inr}
use mathlib.Core.Path.{subst}

-- What running code comes to: it returns, it panics, or it still runs when the fuel is used up.
-- An access through a raw pointer outside its array counts as a panic.
pub data Exec {ℓ} (A : Type ℓ) : Type ℓ where
  returned : A → Exec A
  panicked : Exec A
  running : Exec A

infixl 5 ◌then◌
abbrev pub ◌then◌ {ℓ κ} : {A : Type ℓ} {B : Type κ} → Exec A → (A → Exec B) → Exec B
returned a then f = f a
panicked then f = panicked
running then f = running

pub then_assoc {ℓ} :
    {A B C : Type ℓ} (m : Exec A) (f : A → Exec B) (g : B → Exec C)
    → ((m then f) then g) ≡ (m then λ x. f x then g)
then_assoc (returned x) f g = refl
then_assoc panicked f g = refl
then_assoc running f g = refl

-- What one run of a loop's body comes to.
pub data Round {ℓ} (A : Type ℓ) : Type ℓ where
  again : A → Round A
  stop : A → Round A
  fault : Round A

Round-cases {ℓ} :
    {A : Type ℓ} (r : Round A)
    → ((b : A) × (r ≡ again b)) ⊎ (((b : A) × (r ≡ stop b)) ⊎ (r ≡ fault))
Round-cases (again b) = inl (b, refl)
Round-cases (stop b) = inr (inl (b, refl))
Round-cases fault = inr (inr refl)

module _ {ℓ} {A : Type ℓ} (body : A → Round A) where
  -- A `loop` with this body, for at most so many rounds.
  unfoldable pub loop : ℕ → A → Exec A
  loop zero a = running
  loop (suc n) a = elim (body a) [ again b ↦ loop n b | stop b ↦ returned b | fault ↦ panicked ]

  pub loop-again : (n : ℕ) (a b : A) → body a ≡ again b → loop (suc n) a ≡ loop n b
  unfolding loop
  loop-again n a b e =
      ap (λ r. elim r [ again b ↦ loop n b | stop b ↦ returned b | fault ↦ panicked ]) e

  pub loop-stop : (n : ℕ) (a b : A) → body a ≡ stop b → loop (suc n) a ≡ returned b
  unfolding loop
  loop-stop n a b e =
      ap (λ r. elim r [ again b ↦ loop n b | stop b ↦ returned b | fault ↦ panicked ]) e

  loop-fault : (n : ℕ) (a : A) → body a ≡ fault → loop (suc n) a ≡ panicked
  unfolding loop
  loop-fault n a e =
      ap (λ r. elim r [ again b ↦ loop n b | stop b ↦ returned b | fault ↦ panicked ]) e

  -- More fuel gives the same result.
  pub loop_more : (n m : ℕ) (a b : A) → n ≤ m → loop n a ≡ returned b → loop m a ≡ returned b
  unfolding loop
  loop_more zero m a b le e = cc
  loop_more (suc n) zero a b le e = elim le [ ]
  loop_more (suc n) (suc m) a b le e = elim (Round-cases (body a)) [
    | inl (x, f) ↦
        loop-again m a x f ∙ loop_more n m x b (omega arith) (sym (loop-again n a x f) ∙ e)
    | inr (inl (x, f)) ↦ loop-stop m a x f ∙ sym (loop-stop n a x f) ∙ e
    | inr (inr f) ↦ (let g = sym (loop-fault n a f) ∙ e in cc)
  ]

  -- What every round keeps is kept by the loop.
  pub loop_keeps {κ} :
      (P : A → Type κ)
      → ((a b : A) → P a → body a ≡ again b → P b)
      → ((a b : A) → P a → body a ≡ stop b → P b)
      → (n : ℕ) (a b : A) → P a
      → loop n a ≡ returned b
      → P b
  unfolding loop
  loop_keeps P go end zero a b h e = cc
  loop_keeps P go end (suc n) a b h e = elim (Round-cases (body a)) [
    | inl (x, f) ↦ loop_keeps P go end n x b (go a x h f) (sym (loop-again n a x f) ∙ e)
    | inr (inl (x, f)) ↦ subst P (inner (sym (loop-stop n a x f) ∙ e)) (end a x h f)
    | inr (inr f) ↦ (let g = sym (loop-fault n a f) ∙ e in cc)
  ]
    where
      inner : {x y : A} → returned x ≡ returned y → x ≡ y
      inner e = cc

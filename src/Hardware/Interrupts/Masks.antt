-- ===== src/Hardware/Interrupts/Masks.antt =====
-- src/interrupts.rs: which lines are let through.
use rucoonos.Prelude.{
  ℕ, zero, suc, ◌-◌, ◌<◌, ◌≡◌, refl, arith, Bool, true, false, ◌&&◌, ◌==◌, ltb, if◌then◌else◌, ok,
  Bool-cases, inl, inr, sym, ◌∙◌, ==_iff, ◌≤◌, le→ltb, lt→ltb,
}
use mathlib.Core.Path.{subst}
use rucoonos.Net.Wire.{Array2, Profile}
use rucoonos.Hardware.Registers.{bit}
use rucoonos.Hardware.Interrupts.{cleared, unmasked, set_interrupt}

same : Bool → Bool → Bool
same true true = true
same false false = true
same true false = false
same false true = false

-- A test of every number below a bound.
every : ℕ → (ℕ → Bool) → Bool
every zero p = true
every (suc n) p = p n && every n p

-- The bits of all masks.
checked :
    every 256 (λ m.
      every 8 (λ k. every 8 (λ j. same (bit (cleared k m) j) (if j == k then false else bit m j))))
    ≡ true
unfolding every same
checked = refl

every-at : (n i : ℕ) (p : ℕ → Bool) → every n p ≡ true → i < n → p i ≡ true
unfolding every
every-at zero i p e lt = elim lt [ ]
every-at (suc n) i p e lt = elim (Bool-cases (i == n)) [
  | inl here ↦ subst (λ k. p k ≡ true) (sym ((==_iff i n).0 here)) (first (p n) (every n p) e)
  | inr before ↦ every-at n i p (second (p n) (every n p) e) (less before)
]
  where
    first : (a b : Bool) → (a && b) ≡ true → a ≡ true
    first a b e = ground arith

    second : (a b : Bool) → (a && b) ≡ true → b ≡ true
    second a b e = ground arith

    less : (i == n) ≡ false → i < n
    less e = ground arith

same-eq : (a b : Bool) → same a b ≡ true → a ≡ b
unfolding same
same-eq true true e = refl
same-eq false false e = refl
same-eq true false e = cc
same-eq false true e = cc

-- Clearing a bit of a mask changes this bit alone.
bit-cleared :
    (k m j : ℕ)
    → k < 8
    → m < 256
    → j < 8
    → bit (cleared k m) j ≡ (if j == k then false else bit m j)
bit-cleared k m j h i l = same-eq _ _ (
    every-at 8 j (λ j. same (bit (cleared k m) j) (if j == k then false else bit m j))
      (every-at 8 k _ (every-at 256 m _ checked i) h) l)

-- Whether a line is held back.
abbrev is_masked : Array2 → ℕ → Bool
is_masked masks line = if ltb line 8 then bit masks.b0 line else bit masks.b1 (line - 8)

-- For a number of the descriptor table that belongs to one of the sixteen lines, `set_interrupt` lets this
-- line through and leaves every other line as it was, in a debug and in a release build.
set_interrupt-is_masked :
    (profile : Profile) (line j : ℕ) (prev : Array2)
    → 32 ≤ line
    → line < 48
    → j < 16
    → prev.b0 < 256
    → prev.b1 < 256
    → (masks : Array2) × (set_interrupt profile line prev ≡ ok masks)
      × (is_masked masks j ≡ (if j == line - 32 then false else is_masked prev j))
unfolding set_interrupt unmasked
set_interrupt-is_masked profile line j prev lo hi lt f g =
    (unmasked (line - 32) prev, rw (le→ltb line 32 lo) refl, lines (line - 32) (omega arith))
  where
    low→lt : (n : ℕ) → ltb n 8 ≡ true → n < 8
    low→lt n e = ground arith

    apart : (irq j : ℕ) → ltb irq 8 ≡ true → ltb j 8 ≡ false → (j == irq) ≡ false
    apart irq j a b = ground arith

    apart' : (irq j : ℕ) → ltb irq 8 ≡ false → ltb j 8 ≡ true → (j == irq) ≡ false
    apart' irq j a b = ground arith

    both : (irq j : ℕ) → ltb irq 8 ≡ false → ltb j 8 ≡ false → (j == irq) ≡ (j - 8 == irq - 8)
    both irq j a b = ground arith

    upper : (n : ℕ) → n < 16 → ltb n 8 ≡ false → n - 8 < 8
    upper n a b = ground arith

    lines :
        (irq : ℕ)
        → irq < 16
        → is_masked (unmasked irq prev) j ≡ (if j == irq then false else is_masked prev j)
    lines irq h = elim (Bool-cases (ltb irq 8)) [
      | inl low ↦ elim (Bool-cases (ltb j 8)) [
        | inl e ↦
            let fact = bit-cleared irq prev.b0 j (low→lt irq low) f (low→lt j e) in
            rw low (rw e fact)
        | inr e ↦ rw low (rw e (rw (apart irq j low e) refl))
      ]
      | inr high ↦ elim (Bool-cases (ltb j 8)) [
        | inl e ↦ rw high (rw (lt→ltb irq 16 h) (rw e (rw (apart' irq j high e) refl)))
        | inr e ↦
            let fact = bit-cleared (irq - 8) prev.b1 (j - 8) (upper irq h high) g (upper j lt e) in
            rw high (rw (lt→ltb irq 16 h) (rw e (fact ∙ rw (both irq j high e) refl)))
      ]
    ]

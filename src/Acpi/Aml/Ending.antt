-- ===== src/Acpi/Aml/Ending.antt =====
-- src/acpi/acpi/aml.rs: the end of the parser.
use rucoonos.Prelude.{
  ℕ, zero, suc, ◌-◌, ◌*◌, ◌/◌, ◌^◌, ◌<◌, ◌≤◌, ◌≡◌, refl, arith, bit_and, bit_or, ◌==◌, Bool, true,
  false, if◌then◌else◌, List, [], ◌∷◌, Option, none, some, Bytes, length, take, drop, length-drop,
  ltb, ◌⊎◌, inl, inr,
}
use rucoonos.Net.Wire.{Profile, debug, release}
use rucoonos.Hardware.Loop.{Exec, returned, panicked, running, ◌then◌}
use rucoonos.Acpi.{sub}
use rucoonos.Acpi.Aml.{
  Reported, next_byte, parse_pkg_length, parse_namepath, named, sized, parse_op, parse_all, parse,
}

-- It returns with at most `n` bytes left, or it panics.
abbrev Leaves {ℓ} : {A : Type ℓ} → ℕ → Exec (A × Bytes) → Type 0
Leaves n (returned (a, left)) = length left ≤ n
Leaves n panicked = Unit {0}
Leaves n running = ⊥

either-Leaves {ℓ} :
    {A : Type ℓ} (n : ℕ) (b : Bool) (x y : Exec (A × Bytes))
    → Leaves n x
    → Leaves n y
    → Leaves n (if b then x else y)
either-Leaves n true x y h k = h
either-Leaves n false x y h k = k

sub-Leaves :
    (n : ℕ) (profile : Profile) (a b : ℕ) (rest : Bytes)
    → length rest ≤ n
    → Leaves n (sub 64 profile a b then λ m. returned (some m, rest))
unfolding sub
sub-Leaves n debug a b rest h =
    elim (ltb a b)
      as (λ t.
        Leaves n ((if t then panicked else returned (a - b)) then λ m. returned (some m, rest))) [
          | true ↦ tt
          | false ↦ h
        ]
sub-Leaves n release a b rest h = h

parse_pkg_length-Leaves :
    (profile : Profile) (bytes : Bytes) → Leaves (length bytes) (parse_pkg_length profile bytes)
unfolding parse_pkg_length next_byte
parse_pkg_length-Leaves profile [] = omega arith
parse_pkg_length-Leaves profile (initial ∷ rest) =
    either-Leaves (suc (length rest)) (initial / 2 ^ 6 == 0) _ _
      (sub-Leaves (suc (length rest)) profile (bit_and initial 0x1f) 1 rest (omega arith))
      (either-Leaves (suc (length rest)) (initial / 2 ^ 6 == 1) _ _ (second rest) tt)
  where
    second : (rest : Bytes) → Leaves (suc (length rest)) (next_byte profile initial rest)
    second [] = omega arith
    second (b ∷ rest) =
        sub-Leaves (suc (suc (length rest))) profile (bit_or (b * 2 ^ 4) (bit_and initial 0x0f)) 2
          rest (omega arith)

sized-Leaves :
    (n : ℕ) (size : Option ℕ) (rest : Bytes) → length rest ≤ n → Leaves n (sized size rest)
unfolding sized named
sized-Leaves n none rest h = tt
sized-Leaves n (some size) rest h =
    inside (take size rest) (drop size rest) (omega (arith, length-drop size rest))
  where
    nameless :
        (bytes left : Bytes)
        → Leaves n (parse_namepath bytes then λ _. returned (Reported.scope size bytes, left))
    nameless [] left = tt
    nameless (b ∷ bytes) left = tt

    inside : (bytes left : Bytes) → length left ≤ n → Leaves n (named size bytes left)
    inside [] left k = tt
    inside (b ∷ bytes) left k = either-Leaves n (b == 0x5c) _ _ (nameless bytes left) k

parse_op-Leaves :
    (profile : Profile) (leading : ℕ) (rest : Bytes)
    → Leaves (length rest) (parse_op profile leading rest)
unfolding parse_op
parse_op-Leaves profile leading rest =
    either-Leaves (length rest) (leading == 0x10) _ _
      (then-Leaves (parse_pkg_length profile rest) (parse_pkg_length-Leaves profile rest))
      (omega arith)
  where
    then-Leaves :
        (m : Exec (Option ℕ × Bytes))
        → Leaves (length rest) m
        → Leaves (length rest) (m then λ (size, rest'). sized size rest')
    then-Leaves (returned (size, rest')) h = sized-Leaves (length rest) size rest' h
    then-Leaves panicked h = tt
    then-Leaves running h = absurd h

-- It returns or panics.
abbrev pub Ends {ℓ} : {A : Type ℓ} → Exec A → Type ℓ
Ends {A} m = ((a : A) × (m ≡ returned a)) ⊎ (m ≡ panicked)

parse_all-Ends :
    (profile : Profile) (fuel : ℕ) (bytes : Bytes)
    → length bytes < fuel
    → Ends (parse_all profile fuel bytes)
unfolding parse_all
parse_all-Ends profile zero bytes lt = elim lt [ ]
parse_all-Ends profile (suc fuel) [] lt = inl ([], refl)
parse_all-Ends profile (suc fuel) (leading ∷ rest) lt =
    go (parse_op profile leading rest) (parse_op-Leaves profile leading rest)
      (λ left le. parse_all-Ends profile fuel left (omega arith))
  where
    more :
        (r : Reported) (m : Exec (List Reported)) → Ends m → Ends (m then λ rs. returned (r ∷ rs))
    more r (returned rs) h = inl (r ∷ rs, refl)
    more r panicked h = inr refl
    more r running (inl (a, e)) = cc
    more r running (inr e) = cc

    go :
        (m : Exec (Reported × Bytes))
        → Leaves (length rest) m
        → ((left : Bytes) → length left ≤ length rest → Ends (parse_all profile fuel left))
        → Ends (m then λ (r, left). parse_all profile fuel left then λ rs. returned (r ∷ rs))
    go (returned (r, left)) h k = more r (parse_all profile fuel left) (k left h)
    go panicked h k = inr refl
    go running h k = absurd h

-- The parser ends on all contents, in a debug and in a release build, within one round more than there are
-- bytes: it returns or it panics.
pub parse-Ends : (profile : Profile) (content : Bytes) → Ends (parse profile content)
unfolding parse
parse-Ends profile content = parse_all-Ends profile (suc (length content)) content (omega arith)

-- ===== src/Hardware/Interrupts/Table/Replaced.antt =====
-- src/interrupts.rs: the table that the processor uses while handlers are replaced.
use rucoonos.Prelude.{
  ℕ, ◌-◌, ◌≡◌, ◌≢◌, ◌≤◌, refl, sym, ap, ◌∙◌, Bool, true, ◌==◌, ==_self, ne→==, le→ltb,
  if◌then◌else◌, List, [], ◌∷◌, Option, none, some, ok,
}
use rucoonos.Net.Wire.{Array2, Profile}
use rucoonos.Hardware.Interrupts
use rucoonos.Hardware.Interrupts.{unmasked}
use rucoonos.Hardware.Interrupts.Table.{
  Handler, IdTable, set_handler_fn, initial_idt, IdtStorage, initial, heaped, IdtState, find, freed,
  idt_of, dropped, set_copied, set_interrupt,
}

-- The tables on the heap are that of the storage and no other.
abbrev pub Owns : IdtStorage → List (ℕ × IdTable) → Type 0
Owns initial heap = heap ≡ []
Owns (heaped idt) heap = (t : IdTable) × (heap ≡ (idt, t) ∷ [])

-- The processor was given the table of the storage, and no table is leaked.
pub record IsValid (s : IdtState) : Type 0 where
  pub loaded : s.loaded ≡ some s.storage
  pub owned : Owns s.storage s.heap

-- The handler that the processor calls, none if its table is freed or was never given.
abbrev pub called_from : Option IdTable → ℕ → Option Handler
called_from none j = none
called_from (some t) j = t j

pub called : IdtState → ℕ → Option Handler
unfolding idt_of
called s j = elim s.loaded [ none ↦ none | some storage ↦ called_from (idt_of s.heap storage) j ]

-- The current table is there, and is the only one on the heap, if it is there at all.
copied :
    (storage : IdtStorage) (heap : List (ℕ × IdTable))
    → Owns storage heap
    → (t : IdTable) × (idt_of heap storage ≡ some t)
unfolding idt_of
copied initial heap h = (initial_idt, refl)
copied (heaped idt) heap (t, e) =
    (t, ap (find idt) e ∙ ap (λ b. if b then some t else none) (==_self idt))

-- The old table is freed, and the new one is left.
dropped-new :
    (storage : IdtStorage) (heap : List (ℕ × IdTable)) (box : ℕ) (t : IdTable)
    → Owns storage heap
    → storage ≢ heaped box
    → dropped storage ((box, t) ∷ heap) ≡ (box, t) ∷ []
unfolding dropped freed
dropped-new initial heap box t h fresh = ap (λ xs. (box, t) ∷ xs) h
dropped-new (heaped idt) heap box t (old, e) fresh =
    rw (ne→== box idt (λ same. fresh (ap heaped (sym same)))) (
      ap (λ xs. (box, t) ∷ xs)
        (ap (freed idt) e ∙ ap (λ b. if b then [] else (idt, old) ∷ []) (==_self idt)))

module _ (is_index : ℕ → Bool) (profile : Profile) where
  masks_ok :
      (line : ℕ) (masks : Array2)
      → 32 ≤ line
      → Interrupts.set_interrupt profile line masks ≡ ok (unmasked (line - 32) masks)
  unfolding Interrupts.set_interrupt
  masks_ok line masks h = rw (le→ltb line 32 h) refl

  -- Replacing the handler of a number that the table has, from 32 on, does not panic and keeps a valid
  -- state, where the new table gets a new address: the processor has a table that is not freed, and no
  -- other table is on the heap. The processor then calls the new handler for the number, and for every
  -- other one the handler that it called before.
  pub set_interrupt-called :
      (box line : ℕ) (entry : Handler) (s : IdtState)
      → IsValid s
      → is_index line ≡ true
      → 32 ≤ line
      → s.storage ≢ heaped box
      → (s' : IdtState) × (set_interrupt is_index profile box line entry s ≡ ok s')
        × IsValid s'
        × ((j : ℕ) → called s' j ≡ (if j == line then some entry else called s j))
  unfolding set_interrupt set_copied called
  set_interrupt-called box line entry s v index lo fresh =
      let (t, current) = copied s.storage s.heap v.owned in
      let n_idt = set_handler_fn t line entry in
      (
        record {
          storage = heaped box;
          loaded = some (heaped box);
          heap = dropped s.storage ((box, n_idt) ∷ s.heap);
          masks = unmasked (line - 32) s.masks;
        },
        ap (set_copied is_index profile box line entry s) current
            ∙ rw (index, masks_ok line s.masks lo) refl,
        record {
          loaded = refl;
          owned = (n_idt, dropped-new s.storage s.heap box n_idt v.owned fresh);
        },
        λ j.
            ap (λ heap. called_from (find box heap) j)
              (dropped-new s.storage s.heap box n_idt v.owned fresh)
            ∙ ap (λ b. called_from (if b then some n_idt else none) j) (==_self box)
            ∙ ap (λ h. if j == line then some entry else h)
                (sym (
                  ap (λ o. elim o [ none ↦ none | some st ↦ called_from (idt_of s.heap st) j ])
                    v.loaded
                  ∙ ap (λ o. called_from o j) current)),
      )

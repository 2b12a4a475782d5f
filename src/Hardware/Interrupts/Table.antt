-- ===== src/Hardware/Interrupts/Table.antt =====
-- src/interrupts.rs: the table of the interrupt handlers, which a new handler replaces as a whole. Tables
-- on the heap stand under their addresses; `box` is the address that `Box::new` gives. Which numbers a table
-- can be indexed with is a parameter, as the table is that of the `x86_64` crate.
pub mod Replaced
use rucoonos.Prelude.{
  ℕ, Bool, ◌==◌, if◌then◌else◌, List, [], ◌∷◌, Option, none, some, Outcome, ok, panic, ◌>>=◌,
}
use rucoonos.Net.Wire.{Array2, Profile}
use rucoonos.Hardware.Interrupts
use rucoonos.Hardware.Interrupts.{InterruptIndex, as_usize}

pub data Handler : Type 0 where
  breakpoint double_fault page_fault general_protection timer keyboard : Handler
  other : (entry : ℕ) → Handler

abbrev pub IdTable : Type 0
IdTable = ℕ → Option Handler

abbrev pub set_handler_fn : IdTable → ℕ → Handler → IdTable
set_handler_fn idt line entry j = if j == line then some entry else idt j

-- `INITIAL_IDT`, the exceptions under their numbers.
pub initial_idt : IdTable
unfolding as_usize
initial_idt =
    set_handler_fn
      (set_handler_fn
        (set_handler_fn
          (set_handler_fn
            (set_handler_fn (set_handler_fn (λ j. none) 3 Handler.breakpoint) 8
              Handler.double_fault)
            14 Handler.page_fault)
          13 Handler.general_protection)
        (as_usize InterruptIndex.timer) Handler.timer)
      (as_usize InterruptIndex.keyboard) Handler.keyboard

pub data IdtStorage : Type 0 where
  initial : IdtStorage
  heaped : (idt : ℕ) → IdtStorage

-- The storage behind the lock, the storage whose table the processor was given last, the tables on the heap,
-- and the masks.
pub record IdtState : Type 0 where
  pub storage : IdtStorage
  pub loaded : Option IdtStorage
  pub heap : List (ℕ × IdTable)
  pub masks : Array2

pub find : ℕ → List (ℕ × IdTable) → Option IdTable
find idt [] = none
find idt ((p, t) ∷ heap) = let rest = find idt heap in if p == idt then some t else rest

pub freed : ℕ → List (ℕ × IdTable) → List (ℕ × IdTable)
freed idt [] = []
freed idt ((p, t) ∷ heap) = let rest = freed idt heap in if p == idt then heap else (p, t) ∷ rest

-- `IDTStorage::idt`, `none` for a table that is freed.
pub idt_of : List (ℕ × IdTable) → IdtStorage → Option IdTable
unfolding find
idt_of heap initial = some initial_idt
idt_of heap (heaped idt) = find idt heap

-- `IDTStorage::load`
pub load : IdtStorage → IdtState → IdtState
load storage s = record s { loaded = some storage }

-- `IDTStorage::drop`
pub dropped : IdtStorage → List (ℕ × IdTable) → List (ℕ × IdTable)
unfolding freed
dropped initial heap = heap
dropped (heaped idt) heap = freed idt heap

-- `IDTStorage::new`, behind the lock in place of the old storage.
pub replaced : ℕ → IdTable → IdtState → IdtState
replaced box n_idt s = record s { storage = heaped box; heap = (box, n_idt) ∷ s.heap }

-- `init_idt`, but for the timer.
pub init_idt : IdtState → IdtState
unfolding load
init_idt s = load s.storage s

module _ (is_index : ℕ → Bool) (profile : Profile) where
  -- With the copy of the current table.
  pub set_copied : ℕ → ℕ → Handler → IdtState → Option IdTable → Outcome IdtState
  unfolding replaced load dropped
  set_copied box line entry s none = panic
  set_copied box line entry s (some n_idt) =
      if is_index line
      then (Interrupts.set_interrupt profile line s.masks >>= λ masks.
          let s' = load (heaped box) (replaced box (set_handler_fn n_idt line entry) s) in
          ok (record s' { masks = masks; heap = dropped s.storage s'.heap }))
      else panic

  -- `set_interrupt`
  pub set_interrupt : ℕ → ℕ → Handler → IdtState → Outcome IdtState
  unfolding set_copied idt_of
  set_interrupt box line entry s = set_copied box line entry s (idt_of s.heap s.storage)

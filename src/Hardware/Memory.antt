-- ===== src/Hardware/Memory.antt =====
-- src/memory.rs: the allocator of page frames. A frame is its start address. The regions are those of
-- the `bootloader` crate; which frame contains an address is a parameter, `PhysFrame` of the `x86_64`
-- crate. The set-up of the page table is left out.
pub mod Frames
pub mod Heap
use rucoonos.Prelude.{
  ℕ, zero, suc, ◌+◌, ◌-◌, ◌/◌, Bool, if◌then◌else◌, List, [], ◌∷◌, ◌++◌, map, Option,
}
use rucoonos.Prelude.Arrays.{get_elem?}

pub record MemoryRegion : Type 0 where
  pub start : ℕ
  pub end : ℕ
  -- `kind == MemoryRegionKind::Usable`
  pub is_usable : Bool

-- `BootInfoFrameAllocator`
pub record FrameAllocator : Type 0 where
  pub memory_map : List MemoryRegion
  pub next : ℕ

unfoldable pub init : List MemoryRegion → FrameAllocator
init memory_map = record { memory_map = memory_map; next = 0 }

-- `n` addresses, 4096 bytes apart.
unfoldable pub steps : ℕ → ℕ → List ℕ
steps zero start = []
steps (suc n) start = start ∷ steps n (start + 4096)

-- `(r.start..r.end).step_by(4096)`
unfoldable pub range_steps : MemoryRegion → List ℕ
unfolding steps
range_steps r = steps ((r.end - r.start + 4095) / 4096) r.start

-- The filter on the kind, and the flat map over the regions that it leaves.
unfoldable pub frame_addresses : List MemoryRegion → List ℕ
unfolding range_steps
frame_addresses [] = []
frame_addresses (r ∷ rs) =
    let rest = frame_addresses rs in if r.is_usable then range_steps r ++ rest else rest

module _ (containing_address : ℕ → ℕ) where
  unfoldable pub usable_frames : FrameAllocator → List ℕ
  unfolding frame_addresses
  usable_frames a = map containing_address (frame_addresses a.memory_map)

  -- The frame, and the allocator afterwards.
  unfoldable pub allocate_frame : FrameAllocator → Option ℕ × FrameAllocator
  unfolding usable_frames
  allocate_frame a = (get_elem? (usable_frames a) a.next, record a { next = suc a.next })

  -- Allocations one after the other.
  unfoldable pub allocate_frames : ℕ → FrameAllocator → List (Option ℕ)
  unfolding allocate_frame
  allocate_frames zero a = []
  allocate_frames (suc n) a = let (frame, a') = allocate_frame a in frame ∷ allocate_frames n a'

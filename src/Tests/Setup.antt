-- ===== src/Tests/Setup.antt =====
-- The set-up of the hardware, without tables of the firmware and with frames for the pages of the heap. The
-- mapper takes three frames for tables with its first page.
use rucoonos.Prelude.{
  ℕ, zero, suc, ◌+◌, ◌-◌, ◌*◌, ◌/◌, ◌≡◌, ◌≢◌, ◌<◌, ◌≤◌, refl, sym, ap, ◌∙◌, arith, Bool, true,
  false, ◌==◌, ◌||◌, if◌then◌else◌, List, [], ◌∷◌, ◌++◌, map, length, none, some, ◌⊎◌, inl, inr,
  All, ne→==,
}
use mathlib.Core.Path.{subst}
use rucoonos.Prelude.Arrays.{get_elem?}
use rucoonos.Net.Wire.{debug}
use rucoonos.Hardware.Loop.{returned}
use rucoonos.Hardware.Instance.{rsdp_acip_setup}
use rucoonos.Hardware.Memory
use rucoonos.Hardware.Memory.{FrameAllocator, usable_frames, frame_addresses, range_steps, steps}
use rucoonos.Hardware.Memory.Heap.{page_range, AreDistinct, HasFrames, Maps}
use rucoonos.Hardware.Boot.{BootInfo, Statics}
use rucoonos.Hardware.Boot.Ready.{start, IsReady, init_with, init-IsReady}

-- The pages that are mapped, each with its frame.
abbrev Mapping : Type 0
Mapping = List (ℕ × ℕ)

is_mapped : Mapping → ℕ → Bool
is_mapped [] page = false
is_mapped ((p, frame) ∷ mapping) page = (page == p) || is_mapped mapping page

abbrev IsFree : Mapping → ℕ → Type 0
IsFree mapping page = is_mapped mapping page ≡ false

-- The frames for tables.
abbrev tables : Mapping → ℕ
tables [] = 3
tables (entry ∷ mapping) = 0

map_to : Mapping → ℕ → ℕ → FrameAllocator → Unit {0} ⊎ (Mapping × FrameAllocator)
unfolding is_mapped
map_to mapping page frame allocator =
    if is_mapped mapping page
    then inl tt
    else inr ((page, frame) ∷ mapping, record allocator { next = allocator.next + tables mapping })

abbrev page_of : ℕ → ℕ
page_of address = address / 4096 * 4096

abbrev frame_of : ℕ → ℕ
frame_of address = address

count_up : ℕ → ℕ → List ℕ
count_up zero first = []
count_up (suc n) first = first ∷ count_up n (first + 4096)

range_inclusive : ℕ → ℕ → List ℕ
unfolding count_up
range_inclusive first last = count_up ((last + 4096 - first) / 4096) first

abbrev page_table : ℕ → Mapping
page_table offset = []

abbrev boot_info : BootInfo
boot_info = record {
  rsdp_addr = none;
  physical_memory_offset = some 0x10000;
  framebuffer =
      some
        (record { byte_len = 12; horizontal_resolution = 2; bytes_per_pixel = 3 }, 1 ∷ 2 ∷ 3 ∷ []);
  memory_regions = record { start = 0x100000; end = 0x500000; is_usable = true } ∷ [];
}

abbrev pages : List ℕ
pages = page_range (tt {0}) map_to page_of frame_of range_inclusive

tables_few : (mapping : Mapping) → tables mapping ≤ 3
tables_few [] = omega arith
tables_few (entry ∷ mapping) = omega arith

maps : Maps (tt {0}) map_to page_of frame_of range_inclusive IsFree
unfolding map_to is_mapped
maps m page frame b free left = (
  (page, frame) ∷ m,
  tables m,
  tables_few m,
  rw free refl,
  λ q other h. rw (ne→== q page other) h,
)

later : (n first low : ℕ) → low < first → All (λ q. q ≢ low) (count_up n first)
unfolding count_up
later zero first low h = tt
later (suc n) first low h = ((λ e. omega arith), later n (first + 4096) low (omega arith))

distinct : (n first : ℕ) → AreDistinct (count_up n first)
unfolding count_up
distinct zero first = tt
distinct (suc n) first = (later n (first + 4096) first (omega arith), distinct n (first + 4096))

free : (ps : List ℕ) → All (IsFree []) ps
unfolding is_mapped
free [] = tt
free (p ∷ ps) = (refl, free ps)

length-count_up : (n first : ℕ) → length (count_up n first) ≡ n
unfolding count_up
length-count_up zero first = refl
length-count_up (suc n) first = ap suc (length-count_up n (first + 4096))

counted : pages ≡ count_up 256 0x444444440000
unfolding page_range range_inclusive
counted = refl

frame_at :
    (n start i : ℕ) → i < n → (f : ℕ) × (get_elem? (map frame_of (steps n start ++ [])) i ≡ some f)
unfolding steps
frame_at zero start i h = absurd (omega arith)
frame_at (suc n) start zero h = (start, refl)
frame_at (suc n) start (suc i) h = frame_at n (start + 4096) i (omega arith)

enough :
    HasFrames
      (tt {0})
      map_to
      page_of
      frame_of
      range_inclusive
      (4 * length pages)
      (Memory.init boot_info.memory_regions)
unfolding usable_frames frame_addresses range_steps Memory.init
enough i lt =
    let few : length pages ≡ 256 = ap length counted ∙ length-count_up 256 0x444444440000 in
    let (f, e) = frame_at 1024 0x100000 i (omega arith) in
    let at : 0 + i ≡ i = omega arith in
    (f, ap (get_elem? (map frame_of (steps 1024 0x100000 ++ []))) at ∙ e)

init-IsReady_example :
    (s : Statics Mapping) × (init_with
        (tt {0})
        map_to
        page_of
        frame_of
        range_inclusive
        page_table
        (λ a. 0)
        (λ b. true)
        debug
        (λ address. 0)
        boot_info
        start
      ≡ returned s)
    × IsReady boot_info s
unfolding rsdp_acip_setup
init-IsReady_example =
    init-IsReady (tt {0}) map_to page_of frame_of range_inclusive page_table (λ a. 0) (λ b. true)
      debug (λ address. 0) boot_info 0x10000 none IsFree refl refl maps
      (subst AreDistinct (sym counted) (distinct 256 0x444444440000)) (free pages) enough

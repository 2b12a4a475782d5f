-- ===== src/Hardware/Memory/Heap.antt =====
-- src/hardware/allocator.rs: the mapping of the heap. The mapper and the ranges of pages are those of the
-- `x86_64` crate; a page is its start address.
use rucoonos.Prelude.{
  ℕ, suc, ◌<◌, ◌+◌, ◌-◌, ◌*◌, ◌≤◌, ◌≡◌, ◌≢◌, refl, All, ap, ◌∙◌, arith, List, [], ◌∷◌, length,
  Option, none, some, ◌⊎◌, inl, inr,
}
use rucoonos.Prelude.Arrays.{get_elem?}
use rucoonos.Hardware.Memory.{FrameAllocator, usable_frames, allocate_frame}

abbrev heap_start : ℕ
heap_start = 0x444444440000

abbrev heap_size : ℕ
heap_size = 1 * 1024 * 1024

-- No page is there twice.
abbrev pub AreDistinct : List ℕ → Type 0
AreDistinct [] = Unit {0}
AreDistinct (page ∷ pages) = All (λ q. q ≢ page) pages × AreDistinct pages

-- `result?`
and_then : {E X Y : Type 0} → E ⊎ X → (X → E ⊎ Y) → E ⊎ Y
and_then (inl e) f = inl e
and_then (inr x) f = f x

-- `Mapper`: its `map_to` gives an error, or the mapper and the allocator afterwards. `E` is `MapToError`.
module _ {M E : Type 0} (frame_allocation_failed : E)
    (map_to : M → ℕ → ℕ → FrameAllocator → E ⊎ (M × FrameAllocator)) (page_of frame_of : ℕ → ℕ)
    (range_inclusive : ℕ → ℕ → List ℕ) where
  unfoldable pub page_range : List ℕ
  page_range = range_inclusive (page_of heap_start) (page_of (heap_start + heap_size - 1))

  -- `frame_allocator.allocate_frame().ok_or(…)?`, and the mapping to the frame.
  map_frame : ℕ → M → FrameAllocator → Option ℕ → E ⊎ (M × FrameAllocator)
  map_frame page mapper frame_allocator none = inl frame_allocation_failed
  map_frame page mapper frame_allocator (some frame) = map_to mapper page frame frame_allocator

  map_page : ℕ → M → FrameAllocator → E ⊎ (M × FrameAllocator)
  unfolding map_frame
  map_page page mapper frame_allocator =
      let (frame, rest) = allocate_frame frame_of frame_allocator in
      map_frame page mapper rest frame

  map_pages : List ℕ → M → FrameAllocator → E ⊎ (M × FrameAllocator)
  unfolding map_page and_then
  map_pages [] mapper frame_allocator = inr (mapper, frame_allocator)
  map_pages (page ∷ pages) mapper frame_allocator =
      and_then (map_page page mapper frame_allocator) (λ s. map_pages pages s.0 s.1)

  -- With the memory that the allocator of the heap is then given.
  pub init_heap : M → FrameAllocator → E ⊎ ((M × FrameAllocator) × (ℕ × ℕ))
  unfolding map_pages page_range
  init_heap mapper frame_allocator =
      and_then (map_pages page_range mapper frame_allocator) (λ s. inr (s, (heap_start, heap_size)))

  -- Where no frame is left, the first page fails, whatever the mapper is.
  map_page_exhausted :
      (page : ℕ) (mapper : M) (a : FrameAllocator)
      → get_elem? (usable_frames frame_of a) a.next ≡ none
      → map_page page mapper a ≡ inl frame_allocation_failed
  unfolding map_page map_frame allocate_frame
  map_page_exhausted page mapper a e = ap (map_frame page mapper (record a { next = suc a.next })) e

  -- The next `n` allocations find a frame.
  abbrev pub HasFrames : ℕ → FrameAllocator → Type 0
  HasFrames n a =
      (i : ℕ) → i < n → (f : ℕ) × (get_elem? (usable_frames frame_of a) (a.next + i) ≡ some f)

  -- What is documented of `map_to`, for a page that the mapper has not mapped: the page is mapped, where up to
  -- three frames for tables of the levels above it can be allocated, and no other page is.
  abbrev pub Maps : (M → ℕ → Type 0) → Type 0
  Maps IsFree =
      (m : M) (page frame : ℕ) (b : FrameAllocator)
      → IsFree m page
      → HasFrames 3 b
      → (m' : M) × (k : ℕ) × (k ≤ 3)
        × (map_to m page frame b ≡ inr (m', record b { next = b.next + k }))
        × ((q : ℕ) → q ≢ page → IsFree m q → IsFree m' q)

  others_free :
      (IsFree : M → ℕ → Type 0) (m m' : M) (page : ℕ) (pages : List ℕ)
      → ((q : ℕ) → q ≢ page → IsFree m q → IsFree m' q)
      → All (λ q. q ≢ page) pages
      → All (IsFree m) pages
      → All (IsFree m') pages
  others_free IsFree m m' page [] keeps others free = tt
  others_free IsFree m m' page (q ∷ qs) keeps (other, others) (h, hs) =
      (keeps q other h, others_free IsFree m m' page qs keeps others hs)

  -- Where the pages are not mapped, and four frames are left for each, every page is mapped.
  map_pages-returned :
      (IsFree : M → ℕ → Type 0) (pages : List ℕ) (mapper : M) (a : FrameAllocator)
      → Maps IsFree
      → AreDistinct pages
      → All (IsFree mapper) pages
      → HasFrames (4 * length pages) a
      → (m : M) × (n : ℕ) × (map_pages pages mapper a ≡ inr (m, record a { next = n }))
  unfolding map_pages map_page map_frame and_then allocate_frame usable_frames
  map_pages-returned IsFree [] mapper a maps distinct free left = (mapper, a.next, refl)
  map_pages-returned IsFree (page ∷ pages) mapper a maps (others, distinct) (h, free) left =
      let (f, here) = left 0 (omega arith) in
      let b : FrameAllocator = record a { next = suc a.next } in
      let (m, k, small, e, keeps) = maps mapper page f b h (λ i lt.
        let (g, q) = left (suc i) (omega arith) in
        (g, ap (get_elem? (usable_frames frame_of a)) (omega arith) ∙ q)) in
      let (m', n, rest) =
        map_pages-returned IsFree pages m (record b { next = b.next + k }) maps distinct
          (others_free IsFree mapper m page pages keeps others free)
          (λ i lt.
            let (g, q) = left (suc k + i) (omega arith) in
            (g, ap (get_elem? (usable_frames frame_of a)) (omega arith) ∙ q)) in
      (
        m',
        n,
        ap (λ (o : Option ℕ). and_then (map_frame page mapper b o) (λ s. map_pages pages s.0 s.1))
              (ap (get_elem? (usable_frames frame_of a)) (omega arith) ∙ here)
            ∙ ap (λ (r : E ⊎ (M × FrameAllocator)). and_then r (λ s. map_pages pages s.0 s.1)) e
            ∙ rest,
      )

  -- So the heap is set up.
  pub init_heap-returned :
      (IsFree : M → ℕ → Type 0) (mapper : M) (a : FrameAllocator)
      → Maps IsFree
      → AreDistinct page_range
      → All (IsFree mapper) page_range
      → HasFrames (4 * length page_range) a
      → (m : M) × (n : ℕ) × (init_heap mapper a
          ≡ inr ((m, record a { next = n }), (heap_start, heap_size)))
  unfolding init_heap and_then
  init_heap-returned IsFree mapper a maps distinct free left =
      let (m, n, e) = map_pages-returned IsFree page_range mapper a maps distinct free left in
      (
        m,
        n,
        ap (λ (r : E ⊎ (M × FrameAllocator)). and_then r (λ s. inr (s, (heap_start, heap_size)))) e,
      )

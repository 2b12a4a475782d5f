-- ===== src/Hardware/Memory/Frames.antt =====
-- src/memory.rs: the frames that are allocated.
use rucoonos.Prelude.{
  ℕ, zero, suc, ◌+◌, ◌*◌, ◌%◌, ◌<◌, ◌≤◌, ◌≡◌, refl, sym, ap, ◌∙◌, arith, Bool, true, false, List,
  [], ◌∷◌, ◌++◌, map, Option, some, if◌then◌else◌, Bool-cases, inl, inr, ◌⊎◌,
}
use mathlib.Core.Path.{subst}
use rucoonos.Prelude.Arrays.{get_elem?}
use rucoonos.Hardware.Memory.{
  MemoryRegion, FrameAllocator, init, steps, range_steps, frame_addresses, usable_frames,
  allocate_frame, allocate_frames,
}

-- The regions start and end at frames and stand one after the other, from an address on.
abbrev pub AreOrdered : ℕ → List MemoryRegion → Type 0
AreOrdered low [] = Unit {0}
AreOrdered low (r ∷ rs) =
    (low ≤ r.start)
    × (r.start ≤ r.end)
    × (r.start % 4096 ≡ 0)
    × (r.end % 4096 ≡ 0)
    × AreOrdered r.end rs

-- What the frame that contains an address is.
abbrev pub IsContaining : (ℕ → ℕ) → Type 0
IsContaining containing_address =
    (a : ℕ)
    → (containing_address a % 4096 ≡ 0)
      × (containing_address a ≤ a)
      × (a < containing_address a + 4096)

-- The frame lies inside one of the usable regions.
abbrev pub IsInside : List MemoryRegion → ℕ → Type 0
IsInside [] x = ⊥
IsInside (r ∷ rs) x = ((r.is_usable ≡ true) × (r.start ≤ x) × (x + 4096 ≤ r.end)) ⊎ IsInside rs x

-- Frame addresses from `low` on, each at least a frame after the one before it.
abbrev AreSpaced : ℕ → List ℕ → Type 0
AreSpaced low [] = Unit {0}
AreSpaced low (x ∷ xs) = (low ≤ x) × (x % 4096 ≡ 0) × AreSpaced (x + 4096) xs

spaced_lower : (low low' : ℕ) (xs : List ℕ) → low' ≤ low → AreSpaced low xs → AreSpaced low' xs
spaced_lower low low' [] le s = tt
spaced_lower low low' (x ∷ xs) le (l, a, s) = (omega arith, a, s)

-- A region's steps, before addresses that follow the region.
steps-AreSpaced :
    (n start : ℕ) (ys : List ℕ)
    → start % 4096 ≡ 0
    → AreSpaced (start + 4096 * n) ys
    → AreSpaced start (steps n start ++ ys)
unfolding steps
steps-AreSpaced zero start ys a s = subst (λ l. AreSpaced l ys) (omega arith) s
steps-AreSpaced (suc n) start ys a s = (
  omega arith,
  a,
  steps-AreSpaced n (start + 4096) ys (omega arith) (subst (λ l. AreSpaced l ys) (omega arith) s),
)

frame_addresses-AreSpaced :
    (low : ℕ) (rs : List MemoryRegion) → AreOrdered low rs → AreSpaced low (frame_addresses rs)
unfolding frame_addresses range_steps
frame_addresses-AreSpaced low [] o = tt
frame_addresses-AreSpaced low (r ∷ rs) (l, le, s, e, o) =
    both (frame_addresses rs) (frame_addresses-AreSpaced r.end rs o) r.is_usable
  where
    both :
        (ys : List ℕ)
        → AreSpaced r.end ys
        → (b : Bool) → AreSpaced low (if b then range_steps r ++ ys else ys)
    both ys rest true =
        spaced_lower r.start low _ l
          (steps-AreSpaced _ r.start ys s (subst (λ l. AreSpaced l ys) (omega arith) rest))
    both ys rest false = spaced_lower r.end low _ (omega arith) rest

at-AreSpaced :
    (low : ℕ) (xs : List ℕ) (j y : ℕ) → AreSpaced low xs → get_elem? xs j ≡ some y → low ≤ y
at-AreSpaced low [] j y s e = cc
at-AreSpaced low (x ∷ xs) zero y (l, a, s) e = subst (λ o. low ≤ o) (some-injective e) l
  where
    some-injective : some x ≡ some y → x ≡ y
    some-injective e = cc
at-AreSpaced low (x ∷ xs) (suc j) y (l, a, s) e =
    let h = at-AreSpaced (x + 4096) xs j y s e in omega arith

apart-AreSpaced :
    (low : ℕ) (xs : List ℕ) (i j x y : ℕ)
    → AreSpaced low xs
    → i < j
    → get_elem? xs i ≡ some x
    → get_elem? xs j ≡ some y
    → x + 4096 ≤ y
apart-AreSpaced low [] i j x y s lt e f = cc
apart-AreSpaced low (z ∷ xs) zero zero x y s lt e f = elim lt [ ]
apart-AreSpaced low (z ∷ xs) zero (suc j) x y (l, a, s) lt e f =
    subst (λ o. o + 4096 ≤ y) (some-injective e) (at-AreSpaced (z + 4096) xs j y s f)
  where
    some-injective : some z ≡ some x → z ≡ x
    some-injective e = cc
apart-AreSpaced low (z ∷ xs) (suc i) zero x y s lt e f = elim lt [ ]
apart-AreSpaced low (z ∷ xs) (suc i) (suc j) x y (l, a, s) lt e f =
    apart-AreSpaced (z + 4096) xs i j x y s (omega arith) e f

-- The addresses of the steps are those of frames, and so are their own frames.
map-AreSpaced :
    (containing_address : ℕ → ℕ) (low : ℕ) (xs : List ℕ)
    → IsContaining containing_address
    → AreSpaced low xs
    → map containing_address xs ≡ xs
map-AreSpaced containing_address low [] c s = refl
map-AreSpaced containing_address low (x ∷ xs) c (l, a, s) =
    let (aligned, below, above) = c x in
    let same : containing_address x ≡ x = omega arith in
    let rest = map-AreSpaced containing_address (x + 4096) xs c s in
    ap (λ y. y ∷ map containing_address xs) same ∙ ap (λ ys. x ∷ ys) rest

at_steps :
    (n start i x : ℕ)
    → get_elem? (steps n start) i ≡ some x
    → (start ≤ x) × (x + 4096 ≤ start + 4096 * n)
unfolding steps
at_steps zero start i x e = cc
at_steps (suc n) start zero x e = let same = some-injective e in (omega arith, omega arith)
  where
    some-injective : some start ≡ some x → start ≡ x
    some-injective e = cc
at_steps (suc n) start (suc i) x e =
    let (l, h) = at_steps n (start + 4096) i x e in (omega arith, omega arith)

-- An element of joined lists is one of the first or of the second.
at_append :
    (xs ys : List ℕ) (i x : ℕ)
    → get_elem? (xs ++ ys) i ≡ some x
    → (get_elem? xs i ≡ some x) ⊎ ((j : ℕ) × (get_elem? ys j ≡ some x))
at_append [] ys i x e = inr (i, e)
at_append (z ∷ xs) ys zero x e = inl e
at_append (z ∷ xs) ys (suc i) x e = at_append xs ys i x e

at_frame_addresses :
    (low : ℕ) (rs : List MemoryRegion) (i x : ℕ)
    → AreOrdered low rs
    → get_elem? (frame_addresses rs) i ≡ some x
    → IsInside rs x
unfolding frame_addresses range_steps
at_frame_addresses low [] i x o e = cc
at_frame_addresses low (r ∷ rs) i x (l, le, s, f, o) e = elim (Bool-cases r.is_usable) [
  | inl chosen ↦
      elim (at_append (range_steps r) (frame_addresses rs) i x (
        ap
          (λ b. get_elem? (if b then range_steps r ++ frame_addresses rs else frame_addresses rs) i)
          (sym chosen)
        ∙ e)) [
          | inl here ↦
              (let (lower, upper) = at_steps _ r.start i x here in inl (chosen, lower, omega arith))
          | inr (j, there) ↦ inr (at_frame_addresses r.end rs j x o there)
        ]
  | inr skipped ↦ inr (
      at_frame_addresses r.end rs i x o (
        ap
          (λ b. get_elem? (if b then range_steps r ++ frame_addresses rs else frame_addresses rs) i)
          (sym skipped)
        ∙ e))
]

module _ (containing_address : ℕ → ℕ) where
  -- The i-th allocation from an allocator gives the frame that many places behind its next one, and no
  -- frame once they are used up.
  pub allocate_frames-usable_frames :
      (n i : ℕ) (a : FrameAllocator)
      → i < n
      → get_elem? (allocate_frames containing_address n a) i
        ≡ some (get_elem? (usable_frames containing_address a) (a.next + i))
  unfolding allocate_frames allocate_frame usable_frames
  allocate_frames-usable_frames zero i a lt = elim lt [ ]
  allocate_frames-usable_frames (suc n) zero a lt =
      ap (λ k. some (get_elem? (usable_frames containing_address a) k)) (omega arith)
  allocate_frames-usable_frames (suc n) (suc i) a lt =
      allocate_frames-usable_frames n i (record a { next = suc a.next }) (omega arith)
      ∙ ap (λ k. some (get_elem? (usable_frames containing_address a) k)) (omega arith)

  -- Where the regions of the memory map start and end at frames and stand one after the other, an
  -- allocator that starts with them gives every frame once: of two allocated frames, the later one
  -- starts at the end of the earlier one or behind it. Each lies inside a usable region.
  pub allocate_frames-IsInside :
      (n i j x y : ℕ) (rs : List MemoryRegion)
      → IsContaining containing_address
      → AreOrdered 0 rs
      → i < j
      → j < n
      → get_elem? (allocate_frames containing_address n (init rs)) i ≡ some (some x)
      → get_elem? (allocate_frames containing_address n (init rs)) j ≡ some (some y)
      → (x + 4096 ≤ y) × IsInside rs x × IsInside rs y
  unfolding usable_frames init
  allocate_frames-IsInside n i j x y rs c o lt le e f =
      let spaced = frame_addresses-AreSpaced 0 rs o in
      let xe = at i (allocate_frames-usable_frames n i (init rs) (omega arith)) spaced e in
      let ye = at j (allocate_frames-usable_frames n j (init rs) le) spaced f in
      (
        apart-AreSpaced 0 (frame_addresses rs) i j x y spaced lt xe ye,
        at_frame_addresses 0 rs i x o xe,
        at_frame_addresses 0 rs j y o ye,
      )
    where
      at :
          (k : ℕ) {z : ℕ} {frame : Option (Option ℕ)}
          → frame ≡ some (get_elem? (map containing_address (frame_addresses rs)) (0 + k))
          → AreSpaced 0 (frame_addresses rs)
          → frame ≡ some (some z)
          → get_elem? (frame_addresses rs) k ≡ some z
      at k {z} g s h =
          ap (λ xs. get_elem? xs k)
            (sym (map-AreSpaced containing_address 0 (frame_addresses rs) c s))
          ∙ ap (λ k. get_elem? (map containing_address (frame_addresses rs)) k) (zero_add k)
          ∙ inner (sym g ∙ h)
        where
          zero_add : (k : ℕ) → k ≡ 0 + k
          zero_add k = omega arith

          inner : {A : Type 0} {a b : A} → some a ≡ some b → a ≡ b
          inner e = cc

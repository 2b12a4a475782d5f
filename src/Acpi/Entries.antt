-- ===== src/Acpi/Entries.antt =====
-- src/acpi/acpi.rs: an entry of the table of interrupt controllers, as it stands in the memory.
use rucoonos.Prelude.{
  ℕ, suc, ◌+◌, ◌/◌, ◌%◌, ◌^◌, ◌≤◌, ◌≢◌, ◌≡◌, refl, ap, ◌∙◌, arith, List, [], ◌∷◌, ◌++◌, some, Bytes,
  length, IsU16, IsU32, ne→==,
}
use rucoonos.Prelude.Arrays.{get_elem?}
use rucoonos.Acpi.{
  ApicEntry, process_local, io_apic, io_apic_interrupt_source_override,
  local_apic_non_maskable_interrupts, read16, read32, entry_at,
}

abbrev le16 : ℕ → Bytes
le16 n = n % 256 ∷ n / 256 % 256 ∷ []

abbrev le32 : ℕ → Bytes → Bytes
le32 n rest = n % 256 ∷ n / 2 ^ 8 % 256 ∷ n / 2 ^ 16 % 256 ∷ n / 2 ^ 24 % 256 ∷ rest

-- An entry as it stands in the table, with further bytes behind its fields.
abbrev pub encode : ApicEntry → Bytes → Bytes
encode (process_local p a f) more = 0 ∷ (8 + length more) ∷ p ∷ a ∷ le32 f more
encode (io_apic i r a g) more = 1 ∷ (12 + length more) ∷ i ∷ r ∷ le32 a (le32 g more)
encode (io_apic_interrupt_source_override b i g f) more =
    2 ∷ (10 + length more) ∷ b ∷ i ∷ le32 g (le16 f ++ more)
encode (local_apic_non_maskable_interrupts p f l) more =
    4 ∷ (6 + length more) ∷ p ∷ f % 256 ∷ f / 256 % 256 ∷ l ∷ more
encode (ApicEntry.unknown id) more = id ∷ (2 + length more) ∷ more

-- The fields have their widths, and an unknown entry is of none of the known types.
abbrev pub IsEntry : ApicEntry → Type 0
IsEntry (process_local p a f) = IsU32 f
IsEntry (io_apic i r a g) = IsU32 a × IsU32 g
IsEntry (io_apic_interrupt_source_override b i g f) = IsU32 g × IsU16 f
IsEntry (local_apic_non_maskable_interrupts p f l) = IsU16 f
IsEntry (ApicEntry.unknown id) = (id ≢ 0) × (id ≢ 1) × (id ≢ 2) × (id ≢ 4)

abbrev pub AreEntries : List (ApicEntry × Bytes) → Type 0
AreEntries [] = Unit {0}
AreEntries ((e, more) ∷ es) = IsEntry e × AreEntries es

abbrev pub encode_all : List (ApicEntry × Bytes) → Bytes
encode_all [] = []
encode_all ((e, more) ∷ es) = encode e more ++ encode_all es

abbrev pub firsts : List (ApicEntry × Bytes) → List ApicEntry
firsts [] = []
firsts ((e, more) ∷ es) = e ∷ firsts es

-- The bytes stand in the memory from an address on.
abbrev pub Holds : (ℕ → ℕ) → ℕ → Bytes → Type 0
Holds memory a bytes = (i x : ℕ) → get_elem? bytes i ≡ some x → memory (a + i) ≡ x

module _ (memory : ℕ → ℕ) where
  at0 :
      (a : ℕ) (bytes : Bytes) (x : ℕ)
      → Holds memory a bytes
      → get_elem? bytes 0 ≡ some x
      → memory a ≡ x
  at0 a bytes x h e = ap memory (omega arith) ∙ h 0 x e

  read16_at :
      (a k v : ℕ) (bytes : Bytes)
      → Holds memory a bytes
      → IsU16 v
      → get_elem? bytes k ≡ some (v % 256)
      → get_elem? bytes (suc k) ≡ some (v / 256 % 256)
      → read16 memory (a + k) ≡ v
  read16_at a k v bytes h lt e f =
      let x : memory (a + k) ≡ v % 256 = h k _ e in
      let y : memory (a + k + 1) ≡ v / 256 % 256 = ap memory (omega arith) ∙ h (suc k) _ f in
      omega arith

  read32_at :
      (a k v : ℕ) (bytes : Bytes)
      → Holds memory a bytes
      → IsU32 v
      → get_elem? bytes k ≡ some (v % 256)
      → get_elem? bytes (suc k) ≡ some (v / 2 ^ 8 % 256)
      → get_elem? bytes (suc (suc k)) ≡ some (v / 2 ^ 16 % 256)
      → get_elem? bytes (suc (suc (suc k))) ≡ some (v / 2 ^ 24 % 256)
      → read32 memory (a + k) ≡ v
  read32_at a k v bytes h lt e f g i =
      let x : memory (a + k) ≡ v % 256 = h k _ e in
      let y : memory (a + k + 1) ≡ v / 2 ^ 8 % 256 = ap memory (omega arith) ∙ h (suc k) _ f in
      let z : memory (a + k + 2) ≡ v / 2 ^ 16 % 256 =
        ap memory (omega arith) ∙ h (suc (suc k)) _ g in
      let w : memory (a + k + 2 + 1) ≡ v / 2 ^ 24 % 256 =
        ap memory (omega arith) ∙ h (suc (suc (suc k))) _ i in
      omega arith

  -- An entry is read as it was written.
  pub entry_at-encode :
      (a : ℕ) (e : ApicEntry) (more rest : Bytes)
      → IsEntry e
      → Holds memory a (encode e more ++ rest)
      → entry_at memory a (memory a) ≡ e
  unfolding entry_at
  entry_at-encode a (process_local p i f) more rest v h =
      let bytes = encode (process_local p i f) more ++ rest in
      rw
        (
          at0 a bytes 0 h refl,
          h 2 p refl,
          h 3 i refl,
          read32_at a 4 f bytes h v refl refl refl refl,
        )
        refl
  entry_at-encode a (io_apic i r ad g) more rest (v, w) h =
      let bytes = encode (io_apic i r ad g) more ++ rest in
      rw
        (
          at0 a bytes 1 h refl,
          h 2 i refl,
          h 3 r refl,
          read32_at a 4 ad bytes h v refl refl refl refl,
          read32_at a 8 g bytes h w refl refl refl refl,
        )
        refl
  entry_at-encode a (io_apic_interrupt_source_override b i g f) more rest (v, w) h =
      let bytes = encode (io_apic_interrupt_source_override b i g f) more ++ rest in
      rw
        (
          at0 a bytes 2 h refl,
          h 2 b refl,
          h 3 i refl,
          read32_at a 4 g bytes h v refl refl refl refl,
          read16_at a 8 f bytes h w refl refl,
        )
        refl
  entry_at-encode a (local_apic_non_maskable_interrupts p f l) more rest v h =
      let bytes = encode (local_apic_non_maskable_interrupts p f l) more ++ rest in
      rw (at0 a bytes 4 h refl, h 2 p refl, read16_at a 3 f bytes h v refl refl, h 5 l refl) refl
  entry_at-encode a (ApicEntry.unknown id) more rest (n0, n1, n2, n4) h =
      rw
        (
          at0 a (encode (ApicEntry.unknown id) more ++ rest) id h refl,
          ne→== id 0 n0,
          ne→== id 1 n1,
          ne→== id 2 n2,
          ne→== id 4 n4,
        )
        refl

  -- The second byte of an entry is its length.
  pub length_at :
      (a : ℕ) (e : ApicEntry) (more rest : Bytes)
      → Holds memory a (encode e more ++ rest)
      → memory (a + 1) ≡ length (encode e more)
  length_at a (process_local p i f) more rest h = h 1 _ refl ∙ omega arith
  length_at a (io_apic i r ad g) more rest h = h 1 _ refl ∙ omega arith
  length_at a (io_apic_interrupt_source_override b i g f) more rest h = h 1 _ refl ∙ omega arith
  length_at a (local_apic_non_maskable_interrupts p f l) more rest h = h 1 _ refl ∙ omega arith
  length_at a (ApicEntry.unknown id) more rest h = h 1 _ refl ∙ omega arith

  pub nonempty : (e : ApicEntry) (more : Bytes) → 2 ≤ length (encode e more)
  nonempty (process_local p i f) more = omega arith
  nonempty (io_apic i r ad g) more = omega arith
  nonempty (io_apic_interrupt_source_override b i g f) more = omega arith
  nonempty (local_apic_non_maskable_interrupts p f l) more = omega arith
  nonempty (ApicEntry.unknown id) more = omega arith

-- ===== src/Acpi/Controllers.antt =====
-- src/acpi/acpi.rs: the iteration over the interrupt controllers.
use rucoonos.Prelude.{
  ℕ, zero, suc, ◌+◌, ◌^◌, ◌<◌, ◌≤◌, ◌≢◌, ◌≡◌, refl, sym, ap, ◌∙◌, arith, false, ◌==◌, if◌then◌else◌,
  List, [], ◌∷◌, ◌++◌, none, some, Bytes, length, ne→==, le→ltb, length-append,
}
use rucoonos.Prelude.Arrays.{get_elem?}
use rucoonos.Net.Wire.{Profile, debug, release}
use rucoonos.Hardware.Loop.{returned, running, ◌then◌}
use rucoonos.Acpi.{
  OffsetMapper, last_offset, ApicEntry, ApicEntryIter, sub, entry_at, next_entry, collect_entries,
}
use rucoonos.Acpi.Addresses.{add_raw-fits, translate-fits, last_offset_small}
use rucoonos.Acpi.Entries.{
  encode, IsEntry, AreEntries, encode_all, firsts, Holds, entry_at-encode, length_at, nonempty,
}

module _ (memory : ℕ → ℕ) where
  sub-append :
      (profile : Profile) (n m : ℕ) → n + m < 2 ^ 32 → sub 32 profile (n + m) n ≡ returned m
  unfolding sub
  sub-append debug n m lt = rw (le→ltb (n + m) n (omega arith)) (ap returned (omega arith))
  sub-append release n m lt = ap returned (omega arith)

  get_elem?-append : (xs ys : Bytes) (i : ℕ) → get_elem? (xs ++ ys) (length xs + i) ≡ get_elem? ys i
  get_elem?-append [] ys i = ap (λ k. get_elem? ys k) (omega arith)
  get_elem?-append (x ∷ xs) ys i =
      ap (λ k. get_elem? (x ∷ (xs ++ ys)) k) (shift (length xs)) ∙ get_elem?-append xs ys i
    where
      shift : (n : ℕ) → suc n + i ≡ suc (n + i)
      shift n = omega arith

  Holds-append :
      (a : ℕ) (xs ys : Bytes) → Holds memory a (xs ++ ys) → Holds memory (a + length xs) ys
  Holds-append a xs ys h i x e =
      ap memory (omega arith) ∙ h (length xs + i) x (get_elem?-append xs ys i ∙ e)

  next_entry-encode :
      (profile : Profile) (mapping : OffsetMapper) (ptr left : ℕ) (e : ApicEntry) (more : Bytes)
      (rest : Bytes)
      → IsEntry e
      → Holds memory (ptr + mapping.offset) (encode e more ++ rest)
      → left ≡ length (encode e more) + length rest
      → left < 2 ^ 32
      → ptr + mapping.offset + left + 8 < 2 ^ 64
      → next_entry memory profile mapping (record { ptr = ptr; remaining_size = left })
        ≡ returned
            (some (e, record { ptr = ptr + length (encode e more); remaining_size = length rest }))
  unfolding next_entry
  next_entry-encode profile mapping ptr left e more rest v h same lt fits =
      let entry = entry_at-encode memory (ptr + mapping.offset) e more rest v h in
      let size = length_at memory (ptr + mapping.offset) e more rest h in
      let some_left : (left == 0) ≡ false =
        ne→== left 0 (λ z. not_zero (length rest) (nonempty memory e more) (sym same ∙ z)) in
      let difference : sub 32 profile left (length (encode e more)) ≡ returned (length rest) =
        ap (λ n. sub 32 profile n (length (encode e more))) same
        ∙ sub-append profile (length (encode e more)) (length rest) (omega arith) in
      let start = translate-fits profile mapping ptr (omega arith) in
      let offset = last_offset_small memory (memory (ptr + mapping.offset)) in
      let fields =
        add_raw-fits profile (ptr + mapping.offset)
          (last_offset memory (memory (ptr + mapping.offset))) (omega arith) in
      let next =
        add_raw-fits profile ptr (memory (ptr + mapping.offset + 1)) (omega (arith, size)) in
      rw (some_left, start, fields, next, size, entry, difference) refl
    where
      not_zero : {n : ℕ} (m : ℕ) → 2 ≤ n → ¬ (n + m ≡ 0)
      not_zero m h e = omega arith

  -- Where the bytes of entries, each with any further bytes behind its fields, stand in the memory
  -- behind the iterator's pointer, their number of bytes is what remains, and no address exceeds 64 bits, the
  -- iteration ends after them in a debug and in a release build, and gives exactly these entries in their order.
  pub collect_entries-encode_all :
      (profile : Profile) (mapping : OffsetMapper) (es : List (ApicEntry × Bytes)) (ptr fuel : ℕ)
      → AreEntries es
      → Holds memory (ptr + mapping.offset) (encode_all es)
      → length (encode_all es) < 2 ^ 32
      → ptr + mapping.offset + length (encode_all es) + 8 < 2 ^ 64
      → length es < fuel
      → collect_entries memory fuel profile mapping
          (record { ptr = ptr; remaining_size = length (encode_all es) })
        ≡ returned (firsts es)
  unfolding collect_entries next_entry
  collect_entries-encode_all profile mapping es ptr zero v h lt fits le = elim le [ ]
  collect_entries-encode_all profile mapping [] ptr (suc fuel) v h lt fits le = refl
  collect_entries-encode_all profile mapping ((e, more) ∷ es) ptr (suc fuel) (v, vs) h lt fits le =
      let rest = encode_all es in
      let size = length-append (encode e more) rest in
      let first =
        next_entry-encode profile mapping ptr (length (encode e more ++ rest)) e more rest v h size
          lt fits in
      let tail : Holds memory (ptr + length (encode e more) + mapping.offset) rest = λ i x g.
        ap memory (omega arith)
        ∙ Holds-append (ptr + mapping.offset) (encode e more) rest h i x g in
      let others =
        collect_entries-encode_all profile mapping es (ptr + length (encode e more)) fuel vs tail
          (omega arith) (omega arith) (omega arith) in
      ap
        (λ r. r then λ r. elim r [
          | none ↦ returned []
          | some (entry, it') ↦
              collect_entries memory fuel profile mapping it' then λ es. returned (entry ∷ es)
        ])
        first
      ∙ ap (λ r. r then λ es. returned (e ∷ es)) others

  next_entry_empty :
      (profile : Profile) (mapping : OffsetMapper) (it : ApicEntryIter)
      → memory (it.ptr + mapping.offset + 1) ≡ 0
      → it.remaining_size ≢ 0
      → it.remaining_size < 2 ^ 32
      → it.ptr + mapping.offset + 8 < 2 ^ 64
      → next_entry memory profile mapping it
        ≡ returned (
            some (entry_at memory (it.ptr + mapping.offset) (memory (it.ptr + mapping.offset)), it))
  unfolding next_entry
  next_entry_empty profile mapping it empty ne lt fits =
      let difference : sub 32 profile it.remaining_size 0 ≡ returned it.remaining_size =
        ap (λ n. sub 32 profile n 0) (zero_add it.remaining_size)
        ∙ sub-append profile 0 it.remaining_size (omega arith) in
      let offset = last_offset_small memory (memory (it.ptr + mapping.offset)) in
      let fields =
        add_raw-fits profile (it.ptr + mapping.offset)
          (last_offset memory (memory (it.ptr + mapping.offset))) (omega arith) in
      rw
        (
          ne→== it.remaining_size 0 ne,
          translate-fits profile mapping it.ptr (omega arith),
          fields,
          add_raw-fits profile it.ptr (memory (it.ptr + mapping.offset + 1)) (omega (arith, empty)),
          empty,
          difference,
        )
        (ap
          (λ p. returned (
            some (
              entry_at memory (it.ptr + mapping.offset) (memory (it.ptr + mapping.offset)),
              record { ptr = p; remaining_size = it.remaining_size },
            )))
          (add_zero it.ptr))
    where
      zero_add : (n : ℕ) → n ≡ 0 + n
      zero_add n = omega arith

      add_zero : (n : ℕ) → n + 0 ≡ n
      add_zero n = omega arith

  -- An entry that says that it has no bytes is read again and again: the iteration never ends.
  pub collect_entries_running :
      (profile : Profile) (mapping : OffsetMapper) (it : ApicEntryIter) (fuel : ℕ)
      → memory (it.ptr + mapping.offset + 1) ≡ 0
      → it.remaining_size ≢ 0
      → it.remaining_size < 2 ^ 32
      → it.ptr + mapping.offset + 8 < 2 ^ 64
      → collect_entries memory fuel profile mapping it ≡ running
  unfolding collect_entries next_entry
  collect_entries_running profile mapping it zero empty ne lt fits = refl
  collect_entries_running profile mapping it (suc fuel) empty ne lt fits =
      ap
        (λ r. r then λ r. elim r [
          | none ↦ returned []
          | some (entry, it') ↦
              collect_entries memory fuel profile mapping it' then λ es. returned (entry ∷ es)
        ])
        (next_entry_empty profile mapping it empty ne lt fits)
      ∙ ap
          (λ r. r then λ es.
            returned
              (entry_at memory (it.ptr + mapping.offset) (memory (it.ptr + mapping.offset)) ∷ es))
          (collect_entries_running profile mapping it fuel empty ne lt fits)

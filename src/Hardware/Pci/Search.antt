-- ===== src/Hardware/Pci/Search.antt =====
-- src/hardware/pci.rs: the search for devices.
use rucoonos.Prelude.{
  ◌≢◌, ==_iff, ◌+◌, ◌*◌, ◌/◌, ◌%◌, ◌^◌, bit_and, if◌then◌else◌, false, eq→==, Bool, ℕ, zero, suc,
  true, false, ◌==◌, Bool-cases, ◌≡◌, ◌⊎◌, ◌↔◌, inl, inr, ◌<◌, ap, sym, refl, ◌∙◌, arith, List, [],
  ◌∷◌, Option, some, none,
}
use mathlib.Core.Path.{subst}
use mathlib.Core.List.Memᴰ
use mathlib.Core.List.{Memᴰ}
use mathlib.Core.Option.{some-injective}
use rucoonos.Prelude.Bits.{bit_and-mask}
use rucoonos.Hardware.Pci.Address.{address-sum}
use rucoonos.Hardware.Pci.{
  Device, DeviceClass, NetworkContollerClass, DisplayControllerClass, address, class_of, read_32bit,
  read_word, present, range, load_device, load_slots, load_buses, bruteforce, kept,
}

in_range : (n i : ℕ) → i < n → Memᴰ i (range n)
unfolding range
in_range zero i h = absurd (omega arith)
in_range (suc n) i h = elim (Bool-cases (i == n)) [
  | inl e ↦ Memᴰ.append_right (range n) (Memᴰ.head (last i n e))
  | inr e ↦ Memᴰ.append_left (n ∷ []) (in_range n i (below i n h e))
]
  where
    last : (i n : ℕ) → (i == n) ≡ true → i ≡ n
    last i n e = ground arith

    below : (i n : ℕ) → i < suc n → (i == n) ≡ false → i < n
    below i n h e = ground arith

range_below : (n i : ℕ) → Memᴰ i (range n) → i < n
unfolding range
range_below zero i m = absurd (Memᴰ.not-nil m)
range_below (suc n) i m = elim (Memᴰ.append_cases (range n) m) [
  | inl before ↦ let h = range_below n i before in omega arith
  | inr last ↦ let e = Memᴰ.eq_of_singleton last in omega arith
]

kept_later :
    (d : Device) (o : Option Device) (rest : List Device) → Memᴰ d rest → Memᴰ d (kept o rest)
unfolding kept
kept_later d none rest m = m
kept_later d (some e) rest m = Memᴰ.tail m

kept_first :
    (d : Device) (o : Option Device) (rest : List Device) → o ≡ some d → Memᴰ d (kept o rest)
unfolding kept
kept_first d none rest e = cc
kept_first d (some x) rest e = Memᴰ.head (some-injective d x (sym e))

kept_cases :
    (d : Device) (o : Option Device) (rest : List Device)
    → Memᴰ d (kept o rest)
    → (o ≡ some d) ⊎ Memᴰ d rest
unfolding kept
kept_cases d none rest m = inr m
kept_cases d (some x) rest m = elim (Memᴰ.cases_cons m) [
  | inl e ↦ inl (ap some (sym e))
  | inr later ↦ inr later
]

abbrev is_ethernet : DeviceClass → Bool
is_ethernet (DeviceClass.network_controller NetworkContollerClass.ethernet) = true
is_ethernet (DeviceClass.network_controller (NetworkContollerClass.unknown subclass)) = false
is_ethernet (DeviceClass.display_controller class) = false
is_ethernet (DeviceClass.unknown baseclass subclass) = false

module _ (config : ℕ → ℕ) where
  in_slots :
      (bus slot : ℕ) (d : Device) (slots : List ℕ)
      → load_device config bus slot ≡ some d
      → Memᴰ slot slots
      → Memᴰ d (load_slots config bus slots)
  unfolding load_slots
  in_slots bus slot d [] e m = absurd (Memᴰ.not-nil m)
  in_slots bus slot d (x ∷ slots) e m = elim (Memᴰ.cases_cons m) [
    | inl same ↦
        kept_first d (load_device config bus x) _ (ap (load_device config bus) (sym same) ∙ e)
    | inr later ↦ kept_later d (load_device config bus x) _ (in_slots bus slot d slots e later)
  ]

  of_slots :
      (bus : ℕ) (d : Device) (slots : List ℕ)
      → Memᴰ d (load_slots config bus slots)
      → (slot : ℕ) × Memᴰ slot slots × (load_device config bus slot ≡ some d)
  unfolding load_slots
  of_slots bus d [] m = absurd (Memᴰ.not-nil m)
  of_slots bus d (x ∷ slots) m = elim (kept_cases d (load_device config bus x) _ m) [
    | inl e ↦ (x, Memᴰ.head refl, e)
    | inr later ↦ let (slot, n, e) = of_slots bus d slots later in (slot, Memᴰ.tail n, e)
  ]

  in_buses :
      (bus : ℕ) (d : Device) (buses : List ℕ)
      → Memᴰ d (load_slots config bus (range 32))
      → Memᴰ bus buses
      → Memᴰ d (load_buses config buses)
  unfolding load_buses
  in_buses bus d [] h m = absurd (Memᴰ.not-nil m)
  in_buses bus d (x ∷ buses) h m = elim (Memᴰ.cases_cons m) [
    | inl same ↦ Memᴰ.append_left _ (subst (λ b. Memᴰ d (load_slots config b (range 32))) same h)
    | inr later ↦ Memᴰ.append_right (load_slots config x (range 32)) (in_buses bus d buses h later)
  ]

  of_buses :
      (d : Device) (buses : List ℕ)
      → Memᴰ d (load_buses config buses)
      → (bus : ℕ) × Memᴰ bus buses × Memᴰ d (load_slots config bus (range 32))
  unfolding load_buses
  of_buses d [] m = absurd (Memᴰ.not-nil m)
  of_buses d (x ∷ buses) m = elim (Memᴰ.append_cases (load_slots config x (range 32)) m) [
    | inl here ↦ (x, Memᴰ.head refl, here)
    | inr later ↦ let (bus, n, e) = of_buses d buses later in (bus, Memᴰ.tail n, e)
  ]

  bruteforce-load_device :
      (d : Device)
      → Memᴰ d (bruteforce config) ↔ (
          (bus : ℕ) × (slot : ℕ) × (bus < 255)
          × (slot < 32)
          × (load_device config bus slot ≡ some d))
  unfolding bruteforce
  bruteforce-load_device d = (
    λ m.
        let (bus, b, h) = of_buses d (range 255) m in
        let (slot, s, e) = of_slots bus d (range 32) h in
        (bus, slot, range_below 255 bus b, range_below 32 slot s, e),
    λ x.
        let (bus, slot, b, s, e) = x in
        in_buses bus d (range 255) (in_slots bus slot d (range 32) e (in_range 32 slot s))
          (in_range 255 bus b),
  )

  -- The word of a device's header at an offset, as the address of the bus counts it.
  abbrev pub header_word : ℕ → ℕ → ℕ → ℕ
  header_word bus slot offset = config (2 ^ 31 + bus * 2 ^ 16 + slot * 2 ^ 11 + offset)

  -- A device of the bus as its header describes it: the vendor, which is not 0xffff, and the number in the two
  -- halves of the first word, the command and the status in those of the second, and the revision and the
  -- class in the third.
  pub record IsDevice (bus slot : ℕ) (d : Device) : Type 0 where
    pub there : header_word bus slot 0 % 2 ^ 16 ≢ 0xffff
    pub same_bus : d.bus ≡ bus
    pub same_slot : d.slot ≡ slot
    pub func : d.func ≡ 0
    pub vendor_id : d.generic.vendor_id ≡ header_word bus slot 0 % 2 ^ 16
    pub id : d.generic.id ≡ header_word bus slot 0 / 2 ^ 16 % 2 ^ 16
    pub command : d.generic.command ≡ header_word bus slot 4 % 2 ^ 16
    pub status : d.generic.status ≡ header_word bus slot 4 / 2 ^ 16 % 2 ^ 16
    pub revision_id : d.generic.revision_id ≡ header_word bus slot 8 % 2 ^ 8
    pub ethernet :
        (d.generic.class ≡ DeviceClass.network_controller NetworkContollerClass.ethernet)
        ↔ (header_word bus slot 8 / 2 ^ 16 % 2 ^ 16 ≡ 0x0200)

  header_address :
      (bus slot offset : ℕ)
      → bus < 255
      → slot < 32
      → offset < 16
      → config (address bus slot 0 offset) ≡ header_word bus slot (offset / 4 * 4)
  header_address bus slot offset hb hs ho =
      ap config
        (address-sum bus slot 0 offset (omega arith) (omega arith) (omega arith) ∙ omega arith)

  class_of-ethernet :
      (b s : ℕ)
      → (class_of b s ≡ DeviceClass.network_controller NetworkContollerClass.ethernet)
        ↔ ((b ≡ 2) × (s ≡ 0))
  unfolding class_of
  class_of-ethernet b s = (λ e. by_code (ap is_ethernet e), λ (e, f). rw (e, f) refl)
    where
      by_tests :
          (x y z w : Bool)
          → is_ethernet (
              if x
              then DeviceClass.network_controller
                  (if y then NetworkContollerClass.ethernet else NetworkContollerClass.unknown s)
              else if z
              then DeviceClass.display_controller (
                  if w
                  then DisplayControllerClass.vga_compatible
                  else DisplayControllerClass.unknown s)
              else DeviceClass.unknown b s)
            ≡ true
          → (x ≡ true) × (y ≡ true)
      by_tests true true z w h = (refl, refl)
      by_tests true false z w h = cc
      by_tests false y true w h = cc
      by_tests false y false w h = cc

      by_code : is_ethernet (class_of b s) ≡ true → (b ≡ 2) × (s ≡ 0)
      by_code h =
          let (two, first) = by_tests (b == 2) (s == 0) (b == 3) (s == 0) (unfold class_of in h) in
          ((==_iff b 2).0 two, (==_iff s 0).0 first)

  vendor-header_word :
      (bus slot : ℕ)
      → bus < 255
      → slot < 32
      → read_word config bus slot 0 0 ≡ header_word bus slot 0 % 2 ^ 16
  unfolding read_word
  vendor-header_word bus slot hb hs =
      let first = header_address bus slot 0 hb hs (omega arith) in bit_and-mask 16 _ ∙ omega arith

  present-IsDevice :
      (bus slot : ℕ)
      → bus < 255
      → slot < 32
      → header_word bus slot 0 % 2 ^ 16 ≢ 0xffff
      → IsDevice bus slot (present config bus slot (read_word config bus slot 0 0))
  unfolding read_word read_32bit present
  present-IsDevice bus slot hb hs there =
      let first = header_address bus slot 0 hb hs (omega arith) in
      let half = header_address bus slot 2 hb hs (omega arith) in
      let second = header_address bus slot 4 hb hs (omega arith) in
      let third = header_address bus slot 8 hb hs (omega arith) in
      record {
        there = there;
        same_bus = refl;
        same_slot = refl;
        func = refl;
        vendor_id = vendor-header_word bus slot hb hs;
        id = bit_and-mask 16 _ ∙ omega arith;
        command = bit_and-mask 16 _ ∙ omega arith;
        status = omega arith;
        revision_id = bit_and-mask 8 _ ∙ omega arith;
        ethernet =
            let (to, from) =
              class_of-ethernet (config (address bus slot 0 8) / 2 ^ 24 % 2 ^ 8)
                (bit_and (config (address bus slot 0 8) / 2 ^ 16) 0xff) in
            let low = bit_and-mask 8 (config (address bus slot 0 8) / 2 ^ 16) in
            (
              λ e. let (base, sub) = to e in omega arith,
              λ h. from (omega arith, low ∙ omega arith),
            );
      }

  load_device-IsDevice :
      (bus slot : ℕ) (d : Device)
      → bus < 255
      → slot < 32
      → load_device config bus slot ≡ some d
      → IsDevice bus slot d
  unfolding load_device
  load_device-IsDevice bus slot d hb hs e = tested (read_word config bus slot 0 0 == 0xffff) refl e
    where
      clash : true ≡ false → ⊥
      clash e = cc

      tested :
          (b : Bool)
          → (read_word config bus slot 0 0 == 0xffff) ≡ b
          → (if b then none else some (present config bus slot (read_word config bus slot 0 0)))
            ≡ some d
          → IsDevice bus slot d
      tested true h e = cc
      tested false h e = subst (IsDevice bus slot) (some-injective _ d e) (
          present-IsDevice bus slot hb hs (λ z. clash (
            sym
              (eq→== (read_word config bus slot 0 0) 0xffff (vendor-header_word bus slot hb hs ∙ z))
            ∙ h)))

  load_device-none :
      (bus slot : ℕ)
      → bus < 255
      → slot < 32
      → (load_device config bus slot ≡ none) ↔ (header_word bus slot 0 % 2 ^ 16 ≡ 0xffff)
  unfolding load_device
  load_device-none bus slot hb hs = (
    λ e. sym (vendor-header_word bus slot hb hs) ∙ (==_iff _ 0xffff).0 (tested _ e),
    λ h.
        rw (eq→== (read_word config bus slot 0 0) 0xffff (vendor-header_word bus slot hb hs ∙ h))
          refl,
  )
    where
      tested :
          (b : Bool)
          → (if b then none else some (present config bus slot (read_word config bus slot 0 0)))
            ≡ none
          → b ≡ true
      tested true e = refl
      tested false e = cc

  -- The search gives the devices that are loaded from the slots below 32 of the buses below 255, and no others.
  -- Each is as the words of its header say: its vendor and its number, its command and status, its
  -- revision, and whether it is an Ethernet card. No device is loaded from such a slot exactly if the
  -- vendor there reads 0xffff.
  pub bruteforce_iff :
      (d : Device) (bus slot : ℕ)
      → bus < 255
      → slot < 32
      → (Memᴰ d (bruteforce config) ↔ (
          (bus : ℕ) × (slot : ℕ) × (bus < 255)
          × (slot < 32)
          × (load_device config bus slot ≡ some d)
          × IsDevice bus slot d))
        × ((load_device config bus slot ≡ none) ↔ (header_word bus slot 0 % 2 ^ 16 ≡ 0xffff))
  bruteforce_iff d bus slot hb hs = (
    (
      λ m.
          let (bus, slot, b, s, e) = (bruteforce-load_device d).0 m in
          (bus, slot, b, s, e, load_device-IsDevice bus slot d b s e),
      λ (bus, slot, b, s, e, _). (bruteforce-load_device d).1 (bus, slot, b, s, e),
    ),
    load_device-none bus slot hb hs,
  )

-- ===== src/Net/Extension/Setup.antt =====
-- src/extensions/networking.rs: what the set-up gives the handler and the interrupt handler.
use rucoonos.Prelude.{
  ℕ, suc, ◌<◌, ◌≡◌, refl, sym, ap, ◌∙◌, Bool, true, false, ◌&&◌, ◌==◌, if◌then◌else◌, List, [], ◌∷◌,
  All, bit_and, ◌/◌, ◌%◌, ◌^◌, Option, none, some, eq→==, ==_iff,
}
use rucoonos.Net.Wire.{Array6}
use rucoonos.Net.Handler.State.{Device, Metadata, DhcpExchange}
use rucoonos.Hardware.Loop.{Exec, returned, ◌then◌, then_assoc}
use rucoonos.Hardware.Pci
use rucoonos.Hardware.Pci.{HeaderType, BaseAddressRegister}
use rucoonos.Hardware.Driver.{Card}
use rucoonos.Hardware.Driver.Pending.{IsValid}
use rucoonos.Hardware.Driver.Start.{any_read, enable_interrupts, read_mac_address}
use rucoonos.Hardware.Driver.Start.Registers.{init-IsValid}
use rucoonos.Hardware.Driver.Start.Eeprom.{mac_of, read_mac_address-words}
use rucoonos.Net.Extension.{Machine, new_at, new, device_of, found, added, setup}

-- An Ethernet card of the type that the driver is for: its vendor and its number, and a header of the generic
-- type.
abbrev pub IsGeneric : HeaderType → Type 0
IsGeneric (HeaderType.unknown ty) = ⊥
IsGeneric (HeaderType.generic bars pointer line) = Unit {0}

abbrev pub IsCard : Pci.Device → Type 0
IsCard d = (d.generic.vendor_id ≡ 0x8086) × (d.generic.id ≡ 0x100e) × IsGeneric d.header_type

-- A device and its card fit together: the same number, an address that is the card's, no IP address, an
-- exchange that has not begun, and a valid card.
abbrev pub Fits : (mac : ℕ → Array6) → ℕ → Device × Card → Type 0
Fits mac id (d, c) =
    (d.id ≡ id)
    × (c.id ≡ d.id)
    × (d.metadata.mac ≡ mac d.id)
    × (d.metadata.ip ≡ none)
    × (d.metadata.dhcp ≡ DhcpExchange.initial)
    × IsValid c

-- Of the devices on the bus, numbered from a number on, just those that are cards are set up, each under its
-- own number.
pub data AreSetUp (mac : ℕ → Array6) : ℕ → List Pci.Device → List (Device × Card) → Type 0 where
  none_left : {id : ℕ} → AreSetUp mac id [] []
  passed_over :
      {id : ℕ} {d : Pci.Device} {ds : List Pci.Device} {xs : List (Device × Card)}
      → ¬ IsCard d
      → AreSetUp mac (suc id) ds xs
      → AreSetUp mac id (d ∷ ds) xs
  set_up :
      {id : ℕ} {d : Pci.Device} {ds : List Pci.Device} {x : Device × Card}
      {xs : List (Device × Card)}
      → IsCard d
      → Fits mac id x
      → AreSetUp mac (suc id) ds xs
      → AreSetUp mac id (d ∷ ds) (x ∷ xs)

-- The first base address of a card is a range of memory; other headers are passed over.
abbrev pub IsMemoryMapped : HeaderType → Type 0
IsMemoryMapped (HeaderType.unknown ty) = Unit {0}
IsMemoryMapped (HeaderType.generic [] pointer line) = ⊥
IsMemoryMapped (HeaderType.generic (BaseAddressRegister.io_space address ∷ bars) pointer line) = ⊥
IsMemoryMapped
      (HeaderType.generic (BaseAddressRegister.memory_space address p ty ∷ bars) pointer line) =
    Unit {0}

-- The memory for a card is mapped below 2^64, and the card has a memory, whose words are there with the
-- answer of the number `ready`.
pub record IsReady (translate_addr : ℕ → Option ℕ) (m : Machine) (ready : ℕ → ℕ) (fuel : ℕ)
    : Type 0 where
  pub boxes : (i : ℕ) → (addr : ℕ) × (translate_addr (m.box i) ≡ some addr)
  pub rx : (addr : ℕ) × (translate_addr m.rx_ptr ≡ some addr)
  pub tx : (addr : ℕ) × (translate_addr m.tx_ptr ≡ some addr) × (addr < 2 ^ 64)
  pub memory : any_read m.reads 1000 0 ≡ true
  pub waits : (i j : ℕ) → j < ready i → bit_and (m.words i j) 16 ≡ 0
  pub answers : (i : ℕ) → (bit_and (m.words i (ready i)) 16 == 0) ≡ false
  pub soon : (i : ℕ) → ready i < fuel

clash : true ≡ false → ⊥
clash e = cc

module _ (translate_addr : ℕ → Option ℕ) (machine : ℕ → Machine) (ready : ℕ → ℕ → ℕ) (fuel : ℕ)
    (is_ready : (id : ℕ) → IsReady translate_addr (machine id) (ready id) fuel) where
  -- The hardware address that a card's memory holds.
  abbrev pub mac_at : ℕ → Array6
  mac_at id = mac_of (λ i. (machine id).words i (ready id i) / 2 ^ 16 % 2 ^ 16)

  -- What is found at a device with a number, which is a card or not.
  abbrev IsFound : ℕ → Type 0 → Option (Device × Card) → Type 0
  IsFound id card none = ¬ card
  IsFound id card (some x) = card × Fits mac_at id x

  new_at-device_of :
      (id address ty : ℕ) (p : Bool)
      → (x : Device × Card) × ((new_at translate_addr machine fuel id
              (BaseAddressRegister.memory_space address p ty)
            then λ r. device_of translate_addr machine fuel id (some r))
          ≡ returned (some x))
        × Fits mac_at id x
  unfolding new_at device_of enable_interrupts
  new_at-device_of id address ty p =
      let m = machine id in
      let h = is_ready id in
      let (rx, e) = h.rx in
      let (tx, f, lt) = h.tx in
      let (c, i, v, n, has, _, _, _, _, _, _, _) =
        init-IsValid translate_addr m.reads id m.box m.rx_ptr m.tx_ptr rx tx h.boxes e f lt in
      let c1 : Card = enable_interrupts c in
      let (ws, r) =
        read_mac_address-words m.words c1 (ready id) fuel (has ∙ h.memory) h.waits h.answers
          h.soon in
      let c2 : Card = record c1 { writes = ws } in
      let (ws', q) =
        read_mac_address-words m.words c2 (ready id) fuel (has ∙ h.memory) h.waits h.answers
          h.soon in
      let c3 : Card = record c2 { writes = ws' } in
      let meta : Array6 → Metadata =
        λ mac. record { mac = mac; ip = none; dhcp = DhcpExchange.initial } in
      let last : Card × Metadata → Exec (Option (Device × Card)) =
        λ r. device_of translate_addr machine fuel id (some r) in
      (
        (record { id = c3.id; packet_queue = []; metadata = meta (mac_at id) }, c3),
        ap
              (λ x.
                (x then λ card.
                read_mac_address fuel m.words (enable_interrupts card) then λ (mac, card').
                returned (card', meta mac))
                then last)
              i
            ∙ ap (λ x. (x then λ (mac, card'). returned (card', meta mac)) then last) r
            ∙ ap
                (λ x. x then λ (mac, card'). returned (
                  some (
                    record { id = card'.id; packet_queue = []; metadata = meta (mac_at id) },
                    card',
                  )))
                q,
        (
          n,
          refl,
          ap mac_at (sym n),
          refl,
          refl,
          record {
            rx_ring = v.rx_ring;
            rx_buffers = v.rx_buffers;
            cur_rx = v.cur_rx;
            tx_ring = v.tx_ring;
            tx_buffers = v.tx_buffers;
            cur_tx = v.cur_tx;
            last_reclaimed_tx = v.last_reclaimed_tx;
          },
        ),
      )

  new-IsFound :
      (id : ℕ) (header : HeaderType)
      → IsMemoryMapped header
      → (r : Option (Device × Card)) × ((new translate_addr machine fuel id header
            then device_of translate_addr machine fuel id)
          ≡ returned r)
        × IsFound id (IsGeneric header) r
  unfolding new device_of
  new-IsFound id (HeaderType.unknown ty) m = (none, refl, λ h. h)
  new-IsFound id (HeaderType.generic [] pointer line) m = absurd m
  new-IsFound id (HeaderType.generic (BaseAddressRegister.io_space address ∷ bars) pointer line) m =
      absurd m
  new-IsFound id
        (HeaderType.generic (BaseAddressRegister.memory_space address p ty ∷ bars) pointer line) m =
      let (x, e, h) = new_at-device_of id address ty p in
      let bar = BaseAddressRegister.memory_space address p ty in
      (
        some x,
        then_assoc (new_at translate_addr machine fuel id bar) (λ r. returned (some r))
              (device_of translate_addr machine fuel id)
            ∙ e,
        (tt, h),
      )

  found-IsFound :
      (id : ℕ) (d : Pci.Device)
      → IsMemoryMapped d.header_type
      → (r : Option (Device × Card)) × (found translate_addr machine fuel id d ≡ returned r)
        × IsFound id (IsCard d) r
  unfolding found
  found-IsFound id d mapped =
      both (d.generic.id == 0x100e) (d.generic.vendor_id == 0x8086) refl refl
    where
      named :
          (r : Option (Device × Card))
          → (d.generic.id ≡ 0x100e)
          → (d.generic.vendor_id ≡ 0x8086)
          → IsFound id (IsGeneric d.header_type) r
          → IsFound id (IsCard d) r
      named none e f h = λ (_, _, g). h g
      named (some x) e f (g, h) = ((f, e, g), h)

      both :
          (a b : Bool)
          → (d.generic.id == 0x100e) ≡ a
          → (d.generic.vendor_id == 0x8086) ≡ b
          → (r : Option (Device × Card)) × ((if a && b
                then new translate_addr machine fuel id d.header_type
                then device_of translate_addr machine fuel id
                else returned none)
              ≡ returned r)
            × IsFound id (IsCard d) r
      both false b e f = (none, refl, λ (_, g, _). clash (sym (eq→== d.generic.id 0x100e g) ∙ e))
      both true false e f =
          (none, refl, λ (g, _, _). clash (sym (eq→== d.generic.vendor_id 0x8086 g) ∙ f))
      both true true e f =
          let (r, q, h) = new-IsFound id d.header_type mapped in
          (r, q, named r ((==_iff _ 0x100e).0 e) ((==_iff _ 0x8086).0 f) h)

  added-AreSetUp :
      (id : ℕ) (d : Pci.Device) (ds : List Pci.Device) (r : Option (Device × Card))
      (rest : List (Device × Card))
      → IsFound id (IsCard d) r
      → AreSetUp mac_at (suc id) ds rest
      → AreSetUp mac_at id (d ∷ ds) (added translate_addr machine fuel r rest)
  added-AreSetUp id d ds none rest h s = AreSetUp.passed_over h s
  added-AreSetUp id d ds (some x) rest (h, k) s = AreSetUp.set_up h k s

  -- Where each device on the bus with a header of the generic type has a range of memory as its first base
  -- address, memory that is mapped below 2^64, and a memory whose words are there after some of its
  -- answers, the set-up of the network cards ends. Just the devices of vendor 0x8086 and number 0x100e with
  -- a generic header are set up, in their order. Each becomes a pair of a device and a card that have the
  -- device's number in the search: the device has the hardware address of its card, no IP address, and an
  -- exchange that has not begun, and the card is valid.
  pub setup-AreSetUp :
      (id : ℕ) (ds : List Pci.Device)
      → All (λ d. IsMemoryMapped d.header_type) ds
      → (xs : List (Device × Card)) × (setup translate_addr machine fuel id ds ≡ returned xs)
        × AreSetUp mac_at id ds xs
  unfolding setup
  setup-AreSetUp id [] mapped = ([], refl, AreSetUp.none_left)
  setup-AreSetUp id (d ∷ ds) (m, mapped) =
      let (r, e, h) = found-IsFound id d m in
      let (xs, f, s) = setup-AreSetUp (suc id) ds mapped in
      (
        added translate_addr machine fuel r xs,
        ap
              (λ x. x then λ r. setup translate_addr machine fuel (suc id) ds then λ rest.
                returned (added translate_addr machine fuel r rest))
              e
            ∙ ap (λ x. x then λ rest. returned (added translate_addr machine fuel r rest)) f,
        added-AreSetUp id d ds r xs h s,
      )

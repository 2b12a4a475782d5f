-- ===== src/Net/Extension.antt =====
-- src/extensions/networking.rs, networking/interrupt.rs and src/hardware/device.rs: the network cards that
-- are found on the PCI bus, with their devices for the handler. What the memory and each card give is a
-- parameter; the switch of a card to bus mastering and the statics are left out.
pub mod Setup
pub mod Statics
use rucoonos.Prelude.{
  ℕ, suc, Bool, true, false, ◌&&◌, ◌==◌, if◌then◌else◌, List, [], ◌∷◌, Option, none, some, Bytes,
}
use rucoonos.Net.Wire.{Array6}
use rucoonos.Net.Handler.State.{Device, Metadata, DhcpExchange}
use rucoonos.Hardware.Loop.{Exec, returned, panicked, ◌then◌}
use rucoonos.Hardware.Pci
use rucoonos.Hardware.Pci.{HeaderType, BaseAddressRegister}
use rucoonos.Hardware.Registers.{InterruptCauseRegister}
use rucoonos.Hardware.Driver.{Card, handle_interrupt}
use rucoonos.Hardware.Driver.Start.{init, enable_interrupts, read_mac_address}

-- What the machine gives for the card with a number: the memory that is allocated for it, the answers to
-- the test for its memory, and those to the requests for words of it.
pub record Machine : Type 0 where
  pub box : ℕ → ℕ
  pub rx_ptr : ℕ
  pub tx_ptr : ℕ
  pub reads : ℕ → ℕ
  pub words : ℕ → ℕ → ℕ

module _ (translate_addr : ℕ → Option ℕ) (machine : ℕ → Machine) (fuel : ℕ) where
  -- `E1000Driver::new` for a first base address: a range of ports ends in the `todo!` of `Coms`.
  pub new_at : ℕ → BaseAddressRegister → Exec (Card × Metadata)
  new_at id (BaseAddressRegister.io_space address) = panicked
  new_at id (BaseAddressRegister.memory_space address prefetchable ty) =
      init translate_addr (machine id).reads id (machine id).box (machine id).rx_ptr
        (machine id).tx_ptr
      then λ card.
          read_mac_address fuel (machine id).words (enable_interrupts card) then λ (mac, card').
          returned (card', record { mac = mac; ip = none; dhcp = DhcpExchange.initial })

  -- `E1000Driver::new`, `none` for `Err(())`.
  pub new : ℕ → HeaderType → Exec (Option (Card × Metadata))
  unfolding new_at
  new id (HeaderType.unknown ty) = returned none
  new id (HeaderType.generic [] pointer line) = panicked
  new id (HeaderType.generic (bar ∷ bars) pointer line) = new_at id bar then λ r. returned (some r)

  -- The device and the card of a driver. The hardware address is read once more, for a field of the
  -- device that the handler does not use.
  pub device_of : ℕ → Option (Card × Metadata) → Exec (Option (Device × Card))
  device_of id none = returned none
  device_of id (some (card, meta)) =
      read_mac_address fuel (machine id).words card then λ (mac, card').
      returned (some (record { id = card'.id; packet_queue = []; metadata = meta }, card'))

  -- The closure of the `filter_map` in `NetworkExtension::setup`.
  pub found : ℕ → Pci.Device → Exec (Option (Device × Card))
  unfolding new device_of
  found id d =
      if (d.generic.id == 0x100e) && (d.generic.vendor_id == 0x8086)
      then new id d.header_type
      then device_of id
      else returned none

  abbrev pub added : Option (Device × Card) → List (Device × Card) → List (Device × Card)
  added none rest = rest
  added (some r) rest = r ∷ rest

  -- `NetworkExtension::setup` up to its `unzip`, from the device with the number `id` on.
  pub setup : ℕ → List Pci.Device → Exec (List (Device × Card))
  unfolding found
  setup id [] = returned []
  setup id (d ∷ ds) = found id d then λ r. setup (suc id) ds then λ rest. returned (added r rest)

-- `handles_interrupt` of the card, and the loop over the cards in interrupt.rs: `devices` are the cards
-- with what is read from each.
pub handles_interrupt : ℕ → Bool
handles_interrupt irq_offset = irq_offset == 0xb

module _ (memory : ℕ → ℕ → Bytes) (translate_addr : ℕ → Option ℕ) (fuel : ℕ) where
  pub handle_interrupts : List (Card × (InterruptCauseRegister × (ℕ × ℕ))) → Exec (List Card)
  unfolding handles_interrupt
  handle_interrupts [] = returned []
  handle_interrupts ((card, (cause, (head, tail))) ∷ devices) =
      (if handles_interrupt 0xb
        then handle_interrupt memory translate_addr fuel cause head tail card
        else returned card)
      then λ card'. handle_interrupts devices then λ rest. returned (card' ∷ rest)

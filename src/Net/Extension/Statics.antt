-- ===== src/Net/Extension/Statics.antt =====
-- src/extensions/networking.rs and networking/interrupt.rs: the statics that the network extension sets up
-- one after the other, and the interrupt that reads them. The sender of a device's packet queue is given by
-- the number of the device.
pub mod Order
use rucoonos.Prelude.{
  ℕ, zero, suc, Bool, true, false, List, [], ◌∷◌, map, Option, none, some, Bytes, take,
  if◌then◌else◌,
}
use rucoonos.Net.Handler.State.{Device}
use rucoonos.Net.IpMap
use rucoonos.Net.IpMap.{IpMap}
use rucoonos.Hardware.Loop.{Exec, returned, panicked, ◌then◌}
use rucoonos.Hardware.Registers.{InterruptCauseRegister}
use rucoonos.Hardware.Driver.{Card}
use rucoonos.Net.Extension.{handle_interrupts}

-- `INT_DEVICES`, `DEVICE_QUEUES`, `HANDLE_QUEUE` and `IPS`, and whether the interrupt is registered.
pub record Statics : Type 0 where
  pub int_devices : Option (List Card)
  pub device_queues : Option (List (ℕ × ℕ))
  pub handle_queue : Bool
  pub ips : Option IpMap
  pub registered : Bool

abbrev pub unset : Statics
unset = record {
  int_devices = none;
  device_queues = none;
  handle_queue = false;
  ips = none;
  registered = false;
}

-- `spin::Once::call_once`
abbrev pub call_once {ℓ} : {A : Type ℓ} → Option A → A → Option A
call_once none a = some a
call_once (some old) a = some old

pub init_devices : List Card → Statics → Statics
init_devices devices s = record s { int_devices = call_once s.int_devices devices }

-- What `NetworkExtension::setup` does behind its `unzip`, in its order.
pub publish : List (Device × Card) → List (Statics → Statics)
unfolding init_devices
publish xs =
    init_devices (map (λ (x : Device × Card). x.1) xs)
    ∷ (λ s. record s {
      device_queues = call_once s.device_queues (map (λ (x : Device × Card). (x.0.id, x.0.id)) xs);
    })
    ∷ (λ s. record s { handle_queue = true })
    ∷ (λ s. record s { ips = call_once s.ips IpMap.new })
    ∷ (λ s. record s { registered = true })
    ∷ []

abbrev pub apply_all : List (Statics → Statics) → Statics → Statics
apply_all [] s = s
apply_all (f ∷ fs) s = apply_all fs (f s)

-- The statics when `k` of the steps are done.
pub after : ℕ → List (Device × Card) → Statics
unfolding publish
after k xs = apply_all (take k (publish xs)) unset

-- `NetworkHandle::obtain`
pub obtain : Statics → Option (List (ℕ × ℕ))
obtain s = s.device_queues

-- What an interrupt reads from each card: the cause, the head and the tail.
abbrev pub Reads : Type 0
Reads = InterruptCauseRegister × (ℕ × ℕ)

abbrev pub with_reads : (ℕ → Reads) → ℕ → List Card → List (Card × Reads)
with_reads reads n [] = []
with_reads reads n (c ∷ cs) = (c, reads n) ∷ with_reads reads (suc n) cs

module _ (memory : ℕ → ℕ → Bytes) (translate_addr : ℕ → Option ℕ) (fuel : ℕ)
    (reads : ℕ → Reads) where
  pub handled : Bool → Option (List Card) → Exec (Option (List Card))
  handled locked none = panicked
  handled true (some devices) = returned (some devices)
  handled false (some devices) =
      handle_interrupts memory translate_addr fuel (with_reads reads 0 devices) then λ cs.
      returned (some cs)

  -- `handle_interrupt` of interrupt.rs: without the queue nothing is done, and without the devices the
  -- `expect` panics; `locked` says that someone else holds the lock of the devices.
  pub network_interrupt : Bool → Statics → Exec Statics
  unfolding handled
  network_interrupt locked s =
      if s.handle_queue
      then (handled locked s.int_devices then λ devices.
          returned (record s { int_devices = devices }))
      else returned s

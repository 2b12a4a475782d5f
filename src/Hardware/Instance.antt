-- ===== src/Hardware/Instance.antt =====
-- src/hardware.rs: what the running kernel knows of its hardware. The values of the boot loader are
-- optional; the lock of the devices is left out.
pub mod Devices
use rucoonos.Prelude.{ℕ, Bool, true, false, if◌then◌else◌, List, [], ◌∷◌, Option, none, some, Bytes}
use rucoonos.Net.Wire.{Array4, Array6, Profile}
use rucoonos.Net.Handler.State
use rucoonos.Hardware.Loop.{Exec, returned, panicked, ◌then◌}
use rucoonos.Hardware.Pci
use rucoonos.Hardware.Pci.{bruteforce, DeviceClass, NetworkContollerClass}
use rucoonos.Acpi.{
  OffsetMapper, SdtHeader, RsdtIter, PhysicalPtr, AcipEntry, load_rsdp, load_rsdt, load_entry,
  collect_tables,
}

-- `device::Device`, with the device of the network handler.
pub data Device : Type 0 where
  network : State.Device → Device
  graphics : Device

-- The sender of the packet queue is given by the number of its device.
pub data DeviceHandle : Type 0 where
  network : (mac : Array6) (ip : Option Array4) (p_queue : ℕ) → DeviceHandle
  graphics : DeviceHandle

-- `Hardware::setup_pci`: the match on the class, and the closure that gives `None`.
pub is_ethernet : DeviceClass → Bool
is_ethernet (DeviceClass.network_controller NetworkContollerClass.ethernet) = true
is_ethernet (DeviceClass.network_controller (NetworkContollerClass.unknown subclass)) = false
is_ethernet (DeviceClass.display_controller class) = false
is_ethernet (DeviceClass.unknown baseclass subclass) = false

abbrev pub loaded : Pci.Device → Option Device
loaded header = none

pub filter_map : List Pci.Device → List Device
filter_map [] = []
filter_map (d ∷ ds) =
    let rest = filter_map ds in
    if is_ethernet d.generic.class
    then elim (loaded d) [ none ↦ rest | some device ↦ device ∷ rest ]
    else rest

pub setup_pci : (config : ℕ → ℕ) → Option ℕ → List Device
unfolding filter_map
setup_pci config none = []
setup_pci config (some offset) = filter_map (bruteforce config)

-- `devices.iter().find(|d| predicate(d))`
pub find : (Device → Bool) → List Device → Option Device
find predicate [] = none
find predicate (d ∷ ds) = let later = find predicate ds in if predicate d then some d else later

pub handle_of : Device → DeviceHandle
handle_of (Device.network d) = DeviceHandle.network d.metadata.mac d.metadata.ip d.id
handle_of Device.graphics = DeviceHandle.graphics

pub find_device_handle : (Device → Bool) → List Device → Option DeviceHandle
unfolding find handle_of
find_device_handle predicate devices = elim (find predicate devices) [
  | none ↦ none
  | some d ↦ some (handle_of d)
]

pub find_apply_device {ℓ} : {R : Type ℓ} → (Device → Bool) → (Device → R) → List Device → Option R
unfolding find
find_apply_device predicate apply devices = elim (find predicate devices) [
  | none ↦ none
  | some d ↦ some (apply d)
]

-- `with_networking_device`, with the changed devices.
pub with_networking_device : (State.Device → State.Device) → List Device → List Device
with_networking_device func [] = []
with_networking_device func (Device.network d ∷ ds) =
    Device.network (func d) ∷ with_networking_device func ds
with_networking_device func (Device.graphics ∷ ds) =
    Device.graphics ∷ with_networking_device func ds

module _ (memory : ℕ → ℕ) (is_utf8 : Bytes → Bool) (profile : Profile) where
  -- `Hardware::rsdp_acip_setup`
  unfoldable pub rsdp_acip_setup :
      Option ℕ → Option ℕ → Exec (Option ((SdtHeader × RsdtIter) × OffsetMapper))
  rsdp_acip_setup none offset = returned none
  rsdp_acip_setup (some raw_addr) none = panicked
  rsdp_acip_setup (some raw_addr) (some offset) =
      let mapping : OffsetMapper = record { offset = offset } in
      load_rsdp memory profile raw_addr mapping then λ rsdp.
      load_rsdt memory is_utf8 profile rsdp mapping then λ rsdt. returned (some (rsdt, mapping))

  -- The map of `Hardware::get_rsdt_entries` over the tables that the iterator gives.
  pub load_entries : OffsetMapper → List (SdtHeader × PhysicalPtr) → Exec (List AcipEntry)
  load_entries mapping [] = returned []
  load_entries mapping ((header, ptr) ∷ tables) =
      load_entry memory is_utf8 profile header ptr mapping then λ e.
      load_entries mapping tables then λ rest. returned (e ∷ rest)

  pub get_rsdt_entries :
      ℕ → Option ((SdtHeader × RsdtIter) × OffsetMapper) → Exec (Option (List AcipEntry))
  unfolding load_entries
  get_rsdt_entries fuel none = returned none
  get_rsdt_entries fuel (some ((header, it), mapping)) =
      collect_tables memory fuel profile mapping it then λ tables.
      load_entries mapping tables then λ entries. returned (some entries)

-- ===== src/Hardware/Instance/Devices.antt =====
-- src/hardware.rs: the devices that the kernel's instance ever has.
use rucoonos.Prelude.{
  ℕ, ◌≡◌, refl, ap, ◌∙◌, Bool, true, false, if◌then◌else◌, List, [], ◌∷◌, Option, none, some,
}
use rucoonos.Hardware.Pci
use rucoonos.Hardware.Pci.{bruteforce}
use rucoonos.Hardware.Instance.{
  Device, is_ethernet, filter_map, setup_pci, find, find_device_handle,
}

filtered_empty : (ds : List Pci.Device) → filter_map ds ≡ []
unfolding filter_map
filtered_empty [] = refl
filtered_empty (d ∷ ds) = both (is_ethernet d.generic.class) ∙ filtered_empty ds
  where
    both : (b : Bool) → (if b then filter_map ds else filter_map ds) ≡ filter_map ds
    both true = refl
    both false = refl

-- Whatever stands on the bus, the instance has no device.
pub devices_empty : (config : ℕ → ℕ) (offset : Option ℕ) → setup_pci config offset ≡ []
unfolding setup_pci
devices_empty config none = refl
devices_empty config (some offset) = filtered_empty (bruteforce config)

-- So no search among its devices finds one.
search_fails :
    (config : ℕ → ℕ) (offset : Option ℕ) (predicate : Device → Bool)
    → find_device_handle predicate (setup_pci config offset) ≡ none
unfolding find_device_handle find
search_fails config offset predicate =
    ap (find_device_handle predicate) (devices_empty config offset)

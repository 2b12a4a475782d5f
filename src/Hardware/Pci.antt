-- ===== src/Hardware/Pci.antt =====
-- src/hardware/pci.rs: the configuration space of the PCI buses and the search for devices.
-- What the two ports give is a parameter: `config` takes the address that is written to the address
-- port to the 32 bit word that the data port then reads.
pub mod Address
pub mod Search
pub mod BaseAddress
use rucoonos.Prelude.{
  ℕ, zero, suc, Bool, true, false, ◌==◌, ◌*◌, ◌/◌, ◌%◌, ◌^◌, bit_and, bit_or, List, [], ◌∷◌, ◌++◌,
  Option, none, some, if◌then◌else◌,
}

unfoldable pub address : ℕ → ℕ → ℕ → ℕ → ℕ
address bus slot func offset =
    bit_or
      (bit_or (bit_or (bit_or (bus * 2 ^ 16) (slot * 2 ^ 11)) (func * 2 ^ 8)) (bit_and offset 0xfc))
      0x80000000

pub data NetworkContollerClass : Type 0 where
  ethernet : NetworkContollerClass
  unknown : (subclass : ℕ) → NetworkContollerClass

pub data DisplayControllerClass : Type 0 where
  vga_compatible : DisplayControllerClass
  unknown : (subclass : ℕ) → DisplayControllerClass

pub data DeviceClass : Type 0 where
  network_controller : NetworkContollerClass → DeviceClass
  display_controller : DisplayControllerClass → DeviceClass
  unknown : (class subclass : ℕ) → DeviceClass

pub data BaseAddressRegister : Type 0 where
  memory_space : (address : ℕ) (prefetchable : Bool) (ty : ℕ) → BaseAddressRegister
  io_space : (address : ℕ) → BaseAddressRegister

-- `From<u32> for BaseAddressRegister`; a bit that is neither 0 nor 1 is not reached.
unfoldable pub base_address : ℕ → BaseAddressRegister
base_address raw =
    if bit_and raw 1 == 0
    then BaseAddressRegister.memory_space (bit_and raw 0xfffffff0) (bit_and raw 8 == 1)
        (bit_and raw 6 % 2 ^ 8)
    else BaseAddressRegister.io_space (bit_and raw 0xfffffffc)

pub data HeaderType : Type 0 where
  generic :
      (base_addresses : List BaseAddressRegister) (cardbus_cis_pointer interrupt_line : ℕ)
      → HeaderType
  unknown : (ty : ℕ) → HeaderType

pub record GenericHeader : Type 0 where
  pub id : ℕ
  pub vendor_id : ℕ
  pub status : ℕ
  pub command : ℕ
  pub class : DeviceClass
  pub revision_id : ℕ
  pub bist : ℕ
  pub latency_timer : ℕ
  pub cache_line_size : ℕ

pub record Device : Type 0 where
  pub bus : ℕ
  pub slot : ℕ
  pub func : ℕ
  pub generic : GenericHeader
  pub header_type : HeaderType

-- `Device::enable_bus_mastering`: what is written to the two ports, with the word that is read between.
pub enable_bus_mastering : (previous : ℕ) → Device → List (ℕ × ℕ)
unfolding address
enable_bus_mastering previous d =
    (0xcf8, address d.bus d.slot d.func 0x4) ∷ (0xcfc, bit_or previous (2 ^ 2)) ∷ []

-- The match on the two bytes of the class.
pub class_of : ℕ → ℕ → DeviceClass
class_of baseclass subclass =
    if baseclass == 2
    then DeviceClass.network_controller (
        if subclass == 0
        then NetworkContollerClass.ethernet
        else NetworkContollerClass.unknown subclass)
    else if baseclass == 3
    then DeviceClass.display_controller (
        if subclass == 0
        then DisplayControllerClass.vga_compatible
        else DisplayControllerClass.unknown subclass)
    else DeviceClass.unknown baseclass subclass

-- `0..n`
pub range : ℕ → List ℕ
range zero = []
range (suc n) = range n ++ (n ∷ [])

-- `filter_map` for one element, before what it keeps of the rest.
pub kept : Option Device → List Device → List Device
kept none rest = rest
kept (some d) rest = d ∷ rest

module _ (config : ℕ → ℕ) where
  pub read_32bit : ℕ → ℕ → ℕ → ℕ → ℕ
  read_32bit bus slot func offset = config (address bus slot func offset)

  pub read_word : ℕ → ℕ → ℕ → ℕ → ℕ
  read_word bus slot func offset =
      bit_and (config (address bus slot func offset) / 2 ^ (bit_and offset 2 * 8)) 0xffff

  pub header_type_of : ℕ → ℕ → ℕ → ℕ → HeaderType
  header_type_of bus device function raw_header_type =
      let row = read_32bit bus device function in
      if raw_header_type == 0
      then HeaderType.generic
          (base_address (row 0x10)
            ∷ base_address (row 0x14)
            ∷ base_address (row 0x18)
            ∷ base_address (row 0x1c)
            ∷ base_address (row 0x20)
            ∷ base_address (row 0x24)
            ∷ [])
          (row 0x28) (bit_and (row 0x3c) 0xff)
      else HeaderType.unknown raw_header_type

  -- What is read of a device that is there.
  pub present : ℕ → ℕ → ℕ → Device
  present bus device vendorid =
      let second_row = read_32bit bus device 0 4 in
      let third_line = read_32bit bus device 0 8 in
      let fourth_line = read_32bit bus device 0 0xc in
      record {
        bus = bus;
        slot = device;
        func = 0;
        generic = record {
          id = read_word bus device 0 2;
          vendor_id = vendorid;
          status = second_row / 2 ^ 16 % 2 ^ 16;
          command = bit_and second_row 0xffff;
          class = class_of (third_line / 2 ^ 24 % 2 ^ 8) (bit_and (third_line / 2 ^ 16) 0xff);
          revision_id = bit_and third_line 0xff;
          bist = fourth_line / 2 ^ 24 % 2 ^ 8;
          latency_timer = bit_and (fourth_line / 2 ^ 8) 0xff;
          cache_line_size = bit_and fourth_line 0xff;
        };
        header_type = header_type_of bus device 0 (bit_and (fourth_line / 2 ^ 16) 0xff);
      }

  pub load_device : ℕ → ℕ → Option Device
  unfolding present
  load_device bus device =
      if read_word bus device 0 0 == 0xffff
      then none
      else some (present bus device (read_word bus device 0 0))

  pub load_slots : ℕ → List ℕ → List Device
  load_slots bus [] = []
  load_slots bus (slot ∷ slots) = kept (load_device bus slot) (load_slots bus slots)

  pub load_buses : List ℕ → List Device
  load_buses [] = []
  load_buses (bus ∷ buses) = load_slots bus (range 32) ++ load_buses buses

  pub bruteforce : List Device
  bruteforce = load_buses (range 255)

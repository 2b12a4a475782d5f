-- ===== src/Tests/Startup.antt =====
-- The network cards that are found, the random numbers, and the interrupts.
use rucoonos.Prelude.{
  ℕ, true, false, none, ◌≡◌, refl, ap, arith, List, [], ◌∷◌, Option, some, if◌then◌else◌, ltb,
  lt→ltb, bit_and, ◌+◌, ◌<◌, ◌^◌, ok, ◌==◌,
}
use rucoonos.Net.Wire.{array2, array6, debug}
use rucoonos.Net.Handler.State.{Device, DhcpExchange}
use rucoonos.Net.Extension.{Machine, setup}
use rucoonos.Net.Extension.Setup.{AreSetUp, IsReady, mac_at, setup-AreSetUp}
use rucoonos.Hardware.Loop.{returned}
use rucoonos.Hardware.Pci
use rucoonos.Hardware.Pci.{HeaderType, BaseAddressRegister, DeviceClass}
use rucoonos.Hardware.Driver.{Card}
use rucoonos.Hardware.Driver.Start.{any_read, copies}
use rucoonos.Hardware.Interrupts.Table
use rucoonos.Hardware.Interrupts.Table.{Handler, IdtStorage, IdtState}
use rucoonos.Hardware.Interrupts.Table.Replaced
use rucoonos.Hardware.Interrupts.Table.Replaced.{called, set_interrupt-called}
use rucoonos.Net.Extension.Statics.{Statics, network_interrupt, after}
use rucoonos.Net.Extension.Statics.Order.{network_interrupt-returned}
use rucoonos.Hardware.Registers.Cause
use rucoonos.Hardware.Driver.Pending
use rucoonos.Hardware.Random.{Kiss, rand}
use rucoonos.Hardware.Random.Bounds.{IsValid, rand-IsValid}

abbrev translate_addr : ℕ → Option ℕ
translate_addr ptr = some (ptr + 0x1000)

-- Each word is there at the third answer to its request.
abbrev machine : ℕ → Machine
machine id = record {
  box = λ i. 0x2000 + i;
  rx_ptr = 0x9000;
  tx_ptr = 0xa000;
  reads = λ k. 0x10;
  words = λ i j. if ltb j 2 then 0x12340000 else 0x12340010;
}

machine-IsReady : (id : ℕ) → IsReady translate_addr (machine id) (λ i. 2) 3
unfolding any_read
machine-IsReady id = record {
  boxes = λ i. (0x2000 + i + 0x1000, refl);
  rx = (0xa000, refl);
  tx = (0xb000, refl, omega arith);
  memory = refl;
  waits = λ i j h. ap (λ b. bit_and (if b then 0x12340000 else 0x12340010) 16) (lt→ltb j 2 h);
  answers = λ i. refl;
  soon = λ i. omega arith;
}

abbrev device : (id : ℕ) → HeaderType → Pci.Device
device id header = record {
  bus = 0;
  slot = 3;
  func = 0;
  generic = record {
    id = id;
    vendor_id = 0x8086;
    status = 0;
    command = 0;
    class = DeviceClass.unknown 2 0;
    revision_id = 0;
    bist = 0;
    latency_timer = 0;
    cache_line_size = 0;
  };
  header_type = header;
}

-- A bridge and two network cards.
abbrev bus : List Pci.Device
bus =
    device 0x1237 (HeaderType.unknown 1)
    ∷ device 0x100e
        (HeaderType.generic (BaseAddressRegister.memory_space 0xfeb00000 false 0 ∷ []) 0 11)
    ∷ device 0x100e
        (HeaderType.generic (BaseAddressRegister.memory_space 0xfeb20000 false 0 ∷ []) 0 11)
    ∷ []

setup-AreSetUp_example :
    (xs : List (Device × Card)) × (setup translate_addr machine 3 0 bus ≡ returned xs)
    × AreSetUp (mac_at translate_addr machine (λ id i. 2) 3 machine-IsReady) 0 bus xs
setup-AreSetUp_example =
    setup-AreSetUp translate_addr machine (λ id i. 2) 3 machine-IsReady 0 bus (tt, (tt, (tt, tt)))

-- The generator as the machine starts it.
abbrev seed : Kiss
seed = record { x = 239812446; y = 1837621879; z = 512893; c = 123873267123 }

rand-IsValid_example :
    (n : ℕ) × (k : Kiss) × (rand debug seed ≡ ok (n, k)) × (n < 2 ^ 64) × IsValid k
rand-IsValid_example =
    rand-IsValid debug seed (record { z = omega arith; c = omega arith }) (omega arith)

-- The handlers of the two first lines are replaced by none; that of the network card's line is new.
abbrev interrupts : IdtState
interrupts = record {
  storage = IdtStorage.initial;
  loaded = some IdtStorage.initial;
  heap = [];
  masks = array2 0xfc 0xff;
}

set_interrupt-called_example :
    (s' : IdtState) × (Table.set_interrupt
        (λ line. true)
        debug
        0x8000
        43
        (Handler.other 1)
        interrupts
      ≡ ok s')
    × Replaced.IsValid s'
    × ((j : ℕ) → called s' j ≡ (if j == 43 then some (Handler.other 1) else called interrupts j))
set_interrupt-called_example =
    set_interrupt-called (λ line. true) debug 0x8000 43 (Handler.other 1) interrupts
      (record { loaded = refl; owned = refl }) refl (omega arith) (cc)

abbrev idle_card : Card
idle_card = record {
  id = 0;
  has_eeprom = true;
  rx_ring =
      copies 33
        (record { addr = 0; length = 0; checksum = 0; status = 0; errors = 0; special = 0 });
  tx_ring =
      copies 9
        (record { addr = 0; length = 0; cso = 0; cmd = 0; status = 0; css = 0; special = 0 });
  cur_tx = 0;
  cur_rx = 0;
  last_reclaimed_tx = 0;
  rx_buffers = copies 32 0x2000;
  tx_buffers = copies 8 0;
  packet_queue = [];
  messages = [];
  dropped = [];
  writes = [];
}

idle_card-IsValid : Pending.IsValid idle_card
idle_card-IsValid = record {
  rx_ring = refl;
  rx_buffers = refl;
  cur_rx = omega arith;
  tx_ring = refl;
  tx_buffers = refl;
  cur_tx = omega arith;
  last_reclaimed_tx = omega arith;
}

abbrev idle_device : Device
idle_device = record {
  id = 0;
  packet_queue = [];
  metadata = record { mac = array6 0 0 0 0 0 0; ip = none; dhcp = DhcpExchange.initial };
}

-- The interrupt that comes in before the last step.
network_interrupt-returned_example :
    (s : Statics) × (network_interrupt
        (λ ptr len. [])
        translate_addr
        33
        (λ i. (Cause.default, (0, 0)))
        false
        (after 4 ((idle_device, idle_card) ∷ []))
      ≡ returned s)
network_interrupt-returned_example =
    network_interrupt-returned (λ ptr len. []) translate_addr (λ i. (Cause.default, (0, 0))) 4 false
      ((idle_device, idle_card) ∷ []) ((idle_card-IsValid, tt), tt) (λ i. omega arith)

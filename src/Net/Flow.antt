-- ===== src/Net/Flow.antt =====
-- The way of a frame through a network card and its handler: src/extensions/networking/interrupt.rs and
-- handler.rs over src/hardware/device/e1000.rs. The packet queue of the device is the one that the card
-- takes its frames from, and the card's messages are those that the handler waits for. `data_ptr` is the
-- address of a frame's buffer.
pub mod Answers
pub mod Reachable
use rucoonos.Prelude.{
  ℕ, ◌-◌, Bool, List, [], ◌∷◌, ◌++◌, map, Option, Bytes, length, drop, Outcome, ok, panic, ◌>>=◌,
}
use rucoonos.Net.Wire.{Profile}
use rucoonos.Net.Buffer
use rucoonos.Net.Ethernet
use rucoonos.Net.Handler.{step}
use rucoonos.Net.Handler.State.{Device, Shared, World, HandlerMessage, packet}
use rucoonos.Hardware.Loop.{Exec, returned, ◌then◌}
use rucoonos.Hardware.Registers.{InterruptCauseRegister}
use rucoonos.Hardware.Driver.{Card, Outgoing, handle_interrupt}

-- A card, its device, and the handler with the messages that wait for it.
pub record Node : Type 0 where
  pub card : Card
  pub device : Device
  pub shared : Shared
  pub inbox : List HandlerMessage

-- `packet.into_buffer().into_raw()` of a frame from the packet queue.
unfoldable pub placed : (data_ptr : Ethernet.Packet → ℕ) → Ethernet.Packet → Outgoing
placed data_ptr p = record {
  data_ptr = data_ptr p;
  len = (Buffer.into_raw (Ethernet.into_buffer p)).1;
}

-- The frames that are left once the card has taken some of them.
pub left_over : List Ethernet.Packet → List Outgoing → List Ethernet.Packet
left_over queue rest = drop (length queue - length rest) queue

module _ (memory : ℕ → ℕ → Bytes) (translate_addr : ℕ → Option ℕ)
    (data_ptr : Ethernet.Packet → ℕ) where
  abbrev pub taken : Node → Card → Node
  taken n c = record n {
    card = record c { messages = []; packet_queue = [] };
    device = record (n.device) { packet_queue = left_over n.device.packet_queue c.packet_queue };
    inbox = n.inbox ++ map packet c.messages;
  }

  -- `handle_interrupt` of the card, on the queues that it shares with the handler.
  pub interrupt : ℕ → InterruptCauseRegister → ℕ → ℕ → Node → Exec Node
  unfolding placed left_over
  interrupt fuel cause head tail n =
      handle_interrupt memory translate_addr fuel cause head tail (record (n.card) {
        messages = [];
        packet_queue = map (placed data_ptr) n.device.packet_queue;
      })
      then λ c. returned (taken n c)

-- A round of the handler's loop on the message that waits first, if there is one.
module _ (profile : Profile) (accepts : ℕ → Bool) where
  pub handled : Node → List HandlerMessage → World → Outcome Node
  handled n rest w = elim w.devices [
    | [] ↦ panic
    | d ∷ ds ↦ ok (record n { device = d; shared = w.shared; inbox = rest })
  ]

  pub handle_next : Node → List HandlerMessage → Outcome Node
  unfolding handled
  handle_next n [] = ok n
  handle_next n (m ∷ rest) =
      step profile accepts (record { devices = n.device ∷ []; shared = n.shared }) m
      >>= handled n rest

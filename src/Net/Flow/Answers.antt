-- ===== src/Net/Flow/Answers.antt =====
-- src/extensions/networking and the driver of the network card: a question that comes in, and its answer on
-- the sending ring.
use rucoonos.Prelude.{
  ℕ, zero, suc, ◌-◌, ◌<◌, ◌≡◌, refl, sym, ap, ◌∙◌, arith, Bool, true, false, ◌||◌, List, [], ◌∷◌,
  map, Option, some, Bytes, length, drop, ok, ◌>>=◌, if◌then◌else◌, All,
}
use mathlib.Core.Path.{subst}
use rucoonos.Net.Wire.{Array4, Array6, Profile}
use rucoonos.Net.Ethernet
use rucoonos.Net.Ethernet.{EthType}
use rucoonos.Net.Arp
use rucoonos.Net.IpMap.{eq6}
use rucoonos.Net.Handler.{handle_frame, step, broadcast, enqueue}
use rucoonos.Net.Handler.State.{Device, Shared, HandlerMessage, RawPacket, packet}
use rucoonos.Net.Handler.Replies.{arp_request-answer, handle_packet-first}
use rucoonos.Hardware.Loop.{Exec, returned, ◌then◌}
use rucoonos.Hardware.Registers.{InterruptCauseRegister}
use rucoonos.Hardware.Driver.{Card, Outgoing}
use rucoonos.Hardware.Driver.Pending.{IsValid, pending, pending-id}
use rucoonos.Hardware.Driver.Enqueue.{DescribeAll, IsMapped, handed_over}
use rucoonos.Hardware.Driver.Transmit.{send-handed_over, send-IsSent}
use rucoonos.Hardware.Driver.Interrupt.{handle_interrupt-returned, handle_interrupt-send}
use rucoonos.Net.Flow.{Node, placed, left_over, taken, interrupt, handled, handle_next}

-- A card and its device with nothing to send and no message for the handler.
abbrev pub idle : Card → Device → Shared → Node
idle c d s = record { card = c; device = record d { packet_queue = [] }; shared = s; inbox = [] }

-- The card as the driver works on it, with its queues.
abbrev pub working : Card → List Outgoing → Card
working c queue = record c { messages = []; packet_queue = queue }

pub working-IsValid : (c : Card) (queue : List Outgoing) → IsValid c → IsValid (working c queue)
working-IsValid c queue v = record {
  rx_ring = v.rx_ring;
  rx_buffers = v.rx_buffers;
  cur_rx = v.cur_rx;
  tx_ring = v.tx_ring;
  tx_buffers = v.tx_buffers;
  cur_tx = v.cur_tx;
  last_reclaimed_tx = v.last_reclaimed_tx;
}

drop_nothing {ℓ} : {A : Type ℓ} (n : ℕ) → drop {A = A} n [] ≡ []
drop_nothing zero = refl
drop_nothing (suc n) = refl

module _ (memory : ℕ → ℕ → Bytes) (translate_addr : ℕ → Option ℕ)
    (data_ptr : Ethernet.Packet → ℕ) where
  -- An interrupt with the cause `rxt` hands the one frame that waits in the ring to the handler.
  interrupt-received :
      (cause : InterruptCauseRegister) (head tail : ℕ) (c : Card) (d : Device) (s : Shared)
      (raw : RawPacket)
      → IsValid c
      → head < 8
      → cause.rxt ≡ true
      → pending memory c.id c.rx_buffers c.rx_ring c.cur_rx 32 ≡ raw ∷ []
      → (c' : Card) × IsValid c'
        × (interrupt memory translate_addr data_ptr 33 cause head tail (idle c d s)
            ≡ returned (record (idle (working c' []) d s) { inbox = packet raw ∷ [] }))
  unfolding interrupt left_over
  interrupt-received cause head tail c d s raw v lt rxt one =
      let (c', r, v', msgs, queue) =
        handle_interrupt-returned memory translate_addr cause head tail (working c [])
          (working-IsValid c [] v) lt tt in
      let left : List Ethernet.Packet → List RawPacket → Exec Node = λ q ms. returned (record {
        card = working c' [];
        device = record d { packet_queue = q };
        shared = s;
        inbox = map packet ms;
      }) in
      (
        c',
        v',
        ap (λ x. x then λ c. returned (taken memory translate_addr data_ptr (idle c d s) c)) r
            ∙ ap (λ q. left q c'.messages)
                (drop_nothing (length {A = Ethernet.Packet} [] - length c'.packet_queue))
            ∙ ap (left []) (
                msgs
                ∙ ap (λ b. if b then pending memory c.id c.rx_buffers c.rx_ring c.cur_rx 32 else [])
                    rxt
                ∙ one),
      )

  -- An interrupt with the cause of a sender puts the one frame that waits on the sending ring.
  interrupt-sent :
      (cause : InterruptCauseRegister) (head : ℕ) (c : Card) (d : Device) (s : Shared)
      (q : Ethernet.Packet)
      → IsValid c
      → cause.rxt ≡ false
      → cause.txdw ≡ false
      → cause.txd_low ≡ true
      → IsMapped translate_addr (placed data_ptr q)
      → (c' : Card) × IsValid c'
        × (interrupt memory translate_addr data_ptr 33 cause head head (record {
          card = c;
          device = record d { packet_queue = q ∷ [] };
          shared = s;
          inbox = [];
        })
            ≡ returned (idle (working c' []) d s))
        × DescribeAll translate_addr
            (placed data_ptr q ∷ [])
            (handed_over c'.tx_ring c.cur_tx c'.cur_tx)
  unfolding interrupt left_over placed
  interrupt-sent cause head c d s q v rxt txdw low maps =
      let p = placed data_ptr q in
      let (c', r, v', queue, desc) =
        send-handed_over translate_addr (p ∷ []) (working c (p ∷ [])) (working-IsValid c (p ∷ []) v)
          (maps, tt) in
      let (c'', r', h) =
        send-IsSent translate_addr 8 (p ∷ []) (working c (p ∷ [])) (omega arith)
          (working-IsValid c (p ∷ []) v) (maps, tt) in
      let none_left : c'.messages ≡ [] = ap Card.messages (same (sym r ∙ r')) ∙ h.messages in
      let left : List Outgoing → List RawPacket → Exec Node = λ q' ms. returned (record {
        card = working c' [];
        device = record d { packet_queue = left_over (q ∷ []) q' };
        shared = s;
        inbox = map packet ms;
      }) in
      (
        c',
        v',
        ap
              (λ x. x then λ c. returned (
                taken memory translate_addr data_ptr
                  (record {
                    card = c;
                    device = record d { packet_queue = q ∷ [] };
                    shared = s;
                    inbox = [];
                  })
                  c))
              (handle_interrupt-send memory translate_addr cause head (working c (p ∷ [])) c' rxt
                txdw low r)
            ∙ ap (λ q'. left q' c'.messages) queue
            ∙ ap (left []) none_left,
        desc,
      )
    where
      same : {x y : Card} → returned x ≡ returned y → x ≡ y
      same e = cc

module _ (profile : Profile) (accepts : ℕ → Bool) where
  -- A frame with the number of the only device is handled by it.
  handle_next-frame :
      (n : Node) (raw : RawPacket) (rest : List HandlerMessage) (d : Device) (s : Shared)
      → raw.id ≡ n.device.id
      → handle_frame profile accepts n.device n.shared (Ethernet.new raw.buffer) ≡ ok (d, s)
      → handle_next profile accepts n (packet raw ∷ rest)
        ≡ ok (record n { device = d; shared = s; inbox = rest })
  unfolding handle_next handled step
  handle_next-frame n raw rest d s same e =
      ap (λ r. r >>= handled profile accepts n rest)
        (handle_packet-first profile accepts n.device n.shared (Ethernet.new raw.buffer) [] raw d s
          same refl e)

  -- A card that is idle, with one frame in its receiving ring: an ARP request, to the device or to all, for
  -- the device's IP address. Its interrupt hands the frame to the handler, a round of the handler answers it,
  -- and the interrupt that the sender raises leaves on the sending ring one descriptor for the card: that of
  -- the answer, an ARP response from the device's addresses to the asker's. No message and no frame is left
  -- waiting, the card is valid and what the handler shares is unchanged. The buffers of frames are mapped.
  pub arp_request-transmitted :
      (memory : ℕ → ℕ → Bytes) (translate_addr : ℕ → Option ℕ) (data_ptr : Ethernet.Packet → ℕ)
      (cause notified : InterruptCauseRegister) (head tail head' : ℕ) (c : Card) (d : Device)
      (s : Shared) (raw : RawPacket) (m : Array6) (a : Arp.Packet) (ip : Array4)
      → ((p : Ethernet.Packet) → IsMapped translate_addr (placed data_ptr p))
      → IsValid c
      → d.id ≡ c.id
      → head < 8
      → cause.rxt ≡ true
      → notified.rxt ≡ false
      → notified.txdw ≡ false
      → notified.txd_low ≡ true
      → pending memory c.id c.rx_buffers c.rx_ring c.cur_rx 32 ≡ raw ∷ []
      → Ethernet.destination_mac (Ethernet.new raw.buffer) ≡ ok m
      → (eq6 m broadcast || eq6 m d.metadata.mac) ≡ true
      → Ethernet.ether_type (Ethernet.new raw.buffer) ≡ ok EthType.arp
      → Arp.new (Ethernet.new raw.buffer) ≡ ok a
      → a.operation ≡ 1
      → d.metadata.ip ≡ some ip
      → a.dest_ip ≡ ip
      → (n1 : Node) × (n2 : Node) × (n3 : Node) × (q : Ethernet.Packet) × (b : Arp.Packet)
        × (interrupt memory translate_addr data_ptr 33 cause head tail (idle c d s) ≡ returned n1)
        × (handle_next profile accepts n1 n1.inbox ≡ ok n2)
        × (interrupt memory translate_addr data_ptr 33 notified head' head' n2 ≡ returned n3)
        × DescribeAll translate_addr
            (placed data_ptr q ∷ [])
            (handed_over n3.card.tx_ring n2.card.cur_tx n3.card.cur_tx)
        × (n3 ≡ idle n3.card d s)
        × IsValid n3.card
        × (Ethernet.destination_mac q ≡ ok a.src_mac)
        × (Ethernet.ether_type q ≡ ok EthType.arp)
        × (Arp.new q ≡ ok b)
        × (Arp.operation_of b ≡ Arp.Operation.response)
        × (b.src_mac ≡ d.metadata.mac)
        × (b.src_ip ≡ ip)
        × (b.dest_mac ≡ a.src_mac)
        × (b.dest_ip ≡ a.src_ip)
  arp_request-transmitted memory translate_addr data_ptr cause notified head tail head' c d s raw m
        a ip maps v id lt rxt norx nodw low one dest own ty new_p op hip own_ip =
      let d0 : Device = record d { packet_queue = [] } in
      let (c1, v1, r1) =
        interrupt-received memory translate_addr data_ptr cause head tail c d s raw v lt rxt one in
      let (q, handled, to, type, b, new_q, response, mac, src, mac', dest') =
        arp_request-answer profile accepts d0 s (Ethernet.new raw.buffer) m a ip dest own ty new_p
          op hip own_ip in
      let (c3, v3, r3, desc) =
        interrupt-sent memory translate_addr data_ptr notified head' (working c1 []) d s q
          (working-IsValid c1 [] v1) norx nodw low (maps q) in
      let n1 : Node = record (idle (working c1 []) d s) { inbox = packet raw ∷ [] } in
      let numbers : All (λ r. r.id ≡ c.id) (raw ∷ []) =
        subst (All (λ r. r.id ≡ c.id)) one
          (pending-id memory c.id c.rx_buffers c.rx_ring c.cur_rx 32) in
      (
        n1,
        record n1 { device = enqueue d0 q; inbox = [] },
        idle (working c3 []) d s,
        q,
        b,
        r1,
        handle_next-frame n1 raw [] (enqueue d0 q) s (numbers.0 ∙ sym id) handled,
        r3,
        desc,
        refl,
        working-IsValid c3 [] v3,
        to,
        type,
        new_q,
        response,
        mac,
        src,
        mac',
        dest',
      )

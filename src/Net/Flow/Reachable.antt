-- ===== src/Net/Flow/Reachable.antt =====
-- The card and the handler of one device, in any order of what the card does, interrupts, rounds of the
-- handler and requests of users: src/extensions/networking and the driver of the network card.
use rucoonos.Prelude.{
  ℕ, zero, suc, ◌<◌, ◌≡◌, refl, sym, ap, ◌∙◌, Bool, true, false, List, [], ◌∷◌, ◌++◌, map, Option,
  none, inl, panic, Bytes, take, ok, >>=-eq-ok, if◌then◌else◌, All, All-append,
}
use mathlib.Core.Path.{subst}
use rucoonos.Net.Wire.{Profile}
use rucoonos.Net.Ethernet
use rucoonos.Net.Handler.{step}
use rucoonos.Net.Handler.State.{
  Device, World, HandlerMessage, ActionRequest, RawPacket, packet, action,
}
use rucoonos.Net.Handler.Invariant.{IsSettled, KeepsAll, step-KeepsAll}
use rucoonos.Hardware.Loop.{returned, ◌then◌}
use rucoonos.Hardware.Registers.{InterruptCauseRegister}
use rucoonos.Hardware.Driver.Pending.{IsValid, pending, pending-id}
use rucoonos.Hardware.Driver.Enqueue.{IsMapped}
use rucoonos.Hardware.Driver.Identity.{handle_interrupt-id}
use rucoonos.Hardware.Driver.Interrupt.{handle_interrupt-returned}
use rucoonos.Prelude.Arrays.{set, length-set}
use rucoonos.Hardware.Driver.{Card, RxDesc, TxDesc}
use rucoonos.Net.Flow.{Node, placed, taken, interrupt, handled, handle_next}
use rucoonos.Net.Flow.Answers.{working, working-IsValid}

-- A message for the handler is of the device with the number, if it is a packet.
abbrev pub Carries : ℕ → HandlerMessage → Type 0
Carries id (packet raw) = raw.id ≡ id
Carries id (action request) = Unit {0}

pub record IsSound (n : Node) : Type 0 where
  pub card : IsValid n.card
  pub same_id : n.device.id ≡ n.card.id
  pub settled : IsSettled n.device
  pub inbox : All (Carries n.card.id) n.inbox

packets-Carries :
    (id : ℕ) (rs : List RawPacket) → All (λ r. r.id ≡ id) rs → All (Carries id) (map packet rs)
packets-Carries id [] h = tt
packets-Carries id (r ∷ rs) (h, hs) = (h, packets-Carries id rs hs)

filled-IsValid :
    (c : Card) (i : ℕ) (d : RxDesc) → IsValid c → IsValid (record c { rx_ring = set c.rx_ring i d })
filled-IsValid c i d v = record {
  rx_ring = length-set c.rx_ring i d ∙ v.rx_ring;
  rx_buffers = v.rx_buffers;
  cur_rx = v.cur_rx;
  tx_ring = v.tx_ring;
  tx_buffers = v.tx_buffers;
  cur_tx = v.cur_tx;
  last_reclaimed_tx = v.last_reclaimed_tx;
}

completed-IsValid :
    (c : Card) (i : ℕ) (d : TxDesc) → IsValid c → IsValid (record c { tx_ring = set c.tx_ring i d })
completed-IsValid c i d v = record {
  rx_ring = v.rx_ring;
  rx_buffers = v.rx_buffers;
  cur_rx = v.cur_rx;
  tx_ring = length-set c.tx_ring i d ∙ v.tx_ring;
  tx_buffers = v.tx_buffers;
  cur_tx = v.cur_tx;
  last_reclaimed_tx = v.last_reclaimed_tx;
}

module _ (profile : Profile) (accepts : ℕ → Bool) (translate_addr : ℕ → Option ℕ)
    (data_ptr : Ethernet.Packet → ℕ) where
  -- The card writes a descriptor of either ring at any time: it puts a frame into the buffer of the one, or
  -- has sent the frame of the other. An interrupt finds the head inside the ring, and any bytes in the
  -- buffers. The handler has a round, or a user has a request.
  pub data Step : Node → Node → Type 0 where
    filled :
        {n : Node} (i : ℕ) (d : RxDesc)
        → Step n (record n { card = record (n.card) { rx_ring = set n.card.rx_ring i d } })
    completed :
        {n : Node} (i : ℕ) (d : TxDesc)
        → Step n (record n { card = record (n.card) { tx_ring = set n.card.tx_ring i d } })
    interrupted :
        {n n' : Node} (memory : ℕ → ℕ → Bytes) (cause : InterruptCauseRegister) (head tail : ℕ)
        → head < 8
        → interrupt memory translate_addr data_ptr 33 cause head tail n ≡ returned n'
        → Step n n'
    woken : {n n' : Node} → handle_next profile accepts n n.inbox ≡ ok n' → Step n n'
    requested :
        {n : Node} (request : ActionRequest)
        → Step n (record n { inbox = n.inbox ++ (action request ∷ []) })

  pub data Reach (s : Node) : Node → Type 0 where
    here : Reach s s
    next : {t u : Node} → Reach s t → Step t u → Reach s u

  module _ (maps : (p : Ethernet.Packet) → IsMapped translate_addr (placed data_ptr p)) where
    waiting-IsMapped :
        (k : ℕ) (queue : List Ethernet.Packet)
        → All (IsMapped translate_addr) (take k (map (placed data_ptr) queue))
    waiting-IsMapped zero queue = tt
    waiting-IsMapped (suc k) [] = tt
    waiting-IsMapped (suc k) (p ∷ ps) = (maps p, waiting-IsMapped k ps)

    -- In a sound state the interrupt handler ends, in a sound state.
    pub interrupt-IsSound :
        (memory : ℕ → ℕ → Bytes) (cause : InterruptCauseRegister) (head tail : ℕ) (n : Node)
        → head < 8
        → IsSound n
        → (n' : Node) × (interrupt memory translate_addr data_ptr 33 cause head tail n
            ≡ returned n')
          × IsSound n'
    unfolding interrupt
    interrupt-IsSound memory cause head tail n lt v =
        let queue = map (placed data_ptr) n.device.packet_queue in
        let (c, r, valid, msgs, _) =
          handle_interrupt-returned memory translate_addr cause head tail (working n.card queue)
            (working-IsValid n.card queue v.card) lt (waiting-IsMapped 8 n.device.packet_queue) in
        let id =
          handle_interrupt-id memory translate_addr 33 cause head tail (working n.card queue) c r in
        (
          taken memory translate_addr data_ptr n c,
          ap (λ x. x then λ c. returned (taken memory translate_addr data_ptr n c)) r,
          record {
            card = working-IsValid c [] valid;
            same_id = v.same_id ∙ sym id;
            settled = v.settled;
            inbox =
                subst (λ i. All (Carries i) (n.inbox ++ map packet c.messages)) (sym id)
                  (All-append (Carries n.card.id) n.inbox (map packet c.messages) v.inbox (
                    packets-Carries n.card.id c.messages
                      (subst (All (λ r. r.id ≡ n.card.id)) (sym msgs) (numbers cause.rxt))));
          },
        )
      where
        numbers :
            (b : Bool)
            → All
                (λ r. r.id ≡ n.card.id)
                (if b
                  then pending memory n.card.id n.card.rx_buffers n.card.rx_ring n.card.cur_rx 32
                  else [])
        numbers true = pending-id memory n.card.id n.card.rx_buffers n.card.rx_ring n.card.cur_rx 32
        numbers false = tt

    -- The only device after a round.
    handled-IsSound :
        (n n' : Node) (rest : List HandlerMessage) (w : World)
        → IsSound n
        → All (Carries n.card.id) rest
        → KeepsAll (n.device ∷ []) w.devices
        → handled profile accepts n rest w ≡ ok n'
        → IsSound n'
    unfolding handled
    handled-IsSound n n' rest w v carried keeps e = alone w.devices keeps e
      where
        inner : {x y : Node} → ok x ≡ ok y → x ≡ y
        inner e = cc

        alone :
            (ds : List Device)
            → KeepsAll (n.device ∷ []) ds
            → elim ds [
              | [] ↦ panic
              | d ∷ ds ↦ ok (record n { device = d; shared = w.shared; inbox = rest })
            ]
              ≡ ok n'
            → IsSound n'
        alone [] k e = absurd k
        alone (d ∷ ds) (k, _) e = subst IsSound (inner e) (record {
          card = v.card;
          same_id = k.same_id ∙ v.same_id;
          settled = k.settled v.settled;
          inbox = carried;
        })

    handle_next-IsSound :
        (n n' : Node) (messages : List HandlerMessage)
        → IsSound n
        → All (Carries n.card.id) messages
        → messages ≡ n.inbox
        → handle_next profile accepts n messages ≡ ok n'
        → IsSound n'
    unfolding handle_next
    handle_next-IsSound n n' [] v carried all e = subst IsSound (inner e) v
      where
        inner : {x y : Node} → ok x ≡ ok y → x ≡ y
        inner e = cc
    handle_next-IsSound n n' (m ∷ rest) v (_, carried) all e =
        let w0 : World = record { devices = n.device ∷ []; shared = n.shared } in
        let (w, st, f) = >>=-eq-ok (step profile accepts w0 m) (handled profile accepts n rest) e in
        handled-IsSound n n' rest w v carried (step-KeepsAll profile accepts w0 w m st) f

    Step-IsSound : {n n' : Node} → Step n n' → IsSound n → IsSound n'
    Step-IsSound {n} (filled i d) v = record {
      card = filled-IsValid n.card i d v.card;
      same_id = v.same_id;
      settled = v.settled;
      inbox = v.inbox;
    }
    Step-IsSound {n} (completed i d) v = record {
      card = completed-IsValid n.card i d v.card;
      same_id = v.same_id;
      settled = v.settled;
      inbox = v.inbox;
    }
    Step-IsSound (interrupted memory cause head tail lt e) v =
        let (m, r, h) = interrupt-IsSound memory cause head tail _ lt v in
        subst IsSound (inner (sym r ∙ e)) h
      where
        inner : {x y : Node} → returned x ≡ returned y → x ≡ y
        inner e = cc
    Step-IsSound {n} (woken e) v = handle_next-IsSound n _ n.inbox v v.inbox refl e
    Step-IsSound {n} (requested request) v = record {
      card = v.card;
      same_id = v.same_id;
      settled = v.settled;
      inbox = All-append (Carries n.card.id) n.inbox (action request ∷ []) v.inbox (tt, tt);
    }

    Reach-IsSound : {s t : Node} → Reach s t → IsSound s → IsSound t
    Reach-IsSound here v = v
    Reach-IsSound (next r st) v = Step-IsSound st (Reach-IsSound r v)

    -- From a valid card and a device with its number, no IP address and no message that waits, in any order
    -- of frames that the card puts into its ring, of frames that it has sent, of interrupts that find a
    -- head inside the ring, of rounds of the handler that end without a panic, and of requests: the next
    -- interrupt ends. After it the card is valid, the device has the card's number, and so has every packet
    -- that waits for the handler, and a device that has an IP address has completed its DHCP exchange. The
    -- buffers of frames are mapped, and the card writes no descriptor while an interrupt is handled.
    pub Reach-interrupt :
        (s t : Node) (memory : ℕ → ℕ → Bytes) (cause : InterruptCauseRegister) (head tail : ℕ)
        → IsValid s.card
        → s.device.id ≡ s.card.id
        → s.device.metadata.ip ≡ none
        → s.inbox ≡ []
        → Reach s t
        → head < 8
        → (t' : Node) × (interrupt memory translate_addr data_ptr 33 cause head tail t
            ≡ returned t')
          × IsSound t'
    Reach-interrupt s t memory cause head tail v id ip empty r lt =
        interrupt-IsSound memory cause head tail t lt (
          Reach-IsSound r (record {
            card = v;
            same_id = id;
            settled = inl ip;
            inbox = subst (All (Carries s.card.id)) (sym empty) tt;
          }))

-- ===== src/Hardware/Driver/Interrupt.antt =====
-- src/hardware/device/e1000.rs: the interrupt handler as a whole.
use rucoonos.Prelude.{
  ℕ, ◌<◌, ◌≡◌, refl, sym, ap, ◌∙◌, arith, Bool, true, false, List, [], ◌++◌, append-nil, ◌&&◌, ◌||◌,
  ◌==◌, Option, Bytes, if◌then◌else◌, take, drop, All, ==_self,
}
use mathlib.Core.Path.{subst}
use rucoonos.Hardware.Loop.{Exec, returned, ◌then◌}
use rucoonos.Net.Handler.State.{RawPacket}
use rucoonos.Hardware.Registers.{InterruptCauseRegister}
use rucoonos.Hardware.Driver.{Card, Outgoing, receive, send, transmit, reclaim, handle_interrupt}
use rucoonos.Hardware.Driver.Pending.{IsValid, pending}
use rucoonos.Hardware.Driver.Receive.{receive-IsDrained}
use rucoonos.Hardware.Driver.Enqueue.{IsMapped}
use rucoonos.Hardware.Driver.Transmit.{send-IsSent}
use rucoonos.Hardware.Driver.Reclaim.{reclaim-IsReclaimed}

-- A part of the handler returns a valid card, with these messages and this packet queue.
abbrev Returns : Exec Card → Card → List RawPacket → List Outgoing → Type 0
Returns run c messages queue =
    (c' : Card) × (run ≡ returned c')
    × IsValid c'
    × (c'.messages ≡ c.messages ++ messages)
    × (c'.packet_queue ≡ queue)

module _ (memory : ℕ → ℕ → Bytes) (translate_addr : ℕ → Option ℕ) where
  receive-Returns :
      (rxt : Bool) (c : Card)
      → IsValid c
      → Returns
          (if rxt then receive memory 33 c else returned c)
          c
          (if rxt then pending memory c.id c.rx_buffers c.rx_ring c.cur_rx 32 else [])
          c.packet_queue
  receive-Returns false c v = (c, refl, v, sym (append-nil c.messages), refl)
  receive-Returns true c v =
      let (c', r, h) = receive-IsDrained memory c v in (c', r, h.valid, h.messages, h.packet_queue)

  transmit-Returns :
      (sends : Bool) (c : Card)
      → IsValid c
      → All (IsMapped translate_addr) (take 8 c.packet_queue)
      → Returns
          (if sends then send translate_addr 8 c.packet_queue c else returned c)
          c
          []
          (if sends then drop 8 c.packet_queue else c.packet_queue)
  transmit-Returns false c v maps = (c, refl, v, sym (append-nil c.messages), refl)
  transmit-Returns true c v maps =
      let (c', r, h) = send-IsSent translate_addr 8 c.packet_queue c (omega arith) v maps in
      (c', r, h.valid, h.messages ∙ sym (append-nil c.messages), h.packet_queue)

  reclaim-Returns :
      (txdw : Bool) (head : ℕ) (c : Card)
      → IsValid c
      → head < 8
      → Returns (if txdw then reclaim 33 head c else returned c) c [] c.packet_queue
  reclaim-Returns false head c v lt = (c, refl, v, sym (append-nil c.messages), refl)
  reclaim-Returns true head c v lt =
      let (s', r, h) = reclaim-IsReclaimed 33 head c v lt (omega arith) in
      (s'.card, r, h.valid, h.messages ∙ sym (append-nil c.messages), h.packet_queue)

  -- The interrupt handler ends on every valid card with a head inside the ring, its loops within 33
  -- rounds, where the buffers of the first eight waiting frames are mapped. The card stays valid. The
  -- frames in the receiving ring, from the current descriptor to the first one without a frame, go to
  -- the network handler if the cause is `rxt`, and none otherwise. Eight waiting frames at most leave
  -- the packet queue, and only if the head is the tail and the cause is `txd_low` or `txdw`.
  pub handle_interrupt-returned :
      (cause : InterruptCauseRegister) (head tail : ℕ) (c : Card)
      → IsValid c
      → head < 8
      → All (IsMapped translate_addr) (take 8 c.packet_queue)
      → (c' : Card) × (handle_interrupt memory translate_addr 33 cause head tail c ≡ returned c')
        × IsValid c'
        × (c'.messages
            ≡ c.messages
              ++ (if cause.rxt then pending memory c.id c.rx_buffers c.rx_ring c.cur_rx 32 else []))
        × (c'.packet_queue ≡ (
            if (head == tail) && (cause.txd_low || cause.txdw)
            then drop 8 c.packet_queue
            else c.packet_queue))
  unfolding handle_interrupt transmit
  handle_interrupt-returned cause head tail c v lt maps =
      let sends : Bool = (head == tail) && (cause.txd_low || cause.txdw) in
      let (c1, r1, v1, m1, q1) = receive-Returns cause.rxt c v in
      let (c2, r2, v2, m2, q2) =
        transmit-Returns sends c1 v1
          (subst (λ q. All (IsMapped translate_addr) (take 8 q)) (sym q1) maps) in
      let (c3, r3, v3, m3, q3) = reclaim-Returns cause.txdw head c2 v2 lt in
      (
        c3,
        ap
              (λ x.
                x
                then (λ c. transmit translate_addr cause head tail c)
                then (λ c. if cause.txdw then reclaim 33 head c else returned c))
              r1
            ∙ ap (λ x. x then (λ c. if cause.txdw then reclaim 33 head c else returned c)) r2
            ∙ r3,
        v3,
        m3 ∙ append-nil c2.messages ∙ m2 ∙ append-nil c1.messages ∙ m1,
        q3 ∙ q2 ∙ ap (λ q. if sends then drop 8 q else q) q1,
      )

  -- The interrupt of a sender of frames only sends.
  pub handle_interrupt-send :
      (cause : InterruptCauseRegister) (head : ℕ) (c c' : Card)
      → cause.rxt ≡ false
      → cause.txdw ≡ false
      → cause.txd_low ≡ true
      → send translate_addr 8 c.packet_queue c ≡ returned c'
      → handle_interrupt memory translate_addr 33 cause head head c ≡ returned c'
  unfolding handle_interrupt transmit
  handle_interrupt-send cause head c c' rxt txdw low e = rw (rxt, ==_self head, low, e, txdw) refl

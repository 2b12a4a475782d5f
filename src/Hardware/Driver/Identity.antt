-- ===== src/Hardware/Driver/Identity.antt =====
-- src/hardware/device/e1000.rs: the number of a card, which the interrupt handler never changes.
use rucoonos.Prelude.{
  ℕ, zero, suc, ◌%◌, ◌≡◌, ◌⊎◌, inl, inr, refl, sym, ap, ◌∙◌, arith, Bool, true, false, ◌&&◌, ◌||◌,
  ◌==◌, List, [], ◌∷◌, Option, Bytes, if◌then◌else◌,
}
use rucoonos.Prelude.Arrays.{get_elem?}
use rucoonos.Hardware.Loop.{
  Exec, returned, panicked, running, ◌then◌, again, stop, loop, loop_keeps,
}
use rucoonos.Hardware.Registers.{InterruptCauseRegister}
use rucoonos.Hardware.Driver.{
  Card, RxDesc, TxDesc, Outgoing, Cycle, received, tested, fetched, receive_one, receive, enqueued,
  enqueue_packet, send, transmit, reclaimed, checked, visited, reclaim_one, reclaim,
  handle_interrupt,
}

-- The card that running code returns, if it returns one, has the number.
HasId : ℕ → Exec Card → Type 0
HasId i run = (c : Card) → run ≡ returned c → c.id ≡ i

then-HasId :
    (i : ℕ) (run : Exec Card) (next : Card → Exec Card)
    → HasId i run
    → ((c : Card) → c.id ≡ i → HasId i (next c))
    → HasId i (run then next)
unfolding HasId
then-HasId i (returned c) next h k = k c (h c refl)
then-HasId i panicked next h k = λ c e. cc
then-HasId i running next h k = λ c e. cc

returned-HasId : (i : ℕ) (c : Card) → c.id ≡ i → HasId i (returned c)
unfolding HasId
returned-HasId i c h = λ c' e. cc

module _ (memory : ℕ → ℕ → Bytes) where
  fetched-id :
      (c : Card) (d : Option RxDesc) (ptr : Option ℕ) (c' : Card)
      → (fetched memory c d ptr ≡ again c') ⊎ (fetched memory c d ptr ≡ stop c')
      → c'.id ≡ c.id
  unfolding fetched tested received
  fetched-id c d ptr c' h = ground arith

  receive_one-id :
      (c c' : Card)
      → (receive_one memory c ≡ again c') ⊎ (receive_one memory c ≡ stop c')
      → c'.id ≡ c.id
  unfolding receive_one
  receive_one-id c c' h =
      fetched-id c (get_elem? c.rx_ring c.cur_rx) (get_elem? c.rx_buffers c.cur_rx) c' h

  receive-HasId : (i fuel : ℕ) (c : Card) → c.id ≡ i → HasId i (receive memory fuel c)
  unfolding HasId receive
  receive-HasId i fuel c h = λ c' e.
      loop_keeps (receive_one memory) (λ x. x.id ≡ i) (λ a b k f. receive_one-id a b (inl f) ∙ k)
        (λ a b k f. receive_one-id a b (inr f) ∙ k) fuel c c' h e

module _ (translate_addr : ℕ → Option ℕ) where
  enqueued-id :
      (c : Card) (p : Outgoing) (d : Option TxDesc) (addr old : Option ℕ) (c' : Card)
      → enqueued translate_addr c p d addr old ≡ returned c'
      → c'.id ≡ c.id
  unfolding enqueued
  enqueued-id c p d addr old c' h = ground arith

  send-HasId :
      (i n : ℕ) (queue : List Outgoing) (c : Card)
      → c.id ≡ i
      → HasId i (send translate_addr n queue c)
  unfolding send HasId enqueue_packet
  send-HasId i zero queue c h = λ c' e. ground arith
  send-HasId i (suc n) [] c h = λ c' e. ground arith
  send-HasId i (suc n) (p ∷ ps) c h =
      then-HasId i (enqueue_packet translate_addr c p) (send translate_addr n ps)
        (λ c' e.
          enqueued-id c p (get_elem? c.tx_ring c.cur_tx) (translate_addr p.data_ptr)
            (get_elem? c.tx_buffers c.cur_tx) c' e
          ∙ h)
        (λ c' k. send-HasId i n ps c' k)

visited-id :
    (s : Cycle) (met : Bool) (d : Option TxDesc) (ptr : Option ℕ) (s' : Cycle)
    → (visited s met d ptr ≡ again s') ⊎ (visited s met d ptr ≡ stop s')
    → s'.card.id ≡ s.card.id
unfolding visited checked reclaimed
visited-id s met d ptr s' h = ground arith

reclaim_one-id :
    (head : ℕ) (s s' : Cycle)
    → (reclaim_one head s ≡ again s') ⊎ (reclaim_one head s ≡ stop s')
    → s'.card.id ≡ s.card.id
unfolding reclaim_one
reclaim_one-id head s s' h =
    visited-id s (s.next == head) (get_elem? s.card.tx_ring s.next)
      (get_elem? s.card.tx_buffers s.next) s' h

reclaim-HasId : (i fuel head : ℕ) (c : Card) → c.id ≡ i → HasId i (reclaim fuel head c)
unfolding HasId reclaim
reclaim-HasId i fuel head c h = λ c' e.
    from (loop (reclaim_one head) fuel (record { next = c.last_reclaimed_tx % 8; card = c }))
      (λ s r.
        loop_keeps (reclaim_one head) (λ x. x.card.id ≡ i)
          (λ a b k f. reclaim_one-id head a b (inl f) ∙ k)
          (λ a b k f. reclaim_one-id head a b (inr f) ∙ k) fuel _ s h r)
      c' e
  where
    from :
        (run : Exec Cycle)
        → ((s : Cycle) → run ≡ returned s → s.card.id ≡ i)
        → (c' : Card) → (run then λ s. returned s.card) ≡ returned c'
        → c'.id ≡ i
    from (returned s) k c' e = ap Card.id (inner (sym e)) ∙ k s refl
      where
        inner : {x y : Card} → returned x ≡ returned y → x ≡ y
        inner e = cc
    from panicked k c' e = cc
    from running k c' e = cc

-- A card keeps its number through an interrupt.
pub handle_interrupt-id :
    (memory : ℕ → ℕ → Bytes) (translate_addr : ℕ → Option ℕ) (fuel : ℕ)
    (cause : InterruptCauseRegister) (head tail : ℕ) (c c' : Card)
    → handle_interrupt memory translate_addr fuel cause head tail c ≡ returned c'
    → c'.id ≡ c.id
unfolding handle_interrupt transmit HasId
handle_interrupt-id memory translate_addr fuel cause head tail c c' e =
    then-HasId c.id _ (λ c. if cause.txdw then reclaim fuel head c else returned c)
      (then-HasId c.id (if cause.rxt then receive memory fuel c else returned c)
        (λ c. transmit translate_addr cause head tail c)
        (either cause.rxt (receive-HasId memory c.id fuel c refl) (returned-HasId c.id c refl))
        (λ x h.
          either ((head == tail) && (cause.txd_low || cause.txdw))
            (send-HasId translate_addr c.id 8 x.packet_queue x h) (returned-HasId c.id x h)))
      (λ x h. either cause.txdw (reclaim-HasId c.id fuel head x h) (returned-HasId c.id x h)) c' e
  where
    either :
        {i : ℕ} {on off : Exec Card} (b : Bool)
        → HasId i on
        → HasId i off
        → HasId i (if b then on else off)
    either true y n = y
    either false y n = n

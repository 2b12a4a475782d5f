-- ===== src/Hardware/Driver/Receive.antt =====
-- src/hardware/device/e1000.rs: the loop that takes the received frames off the ring.
use rucoonos.Prelude.{
  ℕ, zero, suc, ◌+◌, ◌%◌, ◌<◌, ◌≡◌, ◌≢◌, refl, sym, ap, ◌∙◌, arith, true, false, List, [], ◌∷◌,
  ◌++◌, append_assoc, append-nil, some, Bytes, length, Bool-cases, inl, inr,
}
use mathlib.Core.Path.{subst}
use rucoonos.Prelude.Arrays.{get_elem?, get_elem?_total}
use rucoonos.Net.Handler.State.{RawPacket}
use rucoonos.Hardware.Loop.{returned, again, stop, loop-again, loop-stop}
use rucoonos.Hardware.Driver.{
  Card, RxDesc, is_filled, packet_of, received, tested, fetched, receive_one, receive, rx_tail,
}
use rucoonos.Hardware.Driver.Pending.{
  IsValid, IsEmptyAt, handed_back, pending, pending-filled, pending-empty, received-IsValid,
  received-IsEmptyAt, received-other, received-pending,
}

module _ (memory : ℕ → ℕ → Bytes) where
  pub record IsDrained (c : Card) (packets : List RawPacket) (c' : Card) : Type 0 where
    pub messages : c'.messages ≡ c.messages ++ packets
    pub cur_rx : c'.cur_rx ≡ (c.cur_rx + length packets) % 32
    pub writes : c'.writes ≡ c.writes ++ handed_back c.cur_rx (length packets)
    pub next : IsEmptyAt c'.rx_ring c'.cur_rx
    pub valid : IsValid c'
    pub packet_queue : c'.packet_queue ≡ c.packet_queue

  receive_one-again :
      (c : Card) (d : RxDesc) (p : ℕ)
      → get_elem? c.rx_ring c.cur_rx ≡ some d
      → get_elem? c.rx_buffers c.cur_rx ≡ some p
      → is_filled d ≡ true
      → receive_one memory c ≡ again (received memory c d p)
  unfolding receive_one fetched tested
  receive_one-again c d p e f full =
      ap (λ x. fetched memory c x (get_elem? c.rx_buffers c.cur_rx)) e
      ∙ ap (λ y. fetched memory c (some d) y) f
      ∙ ap (λ b. tested memory c d b (some p)) full

  receive_one-stop :
      (c : Card) (d : RxDesc)
      → get_elem? c.rx_ring c.cur_rx ≡ some d
      → is_filled d ≡ false
      → receive_one memory c ≡ stop c
  unfolding receive_one fetched tested
  receive_one-stop c d e empty =
      ap (λ x. fetched memory c x (get_elem? c.rx_buffers c.cur_rx)) e
      ∙ ap (λ b. tested memory c d b (get_elem? c.rx_buffers c.cur_rx)) empty

  received-IsDrained :
      (c : Card) (d : RxDesc) (p : ℕ) (rest : List RawPacket) (c' : Card)
      → IsDrained (received memory c d p) rest c'
      → IsDrained c (packet_of memory c.id d p ∷ rest) c'
  unfolding received
  received-IsDrained c d p rest c' h = record {
    messages = h.messages ∙ append_assoc c.messages (packet_of memory c.id d p ∷ []) rest;
    cur_rx = h.cur_rx ∙ omega arith;
    writes =
        h.writes
        ∙ append_assoc c.writes ((rx_tail, c.cur_rx) ∷ [])
            (handed_back ((c.cur_rx + 1) % 32) (length rest));
    next = h.next;
    valid = h.valid;
    packet_queue = h.packet_queue;
  }

  nothing-IsDrained : (c : Card) → IsValid c → IsEmptyAt c.rx_ring c.cur_rx → IsDrained c [] c
  nothing-IsDrained c v next = record {
    messages = sym (append-nil c.messages);
    cur_rx = bounded v.cur_rx;
    writes = sym (append-nil c.writes);
    next = next;
    valid = v;
    packet_queue = refl;
  }
    where
      bounded : c.cur_rx < 32 → c.cur_rx ≡ (c.cur_rx + 0) % 32
      bounded h = omega arith

  -- A round of the loop, and what the rest of the loop comes to after it.
  receive_round :
      (n fuel : ℕ) (c : Card)
      → IsValid c
      → n < 32
      → ((d : RxDesc) (p : ℕ)
          → (c' : Card) × (receive memory fuel (received memory c d p) ≡ returned c')
            × IsDrained
                (received memory c d p)
                (pending memory c.id c.rx_buffers
                  ((received memory c d p).rx_ring)
                  ((c.cur_rx + 1) % 32)
                  n)
                c')
      → (c' : Card) × (receive memory (suc fuel) c ≡ returned c')
        × IsDrained c (pending memory c.id c.rx_buffers c.rx_ring c.cur_rx (suc n)) c'
  unfolding receive
  receive_round n fuel c v lt rest =
      let (d, e) = get_elem?_total c.rx_ring c.cur_rx (inside v.cur_rx v.rx_ring) in
      let (p, f) = get_elem?_total c.rx_buffers c.cur_rx (within v.cur_rx v.rx_buffers) in
      elim (Bool-cases (is_filled d)) [
        | inl full ↦
            let (c', r, h) = rest d p in
            let same =
              received-pending memory c d p n ((c.cur_rx + 1) % 32) (apart v.cur_rx)
                (omega arith) in
            (
              c',
              loop-again (receive_one memory) fuel c (received memory c d p)
                    (receive_one-again c d p e f full)
                  ∙ r,
              subst (λ xs. IsDrained c xs c')
                  (sym (pending-filled memory c d p n c.cur_rx e f full))
                  (received-IsDrained c d p _ c'
                    (subst (λ xs. IsDrained (received memory c d p) xs c') same h)),
            )
        | inr empty ↦ (
          c,
          loop-stop (receive_one memory) fuel c c (receive_one-stop c d e empty),
          subst (λ xs. IsDrained c xs c) (sym (pending-empty memory c d p n c.cur_rx e f empty))
              (nothing-IsDrained c v (d, e, empty)),
        )
      ]
    where
      inside : c.cur_rx < 32 → length c.rx_ring ≡ 33 → c.cur_rx < length c.rx_ring
      inside h e = omega arith

      within : c.cur_rx < 32 → length c.rx_buffers ≡ 32 → c.cur_rx < length c.rx_buffers
      within h e = omega arith

      apart : c.cur_rx < 32 → (m : ℕ) → m < n → ((c.cur_rx + 1) % 32 + m) % 32 ≢ c.cur_rx
      apart h m k e = omega arith

  -- The loop from a card with an empty descriptor within the next `n`.
  receive_before :
      (n : ℕ) (c : Card)
      → IsValid c
      → n < 32
      → IsEmptyAt c.rx_ring ((c.cur_rx + n) % 32)
      → (c' : Card) × (receive memory (suc n) c ≡ returned c')
        × IsDrained c (pending memory c.id c.rx_buffers c.rx_ring c.cur_rx n) c'
  unfolding receive pending received
  receive_before zero c v le empty =
      let here : IsEmptyAt c.rx_ring c.cur_rx = subst (IsEmptyAt c.rx_ring) (at v.cur_rx) empty in
      let (d, e, f) = here in
      (
        c,
        loop-stop (receive_one memory) 0 c c (receive_one-stop c d e f),
        nothing-IsDrained c v here,
      )
    where
      at : c.cur_rx < 32 → (c.cur_rx + 0) % 32 ≡ c.cur_rx
      at h = omega arith
  receive_before (suc n) c v le empty =
      let (x, e, f) = subst (IsEmptyAt c.rx_ring) (moved v.cur_rx) empty in
      receive_round n (suc n) c v (omega arith) (λ d p.
        receive_before n (received memory c d p) (received-IsValid memory c d p v) (omega arith)
          (x, received-other memory c d p _ (apart v.cur_rx) ∙ e, f))
    where
      moved : c.cur_rx < 32 → (c.cur_rx + suc n) % 32 ≡ ((c.cur_rx + 1) % 32 + n) % 32
      moved h = omega arith

      apart : c.cur_rx < 32 → ((c.cur_rx + 1) % 32 + n) % 32 ≢ c.cur_rx
      apart h e = omega arith

  -- The receiving loop ends on every valid card, 33 rounds at most: it hands the network handler the
  -- frames that stand in the ring from the current descriptor on, up to the first descriptor without
  -- one, each once and in their order, gives their descriptors back to the card one by one, and
  -- leaves a valid card whose current descriptor is empty.
  pub receive-IsDrained :
      (c : Card)
      → IsValid c
      → (c' : Card) × (receive memory 33 c ≡ returned c')
        × IsDrained c (pending memory c.id c.rx_buffers c.rx_ring c.cur_rx 32) c'
  unfolding received
  receive-IsDrained c v = receive_round 31 32 c v (omega arith) rest
    where
      around : c.cur_rx < 32 → c.cur_rx ≡ ((c.cur_rx + 1) % 32 + 31) % 32
      around h = omega arith

      rest :
          (d : RxDesc) (p : ℕ)
          → (c' : Card) × (receive memory 32 (received memory c d p) ≡ returned c')
            × IsDrained
                (received memory c d p)
                (pending memory c.id c.rx_buffers
                  ((received memory c d p).rx_ring)
                  ((c.cur_rx + 1) % 32)
                  31)
                c'
      rest d p =
          receive_before 31 (received memory c d p) (received-IsValid memory c d p v) (omega arith)
            (subst (IsEmptyAt ((received memory c d p).rx_ring)) (around v.cur_rx)
              (received-IsEmptyAt memory c d p v))

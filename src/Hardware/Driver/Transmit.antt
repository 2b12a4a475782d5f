-- ===== src/Hardware/Driver/Transmit.antt =====
-- src/hardware/device/e1000.rs: the frames that are put on the sending ring.
use rucoonos.Prelude.{
  ℕ, zero, suc, ◌+◌, ◌-◌, ◌%◌, ◌<◌, ◌≤◌, ◌≡◌, refl, sym, ap, ◌∙◌, arith, true, false, List, [], ◌∷◌,
  Option, length, take, drop, ltb, if◌then◌else◌, Bool-cases, inl, inr, length-take, All,
}
use mathlib.Core.Path.{subst}
use rucoonos.Hardware.Loop.{returned, ◌then◌}
use rucoonos.Hardware.Driver.{Card, Outgoing, send}
use rucoonos.Hardware.Driver.Pending.{IsValid}
use rucoonos.Hardware.Driver.Enqueue.{
  handed_over, window, take_all, DescribeAll, IsMapped, IsSent, nothing-IsSent,
  enqueue_packet-IsValid, enqueued-IsSent,
}

module _ (translate_addr : ℕ → Option ℕ) where
  pub send-IsSent :
      (n : ℕ) (q : List Outgoing) (c : Card)
      → n ≤ 8
      → IsValid c
      → All (IsMapped translate_addr) (take n q)
      → (c' : Card) × (send translate_addr n q c ≡ returned c') × IsSent translate_addr n q c c'
  unfolding send
  send-IsSent zero q c le v maps = (_, refl, nothing-IsSent translate_addr zero q c v refl refl)
  send-IsSent (suc n) [] c le v maps =
      (_, refl, nothing-IsSent translate_addr (suc n) [] c v refl refl)
  send-IsSent (suc n) (p ∷ ps) c le v (here, maps) =
      let (d, c1, e, v1, desc, ring, cur, msgs) =
        enqueue_packet-IsValid translate_addr c p v here in
      let (c', r, h) = send-IsSent n ps c1 (omega arith) v1 maps in
      (
        c',
        ap (λ x. x then (λ c'. send translate_addr n ps c')) e ∙ r,
        enqueued-IsSent translate_addr n p ps c c1 c' d (omega arith) v desc ring cur msgs h,
      )

  -- Where every waiting frame's buffer is mapped, sending from a valid card returns a valid card and
  -- takes the first eight frames off the packet queue. Up to seven waiting frames then stand from the
  -- old to the new tail as the descriptors of their buffers, in their order. With eight or more no
  -- descriptor stands there: the new tail is the old one.
  pub send-handed_over :
      (q : List Outgoing) (c : Card)
      → IsValid c
      → All (IsMapped translate_addr) (take 8 q)
      → (c' : Card) × (send translate_addr 8 q c ≡ returned c')
        × IsValid c'
        × (c'.packet_queue ≡ drop 8 q)
        × DescribeAll translate_addr
            (if ltb (length q) 8 then q else [])
            (handed_over c'.tx_ring c.cur_tx c'.cur_tx)
  unfolding handed_over window
  send-handed_over q c v maps =
      let (c', r, h) = send-IsSent 8 q c (omega arith) v maps in
      (
        c',
        r,
        h.valid,
        h.packet_queue,
        elim (Bool-cases (ltb (length q) 8)) [
          | inl short ↦
              subst
                (λ xs.
                  DescribeAll translate_addr xs
                    (window c'.tx_ring c.cur_tx ((c'.cur_tx + 8 - c.cur_tx) % 8)))
                (sym (ap (λ b. if b then q else []) short))
                (subst (λ k. DescribeAll translate_addr q (window c'.tx_ring c.cur_tx k))
                  (sym (some_left short v.cur_tx h.cur_tx))
                  (subst
                    (λ xs. DescribeAll translate_addr xs (window c'.tx_ring c.cur_tx (length xs)))
                    (take_all 8 q (few short)) h.descriptors))
          | inr long ↦
              subst
                (λ xs.
                  DescribeAll translate_addr xs
                    (window c'.tx_ring c.cur_tx ((c'.cur_tx + 8 - c.cur_tx) % 8)))
                (sym (ap (λ b. if b then q else []) long))
                (subst (λ k. DescribeAll translate_addr [] (window c'.tx_ring c.cur_tx k))
                  (sym (none_left long v.cur_tx h.cur_tx)) tt)
        ],
      )
    where
      few : ltb (length q) 8 ≡ true → length q ≤ 8
      few h = ground arith

      count :
          (k : ℕ) {x : ℕ}
          → k < 8
          → c.cur_tx < 8
          → x ≡ (c.cur_tx + k) % 8
          → (x + 8 - c.cur_tx) % 8 ≡ k
      count k l b e = omega arith

      many : ltb (length q) 8 ≡ false → 8 ≤ length q
      many h = ground arith

      fewer : ltb (length q) 8 ≡ true → length q < 8
      fewer h = ground arith

      some_left :
          {x : ℕ}
          → ltb (length q) 8 ≡ true
          → c.cur_tx < 8
          → x ≡ (c.cur_tx + length (take 8 q)) % 8
          → (x + 8 - c.cur_tx) % 8 ≡ length q
      some_left s b e =
          count (length q) (fewer s) b
            (e ∙ ap (λ xs. (c.cur_tx + length xs) % 8) (take_all 8 q (few s)))

      all :
          (k : ℕ) {x : ℕ}
          → k ≡ 8
          → c.cur_tx < 8
          → x ≡ (c.cur_tx + k) % 8
          → (x + 8 - c.cur_tx) % 8 ≡ 0
      all k l b e = omega arith

      eight : 8 ≤ length q → length (take 8 q) ≡ 8
      eight h = omega (arith, length-take 8 q)

      none_left :
          {x : ℕ}
          → ltb (length q) 8 ≡ false
          → c.cur_tx < 8
          → x ≡ (c.cur_tx + length (take 8 q)) % 8
          → (x + 8 - c.cur_tx) % 8 ≡ 0
      none_left s b e = all (length (take 8 q)) (eight (many s)) b e

-- ===== src/Hardware/Driver/Reclaim.antt =====
-- src/hardware/device/e1000.rs: the loop that drops the buffers of the frames that are sent.
use rucoonos.Prelude.{
  ℕ, zero, suc, ◌+◌, ◌-◌, ◌%◌, ◌<◌, ◌≤◌, ◌≡◌, ◌↔◌, refl, sym, ap, ◌∙◌, arith, true, false, ◌++◌,
  append-nil, if◌then◌else◌, ltb, Bool-cases, inl, inr,
}
use mathlib.Core.Path.{subst}
use rucoonos.Hardware.Loop.{returned, ◌then◌, loop, running, loop-again, loop-stop, loop_more}
use rucoonos.Hardware.Driver.{Card, Cycle, reclaim_one, reclaim}
use rucoonos.Hardware.Driver.Pending.{IsValid}
use rucoonos.Hardware.Driver.Sent.{sent_buffers, IsReclaimed, reclaim_one-IsNext, reclaim_one-stop}

loop-IsReclaimed :
    (head n : ℕ) (s : Cycle)
    → IsValid s.card
    → s.next < 8
    → n < 8
    → (s.next + n) % 8 ≡ head
    → (s' : Cycle) × (loop (reclaim_one head) (suc n) s ≡ returned s') × IsReclaimed n s s'
unfolding sent_buffers
loop-IsReclaimed head zero s v lt le e = (
  s,
  loop-stop (reclaim_one head) 0 s s (reclaim_one-stop head s (omega arith)),
  record {
    dropped = sym (append-nil s.card.dropped);
    packet_queue = refl;
    messages = refl;
    valid = v;
  },
)
loop-IsReclaimed head (suc n) s v lt le e =
    let (s1, r, h) = reclaim_one-IsNext head s v lt (λ f. omega arith) in
    let (s', q, k) =
      loop-IsReclaimed head n s1 h.valid (bound h.next) (omega arith) (ahead h.next) in
    (s', loop-again (reclaim_one head) (suc n) s s1 r ∙ q, h.rest n s' (omega arith) k)
  where
    bound : {x : ℕ} → x ≡ (s.next + 1) % 8 → x < 8
    bound f = omega arith

    ahead : {x : ℕ} → x ≡ (s.next + 1) % 8 → (x + n) % 8 ≡ head
    ahead f = omega arith

pub reclaim-IsReclaimed :
    (fuel head : ℕ) (c : Card)
    → IsValid c
    → head < 8
    → 8 ≤ fuel
    → (s' : Cycle) × (reclaim fuel head c ≡ returned s'.card)
      × IsReclaimed
          ((head + 8 - c.last_reclaimed_tx) % 8)
          (record { next = c.last_reclaimed_tx; card = c })
          s'
unfolding reclaim
reclaim-IsReclaimed fuel head c v lt le =
    let first : Cycle = record { next = c.last_reclaimed_tx % 8; card = c } in
    let (s', r, h) =
      loop-IsReclaimed head n first v (omega arith) (omega arith) (meets v.last_reclaimed_tx) in
    (
      s',
      ap (λ x. x then λ s. returned s.card)
          (loop_more (reclaim_one head) (suc n) fuel first s' (omega arith) r),
      subst (λ i. IsReclaimed n (record { next = i; card = c }) s') (start v.last_reclaimed_tx) h,
    )
  where
    n : ℕ
    n = (head + 8 - c.last_reclaimed_tx) % 8

    start : c.last_reclaimed_tx < 8 → c.last_reclaimed_tx % 8 ≡ c.last_reclaimed_tx
    start h = omega arith

    meets : c.last_reclaimed_tx < 8 → (c.last_reclaimed_tx % 8 + n) % 8 ≡ head
    meets h = omega arith

-- With the head inside the ring, the reclaiming loop ends on every valid card, 8 rounds at most: it
-- drops the buffers of the sent frames from the last reclaimed index up to the head, each once and in
-- their order, and leaves a valid card.
pub reclaim-dropped :
    (head : ℕ) (c : Card)
    → IsValid c
    → head < 8
    → (c' : Card) × (reclaim 8 head c ≡ returned c')
      × (c'.dropped
          ≡ c.dropped
            ++ sent_buffers c.tx_ring c.tx_buffers c.last_reclaimed_tx
                ((head + 8 - c.last_reclaimed_tx) % 8))
      × IsValid c'
reclaim-dropped head c v lt =
    let (s', r, h) = reclaim-IsReclaimed 8 head c v lt (omega arith) in
    (s'.card, r, h.dropped, h.valid)

-- A head outside the ring is never met.
loop-running :
    (head fuel : ℕ) (s : Cycle)
    → IsValid s.card
    → s.next < 8
    → 8 ≤ head
    → loop (reclaim_one head) fuel s ≡ running
unfolding loop
loop-running head zero s v lt le = refl
loop-running head (suc fuel) s v lt le =
    let (s1, r, h) = reclaim_one-IsNext head s v lt (λ e. omega arith) in
    loop-again (reclaim_one head) fuel s s1 r ∙ loop-running head fuel s1 h.valid (bound h.next) le
  where
    bound : {x : ℕ} → x ≡ (s.next + 1) % 8 → x < 8
    bound f = omega arith

-- On a valid card the reclaiming loop ends exactly if the head that was read lies inside the ring.
reclaim-returned_iff :
    (head : ℕ) (c : Card)
    → IsValid c
    → ((fuel : ℕ) × (c' : Card) × (reclaim fuel head c ≡ returned c')) ↔ (head < 8)
unfolding reclaim
reclaim-returned_iff head c v = (
  (λ (fuel, c', e). elim (Bool-cases (ltb head 8)) [
    | inl inside ↦ less inside
    | inr outside ↦
        (let f =
            sym (
              ap (λ x. x then λ s. returned s.card)
                (loop-running head fuel (record { next = c.last_reclaimed_tx % 8; card = c }) v
                  (omega arith) (more outside)))
            ∙ e in
          cc)
  ]),
  (λ lt. let (c', e, _, _) = reclaim-dropped head c v lt in (8, c', e)),
)
  where
    less : ltb head 8 ≡ true → head < 8
    less h = ground arith

    more : ltb head 8 ≡ false → 8 ≤ head
    more h = ground arith

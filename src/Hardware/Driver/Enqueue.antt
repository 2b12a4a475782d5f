-- ===== src/Hardware/Driver/Enqueue.antt =====
-- src/hardware/device/e1000.rs: the sending ring as the card sees it, and a frame put on it.
use rucoonos.Prelude.{
  ℕ, zero, suc, ◌+◌, ◌-◌, ◌%◌, ◌^◌, ◌<◌, ◌≤◌, ◌≡◌, ◌≢◌, refl, sym, ap, ◌∙◌, arith, List, [], ◌∷◌,
  Option, none, some, length, take, drop, min, length-take,
}
use mathlib.Core.Path.{subst}
use rucoonos.Prelude.Arrays.{
  get_elem?, set, length-set, get_elem?_total, get_elem?-set, get_elem?-set_ne,
}
use rucoonos.Hardware.Loop.{returned}
use rucoonos.Hardware.Driver.{Card, TxDesc, Outgoing, filled, enqueued, enqueue_packet}
use rucoonos.Hardware.Driver.Pending.{IsValid}

-- The descriptors of the sending ring from an index on.
abbrev pub cons_some : Option TxDesc → List TxDesc → List TxDesc
cons_some none rest = rest
cons_some (some d) rest = d ∷ rest

unfoldable pub window : List TxDesc → ℕ → ℕ → List TxDesc
window ring i zero = []
window ring i (suc n) = cons_some (get_elem? ring i) (window ring ((i + 1) % 8) n)

-- What the card sees as its own: the descriptors from the head to the tail, none where they are equal.
unfoldable pub handed_over : List TxDesc → ℕ → ℕ → List TxDesc
handed_over ring head tail = window ring head ((tail + 8 - head) % 8)

pub take_all {ℓ} : {A : Type ℓ} (n : ℕ) (xs : List A) → length xs ≤ n → take n xs ≡ xs
take_all zero [] h = refl
take_all zero (x ∷ xs) h = elim h [ ]
take_all (suc n) [] h = refl
take_all (suc n) (x ∷ xs) h = ap (λ ys. x ∷ ys) (take_all n xs (omega arith))

module _ (translate_addr : ℕ → Option ℕ) where
  -- The descriptor is that of the frame: its physical address, its length, and not yet sent.
  abbrev pub Describes : Outgoing → TxDesc → Type 0
  Describes p d =
      (translate_addr p.data_ptr ≡ some d.addr)
      × (d.length ≡ p.len % 2 ^ 16)
      × (◌≡◌ {A = ℕ} d.status 0)
      × (◌≡◌ {A = ℕ} d.cmd 11)

  -- The descriptors are those of the frames, one by one.
  abbrev pub DescribeAll : List Outgoing → List TxDesc → Type 0
  DescribeAll [] [] = Unit {0}
  DescribeAll [] (d ∷ ds) = ⊥
  DescribeAll (p ∷ ps) [] = ⊥
  DescribeAll (p ∷ ps) (d ∷ ds) = Describes p d × DescribeAll ps ds

  -- The page table maps the frame's buffer.
  abbrev pub IsMapped : Outgoing → Type 0
  IsMapped p = (addr : ℕ) × (translate_addr p.data_ptr ≡ some addr)

  -- What sending `n` frames from the queue `q` makes of the card.
  pub record IsSent (n : ℕ) (q : List Outgoing) (c c' : Card) : Type 0 where
    pub packet_queue : c'.packet_queue ≡ drop n q
    pub cur_tx : c'.cur_tx ≡ (c.cur_tx + length (take n q)) % 8
    pub descriptors : DescribeAll (take n q) (window c'.tx_ring c.cur_tx (length (take n q)))
    pub others :
        (j : ℕ)
        → ((m : ℕ) → m < length (take n q) → (c.cur_tx + m) % 8 ≢ j)
        → get_elem? c'.tx_ring j ≡ get_elem? c.tx_ring j
    pub messages : c'.messages ≡ c.messages
    pub valid : IsValid c'

  pub nothing-IsSent :
      (n : ℕ) (q : List Outgoing) (c : Card)
      → IsValid c
      → take n q ≡ []
      → drop n q ≡ q
      → IsSent n q c (record c { packet_queue = q })
  unfolding window
  nothing-IsSent n q c v e f = record {
    packet_queue = sym f;
    cur_tx = rw e (at v.cur_tx);
    descriptors = rw e tt;
    others = λ j apart. refl;
    messages = refl;
    valid = record {
      rx_ring = v.rx_ring;
      rx_buffers = v.rx_buffers;
      cur_rx = v.cur_rx;
      tx_ring = v.tx_ring;
      tx_buffers = v.tx_buffers;
      cur_tx = v.cur_tx;
      last_reclaimed_tx = v.last_reclaimed_tx;
    };
  }
    where
      at : c.cur_tx < 8 → c.cur_tx ≡ (c.cur_tx + 0) % 8
      at h = omega arith

  -- One frame is put on the ring of a valid card.
  pub enqueue_packet-IsValid :
      (c : Card) (p : Outgoing)
      → IsValid c
      → IsMapped p
      → (d : TxDesc) × (c' : Card) × (enqueue_packet translate_addr c p ≡ returned c')
        × IsValid c'
        × Describes p d
        × (c'.tx_ring ≡ set c.tx_ring c.cur_tx d)
        × (c'.cur_tx ≡ (c.cur_tx + 1) % 8)
        × (c'.messages ≡ c.messages)
  unfolding enqueue_packet enqueued filled
  enqueue_packet-IsValid c p v (addr, m) =
      let (d, e) = get_elem?_total c.tx_ring c.cur_tx (inside v.cur_tx v.tx_ring) in
      let (old, f) = get_elem?_total c.tx_buffers c.cur_tx (within v.cur_tx v.tx_buffers) in
      (
        filled translate_addr d addr p.len,
        _,
        ap
              (λ x.
                enqueued translate_addr c p x (translate_addr p.data_ptr)
                  (get_elem? c.tx_buffers c.cur_tx))
              e
            ∙ ap (λ x. enqueued translate_addr c p (some d) x (get_elem? c.tx_buffers c.cur_tx)) m
            ∙ ap (λ x. enqueued translate_addr c p (some d) (some addr) x) f,
        record {
          rx_ring = v.rx_ring;
          rx_buffers = v.rx_buffers;
          cur_rx = v.cur_rx;
          tx_ring = length-set c.tx_ring c.cur_tx _ ∙ v.tx_ring;
          tx_buffers = length-set c.tx_buffers c.cur_tx _ ∙ v.tx_buffers;
          cur_tx = omega arith;
          last_reclaimed_tx = v.last_reclaimed_tx;
        },
        (m, refl, refl, refl),
        refl,
        refl,
        refl,
      )
    where
      inside : c.cur_tx < 8 → length c.tx_ring ≡ 9 → c.cur_tx < length c.tx_ring
      inside h e = omega arith

      within : c.cur_tx < 8 → length c.tx_buffers ≡ 8 → c.cur_tx < length c.tx_buffers
      within h e = omega arith

  pub enqueued-IsSent :
      (n : ℕ) (p : Outgoing) (ps : List Outgoing) (c c1 c' : Card) (d : TxDesc)
      → n < 8
      → IsValid c
      → Describes p d
      → c1.tx_ring ≡ set c.tx_ring c.cur_tx d
      → c1.cur_tx ≡ (c.cur_tx + 1) % 8
      → c1.messages ≡ c.messages
      → IsSent n ps c1 c'
      → IsSent (suc n) (p ∷ ps) c c'
  unfolding window
  enqueued-IsSent n p ps c c1 c' d lt v desc ring cur msgs h = record {
    packet_queue = h.packet_queue;
    cur_tx = next cur h.cur_tx;
    descriptors =
        subst
          (λ x.
            DescribeAll (p ∷ take n ps)
              (cons_some x (window c'.tx_ring ((c.cur_tx + 1) % 8) (length (take n ps)))))
          (sym first)
          (
            desc,
            subst (λ i. DescribeAll (take n ps) (window c'.tx_ring i (length (take n ps)))) cur
                h.descriptors,
          );
    others = λ j apart.
        h.others j (λ m k e. apart (suc m) (omega arith) (shift m cur e))
        ∙ ap (λ r. get_elem? r j) ring
        ∙ get_elem?-set_ne c.tx_ring c.cur_tx j d (λ e. apart 0 (omega arith) (start e v.cur_tx));
    messages = h.messages ∙ msgs;
    valid = h.valid;
  }
    where
      k : ℕ
      k = length (take n ps)

      next :
          c1.cur_tx ≡ (c.cur_tx + 1) % 8
          → c'.cur_tx ≡ (c1.cur_tx + length (take n ps)) % 8
          → c'.cur_tx ≡ (c.cur_tx + suc (length (take n ps))) % 8
      next e f = omega arith

      shift :
          {j : ℕ} (m : ℕ)
          → c1.cur_tx ≡ (c.cur_tx + 1) % 8
          → (c1.cur_tx + m) % 8 ≡ j
          → (c.cur_tx + suc m) % 8 ≡ j
      shift m e f = omega arith

      start : {j : ℕ} → j ≡ c.cur_tx → c.cur_tx < 8 → (c.cur_tx + 0) % 8 ≡ j
      start e f = omega arith

      short : min n (length ps) < 8
      short = omega arith

      apart :
          c.cur_tx < 8
          → c1.cur_tx ≡ (c.cur_tx + 1) % 8
          → (m : ℕ) → m < length (take n ps)
          → (c1.cur_tx + m) % 8 ≢ c.cur_tx
      apart b e m l f = omega (arith, length-take n ps)

      inside : c.cur_tx < 8 → length c.tx_ring ≡ 9 → c.cur_tx < length c.tx_ring
      inside b e = omega arith

      first : get_elem? c'.tx_ring c.cur_tx ≡ some d
      first =
          h.others c.cur_tx (apart v.cur_tx cur)
          ∙ ap (λ r. get_elem? r c.cur_tx) ring
          ∙ get_elem?-set c.tx_ring c.cur_tx d (inside v.cur_tx v.tx_ring)

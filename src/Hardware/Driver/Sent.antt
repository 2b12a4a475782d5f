-- ===== src/Hardware/Driver/Sent.antt =====
-- src/hardware/device/e1000.rs: a round of the loop that drops the buffers of the frames that are sent.
use rucoonos.Prelude.{
  ℕ, zero, suc, ◌+◌, ◌%◌, ◌<◌, ◌≡◌, ◌≢◌, refl, sym, ap, ◌∙◌, arith, Bool, true, false, List, [],
  ◌∷◌, ◌++◌, append_assoc, Option, none, some, length, if◌then◌else◌, ◌==◌, eq→==, ne→==,
}
use rucoonos.Prelude.Arrays.{get_elem?, set, length-set, get_elem?_total, get_elem?-set_ne}
use rucoonos.Hardware.Loop.{◌then◌, again, stop}
use rucoonos.Hardware.Driver.{Card, TxDesc, Cycle, reclaimed, checked, visited, reclaim_one}
use rucoonos.Hardware.Driver.Pending.{IsValid}

abbrev sent : Option TxDesc → Option ℕ → List ℕ → List ℕ
sent none ptr rest = rest
sent (some d) none rest = rest
sent (some d) (some ptr) rest = if d.status == 1 then ptr ∷ rest else rest

-- The buffers of the frames that the card has sent, among the `n` descriptors from an index on.
unfoldable pub sent_buffers : List TxDesc → List ℕ → ℕ → ℕ → List ℕ
sent_buffers ring buffers i zero = []
sent_buffers ring buffers i (suc n) =
    sent (get_elem? ring i) (get_elem? buffers i) (sent_buffers ring buffers ((i + 1) % 8) n)

-- What the rest of the iteration, over `n` indices, makes of the card.
pub record IsReclaimed (n : ℕ) (s s' : Cycle) : Type 0 where
  pub dropped :
      s'.card.dropped ≡ s.card.dropped ++ sent_buffers s.card.tx_ring s.card.tx_buffers s.next n
  pub packet_queue : s'.card.packet_queue ≡ s.card.packet_queue
  pub messages : s'.card.messages ≡ s.card.messages
  pub valid : IsValid s'.card

-- Giving up the buffer of one index changes nothing of the others.
set-sent_buffers :
    (ring : List TxDesc) (buffers : List ℕ) (i n j x : ℕ)
    → ((m : ℕ) → m < n → (j + m) % 8 ≢ i)
    → j < 8
    → sent_buffers ring (set buffers i x) j n ≡ sent_buffers ring buffers j n
unfolding sent_buffers
set-sent_buffers ring buffers i zero j x apart lt = refl
set-sent_buffers ring buffers i (suc n) j x apart lt =
    ap (λ y. sent (get_elem? ring j) y (sent_buffers ring (set buffers i x) ((j + 1) % 8) n))
      (get_elem?-set_ne buffers i j x (λ e. apart 0 (omega arith) (omega arith)))
    ∙ ap (λ rest. sent (get_elem? ring j) (get_elem? buffers j) rest)
        (set-sent_buffers ring buffers i n ((j + 1) % 8) x
          (λ m h e. apart (m + 1) (omega arith) (omega arith)) (omega arith))

reclaimed-IsValid : (c : Card) (i p : ℕ) → IsValid c → IsValid (reclaimed c i p)
unfolding reclaimed
reclaimed-IsValid c i p v = record {
  rx_ring = v.rx_ring;
  rx_buffers = v.rx_buffers;
  cur_rx = v.cur_rx;
  tx_ring = v.tx_ring;
  tx_buffers = length-set c.tx_buffers i 0 ∙ v.tx_buffers;
  cur_tx = v.cur_tx;
  last_reclaimed_tx = omega arith;
}

-- A round at another index than the head goes on to the next index, with a valid card.
pub record IsNext (s s1 : Cycle) : Type 0 where
  pub next : s1.next ≡ (s.next + 1) % 8
  pub valid : IsValid s1.card
  pub rest : (n : ℕ) (s' : Cycle) → n < 8 → IsReclaimed n s1 s' → IsReclaimed (suc n) s s'

checked-IsNext :
    (s : Cycle) (d : TxDesc) (p : ℕ)
    → IsValid s.card
    → s.next < 8
    → get_elem? s.card.tx_ring s.next ≡ some d
    → get_elem? s.card.tx_buffers s.next ≡ some p
    → (b : Bool) → (d.status == 1) ≡ b
    → (s1 : Cycle) × (checked s (some p) b ≡ again s1) × IsNext s s1
unfolding checked sent_buffers
checked-IsNext s d p v lt e f false unsent = (
  _,
  refl,
  record {
    next = refl;
    valid = v;
    rest = λ n s' l h. record {
      dropped = rw (e, f, unsent) h.dropped;
      packet_queue = h.packet_queue;
      messages = h.messages;
      valid = h.valid;
    };
  },
)
checked-IsNext s d p v lt e f true done = (
  _,
  refl,
  record {
    next = refl;
    valid = reclaimed-IsValid s.card s.next p v;
    rest = λ n s' l h. record {
      dropped =
          h.dropped
          ∙ ap (λ xs. (s.card.dropped ++ (p ∷ [])) ++ xs)
              (set-sent_buffers s.card.tx_ring s.card.tx_buffers s.next n ((s.next + 1) % 8) 0
                (λ m k e. omega arith) (omega arith))
          ∙ append_assoc s.card.dropped (p ∷ []) _
          ∙ sym (ap (λ xs. s.card.dropped ++ xs) (rw (e, f, done) refl));
      packet_queue = h.packet_queue;
      messages = h.messages;
      valid = h.valid;
    };
  },
)

pub reclaim_one-IsNext :
    (head : ℕ) (s : Cycle)
    → IsValid s.card
    → s.next < 8
    → s.next ≢ head
    → (s1 : Cycle) × (reclaim_one head s ≡ again s1) × IsNext s s1
unfolding reclaim_one visited
reclaim_one-IsNext head s v lt ne =
    let (d, e) = get_elem?_total s.card.tx_ring s.next (inside lt v.tx_ring) in
    let (p, f) = get_elem?_total s.card.tx_buffers s.next (within lt v.tx_buffers) in
    let (s1, r, h) = checked-IsNext s d p v lt e f (d.status == 1) refl in
    (
      s1,
      ap (λ b. visited s b (get_elem? s.card.tx_ring s.next) (get_elem? s.card.tx_buffers s.next))
            (ne→== s.next head ne)
          ∙ ap (λ x. visited s false x (get_elem? s.card.tx_buffers s.next)) e
          ∙ ap (λ y. visited s false (some d) y) f
          ∙ r,
      h,
    )
  where
    inside : s.next < 8 → length s.card.tx_ring ≡ 9 → s.next < length s.card.tx_ring
    inside h e = omega arith

    within : s.next < 8 → length s.card.tx_buffers ≡ 8 → s.next < length s.card.tx_buffers
    within h e = omega arith

pub reclaim_one-stop : (head : ℕ) (s : Cycle) → s.next ≡ head → reclaim_one head s ≡ stop s
unfolding reclaim_one visited
reclaim_one-stop head s e =
    ap (λ b. visited s b (get_elem? s.card.tx_ring s.next) (get_elem? s.card.tx_buffers s.next))
      (eq→== s.next head e)

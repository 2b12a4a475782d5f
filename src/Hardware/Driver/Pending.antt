-- ===== src/Hardware/Driver/Pending.antt =====
-- src/hardware/device/e1000.rs: valid cards, and the frames that wait in the receiving ring.
use rucoonos.Prelude.{
  ℕ, zero, suc, ◌+◌, ◌%◌, ◌<◌, ◌≡◌, ◌≢◌, refl, sym, ap, ◌∙◌, arith, true, false, List, [], ◌∷◌,
  Option, none, some, Bytes, length, if◌then◌else◌, All,
}
use mathlib.Core.Path.{subst}
use rucoonos.Prelude.Arrays.{get_elem?, length-set, get_elem?-set, get_elem?-set_ne}
use rucoonos.Net.Handler.State.{RawPacket}
use rucoonos.Hardware.Driver.{Card, RxDesc, is_filled, packet_of, received, rx_tail}

-- The rings have the lengths that `init` gives them, and the card's indices lie inside them.
pub record IsValid (c : Card) : Type 0 where
  pub rx_ring : length c.rx_ring ≡ 33
  pub rx_buffers : length c.rx_buffers ≡ 32
  pub cur_rx : c.cur_rx < 32
  pub tx_ring : length c.tx_ring ≡ 9
  pub tx_buffers : length c.tx_buffers ≡ 8
  pub cur_tx : c.cur_tx < 8
  pub last_reclaimed_tx : c.last_reclaimed_tx < 8

-- The descriptor at the index holds no frame.
abbrev pub IsEmptyAt : List RxDesc → ℕ → Type 0
IsEmptyAt ring j = (d : RxDesc) × (get_elem? ring j ≡ some d) × (is_filled d ≡ false)

-- The writes that hand `n` descriptors back to the card, one after the other.
abbrev pub handed_back : ℕ → ℕ → List (ℕ × ℕ)
handed_back i zero = []
handed_back i (suc n) = (rx_tail, i) ∷ handed_back ((i + 1) % 32) n

module _ (memory : ℕ → ℕ → Bytes) where
  abbrev pended : ℕ → Option RxDesc → Option ℕ → List RawPacket → List RawPacket
  pended id none ptr rest = []
  pended id (some d) none rest = []
  pended id (some d) (some ptr) rest = if is_filled d then packet_of memory id d ptr ∷ rest else []

  -- The frames that stand in a ring from an index on, up to the first descriptor without one, and at
  -- most `n`.
  unfoldable pub pending : ℕ → List ℕ → List RxDesc → ℕ → ℕ → List RawPacket
  pending id buffers ring i zero = []
  pending id buffers ring i (suc n) =
      pended id (get_elem? ring i) (get_elem? buffers i) (pending id buffers ring ((i + 1) % 32) n)

  pub received-IsValid :
      (c : Card) (d : RxDesc) (p : ℕ) → IsValid c → IsValid (received memory c d p)
  unfolding received
  received-IsValid c d p v = record {
    rx_ring = length-set c.rx_ring c.cur_rx _ ∙ v.rx_ring;
    rx_buffers = v.rx_buffers;
    cur_rx = omega arith;
    tx_ring = v.tx_ring;
    tx_buffers = v.tx_buffers;
    cur_tx = v.cur_tx;
    last_reclaimed_tx = v.last_reclaimed_tx;
  }

  -- The descriptor that was read is empty, and the others stay as they are.
  pub received-IsEmptyAt :
      (c : Card) (d : RxDesc) (p : ℕ)
      → IsValid c
      → IsEmptyAt ((received memory c d p).rx_ring) c.cur_rx
  unfolding received
  received-IsEmptyAt c d p v =
      (record d { status = 0 }, get_elem?-set c.rx_ring c.cur_rx _ inside, refl)
    where
      inside : c.cur_rx < length c.rx_ring
      inside = subst (λ n. c.cur_rx < n) (sym v.rx_ring) (le v.cur_rx)
        where
          le : c.cur_rx < 32 → c.cur_rx < 33
          le h = omega arith

  pub received-other :
      (c : Card) (d : RxDesc) (p j : ℕ)
      → j ≢ c.cur_rx
      → get_elem? ((received memory c d p).rx_ring) j ≡ get_elem? c.rx_ring j
  unfolding received
  received-other c d p j ne = get_elem?-set_ne c.rx_ring c.cur_rx j _ ne

  -- Taking one frame changes nothing of the frames that stand after it.
  pub received-pending :
      (c : Card) (d : RxDesc) (p n i : ℕ)
      → ((m : ℕ) → m < n → (i + m) % 32 ≢ c.cur_rx)
      → i < 32
      → pending c.id c.rx_buffers ((received memory c d p).rx_ring) i n
        ≡ pending c.id c.rx_buffers c.rx_ring i n
  unfolding pending
  received-pending c d p zero i apart lt = refl
  received-pending c d p (suc n) i apart lt =
      ap
        (λ x.
          pended c.id x (get_elem? c.rx_buffers i)
            (pending c.id c.rx_buffers ((received memory c d p).rx_ring) ((i + 1) % 32) n))
        (received-other c d p i (λ e. apart 0 (omega arith) (omega arith)))
      ∙ ap (λ rest. pended c.id (get_elem? c.rx_ring i) (get_elem? c.rx_buffers i) rest)
          (received-pending c d p n ((i + 1) % 32)
            (λ m h e. apart (m + 1) (omega arith) (omega arith)) (omega arith))

  pub pending-filled :
      (c : Card) (d : RxDesc) (p n i : ℕ)
      → get_elem? c.rx_ring i ≡ some d
      → get_elem? c.rx_buffers i ≡ some p
      → is_filled d ≡ true
      → pending c.id c.rx_buffers c.rx_ring i (suc n)
        ≡ packet_of memory c.id d p ∷ pending c.id c.rx_buffers c.rx_ring ((i + 1) % 32) n
  unfolding pending
  pending-filled c d p n i e f full =
      rw (e, f)
        (ap
          (λ b.
            if b
            then packet_of memory c.id d p ∷ pending c.id c.rx_buffers c.rx_ring ((i + 1) % 32) n
            else [])
          full)

  pub pending-empty :
      (c : Card) (d : RxDesc) (p n i : ℕ)
      → get_elem? c.rx_ring i ≡ some d
      → get_elem? c.rx_buffers i ≡ some p
      → is_filled d ≡ false
      → pending c.id c.rx_buffers c.rx_ring i (suc n) ≡ []
  unfolding pending
  pending-empty c d p n i e f empty =
      rw (e, f)
        (ap
          (λ b.
            if b
            then packet_of memory c.id d p ∷ pending c.id c.rx_buffers c.rx_ring ((i + 1) % 32) n
            else [])
          empty)

  -- The frames carry the number of the card.
  pub pending-id :
      (id : ℕ) (buffers : List ℕ) (ring : List RxDesc) (i n : ℕ)
      → All (λ r. r.id ≡ id) (pending id buffers ring i n)
  unfolding pending packet_of
  pending-id id buffers ring i zero = tt
  pending-id id buffers ring i (suc n) =
      carried (get_elem? ring i) (get_elem? buffers i) _
        (pending-id id buffers ring ((i + 1) % 32) n)
    where
      carried :
          (d : Option RxDesc) (ptr : Option ℕ) (rest : List RawPacket)
          → All (λ r. r.id ≡ id) rest
          → All (λ r. r.id ≡ id) (pended id d ptr rest)
      carried none ptr rest h = tt
      carried (some d) none rest h = tt
      carried (some d) (some ptr) rest h =
          elim (is_filled d)
            as (λ b. All (λ r. r.id ≡ id) (if b then packet_of memory id d ptr ∷ rest else [])) [
              | true ↦ (refl, h)
              | false ↦ tt
            ]

-- ===== src/Net/Ipv4/Parse.antt =====
-- src/extensions/networking/protocols/ipv4.rs: the header parser on any content of a frame.
use rucoonos.Prelude.{
  ℕ, ◌-◌, ◌*◌, ◌≤◌, ◌<◌, ◌≡◌, arith, bit_and, ◌∷◌, Bytes, length, take, length-take, then-panic,
  ◌>>=◌, ok, ok_of, panic, le→ltb,
}
use rucoonos.Net.Wire.{
  Array2, Array4, read2, read4, index, upto-take, upto-panic, index-ok, read2-ok, read4-ok,
  read4-panic, index-IsOkOrPanic, read2-IsOkOrPanic, read4-IsOkOrPanic,
}
use rucoonos.Net.Ethernet
use native.Mathlib.Decide.{dec_le}
use rucoonos.Net.Ipv4.{Packet, PacketHeader, header}

-- The length of a header that starts with this byte.
abbrev pub header_length : ℕ → ℕ
header_length first = bit_and first 0x0f * 4

sub_zero : (n : ℕ) → n - 0 ≡ n
sub_zero n = omega arith

-- A packet whose header, by its own length field, has at least 20 bytes and lies in the content is
-- parsed.
header_total :
    (p : Packet) (x : ℕ) (c : Bytes)
    → Ethernet.content p.eth_packet ≡ ok (x ∷ c)
    → 20 ≤ header_length x
    → header_length x ≤ length (x ∷ c)
    → (h : PacketHeader) × (header p ≡ ok h)
unfolding header
header_total p x c e lo hi =
    let d = take (header_length x) (x ∷ c) in
    let l : 20 ≤ length d = omega (arith, length-take (header_length x) (x ∷ c)) in
    let (d0, e0) = index-ok 0 d (omega arith) in
    let (d1, e1) = index-ok 1 d (omega arith) in
    let (l2, e2) = read2-ok 2 d (omega arith) in
    let (i4, e4) = read2-ok 4 d (omega arith) in
    let (d7, e7) = index-ok 7 d (omega arith) in
    let (d8, e8) = index-ok 8 d (omega arith) in
    let (d9, e9) = index-ok 9 d (omega arith) in
    let (k, e10) = read2-ok 10 d (omega arith) in
    let (s, e12) = read4-ok 12 d (omega arith) in
    let (t, e16) = read4-ok 16 d (omega arith) in
    ok_of (header p) (
      rw
        (
          e,
          le→ltb (header_length x) 0 (omega arith),
          sub_zero (header_length x),
          upto-take (header_length x) (x ∷ c) hi,
          e0,
          e1,
          e2,
          e4,
          e7,
          e8,
          e9,
          e10,
          e12,
          e16,
        )
        tt)

-- A header said to be longer than the content makes `header` panic.
pub header_cut :
    (p : Packet) (x : ℕ) (c : Bytes)
    → Ethernet.content p.eth_packet ≡ ok (x ∷ c)
    → length (x ∷ c) < header_length x
    → header p ≡ panic
unfolding header
header_cut p x c e h = rw (
  e,
  le→ltb (header_length x) 0 (omega arith),
  sub_zero (header_length x),
  upto-panic (header_length x) (x ∷ c) h,
)

-- The last field that `header` reads lies past 20 bytes.
reads_panic :
    (d : Bytes) (f : ℕ → ℕ → Array2 → Array2 → ℕ → ℕ → ℕ → Array2 → Array4 → Array4 → PacketHeader)
    → length d < 20
    → (do
      d0 ← index 0 d
      d1 ← index 1 d
      l ← read2 2 d
      i ← read2 4 d
      d7 ← index 7 d
      d8 ← index 8 d
      d9 ← index 9 d
      k ← read2 10 d
      s ← read4 12 d
      t ← read4 16 d
      ok (f d0 d1 l i d7 d8 d9 k s t))
      ≡ panic
reads_panic d f h = then-panic (index 0 d) (index-IsOkOrPanic 0 d) λ d0.
    then-panic (index 1 d) (index-IsOkOrPanic 1 d) λ d1.
      then-panic (read2 2 d) (read2-IsOkOrPanic 2 d) λ l.
        then-panic (read2 4 d) (read2-IsOkOrPanic 4 d) λ i.
          then-panic (index 7 d) (index-IsOkOrPanic 7 d) λ d7.
            then-panic (index 8 d) (index-IsOkOrPanic 8 d) λ d8.
              then-panic (index 9 d) (index-IsOkOrPanic 9 d) λ d9.
                then-panic (read2 10 d) (read2-IsOkOrPanic 10 d)
                  λ k. then-panic (read4 12 d) (read4-IsOkOrPanic 12 d) λ s. rw (read4-panic 16 d h)

-- A header that, by its own length field, has fewer than 20 bytes makes `header` panic.
header_too_small :
    (p : Packet) (x : ℕ) (c : Bytes)
    → Ethernet.content p.eth_packet ≡ ok (x ∷ c)
    → header_length x < 20
    → header p ≡ panic
unfolding header
header_too_small p x c e lo = elim (dec_le (header_length x) (length (x ∷ c))) [
  | yes hi ↦
      rw
        (
          e,
          le→ltb (header_length x) 0 (omega arith),
          sub_zero (header_length x),
          upto-take (header_length x) (x ∷ c) hi,
        )
        (reads_panic (take (header_length x) (x ∷ c)) _
          (omega (arith, length-take (header_length x) (x ∷ c))))
  | no far ↦ header_cut p x c e (omega arith)
]

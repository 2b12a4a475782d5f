-- ===== src/Net/Ethernet/Frame.antt =====
-- src/extensions/networking/protocols/ethernet.rs: the frame that `finish` makes.
use rucoonos.Prelude.{
  ℕ, suc, ◌+◌, ◌-◌, ◌≤◌, ◌<◌, max, ◌≡◌, refl, arith, ◌∷◌, ◌++◌, Bytes, length, take, zeros,
  length-take, ok, err, panic, ◌>>=◌, le→ltb,
}
use rucoonos.Net.Wire.{Array2, upto, Fill, upto-take, upto-panic, upto-append}
use rucoonos.Net.Buffer.{overwrite, overwrite-zeros}
use rucoonos.Net.Buffer
use rucoonos.Net.Ethernet.{
  Packet, EtherTypeState, from_array, into_array, destination_mac, source_mac, ether_type, content,
  new, finish,
}

-- The 14 bytes in front of the content.
abbrev pub header : EtherTypeState → Bytes → Bytes
header s c =
    d.b0 ∷ d.b1 ∷ d.b2 ∷ d.b3 ∷ d.b4 ∷ d.b5 ∷ m.b0 ∷ m.b1 ∷ m.b2 ∷ m.b3 ∷ m.b4 ∷ m.b5 ∷ t.b0 ∷ t.b1
    ∷ c
  where
    open s use {destination as d, source as m, ether_ty as t}

-- The frame has the addresses and the type of the builder, and the given content.
pub record IsFrame (s : EtherTypeState) (c : Bytes) (p : Packet) : Type 0 where
  pub to : destination_mac p ≡ ok s.destination
  pub by : source_mac p ≡ ok s.source
  pub type : ether_type p ≡ ok (from_array s.ether_ty)
  pub holds : content p ≡ ok c

zeros_1500 : zeros 1500 ≡ 0 ∷ 0 ∷ 0 ∷ 0 ∷ 0 ∷ 0 ∷ 0 ∷ 0 ∷ 0 ∷ 0 ∷ 0 ∷ 0 ∷ 0 ∷ 0 ∷ zeros 1486
unfolding zeros
zeros_1500 = refl

pub finish-eq :
    (s : EtherTypeState) (f : Fill)
    → finish s f ≡ (
        (f (zeros 1486)).0 >>= λ n.
        (upto (max n 46 + 14) (header s (f (zeros 1486)).1)) >>= λ frame.
        ok (new (Buffer.new frame)))
unfolding finish
finish-eq s f = rw zeros_1500

overwritten :
    (s : EtherTypeState) (c : Bytes)
    → length c ≤ 2034
    → overwrite (header s c) (zeros 2048) ≡ header s c ++ zeros (2048 - length (header s c))
overwritten s c h = overwrite-zeros (header s c) 2048 (omega arith)

-- A packet over the 14 bytes of the header and a short enough content reads as a frame.
pub framed :
    (s : EtherTypeState) (c : Bytes) → length c ≤ 2034 → IsFrame s c (new (Buffer.new (header s c)))
unfolding new Buffer.new destination_mac source_mac ether_type content
framed s c h = record {
  to = rw (overwritten s c h);
  by = rw (overwritten s c h);
  type = rw (overwritten s c h);
  holds =
      rw (overwritten s c h, le→ltb (length (header s c)) 14 (omega arith), cut) (upto-append c _);
}
  where
    cut : length (header s c) - 14 ≡ length c
    cut = omega arith

past_header :
    (n : ℕ)
    → n + 14 ≡ suc (suc (suc (suc (suc (suc (suc (suc (suc (suc (suc (suc (suc (suc n)))))))))))))
past_header n = omega arith

-- A closure that writes at most 1486 bytes of its slice and keeps the slice's length makes `finish`
-- return a frame with the addresses and type given, whose content is what the closure left, cut to
-- the number of bytes it reported, but to no fewer than 46.
pub finish-IsFrame :
    (s : EtherTypeState) (f : Fill) (n : ℕ) (b : Bytes)
    → f (zeros 1486) ≡ (ok n, b)
    → length b ≡ 1486
    → n ≤ 1486
    → (p : Packet) × (finish s f ≡ ok p) × IsFrame s (take (max n 46) b) p
finish-IsFrame s f n b e l h = (
  new (Buffer.new (header s cut)),
  rw (finish-eq, e, past_header, upto-take (max n 46) b (omega arith)),
  framed s cut (omega (arith, length-take (max n 46) b)),
)
  where
    cut : Bytes
    cut = take (max n 46) b

-- A closure that keeps the length of its slice and reports more than its 1486 bytes makes
-- `finish` panic.
finish-panic :
    (s : EtherTypeState) (f : Fill) (n : ℕ) (b : Bytes)
    → f (zeros 1486) ≡ (ok n, b)
    → length b ≡ 1486
    → 1486 < n
    → finish s f ≡ panic
finish-panic s f n b e l h = rw (finish-eq, e, past_header, upto-panic (max n 46) b (omega arith))

-- The closure's error is the builder's.
pub finish-err :
    (s : EtherTypeState) (f : Fill) (b : Bytes) → f (zeros 1486) ≡ (err, b) → finish s f ≡ err
finish-err s f b e = rw (finish-eq, e)

-- Reading a type and writing it again gives the same two bytes, whatever they are.
from_array-into_array : (a : Array2) → into_array (from_array a) ≡ a
unfolding from_array into_array
from_array-into_array a = ground arith

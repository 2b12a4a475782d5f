-- ===== src/Net/Icmp/Checksum.antt =====
-- src/extensions/networking/protocols/icmp.rs: the checksum of a message.
use rucoonos.Prelude.{
  ℕ, zero, suc, ◌+◌, ◌-◌, ◌*◌, ◌/◌, ◌%◌, ◌^◌, ◌≤◌, ◌<◌, max, ap, ◌∙◌, ◌≡◌, ◌≢◌, refl, arith, [],
  ◌∷◌, Bytes, length, take, zeros, Outcome, ok, panic, IsU16, lt→ltb,
}
use rucoonos.Net.Wire.{Profile, Fill, add_u16, words_sum}
use rucoonos.Net.Ethernet
use rucoonos.Net.Ipv4
use rucoonos.Net.Ipv4.Checksum.{IsValid, fold}
use rucoonos.Net.Ipv4.RoundTrip.{Seals}
use rucoonos.Net.Icmp.{Kind, TypeState, finish}
use rucoonos.Net.Icmp.RoundTrip.{bytes_of, message_sum, IsKnown, Added, finish-get_type}

words_sum-take : (n m : ℕ) (b : Bytes) → n * 2 ≤ m → words_sum n (take m b) ≡ words_sum n b
words_sum-take zero m b h = refl
words_sum-take (suc n) zero b h = absurd (omega arith)
words_sum-take (suc n) (suc zero) b h = absurd (omega arith)
words_sum-take (suc n) (suc (suc m)) [] h = refl
words_sum-take (suc n) (suc (suc m)) (x ∷ []) h = refl
words_sum-take (suc n) (suc (suc m)) (x ∷ y ∷ b) h =
    omega (arith, words_sum-take n m b (omega arith))

halves : (size : ℕ) → (8 + size) / 2 ≡ suc (suc (suc (suc (size / 2))))
halves size = omega arith

message_sum-adds :
    (ty : Kind) (size k : ℕ) (b : Bytes)
    → IsU16 k
    → message_sum ty size k b ≡ message_sum ty size 0 b + k
message_sum-adds ty size k b h = rw (halves size) (omega arith)

message_sum-take :
    (ty : Kind) (size k m : ℕ) (b : Bytes)
    → size ≤ m
    → message_sum ty size k (take m b) ≡ message_sum ty size k b
message_sum-take ty size k m b h =
    rw (halves size) (omega (arith, words_sum-take (size / 2) m b (omega arith)))

-- The words that the builder counts come to 0.
abbrev pub Verifies : ℕ → Bytes → Type 0
Verifies n m = (0 < words_sum n m) × (words_sum n m % 0xffff ≡ 0)

added :
    (profile : Profile) (ty : Kind) (f : Fill) (size : ℕ) (b : Bytes)
    → fold (message_sum ty size 0 b) < 2 ^ 16
    → Added profile ty f size (fold (message_sum ty size 0 b)) b
unfolding add_u16
added profile ty f size b h = adds (message_sum ty size 0 b) h
  where
    adds :
        (s : ℕ) → fold s < 2 ^ 16 → add_u16 profile (s % 2 ^ 16) (s / 2 ^ 16 % 2 ^ 16) ≡ ok (fold s)
    adds s h =
        let high : s / 2 ^ 16 % 2 ^ 16 ≡ s / 2 ^ 16 = omega arith in
        rw (high, lt→ltb (fold s) (2 ^ 16) h)

verified :
    (ty : Kind) (size m : ℕ) (b : Bytes)
    → size ≤ m
    → fold (message_sum ty size 0 b) < 2 ^ 16
    → Verifies ((8 + size) / 2) (bytes_of ty (0xffff - fold (message_sum ty size 0 b)) (take m b))
verified ty size m b h c =
    let k = 0xffff - fold (message_sum ty size 0 b) in
    let e = message_sum-take ty size k m b h in
    let a = message_sum-adds ty size k b (omega arith) in (omega arith, omega arith)

-- The sum of a receiver's test (RFC 1071): all words of a message, an odd last byte filled up with 0.
unfoldable pub padded_sum : Bytes → ℕ
padded_sum [] = 0
padded_sum (x ∷ []) = 256 * x
padded_sum (x ∷ y ∷ r) = 256 * x + y + padded_sum r

-- What the last byte of an odd number of bytes adds to it.
unfoldable pub odd_rest : ℕ → Bytes → ℕ
odd_rest n [] = 0
odd_rest zero (x ∷ b) = 0
odd_rest (suc zero) (x ∷ b) = 256 * x
odd_rest (suc (suc n)) (x ∷ []) = 256 * x
odd_rest (suc (suc n)) (x ∷ y ∷ b) = odd_rest n b

words_sum-nil : (n : ℕ) → words_sum n [] ≡ 0
words_sum-nil zero = refl
words_sum-nil (suc n) = refl

half : (n : ℕ) → suc (suc n) / 2 ≡ suc (n / 2)
half n = omega arith

padded_sum-take : (n : ℕ) (b : Bytes) → padded_sum (take n b) ≡ words_sum (n / 2) b + odd_rest n b
unfolding padded_sum odd_rest
padded_sum-take zero [] = refl
padded_sum-take zero (x ∷ b) = refl
padded_sum-take (suc n) [] = omega (arith, words_sum-nil (suc n / 2))
padded_sum-take (suc zero) (x ∷ b) = omega arith
padded_sum-take (suc (suc n)) (x ∷ []) = rw (half n) (omega arith)
padded_sum-take (suc (suc n)) (x ∷ y ∷ b) = rw (half n) (omega (arith, padded_sum-take n b))

odd_rest-take : (n m : ℕ) (b : Bytes) → n ≤ m → odd_rest n (take m b) ≡ odd_rest n b
unfolding odd_rest
odd_rest-take n zero [] h = refl
odd_rest-take zero zero (x ∷ b) h = refl
odd_rest-take (suc n) zero (x ∷ b) h = absurd (omega arith)
odd_rest-take n (suc m) [] h = refl
odd_rest-take zero (suc m) (x ∷ b) h = refl
odd_rest-take (suc zero) (suc m) (x ∷ b) h = refl
odd_rest-take (suc (suc n)) (suc zero) (x ∷ b) h = absurd (omega arith)
odd_rest-take (suc (suc n)) (suc (suc m)) (x ∷ []) h = refl
odd_rest-take (suc (suc n)) (suc (suc m)) (x ∷ y ∷ b) h = odd_rest-take n m b (omega arith)

-- The receiver's test of a message of so many bytes comes to this instead of 0.
abbrev pub Leaves : ℕ → Bytes → ℕ → Type 0
Leaves n m rest = (0 < padded_sum (take n m)) × (padded_sum (take n m) % 0xffff ≡ rest % 0xffff)

verified-Leaves :
    (ty : Kind) (size m k : ℕ) (b : Bytes)
    → size ≤ m
    → Verifies ((8 + size) / 2) (bytes_of ty k (take m b))
    → Leaves (8 + size) (bytes_of ty k (take m b)) (odd_rest size b)
unfolding odd_rest
verified-Leaves ty size m k b h (some_sum, whole) =
    let e = padded_sum-take (8 + size) (bytes_of ty k (take m b)) in
    let eight : 8 + size ≡ suc (suc (suc (suc (suc (suc (suc (suc size))))))) = omega arith in
    let o : odd_rest (8 + size) (bytes_of ty k (take m b)) ≡ odd_rest size b =
      ap (λ n. odd_rest n (bytes_of ty k (take m b))) eight ∙ odd_rest-take size m b h in
    (omega arith, omega arith)

-- For a type that the parser knows and a payload closure that does not panic, in an IPv4 packet
-- whose fields fit and whose checksum can be sealed, where the sum of the message's words, its
-- checksum taken as 0, is brought under 2 ^ 16 by one carry: `finish` returns a packet for whose ICMP message,
-- of the header and the payload's announced size, a receiver's test comes to 0 where the size is even.
-- Where it is odd, the test comes to what the last byte counts as the high one of a word, since the builder
-- leaves this byte out: such a message passes only if the byte is 0.
pub finish-Verifies :
    (profile : Profile) (s : TypeState) (ip : Ipv4.DestinationState) (f : Fill) (size : ℕ)
    (b : Bytes) (r : Outcome ℕ)
    → IsKnown s.ty
    → IsValid (Ipv4.plain_header ip (8 + size))
    → Seals profile (Ipv4.plain_header ip (8 + size))
    → f (zeros 1458) ≡ (r, b)
    → r ≢ panic
    → length b ≡ 1458
    → size ≤ 1458
    → fold (message_sum s.ty size 0 b) < 2 ^ 16
    → (p : Ethernet.Packet) × (m : Bytes) × (finish profile s ip f size ≡ ok p)
      × (Ipv4.payload (Ipv4.new p) ≡ ok m)
      × Leaves (8 + size) m (odd_rest size b)
finish-Verifies profile s ip f size b r known v q e np l h c =
    let (p, d, _, _, w) =
      finish-get_type profile s ip f size (fold (message_sum s.ty size 0 b)) b r known v q e np l h
        (added profile s.ty f size b c) in
    (
      p,
      _,
      d,
      w.body,
      verified-Leaves s.ty size (max size 18) _ b (omega arith)
          (verified s.ty size (max size 18) b (omega arith) c),
    )

-- ===== src/Net/Dhcp/Options.antt =====
-- src/extensions/networking/protocols/dhcp.rs: the loop over the options.
use rucoonos.Prelude.{
  ℕ, zero, ◌≡◌, ◌≢◌, refl, List, [], ◌∷◌, ◌++◌, Bytes, length, ok, panic, All, ne→==, ◌∙◌,
}
use rucoonos.Net.Wire.{Profile, debug}
use rucoonos.Net.Dhcp.{scan}

-- An option that is not the message type: its code, and at least one byte of value.
pub record DhcpOption : Type 0 where
  pub code : ℕ
  pub first : ℕ
  pub rest : Bytes

abbrev pub IsOther : DhcpOption → Type 0
IsOther o = o.code ≢ 53

abbrev pub encode : List DhcpOption → Bytes → Bytes
encode [] tail = tail
encode (o ∷ os) tail = o.code ∷ length (o.first ∷ o.rest) ∷ o.first ∷ (o.rest ++ encode os tail)

scan-skips :
    (profile : Profile) (xs r : Bytes) → scan profile (length xs) (xs ++ r) ≡ scan profile zero r
unfolding scan
scan-skips profile [] r = refl
scan-skips profile (x ∷ xs) r = scan-skips profile xs r

-- Behind options that are not the message type, each with a value of at least one byte, the loop
-- returns the first byte of option 53, in every build.
scan-encode :
    (profile : Profile) (os : List DhcpOption) (len t : ℕ) (r : Bytes)
    → All IsOther os
    → scan profile zero (encode os (53 ∷ len ∷ t ∷ r)) ≡ ok t
unfolding scan
scan-encode profile [] len t r h = refl
scan-encode profile (o ∷ os) len t r (ne, h) =
    rw (ne→== o.code 53 ne) (scan-skips profile o.rest _ ∙ scan-encode profile os len t r h)

-- An option of length 0, such as two bytes of padding, makes a debug build panic.
pub scan_padding : (code : ℕ) (r : Bytes) → code ≢ 53 → scan debug zero (code ∷ 0 ∷ r) ≡ panic
unfolding scan
scan_padding code r ne = rw (ne→== code 53 ne)

-- ===== src/Net/Buffer.antt =====
-- src/extensions/networking/protocols/buffer.rs: an owned block of 2048 bytes, with the number of
-- bytes that it was filled from. A `Box` is the block itself: the code never shares one.
use rucoonos.Prelude.{
  ℕ, zero, suc, ◌-◌, ◌≤◌, ◌≡◌, refl, arith, [], ◌∷◌, ◌++◌, Bytes, length, zeros, ap,
}

pub record Buffer : Type 0 where
  pub raw : Bytes
  pub len : ℕ

-- `for (target, src) in target.iter_mut().zip(data.iter()) { *target = *src; }`
abbrev pub overwrite : Bytes → Bytes → Bytes
overwrite [] target = target
overwrite (x ∷ src) [] = []
overwrite (x ∷ src) (y ∷ target) = x ∷ overwrite src target

unfoldable pub new : Bytes → Buffer
new bytes = record { raw = overwrite bytes (zeros 2048); len = length bytes }

-- `Box::into_raw` and `Box::from_raw` hand the block itself over, with a length beside it.
unfoldable pub into_raw : Buffer → Bytes × ℕ
into_raw b = (b.raw, b.len)

unfoldable pub from_raw : Bytes → ℕ → Buffer
from_raw raw len = record { raw = raw; len = len }

pub overwrite-zeros :
    (src : Bytes) (n : ℕ) → length src ≤ n → overwrite src (zeros n) ≡ src ++ zeros (n - length src)
unfolding zeros
overwrite-zeros [] n h = ap zeros (omega arith)
overwrite-zeros (x ∷ src) zero h = elim h [ ]
overwrite-zeros (x ∷ src) (suc n) h =
    rw (overwrite-zeros src n (omega arith)) (ap (λ k. x ∷ (src ++ zeros k)) (omega arith))

pub length-overwrite : (src target : Bytes) → length (overwrite src target) ≡ length target
length-overwrite [] target = refl
length-overwrite (x ∷ src) [] = refl
length-overwrite (x ∷ src) (y ∷ target) = omega (arith, length-overwrite src target)

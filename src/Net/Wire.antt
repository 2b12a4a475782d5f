-- ===== src/Net/Wire.antt =====
-- Slices of byte buffers and the fixed-size arrays of the packet code.
use rucoonos.Prelude.{
  ℕ, zero, suc, ◌+◌, ◌-◌, ◌*◌, ◌/◌, ◌%◌, ◌^◌, ◌<◌, ◌≤◌, ◌≡◌, refl, arith, [], ◌∷◌, ◌++◌, Bytes,
  length, take, Outcome, IsOkOrPanic, ok, err, panic, IsU16, IsU32, ◌>>=◌, ltb, if◌then◌else◌,
}

-- `[u8; 2]`, `[u8; 4]`, `[u8; 6]`
pub record Array2 : Type 0 where
  pub b0 : ℕ
  pub b1 : ℕ

pub record Array4 : Type 0 where
  pub b0 : ℕ
  pub b1 : ℕ
  pub b2 : ℕ
  pub b3 : ℕ

pub record Array6 : Type 0 where
  pub b0 : ℕ
  pub b1 : ℕ
  pub b2 : ℕ
  pub b3 : ℕ
  pub b4 : ℕ
  pub b5 : ℕ

abbrev pub array2 : ℕ → ℕ → Array2
array2 a b = record { b0 = a; b1 = b }

abbrev pub array4 : ℕ → ℕ → ℕ → ℕ → Array4
array4 a b c d = record { b0 = a; b1 = b; b2 = c; b3 = d }

abbrev pub array6 : ℕ → ℕ → ℕ → ℕ → ℕ → ℕ → Array6
array6 a b c d e f = record { b0 = a; b1 = b; b2 = c; b3 = d; b4 = e; b5 = f }

abbrev pub list2 : Array2 → Bytes
list2 a = a.b0 ∷ a.b1 ∷ []

abbrev pub list4 : Array4 → Bytes
list4 a = a.b0 ∷ a.b1 ∷ a.b2 ∷ a.b3 ∷ []

abbrev pub list6 : Array6 → Bytes
list6 a = a.b0 ∷ a.b1 ∷ a.b2 ∷ a.b3 ∷ a.b4 ∷ a.b5 ∷ []

-- `&b[..n]` and `&b[n..]`, which panic past the end.
abbrev pub upto : ℕ → Bytes → Outcome Bytes
upto zero xs = ok []
upto (suc n) [] = panic
upto (suc n) (x ∷ xs) = upto n xs >>= λ r. ok (x ∷ r)

abbrev pub from : ℕ → Bytes → Outcome Bytes
from zero xs = ok xs
from (suc n) [] = panic
from (suc n) (x ∷ xs) = from n xs

-- `&b[a..e]`
abbrev pub slice : ℕ → ℕ → Bytes → Outcome Bytes
slice a e xs = if ltb e a then panic else (from a xs >>= upto (e - a))

-- `b[i]`
abbrev pub index : ℕ → Bytes → Outcome ℕ
index i [] = panic
index zero (x ∷ xs) = ok x
index (suc i) (x ∷ xs) = index i xs

abbrev to2 : Bytes → Outcome Array2
to2 (a ∷ b ∷ _) = ok (array2 a b)
to2 _ = panic

abbrev to4 : Bytes → Outcome Array4
to4 (a ∷ b ∷ c ∷ d ∷ _) = ok (array4 a b c d)
to4 _ = panic

abbrev to6 : Bytes → Outcome Array6
to6 (a ∷ b ∷ c ∷ d ∷ e ∷ f ∷ _) = ok (array6 a b c d e f)
to6 _ = panic

-- `b[i..i + n].try_into().unwrap()` for n = 2, 4, 6
abbrev pub read2 : ℕ → Bytes → Outcome Array2
read2 i xs = from i xs >>= to2

abbrev pub read4 : ℕ → Bytes → Outcome Array4
read4 i xs = from i xs >>= to4

abbrev pub read6 : ℕ → Bytes → Outcome Array6
read6 i xs = from i xs >>= to6

-- `(&mut b[i..i + src.len()]).copy_from_slice(src)`
abbrev pub copy_at : ℕ → Bytes → Bytes → Outcome Bytes
copy_at zero [] t = ok t
copy_at zero (x ∷ src) [] = panic
copy_at zero (x ∷ src) (_ ∷ t) = copy_at zero src t >>= λ r. ok (x ∷ r)
copy_at (suc i) src [] = panic
copy_at (suc i) src (y ∷ t) = copy_at i src t >>= λ r. ok (y ∷ r)

-- `b[i] = x`
abbrev pub store : ℕ → ℕ → Bytes → Outcome Bytes
store i x t = copy_at i (x ∷ []) t

-- `u16::from_be_bytes`, `to_be_bytes`
abbrev pub from_be : Array2 → ℕ
from_be a = a.b0 * 256 + a.b1

abbrev pub to_be : ℕ → Array2
to_be n = array2 (n / 256 % 256) (n % 256)

-- `u32::from_be_bytes`, `to_be_bytes`
abbrev pub from_be32 : Array4 → ℕ
from_be32 a = a.b0 * 2 ^ 24 + a.b1 * 2 ^ 16 + a.b2 * 2 ^ 8 + a.b3

abbrev pub to_be32 : ℕ → Array4
to_be32 n = array4 (n / 2 ^ 24 % 256) (n / 2 ^ 16 % 256) (n / 2 ^ 8 % 256) (n % 256)

-- Whether the build checks arithmetic for overflow.
pub data Profile : Type 0 where
  debug release : Profile

-- `a + b` on `u16`
unfoldable pub add_u16 : Profile → ℕ → ℕ → Outcome ℕ
add_u16 profile a b =
    if ltb (a + b) (2 ^ 16)
    then ok (a + b)
    else elim profile [ debug ↦ panic | release ↦ ok ((a + b) % 2 ^ 16) ]

-- The 16-bit words of `b.chunks_exact(2)`, added up in an `u32`, which they do not overflow.
abbrev pub word_sum : Bytes → ℕ
word_sum (a ∷ b ∷ r) = from_be (array2 a b) + word_sum r
word_sum _ = 0

-- The same for the first `n` words, `.take(n)`.
abbrev pub words_sum : ℕ → Bytes → ℕ
words_sum (suc n) (a ∷ b ∷ r) = from_be (array2 a b) + words_sum n r
words_sum _ _ = 0

-- A closure `FnOnce(&mut [u8]) -> Result<usize, ()>`: what it returns, and the slice it leaves.
abbrev pub Fill : Type 0
Fill = Bytes → Outcome ℕ × Bytes

-- The closure is run on `&mut b[n..]`.
abbrev pub fill_from : ℕ → Fill → Fill
fill_from zero f b = f b
fill_from (suc n) f [] = (panic, [])
fill_from (suc n) f (x ∷ b) = let (r, c) = fill_from n f b in (r, x ∷ c)

-- A closure whose writes may panic, as a `Fill`.
abbrev pub filling : (Bytes → Outcome (ℕ × Bytes)) → Fill
filling g b = elim (g b) [ ok (n, c) ↦ (ok n, c) | err ↦ (err, b) | panic ↦ (panic, b) ]

pub from_be-to_be : (n : ℕ) → IsU16 n → from_be (to_be n) ≡ n
from_be-to_be n h = omega arith

pub from_be32-to_be32 : (n : ℕ) → IsU32 n → from_be32 (to_be32 n) ≡ n
from_be32-to_be32 n h = omega arith

pub upto-take : (n : ℕ) (xs : Bytes) → n ≤ length xs → upto n xs ≡ ok (take n xs)
upto-take zero xs h = refl
upto-take (suc n) [] h = elim h [ ]
upto-take (suc n) (x ∷ xs) h = rw (upto-take n xs (omega arith))

pub upto-panic : (n : ℕ) (xs : Bytes) → length xs < n → upto n xs ≡ panic
upto-panic zero xs h = elim h [ ]
upto-panic (suc n) [] h = refl
upto-panic (suc n) (x ∷ xs) h = rw (upto-panic n xs (omega arith))

pub upto-append : (xs ys : Bytes) → upto (length xs) (xs ++ ys) ≡ ok xs
upto-append [] ys = refl
upto-append (x ∷ xs) ys = rw (upto-append xs ys)

-- Reads inside the buffer succeed.
pub index-ok : (i : ℕ) (xs : Bytes) → i < length xs → (x : ℕ) × (index i xs ≡ ok x)
index-ok i [] h = elim h [ ]
index-ok zero (x ∷ xs) h = (x, refl)
index-ok (suc i) (x ∷ xs) h = index-ok i xs (omega arith)

pub read2-ok : (i : ℕ) (xs : Bytes) → i + 2 ≤ length xs → (a : Array2) × (read2 i xs ≡ ok a)
read2-ok zero [] h = absurd (omega arith)
read2-ok zero (a ∷ []) h = absurd (omega arith)
read2-ok zero (a ∷ b ∷ xs) h = (array2 a b, refl)
read2-ok (suc i) [] h = absurd (omega arith)
read2-ok (suc i) (x ∷ xs) h = read2-ok i xs (omega arith)

pub read4-ok : (i : ℕ) (xs : Bytes) → i + 4 ≤ length xs → (a : Array4) × (read4 i xs ≡ ok a)
read4-ok zero [] h = absurd (omega arith)
read4-ok zero (a ∷ []) h = absurd (omega arith)
read4-ok zero (a ∷ b ∷ []) h = absurd (omega arith)
read4-ok zero (a ∷ b ∷ c ∷ []) h = absurd (omega arith)
read4-ok zero (a ∷ b ∷ c ∷ d ∷ xs) h = (array4 a b c d, refl)
read4-ok (suc i) [] h = absurd (omega arith)
read4-ok (suc i) (x ∷ xs) h = read4-ok i xs (omega arith)

pub index-panic : (i : ℕ) (xs : Bytes) → length xs ≤ i → index i xs ≡ panic
index-panic i [] h = refl
index-panic zero (x ∷ xs) h = absurd (omega arith)
index-panic (suc i) (x ∷ xs) h = index-panic i xs (omega arith)

pub read4-panic : (i : ℕ) (xs : Bytes) → length xs < i + 4 → read4 i xs ≡ panic
read4-panic zero [] h = refl
read4-panic zero (a ∷ []) h = refl
read4-panic zero (a ∷ b ∷ []) h = refl
read4-panic zero (a ∷ b ∷ c ∷ []) h = refl
read4-panic zero (a ∷ b ∷ c ∷ d ∷ xs) h = absurd (omega arith)
read4-panic (suc i) [] h = refl
read4-panic (suc i) (x ∷ xs) h = read4-panic i xs (omega arith)

pub index-IsOkOrPanic : (i : ℕ) (xs : Bytes) → IsOkOrPanic (index i xs)
index-IsOkOrPanic i [] = tt
index-IsOkOrPanic zero (x ∷ xs) = tt
index-IsOkOrPanic (suc i) (x ∷ xs) = index-IsOkOrPanic i xs

pub read2-IsOkOrPanic : (i : ℕ) (xs : Bytes) → IsOkOrPanic (read2 i xs)
read2-IsOkOrPanic zero [] = tt
read2-IsOkOrPanic zero (a ∷ []) = tt
read2-IsOkOrPanic zero (a ∷ b ∷ xs) = tt
read2-IsOkOrPanic (suc i) [] = tt
read2-IsOkOrPanic (suc i) (x ∷ xs) = read2-IsOkOrPanic i xs

pub read4-IsOkOrPanic : (i : ℕ) (xs : Bytes) → IsOkOrPanic (read4 i xs)
read4-IsOkOrPanic zero [] = tt
read4-IsOkOrPanic zero (a ∷ []) = tt
read4-IsOkOrPanic zero (a ∷ b ∷ []) = tt
read4-IsOkOrPanic zero (a ∷ b ∷ c ∷ []) = tt
read4-IsOkOrPanic zero (a ∷ b ∷ c ∷ d ∷ xs) = tt
read4-IsOkOrPanic (suc i) [] = tt
read4-IsOkOrPanic (suc i) (x ∷ xs) = read4-IsOkOrPanic i xs

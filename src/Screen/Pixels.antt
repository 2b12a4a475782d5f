-- ===== src/Screen/Pixels.antt =====
-- src/video.rs and src/interrupts/keyboard.rs: what a drawing changes, and the keys that are found.
use rucoonos.Prelude.{
  ℕ, ◌+◌, ◌*◌, ◌^◌, le→ltb, ◌%◌, ◌<◌, ◌≤◌, ◌≡◌, refl, ap, ◌∙◌, arith, false, ◌&&◌, ◌==◌, leb,
  if◌then◌else◌, Bytes, length, none, some, Bool-cases, inl, inr, lt→ltb,
}
use native.Mathlib.Nat.{mul-le-mul_left}
use rucoonos.Prelude.Bits.{bit_and-mask}
use rucoonos.Prelude.Arrays.{set, length-set}
use rucoonos.Hardware.Loop.{returned, panicked, ◌then◌}
use rucoonos.Net.Wire.{Profile, debug}
use rucoonos.Screen.{FrameBufferInfo, Color, usize, offset, store, put_pixel, draw, key_of, decode}

-- The bytes of a buffer after the three writes of a pixel.
abbrev pub painted : Color → ℕ → Bytes → Bytes
painted color start buffer =
    set (set (set buffer start color.red) (start + 1) color.green) (start + 2) color.blue

store-inside :
    (i v : ℕ) (buffer : Bytes) → i < length buffer → store i v buffer ≡ returned (set buffer i v)
store-inside i v buffer h = rw (lt→ltb i (length buffer) h) refl

put_pixel-painted :
    (k : ℕ) (color : Color) (buffer : Bytes)
    → k + 2 < length buffer
    → put_pixel k color buffer ≡ returned (painted color k buffer)
unfolding put_pixel
put_pixel-painted k color buffer h =
    let first = length-set buffer k color.red in
    let second = length-set (set buffer k color.red) (k + 1) color.green in
    ap (λ r. r then (λ b. store (k + 1) color.green b) then (λ b. store (k + 2) color.blue b))
      (store-inside k color.red buffer (omega arith))
    ∙ ap (λ r. r then (λ b. store (k + 2) color.blue b))
        (store-inside (k + 1) color.green (set buffer k color.red) (omega arith))
    ∙ store-inside (k + 2) color.blue _ (omega arith)

usize-fits : (profile : Profile) (n : ℕ) → n < 2 ^ 64 → usize profile n ≡ returned n
unfolding usize
usize-fits profile n h = rw (lt→ltb n (2 ^ 64) h) refl

usize-exceeds : (n : ℕ) → 2 ^ 64 ≤ n → usize debug n ≡ panicked
unfolding usize
usize-exceeds n h = rw (le→ltb n (2 ^ 64) h) refl

-- Where the first byte of a pixel stands.
abbrev pub place : FrameBufferInfo → ℕ → ℕ → ℕ
place info x y = y * info.horizontal_resolution * info.bytes_per_pixel + x * info.bytes_per_pixel

grows : (a b : ℕ) → 3 ≤ b → a ≤ a * b
grows a b h = let le : a * 1 ≤ a * b = mul-le-mul_left a (omega arith) in omega arith

offset-place :
    (profile : Profile) (info : FrameBufferInfo) (x y : ℕ)
    → 3 ≤ info.bytes_per_pixel
    → place info x y < 2 ^ 64
    → offset profile info x y ≡ returned (place info x y)
unfolding offset
offset-place profile info x y wide fits =
    let row = grows (y * info.horizontal_resolution) info.bytes_per_pixel wide in
    rw
      (
        usize-fits profile (y * info.horizontal_resolution) (omega arith),
        usize-fits profile (y * info.horizontal_resolution * info.bytes_per_pixel) (omega arith),
        usize-fits profile (x * info.bytes_per_pixel) (omega arith),
        usize-fits profile (place info x y) fits,
      )
      refl

-- In a frame buffer of at least three bytes per pixel, whose length is the announced one, and at coordinates
-- whose place in it has 64 bits, drawing does not panic, in a debug and in a release build. It changes only
-- the three bytes of the pixel, in the order red, green, blue, and nothing at all where the pixel's last
-- byte would be the last of the buffer or lie behind it.
pub draw-painted :
    (profile : Profile) (info : FrameBufferInfo) (x y : ℕ) (color : Color) (buffer : Bytes)
    → 3 ≤ info.bytes_per_pixel
    → length buffer ≡ info.byte_len
    → place info x y + info.bytes_per_pixel < 2 ^ 64
    → draw profile info x y color buffer
      ≡ returned (
          if leb info.byte_len (place info x y + info.bytes_per_pixel)
          then buffer
          else painted color (place info x y) buffer)
unfolding draw
draw-painted profile info x y color buffer wide same small =
    rw
      (
        offset-place profile info x y wide (omega arith),
        usize-fits profile (place info x y + info.bytes_per_pixel) small,
      )
      (elim (Bool-cases (leb info.byte_len (place info x y + info.bytes_per_pixel))) [
        | inl out ↦ rw out refl
        | inr inside ↦
            rw inside
              (put_pixel-painted (place info x y) color buffer (fits (place info x y) inside))
      ])
  where
    fits : (k : ℕ) → leb info.byte_len (k + info.bytes_per_pixel) ≡ false → k + 2 < length buffer
    fits k h = ground arith

-- At any other coordinates a debug build panics.
draw-panicked :
    (info : FrameBufferInfo) (x y : ℕ) (color : Color) (buffer : Bytes)
    → 3 ≤ info.bytes_per_pixel
    → 2 ^ 64 ≤ place info x y + info.bytes_per_pixel
    → draw debug info x y color buffer ≡ panicked
unfolding draw offset usize
draw-panicked info x y color buffer wide large = ground arith

key_of-digits :
    (code : ℕ)
    → code < 16
    → key_of code ≡ (
        if leb 2 code && leb code 10
        then some (0x2f + code)
        else if code == 11
        then some 0x30
        else none)
unfolding key_of
key_of-digits code lt = ground arith

-- Only the digits are ever found: the lowest four bits of a scan code give the key, so that the codes
-- of the letters are read as other keys.
pub decode-digits :
    (scancode : ℕ)
    → (decode scancode).1 ≡ (
        let code = scancode % 16 in
        if leb 2 code && leb code 10
        then some (0x2f + code)
        else if code == 11
        then some 0x30
        else none)
unfolding decode
decode-digits scancode = rw (bit_and-mask 4 scancode) (key_of-digits (scancode % 16) (omega arith))

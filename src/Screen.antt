-- ===== src/Screen.antt =====
-- src/vga.rs, src/video.rs and src/interrupts/keyboard.rs: the writer of the text screen, the drawing
-- of a pixel, and the keys of the scan codes. The text buffer is a function from row and column; an
-- index outside its 25 rows and 80 columns panics.
pub mod Text
pub mod Pixels
pub mod Printing
use rucoonos.Prelude.{
  ℕ, zero, suc, ◌+◌, ◌-◌, ◌*◌, ◌%◌, ◌^◌, Bool, true, false, ◌&&◌, ◌||◌, ◌==◌, ltb, leb, bit_and,
  if◌then◌else◌, List, [], ◌∷◌, length, Option, none, some, Bytes,
}
use rucoonos.Net.Wire.{Profile, debug, release}
use rucoonos.Prelude.Arrays.{set}
use rucoonos.Hardware.Loop.{Exec, returned, panicked, ◌then◌}

pub record ScreenChar : Type 0 where
  pub ascii_character : ℕ
  pub color_code : ℕ

-- `ColorCode::new`
pub color_code_new : ℕ → ℕ → ℕ
color_code_new foreground background = background * 16 + foreground

-- `Buffer`
abbrev pub Buffer : Type 0
Buffer = ℕ → ℕ → ScreenChar

pub record Writer : Type 0 where
  pub column_position : ℕ
  pub color_code : ℕ
  pub chars : Buffer

-- `self.buffer.chars[row][col].write(x)`, where the indices are inside the buffer.
abbrev pub write : ℕ → ℕ → ScreenChar → Buffer → Buffer
write row col x chars i j = if (i == row) && (j == col) then x else chars i j

-- `for col in col..col + n` of `new_line`
pub copy_columns : ℕ → ℕ → ℕ → Buffer → Buffer
copy_columns row zero col chars = chars
copy_columns row (suc n) col chars =
    copy_columns row n (suc col) (write (row - 1) col (chars row col) chars)

-- `for row in row..row + n` of `new_line`
pub copy_rows : ℕ → ℕ → Buffer → Buffer
copy_rows zero row chars = chars
copy_rows (suc n) row chars = copy_rows n (suc row) (copy_columns row 80 0 chars)

-- `for col in col..col + n` of `clear_row`
pub clear_columns : ScreenChar → ℕ → ℕ → ℕ → Buffer → Buffer
clear_columns blank row zero col chars = chars
clear_columns blank row (suc n) col chars =
    clear_columns blank row n (suc col) (write row col blank chars)

abbrev pub blank_of : Writer → ScreenChar
blank_of w = record { ascii_character = 0x20; color_code = w.color_code }

pub clear_row : ℕ → Writer → Writer
clear_row row w = record w { chars = clear_columns (blank_of w) row 80 0 w.chars }

pub new_line : Writer → Writer
unfolding clear_row
new_line w = record (clear_row 24 (record w { chars = copy_rows 24 1 w.chars })) {
  column_position = 0;
}

-- The write at the end of `write_byte`, in the last row.
pub placed : ℕ → Writer → Writer
placed byte w = record w {
  chars =
      write 24 w.column_position (record { ascii_character = byte; color_code = w.color_code })
        w.chars;
  column_position = w.column_position + 1;
}

pub put : ℕ → Writer → Exec Writer
unfolding placed
put byte w = if ltb w.column_position 80 then returned (placed byte w) else panicked

pub write_byte : ℕ → Writer → Exec Writer
unfolding new_line put
write_byte byte w =
    if byte == 0x0a
    then returned (new_line w)
    else if leb 80 w.column_position
    then put byte (new_line w)
    else put byte w

-- `0x20..=0x7e | b'\n'`, or the byte of a box.
abbrev pub printable : ℕ → ℕ
printable byte = if (leb 0x20 byte && leb byte 0x7e) || (byte == 0x0a) then byte else 0xfe

pub write_string : Bytes → Writer → Exec Writer
unfolding write_byte
write_string [] w = returned w
write_string (byte ∷ bytes) w = write_byte (printable byte) w then λ w'. write_string bytes w'

-- `FrameBufferInfo`, as far as it is used.
pub record FrameBufferInfo : Type 0 where
  pub byte_len : ℕ
  pub horizontal_resolution : ℕ
  pub bytes_per_pixel : ℕ

pub record Color : Type 0 where
  pub red : ℕ
  pub green : ℕ
  pub blue : ℕ

-- A result of `usize`: a debug build panics where it does not fit, a release build wraps around.
pub usize : Profile → ℕ → Exec ℕ
usize profile n =
    if ltb n (2 ^ 64)
    then returned n
    else elim profile [ debug ↦ panicked | release ↦ returned (n % 2 ^ 64) ]

-- `start`
pub offset : Profile → FrameBufferInfo → ℕ → ℕ → Exec ℕ
unfolding usize
offset profile info x y = usize profile (y * info.horizontal_resolution) then λ row.
    usize profile (row * info.bytes_per_pixel) then λ above.
    usize profile (x * info.bytes_per_pixel) then λ left. usize profile (above + left)

-- `*(locked.get_mut(i).unwrap()) = v`
abbrev pub store : ℕ → ℕ → Bytes → Exec Bytes
store i v buffer = if ltb i (length buffer) then returned (set buffer i v) else panicked

-- The three writes; an index that a buffer has fits.
pub put_pixel : ℕ → Color → Bytes → Exec Bytes
put_pixel start color buffer =
    store start color.red buffer
    then (λ b. store (start + 1) color.green b)
    then (λ b. store (start + 2) color.blue b)

-- `draw`, after `init`.
pub draw : Profile → FrameBufferInfo → ℕ → ℕ → Color → Bytes → Exec Bytes
unfolding offset put_pixel
draw profile info x y color buffer = offset profile info x y then λ start.
    usize profile (start + info.bytes_per_pixel) then λ end.
    if leb info.byte_len end then returned buffer else put_pixel start color buffer

-- The match on `scancode & 0x0f`: the characters of the arms, in ASCII.
pub key_of : ℕ → Option ℕ
key_of code =
    if code == 2
    then some 0x31
    else if code == 3
    then some 0x32
    else if code == 4
    then some 0x33
    else if code == 5
    then some 0x34
    else if code == 6
    then some 0x35
    else if code == 7
    then some 0x36
    else if code == 8
    then some 0x37
    else if code == 9
    then some 0x38
    else if code == 10
    then some 0x39
    else if code == 11
    then some 0x30
    else if code == 16
    then some 0x71
    else if code == 17
    then some 0x77
    else if code == 18
    then some 0x65
    else if code == 19
    then some 0x72
    else if code == 20
    then some 0x74
    else if code == 21
    then some 0x7a
    else if code == 22
    then some 0x75
    else if code == 23
    then some 0x69
    else if code == 24
    then some 0x6f
    else if code == 25
    then some 0x70
    else if code == 30
    then some 0x61
    else if code == 31
    then some 0x73
    else if code == 32
    then some 0x64
    else if code == 33
    then some 0x66
    else if code == 34
    then some 0x67
    else if code == 35
    then some 0x68
    else if code == 36
    then some 0x6a
    else if code == 37
    then some 0x6b
    else if code == 38
    then some 0x6c
    else if leb 44 code && leb code 50
    then some 0x79
    else none

-- Whether the key goes down, and its character.
pub decode : ℕ → Bool × Option ℕ
unfolding key_of
decode scancode = (bit_and scancode 0x80 == 0, key_of (bit_and scancode 0x0f))

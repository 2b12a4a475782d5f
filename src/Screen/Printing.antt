-- ===== src/Screen/Printing.antt =====
-- src/vga.rs: the colors, the writer that there is at the start, and printing. The formatting of the standard
-- library gives the pieces of a text one after the other.
use rucoonos.Prelude.{ℕ, ◌/◌, ◌%◌, ◌≡◌, ◌≤◌, refl, ap, sym, ◌∙◌, arith, List, [], ◌∷◌, ◌++◌, Bytes}
use rucoonos.Hardware.Loop.{Exec, returned, ◌then◌, then_assoc}
use rucoonos.Screen.{Buffer, Writer, write_byte, write_string, color_code_new, printable}
use rucoonos.Screen.Text.{IsColumn, write_string-IsColumn}

data Color : Type 0 where
  black blue green cyan red magenta brown light_gray dark_gray light_blue light_green light_cyan
        light_red pink yellow white :
      Color

as_u8 : Color → ℕ
as_u8 Color.black = 0
as_u8 Color.blue = 1
as_u8 Color.green = 2
as_u8 Color.cyan = 3
as_u8 Color.red = 4
as_u8 Color.magenta = 5
as_u8 Color.brown = 6
as_u8 Color.light_gray = 7
as_u8 Color.dark_gray = 8
as_u8 Color.light_blue = 9
as_u8 Color.light_green = 10
as_u8 Color.light_cyan = 11
as_u8 Color.light_red = 12
as_u8 Color.pink = 13
as_u8 Color.yellow = 14
as_u8 Color.white = 15

-- `WRITER`, over what is on the screen.
initial : Buffer → Writer
unfolding as_u8
initial chars = record {
  column_position = 0;
  color_code = color_code_new (as_u8 Color.yellow) (as_u8 Color.black);
  chars = chars;
}

-- `_print`, with `write_str` for each piece.
print : List Bytes → Writer → Exec Writer
print [] w = returned w
print (piece ∷ pieces) w = write_string piece w then λ w'. print pieces w'

abbrev concat : List Bytes → Bytes
concat [] = []
concat (piece ∷ pieces) = piece ++ concat pieces

write_string-append :
    (xs ys : Bytes) (w : Writer)
    → write_string (xs ++ ys) w ≡ (write_string xs w then λ w'. write_string ys w')
unfolding write_string
write_string-append [] ys w = refl
write_string-append (x ∷ xs) ys w =
    ap (λ f. write_byte (printable x) w then f) (λ i w'. write_string-append xs ys w' i)
    ∙ sym (then_assoc (write_byte (printable x) w) (write_string xs) (write_string ys))

-- A text is printed in the same way in whatever pieces it comes.
print-concat : (pieces : List Bytes) (w : Writer) → print pieces w ≡ write_string (concat pieces) w
unfolding print write_string
print-concat [] w = refl
print-concat (piece ∷ pieces) w =
    ap (λ f. write_string piece w then f) (λ i w'. print-concat pieces w' i)
    ∙ sym (write_string-append piece (concat pieces) w)

-- Printing to the writer of the start never fails.
print-IsColumn :
    (pieces : List Bytes) (chars : Buffer)
    → (w : Writer) × (print pieces (initial chars) ≡ returned w) × IsColumn w
unfolding initial
print-IsColumn pieces chars =
    let (w, e, h) = write_string-IsColumn (concat pieces) (initial chars) (omega arith) in
    (w, print-concat pieces (initial chars) ∙ e, h)

as_u8_small : (c : Color) → as_u8 c ≤ 15
unfolding as_u8
as_u8_small Color.black = omega arith
as_u8_small Color.blue = omega arith
as_u8_small Color.green = omega arith
as_u8_small Color.cyan = omega arith
as_u8_small Color.red = omega arith
as_u8_small Color.magenta = omega arith
as_u8_small Color.brown = omega arith
as_u8_small Color.light_gray = omega arith
as_u8_small Color.dark_gray = omega arith
as_u8_small Color.light_blue = omega arith
as_u8_small Color.light_green = omega arith
as_u8_small Color.light_cyan = omega arith
as_u8_small Color.light_red = omega arith
as_u8_small Color.pink = omega arith
as_u8_small Color.yellow = omega arith
as_u8_small Color.white = omega arith

-- The code of two colors holds them both.
color_code_new-as_u8 :
    (foreground background : Color)
    → (color_code_new (as_u8 foreground) (as_u8 background) % 16 ≡ as_u8 foreground)
      × (color_code_new (as_u8 foreground) (as_u8 background) / 16 ≡ as_u8 background)
unfolding color_code_new
color_code_new-as_u8 foreground background =
    let h : as_u8 foreground ≤ 15 = as_u8_small foreground in (omega arith, omega arith)

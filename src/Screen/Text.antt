-- ===== src/Screen/Text.antt =====
-- src/vga.rs: scrolling, and writing inside the buffer.
use rucoonos.Prelude.{
  ℕ, zero, suc, ◌+◌, ◌-◌, ◌<◌, ◌≤◌, ◌≡◌, refl, ap, ◌∙◌, arith, false, ◌&&◌, ◌==◌, ltb, leb,
  if◌then◌else◌, [], ◌∷◌, Bytes, Bool-cases, inl, inr, lt→ltb,
}
use rucoonos.Hardware.Loop.{returned, panicked, ◌then◌}
use rucoonos.Screen.{
  ScreenChar, Writer, Buffer, write, copy_columns, copy_rows, clear_columns, blank_of, clear_row,
  new_line, placed, put, write_byte, printable, write_string,
}

copy_columns-at :
    (row n col : ℕ) (chars : Buffer) (i j : ℕ)
    → 0 < row
    → copy_columns row n col chars i j
      ≡ (if (i == row - 1) && (leb col j && ltb j (col + n)) then chars row j else chars i j)
unfolding copy_columns
copy_columns-at row zero col chars i j pos = ground arith
copy_columns-at row (suc n) col chars i j pos =
    copy_columns-at row n (suc col) (write (row - 1) col (chars row col) chars) i j pos
    ∙ ground arith

copy_rows-at :
    (n row : ℕ) (chars : Buffer) (i j : ℕ)
    → 0 < row
    → j < 80
    → copy_rows n row chars i j
      ≡ (if leb row (suc i) && ltb (suc i) (row + n) then chars (suc i) j else chars i j)
unfolding copy_rows
copy_rows-at zero row chars i j pos lt = ground arith
copy_rows-at (suc n) row chars i j pos lt =
    copy_rows-at n (suc row) (copy_columns row 80 0 chars) i j (omega arith) lt
    ∙ rw (copy_columns-at row 80 0 chars (suc i) j pos, copy_columns-at row 80 0 chars i j pos)
        (ground arith)

clear_columns-at :
    (blank : ScreenChar) (row n col : ℕ) (chars : Buffer) (i j : ℕ)
    → clear_columns blank row n col chars i j
      ≡ (if (i == row) && (leb col j && ltb j (col + n)) then blank else chars i j)
unfolding clear_columns
clear_columns-at blank row zero col chars i j = ground arith
clear_columns-at blank row (suc n) col chars i j =
    clear_columns-at blank row n (suc col) (write row col blank chars) i j ∙ ground arith

-- A new line moves every row up by one: each of the first 24 rows is what the row below it was, the last
-- one is blank, in the writer's colour, and the next column is the first.
pub new_line-scrolls :
    (w : Writer) (i j : ℕ)
    → i < 25
    → j < 80
    → ((new_line w).chars i j ≡ (if i == 24 then blank_of w else w.chars (suc i) j))
      × ((new_line w).column_position ≡ 0)
unfolding new_line clear_row
new_line-scrolls w i j lt le = (
  clear_columns-at (blank_of w) 24 80 0 (copy_rows 24 1 w.chars) i j
      ∙ rw (copy_rows-at 24 1 w.chars i j (omega arith) le) (ground arith),
  refl,
)

-- A column that a writer may be at between two bytes.
abbrev pub IsColumn : Writer → Type 0
IsColumn w = w.column_position ≤ 80

put-placed :
    (byte : ℕ) (w : Writer) → w.column_position < 80 → put byte w ≡ returned (placed byte w)
unfolding put
put-placed byte w h =
    ap (λ b. if b then returned (placed byte w) else panicked) (lt→ltb w.column_position 80 h)

placed-IsColumn : (byte : ℕ) (w : Writer) → w.column_position < 80 → IsColumn (placed byte w)
unfolding placed
placed-IsColumn byte w h = omega arith

new_line_column : (w : Writer) → (new_line w).column_position < 80
unfolding new_line
new_line_column w = omega arith

write_byte-IsColumn :
    (byte : ℕ) (w : Writer)
    → IsColumn w
    → (w' : Writer) × (write_byte byte w ≡ returned w') × IsColumn w'
unfolding write_byte
write_byte-IsColumn byte w le = elim (Bool-cases (byte == 0x0a)) [
  | inl line ↦ (new_line w, rw line refl, lt→le (new_line_column w))
  | inr other ↦ elim (Bool-cases (leb 80 w.column_position)) [
    | inl full ↦ (
      placed byte (new_line w),
      rw (other, full) (put-placed byte (new_line w) (new_line_column w)),
      placed-IsColumn byte (new_line w) (new_line_column w),
    )
    | inr free ↦ (
      placed byte w,
      rw (other, free) (put-placed byte w (room free)),
      placed-IsColumn byte w (room free),
    )
  ]
]
  where
    room : leb 80 w.column_position ≡ false → w.column_position < 80
    room h = ground arith

    lt→le : {n : ℕ} → n < 80 → n ≤ 80
    lt→le h = omega arith

-- From a column of at most 80, writing any string returns, with a column of at most 80 again: no
-- index of the buffer is ever out of its bounds.
pub write_string-IsColumn :
    (bytes : Bytes) (w : Writer)
    → IsColumn w
    → (w' : Writer) × (write_string bytes w ≡ returned w') × IsColumn w'
unfolding write_string
write_string-IsColumn [] w le = (w, refl, le)
write_string-IsColumn (byte ∷ bytes) w le =
    let (w1, r, h) = write_byte-IsColumn (printable byte) w le in
    let (w2, q, k) = write_string-IsColumn bytes w1 h in
    (w2, ap (λ x. x then λ w'. write_string bytes w') r ∙ q, k)

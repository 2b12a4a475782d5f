-- ===== src/Hardware/Driver/Start/Eeprom.antt =====
-- src/hardware/device/e1000.rs: the hardware address that is read from the card's memory.
use rucoonos.Prelude.{
  List, ℕ, zero, suc, ◌+◌, ◌*◌, ◌%◌, ◌/◌, ◌^◌, ◌<◌, ◌≡◌, refl, sym, ap, ◌∙◌, arith, true, false,
  if◌then◌else◌, ◌==◌, bit_and, bit_or, eq→==,
}
use rucoonos.Prelude.Bits.{bit_and-mask}
use rucoonos.Net.Wire.{Array6, array6}
use rucoonos.Hardware.Loop.{
  Exec, returned, panicked, ◌then◌, again, stop, loop, loop-again, loop-stop,
}
use rucoonos.Hardware.Driver.{Card, write_command}
use rucoonos.Hardware.Driver.Start.{polled, read_eeprom, read_mac_address}

-- The polling from the read `i` on ends at the read `k`, the first with the bit 4.
polled-word :
    (reads : ℕ → ℕ) (k d i fuel : ℕ)
    → ((j : ℕ) → j < k → bit_and (reads j) 16 ≡ 0)
    → (bit_and (reads k) 16 == 0) ≡ false
    → k ≡ i + d
    → d < fuel
    → loop (polled reads) fuel i ≡ returned k
unfolding polled
polled-word reads k d i zero before here e lt = elim lt [ ]
polled-word reads k zero i (suc fuel) before here e lt =
    let same : k ≡ i = omega arith in
    loop-stop (polled reads) fuel i k (
      ap (λ b. if b then again (suc i) else stop i)
        (ap (λ j. bit_and (reads j) 16 == 0) (sym same) ∙ here)
      ∙ ap stop (sym same))
polled-word reads k (suc d) i (suc fuel) before here e lt =
    loop-again (polled reads) fuel i (suc i)
      (ap (λ b. if b then again (suc i) else stop i) (eq→== _ 0 (before i (omega arith))))
    ∙ polled-word reads k d (suc i) fuel before here (omega arith) (omega arith)

-- Where a card with this memory says with bit 4 of its k-th answer, and of none before, that a word is
-- there, reading the word ends after that answer and gives its upper 16 bits.
read_eeprom-word :
    (addr : ℕ) (reads : ℕ → ℕ) (c : Card) (k fuel : ℕ)
    → c.has_eeprom ≡ true
    → ((j : ℕ) → j < k → bit_and (reads j) 16 ≡ 0)
    → (bit_and (reads k) 16 == 0) ≡ false
    → k < fuel
    → read_eeprom fuel addr reads c
      ≡ returned
          (bit_and (reads k / 2 ^ 16) 0xffff, write_command 0x0014 (bit_or 1 (addr * 2 ^ 8)) c)
unfolding read_eeprom
read_eeprom-word addr reads c k fuel has before here lt =
    ap
      (λ b.
        if b
        then (loop (polled reads) fuel 0 then λ k.
            returned
              (bit_and (reads k / 2 ^ 16) 0xffff, write_command 0x0014 (bit_or 1 (addr * 2 ^ 8)) c))
        else panicked)
      has
    ∙ ap
        (λ x. x then λ k.
          returned
            (bit_and (reads k / 2 ^ 16) 0xffff, write_command 0x0014 (bit_or 1 (addr * 2 ^ 8)) c))
        (polled-word reads k k 0 fuel before here (omega arith) lt)

-- The three words, one after the other.
three-words :
    (reads : ℕ → ℕ → ℕ) (c : Card) (k : ℕ → ℕ) (fuel : ℕ)
    → c.has_eeprom ≡ true
    → ((i j : ℕ) → j < k i → bit_and (reads i j) 16 ≡ 0)
    → ((i : ℕ) → (bit_and (reads i (k i)) 16 == 0) ≡ false)
    → ((i : ℕ) → k i < fuel)
    → let word = λ (i : ℕ). bit_and (reads i (k i) / 2 ^ 16) 0xffff in
      (ws : List (ℕ × ℕ)) × (read_mac_address fuel reads c
        ≡ returned (
          array6
              (bit_and (word 0) 0xff)
              (word 0 / 2 ^ 8 % 2 ^ 8)
              (bit_and (word 1) 0xff)
              (word 1 / 2 ^ 8 % 2 ^ 8)
              (bit_and (word 2) 0xff)
              (word 2 / 2 ^ 8 % 2 ^ 8),
          record c { writes = ws },
        ))
unfolding read_mac_address
three-words reads c k fuel has before here lt =
    let c1 : Card = write_command 0x0014 (bit_or 1 (0 * 2 ^ 8)) c in
    let c2 : Card = write_command 0x0014 (bit_or 1 (1 * 2 ^ 8)) c1 in
    let c3 : Card = write_command 0x0014 (bit_or 1 (2 * 2 ^ 8)) c2 in
    let word : ℕ → ℕ = λ i. bit_and (reads i (k i) / 2 ^ 16) 0xffff in
    let last : ℕ → ℕ → ℕ × Card → Exec (Array6 × Card) = λ first2 second2 (third2, c3). returned (
      array6 (bit_and first2 0xff) (first2 / 2 ^ 8 % 2 ^ 8) (bit_and second2 0xff)
          (second2 / 2 ^ 8 % 2 ^ 8) (bit_and third2 0xff) (third2 / 2 ^ 8 % 2 ^ 8),
      c3,
    ) in
    let second : ℕ → ℕ × Card → Exec (Array6 × Card) =
      λ first2 (second2, c2). read_eeprom fuel 2 (reads 2) c2 then last first2 second2 in
    let first : ℕ × Card → Exec (Array6 × Card) =
      λ (first2, c1). read_eeprom fuel 1 (reads 1) c1 then second first2 in
    (
      c3.writes,
      ap (λ b. if b then (read_eeprom fuel 0 (reads 0) c then first) else panicked) has
          ∙ ap (λ x. x then first)
              (read_eeprom-word 0 (reads 0) c (k 0) fuel has (before 0) (here 0) (lt 0))
          ∙ ap (λ x. x then second (word 0))
              (read_eeprom-word 1 (reads 1) c1 (k 1) fuel has (before 1) (here 1) (lt 1))
          ∙ ap (λ x. x then last (word 0) (word 1))
              (read_eeprom-word 2 (reads 2) c2 (k 2) fuel has (before 2) (here 2) (lt 2)),
    )

low_byte : (x : ℕ) → bit_and (bit_and x 0xffff) 0xff ≡ x % 2 ^ 16 % 256
low_byte x = ap (λ y. bit_and y 0xff) (bit_and-mask 16 x) ∙ bit_and-mask 8 (x % 2 ^ 16)

high_byte : (x : ℕ) → bit_and x 0xffff / 2 ^ 8 % 2 ^ 8 ≡ x % 2 ^ 16 / 256
high_byte x = ap (λ y. y / 2 ^ 8 % 2 ^ 8) (bit_and-mask 16 x) ∙ omega arith

-- The bytes of the first three words, the lower byte of each first.
abbrev pub mac_of : (ℕ → ℕ) → Array6
mac_of word =
    array6 (word 0 % 256) (word 0 / 256) (word 1 % 256) (word 1 / 256) (word 2 % 256) (word 2 / 256)

-- Where a card with a memory says with bit 4 of the k-th answer to a request, and of none before, that
-- the word is there, for each of the three requests, reading the hardware address ends after these
-- answers. It returns the six bytes of the words, which are the upper halves of the answers, the lower
-- byte of each word first.
pub read_mac_address-words :
    (reads : ℕ → ℕ → ℕ) (c : Card) (k : ℕ → ℕ) (fuel : ℕ)
    → c.has_eeprom ≡ true
    → ((i j : ℕ) → j < k i → bit_and (reads i j) 16 ≡ 0)
    → ((i : ℕ) → (bit_and (reads i (k i)) 16 == 0) ≡ false)
    → ((i : ℕ) → k i < fuel)
    → (ws : List (ℕ × ℕ)) × (read_mac_address fuel reads c
        ≡ returned (mac_of (λ i. reads i (k i) / 2 ^ 16 % 2 ^ 16), record c { writes = ws }))
read_mac_address-words reads c k fuel has before here lt =
    let (ws, e) = three-words reads c k fuel has before here lt in
    let x : ℕ → ℕ = λ i. reads i (k i) / 2 ^ 16 in
    (
      ws,
      e
          ∙ rw
              (
                low_byte (x 0),
                high_byte (x 0),
                low_byte (x 1),
                high_byte (x 1),
                low_byte (x 2),
                high_byte (x 2),
              )
              refl,
    )

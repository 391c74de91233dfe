-- ===== src/Console/Screen.antt =====
-- The screen, kernel/console.c: `cgaputc` on the 16-bit cells of the CGA memory, with the cursor that the
-- controller keeps, and `consputc`, `consolewrite` as what reaches the serial port and the screen.
use uw_cse451_operating_syst.Base.{
  ◌/◌, ℕ, ◌+◌, ◌-◌, ◌*◌, ◌%◌, ◌&&◌, List, [], ◌∷◌, ◌++◌, ◌==◌, ltb, leb, if◌then◌else◌, length,
}
use uw_cse451_operating_syst.Base.Outcome.{Outcome, done, panic, ◌>>=◌}

pub record Cga : Type 0 where
  pub cells : ℕ → ℕ
  pub cursor : ℕ

-- `BACKSPACE`
abbrev pub backspace : ℕ
backspace = 0x100

-- A character, black on white.
abbrev pub cell_of : (c : ℕ) → ℕ
cell_of c = c % 256 + 0x700

abbrev pub put_cell : (ℕ → ℕ) → (i v : ℕ) → ℕ → ℕ
put_cell t i v j = if i == j then v else t j

-- The position and the cells after the character.
unfoldable pub advance : (c : ℕ) → Cga → Cga
advance c g =
    if c == 10
    then record g { cursor = g.cursor + (80 - g.cursor % 80) }
    else if c == backspace
    then record g { cursor = g.cursor - 1 }
    else record { cells = put_cell g.cells g.cursor (cell_of c); cursor = g.cursor + 1 }

-- Up by a line: 23 lines are moved, and the rest of the 24 lines is cleared.
unfoldable pub scroll : Cga → Cga
scroll g =
    let pos = g.cursor - 80 in
    record {
      cells = (λ i.
          if leb pos i && ltb i (24 * 80)
          then 0
          else if ltb i (23 * 80)
          then g.cells (i + 80)
          else g.cells i);
      cursor = pos;
    }

unfoldable pub scroll_if_needed : Cga → Cga
scroll_if_needed g = if leb 24 (g.cursor / 80) then scroll g else g

-- The cursor's cell is blank.
abbrev pub show_cursor : Cga → Cga
show_cursor g = record g { cells = put_cell g.cells g.cursor (cell_of 32) }

unfoldable pub cgaputc : (c : ℕ) → Cga → Outcome Cga
cgaputc c g =
    let g1 = advance c g in
    if ltb (25 * 80) g1.cursor then panic else done (show_cursor (scroll_if_needed g1))

-- What `consputc` sends to the serial port.
abbrev pub serial : (c : ℕ) → List ℕ
serial c = if c == backspace then 8 ∷ 32 ∷ 8 ∷ [] else c % 256 ∷ []

-- `consputc` before any panic: the serial port and the screen.
unfoldable pub consputc : (c : ℕ) → List ℕ → Cga → Outcome (List ℕ × Cga)
consputc c sent g = cgaputc c g >>= (λ g1. done (sent ++ serial c, g1))

-- `consolewrite`: the number of bytes, what was sent, and the screen.
unfoldable pub write_chars : (bytes : List ℕ) → List ℕ → Cga → Outcome (List ℕ × Cga)
write_chars [] sent g = done (sent, g)
write_chars (c ∷ cs) sent g = consputc (c % 256) sent g >>= (λ (sent1, g1). write_chars cs sent1 g1)

unfoldable pub consolewrite : (bytes : List ℕ) → List ℕ → Cga → Outcome (ℕ × List ℕ × Cga)
consolewrite bytes sent g =
    write_chars bytes sent g >>= (λ (sent1, g1). done (length bytes, sent1, g1))

-- ===== src/Console/Cursor.antt =====
-- The cursor stays on the 24 lines that are used, and the console never panics on what it prints.
use uw_cse451_operating_syst.Base.{
  ◌/◌, ℕ, ◌*◌, ◌%◌, ◌≤◌, ◌<◌, ◌≡◌, inl, inr, refl, sym, ap, ◌∙◌, false, List, [], ◌∷◌, ◌++◌, arith,
  ◌==◌, ltb, leb, length, Bool-cases,
}
use uw_cse451_operating_syst.Base.Outcome.{done}
use uw_cse451_operating_syst.Console.Screen.{
  show_cursor, scroll_if_needed, Cga, advance, scroll, cgaputc, backspace, consputc, write_chars,
  consolewrite, serial,
}
use uw_cse451_operating_syst.Console.Line.{++-[], append_assoc}

abbrev pub lines_end : ℕ
lines_end = 24 * 80

advance-cursor : (c : ℕ) (g : Cga) → g.cursor < lines_end → (advance c g).cursor ≤ lines_end
unfolding advance
advance-cursor c g l = elim (Bool-cases (c == 10)) [
  | inl t ↦ rw t (omega arith)
  | inr t ↦ elim (Bool-cases (c == backspace)) [
    | inl u ↦ rw (t, u) (omega arith)
    | inr u ↦ rw (t, u) (omega arith)
  ]
]

scroll_if_needed-cursor : (g : Cga) → g.cursor ≤ lines_end → (scroll_if_needed g).cursor < lines_end
unfolding scroll_if_needed scroll
scroll_if_needed-cursor g l = elim (Bool-cases (leb 24 (g.cursor / 80))) [
  | inl t ↦ rw t (omega arith)
  | inr t ↦ let low : g.cursor / 80 < 24 = ground arith in rw t (omega arith)
]

cgaputc-cursor :
    (c : ℕ) (g : Cga)
    → g.cursor < lines_end
    → (cgaputc c g ≡ done (show_cursor (scroll_if_needed (advance c g))))
      × ((scroll_if_needed (advance c g)).cursor < lines_end)
unfolding cgaputc
cgaputc-cursor c g l =
    let a = advance-cursor c g l in
    let fits : ltb (25 * 80) (advance c g).cursor ≡ false = ground arith in
    (rw fits refl, scroll_if_needed-cursor (advance c g) a)

-- The bytes as they are sent.
abbrev pub as_bytes : List ℕ → List ℕ
as_bytes [] = []
as_bytes (c ∷ cs) = c % 256 ∷ as_bytes cs

serial-byte : (c : ℕ) → serial (c % 256) ≡ c % 256 ∷ []
serial-byte c =
    let ne : c % 256 == backspace ≡ false = ground arith in
    let small : c % 256 % 256 ≡ c % 256 = omega arith in rw (ne, small) refl

write_chars-cursor :
    (bytes sent : List ℕ) (g : Cga)
    → g.cursor < lines_end
    → (g1 : Cga) × (write_chars bytes sent g ≡ done (sent ++ as_bytes bytes, g1))
      × (g1.cursor < lines_end)
unfolding write_chars consputc
write_chars-cursor [] sent g l = (g, ap done (ap (λ z. (z, g)) (sym (++-[] sent))), l)
write_chars-cursor (c ∷ cs) sent g l =
    let (run, low) = cgaputc-cursor (c % 256) g l in
    let (g1, rest, l1) =
      write_chars-cursor cs (sent ++ serial (c % 256))
        (show_cursor (scroll_if_needed (advance (c % 256) g))) low in
    (
      g1,
      rw run (
          rest
          ∙ ap done (
              ap (λ z. (z, g1))
                (append_assoc sent (serial (c % 256)) (as_bytes cs)
                  ∙ ap (λ z. sent ++ (z ++ as_bytes cs)) (serial-byte c)))),
      l1,
    )

-- `consolewrite` never panics while the cursor is on the 24 lines that are used, and leaves it there; it
-- reports all bytes as written, and has sent them in their order.
pub consolewrite-cursor :
    (bytes sent : List ℕ) (g : Cga)
    → g.cursor < lines_end
    → (g1 : Cga) × (consolewrite bytes sent g ≡ done (length bytes, sent ++ as_bytes bytes, g1))
      × (g1.cursor < lines_end)
unfolding consolewrite
consolewrite-cursor bytes sent g l =
    let (g1, run, l1) = write_chars-cursor bytes sent g l in (g1, rw run refl, l1)

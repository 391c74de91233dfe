-- ===== src/Examples/Terminal.antt =====
-- The console and the library of the user programs at small inputs.
use uw_cse451_operating_syst.User.Grep.{match_text, match_from, matchhere}
use uw_cse451_operating_syst.User.Pattern.{match_text_lem, Begins, Somewhere, parse}
use uw_cse451_operating_syst.Console.Keyboard.{kbd_chars, kbdgetc, charcode, with_capslock}
use uw_cse451_operating_syst.Base.{
  ◌≢◌, ◌↔◌, ℕ, zero, suc, ◌-◌, ◌*◌, ◌^◌, ◌≤◌, ◌<◌, ◌≡◌, inl, refl, true, false, List, [], ◌∷◌, ◌++◌,
  arith, ◌==◌, if◌then◌else◌, length,
}
use uw_cse451_operating_syst.Base.Outcome.{done}
use uw_cse451_operating_syst.Console.{int_buffer, cprintf}
use uw_cse451_operating_syst.Console.Digits.{length-int_buffer}
use uw_cse451_operating_syst.Console.Input.{
  Input, consoleintr, console_char, type_char, erase, consoleread,
}
use uw_cse451_operating_syst.Console.Line.{IsRing, Extends, consoleintr-Extends, committed}
use uw_cse451_operating_syst.Console.Reading.{consoleread-Reads, Reads}
use uw_cse451_operating_syst.Console.Screen.{Cga, consolewrite}
use uw_cse451_operating_syst.Console.Cursor.{consolewrite-cursor, as_bytes, lines_end}
use uw_cse451_operating_syst.User.{atoi, printint, printf}
use uw_cse451_operating_syst.User.Numbers.{atoi-printint}
use uw_cse451_operating_syst.User.Format.{printf-cprintf, IsPlain}

length-int_buffer_example :
    (2 ^ 31 < 2 ^ 32 → length (int_buffer 32 97 (2 ^ 31) 10 true) ≤ 16)
    × (2 ^ 31 < 2 ^ 64 → length (int_buffer 64 97 (2 ^ 31) 10 true) ≤ 32)
length-int_buffer_example = length-int_buffer (2 ^ 31) 10 true (inl refl)

-- A ring whose indices are about to wrap.
abbrev fresh : Input
fresh = record { buf = λ i. 0; r = 2 ^ 32 - 1; w = 2 ^ 32 - 1; e = 2 ^ 32 - 1 }

fresh-IsRing : IsRing fresh
fresh-IsRing = record {
  r_word = omega arith;
  w_word = omega arith;
  e_word = omega arith;
  ordered = omega arith;
  bounded = omega arith;
}

-- `a`, `b`, backspace, `c`, return
abbrev keys : List ℕ
keys = 97 ∷ 98 ∷ 8 ∷ 99 ∷ 13 ∷ []

typed_line : committed (consoleintr keys fresh) ≡ 97 ∷ 99 ∷ 10 ∷ []
unfolding consoleintr console_char type_char erase
typed_line = refl

consoleintr-Extends_example : Extends fresh (consoleintr keys fresh)
consoleintr-Extends_example = consoleintr-Extends keys fresh fresh-IsRing

abbrev one_line : Input
one_line = record { buf = λ i. if i == 127 then 97 else 10; r = 2 ^ 32 - 1; w = 1; e = 1 }

one_line-IsRing : IsRing one_line
one_line-IsRing = record {
  r_word = omega arith;
  w_word = omega arith;
  e_word = omega arith;
  ordered = omega arith;
  bounded = omega arith;
}

consoleread-Reads_example : Reads one_line 5 5 false (consoleread 5 5 false one_line)
consoleread-Reads_example = consoleread-Reads 5 5 false one_line one_line-IsRing

abbrev last_cell : Cga
last_cell = record { cells = λ i. 0; cursor = 24 * 80 - 1 }

consolewrite-cursor_example :
    (g1 : Cga) × (consolewrite (104 ∷ 105 ∷ []) [] last_cell
      ≡ done (2, [] ++ as_bytes (104 ∷ 105 ∷ []), g1))
    × (g1.cursor < lines_end)
consolewrite-cursor_example = consolewrite-cursor (104 ∷ 105 ∷ []) [] last_cell (omega arith)

atoi-printint_example : atoi (printint 2026 10 true) ≡ 2026
atoi-printint_example = atoi-printint 2026 (omega arith)

-- "%d!"
abbrev plain : List ℕ
plain = 37 ∷ 100 ∷ 33 ∷ []

plain-IsPlain : IsPlain plain
plain-IsPlain zero c g = ground arith
plain-IsPlain (suc zero) c g = ground arith
plain-IsPlain (suc (suc zero)) c g = ground arith
plain-IsPlain (suc (suc (suc m))) c g = cc

printf-cprintf_example :
    printf (λ p. []) plain (4294967289 ∷ []) ≡ cprintf (λ p. []) plain (4294967289 ∷ [])
printf-cprintf_example = printf-cprintf (λ p. []) plain (4294967289 ∷ []) plain-IsPlain

-- "a*b"
abbrev star_pattern : List ℕ
star_pattern = 97 ∷ 42 ∷ 98 ∷ []

found_inside : match_text star_pattern (99 ∷ 97 ∷ 97 ∷ 98 ∷ []) ≡ true
unfolding match_text match_from matchhere
found_inside = refl

match_text_lem_example :
    ((match_text (94 ∷ star_pattern) (97 ∷ 98 ∷ []) ≡ true)
      ↔ Begins (parse star_pattern) (97 ∷ 98 ∷ []))
    × (((c : ℕ) (rest : List ℕ) → star_pattern ≡ c ∷ rest → c ≢ 94)
        → (match_text star_pattern (97 ∷ 98 ∷ []) ≡ true)
          ↔ Somewhere (parse star_pattern) (97 ∷ 98 ∷ []))
match_text_lem_example = match_text_lem star_pattern (97 ∷ 98 ∷ [])

-- Shift down, A, shift up, A, caps lock, A.
typed_keys :
    (kbd_chars (0x2A ∷ 0x1E ∷ 0xAA ∷ 0x1E ∷ 0x3A ∷ 0x1E ∷ []) 0).0 ≡ 0 ∷ 65 ∷ 0 ∷ 97 ∷ 0 ∷ 65 ∷ []
unfolding kbd_chars kbdgetc charcode with_capslock
typed_keys = refl

-- ===== src/Console/Keyboard.antt =====
-- The keyboard, kernel/kbd.c and the maps of inc/kbd.h. A map is a list from key code 0 on and the codes
-- that are named behind it; every other code has 0.
use uw_cse451_operating_syst.Base.{
  get_or, ℕ, ◌+◌, ◌-◌, ◌^◌, ◌&&◌, not, List, [], ◌∷◌, ◌==◌, leb, if◌then◌else◌,
}
use Prim.Native.Nat.{bit_and, bit_or, bit_xor}

abbrev pub named : List (ℕ × ℕ) → (code other : ℕ) → ℕ
named [] code other = other
named ((i, c) ∷ rest) code other = if i == code then c else named rest code other

abbrev pub shiftcode : (code : ℕ) → ℕ
shiftcode code =
    named ((0x1D, 2) ∷ (0x2A, 1) ∷ (0x36, 1) ∷ (0x38, 4) ∷ (0x9D, 2) ∷ (0xB8, 4) ∷ []) code (0)

abbrev pub togglecode : (code : ℕ) → ℕ
togglecode code = named ((0x3A, 8) ∷ (0x45, 16) ∷ (0x46, 32) ∷ []) code (0)

abbrev pub normalmap : (code : ℕ) → ℕ
normalmap code =
    named
      ((0x9C, 10)
        ∷ (0xB5, 47)
        ∷ (0xC8, 226)
        ∷ (0xD0, 227)
        ∷ (0xC9, 230)
        ∷ (0xD1, 231)
        ∷ (0xCB, 228)
        ∷ (0xCD, 229)
        ∷ (0x97, 224)
        ∷ (0xCF, 225)
        ∷ (0xD2, 232)
        ∷ (0xD3, 233)
        ∷ [])
      code
      (get_or
        (0 ∷ 27 ∷ 49 ∷ 50 ∷ 51 ∷ 52 ∷ 53 ∷ 54 ∷ 55 ∷ 56 ∷ 57 ∷ 48 ∷ 45 ∷ 61 ∷ 8 ∷ 9 ∷ 113 ∷ 119
          ∷ 101 ∷ 114 ∷ 116 ∷ 121 ∷ 117 ∷ 105 ∷ 111 ∷ 112 ∷ 91 ∷ 93 ∷ 10 ∷ 0 ∷ 97 ∷ 115 ∷ 100 ∷ 102
          ∷ 103 ∷ 104 ∷ 106 ∷ 107 ∷ 108 ∷ 59 ∷ 39 ∷ 96 ∷ 0 ∷ 92 ∷ 122 ∷ 120 ∷ 99 ∷ 118 ∷ 98 ∷ 110
          ∷ 109 ∷ 44 ∷ 46 ∷ 47 ∷ 0 ∷ 42 ∷ 0 ∷ 32 ∷ 0 ∷ 0 ∷ 0 ∷ 0 ∷ 0 ∷ 0 ∷ 0 ∷ 0 ∷ 0 ∷ 0 ∷ 0 ∷ 0 ∷ 0
          ∷ 55 ∷ 56 ∷ 57 ∷ 45 ∷ 52 ∷ 53 ∷ 54 ∷ 43 ∷ 49 ∷ 50 ∷ 51 ∷ 48 ∷ 46 ∷ 0 ∷ 0 ∷ 0 ∷ 0 ∷ [])
        code 0)

abbrev pub shiftmap : (code : ℕ) → ℕ
shiftmap code =
    named
      ((0x9C, 10)
        ∷ (0xB5, 47)
        ∷ (0xC8, 226)
        ∷ (0xD0, 227)
        ∷ (0xC9, 230)
        ∷ (0xD1, 231)
        ∷ (0xCB, 228)
        ∷ (0xCD, 229)
        ∷ (0x97, 224)
        ∷ (0xCF, 225)
        ∷ (0xD2, 232)
        ∷ (0xD3, 233)
        ∷ [])
      code
      (get_or
        (0 ∷ 27 ∷ 33 ∷ 64 ∷ 35 ∷ 36 ∷ 37 ∷ 94 ∷ 38 ∷ 42 ∷ 40 ∷ 41 ∷ 95 ∷ 43 ∷ 8 ∷ 9 ∷ 81 ∷ 87 ∷ 69
          ∷ 82 ∷ 84 ∷ 89 ∷ 85 ∷ 73 ∷ 79 ∷ 80 ∷ 123 ∷ 125 ∷ 10 ∷ 0 ∷ 65 ∷ 83 ∷ 68 ∷ 70 ∷ 71 ∷ 72 ∷ 74
          ∷ 75 ∷ 76 ∷ 58 ∷ 34 ∷ 126 ∷ 0 ∷ 124 ∷ 90 ∷ 88 ∷ 67 ∷ 86 ∷ 66 ∷ 78 ∷ 77 ∷ 60 ∷ 62 ∷ 63 ∷ 0
          ∷ 42 ∷ 0 ∷ 32 ∷ 0 ∷ 0 ∷ 0 ∷ 0 ∷ 0 ∷ 0 ∷ 0 ∷ 0 ∷ 0 ∷ 0 ∷ 0 ∷ 0 ∷ 0 ∷ 55 ∷ 56 ∷ 57 ∷ 45 ∷ 52
          ∷ 53 ∷ 54 ∷ 43 ∷ 49 ∷ 50 ∷ 51 ∷ 48 ∷ 46 ∷ 0 ∷ 0 ∷ 0 ∷ 0 ∷ [])
        code 0)

abbrev pub ctlmap : (code : ℕ) → ℕ
ctlmap code =
    named
      ((0x9C, 13)
        ∷ (0xB5, 239)
        ∷ (0xC8, 226)
        ∷ (0xD0, 227)
        ∷ (0xC9, 230)
        ∷ (0xD1, 231)
        ∷ (0xCB, 228)
        ∷ (0xCD, 229)
        ∷ (0x97, 224)
        ∷ (0xCF, 225)
        ∷ (0xD2, 232)
        ∷ (0xD3, 233)
        ∷ [])
      code
      (get_or
        (0 ∷ 0 ∷ 0 ∷ 0 ∷ 0 ∷ 0 ∷ 0 ∷ 0 ∷ 0 ∷ 0 ∷ 0 ∷ 0 ∷ 0 ∷ 0 ∷ 0 ∷ 0 ∷ 17 ∷ 23 ∷ 5 ∷ 18 ∷ 20 ∷ 25
          ∷ 21 ∷ 9 ∷ 15 ∷ 16 ∷ 0 ∷ 0 ∷ 13 ∷ 0 ∷ 1 ∷ 19 ∷ 4 ∷ 6 ∷ 7 ∷ 8 ∷ 10 ∷ 11 ∷ 12 ∷ 0 ∷ 0 ∷ 0
          ∷ 0 ∷ 28 ∷ 26 ∷ 24 ∷ 3 ∷ 22 ∷ 2 ∷ 14 ∷ 13 ∷ 0 ∷ 0 ∷ 239 ∷ 0 ∷ 0 ∷ [])
        code 0)

-- `charcode[shift & (CTL | SHIFT)]`
unfoldable pub charcode : (shift code : ℕ) → ℕ
charcode shift code =
    let both = bit_and shift 3 in
    if both == 0 then normalmap code else if both == 1 then shiftmap code else ctlmap code

-- CAPSLOCK swaps the cases of the letters.
unfoldable pub with_capslock : (shift c : ℕ) → ℕ
with_capslock shift c =
    if bit_and shift 8 == 0
    then c
    else if leb 97 c && leb c 122
    then c - 32
    else if leb 65 c && leb c 90
    then c + 32
    else c

-- `kbdgetc` with a byte of the controller: the character, or 0, and `shift`.
unfoldable pub kbdgetc : (byte shift : ℕ) → ℕ × ℕ
kbdgetc byte shift =
    let escaped = not (bit_and shift 64 == 0) in
    let released = if escaped then byte else bit_and byte 0x7F in
    let code = if escaped then bit_or byte 0x80 else byte in
    let shift1 = if escaped then bit_and shift (2 ^ 32 - 1 - 64) else shift in
    let shift2 = bit_xor (bit_or shift1 (shiftcode code)) (togglecode code) in
    if byte == 0xE0
    then (0, bit_or shift 64)
    else if not (bit_and byte 0x80 == 0)
    then (0, bit_and shift (2 ^ 32 - 1 - bit_or (shiftcode released) 64))
    else (with_capslock shift2 (charcode shift2 code), shift2)

-- The characters of the bytes that have come.
unfoldable pub kbd_chars : (bytes : List ℕ) → (shift : ℕ) → List ℕ × ℕ
kbd_chars [] shift = ([], shift)
kbd_chars (b ∷ bytes) shift =
    let (c, shift1) = kbdgetc b shift in
    let (cs, shift2) = kbd_chars bytes shift1 in (c ∷ cs, shift2)

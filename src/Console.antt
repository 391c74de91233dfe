-- ===== src/Console.antt =====
-- Output on the console, kernel/console.c: `printint`, `printint64` and `cprintf` as the characters that
-- they pass to `consputc`. Characters are given by their codes, a machine word by its number.
pub mod Digits
pub mod Input
pub mod Line
pub mod Reading
pub mod Screen
pub mod Cursor
pub mod Keyboard
use uw_cse451_operating_syst.Base.{
  ◌||◌, ◌/◌, ℕ, zero, suc, ◌+◌, ◌-◌, ◌*◌, ◌%◌, ◌^◌, ◌≤◌, ◌<◌, ◌≡◌, ◌≢◌, ◌⊎◌, inl, inr, refl, sym,
  ap, ◌∙◌, Bool, true, false, ◌&&◌, not, Option, none, some, List, [], ◌∷◌, ◌++◌, arith, ◌==◌, ltb,
  leb, if◌then◌else◌, length, get_elem?, set, Bool-cases, Option-cases, ℕ-cases,
}
use uw_cse451_operating_syst.Base.Machine.{is_negative}

-- `digits[d]`, with the letters from `letter` on.
abbrev pub digit_char : (letter d : ℕ) → ℕ
digit_char letter d = if ltb d 10 then 48 + d else letter + (d - 10)

-- The loop that fills `buf`, the last digit first. A word of 64 bits has at most 64 digits, so that 64
-- rounds are enough.
unfoldable pub put_digits : (rounds letter base x : ℕ) → List ℕ
put_digits zero letter base x = []
put_digits (suc rounds) letter base x =
    let rest = put_digits rounds letter base (x / base) in
    digit_char letter (x % base) ∷ (if x / base == 0 then [] else rest)

-- The loop that prints `buf` from its end, in front of what is printed later.
unfoldable pub print_back : List ℕ → (later : List ℕ) → List ℕ
print_back [] later = later
print_back (c ∷ cs) later = print_back cs (c ∷ later)

-- `buf`, with the sign.
unfoldable pub int_buffer : (bits letter : ℕ) → (xx base : ℕ) → (sign : Bool) → List ℕ
int_buffer bits letter xx base sign =
    if sign && leb (2 ^ (bits - 1)) xx
    then put_digits 64 letter base ((2 ^ bits - xx) % 2 ^ bits) ++ (45 ∷ [])
    else put_digits 64 letter base xx

-- `printint` and `printint64`; the letters of the digits start at `a`.
unfoldable pub printint : (xx base : ℕ) → (sign : Bool) → List ℕ
printint xx base sign = print_back (int_buffer 32 97 (xx % 2 ^ 32) base sign) []

unfoldable pub printint64 : (xx base : ℕ) → (sign : Bool) → List ℕ
printint64 xx base sign = print_back (int_buffer 64 97 (xx % 2 ^ 64) base sign) []

-- The letters behind a percent sign.
pub data Directive : Type 0 where
  decimal long_mark hexadecimal text percent unknown : Directive

unfoldable pub directive : (c : ℕ) → Directive
directive c =
    if c == 100
    then decimal
    else if c == 108
    then long_mark
    else if c == 120 || c == 112
    then hexadecimal
    else if c == 115
    then text
    else if c == 37
    then percent
    else unknown

-- The string at an address, `(null)` for the null pointer.
abbrev pub string_or_null : (string_at : ℕ → List ℕ) → (p : ℕ) → List ℕ
string_or_null string_at p = if p == 0 then 40 ∷ 110 ∷ 117 ∷ 108 ∷ 108 ∷ 41 ∷ [] else string_at p

-- Where the loop of `cprintf` stands: in the text, or behind a percent sign, with `lflag`.
pub data Mode : Type 0 where
  in_text : Mode
  behind_percent : (lflag : Bool) → Mode

abbrev pub before : List ℕ → Option (List ℕ) → Option (List ℕ)
before xs none = none
before xs (some ys) = some (xs ++ ys)

-- One argument, printed by `print`. Without an argument left `va_arg` has no meaning in C.
abbrev pub with_arg :
    List ℕ → (print : ℕ → List ℕ) → (rest : List ℕ → Option (List ℕ)) → Option (List ℕ)
with_arg [] print rest = none
with_arg (a ∷ args) print rest = before (print a) (rest args)

-- `cprintf` over the bytes of the format before its zero byte.
unfoldable pub cprintf_from :
    (string_at : ℕ → List ℕ) → (fmt : List ℕ) → Mode → (args : List ℕ) → Option (List ℕ)
cprintf_from string_at [] mode args = some []
cprintf_from string_at (c ∷ cs) in_text args = elim (c == 37) [
  | true ↦ cprintf_from string_at cs (behind_percent false) args
  | false ↦ before (c ∷ []) (cprintf_from string_at cs in_text args)
]
cprintf_from string_at (c ∷ cs) (behind_percent l) args = elim (directive c) [
  | decimal ↦
      with_arg args (λ a. if l then printint64 a 10 true else printint a 10 true)
        (λ more. cprintf_from string_at cs in_text more)
  | long_mark ↦ cprintf_from string_at cs (behind_percent (not l)) args
  | hexadecimal ↦
      with_arg args (λ a. if l then printint64 a 16 false else printint a 16 false)
        (λ more. cprintf_from string_at cs in_text more)
  | text ↦ with_arg args (string_or_null string_at) (λ more. cprintf_from string_at cs in_text more)
  | percent ↦ before (37 ∷ []) (cprintf_from string_at cs in_text args)
  | unknown ↦ before (37 ∷ c ∷ []) (cprintf_from string_at cs in_text args)
]

unfoldable pub cprintf : (string_at : ℕ → List ℕ) → (fmt args : List ℕ) → Option (List ℕ)
cprintf string_at fmt args = cprintf_from string_at fmt in_text args

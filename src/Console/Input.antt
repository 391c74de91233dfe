-- ===== src/Console/Input.antt =====
-- Input from the console, kernel/console.c: the ring that `consoleintr` fills and `consoleread` empties. The
-- three indices are `uint`s that wrap; the lock `cons.lock` is held over each of the two.
use uw_cse451_operating_syst.Base.{
  ◌||◌, ℕ, zero, suc, ◌+◌, ◌-◌, ◌%◌, ◌^◌, Bool, List, [], ◌∷◌, ◌==◌, ltb, if◌then◌else◌,
}

-- `INPUT_BUF`
abbrev pub input_buf : ℕ
input_buf = 128

pub record Input : Type 0 where
  pub buf : ℕ → ℕ
  -- read, write and edit index
  pub r : ℕ
  pub w : ℕ
  pub e : ℕ

-- A difference of `uint`s.
abbrev pub distance : (from to : ℕ) → ℕ
distance from to = (to + 2 ^ 32 - from) % 2 ^ 32

abbrev pub next_index : ℕ → ℕ
next_index i = (i + 1) % 2 ^ 32

abbrev pub previous_index : ℕ → ℕ
previous_index i = (i + 2 ^ 32 - 1) % 2 ^ 32

abbrev pub store_char : (ℕ → ℕ) → (i c : ℕ) → ℕ → ℕ
store_char b i c j = if i == j then c else b j

-- The loop that kills the line, up to a newline; `rounds` is at least the distance from `w` to `e`.
unfoldable pub kill_line : (rounds : ℕ) → Input → Input
kill_line zero s = s
kill_line (suc rounds) s =
    let rest = kill_line rounds (record s { e = previous_index s.e }) in
    if s.e == s.w then s else if s.buf (previous_index s.e % input_buf) == 10 then s else rest

unfoldable pub erase : Input → Input
erase s = if s.e == s.w then s else record s { e = previous_index s.e }

-- Whether a line ends with this character: a newline, ^D, or a full ring.
abbrev pub ends_line : Input → (c : ℕ) → Bool
ends_line s c = c == 10 || c == 4 || s.e == (s.r + input_buf) % 2 ^ 32

unfoldable pub type_char : (c : ℕ) → Input → Input
type_char c s =
    let d = if c == 13 then 10 else c in
    let s1 = record s { buf = store_char s.buf (s.e % input_buf) d; e = next_index s.e } in
    if c == 0
    then s
    else if ltb (distance s.r s.e) input_buf
    then if ends_line s1 d then record s1 { w = s1.e } else s1
    else s

-- One character in the loop of `consoleintr`: ^P, ^U, ^H and delete, and any other.
unfoldable pub console_char : (c : ℕ) → Input → Input
console_char c s =
    if c == 16
    then s
    else if c == 21
    then kill_line (distance s.w s.e) s
    else if c == 8 || c == 127
    then erase s
    else type_char c s

-- The characters that `getc` gives before it is negative.
unfoldable pub consoleintr : (chars : List ℕ) → Input → Input
consoleintr [] s = s
consoleintr (c ∷ cs) s = consoleintr cs (console_char c s)

-- How a run of `consoleread` ends, or where it sleeps: the bytes that it has stored, how many it still
-- wants, and the ring.
pub data ConsoleRead : Type 0 where
  finished : (bytes : List ℕ) → Input → ConsoleRead
  killed : Input → ConsoleRead
  waits : (bytes : List ℕ) → (n : ℕ) → Input → ConsoleRead

abbrev pub stored : (c : ℕ) → ConsoleRead → ConsoleRead
stored c (finished bs s) = finished (c ∷ bs) s
stored c (killed s) = killed s
stored c (waits bs n s) = waits (c ∷ bs) n s

abbrev pub take_char : Input → Input
take_char s = record s { r = next_index s.r }

-- The loop of `consoleread` with `n` bytes left of `target`.
unfoldable pub consoleread : (n target : ℕ) → (is_killed : Bool) → Input → ConsoleRead
consoleread zero target is_killed s = finished [] s
consoleread (suc n) target is_killed s =
    let c = s.buf (s.r % input_buf) in
    let rest = consoleread n target is_killed (take_char s) in
    if s.r == s.w
    then if is_killed then killed s else waits [] (suc n) s
    else if c == 4
    then finished [] (if ltb (suc n) target then s else take_char s)
    else if c == 10
    then finished (10 ∷ []) (take_char s)
    else stored c rest

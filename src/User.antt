-- ===== src/User.antt =====
-- The library of the user programs, user/ulib.c, and `printf` of user/printf.c. A string is the list of its
-- bytes before the zero byte; the memory of `memmove` is a function from addresses to bytes.
pub mod Compare
pub mod Numbers
pub mod Format
pub mod Lines
pub mod Overlap
pub mod Grep
pub mod Pattern
use uw_cse451_operating_syst.Base.{
  ◌||◌, ℕ, zero, suc, ◌+◌, ◌-◌, ◌*◌, ◌%◌, ◌^◌, ◌≤◌, ◌<◌, ◌≡◌, ◌≢◌, ◌⊎◌, inl, inr, refl, sym, ap,
  ◌∙◌, Bool, true, false, ◌&&◌, not, Option, none, some, List, [], ◌∷◌, ◌++◌, arith, ◌==◌, ltb, leb,
  if◌then◌else◌, length, get_elem?, set, Bool-cases, Option-cases, ℕ-cases,
}
use uw_cse451_operating_syst.Base.Int.{ℤ, pos, sub_ℕ}
use uw_cse451_operating_syst.Base.Machine.{int_to_u64}
use uw_cse451_operating_syst.Console.{
  put_digits, print_back, int_buffer, directive, decimal, long_mark, hexadecimal, text, percent,
  unknown, Mode, in_text, behind_percent, before, with_arg, string_or_null,
}

-- The result is the difference of the first two bytes that differ.
unfoldable pub strcmp : (p q : List ℕ) → ℤ
strcmp [] [] = pos 0
strcmp [] (b ∷ qs) = sub_ℕ 0 b
strcmp (a ∷ ps) [] = sub_ℕ a 0
strcmp (a ∷ ps) (b ∷ qs) = let rest = strcmp ps qs in if a == b then rest else sub_ℕ a b

-- `n` is an `int` that is returned as a `uint`.
unfoldable pub strlen : List ℕ → ℕ
strlen s = length s % 2 ^ 32

-- The offset of the first `c`, counted from `i`.
unfoldable pub strchr_from : List ℕ → (c i : ℕ) → Option ℕ
strchr_from [] c i = none
strchr_from (a ∷ s) c i = let rest = strchr_from s c (i + 1) in if a == c then some i else rest

unfoldable pub strchr : List ℕ → (c : ℕ) → Option ℕ
strchr s c = strchr_from s c 0

-- The loop of `gets` with room for `room` bytes: the line, and what is left of the input.
unfoldable pub gets_loop : (room : ℕ) → (input : List ℕ) → List ℕ × List ℕ
gets_loop zero input = ([], input)
gets_loop (suc room) [] = ([], [])
gets_loop (suc room) (c ∷ input) =
    let (line, left) = gets_loop room input in
    if c == 10 || c == 13 then (c ∷ [], input) else (c ∷ line, left)

-- One byte of the `max` is for the zero byte.
unfoldable pub gets : (max : ℕ) → (input : List ℕ) → List ℕ × List ℕ
gets max input = gets_loop (max - 1) input

abbrev pub is_digit : ℕ → Bool
is_digit c = leb 48 c && leb c 57

-- The loop of `atoi`; `n` is an `int`, given by its 32 bits.
unfoldable pub atoi_from : (n : ℕ) → List ℕ → ℕ
atoi_from n [] = n
atoi_from n (c ∷ s) =
    let rest = atoi_from ((n * 10 + c + 2 ^ 32 - 48) % 2 ^ 32) s in if is_digit c then rest else n

unfoldable pub atoi : List ℕ → ℕ
atoi s = atoi_from 0 s

-- `memmove` copies from the front, whatever the order of the two blocks.
unfoldable pub memmove : (n dst src : ℕ) → (ℕ → ℕ) → ℕ → ℕ
memmove zero dst src m = m
memmove (suc n) dst src m = memmove n (dst + 1) (src + 1) (λ a. if dst == a then m src else m a)

-- `printint` of user/printf.c, with the letters of the digits from `A` on.
unfoldable pub printint : (xx base : ℕ) → (sgn : Bool) → List ℕ
printint xx base sgn = print_back (int_buffer 32 65 (xx % 2 ^ 32) base sgn) []

-- `printint64` of user/printf.c: its parameter `xx` is an `int`.
unfoldable pub printint64 : (xx base : ℕ) → (sgn : Bool) → List ℕ
printint64 xx base sgn =
    let low = xx % 2 ^ 32 in
    if sgn && leb (2 ^ 31) low
    then print_back (put_digits 64 97 base (int_to_u64 (2 ^ 32 - low)) ++ (45 ∷ [])) []
    else print_back (put_digits 64 97 base (int_to_u64 low)) []

-- `printf` over the bytes of the format before its zero byte.
unfoldable pub printf_from :
    (string_at : ℕ → List ℕ) → (fmt : List ℕ) → Mode → (args : List ℕ) → Option (List ℕ)
printf_from string_at [] mode args = some []
printf_from string_at (c ∷ cs) in_text args = elim (c == 37) [
  | true ↦ printf_from string_at cs (behind_percent false) args
  | false ↦ before (c ∷ []) (printf_from string_at cs in_text args)
]
printf_from string_at (c ∷ cs) (behind_percent l) args = elim (directive c) [
  | decimal ↦
      with_arg args (λ a. if l then printint64 a 10 true else printint a 10 true)
        (λ more. printf_from string_at cs in_text more)
  | long_mark ↦ printf_from string_at cs (behind_percent true) args
  | hexadecimal ↦
      with_arg args (λ a. if l then printint64 a 16 false else printint a 16 false)
        (λ more. printf_from string_at cs in_text more)
  | text ↦ with_arg args (string_or_null string_at) (λ more. printf_from string_at cs in_text more)
  | percent ↦ before (37 ∷ []) (printf_from string_at cs in_text args)
  | unknown ↦ before (37 ∷ c ∷ []) (printf_from string_at cs in_text args)
]

unfoldable pub printf : (string_at : ℕ → List ℕ) → (fmt args : List ℕ) → Option (List ℕ)
printf string_at fmt args = printf_from string_at fmt in_text args

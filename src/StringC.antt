-- ===== src/StringC.antt =====
-- kernel/string.c over a byte memory: addresses and bytes are numbers, and every loop is a function
-- of its own over the variables of the loop.
pub mod Copy
pub mod Fill
pub mod Compare
pub mod Safe
pub mod Terminated
use uw_cse451_operating_syst.Base.{
  ℕ, zero, suc, ◌+◌, ◌-◌, ◌*◌, ◌/◌, ◌%◌, ◌^◌, ◌≡◌, Bool, true, false, ◌&&◌, ltb, leb, ◌==◌, not,
  if◌then◌else◌,
}
use uw_cse451_operating_syst.Base.Int.{ℤ, pos, sub_ℕ}

abbrev pub Memory : Type 0
Memory = ℕ → ℕ

abbrev pub store : Memory → ℕ → ℕ → Memory
store m a v b = if a == b then v else m b

-- `rep stosb`: the low byte of `c`, `n` times.
unfoldable pub stosb : (addr c n : ℕ) → Memory → Memory
stosb addr c zero m = m
stosb addr c (suc n) m = stosb (addr + 1) c n (store m addr (c % 256))

abbrev pub store_word : ℕ → ℕ → Memory → Memory
store_word a w m =
    store (store (store (store m a (w % 256)) (a + 1) (w / 2 ^ 8 % 256)) (a + 2) (w / 2 ^ 16 % 256))
      (a + 3) (w / 2 ^ 24 % 256)

-- `rep stosl`: a 32-bit word, low byte first, `n` times.
unfoldable pub stosl : (addr word n : ℕ) → Memory → Memory
stosl addr word zero m = m
stosl addr word (suc n) m = stosl (addr + 4) word n (store_word addr word m)

-- The shifted copies of a byte do not overlap, so `|` is `+`.
unfoldable pub memset : (dst c n : ℕ) → Memory → Memory
memset dst c n m =
    if (dst % 4 == 0) && (n % 4 == 0)
    then (let b = c % 256 in stosl dst (b * 2 ^ 24 + b * 2 ^ 16 + b * 2 ^ 8 + b) (n / 4) m)
    else stosb dst c n m

-- `while (n-- > 0) *d++ = *s++;`
unfoldable pub copy_up : (d s n : ℕ) → Memory → Memory
copy_up d s zero m = m
copy_up d s (suc n) m = copy_up (d + 1) (s + 1) n (store m d (m s))

-- `while (n-- > 0) *--d = *--s;`, from the ends `d + n` and `s + n`
unfoldable pub copy_down : (d s n : ℕ) → Memory → Memory
copy_down d s zero m = m
copy_down d s (suc n) m = copy_down d s n (store m (d + n) (m (s + n)))

unfoldable pub memmove : (dst src n : ℕ) → Memory → Memory
memmove dst src n m =
    if ltb src dst && ltb dst (src + n) then copy_down dst src n m else copy_up dst src n m

-- `memcpy` is `memmove`.
unfoldable pub memcpy : (dst src n : ℕ) → Memory → Memory
memcpy dst src n m = memmove dst src n m

-- The bytes of `v1` and `v2` are `uchar`s; their difference is an `int`.
unfoldable pub memcmp : (v1 v2 n : ℕ) → Memory → ℤ
memcmp v1 v2 zero m = pos 0
memcmp v1 v2 (suc n) m =
    let rest = memcmp (v1 + 1) (v2 + 1) n m in
    if not (m v1 == m v2) then sub_ℕ (m v1) (m v2) else rest

unfoldable pub strncmp : (p q n : ℕ) → Memory → ℤ
strncmp p q zero m = pos 0
strncmp p q (suc n) m =
    let rest = strncmp (p + 1) (q + 1) n m in
    if not (m p == 0) && (m p == m q) then rest else sub_ℕ (m p) (m q)

-- The second loop of `strncpy`.
unfoldable pub zero_fill : (s n : ℕ) → Memory → Memory
zero_fill s zero m = m
zero_fill s (suc n) m = zero_fill (s + 1) n (store m s 0)

-- Its first loop: it ends when the room is used up or a NUL has been copied.
unfoldable pub strncpy : (s t n : ℕ) → Memory → Memory
strncpy s t zero m = m
strncpy s t (suc n) m =
    let copied = store m s (m t) in
    let rest = strncpy (s + 1) (t + 1) n copied in
    let padded = zero_fill (s + 1) n copied in if m t == 0 then padded else rest

-- The loop of `safestrcpy`, with `n` the room that is left, at least one byte.
unfoldable pub safestrcpy_loop : (s t n : ℕ) → Memory → Memory
safestrcpy_loop s t zero m = store m s 0
safestrcpy_loop s t (suc n) m =
    let copied = store m s (m t) in
    let rest = safestrcpy_loop (s + 1) (t + 1) n copied in
    let ended = store copied (s + 1) 0 in if m t == 0 then ended else rest

unfoldable pub safestrcpy : (s t n : ℕ) → Memory → Memory
safestrcpy s t zero m = m
safestrcpy s t (suc n) m = safestrcpy_loop s t n m

-- `strlen` with fuel; a string with no NUL within the fuel is reported by `limit`.
unfoldable pub strlen : (limit s : ℕ) → Memory → ℕ
strlen zero s m = 0
strlen (suc limit) s m = let rest = suc (strlen limit (s + 1) m) in if m s == 0 then 0 else rest

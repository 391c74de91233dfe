-- ===== src/Console/Reading.antt =====
-- `consoleread` takes from the front of what has been typed.
use uw_cse451_operating_syst.Base.{
  ℕ, zero, suc, ◌+◌, ◌%◌, ◌^◌, ◌≤◌, ◌<◌, ◌≡◌, ◌≢◌, inl, inr, refl, ap, ◌∙◌, Bool, true, false, List,
  [], ◌∷◌, ◌++◌, arith, ◌==◌, ltb, length, Bool-cases, if◌then◌else◌,
}
use uw_cse451_operating_syst.Console.Input.{
  Input, input_buf, distance, next_index, consoleread, ConsoleRead, finished, killed, waits, stored,
  take_char,
}
use uw_cse451_operating_syst.Console.Line.{IsRing, slice, committed}

-- Bytes of a line that goes on: neither ^D nor the end of a line.
abbrev pub Plain : List ℕ → Type 0
Plain [] = Unit {0}
Plain (c ∷ cs) = (c ≢ 4) × (c ≢ 10) × Plain cs

-- How a run that has `n` bytes left of `target` may end, of the bytes `typed`: the ones it stored, and
-- the ones it leaves. A ^D is never stored; it is left for the next call if bytes were stored before,
-- in this run or in the `target - n` bytes ahead of it.
pub data Ended (n target : ℕ) (typed bytes left : List ℕ) : Type 0 where
  full : Plain bytes → length bytes ≡ n → typed ≡ bytes ++ left → Ended n target typed bytes left
  line :
      (text : List ℕ)
      → Plain text
      → length text < n
      → bytes ≡ text ++ (10 ∷ [])
      → typed ≡ bytes ++ left
      → Ended n target typed bytes left
  taken_stop :
      Plain bytes
      → length bytes < n
      → length bytes + target ≤ n
      → typed ≡ bytes ++ (4 ∷ left)
      → Ended n target typed bytes left
  kept_stop :
      (rest : List ℕ)
      → Plain bytes
      → length bytes < n
      → n < length bytes + target
      → left ≡ 4 ∷ rest
      → typed ≡ bytes ++ left
      → Ended n target typed bytes left

-- A run that ends, that a kill ends, and one that sleeps: the last two have taken all that was typed,
-- which is less than was wanted and holds neither a ^D nor the end of a line.
abbrev pub Reads : (s : Input) → (n target : ℕ) → (is_killed : Bool) → ConsoleRead → Type 0
Reads s n target is_killed (finished bs s1) =
    IsRing s1 × Ended n target (committed s) bs (committed s1)
Reads s n target is_killed (killed s1) =
    IsRing s1
    × (is_killed ≡ true)
    × Plain (committed s)
    × (length (committed s) < n)
    × (committed s1 ≡ [])
Reads s n target is_killed (waits bs k s1) =
    IsRing s1
    × (is_killed ≡ false)
    × Plain bs
    × (0 < k)
    × (length bs + k ≡ n)
    × (committed s ≡ bs)
    × (committed s1 ≡ [])

take_char-IsRing : (s : Input) → IsRing s → s.r == s.w ≡ false → IsRing (take_char s)
take_char-IsRing s i ne =
    let apart : s.r ≢ s.w = ground arith in
    let a = i.r_word in
    let b = i.w_word in
    let c = i.e_word in
    let o = i.ordered in
    let u = i.bounded in
    record {
      r_word = omega arith;
      w_word = i.w_word;
      e_word = i.e_word;
      ordered = omega arith;
      bounded = omega arith;
    }

slice-step :
    (b : ℕ → ℕ) (r n m : ℕ) → m ≡ suc n → slice b r m ≡ b (r % input_buf) ∷ slice b (next_index r) n
slice-step b r n m e = rw e refl

committed-take_char :
    (s : Input)
    → IsRing s
    → s.r == s.w ≡ false
    → committed s ≡ s.buf (s.r % input_buf) ∷ committed (take_char s)
committed-take_char s i ne =
    let apart : s.r ≢ s.w = ground arith in
    let a = i.r_word in
    let b = i.w_word in
    slice-step s.buf s.r (distance (next_index s.r) s.w) (distance s.r s.w) (omega arith)

committed-empty : (s : Input) → s.r ≡ s.w → s.w < 2 ^ 32 → committed s ≡ []
committed-empty s e b = let z : distance s.r s.w ≡ 0 = omega arith in rw z refl

stored-Ended :
    {typed bytes left : List ℕ} (c n target : ℕ)
    → c ≢ 4
    → c ≢ 10
    → Ended n target typed bytes left
    → Ended (suc n) target (c ∷ typed) (c ∷ bytes) left
stored-Ended c n target d m (full p l e) = full (d, m, p) (omega arith) (ap (λ z. c ∷ z) e)
stored-Ended c n target d m (line text p l e e') =
    line (c ∷ text) (d, m, p) (omega arith) (ap (λ z. c ∷ z) e) (ap (λ z. c ∷ z) e')
stored-Ended c n target d m (taken_stop p l o e) =
    taken_stop (d, m, p) (omega arith) (omega arith) (ap (λ z. c ∷ z) e)
stored-Ended c n target d m (kept_stop rest p l o e e') =
    kept_stop rest (d, m, p) (omega arith) (omega arith) e (ap (λ z. c ∷ z) e')

stored-Reads :
    (s : Input) (c n target : ℕ) (is_killed : Bool) (x : ConsoleRead)
    → c ≢ 4
    → c ≢ 10
    → committed s ≡ c ∷ committed (take_char s)
    → Reads (take_char s) n target is_killed x
    → Reads s (suc n) target is_killed (stored c x)
stored-Reads s c n target is_killed (finished bs s1) d m e (i, h) =
    (i, rw e (stored-Ended c n target d m h))
stored-Reads s c n target is_killed (killed s1) d m e (i, k, p, l, z) =
    (i, k, rw e (d, m, p), rw e (omega arith), z)
stored-Reads s c n target is_killed (waits bs k s1) d m e (i, h, p, o, l, q, z) =
    (i, h, (d, m, p), o, omega arith, e ∙ ap (λ y. c ∷ y) q, z)

-- A ^D at the front, with `n + 1` bytes left of `target`.
stop-Reads :
    (s : Input) (n target : ℕ) (is_killed : Bool)
    → IsRing s
    → IsRing (take_char s)
    → committed s ≡ 4 ∷ committed (take_char s)
    → Reads s (suc n) target is_killed (finished [] (if ltb (suc n) target then s else take_char s))
stop-Reads s n target is_killed i j e = elim (Bool-cases (ltb (suc n) target)) [
  | inl f ↦ rw f (i, kept_stop (committed (take_char s)) tt (omega arith) (ground arith) e refl)
  | inr f ↦ rw f (j, taken_stop tt (omega arith) (ground arith) e)
]

-- `consoleread`, with `n` bytes left of the `target` asked for, stores the bytes that were typed, in
-- their order, up to and with the first end of a line, or up to the first ^D, or `n` of them, whichever
-- comes first, and leaves the others for later. The ^D is not stored; it is taken if nothing was
-- stored since the call, and else left. A process that is killed on the empty ring, or sleeps there,
-- has taken all that was typed: fewer than `n` bytes, without ^D and the end of a line.
pub consoleread-Reads :
    (n target : ℕ) (is_killed : Bool) (s : Input)
    → IsRing s
    → Reads s n target is_killed (consoleread n target is_killed s)
unfolding consoleread
consoleread-Reads zero target is_killed s i = (i, full tt refl refl)
consoleread-Reads (suc n) target is_killed s i = elim (Bool-cases (s.r == s.w)) [
  | inl t ↦
      let e : s.r ≡ s.w = ground arith in
      let none_left = committed-empty s e i.w_word in
      elim (Bool-cases is_killed) [
        | inl k ↦ rw (t, k) (i, refl, rw none_left tt, rw none_left (omega arith), none_left)
        | inr k ↦ rw (t, k) (i, refl, tt, omega arith, omega arith, none_left, none_left)
      ]
  | inr t ↦
      let c = committed-take_char s i t in
      let j = take_char-IsRing s i t in
      elim (Bool-cases (s.buf (s.r % input_buf) == 4)) [
        | inl d ↦
            let is_d : s.buf (s.r % input_buf) ≡ 4 = ground arith in
            rw (t, d)
              (stop-Reads s n target is_killed i j (c ∙ ap (λ z. z ∷ committed (take_char s)) is_d))
        | inr d ↦ elim (Bool-cases (s.buf (s.r % input_buf) == 10)) [
          | inl m ↦
              let is_line : s.buf (s.r % input_buf) ≡ 10 = ground arith in
              rw (t, d, m)
                (
                  j,
                  line [] tt (omega arith) refl (c ∙ ap (λ z. z ∷ committed (take_char s)) is_line),
                )
          | inr m ↦
              let no_stop : s.buf (s.r % input_buf) ≢ 4 = ground arith in
              let no_line : s.buf (s.r % input_buf) ≢ 10 = ground arith in
              rw (t, d, m)
                (stored-Reads s (s.buf (s.r % input_buf)) n target is_killed
                  (consoleread n target is_killed (take_char s)) no_stop no_line c
                  (consoleread-Reads n target is_killed (take_char s) j))
        ]
      ]
]

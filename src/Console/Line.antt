-- ===== src/Console/Line.antt =====
-- The ring of the console is a queue: typing appends whole lines, editing stays behind them, and reading
-- takes from the front.
use uw_cse451_operating_syst.Base.{
  ◌||◌, ltb→lt, ℕ, zero, suc, ◌+◌, ◌%◌, ◌^◌, ◌≤◌, ◌<◌, ◌≡◌, ◌≢◌, inl, inr, refl, sym, ap, ◌∙◌,
  false, List, [], ◌∷◌, ◌++◌, arith, ◌==◌, ltb, if◌then◌else◌, Bool-cases,
}
use uw_cse451_operating_syst.Console.Input.{
  Input, input_buf, distance, next_index, previous_index, store_char, kill_line, erase, ends_line,
  type_char, console_char, consoleintr,
}

-- The indices are `uint`s, in the order read, write, edit, and the edit index at most a ring ahead.
pub record IsRing (s : Input) : Type 0 where
  pub r_word : s.r < 2 ^ 32
  pub w_word : s.w < 2 ^ 32
  pub e_word : s.e < 2 ^ 32
  pub ordered : distance s.r s.w ≤ distance s.r s.e
  pub bounded : distance s.r s.e ≤ input_buf

-- `n` characters of the ring from index `i` on.
abbrev pub slice : (ℕ → ℕ) → (i n : ℕ) → List ℕ
slice b i zero = []
slice b i (suc n) = b (i % input_buf) ∷ slice b (next_index i) n

-- What `consoleread` may take.
abbrev pub committed : Input → List ℕ
committed s = slice s.buf s.r (distance s.r s.w)

slice-store_char :
    (b : ℕ → ℕ) (i e c n : ℕ)
    → i < 2 ^ 32
    → e < 2 ^ 32
    → n ≤ distance i e
    → distance i e < input_buf
    → slice (store_char b (e % input_buf) c) i n ≡ slice b i n
slice-store_char b i e c zero hi he l u = refl
slice-store_char b i e c (suc n) hi he l u =
    let other : e % input_buf == i % input_buf ≡ false = ground arith in
    let d : distance (next_index i) e + 1 ≡ distance i e = omega arith in
    rw other (
      ap (λ z. b (i % input_buf) ∷ z)
        (slice-store_char b (next_index i) e c n (omega arith) he (omega arith) (omega arith)))

-- More characters, behind the same ones.
slice-more : (b : ℕ → ℕ) (i m n : ℕ) → m ≤ n → (more : List ℕ) × (slice b i n ≡ slice b i m ++ more)
slice-more b i zero n l = (slice b i n, refl)
slice-more b i (suc m) zero l = absurd (omega arith)
slice-more b i (suc m) (suc n) l =
    let (more, e) = slice-more b (next_index i) m n (omega arith) in
    (more, ap (λ z. b (i % input_buf) ∷ z) e)

-- What a character may do: the ring stays one, and what can be read is only added to.
pub record Extends (s s1 : Input) : Type 0 where
  pub ring : IsRing s1
  pub more : List ℕ
  pub same : committed s1 ≡ committed s ++ more

pub ++-[] : (xs : List ℕ) → xs ++ [] ≡ xs
++-[] [] = refl
++-[] (x ∷ xs) = ap (λ z. x ∷ z) (++-[] xs)

-- Only the edit index moves, not back over the write index.
edit-Extends :
    (s : Input) (e1 : ℕ)
    → IsRing s
    → e1 < 2 ^ 32
    → distance s.r s.w ≤ distance s.r e1
    → distance s.r e1 ≤ input_buf
    → Extends s (record s { e = e1 })
edit-Extends s e1 i b l u = record {
  ring = record { r_word = i.r_word; w_word = i.w_word; e_word = b; ordered = l; bounded = u };
  more = [];
  same = sym (++-[] (committed s));
}

back_step :
    (r w e : ℕ)
    → r < 2 ^ 32
    → w < 2 ^ 32
    → e < 2 ^ 32
    → distance r w ≤ distance r e
    → e == w ≡ false
    → distance r (previous_index e) + 1 ≡ distance r e
back_step r w e a b c l ne = let apart : e ≢ w = ground arith in omega arith

room_behind :
    (r w e : ℕ)
    → r < 2 ^ 32
    → w < 2 ^ 32
    → e < 2 ^ 32
    → distance r w ≤ distance r e
    → e == w ≡ false
    → distance r w < distance r e
room_behind r w e a b c l ne = let apart : e ≢ w = ground arith in omega arith

-- One character is taken back.
previous-Extends :
    (s : Input) → IsRing s → s.e == s.w ≡ false → Extends s (record s { e = previous_index s.e })
previous-Extends s i ne =
    let back = back_step s.r s.w s.e i.r_word i.w_word i.e_word i.ordered ne in
    let room = room_behind s.r s.w s.e i.r_word i.w_word i.e_word i.ordered ne in
    let u = i.bounded in
    edit-Extends s (previous_index s.e) i (omega arith) (omega arith) (omega arith)

Extends-refl : (s : Input) → IsRing s → Extends s s
Extends-refl s i = edit-Extends s s.e i i.e_word i.ordered i.bounded

pub append_assoc : (xs ys zs : List ℕ) → (xs ++ ys) ++ zs ≡ xs ++ (ys ++ zs)
append_assoc [] ys zs = refl
append_assoc (x ∷ xs) ys zs = ap (λ z. x ∷ z) (append_assoc xs ys zs)

Extends-trans : {s s1 s2 : Input} → Extends s s1 → Extends s1 s2 → Extends s s2
Extends-trans {s} x y = record {
  ring = y.ring;
  more = x.more ++ y.more;
  same = y.same ∙ ap (λ z. z ++ y.more) x.same ∙ append_assoc (committed s) x.more y.more;
}

kill_line-Extends : (rounds : ℕ) (s : Input) → IsRing s → Extends s (kill_line rounds s)
unfolding kill_line
kill_line-Extends zero s i = Extends-refl s i
kill_line-Extends (suc rounds) s i = elim (Bool-cases (s.e == s.w)) [
  | inl t ↦ rw t (Extends-refl s i)
  | inr ne ↦ elim (Bool-cases (s.buf (previous_index s.e % input_buf) == 10)) [
    | inl t ↦ rw (ne, t) (Extends-refl s i)
    | inr t ↦
        let x = previous-Extends s i ne in
        rw (ne, t)
          (Extends-trans x (kill_line-Extends rounds (record s { e = previous_index s.e }) x.ring))
  ]
]

erase-Extends : (s : Input) → IsRing s → Extends s (erase s)
unfolding erase
erase-Extends s i = elim (Bool-cases (s.e == s.w)) [
  | inl t ↦ rw t (Extends-refl s i)
  | inr ne ↦ rw ne (previous-Extends s i ne)
]

-- A character goes into a ring that is not full; `w1` is the write index afterwards.
abbrev typed : Input → (d w1 : ℕ) → Input
typed s d w1 = record s { buf = store_char s.buf (s.e % input_buf) d; e = next_index s.e; w = w1 }

typed-Extends :
    (s : Input) (d w1 : ℕ)
    → IsRing s
    → distance s.r s.e < input_buf
    → w1 < 2 ^ 32
    → distance s.r s.w ≤ distance s.r w1
    → distance s.r w1 ≤ distance s.r (next_index s.e)
    → Extends s (typed s d w1)
typed-Extends s d w1 i room hw l u =
    let (more, e) =
      slice-more (store_char s.buf (s.e % input_buf) d) s.r (distance s.r s.w) (distance s.r w1)
        l in
    let e_small = i.e_word in
    let r_small = i.r_word in
    record {
      ring = record {
        r_word = i.r_word;
        w_word = hw;
        e_word = omega arith;
        ordered = u;
        bounded = omega arith;
      };
      more = more;
      same =
          e
          ∙ ap (λ z. z ++ more)
              (slice-store_char s.buf s.r s.e d (distance s.r s.w) i.r_word i.e_word i.ordered
                room);
    }

type_char-Extends : (c : ℕ) (s : Input) → IsRing s → Extends s (type_char c s)
unfolding type_char
type_char-Extends c s i =
    let d = if c == 13 then 10 else c in
    let e_small = i.e_word in
    let r_small = i.r_word in
    let o = i.ordered in
    elim (Bool-cases (c == 0)) [
      | inl z ↦ rw z (Extends-refl s i)
      | inr z ↦ elim (Bool-cases (ltb (distance s.r s.e) input_buf)) [
        | inr f ↦ rw (z, f) (Extends-refl s i)
        | inl f ↦
            let room = ltb→lt (distance s.r s.e) input_buf f in
            let step : distance s.r (next_index s.e) ≡ distance s.r s.e + 1 = omega arith in
            elim (Bool-cases (ends_line (typed s d s.w) d)) [
              | inl t ↦
                  rw (z, f, t)
                    (typed-Extends s d (next_index s.e) i room (omega arith) (omega arith)
                      (omega arith))
              | inr t ↦
                  rw (z, f, t) (typed-Extends s d s.w i room i.w_word (omega arith) (omega arith))
            ]
      ]
    ]

-- Whatever is typed, `consoleintr` keeps the ring's indices in order and the characters that
-- `consoleread` may take, in front of what it adds to them: editing never reaches a line that has ended.
pub consoleintr-Extends : (chars : List ℕ) (s : Input) → IsRing s → Extends s (consoleintr chars s)
unfolding consoleintr console_char
consoleintr-Extends [] s i = Extends-refl s i
consoleintr-Extends (c ∷ cs) s i =
    let step : Extends s (console_char c s) = elim (Bool-cases (c == 16)) [
      | inl t ↦ rw t (Extends-refl s i)
      | inr t ↦ elim (Bool-cases (c == 21)) [
        | inl u ↦ rw (t, u) (kill_line-Extends (distance s.w s.e) s i)
        | inr u ↦ elim (Bool-cases (c == 8 || c == 127)) [
          | inl v ↦ rw (t, u, v) (erase-Extends s i)
          | inr v ↦ rw (t, u, v) (type_char-Extends c s i)
        ]
      ]
    ] in
    Extends-trans step (consoleintr-Extends cs (console_char c s) step.ring)

-- ===== src/Shell/Steps.antt =====
-- The loops of the parser with just enough rounds, and what they do at each token.
use uw_cse451_operating_syst.Base.{
  ℕ, zero, suc, ◌+◌, ◌≤◌, ◌<◌, ◌≡◌, inl, inr, refl, true, false, List, [], ◌∷◌, ◌++◌, arith, ◌==◌,
  leb, length, Bool-cases, ℕ-cases,
}
use uw_cse451_operating_syst.Base.Outcome.{done, panic, hang, ◌>>=◌}
use uw_cse451_operating_syst.Shell.{
  Cmd, back, Parse, skip_whitespace, is_whitespace, is_symbol, span_word, token_at, gettoken, peek,
  redirect, redirs_loop, parseredirs, add_argument, args_loop, back_loop,
}
use uw_cse451_operating_syst.Shell.Tokens.{gettoken-le, gettoken-shorter, gettoken-shorter_peek}
use uw_cse451_operating_syst.Shell.Ends.{Ends, parseredirs-Ends}
use uw_cse451_operating_syst.Shell.Print.{IsPlain, IsWord, skip-byte, skip-blank}

-- A word and the blank behind it.
span_word-plain : (w rest : List ℕ) → IsPlain w → span_word (w ++ 32 ∷ rest) ≡ (w, 32 ∷ rest)
unfolding span_word is_whitespace
span_word-plain [] rest h = refl
span_word-plain (c ∷ w) rest h = rw (span_word, h.0, h.1, span_word-plain w rest h.2)

word_byte : (c : ℕ) → is_symbol c ≡ false → (c == 62) ≡ false
unfolding is_symbol
word_byte c h = ground arith

symbol_byte : (c : ℕ) → is_symbol c ≡ true → is_whitespace c ≡ false
unfolding is_symbol is_whitespace
symbol_byte c h = ground arith

pub gettoken-word :
    (w rest : List ℕ)
    → IsWord w
    → skip_whitespace rest ≡ rest
    → gettoken (w ++ 32 ∷ rest) ≡ record { kind = 97; text = w; rest = rest }
unfolding gettoken token_at
gettoken-word [] rest w h = absurd w
gettoken-word (c ∷ s) rest w h =
    let sign : (c == 62) ≡ false = word_byte c w.1 in
    rw (
      skip-byte c (s ++ 32 ∷ rest) w.0,
      sign,
      w.1,
      span_word-plain (c ∷ s) rest w,
      skip-blank rest,
      h,
    )

pub gettoken-symbol :
    (c : ℕ) (rest : List ℕ)
    → is_symbol c ≡ true
    → skip_whitespace rest ≡ rest
    → gettoken (c ∷ 32 ∷ rest) ≡ record { kind = c; text = c ∷ []; rest = rest }
unfolding gettoken token_at
gettoken-symbol c rest y h = elim (ℕ-cases c 62) [
  | inl e ↦ rw (e, skip-byte 62 (32 ∷ rest) (rw e at (symbol_byte c y)), skip-blank rest, h)
  | inr n ↦ rw (skip-byte c (32 ∷ rest) (symbol_byte c y), n, y, skip-blank rest, h)
]

pub bind-cong :
    (m : ℕ) (p : Parse) (f g : Cmd × List ℕ → Parse)
    → Ends m p
    → ((c : Cmd) (s : List ℕ) → length s ≤ m → f (c, s) ≡ g (c, s))
    → (p >>= f) ≡ (p >>= g)
bind-cong m (done (c, s)) f g e h = h c s e
bind-cong m panic f g e h = refl
bind-cong m hang f g e h = refl

-- Any number of rounds above the length gives the same.
pub redirs_loop-rounds :
    (n m : ℕ) (c : Cmd) (s : List ℕ)
    → length s < n
    → length s < m
    → redirs_loop n c s ≡ redirs_loop m c s
unfolding redirs_loop
redirs_loop-rounds zero m c s a b = absurd (omega arith)
redirs_loop-rounds (suc n) zero c s a b = absurd (omega arith)
redirs_loop-rounds (suc n) (suc m) c s a b = elim (Bool-cases (peek (60 ∷ 62 ∷ []) s).0) [
  | inr e ↦ rw (redirs_loop, e)
  | inl e ↦
      let tok = gettoken s in
      let file = gettoken tok.rest in
      let x = gettoken-shorter_peek s (60 ∷ 62 ∷ []) e in
      let y = gettoken-le tok.rest in
      elim (Bool-cases (file.kind == 97)) [
        | inr p ↦ rw (redirs_loop, e, p)
        | inl p ↦
            rw (redirs_loop, e, p)
              (redirs_loop-rounds n m (redirect c tok.kind file.text) file.rest
                (omega (arith, x, y)) (omega (arith, x, y)))
      ]
]

pub back_loop-rounds :
    (n m : ℕ) (c : Cmd) (s : List ℕ)
    → length s < n
    → length s < m
    → back_loop n c s ≡ back_loop m c s
unfolding back_loop
back_loop-rounds zero m c s a b = absurd (omega arith)
back_loop-rounds (suc n) zero c s a b = absurd (omega arith)
back_loop-rounds (suc n) (suc m) c s a b = elim (Bool-cases (peek (38 ∷ []) s).0) [
  | inr e ↦ rw (back_loop, e)
  | inl e ↦
      let x = gettoken-shorter_peek s (38 ∷ []) e in
      rw (back_loop, e)
        (back_loop-rounds n m (back c) (gettoken s).rest (omega (arith, x)) (omega (arith, x)))
]

pub args_loop-rounds :
    (n m argc : ℕ) (c : Cmd) (s : List ℕ)
    → length s < n
    → length s < m
    → args_loop n argc c s ≡ args_loop m argc c s
unfolding args_loop
args_loop-rounds zero m argc c s a b = absurd (omega arith)
args_loop-rounds (suc n) zero argc c s a b = absurd (omega arith)
args_loop-rounds (suc n) (suc m) argc c s a b =
    let tok = gettoken s in
    elim (Bool-cases (peek (124 ∷ 41 ∷ 38 ∷ 59 ∷ []) s).0) [
      | inl e ↦ rw (args_loop, e)
      | inr e ↦ elim (Bool-cases (tok.kind == 0)) [
        | inl z ↦ rw (args_loop, e, z)
        | inr z ↦ elim (Bool-cases (tok.kind == 97)) [
          | inr w ↦ rw (args_loop, e, z, w)
          | inl w ↦ elim (Bool-cases (leb 10 (argc + 1))) [
            | inl many ↦ rw (args_loop, e, z, w, many)
            | inr few ↦
                let x = gettoken-shorter s z in
                rw (args_loop, e, z, w, few)
                  (bind-cong (length tok.rest) (parseredirs (add_argument c tok.text) tok.rest) _ _
                    (parseredirs-Ends (add_argument c tok.text) tok.rest)
                    (λ c1 s1 l.
                      args_loop-rounds n m (argc + 1) c1 s1 (omega (arith, x, l))
                        (omega (arith, x, l))))
          ]
        ]
      ]
    ]

-- ===== src/Shell/Tokens.antt =====
-- How much of the text a token takes.
use uw_cse451_operating_syst.Base.{
  ℕ, ◌≤◌, ◌<◌, ◌≡◌, ◌⊎◌, inl, inr, refl, ap, true, false, List, [], ◌∷◌, arith, ◌==◌, length,
  Bool-cases,
}
use uw_cse451_operating_syst.Shell.{
  is_whitespace, is_symbol, skip_whitespace, span_word, redirect_token, token_at, gettoken, peek,
}

pub skip_whitespace-shorter : (s : List ℕ) → length (skip_whitespace s) ≤ length s
unfolding skip_whitespace
skip_whitespace-shorter [] = omega arith
skip_whitespace-shorter (c ∷ s) = ground (arith, skip_whitespace-shorter s)

span_word-shorter : (s : List ℕ) → length (span_word s).1 ≤ length s
unfolding span_word
span_word-shorter [] = omega arith
span_word-shorter (c ∷ s) = ground (arith, span_word-shorter s)

redirect_token-shorter : (s : List ℕ) → length (redirect_token s).rest ≤ length s
redirect_token-shorter [] = omega arith
redirect_token-shorter (c ∷ s) = elim (Bool-cases (c == 62)) [
  | inl e ↦ rw e (omega (arith, skip_whitespace-shorter s))
  | inr e ↦ rw e (omega (arith, skip_whitespace-shorter (c ∷ s)))
]

-- A token takes a byte at least.
token_at-shorter :
    (c : ℕ) (s : List ℕ) → is_whitespace c ≡ false → length (token_at (c ∷ s)).rest ≤ length s
unfolding token_at span_word
token_at-shorter c s blank = elim (Bool-cases (c == 62)) [
  | inl e ↦ rw e (redirect_token-shorter s)
  | inr e ↦ elim (Bool-cases (is_symbol c)) [
    | inl y ↦ rw (e, y) (skip_whitespace-shorter s)
    | inr n ↦
        rw (e, n, blank)
          (omega (arith, skip_whitespace-shorter (span_word s).1, span_word-shorter s))
  ]
]

-- White space that is skipped ends at a byte of another kind, or at the end.
pub skip_whitespace-cases :
    (s : List ℕ)
    → (skip_whitespace s ≡ [])
      ⊎ ((c : ℕ) × (r : List ℕ) × (skip_whitespace s ≡ c ∷ r) × (is_whitespace c ≡ false))
unfolding skip_whitespace
skip_whitespace-cases [] = inl refl
skip_whitespace-cases (c ∷ s) = elim (Bool-cases (is_whitespace c)) [
  | inl e ↦ rw e (skip_whitespace-cases s)
  | inr e ↦ rw e (inr (c, s, refl, e))
]

pub gettoken-le : (s : List ℕ) → length (gettoken s).rest ≤ length s
unfolding gettoken token_at
gettoken-le s = elim (skip_whitespace-cases s) [
  | inl e ↦ rw e (omega arith)
  | inr (c, r, e, n) ↦
      rw e (omega (arith, token_at-shorter c r n, ap length e, skip_whitespace-shorter s))
]

module _ (s : List ℕ) where
  pub gettoken-shorter : (gettoken s).kind == 0 ≡ false → length (gettoken s).rest < length s
  unfolding gettoken token_at
  gettoken-shorter h = elim (skip_whitespace-cases s) [
    | inl e ↦ cc (rw (gettoken, e) at h)
    | inr (c, r, e, n) ↦
        rw e (omega (arith, token_at-shorter c r n, ap length e, skip_whitespace-shorter s))
  ]

  pub gettoken-shorter_peek :
      (toks : List ℕ) → (peek toks s).0 ≡ true → length (gettoken s).rest < length s
  unfolding gettoken peek
  gettoken-shorter_peek toks h = elim (skip_whitespace-cases s) [
    | inl e ↦ cc (rw (peek, e) at h)
    | inr (c, r, e, n) ↦
        rw e (omega (arith, token_at-shorter c r n, ap length e, skip_whitespace-shorter s))
  ]

  pub peek-le : (toks : List ℕ) → length (peek toks s).1 ≤ length s
  unfolding peek
  peek-le toks = skip_whitespace-shorter s

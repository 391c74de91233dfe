-- ===== src/Shell/Print.antt =====
-- How a command is written as a text that the shell reads back: a blank behind every token, and parentheses around
-- a command that stands where the grammar has no place for it.
use uw_cse451_operating_syst.Base.{
  ◌||◌, length-append, ℕ, ◌≤◌, ◌<◌, ◌≡◌, ◌⊎◌, inl, inr, refl, Bool, true, false, ◌&&◌, List, [],
  ◌∷◌, ◌++◌, arith, ◌==◌, leb, if◌then◌else◌, length, Bool-cases,
}
use uw_cse451_operating_syst.Shell.{
  Cmd, exec, redir, pipe, list, back, is_whitespace, is_symbol, skip_whitespace, starts_with, peek,
}

-- The routine that is to read the command: `parseexec`, `parsepipe`, `parseline` before a ;, or `parseline`.
pub data Place : Type 0 where
  in_exec : Place
  in_pipe : Place
  in_back : Place
  in_line : Place

abbrev pub words_text : List (List ℕ) → List ℕ → List ℕ
words_text [] rest = rest
words_text (w ∷ ws) rest = w ++ 32 ∷ words_text ws rest

abbrev pub redirect_sign : (fd : ℕ) → ℕ
redirect_sign fd = if fd == 0 then 60 else 62

abbrev pub in_block : Bool → (List ℕ → List ℕ) → List ℕ → List ℕ
in_block true body rest = 40 ∷ 32 ∷ body (41 ∷ 32 ∷ rest)
in_block false body rest = body rest

abbrev pub below_pipe : Place → Bool
below_pipe in_exec = true
below_pipe p = false

abbrev pub below_back : Place → Bool
below_back in_exec = true
below_back in_pipe = true
below_back p = false

abbrev pub below_line : Place → Bool
below_line in_line = false
below_line p = true

-- The text of a command, with `rest` behind it.
unfoldable pub text : Cmd → Place → List ℕ → List ℕ
text (exec argv) p rest = words_text argv rest
text (redir c file mode fd) p rest = text c in_exec (redirect_sign fd ∷ 32 ∷ (file ++ 32 ∷ rest))
text (pipe l r) p rest =
    in_block (below_pipe p) (λ s. text l in_exec (124 ∷ 32 ∷ text r in_pipe s)) rest
text (back c) p rest = in_block (below_back p) (λ s. text c in_back (38 ∷ 32 ∷ s)) rest
text (list l r) p rest =
    in_block (below_line p) (λ s. text l in_back (59 ∷ 32 ∷ text r in_line s)) rest

-- A word is not empty, and has no white space and no symbols.
abbrev pub IsPlain : List ℕ → Type 0
IsPlain [] = Unit {0}
IsPlain (c ∷ s) = (is_whitespace c ≡ false) × (is_symbol c ≡ false) × IsPlain s

abbrev pub IsWord : List ℕ → Type 0
IsWord [] = ⊥
IsWord (c ∷ s) = IsPlain (c ∷ s)

abbrev pub AreWords : List (List ℕ) → Type 0
AreWords [] = Unit {0}
AreWords (w ∷ ws) = IsWord w × AreWords ws

-- A command that the parser can build: words, at most nine arguments, and the two kinds of redirection.
abbrev pub IsCommand : Cmd → Type 0
IsCommand (exec argv) = AreWords argv × (length argv < 10)
IsCommand (redir c file mode fd) =
    IsCommand c × IsWord file × (((mode ≡ 0) × (fd ≡ 0)) ⊎ ((mode ≡ 513) × (fd ≡ 1)))
IsCommand (pipe l r) = IsCommand l × IsCommand r
IsCommand (list l r) = IsCommand l × IsCommand r
IsCommand (back c) = IsCommand c

-- What may stand behind a command of a rank: ) or nothing, from 1 on also ; and &, from 2 on |, from 3 on < and >.
abbrev pub follows : (rank : ℕ) → List ℕ → Bool
follows rank [] = true
follows rank (c ∷ s) =
    c == 41
    || (leb 1 rank && (c == 59 || c == 38))
    || (leb 2 rank && c == 124)
    || (leb 3 rank && (c == 60 || c == 62))

pub follows-skip : (rank : ℕ) (s : List ℕ) → follows rank s ≡ true → skip_whitespace s ≡ s
unfolding skip_whitespace is_whitespace
follows-skip rank [] h = refl
follows-skip rank (c ∷ s) h = ground arith

pub follows-weaken : (m k : ℕ) (s : List ℕ) → m ≤ k → follows m s ≡ true → follows k s ≡ true
follows-weaken m k [] l h = refl
follows-weaken m k (c ∷ s) l h = ground arith

pub peek-skipped : (toks s : List ℕ) → skip_whitespace s ≡ s → peek toks s ≡ (starts_with toks s, s)
unfolding peek
peek-skipped toks s h = rw h

-- A byte that is no white space is not skipped, one blank is.
pub skip-byte : (c : ℕ) (s : List ℕ) → is_whitespace c ≡ false → skip_whitespace (c ∷ s) ≡ c ∷ s
unfolding skip_whitespace
skip-byte c s h = rw h

pub skip-blank : (s : List ℕ) → skip_whitespace (32 ∷ s) ≡ skip_whitespace s
unfolding skip_whitespace is_whitespace
skip-blank s = refl

pub words_text-skip :
    (ws : List (List ℕ)) (rest : List ℕ)
    → AreWords ws
    → skip_whitespace rest ≡ rest
    → skip_whitespace (words_text ws rest) ≡ words_text ws rest
words_text-skip [] rest w h = h
words_text-skip ([] ∷ ws) rest w h = absurd w.0
words_text-skip ((c ∷ s) ∷ ws) rest w h = skip-byte c (s ++ 32 ∷ words_text ws rest) w.0.0

redirect_sign-IsPlain : (fd : ℕ) → is_whitespace (redirect_sign fd) ≡ false
unfolding is_whitespace
redirect_sign-IsPlain fd = ground arith

pub symbol-skip : (c : ℕ) (s : List ℕ) → is_symbol c ≡ true → skip_whitespace (c ∷ s) ≡ c ∷ s
unfolding skip_whitespace is_whitespace is_symbol
symbol-skip c s h = ground arith

-- A text starts with no white space.
pub text-skip :
    (c : Cmd) (p : Place) (rest : List ℕ)
    → IsCommand c
    → skip_whitespace rest ≡ rest
    → skip_whitespace (text c p rest) ≡ text c p rest
unfolding text is_symbol
text-skip (exec argv) p rest w h = words_text-skip argv rest w.0 h
text-skip (redir c file mode fd) p rest w h =
    text-skip c in_exec (redirect_sign fd ∷ 32 ∷ (file ++ 32 ∷ rest)) w.0
      (skip-byte _ _ (redirect_sign-IsPlain fd))
text-skip (pipe l r) p rest w h = elim (Bool-cases (below_pipe p)) [
  | inl e ↦ rw e (symbol-skip 40 _ refl)
  | inr e ↦ rw e (text-skip l in_exec _ w.0 (symbol-skip 124 _ refl))
]
text-skip (back c) p rest w h = elim (Bool-cases (below_back p)) [
  | inl e ↦ rw e (symbol-skip 40 _ refl)
  | inr e ↦ rw e (text-skip c in_back _ w (symbol-skip 38 _ refl))
]
text-skip (list l r) p rest w h = elim (Bool-cases (below_line p)) [
  | inl e ↦ rw e (symbol-skip 40 _ refl)
  | inr e ↦ rw e (text-skip l in_back _ w.0 (symbol-skip 59 _ refl))
]

words_text-longer : (ws : List (List ℕ)) (rest : List ℕ) → length rest ≤ length (words_text ws rest)
words_text-longer [] rest = omega arith
words_text-longer (w ∷ ws) rest =
    omega (arith, words_text-longer ws rest, length-append w (32 ∷ words_text ws rest))

in_block-longer :
    (b : Bool) (body : List ℕ → List ℕ) (rest : List ℕ)
    → ((s : List ℕ) → length s ≤ length (body s))
    → length rest ≤ length (in_block b body rest)
in_block-longer true body rest h = omega (arith, h (41 ∷ 32 ∷ rest))
in_block-longer false body rest h = h rest

pub text-longer : (c : Cmd) (p : Place) (rest : List ℕ) → length rest ≤ length (text c p rest)
unfolding text
text-longer (exec argv) p rest = words_text-longer argv rest
text-longer (redir c file mode fd) p rest = omega (
  arith,
  text-longer c in_exec (redirect_sign fd ∷ 32 ∷ (file ++ 32 ∷ rest)),
  length-append file (32 ∷ rest),
)
text-longer (pipe l r) p rest = in_block-longer (below_pipe p) _ rest (λ s.
    omega (arith, text-longer l in_exec (124 ∷ 32 ∷ text r in_pipe s), text-longer r in_pipe s))
text-longer (back c) p rest =
    in_block-longer (below_back p) _ rest (λ s. omega (arith, text-longer c in_back (38 ∷ 32 ∷ s)))
text-longer (list l r) p rest = in_block-longer (below_line p) _ rest (λ s.
    omega (arith, text-longer l in_back (59 ∷ 32 ∷ text r in_line s), text-longer r in_line s))

pub word-skip : (w rest : List ℕ) → IsWord w → skip_whitespace (w ++ 32 ∷ rest) ≡ w ++ 32 ∷ rest
word-skip [] rest h = absurd h
word-skip (c ∷ s) rest h = skip-byte c (s ++ 32 ∷ rest) h.0

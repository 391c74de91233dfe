-- ===== src/Shell/Places.antt =====
-- What each routine of the parser reads off a printed text; simple commands and blocks.
use uw_cse451_operating_syst.Base.{
  length-append, ℕ, zero, suc, ◌+◌, ◌*◌, ◌≤◌, ◌<◌, ◌≡◌, ◌⊎◌, refl, sym, ap, ◌∙◌, true, false,
  Option, none, some, List, [], ◌∷◌, ◌++◌, arith, length,
}
use mathlib.Core.List.{append_assoc, append-nil}
use uw_cse451_operating_syst.Base.Outcome.{done, panic, hang, ◌>>=◌}
use uw_cse451_operating_syst.Shell.{
  Cmd, exec, redir, pipe, list, back, Parse, skip_whitespace, is_symbol, starts_with, peek,
  parseredirs, add_argument, close_block, parseline, parsepipe, parseexec,
}
use uw_cse451_operating_syst.Shell.Print.{
  words_text-skip, IsWord, AreWords, words_text, in_block, redirect_sign, peek-skipped, follows,
  follows-skip, word-skip, symbol-skip,
}
use uw_cse451_operating_syst.Shell.Steps.{gettoken-symbol}
use uw_cse451_operating_syst.Shell.Reads.{
  args, backs, parseredirs-none, parseredirs-redirect, args-word,
}

-- How many arguments a simple command has, and nothing for a block.
abbrev pub base_args : Cmd → Option ℕ
base_args (exec argv) = some (length argv)
base_args (redir c file mode fd) = base_args c
base_args (pipe l r) = none
base_args (list l r) = none
base_args (back c) = none

-- `parseexec` goes on with arguments behind a redirection of a simple command, not behind one of a block.
abbrev pub after : Option ℕ → Cmd × List ℕ → Parse
after none x = done x
after (some argc) x = args argc x

-- A text is a function of what stands behind it. Redirections and & behind the text belong to the command.
abbrev pub ReadsExec : (List ℕ → List ℕ) → Cmd → Type 0
ReadsExec f c =
    (n : ℕ) (rest : List ℕ)
    → follows 3 rest ≡ true
    → 3 * length (f rest) < n
    → parseexec n (f rest) ≡ (parseredirs c rest >>= after (base_args c))

abbrev pub ReadsPipe : (List ℕ → List ℕ) → Cmd → Type 0
ReadsPipe f c =
    (n : ℕ) (rest : List ℕ)
    → follows 1 rest ≡ true
    → 3 * length (f rest) + 1 < n
    → parsepipe n (f rest) ≡ done (c, rest)

abbrev pub ReadsBack : (List ℕ → List ℕ) → Cmd → Type 0
ReadsBack f c =
    (n : ℕ) (rest : List ℕ)
    → follows 1 rest ≡ true
    → 3 * length (f rest) + 1 < n
    → (c0 : Cmd) × (s : List ℕ) × (parsepipe n (f rest) ≡ done (c0, s))
      × (backs c0 s ≡ backs c rest)

abbrev pub ReadsLine : (List ℕ → List ℕ) → Cmd → Type 0
ReadsLine f c =
    (n : ℕ) (rest : List ℕ)
    → follows 0 rest ≡ true
    → 3 * length (f rest) + 2 < n
    → parseline n (f rest) ≡ done (c, rest)

-- A text that begins with a token whatever stands behind it, and holds what stands behind it.
pub record IsText (f : List ℕ → List ℕ) : Type 0 where
  pub clean : (s : List ℕ) → skip_whitespace s ≡ s → skip_whitespace (f s) ≡ f s
  pub longer : (s : List ℕ) → length s ≤ length (f s)

word_start :
    (toks w rest : List ℕ)
    → IsWord w
    → ((c : ℕ) (s : List ℕ) → is_symbol c ≡ false → starts_with toks (c ∷ s) ≡ false)
    → starts_with toks (w ++ 32 ∷ rest) ≡ false
word_start toks [] rest h k = absurd h
word_start toks (c ∷ s) rest h k = k c (s ++ 32 ∷ rest) h.1

no_redirect :
    (c : ℕ) (s : List ℕ) → is_symbol c ≡ false → starts_with (60 ∷ 62 ∷ []) (c ∷ s) ≡ false
unfolding is_symbol
no_redirect c s h = ground arith

no_block : (c : ℕ) (s : List ℕ) → is_symbol c ≡ false → starts_with (40 ∷ []) (c ∷ s) ≡ false
unfolding is_symbol
no_block c s h = ground arith

-- The words behind those that are read already.
words_read :
    (ws pre : List (List ℕ)) (rest : List ℕ)
    → AreWords ws
    → length pre + length ws < 10
    → skip_whitespace rest ≡ rest
    → (parseredirs (exec pre) (words_text ws rest) >>= args (length pre))
      ≡ (parseredirs (exec (pre ++ ws)) rest >>= args (length pre + length ws))
unfolding add_argument
words_read [] pre rest w few h =
    rw (append-nil pre) (ap (λ k. parseredirs (exec pre) rest >>= args k) (omega arith))
words_read (x ∷ ws) pre rest w few h =
    let behind = words_text ws rest in
    let s = x ++ 32 ∷ behind in
    let size = length-append pre (x ∷ []) in
    let next : length (pre ++ x ∷ []) ≡ length pre + 1 = omega (arith, size) in
    ap (λ p. p >>= args (length pre))
      (parseredirs-none (exec pre) s (word-skip x behind w.0)
        (word_start (60 ∷ 62 ∷ []) x behind w.0 no_redirect))
    ∙ args-word (length pre) (exec pre) x behind w.0 (words_text-skip ws rest w.1 h) (omega arith)
    ∙ ap (λ k. parseredirs (exec (pre ++ x ∷ [])) behind >>= args k) (sym next)
    ∙ words_read ws (pre ++ x ∷ []) rest w.1 (omega (arith, next)) h
    ∙ ap (λ z. parseredirs (exec z) rest >>= args (length (pre ++ x ∷ []) + length ws))
        (append_assoc pre (x ∷ []) ws)
    ∙ ap (λ k. parseredirs (exec (pre ++ x ∷ ws)) rest >>= args k) (omega (arith, next))

parseexec-simple :
    (n : ℕ) (s : List ℕ)
    → skip_whitespace s ≡ s
    → starts_with (40 ∷ []) s ≡ false
    → parseexec (suc n) s ≡ (parseredirs (exec []) s >>= args 0)
unfolding parseexec
parseexec-simple n s h e =
    let p = peek-skipped (40 ∷ []) s h in
    let no : (peek (40 ∷ []) s).0 ≡ false = rw p e in rw (parseexec, no) (rw p)

parseexec-block :
    (n : ℕ) (s : List ℕ)
    → skip_whitespace s ≡ s
    → parseexec (suc n) (40 ∷ 32 ∷ s) ≡ (parseline n s >>= (λ (c, s1). close_block c s1))
unfolding parseexec is_symbol
parseexec-block n s h = rw (
  parseexec,
  peek-skipped (40 ∷ []) (40 ∷ 32 ∷ s) (symbol-skip 40 (32 ∷ s) refl),
  gettoken-symbol 40 s refl h,
)

close_block-closed :
    (c : Cmd) (s : List ℕ) → skip_whitespace s ≡ s → close_block c (41 ∷ 32 ∷ s) ≡ parseredirs c s
unfolding close_block is_symbol
close_block-closed c s h = rw (
  close_block,
  peek-skipped (41 ∷ []) (41 ∷ 32 ∷ s) (symbol-skip 41 (32 ∷ s) refl),
  gettoken-symbol 41 s refl h,
)

follows-no_block : (s : List ℕ) → follows 3 s ≡ true → starts_with (40 ∷ []) s ≡ false
follows-no_block [] h = refl
follows-no_block (x ∷ s) h = ground arith

words-no_block :
    (ws : List (List ℕ)) (rest : List ℕ)
    → AreWords ws
    → follows 3 rest ≡ true
    → starts_with (40 ∷ []) (words_text ws rest) ≡ false
words-no_block [] rest w h = follows-no_block rest h
words-no_block (x ∷ ws) rest w h = word_start (40 ∷ []) x (words_text ws rest) w.0 no_block

pub exec-ReadsExec :
    (argv : List (List ℕ))
    → AreWords argv
    → length argv < 10
    → ReadsExec (words_text argv) (exec argv)
exec-ReadsExec argv w few zero rest h l = absurd (omega arith)
exec-ReadsExec argv w few (suc n) rest h l =
    let clean = follows-skip 3 rest h in
    parseexec-simple n (words_text argv rest) (words_text-skip argv rest w clean)
      (words-no_block argv rest w h)
    ∙ words_read argv [] rest w (omega arith) clean
    ∙ ap (λ k. parseredirs (exec argv) rest >>= args k) (omega arith)

redirect-follows : (fd : ℕ) (s : List ℕ) → follows 3 (redirect_sign fd ∷ s) ≡ true
redirect-follows fd s = ground arith

pub redir-ReadsExec :
    (f : List ℕ → List ℕ) (c : Cmd) (file : List ℕ) (mode fd : ℕ)
    → IsWord file
    → ((mode ≡ 0) × (fd ≡ 0)) ⊎ ((mode ≡ 513) × (fd ≡ 1))
    → ReadsExec f c
    → ReadsExec (λ s. f (redirect_sign fd ∷ 32 ∷ (file ++ 32 ∷ s))) (redir c file mode fd)
redir-ReadsExec f c file mode fd w kind r n rest h l =
    r n (redirect_sign fd ∷ 32 ∷ (file ++ 32 ∷ rest))
      (redirect-follows fd (32 ∷ (file ++ 32 ∷ rest))) l
    ∙ ap (λ p. p >>= after (base_args c))
        (parseredirs-redirect c file rest mode fd w kind (follows-skip 3 rest h))

bind-done : (p : Parse) → (p >>= (λ x. done x)) ≡ p
bind-done (done x) = refl
bind-done panic = refl
bind-done hang = refl

pub block-ReadsExec :
    (f : List ℕ → List ℕ) (c : Cmd)
    → base_args c ≡ none
    → IsText f
    → ReadsLine f c
    → ReadsExec (in_block true f) c
unfolding is_symbol
block-ReadsExec f c e t r zero rest h l = absurd (omega arith)
block-ReadsExec f c e t r (suc n) rest h l =
    let closing = 41 ∷ 32 ∷ rest in
    let clean = follows-skip 3 rest h in
    parseexec-block n (f closing) (t.clean closing (symbol-skip 41 (32 ∷ rest) refl))
    ∙ ap (λ p. p >>= (λ (d, s1). close_block d s1)) (r n closing refl (omega arith))
    ∙ close_block-closed c rest clean
    ∙ sym (bind-done (parseredirs c rest))
    ∙ rw e

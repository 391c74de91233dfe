-- ===== src/Shell/Joined.antt =====
-- Pipes, lists and commands in the background, out of what is read of their parts.
use uw_cse451_operating_syst.Base.{
  ℕ, zero, suc, ◌≡◌, refl, ap, ◌∙◌, true, false, Option, none, some, List, [], ◌∷◌, arith,
}
use uw_cse451_operating_syst.Base.Outcome.{done, ◌>>=◌}
use uw_cse451_operating_syst.Shell.{
  Cmd, pipe, list, back, Parse, skip_whitespace, is_symbol, starts_with, peek, parseredirs,
  pipe_rest, back_rest, line_rest, parseline, parsepipe,
}
use uw_cse451_operating_syst.Shell.Print.{
  peek-skipped, follows, follows-skip, follows-weaken, symbol-skip,
}
use uw_cse451_operating_syst.Shell.Steps.{gettoken-symbol}
use uw_cse451_operating_syst.Shell.Places.{
  ReadsExec, ReadsPipe, ReadsBack, ReadsLine, IsText, base_args, after,
}
use uw_cse451_operating_syst.Shell.Reads.{parseredirs-none, args-end, backs-and, backs-none}

follows-no_redirect : (s : List ℕ) → follows 2 s ≡ true → starts_with (60 ∷ 62 ∷ []) s ≡ false
follows-no_redirect [] h = refl
follows-no_redirect (x ∷ s) h = ground arith

follows-no_pipe : (s : List ℕ) → follows 1 s ≡ true → starts_with (124 ∷ []) s ≡ false
follows-no_pipe [] h = refl
follows-no_pipe (x ∷ s) h = ground arith

follows-no_and : (s : List ℕ) → follows 0 s ≡ true → starts_with (38 ∷ []) s ≡ false
follows-no_and [] h = refl
follows-no_and (x ∷ s) h = ground arith

follows-no_list : (s : List ℕ) → follows 0 s ≡ true → starts_with (59 ∷ []) s ≡ false
follows-no_list [] h = refl
follows-no_list (x ∷ s) h = ground arith

-- A simple command or a block ends where no redirection and no word follows.
after-stop :
    (c : Cmd) (b : Option ℕ) (rest : List ℕ)
    → follows 2 rest ≡ true
    → (parseredirs c rest >>= after b) ≡ done (c, rest)
after-stop c none rest h =
    ap (λ p. p >>= after none)
      (parseredirs-none c rest (follows-skip 2 rest h) (follows-no_redirect rest h))
after-stop c (some argc) rest h =
    ap (λ p. p >>= after (some argc))
      (parseredirs-none c rest (follows-skip 2 rest h) (follows-no_redirect rest h))
    ∙ args-end argc c rest h

pipe_rest-last :
    (next : List ℕ → Parse) (c : Cmd) (rest : List ℕ)
    → follows 1 rest ≡ true
    → pipe_rest next (c, rest) ≡ done (c, rest)
unfolding pipe_rest
pipe_rest-last next c rest h =
    let p = peek-skipped (124 ∷ []) rest (follows-skip 1 rest h) in
    let no : (peek (124 ∷ []) rest).0 ≡ false = rw p (follows-no_pipe rest h) in
    rw (pipe_rest, no) (rw p)

pipe_rest-more :
    (next : List ℕ → Parse) (c d : Cmd) (s rest : List ℕ)
    → skip_whitespace s ≡ s
    → next s ≡ done (d, rest)
    → pipe_rest next (c, 124 ∷ 32 ∷ s) ≡ done (pipe c d, rest)
unfolding pipe_rest is_symbol
pipe_rest-more next c d s rest h r =
    let p = peek-skipped (124 ∷ []) (124 ∷ 32 ∷ s) (symbol-skip 124 (32 ∷ s) refl) in
    let bar : (peek (124 ∷ []) (124 ∷ 32 ∷ s)).0 ≡ true = rw p in
    rw (pipe_rest, bar, gettoken-symbol 124 s refl h, r)

pub exec-ReadsPipe : (f : List ℕ → List ℕ) (c : Cmd) → ReadsExec f c → ReadsPipe f c
unfolding parsepipe
exec-ReadsPipe f c r zero rest h l = absurd (omega arith)
exec-ReadsPipe f c r (suc n) rest h l =
    ap (λ p. p >>= pipe_rest (parsepipe n))
      (r n rest (follows-weaken 1 3 rest (omega arith) h) (omega arith)
        ∙ after-stop c (base_args c) rest (follows-weaken 1 2 rest (omega arith) h))
    ∙ pipe_rest-last (parsepipe n) c rest h

pub pipe-ReadsPipe :
    (f g : List ℕ → List ℕ) (c d : Cmd)
    → IsText f
    → IsText g
    → ReadsExec f c
    → ReadsPipe g d
    → ReadsPipe (λ s. f (124 ∷ 32 ∷ g s)) (pipe c d)
unfolding parsepipe
pipe-ReadsPipe f g c d tf tg r q zero rest h l = absurd (omega arith)
pipe-ReadsPipe f g c d tf tg r q (suc n) rest h l =
    let s = 124 ∷ 32 ∷ g rest in
    ap (λ p. p >>= pipe_rest (parsepipe n))
      (r n s refl (omega arith) ∙ after-stop c (base_args c) s refl)
    ∙ pipe_rest-more (parsepipe n) c d (g rest) rest (tg.clean rest (follows-skip 1 rest h))
        (q n rest h (omega (arith, tf.longer s)))

pub pipe-ReadsBack : (f : List ℕ → List ℕ) (c : Cmd) → ReadsPipe f c → ReadsBack f c
pipe-ReadsBack f c r n rest h l = (c, rest, r n rest h l, refl)

pub back-ReadsBack :
    (f : List ℕ → List ℕ) (c : Cmd) → ReadsBack f c → ReadsBack (λ s. f (38 ∷ 32 ∷ s)) (back c)
back-ReadsBack f c r n rest h l =
    let (c0, s, p, b) = r n (38 ∷ 32 ∷ rest) refl l in
    (c0, s, p, b ∙ backs-and c rest (follows-skip 1 rest h))

line_rest-last :
    (next : List ℕ → Parse) (c : Cmd) (rest : List ℕ)
    → follows 0 rest ≡ true
    → line_rest next (c, rest) ≡ done (c, rest)
unfolding line_rest
line_rest-last next c rest h =
    let p = peek-skipped (59 ∷ []) rest (follows-skip 0 rest h) in
    let no : (peek (59 ∷ []) rest).0 ≡ false = rw p (follows-no_list rest h) in
    rw (line_rest, no) (rw p)

line_rest-more :
    (next : List ℕ → Parse) (c d : Cmd) (s rest : List ℕ)
    → skip_whitespace s ≡ s
    → next s ≡ done (d, rest)
    → line_rest next (c, 59 ∷ 32 ∷ s) ≡ done (list c d, rest)
unfolding line_rest is_symbol
line_rest-more next c d s rest h r =
    let p = peek-skipped (59 ∷ []) (59 ∷ 32 ∷ s) (symbol-skip 59 (32 ∷ s) refl) in
    let semicolon : (peek (59 ∷ []) (59 ∷ 32 ∷ s)).0 ≡ true = rw p in
    rw (line_rest, semicolon, gettoken-symbol 59 s refl h, r)

pub back-ReadsLine : (f : List ℕ → List ℕ) (c : Cmd) → ReadsBack f c → ReadsLine f c
unfolding parseline
back-ReadsLine f c r zero rest h l = absurd (omega arith)
back-ReadsLine f c r (suc n) rest h l =
    let (c0, s, p, b) = r n rest (follows-weaken 0 1 rest (omega arith) h) (omega arith) in
    ap (λ x. x >>= back_rest >>= line_rest (parseline n)) p
    ∙ ap (λ x. x >>= line_rest (parseline n))
        (b ∙ backs-none c rest (follows-skip 0 rest h) (follows-no_and rest h))
    ∙ line_rest-last (parseline n) c rest h

pub list-ReadsLine :
    (f g : List ℕ → List ℕ) (c d : Cmd)
    → IsText f
    → IsText g
    → ReadsBack f c
    → ReadsLine g d
    → ReadsLine (λ s. f (59 ∷ 32 ∷ g s)) (list c d)
unfolding is_symbol parseline
list-ReadsLine f g c d tf tg r q zero rest h l = absurd (omega arith)
list-ReadsLine f g c d tf tg r q (suc n) rest h l =
    let next = 59 ∷ 32 ∷ g rest in
    let (c0, s, p, b) = r n next refl (omega arith) in
    ap (λ x. x >>= back_rest >>= line_rest (parseline n)) p
    ∙ ap (λ x. x >>= line_rest (parseline n))
        (b ∙ backs-none c next (symbol-skip 59 (32 ∷ g rest) refl) refl)
    ∙ line_rest-more (parseline n) c d (g rest) rest (tg.clean rest (follows-skip 0 rest h))
        (q n rest h (omega (arith, tf.longer next)))

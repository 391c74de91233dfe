-- ===== src/Shell/Reads.antt =====
-- What each loop of the parser does at the next token of a printed text.
use uw_cse451_operating_syst.Base.{
  length-append, ℕ, suc, ◌+◌, ◌<◌, ◌≡◌, ◌⊎◌, refl, ap, ◌∙◌, true, false, List, [], ◌∷◌, ◌++◌, arith,
  ◌==◌, leb, length,
}
use uw_cse451_operating_syst.Base.Outcome.{done, ◌>>=◌}
use uw_cse451_operating_syst.Shell.{
  token_at, Cmd, redir, back, Parse, skip_whitespace, is_symbol, Token, gettoken, starts_with, peek,
  redirect, redirs_loop, parseredirs, add_argument, args_loop, back_loop,
}
use uw_cse451_operating_syst.Shell.Ends.{parseredirs-Ends}
use uw_cse451_operating_syst.Shell.Print.{
  IsWord, peek-skipped, follows, follows-skip, redirect_sign, symbol-skip, word-skip,
}
use uw_cse451_operating_syst.Shell.Steps.{
  gettoken-word, gettoken-symbol, bind-cong, redirs_loop-rounds, back_loop-rounds, args_loop-rounds,
}

abbrev pub args : (argc : ℕ) → Cmd × List ℕ → Parse
args argc (c, s) = args_loop (length s + 1) argc c s

abbrev pub backs : Cmd → List ℕ → Parse
backs c s = back_loop (length s + 1) c s

suc_rounds : (s : List ℕ) → length s + 1 ≡ suc (length s)
suc_rounds s = omega arith

redirs_loop-stop :
    (n : ℕ) (c : Cmd) (s : List ℕ)
    → (peek (60 ∷ 62 ∷ []) s).0 ≡ false
    → redirs_loop (suc n) c s ≡ done (c, (peek (60 ∷ 62 ∷ []) s).1)
unfolding redirs_loop
redirs_loop-stop n c s e = rw (redirs_loop, e)

redirs_loop-more :
    (n : ℕ) (c : Cmd) (s : List ℕ) (sign file : Token)
    → (peek (60 ∷ 62 ∷ []) s).0 ≡ true
    → gettoken s ≡ sign
    → gettoken sign.rest ≡ file
    → file.kind ≡ 97
    → redirs_loop (suc n) c s ≡ redirs_loop n (redirect c sign.kind file.text) file.rest
unfolding redirs_loop
redirs_loop-more n c s sign file e f g k =
    let word : ((gettoken (gettoken s).rest).kind == 97) ≡ true = rw (f, g, k) in
    rw (redirs_loop, e, word) (rw (f, g))

back_loop-stop :
    (n : ℕ) (c : Cmd) (s : List ℕ)
    → (peek (38 ∷ []) s).0 ≡ false
    → back_loop (suc n) c s ≡ done (c, (peek (38 ∷ []) s).1)
unfolding back_loop
back_loop-stop n c s e = rw (back_loop, e)

back_loop-more :
    (n : ℕ) (c : Cmd) (s : List ℕ) (tok : Token)
    → (peek (38 ∷ []) s).0 ≡ true
    → gettoken s ≡ tok
    → back_loop (suc n) c s ≡ back_loop n (back c) tok.rest
unfolding back_loop
back_loop-more n c s tok e f = rw (back_loop, e, f)

abbrev ends_args : List ℕ
ends_args = 124 ∷ 41 ∷ 38 ∷ 59 ∷ []

args_loop-stop :
    (n argc : ℕ) (c : Cmd) (s : List ℕ)
    → (peek ends_args s).0 ≡ true
    → args_loop (suc n) argc c s ≡ done (c, (peek ends_args s).1)
unfolding args_loop
args_loop-stop n argc c s e = rw (args_loop, e)

args_loop-nothing : (n argc : ℕ) (c : Cmd) → args_loop (suc n) argc c [] ≡ done (c, [])
unfolding args_loop peek gettoken token_at skip_whitespace
args_loop-nothing n argc c = refl

args_loop-more :
    (n argc : ℕ) (c : Cmd) (s : List ℕ) (tok : Token)
    → (peek ends_args s).0 ≡ false
    → gettoken s ≡ tok
    → tok.kind ≡ 97
    → argc + 1 < 10
    → args_loop (suc n) argc c s ≡ (
        parseredirs (add_argument c tok.text) tok.rest
        >>= (λ (c1, s1). args_loop n (argc + 1) c1 s1))
unfolding args_loop
args_loop-more n argc c s tok e f k few =
    let some_token : (tok.kind == 0) ≡ false = ground arith in
    let word : (tok.kind == 97) ≡ true = ground arith in
    let room : leb 10 (argc + 1) ≡ false = ground arith in
    rw (args_loop, e, f, some_token, word, room)

parseredirs-suc : (c : Cmd) (s : List ℕ) → parseredirs c s ≡ redirs_loop (suc (length s)) c s
unfolding parseredirs
parseredirs-suc c s = ap (λ n. redirs_loop n c s) (suc_rounds s)

pub parseredirs-none :
    (c : Cmd) (s : List ℕ)
    → skip_whitespace s ≡ s
    → starts_with (60 ∷ 62 ∷ []) s ≡ false
    → parseredirs c s ≡ done (c, s)
parseredirs-none c s h n =
    let p = peek-skipped (60 ∷ 62 ∷ []) s h in
    parseredirs-suc c s ∙ redirs_loop-stop (length s) c s (rw p n) ∙ rw p

redirect_sign-IsSymbol : (fd : ℕ) → is_symbol (redirect_sign fd) ≡ true
unfolding is_symbol
redirect_sign-IsSymbol fd = ground arith

redirect_sign-start :
    (fd : ℕ) (s : List ℕ) → starts_with (60 ∷ 62 ∷ []) (redirect_sign fd ∷ s) ≡ true
redirect_sign-start fd s = ground arith

redirect_same :
    (c : Cmd) (file : List ℕ) (mode fd : ℕ)
    → ((mode ≡ 0) × (fd ≡ 0)) ⊎ ((mode ≡ 513) × (fd ≡ 1))
    → redirect c (redirect_sign fd) file ≡ redir c file mode fd
redirect_same c file mode fd h = ground arith

pub parseredirs-redirect :
    (c : Cmd) (file rest : List ℕ) (mode fd : ℕ)
    → IsWord file
    → ((mode ≡ 0) × (fd ≡ 0)) ⊎ ((mode ≡ 513) × (fd ≡ 1))
    → skip_whitespace rest ≡ rest
    → parseredirs c (redirect_sign fd ∷ 32 ∷ (file ++ 32 ∷ rest))
      ≡ parseredirs (redir c file mode fd) rest
unfolding parseredirs
parseredirs-redirect c file rest mode fd w kind h =
    let sign = redirect_sign fd in
    let behind = file ++ 32 ∷ rest in
    let s = sign ∷ 32 ∷ behind in
    let p =
      peek-skipped (60 ∷ 62 ∷ []) s (symbol-skip sign (32 ∷ behind) (redirect_sign-IsSymbol fd)) in
    let g = gettoken-symbol sign behind (redirect_sign-IsSymbol fd) (word-skip file rest w) in
    let size = length-append file (32 ∷ rest) in
    parseredirs-suc c s
    ∙ redirs_loop-more (length s) c s _ _ (rw p (redirect_sign-start fd (32 ∷ behind))) g
        (gettoken-word file rest w h) refl
    ∙ ap (λ x. redirs_loop (length s) x rest) (redirect_same c file mode fd kind)
    ∙ redirs_loop-rounds (length s) (length rest + 1) (redir c file mode fd) rest
        (omega (arith, size)) (omega arith)

word_start : (w rest : List ℕ) → IsWord w → starts_with ends_args (w ++ 32 ∷ rest) ≡ false
unfolding is_symbol
word_start [] rest h = absurd h
word_start (c ∷ s) rest h = ground arith

pub args-word :
    (argc : ℕ) (c : Cmd) (w rest : List ℕ)
    → IsWord w
    → skip_whitespace rest ≡ rest
    → argc + 1 < 10
    → args argc (c, w ++ 32 ∷ rest) ≡ (parseredirs (add_argument c w) rest >>= args (argc + 1))
args-word argc c w rest word h few =
    let s = w ++ 32 ∷ rest in
    let size = length-append w (32 ∷ rest) in
    let p = peek-skipped ends_args s (word-skip w rest word) in
    ap (λ k. args_loop k argc c s) (suc_rounds s)
    ∙ args_loop-more (length s) argc c s _ (rw p (word_start w rest word))
        (gettoken-word w rest word h) refl few
    ∙ bind-cong (length rest) (parseredirs (add_argument c w) rest) _ _
        (parseredirs-Ends (add_argument c w) rest)
        (λ c1 s1 l.
          args_loop-rounds (length s) (length s1 + 1) (argc + 1) c1 s1 (omega (arith, l, size))
            (omega arith))

ends_args-start :
    (x : ℕ) (r : List ℕ) → follows 2 (x ∷ r) ≡ true → starts_with ends_args (x ∷ r) ≡ true
ends_args-start x r h = ground arith

pub args-end :
    (argc : ℕ) (c : Cmd) (rest : List ℕ)
    → follows 2 rest ≡ true
    → args argc (c, rest) ≡ done (c, rest)
args-end argc c [] h = ap (λ k. args_loop k argc c []) (suc_rounds []) ∙ args_loop-nothing 0 argc c
args-end argc c (x ∷ r) h =
    let s = x ∷ r in
    let p = peek-skipped ends_args s (follows-skip 2 s h) in
    ap (λ k. args_loop k argc c s) (suc_rounds s)
    ∙ args_loop-stop (length s) argc c s (rw p (ends_args-start x r h))
    ∙ rw p

and_symbol : is_symbol 38 ≡ true
unfolding is_symbol
and_symbol = refl

pub backs-and :
    (c : Cmd) (rest : List ℕ)
    → skip_whitespace rest ≡ rest
    → backs c (38 ∷ 32 ∷ rest) ≡ backs (back c) rest
backs-and c rest h =
    let s = 38 ∷ 32 ∷ rest in
    let p = peek-skipped (38 ∷ []) s (symbol-skip 38 (32 ∷ rest) and_symbol) in
    ap (λ k. back_loop k c s) (suc_rounds s)
    ∙ back_loop-more (length s) c s _ (rw p refl) (gettoken-symbol 38 rest and_symbol h)
    ∙ back_loop-rounds (length s) (length rest + 1) (back c) rest (omega arith) (omega arith)

pub backs-none :
    (c : Cmd) (s : List ℕ)
    → skip_whitespace s ≡ s
    → starts_with (38 ∷ []) s ≡ false
    → backs c s ≡ done (c, s)
backs-none c s h n =
    let p = peek-skipped (38 ∷ []) s h in
    ap (λ k. back_loop k c s) (suc_rounds s) ∙ back_loop-stop (length s) c s (rw p n) ∙ rw p

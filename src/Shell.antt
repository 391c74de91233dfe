-- ===== src/Shell.antt =====
-- The parser of the shell, user/sh.c, over the list of the bytes between `s` and `es`; behind them stands a zero byte.
-- A panic prints a message and ends the shell's child. `hang` stands for too little fuel.
pub mod Tokens
pub mod Ends
pub mod Print
pub mod Steps
pub mod Reads
pub mod Places
pub mod Joined
pub mod RoundTrip
use uw_cse451_operating_syst.Base.{
  ◌||◌, ℕ, zero, suc, ◌+◌, ◌-◌, ◌*◌, ◌%◌, ◌^◌, ◌≤◌, ◌<◌, ◌≡◌, ◌≢◌, ◌⊎◌, inl, inr, refl, sym, ap,
  ◌∙◌, Bool, true, false, ◌&&◌, not, Option, none, some, List, [], ◌∷◌, ◌++◌, arith, ◌==◌, ltb, leb,
  if◌then◌else◌, length, get_elem?, set, Bool-cases, Option-cases, ℕ-cases,
}
use uw_cse451_operating_syst.Base.Outcome.{Outcome, done, panic, hang, ◌>>=◌}

-- `struct cmd` by its type. A word is the text from an entry of `argv` to that of `eargv`, where `nulterminate`
-- puts its zero byte.
pub data Cmd : Type 0 where
  exec : (argv : List (List ℕ)) → Cmd
  redir : (cmd : Cmd) → (file : List ℕ) → (mode fd : ℕ) → Cmd
  pipe : (left right : Cmd) → Cmd
  list : (left right : Cmd) → Cmd
  back : (cmd : Cmd) → Cmd

-- The strings `whitespace` and `symbols`: blank, \t, \r, \n, \v, and <|>&;().
unfoldable pub is_whitespace : ℕ → Bool
is_whitespace c = c == 32 || c == 9 || c == 13 || c == 10 || c == 11

unfoldable pub is_symbol : ℕ → Bool
is_symbol c = c == 60 || c == 124 || c == 62 || c == 38 || c == 59 || c == 40 || c == 41

unfoldable pub skip_whitespace : List ℕ → List ℕ
skip_whitespace [] = []
skip_whitespace (c ∷ s) = let rest = skip_whitespace s in if is_whitespace c then rest else c ∷ s

-- The word at the start, and what is left.
unfoldable pub span_word : List ℕ → List ℕ × List ℕ
span_word [] = ([], [])
span_word (c ∷ s) =
    let (word, rest) = span_word s in
    if is_whitespace c || is_symbol c then ([], c ∷ s) else (c ∷ word, rest)

-- What `gettoken` returns, the text from `q` to `eq`, and `*ps`. The kind of a word is 'a', that of >> is '+'.
pub record Token : Type 0 where
  pub kind : ℕ
  pub text : List ℕ
  pub rest : List ℕ

abbrev pub redirect_token : List ℕ → Token
redirect_token [] = record { kind = 62; text = 62 ∷ []; rest = [] }
redirect_token (c ∷ s) =
    if c == 62
    then record { kind = 43; text = 62 ∷ 62 ∷ []; rest = skip_whitespace s }
    else record { kind = 62; text = 62 ∷ []; rest = skip_whitespace (c ∷ s) }

unfoldable pub token_at : List ℕ → Token
token_at [] = record { kind = 0; text = []; rest = [] }
token_at (c ∷ s) =
    if c == 62
    then redirect_token s
    else if is_symbol c
    then record { kind = c; text = c ∷ []; rest = skip_whitespace s }
    else let (word, rest) = span_word (c ∷ s) in
      record { kind = 97; text = word; rest = skip_whitespace rest }

unfoldable pub gettoken : List ℕ → Token
gettoken s = token_at (skip_whitespace s)

-- The test of `peek` behind the white space that it skips.
abbrev pub starts_with : (toks : List ℕ) → List ℕ → Bool
starts_with toks [] = false
starts_with [] (c ∷ s) = false
starts_with (t ∷ toks) (c ∷ s) = c == t || starts_with toks (c ∷ s)

unfoldable pub peek : (toks : List ℕ) → List ℕ → Bool × List ℕ
peek toks s = let s1 = skip_whitespace s in (starts_with toks s1, s1)

-- A command and what is left of the text.
abbrev pub Parse : Type 0
Parse = Outcome (Cmd × List ℕ)

-- The command of a redirection; O_WRONLY | O_CREATE is 513, for >> too.
abbrev pub redirect : Cmd → (kind : ℕ) → (file : List ℕ) → Cmd
redirect c kind file = if kind == 60 then redir c file 0 0 else redir c file 513 1

-- The loop of `parseredirs`, with a round for each byte.
unfoldable pub redirs_loop : (rounds : ℕ) → Cmd → List ℕ → Parse
redirs_loop zero c s = hang
redirs_loop (suc rounds) c s = elim (peek (60 ∷ 62 ∷ []) s).0 [
  | false ↦ done (c, (peek (60 ∷ 62 ∷ []) s).1)
  | true ↦
      let tok = gettoken s in
      let file = gettoken tok.rest in
      elim (file.kind == 97) [
        | false ↦ panic
        | true ↦ redirs_loop rounds (redirect c tok.kind file.text) file.rest
      ]
]

unfoldable pub parseredirs : Cmd → List ℕ → Parse
parseredirs c s = redirs_loop (length s + 1) c s

-- `cmd->argv[argc] = q`, where `ret` is `cmd` with redirections around it.
unfoldable pub add_argument : (ret : Cmd) → (word : List ℕ) → Cmd
add_argument (exec argv) word = exec (argv ++ word ∷ [])
add_argument (redir c file mode fd) word = redir (add_argument c word) file mode fd
add_argument (pipe l r) word = pipe l r
add_argument (list l r) word = list l r
add_argument (back c) word = back c

-- The loop of `parseexec`, with a round for each byte and one more; MAXARGS is 10.
unfoldable pub args_loop : (rounds argc : ℕ) → Cmd → List ℕ → Parse
args_loop zero argc ret s = hang
args_loop (suc rounds) argc ret s =
    let tok = gettoken s in
    elim (peek (124 ∷ 41 ∷ 38 ∷ 59 ∷ []) s).0 [
      | true ↦ done (ret, (peek (124 ∷ 41 ∷ 38 ∷ 59 ∷ []) s).1)
      | false ↦
          if tok.kind == 0
          then done (ret, tok.rest)
          else if not (tok.kind == 97)
          then panic
          else if leb 10 (argc + 1)
          then panic
          else parseredirs (add_argument ret tok.text) tok.rest
            >>= (λ (ret1, s1). args_loop rounds (argc + 1) ret1 s1)
    ]

-- The loop over & of `parseline`, with a round for each byte and one more.
unfoldable pub back_loop : (rounds : ℕ) → Cmd → List ℕ → Parse
back_loop zero c s = hang
back_loop (suc rounds) c s = elim (peek (38 ∷ []) s).0 [
  | false ↦ done (c, (peek (38 ∷ []) s).1)
  | true ↦ back_loop rounds (back c) (gettoken s).rest
]

-- `parseblock` behind its (, with the text that `parseline` has left.
unfoldable pub close_block : Cmd → List ℕ → Parse
close_block c s = if (peek (41 ∷ []) s).0 then parseredirs c (gettoken s).rest else panic

-- `parsepipe` behind its first command, and `parseline` behind a pipe and behind its &s, where `next` is the routine's
-- call of itself.
unfoldable pub pipe_rest : (next : List ℕ → Parse) → Cmd × List ℕ → Parse
pipe_rest next (c, s) = elim (peek (124 ∷ []) s).0 [
  | false ↦ done (c, (peek (124 ∷ []) s).1)
  | true ↦ next (gettoken s).rest >>= (λ (d, s1). done (pipe c d, s1))
]

abbrev pub back_rest : Cmd × List ℕ → Parse
back_rest (c, s) = back_loop (length s + 1) c s

unfoldable pub line_rest : (next : List ℕ → Parse) → Cmd × List ℕ → Parse
line_rest next (c, s) = elim (peek (59 ∷ []) s).0 [
  | false ↦ done (c, (peek (59 ∷ []) s).1)
  | true ↦ next (gettoken s).rest >>= (λ (d, s1). done (list c d, s1))
]

-- Each call costs a unit of fuel.
unfoldable mutual
  pub parseline : (fuel : ℕ) → List ℕ → Parse
  parseline zero s = hang
  parseline (suc n) s = parsepipe n s >>= back_rest >>= line_rest (parseline n)

  pub parsepipe : (fuel : ℕ) → List ℕ → Parse
  parsepipe zero s = hang
  parsepipe (suc n) s = parseexec n s >>= pipe_rest (parsepipe n)

  pub parseexec : (fuel : ℕ) → List ℕ → Parse
  parseexec zero s = hang
  parseexec (suc n) s = elim (peek (40 ∷ []) s).0 [
    | true ↦ parseline n (gettoken s).rest >>= (λ (c, s1). close_block c s1)
    | false ↦
        parseredirs (exec []) (peek (40 ∷ []) s).1
        >>= (λ (ret, s1). args_loop (length s1 + 1) 0 ret s1)
  ]

-- What is left over is a syntax error.
abbrev pub finish : Cmd → List ℕ → Outcome Cmd
finish c [] = done c
finish c (x ∷ s) = panic

unfoldable pub parsecmd : List ℕ → Outcome Cmd
parsecmd s = parseline (3 * length s + 3) s >>= (λ (c, s1). finish c (peek [] s1).1)

-- ===== src/Examples/Commands.antt =====
-- Commands of the shell and their texts.
use uw_cse451_operating_syst.Base.{ℕ, ◌≡◌, ◌≢◌, refl, List, [], ◌∷◌, arith}
use uw_cse451_operating_syst.Base.Outcome.{done, panic, hang}
use uw_cse451_operating_syst.Shell.{
  Cmd, exec, redir, pipe, list, back, parsecmd, parseline, parsepipe, parseexec, pipe_rest,
  line_rest, close_block, parseredirs, redirs_loop, args_loop, back_loop, add_argument, gettoken,
  token_at, peek, skip_whitespace, span_word, is_whitespace, is_symbol,
}
use uw_cse451_operating_syst.Shell.Ends.{parsecmd-ne-hang}
use uw_cse451_operating_syst.Shell.Print.{in_line, text, IsCommand}
use uw_cse451_operating_syst.Shell.RoundTrip.{parsecmd-text}

-- ls>o|(wc -l;ps&) and a line feed
abbrev line : List ℕ
line =
    b'l' ∷ b's' ∷ b'>' ∷ b'o' ∷ b'|' ∷ b'(' ∷ b'w' ∷ b'c' ∷ 32 ∷ b'-' ∷ b'l' ∷ b';' ∷ b'p' ∷ b's'
    ∷ b'&' ∷ b')' ∷ 10 ∷ []

abbrev wc_part : Cmd
wc_part =
    list (exec ((b'w' ∷ b'c' ∷ []) ∷ (b'-' ∷ b'l' ∷ []) ∷ []))
      (back (exec ((b'p' ∷ b's' ∷ []) ∷ [])))

abbrev command : Cmd
command = pipe (redir (exec ((b'l' ∷ b's' ∷ []) ∷ [])) (b'o' ∷ []) 513 1) wc_part

parsed_line : parsecmd line ≡ done command
unfolding parsecmd parseline parsepipe parseexec pipe_rest line_rest close_block parseredirs
    redirs_loop args_loop back_loop add_argument gettoken token_at peek skip_whitespace span_word
    is_whitespace is_symbol
parsed_line = refl

-- a) and nothing else
stray_parenthesis : parsecmd (b'a' ∷ b')' ∷ []) ≡ panic
unfolding parsecmd parseline parsepipe parseexec pipe_rest line_rest close_block parseredirs
    redirs_loop args_loop back_loop add_argument gettoken token_at peek skip_whitespace span_word
    is_whitespace is_symbol
stray_parenthesis = refl

parsecmd-ne-hang_example : parsecmd line ≢ hang
parsecmd-ne-hang_example = parsecmd-ne-hang line

command-IsCommand : IsCommand command
unfolding is_whitespace is_symbol
command-IsCommand = ground arith

parsecmd-text_example : parsecmd (text command in_line []) ≡ done command
parsecmd-text_example = parsecmd-text command command-IsCommand

-- ===== src/Shell/RoundTrip.antt =====
-- A printed command is read back.
use uw_cse451_operating_syst.Base.{ℕ, ◌+◌, ◌*◌, ◌≡◌, refl, ap, List, [], arith, length}
use mathlib.Core.Path.{subst}
use uw_cse451_operating_syst.Base.Outcome.{done, ◌>>=◌}
use uw_cse451_operating_syst.Shell.{
  Cmd, exec, redir, pipe, list, back, skip_whitespace, finish, peek, parsecmd,
}
use uw_cse451_operating_syst.Shell.Print.{
  Place, in_exec, in_pipe, in_back, in_line, text, IsCommand, text-skip, text-longer,
}
use uw_cse451_operating_syst.Shell.Places.{
  IsText, ReadsExec, ReadsPipe, ReadsBack, ReadsLine, exec-ReadsExec, redir-ReadsExec,
  block-ReadsExec,
}
use uw_cse451_operating_syst.Shell.Joined.{
  exec-ReadsPipe, pipe-ReadsPipe, pipe-ReadsBack, back-ReadsBack, back-ReadsLine, list-ReadsLine,
}

-- Each routine reads the text that is meant for it.
record Reads (c : Cmd) : Type 0 where
  by_exec : ReadsExec (text c in_exec) c
  by_pipe : ReadsPipe (text c in_pipe) c
  by_back : ReadsBack (text c in_back) c
  by_line : ReadsLine (text c in_line) c

text-IsText : (c : Cmd) (p : Place) → IsCommand c → IsText (text c p)
text-IsText c p w = record { clean = λ s h. text-skip c p s w h; longer = λ s. text-longer c p s }

-- A simple command has the same text everywhere.
simple-Reads :
    (c : Cmd) (f : List ℕ → List ℕ)
    → f ≡ text c in_exec
    → f ≡ text c in_pipe
    → f ≡ text c in_back
    → f ≡ text c in_line
    → ReadsExec f c
    → Reads c
simple-Reads c f a b d e r =
    let p = exec-ReadsPipe f c r in
    let k = pipe-ReadsBack f c p in
    record {
      by_exec = subst (λ g. ReadsExec g c) a r;
      by_pipe = subst (λ g. ReadsPipe g c) b p;
      by_back = subst (λ g. ReadsBack g c) d k;
      by_line = subst (λ g. ReadsLine g c) e (back-ReadsLine f c k);
    }

Reads-text : (c : Cmd) → IsCommand c → Reads c
unfolding text
Reads-text (exec argv) w =
    simple-Reads (exec argv) (text (exec argv) in_exec) refl refl refl refl
      (exec-ReadsExec argv w.0 w.1)
Reads-text (redir c file mode fd) w =
    let r = Reads-text c w.0 in
    simple-Reads (redir c file mode fd) (text (redir c file mode fd) in_exec) refl refl refl refl
      (redir-ReadsExec (text c in_exec) c file mode fd w.1 w.2 r.by_exec)
Reads-text (pipe c d) w =
    let r = Reads-text c w.0 in
    let q = Reads-text d w.1 in
    let both =
      pipe-ReadsPipe (text c in_exec) (text d in_pipe) c d (text-IsText c in_exec w.0)
        (text-IsText d in_pipe w.1) r.by_exec q.by_pipe in
    let backs = pipe-ReadsBack (text (pipe c d) in_pipe) (pipe c d) both in
    let line = back-ReadsLine (text (pipe c d) in_back) (pipe c d) backs in
    record {
      by_exec =
          block-ReadsExec (text (pipe c d) in_line) (pipe c d) refl
            (text-IsText (pipe c d) in_line w) line;
      by_pipe = both;
      by_back = backs;
      by_line = line;
    }
Reads-text (back c) w =
    let r = Reads-text c w in
    let backs = back-ReadsBack (text c in_back) c r.by_back in
    let line = back-ReadsLine (text (back c) in_back) (back c) backs in
    let block =
      block-ReadsExec (text (back c) in_line) (back c) refl (text-IsText (back c) in_line w) line in
    record {
      by_exec = block;
      by_pipe = exec-ReadsPipe (text (back c) in_exec) (back c) block;
      by_back = backs;
      by_line = line;
    }
Reads-text (list c d) w =
    let r = Reads-text c w.0 in
    let q = Reads-text d w.1 in
    let line =
      list-ReadsLine (text c in_back) (text d in_line) c d (text-IsText c in_back w.0)
        (text-IsText d in_line w.1) r.by_back q.by_line in
    let block =
      block-ReadsExec (text (list c d) in_line) (list c d) refl (text-IsText (list c d) in_line w)
        line in
    let piped = exec-ReadsPipe (text (list c d) in_exec) (list c d) block in
    record {
      by_exec = block;
      by_pipe = piped;
      by_back = pipe-ReadsBack (text (list c d) in_pipe) (list c d) piped;
      by_line = line;
    }

-- `parsecmd` reads back every command that it can build, from a text with a blank behind every token: pipes, lists,
-- commands in the background and redirections, at any depth of parentheses. The words of the command have no white
-- space and no symbols, no simple command has more than nine arguments, and redirections are < and >.
pub parsecmd-text : (c : Cmd) → IsCommand c → parsecmd (text c in_line []) ≡ done c
unfolding parsecmd peek skip_whitespace
parsecmd-text c w =
    let s = text c in_line [] in
    ap (λ p. p >>= (λ (d, s1). finish d (peek [] s1).1))
      ((Reads-text c w).by_line (3 * length s + 3) [] refl (omega arith))

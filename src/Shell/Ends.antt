-- ===== src/Shell/Ends.antt =====
-- The parser always ends: the fuel that `parsecmd` gives is enough for every text.
use uw_cse451_operating_syst.Base.{
  ℕ, zero, suc, ◌+◌, ◌*◌, ◌≤◌, ◌<◌, ◌≢◌, inl, inr, List, [], ◌∷◌, arith, ◌==◌, leb, length,
  Bool-cases,
}
use uw_cse451_operating_syst.Base.Outcome.{done, panic, hang, ◌>>=◌}
use uw_cse451_operating_syst.Shell.{
  Cmd, exec, back, Parse, gettoken, peek, redirect, redirs_loop, parseredirs, add_argument,
  args_loop, finish, pipe_rest, back_rest, line_rest, back_loop, close_block, parseline, parsepipe,
  parseexec, parsecmd,
}
use uw_cse451_operating_syst.Shell.Tokens.{
  gettoken-le, gettoken-shorter, gettoken-shorter_peek, peek-le,
}

-- The parser comes back, and what it leaves is at most `n` bytes long.
abbrev pub Ends : (n : ℕ) → Parse → Type 0
Ends n (done (c, s)) = length s ≤ n
Ends n panic = Unit {0}
Ends n hang = ⊥

Ends-bind :
    (m k : ℕ) (p : Parse) (f : Cmd × List ℕ → Parse)
    → Ends m p
    → ((c : Cmd) (s : List ℕ) → length s ≤ m → Ends k (f (c, s)))
    → Ends k (p >>= f)
Ends-bind m k (done (c, s)) f e h = h c s e
Ends-bind m k panic f e h = e
Ends-bind m k hang f e h = e

Ends-weaken : (m k : ℕ) (p : Parse) → m ≤ k → Ends m p → Ends k p
Ends-weaken m k (done (c, s)) h e = omega (arith, h, e)
Ends-weaken m k panic h e = e
Ends-weaken m k hang h e = e

redirs_loop-Ends :
    (n : ℕ) (c : Cmd) (s : List ℕ) → length s < n → Ends (length s) (redirs_loop n c s)
unfolding redirs_loop
redirs_loop-Ends zero c s h = absurd (omega arith)
redirs_loop-Ends (suc n) c s h = elim (Bool-cases (peek (60 ∷ 62 ∷ []) s).0) [
  | inr e ↦ rw (redirs_loop, e) (peek-le s (60 ∷ 62 ∷ []))
  | inl e ↦
      let tok = gettoken s in
      let file = gettoken tok.rest in
      let a = gettoken-shorter_peek s (60 ∷ 62 ∷ []) e in
      let b = gettoken-le tok.rest in
      elim (Bool-cases (file.kind == 97)) [
        | inr p ↦ rw (redirs_loop, e, p) tt
        | inl p ↦
            rw (redirs_loop, e, p)
              (Ends-weaken (length file.rest) (length s) _ (omega (arith, a, b)) (
                redirs_loop-Ends n (redirect c tok.kind file.text) file.rest (omega (arith, a, b))))
      ]
]

pub parseredirs-Ends : (c : Cmd) (s : List ℕ) → Ends (length s) (parseredirs c s)
unfolding parseredirs
parseredirs-Ends c s = redirs_loop-Ends (length s + 1) c s (omega arith)

args_loop-Ends :
    (n argc : ℕ) (c : Cmd) (s : List ℕ) → length s < n → Ends (length s) (args_loop n argc c s)
unfolding args_loop
args_loop-Ends zero argc c s h = absurd (omega arith)
args_loop-Ends (suc n) argc c s h =
    let tok = gettoken s in
    elim (Bool-cases (peek (124 ∷ 41 ∷ 38 ∷ 59 ∷ []) s).0) [
      | inl e ↦ rw (args_loop, e) (peek-le s (124 ∷ 41 ∷ 38 ∷ 59 ∷ []))
      | inr e ↦ elim (Bool-cases (tok.kind == 0)) [
        | inl z ↦ rw (args_loop, e, z) (gettoken-le s)
        | inr z ↦ elim (Bool-cases (tok.kind == 97)) [
          | inr w ↦ rw (args_loop, e, z, w) tt
          | inl w ↦ elim (Bool-cases (leb 10 (argc + 1))) [
            | inl many ↦ rw (args_loop, e, z, w, many) tt
            | inr few ↦
                let a = gettoken-shorter s z in
                rw (args_loop, e, z, w, few)
                  (Ends-bind (length tok.rest) (length s)
                    (parseredirs (add_argument c tok.text) tok.rest) _
                    (parseredirs-Ends (add_argument c tok.text) tok.rest)
                    (λ c1 s1 b.
                      Ends-weaken (length s1) (length s) _ (omega (arith, a, b))
                        (args_loop-Ends n (argc + 1) c1 s1 (omega (arith, a, b)))))
          ]
        ]
      ]
    ]

back_loop-Ends : (n : ℕ) (c : Cmd) (s : List ℕ) → length s < n → Ends (length s) (back_loop n c s)
unfolding back_loop
back_loop-Ends zero c s h = absurd (omega arith)
back_loop-Ends (suc n) c s h = elim (Bool-cases (peek (38 ∷ []) s).0) [
  | inr e ↦ rw (back_loop, e) (peek-le s (38 ∷ []))
  | inl e ↦
      let a = gettoken-shorter_peek s (38 ∷ []) e in
      rw (back_loop, e)
        (Ends-weaken (length (gettoken s).rest) (length s) _ (omega (arith, a))
          (back_loop-Ends n (back c) (gettoken s).rest (omega (arith, a))))
]

close_block-Ends : (c : Cmd) (s : List ℕ) → Ends (length s) (close_block c s)
unfolding close_block
close_block-Ends c s = elim (Bool-cases (peek (41 ∷ []) s).0) [
  | inr e ↦ rw (close_block, e) tt
  | inl e ↦
      rw (close_block, e)
        (Ends-weaken (length (gettoken s).rest) (length s) _ (gettoken-le s)
          (parseredirs-Ends c (gettoken s).rest))
]

line_rest-Ends :
    (n : ℕ) (next : List ℕ → Parse) (c : Cmd) (s : List ℕ)
    → length s ≤ n
    → ((r : List ℕ) → length r < n → Ends (length r) (next r))
    → Ends n (line_rest next (c, s))
unfolding line_rest
line_rest-Ends n next c s b h = elim (Bool-cases (peek (59 ∷ []) s).0) [
  | inr e ↦ rw (line_rest, e) (omega (arith, b, peek-le s (59 ∷ [])))
  | inl e ↦
      let d = gettoken-shorter_peek s (59 ∷ []) e in
      rw (line_rest, e)
        (Ends-bind (length (gettoken s).rest) n (next (gettoken s).rest) _
          (h (gettoken s).rest (omega (arith, b, d))) (λ c3 s3 l. omega (arith, l, b, d)))
]

pipe_rest-Ends :
    (n : ℕ) (next : List ℕ → Parse) (c : Cmd) (s : List ℕ)
    → length s ≤ n
    → ((r : List ℕ) → length r < n → Ends (length r) (next r))
    → Ends n (pipe_rest next (c, s))
unfolding pipe_rest
pipe_rest-Ends n next c s b h = elim (Bool-cases (peek (124 ∷ []) s).0) [
  | inr e ↦ rw (pipe_rest, e) (omega (arith, b, peek-le s (124 ∷ [])))
  | inl e ↦
      let d = gettoken-shorter_peek s (124 ∷ []) e in
      rw (pipe_rest, e)
        (Ends-bind (length (gettoken s).rest) n (next (gettoken s).rest) _
          (h (gettoken s).rest (omega (arith, b, d))) (λ c3 s3 l. omega (arith, l, b, d)))
]

mutual
  unfolding parseline parsepipe parseexec

  parseline-Ends : (n : ℕ) (s : List ℕ) → 3 * length s + 2 < n → Ends (length s) (parseline n s)
  parseline-Ends zero s h = absurd (omega arith)
  parseline-Ends (suc n) s h =
      Ends-bind (length s) (length s) (parsepipe n s >>= back_rest) _
        (Ends-bind (length s) (length s) (parsepipe n s) _ (parsepipe-Ends n s (omega arith))
          (λ c s1 a.
            Ends-weaken (length s1) (length s) _ a
              (back_loop-Ends (length s1 + 1) c s1 (omega arith))))
        (λ c s1 a.
          line_rest-Ends (length s) (parseline n) c s1 a
            (λ r l. parseline-Ends n r (omega (arith, l))))

  parsepipe-Ends : (n : ℕ) (s : List ℕ) → 3 * length s + 1 < n → Ends (length s) (parsepipe n s)
  parsepipe-Ends zero s h = absurd (omega arith)
  parsepipe-Ends (suc n) s h =
      Ends-bind (length s) (length s) (parseexec n s) _ (parseexec-Ends n s (omega arith))
        (λ c s1 a.
          pipe_rest-Ends (length s) (parsepipe n) c s1 a
            (λ r l. parsepipe-Ends n r (omega (arith, l))))

  parseexec-Ends : (n : ℕ) (s : List ℕ) → 3 * length s < n → Ends (length s) (parseexec n s)
  parseexec-Ends zero s h = absurd (omega arith)
  parseexec-Ends (suc n) s h = elim (Bool-cases (peek (40 ∷ []) s).0) [
    | inl e ↦
        let d = gettoken-shorter_peek s (40 ∷ []) e in
        rw (parseexec, e)
          (Ends-bind (length (gettoken s).rest) (length s) (parseline n (gettoken s).rest) _
            (parseline-Ends n (gettoken s).rest (omega (arith, d)))
            (λ c s1 l.
              Ends-weaken (length s1) (length s) _ (omega (arith, l, d)) (close_block-Ends c s1)))
    | inr e ↦
        let p = peek-le s (40 ∷ []) in
        rw (parseexec, e)
          (Ends-bind (length (peek (40 ∷ []) s).1) (length s)
            (parseredirs (exec []) (peek (40 ∷ []) s).1) _
            (parseredirs-Ends (exec []) (peek (40 ∷ []) s).1)
            (λ c s1 l.
              Ends-weaken (length s1) (length s) _ (omega (arith, l, p))
                (args_loop-Ends (length s1 + 1) 0 c s1 (omega arith))))
  ]

finish-ne-hang : (c : Cmd) (s : List ℕ) → finish c s ≢ hang
finish-ne-hang c [] h = cc h
finish-ne-hang c (x ∷ s) h = cc h

Ends-finish : (n : ℕ) (p : Parse) → Ends n p → (p >>= (λ (c, s1). finish c (peek [] s1).1)) ≢ hang
Ends-finish n (done (c, s)) e h = finish-ne-hang c (peek [] s).1 h
Ends-finish n panic e h = cc h
Ends-finish n hang e h = e

-- `parsecmd` ends on every text: it returns a command, or stops with a message, and the fuel of the model never
-- runs out.
pub parsecmd-ne-hang : (s : List ℕ) → parsecmd s ≢ hang
unfolding parsecmd
parsecmd-ne-hang s =
    Ends-finish (length s) (parseline (3 * length s + 3) s)
      (parseline-Ends (3 * length s + 3) s (omega arith))

-- ===== src/Pipe/Transfer.antt =====
-- Bytes come out of a pipe in the order in which they went in.
use uw_cse451_operating_syst.Base.{
  ◌∙◌, sym, length-append, ap, drop, arith, ◌++◌, [], take, some, ◌≤◌, ◌^◌, ◌+◌, length, ◌<◌, ◌≢◌,
  false, ◌≡◌, List, ℕ,
}
use uw_cse451_operating_syst.Pipe.Contents.{IsPipe, contents}
use uw_cse451_operating_syst.Pipe.Write.{buffer_full, pipe_write-Wrote, all_in, Wrote, Appended}
use uw_cse451_operating_syst.Pipe.{Stop, read_done, pipe_read, read_end, returned, pipe_write, Pipe}
use uw_cse451_operating_syst.Base.Outcome.{done}
use uw_cse451_operating_syst.Pipe.Read.{pipe_read_lem}

-- A write that has room does not sleep.
write_runs :
    (vs : List ℕ) (p : Pipe) (st : Stop (List ℕ))
    → IsPipe p
    → Wrote p vs 0 st
    → 0 < length vs
    → p.tail + length vs ≤ p.head + 2048
    → (q : Pipe) × (st ≡ returned (some (length vs)) (some read_end) q) × Appended p vs q
write_runs vs p st k (all_in {n} {q} e a) h room =
    let e' : n ≡ length vs = omega arith in (q, ap (λ x. returned (some x) (some read_end) q) e', a)
write_runs vs p st k (buffer_full {q} front {rest} split left e a u) h room = absurd (
    omega (
      arith,
      ap length split,
      length-append front rest,
      left,
      u,
      a.head,
      a.tail,
      a.valid.ordered,
      a.valid.small,
    ))

Appended-ne_nil : (p q : Pipe) (vs : List ℕ) → Appended p vs q → 0 < length vs → contents q ≢ []
Appended-ne_nil p q vs a h e =
    omega (arith, length-append (contents p) vs, ap length (sym a.bytes ∙ e))

-- A write of at least one byte for which the pipe has room, followed by a read of `n` bytes: neither
-- sleeps, the writer gets the number of its bytes, the reader gets the first `n` of what the pipe held
-- followed by what was written, and the pipe keeps the rest. The lock is free, the file is open more
-- than once (its reference count is not 1), and with the write fewer than 2^31 bytes have gone through
-- the pipe since it was made, as `head` and `tail` are `int`s that nothing sets back.
pub read-write :
    (ref n : ℕ) (vs : List ℕ) (p : Pipe)
    → p.locked ≡ false
    → ref ≢ 1
    → IsPipe p
    → 0 < length vs
    → p.tail + length vs < 2 ^ 31
    → p.tail + length vs ≤ p.head + 2048
    → (q r : Pipe) × (pipe_write ref vs 0 p ≡ done (returned (some (length vs)) (some read_end) q))
      × (pipe_read ref q.read_fd false n q ≡ done (read_done (take n (contents p ++ vs)) r))
      × (contents r ≡ drop n (contents p ++ vs))
      × IsPipe r
read-write ref n vs p free two k some_bytes small room =
    let (st, e, w) = pipe_write-Wrote ref vs 0 p free two k small in
    let (q, e', a) = write_runs vs p st k w some_bytes room in
    let more : contents q ≢ [] = λ h. Appended-ne_nil p q vs a some_bytes h in
    let (r, e'', d, _) = (pipe_read_lem ref n q a.unlocked a.valid).1 more in
    (q, r, e ∙ ap done e', rw a.bytes at e'', rw a.bytes at d.bytes, d.valid)

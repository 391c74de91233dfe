-- ===== src/Pipe/Read.antt =====
-- `fileread` on a pipe takes bytes from the front of what the pipe holds.
use uw_cse451_operating_syst.Base.{
  if◌then◌else◌, ◌≢◌, ap, take, ◌∙◌, inr, inl, ◌+◌, Bool-cases, ◌++◌, refl, ◌∷◌, zero, ◌-◌, ◌%◌,
  some, arith, suc, true, false, ◌==◌, ◌≡◌, List, [], drop, ℕ,
}
use uw_cse451_operating_syst.Pipe.Contents.{ring, IsPipe, contents}
use mathlib.Core.List.{append_assoc, append-nil}
use uw_cse451_operating_syst.Pipe.{
  finish_read, read_done, read_asleep, read_end_of_file, pipe_read, unlock, increment, read_loop,
  Pipe,
}
use uw_cse451_operating_syst.Base.Outcome.{done}

-- `q` is `p` with its first `n` bytes taken out, or all if it has fewer.
pub record Drained (p : Pipe) (n : ℕ) (q : Pipe) : Type 0 where
  pub bytes : contents q ≡ drop n (contents p)
  pub valid : IsPipe q
  pub tail : q.tail ≡ p.tail

abbrev advance : Pipe → Pipe
advance p = record p { head = increment p.head }

advance-IsPipe : (p : Pipe) → IsPipe p → (p.head == p.tail) ≡ false → IsPipe (advance p)
advance-IsPipe p k more = record {
  ordered = ground (arith, k.ordered, k.small, more);
  bounded = ground (arith, k.ordered, k.bounded, k.small, more);
  small = k.small;
}

ring_step :
    (buf : ℕ → ℕ) (h h' c d : ℕ)
    → d ≡ suc c
    → h + 1 ≡ h'
    → ring buf h d ≡ buf (h % 2048) ∷ ring buf h' c
unfolding ring
ring_step buf h h' c d e e' = rw (e, ← e')

contents-advance :
    (p : Pipe)
    → IsPipe p
    → (p.head == p.tail) ≡ false
    → contents p ≡ p.buf (p.head % 2048) ∷ contents (advance p)
unfolding contents
contents-advance p k more =
    ring_step p.buf p.head (increment p.head) (p.tail - increment p.head) (p.tail - p.head)
      (ground (arith, k.ordered, k.small, more)) (ground (arith, k.ordered, k.small, more))

contents-empty : (p : Pipe) → (p.head == p.tail) ≡ true → contents p ≡ []
unfolding contents ring
contents-empty p h = let e : p.tail - p.head ≡ 0 = ground arith in rw e

take-nil {ℓ} : {A : Type ℓ} (n : ℕ) → take {A = A} n [] ≡ []
take-nil zero = refl
take-nil (suc n) = refl

drop-nil {ℓ} : {A : Type ℓ} (n : ℕ) → drop {A = A} n [] ≡ []
drop-nil zero = refl
drop-nil (suc n) = refl

read_loop_lem :
    (n : ℕ) (out : List ℕ) (p : Pipe)
    → IsPipe p
    → (q : Pipe) × (read_loop false n out p ≡ (some (out ++ take n (contents p)), q))
      × Drained p n q
unfolding read_loop
read_loop_lem zero out p k =
    (p, rw (append-nil out), record { bytes = refl; valid = k; tail = refl })
read_loop_lem (suc n) out p k = elim (Bool-cases (p.head == p.tail)) [
  | inl end ↦
      let e = contents-empty p end in
      (p, rw (end, e, append-nil out), record { bytes = rw e; valid = k; tail = refl })
  | inr more ↦
      let (q, e, d) =
        read_loop_lem n (out ++ p.buf (p.head % 2048) ∷ []) (advance p) (advance-IsPipe p k more) in
      let c = contents-advance p k more in
      (
        q,
        rw (more, c)
            (e
              ∙ ap (λ r. (some r, q))
                  (append_assoc out (p.buf (p.head % 2048) ∷ []) (take n (contents (advance p))))),
        record { bytes = rw c d.bytes; valid = d.valid; tail = d.tail },
      )
]

empty-contents : (p : Pipe) → IsPipe p → contents p ≡ [] → (p.head == p.tail) ≡ true
empty-contents p k h = elim (Bool-cases (p.head == p.tail)) [
  | inl e ↦ e
  | inr more ↦ cc (contents-advance p k more)
]

contents-more : (p : Pipe) → contents p ≢ [] → (p.head == p.tail) ≡ false
contents-more p h = elim (Bool-cases (p.head == p.tail)) [
  | inl e ↦ absurd (h (contents-empty p e))
  | inr more ↦ more
]

pipe_read-some :
    (ref n : ℕ) (p : Pipe) (out : List ℕ) (q : Pipe)
    → p.locked ≡ false
    → (p.head == p.tail) ≡ false
    → read_loop false n [] (record p { locked = true }) ≡ (some out, q)
    → pipe_read ref p.read_fd false n p ≡ done (read_done out (unlock q))
unfolding pipe_read
pipe_read-some ref n p out q free more e =
    let self : (p.read_fd == p.read_fd) ≡ true = ground arith in
    rw (self, free, more, e, finish_read)

Drained-locked :
    (p : Pipe) (n : ℕ) (q : Pipe)
    → Drained (record p { locked = true }) n q
    → Drained p n (unlock q)
unfolding contents
Drained-locked p n q d = record {
  bytes = d.bytes;
  valid = record { ordered = d.valid.ordered; bounded = d.valid.bounded; small = d.valid.small };
  tail = d.tail;
}

-- A read from the pipe's own read descriptor, by a process that is not killed, with the lock free, while
-- fewer than 2^31 bytes have gone into the pipe since it was made and it holds at most 2048 bytes. On an
-- empty pipe it
-- reports the end of the file if nobody else has the pipe open, and sleeps if somebody has; either
-- way the pipe is as before. Otherwise it returns the first `n` bytes in order, or all if there are
-- fewer, leaves the others, and gives the lock back.
pub pipe_read_lem :
    (ref n : ℕ) (p : Pipe)
    → p.locked ≡ false
    → IsPipe p
    → (contents p ≡ []
        → pipe_read ref p.read_fd false n p
          ≡ done (if ref == 1 then read_end_of_file p else read_asleep p))
      × (contents p ≢ []
          → (q : Pipe) × (pipe_read ref p.read_fd false n p
              ≡ done (read_done (take n (contents p)) q))
            × Drained p n q
            × (q.locked ≡ false))
unfolding pipe_read contents
pipe_read_lem ref n p free k = (on_empty, on_bytes)
  where
    on_empty :
        contents p ≡ []
        → pipe_read ref p.read_fd false n p
          ≡ done (if ref == 1 then read_end_of_file p else read_asleep p)
    on_empty none_left =
        let e : (p.head == p.tail) ≡ true = empty-contents p k none_left in ground (arith, e, free)

    on_bytes :
        contents p ≢ []
        → (q : Pipe) × (pipe_read ref p.read_fd false n p
            ≡ done (read_done (take n (contents p)) q))
          × Drained p n q
          × (q.locked ≡ false)
    on_bytes some_left =
        let p' = record p { locked = true } in
        let (q, e, d) =
          read_loop_lem n [] p'
            (record { ordered = k.ordered; bounded = k.bounded; small = k.small }) in
        let more : (p.head == p.tail) ≡ false = contents-more p some_left in
        (
          unlock q,
          pipe_read-some ref n p (take n (contents p)) q free more e,
          Drained-locked p n q d,
          refl,
        )

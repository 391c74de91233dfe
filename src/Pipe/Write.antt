-- ===== src/Pipe/Write.antt =====
-- `filewrite` on a pipe appends to what the pipe holds.
use uw_cse451_operating_syst.Base.{
  inr, inl, Bool-cases, ap, ◌∙◌, ◌∷◌, some, ◌^◌, refl, ◌<◌, arith, length, ◌-◌, ◌+◌, ◌++◌, true,
  false, sym, ◌==◌, ◌≡◌, ◌≢◌, [], List, ℕ,
}
use uw_cse451_operating_syst.Pipe.Contents.{contents-store_byte, IsPipe, contents}
use mathlib.Core.List.{append_assoc, append-nil}
use uw_cse451_operating_syst.Pipe.{
  write_end, asleep, read_end, store_byte, returned, unlock, Stop, used, pipe_write, write_loop,
  Pipe,
}
use uw_cse451_operating_syst.Base.Outcome.{done}

-- `q` is `p` with the bytes `vs` behind its own, and unlocked.
pub record Appended (p : Pipe) (vs : List ℕ) (q : Pipe) : Type 0 where
  pub bytes : contents q ≡ contents p ++ vs
  pub valid : IsPipe q
  pub head : q.head ≡ p.head
  pub tail : q.tail ≡ p.tail + length vs
  pub unlocked : q.locked ≡ false

-- A write from `res` on has put in all of `vs` and reports the count, or it sleeps with a full
-- buffer on what is left of `vs`, having woken the readers.
pub data Wrote (p : Pipe) (vs : List ℕ) (res : ℕ) : Stop (List ℕ) → Type 0 where
  all_in :
      {n : ℕ} {q : Pipe}
      → n ≡ res + length vs
      → Appended p vs q
      → Wrote p vs res (returned (some n) (some read_end) q)
  buffer_full :
      {n : ℕ} {q : Pipe} (front : List ℕ) {rest : List ℕ}
      → vs ≡ front ++ rest
      → 0 < length rest
      → n ≡ res + length front
      → Appended p front q
      → used q ≡ 2048
      → Wrote p vs res (asleep rest n write_end read_end q)

used-IsPipe : {p : Pipe} → IsPipe p → used p ≡ p.tail - p.head
used-IsPipe k = omega (arith, k.ordered, k.small)

unlock-Appended : (p : Pipe) → IsPipe p → Appended p [] (unlock p)
unfolding contents
unlock-Appended p k = record {
  bytes = sym (append-nil (contents p));
  valid = record { ordered = k.ordered; bounded = k.bounded; small = k.small };
  head = refl;
  tail = omega arith;
  unlocked = refl;
}

store_byte-IsPipe :
    (p : Pipe) (v : ℕ)
    → IsPipe p
    → (used p == 2048) ≡ false
    → p.tail + 1 < 2 ^ 31
    → IsPipe (store_byte v p)
store_byte-IsPipe p v k room s = record {
  ordered = omega (arith, k.ordered);
  bounded = ground (arith, k.ordered, k.bounded, k.small, room);
  small = omega arith;
}

Appended-cons :
    (p : Pipe) (v : ℕ) (vs : List ℕ) (q : Pipe)
    → IsPipe p
    → (used p == 2048) ≡ false
    → p.tail + 1 < 2 ^ 31
    → Appended (store_byte v p) vs q
    → Appended p (v ∷ vs) q
Appended-cons p v vs q k room s a = record {
  bytes =
      a.bytes
      ∙ ap (λ r. r ++ vs)
          (contents-store_byte p v k (ground (arith, k.ordered, k.bounded, k.small, room)) s)
      ∙ append_assoc (contents p) (v ∷ []) vs;
  valid = a.valid;
  head = a.head;
  tail = omega (arith, a.tail);
  unlocked = a.unlocked;
}

Wrote-cons :
    (p : Pipe) (v : ℕ) (vs : List ℕ) (res : ℕ) (st : Stop (List ℕ))
    → IsPipe p
    → (used p == 2048) ≡ false
    → p.tail + 1 < 2 ^ 31
    → Wrote (store_byte v p) vs (res + 1) st
    → Wrote p (v ∷ vs) res st
Wrote-cons p v vs res st k room s (all_in {q} e a) =
    all_in (omega arith) (Appended-cons p v vs q k room s a)
Wrote-cons p v vs res st k room s (buffer_full {q} front split left e a u) =
    buffer_full (v ∷ front) (ap (λ r. v ∷ r) split) left (omega arith)
      (Appended-cons p v front q k room s a) u

write_loop-Wrote :
    (ref : ℕ) (vs : List ℕ) (res : ℕ) (p : Pipe)
    → ref ≢ 1
    → IsPipe p
    → p.tail + length vs < 2 ^ 31
    → Wrote p vs res (write_loop ref vs res p)
unfolding write_loop
write_loop-Wrote ref [] res p r k s = all_in (omega arith) (unlock-Appended p k)
write_loop-Wrote ref (v ∷ vs) res p r k s = elim (Bool-cases (used p == 2048)) [
  | inl no_room ↦ rw no_room (
      buffer_full [] refl (omega arith) (omega arith) (unlock-Appended p k)
        (ground (arith, no_room)))
  | inr room ↦
      let two : (ref == 1) ≡ false = ground arith in
      rw (room, two)
        (Wrote-cons p v vs res _ k room (omega arith) (
          write_loop-Wrote ref vs (res + 1) (store_byte v p) r
            (store_byte-IsPipe p v k room (omega arith)) (omega arith)))
]

Wrote-locked :
    (p : Pipe) (vs : List ℕ) (res : ℕ) (st : Stop (List ℕ))
    → Wrote (record p { locked = true }) vs res st
    → Wrote p vs res st
unfolding contents
Wrote-locked p vs res st (all_in e a) = all_in e (record {
  bytes = a.bytes;
  valid = a.valid;
  head = a.head;
  tail = a.tail;
  unlocked = a.unlocked;
})
Wrote-locked p vs res st (buffer_full front split left e a u) =
    buffer_full front split left e
      (record {
        bytes = a.bytes;
        valid = a.valid;
        head = a.head;
        tail = a.tail;
        unlocked = a.unlocked;
      })
      u

-- A write to an unlocked pipe that is open more than once (its reference count is not 1), with which
-- fewer than 2^31 bytes have gone into the pipe, always stops: with all bytes appended in order behind
-- what the pipe held, or asleep with exactly a full buffer, the bytes before the rest appended. The
-- lock is free again either way.
pub pipe_write-Wrote :
    (ref : ℕ) (vs : List ℕ) (res : ℕ) (p : Pipe)
    → p.locked ≡ false
    → ref ≢ 1
    → IsPipe p
    → p.tail + length vs < 2 ^ 31
    → (st : Stop (List ℕ)) × (pipe_write ref vs res p ≡ done st) × Wrote p vs res st
unfolding pipe_write contents
pipe_write-Wrote ref vs res p free r k s =
    let p' = record p { locked = true } in
    (
      write_loop ref vs res p',
      rw free,
      Wrote-locked p vs res _ (
          write_loop-Wrote ref vs res p' r
            (record { ordered = k.ordered; bounded = k.bounded; small = k.small }) s),
    )

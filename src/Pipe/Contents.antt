-- ===== src/Pipe/Contents.antt =====
-- The bytes that a pipe holds, as a list, and what one store does to it.
use uw_cse451_operating_syst.Base.{
  refl, ap, zero, ◌∙◌, ◌++◌, ◌∷◌, arith, ◌%◌, ◌≡◌, ◌^◌, ◌-◌, [], ◌+◌, ◌<◌, suc, length, ◌≤◌, List,
  ℕ,
}
use uw_cse451_operating_syst.Pipe.{Pipe, put, increment, store_byte}
use native.Mathlib.Nat.{add-zero}
use mathlib.Core.Path.{ap₂}

-- `c` bytes from position `h` on.
unfoldable pub ring : (ℕ → ℕ) → (h c : ℕ) → List ℕ
ring buf h zero = []
ring buf h (suc c) = buf (h % 2048) ∷ ring buf (h + 1) c

unfoldable pub contents : Pipe → List ℕ
contents p = ring p.buf p.head (p.tail - p.head)

-- The counters are in order, at most a buffer apart, and have not passed the largest `int`: the last is
-- no invariant of the code, but holds until 2^31 bytes have gone into the pipe.
pub record IsPipe (p : Pipe) : Type 0 where
  pub ordered : p.head ≤ p.tail
  pub bounded : p.tail ≤ p.head + 2048
  pub small : p.tail < 2 ^ 31

pub length-ring : (buf : ℕ → ℕ) (h c : ℕ) → length (ring buf h c) ≡ c
unfolding ring
length-ring buf h zero = refl
length-ring buf h (suc c) = omega (arith, length-ring buf (h + 1) c)

-- A store just behind the bytes spares them.
pub ring-put :
    (buf : ℕ → ℕ) (h c t v : ℕ)
    → h + c ≤ t
    → t < h + 2048
    → ring (put buf (t % 2048) v) h c ≡ ring buf h c
unfolding ring
ring-put buf h zero t v a b = refl
ring-put buf h (suc c) t v a b = ground (arith, ring-put buf (h + 1) c t v (omega arith))

pub ring-snoc :
    (buf : ℕ → ℕ) (h c : ℕ) → ring buf h (suc c) ≡ ring buf h c ++ buf ((h + c) % 2048) ∷ []
unfolding ring
ring-snoc buf h zero = rw (add-zero h)
ring-snoc buf h (suc c) =
    let e : h + suc c ≡ h + 1 + c = omega arith in
    rw e (ap (λ r. buf (h % 2048) ∷ r) (ring-snoc buf (h + 1) c))

-- One byte more at the end.
pub ring-store :
    (buf : ℕ → ℕ) (h c t v : ℕ)
    → h + c ≡ t
    → c < 2048
    → ring (put buf (t % 2048) v) h (suc c) ≡ ring buf h c ++ v ∷ []
ring-store buf h c t v e l =
    ring-snoc (put buf (t % 2048) v) h c
    ∙ ap₂ (λ r x. r ++ x ∷ []) (ring-put buf h c t v (omega arith) (omega arith)) (ground arith)

pub contents-store_byte :
    (p : Pipe) (v : ℕ)
    → IsPipe p
    → p.tail < p.head + 2048
    → p.tail + 1 < 2 ^ 31
    → contents (store_byte v p) ≡ contents p ++ v ∷ []
unfolding contents
contents-store_byte p v k room s =
    let e : increment p.tail - p.head ≡ suc (p.tail - p.head) = omega (arith, k.ordered) in
    rw e (
      ring-store p.buf p.head (p.tail - p.head) p.tail v (omega (arith, k.ordered))
        (omega (arith, k.ordered)))

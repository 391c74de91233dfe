-- ===== src/StringC/Terminated.antt =====
-- `strncpy` and `safestrcpy`: bounded copies of strings.
use uw_cse451_operating_syst.Base.{
  ◌-◌, inr, false, inl, ◌==◌, ◌∙◌, Bool-cases, refl, zero, ◌≢◌, arith, suc, ◌≡◌, ◌⊎◌, ◌<◌, ◌≤◌, ◌+◌,
  ℕ,
}
use uw_cse451_operating_syst.StringC.Compare.{NoNul}
use uw_cse451_operating_syst.StringC.{store, Memory, strncpy, zero_fill}
use native.Mathlib.Nat.{add-zero}

zero_fill_outside : (s n : ℕ) (m : Memory) (b : ℕ) → (b < s) ⊎ (s + n ≤ b) → zero_fill s n m b ≡ m b
unfolding zero_fill
zero_fill_outside s zero m b h = refl
zero_fill_outside s (suc n) m b h = ground (arith, zero_fill_outside (s + 1) n (store m s 0) b)

zero_fill_inside : (s n : ℕ) (m : Memory) (i : ℕ) → i < n → zero_fill s n m (s + i) ≡ 0
unfolding zero_fill
zero_fill_inside s zero m i l = absurd (omega arith)
zero_fill_inside s (suc n) m zero l =
    rw (add-zero s) (ground (arith, zero_fill_outside (s + 1) n (store m s 0) s))
zero_fill_inside s (suc n) m (suc i) l =
    let e : s + suc i ≡ s + 1 + i = omega arith in
    rw e (zero_fill_inside (s + 1) n (store m s 0) i (omega arith))

strncpy_outside : (s t n : ℕ) (m : Memory) (b : ℕ) → (b < s) ⊎ (s + n ≤ b) → strncpy s t n m b ≡ m b
unfolding strncpy
strncpy_outside s t zero m b h = refl
strncpy_outside s t (suc n) m b h = ground (
  arith,
  strncpy_outside (s + 1) (t + 1) n (store m s (m t)) b,
  zero_fill_outside (s + 1) n (store m s (m t)) b,
)

-- Source and destination do not overlap.
abbrev pub Apart : ℕ → ℕ → ℕ → Type 0
Apart s t n = (t + n ≤ s) ⊎ (s + n ≤ t)

strncpy_first : (s t n : ℕ) (m : Memory) → strncpy s t (suc n) m s ≡ m t
unfolding strncpy
strncpy_first s t n m = elim (Bool-cases (m t == 0)) [
  | inl end ↦ rw end (ground (arith, zero_fill_outside (s + 1) n (store m s (m t)) s))
  | inr go ↦ rw go (ground (arith, strncpy_outside (s + 1) (t + 1) n (store m s (m t)) s))
]

strncpy_later : (t j : ℕ) (m : Memory) → m (t + j) ≡ 0 → (m t == 0) ≡ false → j ≢ 0
strncpy_later t zero m z go = λ _. cc (rw (add-zero t) at z)
strncpy_later t (suc j) m z go = omega arith

-- The first store of the loop does not touch what is left of the source.
NoNul-store :
    (s t n i : ℕ) (m : Memory)
    → Apart s t (suc n)
    → i < n
    → NoNul m t (suc i)
    → NoNul (store m s (m t)) (t + 1) i
NoNul-store s t n i m a l u j lj =
    let e : t + suc j ≡ t + 1 + j = omega arith in
    let u' : m (t + 1 + j) ≢ 0 = rw e at (u (suc j) (omega arith)) in ground arith

-- Before the first NUL of the source the bytes are the source's, and the NUL is copied too.
strncpy_prefix :
    (s t n : ℕ) (m : Memory)
    → Apart s t n
    → (i : ℕ) → i < n
    → NoNul m t i
    → strncpy s t n m (s + i) ≡ m (t + i)
unfolding strncpy
strncpy_prefix s t zero m a i l u = absurd (omega arith)
strncpy_prefix s t (suc n) m a zero l u = rw (add-zero s, add-zero t) (strncpy_first s t n m)
strncpy_prefix s t (suc n) m a (suc i) l u =
    let e : s + suc i ≡ s + 1 + i = omega arith in
    let e' : t + suc i ≡ t + 1 + i = omega arith in
    let more : m t ≢ 0 = rw (add-zero t) at (u 0 (omega arith)) in
    let go : (m t == 0) ≡ false = ground arith in
    let same : store m s (m t) (t + 1 + i) ≡ m (t + 1 + i) = ground arith in
    rw (e, e', go)
      (strncpy_prefix (s + 1) (t + 1) n (store m s (m t)) (omega arith) i (omega arith)
          (NoNul-store s t n i m a (omega arith) u)
        ∙ same)

-- From the first NUL of the source on, the destination is filled with NULs.
strncpy_pad :
    (s t n : ℕ) (m : Memory)
    → Apart s t n
    → (i j : ℕ) → i < n
    → j ≤ i
    → m (t + j) ≡ 0
    → strncpy s t n m (s + i) ≡ 0
unfolding strncpy
strncpy_pad s t zero m a i j l le z = absurd (omega arith)
strncpy_pad s t (suc n) m a zero j l le z =
    let e : t + j ≡ t = omega arith in rw (add-zero s) (strncpy_first s t n m ∙ (rw e at z))
strncpy_pad s t (suc n) m a (suc i) j l le z =
    let e : s + suc i ≡ s + 1 + i = omega arith in
    elim (Bool-cases (m t == 0)) [
      | inl end ↦ rw (e, end) (zero_fill_inside (s + 1) n (store m s (m t)) i (omega arith))
      | inr go ↦
          let later : j ≢ 0 = strncpy_later t j m z go in
          let e' : t + j ≡ t + 1 + (j - 1) = omega arith in
          let same : store m s (m t) (t + 1 + (j - 1)) ≡ m (t + 1 + (j - 1)) = ground arith in
          rw (e, go)
            (strncpy_pad (s + 1) (t + 1) n (store m s (m t)) (omega arith) i (j - 1) (omega arith)
              (omega arith) (same ∙ (rw e' at z)))
    ]

-- `strncpy` into memory apart from its source copies the string up to its first NUL, fills the rest
-- of the `n` bytes with NULs, and writes nothing else.
pub strncpy_lem :
    (s t n : ℕ) (m : Memory)
    → Apart s t n
    → ((i : ℕ) → i < n → NoNul m t i → strncpy s t n m (s + i) ≡ m (t + i))
      × ((i j : ℕ) → i < n → j ≤ i → m (t + j) ≡ 0 → strncpy s t n m (s + i) ≡ 0)
      × ((b : ℕ) → (b < s) ⊎ (s + n ≤ b) → strncpy s t n m b ≡ m b)
strncpy_lem s t n m a = (strncpy_prefix s t n m a, strncpy_pad s t n m a, strncpy_outside s t n m)

-- ===== src/StringC/Safe.antt =====
-- `safestrcpy` always leaves a terminated string.
use uw_cse451_operating_syst.Base.{
  refl, ◌==◌, inr, zero, inl, ◌∙◌, Bool-cases, ◌≡◌, ◌-◌, ◌+◌, arith, ◌⊎◌, suc, ◌≤◌, ◌<◌, ℕ,
}
use uw_cse451_operating_syst.StringC.Terminated.{Apart}
use uw_cse451_operating_syst.StringC.{store, safestrcpy, Memory, safestrcpy_loop}
use native.Mathlib.Nat.{add-zero}

safestrcpy_loop_outside :
    (s t n : ℕ) (m : Memory) (b : ℕ) → (b < s) ⊎ (s + n < b) → safestrcpy_loop s t n m b ≡ m b
unfolding safestrcpy_loop
safestrcpy_loop_outside s t zero m b h = ground arith
safestrcpy_loop_outside s t (suc n) m b h = elim (Bool-cases (m t == 0)) [
  | inl end ↦ rw end (ground arith)
  | inr go ↦ rw go (ground (arith, safestrcpy_loop_outside (s + 1) (t + 1) n (store m s (m t)) b))
]

-- `m'` holds at `s` a string of `k` bytes taken from `t`, and its NUL.
pub record IsPrefixCopy (m m' : Memory) (s t n k : ℕ) : Type 0 where
  pub fits : k ≤ n
  pub terminated : m' (s + k) ≡ 0
  pub copied : (i : ℕ) → i < k → m' (s + i) ≡ m (t + i)
  pub longest : (k ≡ n) ⊎ (m (t + k) ≡ 0)

IsPrefixCopy-cons :
    (s t n k : ℕ) (m : Memory)
    → Apart s t (suc (suc n))
    → IsPrefixCopy
        (store m s (m t))
        (safestrcpy_loop (s + 1) (t + 1) n (store m s (m t)))
        (s + 1)
        (t + 1)
        n
        k
    → IsPrefixCopy m (safestrcpy_loop (s + 1) (t + 1) n (store m s (m t))) s t (suc n) (suc k)
IsPrefixCopy-cons s t n k m a p = record {
  fits = omega (arith, p.fits);
  terminated = let e : s + suc k ≡ s + 1 + k = omega arith in rw e p.terminated;
  copied = copied;
  longest = elim p.longest [
    | inl full ↦ inl (omega arith)
    | inr end ↦
        let e : t + suc k ≡ t + 1 + k = omega arith in inr (rw e (ground (arith, end, p.fits)))
  ];
}
  where
    m' : Memory
    m' = safestrcpy_loop (s + 1) (t + 1) n (store m s (m t))

    copied : (i : ℕ) → i < suc k → m' (s + i) ≡ m (t + i)
    copied zero l =
        rw (add-zero s, add-zero t)
          (safestrcpy_loop_outside (s + 1) (t + 1) n (store m s (m t)) s (omega arith)
            ∙ ground arith)
    copied (suc i) l =
        let e : s + suc i ≡ s + 1 + i = omega arith in
        let e' : t + suc i ≡ t + 1 + i = omega arith in
        rw (e, e') (p.copied i (omega arith) ∙ ground (arith, p.fits))

safestrcpy_loop_lem :
    (s t n : ℕ) (m : Memory)
    → Apart s t (suc n)
    → (k : ℕ) × IsPrefixCopy m (safestrcpy_loop s t n m) s t n k
unfolding safestrcpy_loop
safestrcpy_loop_lem s t zero m a = (
  0,
  record {
    fits = omega arith;
    terminated = rw (add-zero s) (ground arith);
    copied = λ i l. absurd (omega arith);
    longest = inl refl;
  },
)
safestrcpy_loop_lem s t (suc n) m a = elim (Bool-cases (m t == 0)) [
  | inl end ↦ (
    0,
    record {
      fits = omega arith;
      terminated = rw (add-zero s, end) (ground arith);
      copied = λ i l. absurd (omega arith);
      longest = inr (rw (add-zero t) (ground arith));
    },
  )
  | inr go ↦
      let (k, p) = safestrcpy_loop_lem (s + 1) (t + 1) n (store m s (m t)) (omega arith) in
      (suc k, rw go (IsPrefixCopy-cons s t n k m a p))
]

-- `safestrcpy` with room for at least one byte leaves a terminated string: the source up to its
-- first NUL, or as much of it as fits before the last byte. It writes nothing outside the `n` bytes.
pub safestrcpy_lem :
    (s t n : ℕ) (m : Memory)
    → 0 < n
    → Apart s t n
    → ((k : ℕ) × IsPrefixCopy m (safestrcpy s t n m) s t (n - 1) k)
      × ((b : ℕ) → (b < s) ⊎ (s + n ≤ b) → safestrcpy s t n m b ≡ m b)
unfolding safestrcpy
safestrcpy_lem s t zero m h a = absurd (omega arith)
safestrcpy_lem s t (suc n) m h a =
    let e : suc n - 1 ≡ n = omega arith in
    (rw e (safestrcpy_loop_lem s t n m a), λ b o. safestrcpy_loop_outside s t n m b (omega arith))

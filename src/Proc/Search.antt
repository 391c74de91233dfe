-- ===== src/Proc/Search.antt =====
-- What the searches of the table find.
use uw_cse451_operating_syst.Base.{
  ℕ, zero, suc, ◌+◌, ◌≤◌, ◌<◌, ◌≡◌, inl, inr, Bool, true, false, none, some, arith, Bool-cases,
  Option-cases, ℕ-cases,
}
use uw_cse451_operating_syst.Proc.{Proc, find_from}

-- The first entry from `i` on that passes the test.
pub record First (test : Proc → Bool) (f : ℕ → Proc) (n i j : ℕ) : Type 0 where
  pub from_start : i ≤ j
  pub in_table : j < i + n
  pub passes : test (f j) ≡ true
  pub first : (m : ℕ) → i ≤ m → m < j → test (f m) ≡ false

First-step :
    {test : Proc → Bool} {f : ℕ → Proc} {n i j : ℕ}
    → test (f i) ≡ false
    → First test f n (i + 1) j
    → First test f (suc n) i j
First-step {test} {f} {n} {i} {j} miss r = record {
  from_start = omega (arith, r.from_start);
  in_table = omega (arith, r.in_table);
  passes = r.passes;
  first = low;
}
  where
    low : (m : ℕ) → i ≤ m → m < j → test (f m) ≡ false
    low m a b = elim (ℕ-cases i m) [
      | inl here ↦ rw (← here) miss
      | inr later ↦ r.first m (ground arith) b
    ]

pub find_from-some :
    (test : Proc → Bool) (f : ℕ → Proc) (n i : ℕ) {j : ℕ}
    → find_from test f n i ≡ some j
    → First test f n i j
unfolding find_from
find_from-some test f zero i h = absurd (cc)
find_from-some test f (suc n) i {j} h = elim (Bool-cases (test (f i))) [
  | inl hit ↦
      let e : i ≡ j = ground (arith, rw hit at h) in
      record {
        from_start = omega arith;
        in_table = omega arith;
        passes = rw (← e) hit;
        first = λ m a b. absurd (omega arith);
      }
  | inr miss ↦ First-step miss (find_from-some test f n (i + 1) (rw miss at h))
]

pub find_from-none :
    (test : Proc → Bool) (f : ℕ → Proc) (n i : ℕ)
    → find_from test f n i ≡ none
    → (m : ℕ) → i ≤ m
    → m < i + n
    → test (f m) ≡ false
unfolding find_from
find_from-none test f zero i h m a b = absurd (omega arith)
find_from-none test f (suc n) i h m a b = elim (Bool-cases (test (f i))) [
  | inl hit ↦ cc (rw hit at h)
  | inr miss ↦
      let more : find_from test f n (i + 1) ≡ none = rw miss at h in
      elim (ℕ-cases i m) [
        | inl here ↦ rw (← here) miss
        | inr later ↦ find_from-none test f n (i + 1) more m (ground arith) (omega arith)
      ]
]

-- A search of the whole table finds nothing only if nothing passes.
pub find_from-found :
    (test : Proc → Bool) (f : ℕ → Proc) (n : ℕ) (m : ℕ)
    → m < n
    → test (f m) ≡ true
    → (j : ℕ) × (find_from test f n 0 ≡ some j) × First test f n 0 j
find_from-found test f n m l h = elim (Option-cases (find_from test f n 0)) [
  | inl e ↦ cc (find_from-none test f n 0 e m (omega arith) (omega arith), h)
  | inr (j, e) ↦ (j, e, find_from-some test f n 0 e)
]

-- ===== src/StringC/Fill.antt =====
-- `memset`, whichever of its two loops it takes.
use uw_cse451_operating_syst.Base.{
  inr, inl, ◌&&◌, ◌==◌, refl, ◌-◌, zero, Bool-cases, ◌^◌, ◌≤◌, ◌*◌, ◌/◌, suc, arith, ◌⊎◌, ◌+◌, ◌≡◌,
  ◌<◌, ◌%◌, ℕ,
}
use uw_cse451_operating_syst.StringC.{store, store_word, memset, Memory, stosl, stosb}
use native.Mathlib.Nat.{add-zero}
use native.Mathlib.Decide.{dec_lt}

stosb_outside : (a c n : ℕ) (m : Memory) (b : ℕ) → (b < a) ⊎ (a + n ≤ b) → stosb a c n m b ≡ m b
unfolding stosb
stosb_outside a c zero m b h = refl
stosb_outside a c (suc n) m b h = ground (arith, stosb_outside (a + 1) c n (store m a (c % 256)) b)

stosb_inside : (a c n : ℕ) (m : Memory) (i : ℕ) → i < n → stosb a c n m (a + i) ≡ c % 256
unfolding stosb
stosb_inside a c zero m i l = absurd (omega arith)
stosb_inside a c (suc n) m zero l =
    rw (add-zero a) (ground (arith, stosb_outside (a + 1) c n (store m a (c % 256)) a))
stosb_inside a c (suc n) m (suc i) l =
    let e : a + suc i ≡ a + 1 + i = omega arith in
    rw e (stosb_inside (a + 1) c n (store m a (c % 256)) i (omega arith))

stosl_outside : (a w n : ℕ) (m : Memory) (b : ℕ) → (b < a) ⊎ (a + n * 4 ≤ b) → stosl a w n m b ≡ m b
unfolding stosl
stosl_outside a w zero m b h = refl
stosl_outside a w (suc n) m b h = ground (arith, stosl_outside (a + 4) w n (store_word a w m) b)

-- The four bytes of a word are one byte repeated.
abbrev Repeats : ℕ → ℕ → Type 0
Repeats w c =
    (w % 256 ≡ c) × (w / 2 ^ 8 % 256 ≡ c) × (w / 2 ^ 16 % 256 ≡ c) × (w / 2 ^ 24 % 256 ≡ c)

stosl_first :
    (a w c n : ℕ) (m : Memory) (i : ℕ) → Repeats w c → i < 4 → stosl a w (suc n) m (a + i) ≡ c
unfolding stosl
stosl_first a w c n m i r l = ground (arith, stosl_outside (a + 4) w n (store_word a w m) (a + i))

stosl_step :
    (a w c n : ℕ) (m : Memory) (i : ℕ)
    → stosl (a + 4) w n (store_word a w m) (a + 4 + i) ≡ c
    → stosl a w (suc n) m (a + 4 + i) ≡ c
unfolding stosl
stosl_step a w c n m i h = h

stosl_inside :
    (a w c n : ℕ) (m : Memory) (i : ℕ) → Repeats w c → i < n * 4 → stosl a w n m (a + i) ≡ c
stosl_inside a w c zero m i r l = absurd (omega arith)
stosl_inside a w c (suc n) m i r l = elim (dec_lt i 4) [
  | yes first ↦ stosl_first a w c n m i r first
  | no later ↦
      let e : a + i ≡ a + 4 + (i - 4) = omega arith in
      rw e (
        stosl_step a w c n m (i - 4)
          (stosl_inside (a + 4) w c n (store_word a w m) (i - 4) r (omega arith)))
]

-- `memset` sets every byte of the range to the low byte of `c`, in words or in bytes, and writes
-- nothing outside it.
pub memset_lem :
    (dst c n : ℕ) (m : Memory)
    → ((i : ℕ) → i < n → memset dst c n m (dst + i) ≡ c % 256)
      × ((b : ℕ) → (b < dst) ⊎ (dst + n ≤ b) → memset dst c n m b ≡ m b)
unfolding memset
memset_lem dst c n m = (inside, outside)
  where
    word : ℕ
    word = let b = c % 256 in b * 2 ^ 24 + b * 2 ^ 16 + b * 2 ^ 8 + b

    inside : (i : ℕ) → i < n → memset dst c n m (dst + i) ≡ c % 256
    inside i l = elim (Bool-cases ((dst % 4 == 0) && (n % 4 == 0))) [
      | inl words ↦
          rw (words, memset)
            (stosl_inside dst word (c % 256) (n / 4) m i (omega arith) (ground arith))
      | inr bytes ↦ rw (bytes, memset) (stosb_inside dst c n m i l)
    ]

    outside : (b : ℕ) → (b < dst) ⊎ (dst + n ≤ b) → memset dst c n m b ≡ m b
    outside b h = elim (Bool-cases ((dst % 4 == 0) && (n % 4 == 0))) [
      | inl words ↦ rw (words, memset) (stosl_outside dst word (n / 4) m b (ground arith))
      | inr bytes ↦ rw (bytes, memset) (stosb_outside dst c n m b h)
    ]

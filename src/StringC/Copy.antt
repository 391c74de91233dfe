-- ===== src/StringC/Copy.antt =====
-- `memset` and `memmove`: which bytes they write, with what, and that they write nothing else.
use uw_cse451_operating_syst.Base.{
  ◌&&◌, ltb, Bool-cases, refl, zero, inr, inl, ℕ-cases, arith, suc, ◌≡◌, ◌+◌, ◌⊎◌, ◌<◌, ◌≤◌, ℕ,
}
use uw_cse451_operating_syst.StringC.{memmove, store, Memory, copy_down, copy_up}
use native.Mathlib.Nat.{add-zero}

abbrev pub InRange : ℕ → ℕ → ℕ → Type 0
InRange a n b = (a ≤ b) × (b < a + n)

copy_up_outside : (d s n : ℕ) (m : Memory) (b : ℕ) → (b < d) ⊎ (d + n ≤ b) → copy_up d s n m b ≡ m b
unfolding copy_up
copy_up_outside d s zero m b h = refl
copy_up_outside d s (suc n) m b h =
    ground (arith, copy_up_outside (d + 1) (s + 1) n (store m d (m s)) b)

copy_down_outside :
    (d s n : ℕ) (m : Memory) (b : ℕ) → (b < d) ⊎ (d + n ≤ b) → copy_down d s n m b ≡ m b
unfolding copy_down
copy_down_outside d s zero m b h = refl
copy_down_outside d s (suc n) m b h =
    ground (arith, copy_down_outside d s n (store m (d + n) (m (s + n))) b)

-- Copying upwards is right unless the destination starts inside the source.
copy_up_inside :
    (d s n : ℕ) (m : Memory)
    → (d ≤ s) ⊎ (s + n ≤ d)
    → (i : ℕ) → i < n
    → copy_up d s n m (d + i) ≡ m (s + i)
unfolding copy_up
copy_up_inside d s zero m h i l = absurd (omega arith)
copy_up_inside d s (suc n) m h zero l =
    rw (add-zero d, add-zero s)
      (ground (arith, copy_up_outside (d + 1) (s + 1) n (store m d (m s)) d))
copy_up_inside d s (suc n) m h (suc i) l =
    let e : d + suc i ≡ d + 1 + i = omega arith in
    let e' : s + suc i ≡ s + 1 + i = omega arith in
    rw (e, e') (ground (arith, copy_up_inside (d + 1) (s + 1) n (store m d (m s)) (omega arith) i))

copy_down_inside :
    (d s n : ℕ) (m : Memory) → s ≤ d → (i : ℕ) → i < n → copy_down d s n m (d + i) ≡ m (s + i)
unfolding copy_down
copy_down_inside d s zero m h i l = absurd (omega arith)
copy_down_inside d s (suc n) m h i l = elim (ℕ-cases i n) [
  | inl last ↦ ground (arith, copy_down_outside d s n (store m (d + n) (m (s + n))) (d + n))
  | inr before ↦ ground (arith, copy_down_inside d s n (store m (d + n) (m (s + n))) h i)
]

-- `memmove` copies the source as it was before the call, also where the two ranges overlap, and
-- writes no byte outside the destination.
memmove_lem :
    (dst src n : ℕ) (m : Memory)
    → ((i : ℕ) → i < n → memmove dst src n m (dst + i) ≡ m (src + i))
      × ((b : ℕ) → (b < dst) ⊎ (dst + n ≤ b) → memmove dst src n m b ≡ m b)
unfolding memmove
memmove_lem dst src n m = (inside, outside)
  where
    inside : (i : ℕ) → i < n → memmove dst src n m (dst + i) ≡ m (src + i)
    inside i l = elim (Bool-cases (ltb src dst && ltb dst (src + n))) [
      | inl down ↦ rw (down, memmove) (copy_down_inside dst src n m (ground arith) i l)
      | inr up ↦ rw (up, memmove) (copy_up_inside dst src n m (ground arith) i l)
    ]

    outside : (b : ℕ) → (b < dst) ⊎ (dst + n ≤ b) → memmove dst src n m b ≡ m b
    outside b h = elim (Bool-cases (ltb src dst && ltb dst (src + n))) [
      | inl down ↦ rw (down, memmove) (copy_down_outside dst src n m b h)
      | inr up ↦ rw (up, memmove) (copy_up_outside dst src n m b h)
    ]

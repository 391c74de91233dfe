-- ===== src/User/Overlap.antt =====
-- `memmove` of user/ulib.c, which copies from the front.
use uw_cse451_operating_syst.Base.{
  ℕ, zero, suc, ◌+◌, ◌≤◌, ◌<◌, ◌≡◌, ◌⊎◌, inl, inr, refl, ap, ◌∙◌, true, false, arith, ◌==◌,
  if◌then◌else◌,
}
use uw_cse451_operating_syst.User.{memmove}

memmove_below : (n dst src : ℕ) (m : ℕ → ℕ) (a : ℕ) → a < dst → memmove n dst src m a ≡ m a
unfolding memmove
memmove_below zero dst src m a l = refl
memmove_below (suc n) dst src m a l =
    let ne : dst == a ≡ false = ground arith in
    memmove_below n (dst + 1) (src + 1) (λ b. if dst == b then m src else m b) a (omega arith)
    ∙ rw ne refl

memmove_above : (n dst src : ℕ) (m : ℕ → ℕ) (a : ℕ) → dst + n ≤ a → memmove n dst src m a ≡ m a
unfolding memmove
memmove_above zero dst src m a l = refl
memmove_above (suc n) dst src m a l =
    let ne : dst == a ≡ false = ground arith in
    memmove_above n (dst + 1) (src + 1) (λ b. if dst == b then m src else m b) a (omega arith)
    ∙ rw ne refl

memmove_inside :
    (n dst src : ℕ) (m : ℕ → ℕ) (i : ℕ)
    → (dst ≤ src) ⊎ (src + n ≤ dst)
    → i < n
    → memmove n dst src m (dst + i) ≡ m (src + i)
unfolding memmove
memmove_inside zero dst src m i h l = absurd (omega arith)
memmove_inside (suc n) dst src m zero h l =
    let e : dst == dst + 0 ≡ true = ground arith in
    memmove_below n (dst + 1) (src + 1) (λ b. if dst == b then m src else m b) (dst + 0)
      (omega arith)
    ∙ rw e (ap m (omega arith))
memmove_inside (suc n) dst src m (suc i) h l =
    let same : dst + suc i ≡ dst + 1 + i = omega arith in
    let ne : dst == src + 1 + i ≡ false = ground arith in
    let side : (dst + 1 ≤ src + 1) ⊎ (src + 1 + n ≤ dst + 1) = elim h [
      | inl d ↦ inl (omega arith)
      | inr d ↦ inr (omega arith)
    ] in
    ap (λ z. memmove n (dst + 1) (src + 1) (λ b. if dst == b then m src else m b) z) same
    ∙ memmove_inside n (dst + 1) (src + 1) (λ b. if dst == b then m src else m b) i side
        (omega arith)
    ∙ rw ne (ap m (omega arith))

-- Where the block moves down, or the two do not meet, `memmove` copies what was there and changes nothing else.
pub memmove_lem :
    (n dst src : ℕ) (m : ℕ → ℕ)
    → (dst ≤ src) ⊎ (src + n ≤ dst)
    → ((i : ℕ) → i < n → memmove n dst src m (dst + i) ≡ m (src + i))
      × ((a : ℕ) → (a < dst) ⊎ (dst + n ≤ a) → memmove n dst src m a ≡ m a)
memmove_lem n dst src m h = (
  (λ i l. memmove_inside n dst src m i h l),
  (λ a o. elim o [ inl l ↦ memmove_below n dst src m a l | inr l ↦ memmove_above n dst src m a l ]),
)

-- Where the block moves up by one, every byte of it becomes the first one.
pub memmove_up :
    (n src : ℕ) (m : ℕ → ℕ) (i : ℕ) → i < n → memmove n (src + 1) src m (src + 1 + i) ≡ m src
unfolding memmove
memmove_up zero src m i l = absurd (omega arith)
memmove_up (suc n) src m zero l =
    let e : src + 1 == src + 1 + 0 ≡ true = ground arith in
    memmove_below n (src + 1 + 1) (src + 1) (λ b. if src + 1 == b then m src else m b) (src + 1 + 0)
      (omega arith)
    ∙ rw e refl
memmove_up (suc n) src m (suc i) l =
    let e : src + 1 == src + 1 ≡ true = ground arith in
    let same : src + 1 + suc i ≡ src + 1 + 1 + i = omega arith in
    ap (λ z. memmove n (src + 1 + 1) (src + 1) (λ b. if src + 1 == b then m src else m b) z) same
    ∙ memmove_up n (src + 1) (λ b. if src + 1 == b then m src else m b) i (omega arith)
    ∙ rw e refl

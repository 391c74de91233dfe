-- ===== src/StringC/Compare.antt =====
-- `memcmp` and `strncmp` return 0 exactly on equal contents.
use uw_cse451_operating_syst.Base.{
  inr, refl, inl, zero, ℕ-cases, ◌↔◌, arith, ◌+◌, ◌≡◌, ◌≢◌, suc, ◌<◌, ℕ,
}
use uw_cse451_operating_syst.Base.Int.{pos, sub_ℕ}
use uw_cse451_operating_syst.StringC.{strncmp, memcmp, Memory}
use native.Mathlib.Nat.{add-zero}

sub_ℕ-eq-zero : (a b : ℕ) → sub_ℕ a b ≡ pos 0 → a ≡ b
sub_ℕ-eq-zero a b h = ground arith

-- No NUL stands among the first `i` bytes of the string at `p`.
abbrev pub NoNul : Memory → ℕ → ℕ → Type 0
NoNul m p i = (j : ℕ) → j < i → m (p + j) ≢ 0

-- The first `n` bytes agree, as far as the string at `p` goes, its NUL included.
abbrev pub Agree : Memory → (p q n : ℕ) → Type 0
Agree m p q n = (i : ℕ) → i < n → NoNul m p i → m (p + i) ≡ m (q + i)

memcmp_sound :
    (a b n : ℕ) (m : Memory) → memcmp a b n m ≡ pos 0 → (i : ℕ) → i < n → m (a + i) ≡ m (b + i)
unfolding memcmp
memcmp_sound a b zero m h i l = absurd (omega arith)
memcmp_sound a b (suc n) m h zero l = rw (add-zero a, add-zero b) (ground arith)
memcmp_sound a b (suc n) m h (suc i) l =
    let e : a + suc i ≡ a + 1 + i = omega arith in
    let e' : b + suc i ≡ b + 1 + i = omega arith in
    rw (e, e') (memcmp_sound (a + 1) (b + 1) n m (ground arith) i (omega arith))

memcmp_complete :
    (a b n : ℕ) (m : Memory) → ((i : ℕ) → i < n → m (a + i) ≡ m (b + i)) → memcmp a b n m ≡ pos 0
unfolding memcmp
memcmp_complete a b zero m h = refl
memcmp_complete a b (suc n) m h =
    let first : m a ≡ m b = rw (add-zero a, add-zero b) at (h 0 (omega arith)) in
    ground (arith, memcmp_complete (a + 1) (b + 1) n m (λ i l. tail i l))
  where
    tail : (i : ℕ) → i < n → m (a + 1 + i) ≡ m (b + 1 + i)
    tail i l =
        let e : a + suc i ≡ a + 1 + i = omega arith in
        let e' : b + suc i ≡ b + 1 + i = omega arith in rw (e, e') at (h (suc i) (omega arith))

-- `memcmp` returns 0 exactly if the two ranges hold the same bytes.
pub memcmp_lem :
    (a b n : ℕ) (m : Memory) → (memcmp a b n m ≡ pos 0) ↔ ((i : ℕ) → i < n → m (a + i) ≡ m (b + i))
memcmp_lem a b n m = (memcmp_sound a b n m, memcmp_complete a b n m)

NoNul-tail : (m : Memory) (p i : ℕ) → NoNul m p (suc i) → NoNul m (p + 1) i
NoNul-tail m p i h j l =
    let e : p + 1 + j ≡ p + suc j = omega arith in rw e (h (suc j) (omega arith))

strncmp_sound : (p q n : ℕ) (m : Memory) → strncmp p q n m ≡ pos 0 → Agree m p q n
unfolding strncmp
strncmp_sound p q zero m h i l u = absurd (omega arith)
strncmp_sound p q (suc n) m h zero l u = rw (add-zero p, add-zero q) (ground arith)
strncmp_sound p q (suc n) m h (suc i) l u =
    let e : p + suc i ≡ p + 1 + i = omega arith in
    let e' : q + suc i ≡ q + 1 + i = omega arith in
    let first : m p ≢ 0 = rw (add-zero p) at (u 0 (omega arith)) in
    rw (e, e')
      (strncmp_sound (p + 1) (q + 1) n m (ground arith) i (omega arith) (NoNul-tail m p i u))

Agree-tail : (m : Memory) (p q n : ℕ) → m p ≢ 0 → Agree m p q (suc n) → Agree m (p + 1) (q + 1) n
Agree-tail m p q n more h i l u =
    let e : p + suc i ≡ p + 1 + i = omega arith in
    let e' : q + suc i ≡ q + 1 + i = omega arith in rw (e, e') at (h (suc i) (omega arith) whole)
  where
    whole : NoNul m p (suc i)
    whole zero l' = rw (add-zero p) more
    whole (suc j) l' = let e : p + suc j ≡ p + 1 + j = omega arith in rw e (u j (omega arith))

strncmp_complete : (p q n : ℕ) (m : Memory) → Agree m p q n → strncmp p q n m ≡ pos 0
unfolding strncmp
strncmp_complete p q zero m h = refl
strncmp_complete p q (suc n) m h =
    let first : m p ≡ m q =
      rw (add-zero p, add-zero q) at (h 0 (omega arith) (λ j l. absurd (omega arith))) in
    elim (ℕ-cases (m p) 0) [
      | inl end ↦ ground arith
      | inr more ↦
          ground (arith, strncmp_complete (p + 1) (q + 1) n m (Agree-tail m p q n (ground arith) h))
    ]

-- `strncmp` returns 0 exactly if the strings agree up to the first NUL of the one at `p` or up to
-- `n` bytes, whichever comes first.
pub strncmp_lem : (p q n : ℕ) (m : Memory) → (strncmp p q n m ≡ pos 0) ↔ Agree m p q n
strncmp_lem p q n m = (strncmp_sound p q n m, strncmp_complete p q n m)

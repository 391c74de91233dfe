-- ===== src/Files/Count.antt =====
-- How many descriptors of a table stand for a slot of `ftable`.
use uw_cse451_operating_syst.Base.{
  ℕ, zero, suc, ◌+◌, ◌≤◌, ◌<◌, ◌≡◌, inl, inr, refl, sym, ap, ◌∙◌, true, false, Option, none, some,
  arith, ◌==◌, if◌then◌else◌, Option-cases, ℕ-cases,
}
use uw_cse451_operating_syst.Files.{put, free_fd, free_slot, FileInfo}

abbrev pub points : Option ℕ → ℕ → ℕ
points none g = 0
points (some h) g = if h == g then 1 else 0

-- The descriptors below `n` that stand for slot `g`.
unfoldable pub count_fds : (ℕ → Option ℕ) → (n g : ℕ) → ℕ
count_fds fds zero g = 0
count_fds fds (suc n) g = points (fds n) g + count_fds fds n g

-- A change behind the descriptors that are counted.
count_fds-put_beyond :
    (fds : ℕ → Option ℕ) (o : Option ℕ) (n i g : ℕ)
    → n ≤ i
    → count_fds (put fds i o) n g ≡ count_fds fds n g
unfolding count_fds
count_fds-put_beyond fds o zero i g h = refl
count_fds-put_beyond fds o (suc n) i g h =
    let ne : i == n ≡ false = ground arith in
    rw (ne, count_fds-put_beyond fds o n i g (omega arith))

-- The count after descriptor `i` has been changed.
pub count_fds-put :
    (fds : ℕ → Option ℕ) (o : Option ℕ) (n i g : ℕ)
    → i < n
    → count_fds (put fds i o) n g + points (fds i) g ≡ count_fds fds n g + points o g
unfolding count_fds
count_fds-put fds o zero i g h = absurd (omega arith)
count_fds-put fds o (suc n) i g h = elim (ℕ-cases i n) [
  | inl e ↦
      let t : i == n ≡ true = ground arith in
      let rest = count_fds-put_beyond fds o n i g (omega arith) in
      let same : points (fds i) g ≡ points (fds n) g = ap (λ k. points (fds k) g) e in
      rw (t, rest, same) (omega arith)
  | inr ne ↦ let rec = count_fds-put fds o n i g (ground arith) in rw ne (omega arith)
]

-- A slot to which a descriptor points is counted.
pub count_fds-pos :
    (fds : ℕ → Option ℕ) (n i g : ℕ) → i < n → fds i ≡ some g → 0 < count_fds fds n g
unfolding count_fds
count_fds-pos fds zero i g h e = absurd (omega arith)
count_fds-pos fds (suc n) i g h e = elim (ℕ-cases i n) [
  | inl eq ↦
      let at_n : fds n ≡ some g = sym (ap fds eq) ∙ e in
      let t : g == g ≡ true = ground arith in rw (at_n, t) (omega arith)
  | inr ne ↦ let rec = count_fds-pos fds n i g (ground arith) e in omega arith
]

pub free_fd-some :
    (fds : ℕ → Option ℕ) (count i k : ℕ)
    → free_fd fds count i ≡ some k
    → (i ≤ k) × (k < i + count) × (fds k ≡ none)
unfolding free_fd
free_fd-some fds zero i k h = cc
free_fd-some fds (suc count) i k h = elim (Option-cases (fds i)) [
  | inl e ↦
      let ik : i ≡ k = cc (rw (e, free_fd) at h) in (omega arith, omega arith, sym (ap fds ik) ∙ e)
  | inr (g, e) ↦
      let (a, b, c) = free_fd-some fds count (i + 1) k (rw (e, free_fd) at h) in
      (omega arith, omega arith, c)
]

pub free_slot-some :
    (t : ℕ → FileInfo) (count i k : ℕ)
    → free_slot t count i ≡ some k
    → (i ≤ k) × (k < i + count) × ((t k).ref ≡ 0)
unfolding free_slot
free_slot-some t zero i k h = cc
free_slot-some t (suc count) i k h = elim (ℕ-cases (t i).ref 0) [
  | inl e ↦
      let z : (t i).ref == 0 ≡ true = ground arith in
      let ik : i ≡ k = cc (rw z at h) in
      (omega arith, omega arith, sym (ap (λ j. (t j).ref) ik) ∙ e)
  | inr ne ↦
      let (a, b, c) = free_slot-some t count (i + 1) k (rw ne at h) in (omega arith, omega arith, c)
]

-- A table at the place that was written.
pub put-at {ℓ} : {A : Type ℓ} (t : ℕ → A) (i j : ℕ) (v : A) → i ≡ j → put t i v j ≡ v
put-at t i j v h = let e : i == j ≡ true = ground arith in rw e

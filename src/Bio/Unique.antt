-- ===== src/Bio/Unique.antt =====
-- A block of the disk stands in at most one buffer.
use uw_cse451_operating_syst.Base.{
  ℕ, ◌+◌, ◌≤◌, ◌≡◌, ◌≢◌, inl, inr, refl, sym, ap, Bool, true, false, none, some, List, [], ◌∷◌,
  arith, ◌==◌, if◌then◌else◌, Bool-cases, Option-cases,
}
use uw_cse451_operating_syst.Base.Outcome.{done}
use uw_cse451_operating_syst.Bio.{
  unclaim, unlink, lock_buf, for_block, Buf, bget, brelse, holds, find_block, recycle, update,
  claim,
}

abbrev one_if : Bool → ℕ
one_if true = 1
one_if false = 0

-- How many buffers hold the block.
unfoldable pub copies : List Buf → (dev blockno : ℕ) → ℕ
copies [] dev k = 0
copies (b ∷ bs) dev k = one_if (holds b dev k) + copies bs dev k

-- No block of a device other than 0 is held twice; a buffer that was never used has device 0.
abbrev pub IsUnique : List Buf → Type 0
IsUnique bs = (dev k : ℕ) → dev ≢ 0 → copies bs dev k ≤ 1

find_block-some :
    (bs : List Buf) (dev k : ℕ) (f : Buf) (fs : List Buf)
    → find_block bs dev k ≡ some (f, fs)
    → (dev2 k2 : ℕ) → copies fs dev2 k2 ≡ copies bs dev2 k2
unfolding find_block copies
find_block-some [] dev k f fs h d2 k2 = cc
find_block-some (b ∷ bs) dev k f fs h d2 k2 = elim (Bool-cases (holds b dev k)) [
  | inl e ↦ let same : claim b ∷ bs ≡ fs = cc (rw e at h) in rw⁻¹ same refl
  | inr e ↦ elim (Option-cases (find_block bs dev k)) [
    | inl n ↦ cc (rw (e, n) at h)
    | inr ((g, gs), n) ↦
        let same : b ∷ gs ≡ fs = cc (rw (e, n) at h) in
        let rec = find_block-some bs dev k g gs n d2 k2 in
        rw⁻¹ same (ap (λ c. one_if (holds b d2 k2) + c) rec)
  ]
]

find_block-none : (bs : List Buf) (dev k : ℕ) → find_block bs dev k ≡ none → copies bs dev k ≡ 0
unfolding find_block copies
find_block-none [] dev k h = refl
find_block-none (b ∷ bs) dev k h = elim (Bool-cases (holds b dev k)) [
  | inl e ↦ cc (rw e at h)
  | inr e ↦ elim (Option-cases (find_block bs dev k)) [
    | inl n ↦ rw e (let rec = find_block-none bs dev k n in omega arith)
    | inr ((g, gs), n) ↦ cc (rw (e, n) at h)
  ]
]

-- Recycling a buffer adds at most one copy, of the new block only.
recycle-some :
    (bs : List Buf) (dev k : ℕ) (f : Buf) (fs : List Buf)
    → recycle bs dev k ≡ some (f, fs)
    → (dev2 k2 : ℕ)
    → copies fs dev2 k2 ≤ copies bs dev2 k2 + one_if (holds (for_block f dev k) dev2 k2)
unfolding recycle copies
recycle-some [] dev k f fs h d2 k2 = cc
recycle-some (b ∷ bs) dev k f fs h d2 k2 = elim (Option-cases (recycle bs dev k)) [
  | inr ((g, gs), n) ↦
      let same : b ∷ gs ≡ fs = cc (rw n at h) in
      let rec = recycle-some bs dev k g gs n d2 k2 in rw⁻¹ same (omega arith)
  | inl n ↦ elim (Bool-cases (b.refcnt == 0)) [
    | inr r ↦ cc (rw (n, r) at h)
    | inl r ↦ elim (Bool-cases b.dirty) [
      | inl dirt ↦ cc (rw (n, r, dirt) at h)
      | inr dirt ↦
          let same : for_block b dev k ∷ bs ≡ fs = cc (rw (n, r, dirt) at h) in
          rw⁻¹ same (omega arith)
    ]
  ]
]

-- A change that keeps the block of each buffer.
update-copies :
    (g : Buf → Buf) (i : ℕ) (bs : List Buf)
    → ((b : Buf) (d k : ℕ) → holds (g b) d k ≡ holds b d k)
    → (dev k : ℕ) → copies (update g i bs) dev k ≡ copies bs dev k
unfolding update copies
update-copies g i [] h dev k = refl
update-copies g i (b ∷ bs) h dev k = elim (Bool-cases (b.index == i)) [
  | inl e ↦ rw (e, h b dev k, update-copies g i bs h dev k)
  | inr e ↦ rw (e, update-copies g i bs h dev k)
]

lock_buf-copies :
    (r : Buf × List Buf) (f : Buf) (fs : List Buf)
    → lock_buf r ≡ done (f, fs)
    → (dev k : ℕ) → copies fs dev k ≡ copies r.1 dev k
lock_buf-copies (b, bs) f fs h dev k = elim (Bool-cases b.locked) [
  | inl e ↦ cc (rw e at h)
  | inr e ↦
      let same : update (λ x. record x { locked = true }) b.index bs ≡ fs = cc (rw e at h) in
      rw⁻¹ same (update-copies (λ x. record x { locked = true }) b.index bs (λ x d l. refl) dev k)
]

-- `bget` keeps each block of a device other than 0 in at most one buffer.
pub bget-IsUnique :
    (bs fs : List Buf) (dev k : ℕ) (f : Buf)
    → bget bs dev k ≡ done (f, fs)
    → IsUnique bs
    → IsUnique fs
unfolding bget
bget-IsUnique bs fs dev k f h u d2 k2 hd = elim (Option-cases (find_block bs dev k)) [
  | inr ((g, gs), e) ↦
      let locked = lock_buf-copies (g, gs) f fs (rw (e, bget) at h) d2 k2 in
      let found = find_block-some bs dev k g gs e d2 k2 in let before = u d2 k2 hd in omega arith
  | inl e ↦ elim (Option-cases (recycle bs dev k)) [
    | inl n ↦ cc (rw (e, n, bget) at h)
    | inr ((g, gs), n) ↦
        let locked = lock_buf-copies (g, gs) f fs (rw (e, n, bget) at h) d2 k2 in
        let more = recycle-some bs dev k g gs n d2 k2 in
        let before = u d2 k2 hd in
        elim (Bool-cases (holds (for_block g dev k) d2 k2)) [
          | inr other ↦ let none_new = rw other at more in omega arith
          | inl this ↦
              let absent = find_block-none bs dev k e in
              let one_new = rw this at more in
              let (ed, ek) = same-block dev k d2 k2 this in
              let absent2 : copies bs d2 k2 ≡ 0 = rw⁻¹ ed (rw⁻¹ ek absent) in omega arith
        ]
  ]
]
  where
    same-block : (a b c d : ℕ) → (if a == c then b == d else false) ≡ true → (a ≡ c) × (b ≡ d)
    same-block a b c d e = ground arith

unlink-some :
    (i : ℕ) (bs : List Buf) (b : Buf) (rest : List Buf)
    → unlink i bs ≡ some (b, rest)
    → (dev k : ℕ) → copies bs dev k ≡ one_if (holds b dev k) + copies rest dev k
unfolding unlink copies
unlink-some i [] b rest h dev k = cc
unlink-some i (c ∷ bs) b rest h dev k = elim (Bool-cases (c.index == i)) [
  | inl e ↦
      let cb : c ≡ b = cc (rw e at h) in let same : bs ≡ rest = cc (rw e at h) in rw (cb, same) refl
  | inr e ↦ elim (Option-cases (unlink i bs)) [
    | inl n ↦ cc (rw (e, n) at h)
    | inr ((g, gs), n) ↦
        let gb : g ≡ b = cc (rw (e, n) at h) in
        let same : c ∷ gs ≡ rest = cc (rw (e, n) at h) in
        let rec = unlink-some i bs g gs n dev k in
        let held : one_if (holds g dev k) ≡ one_if (holds b dev k) =
          ap (λ x. one_if (holds x dev k)) gb in
        rw⁻¹ same (omega arith)
  ]
]

-- `brelse` keeps each block in as many buffers as before, wherever the buffer goes in the list.
pub brelse-copies :
    (bs fs : List Buf) (i : ℕ)
    → brelse bs i ≡ done fs
    → (dev k : ℕ) → copies fs dev k ≡ copies bs dev k
unfolding brelse copies
brelse-copies bs fs i h dev k = elim (Option-cases (unlink i bs)) [
  | inl e ↦ cc (rw (e, brelse) at h)
  | inr ((b, rest), e) ↦ elim (Bool-cases b.locked) [
    | inr l ↦ cc (rw (e, l, brelse) at h)
    | inl l ↦ elim (Bool-cases ((unclaim b).refcnt == 0)) [
      | inl z ↦
          let same : unclaim b ∷ rest ≡ fs = cc (rw (e, l, z, brelse) at h) in
          rw⁻¹ same (sym (unlink-some i bs b rest e dev k))
      | inr z ↦
          let same : update unclaim i bs ≡ fs = cc (rw (e, l, z, brelse) at h) in
          rw⁻¹ same (update-copies unclaim i bs (λ x d m. refl) dev k)
    ]
  ]
]

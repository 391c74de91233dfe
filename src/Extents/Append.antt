-- ===== src/Extents/Append.antt =====
-- `appendi`: the extents that it adds.
use uw_cse451_operating_syst.Base.{
  length-drop, take-length, drop-all, min, ◌/◌, length-append, drop, take, ℕ, zero, suc, ◌+◌, ◌-◌,
  ◌%◌, ◌≤◌, ◌<◌, ◌≡◌, inl, inr, refl, sym, ap, ◌∙◌, true, false, some, List, [], ◌∷◌, ◌++◌, arith,
  ◌==◌, ltb, length, Bool-cases,
}
use uw_cse451_operating_syst.Extents.{
  used_extents, Extent, Disk, Superblock, appendi, appendi_loop, getfreestartblkno, write_block,
}

take-front {ℓ} : {A : Type ℓ} (xs ys : List A) → take (length xs) (xs ++ ys) ≡ xs
take-front [] ys = refl
take-front (x ∷ xs) ys = rw (take-front xs ys)

drop-front {ℓ} : {A : Type ℓ} (xs ys : List A) → drop (length xs) (xs ++ ys) ≡ ys
drop-front [] ys = refl
drop-front (x ∷ xs) ys = drop-front xs ys

-- All of these extents are in use.
abbrev pub AllUsed : List Extent → Type 0
AllUsed es = used_extents es ≡ length es

abbrev pub eight_blocks : ℕ → Extent
eight_blocks a = record { startblkno = a; nblocks = 8 }

used_extents-front :
    (front : List Extent) (e : Extent) (rest : List Extent)
    → AllUsed front
    → e.nblocks ≡ 0
    → used_extents (front ++ e ∷ rest) ≡ length front
used_extents-front [] e rest h z = let t : e.nblocks == 0 ≡ true = ground arith in rw t
used_extents-front (x ∷ front) e rest h z = elim (Bool-cases (x.nblocks == 0)) [
  | inl t ↦ cc (rw t at h)
  | inr t ↦ rw t (ap suc (used_extents-front front e rest (ground (arith, rw t at h)) z))
]

-- `appendi` once it has found the first extent with no block in it.
appendi-front :
    (sb : Superblock) (d d1 : Disk) (front : List Extent) (e : Extent) (rest fs : List Extent)
    (src : List ℕ)
    → AllUsed front
    → e.nblocks ≡ 0
    → appendi_loop sb (suc (suc (length src + 7))) d (e ∷ rest) 0 src ≡ some (d1, fs)
    → appendi sb d (front ++ e ∷ rest) src ≡ some (d1, front ++ fs)
unfolding appendi
appendi-front sb d d1 front e rest fs src h z run =
    let ne : length front == length (front ++ e ∷ rest) ≡ false =
      ground (arith, length-append front (e ∷ rest)) in
    let used = used_extents-front front e rest h z in
    rw (appendi, used, ne, drop-front front (e ∷ rest), run)
      (ap (λ k. some (d1, take k (front ++ e ∷ rest) ++ fs)) used
        ∙ ap (λ xs. some (d1, xs ++ fs)) (take-front front (e ∷ rest)))

-- One round on an extent with no block in it, with `size` below eight blocks.
appendi_loop-fresh :
    (sb : Superblock) (fuel : ℕ) (d d1 d2 : Disk) (e : Extent) (es fs : List Extent) (size a m : ℕ)
    (src : List ℕ)
    → e.nblocks ≡ 0
    → size < 4096
    → 0 < length src
    → m ≡ min (length src) (512 - size % 512)
    → getfreestartblkno sb d ≡ (a, d1)
    → appendi_loop sb fuel
        (write_block d1 (a + size / 512) (size % 512) (take m src))
        es
        (size + m)
        (drop m src)
      ≡ some (d2, fs)
    → appendi_loop sb (suc fuel) d (e ∷ es) size src ≡ some (d2, eight_blocks a ∷ fs)
unfolding appendi_loop
appendi_loop-fresh sb fuel d d1 d2 e es fs size a m [] z h hs em free run = absurd (omega arith)
appendi_loop-fresh sb fuel d d1 d2 e es fs size a m (v ∷ vs) z h hs em free run =
    let t : e.nblocks == 0 ≡ true = ground arith in
    let lt : ltb size 4096 ≡ true = ground arith in rw (t, free, lt, sym em, run) (rw (t, free))

appendi_loop-nil :
    (sb : Superblock) (fuel : ℕ) (d : Disk) (es : List Extent) (size : ℕ)
    → 0 < fuel
    → appendi_loop sb fuel d es size [] ≡ some (d, es)
unfolding appendi_loop
appendi_loop-nil sb zero d es size h = absurd (omega arith)
appendi_loop-nil sb (suc fuel) d [] size h = refl
appendi_loop-nil sb (suc fuel) d (e ∷ es) size h = refl

-- `appendi` of at most one block of bytes takes eight fresh blocks, puts the bytes at their start, and
-- makes them the first extent that was not in use; the extents before and behind it stay as they are.
pub appendi-block :
    (sb : Superblock) (d d1 : Disk) (front : List Extent) (e : Extent) (rest : List Extent)
    (src : List ℕ) (a : ℕ)
    → AllUsed front
    → e.nblocks ≡ 0
    → 0 < length src
    → length src ≤ 512
    → getfreestartblkno sb d ≡ (a, d1)
    → appendi sb d (front ++ e ∷ rest) src
      ≡ some (write_block d1 a 0 src, front ++ eight_blocks a ∷ rest)
appendi-block sb d d1 front e rest src a h z hs hl free =
    let here : a + 0 / 512 ≡ a = omega arith in
    appendi-front sb d (write_block d1 a 0 src) front e rest (eight_blocks a ∷ rest) src h z (
      appendi_loop-fresh sb (suc (length src + 7)) d d1 (write_block d1 a 0 src) e rest rest 0 a
        (length src) src z (omega arith) hs (omega arith) free
        (rw (here, take-length src, drop-all src)
          (appendi_loop-nil sb (suc (length src + 7)) (write_block d1 a 0 src) rest (0 + length src)
            (omega arith))))

-- `appendi` of more than one block of bytes, up to two, takes eight fresh blocks twice: the first block
-- of bytes goes to the start of the first extent it adds, the rest to the second block of the second.
pub appendi-two_blocks :
    (sb : Superblock) (d d1 d2 : Disk) (front : List Extent) (e e2 : Extent) (rest : List Extent)
    (src : List ℕ) (a b : ℕ)
    → AllUsed front
    → e.nblocks ≡ 0
    → e2.nblocks ≡ 0
    → 512 < length src
    → length src ≤ 1024
    → getfreestartblkno sb d ≡ (a, d1)
    → getfreestartblkno sb (write_block d1 a 0 (take 512 src)) ≡ (b, d2)
    → appendi sb d (front ++ e ∷ e2 ∷ rest) src
      ≡ some
          (write_block d2 (b + 1) 0 (drop 512 src), front ++ eight_blocks a ∷ eight_blocks b ∷ rest)
appendi-two_blocks sb d d1 d2 front e e2 rest src a b h z z2 hs hl free free2 =
    let d3 : Disk = write_block d1 a 0 (take 512 src) in
    let d4 : Disk = write_block d2 (b + 1) 0 (drop 512 src) in
    let here : a + 0 / 512 ≡ a = omega arith in
    let left : List ℕ = drop 512 src in
    let len : length left ≡ length src - 512 = length-drop 512 src in
    appendi-front sb d d4 front e (e2 ∷ rest) (eight_blocks a ∷ eight_blocks b ∷ rest) src h z (
      appendi_loop-fresh sb (suc (length src + 7)) d d1 d4 e (e2 ∷ rest) (eight_blocks b ∷ rest) 0 a
        512 src z (omega arith) (omega arith) (omega arith) free
        (rw here (
          appendi_loop-fresh sb (length src + 7) d3 d2 d4 e2 rest rest 512 b (length left) left z2
            (omega arith) (omega arith) (omega arith) free2
            (rw (take-length left, drop-all left)
              (appendi_loop-nil sb (length src + 7) d4 rest (512 + length left) (omega arith))))))

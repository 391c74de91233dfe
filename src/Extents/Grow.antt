-- ===== src/Extents/Grow.antt =====
-- `getfreestartblkno` takes a fresh piece of the disk, and `appendi` adds it to a file.
use uw_cse451_operating_syst.Base.{
  ltb-cases, ℕ, zero, suc, ◌+◌, ◌-◌, ◌^◌, ◌≤◌, ◌<◌, ◌≡◌, ◌≢◌, ◌⊎◌, inl, inr, refl, sym, ap, ◌∙◌,
  true, false, none, some, [], ◌∷◌, arith, ◌==◌, Bool-cases, Option-cases, ℕ-cases,
}
use uw_cse451_operating_syst.Extents.{
  Disk, Superblock, free_byte, free_block, free_start, getfreestartblkno, write_block,
}

free_byte-some :
    (f : ℕ → ℕ) (count j k : ℕ)
    → free_byte f count j ≡ some k
    → (j ≤ k) × (k < j + count) × (f k ≡ 0) × ((i : ℕ) → j ≤ i → i < k → f i ≢ 0)
unfolding free_byte
free_byte-some f zero j k h = cc
free_byte-some f (suc count) j k h = elim (ℕ-cases (f j) 0) [
  | inl z ↦
      let t : f j == 0 ≡ true = ground arith in
      let jk : j ≡ k = cc (rw t at h) in
      let fk : f k ≡ 0 = rw⁻¹ jk z in
      (omega arith, omega arith, fk, λ i hi hk. absurd (omega arith))
  | inr nz ↦
      let (a, b, c, g) = free_byte-some f count (j + 1) k (rw nz at h) in
      (
        omega arith,
        omega arith,
        c,
        λ i hi hk. elim (ℕ-cases j i) [
          | inl e ↦ rw⁻¹ e (ground arith)
          | inr ne ↦ g i (ground arith) hk
        ],
      )
]

free_byte-none :
    (f : ℕ → ℕ) (count j : ℕ)
    → free_byte f count j ≡ none
    → (i : ℕ) → j ≤ i
    → i < j + count
    → f i ≢ 0
unfolding free_byte
free_byte-none f zero j h i hi hk = absurd (omega arith)
free_byte-none f (suc count) j h i hi hk = elim (ℕ-cases (f j) 0) [
  | inl z ↦ let t : f j == 0 ≡ true = ground arith in cc (rw t at h)
  | inr nz ↦ elim (ℕ-cases j i) [
    | inl e ↦ rw⁻¹ e (ground arith)
    | inr ne ↦ free_byte-none f count (j + 1) (rw nz at h) i (ground arith) (omega arith)
  ]
]

-- Byte `j` of block `i` is the first zero byte of the blocks below `top`, in the order of the search:
-- from the last block down, and up in each block.
pub record FirstFree (d : Disk) (bottom top i j : ℕ) : Type 0 where
  pub low : bottom ≤ i
  pub high : i < top
  pub byte : j < 512
  pub free : d i j ≡ 0
  pub later_taken : (b c : ℕ) → i < b → b < top → c < 512 → d b c ≢ 0
  pub before_taken : (c : ℕ) → c < j → d i c ≢ 0

free_block_lem :
    (sb : Superblock) (d : Disk) (count : ℕ)
    → ((free_block sb d count ≡ (0, d))
        × ((b c : ℕ) → sb.bmapstart ≤ b → b < sb.bmapstart + count → c < 512 → d b c ≢ 0))
      ⊎ ((i : ℕ) × (j : ℕ) × (free_block sb d count
            ≡ (free_start sb i j, write_block d i j (255 ∷ [])))
          × FirstFree d sb.bmapstart (sb.bmapstart + count) i j)
unfolding free_block
free_block_lem sb d zero = inl (refl, λ b c hb ht hc. absurd (omega arith))
free_block_lem sb d (suc count) =
    let i : ℕ = sb.bmapstart + count in
    elim (Option-cases (free_byte (d i) 512 0)) [
      | inr (j, e) ↦
          let (a, b, z, g) = free_byte-some (d i) 512 0 j e in
          inr (
            i,
            j,
            rw (e, free_block),
            record {
              low = omega arith;
              high = omega arith;
              byte = omega arith;
              free = z;
              later_taken = λ b c hb ht hc. absurd (omega arith);
              before_taken = λ c hc. g c (omega arith) hc;
            },
          )
      | inl e ↦
          let full = free_byte-none (d i) 512 0 e in
          let all : (b c : ℕ) → i ≤ b → b < i + 1 → c < 512 → d b c ≢ 0 = λ b c hb ht hc.
            let bi : i ≡ b = omega arith in rw⁻¹ bi (full c (omega arith) (omega arith)) in
          elim (free_block_lem sb d count) [
            | inl (run, g) ↦ inl (
              rw (e, free_block) run,
              λ b c hb ht hc. elim (ltb-cases b i) [
                | inl lt ↦ g b c hb lt hc
                | inr ge ↦ all b c ge (omega arith) hc
              ],
            )
            | inr (k, j, run, ff) ↦ inr (
              k,
              j,
              rw (e, free_block) run,
              record {
                low = ff.low;
                high = omega (arith, ff.high);
                byte = ff.byte;
                free = ff.free;
                later_taken = λ b c hb ht hc. elim (ltb-cases b i) [
                  | inl lt ↦ ff.later_taken b c hb lt hc
                  | inr ge ↦ all b c ge (omega arith) hc
                ];
                before_taken = ff.before_taken;
              },
            )
          ]
    ]

-- `getfreestartblkno` either finds no zero byte in the bitmap, returns 0 and leaves the disk alone, or
-- takes the first one in its order of search: it sets the byte to 0xff, writes nothing else, and
-- returns the number that the code has for this byte.
getfreestartblkno_lem :
    (sb : Superblock) (d : Disk)
    → sb.bmapstart ≤ sb.inodestart
    → ((getfreestartblkno sb d ≡ (0, d))
        × ((b c : ℕ) → sb.bmapstart ≤ b → b < sb.inodestart → c < 512 → d b c ≢ 0))
      ⊎ ((i : ℕ) × (j : ℕ) × (getfreestartblkno sb d
            ≡ (free_start sb i j, write_block d i j (255 ∷ [])))
          × FirstFree d sb.bmapstart sb.inodestart i j)
unfolding getfreestartblkno
getfreestartblkno_lem sb d h =
    let sum : sb.bmapstart + (sb.inodestart - sb.bmapstart) ≡ sb.inodestart = omega arith in
    elim (free_block_lem sb d (sb.inodestart - sb.bmapstart)) [
      | inl (run, g) ↦ inl (run, λ b c hb ht hc. g b c hb (omega arith) hc)
      | inr (i, j, run, ff) ↦ inr (i, j, run, rw sum at ff)
    ]

write_block-hit : (d : Disk) (i j k l v : ℕ) → i ≡ k → j ≡ l → write_block d i j (v ∷ []) k l ≡ v
write_block-hit d i j k l v h1 h2 =
    let t1 : i == k ≡ true = ground arith in let t2 : j == l ≡ true = ground arith in rw (t1, t2)

write_block-miss :
    (d : Disk) (i j k l v : ℕ) → j == l ≡ false → write_block d i j (v ∷ []) k l ≡ d k l
write_block-miss d i j k l v h = elim (Bool-cases (i == k)) [
  | inl e ↦ let ik : i ≡ k = ground arith in rw (e, h) (ap (λ b. d b l) ik)
  | inr e ↦ rw e
]

write_block-other_block :
    (d : Disk) (i j k l v : ℕ) → i == k ≡ false → write_block d i j (v ∷ []) k l ≡ d k l
write_block-other_block d i j k l v h = rw h

-- The next free byte stands behind the one that was taken.
next-free :
    (d : Disk) (bottom top i j k l : ℕ)
    → FirstFree d bottom top i j
    → FirstFree (write_block d i j (255 ∷ [])) bottom top k l
    → (k < i) ⊎ ((k ≡ i) × (j < l))
next-free d bottom top i j k l f g = elim (ltb-cases k i) [
  | inl lt ↦ inl lt
  | inr ge ↦ elim (ℕ-cases i k) [
    | inl e ↦ elim (ltb-cases j l) [
      | inl jl ↦ inr (sym e, jl)
      | inr lj ↦ elim (ℕ-cases j l) [
        | inl ejl ↦ cc (g.free, write_block-hit d i j k l 255 e ejl)
        | inr njl ↦ absurd (
            f.before_taken l (ground arith)
              (ap (λ b. d b l) e ∙ sym (write_block-miss d i j k l 255 njl) ∙ g.free))
      ]
    ]
    | inr ne ↦ absurd (
        f.later_taken k l (ground arith) g.high g.byte
          (sym (write_block-other_block d i j k l 255 ne) ∙ g.free))
  ]
]

-- With a bitmap of one block, two calls of `getfreestartblkno` one after the other that both find a
-- block give runs of eight blocks that do not overlap: the second lies below the first. The disk has
-- the blocks that the bitmap speaks of, and their numbers fit into 32 bits.
getfreestartblkno-disjoint :
    (sb : Superblock) (d d1 d2 : Disk) (a b : ℕ)
    → sb.inodestart ≡ sb.bmapstart + 1
    → 4096 < sb.nblocks + sb.inodestart
    → sb.nblocks + sb.inodestart < 2 ^ 32
    → getfreestartblkno sb d ≡ (a, d1)
    → getfreestartblkno sb d1 ≡ (b, d2)
    → 0 < a
    → 0 < b
    → b + 8 ≤ a
getfreestartblkno-disjoint sb d d1 d2 a b h1 hn hw e1 e2 ha hb =
    elim (getfreestartblkno_lem sb d (omega arith)) [
      | inl (run, g) ↦ let z : 0 ≡ a = ap (λ r. r.0) (sym run ∙ e1) in absurd (omega arith)
      | inr (i, j, run, f) ↦
          let ea : free_start sb i j ≡ a = ap (λ r. r.0) (sym run ∙ e1) in
          let ed : write_block d i j (255 ∷ []) ≡ d1 = ap (λ r. r.1) (sym run ∙ e1) in
          elim (getfreestartblkno_lem sb d1 (omega arith)) [
            | inl (run2, g2) ↦ let z : 0 ≡ b = ap (λ r. r.0) (sym run2 ∙ e2) in absurd (omega arith)
            | inr (k, l, run2, g) ↦
                let eb : free_start sb k l ≡ b = ap (λ r. r.0) (sym run2 ∙ e2) in
                let g1 : FirstFree (write_block d i j (255 ∷ [])) sb.bmapstart sb.inodestart k l =
                  rw ed g in
                elim (next-free d sb.bmapstart sb.inodestart i j k l f g1) [
                  | inl lt ↦ absurd (omega (arith, f.high, g.low))
                  | inr (same, jl) ↦ omega (arith, f.low, f.high, g.low, g.high, f.byte, g.byte)
                ]
          ]
    ]

-- ===== src/Extents/Put.antt =====
-- Bytes put over a function, and over the blocks of an extent.
use uw_cse451_operating_syst.Base.{
  ltb-cases, drop, ◌/◌, take, ℕ, zero, suc, ◌+◌, ◌%◌, ◌≤◌, ◌<◌, ◌≡◌, inl, inr, refl, sym, ◌∙◌, true,
  false, List, [], ◌∷◌, arith, ◌==◌, length, ℕ-cases,
}
use uw_cse451_operating_syst.Extents.{Extent, Disk, bytes_from, put_bytes, write_block}
use uw_cse451_operating_syst.Extents.Bytes.{bytes_from-shift, in_extent}

pub put_bytes-before : (f : ℕ → ℕ) (o : ℕ) (vs : List ℕ) (i : ℕ) → i < o → put_bytes f o vs i ≡ f i
put_bytes-before f o [] i h = refl
put_bytes-before f o (v ∷ vs) i h =
    let ne : o == i ≡ false = ground arith in rw (ne, put_bytes-before f (o + 1) vs i (omega arith))

pub put_bytes-behind :
    (f : ℕ → ℕ) (o : ℕ) (vs : List ℕ) (i : ℕ) → o + length vs ≤ i → put_bytes f o vs i ≡ f i
put_bytes-behind f o [] i h = refl
put_bytes-behind f o (v ∷ vs) i h =
    let ne : o == i ≡ false = ground arith in rw (ne, put_bytes-behind f (o + 1) vs i (omega arith))

-- The same bytes at the same distance from the start.
pub put_bytes-shift :
    (f g : ℕ → ℕ) (o q : ℕ) (vs : List ℕ) (i j : ℕ)
    → i + q ≡ j + o
    → f i ≡ g j
    → put_bytes f o vs i ≡ put_bytes g q vs j
put_bytes-shift f g o q [] i j h e = e
put_bytes-shift f g o q (v ∷ vs) i j h e = elim (ℕ-cases o i) [
  | inl eq ↦
      let t : o == i ≡ true = ground arith in let u : q == j ≡ true = ground arith in rw (t, u)
  | inr ne ↦
      let u : q == j ≡ false = ground arith in
      rw (ne, u) (put_bytes-shift f g (o + 1) (q + 1) vs i j (omega arith) e)
]

-- In two pieces.
pub put_bytes-split :
    (m : ℕ) (f : ℕ → ℕ) (o : ℕ) (vs : List ℕ) (i : ℕ)
    → put_bytes (put_bytes f o (take m vs)) (o + m) (drop m vs) i ≡ put_bytes f o vs i
put_bytes-split zero f o vs i = put_bytes-shift f f (o + 0) o vs i i (omega arith) refl
put_bytes-split (suc m) f o [] i = refl
put_bytes-split (suc m) f o (v ∷ vs) i =
    let e : o + suc m ≡ o + 1 + m = omega arith in
    elim (ℕ-cases o i) [
      | inl eq ↦
          let t : o == i ≡ true = ground arith in
          put_bytes-before (put_bytes f o (v ∷ take m vs)) (o + suc m) (drop m vs) i (omega arith)
          ∙ rw t
      | inr ne ↦
          put_bytes-shift (put_bytes f o (v ∷ take m vs)) (put_bytes f (o + 1) (take m vs))
            (o + suc m) (o + 1 + m) (drop m vs) i i (omega arith) (rw ne)
          ∙ put_bytes-split m f (o + 1) vs i
          ∙ rw ne
    ]

-- What was put is read back.
pub bytes_from-put_bytes :
    (f : ℕ → ℕ) (o : ℕ) (vs : List ℕ) → bytes_from (put_bytes f o vs) o (length vs) ≡ vs
bytes_from-put_bytes f o [] = refl
bytes_from-put_bytes f o (v ∷ vs) =
    let self : o == o ≡ true = ground arith in
    let rest =
      bytes_from-shift (put_bytes f o (v ∷ vs)) (put_bytes f (o + 1) vs) (o + 1) (o + 1) (length vs)
        (λ i hi. let ne : o == o + 1 + i ≡ false = ground arith in rw ne) in
    rw (rest, self, bytes_from-put_bytes f (o + 1) vs)

-- A piece of one block, seen in the extent.
pub in_extent-write_block :
    (d : Disk) (e : Extent) (size : ℕ) (vs : List ℕ) (p : ℕ)
    → size % 512 + length vs ≤ 512
    → in_extent (write_block d (e.startblkno + size / 512) (size % 512) vs) e p
      ≡ put_bytes (in_extent d e) size vs p
in_extent-write_block d e size vs p h = elim (ℕ-cases (size / 512) (p / 512)) [
  | inl eq ↦
      let t : e.startblkno + size / 512 == e.startblkno + p / 512 ≡ true = ground arith in
      rw (t, eq)
        (put_bytes-shift (d (e.startblkno + p / 512)) (in_extent d e) (size % 512) size vs (p % 512)
          p (omega arith) refl)
  | inr ne ↦
      let t : e.startblkno + size / 512 == e.startblkno + p / 512 ≡ false = ground arith in
      rw t (
        sym (elim (ltb-cases p size) [
          | inl lt ↦ put_bytes-before (in_extent d e) size vs p lt
          | inr ge ↦ put_bytes-behind (in_extent d e) size vs p (ground arith)
        ]))
]

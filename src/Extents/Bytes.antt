-- ===== src/Extents/Bytes.antt =====
-- The bytes of a file as one function of the position: what an extent holds, and what a list of
-- extents holds in a row.
use uw_cse451_operating_syst.Base.{
  ◌/◌, ℕ, zero, suc, ◌+◌, ◌-◌, ◌%◌, ◌≤◌, ◌<◌, ◌≡◌, refl, sym, ap, ◌∙◌, List, [], ◌∷◌, ◌++◌, arith,
  ltb, if◌then◌else◌, length,
}
use uw_cse451_operating_syst.Extents.{Extent, Disk, extent_bytes, bytes_from}

-- Byte `p` of an extent.
abbrev pub in_extent : Disk → Extent → ℕ → ℕ
in_extent d e p = d (e.startblkno + p / 512) (p % 512)

-- Byte `p` of a file that lies in these extents, one after the other.
abbrev pub flat : Disk → List Extent → ℕ → ℕ
flat d [] p = 0
flat d (e ∷ es) p =
    if ltb p (extent_bytes e) then in_extent d e p else flat d es (p - extent_bytes e)

pub bytes_from-shift :
    (f g : ℕ → ℕ) (p q n : ℕ)
    → ((i : ℕ) → i < n → f (p + i) ≡ g (q + i))
    → bytes_from f p n ≡ bytes_from g q n
bytes_from-shift f g p q zero h = refl
bytes_from-shift f g p q (suc n) h =
    let ep : p + 0 ≡ p = omega arith in
    let eq : q + 0 ≡ q = omega arith in
    let first : f p ≡ g q = sym (ap f ep) ∙ h 0 (omega arith) ∙ ap g eq in
    rw (
      first,
      bytes_from-shift f g (p + 1) (q + 1) n (λ i hi.
          let es : p + suc i ≡ p + 1 + i = omega arith in
          let et : q + suc i ≡ q + 1 + i = omega arith in
          sym (ap f es) ∙ h (suc i) (omega arith) ∙ ap g et),
    )

pub bytes_from-add :
    (f : ℕ → ℕ) (p m k : ℕ) → bytes_from f p m ++ bytes_from f (p + m) k ≡ bytes_from f p (m + k)
bytes_from-add f p zero k =
    let e : p + 0 ≡ p = omega arith in let e0 : 0 + k ≡ k = omega arith in rw (e, e0)
bytes_from-add f p (suc m) k =
    let e : p + suc m ≡ p + 1 + m = omega arith in
    let e1 : suc m + k ≡ suc (m + k) = omega arith in rw (e, e1, bytes_from-add f (p + 1) m k)

pub length-bytes_from : (f : ℕ → ℕ) (p n : ℕ) → length (bytes_from f p n) ≡ n
length-bytes_from f p zero = refl
length-bytes_from f p (suc n) = ap suc (length-bytes_from f (p + 1) n)

-- The bytes that one block gives are the bytes of the extent.
pub bytes_from-in_extent :
    (d : Disk) (e : Extent) (size m : ℕ)
    → m ≤ 512 - size % 512
    → bytes_from (d (e.startblkno + size / 512)) (size % 512) m ≡ bytes_from (in_extent d e) size m
bytes_from-in_extent d e size m h =
    bytes_from-shift (d (e.startblkno + size / 512)) (in_extent d e) (size % 512) size m (λ i hi.
      let blk : (size + i) / 512 ≡ size / 512 = omega arith in
      let pos : (size + i) % 512 ≡ size % 512 + i = omega arith in rw (blk, pos))

-- ===== src/Extents/Read.antt =====
-- `readi` against the bytes of the file in a row.
use uw_cse451_operating_syst.Base.{
  ltb-cases, min, ℕ, zero, suc, ◌+◌, ◌-◌, ◌%◌, ◌^◌, ◌≤◌, ◌<◌, ◌≡◌, ◌≢◌, inl, inr, sym, ap, ◌∙◌,
  true, false, some, List, [], ◌∷◌, ◌++◌, arith, ◌==◌, ltb,
}
use mathlib.Core.List.{append_assoc, append-nil}
use uw_cse451_operating_syst.Extents.{
  t_dev, FileNode, DeviceRead, skip_extents, read_file, readi, sub32, read_bytes, Extent, Disk,
  extent_bytes, bytes_from, readi_loop,
}
use uw_cse451_operating_syst.Extents.Bytes.{
  bytes_from-shift, bytes_from-add, bytes_from-in_extent, flat, in_extent,
}

module _ (fuel : ℕ) (d : Disk) (e : Extent) (es : List Extent) (off size r : ℕ) (out : List ℕ) where
  -- One round in a block.
  readi_loop-block :
      size < extent_bytes e
      → 0 < r
      → readi_loop (suc fuel) d (e ∷ es) off size r out ≡ (
          let m = min r (512 - size % 512) in
          readi_loop fuel d
            (e ∷ es)
            (off + m)
            (size + m)
            (r - m)
            (out ++ bytes_from (in_extent d e) size m))
  unfolding readi_loop
  readi_loop-block h hr =
      let nz : r == 0 ≡ false = ground arith in
      let lt : ltb size (extent_bytes e) ≡ true = ground arith in
      rw (nz, lt, bytes_from-in_extent d e size (min r (512 - size % 512)) (omega arith))

  -- One round that moves to the next extent.
  readi_loop-next :
      extent_bytes e ≤ size
      → 0 < r
      → readi_loop (suc fuel) d (e ∷ es) off size r out
        ≡ readi_loop fuel d es off (sub32 off size) r out
  unfolding readi_loop
  readi_loop-next h hr =
      let nz : r == 0 ≡ false = ground arith in
      let ge : ltb size (extent_bytes e) ≡ false = ground arith in rw (nz, ge)

  -- The bytes of a round and those of the rounds behind it.
  read_both :
      (f : ℕ → ℕ) (m : ℕ)
      → m ≤ r
      → read_bytes ((out ++ bytes_from f size m) ++ bytes_from f (size + m) (r - m))
        ≡ read_bytes (out ++ bytes_from f size r)
  read_both f m h =
      let split : m + (r - m) ≡ r = omega arith in
      ap read_bytes (
        append_assoc out (bytes_from f size m) (bytes_from f (size + m) (r - m))
        ∙ ap (λ bs. out ++ bs)
            (bytes_from-add f size m (r - m) ∙ ap (λ n. bytes_from f size n) split))

-- Reading that stays in one extent: `size` is the position in it.
pub readi_loop-inside :
    (fuel : ℕ) (d : Disk) (e : Extent) (es : List Extent) (off size r : ℕ) (out : List ℕ)
    → size + r ≤ extent_bytes e
    → r < fuel
    → readi_loop fuel d (e ∷ es) off size r out
      ≡ read_bytes (out ++ bytes_from (in_extent d e) size r)
unfolding readi_loop
readi_loop-inside zero d e es off size r out h hf = absurd (omega arith)
readi_loop-inside (suc fuel) d e es off size zero out h hf = rw (append-nil out)
readi_loop-inside (suc fuel) d e es off size (suc k) out h hf =
    let m : ℕ = min (suc k) (512 - size % 512) in
    readi_loop-block fuel d e es off size (suc k) out (omega arith) (omega arith)
    ∙ readi_loop-inside fuel d e es (off + m) (size + m) (suc k - m)
        (out ++ bytes_from (in_extent d e) size m) (omega arith) (omega arith)
    ∙ read_both fuel d e es off size (suc k) out (in_extent d e) m (omega arith)

pub flat-first :
    (d : Disk) (e : Extent) (es : List Extent) (p : ℕ)
    → p < extent_bytes e
    → flat d (e ∷ es) p ≡ in_extent d e p
flat-first d e es p h = ground arith

flat-second :
    (d : Disk) (e e2 : Extent) (es : List Extent) (p : ℕ)
    → p < extent_bytes e2
    → flat d (e ∷ e2 ∷ es) (extent_bytes e + p) ≡ in_extent d e2 p
flat-second d e e2 es p h =
    let far : ltb (extent_bytes e + p) (extent_bytes e) ≡ false = ground arith in
    let near : ltb p (extent_bytes e2) ≡ true = ground arith in
    let back : extent_bytes e + p - extent_bytes e ≡ p = omega arith in rw (far, back, near)

bytes_from-second :
    (d : Disk) (e e2 : Extent) (es : List Extent) (p n : ℕ)
    → p + n ≤ extent_bytes e2
    → bytes_from (in_extent d e2) p n ≡ bytes_from (flat d (e ∷ e2 ∷ es)) (extent_bytes e + p) n
bytes_from-second d e e2 es p n h =
    bytes_from-shift (in_extent d e2) (flat d (e ∷ e2 ∷ es)) p (extent_bytes e + p) n (λ i hi.
      let assoc : extent_bytes e + (p + i) ≡ extent_bytes e + p + i = omega arith in
      sym (flat-second d e e2 es (p + i) (omega arith)) ∙ ap (flat d (e ∷ e2 ∷ es)) assoc)

-- Reading from the first extent, perhaps into the second: there `size` is `off` itself.
pub readi_loop-two :
    (fuel : ℕ) (d : Disk) (e e2 : Extent) (es : List Extent) (off r : ℕ) (out : List ℕ)
    → off ≤ extent_bytes e
    → off + r ≤ extent_bytes e + extent_bytes e2
    → r + 1 < fuel
    → readi_loop fuel d (e ∷ e2 ∷ es) off off r out
      ≡ read_bytes (out ++ bytes_from (flat d (e ∷ e2 ∷ es)) off r)
unfolding readi_loop
readi_loop-two zero d e e2 es off r out h h2 hf = absurd (omega arith)
readi_loop-two (suc fuel) d e e2 es off zero out h h2 hf = rw (append-nil out)
readi_loop-two (suc fuel) d e e2 es off (suc k) out h h2 hf =
    elim (ltb-cases off (extent_bytes e)) [
      | inl lt ↦
          let m : ℕ = min (suc k) (512 - off % 512) in
          let here =
            bytes_from-shift (in_extent d e) (flat d (e ∷ e2 ∷ es)) off off m
              (λ i hi. sym (flat-first d e (e2 ∷ es) (off + i) (omega arith))) in
          readi_loop-block fuel d e (e2 ∷ es) off off (suc k) out lt (omega arith)
          ∙ ap (λ bs. readi_loop fuel d (e ∷ e2 ∷ es) (off + m) (off + m) (suc k - m) (out ++ bs))
              here
          ∙ readi_loop-two fuel d e e2 es (off + m) (suc k - m)
              (out ++ bytes_from (flat d (e ∷ e2 ∷ es)) off m) (omega arith) (omega arith)
              (omega arith)
          ∙ read_both fuel d e es off off (suc k) out (flat d (e ∷ e2 ∷ es)) m (omega arith)
      | inr ge ↦
          let zero_size : sub32 off off ≡ 0 = omega arith in
          let at_end : extent_bytes e + 0 ≡ off = omega arith in
          readi_loop-next fuel d e (e2 ∷ es) off off (suc k) out ge (omega arith)
          ∙ ap (λ s. readi_loop fuel d (e2 ∷ es) off s (suc k) out) zero_size
          ∙ readi_loop-inside fuel d e2 es off 0 (suc k) out (omega arith) (omega arith)
          ∙ ap (λ bs. read_bytes (out ++ bs))
              (bytes_from-second d e e2 es 0 (suc k) (omega arith)
                ∙ ap (λ p. bytes_from (flat d (e ∷ e2 ∷ es)) p (suc k)) at_end)
    ]

pub skip_extents-first :
    (e : Extent) (es : List Extent) (off : ℕ)
    → off ≤ extent_bytes e
    → skip_extents (e ∷ es) 0 off ≡ some (e ∷ es, 0)
unfolding skip_extents
skip_extents-first e es off h =
    let stop : ltb (0 + extent_bytes e) off ≡ false = ground arith in rw stop

pub skip_extents-second :
    (e e2 : Extent) (es : List Extent) (off : ℕ)
    → extent_bytes e < off
    → off ≤ extent_bytes e + extent_bytes e2
    → skip_extents (e ∷ e2 ∷ es) 0 off ≡ some (e2 ∷ es, extent_bytes e)
unfolding skip_extents
skip_extents-second e e2 es off h h2 =
    let skip : ltb (0 + extent_bytes e) off ≡ true = ground arith in
    let stop : ltb (0 + extent_bytes e + extent_bytes e2) off ≡ false = ground arith in
    let sum : 0 + extent_bytes e ≡ extent_bytes e = omega arith in rw (skip, stop, sum)

pub read_file-two :
    (d : Disk) (ip : FileNode) (e e2 : Extent) (es : List Extent) (off n : ℕ)
    → ip.extents ≡ e ∷ e2 ∷ es
    → off + n ≤ extent_bytes e + extent_bytes e2
    → read_file d ip off n ≡ read_bytes (bytes_from (flat d (e ∷ e2 ∷ es)) off n)
unfolding read_file
read_file-two d ip e e2 es off n hx hc = elim (ltb-cases (extent_bytes e) off) [
  | inl lt ↦
      let back : extent_bytes e + (off - extent_bytes e) ≡ off = omega arith in
      rw (read_file, hx, skip_extents-second e e2 es off lt (omega arith))
        (readi_loop-inside (n + 7 + 1) d e2 es off (off - extent_bytes e) n [] (omega arith)
            (omega arith)
          ∙ ap read_bytes (
              bytes_from-second d e e2 es (off - extent_bytes e) n (omega arith)
              ∙ ap (λ p. bytes_from (flat d (e ∷ e2 ∷ es)) p n) back))
  | inr ge ↦
      let all : off - 0 ≡ off = omega arith in
      rw (read_file, hx, skip_extents-first e (e2 ∷ es) off ge, all)
        (readi_loop-two (n + 7 + 1) d e e2 es off n [] ge hc (omega arith))
]

-- `readi` on a file whose first two extents cover what is asked for returns these bytes of the extents,
-- one extent after the other, and as many as were asked for: also those that lie behind the size of
-- the file, where the tests of the labs expect only the bytes before it. The caller holds the lock, the
-- file is no device, the offset is not beyond the size, and the sum does not wrap round.
pub readi_lem :
    (devs : DeviceRead) (d : Disk) (ip : FileNode) (e e2 : Extent) (es : List Extent) (off n : ℕ)
    → ip.locked ≡ true
    → ip.type ≢ t_dev
    → ip.extents ≡ e ∷ e2 ∷ es
    → off ≤ ip.size
    → off + n < 2 ^ 32
    → off + n ≤ extent_bytes e + extent_bytes e2
    → readi devs d ip off n ≡ read_bytes (bytes_from (flat d (e ∷ e2 ∷ es)) off n)
unfolding readi
readi_lem devs d ip e e2 es off n hl ht hx hs hw hc =
    let file : ip.type == t_dev ≡ false = ground arith in
    let in_size : ltb ip.size off ≡ false = ground arith in
    let no_wrap : ltb ((off + n) % 2 ^ 32) off ≡ false = ground arith in
    simp (hl, file, in_size, no_wrap, read_file-two d ip e e2 es off n hx hc)

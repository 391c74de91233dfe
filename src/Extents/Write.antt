-- ===== src/Extents/Write.antt =====
-- `writei` inside the first extent of a file, and `readi` after it.
use uw_cse451_operating_syst.Base.{
  drop-all, take-length, length-take, length-drop, drop, take, ◌/◌, min, ℕ, zero, suc, ◌+◌, ◌-◌,
  ◌%◌, ◌^◌, ◌≤◌, ◌<◌, ◌≡◌, ◌≢◌, ◌⊎◌, refl, ap, ◌∙◌, true, false, some, List, [], ◌∷◌, arith, ◌==◌,
  ltb, length,
}
use uw_cse451_operating_syst.Extents.{
  bytes_from, read_bytes, readi, DeviceRead, wrote, t_dev, FileNode, Superblock, DeviceWrite,
  capacity, write_file, write_within, writei, Extent, Disk, extent_bytes, put_bytes, write_block,
  writei_loop,
}
use uw_cse451_operating_syst.Extents.Bytes.{bytes_from-shift, flat, in_extent}
use uw_cse451_operating_syst.Extents.Put.{
  bytes_from-put_bytes, put_bytes-split, in_extent-write_block, put_bytes-shift,
}
use uw_cse451_operating_syst.Extents.Read.{
  flat-first, readi_lem, skip_extents-second, skip_extents-first,
}

-- A disk on which the bytes `src` stand in an extent from `off` on, and all else is as it was.
pub record Written (d : Disk) (e : Extent) (off : ℕ) (src : List ℕ) (d1 : Disk) : Type 0 where
  pub inside : (p : ℕ) → in_extent d1 e p ≡ put_bytes (in_extent d e) off src p
  pub elsewhere : (b c : ℕ) → (b < e.startblkno) ⊎ (e.startblkno + e.nblocks ≤ b) → d1 b c ≡ d b c

writei_loop-block :
    (fuel : ℕ) (d : Disk) (e : Extent) (es : List Extent) (off : ℕ) (src : List ℕ)
    → off < extent_bytes e
    → 0 < length src
    → writei_loop (suc fuel) d (e ∷ es) off off src ≡ (
        let m = min (length src) (512 - off % 512) in
        writei_loop fuel
          (write_block d (e.startblkno + off / 512) (off % 512) (take m src))
          (e ∷ es)
          (off + m)
          (off + m)
          (drop m src))
unfolding writei_loop
writei_loop-block fuel d e es off [] h hs = absurd (omega arith)
writei_loop-block fuel d e es off (v ∷ vs) h hs =
    let lt : ltb off (extent_bytes e) ≡ true = ground arith in rw lt

pub writei_loop-first :
    (fuel : ℕ) (d : Disk) (e : Extent) (es : List Extent) (off : ℕ) (src : List ℕ)
    → off + length src ≤ extent_bytes e
    → length src < fuel
    → (d1 : Disk) × (writei_loop fuel d (e ∷ es) off off src ≡ some d1) × Written d e off src d1
unfolding writei_loop
writei_loop-first zero d e es off src h hf = absurd (omega arith)
writei_loop-first (suc fuel) d e es off [] h hf =
    (d, refl, record { inside = λ p. refl; elsewhere = λ b c hb. refl })
writei_loop-first (suc fuel) d e es off (v ∷ vs) h hf =
    let m : ℕ = min (length (v ∷ vs)) (512 - off % 512) in
    let dm : Disk = write_block d (e.startblkno + off / 512) (off % 512) (take m (v ∷ vs)) in
    let len = length-drop m (v ∷ vs) in
    let taken = length-take m (v ∷ vs) in
    let (d1, run, w) =
      writei_loop-first fuel dm e es (off + m) (drop m (v ∷ vs)) (omega (arith, len))
        (omega (arith, len)) in
    (
      d1,
      writei_loop-block fuel d e es off (v ∷ vs) (omega arith) (omega arith) ∙ run,
      record {
        inside = λ p.
            w.inside p
            ∙ put_bytes-shift (in_extent dm e) (put_bytes (in_extent d e) off (take m (v ∷ vs)))
                (off + m) (off + m) (drop m (v ∷ vs)) p p refl
                (in_extent-write_block d e off (take m (v ∷ vs)) p (omega (arith, taken)))
            ∙ put_bytes-split m (in_extent d e) off (v ∷ vs) p;
        elsewhere = λ b c hb.
            let ne : e.startblkno + off / 512 == b ≡ false = ground arith in
            w.elsewhere b c hb ∙ rw ne;
      },
    )

-- The run of `writei` on bytes for which there is room.
writei-within :
    (devs : DeviceWrite) (sb : Superblock) (d d1 : Disk) (ip : FileNode) (off : ℕ) (src : List ℕ)
    → ip.locked ≡ true
    → ip.type ≢ t_dev
    → off + length src < 2 ^ 32
    → off + length src ≤ capacity ip.extents
    → write_within d ip.extents off src ≡ some d1
    → writei devs sb d ip off src ≡ wrote (length src) d1 ip.extents
unfolding writei write_file
writei-within devs sb d d1 ip off src hl ht hw hc run =
    let file : ip.type == t_dev ≡ false = ground arith in
    let no_wrap : ltb ((off + length src) % 2 ^ 32) off ≡ false = ground arith in
    let in_cap : ltb (capacity ip.extents) off ≡ false = ground arith in
    let room : ltb (capacity ip.extents) (off + length src) ≡ false = ground arith in
    simp (hl, file, no_wrap, in_cap, write_file, room, take-length src, run)

-- `writei` inside the first extent of a file puts the bytes there and nowhere else, and returns their
-- number; the extents stay as they are. The caller holds the lock, and the sum does not wrap round.
pub writei-Written :
    (devs : DeviceWrite) (sb : Superblock) (d : Disk) (ip : FileNode) (e : Extent)
    (es : List Extent) (off : ℕ) (src : List ℕ)
    → ip.locked ≡ true
    → ip.type ≢ t_dev
    → ip.extents ≡ e ∷ es
    → off + length src < 2 ^ 32
    → off + length src ≤ extent_bytes e
    → (d1 : Disk) × (writei devs sb d ip off src ≡ wrote (length src) d1 ip.extents)
      × Written d e off src d1
unfolding write_within capacity
writei-Written devs sb d ip e es off src hl ht hx hw hc =
    let (d1, run, w) = writei_loop-first (length src + 7 + 1) d e es off src hc (omega arith) in
    let all : off - 0 ≡ off = omega arith in
    let within : write_within d ip.extents off src ≡ some d1 =
      rw (hx, write_within, skip_extents-first e es off (omega arith), all) run in
    let room : off + length src ≤ capacity ip.extents = rw hx (omega arith) in
    (d1, writei-within devs sb d d1 ip off src hl ht hw room within, w)

-- What `writei` writes into the first extent is what `readi` then returns. The caller holds the lock,
-- the file is no device, the offset is not beyond its size, and the sum does not wrap round.
pub readi-writei :
    (reads : DeviceRead) (devs : DeviceWrite) (sb : Superblock) (d : Disk) (ip : FileNode)
    (e e2 : Extent) (es : List Extent) (off : ℕ) (src : List ℕ)
    → ip.locked ≡ true
    → ip.type ≢ t_dev
    → ip.extents ≡ e ∷ e2 ∷ es
    → off ≤ ip.size
    → off + length src < 2 ^ 32
    → off + length src ≤ extent_bytes e
    → (d1 : Disk) × (writei devs sb d ip off src ≡ wrote (length src) d1 ip.extents)
      × (readi reads d1 ip off (length src) ≡ read_bytes src)
readi-writei reads devs sb d ip e e2 es off src hl ht hx hs hw hc =
    let (d1, run, w) = writei-Written devs sb d ip e (e2 ∷ es) off src hl ht hx hw hc in
    (
      d1,
      run,
      readi_lem reads d1 ip e e2 es off (length src) hl ht hx hs hw (omega arith)
          ∙ ap read_bytes (
              bytes_from-shift (flat d1 (e ∷ e2 ∷ es)) (put_bytes (in_extent d e) off src) off off
                (length src)
                (λ i hi. flat-first d1 e (e2 ∷ es) (off + i) (omega arith) ∙ w.inside (off + i))
              ∙ bytes_from-put_bytes (in_extent d e) off src),
    )

writei_loop-end :
    (fuel : ℕ) {d : Disk} (es : List Extent) (off size : ℕ) {src : List ℕ}
    → src ≡ []
    → writei_loop (suc fuel) d es off size src ≡ some d
unfolding writei_loop
writei_loop-end fuel [] off size h = rw h refl
writei_loop-end fuel (e ∷ es) off size h = rw h refl

-- Bytes that stay in one block take one round.
writei_loop-in_block :
    (fuel : ℕ) (d : Disk) (e : Extent) (es : List Extent) (off size : ℕ) (src : List ℕ)
    → size < extent_bytes e
    → 0 < length src
    → size % 512 + length src ≤ 512
    → writei_loop (suc (suc fuel)) d (e ∷ es) off size src
      ≡ some (write_block d (e.startblkno + off / 512) (size % 512) src)
unfolding writei_loop
writei_loop-in_block fuel d e es off size [] h some_bytes fits = absurd (omega arith)
writei_loop-in_block fuel d e es off size (v ∷ vs) h some_bytes fits =
    let lt : ltb size (extent_bytes e) ≡ true = ground arith in
    let all : min (length (v ∷ vs)) (512 - size % 512) ≡ length (v ∷ vs) = omega arith in
    let b : ℕ = e.startblkno + off / 512 in
    rw lt (
      ap
        (λ m.
          writei_loop (suc fuel) (write_block d b (size % 512) (take m (v ∷ vs))) (e ∷ es) (off + m)
            (size + m) (drop m (v ∷ vs)))
        all
      ∙ writei_loop-end fuel (e ∷ es) _ _ (drop-all (v ∷ vs))
      ∙ ap (λ bs. some (write_block d b (size % 512) bs)) (take-length (v ∷ vs)))

-- What `writei` writes into one block's length of the second extent of a file, behind the first byte of
-- that extent, goes to a block of the disk that is as far from the start of that extent as the bytes
-- are from the start of the file: these bytes of the file stay as they were. The caller holds the lock,
-- the file is no device, the first extent is not empty, the bytes do not cross the border of a block,
-- there is at least one, and their end fits into 32 bits.
pub writei-second_extent :
    (devs : DeviceWrite) (sb : Superblock) (d : Disk) (ip : FileNode) (e e2 : Extent)
    (es : List Extent) (off : ℕ) (src : List ℕ)
    → ip.locked ≡ true
    → ip.type ≢ t_dev
    → ip.extents ≡ e ∷ e2 ∷ es
    → off + length src < 2 ^ 32
    → 0 < e.nblocks
    → extent_bytes e < off
    → off < extent_bytes e + extent_bytes e2
    → 0 < length src
    → off % 512 + length src ≤ 512
    → (d1 : Disk) × (writei devs sb d ip off src ≡ wrote (length src) d1 ip.extents)
      × (bytes_from (d1 (e2.startblkno + off / 512)) (off % 512) (length src) ≡ src)
      × ((i : ℕ)
          → i < length src
          → flat d1 (e ∷ e2 ∷ es) (off + i) ≡ flat d (e ∷ e2 ∷ es) (off + i))
unfolding capacity write_within
writei-second_extent devs sb d ip e e2 es off src hl ht hx hw hn h h2 some_bytes fits =
    let pos : ℕ = off - extent_bytes e in
    let same : pos % 512 ≡ off % 512 = omega arith in
    let b : ℕ = e2.startblkno + off / 512 in
    let d1 : Disk = write_block d b (off % 512) src in
    let fuel : length src + 7 + 1 ≡ suc (suc (length src + 6)) = omega arith in
    let within : write_within d ip.extents off src ≡ some d1 =
      rw (hx, write_within, skip_extents-second e e2 es off h (omega arith), fuel)
        (writei_loop-in_block (length src + 6) d e2 es off pos src (omega arith) some_bytes
            (omega arith)
          ∙ ap (λ o. some (write_block d b o src)) same) in
    let room : off + length src ≤ capacity ip.extents = rw hx (omega arith) in
    let here : b == b ≡ true = ground arith in
    (
      d1,
      writei-within devs sb d d1 ip off src hl ht hw room within,
      rw here (bytes_from-put_bytes (d b) (off % 512) src),
      λ i hi.
          let far : ltb (off + i) (extent_bytes e) ≡ false = ground arith in
          let near : ltb (off + i - extent_bytes e) (extent_bytes e2) ≡ true = ground arith in
          let apart : b == e2.startblkno + (off + i - extent_bytes e) / 512 ≡ false =
            ground arith in
          rw (far, near, apart),
    )

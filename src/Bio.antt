-- ===== src/Bio.antt =====
-- The buffer cache, kernel/bio.c: `binit`, `bget`, `bread`, `bwrite` and `brelse` over the list of
-- buffers from `bcache.head.next` on, the one that was used last first. Each routine holds
-- `bcache.lock` while it works on the list. A buffer whose sleep lock is taken makes the caller wait,
-- here `hang`.
pub mod Unique
use uw_cse451_operating_syst.Base.{
  ℕ, zero, suc, ◌+◌, ◌-◌, ◌*◌, ◌%◌, ◌^◌, ◌≤◌, ◌<◌, ◌≡◌, ◌≢◌, ◌⊎◌, inl, inr, refl, sym, ap, ◌∙◌,
  Bool, true, false, ◌&&◌, not, Option, none, some, List, [], ◌∷◌, ◌++◌, arith, ◌==◌, ltb, leb,
  if◌then◌else◌, length, get_elem?, set, Bool-cases, Option-cases, ℕ-cases,
}
use uw_cse451_operating_syst.Base.Outcome.{◌>>=◌, Outcome, done, panic, hang}

abbrev pub nbuf : ℕ
nbuf = 30

-- `index` names the element of `bcache.buf`; `valid` and `dirty` are the two bits of `flags`.
pub record Buf : Type 0 where
  pub index : ℕ
  pub dev : ℕ
  pub blockno : ℕ
  pub valid : Bool
  pub dirty : Bool
  pub refcnt : ℕ
  pub locked : Bool
  pub bytes : ℕ → ℕ

abbrev pub free_buf : ℕ → Buf
free_buf i = record {
  index = i;
  dev = 0;
  blockno = 0;
  valid = false;
  dirty = false;
  refcnt = 0;
  locked = false;
  bytes = λ p. 0;
}

-- The loop of `binit` with `count` buffers left: each goes to the front.
unfoldable pub binit : (count i : ℕ) → List Buf → List Buf
binit zero i bs = bs
binit (suc count) i bs = binit count (i + 1) (free_buf i ∷ bs)

-- `b->dev == dev && b->blockno == blockno`
abbrev pub holds : Buf → (dev blockno : ℕ) → Bool
holds b dev blockno = if b.dev == dev then b.blockno == blockno else false

abbrev pub claim : Buf → Buf
claim b = record b { refcnt = (b.refcnt + 1) % 2 ^ 32 }

-- The first loop of `bget`: the buffer of the block, with the list that has one reference more.
unfoldable pub find_block : List Buf → (dev blockno : ℕ) → Option (Buf × List Buf)
find_block [] dev blockno = none
find_block (b ∷ bs) dev blockno =
    let rest = find_block bs dev blockno in
    if holds b dev blockno
    then some (claim b, claim b ∷ bs)
    else elim rest [ none ↦ none | some (f, fs) ↦ some (f, b ∷ fs) ]

abbrev pub for_block : Buf → (dev blockno : ℕ) → Buf
for_block b dev k = record b { dev = dev; blockno = k; valid = false; dirty = false; refcnt = 1 }

-- The second loop of `bget`, from the end of the list: the unused clean buffer that comes first.
unfoldable pub recycle : List Buf → (dev blockno : ℕ) → Option (Buf × List Buf)
recycle [] dev blockno = none
recycle (b ∷ bs) dev blockno =
    let behind = recycle bs dev blockno in
    elim behind [
      | some (f, fs) ↦ some (f, b ∷ fs)
      | none ↦
          if b.refcnt == 0
          then if b.dirty
            then none
            else some (for_block b dev blockno, for_block b dev blockno ∷ bs)
          else none
    ]

-- A change of the buffer with this index.
unfoldable pub update : (Buf → Buf) → (index : ℕ) → List Buf → List Buf
update f i [] = []
update f i (b ∷ bs) = if b.index == i then f b ∷ update f i bs else b ∷ update f i bs

-- `acquiresleep` of the buffer that was found.
abbrev pub lock_buf : Buf × List Buf → Outcome (Buf × List Buf)
lock_buf (b, bs) =
    if b.locked
    then hang
    else done (record b { locked = true }, update (λ x. record x { locked = true }) b.index bs)

unfoldable pub bget : List Buf → (dev blockno : ℕ) → Outcome (Buf × List Buf)
bget bs dev blockno = elim (find_block bs dev blockno) [
  | some r ↦ lock_buf r
  | none ↦ elim (recycle bs dev blockno) [ some r ↦ lock_buf r | none ↦ panic ]
]

-- `iderw` reads a buffer that is not dirty from the disk, and leaves it valid.
abbrev pub fetch : (ℕ → ℕ → ℕ) → Buf → Buf
fetch disk b = record b { bytes = disk b.blockno; valid = true }

unfoldable pub bread : (disk : ℕ → ℕ → ℕ) → List Buf → (dev blockno : ℕ) → Outcome (Buf × List Buf)
bread disk bs dev blockno = bget bs dev blockno >>= (λ (b, cs).
    if b.valid then done (b, cs) else done (fetch disk b, update (fetch disk) b.index cs))

-- `iderw` writes a dirty buffer to the disk and clears the bit.
abbrev pub store : (ℕ → ℕ → ℕ) → Buf → ℕ → ℕ → ℕ
store disk b k = if b.blockno == k then b.bytes else disk k

unfoldable pub bwrite : (disk : ℕ → ℕ → ℕ) → List Buf → Buf → Outcome ((ℕ → ℕ → ℕ) × List Buf)
bwrite disk bs b =
    if b.locked
    then done (
      store disk b,
      update (λ x. record x { bytes = b.bytes; dirty = false; valid = true }) b.index bs,
    )
    else panic

abbrev pub unclaim : Buf → Buf
unclaim b = record b { refcnt = (b.refcnt + (2 ^ 32 - 1)) % 2 ^ 32; locked = false }

-- The buffer with this index, and the list without it.
unfoldable pub unlink : (index : ℕ) → List Buf → Option (Buf × List Buf)
unlink i [] = none
unlink i (b ∷ bs) =
    let rest = unlink i bs in
    if b.index == i
    then some (b, bs)
    else elim rest [ none ↦ none | some (f, fs) ↦ some (f, b ∷ fs) ]

-- A buffer that nobody uses any more moves to the front.
unfoldable pub brelse : List Buf → (index : ℕ) → Outcome (List Buf)
brelse bs i = elim (unlink i bs) [
  | none ↦ panic
  | some (b, rest) ↦
      if not b.locked
      then panic
      else if (unclaim b).refcnt == 0
      then done (unclaim b ∷ rest)
      else done (update unclaim i bs)
]

-- ===== src/Extents.antt =====
-- Files as sequences of extents, kernel/fs.c: `readi`, `writei`, `appendi`, `getCapacity` and
-- `getfreestartblkno`, over a disk that is a function from blocks and offsets to bytes. The buffer
-- cache is not seen here: `bread` gives the bytes of the block, and `bwrite` puts them back.
pub mod Bytes
pub mod Read
pub mod Put
pub mod Write
pub mod Grow
pub mod Append
use uw_cse451_operating_syst.Base.{
  ℕ, zero, suc, ◌+◌, ◌-◌, ◌*◌, ◌/◌, ◌%◌, ◌^◌, ◌≡◌, min, Bool, true, false, ◌&&◌, ◌||◌, not, Option,
  none, some, List, [], ◌∷◌, ◌++◌, ltb, leb, ◌==◌, if◌then◌else◌, take, drop, length,
}

abbrev pub block_size : ℕ
block_size = 512

abbrev pub extent_n : ℕ
extent_n = 7

pub record Extent : Type 0 where
  pub startblkno : ℕ
  pub nblocks : ℕ

abbrev pub Disk : Type 0
Disk = ℕ → ℕ → ℕ

-- `data->nblocks * BSIZE`. This and the sums over extents below are `uint`s in C and numbers here: they
-- agree on a disk of less than 4 GB.
abbrev pub extent_bytes : Extent → ℕ
extent_bytes e = e.nblocks * 512

-- The `m` bytes of `f` from position `p` on.
abbrev pub bytes_from : (ℕ → ℕ) → (p m : ℕ) → List ℕ
bytes_from f p zero = []
bytes_from f p (suc m) = f p ∷ bytes_from f (p + 1) m

-- How `readi` ends: with the bytes, with -1, by a panic, or by running past `data[EXTENT_N - 1]`
-- (which C does not define) or round the loop for ever.
pub data ReadEnd : Type 0 where
  read_bytes : List ℕ → ReadEnd
  read_error : ReadEnd
  read_panic : ReadEnd
  past_extents : ReadEnd
  no_fuel : ReadEnd

-- The fields of `struct inode` that matter here; `locked` is its sleep lock.
pub record FileNode : Type 0 where
  pub locked : Bool
  pub type : ℕ
  pub devid : ℕ
  pub size : ℕ
  pub extents : List Extent

abbrev pub t_dev : ℕ
t_dev = 3

abbrev pub sub32 : ℕ → ℕ → ℕ
sub32 a b = (a + 2 ^ 32 - b) % 2 ^ 32

-- `while (size + data->nblocks * BSIZE < off)`: the extents that are left, and `size`.
unfoldable pub skip_extents : List Extent → (size off : ℕ) → Option (List Extent × ℕ)
skip_extents [] size off = none
skip_extents (e ∷ es) size off =
    let rest = skip_extents es (size + extent_bytes e) off in
    if ltb (size + extent_bytes e) off then rest else some (e ∷ es, size)

-- The loop of `readi`: `r` bytes are still to be read, `size` is the position in the extent.
unfoldable pub readi_loop : (fuel : ℕ) → Disk → List Extent → (off size r : ℕ) → List ℕ → ReadEnd
readi_loop zero d es off size r out = no_fuel
readi_loop (suc fuel) d [] off size r out = if r == 0 then read_bytes out else past_extents
readi_loop (suc fuel) d (e ∷ es) off size r out =
    let m = min r (512 - size % 512) in
    let inside =
      readi_loop fuel d (e ∷ es) (off + m) (size + m) (r - m)
        (out ++ bytes_from (d (e.startblkno + size / 512)) (size % 512) m) in
    let beyond = readi_loop fuel d es off (sub32 off size) r out in
    if r == 0 then read_bytes out else if ltb size (extent_bytes e) then inside else beyond

-- `devsw[].read` for each device, if there is one.
abbrev pub DeviceRead : Type 0
DeviceRead = ℕ → Option (ℕ → ReadEnd)

unfoldable pub read_device : DeviceRead → (devid n : ℕ) → ReadEnd
read_device devs devid n =
    if leb 10 devid
    then read_error
    else elim (devs devid) [ none ↦ read_error | some read ↦ read n ]

unfoldable pub read_file : Disk → FileNode → (off n : ℕ) → ReadEnd
read_file d ip off n = elim (skip_extents ip.extents 0 off) [
  | none ↦ past_extents
  | some (es, size) ↦ readi_loop (n + extent_n + 1) d es off (off - size) n []
]

unfoldable pub readi : DeviceRead → Disk → FileNode → (off n : ℕ) → ReadEnd
readi devs d ip off n =
    if not ip.locked
    then read_panic
    else if ip.type == t_dev
    then read_device devs ip.devid n
    else if ltb ip.size off || ltb ((off + n) % 2 ^ 32) off
    then read_error
    else read_file d ip off n

-- `getCapacity`
unfoldable pub capacity : List Extent → ℕ
capacity [] = 0
capacity (e ∷ es) = extent_bytes e + capacity es

-- Bytes put into one block from an offset on.
abbrev pub put_bytes : (ℕ → ℕ) → ℕ → List ℕ → ℕ → ℕ
put_bytes f o [] i = f i
put_bytes f o (v ∷ vs) i = if o == i then v else put_bytes f (o + 1) vs i

abbrev pub write_block : Disk → ℕ → ℕ → List ℕ → Disk
write_block d b o vs c = if b == c then put_bytes (d b) o vs else d c

-- The loop of `writei` over the bytes `src`. The block is that of `off`, not of `size`.
unfoldable pub writei_loop :
    (fuel : ℕ) → Disk → List Extent → (off size : ℕ) → (src : List ℕ) → Option Disk
writei_loop zero d es off size src = none
writei_loop (suc fuel) d [] off size [] = some d
writei_loop (suc fuel) d [] off size (v ∷ vs) = none
writei_loop (suc fuel) d (e ∷ es) off size [] = some d
writei_loop (suc fuel) d (e ∷ es) off size (v ∷ vs) =
    let m = min (length (v ∷ vs)) (512 - size % 512) in
    let inside =
      writei_loop fuel (write_block d (e.startblkno + off / 512) (size % 512) (take m (v ∷ vs)))
        (e ∷ es) (off + m) (size + m) (drop m (v ∷ vs)) in
    let beyond = writei_loop fuel d es off (sub32 off size) (v ∷ vs) in
    if ltb size (extent_bytes e) then inside else beyond

abbrev pub used_extents : List Extent → ℕ
used_extents [] = 0
used_extents (e ∷ es) = if e.nblocks == 0 then 0 else suc (used_extents es)

-- The fields of the super block that `getfreestartblkno` reads.
pub record Superblock : Type 0 where
  pub nblocks : ℕ
  pub bmapstart : ℕ
  pub inodestart : ℕ

-- The inner loop of `getfreestartblkno`: `count` bytes of block `i` are left, from the `j`-th on.
unfoldable pub free_byte : (ℕ → ℕ) → (count j : ℕ) → Option ℕ
free_byte f zero j = none
free_byte f (suc count) j =
    let rest = free_byte f count (j + 1) in if f j == 0 then some j else rest

-- The number that the code returns for byte `j` of bitmap block `i`.
abbrev pub free_start : Superblock → (i j : ℕ) → ℕ
free_start sb i j =
    sub32 (sub32 (sb.nblocks + sb.inodestart) ((sb.inodestart - 1 - i) * 512)) ((j + 1) * 8)

-- The outer loop, from block `bmapstart + (count - 1)` down to `bmapstart`. `0` is "no block".
unfoldable pub free_block : Superblock → Disk → (count : ℕ) → ℕ × Disk
free_block sb d zero = (0, d)
free_block sb d (suc count) =
    let i = sb.bmapstart + count in
    elim (free_byte (d i) 512 0) [
      | some j ↦ (free_start sb i j, write_block d i j (255 ∷ []))
      | none ↦ free_block sb d count
    ]

unfoldable pub getfreestartblkno : Superblock → Disk → ℕ × Disk
getfreestartblkno sb d = free_block sb d (sb.inodestart - sb.bmapstart)

-- The loop of `appendi` with `data` at the head of the third argument; `size` grows over all the
-- extents, and `data` moves on in every round.
unfoldable pub appendi_loop :
    Superblock
    → (fuel : ℕ) → Disk
    → List Extent
    → (size : ℕ) → (src : List ℕ) → Option (Disk × List Extent)
appendi_loop sb zero d es size src = none
appendi_loop sb (suc fuel) d es size [] = some (d, es)
appendi_loop sb (suc fuel) d [] size (v ∷ vs) = none
appendi_loop sb (suc fuel) d (e ∷ es) size (v ∷ vs) =
    let fresh = getfreestartblkno sb d in
    let (blk, d1) = if e.nblocks == 0 then fresh else (e.startblkno, d) in
    let e1 = if e.nblocks == 0 then record { startblkno = blk; nblocks = 8 } else e in
    let m = min (length (v ∷ vs)) (512 - size % 512) in
    let inside =
      appendi_loop sb fuel (write_block d1 (blk + size / 512) (size % 512) (take m (v ∷ vs))) es
        (size + m) (drop m (v ∷ vs)) in
    let beyond = appendi_loop sb fuel d1 (drop 1 es) 0 (v ∷ vs) in
    if ltb size (extent_bytes e1)
    then elim inside [ none ↦ none | some (d2, fs) ↦ some (d2, e1 ∷ fs) ]
    else elim beyond [ none ↦ none | some (d2, fs) ↦ some (d2, e1 ∷ take 1 es ++ fs) ]

-- The extents that are in use are left alone, those from the first with no block on are `appendi`'s.
-- With all of them in use, `data` leaves the array.
unfoldable pub appendi :
    Superblock → Disk → List Extent → (src : List ℕ) → Option (Disk × List Extent)
appendi sb d es src =
    let k = used_extents es in
    if k == length es
    then none
    else elim (appendi_loop sb (suc (suc (length src + extent_n))) d (drop k es) 0 src) [
      | none ↦ none
      | some (d1, fs) ↦ some (d1, take k es ++ fs)
    ]

-- How `writei` ends: with a count and the new disk and extents, -1, a panic, or not at all.
pub data WriteEnd : Type 0 where
  wrote : (count : ℕ) → Disk → List Extent → WriteEnd
  write_error : WriteEnd
  write_panic : WriteEnd
  write_undefined : WriteEnd

-- `devsw[].write` for each device, if there is one.
abbrev pub DeviceWrite : Type 0
DeviceWrite = ℕ → Option (List ℕ → WriteEnd)

unfoldable pub write_device : DeviceWrite → (devid : ℕ) → (src : List ℕ) → WriteEnd
write_device devs devid src =
    if leb 10 devid
    then write_error
    else elim (devs devid) [ none ↦ write_error | some write ↦ write src ]

-- The part of `writei` that fills the extents there are.
unfoldable pub write_within : Disk → List Extent → (off : ℕ) → (src : List ℕ) → Option Disk
write_within d es off src = elim (skip_extents es 0 off) [
  | none ↦ none
  | some (fs, size) ↦ writei_loop (length src + extent_n + 1) d fs off (off - size) src
]

-- What is behind the capacity goes to `appendi`. For `off` beyond the capacity the C code takes
-- `capacity - off` for a count that wraps round; that run is out of the model.
unfoldable pub write_file : Superblock → Disk → FileNode → (off : ℕ) → (src : List ℕ) → WriteEnd
write_file sb d ip off src =
    let n = length src in
    let cap = capacity ip.extents in
    let n1 = if ltb cap (off + n) then cap - off else n in
    elim (write_within d ip.extents off (take n1 src)) [
      | none ↦ write_undefined
      | some d1 ↦
          if ltb cap (off + n)
          then elim (appendi sb d1 ip.extents (drop n1 src)) [
            | none ↦ write_undefined
            | some (d2, es2) ↦ wrote n d2 es2
          ]
          else wrote n d1 ip.extents
    ]

unfoldable pub writei :
    DeviceWrite → Superblock → Disk → FileNode → (off : ℕ) → (src : List ℕ) → WriteEnd
writei devs sb d ip off src =
    if not ip.locked
    then write_panic
    else if ip.type == t_dev
    then write_device devs ip.devid src
    else if ltb ((off + length src) % 2 ^ 32) off
    then write_error
    else if ltb (capacity ip.extents) off
    then write_undefined
    else write_file sb d ip off src

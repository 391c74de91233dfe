-- ===== src/Examples/Blocks.antt =====
-- A file of two extents on a small disk, and its inode in the cache.
use uw_cse451_operating_syst.Base.{
  take, replicate, ℕ, ◌+◌, ◌*◌, ◌<◌, ◌≡◌, refl, true, false, none, some, List, [], ◌∷◌, arith, ◌==◌,
  if◌then◌else◌,
}
use uw_cse451_operating_syst.Base.Outcome.{done}
use uw_cse451_operating_syst.Extents.{
  skip_extents, free_byte, readi_loop, free_block, read_file, Extent, Disk, FileNode, Superblock,
  DeviceRead, DeviceWrite, readi, writei, bytes_from, read_bytes, wrote, getfreestartblkno,
  write_block,
}
use uw_cse451_operating_syst.Extents.Bytes.{flat}
use uw_cse451_operating_syst.Extents.Read.{readi_lem}
use uw_cse451_operating_syst.Extents.Write.{readi-writei, writei-second_extent}
use uw_cse451_operating_syst.Icache.{
  put, load, fill, scan, Icache, Inode, InodeFile, iget, irelease, locki,
}
use uw_cse451_operating_syst.Icache.Unique.{iget-IsUnique, IsUnique}
use uw_cse451_operating_syst.Icache.References.{irelease-iget}

abbrev first : Extent
first = record { startblkno = 100; nblocks = 1 }

abbrev second : Extent
second = record { startblkno = 200; nblocks = 2 }

abbrev unused : Extent
unused = record { startblkno = 0; nblocks = 0 }

-- byte `i` of block `b`
abbrev numbered : Disk
numbered b i = b * 1000 + i

abbrev file : FileNode
file = record {
  locked = true;
  type = 2;
  devid = 0;
  size = 1500;
  extents = first ∷ second ∷ unused ∷ [];
}

abbrev no_devices : DeviceRead
no_devices i = none

abbrev no_writers : DeviceWrite
no_writers i = none

-- one bitmap block, 24
abbrev small_sb : Superblock
small_sb = record { nblocks = 5000; bmapstart = 24; inodestart = 25 }

-- 25 bitmap blocks, as `mkfs` makes them
abbrev real_sb : Superblock
real_sb = record { nblocks = 99973; bmapstart = 2; inodestart = 27 }

-- across the border of the two extents
across : readi no_devices numbered file 511 2 ≡ read_bytes (100511 ∷ 200000 ∷ [])
unfolding readi read_file readi_loop skip_extents
across = refl

readi_lem_example :
    readi no_devices numbered file 511 2
    ≡ read_bytes (bytes_from (flat numbered (first ∷ second ∷ unused ∷ [])) 511 2)
readi_lem_example =
    readi_lem no_devices numbered file first second (unused ∷ []) 511 2 refl (λ e. cc e) refl
      (omega arith) (omega arith) (omega arith)

readi-writei_example :
    (d1 : Disk) × (writei no_writers small_sb numbered file 3 (7 ∷ 8 ∷ [])
      ≡ wrote 2 d1 file.extents)
    × (readi no_devices d1 file 3 2 ≡ read_bytes (7 ∷ 8 ∷ []))
readi-writei_example =
    readi-writei no_devices no_writers small_sb numbered file first second (unused ∷ []) 3
      (7 ∷ 8 ∷ []) refl (λ e. cc e) refl (omega arith) (omega arith) (omega arith)

writei-second_extent_example :
    (d1 : Disk) × (writei no_writers small_sb numbered file 600 (7 ∷ 8 ∷ [])
      ≡ wrote 2 d1 file.extents)
    × (bytes_from (d1 201) 88 2 ≡ 7 ∷ 8 ∷ [])
    × ((i : ℕ) → i < 2 → flat d1 file.extents (600 + i) ≡ flat numbered file.extents (600 + i))
writei-second_extent_example =
    writei-second_extent no_writers small_sb numbered file first second (unused ∷ []) 600
      (7 ∷ 8 ∷ []) refl (λ e. cc e) refl (omega arith) (omega arith) (omega arith) (omega arith)
      (omega arith) (omega arith)

-- nothing is taken
abbrev empty_bitmap : Disk
empty_bitmap b i = 0

-- A bitmap of two blocks, of which byte 64 of the last one is free, and the first one.
abbrev two_bitmaps_sb : Superblock
two_bitmaps_sb = record small_sb { nblocks = 9000; inodestart = 26 }

abbrev last_bytes : Disk
last_bytes b c = if b == 25 then if c == 64 then 0 else 255 else 0

abbrev one_taken : Disk
one_taken = write_block empty_bitmap 24 0 (255 ∷ [])

abbrev two_taken : Disk
two_taken = write_block one_taken 24 1 (255 ∷ [])

take_one : getfreestartblkno small_sb empty_bitmap ≡ (5017, one_taken)
unfolding getfreestartblkno free_block free_byte
take_one = refl

take_two : getfreestartblkno small_sb one_taken ≡ (5009, two_taken)
unfolding getfreestartblkno free_block free_byte
take_two = refl

-- all of the last bitmap block but its byte 64
abbrev last_but_one : Disk
last_but_one b i = if b == 26 then if i == 64 then 0 else 255 else 0

abbrev long_text : List ℕ
long_text = replicate 600 7

abbrev part_written : Disk
part_written = write_block one_taken 5017 0 (take 512 long_text)

abbrev part_two : Disk
part_two = write_block part_written 24 1 (255 ∷ [])

take_part_two : getfreestartblkno small_sb part_written ≡ (5009, part_two)
unfolding getfreestartblkno free_block free_byte
take_part_two = refl

-- an empty cache, and inode 3 on the disk
abbrev free_inode : Inode
free_inode = record {
  dev = 0;
  inum = 0;
  ref = 0;
  valid = false;
  holder = none;
  type = 0;
  devid = 0;
  size = 0;
  extents = [];
}

abbrev empty_cache : Icache
empty_cache i = free_inode

abbrev inodes : InodeFile
inodes n = record { type = 2; devid = 0; size = 10; extents = first ∷ [] }

abbrev with_three : Icache
with_three = put empty_cache 0 (fill free_inode (inodes 3) 1 3)

get_three : iget inodes empty_cache 1 3 ≡ done (0, with_three)
unfolding iget scan
get_three = refl

empty_cache-IsUnique : IsUnique empty_cache
empty_cache-IsUnique i j dev inum hi hj ci cj = cc ci

iget-IsUnique_example : IsUnique with_three
iget-IsUnique_example =
    iget-IsUnique inodes empty_cache with_three 1 3 0 get_three empty_cache-IsUnique

irelease-iget_example : (irelease with_three 0 0).ref ≡ 0
irelease-iget_example = irelease-iget inodes empty_cache with_three 1 3 0 get_three 0

abbrev locked_three : Icache
locked_three = put with_three 0 (load (record (with_three 0) { holder = some 5 }) (inodes 3))

lock_three : locki inodes with_three 5 0 ≡ done locked_three
unfolding locki
lock_three = refl

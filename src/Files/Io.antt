-- ===== src/Files/Io.antt =====
-- The branches of `fileread` and `filewrite` for a file that is no pipe (kernel/file.c), with
-- `concurrent_readi` and `concurrent_writei` of kernel/fs.c.
use uw_cse451_operating_syst.Base.{
  ℕ, ◌+◌, ◌-◌, ◌%◌, ◌^◌, Option, none, some, List, ◌==◌, if◌then◌else◌, length,
}
use uw_cse451_operating_syst.Base.Outcome.{◌>>=◌, Outcome, done, panic, hang}
use uw_cse451_operating_syst.Extents.{
  no_fuel, write_undefined, past_extents, write_panic, read_panic, write_error, read_error, wrote,
  read_bytes, WriteEnd, ReadEnd, Disk, Superblock, FileNode, readi, writei, DeviceRead, DeviceWrite,
}
use uw_cse451_operating_syst.Icache.{Icache, Inode, InodeFile, holdingsleep, locki, unlocki}
use uw_cse451_operating_syst.Files.{put, o_rdonly, o_wronly, Files, FileInfo}

abbrev pub file_node : Inode → FileNode
file_node ip = record {
  locked = holdingsleep ip;
  type = ip.type;
  devid = ip.devid;
  size = ip.size;
  extents = ip.extents;
}

-- A read that leaves the extents has no meaning in C: it is taken not to come back.
abbrev pub read_result : ReadEnd → Outcome (Option (List ℕ))
read_result (read_bytes bs) = done (some bs)
read_result read_error = done none
read_result read_panic = panic
read_result past_extents = hang
read_result no_fuel = hang

unfoldable pub concurrent_readi :
    InodeFile → DeviceRead → Disk → Icache → (pid i off n : ℕ) → Outcome (Option (List ℕ) × Icache)
concurrent_readi inodes devs d c pid i off n = locki inodes c pid i >>= (λ c1.
    read_result (readi devs d (file_node (c1 i)) off n)
    >>= (λ bs. unlocki c1 i >>= (λ c2. done (bs, c2))))

-- What `concurrent_readi` returns, as a 32-bit word: -1 without bytes.
abbrev pub returned_word : Option (List ℕ) → ℕ
returned_word none = 2 ^ 32 - 1
returned_word (some bs) = length bs % 2 ^ 32

abbrev pub move_offset : FileInfo → (by : ℕ) → FileInfo
move_offset f by = record f { offset = (f.offset + by) % 2 ^ 32 }

abbrev pub read_at : Files → (g : ℕ) → Option (List ℕ) → Icache → Files
read_at s g bs c = record s {
  ftable = put s.ftable g (move_offset (s.ftable g) (returned_word bs));
  icache = c;
}

-- For a descriptor with `isPipe` set, the code is that of the pipes. The code keeps what
-- `concurrent_readi` returns in the global variable `offset`, which all processes share, until it has
-- added it to the offset of the file. Here it is a value of the run: this is a read that no other
-- read of a file comes in between.
unfoldable pub fileread_inode :
    InodeFile → DeviceRead → Files → (pid g n : ℕ) → Outcome (Option (List ℕ) × Files)
fileread_inode inodes devs s pid g n =
    let f = s.ftable g in
    elim f.iptr [
      | none ↦ done (none, s)
      | some i ↦
          if f.access_permission == o_wronly
          then done (none, s)
          else concurrent_readi inodes devs s.disk s.icache pid i f.offset n
            >>= (λ (bs, c). done (bs, read_at s g bs c))
    ]

-- The count that `writei` returns, with the disk and the extents.
abbrev pub write_result : WriteEnd → Disk → Inode → Outcome (Option ℕ × Disk × Inode)
write_result (wrote n d1 es) d ip = done (some n, d1, record ip { extents = es })
write_result write_error d ip = done (none, d, ip)
write_result write_panic d ip = panic
write_result write_undefined d ip = hang

unfoldable pub concurrent_writei :
    InodeFile
    → DeviceWrite
    → Superblock
    → Disk
    → Icache
    → (pid i off : ℕ) → List ℕ
    → Outcome (Option ℕ × Disk × Icache)
concurrent_writei inodes devs sb d c pid i off src = locki inodes c pid i >>= (λ c1.
    write_result (writei devs sb d (file_node (c1 i)) off src) d (c1 i)
    >>= (λ (n, d1, ip). unlocki (put c1 i ip) i >>= (λ c2. done (n, d1, c2))))

unfoldable pub filewrite_inode :
    InodeFile → DeviceWrite → Superblock → Files → (pid g : ℕ) → List ℕ → Outcome (Option ℕ × Files)
filewrite_inode inodes devs sb s pid g src =
    let f = s.ftable g in
    elim f.iptr [
      | none ↦ done (none, s)
      | some i ↦
          if f.access_permission == o_rdonly
          then done (none, s)
          else concurrent_writei inodes devs sb s.disk s.icache pid i f.offset src
            >>= (λ (n, d1, c). done (n, record s { disk = d1; icache = c }))
    ]

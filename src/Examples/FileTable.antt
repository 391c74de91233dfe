-- ===== src/Examples/FileTable.antt =====
-- The file table with no open file, one open file, and a pipe.
use uw_cse451_operating_syst.Files.Reachable.{
  Reach-IsCounted, Reach, Machine, here, later, opens, dups, closes, pipes,
}
use uw_cse451_operating_syst.Files.Io.{
  concurrent_writei, concurrent_readi, read_at, fileread_inode, filewrite_inode,
}
use uw_cse451_operating_syst.Extents.{
  capacity, writei_loop, readi_loop, write_within, skip_extents, write_file, read_file, writei,
  readi, write_block,
}
use uw_cse451_operating_syst.Base.{
  ◌∷◌, ℕ, ◌≡◌, refl, true, false, none, some, [], arith, ◌==◌, if◌then◌else◌,
}
use uw_cse451_operating_syst.Base.Outcome.{done}
use uw_cse451_operating_syst.Pipe.{Pipe}
use uw_cse451_operating_syst.Icache.{
  unlocki, stati, locki, Icache, Inode, InodeFile, Stat, concurrent_stati,
}
use uw_cse451_operating_syst.Files.{
  finish_pipe, file_of, pipe_fds, put, Files, FileInfo, fileopen, fileclose, filedup, pipe,
  free_slot, free_fd, opened, store_pipe, shared, as_pipe, open_in,
}
use uw_cse451_operating_syst.Files.Invariant.{IsCounted, fileopen-IsCounted}
use uw_cse451_operating_syst.Files.Count.{count_fds}

abbrev no_pipe : Pipe
no_pipe = record {
  locked = false;
  read_fd = 0;
  write_fd = 0;
  head = 0;
  tail = 0;
  full = false;
  empty = false;
  buf = λ i. 0;
}

abbrev free_entry : FileInfo
free_entry = record {
  ref = 0;
  iptr = none;
  offset = 0;
  access_permission = 0;
  path = 0;
  is_pipe = false;
  pipe_buffer = no_pipe;
}

abbrev root : Inode
root = record {
  dev = 1;
  inum = 2;
  ref = 1;
  valid = true;
  holder = none;
  type = 1;
  devid = 0;
  size = 64;
  extents = [];
}

abbrev cache : Icache
cache i = root

abbrev on_disk : InodeFile
on_disk n = record { type = 1; devid = 0; size = 64; extents = [] }

abbrev no_files : Files
no_files = record { ftable = λ g. free_entry; pftable = λ i. none; icache = cache; disk = λ b i. 0 }

abbrev nobody : ℕ → ℕ
nobody g = 0

-- the cache after process 5 has locked and unlocked inode 0
abbrev visited : Icache
visited =
    let locked : Icache = put cache 0 (record root { holder = some 5 }) in
    put locked 0 (record (locked 0) { holder = none })

abbrev one_open : Files
one_open = record {
  ftable = put (λ g. free_entry) 0 (opened free_entry 0 9 0);
  pftable = put (λ i. none) 0 (some 0);
  icache = visited;
  disk = λ b i. 0;
}

open_one : fileopen on_disk no_files 5 (some 0) 9 0 ≡ done (some 0, one_open)
unfolding fileopen concurrent_stati locki stati unlocki free_fd free_slot open_in
open_one = refl

no_files-IsCounted : IsCounted nobody no_files
unfolding count_fds
no_files-IsCounted = record {
  counted = λ g h. refl;
  in_range = λ fd g h e. cc e;
  bounded = λ g. omega arith;
}

one_open-IsCounted : IsCounted nobody one_open
one_open-IsCounted =
    fileopen-IsCounted nobody on_disk no_files one_open 5 (some 0) 9 0 (some 0) open_one
      no_files-IsCounted

abbrev piped : Files
piped =
    store_pipe no_files 0 0 1 (put (put (λ i. none) 0 (some 0)) 1 (some 0))
      (shared (shared (as_pipe free_entry)))

make_pipe : pipe no_files ≡ done (some (0, 1), piped)
unfolding pipe pipe_fds finish_pipe free_slot
make_pipe = refl

abbrev machine : Machine
machine = record {
  inodes = on_disk;
  reads = λ i. none;
  writes = λ i. none;
  superblock = record { nblocks = 5000; bmapstart = 24; inodestart = 25 };
}

-- an open, a dup of it, and a close of the first descriptor
three_steps : Reach machine no_files (fileclose (filedup one_open 0).1 0).1
three_steps =
    later (later (later here (opens 5 (some 0) 9 0 (some 0) open_one)) (dups 0 (omega arith) refl))
      (closes 0 (omega arith) refl)

pipe_step : Reach machine no_files piped
pipe_step = later here (pipes (some (0, 1)) make_pipe)

Reach-IsCounted_example : IsCounted nobody (fileclose (filedup one_open 0).1 0).1
Reach-IsCounted_example =
    Reach-IsCounted nobody machine no_files (fileclose (filedup one_open 0).1 0).1 three_steps
      no_files-IsCounted

-- a file of 16 bytes, open for reading and writing
abbrev text : Inode
text = record root { type = 2; size = 16; extents = record { startblkno = 100; nblocks = 1 } ∷ [] }

abbrev one_text : Files
one_text = record {
  ftable = put (λ g. free_entry) 0 (record (opened free_entry 0 9 2) { offset = 4 });
  pftable = put (λ i. none) 0 (some 0);
  icache = λ i. text;
  disk = λ b i. i;
}

abbrev text_visited : Icache
text_visited =
    let locked : Icache = put (λ i. text) 0 (record text { holder = some 5 }) in
    put locked 0 (record (locked 0) { holder = none })

abbrev after_read : Files
after_read = read_at one_text 0 (some (4 ∷ 5 ∷ [])) text_visited

read_two :
    fileread_inode on_disk machine.reads one_text 5 0 2 ≡ done (some (4 ∷ 5 ∷ []), after_read)
unfolding fileread_inode concurrent_readi locki unlocki readi read_file skip_extents readi_loop
read_two = refl

abbrev written_cache : Icache
written_cache =
    let locked : Icache = put (λ i. text) 0 (record text { holder = some 5 }) in
    let stored : Icache = put locked 0 (locked 0) in
    put stored 0 (record (stored 0) { holder = none })

abbrev after_write : Files
after_write = record one_text {
  disk = write_block one_text.disk 100 4 (7 ∷ []);
  icache = written_cache;
}

write_one :
    filewrite_inode on_disk machine.writes machine.superblock one_text 5 0 (7 ∷ [])
    ≡ done (some 1, after_write)
unfolding filewrite_inode concurrent_writei locki unlocki writei write_file write_within
    skip_extents writei_loop capacity
write_one = refl

-- one descriptor is free, the fourth
abbrev one_free : Files
one_free = record {
  ftable = put (λ g. free_entry) 0 (record free_entry { ref = 15; iptr = some 0 });
  pftable = λ i. if i == 3 then none else some 0;
  icache = cache;
  disk = λ b i. 0;
}

first_slot : free_slot one_free.ftable 100 0 ≡ some 1
unfolding free_slot
first_slot = refl

-- the last descriptor of a pipe
abbrev last_end : Files
last_end = record {
  ftable = put (λ g. free_entry) 0 (record free_entry { ref = 1; is_pipe = true });
  pftable = put (λ i. none) 0 (some 0);
  icache = cache;
  disk = λ b i. 0;
}

slot_again : free_slot ((fileclose last_end 0).1).ftable 100 0 ≡ some 0
unfolding free_slot fileclose file_of
slot_again = refl

abbrev full_table : Files
full_table = record {
  ftable = λ g. record free_entry { ref = 1 };
  pftable = λ i. none;
  icache = cache;
  disk = λ b i. 0;
}

abbrev root_stat : Stat
root_stat = record { dev = 1; ino = 2; type = 1; size = 64 }

stat_root : concurrent_stati on_disk full_table.icache 5 0 ≡ done (root_stat, visited)
unfolding concurrent_stati locki stati unlocki
stat_root = refl

free_first : free_fd full_table.pftable 16 0 ≡ some 0
unfolding free_fd
free_first = refl

-- ===== src/Files.antt =====
-- The file table of kernel/file.c: `fileopen`, `filestat`, `fileclose`, `filedup`, `filecopy`, `pipe` and
-- the branches of `fileread` and `filewrite` that are about inodes. The process that runs has the
-- table `pftable`. What `namei` returns is an argument of `fileopen`. The spin lock `lock` is taken
-- and given back inside of each routine.
pub mod Count
pub mod Invariant
pub mod Slots
pub mod Io
pub mod PipeEnds
pub mod Reachable
use uw_cse451_operating_syst.Base.{
  ℕ, zero, suc, ◌+◌, ◌-◌, ◌*◌, ◌%◌, ◌^◌, ◌≤◌, ◌<◌, ◌≡◌, ◌≢◌, ◌⊎◌, inl, inr, refl, sym, ap, ◌∙◌,
  Bool, true, false, ◌&&◌, not, Option, none, some, List, [], ◌∷◌, ◌++◌, arith, ◌==◌, ltb, leb,
  if◌then◌else◌, length, get_elem?, set, Bool-cases, Option-cases, ℕ-cases,
}
use uw_cse451_operating_syst.Base.Outcome.{◌>>=◌, Outcome, done, panic, hang}
use uw_cse451_operating_syst.Extents.{Disk, Superblock, FileNode, readi, writei}
use uw_cse451_operating_syst.Icache.{
  Icache, Inode, InodeFile, holdingsleep, locki, unlocki, irelease, concurrent_stati, Stat,
}
use uw_cse451_operating_syst.Pipe.{Pipe}

abbrev pub nfile : ℕ
nfile = 100

abbrev pub nofile : ℕ
nofile = 16

abbrev pub o_rdonly : ℕ
o_rdonly = 0

abbrev pub o_wronly : ℕ
o_wronly = 1

abbrev pub o_rdwr : ℕ
o_rdwr = 2

-- `path` is an address, 0 for none; `iptr` a slot of the inode cache; `ref` and `offset` 32-bit words.
pub record FileInfo : Type 0 where
  pub ref : ℕ
  pub iptr : Option ℕ
  pub offset : ℕ
  pub access_permission : ℕ
  pub path : ℕ
  pub is_pipe : Bool
  pub pipe_buffer : Pipe

pub record Files : Type 0 where
  pub ftable : ℕ → FileInfo
  pub pftable : ℕ → Option ℕ
  pub icache : Icache
  pub disk : Disk

abbrev pub put {ℓ} : {A : Type ℓ} → (ℕ → A) → ℕ → A → ℕ → A
put t i v j = if i == j then v else t j

-- The first free descriptor and the first free slot of `ftable`, from `i` on.
unfoldable pub free_fd : (ℕ → Option ℕ) → (count i : ℕ) → Option ℕ
free_fd fds zero i = none
free_fd fds (suc count) i =
    let rest = free_fd fds count (i + 1) in elim (fds i) [ none ↦ some i | some g ↦ rest ]

unfoldable pub free_slot : (ℕ → FileInfo) → (count i : ℕ) → Option ℕ
free_slot t zero i = none
free_slot t (suc count) i =
    let rest = free_slot t count (i + 1) in if (t i).ref == 0 then some i else rest

-- What `fileopen` stores: the offset and the pipe fields are not touched.
abbrev pub opened : FileInfo → (ip path mode : ℕ) → FileInfo
opened f ip path mode = record f { ref = 1; iptr = some ip; access_permission = mode; path = path }

-- The descriptor is returned even if there is no slot in `ftable`.
unfoldable pub open_in : Files → (ip path mode pfd : ℕ) → Files
open_in s ip path mode pfd = elim (free_slot s.ftable nfile 0) [
  | none ↦ s
  | some g ↦ record s {
    ftable = put s.ftable g (opened (s.ftable g) ip path mode);
    pftable = put s.pftable pfd (some g);
  }
]

-- The result is the descriptor, `none` for -1.
unfoldable pub fileopen :
    InodeFile → Files → (pid : ℕ) → (iptr : Option ℕ) → (path mode : ℕ) → Outcome (Option ℕ × Files)
fileopen inodes s pid none path mode = done (none, s)
fileopen inodes s pid (some ip) path mode = concurrent_stati inodes s.icache pid ip >>= (λ (st, c).
    let s1 = record s { icache = c } in
    if mode == 3 then done (none, s1) else elim (free_fd s.pftable nofile 0) [
      | none ↦ done (none, s1)
      | some pfd ↦ done (some pfd, open_in s1 ip path mode pfd)
    ])

-- A descriptor that is open on a file or a pipe.
unfoldable pub file_of : Files → (fd : ℕ) → Option ℕ
file_of s fd = elim (s.pftable fd) [
  | none ↦ none
  | some g ↦
      if (s.ftable g).is_pipe
      then some g
      else elim (s.ftable g).iptr [ none ↦ none | some ip ↦ some g ]
]

unfoldable pub filestat : InodeFile → Files → (pid fd : ℕ) → Outcome (Option Stat × Files)
filestat inodes s pid fd = elim (file_of s fd) [
  | none ↦ done (none, s)
  | some g ↦ elim (s.ftable g).iptr [
    | none ↦ panic
    | some ip ↦
        concurrent_stati inodes s.icache pid ip
        >>= (λ (st, c). done (some st, record s { icache = c }))
  ]
]

-- `ref > 1` on an `int`
abbrev pub is_shared : ℕ → Bool
is_shared ref = if ltb 1 ref then ltb ref (2 ^ 31) else false

abbrev pub unshared : FileInfo → FileInfo
unshared f = record f { ref = (f.ref + (2 ^ 32 - 1)) % 2 ^ 32 }

-- All fields that `fileclose` resets.
abbrev pub reset : FileInfo → FileInfo
reset f = record f { iptr = none; ref = 0; path = 0; access_permission = 0; offset = 0 }

abbrev pub release_inode : Icache → FileInfo → Icache
release_inode c f = if f.is_pipe then c else elim f.iptr [ none ↦ c | some ip ↦ irelease c ip ]

abbrev pub close_slot : Files → (fd g : ℕ) → Files
close_slot s fd g =
    let f = s.ftable g in
    let fds = put s.pftable fd none in
    if is_shared f.ref
    then record s { ftable = put s.ftable g (unshared f); pftable = fds }
    else record s {
      ftable = put s.ftable g (reset f);
      pftable = fds;
      icache = release_inode s.icache f;
    }

-- `true` for 0, `false` for -1.
unfoldable pub fileclose : Files → (fd : ℕ) → Bool × Files
fileclose s fd = elim (file_of s fd) [ none ↦ (false, s) | some g ↦ (true, close_slot s fd g) ]

abbrev pub shared : FileInfo → FileInfo
shared f = record f { ref = (f.ref + 1) % 2 ^ 32 }

unfoldable pub filedup : Files → (fd : ℕ) → Option ℕ × Files
filedup s fd = elim (file_of s fd) [
  | none ↦ (none, s)
  | some g ↦ elim (free_fd s.pftable nofile 0) [
    | none ↦ (none, s)
    | some i ↦ (
      some i,
      record s {
        ftable = put s.ftable g (shared (s.ftable g));
        pftable = put s.pftable i (some g);
      },
    )
  ]
]

-- The child's table and `ftable`, with `count` descriptors left from `i` on.
unfoldable pub filecopy :
    (parent : ℕ → Option ℕ)
    → (count i : ℕ) → (child : ℕ → Option ℕ) → (ftable : ℕ → FileInfo)
    → (ℕ → Option ℕ) × (ℕ → FileInfo)
filecopy parent zero i child t = (child, t)
filecopy parent (suc count) i child t = elim (parent i) [
  | none ↦ filecopy parent count (i + 1) child t
  | some g ↦ filecopy parent count (i + 1) (put child i (some g)) (put t g (shared (t g)))
]

-- The second loop of `pipe`: `got` has the descriptors that were found, the last one first.
unfoldable pub pipe_fds :
    (g : ℕ)
    → (count i : ℕ) → (got : List ℕ) → (pftable : ℕ → Option ℕ) → (f : FileInfo)
    → List ℕ × (ℕ → Option ℕ) × FileInfo
pipe_fds g zero i got fds f = (got, fds, f)
pipe_fds g (suc count) i got fds f =
    let next = pipe_fds g count (i + 1) got fds f in
    let taken = pipe_fds g count (i + 1) (i ∷ got) (put fds i (some g)) (shared f) in
    elim (fds i) [ some h ↦ next | none ↦ if ltb (length got) 2 then taken else next ]

abbrev pub fresh_pipe : Pipe → (read_fd write_fd : ℕ) → Pipe
fresh_pipe p r w = record p {
  read_fd = r;
  write_fd = w;
  head = 0;
  tail = 0;
  full = false;
  empty = true;
}

abbrev pub as_pipe : FileInfo → FileInfo
as_pipe f = record f { is_pipe = true; access_permission = o_rdwr }

abbrev pub store_pipe : Files → (g : ℕ) → (r w : ℕ) → (ℕ → Option ℕ) → FileInfo → Files
store_pipe s g r w fds f = record s {
  ftable = put s.ftable g (record f { pipe_buffer = fresh_pipe f.pipe_buffer r w });
  pftable = fds;
}

-- With fewer than two free descriptors, `kfree` gets the address of a static buffer, which stands
-- below `end`: it panics.
unfoldable pub finish_pipe :
    Files → (g : ℕ) → List ℕ → (ℕ → Option ℕ) → FileInfo → Outcome (Option (ℕ × ℕ) × Files)
finish_pipe s g [] fds f = panic
finish_pipe s g (r ∷ []) fds f = panic
finish_pipe s g (w ∷ r ∷ more) fds f = done (some (r, w), store_pipe s g r w fds f)

-- The descriptors of the read end and the write end.
unfoldable pub pipe : Files → Outcome (Option (ℕ × ℕ) × Files)
pipe s = elim (free_slot s.ftable nfile 0) [
  | none ↦ done (none, s)
  | some g ↦
      let (got, fds, f) = pipe_fds g nofile 0 [] s.pftable (as_pipe (s.ftable g)) in
      finish_pipe s g got fds f
]

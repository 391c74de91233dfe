-- ===== src/Paths.antt =====
-- Directories and paths, kernel/fs.c: `skipelem`, `dirlookup`, `namex`, `namei` and `nameiparent`. A
-- path is the list of its bytes before the zero byte.
pub mod Elements
use uw_cse451_operating_syst.Base.{
  ◌/◌, drop, get_or, take, ℕ, zero, suc, ◌+◌, ◌-◌, ◌*◌, ◌%◌, ◌^◌, ◌≤◌, ◌<◌, ◌≡◌, ◌≢◌, ◌⊎◌, inl, inr,
  refl, sym, ap, ◌∙◌, Bool, true, false, ◌&&◌, not, Option, none, some, List, [], ◌∷◌, ◌++◌, arith,
  ◌==◌, ltb, leb, if◌then◌else◌, length, get_elem?, set, Bool-cases, Option-cases, ℕ-cases,
}
use uw_cse451_operating_syst.Base.Outcome.{◌>>=◌, Outcome, done, panic, hang}
use uw_cse451_operating_syst.Extents.{
  no_fuel, past_extents, read_panic, read_error, FileNode, read_bytes, DeviceRead, ReadEnd, Disk,
  readi,
}
use uw_cse451_operating_syst.Icache.{Icache, InodeFile, iget, idup, locki, unlocki, irelease}
use uw_cse451_operating_syst.Files.Io.{file_node}

abbrev pub slash : ℕ
slash = 47

abbrev pub dirsiz : ℕ
dirsiz = 14

-- `while (*path == '/') path++`
unfoldable pub skip_slashes : List ℕ → List ℕ
skip_slashes [] = []
skip_slashes (c ∷ cs) = let rest = skip_slashes cs in if c == slash then rest else c ∷ cs

-- `while (*path != '/' && *path != 0) path++`: what was passed, and what is left.
unfoldable pub span_name : List ℕ → List ℕ × List ℕ
span_name [] = ([], [])
span_name (c ∷ cs) =
    let rest = span_name cs in if c == slash then ([], c ∷ cs) else (c ∷ rest.0, rest.1)

-- The name, cut to `DIRSIZ` bytes, and the path behind it and its slashes.
abbrev pub name_and_rest : List ℕ × List ℕ → List ℕ × List ℕ
name_and_rest (s, rest) = (take dirsiz s, skip_slashes rest)

abbrev pub skip_name : List ℕ → Option (List ℕ × List ℕ)
skip_name [] = none
skip_name (c ∷ cs) = some (name_and_rest (span_name (c ∷ cs)))

unfoldable pub skipelem : List ℕ → Option (List ℕ × List ℕ)
skipelem path = skip_name (skip_slashes path)

-- A directory entry, as 16 bytes: the inode number, two bytes with the low one first, and the name.
abbrev pub entry_inum : List ℕ → ℕ
entry_inum bs = get_or bs 0 0 + 256 * get_or bs 1 0

abbrev pub entry_name : List ℕ → List ℕ
entry_name bs = drop 2 bs

-- `strncmp` of the two names over `count` bytes, with a zero byte behind the end of each list.
unfoldable pub namecmp : (count : ℕ) → List ℕ → List ℕ → Bool
namecmp zero a b = true
namecmp (suc count) a b =
    let rest = namecmp count (drop 1 a) (drop 1 b) in
    if get_or a 0 0 == get_or b 0 0 then if get_or a 0 0 == 0 then true else rest else false

-- Where the loop of `dirlookup` ends: at an entry, at the end of the directory, or in a panic.
pub data Lookup : Type 0 where
  entry_at : (off inum : ℕ) → Lookup
  no_entry : Lookup
  lookup_panic : Lookup
  lookup_lost : Lookup

-- What one entry means for the loop, with the result of the rounds behind it.
abbrev pub look_at : (off : ℕ) → (name : List ℕ) → (rest : Lookup) → ReadEnd → Lookup
look_at off name rest (read_bytes bs) =
    if entry_inum bs == 0
    then rest
    else if namecmp dirsiz name (entry_name bs)
    then entry_at off (entry_inum bs)
    else rest
look_at off name rest read_error = lookup_panic
look_at off name rest read_panic = lookup_panic
look_at off name rest past_extents = lookup_lost
look_at off name rest no_fuel = lookup_lost

-- The loop of `dirlookup`: at most `count` entries from `off` on.
unfoldable pub lookup_from :
    DeviceRead → Disk → FileNode → (name : List ℕ) → (count off : ℕ) → Lookup
lookup_from devs d dp name zero off = no_entry
lookup_from devs d dp name (suc count) off =
    let rest = lookup_from devs d dp name count (off + 16) in
    if ltb off dp.size then look_at off name rest (readi devs d dp off 16) else no_entry

-- What stays fixed during a walk: the devices, the disk, its inode file and the process.
pub record Walk : Type 0 where
  pub devs : DeviceRead
  pub disk : Disk
  pub inodes : InodeFile
  pub pid : ℕ

abbrev pub found_entry : Walk → Icache → (dev : ℕ) → Lookup → Outcome (Option ℕ × Icache)
found_entry w c dev (entry_at off inum) =
    iget w.inodes c dev inum >>= (λ (i, c1). done (some i, c1))
found_entry w c dev no_entry = done (none, c)
found_entry w c dev lookup_panic = panic
found_entry w c dev lookup_lost = hang

-- `dirlookup` of slot `i`, whose lock is held.
unfoldable pub dirlookup : Walk → Icache → (i : ℕ) → (name : List ℕ) → Outcome (Option ℕ × Icache)
dirlookup w c i name =
    let dp = c i in
    if dp.type == 1
    then found_entry w c dp.dev (lookup_from w.devs w.disk (file_node dp) name (dp.size / 16 + 1) 0)
    else panic

-- `notfound`
abbrev pub not_found : Icache → (i : ℕ) → Outcome (Option (ℕ × List ℕ) × Icache)
not_found c i = done (none, irelease c i)

-- The loop of `namex` at slot `ip`, with the last name that was copied. `fuel` bounds the rounds.
unfoldable pub walk :
    Walk
    → (fuel : ℕ) → (parent : Bool) → Icache
    → (ip : ℕ) → (path name : List ℕ) → Outcome (Option (ℕ × List ℕ) × Icache)
walk w zero parent c ip path name = hang
walk w (suc fuel) parent c ip path name = elim (skipelem path) [
  | none ↦ if parent then not_found c ip else done (some (ip, name), c)
  | some (elem, rest) ↦ locki w.inodes c w.pid ip >>= (λ c1.
      if not ((c1 ip).type == 1)
      then unlocki c1 ip >>= (λ c2. not_found c2 ip)
      else if parent && length rest == 0
      then unlocki c1 ip >>= (λ c2. done (some (ip, elem), c2))
      else dirlookup w c1 ip elem >>= (λ (next, c2). unlocki c2 ip >>= (λ c3. elim next [
        | none ↦ not_found c3 ip
        | some n ↦ walk w fuel parent (irelease c3 ip) n rest elem
      ])))
]

-- The root directory is inode 1 of device 1. A path with no slash in front starts there as well, with
-- the reference of `namei("/")` and that of `idup`.
unfoldable pub namex :
    Walk → (parent : Bool) → Icache → (path : List ℕ) → Outcome (Option (ℕ × List ℕ) × Icache)
namex w parent c path = iget w.inodes c 1 1 >>= (λ (ip, c1).
    let start = if get_or path 0 0 == slash then c1 else idup c1 ip in
    walk w (length path + 1) parent start ip path [])

unfoldable pub namei : Walk → Icache → (path : List ℕ) → Outcome (Option ℕ × Icache)
namei w c path =
    namex w false c path
    >>= (λ (r, c1). done (elim r [ none ↦ none | some (i, name) ↦ some i ], c1))

unfoldable pub nameiparent :
    Walk → Icache → (path : List ℕ) → Outcome (Option (ℕ × List ℕ) × Icache)
nameiparent w c path = namex w true c path

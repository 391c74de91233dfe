-- ===== src/Icache.antt =====
-- The inode cache of kernel/fs.c: `iget`, `idup`, `irelease`, `locki`, `unlocki` and `stati` over the
-- table `icache.inode`. The spin lock `icache.lock` is held from entry to exit of the part of each
-- routine that works on the table. The inode file on the disk is a function from inode numbers to
-- `struct dinode`; a sleep lock that is held by another process makes a routine wait, here `hang`.
pub mod Search
pub mod Unique
pub mod References
use uw_cse451_operating_syst.Base.{
  ℕ, zero, suc, ◌+◌, ◌-◌, ◌*◌, ◌%◌, ◌^◌, ◌≤◌, ◌<◌, ◌≡◌, ◌≢◌, ◌⊎◌, inl, inr, refl, sym, ap, ◌∙◌,
  Bool, true, false, ◌&&◌, not, Option, none, some, List, [], ◌∷◌, ◌++◌, arith, ◌==◌, ltb, leb,
  if◌then◌else◌, length, get_elem?, set, Bool-cases, Option-cases, ℕ-cases,
}
use uw_cse451_operating_syst.Base.Outcome.{◌>>=◌, Outcome, done, panic, hang}
use uw_cse451_operating_syst.Extents.{Extent}

abbrev pub ninode : ℕ
ninode = 50

pub record Inode : Type 0 where
  pub dev : ℕ
  pub inum : ℕ
  pub ref : ℕ
  pub valid : Bool
  pub holder : Option ℕ
  pub type : ℕ
  pub devid : ℕ
  pub size : ℕ
  pub extents : List Extent

pub record Dinode : Type 0 where
  pub type : ℕ
  pub devid : ℕ
  pub size : ℕ
  pub extents : List Extent

abbrev pub Icache : Type 0
Icache = ℕ → Inode

-- What `read_dinode` finds.
abbrev pub InodeFile : Type 0
InodeFile = ℕ → Dinode

abbrev pub put : Icache → ℕ → Inode → Icache
put c i ip j = if i == j then ip else c j

-- `ref` is an `int`, here a 32-bit word: `ref > 0` is false from 2^31 on.
abbrev pub is_referenced : ℕ → Bool
is_referenced ref = if ltb 0 ref then ltb ref (2 ^ 31) else false

-- `ip->ref > 0 && ip->dev == dev && ip->inum == inum`
abbrev pub is_cached : Inode → (dev inum : ℕ) → Bool
is_cached ip dev inum =
    if is_referenced ip.ref then if ip.dev == dev then ip.inum == inum else false else false

-- `empty` with the slot at which the loop of `iget` stands: the first one with no reference.
abbrev pub remember : Option ℕ → (i ref : ℕ) → Option ℕ
remember (some k) i ref = some k
remember none i ref = if ref == 0 then some i else none

-- The loop of `iget` from slot `i` on: the slot of the inode, or the empty slot that it remembers.
unfoldable pub scan : Icache → (dev inum : ℕ) → (count i : ℕ) → (empty : Option ℕ) → ℕ ⊎ Option ℕ
scan c dev inum zero i empty = inr empty
scan c dev inum (suc count) i empty =
    let rest = scan c dev inum count (i + 1) (remember empty i (c i).ref) in
    if is_cached (c i) dev inum then inl i else rest

abbrev pub add_ref : Inode → Inode
add_ref ip = record ip { ref = (ip.ref + 1) % 2 ^ 32 }

abbrev pub fill : Inode → Dinode → (dev inum : ℕ) → Inode
fill ip di dev inum = record ip {
  dev = dev;
  inum = inum;
  ref = 1;
  valid = false;
  type = di.type;
  devid = di.devid;
  size = di.size;
  extents = di.extents;
}

unfoldable pub iget : InodeFile → Icache → (dev inum : ℕ) → Outcome (ℕ × Icache)
iget disk c dev inum = elim (scan c dev inum ninode 0 none) [
  | inl i ↦ done (i, put c i (add_ref (c i)))
  | inr none ↦ panic
  | inr (some i) ↦
      if (disk inum).type == 0 then panic else done (i, put c i (fill (c i) (disk inum) dev inum))
]

unfoldable pub idup : Icache → ℕ → Icache
idup c i = put c i (add_ref (c i))

abbrev pub drop_ref : Inode → Inode
drop_ref ip = record ip {
  type = if ip.ref == 1 then 0 else ip.type;
  ref = (ip.ref + (2 ^ 32 - 1)) % 2 ^ 32;
}

unfoldable pub irelease : Icache → ℕ → Icache
irelease c i = put c i (drop_ref (c i))

abbrev pub load : Inode → Dinode → Inode
load ip di = record ip {
  type = di.type;
  devid = di.devid;
  size = di.size;
  extents = di.extents;
  valid = true;
}

-- `locki` by process `pid`, for an inode of the table.
unfoldable pub locki : InodeFile → Icache → (pid i : ℕ) → Outcome Icache
locki disk c pid i = if not (is_referenced (c i).ref) then panic else elim (c i).holder [
  | some p ↦ hang
  | none ↦
      let ip = record (c i) { holder = some pid } in
      if ip.valid
      then done (put c i ip)
      else if (disk ip.inum).type == 0
      then panic
      else done (put c i (load ip (disk ip.inum)))
]

-- `holdingsleep` says that some process holds the lock, not which.
abbrev pub holdingsleep : Inode → Bool
holdingsleep ip = elim ip.holder [ none ↦ false | some p ↦ true ]

unfoldable pub unlocki : Icache → (i : ℕ) → Outcome Icache
unlocki c i =
    if not (holdingsleep (c i))
    then panic
    else if not (is_referenced (c i).ref)
    then panic
    else done (put c i (record (c i) { holder = none }))

pub record Stat : Type 0 where
  pub dev : ℕ
  pub ino : ℕ
  pub type : ℕ
  pub size : ℕ

unfoldable pub stati : Inode → Outcome Stat
stati ip =
    if holdingsleep ip
    then done (record { dev = ip.dev; ino = ip.inum; type = ip.type; size = ip.size })
    else panic

unfoldable pub concurrent_stati : InodeFile → Icache → (pid i : ℕ) → Outcome (Stat × Icache)
concurrent_stati disk c pid i =
    locki disk c pid i >>= (λ c1. stati (c1 i) >>= (λ st. unlocki c1 i >>= (λ c2. done (st, c2))))

-- ===== src/Vspace.antt =====
-- Virtual address spaces, kernel/vspace.c and inc/vspace.h: the regions of a process with the lists
-- of `struct vpage_info`, the copy for `fork` that shares every page, and the page table that is built
-- from the regions, here a function from virtual page numbers. The pages that the hardware's table
-- itself takes are not seen.
pub mod Regions
pub mod Counts
pub mod Copy
pub mod Fork
pub mod Invalidate
pub mod Owners
pub mod Moves
pub mod Grant
pub mod Progress
pub mod Table
pub mod Cow
pub mod Map
pub mod Growth
pub mod Load
pub mod Program
pub mod Exec
pub mod Stuck
pub mod Layout
pub mod Stack
use uw_cse451_operating_syst.Base.{
  replicate, ◌/◌, ℕ, zero, suc, ◌+◌, ◌-◌, ◌*◌, ◌%◌, ◌^◌, ◌≤◌, ◌<◌, ◌≡◌, ◌≢◌, ◌⊎◌, inl, inr, refl,
  sym, ap, ◌∙◌, Bool, true, false, ◌&&◌, not, Option, none, some, List, [], ◌∷◌, ◌++◌, arith, ◌==◌,
  ltb, leb, if◌then◌else◌, length, get_elem?, set, Bool-cases, Option-cases, ℕ-cases,
}
use uw_cse451_operating_syst.Base.Outcome.{Outcome, done, panic, hang, ◌>>=◌}
use uw_cse451_operating_syst.Base.Machine.{
  add64, sub64, kern_base, to_physical, to_virtual, page_number, page_round_up,
}
use uw_cse451_operating_syst.Kalloc.{
  Kmem, kalloc, kfree, pa2page, mark_user_mem, modify, update_frame, CoreMapEntry,
}

-- `used`, `present` and `writable` are `short`s that are 0 or 1.
pub record PageInfo : Type 0 where
  pub used : Bool
  pub ppn : ℕ
  pub present : Bool
  pub writable : Bool
  pub cow_page : Bool

abbrev pub unused_info : PageInfo
unused_info = record { used = false; ppn = 0; present = false; writable = false; cow_page = false }

-- `VPIPPAGE`: a `struct vpage_info` takes 24 bytes.
abbrev pub infos_per_page : ℕ
infos_per_page = 169

-- A `struct vpi_page` without its link, at its kernel address.
pub record VpiPage : Type 0 where
  pub address : ℕ
  pub infos : List PageInfo

pub data Direction : Type 0 where
  up down : Direction

-- `pages` is the linked list; `[]` is the null pointer.
pub record Region : Type 0 where
  pub dir : Direction
  pub va_base : ℕ
  pub size : ℕ
  pub pages : List VpiPage

abbrev pub region_top : Direction → (base size : ℕ) → ℕ
region_top up base size = add64 base size
region_top down base size = base

abbrev pub region_bottom : Direction → (base size : ℕ) → ℕ
region_bottom up base size = base
region_bottom down base size = sub64 base size

-- VRTOP and VRBOT
abbrev pub vr_top : Region → ℕ
vr_top r = region_top r.dir r.va_base r.size

abbrev pub vr_bottom : Region → ℕ
vr_bottom r = region_bottom r.dir r.va_base r.size

-- The distance in bytes that `va2vpi_idx` divides.
abbrev pub region_offset : Direction → (base va : ℕ) → ℕ
region_offset up base va = sub64 va base
region_offset down base va = sub64 (sub64 base 1) va

-- `va2vpi_idx`: an `int`, here its 32 bits.
unfoldable pub va2vpi_idx : Region → (va : ℕ) → ℕ
va2vpi_idx r va = region_offset r.dir r.va_base va / 4096 % 2 ^ 32

-- `va2vregion`: the index of the first region that has the address, counted from `i`.
unfoldable pub va2vregion : List Region → (va i : ℕ) → Option ℕ
va2vregion [] va i = none
va2vregion (r ∷ rs) va i =
    let rest = va2vregion rs va (i + 1) in
    if leb (vr_bottom r) va then if ltb va (vr_top r) then some i else rest else rest

-- `vregioncontains` for a size that is not negative.
unfoldable pub vregioncontains : Region → (va size : ℕ) → Bool
vregioncontains r va size =
    if size == 0 && va == vr_top r
    then false
    else if leb (vr_bottom r) va
    then leb (add64 va size) (vr_top r)
    else false

-- `vspacecontains`: `none` is -1.
unfoldable pub vspacecontains : List Region → (va size : ℕ) → Option Bool
vspacecontains rs va size = elim (va2vregion rs va 0) [
  | none ↦ none
  | some i ↦ elim (get_elem? rs i) [ none ↦ none | some r ↦ some (vregioncontains r va size) ]
]

-- `kalloc` and `memset` to zero: the page's address, or 0.
unfoldable pub zeroed_page : Kmem → ℕ × Kmem
zeroed_page k =
    let (a, k1) = kalloc k in
    if a == 0
    then (0, k1)
    else (a, record k1 { frame = update_frame k1.frame (page_number (to_physical a)) (λ _. 0) })

abbrev pub empty_page : ℕ → VpiPage
empty_page a = record { address = a; infos = replicate infos_per_page unused_info }

-- The loop of `va2vpage_info` behind the page `info`: `n` pages further on, with pages added where the
-- list ends. The Boolean says whether there was memory for them.
unfoldable pub extend_pages : List VpiPage → (n : ℕ) → Kmem → Bool × List VpiPage × Kmem
extend_pages ps zero k = (true, ps, k)
extend_pages [] (suc n) k =
    let (a, k1) = zeroed_page k in
    let (ok, more, k2) = extend_pages [] n k1 in
    if a == 0 then (false, [], k1) else (ok, empty_page a ∷ more, k2)
extend_pages (p ∷ ps) (suc n) k = let (ok, more, k1) = extend_pages ps n k in (ok, p ∷ more, k1)

-- The first page of the list. The C code does not check this `kalloc`: without memory it writes to
-- address 0, which is a fault in the kernel.
unfoldable pub first_page : List VpiPage → Kmem → Outcome (List VpiPage × Kmem)
first_page [] k =
    let (a, k1) = zeroed_page k in if a == 0 then panic else done (empty_page a ∷ [], k1)
first_page (p ∷ ps) k = done (p ∷ ps, k)

abbrev pub behind_first : List VpiPage → (n : ℕ) → Kmem → Bool × List VpiPage × Kmem
behind_first [] n k = (true, [], k)
behind_first (p ∷ ps) n k = let (ok, more, k1) = extend_pages ps n k in (ok, p ∷ more, k1)

-- `va2vpage_info`: the index of the entry, or `none` without memory, with the pages that it added. A
-- negative index stands in front of the array, which has no meaning in C; it is a panic here.
unfoldable pub va2vpage_info : Region → (va : ℕ) → Kmem → Outcome (Option ℕ × Region × Kmem)
va2vpage_info r va k = first_page r.pages k >>= (λ (ps, k1).
    let idx = va2vpi_idx r va in
    let (ok, qs, k2) = behind_first ps (idx / infos_per_page) k1 in
    if leb (2 ^ 31) idx
    then panic
    else done (if ok then some idx else none, record r { pages = qs }, k2))

-- The entry at an index.
abbrev pub get_info : List VpiPage → (idx : ℕ) → Option PageInfo
get_info ps idx = elim (get_elem? ps (idx / infos_per_page)) [
  | none ↦ none
  | some p ↦ get_elem? p.infos (idx % infos_per_page)
]

abbrev pub set_info : List VpiPage → (idx : ℕ) → PageInfo → List VpiPage
set_info ps idx v = elim (get_elem? ps (idx / infos_per_page)) [
  | none ↦ ps
  | some p ↦
      set ps (idx / infos_per_page) (record p { infos = set p.infos (idx % infos_per_page) v })
]

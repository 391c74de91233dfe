-- ===== src/Examples/Spaces.antt =====
-- An address space with one page of code, on a machine of six pages: it is copied, and the copy writes
-- to the page that both share.
use uw_cse451_operating_syst.Base.{
  ℕ, zero, suc, ◌+◌, ◌<◌, ◌≡◌, ◌⊎◌, inl, inr, refl, sym, ap, Bool, true, false, none, some, [], ◌∷◌,
  arith, ◌==◌, if◌then◌else◌, get_elem?, ℕ-cases,
}
use uw_cse451_operating_syst.Base.Int.{pos}
use uw_cse451_operating_syst.Base.Machine.{kern_base}
use uw_cse451_operating_syst.Base.Outcome.{Outcome, done, panic, hang}
use uw_cse451_operating_syst.Kalloc.{
  CoreMapEntry, Kmem, kalloc, claim_page, find_available, pa2page, mark_user_mem,
}
use uw_cse451_operating_syst.Kalloc.Entries.{count_available}
use uw_cse451_operating_syst.Kalloc.Invariant.{IsWellFormed}
use uw_cse451_operating_syst.Vspace.{
  PageInfo, Region, up, zeroed_page, first_page, extend_pages, va2vpage_info, va2vpi_idx,
}
use uw_cse451_operating_syst.Vspace.Table.{
  Vspace, map_user_page, map_region, map_regions, vspaceinvalidate,
}
use uw_cse451_operating_syst.Vspace.Cow.{
  vspacecopy, share_page, copy_infos, copy_pages, copy_regions, cow_fault, copy_on_write, served,
  no_memory, own_info, Fault, other_fault,
}
use uw_cse451_operating_syst.Vspace.Counts.{
  IsShared, count_infos, count_pages, count_regions, stands_for,
}
use uw_cse451_operating_syst.Vspace.Owners.{vspacecopy-IsShared}
use uw_cse451_operating_syst.Vspace.Grant.{cow_fault-Granted, Granted}
use uw_cse451_operating_syst.Vspace.Progress.{cow_fault-served}

abbrev kernel_entry : CoreMapEntry
kernel_entry = record { available = 0; user = 0; va = 0; ref_count = 1 }

abbrev free_entry : CoreMapEntry
free_entry = record { available = 1; user = 0; va = 0; ref_count = 0 }

-- The entry of the code page, with so many owners.
abbrev code_entry : ℕ → CoreMapEntry
code_entry owners = record { available = 0; user = 1; va = 0; ref_count = owners }

abbrev pub machine : (owners : ℕ) → Kmem
machine owners = record {
  core_map =
      kernel_entry ∷ kernel_entry ∷ code_entry owners ∷ free_entry ∷ free_entry ∷ free_entry ∷ [];
  npages = 6;
  pages_in_use = pos 3;
  pages_in_swap = pos 0;
  free_pages = pos 3;
  kernel_end = kern_base + 4096;
  frame = λ i o. i + o;
}

machine-IsWellFormed : (owners : ℕ) → IsWellFormed (machine owners)
unfolding count_available
machine-IsWellFormed owners = record {
  sized = refl;
  small = omega arith;
  counted = refl;
  consistent = each;
}
  where
    each :
        (i : ℕ) (e : CoreMapEntry)
        → get_elem? (machine owners).core_map i ≡ some e
        → e.available ≡ 1
        → e.ref_count ≡ 0
    each zero e g a = ground arith
    each (suc zero) e g a = ground arith
    each (suc (suc zero)) e g a = ground arith
    each (suc (suc (suc zero))) e g a = ground arith
    each (suc (suc (suc (suc zero)))) e g a = ground arith
    each (suc (suc (suc (suc (suc zero))))) e g a = ground arith
    each (suc (suc (suc (suc (suc (suc i)))))) e g a = cc

abbrev pub code_region : Region
code_region = record {
  dir = up;
  va_base = 0;
  size = 4096;
  pages = record { address = kern_base + 4096; infos = own_info 2 ∷ [] } ∷ [];
}

abbrev pub code_space : Vspace
code_space = record { regions = code_region ∷ []; pgtbl = λ vpn. none }

abbrev empty_space : Vspace
empty_space = record { regions = []; pgtbl = λ vpn. none }

code_space-IsShared : IsShared (machine 1) (λ d. count_regions code_space.regions d + 0)
unfolding count_regions count_pages count_infos
code_space-IsShared d some_owner = elim (ℕ-cases 2 d) [
  | inl e ↦ (
    code_entry 1,
    ap (λ x. get_elem? (machine 1).core_map x) (sym e),
    (λ x. cc),
    let t : 2 == d ≡ true = ground arith in rw t refl,
  )
  | inr ne ↦
      let one : 0 < (if 2 == d then 1 else 0) + 0 + 0 + 0 + 0 = some_owner in absurd (ground arith)
]

abbrev pub result : {A : Type 0} → Outcome A → A → A
result (done a) b = a
result panic b = b
result hang b = b

abbrev copied : Bool × Vspace × Vspace × Kmem
copied =
    result (vspacecopy empty_space code_space (machine 1))
      (false, empty_space, empty_space, machine 1)

vspacecopy_run :
    vspacecopy empty_space code_space (machine 1) ≡ done (true, copied.1, copied.2, copied.3)
unfolding vspacecopy copy_regions copy_pages copy_infos share_page pa2page zeroed_page kalloc
    find_available claim_page vspaceinvalidate map_regions map_region va2vpage_info first_page
    va2vpi_idx extend_pages map_user_page mark_user_mem
vspacecopy_run = refl

vspacecopy-IsShared_example :
    IsShared copied.3 (λ d. count_regions copied.1.regions d + count_regions copied.2.regions d + 0)
    × ((d : ℕ) → count_regions copied.1.regions d ≡ count_regions code_space.regions d)
vspacecopy-IsShared_example =
    vspacecopy-IsShared empty_space code_space copied.1 copied.2 (machine 1) copied.3 (λ d. 0)
      vspacecopy_run code_space-IsShared

-- An info of a page that has another one.
abbrev shared_code : PageInfo
shared_code = record { used = true; ppn = 2; present = true; writable = false; cow_page = true }

abbrev other_info : ℕ → ℕ
other_info d = if 2 == d then 1 else 0

shared_code-IsShared : IsShared (machine 2) (λ d. stands_for shared_code d + other_info d)
shared_code-IsShared d some_owner = elim (ℕ-cases 2 d) [
  | inl e ↦ (
    code_entry 2,
    ap (λ x. get_elem? (machine 2).core_map x) (sym e),
    (λ x. cc),
    let t : 2 == d ≡ true = ground arith in rw t refl,
  )
  | inr ne ↦
      let one : 0 < (if 2 == d then 1 else 0) + (if 2 == d then 1 else 0) = some_owner in
      absurd (ground arith)
]

abbrev fault_state : Fault → Kmem
fault_state (served j k) = k
fault_state (no_memory k) = k
fault_state other_fault = machine 2

abbrev faulted : Kmem
faulted = fault_state (copy_on_write shared_code 2 (machine 2))

cow_fault_run : cow_fault shared_code (machine 2) ≡ done (served (own_info 3) faulted)
unfolding cow_fault pa2page copy_on_write kalloc find_available claim_page
cow_fault_run = refl

cow_fault-Granted_example : Granted (machine 2) faulted shared_code (own_info 3) other_info
cow_fault-Granted_example =
    cow_fault-Granted (machine 2) faulted shared_code (own_info 3) other_info
      (machine-IsWellFormed 2) refl shared_code-IsShared cow_fault_run

cow_fault-served_example :
    ((j : PageInfo) × (k1 : Kmem) × (cow_fault shared_code (machine 2) ≡ done (served j k1)))
    ⊎ ((kalloc (machine 2) ≡ (0, machine 2))
        × (cow_fault shared_code (machine 2) ≡ done (no_memory (machine 2))))
cow_fault-served_example =
    cow_fault-served (machine 2) shared_code other_info (machine-IsWellFormed 2) refl refl refl
      shared_code-IsShared

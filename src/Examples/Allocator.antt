-- ===== src/Examples/Allocator.antt =====
-- The page allocator on a machine of three pages: one of the kernel, one shared by two processes,
-- one free.
use uw_cse451_operating_syst.Base.{
  ℕ, zero, suc, ◌+◌, ◌≤◌, ◌<◌, ◌≡◌, ◌≢◌, ◌⊎◌, refl, some, [], ◌∷◌, arith, get_elem?,
}
use uw_cse451_operating_syst.Kalloc.{
  claim_page, find_available, page2pa, kfree, kalloc, CoreMapEntry, Kmem,
}
use uw_cse451_operating_syst.Kalloc.Allocation.{hands_out, kalloc_lem, HandsOut}
use uw_cse451_operating_syst.Kalloc.Free.{kfree_lem, IsPage, Shared, Released}
use uw_cse451_operating_syst.Base.Int.{pos}
use uw_cse451_operating_syst.Base.Machine.{kern_base, to_virtual}
use uw_cse451_operating_syst.Kalloc.Entries.{count_available}
use uw_cse451_operating_syst.Kalloc.Invariant.{IsWellFormed}
use uw_cse451_operating_syst.Base.Outcome.{done}

abbrev shared_page : CoreMapEntry
shared_page = record { available = 0; user = 1; va = 0x1000; ref_count = 2 }

abbrev free_page_entry : CoreMapEntry
free_page_entry = record { available = 1; user = 0; va = 0; ref_count = 0 }

abbrev small_machine : Kmem
small_machine = record {
  core_map =
      record { available = 0; user = 0; va = 0; ref_count = 0 }
      ∷ shared_page
      ∷ free_page_entry
      ∷ [];
  npages = 3;
  pages_in_use = pos 1;
  pages_in_swap = pos 0;
  free_pages = pos 1;
  kernel_end = kern_base + 4096;
  frame = λ i o. 0;
}

abbrev page_at : ℕ → ℕ
page_at d = to_virtual (page2pa d)

kalloc_takes_two : (kalloc small_machine).0 ≡ page_at 2
unfolding kalloc find_available claim_page
kalloc_takes_two = refl

small_machine-IsWellFormed : IsWellFormed small_machine
unfolding count_available
small_machine-IsWellFormed = record {
  sized = refl;
  small = omega arith;
  counted = refl;
  consistent = each;
}
  where
    each :
        (i : ℕ) (e : CoreMapEntry)
        → get_elem? small_machine.core_map i ≡ some e
        → e.available ≡ 1
        → e.ref_count ≡ 0
    each zero e g a = ground arith
    each (suc zero) e g a = ground arith
    each (suc (suc zero)) e g a = ground arith
    each (suc (suc (suc i))) e g a = cc

kalloc_lem_example :
    ((kalloc small_machine ≡ (0, small_machine))
      × ((m : ℕ) (e : CoreMapEntry)
          → get_elem? small_machine.core_map m ≡ some e
          → e.available ≢ 1))
    ⊎ ((d : ℕ) × HandsOut small_machine d)
kalloc_lem_example = kalloc_lem small_machine small_machine-IsWellFormed

IsPage-two : IsPage small_machine (page_at 2) 2
IsPage-two = record { address = refl; in_range = omega arith; above_kernel = omega arith }

IsPage-one : IsPage small_machine (page_at 1) 1
IsPage-one = record { address = refl; in_range = omega arith; above_kernel = omega arith }

kfree_lem_example :
    (k' : Kmem) × (kfree (page_at 1) small_machine ≡ done k')
    × IsWellFormed k'
    × ((m : ℕ) → 1 ≢ m → get_elem? k'.core_map m ≡ get_elem? small_machine.core_map m)
    × ((2 ≤ shared_page.ref_count → Shared small_machine k' 1 shared_page)
        × (shared_page.ref_count ≡ 1 → Released small_machine k' 1))
kfree_lem_example =
    kfree_lem (page_at 1) 1 shared_page small_machine-IsWellFormed IsPage-one refl (omega arith)

HandsOut-two : HandsOut small_machine 2
unfolding kalloc find_available claim_page count_available
HandsOut-two = hands_out small_machine-IsWellFormed (record {
  found = record {
    below = omega arith;
    entry = free_page_entry;
    here = refl;
    free = refl;
    lowest = before;
  };
  address = refl;
  state = refl;
})
  where
    before :
        (m : ℕ) (e : CoreMapEntry)
        → get_elem? small_machine.core_map m ≡ some e
        → m < 2
        → e.available ≢ 1
    before zero e g l = ground arith
    before (suc zero) e g l = ground arith
    before (suc (suc m)) e g l = absurd (omega arith)

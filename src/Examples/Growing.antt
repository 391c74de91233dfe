-- ===== src/Examples/Growing.antt =====
-- Growth and writes of address spaces on small machines.
use uw_cse451_operating_syst.Base.{
  false, ℕ, ◌+◌, ◌*◌, ◌^◌, ◌<◌, ◌≡◌, ◌⊎◌, refl, true, none, [], ◌∷◌, arith, set,
}
use uw_cse451_operating_syst.Base.Machine.{kern_base, minus_one}
use uw_cse451_operating_syst.Base.Outcome.{done, hang}
use uw_cse451_operating_syst.Kalloc.{
  Kmem, kalloc, claim_page, find_available, pa2page, mark_user_mem,
}
use uw_cse451_operating_syst.Vspace.{
  Region, PageInfo, va2vregion, up, down, zeroed_page, first_page, extend_pages, va2vpage_info,
  va2vpi_idx, empty_page,
}
use uw_cse451_operating_syst.Vspace.Table.{
  Vspace, map_user_page, map_region, map_regions, vspaceinvalidate,
}
use uw_cse451_operating_syst.Vspace.Map.{
  empty_region, vr_ustack, region_or_empty, vregionaddmap, add_pages,
}
use uw_cse451_operating_syst.Vspace.Growth.{growuserstack, vspacewritetova, write_loop}
use uw_cse451_operating_syst.Vspace.Layout.{place, places}
use uw_cse451_operating_syst.Vspace.Stack.{growuserstack-places, stack_size, grown}
use uw_cse451_operating_syst.Vspace.Stuck.{vspacewritetova-hangs, MayWrite}
use uw_cse451_operating_syst.Examples.Spaces.{machine, result, code_region, code_space}

-- A process with a stack of one page below 2 GB, which has no infos yet.
abbrev stack_space : Vspace
stack_space = record {
  regions =
      empty_region up
      ∷ empty_region up
      ∷ record {
        dir = down;
        va_base = 2 ^ 31;
        size = 4096;
        pages = empty_page (kern_base + 4096) ∷ [];
      }
      ∷ [];
  pgtbl = λ vpn. none;
}

abbrev grown_stack : ℕ × Vspace × Kmem
grown_stack = result (growuserstack stack_space (machine 1)) (0, stack_space, machine 1)

growuserstack_run :
    growuserstack stack_space (machine 1) ≡ done (grown_stack.0, grown_stack.1, grown_stack.2)
unfolding growuserstack vregionaddmap add_pages va2vpage_info first_page va2vpi_idx extend_pages
    zeroed_page kalloc find_available claim_page vspaceinvalidate map_regions map_region
    map_user_page mark_user_mem pa2page
growuserstack_run = refl

growuserstack-places_example :
    ((grown_stack.0 ≡ minus_one) × (places grown_stack.1.regions ≡ places stack_space.regions))
    ⊎ ((stack_size stack_space < 10 * 4096)
        × (places grown_stack.1.regions
            ≡ set
                (places stack_space.regions)
                vr_ustack
                (grown (place (region_or_empty stack_space vr_ustack)))))
growuserstack-places_example =
    growuserstack-places stack_space grown_stack.1 grown_stack.0 (machine 1) grown_stack.2
      growuserstack_run

-- The code page of `code_space`, as one that may be written.
abbrev writable_page : PageInfo
writable_page = record { used = true; ppn = 2; present = true; writable = true; cow_page = false }

abbrev writable_code : Region
writable_code = record code_region {
  pages = record { address = kern_base + 4096; infos = writable_page ∷ [] } ∷ [];
}

abbrev writable_space : Vspace
writable_space = record code_space { regions = writable_code ∷ [] }

writable_space-MayWrite : MayWrite writable_space 0
unfolding va2vregion va2vpi_idx
writable_space-MayWrite = record {
  place = 0;
  region = writable_code;
  info = writable_page;
  found = refl;
  here = refl;
  int_index = omega arith;
  entry = refl;
  used = refl;
  writable = refl;
}

vspacewritetova-hangs_example :
    ((rounds : ℕ) → write_loop rounds writable_space 0 1 (7 ∷ []) (machine 1) ≡ hang)
    × (vspacewritetova writable_space 0 (7 ∷ []) (machine 1) ≡ hang)
vspacewritetova-hangs_example =
    vspacewritetova-hangs writable_space 0 (7 ∷ []) (machine 1) writable_space-MayWrite refl
      (omega arith) (omega arith)

abbrev mapped : ℕ × Region × Kmem
mapped =
    result
      (vregionaddmap (record code_region { pages = empty_page (kern_base + 4096) ∷ [] }) 0 8192 true
        true (machine 1))
      (0, code_region, machine 1)

vregionaddmap_run :
    vregionaddmap
      (record code_region { pages = empty_page (kern_base + 4096) ∷ [] })
      0
      8192
      true
      true
      (machine 1)
    ≡ done (mapped.0, mapped.1, mapped.2)
unfolding vregionaddmap add_pages va2vpage_info first_page va2vpi_idx extend_pages zeroed_page
    kalloc find_available claim_page
vregionaddmap_run = refl

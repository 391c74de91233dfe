-- ===== src/Vspace/Cow.antt =====
-- Sharing pages and copying them on write: `copy_vpi_page` and `vspacecopy` of kernel/vspace.c, and the
-- part of `trap` (kernel/trap.c) that serves a page fault on a shared page.
use uw_cse451_operating_syst.Base.{
  ◌||◌, ℕ, ◌+◌, ◌*◌, Bool, true, false, not, none, some, List, [], ◌∷◌, ◌==◌, ltb, if◌then◌else◌,
  get_elem?, set,
}
use uw_cse451_operating_syst.Base.Outcome.{Outcome, done, panic, ◌>>=◌}
use uw_cse451_operating_syst.Base.Machine.{to_physical, page_number}
use uw_cse451_operating_syst.Kalloc.{
  decrement, Kmem, kalloc, pa2page, modify, update_frame, CoreMapEntry,
}
use uw_cse451_operating_syst.Vspace.{
  PageInfo, VpiPage, Region, va2vpage_info, va2vregion, get_info, set_info, zeroed_page,
  unused_info,
}
use uw_cse451_operating_syst.Vspace.Table.{Vspace, vspaceinvalidate}

abbrev pub add_owner : CoreMapEntry → CoreMapEntry
add_owner e = record e { ref_count = e.ref_count + 1 }

-- `entry->ref_count++` of the page at `pa2page(ppn << PT_SHIFT)`
unfoldable pub share_page : (ppn : ℕ) → Kmem → Outcome Kmem
share_page ppn k =
    pa2page k (ppn * 4096) >>= (λ i. done (record k { core_map = modify k.core_map i add_owner }))

-- What the copy gets, and what the source becomes.
abbrev pub copied_info : PageInfo → PageInfo
copied_info i = record {
  used = i.used;
  ppn = i.ppn;
  present = i.present;
  writable = false;
  cow_page = true;
}

abbrev pub shared_info : PageInfo → PageInfo
shared_info i = record i { writable = false; cow_page = true }

-- The loop of `copy_vpi_page` over the infos of a page: those of the copy, and those of the source.
unfoldable pub copy_infos : List PageInfo → Kmem → Outcome (List PageInfo × List PageInfo × Kmem)
copy_infos [] k = done ([], [], k)
copy_infos (i ∷ is) k =
    if i.used
    then share_page i.ppn k >>= (λ k1.
      copy_infos is k1 >>= (λ (ds, ss, k2). done (copied_info i ∷ ds, shared_info i ∷ ss, k2)))
    else copy_infos is k >>= (λ (ds, ss, k1). done (unused_info ∷ ds, i ∷ ss, k1))

-- `copy_vpi_page`: whether there was memory for the copy, its list, and the source's list after it.
unfoldable pub copy_pages :
    List VpiPage → Kmem → Outcome (Bool × List VpiPage × List VpiPage × Kmem)
copy_pages [] k = done (true, [], [], k)
copy_pages (p ∷ ps) k =
    let (a, k1) = zeroed_page k in
    if a == 0
    then done (false, [], p ∷ ps, k1)
    else copy_infos p.infos k1 >>= (λ (ds, ss, k2). copy_pages ps k2 >>= (λ (ok, dst, src, k3).
      done (ok, record { address = a; infos = ds } ∷ dst, record p { infos = ss } ∷ src, k3)))

-- The loop of `vspacecopy` over the regions; it stops at the first that cannot be copied.
unfoldable pub copy_regions : List Region → Kmem → Outcome (Bool × List Region × List Region × Kmem)
copy_regions [] k = done (true, [], [], k)
copy_regions (r ∷ rs) k = copy_pages r.pages k >>= (λ (ok, dst, src, k1).
    if ok
    then copy_regions rs k1 >>= (λ (all, drs, srs, k2).
      done (all, record r { pages = dst } ∷ drs, record r { pages = src } ∷ srs, k2))
    else done (false, record r { pages = dst } ∷ rs, record r { pages = src } ∷ rs, k1))

-- `vspacecopy`: `false` is -1; the new space and the old one.
unfoldable pub vspacecopy : (dst src : Vspace) → Kmem → Outcome (Bool × Vspace × Vspace × Kmem)
vspacecopy dst src k = copy_regions src.regions k >>= (λ (ok, drs, srs, k1).
    if ok
    then vspaceinvalidate (record dst { regions = drs }) k1 >>= (λ (dst1, k2).
      vspaceinvalidate (record src { regions = srs }) k2
      >>= (λ (src1, k3). done (true, dst1, src1, k3)))
    else done (false, record dst { regions = drs }, record src { regions = srs }, k1))

-- The info of a page that its process has got for itself.
abbrev pub own_info : (ppn : ℕ) → PageInfo
own_info ppn = record { used = true; ppn = ppn; present = true; writable = true; cow_page = false }

abbrev pub writable_info : PageInfo → PageInfo
writable_info i = record i { writable = true; cow_page = false }

-- How a page fault on an address with an info ends.
pub data Fault : Type 0 where
  -- a copy of the page, or the page itself made writable
  served : PageInfo → Kmem → Fault
  -- no memory: `trap` returns, and the process faults again
  no_memory : Kmem → Fault
  -- not a page that is copied on write
  other_fault : Fault

-- The copy of page `i.ppn` in a new page, for an info whose page has other owners.
unfoldable pub copy_on_write : (i : PageInfo) → (entry : ℕ) → Kmem → Fault
copy_on_write i entry k =
    let (a, k1) = kalloc k in
    let q = page_number (to_physical a) in
    if a == 0
    then no_memory k1
    else served (own_info q) (record k1 {
      frame = update_frame k1.frame q (k1.frame i.ppn);
      core_map = modify k1.core_map entry decrement;
    })

-- The two tests of `trap` on the info `i` and its core map entry.
unfoldable pub cow_fault : (i : PageInfo) → Kmem → Outcome Fault
cow_fault i k = pa2page k (i.ppn * 4096) >>= (λ d. elim (get_elem? k.core_map d) [
  | none ↦ panic
  | some e ↦
      if not i.cow_page || i.writable
      then done other_fault
      else if ltb 1 e.ref_count
      then done (copy_on_write i d k)
      else if e.ref_count == 1
      then done (served (writable_info i) k)
      else done other_fault
])

-- What `trap` does with an address: whether it returns, or goes on to the growth of the stack.
unfoldable pub serve_fault : Vspace → (va : ℕ) → Kmem → Outcome (Bool × Vspace × Kmem)
serve_fault vs va k = elim (va2vregion vs.regions va 0) [
  | none ↦ done (false, vs, k)
  | some j ↦ elim (get_elem? vs.regions j) [
    | none ↦ done (false, vs, k)
    | some r ↦ va2vpage_info r va k >>= (λ (o, r1, k1).
        let vs1 = record vs { regions = set vs.regions j r1 } in
        elim o [
          | none ↦ done (false, vs1, k1)
          | some idx ↦ elim (get_info r1.pages idx) [
            | none ↦ panic
            | some i ↦ cow_fault i k1 >>= (λ f. elim f [
              | other_fault ↦ done (false, vs1, k1)
              | no_memory k2 ↦ done (true, vs1, k2)
              | served new k2 ↦
                  let r2 = record r1 { pages = set_info r1.pages idx new } in
                  vspaceinvalidate (record vs { regions = set vs.regions j r2 }) k2
                  >>= (λ (vs2, k3). done (true, vs2, k3))
            ])
          ]
        ])
  ]
]

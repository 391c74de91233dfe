-- ===== src/Vspace/Progress.antt =====
-- The fault on a shared page is served as long as there is memory.
use uw_cse451_operating_syst.Base.{
  ◌||◌, ℕ, ◌+◌, ◌*◌, ◌≡◌, ◌⊎◌, inl, inr, refl, ap, true, false, not, some, arith, ◌==◌, ltb,
  get_elem?, Bool-cases,
}
use uw_cse451_operating_syst.Base.Outcome.{◌>>=◌, done}
use uw_cse451_operating_syst.Kalloc.{claim_page, Kmem, CoreMapEntry, kalloc, pa2page}
use uw_cse451_operating_syst.Kalloc.Allocation.{kalloc-cases}
use uw_cse451_operating_syst.Kalloc.Invariant.{IsWellFormed}
use uw_cse451_operating_syst.Kalloc.Entries.{get_elem?-lt_length}
use uw_cse451_operating_syst.Vspace.{PageInfo}
use uw_cse451_operating_syst.Vspace.Cow.{
  served, no_memory, copy_on_write, cow_fault, own_info, writable_info,
}
use uw_cse451_operating_syst.Vspace.Counts.{IsShared, stands_for}
use uw_cse451_operating_syst.Vspace.Grant.{copied_state, copy_on_write-run}

pa2page-entry :
    (k : Kmem) (p : ℕ) (e : CoreMapEntry)
    → IsWellFormed k
    → get_elem? k.core_map p ≡ some e
    → pa2page k (p * 4096) ≡ done p
unfolding pa2page
pa2page-entry k p e w g = ground (arith, w.sized, get_elem?-lt_length k.core_map p g)

copy_on_write-no_memory :
    (k : Kmem) (i : PageInfo) (d : ℕ) → kalloc k ≡ (0, k) → copy_on_write i d k ≡ no_memory k
unfolding copy_on_write
copy_on_write-no_memory k i d run = rw run refl

-- A fault on a page that is copied on write, and that has its owners counted, is served, unless the copy
-- needs a page and there is none: then nothing changes, and the process will fault again.
pub cow_fault-served :
    (k : Kmem) (i : PageInfo) (others : ℕ → ℕ)
    → IsWellFormed k
    → i.used ≡ true
    → i.cow_page ≡ true
    → i.writable ≡ false
    → IsShared k (λ d. stands_for i d + others d)
    → ((j : PageInfo) × (k1 : Kmem) × (cow_fault i k ≡ done (served j k1)))
      ⊎ ((kalloc k ≡ (0, k)) × (cow_fault i k ≡ done (no_memory k)))
unfolding cow_fault
cow_fault-served k i others w u c r s =
    let n1 : stands_for i i.ppn ≡ 1 = rw u (ground arith) in
    let (e, g, av, count) = s i.ppn (omega arith) in
    let guard : not i.cow_page || i.writable ≡ false = rw (c, r) refl in
    let here = pa2page-entry k i.ppn e w g in
    elim (Bool-cases (ltb 1 e.ref_count)) [
      | inr few ↦
          let one : e.ref_count == 1 ≡ true = ground arith in
          inl (writable_info i, k, rw (here, ◌>>=◌, g, guard, few, one) refl)
      | inl many ↦ elim (kalloc-cases k) [
        | inl (none_left, run) ↦ inr (
          run,
          rw (here, ◌>>=◌, g, guard, many) (ap done (copy_on_write-no_memory k i i.ppn run)),
        )
        | inr (q, a) ↦ inl (
          own_info q,
          copied_state (claim_page q k) q i,
          rw (here, ◌>>=◌, g, guard, many) (ap done (copy_on_write-run k i q w a)),
        )
      ]
    ]

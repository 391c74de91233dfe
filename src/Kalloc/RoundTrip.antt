-- ===== src/Kalloc/RoundTrip.antt =====
-- `kalloc` and `kfree` undo each other, and a page that is freed twice breaks the counters.
use uw_cse451_operating_syst.Base.{◌∙◌, ap, arith, some, ◌≡◌, get_elem?, ◌≤◌, ℕ}
use uw_cse451_operating_syst.Kalloc.{
  clear_entry, free_page, kalloc, kfree, page2pa, CoreMapEntry, Kmem,
}
use uw_cse451_operating_syst.Kalloc.Invariant.{IsWellFormed}
use uw_cse451_operating_syst.Kalloc.Allocation.{HandsOut}
use uw_cse451_operating_syst.Kalloc.Free.{kfree-IsPage, kfree_lem, IsPage}
use uw_cse451_operating_syst.Base.Machine.{to_virtual}
use uw_cse451_operating_syst.Base.Outcome.{done}
use uw_cse451_operating_syst.Base.Int.{+ℤ_cancel, ◌-ℤ◌, -ℤ_cancel, -ℤ_cancel, pos, ◌+ℤ◌}
use uw_cse451_operating_syst.Kalloc.Entries.{
  count_available-modify, count_available, get_elem?-total,
}

-- A page that `kalloc` has handed out can be given back: `kfree` succeeds, the core map has as
-- many available pages as before, and both counters are back.
pub kfree-kalloc :
    {k : Kmem} {d : ℕ}
    → IsWellFormed k
    → HandsOut k d
    → k.kernel_end ≤ to_virtual (page2pa d)
    → (k' : Kmem) × (kfree (kalloc k).0 (kalloc k).1 ≡ done k')
      × IsWellFormed k'
      × (k'.free_pages ≡ k.free_pages)
      × (k'.pages_in_use ≡ k.pages_in_use)
kfree-kalloc {k} {d} w a above =
    let k₁ = (kalloc k).1 in
    let (e, g) =
      get_elem?-total k₁.core_map d (omega (arith, a.kept.sized, a.same_size, a.in_range)) in
    let page : IsPage k₁ (kalloc k).0 d = record {
      address = a.address;
      in_range = omega (arith, a.same_size, a.in_range);
      above_kernel = omega (arith, ap {B = ℕ} (λ x. x) a.address, a.same_end);
    } in
    let (zero_left, one) = a.owned e g in
    let (k', freed, kept, others, branches) =
      kfree_lem (kalloc k).0 d e a.kept page g (omega arith) in
    let r = branches.1 one in
    (
      k',
      freed,
      kept,
      r.free ∙ ap (λ x. x +ℤ pos 1) a.free ∙ -ℤ_cancel k.free_pages (pos 1),
      r.in_use ∙ ap (λ x. x -ℤ pos 1) a.in_use ∙ +ℤ_cancel k.pages_in_use (pos 1),
    )

-- Freed once more, a page that is available already makes `free_pages` too large: the counter no
-- longer agrees with the core map.
pub double_free :
    {k : Kmem} {v d : ℕ} {e : CoreMapEntry}
    → IsWellFormed k
    → IsPage k v d
    → get_elem? k.core_map d ≡ some e
    → e.available ≡ 1
    → (k' : Kmem) × (kfree v k ≡ done k')
      × (k'.free_pages ≡ k.free_pages +ℤ pos 1)
      × (count_available k'.core_map ≡ count_available k.core_map)
      × (IsWellFormed k' → ⊥)
unfolding free_page ◌+ℤ◌
double_free {k} {v} {d} {e} w p g free =
    let same : count_available (free_page d e k).core_map ≡ count_available k.core_map =
      ground (arith, w.consistent d e g, count_available-modify k.core_map d clear_entry e) in
    let more : (free_page d e k).free_pages ≡ k.free_pages +ℤ pos 1 =
      ground (arith, w.consistent d e g) in
    (
      free_page d e k,
      kfree-IsPage w p g,
      more,
      same,
      λ w'. ground (arith, same, more, w.counted, w'.counted),
    )

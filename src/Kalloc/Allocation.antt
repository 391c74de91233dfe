-- ===== src/Kalloc/Allocation.antt =====
-- `kalloc` hands out the lowest page that is available, once.
use uw_cse451_operating_syst.Base.{
  ◌≢◌, ◌<◌, ℕ, ◌≡◌, ◌⊎◌, inl, inr, none, some, arith, get_elem?, Option-cases, ℕ-cases, sym, ◌∙◌,
}
use uw_cse451_operating_syst.Base.Int.{◌+ℤ◌, pos, ◌-ℤ◌}
use uw_cse451_operating_syst.Base.Machine.{to_virtual}
use uw_cse451_operating_syst.Kalloc.{
  CoreMapEntry, Kmem, page2pa, modify, take_entry, find_available, claim_page, kalloc,
}
use uw_cse451_operating_syst.Kalloc.Entries.{
  get_elem?-lt_length, find_available-none, count_available, length-modify, count_available-modify,
  get_elem?-modify_self, get_elem?-modify_ne, Found, find_available-some,
}
use uw_cse451_operating_syst.Kalloc.Invariant.{IsConsistent, IsWellFormed}

-- The outcome of `kalloc`: nothing is left and the state stands, or page `d` is handed out.
pub record Allocated (k : Kmem) (d : ℕ) : Type 0 where
  pub found : Found k.core_map k.npages d
  pub address : (kalloc k).0 ≡ to_virtual (page2pa d)
  pub state : (kalloc k).1 ≡ claim_page d k

pub kalloc-cases :
    (k : Kmem)
    → ((find_available k.core_map k.npages 0 ≡ none) × (kalloc k ≡ (0, k)))
      ⊎ ((d : ℕ) × Allocated k d)
unfolding kalloc
kalloc-cases k = elim (Option-cases (find_available k.core_map k.npages 0)) [
  | inl e ↦ inl (e, rw (e, kalloc))
  | inr (j, e) ↦
      let (d, same, f) = find_available-some k.core_map k.npages 0 j e in
      let e' : find_available k.core_map k.npages 0 ≡ some d = ground arith in
      inr (d, record { found = f; address = rw (e', kalloc); state = rw (e', kalloc) })
]

take_counted :
    {k : Kmem} {d : ℕ}
    → IsWellFormed k
    → Found k.core_map k.npages d
    → k.free_pages -ℤ pos 1 ≡ pos (count_available (modify k.core_map d take_entry))
unfolding ◌-ℤ◌
take_counted {k} {d} w f =
    ground
      (arith, w.counted, count_available-modify k.core_map d take_entry f.entry, f.here, f.free)

take-IsConsistent :
    {k : Kmem} {d : ℕ}
    → IsWellFormed k
    → Found k.core_map k.npages d
    → (i : ℕ) (e : CoreMapEntry) → get_elem? (modify k.core_map d take_entry) i ≡ some e
    → IsConsistent e
take-IsConsistent {k} {d} w f i e g a = elim (ℕ-cases d i) [
  | inl here ↦ ground (arith, get_elem?-modify_self k.core_map d take_entry f.entry, f.here)
  | inr other ↦
      w.consistent i e (sym (get_elem?-modify_ne k.core_map d i take_entry (ground arith)) ∙ g) a
]

pub claim_page-IsWellFormed :
    {k : Kmem} {d : ℕ}
    → IsWellFormed k
    → Found k.core_map k.npages d
    → IsWellFormed (claim_page d k)
unfolding claim_page
claim_page-IsWellFormed {k} {d} w f = record {
  sized = omega (arith, length-modify k.core_map d take_entry, w.sized);
  small = w.small;
  counted = take_counted w f;
  consistent = take-IsConsistent w f;
}

-- What a successful `kalloc` promises: page `d` was available, no page before it was, the address
-- is that of page `d`, the page has one owner afterwards, no other page has changed, and each counter moved by one.
pub record HandsOut (k : Kmem) (d : ℕ) : Type 0 where
  pub in_range : d < k.npages
  pub address : (kalloc k).0 ≡ to_virtual (page2pa d)
  pub was_free : (e : CoreMapEntry) → get_elem? k.core_map d ≡ some e → e.available ≡ 1
  pub lowest :
      (m : ℕ) (e : CoreMapEntry) → get_elem? k.core_map m ≡ some e → m < d → e.available ≢ 1
  pub owned :
      (e : CoreMapEntry)
      → get_elem? (kalloc k).1.core_map d ≡ some e
      → (e.available ≡ 0) × (e.ref_count ≡ 1)
  pub others : (m : ℕ) → d ≢ m → get_elem? (kalloc k).1.core_map m ≡ get_elem? k.core_map m
  pub kept : IsWellFormed (kalloc k).1
  pub free : (kalloc k).1.free_pages ≡ k.free_pages -ℤ pos 1
  pub in_use : (kalloc k).1.pages_in_use ≡ k.pages_in_use +ℤ pos 1
  pub same_size : (kalloc k).1.npages ≡ k.npages
  pub same_end : (kalloc k).1.kernel_end ≡ k.kernel_end

pub hands_out : {k : Kmem} {d : ℕ} → IsWellFormed k → Allocated k d → HandsOut k d
unfolding claim_page
hands_out {k} {d} w a = record {
  in_range = f.below;
  address = a.address;
  was_free = λ e g. ground (arith, f.here, f.free);
  lowest = f.lowest;
  owned =
      λ e g. ground (arith, a.state, get_elem?-modify_self k.core_map d take_entry f.entry, f.here);
  others = λ m ne. rw a.state (get_elem?-modify_ne k.core_map d m take_entry ne);
  kept = rw a.state (claim_page-IsWellFormed w f);
  free = rw a.state;
  in_use = rw a.state;
  same_size = rw a.state;
  same_end = rw a.state;
}
  where
    f : Found k.core_map k.npages d
    f = a.found

-- `kalloc` on a well-formed core map either returns 0, changes nothing, and no page at all is
-- available; or it hands out the lowest page that is available.
pub kalloc_lem :
    (k : Kmem)
    → IsWellFormed k
    → ((kalloc k ≡ (0, k))
        × ((m : ℕ) (e : CoreMapEntry) → get_elem? k.core_map m ≡ some e → e.available ≢ 1))
      ⊎ ((d : ℕ) × HandsOut k d)
kalloc_lem k w = elim (kalloc-cases k) [
  | inl (none_found, same) ↦ inl (
    same,
    λ m e g.
        find_available-none k.core_map k.npages 0 none_found m e
          (omega (arith, get_elem?-lt_length k.core_map m g, w.sized)) g,
  )
  | inr (d, a) ↦ inr (d, hands_out w a)
]

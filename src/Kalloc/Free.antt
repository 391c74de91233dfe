-- ===== src/Kalloc/Free.antt =====
-- `kfree` drops one owner, and gives the page back with the last one.
use uw_cse451_operating_syst.Base.{
  ◌∙◌, ◌-◌, sym, inr, inl, ℕ-cases, ◌≢◌, ℕ, ◌≤◌, ◌<◌, ◌≡◌, some, arith, get_elem?, false,
}
use native.Mathlib.Decide.{dec_le}
use uw_cse451_operating_syst.Base.Int.{pos, ◌+ℤ◌, ◌-ℤ◌}
use uw_cse451_operating_syst.Base.Machine.{to_virtual, to_physical}
use uw_cse451_operating_syst.Base.Outcome.{done}
use uw_cse451_operating_syst.Kalloc.{
  clear_entry, CoreMapEntry, Kmem, page2pa, pa2page, bad_free, free_page, kfree,
}
use uw_cse451_operating_syst.Kalloc.Invariant.{IsConsistent, IsWellFormed, memory_size-small}
use uw_cse451_operating_syst.Kalloc.Entries.{
  count_available-modify, count_available, length-modify, get_elem?-modify_ne,
  get_elem?-modify_self,
}

-- The addresses that `kfree` accepts: page `d`, above the kernel image.
pub record IsPage (k : Kmem) (v d : ℕ) : Type 0 where
  pub address : v ≡ to_virtual (page2pa d)
  pub in_range : d < k.npages
  pub above_kernel : k.kernel_end ≤ v

bad_free-IsPage : {k : Kmem} {v d : ℕ} → IsWellFormed k → IsPage k v d → bad_free k v ≡ false
unfolding bad_free
bad_free-IsPage {k} {v} {d} w p =
    ground (arith, w.small, p.address, p.in_range, p.above_kernel, memory_size-small k)

pa2page-IsPage :
    {k : Kmem} {v d : ℕ} → IsWellFormed k → IsPage k v d → pa2page k (to_physical v) ≡ done d
unfolding pa2page
pa2page-IsPage {k} {v} {d} w p = ground (arith, w.small, p.address, p.in_range)

pub kfree-IsPage :
    {k : Kmem} {v d : ℕ} {e : CoreMapEntry}
    → IsWellFormed k
    → IsPage k v d
    → get_elem? k.core_map d ≡ some e
    → kfree v k ≡ done (free_page d e k)
unfolding kfree
kfree-IsPage w p g = ground (arith, bad_free-IsPage w p, pa2page-IsPage w p, g)

-- While another owner is left, `kfree` only counts down.
pub record Shared (k k' : Kmem) (d : ℕ) (e : CoreMapEntry) : Type 0 where
  pub counted_down : get_elem? k'.core_map d ≡ some (record e { ref_count = e.ref_count - 1 })
  pub in_use : k'.pages_in_use ≡ k.pages_in_use
  pub free : k'.free_pages ≡ k.free_pages
  pub bytes : k'.frame ≡ k.frame

-- With the last owner the page is available again, filled with junk.
pub record Released (k k' : Kmem) (d : ℕ) : Type 0 where
  pub cleared :
      get_elem? k'.core_map d ≡ some (record { available = 1; user = 0; va = 0; ref_count = 0 })
  pub in_use : k'.pages_in_use ≡ k.pages_in_use -ℤ pos 1
  pub free : k'.free_pages ≡ k.free_pages +ℤ pos 1
  pub junk : (o : ℕ) → k'.frame d o ≡ 2
  pub other_bytes : (j o : ℕ) → d ≢ j → k'.frame j o ≡ k.frame j o

module _ (k : Kmem) (d : ℕ) (e : CoreMapEntry) (g : get_elem? k.core_map d ≡ some e) where
  free_page-Shared : 2 ≤ e.ref_count → Shared k (free_page d e k) d e
  unfolding free_page
  free_page-Shared many = record {
    counted_down = ground (
      arith,
      g,
      get_elem?-modify_self k.core_map d (λ f. record f { ref_count = e.ref_count - 1 }) e,
    );
    in_use = ground arith;
    free = ground arith;
    bytes = ground arith;
  }

  free_page-Released : e.ref_count ≤ 1 → Released k (free_page d e k) d
  unfolding free_page
  free_page-Released few = record {
    cleared = ground (arith, g, get_elem?-modify_self k.core_map d clear_entry e);
    in_use = ground arith;
    free = ground arith;
    junk = λ o. ground arith;
    other_bytes = λ j o ne. ground arith;
  }

  free_page-others :
      (m : ℕ) → d ≢ m → get_elem? (free_page d e k).core_map m ≡ get_elem? k.core_map m
  unfolding free_page
  free_page-others m ne = ground (
    arith,
    get_elem?-modify_ne k.core_map d m clear_entry ne,
    get_elem?-modify_ne k.core_map d m (λ f. record f { ref_count = e.ref_count - 1 }) ne,
    get_elem?-modify_ne k.core_map d m (λ f. record f { ref_count = e.ref_count }) ne,
  )

  free_page-counted :
      IsWellFormed k
      → 0 < e.ref_count
      → (free_page d e k).free_pages ≡ pos (count_available (free_page d e k).core_map)
  unfolding free_page ◌+ℤ◌
  free_page-counted w owned = ground (
    arith,
    g,
    w.counted,
    w.consistent d e g,
    count_available-modify k.core_map d clear_entry e,
    count_available-modify k.core_map d (λ f. record f { ref_count = e.ref_count - 1 }) e,
  )

  same_page :
      IsWellFormed k
      → 0 < e.ref_count
      → (i : ℕ) (f : CoreMapEntry) → get_elem? (free_page d e k).core_map i ≡ some f
      → d ≡ i
      → IsConsistent f
  same_page w owned i f h here = elim (dec_le 2 e.ref_count) [
    | yes many ↦ ground (arith, (free_page-Shared many).counted_down, w.consistent d e g)
    | no few ↦ ground (arith, (free_page-Released (omega arith)).cleared)
  ]

  free_page-IsConsistent :
      IsWellFormed k
      → 0 < e.ref_count
      → (i : ℕ) (f : CoreMapEntry) → get_elem? (free_page d e k).core_map i ≡ some f
      → IsConsistent f
  free_page-IsConsistent w owned i f h = elim (ℕ-cases d i) [
    | inl here ↦ same_page w owned i f h here
    | inr other ↦ w.consistent i f (sym (free_page-others i (ground arith)) ∙ h)
  ]

  pub free_page-IsWellFormed : IsWellFormed k → 0 < e.ref_count → IsWellFormed (free_page d e k)
  unfolding free_page
  free_page-IsWellFormed w owned = record {
    sized = ground (
      arith,
      w.sized,
      length-modify k.core_map d clear_entry,
      length-modify k.core_map d (λ f. record f { ref_count = e.ref_count - 1 }),
    );
    small = ground (arith, w.small);
    counted = free_page-counted w owned;
    consistent = free_page-IsConsistent w owned;
  }

-- `kfree` of a page that has an owner never panics, keeps the core map well formed and touches no
-- other page. While a second owner is left it only counts down; with the last owner the page is
-- available again, its bytes are junk and the counters move by one.
pub kfree_lem :
    {k : Kmem} (v d : ℕ) (e : CoreMapEntry)
    → IsWellFormed k
    → IsPage k v d
    → get_elem? k.core_map d ≡ some e
    → 0 < e.ref_count
    → (k' : Kmem) × (kfree v k ≡ done k')
      × IsWellFormed k'
      × ((m : ℕ) → d ≢ m → get_elem? k'.core_map m ≡ get_elem? k.core_map m)
      × ((2 ≤ e.ref_count → Shared k k' d e) × (e.ref_count ≡ 1 → Released k k' d))
kfree_lem {k} v d e w p g owned = (
  free_page d e k,
  kfree-IsPage w p g,
  free_page-IsWellFormed k d e g w owned,
  free_page-others k d e g,
  (free_page-Shared k d e g, λ one. free_page-Released k d e g (omega arith)),
)

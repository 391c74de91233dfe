-- ===== src/Kalloc/Invariant.antt =====
-- The invariant of the core map, and the two counters.
use uw_cse451_operating_syst.Base.{ℕ, ◌*◌, ◌^◌, ◌<◌, ◌≡◌, some, arith, length, get_elem?}
use uw_cse451_operating_syst.Base.Int.{pos}
use uw_cse451_operating_syst.Kalloc.{CoreMapEntry, Kmem, memory_size}
use uw_cse451_operating_syst.Kalloc.Entries.{count_available}

-- A page that is available is used by nobody.
abbrev pub IsConsistent : CoreMapEntry → Type 0
IsConsistent e = e.available ≡ 1 → e.ref_count ≡ 0

pub record IsWellFormed (k : Kmem) : Type 0 where
  pub sized : length k.core_map ≡ k.npages
  pub small : k.npages < 2 ^ 19
  pub counted : k.free_pages ≡ pos (count_available k.core_map)
  pub consistent : (i : ℕ) (e : CoreMapEntry) → get_elem? k.core_map i ≡ some e → IsConsistent e

-- Below 2 GB the product `npages * PGSIZE` does not overflow an `int`.
pub memory_size-small : (k : Kmem) → k.npages < 2 ^ 19 → memory_size k ≡ k.npages * 4096
unfolding memory_size
memory_size-small k h = ground arith

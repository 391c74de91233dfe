-- ===== src/Examples/Tables.antt =====
-- Page tables on a machine of six pages, three of them free.
use uw_cse451_operating_syst.Base.{
  ℕ, ◌+◌, ◌*◌, ◌^◌, ◌≤◌, ◌<◌, ◌≡◌, ◌≢◌, inl, inr, refl, true, false, some, arith, ◌==◌,
  if◌then◌else◌, get_elem?, ℕ-cases,
}
use uw_cse451_operating_syst.Base.Outcome.{done}
use uw_cse451_operating_syst.Kalloc.{CoreMapEntry, kalloc, find_available, claim_page}
use uw_cse451_operating_syst.Vspace.{zeroed_page}
use uw_cse451_operating_syst.Paging.{
  Tables, is_present, walkpml4, walk_levels, next_table, new_table, map_page, mappages,
  page_address,
}
use uw_cse451_operating_syst.Paging.Shape.{Shape, view}
use uw_cse451_operating_syst.Paging.Mapped.{IsTable, translate}
use uw_cse451_operating_syst.Paging.Refines.{put_range, mappages-put_range}
use uw_cse451_operating_syst.Examples.Spaces.{machine, result}

-- Page 1 is a top table without entries.
abbrev no_entries : Tables
no_entries = record { mem = machine 1; word = λ p i. 0 }

abbrev top_only : Shape
top_only = record { level = λ p. if p == 1 then 4 else 0; prefix = λ p. 0 }

no_entries-IsTable : IsTable 1 no_entries
no_entries-IsTable = record {
  shape = top_only;
  fits = record {
    child = λ f i l h small present. cc present;
    owned = top_owned;
    small = omega arith;
  };
  top = refl;
  start = refl;
}
  where
    top_owned :
        (f : ℕ) (e : CoreMapEntry)
        → top_only.level f ≢ 0
        → get_elem? (machine 1).core_map f ≡ some e
        → e.available ≢ 1
    top_owned f e nz g = elim (ℕ-cases f 1) [
      | inl same ↦ ground (arith, rw same at g)
      | inr other ↦ absurd (nz (rw other))
    ]

abbrev two_mapped : Tables
two_mapped = result (mappages 1 5 2 2 3 true no_entries) no_entries

two_mapped_run : mappages 1 5 2 2 3 true no_entries ≡ done two_mapped
unfolding mappages map_page walkpml4 walk_levels next_table new_table zeroed_page kalloc
    find_available claim_page
two_mapped_run = refl

two_mapped_entries : (translate two_mapped 1 6 ≡ 3 * 4096 + 3) × (translate two_mapped 1 7 ≡ 0)
unfolding view mappages map_page walkpml4 walk_levels next_table new_table zeroed_page kalloc
    find_available claim_page
two_mapped_entries = (refl, refl)

mappages-put_range_example :
    IsTable 1 two_mapped
    × ((v : ℕ) → 5 ≤ v → v < 5 + 2 → is_present (translate no_entries 1 v) ≡ false)
    × ((v : ℕ)
        → v < 2 ^ 36
        → translate two_mapped 1 v ≡ put_range (translate no_entries 1) 5 2 2 3 v)
mappages-put_range_example =
    mappages-put_range 2 1 5 2 3 true no_entries two_mapped no_entries-IsTable (omega arith)
      two_mapped_run

-- The carry out of the digit of the directory is lost if the digit above is odd.
page_address_carry : (page_address 0 1 512 ≡ 2 ^ 30) × (page_address 0 2 512 ≡ 3 * 2 ^ 30)
page_address_carry = (refl, refl)

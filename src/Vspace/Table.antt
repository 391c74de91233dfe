-- ===== src/Vspace/Table.antt =====
-- The page table of an address space, built from its regions: `x86perms`, `vspaceinvalidate` and
-- `vspacemarknotpresent` of kernel/vspace.c, and `mappages` of kernel/x86_64vm.c at one user page.
use uw_cse451_operating_syst.Base.{
  ◌/◌, ℕ, zero, suc, ◌+◌, ◌-◌, ◌*◌, ◌%◌, ◌^◌, Bool, not, Option, none, some, List, [], ◌∷◌, ◌==◌,
  ltb, if◌then◌else◌, get_elem?, set,
}
use uw_cse451_operating_syst.Base.Outcome.{Outcome, done, panic, ◌>>=◌}
use uw_cse451_operating_syst.Kalloc.{Kmem, mark_user_mem}
use uw_cse451_operating_syst.Vspace.{
  PageInfo, Region, va2vpage_info, va2vregion, get_info, vr_top, vr_bottom,
}

-- A page table entry with the three bits that `x86perms` sets; PTE_U is always set.
pub record Pte : Type 0 where
  pub ppn : ℕ
  pub present : Bool
  pub writable : Bool

-- By virtual page number; `none` is an entry of 0.
abbrev pub PageTable : Type 0
PageTable = ℕ → Option Pte

pub record Vspace : Type 0 where
  pub regions : List Region
  pub pgtbl : PageTable

abbrev pub put {ℓ} : {A : Type ℓ} → (ℕ → A) → ℕ → A → ℕ → A
put t i v j = if i == j then v else t j

-- `PTE(ppn << PT_SHIFT, x86perms(vpi))`
abbrev pub pte_of : PageInfo → Pte
pte_of i = record { ppn = i.ppn; present = i.present; writable = i.writable }

-- The page is marked, and its entry written.
abbrev pub enter_page : PageTable → (vpn : ℕ) → PageInfo → Kmem → Outcome (PageTable × Kmem)
enter_page t vpn i k =
    mark_user_mem (i.ppn * 4096) (vpn * 4096) k >>= (λ k1. done (put t vpn (some (pte_of i)), k1))

-- `mappages` for one page of a user: an entry that is present already is a panic.
unfoldable pub map_user_page : PageTable → (vpn : ℕ) → PageInfo → Kmem → Outcome (PageTable × Kmem)
map_user_page t vpn i k =
    let enter = enter_page t vpn i k in
    elim (t vpn) [ none ↦ enter | some old ↦ if old.present then panic else enter ]

-- One region, with `count` pages left from `start` on. Without memory for a page of infos the C code
-- follows a null pointer.
unfoldable pub map_region :
    (count : ℕ) → Region → (start : ℕ) → PageTable → Kmem → Outcome (Region × PageTable × Kmem)
map_region zero r start t k = done (r, t, k)
map_region (suc count) r start t k = va2vpage_info r start k >>= (λ (o, r1, k1). elim o [
  | none ↦ panic
  | some idx ↦ elim (get_info r1.pages idx) [
    | none ↦ panic
    | some i ↦
        map_user_page t (start / 4096) i k1
        >>= (λ (t1, k2). map_region count r1 (start + 4096) t1 k2)
  ]
])

-- The rounds of `for (; start < end; start += PGSIZE)`.
abbrev pub page_rounds : (start end : ℕ) → ℕ
page_rounds start end = (end - start + 4095) / 4096

unfoldable pub map_regions :
    List Region → PageTable → Kmem → Outcome (List Region × PageTable × Kmem)
map_regions [] t k = done ([], t, k)
map_regions (r ∷ rs) t k =
    if vr_bottom r % 4096 == 0
    then map_region (page_rounds (vr_bottom r) (vr_top r)) r (vr_bottom r) t k
      >>= (λ (r1, t1, k1). map_regions rs t1 k1 >>= (λ (rs1, t2, k2). done (r1 ∷ rs1, t2, k2)))
    else panic

-- The first loop clears the first entry of the top table, which covers 512 GB.
abbrev pub clear_user : PageTable → PageTable
clear_user t vpn = if ltb vpn (2 ^ 27) then none else t vpn

unfoldable pub vspaceinvalidate : Vspace → Kmem → Outcome (Vspace × Kmem)
vspaceinvalidate vs k =
    map_regions vs.regions (clear_user vs.pgtbl) k
    >>= (λ (rs, t, k1). done (record { regions = rs; pgtbl = t }, k1))

-- The page must be in a region, and its info not present.
unfoldable pub vspacemarknotpresent : Vspace → (va : ℕ) → Kmem → Outcome (Vspace × Kmem)
vspacemarknotpresent vs va k =
    if not (va % 4096 == 0) then panic else elim (va2vregion vs.regions va 0) [
      | none ↦ panic
      | some j ↦ elim (get_elem? vs.regions j) [
        | none ↦ panic
        | some r ↦ va2vpage_info r va k >>= (λ (o, r1, k1). elim o [
          | none ↦ panic
          | some idx ↦ elim (get_info r1.pages idx) [
            | none ↦ panic
            | some i ↦
                if i.present
                then panic
                else done (
                  record { regions = set vs.regions j r1; pgtbl = put vs.pgtbl (va / 4096) none },
                  k1,
                )
          ]
        ])
      ]
    ]

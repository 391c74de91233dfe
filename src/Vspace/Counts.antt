-- ===== src/Vspace/Counts.antt =====
-- How many infos stand for a page, and the reference counts of the core map: each page that an address
-- space uses has as many owners as there are infos for it.
use uw_cse451_operating_syst.Base.{
  ℕ, ◌+◌, ◌<◌, ◌≡◌, ◌≢◌, inl, inr, sym, ap, ◌∙◌, some, List, [], ◌∷◌, arith, ◌==◌, if◌then◌else◌,
  get_elem?, Bool-cases, ℕ-cases,
}
use uw_cse451_operating_syst.Kalloc.{claim_page, Kmem, kalloc, modify, CoreMapEntry, take_entry}
use uw_cse451_operating_syst.Vspace.{PageInfo, VpiPage, Region, zeroed_page}
use uw_cse451_operating_syst.Kalloc.Allocation.{kalloc-cases}
use uw_cse451_operating_syst.Kalloc.Entries.{get_elem?-modify_ne, get_elem?-modify_self}

-- Whether an info stands for page `d`.
abbrev pub stands_for : PageInfo → (d : ℕ) → ℕ
stands_for i d = if i.used then if i.ppn == d then 1 else 0 else 0

unfoldable pub count_infos : List PageInfo → (d : ℕ) → ℕ
count_infos [] d = 0
count_infos (i ∷ is) d = stands_for i d + count_infos is d

unfoldable pub count_pages : List VpiPage → (d : ℕ) → ℕ
count_pages [] d = 0
count_pages (p ∷ ps) d = count_infos p.infos d + count_pages ps d

unfoldable pub count_regions : List Region → (d : ℕ) → ℕ
count_regions [] d = 0
count_regions (r ∷ rs) d = count_pages r.pages d + count_regions rs d

-- `n d` is the number of infos for page `d` in all address spaces.
abbrev pub IsShared : Kmem → (n : ℕ → ℕ) → Type 0
IsShared k n =
    (d : ℕ)
    → 0 < n d
    → (e : CoreMapEntry) × (get_elem? k.core_map d ≡ some e)
      × (e.available ≢ 1)
      × (e.ref_count ≡ n d)

-- The count may be written another way.
pub IsShared-eq : (k : Kmem) (m n : ℕ → ℕ) → ((d : ℕ) → m d ≡ n d) → IsShared k m → IsShared k n
IsShared-eq k m n h s d pos =
    let same = h d in let (e, g, a, r) = s d (omega arith) in (e, g, a, r ∙ same)

pub kalloc-IsShared : (k : Kmem) (n : ℕ → ℕ) → IsShared k n → IsShared (kalloc k).1 n
unfolding claim_page
kalloc-IsShared k n s d pos = elim (kalloc-cases k) [
  | inl (e, run) ↦ rw run (s d pos)
  | inr (q, a) ↦
      let (e, g, av, r) = s d pos in
      elim (ℕ-cases q d) [
        | inl same ↦
            let here : get_elem? k.core_map d ≡ some a.found.entry = rw⁻¹ same a.found.here in
            let one : e ≡ a.found.entry = cc (g, here) in
            let free : a.found.entry.available ≡ 1 = a.found.free in
            absurd (av (ap {A = CoreMapEntry} (λ x. x.available) one ∙ free))
        | inr ne ↦ (
          e,
          rw a.state (get_elem?-modify_ne k.core_map q d take_entry (ground arith) ∙ g),
          av,
          r,
        )
      ]
]

-- Only the core map matters.
core_map-IsShared :
    (k k1 : Kmem) (n : ℕ → ℕ) → k1.core_map ≡ k.core_map → IsShared k n → IsShared k1 n
core_map-IsShared k k1 n h s d pos =
    let (e, g, a, r) = s d pos in (e, ap (λ m. get_elem? m d) h ∙ g, a, r)

pub zeroed_page-core_map : (k : Kmem) → (zeroed_page k).1.core_map ≡ (kalloc k).1.core_map
unfolding zeroed_page
zeroed_page-core_map k = elim (Bool-cases ((kalloc k).0 == 0)) [
  | inl e ↦ rw (zeroed_page, e)
  | inr e ↦ rw (zeroed_page, e)
]

pub zeroed_page-IsShared : (k : Kmem) (n : ℕ → ℕ) → IsShared k n → IsShared (zeroed_page k).1 n
zeroed_page-IsShared k n s =
    core_map-IsShared (kalloc k).1 (zeroed_page k).1 n (zeroed_page-core_map k)
      (kalloc-IsShared k n s)

-- An entry is changed in a way that keeps its owners.
pub modify-IsShared :
    (k k1 : Kmem) (n : ℕ → ℕ) (i : ℕ) (f : CoreMapEntry → CoreMapEntry)
    → ((e : CoreMapEntry) → (f e).available ≡ e.available)
    → ((e : CoreMapEntry) → (f e).ref_count ≡ e.ref_count)
    → k1.core_map ≡ modify k.core_map i f
    → IsShared k n
    → IsShared k1 n
modify-IsShared k k1 n i f ha hr h s d pos =
    let (e, g, a, r) = s d pos in
    elim (ℕ-cases i d) [
      | inl same ↦ (
        f e,
        ap (λ m. get_elem? m d) h
            ∙ ap (λ j. get_elem? (modify k.core_map j f) d) same
            ∙ get_elem?-modify_self k.core_map d f e g,
        (λ x. a (sym (ha e) ∙ x)),
        hr e ∙ r,
      )
      | inr ne ↦ (
        e,
        ap (λ m. get_elem? m d) h ∙ get_elem?-modify_ne k.core_map i d f (ground arith) ∙ g,
        a,
        r,
      )
    ]

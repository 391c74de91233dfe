-- ===== src/Vspace/Moves.antt =====
-- A page's first owner, and the loss of one.
use uw_cse451_operating_syst.Base.{
  ℕ, ◌+◌, ◌-◌, ◌<◌, ◌≡◌, inl, inr, sym, ap, ◌∙◌, false, some, arith, ◌==◌, if◌then◌else◌, get_elem?,
  ℕ-cases,
}
use uw_cse451_operating_syst.Kalloc.{
  Kmem, CoreMapEntry, kalloc, claim_page, modify, decrement, take_entry,
}
use uw_cse451_operating_syst.Kalloc.Allocation.{Allocated}
use uw_cse451_operating_syst.Kalloc.Entries.{get_elem?-modify_self, get_elem?-modify_ne}
use uw_cse451_operating_syst.Vspace.Counts.{IsShared}
use uw_cse451_operating_syst.Vspace.Copy.{more_other, less_other}

-- A page that is available has no infos.
pub free_page-no_infos :
    (k : Kmem) (n : ℕ → ℕ) (q : ℕ) (e : CoreMapEntry)
    → IsShared k n
    → get_elem? k.core_map q ≡ some e
    → e.available ≡ 1
    → n q ≡ 0
free_page-no_infos k n q e s here free = elim (ℕ-cases (n q) 0) [
  | inl z ↦ z
  | inr nz ↦
      let (e1, g, av, r) = s q (ground arith) in
      let one : e1 ≡ e = cc (g, here) in
      absurd (av (ap {A = CoreMapEntry} (λ x. x.available) one ∙ free))
]

first_owner : (a q d : ℕ) → q ≡ d → a ≡ 0 → 1 ≡ a + (if q == d then 1 else 0)
first_owner a q d h z = ground arith

-- The page that `kalloc` hands out has its first owner.
pub alloc-IsShared :
    (k : Kmem) (n : ℕ → ℕ) (q : ℕ)
    → Allocated k q
    → IsShared k n
    → IsShared (kalloc k).1 (λ d. n d + (if q == d then 1 else 0))
unfolding claim_page
alloc-IsShared k n q a s d pos = elim (ℕ-cases q d) [
  | inl same ↦
      let free : a.found.entry.available ≡ 1 = a.found.free in
      let none_yet : n q ≡ 0 = free_page-no_infos k n q a.found.entry s a.found.here free in
      (
        take_entry a.found.entry,
        rw (a.state, sym same)
            (get_elem?-modify_self k.core_map q take_entry a.found.entry a.found.here),
        (λ x. cc),
        first_owner (n d) q d same (sym (ap n same) ∙ none_yet),
      )
  | inr ne ↦
      let (e, g, av, r) = s d (less_other (n d) q d ne pos) in
      (
        e,
        rw a.state (get_elem?-modify_ne k.core_map q d take_entry (ground arith) ∙ g),
        av,
        more_other e.ref_count (n d) q d ne r,
      )
]

fewer_self : (r a d x : ℕ) → d ≡ x → r ≡ a → r - 1 ≡ a - (if d == x then 1 else 0)
fewer_self r a d x h e = ground arith

fewer_other : (r a d x : ℕ) → d == x ≡ false → r ≡ a → r ≡ a - (if d == x then 1 else 0)
fewer_other r a d x h e = rw h (omega arith)

-- A page loses an owner.
pub decrement-IsShared :
    (k k1 : Kmem) (n : ℕ → ℕ) (d : ℕ)
    → k1.core_map ≡ modify k.core_map d decrement
    → IsShared k n
    → IsShared k1 (λ x. n x - (if d == x then 1 else 0))
decrement-IsShared k k1 n d h s x pos =
    let nx : 0 < n x = omega arith in
    let (e, g, av, r) = s x nx in
    elim (ℕ-cases d x) [
      | inl same ↦ (
        decrement e,
        ap (λ m. get_elem? m x) h
            ∙ ap (λ j. get_elem? (modify k.core_map j decrement) x) same
            ∙ get_elem?-modify_self k.core_map x decrement e g,
        av,
        fewer_self e.ref_count (n x) d x same r,
      )
      | inr ne ↦ (
        e,
        ap (λ m. get_elem? m x) h ∙ get_elem?-modify_ne k.core_map d x decrement (ground arith) ∙ g,
        av,
        fewer_other e.ref_count (n x) d x ne r,
      )
    ]

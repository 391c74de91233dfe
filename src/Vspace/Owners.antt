-- ===== src/Vspace/Owners.antt =====
-- The owners that the core map counts, over `vspacecopy` and the fault on a shared page.
use uw_cse451_operating_syst.Base.{ℕ, ◌+◌, ◌≡◌, inl, inr, ◌∙◌, true, arith, Bool-cases}
use uw_cse451_operating_syst.Base.Outcome.{done, >>=-eq-done}
use uw_cse451_operating_syst.Kalloc.{Kmem}
use uw_cse451_operating_syst.Vspace.Table.{Vspace, vspaceinvalidate}
use uw_cse451_operating_syst.Vspace.Cow.{copy_regions, vspacecopy}
use uw_cse451_operating_syst.Vspace.Counts.{IsShared, IsShared-eq, count_regions}
use uw_cse451_operating_syst.Vspace.Fork.{copy_regions-Copied}
use uw_cse451_operating_syst.Vspace.Invalidate.{vspaceinvalidate-Keeps}

-- The owners of the pages of two address spaces, where the first has `c d` infos for page `d`.
abbrev Counted : (c others : ℕ → ℕ) → (dst src : Vspace) → Kmem → Type 0
Counted c others dst src k =
    IsShared k (λ d. count_regions dst.regions d + count_regions src.regions d + others d)
    × ((d : ℕ) → count_regions dst.regions d ≡ c d)

Counted-eq :
    (c others : ℕ → ℕ) (dst src dst1 src1 : Vspace) (k k1 : Kmem)
    → Counted c others dst src k
    → dst ≡ dst1
    → src ≡ src1
    → k ≡ k1
    → Counted c others dst1 src1 k1
Counted-eq c others dst src dst1 src1 k k1 h ed es ek = rw⁻¹ (ed, es, ek) h

-- When `vspacecopy` succeeds and every page had as many owners as there were infos for it, in the
-- source and in other address spaces, then so it is afterwards with the infos of the copy counted in,
-- which are as many for each page as those of the source were.
pub vspacecopy-IsShared :
    (dst src dst1 src1 : Vspace) (k k1 : Kmem) (others : ℕ → ℕ)
    → vspacecopy dst src k ≡ done (true, dst1, src1, k1)
    → IsShared k (λ d. count_regions src.regions d + others d)
    → IsShared k1 (λ d. count_regions dst1.regions d + count_regions src1.regions d + others d)
      × ((d : ℕ) → count_regions dst1.regions d ≡ count_regions src.regions d)
unfolding vspacecopy
vspacecopy-IsShared dst src dst1 src1 k k1 others h s =
    let (q, run, rest) = >>=-eq-done (copy_regions src.regions k) _ h in
    elim (Bool-cases q.0) [
      | inr f ↦ cc (rw f at rest)
      | inl o ↦
          let (a, run1, rest1) =
            >>=-eq-done (vspaceinvalidate (record dst { regions = q.1 }) q.3) _ (rw o at rest) in
          let (b, run2, last) =
            >>=-eq-done (vspaceinvalidate (record src { regions = q.2 }) a.1) _ rest1 in
          let c = copy_regions-Copied src.regions q.1 q.2 q.0 k q.3 _ run o (λ d. omega arith) s in
          let x = vspaceinvalidate-Keeps (record dst { regions = q.1 }) a.0 q.3 a.1 run1 in
          let y = vspaceinvalidate-Keeps (record src { regions = q.2 }) b.0 a.1 b.1 run2 in
          Counted-eq (count_regions src.regions) others a.0 b.0 dst1 src1 b.1 k1
            (
              IsShared-eq b.1 _ _ (λ d. omega (arith, c.copy d, c.source d, x.same d, y.same d))
                  (y.owners _ (x.owners _ c.shared)),
              (λ d. x.same d ∙ c.copy d),
            )
            (cc last) (cc last) (cc last)
    ]

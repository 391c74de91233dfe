-- ===== src/Vspace/Copy.antt =====
-- `vspacecopy` gives every page of the source one more owner for each info of the copy.
use uw_cse451_operating_syst.Base.{
  ℕ, ◌+◌, ◌*◌, ◌≤◌, ◌<◌, ◌≡◌, inl, inr, refl, sym, ap, ◌∙◌, true, false, List, [], ◌∷◌, arith, ◌==◌,
  if◌then◌else◌, get_elem?, Bool-cases, ℕ-cases,
}
use uw_cse451_operating_syst.Base.Outcome.{done, >>=-eq-done}
use uw_cse451_operating_syst.Kalloc.{Kmem, modify, pa2page}
use uw_cse451_operating_syst.Kalloc.Entries.{get_elem?-modify_self, get_elem?-modify_ne}
use uw_cse451_operating_syst.Vspace.{unused_info, PageInfo}
use uw_cse451_operating_syst.Vspace.Cow.{
  shared_info, copied_info, share_page, copy_infos, add_owner,
}
use uw_cse451_operating_syst.Vspace.Counts.{IsShared, count_infos, stands_for, IsShared-eq}

pub pa2page-ppn : (k : Kmem) (p d : ℕ) → pa2page k (p * 4096) ≡ done d → d ≡ p
unfolding pa2page
pa2page-ppn k p d h = ground arith

le_of : {a b : ℕ} → 0 < a → a ≡ b → 0 < b
le_of h e = omega arith

-- The number of owners with one more for page `p`.
more_self : (r a p d : ℕ) → p ≡ d → r ≡ a → r + 1 ≡ a + (if p == d then 1 else 0)
more_self r a p d h e = ground arith

pub more_other : (r a p d : ℕ) → p == d ≡ false → r ≡ a → r ≡ a + (if p == d then 1 else 0)
more_other r a p d h e = rw h (omega arith)

pub less_other : (a p d : ℕ) → p == d ≡ false → 0 < a + (if p == d then 1 else 0) → 0 < a
less_other a p d h pos = ground arith

share_page-IsShared :
    (p : ℕ) (k k1 : Kmem) (n : ℕ → ℕ)
    → share_page p k ≡ done k1
    → 0 < n p
    → IsShared k n
    → IsShared k1 (λ d. n d + (if p == d then 1 else 0))
unfolding share_page
share_page-IsShared p k k1 n h np s d pos =
    let (i, run, last) = >>=-eq-done (pa2page k (p * 4096)) _ h in
    let ip : i ≡ p = pa2page-ppn k p i run in
    let state : record k { core_map = modify k.core_map i add_owner } ≡ k1 = cc last in
    let same : modify k.core_map i add_owner ≡ k1.core_map =
      ap {A = Kmem} (λ m. m.core_map) state in
    elim (ℕ-cases p d) [
      | inl pd ↦
          let nd : n p ≡ n d = ap n pd in
          let (e, g, a, r) = s d (le_of np nd) in
          (
            add_owner e,
            ap (λ m. get_elem? m d) (sym same)
                ∙ ap (λ j. get_elem? (modify k.core_map j add_owner) d) (ip ∙ pd)
                ∙ get_elem?-modify_self k.core_map d add_owner e g,
            a,
            more_self e.ref_count (n d) p d pd r,
          )
      | inr ne ↦
          let (e, g, a, r) = s d (less_other (n d) p d ne pos) in
          (
            e,
            ap (λ m. get_elem? m d) (sym same)
                ∙ get_elem?-modify_ne k.core_map i d add_owner (ground arith)
                ∙ g,
            a,
            more_other e.ref_count (n d) p d ne r,
          )
    ]

-- A copy that has come off: the owners are counted, and both lists stand for the pages of the source.
pub record Copied (k1 : Kmem) (n count dst src : ℕ → ℕ) : Type 0 where
  pub shared : IsShared k1 (λ d. n d + count d)
  pub copy : (d : ℕ) → dst d ≡ count d
  pub source : (d : ℕ) → src d ≡ count d

-- A used info is one of those that the count includes.
le_of_first :
    (i : PageInfo) (is : List PageInfo) {m : ℕ}
    → i.used ≡ true
    → count_infos (i ∷ is) i.ppn ≤ m
    → 0 < m
unfolding count_infos
le_of_first i is u h = ground arith

module _ (i : PageInfo) (is ds ss : List PageInfo) (n : ℕ → ℕ) (k : Kmem) where
  used-Copied :
      i.used ≡ true
      → Copied k
          (λ d. n d + (if i.ppn == d then 1 else 0))
          (count_infos is)
          (count_infos ds)
          (count_infos ss)
      → Copied k n
          (count_infos (i ∷ is))
          (count_infos (copied_info i ∷ ds))
          (count_infos (shared_info i ∷ ss))
  unfolding count_infos
  used-Copied u c = record {
    shared = IsShared-eq k _ _ (λ d. rw u (omega arith)) c.shared;
    copy = (λ d. ap (λ x. stands_for i d + x) (c.copy d));
    source = (λ d. ap (λ x. stands_for i d + x) (c.source d));
  }

  unused-Copied :
      i.used ≡ false
      → Copied k n (count_infos is) (count_infos ds) (count_infos ss)
      → Copied k n (count_infos (i ∷ is)) (count_infos (unused_info ∷ ds)) (count_infos (i ∷ ss))
  unfolding count_infos
  unused-Copied u c = record {
    shared = IsShared-eq k _ _ (λ d. rw u (omega arith)) c.shared;
    copy = (λ d. rw u (omega (arith, c.copy d)));
    source = (λ d. ap (λ x. stands_for i d + x) (c.source d));
  }

-- The result of a copy is known by an equation.
pub Copied-eq {ℓ} :
    {A : Type ℓ} (f : A → ℕ → ℕ) (n c : ℕ → ℕ) (x y x1 y1 : A) {k k1 : Kmem}
    → Copied k n c (f x) (f y)
    → x ≡ x1
    → y ≡ y1
    → k ≡ k1
    → Copied k1 n c (f x1) (f y1)
Copied-eq f n c x y x1 y1 h ex ey ek = rw⁻¹ (ex, ey, ek) h

pub copy_infos-Copied :
    (is ds ss : List PageInfo) (k k1 : Kmem) (n : ℕ → ℕ)
    → copy_infos is k ≡ done (ds, ss, k1)
    → ((d : ℕ) → count_infos is d ≤ n d)
    → IsShared k n
    → Copied k1 n (count_infos is) (count_infos ds) (count_infos ss)
unfolding copy_infos count_infos
copy_infos-Copied [] ds ss k k1 n h le s =
    let c : Copied k n (count_infos []) (count_infos []) (count_infos []) = record {
      shared = IsShared-eq k n (λ d. n d + 0) (λ d. omega arith) s;
      copy = (λ d. refl);
      source = (λ d. refl);
    } in
    Copied-eq count_infos n _ [] [] ds ss c (cc h) (cc h) (cc h)
copy_infos-Copied (i ∷ is) ds ss k k1 n h le s = elim (Bool-cases i.used) [
  | inl u ↦
      let (k2, run, rest) = >>=-eq-done (share_page i.ppn k) _ (rw u at h) in
      let (r, run1, last) = >>=-eq-done (copy_infos is k2) _ rest in
      let one : 0 < n i.ppn = le_of_first i is u (le i.ppn) in
      Copied-eq count_infos n _ (copied_info i ∷ r.0) (shared_info i ∷ r.1) ds ss
        (used-Copied i is r.0 r.1 n r.2 u (
          copy_infos-Copied is r.0 r.1 k2 r.2 _ run1 (λ d. omega (arith, le d))
            (share_page-IsShared i.ppn k k2 n run one s)))
        (cc last) (cc last) (cc last)
  | inr u ↦
      let (r, run1, last) = >>=-eq-done (copy_infos is k) _ (rw u at h) in
      Copied-eq count_infos n _ (unused_info ∷ r.0) (i ∷ r.1) ds ss
        (unused-Copied i is r.0 r.1 n r.2 u
          (copy_infos-Copied is r.0 r.1 k r.2 n run1 (λ d. omega (arith, le d)) s))
        (cc last) (cc last) (cc last)
]

-- ===== src/Vspace/Fork.antt =====
-- `vspacecopy` gives every page of the source one more owner for each info of the copy: the lists of
-- pages, the regions and the two address spaces.
use uw_cse451_operating_syst.Base.{
  ℕ, ◌+◌, ◌≤◌, ◌≡◌, inl, inr, refl, Bool, true, List, [], ◌∷◌, arith, ◌==◌, Bool-cases,
}
use uw_cse451_operating_syst.Base.Outcome.{done, >>=-eq-done}
use uw_cse451_operating_syst.Kalloc.{Kmem}
use uw_cse451_operating_syst.Vspace.{PageInfo, VpiPage, Region, zeroed_page}
use uw_cse451_operating_syst.Vspace.Cow.{copy_infos, copy_pages, copy_regions}
use uw_cse451_operating_syst.Vspace.Counts.{
  IsShared, count_infos, count_pages, count_regions, zeroed_page-IsShared, IsShared-eq,
}
use uw_cse451_operating_syst.Vspace.Copy.{Copied, Copied-eq, copy_infos-Copied}

-- Two copies, one after the other.
Copied-append :
    {k1 k2 : Kmem} {n c d s c1 d1 s1 : ℕ → ℕ}
    → Copied k1 n c d s
    → Copied k2 (λ e. n e + c e) c1 d1 s1
    → Copied k2 n (λ e. c e + c1 e) (λ e. d e + d1 e) (λ e. s e + s1 e)
Copied-append {k2} {n} {c} {c1} x y = record {
  shared = IsShared-eq k2 _ _ (λ e. omega arith) y.shared;
  copy = (λ e. omega (arith, x.copy e, y.copy e));
  source = (λ e. omega (arith, x.source e, y.source e));
}

-- The copy of one page in front of the others'.
first-Copied :
    (p : VpiPage) (ps : List VpiPage) (a : ℕ) (ds ss : List PageInfo) (dst src : List VpiPage)
    (n : ℕ → ℕ) {k1 k2 : Kmem}
    → Copied k1 n (count_infos p.infos) (count_infos ds) (count_infos ss)
    → Copied k2
        (λ d. n d + count_infos p.infos d)
        (count_pages ps)
        (count_pages dst)
        (count_pages src)
    → Copied k2 n
        (count_pages (p ∷ ps))
        (count_pages (record { address = a; infos = ds } ∷ dst))
        (count_pages (record p { infos = ss } ∷ src))
unfolding count_pages
first-Copied p ps a ds ss dst src n x y = Copied-append x y

copy_pages-Copied :
    (ps dst src : List VpiPage) (ok : Bool) (k k1 : Kmem) (n : ℕ → ℕ)
    → copy_pages ps k ≡ done (ok, dst, src, k1)
    → ok ≡ true
    → ((d : ℕ) → count_pages ps d ≤ n d)
    → IsShared k n
    → Copied k1 n (count_pages ps) (count_pages dst) (count_pages src)
unfolding copy_pages count_pages
copy_pages-Copied [] dst src ok k k1 n h t le s =
    let c : Copied k n (count_pages []) (count_pages []) (count_pages []) = record {
      shared = IsShared-eq k n (λ d. n d + 0) (λ d. omega arith) s;
      copy = (λ d. refl);
      source = (λ d. refl);
    } in
    Copied-eq count_pages n _ [] [] dst src c (cc h) (cc h) (cc h)
copy_pages-Copied (p ∷ ps) dst src ok k k1 n h t le s = elim (Bool-cases ((zeroed_page k).0 == 0)) [
  | inl z ↦ cc (rw z at h, t)
  | inr z ↦
      let (r, run, rest) = >>=-eq-done (copy_infos p.infos (zeroed_page k).1) _ (rw z at h) in
      let (q, run1, last) = >>=-eq-done (copy_pages ps r.2) _ rest in
      let c =
        copy_infos-Copied p.infos r.0 r.1 (zeroed_page k).1 r.2 n run (λ d. omega (arith, le d))
          (zeroed_page-IsShared k n s) in
      Copied-eq count_pages n _ (record { address = (zeroed_page k).0; infos = r.0 } ∷ q.1)
        (record p { infos = r.1 } ∷ q.2) dst src
        (first-Copied p ps (zeroed_page k).0 r.0 r.1 q.1 q.2 n c (
          copy_pages-Copied ps q.1 q.2 q.0 r.2 q.3 _ run1 (cc (last, t)) (λ d. omega (arith, le d))
            c.shared))
        (cc last) (cc last) (cc last)
]

-- The copy of one region in front of the others'.
first_region-Copied :
    (r : Region) (rs : List Region) (dst src : List VpiPage) (drs srs : List Region) (n : ℕ → ℕ)
    {k1 k2 : Kmem}
    → Copied k1 n (count_pages r.pages) (count_pages dst) (count_pages src)
    → Copied k2
        (λ d. n d + count_pages r.pages d)
        (count_regions rs)
        (count_regions drs)
        (count_regions srs)
    → Copied k2 n
        (count_regions (r ∷ rs))
        (count_regions (record r { pages = dst } ∷ drs))
        (count_regions (record r { pages = src } ∷ srs))
unfolding count_regions
first_region-Copied r rs dst src drs srs n x y = Copied-append x y

pub copy_regions-Copied :
    (rs drs srs : List Region) (ok : Bool) (k k1 : Kmem) (n : ℕ → ℕ)
    → copy_regions rs k ≡ done (ok, drs, srs, k1)
    → ok ≡ true
    → ((d : ℕ) → count_regions rs d ≤ n d)
    → IsShared k n
    → Copied k1 n (count_regions rs) (count_regions drs) (count_regions srs)
unfolding copy_regions count_regions
copy_regions-Copied [] drs srs ok k k1 n h t le s =
    let c : Copied k n (count_regions []) (count_regions []) (count_regions []) = record {
      shared = IsShared-eq k n (λ d. n d + 0) (λ d. omega arith) s;
      copy = (λ d. refl);
      source = (λ d. refl);
    } in
    Copied-eq count_regions n _ [] [] drs srs c (cc h) (cc h) (cc h)
copy_regions-Copied (r ∷ rs) drs srs ok k k1 n h t le s =
    let (p, run, rest) = >>=-eq-done (copy_pages r.pages k) _ h in
    elim (Bool-cases p.0) [
      | inr f ↦ cc (rw f at rest, t)
      | inl o ↦
          let (q, run1, last) = >>=-eq-done (copy_regions rs p.3) _ (rw o at rest) in
          let c =
            copy_pages-Copied r.pages p.1 p.2 p.0 k p.3 n run o (λ d. omega (arith, le d)) s in
          Copied-eq count_regions n _ (record r { pages = p.1 } ∷ q.1)
            (record r { pages = p.2 } ∷ q.2) drs srs
            (first_region-Copied r rs p.1 p.2 q.1 q.2 n c (
              copy_regions-Copied rs q.1 q.2 q.0 p.3 q.3 _ run1 (cc (last, t))
                (λ d. omega (arith, le d)) c.shared))
            (cc last) (cc last) (cc last)
    ]

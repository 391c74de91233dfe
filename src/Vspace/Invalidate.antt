-- ===== src/Vspace/Invalidate.antt =====
-- `vspaceinvalidate` rebuilds the page table and changes no owner of a page.
use uw_cse451_operating_syst.Base.{
  ◌/◌, replicate, ℕ, zero, suc, ◌+◌, ◌*◌, ◌%◌, ◌^◌, ◌≡◌, inl, inr, refl, sym, ap, ◌∙◌, Option, List,
  [], ◌∷◌, arith, ◌==◌, leb, Bool-cases, Option-cases,
}
use uw_cse451_operating_syst.Base.Outcome.{done, >>=-eq-done}
use uw_cse451_operating_syst.Kalloc.{modify, Kmem, mark_user_mem, pa2page}
use uw_cse451_operating_syst.Vspace.{
  vr_top, vr_bottom, get_info, PageInfo, VpiPage, Region, zeroed_page, extend_pages, first_page,
  behind_first, va2vpage_info, va2vpi_idx, infos_per_page, empty_page, unused_info,
}
use uw_cse451_operating_syst.Vspace.Table.{
  enter_page, page_rounds, clear_user, Vspace, PageTable, map_user_page, map_region, map_regions,
  vspaceinvalidate,
}
use uw_cse451_operating_syst.Vspace.Counts.{
  IsShared, count_infos, count_pages, count_regions, zeroed_page-IsShared, modify-IsShared,
}

-- The owners in the core map stay, and the infos stand for the same pages.
pub record Keeps (k k1 : Kmem) (c c1 : ℕ → ℕ) : Type 0 where
  pub owners : (n : ℕ → ℕ) → IsShared k n → IsShared k1 n
  pub same : (d : ℕ) → c1 d ≡ c d

Keeps-refl : (k : Kmem) (c : ℕ → ℕ) → Keeps k k c c
Keeps-refl k c = record { owners = λ n s. s; same = λ d. refl }

Keeps-trans :
    {k k1 k2 : Kmem} {c c1 c2 : ℕ → ℕ} → Keeps k k1 c c1 → Keeps k1 k2 c1 c2 → Keeps k k2 c c2
Keeps-trans x y = record {
  owners = λ n s. y.owners n (x.owners n s);
  same = λ d. y.same d ∙ x.same d;
}

-- The result of a step is known by an equation.
Keeps-eq {ℓ} :
    {A : Type ℓ} (f : A → ℕ → ℕ) (c : ℕ → ℕ) (x x1 : A) {k k1 k2 : Kmem}
    → Keeps k k1 c (f x)
    → x ≡ x1
    → k1 ≡ k2
    → Keeps k k2 c (f x1)
Keeps-eq f c x x1 h ex ek = rw⁻¹ (ex, ek) h

count_infos-replicate : (m d : ℕ) → count_infos (replicate m unused_info) d ≡ 0
unfolding count_infos
count_infos-replicate zero d = refl
count_infos-replicate (suc m) d = omega (arith, count_infos-replicate m d)

count_pages-empty :
    (a : ℕ) (ps : List VpiPage) (d : ℕ) → count_pages (empty_page a ∷ ps) d ≡ count_pages ps d
unfolding count_pages
count_pages-empty a ps d = omega (arith, count_infos-replicate infos_per_page d)

extend_pages-Keeps :
    (ps : List VpiPage) (m : ℕ) (k : Kmem)
    → Keeps k (extend_pages ps m k).2 (count_pages ps) (count_pages (extend_pages ps m k).1)
unfolding extend_pages count_pages
extend_pages-Keeps ps zero k = Keeps-refl k (count_pages ps)
extend_pages-Keeps [] (suc m) k = elim (Bool-cases ((zeroed_page k).0 == 0)) [
  | inl z ↦ rw z record { owners = zeroed_page-IsShared k; same = λ d. refl }
  | inr z ↦
      rw z
        let x = extend_pages-Keeps [] m (zeroed_page k).1 in
          record {
            owners = (λ n s. x.owners n (zeroed_page-IsShared k n s));
            same = (λ d.
                count_pages-empty (zeroed_page k).0 (extend_pages [] m (zeroed_page k).1).1 d
                ∙ x.same d);
          }
]
extend_pages-Keeps (p ∷ ps) (suc m) k =
    let x = extend_pages-Keeps ps m k in
    record { owners = x.owners; same = (λ d. ap (λ y. count_infos p.infos d + y) (x.same d)) }

first_page-Keeps :
    (ps qs : List VpiPage) (k k1 : Kmem)
    → first_page ps k ≡ done (qs, k1)
    → Keeps k k1 (count_pages ps) (count_pages qs)
unfolding first_page count_pages
first_page-Keeps [] qs k k1 h = elim (Bool-cases ((zeroed_page k).0 == 0)) [
  | inl z ↦ cc (rw z at h)
  | inr z ↦
      let x : Keeps k (zeroed_page k).1 (count_pages [])
          (count_pages (empty_page (zeroed_page k).0 ∷ [])) =
        record {
          owners = zeroed_page-IsShared k;
          same = λ d. count_pages-empty (zeroed_page k).0 [] d;
        } in
      Keeps-eq count_pages _ (empty_page (zeroed_page k).0 ∷ []) qs x (cc (rw z at h))
        (cc (rw z at h))
]
first_page-Keeps (p ∷ ps) qs k k1 h =
    Keeps-eq count_pages _ (p ∷ ps) qs (Keeps-refl k _) (cc h) (cc h)

behind_first-Keeps :
    (ps : List VpiPage) (m : ℕ) (k : Kmem)
    → Keeps k (behind_first ps m k).2 (count_pages ps) (count_pages (behind_first ps m k).1)
unfolding count_pages
behind_first-Keeps [] m k = Keeps-refl k _
behind_first-Keeps (p ∷ ps) m k =
    let x = extend_pages-Keeps ps m k in
    record { owners = x.owners; same = (λ d. ap (λ y. count_infos p.infos d + y) (x.same d)) }

pub va2vpage_info-Keeps :
    (r r1 : Region) (va : ℕ) (o : Option ℕ) (k k1 : Kmem)
    → va2vpage_info r va k ≡ done (o, r1, k1)
    → Keeps k k1 (count_pages r.pages) (count_pages r1.pages)
unfolding va2vpage_info
va2vpage_info-Keeps r r1 va o k k1 h =
    let (q, run, rest) = >>=-eq-done (first_page r.pages k) _ h in
    let m = va2vpi_idx r va / infos_per_page in
    elim (Bool-cases (leb (2 ^ 31) (va2vpi_idx r va))) [
      | inl z ↦ cc (rw z at rest)
      | inr z ↦
          let er : record r { pages = (behind_first q.0 m q.1).1 } ≡ r1 = cc (rw z at rest) in
          Keeps-eq count_pages _ (behind_first q.0 m q.1).1 r1.pages
            (Keeps-trans (first_page-Keeps r.pages q.0 k q.1 run) (behind_first-Keeps q.0 m q.1))
            (ap {A = Region} (λ x. x.pages) er) (cc (rw z at rest))
    ]

mark_user_mem-owners :
    (pa va : ℕ) (k k1 : Kmem)
    → mark_user_mem pa va k ≡ done k1
    → (n : ℕ → ℕ) → IsShared k n
    → IsShared k1 n
unfolding mark_user_mem
mark_user_mem-owners pa va k k1 h n s =
    let (i, run, last) = >>=-eq-done (pa2page k pa) _ h in
    let state : record k { core_map = modify k.core_map i (λ e. record e { user = 1; va = va }) }
        ≡ k1 =
      cc last in
    modify-IsShared k k1 n i (λ e. record e { user = 1; va = va }) (λ e. refl) (λ e. refl)
      (sym (ap {A = Kmem} (λ x. x.core_map) state)) s

-- The entry is written after the page is marked.
enter_page-owners :
    (t t1 : PageTable) (vpn : ℕ) (i : PageInfo) (k k1 : Kmem)
    → enter_page t vpn i k ≡ done (t1, k1)
    → (n : ℕ → ℕ) → IsShared k n
    → IsShared k1 n
enter_page-owners t t1 vpn i k k1 h n s =
    let (k2, run, last) = >>=-eq-done (mark_user_mem (i.ppn * 4096) (vpn * 4096) k) _ h in
    let state : k2 ≡ k1 = cc last in
    rw⁻¹ state (mark_user_mem-owners (i.ppn * 4096) (vpn * 4096) k k2 run n s)

map_user_page-owners :
    (t t1 : PageTable) (vpn : ℕ) (i : PageInfo) (k k1 : Kmem)
    → map_user_page t vpn i k ≡ done (t1, k1)
    → (n : ℕ → ℕ) → IsShared k n
    → IsShared k1 n
unfolding map_user_page
map_user_page-owners t t1 vpn i k k1 h n s = elim (Option-cases (t vpn)) [
  | inl e ↦ enter_page-owners t t1 vpn i k k1 (rw (e, map_user_page) at h) n s
  | inr (old, e) ↦ elim (Bool-cases old.present) [
    | inl p ↦ cc (rw (e, p, map_user_page) at h)
    | inr p ↦ enter_page-owners t t1 vpn i k k1 (rw (e, p, map_user_page) at h) n s
  ]
]

map_region-Keeps :
    (count : ℕ) (r r1 : Region) (start : ℕ) (t t1 : PageTable) (k k1 : Kmem)
    → map_region count r start t k ≡ done (r1, t1, k1)
    → Keeps k k1 (count_pages r.pages) (count_pages r1.pages)
unfolding map_region
map_region-Keeps zero r r1 start t t1 k k1 h =
    let er : r ≡ r1 = cc h in
    Keeps-eq count_pages _ r.pages r1.pages (Keeps-refl k _) (ap {A = Region} (λ x. x.pages) er)
      (cc h)
map_region-Keeps (suc count) r r1 start t t1 k k1 h =
    let (q, run, rest) = >>=-eq-done (va2vpage_info r start k) _ h in
    let x = va2vpage_info-Keeps r q.1 start q.0 k q.2 run in
    elim (Option-cases q.0) [
      | inl e ↦ cc (rw e at rest)
      | inr (idx, e) ↦ elim (Option-cases (get_info q.1.pages idx)) [
        | inl g ↦ cc (rw (e, g) at rest)
        | inr (i, g) ↦
            let (m, run1, rest1) =
              >>=-eq-done (map_user_page t (start / 4096) i q.2) _ (rw (e, g) at rest) in
            let y = map_region-Keeps count q.1 r1 (start + 4096) m.0 t1 m.1 k1 rest1 in
            record {
              owners = (λ n s.
                  y.owners n
                    (map_user_page-owners t m.0 (start / 4096) i q.2 m.1 run1 n (x.owners n s)));
              same = (λ d. y.same d ∙ x.same d);
            }
      ]
    ]

map_regions-Keeps :
    (rs rs1 : List Region) (t t1 : PageTable) (k k1 : Kmem)
    → map_regions rs t k ≡ done (rs1, t1, k1)
    → Keeps k k1 (count_regions rs) (count_regions rs1)
unfolding map_regions count_regions
map_regions-Keeps [] rs1 t t1 k k1 h =
    Keeps-eq count_regions _ [] rs1 (Keeps-refl k _) (cc h) (cc h)
map_regions-Keeps (r ∷ rs) rs1 t t1 k k1 h = elim (Bool-cases (vr_bottom r % 4096 == 0)) [
  | inr f ↦ cc (rw f at h)
  | inl f ↦
      let (q, run, rest) =
        >>=-eq-done (map_region (page_rounds (vr_bottom r) (vr_top r)) r (vr_bottom r) t k) _
          (rw f at h) in
      let (m, run1, last) = >>=-eq-done (map_regions rs q.1 q.2) _ rest in
      let x =
        map_region-Keeps (page_rounds (vr_bottom r) (vr_top r)) r q.0 (vr_bottom r) t q.1 k q.2
          run in
      let y = map_regions-Keeps rs m.0 q.1 m.1 q.2 m.2 run1 in
      let z : Keeps k m.2 (count_regions (r ∷ rs)) (count_regions (q.0 ∷ m.0)) = record {
        owners = (λ n s. y.owners n (x.owners n s));
        same = (λ d. omega (arith, x.same d, y.same d));
      } in
      Keeps-eq count_regions _ (q.0 ∷ m.0) rs1 z (cc last) (cc last)
]

pub vspaceinvalidate-Keeps :
    (vs vs1 : Vspace) (k k1 : Kmem)
    → vspaceinvalidate vs k ≡ done (vs1, k1)
    → Keeps k k1 (count_regions vs.regions) (count_regions vs1.regions)
unfolding vspaceinvalidate
vspaceinvalidate-Keeps vs vs1 k k1 h =
    let (q, run, last) = >>=-eq-done (map_regions vs.regions (clear_user vs.pgtbl) k) _ h in
    let ev : record { regions = q.0; pgtbl = q.1 } ≡ vs1 = cc last in
    Keeps-eq count_regions _ q.0 vs1.regions
      (map_regions-Keeps vs.regions q.0 (clear_user vs.pgtbl) q.1 k q.2 run)
      (ap {A = Vspace} (λ x. x.regions) ev) (cc last)

-- ===== src/Vspace/Layout.antt =====
-- Where the regions lie: a region's base and size change only where the code sets them, and the stack has
-- at most ten pages.
use uw_cse451_operating_syst.Base.{
  ◌/◌, ℕ, zero, suc, ◌+◌, ◌*◌, ◌%◌, ◌^◌, ◌≡◌, inl, inr, sym, ap, ◌∙◌, Bool, Option, List, [], ◌∷◌,
  ◌==◌, leb, Bool-cases, Option-cases,
}
use uw_cse451_operating_syst.Base.Outcome.{done, >>=-eq-done}
use uw_cse451_operating_syst.Base.Machine.{add64, sub64, kern_base, to_virtual, page_round_up}
use uw_cse451_operating_syst.Kalloc.{Kmem, kfree}
use uw_cse451_operating_syst.Vspace.{
  infos_per_page, behind_first, Region, Direction, va2vpi_idx, first_page, va2vpage_info, get_info,
  vr_bottom, vr_top, zeroed_page,
}
use uw_cse451_operating_syst.Vspace.Table.{
  Vspace, PageTable, map_user_page, map_region, map_regions, vspaceinvalidate, clear_user,
  page_rounds,
}
use uw_cse451_operating_syst.Vspace.Map.{
  add_pages, undo_pages, vregionaddmap, store_info, unmapped_info,
}

-- A region without its infos.
pub record Place : Type 0 where
  pub dir : Direction
  pub va_base : ℕ
  pub size : ℕ

abbrev pub place : Region → Place
place r = record { dir = r.dir; va_base = r.va_base; size = r.size }

abbrev pub places : List Region → List Place
places [] = []
places (r ∷ rs) = place r ∷ places rs

pub va2vpage_info-place :
    (r r1 : Region) (va : ℕ) (o : Option ℕ) (k k1 : Kmem)
    → va2vpage_info r va k ≡ done (o, r1, k1)
    → place r1 ≡ place r
unfolding va2vpage_info
va2vpage_info-place r r1 va o k k1 h =
    let (q, run, rest) = >>=-eq-done (first_page r.pages k) _ h in
    elim (Bool-cases (leb (2 ^ 31) (va2vpi_idx r va))) [
      | inl z ↦ cc (rw z at rest)
      | inr z ↦
          let er : record r { pages = (behind_first q.0 (va2vpi_idx r va / infos_per_page) q.1).1 }
              ≡ r1 =
            cc (rw z at rest) in
          sym (ap {A = Region} place er)
    ]

map_region-place :
    (count : ℕ) (r r1 : Region) (start : ℕ) (t t1 : PageTable) (k k1 : Kmem)
    → map_region count r start t k ≡ done (r1, t1, k1)
    → place r1 ≡ place r
unfolding map_region
map_region-place zero r r1 start t t1 k k1 h = let e : r ≡ r1 = cc h in sym (ap place e)
map_region-place (suc count) r r1 start t t1 k k1 h =
    let (q, run, rest) = >>=-eq-done (va2vpage_info r start k) _ h in
    elim (Option-cases q.0) [
      | inl e ↦ cc (rw e at rest)
      | inr (idx, e) ↦ elim (Option-cases (get_info q.1.pages idx)) [
        | inl g ↦ cc (rw (e, g) at rest)
        | inr (i, g) ↦
            let (m, run1, rest1) =
              >>=-eq-done (map_user_page t (start / 4096) i q.2) _ (rw (e, g) at rest) in
            map_region-place count q.1 r1 (start + 4096) m.0 t1 m.1 k1 rest1
            ∙ va2vpage_info-place r q.1 start q.0 k q.2 run
      ]
    ]

map_regions-places :
    (rs rs1 : List Region) (t t1 : PageTable) (k k1 : Kmem)
    → map_regions rs t k ≡ done (rs1, t1, k1)
    → places rs1 ≡ places rs
unfolding map_regions
map_regions-places [] rs1 t t1 k k1 h = let e : [] ≡ rs1 = cc h in sym (ap places e)
map_regions-places (r ∷ rs) rs1 t t1 k k1 h = elim (Bool-cases (vr_bottom r % 4096 == 0)) [
  | inr f ↦ cc (rw f at h)
  | inl f ↦
      let (q, run, rest) =
        >>=-eq-done (map_region (page_rounds (vr_bottom r) (vr_top r)) r (vr_bottom r) t k) _
          (rw f at h) in
      let (m, run1, last) = >>=-eq-done (map_regions rs q.1 q.2) _ rest in
      let e : q.0 ∷ m.0 ≡ rs1 = cc last in
      let x = map_region-place _ r q.0 (vr_bottom r) t q.1 k q.2 run in
      let y = map_regions-places rs m.0 q.1 m.1 q.2 m.2 run1 in
      sym (ap places e) ∙ ap (λ z. z ∷ places m.0) x ∙ ap (λ z. place r ∷ z) y
]

pub vspaceinvalidate-places :
    (vs vs1 : Vspace) (k k1 : Kmem)
    → vspaceinvalidate vs k ≡ done (vs1, k1)
    → places vs1.regions ≡ places vs.regions
unfolding vspaceinvalidate
vspaceinvalidate-places vs vs1 k k1 h =
    let (q, run, last) = >>=-eq-done (map_regions vs.regions (clear_user vs.pgtbl) k) _ h in
    let ev : record { regions = q.0; pgtbl = q.1 } ≡ vs1 = cc last in
    sym (ap {A = Vspace} (λ x. places x.regions) ev)
    ∙ map_regions-places vs.regions q.0 (clear_user vs.pgtbl) q.1 k q.2 run

add_pages-place :
    (count : ℕ) (r r1 : Region) (a : ℕ) (present writable : Bool) (o : Option ℕ) (k k1 : Kmem)
    → add_pages count r a present writable k ≡ done (o, r1, k1)
    → place r1 ≡ place r
unfolding add_pages
add_pages-place zero r r1 a present writable o k k1 h = let e : r ≡ r1 = cc h in sym (ap place e)
add_pages-place (suc count) r r1 a present writable o k k1 h =
    let (q, run, rest) = >>=-eq-done (va2vpage_info r a k) _ h in
    let x = va2vpage_info-place r q.1 a q.0 k q.2 run in
    elim (Option-cases q.0) [
      | inl e ↦ let same : q.1 ≡ r1 = cc (rw e at rest) in sym (ap place same) ∙ x
      | inr (idx, e) ↦ elim (Bool-cases ((zeroed_page q.2).0 == 0)) [
        | inl z ↦ let same : q.1 ≡ r1 = cc (rw (e, z) at rest) in sym (ap place same) ∙ x
        | inr z ↦ elim (Option-cases (get_info q.1.pages idx)) [
          | inl g ↦ cc (rw (e, z, g) at rest)
          | inr (i, g) ↦
              add_pages-place count (store_info q.1 idx _) r1 (add64 a 4096) present writable o _ k1
                (rw (e, z, g) at rest)
              ∙ x
        ]
      ]
    ]

undo_pages-place :
    (rounds a start : ℕ) (r r1 : Region) (k k1 : Kmem)
    → undo_pages rounds a start r k ≡ done (r1, k1)
    → place r1 ≡ place r
unfolding undo_pages
undo_pages-place zero a start r r1 k k1 h = cc h
undo_pages-place (suc rounds) a start r r1 k k1 h = elim (Bool-cases (leb start a)) [
  | inr t ↦ let e : r ≡ r1 = cc (rw t at h) in sym (ap place e)
  | inl t ↦
      let (q, run, rest) = >>=-eq-done (va2vpage_info r a k) _ (rw t at h) in
      elim (Option-cases q.0) [
        | inl e ↦ cc (rw e at rest)
        | inr (idx, e) ↦ elim (Option-cases (get_info q.1.pages idx)) [
          | inl f ↦ cc (rw (e, f) at rest)
          | inr (i, f) ↦
              let (k2, run1, rest1) =
                >>=-eq-done (kfree (to_virtual (i.ppn * 4096)) q.2) _ (rw (e, f) at rest) in
              undo_pages-place rounds (sub64 a 4096) start (store_info q.1 idx (unmapped_info i)) r1
                k2 k1 rest1
              ∙ va2vpage_info-place r q.1 a q.0 k q.2 run
        ]
      ]
]

pub vregionaddmap-place :
    (r r1 : Region) (from sz ret : ℕ) (present writable : Bool) (k k1 : Kmem)
    → vregionaddmap r from sz present writable k ≡ done (ret, r1, k1)
    → place r1 ≡ place r
unfolding vregionaddmap
vregionaddmap-place r r1 from sz ret present writable k k1 h =
    elim (Bool-cases (leb kern_base (add64 sz from))) [
      | inl f ↦ let e : r ≡ r1 = cc (rw f at h) in sym (ap place e)
      | inr f ↦ elim (Bool-cases (sz == 0)) [
        | inl z ↦ let e : r ≡ r1 = cc (rw (f, z) at h) in sym (ap place e)
        | inr z ↦
            let (q, run, rest) =
              >>=-eq-done
                (add_pages (page_rounds (page_round_up from) (add64 from sz)) r (page_round_up from)
                  present writable k)
                _ (rw (f, z) at h) in
            let x = add_pages-place _ r q.1 (page_round_up from) present writable q.0 k q.2 run in
            elim (Option-cases q.0) [
              | inl e ↦ let same : q.1 ≡ r1 = cc (rw e at rest) in sym (ap place same) ∙ x
              | inr (a, e) ↦
                  let (p, run1, last) =
                    >>=-eq-done
                      (undo_pages (page_rounds (page_round_up from) (add64 from sz) + 2)
                        (sub64 a 4096) (page_round_up from) q.1 q.2)
                      _ (rw e at rest) in
                  let same : p.0 ≡ r1 = cc last in
                  sym (ap place same) ∙ undo_pages-place _ _ _ q.1 p.0 q.2 p.1 run1 ∙ x
            ]
      ]
    ]

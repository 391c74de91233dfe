-- ===== src/Vspace/Stack.antt =====
-- The growth of the stack, `growuserstack` of kernel/trap.c.
use uw_cse451_operating_syst.Base.{
  get_or, ℕ, zero, suc, ◌*◌, ◌<◌, ◌≡◌, ◌⊎◌, inl, inr, refl, sym, ap, ◌∙◌, true, List, [], ◌∷◌,
  arith, leb, set, Bool-cases,
}
use uw_cse451_operating_syst.Base.Outcome.{done, >>=-eq-done}
use uw_cse451_operating_syst.Base.Machine.{is_negative, minus_one, add64, sub64}
use uw_cse451_operating_syst.Kalloc.{Kmem}
use uw_cse451_operating_syst.Vspace.{up, Region}
use uw_cse451_operating_syst.Vspace.Table.{Vspace, vspaceinvalidate}
use uw_cse451_operating_syst.Vspace.Map.{
  empty_region, vregionaddmap, with_region, vr_ustack, region_or_empty,
}
use uw_cse451_operating_syst.Vspace.Growth.{growuserstack, grow_region}
use uw_cse451_operating_syst.Vspace.Layout.{
  Place, place, places, vspaceinvalidate-places, vregionaddmap-place,
}

pub places-set :
    (rs : List Region) (i : ℕ) (r : Region) → places (set rs i r) ≡ set (places rs) i (place r)
places-set [] i r = refl
places-set (s ∷ rs) zero r = refl
places-set (s ∷ rs) (suc i) r = ap (λ z. place s ∷ z) (places-set rs i r)

set-same :
    (rs : List Region) (i : ℕ) (r : Region) (d : Region)
    → place r ≡ place (get_or rs i d)
    → set (places rs) i (place r) ≡ places rs
set-same [] i r d h = refl
set-same (s ∷ rs) zero r d h = ap (λ z. z ∷ places rs) h
set-same (s ∷ rs) (suc i) r d h = ap (λ z. place s ∷ z) (set-same rs i r d h)

-- How far the stack reaches.
abbrev pub stack_size : Vspace → ℕ
stack_size vs = (region_or_empty vs vr_ustack).size

abbrev pub grown : Place → Place
grown p = record p { size = add64 p.size 4096 }

-- `growuserstack` either reports -1 and leaves all regions where they are, or makes the stack one page larger, which was
-- smaller than ten pages, and no other region.
pub growuserstack-places :
    (vs vs1 : Vspace) (ret : ℕ) (k k1 : Kmem)
    → growuserstack vs k ≡ done (ret, vs1, k1)
    → ((ret ≡ minus_one) × (places vs1.regions ≡ places vs.regions))
      ⊎ ((stack_size vs < 10 * 4096)
          × (places vs1.regions
              ≡ set (places vs.regions) vr_ustack (grown (place (region_or_empty vs vr_ustack)))))
unfolding growuserstack
growuserstack-places vs vs1 ret k k1 h =
    let r = region_or_empty vs vr_ustack in
    elim (Bool-cases (leb (10 * 4096) (stack_size vs))) [
      | inl full ↦
          let e : vs ≡ vs1 = cc (rw full at h) in
          inl (cc (rw full at h), sym (ap {A = Vspace} (λ x. places x.regions) e))
      | inr room ↦
          let (q, run, rest) =
            >>=-eq-done (vregionaddmap r (sub64 (sub64 r.va_base r.size) 4096) 4096 true true k) _
              (rw room at h) in
          let x : place q.1 ≡ place r =
            vregionaddmap-place r q.1 (sub64 (sub64 r.va_base r.size) 4096) 4096 q.0 true true k q.2
              run in
          elim (Bool-cases (is_negative q.0)) [
            | inl n ↦
                let e : with_region vs vr_ustack q.1 ≡ vs1 = cc (rw n at rest) in
                inl (
                  cc (rw n at rest),
                  sym (ap {A = Vspace} (λ y. places y.regions) e)
                      ∙ places-set vs.regions vr_ustack q.1
                      ∙ set-same vs.regions vr_ustack q.1 (empty_region up) x,
                )
            | inr n ↦
                let (m, run1, last) =
                  >>=-eq-done
                    (vspaceinvalidate (with_region vs vr_ustack (grow_region q.1 4096)) q.2) _
                    (rw n at rest) in
                let e : m.0 ≡ vs1 = cc last in
                inr (
                  ground arith,
                  sym (ap {A = Vspace} (λ y. places y.regions) e)
                      ∙ vspaceinvalidate-places _ m.0 q.2 m.1 run1
                      ∙ places-set vs.regions vr_ustack (grow_region q.1 4096)
                      ∙ ap (λ z. set (places vs.regions) vr_ustack (grown z)) x,
                )
          ]
    ]

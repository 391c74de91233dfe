-- ===== src/Vspace/Regions.antt =====
-- Which region and which info an address belongs to.
use uw_cse451_operating_syst.Base.{
  ◌/◌, ◌↔◌, ltb→lt, leb→le, ℕ, zero, suc, ◌+◌, ◌-◌, ◌%◌, ◌^◌, ◌≤◌, ◌<◌, ◌≡◌, ◌⊎◌, inl, inr, refl,
  ap, ◌∙◌, true, false, none, some, List, [], ◌∷◌, arith, ltb, leb, get_elem?, Bool-cases,
}
use uw_cse451_operating_syst.Base.Machine.{page_number, sub64}
use uw_cse451_operating_syst.Vspace.{
  region_offset, Region, Direction, up, down, va2vregion, vr_top, vr_bottom, va2vpi_idx,
}

-- The region has the address.
abbrev pub Has : Region → (va : ℕ) → Type 0
Has r va = (vr_bottom r ≤ va) × (va < vr_top r)

-- Region `i` of the list has the address, and no region before it has.
pub record Holds (rs : List Region) (va i : ℕ) : Type 0 where
  pub region : Region
  pub here : get_elem? rs i ≡ some region
  pub inside : Has region va
  pub first : (m : ℕ) (r : Region) → m < i → get_elem? rs m ≡ some r → ¬ Has r va

abbrev AllLack : List Region → (va : ℕ) → Type 0
AllLack rs va = (m : ℕ) (r : Region) → get_elem? rs m ≡ some r → ¬ Has r va

Has-cases :
    (r : Region) (va : ℕ)
    → ((leb (vr_bottom r) va ≡ true) × (ltb va (vr_top r) ≡ true) × Has r va)
      ⊎ (((leb (vr_bottom r) va ≡ false)
            ⊎ ((leb (vr_bottom r) va ≡ true) × (ltb va (vr_top r) ≡ false)))
          × (¬ Has r va))
Has-cases r va = elim (Bool-cases (leb (vr_bottom r) va)) [
  | inr f ↦ inr (inl f, (λ h. let l = h.0 in ground arith))
  | inl l ↦ elim (Bool-cases (ltb va (vr_top r))) [
    | inl t ↦ inl (l, t, (leb→le (vr_bottom r) va l, ltb→lt va (vr_top r) t))
    | inr f ↦ inr (inr (l, f), (λ h. let t = h.1 in ground arith))
  ]
]

lacks_all :
    (r : Region) (rs : List Region) (va : ℕ) → ¬ Has r va → AllLack rs va → AllLack (r ∷ rs) va
lacks_all r rs va not_here h zero r1 g x = let e : r ≡ r1 = cc g in not_here (rw e x)
lacks_all r rs va not_here h (suc m) r1 g x = h m r1 g x

Holds-suc :
    (r : Region) (rs : List Region) (va i : ℕ)
    → ¬ Has r va
    → Holds rs va i
    → Holds (r ∷ rs) va (suc i)
Holds-suc r rs va i not_here h = record {
  region = h.region;
  here = h.here;
  inside = h.inside;
  first = first;
}
  where
    first : (m : ℕ) (r1 : Region) → m < suc i → get_elem? (r ∷ rs) m ≡ some r1 → ¬ Has r1 va
    first zero r1 l g x = let e : r ≡ r1 = cc g in not_here (rw e x)
    first (suc m) r1 l g x = h.first m r1 (omega arith) g x

va2vregion-cases :
    (rs : List Region) (va j : ℕ)
    → ((i : ℕ) × (va2vregion rs va j ≡ some (j + i)) × Holds rs va i)
      ⊎ ((va2vregion rs va j ≡ none) × AllLack rs va)
unfolding va2vregion
va2vregion-cases [] va j = inr (refl, (λ m r g x. cc g))
va2vregion-cases (r ∷ rs) va j = elim (Has-cases r va) [
  | inl (l, t, h) ↦ inl (
    0,
    rw (l, t) (ap some (omega arith)),
    record { region = r; here = refl; inside = h; first = λ m r1 lt g x. absurd (omega arith) },
  )
  | inr (f, not_here) ↦
      let skip : va2vregion (r ∷ rs) va j ≡ va2vregion rs va (j + 1) = elim f [
        | inl a ↦ rw (a, va2vregion)
        | inr (a, b) ↦ rw (a, b, va2vregion)
      ] in
      elim (va2vregion-cases rs va (j + 1)) [
        | inl (i, e, h) ↦
            inl (suc i, skip ∙ e ∙ ap some (omega arith), Holds-suc r rs va i not_here h)
        | inr (e, none_has) ↦ inr (skip ∙ e, lacks_all r rs va not_here none_has)
      ]
]

-- `va2vregion` gives the first region that has the address, and nothing only when none has it.
pub va2vregion_lem :
    (rs : List Region) (va : ℕ)
    → ((i : ℕ) × (va2vregion rs va 0 ≡ some i) × Holds rs va i)
      ⊎ ((va2vregion rs va 0 ≡ none)
          × ((m : ℕ) (r : Region) → get_elem? rs m ≡ some r → ¬ Has r va))
va2vregion_lem rs va = elim (va2vregion-cases rs va 0) [
  | inl (i, e, h) ↦ inl (i, e ∙ ap some (omega arith), h)
  | inr e ↦ inr e
]

Direction-cases : (d : Direction) → (d ≡ up) ⊎ (d ≡ down)
Direction-cases up = inl refl
Direction-cases down = inr refl

-- The address is on the side of the base to which the region grows.
abbrev pub Side : Region → (va : ℕ) → Type 0
Side r va = elim r.dir [ up ↦ r.va_base ≤ va | down ↦ va < r.va_base ]

sub64-le : (a b : ℕ) → b ≤ a → a < 2 ^ 64 → sub64 a b ≡ a - b
sub64-le a b h l = ground arith

-- The distances in pages.
up_pages :
    (base va : ℕ)
    → base % 4096 ≡ 0
    → base ≤ va
    → va < 2 ^ 43
    → region_offset up base va / 4096 % 2 ^ 32 ≡ va / 4096 - base / 4096
up_pages base va a l v =
    let d : sub64 va base ≡ va - base = sub64-le va base l (omega arith) in rw d (omega arith)

down_pages :
    (base va : ℕ)
    → base % 4096 ≡ 0
    → va < base
    → base < 2 ^ 43
    → region_offset down base va / 4096 % 2 ^ 32 ≡ base / 4096 - 1 - va / 4096
down_pages base va a l v =
    let d : sub64 base 1 ≡ base - 1 = sub64-le base 1 (omega arith) (omega arith) in
    let e : sub64 (base - 1) va ≡ base - 1 - va =
      sub64-le (base - 1) va (omega arith) (omega arith) in
    rw (d, e) (omega arith)

-- Two addresses of a region that starts at a page have the same info exactly when they are on the same page, upwards and downwards.
va2vpi_idx-page_number :
    (r : Region) (va wa : ℕ)
    → r.va_base % 4096 ≡ 0
    → r.va_base < 2 ^ 43
    → va < 2 ^ 43
    → wa < 2 ^ 43
    → Side r va
    → Side r wa
    → (va2vpi_idx r va ≡ va2vpi_idx r wa) ↔ (page_number va ≡ page_number wa)
unfolding va2vpi_idx
va2vpi_idx-page_number r va wa a b v w x y = elim (Direction-cases r.dir) [
  | inl d ↦
      let lo : r.va_base ≤ va = rw d at x in
      let lo1 : r.va_base ≤ wa = rw d at y in
      let e = up_pages r.va_base va a lo v in
      let f = up_pages r.va_base wa a lo1 w in rw (d, e, f) ((λ h. omega arith), (λ h. omega arith))
  | inr d ↦
      let hi : va < r.va_base = rw d at x in
      let hi1 : wa < r.va_base = rw d at y in
      let e = down_pages r.va_base va a hi b in
      let f = down_pages r.va_base wa a hi1 b in
      rw (d, e, f) ((λ h. omega arith), (λ h. omega arith))
]

-- The index is below 2^31
pub va2vpi_idx-bound :
    (r : Region) (va : ℕ)
    → r.va_base < 2 ^ 43
    → va < 2 ^ 43
    → Side r va
    → r.va_base % 4096 ≡ 0
    → va2vpi_idx r va < 2 ^ 31
unfolding va2vpi_idx
va2vpi_idx-bound r va b v x a = elim (Direction-cases r.dir) [
  | inl d ↦
      let lo : r.va_base ≤ va = rw d at x in
      let e = up_pages r.va_base va a lo v in rw (d, e) (omega arith)
  | inr d ↦
      let hi : va < r.va_base = rw d at x in
      let e = down_pages r.va_base va a hi b in rw (d, e) (omega arith)
]

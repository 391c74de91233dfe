-- ===== src/Paging/Mapped.antt =====
-- `mappages` against a page table that is a function of the page number.
use uw_cse451_operating_syst.Base.{
  ℕ, zero, suc, ◌^◌, ◌<◌, ◌≡◌, ◌≢◌, inl, inr, refl, sym, ap, ◌∙◌, Bool, true, false, some, List, [],
  ◌∷◌, arith, ◌==◌, if◌then◌else◌, get_elem?, Bool-cases, ℕ-cases,
}
use uw_cse451_operating_syst.Base.Outcome.{done, >>=-eq-done}
use uw_cse451_operating_syst.Kalloc.{CoreMapEntry, Kmem, modify, mark_user_mem, pa2page}
use uw_cse451_operating_syst.Paging.{Tables, is_present, entry_page, index, put_word, mark_unless}
use uw_cse451_operating_syst.Paging.Shape.{
  Shape, Fits, Covers, child-Covers, view, lookup, lookup-Covers, view-lookup,
}
use uw_cse451_operating_syst.Paging.Walked.{Walked}

-- A write to entry `i` of `g`, the one that page `v` has in a last table.
module _ {s : Shape} {t : Tables} (g i e v : ℕ) (fits : Fits s t) (last : Covers s g 0 v)
    (at : i ≡ index 0 v) where
  pub other_level : (m p : ℕ) → s.level p ≡ suc (suc m) → (g == p) ≡ false
  other_level m p h = elim (ℕ-cases g p) [
    | inl same ↦ absurd (omega (arith, last.0, h, ap s.level same))
    | inr n ↦ n
  ]

  lookup-put :
      (m p u : ℕ) → s.level p ≡ suc m → lookup (put_word t.word g i e) m p u ≡ lookup t.word m p u
  unfolding lookup
  lookup-put zero p u h = refl
  lookup-put (suc m) p u h =
      let ne = other_level m p h in
      elim (Bool-cases (is_present (t.word p (index (suc m) u)))) [
        | inl present ↦
            rw (ne, present)
              (lookup-put m (entry_page (t.word p (index (suc m) u))) u
                (fits.child p (index (suc m) u) m h (omega arith) present).0)
        | inr gone ↦ rw (ne, gone)
      ]

  -- Another page has another entry.
  view-put :
      (m p u : ℕ) → Covers s p m u → v ≢ u → view (put_word t.word g i e) m p u ≡ view t.word m p u
  unfolding view
  view-put zero p u c ne = elim (ℕ-cases g p) [
    | inl same ↦ elim (ℕ-cases i (index 0 u)) [
      | inl j ↦ absurd (ne (omega (arith, last.1, c.1, ap s.prefix same)))
      | inr j ↦ rw j (ground arith)
    ]
    | inr n ↦ rw n
  ]
  view-put (suc m) p u c ne =
      let other = other_level m p c.0 in
      elim (Bool-cases (is_present (t.word p (index (suc m) u)))) [
        | inl present ↦
            rw (other, present)
              (view-put m (entry_page (t.word p (index (suc m) u))) u
                (child-Covers p m u fits c present) ne)
        | inr gone ↦ rw (other, gone)
      ]

abbrev user_entry : (va : ℕ) → CoreMapEntry → CoreMapEntry
user_entry va e = record e { user = 1; va = va }

available-user_entry :
    (es : List CoreMapEntry) (d f va : ℕ) (e : CoreMapEntry)
    → get_elem? (modify es d (user_entry va)) f ≡ some e
    → (e0 : CoreMapEntry) × (get_elem? es f ≡ some e0) × (e0.available ≡ e.available)
available-user_entry [] d f va e h = cc h
available-user_entry (x ∷ es) zero zero va e h = (x, refl, ground arith)
available-user_entry (x ∷ es) zero (suc f) va e h = (e, h, refl)
available-user_entry (x ∷ es) (suc d) zero va e h = (e, h, refl)
available-user_entry (x ∷ es) (suc d) (suc f) va e h = available-user_entry es d f va e h

-- `mark_user_mem` makes no page available.
mark-available :
    (kern : Bool) (pa va : ℕ) (k k1 : Kmem)
    → mark_unless kern pa va k ≡ done k1
    → (k1.npages ≡ k.npages)
      × ((f : ℕ) (e : CoreMapEntry)
          → get_elem? k1.core_map f ≡ some e
          → (e0 : CoreMapEntry) × (get_elem? k.core_map f ≡ some e0) × (e0.available ≡ e.available))
unfolding mark_user_mem
mark-available true pa va k k1 h =
    let same : k ≡ k1 = cc h in
    (sym (ap {A = Kmem} (λ x. x.npages) same), λ f e g. (e, rw same g, refl))
mark-available false pa va k k1 h =
    let (d, run, rest) = >>=-eq-done (pa2page k pa) _ h in
    let same : record k { core_map = modify k.core_map d (user_entry va) } ≡ k1 = cc rest in
    (
      sym (ap {A = Kmem} (λ x. x.npages) same),
      λ f e g.
          available-user_entry k.core_map d f va e
            (ap {A = Kmem} (λ x. get_elem? x.core_map f) same ∙ g),
    )

-- The tables below `root` are a tree, of which `root` is the top.
pub record IsTable (root : ℕ) (t : Tables) : Type 0 where
  pub shape : Shape
  pub fits : Fits shape t
  pub top : shape.level root ≡ 4
  pub start : shape.prefix root ≡ 0

-- The entry of a page, or 0 where tables are missing.
abbrev pub translate : Tables → (root vpn : ℕ) → ℕ
translate t root vpn = view t.word 3 root vpn

pub root-Covers :
    (root : ℕ) (s : Shape) (v : ℕ)
    → s.level root ≡ 4
    → s.prefix root ≡ 0
    → v < 2 ^ 36
    → Covers s root 3 v
root-Covers root s v l p h = (l, omega (arith, p))

-- The state after the entry of page `v` is written and its page is marked.
module _ (root : ℕ) (t t1 : Tables) (v g i : ℕ) (table : IsTable root t) (below : v < 2 ^ 36)
    (w : Walked table.shape t t1 3 root v g i) where
  root_place : (w.shape.level root ≡ 4) × (w.shape.prefix root ≡ 0)
  root_place =
      let (l, p) = w.grew.same root (omega (arith, table.top)) in (l ∙ table.top, p ∙ table.start)

  last_place : Covers w.shape g 0 v × (i ≡ index 0 v)
  last_place =
      lookup-Covers 3 root v g i w.fits (root-Covers root w.shape v root_place.0 root_place.1 below)
        w.found

  old_translate : (u : ℕ) → translate t1 root u ≡ translate t root u
  old_translate u = w.grew.views 3 root u table.top

  pub written_at : translate t root v ≡ t1.word g i
  written_at = sym (old_translate v) ∙ view-lookup t1.word 3 root v g i w.found

  put_self : (e : ℕ) → view (put_word t1.word g i e) 3 root v ≡ e
  put_self e =
      let found =
        lookup-put g i e v w.fits last_place.0 last_place.1 3 root v root_place.0 ∙ w.found in
      view-lookup (put_word t1.word g i e) 3 root v g i found ∙ ground arith

  pub translate-put :
      (e u : ℕ)
      → u < 2 ^ 36
      → view (put_word t1.word g i e) 3 root u ≡ (if v == u then e else translate t root u)
  translate-put e u h = elim (ℕ-cases v u) [
    | inl same ↦ ground (arith, put_self e)
    | inr n ↦ rw n (
        view-put g i e v w.fits last_place.0 last_place.1 3 root u
          (root-Covers root w.shape u root_place.0 root_place.1 h) (ground arith)
        ∙ old_translate u)
  ]

  pub put-IsTable :
      (e : ℕ) (kern : Bool) (pa va : ℕ) (k : Kmem)
      → mark_unless kern pa va t1.mem ≡ done k
      → IsTable root (record { mem = k; word = put_word t1.word g i e })
  put-IsTable e kern pa va k run = record {
    shape = w.shape;
    top = root_place.0;
    start = root_place.1;
    fits = record {
      child = λ f j l h small present.
          let ne = other_level g i e v w.fits last_place.0 last_place.1 l f h in
          rw ne (w.fits.child f j l h small (rw ne at present));
      owned = λ f x nz here.
          let (x0, g0, same) = (mark-available kern pa va t1.mem k run).1 f x here in
          λ a. w.fits.owned f x0 nz g0 (same ∙ a);
      small = omega (arith, (mark-available kern pa va t1.mem k run).0, w.fits.small);
    };
  }

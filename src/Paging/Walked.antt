-- ===== src/Paging/Walked.antt =====
-- `walkpml4` with allocation: the tables that it adds map nothing, and the entry that it comes to is the
-- one that the hardware will read.
use uw_cse451_operating_syst.Base.{
  ℕ, zero, suc, ◌≡◌, ◌≢◌, inl, inr, refl, ◌∙◌, true, false, some, arith, Bool-cases, Option-cases,
}
use mathlib.Core.Path.{subst}
use uw_cse451_operating_syst.Paging.{
  Tables, is_present, entry_page, index, new_table, next_table, walk_levels,
}
use uw_cse451_operating_syst.Paging.Shape.{Shape, Fits, Covers, child-Covers, view, lookup}
use uw_cse451_operating_syst.Paging.Fresh.{
  IsFresh, new_table-IsFresh, grown_shape, view-Fresh, kept_word, Fits-Fresh, Covers-Fresh,
  grown-other, link-IsPresent,
}

-- Tables may have been added; those that were there have kept their places, their links, and the pages that they map.
pub record Grew (s s1 : Shape) (t t1 : Tables) : Type 0 where
  pub same : (p : ℕ) → s.level p ≢ 0 → (s1.level p ≡ s.level p) × (s1.prefix p ≡ s.prefix p)
  pub kept : (p j : ℕ) → s.level p ≢ 0 → is_present (t.word p j) ≡ true → t1.word p j ≡ t.word p j
  pub views : (m p v : ℕ) → s.level p ≡ suc m → view t1.word m p v ≡ view t.word m p v

pub Grew-refl : (s : Shape) (t : Tables) → Grew s s t t
Grew-refl s t = record {
  same = λ p nz. (refl, refl);
  kept = λ p j nz h. refl;
  views = λ m p v h. refl;
}

pub Grew-trans :
    {s s1 s2 : Shape} {t t1 t2 : Tables} → Grew s s1 t t1 → Grew s1 s2 t1 t2 → Grew s s2 t t2
Grew-trans a b = record {
  same = λ p nz. let (l, x) = a.same p nz in let (m, y) = b.same p (rw l nz) in (m ∙ l, y ∙ x);
  kept = λ p j nz h. let e = a.kept p j nz h in b.kept p j (rw (a.same p nz).0 nz) (rw e h) ∙ e;
  views = λ m p v h. b.views m p v ((a.same p (ground arith)).0 ∙ h) ∙ a.views m p v h;
}

Grew-Fresh :
    {s : Shape} {t t1 : Tables} {f i q l : ℕ}
    → Fits s t
    → IsFresh t t1 f i q
    → s.level f ≡ suc (suc l)
    → is_present (t.word f i) ≡ false
    → Grew s (grown_shape s f i q) t t1
Grew-Fresh fits fresh at absent = record {
  same = grown-other fits fresh at absent;
  kept = kept_word fits fresh at absent;
  views = view-Fresh fits fresh at absent;
}

-- What a walk to entry `i` of `g` comes to.
pub record Walked (s : Shape) (t t1 : Tables) (l f v g i : ℕ) : Type 0 where
  pub shape : Shape
  pub fits : Fits shape t1
  pub grew : Grew s shape t t1
  pub found : lookup t1.word l f v ≡ some (g, i)

-- One more level above a walk.
above :
    {s : Shape} {t t1 : Tables} {l f v g i : ℕ} (c : ℕ)
    → Walked s t t1 l c v g i
    → s.level f ≢ 0
    → is_present (t.word f (index (suc l) v)) ≡ true
    → entry_page (t.word f (index (suc l) v)) ≡ c
    → lookup t1.word (suc l) f v ≡ some (g, i)
unfolding lookup
above {l = l} {f = f} {v = v} c w nz present e =
    rw (w.grew.kept f (index (suc l) v) nz present, present, e) w.found

next_table-present :
    (f i : ℕ) (t : Tables)
    → is_present (t.word f i) ≡ true
    → next_table true f i t ≡ (some (entry_page (t.word f i)), t)
unfolding next_table
next_table-present f i t h = rw h

next_table-absent :
    (f i : ℕ) (t : Tables)
    → is_present (t.word f i) ≡ false
    → next_table true f i t ≡ new_table f i t
unfolding next_table
next_table-absent f i t h = rw h

pub walk_levels-Walked :
    (l : ℕ) (s : Shape) (t t1 : Tables) (f v g i : ℕ)
    → Fits s t
    → Covers s f l v
    → walk_levels true l f v t ≡ (some (g, i), t1)
    → Walked s t t1 l f v g i
unfolding walk_levels lookup
walk_levels-Walked zero s t t1 f v g i fits c h =
    subst (λ x. Walked s t x 0 f v g i) (cc h)
      (record { shape = s; fits = fits; grew = Grew-refl s t; found = cc h })
walk_levels-Walked (suc l) s t t1 f v g i fits c h =
    elim (Bool-cases (is_present (t.word f (index (suc l) v)))) [
      | inl present ↦
          let w =
            walk_levels-Walked l s t t1 (entry_page (t.word f (index (suc l) v))) v g i fits
              (child-Covers f l v fits c present)
              (rw (next_table-present f (index (suc l) v) t present) at
                (rw (walk_levels, next_table-present f (index (suc l) v) t present) at h)) in
          record {
            shape = w.shape;
            fits = w.fits;
            grew = w.grew;
            found = above (entry_page (t.word f (index (suc l) v))) w (ground arith) present refl;
          }
      | inr absent ↦ elim (Option-cases (new_table f (index (suc l) v) t).0) [
        | inl e ↦ cc (
            rw (next_table-absent f (index (suc l) v) t absent) at
              (rw (walk_levels, next_table-absent f (index (suc l) v) t absent, e) at h))
        | inr (q, e) ↦
            let t2 : Tables = (new_table f (index (suc l) v) t).1 in
            let fresh = new_table-IsFresh t t2 f (index (suc l) v) q fits.small (rw (← e) refl) in
            let w =
              walk_levels-Walked l (grown_shape s f (index (suc l) v) q) t2 t1 q v g i
                (Fits-Fresh fits fresh c.0 absent) (Covers-Fresh fits fresh c.0 absent v c refl)
                (rw (next_table-absent f (index (suc l) v) t absent) at
                  (rw (walk_levels, next_table-absent f (index (suc l) v) t absent, e) at h)) in
            let link = link-IsPresent fits fresh c.0 absent in
            record {
              shape = w.shape;
              fits = w.fits;
              grew = Grew-trans (Grew-Fresh fits fresh c.0 absent) w.grew;
              found =
                  above q w
                    (rw (grown-other fits fresh c.0 absent f (ground arith)).0 (ground arith))
                    link.0 link.1;
            }
      ]
    ]

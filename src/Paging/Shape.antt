-- ===== src/Paging/Shape.antt =====
-- The tables of a walk as a tree: each has a level and the digits that lead to it.
use uw_cse451_operating_syst.Base.{
  ℕ, zero, suc, ◌+◌, ◌*◌, ◌^◌, ◌<◌, ◌≡◌, ◌≢◌, inl, inr, true, Option, none, some, arith,
  if◌then◌else◌, get_elem?, Bool-cases,
}
use uw_cse451_operating_syst.Kalloc.{CoreMapEntry}
use uw_cse451_operating_syst.Paging.{Tables, Words, is_present, entry_page, index, shift}

-- The entry that a walk comes to, where all tables on the way are present.
unfoldable pub lookup : Words → (level f vpn : ℕ) → Option (ℕ × ℕ)
lookup w zero f v = some (f, index 0 v)
lookup w (suc level) f v =
    let e = w f (index (suc level) v) in
    if is_present e then lookup w level (entry_page e) v else none

-- What the tables say of a page: its entry, or 0 where a table is not present.
unfoldable pub view : Words → (level f vpn : ℕ) → ℕ
view w zero f v = w f (index 0 v)
view w (suc level) f v =
    let e = w f (index (suc level) v) in if is_present e then view w level (entry_page e) v else 0

-- `level q` is 0 for a page that is no table here, and one more than the level of a table; `prefix q` are the digits
-- of the pages that it serves, without those of the level and below.
pub record Shape : Type 0 where
  pub level : ℕ → ℕ
  pub prefix : ℕ → ℕ

-- An entry that is present links to a table one level down, with one more digit. No table is available to
-- `kalloc`, and memory ends below 2 GB.
pub record Fits (s : Shape) (t : Tables) : Type 0 where
  pub child :
      (f i l : ℕ)
      → s.level f ≡ suc (suc l)
      → i < 512
      → is_present (t.word f i) ≡ true
      → (s.level (entry_page (t.word f i)) ≡ suc l)
        × (s.prefix (entry_page (t.word f i)) ≡ s.prefix f * 512 + i)
  pub owned :
      (f : ℕ) (e : CoreMapEntry)
      → s.level f ≢ 0
      → get_elem? t.mem.core_map f ≡ some e
      → e.available ≢ 1
  pub small : t.mem.npages < 2 ^ 19

-- Table `f` has the level and serves page `v`.
abbrev pub Covers : Shape → (f level v : ℕ) → Type 0
Covers s f level v = (s.level f ≡ suc level) × (s.prefix f ≡ shift (suc level) v)

pub child-Covers :
    {s : Shape} {t : Tables} (f l v : ℕ)
    → Fits s t
    → Covers s f (suc l) v
    → is_present (t.word f (index (suc l) v)) ≡ true
    → Covers s (entry_page (t.word f (index (suc l) v))) l v
child-Covers f l v fits c p =
    let (a, b) = fits.child f (index (suc l) v) l c.0 (omega arith) p in (a, omega (arith, b, c.1))

pub lookup-Covers :
    {s : Shape} {t : Tables} (l f v g i : ℕ)
    → Fits s t
    → Covers s f l v
    → lookup t.word l f v ≡ some (g, i)
    → Covers s g 0 v × (i ≡ index 0 v)
unfolding lookup
lookup-Covers {s} zero f v g i fits c h =
    let e : f ≡ g = cc h in ((rw (← e) c.0, rw (← e) c.1), cc h)
lookup-Covers {s} {t} (suc l) f v g i fits c h =
    elim (Bool-cases (is_present (t.word f (index (suc l) v)))) [
      | inl p ↦
          lookup-Covers l (entry_page (t.word f (index (suc l) v))) v g i fits
            (child-Covers f l v fits c p) (rw (p, lookup) at h)
      | inr n ↦ cc (rw (n, lookup) at h)
    ]

pub view-lookup : (w : Words) (l f v g i : ℕ) → lookup w l f v ≡ some (g, i) → view w l f v ≡ w g i
unfolding lookup view
view-lookup w zero f v g i h = cc h
view-lookup w (suc l) f v g i h = elim (Bool-cases (is_present (w f (index (suc l) v)))) [
  | inl p ↦
      rw (p, view)
        (view-lookup w l (entry_page (w f (index (suc l) v))) v g i (rw (p, lookup) at h))
  | inr n ↦ cc (rw (n, lookup) at h)
]

-- A table without entries says nothing.
pub view-empty : (w : Words) (l q v : ℕ) → ((i : ℕ) → w q i ≡ 0) → view w l q v ≡ 0
unfolding view
view-empty w zero q v h = h (index 0 v)
view-empty w (suc l) q v h = rw (h (index (suc l) v))

-- ===== src/Paging/Fresh.antt =====
-- A table that `walkpml4` adds: the page comes from `kalloc`, so it was no table before.
use uw_cse451_operating_syst.Base.{
  ℕ, zero, suc, ◌+◌, ◌-◌, ◌*◌, ◌^◌, ◌<◌, ◌≡◌, ◌≢◌, ◌⊎◌, inl, inr, refl, sym, ap, ◌∙◌, true, false,
  some, arith, ◌==◌, if◌then◌else◌, get_elem?, Bool-cases, ℕ-cases,
}
use mathlib.Core.Path.{subst}
use uw_cse451_operating_syst.Base.Machine.{to_virtual, to_physical, page_number}
use uw_cse451_operating_syst.Kalloc.{
  CoreMapEntry, Kmem, claim_page, modify, take_entry, page2pa, update_frame,
}
use uw_cse451_operating_syst.Kalloc.Entries.{get_elem?-modify_self, get_elem?-modify_ne}
use uw_cse451_operating_syst.Kalloc.Allocation.{kalloc-cases}
use uw_cse451_operating_syst.Vspace.{zeroed_page}
use uw_cse451_operating_syst.Paging.{
  Tables, is_present, entry_page, index, put_word, clear_words, new_table,
}
use uw_cse451_operating_syst.Paging.Shape.{Shape, Fits, Covers, view, view-empty}

-- Page `q` was available and is an empty table now, linked to by entry `i` of `f`.
pub record IsFresh (t t1 : Tables) (f i q : ℕ) : Type 0 where
  pub entry : CoreMapEntry
  pub here : get_elem? t.mem.core_map q ≡ some entry
  pub free : entry.available ≡ 1
  pub words : t1.word ≡ put_word (clear_words t.word q) f i (q * 4096 + 7)
  pub map : t1.mem.core_map ≡ modify t.mem.core_map q take_entry
  pub pages : t1.mem.npages ≡ t.mem.npages
  pub in_range : q < 2 ^ 19

pub new_table-IsFresh :
    (t t1 : Tables) (f i q : ℕ)
    → t.mem.npages < 2 ^ 19
    → new_table f i t ≡ (some q, t1)
    → IsFresh t t1 f i q
unfolding new_table zeroed_page claim_page
new_table-IsFresh t t1 f i q small h = elim (kalloc-cases t.mem) [
  | inl (e, same) ↦ cc (rw (same, new_table) at h)
  | inr (d, a) ↦
      let below : d < 2 ^ 19 = omega (arith, a.found.below) in
      let nz : (to_virtual (page2pa d) == 0) ≡ false = ground arith in
      let number : page_number (to_physical (to_virtual (page2pa d))) ≡ d = omega arith in
      let h1 = rw (a.address, a.state, nz, number) at h in
      let h2 = rw nz at h1 in
      let k1 : Kmem = record (claim_page d t.mem) { frame = update_frame t.mem.frame d (λ x. 0) } in
      let words : put_word (clear_words t.word d) f i (d * 4096 + 7) ≡ t1.word = cc h2 in
      let mem : k1 ≡ t1.mem = cc h2 in
      let same : d ≡ q = cc h2 in
      subst (λ x. IsFresh t t1 f i x) same
        (record {
          entry = a.found.entry;
          here = a.found.here;
          free = a.found.free;
          words = sym words;
          map = sym (ap {A = Kmem} (λ k. k.core_map) mem);
          pages = sym (ap {A = Kmem} (λ k. k.npages) mem);
          in_range = below;
        })
]

-- The shape with the new table in it, below entry `i` of `f`.
abbrev pub grown_shape : Shape → (f i q : ℕ) → Shape
grown_shape s f i q = record {
  level = λ p. if q == p then s.level f - 1 else s.level p;
  prefix = λ p. if q == p then s.prefix f * 512 + i else s.prefix p;
}

module _ {s : Shape} {t t1 : Tables} {f i q l : ℕ} (fits : Fits s t) (fresh : IsFresh t t1 f i q)
    (at : s.level f ≡ suc (suc l)) (absent : is_present (t.word f i) ≡ false) where
  not_table : s.level q ≡ 0
  not_table = elim (ℕ-cases (s.level q) 0) [
    | inl z ↦ z
    | inr nz ↦ absurd (fits.owned q fresh.entry (ground arith) fresh.here fresh.free)
  ]

  pub other_table : (p : ℕ) → s.level p ≢ 0 → (q == p) ≡ false
  other_table p nz = elim (ℕ-cases q p) [ inl e ↦ absurd (nz (rw (← e) not_table)) | inr n ↦ n ]

  -- An entry of a table that was there is what it was, or the link to the new one.
  pub old_word :
      (p j : ℕ)
      → s.level p ≢ 0
      → t1.word p j ≡ (if f == p then (if i == j then q * 4096 + 7 else t.word p j) else t.word p j)
  old_word p j nz = rw (fresh.words, other_table p nz)

  not_self : (f == q) ≡ false
  not_self = elim (ℕ-cases f q) [
    | inl e ↦ absurd (omega (arith, not_table, at, ap s.level e))
    | inr n ↦ n
  ]

  new_word : (j : ℕ) → t1.word q j ≡ 0
  new_word j = rw (fresh.words, not_self) (ground arith)

  link_page : entry_page (q * 4096 + 7) ≡ q
  link_page = omega (arith, fresh.in_range)

  -- An entry that was present is the same.
  pub kept_word :
      (p j : ℕ) → s.level p ≢ 0 → is_present (t.word p j) ≡ true → t1.word p j ≡ t.word p j
  kept_word p j nz present = elim (ℕ-cases f p) [
    | inl e ↦ elim (ℕ-cases i j) [
      | inl d ↦ cc (rw (e, d) at absent, present)
      | inr d ↦ rw (old_word p j nz, d) (ground arith)
    ]
    | inr n ↦ rw (old_word p j nz, n)
  ]

  -- One that was not is either the link now, or the same.
  absent_word :
      (p j : ℕ)
      → s.level p ≢ 0
      → ((f ≡ p) × (i ≡ j) × (t1.word p j ≡ q * 4096 + 7)) ⊎ (t1.word p j ≡ t.word p j)
  absent_word p j nz = ground (arith, old_word p j nz)

  -- The pages that the tables map are the same.
  pub view-Fresh : (m p v : ℕ) → s.level p ≡ suc m → view t1.word m p v ≡ view t.word m p v
  unfolding view
  view-Fresh zero p v h = elim (absent_word p (index 0 v) (ground arith)) [
    | inl (e, d, w) ↦ absurd (omega (arith, at, h, ap s.level e))
    | inr w ↦ w
  ]
  view-Fresh (suc m) p v h = elim (Bool-cases (is_present (t.word p (index (suc m) v)))) [
    | inl present ↦
        let child = fits.child p (index (suc m) v) m h (omega arith) present in
        rw (kept_word p (index (suc m) v) (ground arith) present, present)
          (view-Fresh m (entry_page (t.word p (index (suc m) v))) v child.0)
    | inr gone ↦ elim (absent_word p (index (suc m) v) (ground arith)) [
      | inl (e, d, w) ↦
          let set_bit : is_present (q * 4096 + 7) ≡ true = ground arith in
          rw (w, gone, set_bit, link_page) (view-empty t1.word m q v new_word)
      | inr w ↦ rw (w, gone)
    ]
  ]

  child-Fresh :
      (p j m : ℕ)
      → (grown_shape s f i q).level p ≡ suc (suc m)
      → j < 512
      → is_present (t1.word p j) ≡ true
      → ((grown_shape s f i q).level (entry_page (t1.word p j)) ≡ suc m)
        × ((grown_shape s f i q).prefix (entry_page (t1.word p j))
            ≡ (grown_shape s f i q).prefix p * 512 + j)
  child-Fresh p j m h small present = elim (ℕ-cases q p) [
    | inl e ↦ absurd (cc (rw (← e, new_word j) at present))
    | inr n ↦
        let lp : s.level p ≡ suc (suc m) = rw n at h in
        elim (absent_word p j (ground arith)) [
          | inl (e, d, w) ↦
              let page : entry_page (t1.word p j) ≡ q = ap entry_page w ∙ link_page in
              rw page (ground (arith, ap s.level e, ap s.prefix e))
          | inr w ↦
              let (a, b) = fits.child p j m lp small (rw w at present) in
              rw (w, other_table (entry_page (t.word p j)) (ground arith), n) (a, b)
        ]
  ]

  owned-Fresh :
      (p : ℕ) (e : CoreMapEntry)
      → (grown_shape s f i q).level p ≢ 0
      → get_elem? t1.mem.core_map p ≡ some e
      → e.available ≢ 1
  owned-Fresh p e nz g = elim (ℕ-cases q p) [
    | inl same ↦ ground (
      arith,
      fresh.map,
      get_elem?-modify_self t.mem.core_map q take_entry fresh.entry,
      fresh.here,
    )
    | inr n ↦
        let h : s.level p ≢ 0 = rw n at nz in
        fits.owned p e h (
          sym (get_elem?-modify_ne t.mem.core_map q p take_entry (ground arith))
          ∙ sym (ap (λ m. get_elem? m p) fresh.map)
          ∙ g)
  ]

  pub Fits-Fresh : Fits (grown_shape s f i q) t1
  Fits-Fresh = record {
    child = child-Fresh;
    owned = owned-Fresh;
    small = omega (arith, fresh.pages, fits.small);
  }

  pub Covers-Fresh :
      (v : ℕ) → Covers s f (suc l) v → i ≡ index (suc l) v → Covers (grown_shape s f i q) q l v
  Covers-Fresh v c e = (ground (arith, c.0), ground (arith, c.1))

  pub grown-other :
      (p : ℕ)
      → s.level p ≢ 0
      → ((grown_shape s f i q).level p ≡ s.level p) × ((grown_shape s f i q).prefix p ≡ s.prefix p)
  grown-other p nz = rw (other_table p nz) (refl, refl)

  pub link-IsPresent : (is_present (t1.word f i) ≡ true) × (entry_page (t1.word f i) ≡ q)
  link-IsPresent =
      let e : t1.word f i ≡ q * 4096 + 7 = rw fresh.words (ground arith) in
      rw e (ground arith, link_page)

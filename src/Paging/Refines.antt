-- ===== src/Paging/Refines.antt =====
-- `mappages` refines writes to a page table that is a function of the page number, the one of Vspace.Table.
use uw_cse451_operating_syst.Base.{
  ◌/◌, ℕ, zero, suc, ◌+◌, ◌-◌, ◌*◌, ◌%◌, ◌^◌, ◌≤◌, ◌<◌, ◌≡◌, ◌⊎◌, inl, inr, refl, sym, ap, ◌∙◌,
  Bool, true, false, ◌&&◌, some, arith, ◌==◌, ltb, leb, if◌then◌else◌, Bool-cases, Option-cases,
  ℕ-cases,
}
use mathlib.Core.Path.{subst}
use uw_cse451_operating_syst.Base.Outcome.{done, >>=-eq-done}
use uw_cse451_operating_syst.Paging.{
  Tables, is_present, put_word, walk_levels, walkpml4, mark_unless, make_entry, map_page, mappages,
}
use uw_cse451_operating_syst.Paging.Walked.{Walked, walk_levels-Walked}
use uw_cse451_operating_syst.Paging.Mapped.{
  IsTable, translate, root-Covers, translate-put, put-IsTable, written_at,
}

walkpml4-Walked :
    (root vpn g i : ℕ) (t t1 : Tables) (table : IsTable root t)
    → walkpml4 root (vpn * 4096 % 2 ^ 64) true t ≡ (some (g, i), t1)
    → Walked table.shape t t1 3 root (vpn % 2 ^ 36) g i
unfolding walkpml4
walkpml4-Walked root vpn g i t t1 table h =
    let x : vpn * 4096 % 2 ^ 64 / 4096 % 2 ^ 36 ≡ vpn % 2 ^ 36 = omega arith in
    walk_levels-Walked 3 table.shape t t1 root (vpn % 2 ^ 36) g i table.fits
      (root-Covers root table.shape (vpn % 2 ^ 36) table.top table.start (omega arith))
      (ap (λ z. walk_levels true 3 root z t) (sym x) ∙ h)

-- One round: the page had no entry that was present, it has the given one now, and the other pages have theirs.
map_page_lem :
    (root vpn ppn perm : ℕ) (kern : Bool) (t t1 : Tables)
    → IsTable root t
    → map_page root vpn ppn perm kern t ≡ done t1
    → IsTable root t1
      × (is_present (translate t root (vpn % 2 ^ 36)) ≡ false)
      × ((v : ℕ)
          → v < 2 ^ 36
          → translate t1 root v
            ≡ (if vpn % 2 ^ 36 == v then make_entry ppn perm else translate t root v))
unfolding map_page
map_page_lem root vpn ppn perm kern t t1 table h =
    let va = vpn * 4096 % 2 ^ 64 in
    let t2 : Tables = (walkpml4 root va true t).1 in
    elim (Option-cases (walkpml4 root va true t).0) [
      | inl e ↦ cc (rw (map_page, e) at h)
      | inr ((g, i), e) ↦
          let below : vpn % 2 ^ 36 < 2 ^ 36 = omega arith in
          let w = walkpml4-Walked root vpn g i t t2 table (rw (← e) refl) in
          elim (Bool-cases (is_present (t2.word g i))) [
            | inl present ↦ cc (rw (map_page, e, present) at h)
            | inr absent ↦
                let (k, run, rest) =
                  >>=-eq-done (mark_unless kern (ppn * 4096 % 2 ^ 64) va t2.mem) _
                    (rw (map_page, e, absent) at h) in
                let same : record { mem = k; word = put_word t2.word g i (make_entry ppn perm) }
                    ≡ t1 =
                  cc rest in
                (
                  subst (IsTable root) same (
                      put-IsTable root t t2 (vpn % 2 ^ 36) g i table below w (make_entry ppn perm)
                        kern (ppn * 4096 % 2 ^ 64) va k run),
                  rw (written_at root t t2 (vpn % 2 ^ 36) g i table below w) absent,
                  λ v small.
                      ap {A = Tables} (λ z. translate z root v) (sym same)
                      ∙ translate-put root t t2 (vpn % 2 ^ 36) g i table below w
                          (make_entry ppn perm) v small,
                )
          ]
    ]

-- The page table as a function after entries for `n` pages from `first` on.
abbrev pub put_range : (ℕ → ℕ) → (first n ppn perm : ℕ) → ℕ → ℕ
put_range old first n ppn perm v =
    if leb first v && ltb v (first + n) then make_entry (ppn + (v - first)) perm else old v

put_range-step :
    (old : ℕ → ℕ) (next first n ppn perm v : ℕ)
    → next ≡ (if first == v then make_entry ppn perm else old v)
    → put_range (λ u. next) (first + 1) n (ppn + 1) perm v ≡ put_range old first (suc n) ppn perm v
put_range-step old next first n ppn perm v h = elim (ℕ-cases first v) [
  | inl same ↦ ground arith
  | inr other ↦
      let shifted : v - first ≡ suc (v - (first + 1)) ⊎ v < first = ground arith in
      ground (arith, shifted)
]

mappages-first :
    (n first root vpn ppn perm : ℕ) (kern : Bool) (t t1 : Tables)
    → IsTable root t
    → vpn % 2 ^ 36 ≡ first % 2 ^ 36
    → first + n ≤ 2 ^ 36
    → mappages root vpn n ppn perm kern t ≡ done t1
    → IsTable root t1
      × ((v : ℕ) → first ≤ v → v < first + n → is_present (translate t root v) ≡ false)
      × ((v : ℕ)
          → v < 2 ^ 36
          → translate t1 root v ≡ put_range (translate t root) first n ppn perm v)
unfolding mappages
mappages-first zero first root vpn ppn perm kern t t1 table at fits h =
    let same : t ≡ t1 = cc h in
    (
      subst (IsTable root) same table,
      λ v a b. absurd (omega arith),
      λ v small. ap {A = Tables} (λ z. translate z root v) (sym same) ∙ ground arith,
    )
mappages-first (suc n) first root vpn ppn perm kern t t1 table at fits h =
    let (t2, run, rest) = >>=-eq-done (map_page root vpn ppn perm kern t) _ h in
    let (table2, absent, one) = map_page_lem root vpn ppn perm kern t t2 table run in
    let x : vpn % 2 ^ 36 ≡ first = omega arith in
    let (table1, gone, all) =
      mappages-first n (first + 1) root (vpn + 1) (ppn + 1) perm kern t2 t1 table2 (omega arith)
        (omega arith) rest in
    (
      table1,
      λ v a b. elim (ℕ-cases first v) [
        | inl same ↦ rw (← same, ← x) absent
        | inr other ↦
            let same : translate t2 root v ≡ translate t root v =
              one v (omega arith) ∙ rw (x, other) in
            rw (← same) (gone v (ground arith) (omega arith))
      ],
      λ v small.
          all v small
          ∙ put_range-step (translate t root) (translate t2 root v) first n ppn perm v
              (rw x at (one v small)),
    )

-- If `mappages` returns, none of the pages had an entry that was present. The tables are a tree as before, the
-- pages of the range have the entries of the physical pages in order, and every other page has the entry that it
-- had, whether tables were added on the way or not. Pages are counted in 48 bits of the address, and the range does
-- not run over their end.
pub mappages-put_range :
    (n root vpn ppn perm : ℕ) (kern : Bool) (t t1 : Tables)
    → IsTable root t
    → vpn % 2 ^ 36 + n ≤ 2 ^ 36
    → mappages root vpn n ppn perm kern t ≡ done t1
    → IsTable root t1
      × ((v : ℕ)
          → vpn % 2 ^ 36 ≤ v
          → v < vpn % 2 ^ 36 + n
          → is_present (translate t root v) ≡ false)
      × ((v : ℕ)
          → v < 2 ^ 36
          → translate t1 root v ≡ put_range (translate t root) (vpn % 2 ^ 36) n ppn perm v)
mappages-put_range n root vpn ppn perm kern t t1 table fits h =
    mappages-first n (vpn % 2 ^ 36) root vpn ppn perm kern t t1 table (omega arith) fits h

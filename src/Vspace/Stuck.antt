-- ===== src/Vspace/Stuck.antt =====
-- The two loops of kernel/vspace.c that may not end: that of `vspacewritetova` at the start of a page, and
-- the one that takes back pages at address 0.
use uw_cse451_operating_syst.Base.{
  lt→ltb, ℕ, zero, suc, ◌+◌, ◌-◌, ◌*◌, ◌%◌, ◌^◌, ◌<◌, ◌≡◌, ◌≢◌, inl, inr, refl, sym, ap, ◌∙◌, Bool,
  true, false, none, some, List, [], ◌∷◌, set, ◌/◌, arith, ◌==◌, ltb, leb, length, get_elem?,
  Bool-cases, Option-cases,
}
use uw_cse451_operating_syst.Base.Outcome.{Outcome, done, hang, ◌>>=◌, >>=-eq-done}
use uw_cse451_operating_syst.Base.Machine.{add64, sub64, kern_base, to_virtual, page_round_up}
use uw_cse451_operating_syst.Kalloc.{Kmem, kfree}
use uw_cse451_operating_syst.Vspace.{
  Region, VpiPage, PageInfo, va2vpage_info, va2vpi_idx, va2vregion, get_info, extend_pages,
  behind_first, first_page, infos_per_page,
}
use uw_cse451_operating_syst.Vspace.Table.{Vspace, page_rounds}
use uw_cse451_operating_syst.Vspace.Map.{with_region, vregionaddmap, add_pages, undo_pages}
use uw_cse451_operating_syst.Vspace.Growth.{write_loop, write_size, vspacewritetova}

no_progress : (va n : ℕ) → va % 4096 ≡ 0 → va < 2 ^ 64 - 4096 → write_size va n ≡ 0
no_progress va n a l = ground arith

failure_ne :
    (vs vs1 : Vspace) (k k1 : Kmem)
    → ◌≢◌ {A = Outcome (Bool × Vspace × Kmem)} (done (false, vs, k)) (done (true, vs1, k1))
failure_ne vs vs1 k k1 h = cc h

write_loop-aligned :
    (rounds : ℕ) (vs vs1 : Vspace) (va end : ℕ) (bytes : List ℕ) (k k1 : Kmem)
    → va % 4096 ≡ 0
    → va < 2 ^ 64 - 4096
    → va < end
    → write_loop rounds vs va end bytes k ≢ done (true, vs1, k1)
unfolding write_loop
write_loop-aligned zero vs vs1 va end bytes k k1 a b l h = cc h
write_loop-aligned (suc rounds) vs vs1 va end bytes k k1 a b l h =
    let t : ltb va end ≡ true = lt→ltb va end l in
    let z = no_progress va (length bytes) a b in
    let same : add64 va (write_size va (length bytes)) ≡ va = rw z (omega arith) in
    elim (Option-cases (va2vregion vs.regions va 0)) [
      | inl e ↦ cc (rw (t, e) at h)
      | inr (j, e) ↦ elim (Option-cases (get_elem? vs.regions j)) [
        | inl f ↦ cc (rw (t, e, f) at h)
        | inr (r, f) ↦
            let (q, run, rest) = >>=-eq-done (va2vpage_info r va k) _ (rw (t, e, f) at h) in
            elim (Option-cases q.0) [
              | inl g ↦ cc (rw g at rest)
              | inr (idx, g) ↦ elim (Option-cases (get_info q.1.pages idx)) [
                | inl m ↦ cc (rw (g, m) at rest)
                | inr (i, m) ↦ elim (Bool-cases i.used) [
                  | inr u ↦ cc (rw (g, m, u) at rest)
                  | inl u ↦ elim (Bool-cases i.writable) [
                    | inr w ↦ failure_ne _ vs1 _ k1 (rw (g, m, u, w) at rest)
                    | inl w ↦
                        write_loop-aligned rounds _ vs1 (add64 va (write_size va (length bytes)))
                          end _ _ k1 (omega arith) (omega arith) (omega arith)
                          (rw (g, m, u, w) at rest)
                  ]
                ]
              ]
            ]
      ]
    ]

set-get_elem? : (rs : List Region) (j : ℕ) (r : Region) → get_elem? rs j ≡ some r → set rs j r ≡ rs
set-get_elem? [] j r h = refl
set-get_elem? (x ∷ rs) zero r h = ap (λ z. z ∷ rs) (sym (cc h))
set-get_elem? (x ∷ rs) (suc j) r h = ap (λ z. x ∷ z) (set-get_elem? rs j r h)

extend_pages-there :
    (ps : List VpiPage) (n : ℕ) (p : VpiPage) (k : Kmem)
    → get_elem? ps n ≡ some p
    → extend_pages ps (suc n) k ≡ (true, ps, k)
unfolding extend_pages
extend_pages-there [] n p k h = cc h
extend_pages-there (q ∷ ps) zero p k h = refl
extend_pages-there (q ∷ ps) (suc n) p k h = rw (extend_pages-there ps n p k h) refl

behind_first-there :
    (ps : List VpiPage) (n : ℕ) (p : VpiPage) (k : Kmem)
    → get_elem? ps n ≡ some p
    → behind_first ps n k ≡ (true, ps, k)
unfolding extend_pages
behind_first-there [] n p k h = refl
behind_first-there (q ∷ ps) zero p k h = refl
behind_first-there (q ∷ ps) (suc n) p k h = rw (extend_pages-there ps n p k h) refl

first_page-there :
    (ps : List VpiPage) (n : ℕ) (p : VpiPage) (k : Kmem)
    → get_elem? ps n ≡ some p
    → first_page ps k ≡ done (ps, k)
unfolding first_page
first_page-there [] n p k h = cc h
first_page-there (q ∷ ps) n p k h = refl

-- An entry that the list has is found, and nothing is added.
va2vpage_info-there :
    (r : Region) (va : ℕ) (i : PageInfo) (k : Kmem)
    → va2vpi_idx r va < 2 ^ 31
    → get_info r.pages (va2vpi_idx r va) ≡ some i
    → va2vpage_info r va k ≡ done (some (va2vpi_idx r va), r, k)
unfolding va2vpage_info
va2vpage_info-there r va i k l h =
    let idx : ℕ = va2vpi_idx r va in
    let int : leb (2 ^ 31) idx ≡ false = ground arith in
    elim (Option-cases (get_elem? r.pages (idx / infos_per_page))) [
      | inl e ↦ cc (rw (get_info, e) at h)
      | inr (p, e) ↦
          rw
            (
              va2vpage_info,
              first_page-there r.pages (idx / infos_per_page) p k e,
              behind_first-there r.pages (idx / infos_per_page) p k e,
              int,
            )
            refl
    ]

-- The page that `va` is on is there and may be written.
pub record MayWrite (vs : Vspace) (va : ℕ) : Type 0 where
  pub place : ℕ
  pub region : Region
  pub info : PageInfo
  pub found : va2vregion vs.regions va 0 ≡ some place
  pub here : get_elem? vs.regions place ≡ some region
  pub int_index : va2vpi_idx region va < 2 ^ 31
  pub entry : get_info region.pages (va2vpi_idx region va) ≡ some info
  pub used : info.used ≡ true
  pub writable : info.writable ≡ true

write_loop-hangs :
    (rounds : ℕ) (vs : Vspace) (va end : ℕ) (bytes : List ℕ) (k : Kmem)
    → MayWrite vs va
    → va % 4096 ≡ 0
    → va < 2 ^ 64 - 4096
    → va < end
    → write_loop rounds vs va end bytes k ≡ hang
unfolding write_loop
write_loop-hangs zero vs va end bytes k m a b l = refl
write_loop-hangs (suc rounds) vs va end bytes k m a b l =
    let t : ltb va end ≡ true = lt→ltb va end l in
    let z = no_progress va (length bytes) a b in
    let same : add64 va (write_size va (length bytes)) ≡ va = rw z (omega arith) in
    let kept : with_region vs m.place m.region ≡ vs =
      ap (λ x. record vs { regions = x }) (set-get_elem? vs.regions m.place m.region m.here) in
    rw (t, m.found, m.here, va2vpage_info-there m.region va m.info k m.int_index m.entry)
      (rw (◌>>=◌, m.entry, m.used, m.writable, kept, same)
        (write_loop-hangs rounds vs va end _ _ m a b l))

undo_pages-zero :
    (rounds a start : ℕ) (r r1 : Region) (k k1 : Kmem)
    → start ≡ 0
    → undo_pages rounds a start r k ≢ done (r1, k1)
unfolding undo_pages
undo_pages-zero zero a start r r1 k k1 z h = cc h
undo_pages-zero (suc rounds) a start r r1 k k1 z h =
    let t : leb start a ≡ true = ground arith in
    let (q, run, rest) = >>=-eq-done (va2vpage_info r a k) _ (rw t at h) in
    elim (Option-cases q.0) [
      | inl e ↦ cc (rw e at rest)
      | inr (idx, e) ↦ elim (Option-cases (get_info q.1.pages idx)) [
        | inl f ↦ cc (rw (e, f) at rest)
        | inr (i, f) ↦
            let (k2, run1, rest1) =
              >>=-eq-done (kfree (to_virtual (i.ppn * 4096)) q.2) _ (rw (e, f) at rest) in
            undo_pages-zero rounds (sub64 a 4096) start _ r1 k2 k1 z rest1
      ]
    ]

-- `vspacewritetova` never reports success for data at an address at the start of a page, below the
-- kernel: it panics, reports -1, or does not come back.
vspacewritetova-aligned :
    (vs vs1 : Vspace) (va : ℕ) (bytes : List ℕ) (k k1 : Kmem)
    → va % 4096 ≡ 0
    → va + length bytes < kern_base
    → 0 < length bytes
    → vspacewritetova vs va bytes k ≢ done (true, vs1, k1)
unfolding vspacewritetova
vspacewritetova-aligned vs vs1 va bytes k k1 a b l h =
    let f : length bytes == 0 ≡ false = ground arith in
    let same : add64 va (length bytes) ≡ va + length bytes = omega arith in
    let g : leb kern_base (add64 va (length bytes)) ≡ false = ground arith in
    write_loop-aligned (length bytes + 1) vs vs1 va (add64 va (length bytes)) bytes k k1 a
      (omega arith) (omega arith) (rw (f, g) at h)

-- `vspacewritetova` with data for an address at the start of a page, below the kernel, does not come
-- back if the entry of the page is in the list of its region, is used and may be written: no number of
-- rounds of the loop is enough, nor is the one that the model of `vspacewritetova` allows.
pub vspacewritetova-hangs :
    (vs : Vspace) (va : ℕ) (bytes : List ℕ) (k : Kmem)
    → MayWrite vs va
    → va % 4096 ≡ 0
    → va + length bytes < kern_base
    → 0 < length bytes
    → ((rounds : ℕ) → write_loop rounds vs va (va + length bytes) bytes k ≡ hang)
      × (vspacewritetova vs va bytes k ≡ hang)
unfolding vspacewritetova
vspacewritetova-hangs vs va bytes k m a b l =
    let f : length bytes == 0 ≡ false = ground arith in
    let same : add64 va (length bytes) ≡ va + length bytes = omega arith in
    let g : leb kern_base (add64 va (length bytes)) ≡ false = ground arith in
    let go : (rounds : ℕ) → write_loop rounds vs va (va + length bytes) bytes k ≡ hang = λ rounds.
      write_loop-hangs rounds vs va (va + length bytes) bytes k m a (omega arith) (omega arith) in
    (go, rw (f, g, same) (go (length bytes + 1)))

-- `vregionaddmap` from an address on page 0 never reports a failure for a size that it accepts, although
-- memory may run out: the loop that takes back the pages does not end there with a result.
pub vregionaddmap-zero :
    (r r1 : Region) (from sz ret : ℕ) (present writable : Bool) (k k1 : Kmem)
    → page_round_up from ≡ 0
    → sz + from < kern_base
    → 0 < sz
    → vregionaddmap r from sz present writable k ≡ done (ret, r1, k1)
    → add_pages
        (page_rounds (page_round_up from) (add64 from sz))
        r
        (page_round_up from)
        present
        writable
        k
      ≡ done (none, r1, k1)
unfolding vregionaddmap
vregionaddmap-zero r r1 from sz ret present writable k k1 z b l h =
    let f : sz == 0 ≡ false = ground arith in
    let same : add64 sz from ≡ sz + from = omega arith in
    let g : leb kern_base (add64 sz from) ≡ false = ground arith in
    let (q, run, rest) =
      >>=-eq-done
        (add_pages (page_rounds (page_round_up from) (add64 from sz)) r (page_round_up from) present
          writable k)
        _ (rw (g, f) at h) in
    elim (Option-cases q.0) [
      | inr (a, e) ↦
          let (p, run1, rest1) =
            >>=-eq-done
              (undo_pages (page_rounds (page_round_up from) (add64 from sz) + 2) (sub64 a 4096)
                (page_round_up from) q.1 q.2)
              _ (rw e at rest) in
          absurd (undo_pages-zero _ _ (page_round_up from) q.1 p.0 q.2 p.1 z run1)
      | inl e ↦
          let er : q.1 ≡ r1 = cc (rw e at rest) in
          let ek : q.2 ≡ k1 = cc (rw e at rest) in run ∙ ap done (cc (e, er, ek))
    ]

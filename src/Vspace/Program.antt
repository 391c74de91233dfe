-- ===== src/Vspace/Program.antt =====
-- Where a program stands that has been loaded by `vspaceloadcode` of kernel/vspace.c.
use uw_cse451_operating_syst.Base.{
  arith, min, ℕ, zero, suc, ◌-◌, ◌%◌, ◌≡◌, inl, inr, sym, ap, ◌∙◌, Bool, true, Option, some, List,
  ◌==◌, length, set, Bool-cases, Option-cases,
}
use mathlib.Core.Path.{subst}
use uw_cse451_operating_syst.Base.Outcome.{done, >>=-eq-done}
use uw_cse451_operating_syst.Base.Machine.{int_round_up, add64, is_negative}
use uw_cse451_operating_syst.Kalloc.{Kmem}
use uw_cse451_operating_syst.Vspace.{Region, va2vpage_info, get_info}
use uw_cse451_operating_syst.Vspace.Table.{Vspace}
use uw_cse451_operating_syst.Vspace.Map.{
  vregionaddmap, with_region, region_or_empty, vr_code, vr_heap,
}
use uw_cse451_operating_syst.Vspace.Layout.{place, places, va2vpage_info-place, vregionaddmap-place}
use uw_cse451_operating_syst.Vspace.Stack.{places-set}
use uw_cse451_operating_syst.Vspace.Load.{
  Reader, read_all, prog_header, ProgHeader, load_pages, vrloaddata, bad_sizes, load_segment,
  load_segments, vspaceloadcode, elf_header,
}

load_pages-place :
    (read : Reader) (count : ℕ) (r r1 : Region) (va off sz : ℕ) (ok : Bool) (k k1 : Kmem)
    → load_pages read count r va off sz k ≡ done (ok, r1, k1)
    → place r1 ≡ place r
unfolding load_pages
load_pages-place read zero r r1 va off sz ok k k1 h = let e : r ≡ r1 = cc h in sym (ap place e)
load_pages-place read (suc count) r r1 va off sz ok k k1 h =
    let (q, run, rest) = >>=-eq-done (va2vpage_info r va k) _ h in
    let x = va2vpage_info-place r q.1 va q.0 k q.2 run in
    elim (Option-cases q.0) [
      | inl e ↦ cc (rw e at rest)
      | inr (idx, e) ↦ elim (Option-cases (get_info q.1.pages idx)) [
        | inl g ↦ cc (rw (e, g) at rest)
        | inr (i, g) ↦ elim (Bool-cases i.used) [
          | inr u ↦ cc (rw (e, g, u) at rest)
          | inl u ↦ elim (Option-cases (read off (min sz 4096))) [
            | inl d ↦ let same : q.1 ≡ r1 = cc (rw (e, g, u, d) at rest) in sym (ap place same) ∙ x
            | inr (bytes, d) ↦ elim (Bool-cases (length bytes == min sz 4096)) [
              | inr l ↦
                  let same : q.1 ≡ r1 = cc (rw (e, g, u, d, l) at rest) in sym (ap place same) ∙ x
              | inl l ↦
                  load_pages-place read count q.1 r1 (add64 va 4096) _ (sz - 4096) ok _ k1
                    (rw (e, g, u, d, l) at rest)
                  ∙ x
            ]
          ]
        ]
      ]
    ]

load_segment-place :
    (read : Reader) (ph : ProgHeader) (va : ℕ) (r r1 : Region) (o : Option ℕ) (k k1 : Kmem)
    → load_segment read ph va r k ≡ done (o, r1, k1)
    → place r1 ≡ place r
unfolding load_segment vrloaddata
load_segment-place read ph va r r1 o k k1 h =
    let (q, run, rest) =
      >>=-eq-done (vregionaddmap r va (add64 ph.vaddr ph.memsz) true true k) _ h in
    let x = vregionaddmap-place r q.1 va (add64 ph.vaddr ph.memsz) q.0 true true k q.2 run in
    elim (Bool-cases (is_negative q.0)) [
      | inl n ↦ let same : q.1 ≡ r1 = cc (rw n at rest) in sym (ap place same) ∙ x
      | inr n ↦ elim (Bool-cases (ph.vaddr % 4096 == 0)) [
        | inr a ↦ let same : q.1 ≡ r1 = cc (rw (n, a) at rest) in sym (ap place same) ∙ x
        | inl a ↦
            let (m, run1, last) =
              >>=-eq-done (load_pages read _ q.1 ph.vaddr _ _ q.2) _ (rw (n, a) at rest) in
            let same : m.1 ≡ r1 = cc last in
            sym (ap place same) ∙ load_pages-place read _ q.1 m.1 ph.vaddr _ _ m.0 q.2 m.2 run1 ∙ x
      ]
    ]

load_segments-place :
    (read : Reader) (count off va sz : ℕ) (r r1 : Region) (o : Option ℕ) (k k1 : Kmem)
    → load_segments read count off va sz r k ≡ done (o, r1, k1)
    → place r1 ≡ place r
unfolding load_segments
load_segments-place read zero off va sz r r1 o k k1 h = let e : r ≡ r1 = cc h in sym (ap place e)
load_segments-place read (suc count) off va sz r r1 o k k1 h =
    elim (Option-cases (read_all read off 56)) [
      | inl e ↦ let same : r ≡ r1 = cc (rw (load_segments, e) at h) in sym (ap place same)
      | inr (bs, e) ↦ elim (Bool-cases ((prog_header bs).type == 1)) [
        | inr t ↦ load_segments-place read count _ va sz r r1 o k k1 (rw (load_segments, e, t) at h)
        | inl t ↦ elim (Bool-cases (bad_sizes (prog_header bs))) [
          | inl b ↦ let same : r ≡ r1 = cc (rw (load_segments, e, t, b) at h) in sym (ap place same)
          | inr b ↦
              let (q, run, rest) =
                >>=-eq-done (load_segment read (prog_header bs) va r k) _
                  (rw (load_segments, e, t, b) at h) in
              let x = load_segment-place read (prog_header bs) va r q.1 q.0 k q.2 run in
              elim (Option-cases q.0) [
                | inl f ↦ let same : q.1 ≡ r1 = cc (rw f at rest) in sym (ap place same) ∙ x
                | inr (n, f) ↦
                    load_segments-place read count _ _ n q.1 r1 o q.2 k1 (rw f at rest) ∙ x
              ]
        ]
      ]
    ]

-- Code from 0 to `end`, and behind it a heap that is empty.
abbrev pub Loaded : (from to : Vspace) → (end : ℕ) → Type 0
Loaded from to end =
    places to.regions
    ≡ set
        (set (places from.regions) vr_code
          (record (place (region_or_empty from vr_code)) { va_base = 0; size = end }))
        vr_heap (record (place (region_or_empty from vr_heap)) { va_base = end; size = 0 })

bounds-Loaded :
    (vs : Vspace) (r : Region) (end : ℕ)
    → place r ≡ place (record (region_or_empty vs vr_code) { va_base = 0 })
    → Loaded vs
        (with_region
          (with_region vs vr_code (record r { size = end }))
          vr_heap
          (record (region_or_empty vs vr_heap) { va_base = end; size = 0 }))
        end
bounds-Loaded vs r end x =
    places-set (set vs.regions vr_code (record r { size = end })) vr_heap _
    ∙ ap
        (λ z.
          set z vr_heap (place (record (region_or_empty vs vr_heap) { va_base = end; size = 0 })))
        (places-set vs.regions vr_code (record r { size = end })
          ∙ ap (λ p. set (places vs.regions) vr_code (record p { size = end })) x)

-- If `vspaceloadcode` loads a file, its first 64 bytes are a header with the magic number and the entry that is
-- returned. The code region then begins at 0 and ends at the returned size, rounded up to a page as an `int`; the heap
-- begins there and is empty, and no other region has moved.
pub vspaceloadcode-Loaded :
    (read : Reader) (vs vs1 : Vspace) (uninitialized sz rip : ℕ) (k k1 : Kmem)
    → vspaceloadcode (some read) vs uninitialized k ≡ done (some (sz, rip), vs1, k1)
    → (bs : List ℕ) × (read_all read 0 64 ≡ some bs)
      × ((elf_header bs).magic ≡ 0x464C457F)
      × (rip ≡ (elf_header bs).entry)
      × Loaded vs vs1 (int_round_up sz)
unfolding vspaceloadcode
vspaceloadcode-Loaded read vs vs1 uninitialized sz rip k k1 h =
    elim (Option-cases (read_all read 0 64)) [
      | inl e ↦ cc (rw (vspaceloadcode, e) at h)
      | inr (bs, e) ↦ elim (Bool-cases ((elf_header bs).magic == 0x464C457F)) [
        | inr m ↦ cc (rw (vspaceloadcode, e, m) at h)
        | inl m ↦
            let code : Region = record (region_or_empty vs vr_code) { va_base = 0 } in
            let (q, run, rest) =
              >>=-eq-done (load_segments read (elf_header bs).phnum _ 0 uninitialized code k) _
                (rw (vspaceloadcode, e, m) at h) in
            let x = load_segments-place read _ _ 0 uninitialized code q.1 q.0 k q.2 run in
            elim (Option-cases q.0) [
              | inl f ↦ cc (rw f at rest)
              | inr (n, f) ↦
                  let end = int_round_up n in
                  let last = rw f at rest in
                  let en : n ≡ sz = cc last in
                  let ev : with_region (with_region vs vr_code (record q.1 { size = end })) vr_heap
                        (record (region_or_empty vs vr_heap) { va_base = end; size = 0 })
                      ≡ vs1 =
                    cc last in
                  (
                    bs,
                    e,
                    ground arith,
                    cc last,
                    subst (λ z. Loaded vs vs1 (int_round_up z)) en
                        (subst (λ v. Loaded vs v end) ev (bounds-Loaded vs q.1 end x)),
                  )
            ]
      ]
    ]

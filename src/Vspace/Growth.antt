-- ===== src/Vspace/Growth.antt =====
-- The use of an address space that exists: `vspacewritetova` and `vspacefree` of kernel/vspace.c, `sbrk` of
-- kernel/proc.c, and `growuserstack` with the page fault of kernel/trap.c.
use uw_cse451_operating_syst.Base.{
  take, drop, min, ℕ, zero, suc, ◌+◌, ◌-◌, ◌*◌, ◌%◌, ◌^◌, Bool, true, false, not, none, some, List,
  [], ◌∷◌, ◌==◌, ltb, leb, if◌then◌else◌, length, get_elem?,
}
use uw_cse451_operating_syst.Base.Outcome.{Outcome, done, panic, hang, ◌>>=◌}
use uw_cse451_operating_syst.Base.Machine.{
  to_virtual, minus_one, is_negative, add64, sub64, kern_base, page_round_up,
}
use uw_cse451_operating_syst.Kalloc.{Kmem, kfree}
use uw_cse451_operating_syst.Vspace.{VpiPage, Region, up, va2vpage_info, va2vregion, get_info}
use uw_cse451_operating_syst.Vspace.Table.{PageTable, put, Vspace, vspaceinvalidate}
use uw_cse451_operating_syst.Vspace.Cow.{serve_fault}
use uw_cse451_operating_syst.Vspace.Map.{
  vregionaddmap, with_region, region_or_empty, vr_heap, vr_ustack, write_frame, empty_region,
}

-- `min((int)(PGROUNDUP(va) - va), sz)` for a `sz` that is positive
abbrev pub write_size : (va sz : ℕ) → ℕ
write_size va sz = min (sub64 (page_round_up va) va) sz

-- The loop of `vspacewritetova`, with `rounds` as fuel. Each round that writes makes the data shorter, so
-- that one round more than there are bytes is enough; a round that writes nothing is repeated for ever.
unfoldable pub write_loop :
    (rounds : ℕ) → Vspace → (va end : ℕ) → (bytes : List ℕ) → Kmem → Outcome (Bool × Vspace × Kmem)
write_loop zero vs va end bytes k = hang
write_loop (suc rounds) vs va end bytes k =
    let n = write_size va (length bytes) in
    let round : Outcome (Bool × Vspace × Kmem) = elim (va2vregion vs.regions va 0) [
      | none ↦ done (false, vs, k)
      | some j ↦ elim (get_elem? vs.regions j) [
        | none ↦ done (false, vs, k)
        | some r ↦ va2vpage_info r va k >>= (λ (o, r1, k1).
            let vs1 = with_region vs j r1 in
            elim o [
              | none ↦ panic
              | some idx ↦ elim (get_info r1.pages idx) [
                | none ↦ panic
                | some i ↦
                    if not i.used
                    then panic
                    else if not i.writable
                    then done (false, vs1, k1)
                    else write_loop rounds vs1 (add64 va n) end (drop n bytes)
                        (write_frame k1 i.ppn (va % 4096) (take n bytes))
              ]
            ])
      ]
    ] in
    if ltb va end then round else done (true, vs, k)

-- `false` is -1; the two assertions are panics.
unfoldable pub vspacewritetova :
    Vspace → (va : ℕ) → (bytes : List ℕ) → Kmem → Outcome (Bool × Vspace × Kmem)
vspacewritetova vs va bytes k =
    if length bytes == 0
    then panic
    else if leb kern_base (add64 va (length bytes))
    then panic
    else write_loop (length bytes + 1) vs va (add64 va (length bytes)) bytes k

-- `free_page_desc_list`: the pages of infos, the last one first.
unfoldable pub free_page_desc_list : List VpiPage → Kmem → Outcome Kmem
free_page_desc_list [] k = done k
free_page_desc_list (p ∷ ps) k =
    if p.address % 4096 == 0 then free_page_desc_list ps k >>= (λ k1. kfree p.address k1) else panic

unfoldable pub free_regions : List Region → Kmem → Outcome (List Region × Kmem)
free_regions [] k = done ([], k)
free_regions (r ∷ rs) k =
    free_page_desc_list r.pages k
    >>= (λ k1. free_regions rs k1 >>= (λ (es, k2). done (empty_region up ∷ es, k2)))

-- The loop of `deallocuvm` over `count` entries from `vpn` on. The C code goes over a part of the table
-- that is not there in one step, with `find_next_possible_page`.
unfoldable pub dealloc_pages : (count vpn : ℕ) → PageTable → Kmem → Outcome (PageTable × Kmem)
dealloc_pages zero vpn t k = done (t, k)
dealloc_pages (suc count) vpn t k =
    let rest = dealloc_pages count (vpn + 1) t k in
    elim (t vpn) [
      | none ↦ rest
      | some e ↦
          if not e.present
          then rest
          else if e.ppn == 0
          then panic
          else kfree (to_virtual (e.ppn * 4096)) k
            >>= (λ k1. dealloc_pages count (vpn + 1) (put t vpn none) k1)
    ]

-- `vspacefree`: the pages of infos, and with `deallocuvm` the pages below 4 GB that the table has. The pages
-- of the table itself are not seen.
unfoldable pub vspacefree : Vspace → Kmem → Outcome (Vspace × Kmem)
vspacefree vs k = free_regions vs.regions k >>= (λ (rs, k1).
    dealloc_pages (2 ^ 20) 0 vs.pgtbl k1
    >>= (λ (t, k2). done (record { regions = rs; pgtbl = t }, k2)))

abbrev pub grow_region : Region → (by : ℕ) → Region
grow_region r by = record r { size = add64 r.size by }

-- `sbrk` for `n` that is not negative, as `sys_sbrk` calls it. The result is an `int`, here its 32 bits.
unfoldable pub sbrk : Vspace → (n : ℕ) → Kmem → Outcome (ℕ × Vspace × Kmem)
sbrk vs n k =
    let r = region_or_empty vs vr_heap in
    let old_bound = add64 r.va_base r.size in
    let finish : Vspace → Kmem → Outcome (ℕ × Vspace × Kmem) =
      λ vs1 k1. vspaceinvalidate vs1 k1 >>= (λ (vs2, k2). done (old_bound % 2 ^ 32, vs2, k2)) in
    if n == 0
    then finish vs k
    else vregionaddmap r old_bound n true true k >>= (λ (ret, r1, k1).
      if is_negative ret
      then done (minus_one, with_region vs vr_heap r1, k1)
      else finish (with_region vs vr_heap (grow_region r1 n)) k1)

-- At most ten pages.
unfoldable pub growuserstack : Vspace → Kmem → Outcome (ℕ × Vspace × Kmem)
growuserstack vs k =
    let r = region_or_empty vs vr_ustack in
    let old_bound = sub64 (sub64 r.va_base r.size) 4096 in
    if leb (10 * 4096) r.size
    then done (minus_one, vs, k)
    else vregionaddmap r old_bound 4096 true true k >>= (λ (ret, r1, k1).
      if is_negative ret
      then done (minus_one, with_region vs vr_ustack r1, k1)
      else vspaceinvalidate (with_region vs vr_ustack (grow_region r1 4096)) k1
        >>= (λ (vs2, k2). done (old_bound % 2 ^ 32, vs2, k2)))

-- A page fault at `addr`: whether the process goes on, or is killed (in the kernel: a panic).
unfoldable pub page_fault : Vspace → (addr : ℕ) → Kmem → Outcome (Bool × Vspace × Kmem)
page_fault vs addr k = serve_fault vs addr k >>= (λ (back, vs1, k1).
    let on_stack = if ltb addr (2 ^ 31) then leb (2 ^ 31 - 10 * 4096) addr else false in
    if back
    then done (true, vs1, k1)
    else if on_stack
    then growuserstack vs1 k1 >>= (λ (ret, vs2, k2). done (not (ret == minus_one), vs2, k2))
    else done (false, vs1, k1))

-- ===== src/Vspace/Map.antt =====
-- Pages for the regions of an address space: `vregionaddmap`, `vradddata`, `vspaceinit`, `vspaceinitcode`,
-- `vspaceinitstack`, `vspacewritetova` and `vspacefree` of kernel/vspace.c.
use uw_cse451_operating_syst.Base.{
  take, ◌/◌, drop, get_or, ℕ, zero, suc, ◌+◌, ◌-◌, ◌*◌, ◌%◌, ◌^◌, Bool, true, false, Option, none,
  some, List, [], ◌∷◌, ◌==◌, leb, if◌then◌else◌, length, set,
}
use uw_cse451_operating_syst.Base.Outcome.{Outcome, done, panic, hang, ◌>>=◌}
use uw_cse451_operating_syst.Base.Machine.{
  is_negative, minus_one, add64, sub64, kern_base, to_physical, to_virtual, page_number,
  page_round_up,
}
use uw_cse451_operating_syst.Kalloc.{Kmem, kfree, update_frame}
use uw_cse451_operating_syst.Vspace.{
  PageInfo, Region, Direction, up, down, va2vpage_info, get_info, set_info, zeroed_page,
}
use uw_cse451_operating_syst.Vspace.Table.{Vspace, PageTable, vspaceinvalidate, page_rounds}

-- `cow_page` is not touched.
abbrev pub mapped_info : PageInfo → (ppn : ℕ) → (present writable : Bool) → PageInfo
mapped_info i ppn present writable = record i {
  used = true;
  ppn = ppn;
  present = present;
  writable = writable;
}

abbrev pub unmapped_info : PageInfo → PageInfo
unmapped_info i = record i { used = false; ppn = 0; present = false; writable = false }

abbrev pub store_info : Region → (idx : ℕ) → PageInfo → Region
store_info r idx i = record r { pages = set_info r.pages idx i }

-- The loop of `vregionaddmap`, with `count` pages left from `a` on. The address in the result is the one
-- at which memory ran out, if it did.
unfoldable pub add_pages :
    (count : ℕ)
    → Region
    → (a : ℕ) → (present writable : Bool) → Kmem
    → Outcome (Option ℕ × Region × Kmem)
add_pages zero r a present writable k = done (none, r, k)
add_pages (suc count) r a present writable k = va2vpage_info r a k >>= (λ (o, r1, k1). elim o [
  | none ↦ done (some a, r1, k1)
  | some idx ↦
      let (mem, k2) = zeroed_page k1 in
      if mem == 0 then done (some a, r1, k2) else elim (get_info r1.pages idx) [
        | none ↦ panic
        | some i ↦
            add_pages count
              (store_info r1 idx (mapped_info i (page_number (to_physical mem)) present writable))
              (add64 a 4096) present writable k2
      ]
])

-- The loop at `addmap_failure`, with `rounds` as fuel.
unfoldable pub undo_pages : (rounds a start : ℕ) → Region → Kmem → Outcome (Region × Kmem)
undo_pages zero a start r k = hang
undo_pages (suc rounds) a start r k =
    let undo = va2vpage_info r a k >>= (λ (o, r1, k1). elim o [
      | none ↦ panic
      | some idx ↦ elim (get_info r1.pages idx) [
        | none ↦ panic
        | some i ↦ kfree (to_virtual (i.ppn * 4096)) k1 >>= (λ k2.
            undo_pages rounds (sub64 a 4096) start (store_info r1 idx (unmapped_info i)) k2)
      ]
    ]) in
    if leb start a then undo else done (r, k)

-- The result is -1, or `sz` as an `int`.
unfoldable pub vregionaddmap :
    Region → (from sz : ℕ) → (present writable : Bool) → Kmem → Outcome (ℕ × Region × Kmem)
vregionaddmap r from sz present writable k =
    let start = page_round_up from in
    let count = page_rounds start (add64 from sz) in
    if leb kern_base (add64 sz from)
    then done (minus_one, r, k)
    else if sz == 0
    then done (0, r, k)
    else add_pages count r start present writable k >>= (λ (failed, r1, k1). elim failed [
      | none ↦ done (sz % 2 ^ 32, r1, k1)
      | some a ↦
          undo_pages (count + 2) (sub64 a 4096) start r1 k1
          >>= (λ (r2, k2). done (minus_one, r2, k2))
    ])

-- `memmove` of at most a page into page `ppn`, at offset `at`.
abbrev pub write_frame : Kmem → (ppn at : ℕ) → (bytes : List ℕ) → Kmem
write_frame k ppn at bytes = record k {
  frame =
      update_frame k.frame ppn
        (λ o. if leb at o then get_or bytes (o - at) (k.frame ppn o) else k.frame ppn o);
}

-- The loop of `vradddata`, with `count` pages left.
unfoldable pub copy_data :
    (count : ℕ) → Region → (va : ℕ) → (bytes : List ℕ) → Kmem → Outcome (Region × Kmem)
copy_data zero r va bytes k = done (r, k)
copy_data (suc count) r va bytes k = va2vpage_info r va k >>= (λ (o, r1, k1). elim o [
  | none ↦ panic
  | some idx ↦ elim (get_info r1.pages idx) [
    | none ↦ panic
    | some i ↦
        if i.used
        then copy_data count r1 (add64 va 4096) (drop 4096 bytes)
            (write_frame k1 i.ppn 0 (take 4096 bytes))
        else panic
  ]
])

-- `false` is a negative result.
unfoldable pub vradddata :
    Region
    → (va : ℕ) → (bytes : List ℕ) → (present writable : Bool) → Kmem
    → Outcome (Bool × Region × Kmem)
vradddata r va bytes present writable k =
    vregionaddmap r va (length bytes) present writable k >>= (λ (ret, r1, k1).
      if is_negative ret
      then done (false, r1, k1)
      else copy_data ((length bytes + 4095) / 4096) r1 va bytes k1
        >>= (λ (r2, k2). done (true, r2, k2)))

abbrev pub empty_region : Direction → Region
empty_region d = record { dir = d; va_base = 0; size = 0; pages = [] }

-- `setupkvm` gives the page table of the kernel, or nothing without memory.
unfoldable pub vspaceinit : (setupkvm : Option PageTable) → Option Vspace
vspaceinit none = none
vspaceinit (some t) =
    some
      (record { regions = empty_region up ∷ empty_region up ∷ empty_region down ∷ []; pgtbl = t })

-- VR_CODE, VR_HEAP and VR_USTACK
abbrev pub vr_code : ℕ
vr_code = 0

abbrev pub vr_heap : ℕ
vr_heap = 1

abbrev pub vr_ustack : ℕ
vr_ustack = 2

abbrev pub with_region : Vspace → (i : ℕ) → Region → Vspace
with_region vs i r = record vs { regions = set vs.regions i r }

abbrev pub region_or_empty : Vspace → (i : ℕ) → Region
region_or_empty vs i = get_or vs.regions i (empty_region up)

-- `false` is -1.
unfoldable pub vspaceinitstack : Vspace → (start : ℕ) → Kmem → Outcome (Bool × Vspace × Kmem)
vspaceinitstack vs start k =
    let r = record (region_or_empty vs vr_ustack) { va_base = start; size = 4096 } in
    vregionaddmap r (sub64 start 4096) 4096 true true k >>= (λ (ret, r1, k1).
      let vs1 = with_region vs vr_ustack r1 in
      if is_negative ret
      then done (false, vs1, k1)
      else vspaceinvalidate vs1 k1 >>= (λ (vs2, k2). done (true, vs2, k2)))

-- The stack of the first process, one page above a guard page; the assertion is a panic.
unfoldable pub add_init_stack : Vspace → (size : ℕ) → Kmem → Outcome (Vspace × Kmem)
add_init_stack vs size k =
    let stack = add64 size (2 * 4096) in
    let r = record (region_or_empty vs vr_ustack) { va_base = stack; size = 4096 } in
    vregionaddmap r (sub64 stack 4096) 4096 true true k >>= (λ (ret, r1, k1).
      if is_negative ret then panic else vspaceinvalidate (with_region vs vr_ustack r1) k1)

-- The assertion is a panic.
unfoldable pub vspaceinitcode : Vspace → (init : List ℕ) → Kmem → Outcome (Vspace × Kmem)
vspaceinitcode vs init k =
    let size = page_round_up (length init) in
    let code = record (region_or_empty vs vr_code) { va_base = 0; size = size } in
    vradddata code 0 init true true k >>= (λ (ok, code1, k1).
      if ok then add_init_stack (with_region vs vr_code code1) size k1 else panic)

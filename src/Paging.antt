-- ===== src/Paging.antt =====
-- The four levels of the page table, kernel/x86_64vm.c with the macros of inc/mmu.h: `walkpml4`,
-- `mappages`, `setupkvm`, `deallocuvm` and `freevm`.
use uw_cse451_operating_syst.Base.{
  ◌/◌, ℕ, zero, suc, ◌+◌, ◌-◌, ◌*◌, ◌%◌, ◌^◌, ◌≤◌, ◌<◌, ◌≡◌, ◌≢◌, ◌⊎◌, inl, inr, refl, sym, ap, ◌∙◌,
  Bool, true, false, ◌&&◌, not, Option, none, some, List, [], ◌∷◌, ◌++◌, arith, ◌==◌, ltb, leb,
  if◌then◌else◌, length, get_elem?, set, Bool-cases, Option-cases, ℕ-cases,
}
pub mod Shape
pub mod Fresh
pub mod Walked
pub mod Mapped
pub mod Refines
use Prim.Native.Nat.{bit_or}
use uw_cse451_operating_syst.Base.Outcome.{Outcome, done, panic, hang, ◌>>=◌}
use uw_cse451_operating_syst.Base.Machine.{
  add64, sub64, kern_base, to_physical, to_virtual, page_number, page_round_up,
}
use uw_cse451_operating_syst.Kalloc.{Kmem, kfree, mark_user_mem}
use uw_cse451_operating_syst.Vspace.{zeroed_page}

-- The memory. A page that holds a table is read by `word`, by its page number and the index of the entry;
-- that it is a page of the allocator as well is said by `mem`.
pub record Tables : Type 0 where
  pub mem : Kmem
  pub word : (ppn i : ℕ) → ℕ

abbrev pub Words : Type 0
Words = (ppn i : ℕ) → ℕ

-- An entry is present by its lowest bit, and PDPT_ADDR, PDE_ADDR and PTE_ADDR are its bits 12 to 51.
abbrev pub is_present : ℕ → Bool
is_present e = e % 2 == 1

abbrev pub entry_page : ℕ → ℕ
entry_page e = e / 4096 % 2 ^ 40

abbrev pub put_word : Words → (ppn i e : ℕ) → Words
put_word w ppn i e q j = if ppn == q then (if i == j then e else w q j) else w q j

abbrev pub clear_words : Words → (ppn : ℕ) → Words
clear_words w ppn q j = if ppn == q then 0 else w q j

-- The number of a page without the digits of the lower `level` tables. PT_INDEX, PD_INDEX, PDPT_INDEX and
-- PML4_INDEX are the last digit to base 512 that is left, at levels 0 to 3.
abbrev pub shift : (level vpn : ℕ) → ℕ
shift zero vpn = vpn
shift (suc level) vpn = shift level vpn / 512

abbrev pub index : (level vpn : ℕ) → ℕ
index level vpn = shift level vpn % 512

-- A new table, linked to by entry `i` of table `f`: PTE_P, PTE_W and PTE_U are the number 7.
unfoldable pub new_table : (f i : ℕ) → Tables → Option ℕ × Tables
new_table f i t =
    let (a, k) = zeroed_page t.mem in
    let q = page_number (to_physical a) in
    if a == 0
    then (none, record t { mem = k })
    else (some q, record { mem = k; word = put_word (clear_words t.word q) f i (q * 4096 + 7) })

-- One level of `walkpml4`: the table that entry `i` of table `f` links to.
unfoldable pub next_table : (alloc : Bool) → (f i : ℕ) → Tables → Option ℕ × Tables
next_table alloc f i t =
    if is_present (t.word f i)
    then (some (entry_page (t.word f i)), t)
    else if alloc
    then new_table f i t
    else (none, t)

-- `walkpml4` from a table of the level on, which is 3 for the whole walk; the result is the page and the
-- index of the entry.
unfoldable pub walk_levels : (alloc : Bool) → (level f vpn : ℕ) → Tables → Option (ℕ × ℕ) × Tables
walk_levels alloc zero f vpn t = (some (f, index 0 vpn), t)
walk_levels alloc (suc level) f vpn t =
    let (o, t1) = next_table alloc f (index (suc level) vpn) t in
    elim o [ none ↦ (none, t1) | some g ↦ walk_levels alloc level g vpn t1 ]

-- The index macros see 48 bits of the address.
unfoldable pub walkpml4 : (pml4 va : ℕ) → (alloc : Bool) → Tables → Option (ℕ × ℕ) × Tables
walkpml4 pml4 va alloc t = walk_levels alloc 3 pml4 (va / 4096 % 2 ^ 36) t

-- `PTE(phy_pn << PT_SHIFT, perm)` for permission bits below 2 ^ 12.
abbrev pub make_entry : (ppn perm : ℕ) → ℕ
make_entry ppn perm = ppn * 4096 % 2 ^ 64 + perm

abbrev pub mark_unless : (kern : Bool) → (pa va : ℕ) → Kmem → Outcome Kmem
mark_unless kern pa va k = if kern then done k else mark_user_mem pa va k

-- One round of `mappages`; it never comes to -1, since the panic stands before it.
unfoldable pub map_page : (pml4 vpn ppn perm : ℕ) → (kern : Bool) → Tables → Outcome Tables
map_page pml4 vpn ppn perm kern t =
    let (o, t1) = walkpml4 pml4 (vpn * 4096 % 2 ^ 64) true t in
    elim o [
      | none ↦ panic
      | some (f, i) ↦
          if is_present (t1.word f i)
          then panic
          else mark_unless kern (ppn * 4096 % 2 ^ 64) (vpn * 4096 % 2 ^ 64) t1.mem
            >>= (λ k. done (record { mem = k; word = put_word t1.word f i (make_entry ppn perm) }))
    ]

unfoldable pub mappages : (pml4 vpn num_page ppn perm : ℕ) → (kern : Bool) → Tables → Outcome Tables
mappages pml4 vpn zero ppn perm kern t = done t
mappages pml4 vpn (suc n) ppn perm kern t =
    map_page pml4 vpn ppn perm kern t >>= (λ t1. mappages pml4 (vpn + 1) n (ppn + 1) perm kern t1)

-- `setupkvm`: 0 without a page for the top table. `data_start` is the linker's symbol `data`; the four ranges
-- are those of `kmap`, with PTE_P added to PTE_W or nothing.
unfoldable pub setupkvm : (data_start : ℕ) → Tables → Outcome (Option ℕ × Tables)
setupkvm data_start t =
    let (a, k) = zeroed_page t.mem in
    let q = page_number (to_physical a) in
    let start = to_physical data_start in
    if a == 0
    then done (none, record t { mem = k })
    else mappages q (kern_base / 4096) 256 0 3 true
        (record { mem = k; word = clear_words t.word q })
      >>= (λ t1.
          mappages q ((kern_base + 0x100000) / 4096) ((start - 0x100000) / 4096) 256 1 true t1
          >>= (λ t2.
              mappages q (data_start / 4096) ((k.npages * 4096 - start) / 4096) (start / 4096) 3
                true t2
              >>= (λ t3.
                  mappages q (0xFFFFFFFFFE000000 / 4096) 0x2000 0xFE000 3 true t3
                  >>= (λ t4. done (some q, t4)))))

-- PGADDR with a last digit and an offset of 0.
abbrev pub page_address : (l4 l3 d : ℕ) → ℕ
page_address l4 l3 d = bit_or (bit_or (l4 * 2 ^ 39) (l3 * 2 ^ 30)) (d * 2 ^ 21)

-- `find_next_possible_page`: the last page that the missing table would have covered.
unfoldable pub find_next_possible_page : (pml4 va : ℕ) → Words → Outcome ℕ
find_next_possible_page pml4 va w =
    let vpn = va / 4096 % 2 ^ 36 in
    let e4 = w pml4 (index 3 vpn) in
    let e3 = w (entry_page e4) (index 2 vpn) in
    let e2 = w (entry_page e3) (index 1 vpn) in
    if not (is_present e4)
    then done (sub64 (page_address (index 3 vpn + 1) 0 0) 4096)
    else if not (is_present e3)
    then done (sub64 (page_address (index 3 vpn) (index 2 vpn + 1) 0) 4096)
    else if not (is_present e2)
    then done (sub64 (page_address (index 3 vpn) (index 2 vpn) (index 1 vpn + 1)) 4096)
    else panic

-- The page that an entry of `deallocuvm` maps is given back.
unfoldable pub drop_entry : (f i : ℕ) → Tables → Outcome Tables
drop_entry f i t =
    let ppn = entry_page (t.word f i) in
    if not (is_present (t.word f i))
    then done t
    else if ppn == 0
    then panic
    else kfree (to_virtual (ppn * 4096)) t.mem
      >>= (λ k. done (record { mem = k; word = put_word t.word f i 0 }))

-- The loop of `deallocuvm`, with `rounds` as fuel.
unfoldable pub dealloc_loop : (rounds pml4 a end : ℕ) → Tables → Outcome Tables
dealloc_loop zero pml4 a end t = hang
dealloc_loop (suc rounds) pml4 a end t =
    let round : Outcome Tables = elim (walkpml4 pml4 a false t).0 [
      | none ↦
          find_next_possible_page pml4 a t.word
          >>= (λ b. dealloc_loop rounds pml4 (add64 b 4096) end t)
      | some (f, i) ↦ drop_entry f i t >>= (λ t1. dealloc_loop rounds pml4 (add64 a 4096) end t1)
    ] in
    if ltb a end then round else done t

-- One round for each page is enough if no round leads back. The result, the new size, is left out.
unfoldable pub deallocuvm : (pml4 start oldsz newsz : ℕ) → Tables → Outcome Tables
deallocuvm pml4 start oldsz newsz t =
    if leb oldsz newsz
    then done t
    else dealloc_loop (oldsz / 4096 + 2) pml4 (page_round_up (add64 start newsz))
        (add64 start oldsz) t

-- The table at page `f`, with `i` entries left to look at, and the tables below it.
unfoldable pub free_entries : (level f i : ℕ) → Words → Kmem → Outcome Kmem
free_entries level f zero w k = done k
free_entries zero f (suc i) w k = done k
free_entries (suc level) f (suc i) w k = free_entries (suc level) f i w k >>= (λ k1.
    if is_present (w f i)
    then free_entries level (entry_page (w f i)) 512 w k1
      >>= (λ k2. kfree (to_virtual (entry_page (w f i) * 4096)) k2)
    else done k1)

-- `freevm`: `freevm_pdpt` frees the tables of level 2 down, `freevm_pgdir` those of level 1, whose own entries it
-- does not look at.
unfoldable pub freevm : (pml4 : ℕ) → Tables → Outcome Tables
freevm pml4 t = deallocuvm pml4 0 (2 ^ 32) 0 t >>= (λ t1.
    free_entries 3 pml4 512 t1.word t1.mem
    >>= (λ k. kfree (to_virtual (pml4 * 4096)) k >>= (λ k1. done (record t1 { mem = k1 }))))

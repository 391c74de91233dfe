-- ===== src/Kalloc.antt =====
-- The physical page allocator, kernel/kalloc.c: the core map, the two counters and the contents of
-- the page frames. Each routine that takes `kmem.lock` is one step here: the lock is taken on entry
-- and given back on every way out.
pub mod Entries
pub mod Invariant
pub mod Allocation
pub mod Free
pub mod RoundTrip
use uw_cse451_operating_syst.Base.{
  ℕ, zero, suc, ◌+◌, ◌-◌, ◌*◌, ◌/◌, ◌%◌, ◌^◌, ◌≡◌, Bool, true, false, ◌||◌, not, Option, none, some,
  List, [], ◌∷◌, min, max, ltb, leb, ◌==◌, if◌then◌else◌, get_elem?, replicate,
}
use uw_cse451_operating_syst.Base.Int.{ℤ, pos, ◌+ℤ◌, ◌-ℤ◌}
use uw_cse451_operating_syst.Base.Outcome.{Outcome, done, panic, hang, ◌>>=◌}
use uw_cse451_operating_syst.Base.Machine.{
  add64, sub64, int_to_u64, page_size, kern_base, to_physical, to_virtual, page_number,
  page_round_up,
}

-- `struct core_map_entry`
pub record CoreMapEntry : Type 0 where
  pub available : ℕ
  pub user : ℕ
  pub va : ℕ
  pub ref_count : ℕ

-- The globals of kalloc.c. `kernel_end` is the linker's symbol `_end`; `frame` holds the bytes of
-- each page frame, by page number and offset.
pub record Kmem : Type 0 where
  pub core_map : List CoreMapEntry
  pub npages : ℕ
  pub pages_in_use : ℤ
  pub pages_in_swap : ℤ
  pub free_pages : ℤ
  pub kernel_end : ℕ
  pub frame : ℕ → ℕ → ℕ

abbrev pub update_frame : (ℕ → ℕ → ℕ) → ℕ → (ℕ → ℕ) → ℕ → ℕ → ℕ
update_frame f i bytes j = if i == j then bytes else f j

-- `pa2page`: the index of the entry, or a panic past the last page.
unfoldable pub pa2page : Kmem → ℕ → Outcome ℕ
pa2page k pa = if leb k.npages (page_number pa) then panic else done (page_number pa)

-- `page2pa` of the entry at index `i`
abbrev pub page2pa : ℕ → ℕ
page2pa i = i * 4096

-- `(uint64_t)(npages * PGSIZE)`: the product is of type `int`.
unfoldable pub memory_size : Kmem → ℕ
memory_size k = int_to_u64 (k.npages * 4096)

-- The entry of page `i` is rewritten in place.
abbrev pub modify : List CoreMapEntry → ℕ → (CoreMapEntry → CoreMapEntry) → List CoreMapEntry
modify [] i f = []
modify (e ∷ es) zero f = f e ∷ es
modify (e ∷ es) (suc i) f = e ∷ modify es i f

abbrev pub decrement : CoreMapEntry → CoreMapEntry
decrement e = record e { ref_count = e.ref_count - 1 }

abbrev pub clear_entry : CoreMapEntry → CoreMapEntry
clear_entry e = record { available = 1; user = 0; va = 0; ref_count = 0 }

-- The part of `kfree` after the argument check, for the entry `e` at index `i`.
unfoldable pub free_page : ℕ → CoreMapEntry → Kmem → Kmem
free_page i e k =
    let lower = if ltb 0 e.ref_count then e.ref_count - 1 else e.ref_count in
    if lower == 0
    then record k {
      pages_in_use = k.pages_in_use -ℤ pos 1;
      free_pages = k.free_pages +ℤ pos 1;
      frame = update_frame k.frame i (λ _. 2);
      core_map = modify k.core_map i clear_entry;
    }
    else record k { core_map = modify k.core_map i (λ f. record f { ref_count = lower }) }

-- The argument check of `kfree`.
unfoldable pub bad_free : Kmem → ℕ → Bool
bad_free k v = not (v % 4096 == 0) || ltb v k.kernel_end || leb (memory_size k) (to_physical v)

unfoldable pub kfree : ℕ → Kmem → Outcome Kmem
kfree v k =
    if bad_free k v
    then panic
    else pa2page k (to_physical v) >>= λ i. elim (get_elem? k.core_map i) [
      | none ↦ panic
      | some e ↦ done (free_page i e k)
    ]

-- The loop of `kalloc`: the first entry below `n` that is available, counted from `i`.
unfoldable pub find_available : List CoreMapEntry → ℕ → ℕ → Option ℕ
find_available es zero i = none
find_available [] (suc n) i = none
find_available (e ∷ es) (suc n) i =
    let rest = find_available es n (i + 1) in if e.available == 1 then some i else rest

abbrev pub take_entry : CoreMapEntry → CoreMapEntry
take_entry e = record e { available = 0; ref_count = 1 }

unfoldable pub claim_page : ℕ → Kmem → Kmem
claim_page i k = record k {
  core_map = modify k.core_map i take_entry;
  pages_in_use = k.pages_in_use +ℤ pos 1;
  free_pages = k.free_pages -ℤ pos 1;
}

-- `kalloc`: the kernel address of the page, or 0.
unfoldable pub kalloc : Kmem → ℕ × Kmem
kalloc k = elim (find_available k.core_map k.npages 0) [
  | none ↦ (0, k)
  | some i ↦ (to_virtual (page2pa i), claim_page i k)
]

unfoldable pub mark_user_mem : ℕ → ℕ → Kmem → Outcome Kmem
mark_user_mem pa va k = pa2page k pa >>= λ i.
    done (record k { core_map = modify k.core_map i (λ e. record e { user = 1; va = va }) })

unfoldable pub mark_kernel_mem : ℕ → Kmem → Outcome Kmem
mark_kernel_mem pa k = pa2page k pa >>= λ i.
    done (record k { core_map = modify k.core_map i (λ e. record e { user = 0; va = 0 }) })

-- The loop of `freerange`, with the number of rounds left as fuel.
unfoldable pub freerange_loop : ℕ → (p vend : ℕ) → Kmem → Outcome Kmem
freerange_loop zero p vend k = hang
freerange_loop (suc n) p vend k =
    let round = kfree p k >>= λ k'. freerange_loop n (add64 p page_size) vend k' in
    if leb (add64 p page_size) vend then round else done k

unfoldable pub freerange : (vstart vend : ℕ) → Kmem → Outcome Kmem
freerange vstart vend k =
    let p = page_round_up vstart in freerange_loop (suc ((vend - p) / page_size)) p vend k

abbrev zero_entry : CoreMapEntry
zero_entry = record { available = 0; user = 0; va = 0; ref_count = 0 }

-- `mem_init`: the core map lies at `vstart` (24 bytes an entry), and what follows it is freed.
unfoldable pub mem_init : ℕ → Kmem → Outcome Kmem
mem_init vstart k =
    let start = add64 vstart (page_round_up (k.npages * 24)) in
    let vend = to_virtual (memory_size k) in
    freerange start vend (record k { core_map = replicate k.npages zero_entry }) >>= λ k'.
    done (record k' {
      free_pages = pos (sub64 vend start / page_size);
      pages_in_use = pos 0;
      pages_in_swap = pos 0;
    })

-- `detect_memory` over the memory map that the boot loader left: addresses and lengths.
unfoldable pub highest_address : List (ℕ × ℕ) → ℕ → ℕ → ℕ
highest_address [] mem_max mem = mem
highest_address ((addr, len) ∷ es) mem_max mem =
    highest_address es mem_max (if leb mem_max addr then mem else max mem (add64 addr len))

unfoldable pub detect_memory : List (ℕ × ℕ) → ℕ
unfolding highest_address
detect_memory entries =
    let mem_max = sub64 0 kern_base in
    let mem = min (highest_address entries mem_max 0) mem_max in mem / page_size

-- `rand` over the seed `next`, an `unsigned long`.
unfoldable pub next_seed : ℕ → ℕ
next_seed seed = (seed * 1103515245 + 12345) % 2 ^ 64

unfoldable pub rand : ℕ → ℕ → ℕ × ℕ
unfolding next_seed
rand limit seed = let s = next_seed seed in (s / 65536 % 2 ^ 32 % limit, s)

-- `get_random_user_page`: up to `tries` draws, then a panic. The result is the page's index.
unfoldable pub random_user_page : ℕ → Kmem → ℕ → Outcome (ℕ × ℕ)
unfolding rand
random_user_page zero k seed = panic
random_user_page (suc tries) k seed =
    let (i, s) = rand k.npages seed in
    let rest = random_user_page tries k s in
    elim (get_elem? k.core_map i) [
      | none ↦ panic
      | some e ↦ if e.va == 0 then rest else done (i, s)
    ]

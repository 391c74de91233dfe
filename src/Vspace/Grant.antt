-- ===== src/Vspace/Grant.antt =====
-- The fault on a shared page: what `trap` gives a process that writes to a page it has only for reading.
use uw_cse451_operating_syst.Base.{
  ◌||◌, ℕ, ◌+◌, ◌-◌, ◌*◌, ◌^◌, ◌<◌, ◌≡◌, ◌≢◌, inl, inr, refl, sym, ap, ◌∙◌, Bool, true, false, not,
  some, arith, ◌==◌, ltb, if◌then◌else◌, get_elem?, Bool-cases, Option-cases,
}
use uw_cse451_operating_syst.Base.Outcome.{done, >>=-eq-done}
use uw_cse451_operating_syst.Base.Machine.{to_virtual, to_physical, page_number}
use uw_cse451_operating_syst.Kalloc.{
  pa2page, page2pa, update_frame, Kmem, CoreMapEntry, kalloc, claim_page, modify, decrement,
}
use uw_cse451_operating_syst.Kalloc.Allocation.{Allocated, kalloc-cases}
use uw_cse451_operating_syst.Kalloc.Invariant.{IsWellFormed}
use uw_cse451_operating_syst.Vspace.{PageInfo}
use uw_cse451_operating_syst.Vspace.Cow.{served, copy_on_write, cow_fault, own_info, writable_info}
use uw_cse451_operating_syst.Vspace.Counts.{IsShared, IsShared-eq, stands_for}
use uw_cse451_operating_syst.Vspace.Copy.{pa2page-ppn}
use uw_cse451_operating_syst.Vspace.Moves.{decrement-IsShared, alloc-IsShared, free_page-no_infos}

-- What the process gets: an info `j` in place of `i` for a page with the same bytes, which it may write
-- and which no other info stands for; no other page has changed, and the owners are counted.
pub record Granted (k k1 : Kmem) (i j : PageInfo) (others : ℕ → ℕ) : Type 0 where
  pub used : j.used ≡ true
  pub writable : j.writable ≡ true
  pub not_shared : j.cow_page ≡ false
  pub bytes : k1.frame j.ppn ≡ k.frame i.ppn
  pub untouched : (d : ℕ) → j.ppn ≢ d → k1.frame d ≡ k.frame d
  pub alone : others j.ppn ≡ 0
  pub owners : IsShared k1 (λ d. stands_for j d + others d)

Granted-eq :
    (k : Kmem) (i : PageInfo) (others : ℕ → ℕ) (j j1 : PageInfo) (k1 k2 : Kmem)
    → Granted k k1 i j others
    → j ≡ j1
    → k1 ≡ k2
    → Granted k k2 i j1 others
Granted-eq k i others j j1 k1 k2 h ej ek = rw⁻¹ (ej, ek) h

-- The state after page `q` was taken and got the bytes of page `i.ppn`.
abbrev pub copied_state : Kmem → (q : ℕ) → PageInfo → Kmem
copied_state k q i = record k {
  frame = update_frame k.frame q (k.frame i.ppn);
  core_map = modify k.core_map i.ppn decrement;
}

page_of_address :
    (q n : ℕ) → q < n → n < 2 ^ 19 → page_number (to_physical (to_virtual (page2pa q))) ≡ q
page_of_address q n h l = ground arith

address_nonzero : (q n : ℕ) → q < n → n < 2 ^ 19 → to_virtual (page2pa q) == 0 ≡ false
address_nonzero q n h l = ground arith

pub copy_on_write-run :
    (k : Kmem) (i : PageInfo) (q : ℕ)
    → IsWellFormed k
    → Allocated k q
    → copy_on_write i i.ppn k ≡ served (own_info q) (copied_state (claim_page q k) q i)
unfolding copy_on_write
copy_on_write-run k i q w a =
    rw
      (
        a.address,
        a.state,
        address_nonzero q k.npages a.found.below w.small,
        page_of_address q k.npages a.found.below w.small,
      )
      refl

-- The owner of the old page has become one of the new page.
moved_count :
    (m p q d : ℕ) (u : Bool)
    → u ≡ true
    → (if u then if p == d then 1 else 0 else 0)
        + m
        + (if q == d then 1 else 0)
        - (if p == d then 1 else 0)
      ≡ (if q == d then 1 else 0) + m
moved_count m p q d u h = rw h (omega arith)

copied_state-Granted :
    (k : Kmem) (i : PageInfo) (others : ℕ → ℕ) (q : ℕ)
    → Allocated k q
    → i.used ≡ true
    → IsShared k (λ d. stands_for i d + others d)
    → Granted k (copied_state (claim_page q k) q i) i (own_info q) others
unfolding claim_page
copied_state-Granted k i others q a u s =
    let free : a.found.entry.available ≡ 1 = a.found.free in
    let no_infos = free_page-no_infos k _ q a.found.entry s a.found.here free in
    let more = alloc-IsShared k _ q a s in
    let moved =
      decrement-IsShared (kalloc k).1 (copied_state (claim_page q k) q i) _ i.ppn (rw a.state refl)
        more in
    record {
      used = refl;
      writable = refl;
      not_shared = refl;
      bytes = ground arith;
      untouched = (λ d ne. ground arith);
      alone = omega (arith, no_infos);
      owners =
          IsShared-eq (copied_state (claim_page q k) q i) _ _
            (λ d. moved_count (others d) i.ppn q d i.used u) moved;
    }

copy_on_write-Granted :
    (k k1 : Kmem) (i j : PageInfo) (others : ℕ → ℕ)
    → IsWellFormed k
    → i.used ≡ true
    → IsShared k (λ d. stands_for i d + others d)
    → copy_on_write i i.ppn k ≡ served j k1
    → Granted k k1 i j others
unfolding copy_on_write
copy_on_write-Granted k k1 i j others w u s h = elim (kalloc-cases k) [
  | inl (e, run) ↦ cc (rw (copy_on_write, run) at h)
  | inr (q, a) ↦
      let same : served (own_info q) (copied_state (claim_page q k) q i) ≡ served j k1 =
        sym (copy_on_write-run k i q w a) ∙ h in
      Granted-eq k i others (own_info q) j (copied_state (claim_page q k) q i) k1
        (copied_state-Granted k i others q a u s) (cc same) (cc same)
]

-- The last owner of a page keeps it.
last_owner-Granted :
    (k : Kmem) (i : PageInfo) (others : ℕ → ℕ) (e : CoreMapEntry)
    → i.used ≡ true
    → get_elem? k.core_map i.ppn ≡ some e
    → e.ref_count ≡ 1
    → IsShared k (λ d. stands_for i d + others d)
    → Granted k k i (writable_info i) others
last_owner-Granted k i others e u g one s =
    let n1 : stands_for i i.ppn ≡ 1 = rw u (ground arith) in
    let (e1, g1, av, r) = s i.ppn (omega arith) in
    let same : e1 ≡ e = cc (g1, g) in
    let count = ap {A = CoreMapEntry} (λ x. x.ref_count) same in
    record {
      used = u;
      writable = refl;
      not_shared = refl;
      bytes = refl;
      untouched = (λ d ne. refl);
      alone = omega arith;
      owners = s;
    }

-- A process that faults on a page it has only for reading, since it is copied on write, gets an info for
-- the same bytes that it may write, for a page of which no other info stands, with every owner counted
-- and no other page changed, provided that the owners were counted before.
pub cow_fault-Granted :
    (k k1 : Kmem) (i j : PageInfo) (others : ℕ → ℕ)
    → IsWellFormed k
    → i.used ≡ true
    → IsShared k (λ d. stands_for i d + others d)
    → cow_fault i k ≡ done (served j k1)
    → Granted k k1 i j others
unfolding cow_fault
cow_fault-Granted k k1 i j others w u s h =
    let (d, run, rest) = >>=-eq-done (pa2page k (i.ppn * 4096)) _ h in
    let at : d ≡ i.ppn = pa2page-ppn k i.ppn d run in
    elim (Option-cases (get_elem? k.core_map d)) [
      | inl g ↦ cc (rw g at rest)
      | inr (e, g) ↦ elim (Bool-cases (not i.cow_page || i.writable)) [
        | inl b ↦ cc (rw (g, b) at rest)
        | inr b ↦ elim (Bool-cases (ltb 1 e.ref_count)) [
          | inl m ↦
              let same : copy_on_write i d k ≡ served j k1 = cc (rw (g, b, m) at rest) in
              copy_on_write-Granted k k1 i j others w u s
                (ap (λ x. copy_on_write i x k) (sym at) ∙ same)
          | inr m ↦ elim (Bool-cases (e.ref_count == 1)) [
            | inl o ↦
                let same : served (writable_info i) k ≡ served j k1 =
                  cc (rw (g, b, m, o) at rest) in
                Granted-eq k i others (writable_info i) j k k1
                  (last_owner-Granted k i others e u (ap (λ x. get_elem? k.core_map x) (sym at) ∙ g)
                    (ground arith) s)
                  (cc same) (cc same)
            | inr o ↦ cc (rw (g, b, m, o) at rest)
          ]
        ]
      ]
    ]

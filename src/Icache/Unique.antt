-- ===== src/Icache/Unique.antt =====
-- No inode stands in two slots of the cache.
use uw_cse451_operating_syst.Base.{
  ℕ, ◌<◌, ◌≡◌, ◌≢◌, ◌⊎◌, inl, inr, refl, sym, ap, ◌∙◌, true, false, Option, none, some, arith, ◌==◌,
  ℕ-cases,
}
use uw_cse451_operating_syst.Icache.{
  scan, fill, add_ref, InodeFile, Icache, Inode, is_cached, iget, put,
}
use uw_cse451_operating_syst.Icache.Search.{
  search-absent, search-empty, true-is_cached, search-found, is_cached-true,
}
use uw_cse451_operating_syst.Base.Outcome.{done}

abbrev pub IsUnique : Icache → Type 0
IsUnique c =
    (i j dev inum : ℕ)
    → i < 50
    → j < 50
    → is_cached (c i) dev inum ≡ true
    → is_cached (c j) dev inum ≡ true
    → i ≡ j

pub put_self : (c : Icache) (i j : ℕ) (ip : Inode) → i ≡ j → put c i ip j ≡ ip
put_self c i j ip h = let t : i == j ≡ true = ground arith in rw t

pub put-other : (c : Icache) (i j : ℕ) (ip : Inode) → i == j ≡ false → put c i ip j ≡ c j
put-other c i j ip h = rw h

put-is_cached :
    (c : Icache) (i : ℕ) (ip : Inode) (dev inum l : ℕ)
    → (is_cached ip dev inum ≡ true → is_cached (c i) dev inum ≡ true)
    → is_cached (put c i ip l) dev inum ≡ true
    → is_cached (c l) dev inum ≡ true
put-is_cached c i ip dev inum l hip h = elim (ℕ-cases i l) [
  | inl e ↦
      ap (λ k. is_cached (c k) dev inum) (sym e)
      ∙ hip (sym (ap (λ x. is_cached x dev inum) (put_self c i l ip e)) ∙ h)
  | inr ne ↦ sym (ap (λ x. is_cached x dev inum) (put-other c i l ip ne)) ∙ h
]

-- A change of one slot that lets it stand for no other inode than it stood for.
put-IsUnique :
    (c : Icache) (i : ℕ) (ip : Inode)
    → ((dev inum : ℕ) → is_cached ip dev inum ≡ true → is_cached (c i) dev inum ≡ true)
    → IsUnique c
    → IsUnique (put c i ip)
put-IsUnique c i ip hip u j k dev inum hj hk cj ck =
    u j k dev inum hj hk (put-is_cached c i ip dev inum j (hip dev inum) cj)
      (put-is_cached c i ip dev inum k (hip dev inum) ck)

-- A slot that comes to stand for an inode that no slot stood for.
fresh-IsUnique :
    (c : Icache) (i : ℕ) (ip : Inode)
    → ((k : ℕ) → k < 50 → is_cached (c k) ip.dev ip.inum ≡ false)
    → IsUnique c
    → IsUnique (put c i ip)
fresh-IsUnique c i ip absent u j k dev inum hj hk cj ck = elim (ℕ-cases i j) [
  | inl ij ↦ elim (ℕ-cases i k) [
    | inl ik ↦ sym ij ∙ ik
    | inr nk ↦ absurd (clash j k ij nk hk cj ck)
  ]
  | inr nj ↦ elim (ℕ-cases i k) [
    | inl ik ↦ absurd (clash k j ik nj hj ck cj)
    | inr nk ↦
        u j k dev inum hj hk (sym (ap (λ x. is_cached x dev inum) (put-other c i j ip nj)) ∙ cj)
          (sym (ap (λ x. is_cached x dev inum) (put-other c i k ip nk)) ∙ ck)
  ]
]
  where
    clash :
        (a b : ℕ)
        → i ≡ a
        → i == b ≡ false
        → b < 50
        → is_cached (put c i ip a) dev inum ≡ true
        → is_cached (put c i ip b) dev inum ≡ true
        → ⊥
    clash a b ia nb hb ca cb =
        let here = sym (ap (λ x. is_cached x dev inum) (put_self c i a ip ia)) ∙ ca in
        let (r, s, ed, en) = is_cached-true ip dev inum here in
        let there = sym (ap (λ x. is_cached x dev inum) (put-other c i b ip nb)) ∙ cb in
        let not_there = absent b hb in cc (not_there, there)

search-cases :
    (s : ℕ ⊎ Option ℕ) → ((k : ℕ) × (s ≡ inl k)) ⊎ ((s ≡ inr none) ⊎ ((k : ℕ) × (s ≡ inr (some k))))
search-cases (inl k) = inl (k, refl)
search-cases (inr none) = inr (inl refl)
search-cases (inr (some k)) = inr (inr (k, refl))

-- `iget` returns a slot that already stands for the inode, with one more reference, or fills a slot
-- without references when no slot stands for it; or it panics.
pub data Got (disk : InodeFile) (c : Icache) (dev inum i : ℕ) (c1 : Icache) : Type 0 where
  cached : is_cached (c i) dev inum ≡ true → c1 ≡ put c i (add_ref (c i)) → Got disk c dev inum i c1
  filled :
      ((k : ℕ) → k < 50 → is_cached (c k) dev inum ≡ false)
      → (c i).ref ≡ 0
      → (disk inum).type ≢ 0
      → c1 ≡ put c i (fill (c i) (disk inum) dev inum)
      → Got disk c dev inum i c1

-- When `iget` returns a slot, it is one of the table, and it already stood for the inode and has one more
-- reference, or no slot stood for the inode and one without references was filled from the disk.
pub iget-Got :
    (disk : InodeFile) (c c1 : Icache) (dev inum i : ℕ)
    → iget disk c dev inum ≡ done (i, c1)
    → (i < 50) × Got disk c dev inum i c1
unfolding iget
iget-Got disk c c1 dev inum i h = elim (search-cases (scan c dev inum 50 0 none)) [
  | inl (k, e) ↦
      let got : done (k, put c k (add_ref (c k))) ≡ done (i, c1) = rw (e, iget) at h in
      let ki : k ≡ i = cc got in
      let (a, b, g) = search-found c dev inum 50 0 none k e in
      (omega arith, cached (rw ki at g) (sym (cc got) ∙ ap (λ l. put c l (add_ref (c l))) ki))
  | inr (inl e) ↦ cc (rw (e, iget) at h)
  | inr (inr (k, e)) ↦ elim (ℕ-cases (disk inum).type 0) [
    | inl z ↦ let t : (disk inum).type == 0 ≡ true = ground arith in cc (rw (e, t, iget) at h)
    | inr nz ↦
        let got : done (k, put c k (fill (c k) (disk inum) dev inum)) ≡ done (i, c1) =
          rw (e, nz, iget) at h in
        let ki : k ≡ i = cc got in
        let (a, b) = search-empty c dev inum 50 0 none k (λ j hj. cc hj) e in
        (
          omega arith,
          filled
              (λ j hj. search-absent c dev inum 50 0 none (some k) e j (omega arith) (omega arith))
              (rw ki at b) (ground arith)
              (sym (cc got) ∙ ap (λ l. put c l (fill (c l) (disk inum) dev inum)) ki),
        )
  ]
]

-- `iget` keeps each inode in at most one slot.
pub iget-IsUnique :
    (disk : InodeFile) (c c1 : Icache) (dev inum i : ℕ)
    → iget disk c dev inum ≡ done (i, c1)
    → IsUnique c
    → IsUnique c1
iget-IsUnique disk c c1 dev inum i h u = elim ((iget-Got disk c c1 dev inum i h).1) [
  | cached here e ↦ rw e (
      put-IsUnique c i (add_ref (c i))
        (λ dev2 inum2 g.
          let (r, t, ed, en) = is_cached-true (c i) dev inum here in
          let (r2, t2, ed2, en2) = is_cached-true (add_ref (c i)) dev2 inum2 g in
          true-is_cached (c i) dev2 inum2 r t ed2 en2)
        u)
  | filled absent z t e ↦ rw e (fresh-IsUnique c i (fill (c i) (disk inum) dev inum) absent u)
]

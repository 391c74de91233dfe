-- ===== src/Icache/References.antt =====
-- The reference counts of the inode cache, and its locks.
use uw_cse451_operating_syst.Base.{
  ℕ, ◌+◌, ◌-◌, ◌%◌, ◌^◌, ◌<◌, ◌≡◌, ◌≢◌, inl, inr, refl, sym, ap, ◌∙◌, true, false, none, some,
  arith, ◌==◌, Bool-cases, Option-cases, ℕ-cases,
}
use uw_cse451_operating_syst.Icache.{
  load, is_referenced, fill, unlocki, locki, add_ref, InodeFile, Icache, Inode, iget, irelease,
  idup, put,
}
use uw_cse451_operating_syst.Icache.Unique.{put-other, put_self, filled, cached, iget-Got}
use uw_cse451_operating_syst.Base.Outcome.{done}
use uw_cse451_operating_syst.Icache.Search.{is_cached-true}

-- Dropping the reference of slot `i` that a change of this slot has added.
drop-put :
    (c : Icache) (i : ℕ) (ip : Inode)
    → (ip.ref + (2 ^ 32 - 1)) % 2 ^ 32 ≡ (c i).ref
    → (j : ℕ) → (irelease (put c i ip) i j).ref ≡ (c j).ref
unfolding irelease
drop-put c i ip h j = elim (ℕ-cases i j) [
  | inl e ↦
      let t : i == j ≡ true = ground arith in
      let self : i == i ≡ true = ground arith in rw (t, self) (h ∙ ap (λ k. (c k).ref) e)
  | inr ne ↦ rw ne
]

-- `irelease` after `iget` gives every slot the number of references that it had before.
pub irelease-iget :
    (disk : InodeFile) (c c1 : Icache) (dev inum i : ℕ)
    → iget disk c dev inum ≡ done (i, c1)
    → (j : ℕ) → (irelease c1 i j).ref ≡ (c j).ref
irelease-iget disk c c1 dev inum i h j = elim ((iget-Got disk c c1 dev inum i h).1) [
  | cached here e ↦
      let (r, t, ed, en) = is_cached-true (c i) dev inum here in
      rw e (drop-put c i (add_ref (c i)) (omega arith) j)
  | filled absent z t e ↦ rw e (drop-put c i (fill (c i) (disk inum) dev inum) (omega arith) j)
]

-- `irelease` after `idup` leaves all the reference counts as they were. The count is a 32-bit word.
pub irelease-idup :
    (c : Icache) (i : ℕ) → (c i).ref < 2 ^ 32 → (j : ℕ) → (irelease (idup c i) i j).ref ≡ (c j).ref
unfolding idup
irelease-idup c i h j = drop-put c i (add_ref (c i)) (omega arith) j

-- What `locki` has done when it comes back.
pub record Locked (c : Icache) (pid i : ℕ) (c1 : Icache) (ip : Inode) : Type 0 where
  pub stored : c1 ≡ put c i ip
  pub was_free : (c i).holder ≡ none
  pub referenced : is_referenced ip.ref ≡ true
  pub holder : ip.holder ≡ some pid
  pub valid : ip.valid ≡ true
  pub ref : ip.ref ≡ (c i).ref

locki-Locked :
    (disk : InodeFile) (c c1 : Icache) (pid i : ℕ)
    → locki disk c pid i ≡ done c1
    → (ip : Inode) × Locked c pid i c1 ip
unfolding locki
locki-Locked disk c c1 pid i h = elim (Bool-cases (is_referenced (c i).ref)) [
  | inr r ↦ cc (rw (r, locki) at h)
  | inl r ↦ elim (Option-cases (c i).holder) [
    | inr (p, e) ↦ cc (rw (r, e, locki) at h)
    | inl e ↦ elim (Bool-cases (c i).valid) [
      | inl v ↦ (
        record (c i) { holder = some pid },
        record {
          stored = sym (cc (rw (r, e, v, locki) at h));
          was_free = e;
          referenced = r;
          holder = refl;
          valid = v;
          ref = refl;
        },
      )
      | inr v ↦ elim (Bool-cases ((disk (c i).inum).type == 0)) [
        | inl z ↦ cc (rw (r, e, v, z, locki) at h)
        | inr z ↦ (
          load (record (c i) { holder = some pid }) (disk (c i).inum),
          record {
            stored = sym (cc (rw (r, e, v, z, locki) at h));
            was_free = e;
            referenced = r;
            holder = refl;
            valid = refl;
            ref = refl;
          },
        )
      ]
    ]
  ]
]

unlocki-held :
    (c : Icache) (i pid : ℕ)
    → (c i).holder ≡ some pid
    → is_referenced (c i).ref ≡ true
    → unlocki c i ≡ done (put c i (record (c i) { holder = none }))
unfolding unlocki
unlocki-held c i pid h r = rw (unlocki, h, r)

-- When `locki` comes back, the lock was free, and `unlocki` then succeeds: it frees the
-- lock, leaves a valid copy with as many references as before, and touches no other inode.
pub unlocki-locki :
    (disk : InodeFile) (c c1 : Icache) (pid i : ℕ)
    → locki disk c pid i ≡ done c1
    → (c2 : Icache) × (unlocki c1 i ≡ done c2)
      × ((c i).holder ≡ none)
      × ((c2 i).holder ≡ none)
      × ((c2 i).valid ≡ true)
      × ((c2 i).ref ≡ (c i).ref)
      × ((j : ℕ) → i ≢ j → c2 j ≡ c j)
unlocki-locki disk c c1 pid i h =
    let (ip, k) = locki-Locked disk c c1 pid i h in
    let here : c1 i ≡ ip = rw k.stored (put_self c i i ip refl) in
    let own = ap (λ x. x.holder) here ∙ k.holder in
    let referenced = ap (λ x. is_referenced x.ref) here ∙ k.referenced in
    let free : Inode = record (c1 i) { holder = none } in
    let result = put_self c1 i i free refl in
    (
      put c1 i free,
      unlocki-held c1 i pid own referenced,
      k.was_free,
      ap (λ x. x.holder) result,
      ap (λ x. x.valid) result ∙ ap (λ x. x.valid) here ∙ k.valid,
      ap (λ x. x.ref) result ∙ ap (λ x. x.ref) here ∙ k.ref,
      λ j hj.
          let ne : i == j ≡ false = ground arith in
          put-other c1 i j free ne ∙ rw k.stored (put-other c i j ip ne),
    )

-- ===== src/Files/Slots.antt =====
-- What the routines of the file table leave in a slot.
use uw_cse451_operating_syst.Base.{
  ℕ, zero, suc, ◌+◌, ◌%◌, ◌^◌, ◌≤◌, ◌<◌, ◌≡◌, ◌≢◌, ◌⊎◌, inl, inr, refl, ap, ◌∙◌, true, false, none,
  some, arith, ◌==◌, Bool-cases, Option-cases, ℕ-cases,
}
use uw_cse451_operating_syst.Base.Outcome.{done, panic}
use uw_cse451_operating_syst.Files.{
  nofile, shared, reset, opened, unshared, free_fd, nfile, is_shared, free_slot, open_in, file_of,
  put, Files, FileInfo, fileclose, filedup, fileopen, filestat,
}
use uw_cse451_operating_syst.Icache.{concurrent_stati, Icache, Stat, InodeFile}
use uw_cse451_operating_syst.Files.Count.{put-at, free_fd-some}

-- No routine but `pipe` changes whether a slot is a pipe: `fileclose` does not clear the mark.
put-is_pipe :
    (t : ℕ → FileInfo) (g h : ℕ) (f : FileInfo)
    → f.is_pipe ≡ (t g).is_pipe
    → (put t g f h).is_pipe ≡ (t h).is_pipe
put-is_pipe t g h f e = elim (ℕ-cases g h) [
  | inl gh ↦ ap (λ x. x.is_pipe) (put-at t g h f gh) ∙ e ∙ ap (λ x. (t x).is_pipe) gh
  | inr ne ↦ rw ne
]

pub fileclose-is_pipe :
    (s : Files) (fd h : ℕ) → (((fileclose s fd).1).ftable h).is_pipe ≡ (s.ftable h).is_pipe
unfolding fileclose
fileclose-is_pipe s fd h = elim (Option-cases (file_of s fd)) [
  | inl e ↦ rw (e, fileclose)
  | inr (g, e) ↦ elim (Bool-cases (is_shared (s.ftable g).ref)) [
    | inl sh ↦ rw (e, sh, fileclose) (put-is_pipe s.ftable g h (unshared (s.ftable g)) refl)
    | inr sh ↦ rw (e, sh, fileclose) (put-is_pipe s.ftable g h (reset (s.ftable g)) refl)
  ]
]

-- A file that is opened in a slot that has been a pipe is taken for a pipe: after the last close of the
-- descriptor `fd` of a pipe, the open that gets the same slot leaves it marked, with its inode in it.
pub open-close-is_pipe :
    (s : Files) (fd g ip path mode pfd : ℕ)
    → s.pftable fd ≡ some g
    → (s.ftable g).is_pipe ≡ true
    → (s.ftable g).ref ≡ 1
    → free_slot ((fileclose s fd).1).ftable nfile 0 ≡ some g
    → (s2 : Files) × (open_in (fileclose s fd).1 ip path mode pfd ≡ s2)
      × (s2.pftable pfd ≡ some g)
      × ((s2.ftable g).iptr ≡ some ip)
      × ((s2.ftable g).is_pipe ≡ true)
unfolding open_in
open-close-is_pipe s fd g ip path mode pfd at_fd p r slot =
    let s1 : Files = (fileclose s fd).1 in
    let f : FileInfo = opened (s1.ftable g) ip path mode in
    (
      record s1 { ftable = put s1.ftable g f; pftable = put s1.pftable pfd (some g) },
      rw (open_in, slot),
      put-at s1.pftable pfd pfd (some g) refl,
      ap (λ x. x.iptr) (put-at s1.ftable g g f refl),
      ap (λ x. x.is_pipe) (put-at s1.ftable g g f refl) ∙ fileclose-is_pipe s fd g ∙ p,
    )

-- `filestat` of a pipe panics: it locks the inode that a pipe does not have.
pub filestat-pipe :
    (inodes : InodeFile) (s : Files) (pid fd g : ℕ)
    → s.pftable fd ≡ some g
    → (s.ftable g).is_pipe ≡ true
    → (s.ftable g).iptr ≡ none
    → filestat inodes s pid fd ≡ panic
unfolding filestat file_of
filestat-pipe inodes s pid fd g at_fd p i = rw (filestat, file_of, at_fd, p, i)

free_slot-full :
    (t : ℕ → FileInfo) (count i : ℕ)
    → ((g : ℕ) → i ≤ g → g < i + count → (t g).ref ≢ 0)
    → free_slot t count i ≡ none
unfolding free_slot
free_slot-full t zero i h = refl
free_slot-full t (suc count) i h =
    let nz : (t i).ref ≢ 0 = h i (omega arith) (omega arith) in
    let ne : (t i).ref == 0 ≡ false = ground arith in
    rw ne (free_slot-full t count (i + 1) (λ g a b. h g (omega arith) (omega arith)))

-- When all slots of `ftable` are taken, `fileopen` still returns a descriptor: one that is free in
-- `pftable` and stays so, while the reference that `namei` has taken on the inode is kept by nobody.
pub fileopen-full :
    (inodes : InodeFile) (s : Files) (pid ip path mode pfd : ℕ) (st : Stat) (c : Icache)
    → concurrent_stati inodes s.icache pid ip ≡ done (st, c)
    → mode ≢ 3
    → free_fd s.pftable nofile 0 ≡ some pfd
    → ((g : ℕ) → g < nfile → (s.ftable g).ref ≢ 0)
    → (fileopen inodes s pid (some ip) path mode ≡ done (some pfd, record s { icache = c }))
      × (s.pftable pfd ≡ none)
unfolding fileopen open_in
fileopen-full inodes s pid ip path mode pfd st c hst hm free full =
    let m : mode == 3 ≡ false = ground arith in
    let none_free = free_slot-full s.ftable 100 0 (λ g a b. full g (omega arith)) in
    let (lo, hi, e) = free_fd-some s.pftable 16 0 pfd free in
    (rw (hst, m, free, open_in, none_free), e)

-- `filedup` of an open file returns another descriptor of the same slot, which gets one more reference,
-- and leaves the other descriptors alone; without a free descriptor it changes nothing.
pub filedup_lem :
    (s : Files) (fd g : ℕ)
    → file_of s fd ≡ some g
    → (filedup s fd ≡ (none, s))
      ⊎ ((i : ℕ) × (s1 : Files) × (filedup s fd ≡ (some i, s1))
          × (s.pftable i ≡ none)
          × (s1.pftable i ≡ some g)
          × ((s1.ftable g).ref ≡ ((s.ftable g).ref + 1) % 2 ^ 32)
          × ((j : ℕ) → i ≢ j → s1.pftable j ≡ s.pftable j))
unfolding filedup
filedup_lem s fd g e = elim (Option-cases (free_fd s.pftable 16 0)) [
  | inl e2 ↦ inl (rw (e, e2, filedup))
  | inr (i, e2) ↦
      let (lo, hi, free) = free_fd-some s.pftable 16 0 i e2 in
      inr (
        i,
        record s {
          ftable = put s.ftable g (shared (s.ftable g));
          pftable = put s.pftable i (some g);
        },
        rw (e, e2, filedup),
        free,
        put-at s.pftable i i (some g) refl,
        ap (λ x. x.ref) (put-at s.ftable g g (shared (s.ftable g)) refl),
        λ j h. let ne : i == j ≡ false = ground arith in rw ne,
      )
]

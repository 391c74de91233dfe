-- ===== src/Files/Reachable.antt =====
-- All operations of kernel/file.c as steps on the file table, in any order.
use uw_cse451_operating_syst.Base.{
  ℕ, ◌+◌, ◌<◌, ◌≡◌, inl, inr, refl, sym, ap, ◌∙◌, Option, List, ◌==◌, Bool-cases, Option-cases,
  ℕ-cases,
}
use uw_cse451_operating_syst.Base.Outcome.{done, >>=-eq-done}
use uw_cse451_operating_syst.Extents.{Superblock, DeviceRead, DeviceWrite}
use uw_cse451_operating_syst.Icache.{Icache, InodeFile}
use uw_cse451_operating_syst.Files.{Files, fileopen, filedup, fileclose, pipe}
use uw_cse451_operating_syst.Files.Io.{
  returned_word, move_offset, read_at, fileread_inode, filewrite_inode, concurrent_readi,
  concurrent_writei,
}
use uw_cse451_operating_syst.Files.Count.{count_fds, put-at}
use uw_cse451_operating_syst.Files.Invariant.{
  IsCounted, fileopen-IsCounted, filedup-IsCounted, fileclose-IsCounted,
}
use uw_cse451_operating_syst.Files.PipeEnds.{pipe-IsCounted}

-- The counts do not depend on anything but the references and the descriptors.
keep-IsCounted :
    (others : ℕ → ℕ) (s s1 : Files)
    → ((g : ℕ) → (s1.ftable g).ref ≡ (s.ftable g).ref)
    → s1.pftable ≡ s.pftable
    → IsCounted others s
    → IsCounted others s1
keep-IsCounted others s s1 hr hp k = record {
  counted = λ g hg. hr g ∙ k.counted g hg ∙ ap (λ t. count_fds t 16 g + others g) (sym hp);
  in_range = λ fd g h e. k.in_range fd g h (sym (ap (λ t. t fd) hp) ∙ e);
  bounded = k.bounded;
}

read_at-ref :
    (s : Files) (g : ℕ) (bs : Option (List ℕ)) (c : Icache) (h : ℕ)
    → ((read_at s g bs c).ftable h).ref ≡ (s.ftable h).ref
read_at-ref s g bs c h = elim (ℕ-cases g h) [
  | inl e ↦
      ap (λ x. x.ref) (put-at s.ftable g h (move_offset (s.ftable g) (returned_word bs)) e)
      ∙ ap (λ x. (s.ftable x).ref) e
  | inr ne ↦ rw ne
]

fileread_inode-IsCounted :
    (others : ℕ → ℕ) (inodes : InodeFile) (devs : DeviceRead) (s s1 : Files) (pid g n : ℕ)
    (r : Option (List ℕ))
    → fileread_inode inodes devs s pid g n ≡ done (r, s1)
    → IsCounted others s
    → IsCounted others s1
unfolding fileread_inode
fileread_inode-IsCounted others inodes devs s s1 pid g n r h k =
    elim (Option-cases (s.ftable g).iptr) [
      | inl e ↦ let same : s ≡ s1 = cc (rw (e, fileread_inode) at h) in rw⁻¹ same k
      | inr (i, e) ↦ elim (Bool-cases ((s.ftable g).access_permission == 1)) [
        | inl w ↦ let same : s ≡ s1 = cc (rw (e, w, fileread_inode) at h) in rw⁻¹ same k
        | inr w ↦
            let ((bs, c), run, last) =
              >>=-eq-done (concurrent_readi inodes devs s.disk s.icache pid i (s.ftable g).offset n)
                _ (rw (e, w, fileread_inode) at h) in
            let same : read_at s g bs c ≡ s1 = cc last in
            rw⁻¹ same (keep-IsCounted others s (read_at s g bs c) (read_at-ref s g bs c) refl k)
      ]
    ]

filewrite_inode-IsCounted :
    (others : ℕ → ℕ) (inodes : InodeFile) (devs : DeviceWrite) (sb : Superblock) (s s1 : Files)
    (pid g : ℕ) (src : List ℕ) (r : Option ℕ)
    → filewrite_inode inodes devs sb s pid g src ≡ done (r, s1)
    → IsCounted others s
    → IsCounted others s1
unfolding filewrite_inode
filewrite_inode-IsCounted others inodes devs sb s s1 pid g src r h k =
    elim (Option-cases (s.ftable g).iptr) [
      | inl e ↦ let same : s ≡ s1 = cc (rw (e, filewrite_inode) at h) in rw⁻¹ same k
      | inr (i, e) ↦ elim (Bool-cases ((s.ftable g).access_permission == 0)) [
        | inl w ↦ let same : s ≡ s1 = cc (rw (e, w, filewrite_inode) at h) in rw⁻¹ same k
        | inr w ↦
            let ((m, d1, c), run, last) =
              >>=-eq-done
                (concurrent_writei inodes devs sb s.disk s.icache pid i (s.ftable g).offset src) _
                (rw (e, w, filewrite_inode) at h) in
            let same : record s { disk = d1; icache = c } ≡ s1 = cc last in
            rw⁻¹ same
              (keep-IsCounted others s (record s { disk = d1; icache = c }) (λ x. refl) refl k)
      ]
    ]

-- What stays fixed: the inode file, the devices and the super block.
pub record Machine : Type 0 where
  pub inodes : InodeFile
  pub reads : DeviceRead
  pub writes : DeviceWrite
  pub superblock : Superblock

-- One call of an operation by the process whose table it is, when it comes back.
pub data Step (m : Machine) (s s1 : Files) : Type 0 where
  opens :
      (pid : ℕ) (iptr : Option ℕ) (path mode : ℕ) (r : Option ℕ)
      → fileopen m.inodes s pid iptr path mode ≡ done (r, s1)
      → Step m s s1
  closes : (fd : ℕ) → fd < 16 → (fileclose s fd).1 ≡ s1 → Step m s s1
  dups : (fd : ℕ) → fd < 16 → (filedup s fd).1 ≡ s1 → Step m s s1
  pipes : (r : Option (ℕ × ℕ)) → pipe s ≡ done (r, s1) → Step m s s1
  reads :
      (pid g n : ℕ) (r : Option (List ℕ))
      → fileread_inode m.inodes m.reads s pid g n ≡ done (r, s1)
      → Step m s s1
  writes :
      (pid g : ℕ) (src : List ℕ) (r : Option ℕ)
      → filewrite_inode m.inodes m.writes m.superblock s pid g src ≡ done (r, s1)
      → Step m s s1

pub data Reach (m : Machine) (s : Files) : Files → Type 0 where
  here : Reach m s s
  later : {a b : Files} → Reach m s a → Step m a b → Reach m s b

Step-IsCounted :
    (others : ℕ → ℕ) (m : Machine) (s s1 : Files)
    → Step m s s1
    → IsCounted others s
    → IsCounted others s1
Step-IsCounted others m s s1 (opens pid iptr path mode r h) k =
    fileopen-IsCounted others m.inodes s s1 pid iptr path mode r h k
Step-IsCounted others m s s1 (closes fd hfd h) k = rw⁻¹ h (fileclose-IsCounted others s fd hfd k)
Step-IsCounted others m s s1 (dups fd hfd h) k = rw⁻¹ h (filedup-IsCounted others s fd hfd k)
Step-IsCounted others m s s1 (pipes r h) k = pipe-IsCounted others s s1 r h k
Step-IsCounted others m s s1 (reads pid g n r h) k =
    fileread_inode-IsCounted others m.inodes m.reads s s1 pid g n r h k
Step-IsCounted others m s s1 (writes pid g src r h) k =
    filewrite_inode-IsCounted others m.inodes m.writes m.superblock s s1 pid g src r h k

-- After any sequence of opens, closes, dups, pipes, reads and writes that come back, each slot of
-- `ftable` has as many references as descriptors stand for it, if that was so before. No slot is held by
-- 2^31 descriptors.
pub Reach-IsCounted :
    (others : ℕ → ℕ) (m : Machine) (s s1 : Files)
    → Reach m s s1
    → IsCounted others s
    → IsCounted others s1
Reach-IsCounted others m s s1 here k = k
Reach-IsCounted others m s s1 (later {a = a} r step) k =
    Step-IsCounted others m a s1 step (Reach-IsCounted others m s a r k)

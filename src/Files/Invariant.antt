-- ===== src/Files/Invariant.antt =====
-- The reference counts of `ftable`: each is the number of descriptors that stand for the slot, those
-- of the process that runs and those of the others.
use uw_cse451_operating_syst.Base.{
  ℕ, zero, suc, ◌+◌, ◌^◌, ◌≤◌, ◌<◌, ◌≡◌, inl, inr, refl, sym, ap, ◌∙◌, true, false, Option, none,
  some, arith, ◌==◌, Bool-cases, Option-cases, ℕ-cases,
}
use uw_cse451_operating_syst.Base.Outcome.{>>=-eq-done, done}
use uw_cse451_operating_syst.Files.{
  release_inode, reset, opened, shared, unshared, is_shared, free_slot, free_fd, open_in, file_of,
  put, Files, FileInfo, fileclose, filedup, fileopen,
}
use uw_cse451_operating_syst.Files.Count.{
  put-at, free_slot-some, free_fd-some, count_fds-pos, count_fds, count_fds-put, points,
}
use uw_cse451_operating_syst.Icache.{concurrent_stati, InodeFile, Icache}

-- `others g` counts the descriptors of all other processes that stand for slot `g`.
pub record IsCounted (others : ℕ → ℕ) (s : Files) : Type 0 where
  pub counted : (g : ℕ) → g < 100 → (s.ftable g).ref ≡ count_fds s.pftable 16 g + others g
  pub in_range : (fd g : ℕ) → fd < 16 → s.pftable fd ≡ some g → g < 100
  pub bounded : (g : ℕ) → others g + 16 < 2 ^ 31

pub count_fds-le : (fds : ℕ → Option ℕ) (n g : ℕ) → count_fds fds n g ≤ n
unfolding count_fds
count_fds-le fds zero g = omega arith
count_fds-le fds (suc n) g =
    let rec = count_fds-le fds n g in
    let one : points (fds n) g ≤ 1 = points-le (fds n) g in omega arith
  where
    points-le : (o : Option ℕ) (h : ℕ) → points o h ≤ 1
    points-le none h = omega arith
    points-le (some k) h = ground arith

-- The slot of a descriptor is changed in step with the table: slot `g` gets the entry `f`, descriptor
-- `fd` the value `o`.
step-IsCounted :
    (others : ℕ → ℕ) (s s1 : Files) (g fd : ℕ) (f : FileInfo) (o : Option ℕ)
    → IsCounted others s
    → fd < 16
    → s1.ftable ≡ put s.ftable g f
    → s1.pftable ≡ put s.pftable fd o
    → ((h : ℕ) → o ≡ some h → h < 100)
    → f.ref + points (s.pftable fd) g ≡ (s.ftable g).ref + points o g
    → ((h : ℕ) → g == h ≡ false → points (s.pftable fd) h ≡ points o h)
    → IsCounted others s1
step-IsCounted others s s1 g fd f o k hfd et ep ho hg hother = record {
  counted = λ h hh.
      let change = count_fds-put s.pftable o 16 fd h hfd in
      let before = k.counted h hh in
      elim (ℕ-cases g h) [
        | inl e ↦
            let stored = ap (λ t. (t h).ref) et ∙ ap (λ x. x.ref) (put-at s.ftable g h f e) in
            let here = rw e at hg in let counts = ap (λ t. count_fds t 16 h) ep in omega arith
        | inr ne ↦
            let skip : (put s.ftable g f h).ref ≡ (s.ftable h).ref = rw ne in
            let stored = ap (λ t. (t h).ref) et ∙ skip in
            let there = hother h ne in let counts = ap (λ t. count_fds t 16 h) ep in omega arith
      ];
  in_range = λ d h hd e. elim (ℕ-cases fd d) [
    | inl eq ↦ ho h (sym (put-at s.pftable fd d o eq) ∙ sym (ap (λ t. t d) ep) ∙ e)
    | inr ne ↦
        let skip : put s.pftable fd o d ≡ s.pftable d = rw ne in
        k.in_range d h hd (sym skip ∙ sym (ap (λ t. t d) ep) ∙ e)
  ];
  bounded = k.bounded;
}

file_of-some : (s : Files) (fd g : ℕ) → file_of s fd ≡ some g → s.pftable fd ≡ some g
unfolding file_of
file_of-some s fd g h = elim (Option-cases (s.pftable fd)) [
  | inl e ↦ cc (rw (e, file_of) at h)
  | inr (k, e) ↦ elim (Bool-cases (s.ftable k).is_pipe) [
    | inl p ↦ e ∙ cc (rw (e, p, file_of) at h)
    | inr p ↦ elim (Option-cases (s.ftable k).iptr) [
      | inl i ↦ cc (rw (e, p, i, file_of) at h)
      | inr (ip, i) ↦ e ∙ cc (rw (e, p, i, file_of) at h)
    ]
  ]
]

points_self : (g : ℕ) → points (some g) g ≡ 1
points_self g = let t : g == g ≡ true = ground arith in rw t

-- A free descriptor is made to stand for slot `g`, which gets one more reference.
pub point-IsCounted :
    (others : ℕ → ℕ) (s s1 : Files) (g fd : ℕ) (f : FileInfo)
    → IsCounted others s
    → fd < 16
    → g < 100
    → s.pftable fd ≡ none
    → s1.ftable ≡ put s.ftable g f
    → s1.pftable ≡ put s.pftable fd (some g)
    → f.ref ≡ (s.ftable g).ref + 1
    → IsCounted others s1
point-IsCounted others s s1 g fd f k hfd hg free et ep hf =
    let none_g : points (s.pftable fd) g ≡ 0 = rw free in
    let one = points_self g in
    step-IsCounted others s s1 g fd f (some g) k hfd et ep
      (λ h e. let gh : g ≡ h = cc e in omega arith) (omega arith) (λ h ne. rw (free, ne))

-- `fileclose` of a descriptor that the table has keeps the counts right.
pub fileclose-IsCounted :
    (others : ℕ → ℕ) (s : Files) (fd : ℕ)
    → fd < 16
    → IsCounted others s
    → IsCounted others (fileclose s fd).1
unfolding fileclose
fileclose-IsCounted others s fd hfd k = elim (Option-cases (file_of s fd)) [
  | inl e ↦ rw (e, fileclose) k
  | inr (g, e) ↦
      let at_fd = file_of-some s fd g e in
      let hg = k.in_range fd g hfd at_fd in
      let c = k.counted g hg in
      let pos = count_fds-pos s.pftable 16 fd g hfd at_fd in
      let le = count_fds-le s.pftable 16 g in
      let b = k.bounded g in
      let one : points (s.pftable fd) g ≡ 1 = rw at_fd (points_self g) in
      let apart : (h : ℕ) → g == h ≡ false → points (s.pftable fd) h ≡ points none h =
        λ h ne. rw (at_fd, ne) in
      elim (Bool-cases (is_shared (s.ftable g).ref)) [
        | inl sh ↦
            rw (e, sh, fileclose)
              (step-IsCounted others s
                (record s {
                  ftable = put s.ftable g (unshared (s.ftable g));
                  pftable = put s.pftable fd none;
                })
                g fd (unshared (s.ftable g)) none k hfd refl refl (λ h e. cc e) (omega arith) apart)
        | inr sh ↦
            let last : (s.ftable g).ref ≡ 1 = ground arith in
            rw (e, sh, fileclose)
              (step-IsCounted others s
                (record s {
                  ftable = put s.ftable g (reset (s.ftable g));
                  pftable = put s.pftable fd none;
                  icache = release_inode s.icache (s.ftable g);
                })
                g fd (reset (s.ftable g)) none k hfd refl refl (λ h e. cc e) (omega arith) apart)
      ]
]

-- `filedup` keeps the counts right.
pub filedup-IsCounted :
    (others : ℕ → ℕ) (s : Files) (fd : ℕ)
    → fd < 16
    → IsCounted others s
    → IsCounted others (filedup s fd).1
unfolding filedup
filedup-IsCounted others s fd hfd k = elim (Option-cases (file_of s fd)) [
  | inl e ↦ rw (e, filedup) k
  | inr (g, e) ↦ elim (Option-cases (free_fd s.pftable 16 0)) [
    | inl e2 ↦ rw (e, e2, filedup) k
    | inr (i, e2) ↦
        let hg = k.in_range fd g hfd (file_of-some s fd g e) in
        let (lo, hi, free) = free_fd-some s.pftable 16 0 i e2 in
        let c = k.counted g hg in
        let le = count_fds-le s.pftable 16 g in
        let b = k.bounded g in
        rw (e, e2, filedup)
          (point-IsCounted others s
            (record s {
              ftable = put s.ftable g (shared (s.ftable g));
              pftable = put s.pftable i (some g);
            })
            g i (shared (s.ftable g)) k (omega arith) hg free refl refl (omega arith))
  ]
]

open_in-IsCounted :
    (others : ℕ → ℕ) (s : Files) (ip path mode pfd : ℕ)
    → IsCounted others s
    → pfd < 16
    → s.pftable pfd ≡ none
    → IsCounted others (open_in s ip path mode pfd)
unfolding open_in
open_in-IsCounted others s ip path mode pfd k hfd free =
    elim (Option-cases (free_slot s.ftable 100 0)) [
      | inl e ↦ rw (e, open_in) k
      | inr (g, e) ↦
          let (lo, hi, z) = free_slot-some s.ftable 100 0 g e in
          rw (e, open_in)
            (point-IsCounted others s
              (record s {
                ftable = put s.ftable g (opened (s.ftable g) ip path mode);
                pftable = put s.pftable pfd (some g);
              })
              g pfd (opened (s.ftable g) ip path mode) k hfd (omega arith) free refl refl
              (omega arith))
    ]

icache-IsCounted :
    (others : ℕ → ℕ) (s : Files) (c : Icache)
    → IsCounted others s
    → IsCounted others (record s { icache = c })
icache-IsCounted others s c k = record {
  counted = k.counted;
  in_range = k.in_range;
  bounded = k.bounded;
}

-- `fileopen` keeps the counts right whenever it comes back.
pub fileopen-IsCounted :
    (others : ℕ → ℕ) (inodes : InodeFile) (s s1 : Files) (pid : ℕ) (iptr : Option ℕ) (path mode : ℕ)
    (r : Option ℕ)
    → fileopen inodes s pid iptr path mode ≡ done (r, s1)
    → IsCounted others s
    → IsCounted others s1
unfolding fileopen
fileopen-IsCounted others inodes s s1 pid none path mode r h k =
    let same : s ≡ s1 = cc h in rw⁻¹ same k
fileopen-IsCounted others inodes s s1 pid (some ip) path mode r h k =
    let ((st, c), e, h2) = >>=-eq-done (concurrent_stati inodes s.icache pid ip) _ h in
    elim (Bool-cases (mode == 3)) [
      | inl m ↦
          let same : record s { icache = c } ≡ s1 = cc (rw m at h2) in
          rw⁻¹ same (icache-IsCounted others s c k)
      | inr m ↦ elim (Option-cases (free_fd s.pftable 16 0)) [
        | inl f ↦
            let same : record s { icache = c } ≡ s1 = cc (rw (m, f) at h2) in
            rw⁻¹ same (icache-IsCounted others s c k)
        | inr (pfd, f) ↦
            let same : open_in (record s { icache = c }) ip path mode pfd ≡ s1 =
              cc (rw (m, f) at h2) in
            let (lo, hi, free) = free_fd-some s.pftable 16 0 pfd f in
            rw⁻¹ same (
              open_in-IsCounted others (record s { icache = c }) ip path mode pfd
                (icache-IsCounted others s c k) (omega arith) free)
      ]
    ]

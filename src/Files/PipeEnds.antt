-- ===== src/Files/PipeEnds.antt =====
-- `pipe` of kernel/file.c: the two descriptors and their references.
use uw_cse451_operating_syst.Base.{
  fun_ext, ℕ, zero, suc, ◌+◌, ◌≤◌, ◌<◌, ◌≡◌, ◌≢◌, inl, inr, refl, sym, ap, ◌∙◌, false, Option, none,
  some, List, [], ◌∷◌, arith, ◌==◌, ltb, length, Bool-cases, Option-cases, ℕ-cases,
}
use uw_cse451_operating_syst.Base.Outcome.{done, panic}
use uw_cse451_operating_syst.Files.{
  nofile, as_pipe, fresh_pipe, nfile, shared, store_pipe, put, Files, FileInfo, pipe, pipe_fds,
  finish_pipe, free_slot,
}
use uw_cse451_operating_syst.Files.Count.{put-at}
use uw_cse451_operating_syst.Files.Invariant.{count_fds-le, IsCounted, point-IsCounted}
use uw_cse451_operating_syst.Files.Count.{free_slot-some}

-- The table with an entry in slot `g` and other descriptors.
abbrev with_entry : Files → ℕ → (ℕ → Option ℕ) → FileInfo → Files
with_entry s g fds f = record s { ftable = put s.ftable g f; pftable = fds }

put-put {ℓ} : {A : Type ℓ} (t : ℕ → A) (g : ℕ) (v w : A) → put t g w ≡ put (put t g v) g w
put-put t g v w = fun_ext (λ j. elim (Bool-cases (g == j)) [ inl e ↦ rw e | inr e ↦ rw e ])

put-same {ℓ} : {A : Type ℓ} (t : ℕ → A) (g : ℕ) → put t g (t g) ≡ t
put-same t g =
    fun_ext (λ j. elim (ℕ-cases g j) [ inl e ↦ put-at t g j (t g) e ∙ ap t e | inr ne ↦ rw ne ])

-- A new entry with the same count.
entry-IsCounted :
    (others : ℕ → ℕ) (s : Files) (g : ℕ) (fds : ℕ → Option ℕ) (f f1 : FileInfo)
    → f1.ref ≡ f.ref
    → IsCounted others (with_entry s g fds f)
    → IsCounted others (with_entry s g fds f1)
entry-IsCounted others s g fds f f1 e k = record {
  counted = λ h hh. elim (ℕ-cases g h) [
    | inl gh ↦
        ap (λ x. x.ref) (put-at s.ftable g h f1 gh)
        ∙ e
        ∙ sym (ap (λ x. x.ref) (put-at s.ftable g h f gh))
        ∙ k.counted h hh
    | inr ne ↦
        let skip1 : (put s.ftable g f1 h).ref ≡ (s.ftable h).ref = rw ne in
        let skip : (put s.ftable g f h).ref ≡ (s.ftable h).ref = rw ne in
        skip1 ∙ sym skip ∙ k.counted h hh
  ];
  in_range = k.in_range;
  bounded = k.bounded;
}

pipe_fds-IsCounted :
    (others : ℕ → ℕ) (s : Files) (g count i : ℕ) (got : List ℕ) (fds : ℕ → Option ℕ) (f : FileInfo)
    → g < 100
    → i + count ≤ 16
    → IsCounted others (with_entry s g fds f)
    → IsCounted others
        (with_entry s g (pipe_fds g count i got fds f).1 (pipe_fds g count i got fds f).2)
unfolding pipe_fds
pipe_fds-IsCounted others s g zero i got fds f hg hi k = k
pipe_fds-IsCounted others s g (suc count) i got fds f hg hi k = elim (Option-cases (fds i)) [
  | inr (h, e) ↦
      rw (e, pipe_fds) (pipe_fds-IsCounted others s g count (i + 1) got fds f hg (omega arith) k)
  | inl e ↦ elim (Bool-cases (ltb (length got) 2)) [
    | inr full ↦
        rw (e, full, pipe_fds)
          (pipe_fds-IsCounted others s g count (i + 1) got fds f hg (omega arith) k)
    | inl room ↦
        let c = k.counted g hg in
        let le = count_fds-le fds 16 g in
        let b = k.bounded g in
        let now = ap (λ x. x.ref) (put-at s.ftable g g f refl) in
        rw (e, room, pipe_fds)
          (pipe_fds-IsCounted others s g count (i + 1) (i ∷ got) (put fds i (some g)) (shared f) hg
            (omega arith)
            (point-IsCounted others (with_entry s g fds f)
              (with_entry s g (put fds i (some g)) (shared f)) g i (shared f) k (omega arith) hg e
              (put-put s.ftable g f (shared f)) refl (omega arith)))
  ]
]

finish_pipe-IsCounted :
    (others : ℕ → ℕ) (s s1 : Files) (g : ℕ) (got : List ℕ) (fds : ℕ → Option ℕ) (f : FileInfo)
    (r : Option (ℕ × ℕ))
    → IsCounted others (with_entry s g fds f)
    → finish_pipe s g got fds f ≡ done (r, s1)
    → IsCounted others s1
unfolding finish_pipe
finish_pipe-IsCounted others s s1 g [] fds f r k h = cc
finish_pipe-IsCounted others s s1 g (a ∷ []) fds f r k h = cc
finish_pipe-IsCounted others s s1 g (w ∷ a ∷ more) fds f r k h =
    let same : store_pipe s g a w fds f ≡ s1 = cc h in
    rw⁻¹ same (
      entry-IsCounted others s g fds f (record f { pipe_buffer = fresh_pipe f.pipe_buffer a w })
        refl k)

-- `pipe` keeps the counts right whenever it comes back.
pub pipe-IsCounted :
    (others : ℕ → ℕ) (s s1 : Files) (r : Option (ℕ × ℕ))
    → pipe s ≡ done (r, s1)
    → IsCounted others s
    → IsCounted others s1
unfolding pipe
pipe-IsCounted others s s1 r h k = elim (Option-cases (free_slot s.ftable 100 0)) [
  | inl e ↦ let same : s ≡ s1 = cc (rw (e, pipe) at h) in rw⁻¹ same k
  | inr (g, e) ↦
      let (lo, hi, z) = free_slot-some s.ftable 100 0 g e in
      let f : FileInfo = as_pipe (s.ftable g) in
      let start : IsCounted others (with_entry s g s.pftable f) =
        entry-IsCounted others s g s.pftable (s.ftable g) f refl (rw (put-same s.ftable g) k) in
      finish_pipe-IsCounted others s s1 g (pipe_fds g 16 0 [] s.pftable f).0
        (pipe_fds g 16 0 [] s.pftable f).1 (pipe_fds g 16 0 [] s.pftable f).2 r
        (pipe_fds-IsCounted others s g 16 0 [] s.pftable f (omega arith) (omega arith) start)
        (rw (e, pipe) at h)
]

pipe_fds-none :
    (g count i : ℕ) (got : List ℕ) (fds : ℕ → Option ℕ) (f : FileInfo)
    → ((j : ℕ) → i ≤ j → j < i + count → fds j ≢ none)
    → (pipe_fds g count i got fds f).0 ≡ got
unfolding pipe_fds
pipe_fds-none g zero i got fds f h = refl
pipe_fds-none g (suc count) i got fds f h = elim (Option-cases (fds i)) [
  | inl e ↦ absurd (h i (omega arith) (omega arith) e)
  | inr (x, e) ↦
      rw (e, pipe_fds)
        (pipe_fds-none g count (i + 1) got fds f (λ j a b. h j (omega arith) (omega arith)))
]

pipe_fds-one :
    (g count i k : ℕ) (fds : ℕ → Option ℕ) (f : FileInfo)
    → ((j : ℕ) → i ≤ j → j < i + count → j ≢ k → fds j ≢ none)
    → length (pipe_fds g count i [] fds f).0 ≤ 1
unfolding pipe_fds
pipe_fds-one g zero i k fds f h = omega arith
pipe_fds-one g (suc count) i k fds f h = elim (Option-cases (fds i)) [
  | inr (x, e) ↦
      rw (e, pipe_fds)
        (pipe_fds-one g count (i + 1) k fds f (λ j a b. h j (omega arith) (omega arith)))
  | inl e ↦ elim (ℕ-cases i k) [
    | inr ne ↦ absurd (h i (omega arith) (omega arith) (ground arith) e)
    | inl ik ↦
        let rest = pipe_fds-none g count (i + 1) (i ∷ []) (put fds i (some g)) (shared f) (λ j a b.
          let ne : i == j ≡ false = ground arith in
          rw ne (h j (omega arith) (omega arith) (omega arith))) in
        rw (e, pipe_fds, rest) (omega arith)
  ]
]

finish_pipe-few :
    (s : Files) (g : ℕ) (got : List ℕ) (fds : ℕ → Option ℕ) (f : FileInfo)
    → length got ≤ 1
    → finish_pipe s g got fds f ≡ panic
unfolding finish_pipe
finish_pipe-few s g [] fds f h = refl
finish_pipe-few s g (a ∷ []) fds f h = refl
finish_pipe-few s g (a ∷ b ∷ more) fds f h = absurd (omega arith)

-- With a free slot in `ftable` but no free descriptor other than perhaps `k`, `pipe` panics, where it
-- means to return -1.
pub pipe-few :
    (s : Files) (k g : ℕ)
    → free_slot s.ftable nfile 0 ≡ some g
    → ((j : ℕ) → j < nofile → j ≢ k → s.pftable j ≢ none)
    → pipe s ≡ panic
unfolding pipe
pipe-few s k g e h =
    rw (e, pipe)
      (finish_pipe-few s g (pipe_fds g 16 0 [] s.pftable (as_pipe (s.ftable g))).0
        (pipe_fds g 16 0 [] s.pftable (as_pipe (s.ftable g))).1
        (pipe_fds g 16 0 [] s.pftable (as_pipe (s.ftable g))).2
        (pipe_fds-one g 16 0 k s.pftable (as_pipe (s.ftable g)) (λ j a b c. h j (omega arith) c)))

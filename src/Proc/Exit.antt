-- ===== src/Proc/Exit.antt =====
-- `exit`: who gets the children, and that a waiting parent is woken and finds the zombie.
use uw_cse451_operating_syst.Base.{
  ℕ, zero, suc, ◌+◌, ◌≤◌, ◌<◌, ◌≡◌, ◌≢◌, ◌⊎◌, inl, inr, refl, ◌∙◌, true, false, Option, some, arith,
  ◌==◌, if◌then◌else◌, Bool-cases, Option-cases, ℕ-cases,
}
use uw_cse451_operating_syst.Proc.{
  live_child, dead_child, reap, reaped, wait, proc_chan, exit, reparent, wake_initproc, set_proc,
  wakeup, adopt, parent_pid, sleeping, runnable, zombie, state_eq, Proc, ProcTable, max_procs,
}
use uw_cse451_operating_syst.Proc.Search.{find_from-found}

-- What the loop of `exit` leaves alone: everything but the parents, and sleepers that it wakes.
pub record SameButParent (t t' : ProcTable) : Type 0 where
  pub same_initproc : t'.initproc ≡ t.initproc
  pub same_null : t'.null_pid ≡ t.null_pid
  pub same_pid : (i : ℕ) → (t'.proc i).pid ≡ (t.proc i).pid
  pub same_chan : (i : ℕ) → (t'.proc i).chan ≡ (t.proc i).chan
  pub same_state :
      (i : ℕ)
      → ((t'.proc i).state ≡ (t.proc i).state)
        ⊎ (((t.proc i).state ≡ sleeping) × ((t'.proc i).state ≡ runnable))

SameButParent-refl : (t : ProcTable) → SameButParent t t
SameButParent-refl t = record {
  same_initproc = refl;
  same_null = refl;
  same_pid = λ i. refl;
  same_chan = λ i. refl;
  same_state = λ i. inl refl;
}

SameButParent-trans :
    {t u v : ProcTable} → SameButParent t u → SameButParent u v → SameButParent t v
SameButParent-trans a b = record {
  same_initproc = b.same_initproc ∙ a.same_initproc;
  same_null = b.same_null ∙ a.same_null;
  same_pid = λ i. b.same_pid i ∙ a.same_pid i;
  same_chan = λ i. b.same_chan i ∙ a.same_chan i;
  same_state = λ i. ground (arith, a.same_state i, b.same_state i);
}

abbrev new_parent : ℕ → ProcTable → ℕ → Option ℕ
new_parent me t i = if parent_pid t i == (t.proc me).pid then some t.initproc else (t.proc i).parent

adopt-SameButParent : (me i : ℕ) (t : ProcTable) → SameButParent t (adopt me i t)
unfolding adopt wakeup
adopt-SameButParent me i t = elim (Bool-cases (parent_pid t i == (t.proc me).pid)) [
  | inl child ↦
      rw (child, adopt)
        (elim (Bool-cases (
          state_eq
            (((set_proc i (record (t.proc i) { parent = some t.initproc }) t).proc
              t.initproc).state)
            sleeping)) [
              | inl asleep ↦ rw asleep (record {
                same_initproc = refl;
                same_null = refl;
                same_pid = λ j. ground arith;
                same_chan = λ j. ground arith;
                same_state = λ j. ground arith;
              })
              | inr up ↦ rw up (record {
                same_initproc = refl;
                same_null = refl;
                same_pid = λ j. ground arith;
                same_chan = λ j. ground arith;
                same_state = λ j. ground arith;
              })
            ])
  | inr other ↦ rw (other, adopt) (SameButParent-refl t)
]

wake_initproc-parent :
    (t : ProcTable) (j : ℕ) → ((wake_initproc t).proc j).parent ≡ (t.proc j).parent
unfolding wakeup
wake_initproc-parent t j = elim (Bool-cases (state_eq (t.proc t.initproc).state sleeping)) [
  | inl asleep ↦ rw asleep (ground arith)
  | inr up ↦ rw up
]

adopt_self : (me j : ℕ) (t : ProcTable) → ((adopt me j t).proc j).parent ≡ new_parent me t j
unfolding adopt
adopt_self me j t = elim (Bool-cases (parent_pid t j == (t.proc me).pid)) [
  | inl child ↦
      rw (child, adopt)
        (wake_initproc-parent (set_proc j (record (t.proc j) { parent = some t.initproc }) t) j
          ∙ ground arith)
  | inr other ↦ rw (other, adopt)
]

adopt_other :
    (me i : ℕ) (t : ProcTable) (j : ℕ)
    → (i == j) ≡ false
    → ((adopt me i t).proc j).parent ≡ (t.proc j).parent
unfolding adopt
adopt_other me i t j ne = elim (Bool-cases (parent_pid t i == (t.proc me).pid)) [
  | inl child ↦
      rw (child, adopt)
        (wake_initproc-parent (set_proc i (record (t.proc i) { parent = some t.initproc }) t) j
          ∙ ground (arith, ne))
  | inr other ↦ rw (other, adopt)
]

adopt-parent :
    (me i : ℕ) (t : ProcTable) (j : ℕ)
    → ((adopt me i t).proc j).parent ≡ (if i == j then new_parent me t j else (t.proc j).parent)
unfolding adopt wakeup
adopt-parent me i t j = elim (Bool-cases (i == j)) [
  | inl here ↦ let e : i ≡ j = ground arith in rw here (rw e (adopt_self me j t))
  | inr other ↦ rw other (adopt_other me i t j other)
]

new_parent-same :
    (me j : ℕ) (t t' : ProcTable)
    → SameButParent t t'
    → (t'.proc j).parent ≡ (t.proc j).parent
    → new_parent me t' j ≡ new_parent me t j
new_parent-same me j t t' s e = elim (Option-cases (t.proc j).parent) [
  | inl null_parent ↦ ground (arith, s.same_null, s.same_pid me, s.same_initproc)
  | inr (k, has) ↦ ground (arith, s.same_pid k, s.same_pid me, s.same_initproc)
]

reparent-SameButParent : (me n i : ℕ) (t : ProcTable) → SameButParent t (reparent me n i t)
unfolding reparent
reparent-SameButParent me zero i t = SameButParent-refl t
reparent-SameButParent me (suc n) i t =
    SameButParent-trans (adopt-SameButParent me i t)
      (reparent-SameButParent me n (i + 1) (adopt me i t))

-- Outside the entries that are left the loop changes no parent; inside it each gets its new one.
reparent_outside :
    (me n i : ℕ) (t : ProcTable) (j : ℕ)
    → j < i
    → ((reparent me n i t).proc j).parent ≡ (t.proc j).parent
unfolding reparent
reparent_outside me zero i t j l = refl
reparent_outside me (suc n) i t j l =
    reparent_outside me n (i + 1) (adopt me i t) j (omega arith)
    ∙ adopt_other me i t j (ground arith)

reparent_inside :
    (me n i : ℕ) (t : ProcTable) (j : ℕ)
    → i ≤ j
    → j < i + n
    → ((reparent me n i t).proc j).parent ≡ new_parent me t j
unfolding reparent
reparent_inside me zero i t j a b = absurd (omega arith)
reparent_inside me (suc n) i t j a b = elim (ℕ-cases i j) [
  | inl here ↦
      rw here (reparent_outside me n (j + 1) (adopt me j t) j (omega arith) ∙ adopt_self me j t)
  | inr other ↦
      reparent_inside me n (i + 1) (adopt me i t) j (ground arith) (omega arith)
      ∙ new_parent-same me j t (adopt me i t) (adopt-SameButParent me i t)
          (adopt_other me i t j other)
]

exit-parent :
    (me : ℕ) (t : ProcTable) (j : ℕ)
    → ((exit me t).proc j).parent ≡ ((reparent me max_procs 0 t).proc j).parent
unfolding exit wakeup
exit-parent me t j = ground arith

exit-pid :
    (me : ℕ) (t : ProcTable) (j : ℕ)
    → ((exit me t).proc j).pid ≡ ((reparent me max_procs 0 t).proc j).pid
unfolding exit wakeup
exit-pid me t j = ground arith

-- After `exit` the caller is a zombie; every process of the table whose parent has the caller's pid
-- belongs to `initproc`, and every other keeps its parent; no pid changes.
pub exit_lem :
    (me : ℕ) (t : ProcTable)
    → (((exit me t).proc me).state ≡ zombie)
      × ((j : ℕ)
          → j < max_procs
          → ((exit me t).proc j).parent
            ≡ (if parent_pid t j == (t.proc me).pid then some t.initproc else (t.proc j).parent))
      × ((j : ℕ) → ((exit me t).proc j).pid ≡ (t.proc j).pid)
unfolding exit
exit_lem me t = (
  ground arith,
  λ j l. exit-parent me t j ∙ reparent_inside me max_procs 0 t j (omega arith) l,
  λ j. exit-pid me t j ∙ (reparent-SameButParent me max_procs 0 t).same_pid j,
)

exit-woken :
    (me j : ℕ) (t t₁ : ProcTable)
    → reparent me max_procs 0 t ≡ t₁
    → SameButParent t t₁
    → (t₁.proc me).parent ≡ some j
    → j < max_procs
    → me ≢ j
    → (t.proc j).state ≡ sleeping
    → (t.proc j).chan ≡ proc_chan j
    → ((exit me t).proc j).state ≡ runnable
unfolding exit wakeup
exit-woken me j t t₁ e s par l ne sl ch =
    rw (e, exit) (rw par (ground (arith, s.same_state j, s.same_chan j)))

dead_child-parent : (j : ℕ) (p : Proc) → dead_child j p ≡ true → p.parent ≡ some j
dead_child-parent j p h = elim (Option-cases p.parent) [
  | inl e ↦ ground (arith, e)
  | inr (k, e) ↦ ground (arith, e)
]

-- With a zombie child in the table, a scan of `wait` reaps one.
wait_finds :
    (j me : ℕ) (t : ProcTable)
    → me < max_procs
    → (t.proc me).parent ≡ some j
    → (t.proc me).state ≡ zombie
    → (i : ℕ) × (wait j t ≡ reaped (t.proc i).pid (t.proc i).kstack (reap i t))
      × ((t.proc i).parent ≡ some j)
      × ((t.proc i).state ≡ zombie)
unfolding wait
wait_finds j me t l par z =
    let (_, e, _) = find_from-found (live_child j) t.proc max_procs me l (ground (arith, par, z)) in
    let (i, e', f) =
      find_from-found (dead_child j) t.proc max_procs me l (ground (arith, par, z)) in
    (i, rw (e, e', wait), dead_child-parent j (t.proc i) f.passes, ground (arith, f.passes))

-- A parent that sleeps in `wait` misses no exit: when its child exits, it is runnable again, and
-- its next scan reaps a zombie child of its own.
pub wait-exit :
    (me j : ℕ) (t : ProcTable)
    → me < max_procs
    → j < max_procs
    → me ≢ j
    → (t.proc me).parent ≡ some j
    → (t.proc j).pid ≢ (t.proc me).pid
    → (t.proc j).state ≡ sleeping
    → (t.proc j).chan ≡ proc_chan j
    → (((exit me t).proc j).state ≡ runnable)
      × ((i : ℕ) × (stack : ℕ) × (wait j (exit me t)
            ≡ reaped ((exit me t).proc i).pid stack (reap i (exit me t)))
          × (((exit me t).proc i).parent ≡ some j)
          × (((exit me t).proc i).state ≡ zombie))
wait-exit me j t lm lj ne par pids sl ch =
    let (zomb, parents, _) = exit_lem me t in
    let mine : new_parent me t me ≡ some j = ground (arith, par, pids) in
    let (i, e, p, z) = wait_finds j me (exit me t) lm (parents me lm ∙ mine) zomb in
    let s = reparent-SameButParent me max_procs 0 t in
    (
      exit-woken me j t (reparent me max_procs 0 t) refl s
          (reparent_inside me max_procs 0 t me (omega arith) lm ∙ mine) lj ne sl ch,
      (i, ((exit me t).proc i).kstack, e, p, z),
    )

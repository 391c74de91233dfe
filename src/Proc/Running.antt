-- ===== src/Proc/Running.antt =====
-- The process that runs: which routines leave the set of running processes alone.
use uw_cse451_operating_syst.Base.{
  ℕ, zero, suc, ◌+◌, ◌≡◌, inl, inr, refl, sym, ◌∙◌, Bool, true, false, some, arith, ◌==◌,
  Bool-cases, Option-cases,
}
use uw_cse451_operating_syst.Proc.{
  give_stack, claim_slot, find_from, parent_pid, proc_chan, Chan, is_unused, kill, reparent, adopt,
  wake_initproc, wakeup, set_proc, unused, sleeping, running, state_eq, Proc, ProcTable, max_procs,
}
use uw_cse451_operating_syst.Kalloc.{Kmem}

abbrev pub is_running : Proc → Bool
is_running p = state_eq p.state running

pub record KeepsRunning (t t' : ProcTable) : Type 0 where
  pub same_current : t'.current ≡ t.current
  pub same_running : (i : ℕ) → is_running (t'.proc i) ≡ is_running (t.proc i)

pub KeepsRunning-refl : (t : ProcTable) → KeepsRunning t t
KeepsRunning-refl t = record { same_current = refl; same_running = λ i. refl }

pub KeepsRunning-trans :
    {t u v : ProcTable} → KeepsRunning t u → KeepsRunning u v → KeepsRunning t v
KeepsRunning-trans a b = record {
  same_current = b.same_current ∙ a.same_current;
  same_running = λ i. b.same_running i ∙ a.same_running i;
}

pub set_proc-KeepsRunning :
    (i : ℕ) (p : Proc) (t : ProcTable)
    → is_running p ≡ is_running (t.proc i)
    → KeepsRunning t (set_proc i p t)
set_proc-KeepsRunning i p t h = record { same_current = refl; same_running = keep }
  where
    keep : (j : ℕ) → is_running ((set_proc i p t).proc j) ≡ is_running (t.proc j)
    keep j = elim (Bool-cases (i == j)) [
      | inl here ↦ let e : i ≡ j = ground arith in rw here (rw (← e) h)
      | inr other ↦ rw other
    ]

pub wakeup-KeepsRunning : (c : Chan) (t : ProcTable) → KeepsRunning t (wakeup c t)
unfolding wakeup
wakeup-KeepsRunning c t = record { same_current = refl; same_running = λ i. ground arith }

wake_initproc-KeepsRunning : (t : ProcTable) → KeepsRunning t (wake_initproc t)
wake_initproc-KeepsRunning t = elim (Bool-cases (state_eq (t.proc t.initproc).state sleeping)) [
  | inl asleep ↦ rw asleep (wakeup-KeepsRunning (proc_chan t.initproc) t)
  | inr up ↦ rw up (KeepsRunning-refl t)
]

pub adopt-KeepsRunning : (me i : ℕ) (t : ProcTable) → KeepsRunning t (adopt me i t)
unfolding adopt
adopt-KeepsRunning me i t = elim (Bool-cases (parent_pid t i == (t.proc me).pid)) [
  | inl child ↦
      rw (child, adopt)
        (KeepsRunning-trans
          (set_proc-KeepsRunning i (record (t.proc i) { parent = some t.initproc }) t refl)
          (wake_initproc-KeepsRunning
            (set_proc i (record (t.proc i) { parent = some t.initproc }) t)))
  | inr other ↦ rw (other, adopt) (KeepsRunning-refl t)
]

pub reparent-KeepsRunning : (me n i : ℕ) (t : ProcTable) → KeepsRunning t (reparent me n i t)
unfolding reparent
reparent-KeepsRunning me zero i t = KeepsRunning-refl t
reparent-KeepsRunning me (suc n) i t =
    KeepsRunning-trans (adopt-KeepsRunning me i t)
      (reparent-KeepsRunning me n (i + 1) (adopt me i t))

pub kill-KeepsRunning : (pid : ℕ) (t : ProcTable) → KeepsRunning t (kill pid t).1
unfolding kill
kill-KeepsRunning pid t = elim (Option-cases (find_from (λ p. p.pid == pid) t.proc max_procs 0)) [
  | inl e ↦ rw (e, kill) (KeepsRunning-refl t)
  | inr (i, e) ↦ rw (e, kill) (set_proc-KeepsRunning i _ t (ground arith))
]

pub claim_slot-KeepsRunning :
    (i : ℕ) (t : ProcTable) → is_unused (t.proc i) ≡ true → KeepsRunning t (claim_slot i t)
claim_slot-KeepsRunning i t free = record {
  same_current = refl;
  same_running = λ j. ground (arith, free);
}

pub give_stack-KeepsRunning :
    (i : ℕ) (t : ProcTable) (m : ℕ × Kmem)
    → is_running (t.proc i) ≡ false
    → KeepsRunning t (give_stack i t m).1
give_stack-KeepsRunning i t (stack, k) u = elim (Bool-cases (stack == 0)) [
  | inl empty ↦
      rw empty
        (set_proc-KeepsRunning i (record (t.proc i) { kstack = 0; state = unused }) t (sym u))
  | inr got ↦ rw got (set_proc-KeepsRunning i (record (t.proc i) { kstack = stack }) t refl)
]

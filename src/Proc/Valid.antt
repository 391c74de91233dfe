-- ===== src/Proc/Valid.antt =====
-- Process ids: every process in use has an id of its own, and every routine keeps it so.
use uw_cse451_operating_syst.Base.{
  ◌^◌, ℕ, zero, suc, ◌+◌, ◌<◌, ◌≡◌, inl, inr, refl, sym, ◌∙◌, Bool, true, not, some, arith, ◌==◌,
  Bool-cases, Option-cases,
}
use uw_cse451_operating_syst.Proc.{
  parent_pid, find_from, proc_chan, set_state, reparent, adopt, kill, wake_initproc, give_stack,
  claim_slot, Chan, is_unused, wakeup, set_proc, ProcState, unused, sleeping, state_eq, Proc,
  ProcTable, max_procs,
}
use uw_cse451_operating_syst.Kalloc.{Kmem}

abbrev pub is_used : Proc → Bool
is_used p = not (state_eq p.state unused)

-- Processes in use have positive ids below `nextpid`, and no two have the same.
pub record HasPids (t : ProcTable) : Type 0 where
  pub positive : 0 < t.next_pid
  pub bounded :
      (i : ℕ) → is_used (t.proc i) ≡ true → (0 < (t.proc i).pid) × ((t.proc i).pid < t.next_pid)
  pub distinct :
      (i j : ℕ)
      → is_used (t.proc i) ≡ true
      → is_used (t.proc j) ≡ true
      → (t.proc i).pid ≡ (t.proc j).pid
      → i ≡ j

-- A step that puts no process into use and changes no id of one in use.
pub record KeepsPids (t t' : ProcTable) : Type 0 where
  pub same_next : t'.next_pid ≡ t.next_pid
  pub same_pid :
      (i : ℕ)
      → is_used (t'.proc i) ≡ true
      → (is_used (t.proc i) ≡ true) × ((t'.proc i).pid ≡ (t.proc i).pid)

pub KeepsPids-refl : (t : ProcTable) → KeepsPids t t
KeepsPids-refl t = record { same_next = refl; same_pid = λ i u. (u, refl) }

pub KeepsPids-trans : {t u v : ProcTable} → KeepsPids t u → KeepsPids u v → KeepsPids t v
KeepsPids-trans a b = record {
  same_next = b.same_next ∙ a.same_next;
  same_pid = λ i h. let (x, e) = b.same_pid i h in let (y, e') = a.same_pid i x in (y, e ∙ e');
}

pub KeepsPids-HasPids : {t t' : ProcTable} → KeepsPids t t' → HasPids t → HasPids t'
KeepsPids-HasPids k h = record {
  positive = rw k.same_next h.positive;
  bounded = λ i u.
      let (x, e) = k.same_pid i u in let (a, b) = h.bounded i x in (rw e a, rw (e, k.same_next) b);
  distinct = λ i j ui uj same.
      let (xi, ei) = k.same_pid i ui in
      let (xj, ej) = k.same_pid j uj in h.distinct i j xi xj (sym ei ∙ same ∙ ej);
}

-- One entry is rewritten with the same id, and not put into use.
pub set_proc-KeepsPids :
    (i : ℕ) (p : Proc) (t : ProcTable)
    → (is_used p ≡ true → (is_used (t.proc i) ≡ true) × (p.pid ≡ (t.proc i).pid))
    → KeepsPids t (set_proc i p t)
set_proc-KeepsPids i p t h = record { same_next = refl; same_pid = keep }
  where
    keep :
        (j : ℕ)
        → is_used ((set_proc i p t).proc j) ≡ true
        → (is_used (t.proc j) ≡ true) × (((set_proc i p t).proc j).pid ≡ (t.proc j).pid)
    keep j u = elim (Bool-cases (i == j)) [
      | inl here ↦ let e : i ≡ j = ground arith in rw here (rw (← e) (h (rw here at u)))
      | inr other ↦ rw other (rw other at u, refl)
    ]

pub wakeup-KeepsPids : (c : Chan) (t : ProcTable) → KeepsPids t (wakeup c t)
unfolding wakeup
wakeup-KeepsPids c t = record { same_next = refl; same_pid = λ i u. ground arith }

wake_initproc-KeepsPids : (t : ProcTable) → KeepsPids t (wake_initproc t)
wake_initproc-KeepsPids t = elim (Bool-cases (state_eq (t.proc t.initproc).state sleeping)) [
  | inl asleep ↦ rw asleep (wakeup-KeepsPids (proc_chan t.initproc) t)
  | inr up ↦ rw up (KeepsPids-refl t)
]

-- `allocproc` gives the slot that it found an id that no process in use has, while `nextpid` can
-- still be counted up.
pub claim_slot-HasPids :
    (i : ℕ) (t : ProcTable)
    → is_unused (t.proc i) ≡ true
    → t.next_pid + 1 < 2 ^ 31
    → HasPids t
    → HasPids (claim_slot i t)
claim_slot-HasPids i t free room h = record {
  positive = omega arith;
  bounded = λ j u. ground (arith, h.positive, h.bounded j);
  distinct = λ j k uj uk same. ground (arith, h.bounded j, h.bounded k, h.distinct j k);
}

pub give_stack-KeepsPids :
    (i : ℕ) (t : ProcTable) (m : ℕ × Kmem)
    → is_used (t.proc i) ≡ true
    → KeepsPids t (give_stack i t m).1
give_stack-KeepsPids i t (stack, k) u = elim (Bool-cases (stack == 0)) [
  | inl empty ↦
      rw empty (set_proc-KeepsPids i (record (t.proc i) { kstack = 0; state = unused }) t (λ x. cc))
  | inr got ↦
      rw got (set_proc-KeepsPids i (record (t.proc i) { kstack = stack }) t (λ x. (x, refl)))
]

pub kill-KeepsPids : (pid : ℕ) (t : ProcTable) → KeepsPids t (kill pid t).1
unfolding kill
kill-KeepsPids pid t = elim (Option-cases (find_from (λ p. p.pid == pid) t.proc max_procs 0)) [
  | inl e ↦ rw (e, kill) (KeepsPids-refl t)
  | inr (i, e) ↦ rw (e, kill) (set_proc-KeepsPids i _ t (λ u. ground arith))
]

pub adopt-KeepsPids : (me i : ℕ) (t : ProcTable) → KeepsPids t (adopt me i t)
unfolding adopt
adopt-KeepsPids me i t = elim (Bool-cases (parent_pid t i == (t.proc me).pid)) [
  | inl child ↦
      let t' = set_proc i (record (t.proc i) { parent = some t.initproc }) t in
      rw (child, adopt)
        (KeepsPids-trans
          (set_proc-KeepsPids i (record (t.proc i) { parent = some t.initproc }) t (λ u. (u, refl)))
          (wake_initproc-KeepsPids t'))
  | inr other ↦ rw (other, adopt) (KeepsPids-refl t)
]

pub reparent-KeepsPids : (me n i : ℕ) (t : ProcTable) → KeepsPids t (reparent me n i t)
unfolding reparent
reparent-KeepsPids me zero i t = KeepsPids-refl t
reparent-KeepsPids me (suc n) i t =
    KeepsPids-trans (adopt-KeepsPids me i t) (reparent-KeepsPids me n (i + 1) (adopt me i t))

-- A process in use may take any state but `embryo` from `unused`: its id stays.
pub set_state-KeepsPids :
    (i : ℕ) (s : ProcState) (t : ProcTable)
    → is_used (t.proc i) ≡ true
    → KeepsPids t (set_state i s t)
set_state-KeepsPids i s t h =
    set_proc-KeepsPids i (record (t.proc i) { state = s }) t (λ u. (h, refl))

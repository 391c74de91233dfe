-- ===== src/Proc/Lifecycle.antt =====
-- The life of processes as a step relation: every order in which the kernel's routines may run on
-- one processor.
use uw_cse451_operating_syst.Base.{
  ◌^◌, ◌+◌, ℕ, ◌<◌, ◌≡◌, inl, inr, refl, sym, ◌∙◌, true, false, none, some, arith, Option-cases,
}
use uw_cse451_operating_syst.Proc.{
  start_child, live_child, dead_child, is_unused, parent_chan, find_from, claim_slot, reap,
  proc_chan, reparent, give_stack, waits, reaped, wait, exit, wake_up, fall_asleep, yield_proc,
  wakeup, Chan, kill, set_proc, set_state, embryo, runnable, running, zombie, Proc, ProcTable,
  max_procs,
}
use uw_cse451_operating_syst.Proc.Search.{First, find_from-some}
use uw_cse451_operating_syst.Proc.Valid.{
  claim_slot-HasPids, give_stack-KeepsPids, kill-KeepsPids, wakeup-KeepsPids, reparent-KeepsPids,
  claim_slot-HasPids, give_stack-KeepsPids, set_state-KeepsPids, set_proc-KeepsPids,
  KeepsPids-HasPids, is_used, HasPids,
}
use uw_cse451_operating_syst.Proc.Running.{
  claim_slot-KeepsRunning, give_stack-KeepsRunning, kill-KeepsRunning, wakeup-KeepsRunning,
  reparent-KeepsRunning, claim_slot-KeepsRunning, give_stack-KeepsRunning, set_proc-KeepsRunning,
  is_running, KeepsRunning,
}
use uw_cse451_operating_syst.Kalloc.{Kmem}

-- Back in `scheduler`, behind the switch.
abbrev pub leave : ProcTable → ProcTable
leave t = record t { current = none }

-- `mycpu()->proc = p; p->state = RUNNING`
abbrev pub enter : ℕ → ProcTable → ProcTable
enter i t = set_state i running (record t { current = some i })

-- `me` is the process on the processor. What it does between two routines changes nothing here. `fork`
-- takes three steps: its `allocproc` claims a slot with the lock held, the new process gets a stack or
-- the slot back without it, and the child is started with it. In between any other step may come, and
-- the slot is an embryo all the time, as no other routine writes the state of one. An id is only
-- claimed while `nextpid`, an `int`, can be counted up.
pub data Step (t : ProcTable) : ProcTable → Type 0 where
  picks :
      (i : ℕ) → t.current ≡ none → i < max_procs → (t.proc i).state ≡ runnable → Step t (enter i t)
  claims :
      (me i : ℕ)
      → t.current ≡ some me
      → find_from is_unused t.proc max_procs 0 ≡ some i
      → t.next_pid + 1 < 2 ^ 31
      → Step t (claim_slot i t)
  gets_stack :
      (me i : ℕ) (m : ℕ × Kmem)
      → t.current ≡ some me
      → (t.proc i).state ≡ embryo
      → Step t (give_stack i t m).1
  starts :
      (me i : ℕ) → t.current ≡ some me → (t.proc i).state ≡ embryo → Step t (start_child me i t)
  kills : (pid : ℕ) → Step t (kill pid t).1
  wakes : (c : Chan) → Step t (wakeup c t)
  yields : (me : ℕ) → t.current ≡ some me → Step t (leave (yield_proc me t))
  sleeps : (me : ℕ) (c : Chan) → t.current ≡ some me → Step t (leave (fall_asleep me c t))
  resumes : (me : ℕ) → t.current ≡ some me → Step t (wake_up me t)
  exits : (me : ℕ) → t.current ≡ some me → Step t (leave (exit me t))
  reaps :
      (me pid stack : ℕ) {u : ProcTable}
      → t.current ≡ some me
      → wait me t ≡ reaped pid stack u
      → Step t u
  waits_on : (me : ℕ) {u : ProcTable} → t.current ≡ some me → wait me t ≡ waits u → Step t (leave u)

pub data Reach (s : ProcTable) : ProcTable → Type 0 where
  here : Reach s s
  next : {t u : ProcTable} → Reach s t → Step t u → Reach s u

-- A process is running exactly if it is the one on the processor.
pub record IsSound (t : ProcTable) : Type 0 where
  pub pids : HasPids t
  pub only_current : (i : ℕ) → is_running (t.proc i) ≡ true → t.current ≡ some i
  pub current_runs : (i : ℕ) → t.current ≡ some i → is_running (t.proc i) ≡ true

keep-IsSound : {t u : ProcTable} → HasPids u → KeepsRunning t u → IsSound t → IsSound u
keep-IsSound {t} {u} h k s = record {
  pids = h;
  only_current = λ i r. k.same_current ∙ s.only_current i (sym (k.same_running i) ∙ r);
  current_runs = λ i c. k.same_running i ∙ s.current_runs i (sym k.same_current ∙ c);
}

-- The process on the processor goes to a state other than `running`, and the processor is free.
leave-IsSound :
    {t : ProcTable} (me : ℕ) (p : Proc)
    → IsSound t
    → t.current ≡ some me
    → is_used p ≡ true
    → is_running p ≡ false
    → p.pid ≡ (t.proc me).pid
    → IsSound (leave (set_proc me p t))
leave-IsSound {t} me p s c u r e = record {
  pids = record { positive = h.positive; bounded = h.bounded; distinct = h.distinct };
  only_current = λ i ri. ground (arith, s.only_current i);
  current_runs = λ i ci. cc;
}
  where
    used : is_used (t.proc me) ≡ true
    used = ground (arith, s.current_runs me c)

    h : HasPids (set_proc me p t)
    h = KeepsPids-HasPids (set_proc-KeepsPids me p t (λ x. (used, e))) s.pids

enter-IsSound :
    {t : ProcTable} (i : ℕ)
    → IsSound t
    → t.current ≡ none
    → (t.proc i).state ≡ runnable
    → IsSound (enter i t)
enter-IsSound {t} i s c r = record {
  pids = record { positive = h.positive; bounded = h.bounded; distinct = h.distinct };
  only_current = λ j rj. ground (arith, s.only_current j);
  current_runs = λ j cj. ground arith;
}
  where
    h : HasPids (set_state i running t)
    h = KeepsPids-HasPids (set_state-KeepsPids i running t (ground arith)) s.pids

claim-IsSound :
    {t : ProcTable} (i : ℕ)
    → IsSound t
    → find_from is_unused t.proc max_procs 0 ≡ some i
    → t.next_pid + 1 < 2 ^ 31
    → IsSound (claim_slot i t)
claim-IsSound {t} i s e room =
    let r = find_from-some is_unused t.proc max_procs 0 e in
    keep-IsSound (claim_slot-HasPids i t r.passes room s.pids)
      (claim_slot-KeepsRunning i t r.passes) s

stack-IsSound :
    {t : ProcTable} (i : ℕ) (m : ℕ × Kmem)
    → IsSound t
    → (t.proc i).state ≡ embryo
    → IsSound (give_stack i t m).1
stack-IsSound {t} i m s em =
    keep-IsSound (KeepsPids-HasPids (give_stack-KeepsPids i t m (ground arith)) s.pids)
      (give_stack-KeepsRunning i t m (ground arith)) s

start-IsSound :
    {t : ProcTable} (me i : ℕ)
    → IsSound t
    → (t.proc i).state ≡ embryo
    → IsSound (start_child me i t)
start-IsSound {t} me i s em =
    keep-IsSound (KeepsPids-HasPids (set_proc-KeepsPids i _ t (λ u. (ground arith, refl))) s.pids)
      (set_proc-KeepsRunning i _ t (ground arith)) s

exit-IsSound :
    {t : ProcTable} (me : ℕ) → IsSound t → t.current ≡ some me → IsSound (leave (exit me t))
unfolding exit
exit-IsSound {t} me s c =
    let t₁ = reparent me max_procs 0 t in
    let ch = parent_chan (t₁.proc me).parent in
    let s₁ : IsSound t₁ =
      keep-IsSound (KeepsPids-HasPids (reparent-KeepsPids me max_procs 0 t) s.pids)
        (reparent-KeepsRunning me max_procs 0 t) s in
    let s₂ : IsSound (wakeup ch t₁) =
      keep-IsSound (KeepsPids-HasPids (wakeup-KeepsPids ch t₁) s₁.pids) (wakeup-KeepsRunning ch t₁)
        s₁ in
    let c₂ : (wakeup ch t₁).current ≡ some me =
      (wakeup-KeepsRunning ch t₁).same_current
      ∙ (reparent-KeepsRunning me max_procs 0 t).same_current
      ∙ c in
    leave-IsSound me _ s₂ c₂ refl refl refl

reaped_inj :
    {p p' s s' : ℕ} {t t' : ProcTable} → reaped p s t ≡ reaped p' s' t' → (p ≡ p') × (t ≡ t')
reaped_inj h = (cc, cc)

-- What a scan of `wait` comes to.
pub wait-reaped :
    (me pid stack : ℕ) (t u : ProcTable)
    → wait me t ≡ reaped pid stack u
    → (i : ℕ) × First (dead_child me) t.proc max_procs 0 i × (u ≡ reap i t) × (pid ≡ (t.proc i).pid)
unfolding wait
wait-reaped me pid stack t u h =
    elim (Option-cases (find_from (live_child me) t.proc max_procs 0)) [
      | inl e ↦ cc (rw (e, wait) at h)
      | inr (j, e) ↦ elim (Option-cases (find_from (dead_child me) t.proc max_procs 0)) [
        | inl e' ↦ cc (rw (e, e', wait) at h)
        | inr (i, e') ↦
            let h' : reaped (t.proc i).pid (t.proc i).kstack (reap i t) ≡ reaped pid stack u =
              rw (e, e', wait) at h in
            (
              i,
              find_from-some (dead_child me) t.proc max_procs 0 e',
              sym (reaped_inj h').1,
              sym (reaped_inj h').0,
            )
      ]
    ]

pub wait-waits :
    (me : ℕ) (t u : ProcTable) → wait me t ≡ waits u → u ≡ fall_asleep me (proc_chan me) t
unfolding wait
wait-waits me t u h = elim (Option-cases (find_from (live_child me) t.proc max_procs 0)) [
  | inl e ↦ cc (rw (e, wait) at h)
  | inr (j, e) ↦ elim (Option-cases (find_from (dead_child me) t.proc max_procs 0)) [
    | inl e' ↦
        let h' : waits (fall_asleep me (proc_chan me) t) ≡ waits u = rw (e, e', wait) at h in cc
    | inr (i, e') ↦ cc (rw (e, e', wait) at h)
  ]
]

reap-IsSound : {t : ProcTable} (i : ℕ) → IsSound t → (t.proc i).state ≡ zombie → IsSound (reap i t)
reap-IsSound {t} i s z =
    keep-IsSound (KeepsPids-HasPids (set_proc-KeepsPids i _ t (λ u. cc)) s.pids)
      (set_proc-KeepsRunning i _ t (ground arith)) s

yield-IsSound :
    {t : ProcTable} (me : ℕ) → IsSound t → t.current ≡ some me → IsSound (leave (yield_proc me t))
unfolding yield_proc
yield-IsSound {t} me s c = leave-IsSound me _ s c refl refl refl

sleep-IsSound :
    {t : ProcTable} (me : ℕ) (c : Chan)
    → IsSound t
    → t.current ≡ some me
    → IsSound (leave (fall_asleep me c t))
unfolding fall_asleep
sleep-IsSound {t} me ch s c = leave-IsSound me _ s c refl refl refl

resume-IsSound : {t : ProcTable} (me : ℕ) → IsSound t → IsSound (wake_up me t)
unfolding wake_up
resume-IsSound {t} me s =
    keep-IsSound (KeepsPids-HasPids (set_proc-KeepsPids me _ t (λ u. (u, refl))) s.pids)
      (set_proc-KeepsRunning me _ t refl) s

Step-IsSound : {t u : ProcTable} → IsSound t → Step t u → IsSound u
Step-IsSound s (picks i c l r) = enter-IsSound i s c r
Step-IsSound s (claims me i c e room) = claim-IsSound i s e room
Step-IsSound s (gets_stack me i m c em) = stack-IsSound i m s em
Step-IsSound s (starts me i c em) = start-IsSound me i s em
Step-IsSound {t} s (kills pid) =
    keep-IsSound (KeepsPids-HasPids (kill-KeepsPids pid t) s.pids) (kill-KeepsRunning pid t) s
Step-IsSound {t} s (wakes c) =
    keep-IsSound (KeepsPids-HasPids (wakeup-KeepsPids c t) s.pids) (wakeup-KeepsRunning c t) s
Step-IsSound {t} s (yields me c) = yield-IsSound me s c
Step-IsSound {t} s (sleeps me ch c) = sleep-IsSound me ch s c
Step-IsSound {t} s (resumes me c) = resume-IsSound me s
Step-IsSound s (exits me c) = exit-IsSound me s c
Step-IsSound {t} s (reaps me pid stack {u} c h) =
    let (i, f, e, _) = wait-reaped me pid stack t u h in
    rw e (reap-IsSound i s (ground (arith, f.passes)))
Step-IsSound {t} s (waits_on me {u} c h) =
    rw (wait-waits me t u h) (sleep-IsSound me (proc_chan me) s c)

-- In every state that the kernel reaches on one processor from a sound one, by any order of the steps
-- of `Step`, while `nextpid` stays below 2^31 - 1 at every claim of an id, every process in use has a
-- positive id of its own below `nextpid`, and a process is in the state `running` exactly if it is
-- the one on the processor. A step is what a routine does with the lock of the table held: `allocproc`
-- and `fork` are cut where they give it back.
pub Reach-IsSound : {s t : ProcTable} → IsSound s → Reach s t → IsSound t
Reach-IsSound h here = h
Reach-IsSound h (next r st) = Step-IsSound (Reach-IsSound h r) st

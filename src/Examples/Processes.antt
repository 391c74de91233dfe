-- ===== src/Examples/Processes.antt =====
-- A table of three processes: `init` in slot 0 and a shell in slot 1, both asleep in `wait`, and a
-- child of the shell in slot 2, which runs.
use uw_cse451_operating_syst.Base.{
  ℕ, zero, suc, ◌+◌, ◌-◌, ◌*◌, ◌<◌, ◌≡◌, refl, true, false, Option, none, some, arith, ◌==◌,
  if◌then◌else◌,
}
use uw_cse451_operating_syst.Proc.{
  find_from, is_unused, claim_slot, reap, wakeup, reaped, adopt, schedule_pass, wait, parent_pid,
  reparent, yield_proc, set_state, exit, Chan, ProcState, unused, sleeping, runnable, running,
  zombie, Proc, ProcTable, max_procs, null_chan, proc_chan,
}
use uw_cse451_operating_syst.Proc.Valid.{is_used, HasPids}
use uw_cse451_operating_syst.Proc.Lifecycle.{
  claims, yields, here, next, enter, Reach-IsSound, leave, IsSound,
}
use uw_cse451_operating_syst.Proc.Running.{is_running}
use uw_cse451_operating_syst.Proc.Exit.{wait-exit, exit_lem}
use uw_cse451_operating_syst.Proc.Schedule.{schedule_pass-runs}

abbrev free_slot : Proc
free_slot = record {
  kstack = 0;
  state = unused;
  pid = 0;
  parent = none;
  chan = null_chan;
  killed = false;
}

abbrev user_proc : ProcState → ℕ → Option ℕ → Chan → Proc
user_proc s n up c = record {
  kstack = n * 4096;
  state = s;
  pid = n;
  parent = up;
  chan = c;
  killed = false;
}

abbrev slots : ℕ → Proc
slots zero = user_proc sleeping 1 none (proc_chan 0)
slots (suc zero) = user_proc sleeping 2 (some 0) (proc_chan 1)
slots (suc (suc zero)) = user_proc running 3 (some 1) null_chan
slots (suc (suc (suc i))) = free_slot

abbrev three_procs : ProcTable
three_procs = record { proc = slots; next_pid = 4; initproc = 0; current = some 2; null_pid = 0 }

three_procs-HasPids : HasPids three_procs
three_procs-HasPids = record { positive = omega arith; bounded = bounded; distinct = distinct }
  where
    bounded : (i : ℕ) → is_used (slots i) ≡ true → (0 < (slots i).pid) × ((slots i).pid < 4)
    bounded zero u = omega arith
    bounded (suc zero) u = omega arith
    bounded (suc (suc zero)) u = omega arith
    bounded (suc (suc (suc i))) u = cc

    pid_of : (i : ℕ) → is_used (slots i) ≡ true → (slots i).pid ≡ i + 1
    pid_of zero u = refl
    pid_of (suc zero) u = refl
    pid_of (suc (suc zero)) u = refl
    pid_of (suc (suc (suc i))) u = cc

    distinct :
        (i j : ℕ)
        → is_used (slots i) ≡ true
        → is_used (slots j) ≡ true
        → (slots i).pid ≡ (slots j).pid
        → i ≡ j
    distinct i j ui uj e = omega (arith, pid_of i ui, pid_of j uj, e)

three_procs-IsSound : IsSound three_procs
three_procs-IsSound = record {
  pids = three_procs-HasPids;
  only_current = only;
  current_runs = runs;
}
  where
    only : (i : ℕ) → is_running (slots i) ≡ true → some 2 ≡ some i
    only zero r = cc
    only (suc zero) r = cc
    only (suc (suc zero)) r = refl
    only (suc (suc (suc i))) r = cc

    runs : (i : ℕ) → some 2 ≡ some i → is_running (slots i) ≡ true
    runs i e = let e' : 2 ≡ i = ground arith in rw (← e')

exit_run :
    (((exit 2 three_procs).proc 1).state ≡ runnable)
    × (((exit 2 three_procs).proc 0).state ≡ sleeping)
unfolding exit reparent adopt wakeup
exit_run = (refl, refl)

free_slot_found : find_from is_unused three_procs.proc max_procs 0 ≡ some 3
unfolding find_from
free_slot_found = refl

-- The running process claims a slot in `fork`, and loses the processor before it has a stack for it.
Reach-IsSound_example : IsSound (leave (yield_proc 2 (claim_slot 3 three_procs)))
Reach-IsSound_example =
    Reach-IsSound three_procs-IsSound
      (next (next here (claims 2 3 refl free_slot_found (omega arith))) (yields 2 refl))

exit_lem_example :
    (((exit 1 three_procs).proc 1).state ≡ zombie)
    × ((j : ℕ)
        → j < max_procs
        → ((exit 1 three_procs).proc j).parent
          ≡ (if parent_pid three_procs j == 2 then some 0 else (slots j).parent))
    × ((j : ℕ) → ((exit 1 three_procs).proc j).pid ≡ (slots j).pid)
exit_lem_example = exit_lem 1 three_procs

wait-exit_example :
    (((exit 2 three_procs).proc 1).state ≡ runnable)
    × ((i : ℕ) × (stack : ℕ) × (wait 1 (exit 2 three_procs)
          ≡ reaped ((exit 2 three_procs).proc i).pid stack (reap i (exit 2 three_procs)))
        × (((exit 2 three_procs).proc i).parent ≡ some 1)
        × (((exit 2 three_procs).proc i).state ≡ zombie))
wait-exit_example =
    wait-exit 2 1 three_procs (omega arith) (omega arith) (omega arith) refl (omega arith) refl refl

-- Each process just gives the processor up again.
abbrev yield_at_once : ℕ → ProcTable → ProcTable
yield_at_once i t = set_state i runnable t

schedule_pass-runs_example :
    (u : ProcTable) × ((u.proc 2).state ≡ runnable)
    × (schedule_pass yield_at_once max_procs 0 (yield_proc 2 three_procs)
        ≡ schedule_pass yield_at_once (63 - 2) (2 + 1) (leave (yield_at_once 2 (enter 2 u))))
unfolding yield_proc
schedule_pass-runs_example =
    schedule_pass-runs yield_at_once 2 (yield_proc 2 three_procs) (λ j i t ne r. ground (arith, r))
      (omega arith) refl

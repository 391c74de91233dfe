-- ===== src/Proc.antt =====
-- The process table, kernel/proc.c. A `struct proc *` is an index into the table, and the table is
-- a function of which only the indices below `NPROC` are looked at. What a routine does with
-- `ptable.lock` held is one step; a routine that calls `sched` is cut there, and what follows is a
-- step of its own. `allocproc` and `fork` give the lock back in between: each of their parts is a
-- definition of its own (`claim_slot`, `give_stack`, `start_child`), and `allocproc` and `fork` here
-- are the runs in which nothing comes in between.
pub mod Search
pub mod Valid
pub mod Running
pub mod Lifecycle
pub mod Fork
pub mod Exit
pub mod Kill
pub mod Schedule
use uw_cse451_operating_syst.Base.{
  ℕ, zero, suc, ◌+◌, ◌-◌, ◌%◌, ◌^◌, ◌≡◌, Bool, true, false, ◌&&◌, not, Option, none, some, List, [],
  ◌∷◌, ltb, ◌==◌, if◌then◌else◌,
}
use uw_cse451_operating_syst.Base.Outcome.{Outcome, done, panic}
use uw_cse451_operating_syst.Kalloc.{Kmem, kalloc}

-- `enum procstate`
pub data ProcState : Type 0 where
  unused embryo sleeping runnable running zombie : ProcState

abbrev pub state_eq : ProcState → ProcState → Bool
state_eq unused unused = true
state_eq embryo embryo = true
state_eq sleeping sleeping = true
state_eq runnable runnable = true
state_eq running running = true
state_eq zombie zombie = true
state_eq _ _ = false

-- A sleep channel is an address: null, that of an entry of the table, or any other.
pub data Chan : Type 0 where
  null_chan : Chan
  proc_chan : ℕ → Chan
  other_chan : ℕ → Chan

abbrev pub chan_eq : Chan → Chan → Bool
chan_eq null_chan null_chan = true
chan_eq (proc_chan i) (proc_chan j) = i == j
chan_eq (other_chan i) (other_chan j) = i == j
chan_eq _ _ = false

-- `struct proc`, without the address space, the open files and the saved registers.
pub record Proc : Type 0 where
  pub kstack : ℕ
  pub state : ProcState
  pub pid : ℕ
  pub parent : Option ℕ
  pub chan : Chan
  pub killed : Bool

abbrev pub max_procs : ℕ
max_procs = 64

-- `ptable.proc`, `nextpid` as a 32-bit word, `initproc`, and `mycpu()->proc` in `current`. `null_pid`
-- is the `int` that is read where `parent->pid` is read through a null `parent`.
pub record ProcTable : Type 0 where
  pub proc : ℕ → Proc
  pub next_pid : ℕ
  pub initproc : ℕ
  pub current : Option ℕ
  pub null_pid : ℕ

abbrev pub write_proc : (ℕ → Proc) → ℕ → Proc → ℕ → Proc
write_proc f i p j = if i == j then p else f j

abbrev pub set_proc : ℕ → Proc → ProcTable → ProcTable
set_proc i p t = record t { proc = write_proc t.proc i p }

abbrev pub set_state : ℕ → ProcState → ProcTable → ProcTable
set_state i s t = set_proc i (record (t.proc i) { state = s }) t

-- `for (p = ptable.proc; p < &ptable.proc[NPROC]; p++)` up to the first that passes the test:
-- `n` entries are left, from `i` on.
unfoldable pub find_from : (Proc → Bool) → (ℕ → Proc) → (n i : ℕ) → Option ℕ
find_from test f zero i = none
find_from test f (suc n) i =
    let rest = find_from test f n (i + 1) in if test (f i) then some i else rest

abbrev pub is_unused : Proc → Bool
is_unused p = state_eq p.state unused

-- `allocproc` under the lock: the free slot that was found gets the next pid, and `nextpid` counts up
-- as an `int` does, here by its bits.
abbrev pub claim_slot : ℕ → ProcTable → ProcTable
claim_slot i t = record t {
  proc =
      write_proc t.proc i (record (t.proc i) { state = embryo; pid = t.next_pid; killed = false });
  next_pid = (t.next_pid + 1) % 2 ^ 32;
}

-- The kernel stack of the new process, without the lock; without memory the slot is given back.
abbrev pub give_stack : ℕ → ProcTable → ℕ × Kmem → Option ℕ × ProcTable × Kmem
give_stack i t (stack, k) =
    let p = t.proc i in
    if stack == 0
    then (none, set_proc i (record p { kstack = 0; state = unused }) t, k)
    else (some i, set_proc i (record p { kstack = stack }) t, k)

unfoldable pub allocproc : ProcTable → Kmem → Option ℕ × ProcTable × Kmem
allocproc t k = elim (find_from is_unused t.proc max_procs 0) [
  | none ↦ (none, t, k)
  | some i ↦ give_stack i (claim_slot i t) (kalloc k)
]

-- The table's part of `userinit`, on the slot that `allocproc` returned.
unfoldable pub userinit : ℕ → ProcTable → ProcTable
userinit i t = set_state i runnable (record t { initproc = i })

-- The table's part of `fork` by the process `me`: the pid of the child, or `none` for -1.
abbrev pub start_child : (me i : ℕ) → ProcTable → ProcTable
start_child me i t =
    let p = t.proc i in set_proc i (record p { state = runnable; parent = some me }) t

unfoldable pub fork : (me : ℕ) → ProcTable → Kmem → Option ℕ × ProcTable × Kmem
fork me t k =
    let (slot, t', k') = allocproc t k in
    elim slot [ none ↦ (none, t', k') | some i ↦ (some (t'.proc i).pid, start_child me i t', k') ]

abbrev pub sleeps_on : Chan → Proc → Bool
sleeps_on c p = state_eq p.state sleeping && chan_eq p.chan c

-- `wakeup1`, which `wakeup` calls with the lock taken.
unfoldable pub wakeup : Chan → ProcTable → ProcTable
wakeup c t = record t {
  proc = λ i.
      let p = t.proc i in
      if ltb i max_procs && sleeps_on c p then record p { state = runnable } else p;
}

-- `kill`: `true` for 0, `false` for -1.
abbrev pub kill_proc : ℕ → ProcTable → ProcTable
kill_proc i t =
    let p = t.proc i in
    set_proc i
      (record p { killed = true; state = if state_eq p.state sleeping then runnable else p.state })
      t

unfoldable pub kill : ℕ → ProcTable → Bool × ProcTable
kill pid t = elim (find_from (λ p. p.pid == pid) t.proc max_procs 0) [
  | none ↦ (false, t)
  | some i ↦ (true, kill_proc i t)
]

unfoldable pub findproc : ℕ → ProcTable → Option ℕ
findproc pid t = find_from (λ p. p.pid == pid) t.proc max_procs 0

-- The checks of `sched`, on the lock, the cpu and the caller.
unfoldable pub sched : (holds_lock : Bool) → (ncli : ℕ) → (interrupts : Bool) → Proc → Outcome Proc
sched holds_lock ncli interrupts p =
    if not holds_lock
    then panic
    else if not (ncli == 1)
    then panic
    else if state_eq p.state running
    then panic
    else if interrupts
    then panic
    else done p

-- `yield` and `sleep` up to the call of `sched`, and `sleep` behind it.
unfoldable pub yield_proc : ℕ → ProcTable → ProcTable
yield_proc me t = set_state me runnable t

unfoldable pub fall_asleep : ℕ → Chan → ProcTable → ProcTable
fall_asleep me c t = let p = t.proc me in set_proc me (record p { chan = c; state = sleeping }) t

unfoldable pub wake_up : ℕ → ProcTable → ProcTable
wake_up me t = let p = t.proc me in set_proc me (record p { chan = null_chan }) t

-- `ptable.proc[i].parent->pid`
abbrev pub parent_pid : ProcTable → ℕ → ℕ
parent_pid t i = elim (t.proc i).parent [ none ↦ t.null_pid | some j ↦ (t.proc j).pid ]

-- The body of the loop in `exit`, and the loop with `n` entries left from `i` on.
abbrev pub wake_initproc : ProcTable → ProcTable
wake_initproc t =
    if state_eq (t.proc t.initproc).state sleeping then wakeup (proc_chan t.initproc) t else t

unfoldable pub adopt : ℕ → ℕ → ProcTable → ProcTable
adopt me i t =
    if parent_pid t i == (t.proc me).pid
    then (let p = t.proc i in wake_initproc (set_proc i (record p { parent = some t.initproc }) t))
    else t

unfoldable pub reparent : (me n i : ℕ) → ProcTable → ProcTable
reparent me zero i t = t
reparent me (suc n) i t = reparent me n (i + 1) (adopt me i t)

-- `exit` under the lock, up to `sched`.
abbrev pub parent_chan : Option ℕ → Chan
parent_chan none = null_chan
parent_chan (some j) = proc_chan j

unfoldable pub exit : ℕ → ProcTable → ProcTable
exit me t =
    let t' = reparent me max_procs 0 t in
    set_state me zombie (wakeup (parent_chan (t'.proc me).parent) t')

abbrev pub is_child : ℕ → Proc → Bool
is_child me p = elim p.parent [ none ↦ false | some j ↦ j == me ]

-- One scan of `wait`. The memory of the child goes back to the allocator beside this: its address
-- space by `vspacefree` and its stack by `kfree`.
pub data WaitStep : Type 0 where
  no_children : WaitStep
  reaped : (pid kstack : ℕ) → ProcTable → WaitStep
  waits : ProcTable → WaitStep

abbrev pub reap : ℕ → ProcTable → ProcTable
reap i t =
    let p = t.proc i in
    set_proc i (record p { kstack = 0; state = unused; pid = 0; parent = none; killed = false }) t

abbrev pub live_child : ℕ → Proc → Bool
live_child me p = is_child me p && not (is_unused p)

abbrev pub dead_child : ℕ → Proc → Bool
dead_child me p = is_child me p && state_eq p.state zombie

unfoldable pub wait : ℕ → ProcTable → WaitStep
wait me t = elim (find_from (live_child me) t.proc max_procs 0) [
  | none ↦ no_children
  | some _ ↦ elim (find_from (dead_child me) t.proc max_procs 0) [
    | none ↦ waits (fall_asleep me (proc_chan me) t)
    | some i ↦ reaped (t.proc i).pid (t.proc i).kstack (reap i t)
  ]
]

-- The body of the loop in `scheduler` for entry `i`: `run i` is what happens from the switch to the
-- process until it switches back.
unfoldable pub dispatch : (run : ℕ → ProcTable → ProcTable) → ℕ → ProcTable → ProcTable
dispatch run i t =
    if state_eq (t.proc i).state runnable
    then (let t' = run i (set_state i running (record t { current = some i })) in
        record t' { current = none })
    else t

-- One pass over the table, with `n` entries left from `i` on.
unfoldable pub schedule_pass : (run : ℕ → ProcTable → ProcTable) → (n i : ℕ) → ProcTable → ProcTable
schedule_pass run zero i t = t
schedule_pass run (suc n) i t = schedule_pass run n (i + 1) (dispatch run i t)

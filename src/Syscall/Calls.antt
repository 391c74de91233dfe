-- ===== src/Syscall/Calls.antt =====
-- The handlers of kernel/sysfile.c and kernel/sysproc.c, and `sys_sysinfo` of kernel/syscall.c: the checks of the arguments and the call behind
-- them. A result is an `int`, given by its 32 bits.
use uw_cse451_operating_syst.Base.{
  ◌||◌, ℕ, zero, suc, ◌+◌, ◌-◌, ◌%◌, ◌^◌, Bool, true, not, Option, none, some, List, [], ◌∷◌, ◌==◌,
  ltb, leb, if◌then◌else◌,
}
use uw_cse451_operating_syst.Base.Outcome.{Outcome, done, panic, ◌>>=◌}
use uw_cse451_operating_syst.Base.Machine.{is_negative, minus_one}
use uw_cse451_operating_syst.Kalloc.{Kmem}
use uw_cse451_operating_syst.Vspace.Table.{Vspace}
use uw_cse451_operating_syst.Vspace.Growth.{sbrk}
use uw_cse451_operating_syst.Icache.{InodeFile, Stat}
use uw_cse451_operating_syst.Paths.{Walk, namei}
use uw_cse451_operating_syst.Files.{Files, filedup, fileclose, filestat, fileopen, pipe}
use uw_cse451_operating_syst.Proc.{ProcTable, kill}
use uw_cse451_operating_syst.Syscall.{Caller, argint, argptr, argstr, argfd, fetchstr}

abbrev pub int_of_option : Option ℕ → ℕ
int_of_option none = minus_one
int_of_option (some n) = n

-- The first argument as a descriptor below NOFILE.
unfoldable pub descriptor : Caller → Outcome (Option ℕ)
descriptor c = argint c 0 >>= (λ fd. done (if argfd fd then some fd else none))

unfoldable pub sys_dup : Caller → Files → Outcome (ℕ × Files)
sys_dup c s = descriptor c >>= (λ o. elim o [
  | none ↦ done (minus_one, s)
  | some fd ↦ let (r, s1) = filedup s fd in done (int_of_option r, s1)
])

unfoldable pub sys_close : Caller → Files → Outcome (ℕ × Files)
sys_close c s = descriptor c >>= (λ o. elim o [
  | none ↦ done (minus_one, s)
  | some fd ↦ let (ok, s1) = fileclose s fd in done (if ok then 0 else minus_one, s1)
])

-- The buffer and the size of `sys_read` and `sys_write`: the third argument is a size that is not negative.
unfoldable pub buffer : Caller → Outcome (Option (ℕ × ℕ))
buffer c = argint c 2 >>= (λ n.
    if is_negative n
    then done none
    else argptr c 1 n >>= (λ o. done (elim o [ none ↦ none | some p ↦ some (p, n) ])))

-- `fileread fd buf n` with the state that it changes.
unfoldable pub sys_read :
    {S : Type 0} (fileread : (fd buf n : ℕ) → S → Outcome (ℕ × S)) → Caller → S → Outcome (ℕ × S)
sys_read fileread c s = descriptor c >>= (λ o. elim o [
  | none ↦ done (minus_one, s)
  | some fd ↦
      buffer c >>= (λ b. elim b [ none ↦ done (minus_one, s) | some (p, n) ↦ fileread fd p n s ])
])

-- The pointer that `argptr` has stored is overwritten by that of `argstr`.
unfoldable pub sys_write :
    {S : Type 0} (filewrite : (fd buf n : ℕ) → S → Outcome (ℕ × S)) → Caller → S → Outcome (ℕ × S)
sys_write filewrite c s = descriptor c >>= (λ o. elim o [
  | none ↦ done (minus_one, s)
  | some fd ↦ buffer c >>= (λ b. elim b [
    | none ↦ done (minus_one, s)
    | some (p, n) ↦
        argstr c 1
        >>= (λ q. elim q [ none ↦ done (minus_one, s) | some buf ↦ filewrite fd buf n s ])
  ])
])

-- What is stored in the caller's memory: the address and the value. The size that is checked is that of a pointer.
unfoldable pub sys_fstat :
    InodeFile → Caller → Files → (pid : ℕ) → Outcome (ℕ × Option (ℕ × Stat) × Files)
sys_fstat inodes c s pid = descriptor c >>= (λ o. elim o [
  | none ↦ done (minus_one, none, s)
  | some fd ↦ argptr c 1 8 >>= (λ a. elim a [
    | none ↦ done (minus_one, none, s)
    | some p ↦ filestat inodes s pid fd >>= (λ (st, s1). elim st [
      | none ↦ done (minus_one, none, s1)
      | some v ↦ done (0, some (p, v), s1)
    ])
  ])
])

-- The two descriptors are stored at the address.
unfoldable pub sys_pipe : Caller → Files → Outcome (ℕ × Option (ℕ × ℕ × ℕ) × Files)
sys_pipe c s = argptr c 0 8 >>= (λ a. elim a [
  | none ↦ done (minus_one, none, s)
  | some p ↦ pipe s >>= (λ (ends, s1). elim ends [
    | none ↦ done (minus_one, none, s1)
    | some (r, w) ↦ done (0, some (p, r, w), s1)
  ])
])

abbrev pub bytes_at : (memory : ℕ → ℕ) → (addr count : ℕ) → List ℕ
bytes_at memory addr zero = []
bytes_at memory addr (suc count) = memory addr ∷ bytes_at memory (addr + 1) count

-- O_RDONLY, O_WRONLY, O_RDWR, O_CREATE and O_CREATE | O_RDWR
abbrev pub good_mode : (mode : ℕ) → Bool
good_mode mode = leb mode 2 || mode == 0x200 || mode == 0x202

-- `filecreate`, where `namei` finds nothing: its result is only printed, as fields of an inode, so that a null
-- pointer is a fault. A path is looked up here and once more for `fileopen`.
unfoldable pub sys_open :
    Walk
    → (filecreate : List ℕ → Files → Outcome (Option ℕ × Files)) → Caller
    → Files
    → (pid : ℕ) → Outcome (ℕ × Files)
sys_open w filecreate c s pid = argstr c 0 >>= (λ a. elim a [
  | none ↦ done (minus_one, s)
  | some path ↦ argint c 1 >>= (λ mode.
      let name = bytes_at c.memory path (fetchstr c c.regions path) in
      let open_it : Files → Outcome (ℕ × Files) = λ s1. namei w s1.icache name >>= (λ (ip, c1).
        fileopen w.inodes (record s1 { icache = c1 }) pid ip path mode
        >>= (λ (fd, s2). done (int_of_option fd, s2))) in
      let create_it : Files → Outcome (ℕ × Files) =
        λ s1. filecreate name s1 >>= (λ (ip, s2). elim ip [ none ↦ panic | some i ↦ open_it s2 ]) in
      namei w s.icache name >>= (λ (ptr, c1).
        let s1 = record s { icache = c1 } in
        if not (good_mode mode)
        then done (minus_one, s1)
        else if leb 0x200 mode
        then elim ptr [ none ↦ create_it s1 | some i ↦ open_it s1 ]
        else open_it s1))
])

unfoldable pub sys_kill : Caller → ProcTable → Outcome (ℕ × ProcTable)
sys_kill c t =
    argint c 0 >>= (λ pid. let (ok, t1) = kill pid t in done (if ok then 0 else minus_one, t1))

unfoldable pub sys_sbrk : Caller → Vspace → Kmem → Outcome (ℕ × Vspace × Kmem)
sys_sbrk c vs k = argint c 0 >>= (λ n. sbrk vs (if is_negative n then 0 else n) k)

-- A round of the loop of `sys_sleep`: it returns, or sleeps on `ticks`. The test is on `uint`s.
pub data SleepRound : Type 0 where
  returns : (ret : ℕ) → SleepRound
  sleeps : SleepRound

unfoldable pub sleep_round : (ticks ticks0 n : ℕ) → (killed : Bool) → SleepRound
sleep_round ticks ticks0 n killed =
    let elapsed = (ticks + 2 ^ 32 - ticks0) % 2 ^ 32 in
    if ltb elapsed n then if killed then returns minus_one else sleeps else returns 0

-- The five counters of `struct sys_info`, as they are stored at the address. The size that is checked is
-- that of a pointer.
unfoldable pub sys_sysinfo : Caller → (counters : List ℕ) → Outcome (ℕ × Option (ℕ × List ℕ))
sys_sysinfo c counters =
    argptr c 0 8
    >>= (λ a. elim a [ none ↦ done (minus_one, none) | some p ↦ done (0, some (p, counters)) ])

-- `crashn_enable` and `crashn`
unfoldable pub sys_crashn : Caller → Outcome (ℕ × Bool × ℕ)
sys_crashn c = argint c 0 >>= (λ n. done (0, true, n))

-- ===== src/Syscall.antt =====
-- System calls: the arguments (`fetcharg`, `fetchint`, `fetchstr`, `argint`, `argptr`, `argstr`, `argfd` and the
-- dispatch of kernel/syscall.c) and the handlers of kernel/sysfile.c and kernel/sysproc.c. An `int` is given
-- by its 32 bits.
pub mod Arguments
pub mod Strings
pub mod Calls
pub mod Guards
use uw_cse451_operating_syst.Base.{
  ℕ, zero, suc, ◌+◌, ◌-◌, ◌*◌, ◌%◌, ◌^◌, ◌≤◌, ◌<◌, ◌≡◌, ◌≢◌, ◌⊎◌, inl, inr, refl, sym, ap, ◌∙◌,
  Bool, true, false, ◌&&◌, not, Option, none, some, List, [], ◌∷◌, ◌++◌, arith, ◌==◌, ltb, leb,
  if◌then◌else◌, length, get_elem?, set, Bool-cases, Option-cases, ℕ-cases,
}
use uw_cse451_operating_syst.Base.Outcome.{Outcome, done, panic, hang, ◌>>=◌}
use uw_cse451_operating_syst.Base.Machine.{add64, int_to_u64, is_negative, minus_one}
use uw_cse451_operating_syst.Vspace.{Region, vregioncontains, vr_top}

-- The process that calls: the registers rdi, rsi, rdx, rcx, r8 and r9 of its trap frame, the regions of its
-- address space, and the byte that the kernel reads at an address of it.
pub record Caller : Type 0 where
  pub registers : ℕ → ℕ
  pub regions : List Region
  pub memory : ℕ → ℕ

unfoldable pub fetcharg : Caller → (n : ℕ) → Outcome ℕ
fetcharg c n = if ltb n 6 then done (c.registers n) else panic

unfoldable pub argint : Caller → (n : ℕ) → Outcome ℕ
argint c n = fetcharg c n >>= (λ a. done (a % 2 ^ 32))

unfoldable pub argint64 : Caller → (n : ℕ) → Outcome ℕ
argint64 c n = fetcharg c n

-- Whether a region has the `size` bytes at `addr`, for a size that is not negative.
unfoldable pub any_contains : List Region → (addr size : ℕ) → Bool
any_contains [] addr size = false
any_contains (r ∷ rs) addr size =
    let rest = any_contains rs addr size in if vregioncontains r addr size then true else rest

-- The pointer, or `none` for -1.
unfoldable pub argptr : Caller → (n size : ℕ) → Outcome (Option ℕ)
argptr c n size = argint64 c n >>= (λ i.
    if is_negative size
    then done none
    else done (if any_contains c.regions i size then some i else none))

-- The bytes at `addr`, the lowest first, as a number.
unfoldable pub read_word : (memory : ℕ → ℕ) → (count addr : ℕ) → ℕ
read_word memory zero addr = 0
read_word memory (suc count) addr = memory addr + 256 * read_word memory count (addr + 1)

-- `fetchint` and `fetchint64_t`
unfoldable pub fetchint : Caller → (addr : ℕ) → Option ℕ
fetchint c addr = if any_contains c.regions addr 4 then some (read_word c.memory 4 addr) else none

unfoldable pub fetchint64_t : Caller → (addr : ℕ) → Option ℕ
fetchint64_t c addr =
    if any_contains c.regions addr 8 then some (read_word c.memory 8 addr) else none

-- The inner loop of `fetchstr`: the number of bytes before the zero byte, of `count` bytes.
unfoldable pub find_zero : (memory : ℕ → ℕ) → (count s : ℕ) → Option ℕ
find_zero memory zero s = none
find_zero memory (suc count) s =
    let rest = find_zero memory count (s + 1) in
    if memory s == 0 then some 0 else elim rest [ none ↦ none | some n ↦ some (suc n) ]

-- The length as an `int`, or -1. Where a region has no zero byte, the next one is tried.
unfoldable pub fetchstr : Caller → List Region → (addr : ℕ) → ℕ
fetchstr c [] addr = minus_one
fetchstr c (r ∷ rs) addr =
    let rest = fetchstr c rs addr in
    if vregioncontains r addr 0
    then elim (find_zero c.memory (vr_top r - addr) addr) [ none ↦ rest | some n ↦ n % 2 ^ 32 ]
    else rest

-- The address goes through an `int`.
unfoldable pub argstr : Caller → (n : ℕ) → Outcome (Option ℕ)
argstr c n = argint c n >>= (λ a.
    let addr = int_to_u64 a in
    done (if is_negative (fetchstr c c.regions addr) then none else some addr))

-- `argfd` of a descriptor that was fetched before.
unfoldable pub argfd : (fd : ℕ) → Bool
argfd fd = if is_negative fd then false else ltb fd 16

-- The system calls that have a handler.
pub data Call : Type 0 where
  call_fork call_exit call_wait call_pipe call_read call_kill call_exec call_fstat call_dup
        call_getpid :
      Call
  call_sbrk call_sleep call_uptime call_open call_write call_close call_sysinfo call_crashn : Call

-- `syscalls`, from index 0 on.
abbrev pub syscalls : List (Option Call)
syscalls =
    none
    ∷ some call_fork
    ∷ some call_exit
    ∷ some call_wait
    ∷ some call_pipe
    ∷ some call_read
    ∷ some call_kill
    ∷ some call_exec
    ∷ some call_fstat
    ∷ none
    ∷ some call_dup
    ∷ some call_getpid
    ∷ some call_sbrk
    ∷ some call_sleep
    ∷ some call_uptime
    ∷ some call_open
    ∷ some call_write
    ∷ none
    ∷ none
    ∷ none
    ∷ none
    ∷ some call_close
    ∷ some call_sysinfo
    ∷ some call_crashn
    ∷ []

-- The handler that `syscall` calls for the number in rax.
unfoldable pub handler : (rax : ℕ) → Option Call
handler rax =
    let num = rax % 2 ^ 32 in
    if is_negative num
    then none
    else if num == 0
    then none
    else elim (get_elem? syscalls num) [ none ↦ none | some h ↦ h ]

-- What `syscall` leaves in rax: the handler's `int`, extended by its sign, or -1.
unfoldable pub syscall : (run : Call → Outcome ℕ) → (rax : ℕ) → Outcome ℕ
syscall run rax = elim (handler rax) [
  | none ↦ done (2 ^ 64 - 1)
  | some h ↦ run h >>= (λ ret. done (int_to_u64 ret))
]

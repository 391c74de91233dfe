-- ===== src/Examples/Calls.antt =====
-- The arguments of system calls of a process with one region of code.
use uw_cse451_operating_syst.Base.{
  ℕ, zero, suc, ◌+◌, ◌-◌, ◌%◌, ◌^◌, ◌<◌, ◌≡◌, ◌⊎◌, refl, some, [], ◌∷◌, arith, ◌==◌, if◌then◌else◌,
  get_elem?,
}
use uw_cse451_operating_syst.Base.Machine.{int_to_u64, minus_one}
use uw_cse451_operating_syst.Base.Outcome.{Outcome, done}
use uw_cse451_operating_syst.Vspace.{Region, vregioncontains}
use uw_cse451_operating_syst.Syscall.{
  Caller, fetcharg, argint, argint64, argptr, argstr, argfd, any_contains, fetchstr, find_zero,
}
use uw_cse451_operating_syst.Syscall.Arguments.{argptr-Inside, argptr-kernel, Inside}
use uw_cse451_operating_syst.Syscall.Strings.{AreSmall, Within}
use uw_cse451_operating_syst.Syscall.Calls.{sys_write, descriptor, buffer}
use uw_cse451_operating_syst.Syscall.Guards.{sys_write-Within, Passed}
use uw_cse451_operating_syst.Examples.Spaces.{code_region}

-- write(1, 16, 3): the memory has a zero byte at 20.
abbrev writer : Caller
writer = record {
  registers = λ n. elim n [ zero ↦ 1 | suc m ↦ elim m [ zero ↦ 16 | suc l ↦ 3 ] ];
  regions = code_region ∷ [];
  memory = λ a. if a == 20 then 0 else 65;
}

writer-AreSmall : AreSmall writer.regions
writer-AreSmall zero r g = let e : code_region ≡ r = cc g in rw⁻¹ e (omega arith, omega arith)
writer-AreSmall (suc m) r g = cc g

argptr_run : argptr writer 1 3 ≡ done (some 16)
unfolding argptr argint64 fetcharg any_contains vregioncontains
argptr_run = refl

argptr-Inside_example :
    (16 ≡ writer.registers 1)
    × (3 < 2 ^ 31)
    × ((m : ℕ) × (r : Region) × (get_elem? writer.regions m ≡ some r) × Inside r 16 3)
argptr-Inside_example = argptr-Inside writer 1 3 16 argptr_run (omega arith)

-- The pointer 2^64 - 4096.
abbrev intruder : Caller
intruder = record writer { registers = λ n. 2 ^ 64 - 4096 }

argptr-kernel_example :
    argptr intruder 1 (2 ^ 64 - intruder.registers 1) ≡ done (some (intruder.registers 1))
argptr-kernel_example =
    argptr-kernel intruder 1 0 code_region (omega arith) refl refl refl (omega arith) (omega arith)

-- A `filewrite` that writes all.
abbrev accept : (fd buf n : ℕ) → ℕ → Outcome (ℕ × ℕ)
accept fd buf n s = done (n, s + n)

sys_write_run : sys_write accept writer 0 ≡ done (3, 3)
unfolding sys_write descriptor buffer argint argint64 argptr argstr argfd fetcharg any_contains
    vregioncontains fetchstr find_zero
sys_write_run = refl

sys_write-Within_example :
    ((◌≡◌ {A = ℕ} 3 minus_one) × (◌≡◌ {A = ℕ} 3 0))
    ⊎ ((fd : ℕ) × (p : ℕ) × (n : ℕ) × Passed writer fd p n
        × Within writer.memory writer.regions
            (int_to_u64 (writer.registers 1 % 2 ^ 32))
            (fetchstr writer writer.regions (int_to_u64 (writer.registers 1 % 2 ^ 32)))
        × (accept fd (int_to_u64 (writer.registers 1 % 2 ^ 32)) n 0 ≡ done (3, 3)))
sys_write-Within_example = sys_write-Within accept writer 0 3 3 writer-AreSmall sys_write_run

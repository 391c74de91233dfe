-- ===== src/Spinlock.antt =====
-- Spin locks and the nesting of disabled interrupts, kernel/spinlock.c. `mycpu()` is `&cpus[0]` in
-- inc/proc.h, so there is one `struct cpu`; a lock's `cpu` field is that one or null. The
-- debugging fields `name` and `pcs` are left out.
pub mod Table
pub mod Held
use uw_cse451_operating_syst.Base.{
  ℕ, zero, suc, ◌+◌, ◌-◌, ◌≡◌, Bool, true, false, ◌&&◌, ◌==◌, not, if◌then◌else◌,
}
use uw_cse451_operating_syst.Base.Outcome.{Outcome, done, panic, hang, ◌>>=◌}

-- The fields of `struct cpu` that the locks use, and the interrupt flag of the processor.
pub record Cpu : Type 0 where
  pub ncli : ℕ
  pub intena : Bool
  pub interrupts : Bool

pub record Spinlock : Type 0 where
  pub locked : Bool
  pub owned : Bool  -- `lk->cpu` is this cpu; false for null

abbrev pub initlock : Spinlock
initlock = record { locked = false; owned = false }

unfoldable pub holding : Spinlock → Bool
holding lk = lk.locked && lk.owned

unfoldable pub pushcli : Cpu → Cpu
pushcli c = record {
  ncli = c.ncli + 1;
  intena = if c.ncli == 0 then c.interrupts else c.intena;
  interrupts = false;
}

-- `ncli` never goes below 0: where it would, this is a panic.
unfoldable pub popcli : Cpu → Outcome Cpu
popcli c =
    if c.interrupts
    then panic
    else if c.ncli == 0
    then panic
    else done (record {
      ncli = c.ncli - 1;
      intena = c.intena;
      interrupts = (c.ncli - 1 == 0) && c.intena;
    })

-- `acquire`. A lock that is taken but not by this cpu is spun on.
unfoldable pub acquire : Spinlock → Cpu → Outcome (Spinlock × Cpu)
unfolding pushcli holding
acquire lk c =
    if holding lk
    then panic
    else if lk.locked
    then hang
    else done (record { locked = true; owned = true }, pushcli c)

unfoldable pub release : Spinlock → Cpu → Outcome (Spinlock × Cpu)
unfolding popcli holding
release lk c =
    if not (holding lk)
    then panic
    else popcli c >>= λ c'. done (record { locked = false; owned = false }, c')

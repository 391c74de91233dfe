-- ===== src/Spinlock/Table.antt =====
-- The kernel's locks together: a run of acquires and releases, in any order.
use uw_cse451_operating_syst.Base.{
  if◌then◌else◌, none, zero, suc, arith, set, [], some, ◌≡◌, ◌+◌, ◌∷◌, get_elem?, List, ℕ,
}
use uw_cse451_operating_syst.Spinlock.{Cpu, Spinlock, acquire, release}
use uw_cse451_operating_syst.Base.Outcome.{panic, ◌>>=◌, done, Outcome}

pub record Locks : Type 0 where
  pub lock : List Spinlock
  pub cpu : Cpu

pub data LockOp : Type 0 where
  take_lock : ℕ → LockOp
  give_lock : ℕ → LockOp

unfoldable pub lock_op : LockOp → Locks → Outcome Locks
lock_op (take_lock i) s = elim (get_elem? s.lock i) [
  | none ↦ panic
  | some lk ↦ acquire lk s.cpu >>= λ (lk', c'). done (record { lock = set s.lock i lk'; cpu = c' })
]
lock_op (give_lock i) s = elim (get_elem? s.lock i) [
  | none ↦ panic
  | some lk ↦ release lk s.cpu >>= λ (lk', c'). done (record { lock = set s.lock i lk'; cpu = c' })
]

unfoldable pub run_ops : List LockOp → Locks → Outcome Locks
run_ops [] s = done s
run_ops (op ∷ ops) s = lock_op op s >>= λ s'. run_ops ops s'

-- How many locks are held.
abbrev pub held : Spinlock → ℕ
held lk = if lk.locked then 1 else 0

unfoldable pub count_held : List Spinlock → ℕ
count_held [] = 0
count_held (lk ∷ lks) = held lk + count_held lks

pub count_held-set :
    (lks : List Spinlock) (i : ℕ) (lk lk' : Spinlock)
    → get_elem? lks i ≡ some lk
    → count_held (set lks i lk') + held lk ≡ count_held lks + held lk'
unfolding count_held
count_held-set [] i lk lk' h = absurd (cc)
count_held-set (x ∷ lks) zero lk lk' h = ground arith
count_held-set (x ∷ lks) (suc i) lk lk' h = ground (arith, count_held-set lks i lk lk' h)

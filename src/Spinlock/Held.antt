-- ===== src/Spinlock/Held.antt =====
-- Interrupts are off exactly while a lock is held.
use uw_cse451_operating_syst.Base.{
  [], ◌<◌, ◌==◌, if◌then◌else◌, ◌∷◌, false, true, inr, inl, arith, Option-cases, set, some, ◌≡◌,
  List, get_elem?, Bool, ℕ,
}
use uw_cse451_operating_syst.Spinlock.{Spinlock, acquire, release}
use uw_cse451_operating_syst.Spinlock.Table.{
  give_lock, count_held-set, take_lock, run_ops, count_held, LockOp, lock_op, Locks,
}
use uw_cse451_operating_syst.Base.Outcome.{>>=-eq-done, ◌>>=◌, done}

-- `on` is the interrupt flag from before the first lock was taken.
pub record IsBalanced (on : Bool) (s : Locks) : Type 0 where
  pub counted : s.cpu.ncli ≡ count_held s.lock
  pub flag : s.cpu.interrupts ≡ (if s.cpu.ncli == 0 then on else false)
  pub saved : 0 < s.cpu.ncli → s.cpu.intena ≡ on

take-IsBalanced :
    {on : Bool} {s : Locks} (i : ℕ) (lk : Spinlock) {t : Locks}
    → IsBalanced on s
    → get_elem? s.lock i ≡ some lk
    → (acquire lk s.cpu >>= λ (lk', c'). done (record { lock = set s.lock i lk'; cpu = c' }))
      ≡ done t
    → IsBalanced on t
unfolding acquire
take-IsBalanced {s} i lk b g h = ground (
  arith,
  b.counted,
  b.flag,
  b.saved,
  count_held-set s.lock i lk (record { locked = true; owned = true }) g,
)

give-IsBalanced :
    {on : Bool} {s : Locks} (i : ℕ) (lk : Spinlock) {t : Locks}
    → IsBalanced on s
    → get_elem? s.lock i ≡ some lk
    → (release lk s.cpu >>= λ (lk', c'). done (record { lock = set s.lock i lk'; cpu = c' }))
      ≡ done t
    → IsBalanced on t
unfolding release
give-IsBalanced {s} i lk b g h = ground (
  arith,
  b.counted,
  b.flag,
  b.saved,
  count_held-set s.lock i lk (record { locked = false; owned = false }) g,
)

lock_op-IsBalanced :
    {on : Bool} {s t : Locks} (op : LockOp)
    → IsBalanced on s
    → lock_op op s ≡ done t
    → IsBalanced on t
unfolding lock_op
lock_op-IsBalanced {s} (take_lock i) b h = elim (Option-cases (get_elem? s.lock i)) [
  | inl e ↦ cc (rw (e, lock_op) at h)
  | inr (lk, e) ↦ take-IsBalanced i lk b e (ground (arith, e))
]
lock_op-IsBalanced {s} (give_lock i) b h = elim (Option-cases (get_elem? s.lock i)) [
  | inl e ↦ cc (rw (e, lock_op) at h)
  | inr (lk, e) ↦ give-IsBalanced i lk b e (ground (arith, e))
]

run_ops_kept :
    (on : Bool) (s : Locks) (ops : List LockOp) {t : Locks}
    → IsBalanced on s
    → run_ops ops s ≡ done t
    → IsBalanced on t
unfolding run_ops
run_ops_kept on s [] b h = ground (arith, b.counted, b.flag, b.saved)
run_ops_kept on s (op ∷ ops) b h =
    let (s', e, e') = >>=-eq-done (lock_op op s) (λ s'. run_ops ops s') h in
    run_ops_kept on s' ops (lock_op-IsBalanced op b e) e'

-- However acquires and releases of the kernel's locks are nested or interleaved, a run that does
-- not panic or spin leaves `ncli` equal to the number of locks held, and the interrupt flag as it
-- was before the first lock if none is held, and off otherwise.
pub run_ops-IsBalanced :
    (on : Bool) (s : Locks) (ops : List LockOp) {t : Locks}
    → IsBalanced on s
    → run_ops ops s ≡ done t
    → (t.cpu.ncli ≡ count_held t.lock)
      × (t.cpu.interrupts ≡ (if count_held t.lock == 0 then on else false))
run_ops-IsBalanced on s ops b h =
    let b' = run_ops_kept on s ops b h in (b'.counted, rw (← b'.counted) b'.flag)

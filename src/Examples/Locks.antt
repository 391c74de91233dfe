-- ===== src/Examples/Locks.antt =====
-- Two locks taken and given back out of order.
use uw_cse451_operating_syst.Sleeplock.{
  SleepState, acquiresleep, initsleeplock, asleep, holding, Reach, start, next, tries,
}
use uw_cse451_operating_syst.Sleeplock.Exclusion.{Reach-exclusive}
use uw_cse451_operating_syst.Base.{
  ◌≢◌, ℕ, inl, ◌≡◌, refl, true, false, List, [], ◌∷◌, arith, ◌==◌, if◌then◌else◌,
}
use uw_cse451_operating_syst.Spinlock.Table.{
  give_lock, lock_op, take_lock, count_held, run_ops, LockOp, Locks,
}
use uw_cse451_operating_syst.Spinlock.{release, acquire, initlock}
use uw_cse451_operating_syst.Spinlock.Held.{run_ops-IsBalanced, IsBalanced}
use uw_cse451_operating_syst.Base.Outcome.{done, panic}

abbrev two_locks : Locks
two_locks = record {
  lock = initlock ∷ initlock ∷ [];
  cpu = record { ncli = 0; intena = false; interrupts = true };
}

abbrev crossed : List LockOp
crossed = take_lock 0 ∷ take_lock 1 ∷ give_lock 0 ∷ []

abbrev one_left : Locks
one_left = record {
  lock = initlock ∷ record { locked = true; owned = true } ∷ [];
  cpu = record { ncli = 1; intena = true; interrupts = false };
}

crossed_run : run_ops crossed two_locks ≡ done one_left
unfolding run_ops lock_op acquire release
crossed_run = refl

taken_twice : run_ops (take_lock 0 ∷ take_lock 0 ∷ []) two_locks ≡ panic
unfolding run_ops lock_op acquire
taken_twice = refl

two_locks-IsBalanced : IsBalanced true two_locks
unfolding count_held
two_locks-IsBalanced = record { counted = refl; flag = refl; saved = λ l. absurd (omega arith) }

run_ops-IsBalanced_example :
    (one_left.cpu.ncli ≡ count_held one_left.lock)
    × (one_left.cpu.interrupts ≡ (if count_held one_left.lock == 0 then true else false))
run_ops-IsBalanced_example =
    run_ops-IsBalanced true two_locks crossed two_locks-IsBalanced crossed_run

-- Process 1 takes a sleep lock, process 2 goes to sleep on it.
abbrev two_tried : SleepState
two_tried = acquiresleep 2 (acquiresleep 1 initsleeplock)

two_tried_sleeps : two_tried.stage 2 ≡ asleep
unfolding acquiresleep
two_tried_sleeps = refl

two_tried-Reach : Reach two_tried
unfolding acquiresleep
two_tried-Reach =
    next (acquiresleep 1 initsleeplock) two_tried
      (next initsleeplock (acquiresleep 1 initsleeplock) start (tries 1 initsleeplock (inl refl)))
      (tries 2 (acquiresleep 1 initsleeplock) (inl refl))

Reach-exclusive_example :
    ((i j : ℕ) → two_tried.stage i ≡ holding → two_tried.stage j ≡ holding → i ≡ j)
    × ((i : ℕ) → two_tried.stage i ≡ holding → two_tried.lock.pid ≡ i)
    × (two_tried.lock.locked ≡ false → (i : ℕ) → two_tried.stage i ≢ asleep)
Reach-exclusive_example = Reach-exclusive two_tried two_tried-Reach

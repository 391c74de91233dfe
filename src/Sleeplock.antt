-- ===== src/Sleeplock.antt =====
-- Sleep locks, kernel/sleeplock.c: one lock and the processes that use it, each given by its pid. The spin
-- lock `lk` makes `acquiresleep` up to `sleep` or the end, and `releasesleep`, one step each; `wakeup`
-- makes every sleeper try again.
pub mod Exclusion
use uw_cse451_operating_syst.Base.{
  ℕ, zero, suc, ◌+◌, ◌-◌, ◌*◌, ◌%◌, ◌^◌, ◌≤◌, ◌<◌, ◌≡◌, ◌≢◌, ◌⊎◌, inl, inr, refl, sym, ap, ◌∙◌,
  Bool, true, false, ◌&&◌, not, Option, none, some, List, [], ◌∷◌, ◌++◌, arith, ◌==◌, ltb, leb,
  if◌then◌else◌, length, get_elem?, set, Bool-cases, Option-cases, ℕ-cases,
}

pub record Sleeplock : Type 0 where
  pub locked : Bool
  pub pid : ℕ

-- Where a process is: before `acquiresleep`, asleep in it, woken in it, or behind it with the lock.
pub data Stage : Type 0 where
  outside asleep woken holding : Stage

pub record SleepState : Type 0 where
  pub lock : Sleeplock
  pub stage : ℕ → Stage

abbrev pub move : (ℕ → Stage) → (i : ℕ) → Stage → ℕ → Stage
move f i p j = if i == j then p else f j

-- `initsleeplock`
abbrev pub initsleeplock : SleepState
initsleeplock = record { lock = record { locked = false; pid = 0 }; stage = λ i. outside }

-- A round of the loop of `acquiresleep`.
unfoldable pub acquiresleep : (i : ℕ) → SleepState → SleepState
acquiresleep i s =
    if s.lock.locked
    then record s { stage = move s.stage i asleep }
    else record { lock = record { locked = true; pid = i }; stage = move s.stage i holding }

abbrev pub wake : Stage → Stage
wake outside = outside
wake asleep = woken
wake woken = woken
wake holding = holding

unfoldable pub releasesleep : (i : ℕ) → SleepState → SleepState
releasesleep i s = record {
  lock = record { locked = false; pid = 0 };
  stage = (λ j. wake (move s.stage i outside j));
}

-- The steps of all processes: one that is outside or was woken tries, one that holds the lock gives it
-- back, and a `kill` wakes a sleeper. A release by a process that does not hold the lock, which the code
-- does not rule out, is no step.
pub data Step : SleepState → SleepState → Type 0 where
  tries :
      (i : ℕ) (s : SleepState)
      → (s.stage i ≡ outside) ⊎ (s.stage i ≡ woken)
      → Step s (acquiresleep i s)
  gives_back : (i : ℕ) (s : SleepState) → s.stage i ≡ holding → Step s (releasesleep i s)
  is_killed :
      (i : ℕ) (s : SleepState)
      → s.stage i ≡ asleep
      → Step s (record s { stage = move s.stage i woken })

pub data Reach : SleepState → Type 0 where
  start : Reach initsleeplock
  next : (s t : SleepState) → Reach s → Step s t → Reach t

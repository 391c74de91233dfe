-- ===== src/Sleeplock/Exclusion.antt =====
-- Sleep locks exclude each other's holders, and nobody sleeps on a lock that is free.
use uw_cse451_operating_syst.Base.{
  ℕ, ◌≡◌, ◌≢◌, inl, inr, refl, sym, ◌∙◌, true, false, arith, ◌==◌, Bool-cases, ℕ-cases,
}
use uw_cse451_operating_syst.Sleeplock.{
  Stage, outside, asleep, woken, holding, SleepState, move, wake, acquiresleep, releasesleep, Step,
  tries, gives_back, is_killed, Reach, start, next,
}

-- Who holds the lock is the one that the lock names; while it is free, nobody holds it or sleeps.
pub record IsExclusive (s : SleepState) : Type 0 where
  pub holder : (i : ℕ) → s.stage i ≡ holding → (s.lock.locked ≡ true) × (s.lock.pid ≡ i)
  pub awake : (i : ℕ) → s.stage i ≡ asleep → s.lock.locked ≡ true

acquire-busy :
    (i : ℕ) (s : SleepState) → s.lock.locked ≡ true → IsExclusive s → IsExclusive (acquiresleep i s)
unfolding acquiresleep
acquire-busy i s b x = rw b record {
  holder = (λ j h. elim (ℕ-cases i j) [
    | inl e ↦ let t : i == j ≡ true = ground arith in cc (rw t at h)
    | inr ne ↦ (refl, (x.holder j (rw ne at h)).1)
  ]);
  awake = (λ j h. refl);
}

acquire-free :
    (i : ℕ) (s : SleepState)
    → s.lock.locked ≡ false
    → IsExclusive s
    → IsExclusive (acquiresleep i s)
unfolding acquiresleep
acquire-free i s f x = rw f record {
  holder = (λ j h. elim (ℕ-cases i j) [
    | inl e ↦ (refl, e)
    | inr ne ↦ let was : s.stage j ≡ holding = rw ne at h in absurd (clash (x.holder j was).0)
  ]);
  awake = (λ j h. refl);
}
  where
    clash : s.lock.locked ≡ true → ⊥
    clash t = cc (f, t)

-- Waking makes nobody a holder, and leaves nobody asleep.
wake-holding : (p : Stage) → wake p ≡ holding → p ≡ holding
wake-holding outside h = cc h
wake-holding asleep h = cc h
wake-holding woken h = cc h
wake-holding holding h = refl

wake-asleep : (p : Stage) → wake p ≢ asleep
wake-asleep outside h = cc h
wake-asleep asleep h = cc h
wake-asleep woken h = cc h
wake-asleep holding h = cc h

release-IsExclusive :
    (i : ℕ) (s : SleepState) → s.stage i ≡ holding → IsExclusive s → IsExclusive (releasesleep i s)
unfolding releasesleep
release-IsExclusive i s own x = record {
  holder = (λ j h. absurd (none_left j (wake-holding (move s.stage i outside j) h)));
  awake = (λ j h. absurd (wake-asleep (move s.stage i outside j) h));
}
  where
    none_left : (j : ℕ) → move s.stage i outside j ≡ holding → ⊥
    none_left j h = elim (ℕ-cases i j) [
      | inl e ↦ let t : i == j ≡ true = ground arith in cc (rw t at h)
      | inr ne ↦
          let was : s.stage j ≡ holding = rw ne at h in
          let a = (x.holder j was).1 in
          let b = (x.holder i own).1 in let same : i ≡ j = sym b ∙ a in ground arith
    ]

wake-IsExclusive :
    (i : ℕ) (s : SleepState)
    → IsExclusive s
    → IsExclusive (record s { stage = move s.stage i woken })
wake-IsExclusive i s x = record {
  holder = (λ j h. elim (ℕ-cases i j) [
    | inl e ↦ let t : i == j ≡ true = ground arith in cc (rw t at h)
    | inr ne ↦ x.holder j (rw ne at h)
  ]);
  awake = (λ j h. elim (ℕ-cases i j) [
    | inl e ↦ let t : i == j ≡ true = ground arith in cc (rw t at h)
    | inr ne ↦ x.awake j (rw ne at h)
  ]);
}

Step-IsExclusive : {s t : SleepState} → Step s t → IsExclusive s → IsExclusive t
Step-IsExclusive (tries i s p) x = elim (Bool-cases s.lock.locked) [
  | inl b ↦ acquire-busy i s b x
  | inr f ↦ acquire-free i s f x
]
Step-IsExclusive (gives_back i s own) x = release-IsExclusive i s own x
Step-IsExclusive (is_killed i s a) x = wake-IsExclusive i s x

Reach-IsExclusive : {s : SleepState} → Reach s → IsExclusive s
Reach-IsExclusive start = record { holder = (λ i h. cc h); awake = (λ i h. cc h) }
Reach-IsExclusive (next s t r step) = Step-IsExclusive step (Reach-IsExclusive r)

-- In every order of steps, in which only a process that holds the lock gives it back, at most one
-- process holds the sleep lock, which then has its pid, and nobody sleeps while the lock is free: no
-- wakeup is lost.
pub Reach-exclusive :
    (s : SleepState)
    → Reach s
    → ((i j : ℕ) → s.stage i ≡ holding → s.stage j ≡ holding → i ≡ j)
      × ((i : ℕ) → s.stage i ≡ holding → s.lock.pid ≡ i)
      × (s.lock.locked ≡ false → (i : ℕ) → s.stage i ≢ asleep)
Reach-exclusive s r =
    let x = Reach-IsExclusive r in
    (
      (λ i j h k. sym (x.holder i h).1 ∙ (x.holder j k).1),
      (λ i h. (x.holder i h).1),
      (λ f i h. let b = x.awake i h in cc (f, b)),
    )

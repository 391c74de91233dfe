-- ===== src/Proc/Kill.antt =====
-- `kill`: which process it marks, and what it says of a pid that no process has.
use uw_cse451_operating_syst.Base.{
  ◌↔◌, ℕ, ◌<◌, ◌≡◌, ◌≢◌, inl, inr, true, false, arith, ◌==◌, if◌then◌else◌, Bool-cases,
  Option-cases,
}
use uw_cse451_operating_syst.Proc.{
  find_from, kill, sleeping, runnable, state_eq, Proc, ProcTable, max_procs,
}
use uw_cse451_operating_syst.Proc.Search.{find_from-found, find_from-some}
use uw_cse451_operating_syst.Proc.Valid.{is_used, HasPids}

-- The mark and the wake-up, and nothing else, on one process.
abbrev pub killed_proc : Proc → Proc
killed_proc p = record p {
  killed = true;
  state = if state_eq p.state sleeping then runnable else p.state;
}

kill_target :
    (t : ProcTable) (i k : ℕ)
    → HasPids t
    → is_used (t.proc i) ≡ true
    → ((j : ℕ) → is_used (t.proc j) ≡ false → (t.proc j).pid ≢ (t.proc i).pid)
    → (t.proc k).pid ≡ (t.proc i).pid
    → k ≡ i
kill_target t i k h u stale e = elim (Bool-cases (is_used (t.proc k))) [
  | inl used ↦ h.distinct k i used u e
  | inr free ↦ absurd (stale k free e)
]

-- `kill` of the id of a process in use succeeds; it marks that process and makes it runnable if it
-- slept, and every other process in use is as before.
pub kill-used :
    (t : ProcTable) (i : ℕ)
    → HasPids t
    → i < max_procs
    → is_used (t.proc i) ≡ true
    → ((j : ℕ) → is_used (t.proc j) ≡ false → (t.proc j).pid ≢ (t.proc i).pid)
    → ((kill (t.proc i).pid t).0 ≡ true)
      × (((kill (t.proc i).pid t).1.proc i) ≡ killed_proc (t.proc i))
      × ((j : ℕ) → j ≢ i → (kill (t.proc i).pid t).1.proc j ≡ t.proc j)
unfolding kill
kill-used t i h l u stale =
    let (k, e, f) =
      find_from-found (λ p. p.pid == (t.proc i).pid) t.proc max_procs i l (ground arith) in
    let same : k ≡ i = kill_target t i k h u stale (ground (arith, f.passes)) in
    (
      rw (e, kill),
      rw (e, kill) (rw same (ground arith)),
      λ j ne. rw (e, kill) (rw same (ground arith)),
    )

-- A table with a free slot whose pid is 0, as every slot is at the start and after `wait`, answers
-- `kill(0)` with success, though no process in use has that id.
pub kill_zero :
    (t : ProcTable) (i : ℕ)
    → HasPids t
    → i < max_procs
    → is_used (t.proc i) ≡ false
    → (t.proc i).pid ≡ 0
    → ((kill 0 t).0 ≡ true) × ((j : ℕ) → is_used (t.proc j) ≡ true → (t.proc j).pid ≢ 0)
unfolding kill
kill_zero t i h l u z =
    let (k, e, f) = find_from-found (λ p. p.pid == 0) t.proc max_procs i l (ground (arith, z)) in
    (rw (e, kill), λ j uj. ground (arith, h.bounded j))

-- `kill` fails exactly if no entry of the table, used or not, has the pid, and then changes nothing.
pub kill_fails :
    (t : ProcTable) (pid : ℕ)
    → ((kill pid t).0 ≡ false) ↔ ((j : ℕ) → j < max_procs → (t.proc j).pid ≢ pid)
unfolding kill
kill_fails t pid = (none_has, fails)
  where
    none_has : (kill pid t).0 ≡ false → (j : ℕ) → j < max_procs → (t.proc j).pid ≢ pid
    none_has h j l e =
        let (k, e', f) =
          find_from-found (λ p. p.pid == pid) t.proc max_procs j l (ground (arith, e)) in
        cc (rw (e', kill) at h)

    fails : ((j : ℕ) → j < max_procs → (t.proc j).pid ≢ pid) → (kill pid t).0 ≡ false
    fails h = elim (Option-cases (find_from (λ p. p.pid == pid) t.proc max_procs 0)) [
      | inl e ↦ rw (e, kill)
      | inr (k, e) ↦
          let f = find_from-some (λ p. p.pid == pid) t.proc max_procs 0 e in
          absurd (h k (omega (arith, f.in_table)) (ground (arith, f.passes)))
    ]

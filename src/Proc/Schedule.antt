-- ===== src/Proc/Schedule.antt =====
-- A pass of the scheduler gives every runnable process its turn.
use uw_cse451_operating_syst.Base.{
  ℕ, zero, suc, ◌+◌, ◌-◌, ◌<◌, ◌≡◌, ◌≢◌, inl, inr, ap, ◌∙◌, true, some, arith, Bool-cases,
}
use uw_cse451_operating_syst.Proc.{
  set_state, schedule_pass, dispatch, runnable, running, state_eq, ProcTable, max_procs,
}
use uw_cse451_operating_syst.Proc.Lifecycle.{enter, leave}

-- While another process has the processor, a runnable process stays runnable.
abbrev pub SparesOthers : (ℕ → ProcTable → ProcTable) → Type 0
SparesOthers run =
    (j i : ℕ) (t : ProcTable)
    → j ≢ i
    → (t.proc i).state ≡ runnable
    → ((run j t).proc i).state ≡ runnable

dispatch-runnable :
    (run : ℕ → ProcTable → ProcTable) (j i : ℕ) (t : ProcTable)
    → SparesOthers run
    → j ≢ i
    → (t.proc i).state ≡ runnable
    → ((dispatch run j t).proc i).state ≡ runnable
unfolding dispatch
dispatch-runnable run j i t spare ne r = elim (Bool-cases (state_eq (t.proc j).state runnable)) [
  | inl go ↦
      rw (go, dispatch)
        (spare j i (set_state j running (record t { current = some j })) ne (ground (arith, r)))
  | inr skip ↦ rw (skip, dispatch) r
]

reaches :
    (run : ℕ → ProcTable → ProcTable)
    → SparesOthers run
    → (d n i j : ℕ) (t : ProcTable) → j ≡ i + d
    → (t.proc j).state ≡ runnable
    → (u : ProcTable) × ((u.proc j).state ≡ runnable)
      × (schedule_pass run (suc (d + n)) i t ≡ schedule_pass run n (j + 1) (dispatch run j u))
unfolding schedule_pass
reaches run spare zero n i j t e r =
    let e' : j ≡ i = omega arith in let e'' : zero + n ≡ n = omega arith in (t, r, rw (e', e''))
reaches run spare (suc d) n i j t e r =
    let ne : i ≢ j = omega arith in
    let e' : suc d + n ≡ suc (d + n) = omega arith in
    let (u, r', go) =
      reaches run spare d n (i + 1) j (dispatch run i t) (omega arith)
        (dispatch-runnable run i j t spare ne r) in
    (u, r', rw e' go)

dispatch_runs :
    (run : ℕ → ProcTable → ProcTable) (i : ℕ) (u : ProcTable)
    → (u.proc i).state ≡ runnable
    → dispatch run i u ≡ leave (run i (enter i u))
unfolding dispatch
dispatch_runs run i u r =
    let go : state_eq (u.proc i).state runnable ≡ true = ground (arith, r) in rw (go, dispatch)

-- Whatever stands in the table, one pass of `scheduler` comes to each process `i` that was runnable
-- at its start, finds it runnable, hands it the processor in the state `running`, and goes on with
-- the entry behind it. The condition is that no process takes another out of `runnable`.
pub schedule_pass-runs :
    (run : ℕ → ProcTable → ProcTable) (i : ℕ) (t : ProcTable)
    → SparesOthers run
    → i < max_procs
    → (t.proc i).state ≡ runnable
    → (u : ProcTable) × ((u.proc i).state ≡ runnable)
      × (schedule_pass run max_procs 0 t
          ≡ schedule_pass run (63 - i) (i + 1) (leave (run i (enter i u))))
schedule_pass-runs run i t spare l r =
    let (u, r', go) = reaches run spare i (63 - i) 0 i t (omega arith) r in
    let e : suc (i + (63 - i)) ≡ max_procs = omega arith in
    (u, r', (rw e at go) ∙ ap (schedule_pass run (63 - i) (i + 1)) (dispatch_runs run i u r'))

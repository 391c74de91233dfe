-- ===== src/Proc/Fork.antt =====
-- `fork`, run without a break, is a sequence of the steps of the process table.
use uw_cse451_operating_syst.Base.{
  Option, ℕ, ◌+◌, ◌^◌, ◌<◌, ◌≡◌, ◌∙◌, inl, inr, refl, some, arith, Option-cases,
}
use uw_cse451_operating_syst.Proc.{
  is_unused, find_from, claim_slot, allocproc, give_stack, fork, embryo, ProcTable, max_procs,
}
use uw_cse451_operating_syst.Proc.Lifecycle.{Reach, here, next, claims, gets_stack, starts}
use uw_cse451_operating_syst.Kalloc.{kalloc, Kmem}

-- What `allocproc` does: the slot that it returns is an embryo.
record Allocates (t : ProcTable) (r : Option ℕ × ProcTable × Kmem) : Type 0 where
  pub reached : Reach t r.1
  pub same_current : r.1.current ≡ t.current
  pub is_embryo : (i : ℕ) → r.0 ≡ some i → (r.1.proc i).state ≡ embryo

give_stack-current :
    (i : ℕ) (t : ProcTable) (m : ℕ × Kmem) → (give_stack i t m).1.current ≡ t.current
give_stack-current i t (stack, k) = ground arith

give_stack-embryo :
    (j : ℕ) (t : ProcTable) (m : ℕ × Kmem) (i : ℕ)
    → (give_stack j (claim_slot j t) m).0 ≡ some i
    → ((give_stack j (claim_slot j t) m).1.proc i).state ≡ embryo
give_stack-embryo j t (stack, k) i h = ground arith

claim_slot-embryo : (i : ℕ) (t : ProcTable) → ((claim_slot i t).proc i).state ≡ embryo
claim_slot-embryo i t = ground arith

allocproc-Allocates :
    (me : ℕ) (t : ProcTable) (k : Kmem)
    → t.current ≡ some me
    → t.next_pid + 1 < 2 ^ 31
    → Allocates t (allocproc t k)
unfolding allocproc
allocproc-Allocates me t k c room = elim (Option-cases (find_from is_unused t.proc max_procs 0)) [
  | inl e ↦
      rw (e, allocproc) (record { reached = here; same_current = refl; is_embryo = λ i h. cc })
  | inr (j, e) ↦
      rw (e, allocproc)
        (record {
          reached =
              next (next here (claims me j c e room))
                (gets_stack me j (kalloc k) c (claim_slot-embryo j t));
          same_current = give_stack-current j (claim_slot j t) (kalloc k);
          is_embryo = give_stack-embryo j t (kalloc k);
        })
]

-- `fork` by the process on the processor, with no other process in between, is a sequence of steps of
-- the table, whether it finds a slot and memory or not.
fork-Reach :
    (me : ℕ) (t : ProcTable) (k : Kmem)
    → t.current ≡ some me
    → t.next_pid + 1 < 2 ^ 31
    → Reach t (fork me t k).1
unfolding fork
fork-Reach me t k c room =
    let a = allocproc-Allocates me t k c room in
    elim (Option-cases (allocproc t k).0) [
      | inl e ↦ rw (e, fork) a.reached
      | inr (i, e) ↦
          rw (e, fork) (next a.reached (starts me i (a.same_current ∙ c) (a.is_embryo i e)))
    ]

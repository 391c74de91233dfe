-- ===== src/Vspace/Exec.antt =====
-- `exec` of kernel/exec.c: a new address space is made beside that of the process, with the program and
-- its arguments, and copied over it at the end.
use uw_cse451_operating_syst.Base.{
  ◌/◌, ◌%◌, ◌^◌, ℕ, zero, suc, ◌+◌, ◌*◌, Bool, false, Option, none, some, List, [], ◌∷◌, ◌++◌, ◌==◌,
  if◌then◌else◌, length,
}
use uw_cse451_operating_syst.Base.Outcome.{Outcome, done, panic, ◌>>=◌}
use uw_cse451_operating_syst.Base.Machine.{add64, sub64}
use uw_cse451_operating_syst.Kalloc.{Kmem}
use uw_cse451_operating_syst.Vspace.Table.{Vspace, PageTable}
use uw_cse451_operating_syst.Vspace.Cow.{vspacecopy}
use uw_cse451_operating_syst.Vspace.Map.{vspaceinit, vspaceinitstack}
use uw_cse451_operating_syst.Vspace.Growth.{vspacewritetova, vspacefree}
use uw_cse451_operating_syst.Vspace.Load.{Reader, vspaceloadcode}

-- The registers of the trap frame that are set.
pub record Registers : Type 0 where
  pub rip : ℕ
  pub rsi : ℕ
  pub rdi : ℕ
  pub rsp : ℕ

-- SZ_2G
abbrev pub stack_top : ℕ
stack_top = 2 ^ 31

-- The room for an argument on the stack.
abbrev pub arg_room : List ℕ → ℕ
arg_room s = (length s + 1 + 8) / 8 * 8

-- The loop that writes the arguments, each with its NUL, with their addresses in order.
unfoldable pub write_args :
    (args : List (List ℕ))
    → (va : ℕ) → Vspace
    → Kmem
    → Outcome (Option (ℕ × List ℕ) × Vspace × Kmem)
write_args [] va vs k = done (some (va, []), vs, k)
write_args (s ∷ args) va vs k =
    let at = sub64 va (arg_room s) in
    vspacewritetova vs at (s ++ 0 ∷ []) k >>= (λ (ok, vs1, k1).
      if ok
      then write_args args at vs1 k1 >>= (λ (o, vs2, k2). done (elim o [
        | none ↦ (none, vs2, k2)
        | some (end, pointers) ↦ (some (end, at ∷ pointers), vs2, k2)
      ]))
      else done (none, vs1, k1))

-- The bytes of a word, the lowest first.
unfoldable pub word_bytes : (count w : ℕ) → List ℕ
word_bytes zero w = []
word_bytes (suc count) w = w % 256 ∷ word_bytes count (w / 256)

unfoldable pub words_bytes : List ℕ → List ℕ
words_bytes [] = []
words_bytes (w ∷ ws) = word_bytes 8 w ++ words_bytes ws

-- The stack with the arguments, the array of their addresses between two zeros below them. The result is the
-- address of the array.
unfoldable pub build_stack :
    (args : List (List ℕ)) → Vspace → Kmem → Outcome (Option ℕ × Vspace × Kmem)
build_stack args vs k = write_args args stack_top vs k >>= (λ (o, vs1, k1). elim o [
  | none ↦ done (none, vs1, k1)
  | some (end, pointers) ↦
      let va = sub64 end ((length args + 2) * 8) in
      vspacewritetova vs1 va (words_bytes (0 ∷ pointers ++ 0 ∷ [])) k1
      >>= (λ (ok, vs2, k2). done ((if ok then some va else none), vs2, k2))
])

-- The new space, with the entry of the program and the address of the array.
unfoldable pub new_program :
    (namei : Option Reader)
    → (args : List (List ℕ)) → (temp : Vspace) → (uninitialized : ℕ) → Kmem
    → Outcome (Option (ℕ × ℕ) × Vspace × Kmem)
new_program namei args temp uninitialized k =
    vspaceloadcode namei temp uninitialized k >>= (λ (o, vs1, k1). elim o [
      | none ↦ done (none, vs1, k1)
      | some (sz, rip) ↦
          if sz == 0
          then done (none, vs1, k1)
          else vspaceinitstack vs1 stack_top k1 >>= (λ (ok, vs2, k2).
            if ok
            then build_stack args vs2 k2 >>= (λ (p, vs3, k3). elim p [
              | none ↦ done (none, vs3, k3)
              | some va ↦ done (some (rip, va), vs3, k3)
            ])
            else done (none, vs2, k2))
    ])

-- `exec` in a process with space `vs` and registers `tf`, with what `setupkvm` gives for the new space, whose
-- failure is not looked at in the source and has no meaning. The file behind the path is an argument.
-- `false` is -1. `vspaceinstall` only sets registers of the processor.
unfoldable pub exec :
    (setupkvm : PageTable)
    → (namei : Option Reader) → (args : List (List ℕ)) → (uninitialized : ℕ) → Registers
    → Vspace
    → Kmem
    → Outcome (Bool × Registers × Vspace × Kmem)
exec setupkvm namei args uninitialized tf vs k = elim (vspaceinit (some setupkvm)) [
  | none ↦ panic
  | some empty ↦ new_program namei args empty uninitialized k >>= (λ (o, temp, k1). elim o [
    | none ↦ vspacefree temp k1 >>= (λ (freed, k2). done (false, tf, vs, k2))
    | some (entry, va) ↦
        let tf1 = record tf { rip = entry; rsi = add64 va 8; rdi = length args; rsp = va } in
        vspacecopy vs temp k1 >>= (λ (ok, vs1, temp1, k2).
          vspacefree temp1 k2 >>= (λ (freed, k3). done (ok, tf1, vs1, k3)))
  ])
]

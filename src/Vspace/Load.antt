-- ===== src/Vspace/Load.antt =====
-- The loading of a program: `vrloaddata` and `vspaceloadcode` of kernel/vspace.c. What `readi` gives of the
-- program's inode is an argument, at an offset for a size; the inode is locked from `namei` to the end.
use uw_cse451_operating_syst.Base.{
  ◌/◌, ◌||◌, min, get_or, ℕ, zero, suc, ◌+◌, ◌-◌, ◌*◌, ◌%◌, ◌^◌, Bool, true, false, not, Option,
  none, some, List, ◌==◌, ltb, if◌then◌else◌, length,
}
use uw_cse451_operating_syst.Base.Outcome.{Outcome, done, panic, ◌>>=◌}
use uw_cse451_operating_syst.Base.Machine.{int_round_up, add64, is_negative, int_to_u64}
use uw_cse451_operating_syst.Kalloc.{Kmem}
use uw_cse451_operating_syst.Vspace.{Region, va2vpage_info, get_info}
use uw_cse451_operating_syst.Vspace.Table.{Vspace}
use uw_cse451_operating_syst.Vspace.Map.{
  vregionaddmap, write_frame, with_region, region_or_empty, vr_code, vr_heap,
}

-- `readi` with its bytes, or nothing for -1.
abbrev pub Reader : Type 0
Reader = (off n : ℕ) → Option (List ℕ)

-- A read that must give all bytes.
unfoldable pub read_all : Reader → (off n : ℕ) → Option (List ℕ)
read_all read off n = elim (read off n) [
  | none ↦ none
  | some bytes ↦ if length bytes == n then some bytes else none
]

-- The number in `count` bytes from `at` on, the lowest first.
unfoldable pub field : (bytes : List ℕ) → (at count : ℕ) → ℕ
field bytes at zero = 0
field bytes at (suc count) = get_or bytes at 0 + 256 * field bytes (at + 1) count

-- The fields of `struct elfhdr` and `struct proghdr` that are used.
pub record ElfHeader : Type 0 where
  pub magic : ℕ
  pub entry : ℕ
  pub phoff : ℕ
  pub phnum : ℕ

abbrev pub elf_header : List ℕ → ElfHeader
elf_header bs = record {
  magic = field bs 0 4;
  entry = field bs 24 8;
  phoff = field bs 32 8;
  phnum = field bs 56 2;
}

pub record ProgHeader : Type 0 where
  pub type : ℕ
  pub off : ℕ
  pub vaddr : ℕ
  pub filesz : ℕ
  pub memsz : ℕ

abbrev pub prog_header : List ℕ → ProgHeader
prog_header bs = record {
  type = field bs 0 4;
  off = field bs 8 8;
  vaddr = field bs 16 8;
  filesz = field bs 32 8;
  memsz = field bs 40 8;
}

-- The loop of `vrloaddata` with `count` pages left, `sz` bytes of them from `off` of the file on. `false` is -1.
unfoldable pub load_pages :
    Reader → (count : ℕ) → Region → (va off sz : ℕ) → Kmem → Outcome (Bool × Region × Kmem)
load_pages read zero r va off sz k = done (true, r, k)
load_pages read (suc count) r va off sz k = va2vpage_info r va k >>= (λ (o, r1, k1). elim o [
  | none ↦ panic
  | some idx ↦ elim (get_info r1.pages idx) [
    | none ↦ panic
    | some i ↦ if not i.used then panic else elim (read off (min sz 4096)) [
      | none ↦ done (false, r1, k1)
      | some bytes ↦
          let k2 = write_frame k1 i.ppn 0 bytes in
          elim (length bytes == min sz 4096) [
            | false ↦ done (false, r1, k2)
            | true ↦ load_pages read count r1 (add64 va 4096) ((off + 4096) % 2 ^ 32) (sz - 4096) k2
          ]
    ]
  ]
])

-- Offset and size are `uint`s. Above 2 ^ 32 - 4096 bytes the counter `i` of the source wraps around, which is
-- left out.
unfoldable pub vrloaddata :
    Reader → Region → (va off sz : ℕ) → Kmem → Outcome (Bool × Region × Kmem)
vrloaddata read r va off sz k =
    if va % 4096 == 0
    then load_pages read ((sz % 2 ^ 32 + 4095) / 4096) r va (off % 2 ^ 32) (sz % 2 ^ 32) k
    else panic

-- The two tests on a header that stand before the mapping.
abbrev pub bad_sizes : ProgHeader → Bool
bad_sizes ph = ltb ph.memsz ph.filesz || ltb (add64 ph.vaddr ph.memsz) ph.vaddr

-- One segment: the `int` that `vregionaddmap` returned, if all went well.
unfoldable pub load_segment :
    Reader → ProgHeader → (va : ℕ) → Region → Kmem → Outcome (Option ℕ × Region × Kmem)
load_segment read ph va r k =
    vregionaddmap r va (add64 ph.vaddr ph.memsz) true true k >>= (λ (sz, r1, k1).
      if is_negative sz
      then done (none, r1, k1)
      else if not (ph.vaddr % 4096 == 0)
      then done (none, r1, k1)
      else vrloaddata read r1 ph.vaddr ph.off ph.filesz k1
        >>= (λ (ok, r2, k2). done (if ok then some sz else none, r2, k2)))

-- The loop over the program headers, with `count` of them left from `off` on, and the last `sz`. Without
-- one to load, `sz` has no value in C; it is given as an argument.
unfoldable pub load_segments :
    Reader → (count off va sz : ℕ) → Region → Kmem → Outcome (Option ℕ × Region × Kmem)
load_segments read zero off va sz r k = done (some sz, r, k)
load_segments read (suc count) off va sz r k = elim (read_all read off 56) [
  | none ↦ done (none, r, k)
  | some bs ↦
      let ph = prog_header bs in
      let skip = load_segments read count ((off + 56) % 2 ^ 32) va sz r k in
      if not (ph.type == 1)
      then skip
      else if bad_sizes ph
      then done (none, r, k)
      else load_segment read ph va r k >>= (λ (o, r1, k1). elim o [
        | none ↦ done (none, r1, k1)
        | some n ↦ load_segments read count ((off + 56) % 2 ^ 32) (add64 va (int_to_u64 n)) n r1 k1
      ])
]

-- `vspaceloadcode` behind `namei`, which is nothing for a path that is not there. The result is `sz` and
-- `rip`, or nothing where the code goes to `elf_failure`, which returns 0. A `sz` of 0, which the callers
-- take for a failure as well, is left to them (`new_program` of Exec looks for it).
unfoldable pub vspaceloadcode :
    (namei : Option Reader)
    → Vspace
    → (uninitialized : ℕ) → Kmem
    → Outcome (Option (ℕ × ℕ) × Vspace × Kmem)
vspaceloadcode none vs uninitialized k = done (none, vs, k)
vspaceloadcode (some read) vs uninitialized k = elim (read_all read 0 64) [
  | none ↦ done (none, vs, k)
  | some bs ↦
      let elf = elf_header bs in
      let code = record (region_or_empty vs vr_code) { va_base = 0 } in
      if not (elf.magic == 0x464C457F)
      then done (none, vs, k)
      else load_segments read elf.phnum (elf.phoff % 2 ^ 32) 0 uninitialized code k
        >>= (λ (o, r, k1). elim o [
          | none ↦ done (none, with_region vs vr_code r, k1)
          | some sz ↦
              let end = int_round_up sz in
              let heap = record (region_or_empty vs vr_heap) { va_base = end; size = 0 } in
              done (
                some (sz, elf.entry),
                with_region (with_region vs vr_code (record r { size = end })) vr_heap heap,
                k1,
              )
        ])
]

-- ===== src/Examples/Loading.antt =====
-- A program of one page with four bytes of code, loaded on a small machine.
use uw_cse451_operating_syst.Base.{
  ℕ, zero, suc, ◌+◌, ◌-◌, ◌^◌, ◌≡◌, refl, Option, none, some, List, [], ◌∷◌, ◌++◌, take, drop,
}
use uw_cse451_operating_syst.Base.Machine.{kern_base}
use uw_cse451_operating_syst.Base.Outcome.{done}
use uw_cse451_operating_syst.Kalloc.{
  mark_user_mem, Kmem, kalloc, claim_page, find_available, pa2page,
}
use uw_cse451_operating_syst.Vspace.{
  down, va2vregion, up, zeroed_page, first_page, extend_pages, va2vpage_info, va2vpi_idx,
  empty_page,
}
use uw_cse451_operating_syst.Vspace.Table.{
  Vspace, map_user_page, map_region, map_regions, vspaceinvalidate,
}
use uw_cse451_operating_syst.Vspace.Exec.{
  new_program, build_stack, write_args, words_bytes, word_bytes,
}
use uw_cse451_operating_syst.Vspace.Growth.{vspacewritetova, write_loop}
use uw_cse451_operating_syst.Vspace.Map.{vspaceinitstack, empty_region, vregionaddmap, add_pages}
use uw_cse451_operating_syst.Vspace.Load.{
  Reader, elf_header, vspaceloadcode, read_all, load_segments, load_segment, vrloaddata, load_pages,
  field,
}
use uw_cse451_operating_syst.Vspace.Program.{Loaded, vspaceloadcode-Loaded}
use uw_cse451_operating_syst.Examples.Spaces.{machine, result}

abbrev zeros : ℕ → List ℕ
zeros zero = []
zeros (suc n) = 0 ∷ zeros n

-- Magic number, entry 2, program headers at 64, one of them.
abbrev elf_bytes : List ℕ
elf_bytes =
    (0x7F ∷ 0x45 ∷ 0x4C ∷ 0x46 ∷ zeros 20) ++ (2 ∷ zeros 7) ++ (64 ∷ zeros 23) ++ (1 ∷ zeros 7)

-- To be loaded from 120, to address 0, four bytes of the file and eight of memory.
abbrev program_bytes : List ℕ
program_bytes = (1 ∷ zeros 7) ++ (120 ∷ zeros 23) ++ (4 ∷ zeros 7) ++ (8 ∷ zeros 15)

abbrev file_bytes : List ℕ
file_bytes = elf_bytes ++ program_bytes ++ (11 ∷ 12 ∷ 13 ∷ 14 ∷ [])

abbrev file_reader : Reader
file_reader off n = some (take n (drop off file_bytes))

abbrev empty_space : Vspace
empty_space = record {
  regions =
      record (empty_region up) { pages = empty_page (kern_base + 4096) ∷ [] }
      ∷ empty_region up
      ∷ empty_region up
      ∷ [];
  pgtbl = λ vpn. none;
}

abbrev loaded : Option (ℕ × ℕ) × Vspace × Kmem
loaded =
    result (vspaceloadcode (some file_reader) empty_space 0 (machine 1))
      (none, empty_space, machine 1)

vspaceloadcode_run :
    vspaceloadcode (some file_reader) empty_space 0 (machine 1)
    ≡ done (some (8, 2), loaded.1, loaded.2)
unfolding vspaceloadcode read_all load_segments load_segment vrloaddata load_pages field
    vregionaddmap add_pages va2vpage_info first_page va2vpi_idx extend_pages zeroed_page kalloc
    find_available claim_page pa2page
vspaceloadcode_run = refl

vspaceloadcode-Loaded_example :
    (bs : List ℕ) × (read_all file_reader 0 64 ≡ some bs)
    × ((elf_header bs).magic ≡ 0x464C457F)
    × (2 ≡ (elf_header bs).entry)
    × Loaded empty_space loaded.1 4096
vspaceloadcode-Loaded_example =
    vspaceloadcode-Loaded file_reader empty_space loaded.1 0 8 2 (machine 1) loaded.2
      vspaceloadcode_run

abbrev fresh_space : Vspace
fresh_space = record {
  regions =
      record (empty_region up) { pages = empty_page (kern_base + 4096) ∷ [] }
      ∷ empty_region up
      ∷ record (empty_region down) { pages = empty_page (kern_base + 8192) ∷ [] }
      ∷ [];
  pgtbl = λ vpn. none;
}

abbrev started : Option (ℕ × ℕ) × Vspace × Kmem
started =
    result (new_program (some file_reader) ((65 ∷ []) ∷ []) fresh_space 0 (machine 1))
      (none, fresh_space, machine 1)

-- The entry, and the address of the three words below the argument.
started_run : started.0 ≡ some (2, 2 ^ 31 - 32)
unfolding new_program build_stack write_args words_bytes word_bytes vspaceinitstack vspaceinvalidate
    map_regions map_region map_user_page vspacewritetova write_loop vspaceloadcode read_all
    load_segments load_segment vrloaddata load_pages field vregionaddmap add_pages va2vpage_info
    first_page va2vpi_idx extend_pages zeroed_page kalloc find_available claim_page mark_user_mem
    pa2page va2vregion
started_run = refl

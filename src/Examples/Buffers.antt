-- ===== src/Examples/Buffers.antt =====
-- A cache of two buffers.
use uw_cse451_operating_syst.Base.{◌≡◌, refl, true, false, List, [], ◌∷◌, arith, ◌==◌}
use uw_cse451_operating_syst.Base.Outcome.{done}
use uw_cse451_operating_syst.Bio.{
  update, recycle, find_block, Buf, bget, binit, free_buf, for_block,
}
use uw_cse451_operating_syst.Bio.Unique.{copies, bget-IsUnique, IsUnique}

abbrev two_free : List Buf
two_free = free_buf 1 ∷ free_buf 0 ∷ []

two_free_made : binit 2 0 [] ≡ two_free
unfolding binit
two_free_made = refl

abbrev seventh : Buf
seventh = record (for_block (free_buf 0) 1 7) { locked = true }

abbrev with_seventh : List Buf
with_seventh = free_buf 1 ∷ seventh ∷ []

get_seventh : bget two_free 1 7 ≡ done (seventh, with_seventh)
unfolding bget find_block recycle update
get_seventh = refl

two_free-IsUnique : IsUnique two_free
unfolding copies
two_free-IsUnique dev k h = let ne : 0 == dev ≡ false = ground arith in rw ne (omega arith)

bget-IsUnique_example : IsUnique with_seventh
bget-IsUnique_example =
    bget-IsUnique two_free with_seventh 1 7 seventh get_seventh two_free-IsUnique

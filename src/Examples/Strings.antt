-- ===== src/Examples/Strings.antt =====
-- kernel/string.c on a memory that holds "ab" at 10, "abc" at 20 and zeros elsewhere.
use uw_cse451_operating_syst.Base.{ℕ, ◌+◌, ◌≡◌, refl, List, [], ◌∷◌, ◌==◌, ltb, if◌then◌else◌}
use uw_cse451_operating_syst.StringC.{copy_down, strncmp, memmove, Memory}
use uw_cse451_operating_syst.Base.Int.{negsuc}

abbrev byte_at : ℕ → List ℕ → ℕ → ℕ → ℕ
byte_at a [] base b = 0
byte_at a (v ∷ vs) base b = if base == b then v else byte_at a vs (base + 1) b

abbrev sample : Memory
sample b =
    if ltb b 20 then byte_at 0 (b'a' ∷ b'b' ∷ []) 10 b else byte_at 0 (b'a' ∷ b'b' ∷ b'c' ∷ []) 20 b

overlapping_move : memmove 21 20 3 sample 23 ≡ b'c'
unfolding memmove copy_down
overlapping_move = refl

shorter_is_less : strncmp 10 20 14 sample ≡ negsuc 98
unfolding strncmp
shorter_is_less = refl

-- ===== src/Examples/Paths.antt =====
-- Paths as in the comment on `skipelem`.
use uw_cse451_operating_syst.Base.{take, ℕ, ◌≡◌, ◌⊎◌, refl, none, some, List, [], ◌∷◌}
use uw_cse451_operating_syst.Paths.{span_name, skip_slashes, skipelem}
use uw_cse451_operating_syst.Paths.Elements.{pieces, skipelem_lem, elements}

-- "///a//bb"
abbrev slashes : List ℕ
slashes = 47 ∷ 47 ∷ 47 ∷ 97 ∷ 47 ∷ 47 ∷ 98 ∷ 98 ∷ []

skipelem-slashes : skipelem slashes ≡ some (97 ∷ [], 98 ∷ 98 ∷ [])
unfolding skipelem skip_slashes span_name
skipelem-slashes = refl

skipelem-none : skipelem (47 ∷ 47 ∷ []) ≡ none
unfolding skipelem skip_slashes span_name
skipelem-none = refl

elements-slashes : elements slashes ≡ (97 ∷ []) ∷ (98 ∷ 98 ∷ []) ∷ []
unfolding pieces
elements-slashes = refl

skipelem_lem_example :
    ((skipelem slashes ≡ none) × (elements slashes ≡ []))
    ⊎ ((e : List ℕ) × (rest : List ℕ) × (skipelem slashes ≡ some (take 14 e, rest))
        × (elements slashes ≡ e ∷ elements rest))
skipelem_lem_example = skipelem_lem slashes

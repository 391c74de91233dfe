-- ===== src/User/Grep.antt =====
-- The pattern matcher of user/grep.c: `match`, `matchhere` and `matchstar`. A pattern and a text are the
-- lists of their bytes before the zero byte.
use uw_cse451_operating_syst.Base.{◌||◌, ℕ, Bool, true, false, List, [], ◌∷◌, ◌==◌, if◌then◌else◌}

-- `re[0] == '.' || re[0] == *text`
abbrev pub fits : (c t : ℕ) → Bool
fits c t = c == 46 || c == t

-- One character of the text, and `here` behind it.
abbrev pub matchone : (c : ℕ) → (here : List ℕ → Bool) → List ℕ → Bool
matchone c here [] = false
matchone c here (t ∷ text) = let rest = here text in if fits c t then rest else false

-- `here` is `matchhere` of the pattern behind the star.
abbrev pub matchstar : (c : ℕ) → (here : List ℕ → Bool) → List ℕ → Bool
matchstar c here [] = here []
matchstar c here (t ∷ text) =
    let rest = matchstar c here text in
    if here (t ∷ text) then true else if fits c t then rest else false

abbrev pub is_end : List ℕ → Bool
is_end [] = true
is_end (t ∷ text) = false

unfoldable pub matchhere : (re text : List ℕ) → Bool
matchhere [] text = true
matchhere (c ∷ []) text = if c == 36 then is_end text else matchone c (λ t. true) text
matchhere (c ∷ d ∷ re) text =
    let star = matchstar c (λ t. matchhere re t) text in
    let one = matchone c (λ t. matchhere (d ∷ re) t) text in if d == 42 then star else one

-- The loop of `match` over the ends of the text.
unfoldable pub match_from : (re text : List ℕ) → Bool
match_from re [] = matchhere re []
match_from re (t ∷ text) =
    let rest = match_from re text in if matchhere re (t ∷ text) then true else rest

abbrev pub match_at : (c : ℕ) → (re text : List ℕ) → Bool
match_at c re text = if c == 94 then matchhere re text else match_from (c ∷ re) text

unfoldable pub match_text : (re text : List ℕ) → Bool
match_text [] text = match_from [] text
match_text (c ∷ re) text = match_at c re text

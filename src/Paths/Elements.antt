-- ===== src/Paths/Elements.antt =====
-- `skipelem` against the elements of a path: the pieces between slashes that are not empty.
use uw_cse451_operating_syst.Base.{
  List-cases, take, ℕ, ◌≡◌, ◌⊎◌, inl, inr, refl, sym, ap, ◌∙◌, false, none, some, List, [], ◌∷◌,
  ◌==◌, if◌then◌else◌, Bool-cases,
}
use uw_cse451_operating_syst.Paths.{skipelem, skip_slashes, span_name, skip_name}

-- A byte in front of the first piece.
abbrev push : ℕ → List (List ℕ) → List (List ℕ)
push c [] = (c ∷ []) ∷ []
push c (p ∷ ps) = (c ∷ p) ∷ ps

-- The pieces between the slashes, empty ones included.
unfoldable pub pieces : List ℕ → List (List ℕ)
pieces [] = [] ∷ []
pieces (c ∷ cs) = let rest = pieces cs in if c == 47 then [] ∷ rest else push c rest

abbrev nonempty : List (List ℕ) → List (List ℕ)
nonempty [] = []
nonempty ([] ∷ ps) = nonempty ps
nonempty ((c ∷ p) ∷ ps) = (c ∷ p) ∷ nonempty ps

abbrev pub elements : List ℕ → List (List ℕ)
elements path = nonempty (pieces path)

elements-skip_slashes : (path : List ℕ) → elements (skip_slashes path) ≡ elements path
unfolding skip_slashes pieces
elements-skip_slashes [] = refl
elements-skip_slashes (c ∷ cs) = elim (Bool-cases (c == 47)) [
  | inl e ↦ rw e (elements-skip_slashes cs)
  | inr e ↦ rw (e, e)
]

-- What `skip_slashes` leaves does not start with a slash.
skip_slashes-head :
    (path : List ℕ) (c : ℕ) (cs : List ℕ) → skip_slashes path ≡ c ∷ cs → c == 47 ≡ false
unfolding skip_slashes
skip_slashes-head [] c cs h = cc
skip_slashes-head (d ∷ ds) c cs h = elim (Bool-cases (d == 47)) [
  | inl e ↦ skip_slashes-head ds c cs (rw e at h)
  | inr e ↦ let dc : d ≡ c = cc (rw e at h) in rw⁻¹ dc e
]

-- The pieces of a path begin with what `span_name` passes.
pieces-span_name :
    (path : List ℕ)
    → (ps : List (List ℕ)) × (pieces path ≡ (span_name path).0 ∷ ps)
      × (nonempty ps ≡ elements (span_name path).1)
unfolding pieces span_name
pieces-span_name [] = ([], refl, refl)
pieces-span_name (c ∷ cs) = elim (Bool-cases (c == 47)) [
  | inl e ↦ (pieces cs, rw e, rw (e, e))
  | inr e ↦ let (ps, a, b) = pieces-span_name cs in (ps, rw (e, a), rw (e, b))
]

nonempty-cons :
    (p : List ℕ) (c : ℕ) (q : List ℕ) (ps : List (List ℕ))
    → p ≡ c ∷ q
    → nonempty (p ∷ ps) ≡ p ∷ nonempty ps
nonempty-cons p c q ps h = rw h

skip_name-elements :
    (c : ℕ) (cs : List ℕ)
    → c == 47 ≡ false
    → (e : List ℕ) × (rest : List ℕ) × (skip_name (c ∷ cs) ≡ some (take 14 e, rest))
      × (elements (c ∷ cs) ≡ e ∷ elements rest)
unfolding span_name
skip_name-elements c cs h =
    let (ps, a, b) = pieces-span_name (c ∷ cs) in
    let first : (span_name (c ∷ cs)).0 ≡ c ∷ (span_name cs).0 = rw (span_name, h) in
    let e : List ℕ = (span_name (c ∷ cs)).0 in
    let left : List ℕ = (span_name (c ∷ cs)).1 in
    (
      e,
      skip_slashes left,
      refl,
      ap nonempty a
          ∙ nonempty-cons e c (span_name cs).0 ps first
          ∙ ap (λ qs. e ∷ qs) (b ∙ sym (elements-skip_slashes left)),
    )

-- `skipelem` returns 0 exactly when the path has no element left, and else the first element, cut to 14
-- bytes, with a path that has the other elements.
pub skipelem_lem :
    (path : List ℕ)
    → ((skipelem path ≡ none) × (elements path ≡ []))
      ⊎ ((e : List ℕ) × (rest : List ℕ) × (skipelem path ≡ some (take 14 e, rest))
          × (elements path ≡ e ∷ elements rest))
unfolding skipelem pieces
skipelem_lem path = elim (List-cases (skip_slashes path)) [
  | inl h ↦ inl (ap skip_name h, sym (elements-skip_slashes path) ∙ ap elements h)
  | inr (c, cs, h) ↦
      let (e, rest, a, b) = skip_name-elements c cs (skip_slashes-head path c cs h) in
      inr (e, rest, ap skip_name h ∙ a, sym (elements-skip_slashes path) ∙ ap elements h ∙ b)
]

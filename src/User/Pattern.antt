-- ===== src/User/Pattern.antt =====
-- What the patterns of grep mean.
use uw_cse451_operating_syst.Base.{
  ◌↔◌, ℕ, ◌≡◌, ◌≢◌, ◌⊎◌, inl, inr, refl, sym, ap, ◌∙◌, Bool, true, false, List, [], ◌∷◌, ◌++◌,
  arith, ◌==◌, if◌then◌else◌, Bool-cases,
}
use uw_cse451_operating_syst.User.Grep.{
  match_text, fits, matchone, matchstar, is_end, matchhere, match_from,
}

-- A pattern: its end, `$`, a character, and a character with a star, in front of more.
pub data Pattern : Type 0 where
  finish dollar : Pattern
  char star : ℕ → Pattern → Pattern

unfoldable pub parse : List ℕ → Pattern
parse [] = finish
parse (c ∷ []) = if c == 36 then dollar else char c finish
parse (c ∷ d ∷ re) =
    let after = parse re in
    let next = parse (d ∷ re) in if d == 42 then star c after else char c next

-- The text begins as the pattern says.
pub data Begins : Pattern → List ℕ → Type 0 where
  ends : (text : List ℕ) → Begins finish text
  at_end : Begins dollar []
  one :
      (c t : ℕ) (p : Pattern) (text : List ℕ)
      → fits c t ≡ true
      → Begins p text
      → Begins (char c p) (t ∷ text)
  nothing : (c : ℕ) (p : Pattern) (text : List ℕ) → Begins p text → Begins (star c p) text
  more :
      (c t : ℕ) (p : Pattern) (text : List ℕ)
      → fits c t ≡ true
      → Begins (star c p) text
      → Begins (star c p) (t ∷ text)

-- A test decides how a text begins.
abbrev Decides : (List ℕ → Bool) → Pattern → Type 0
Decides here p = (text : List ℕ) → (here text ≡ true) ↔ Begins p text

no_char : {c : ℕ} {p : Pattern} → Begins (char c p) [] → ⊥
no_char b = elim b [ ]

Begins-char :
    {c t : ℕ} {p : Pattern} {text : List ℕ}
    → Begins (char c p) (t ∷ text)
    → (fits c t ≡ true) × Begins p text
Begins-char (one c t p text f b) = (f, b)

Begins-dollar : {text : List ℕ} → Begins dollar text → is_end text ≡ true
Begins-dollar at_end = refl

star-end : {c : ℕ} {p : Pattern} → Begins (star c p) [] → Begins p []
star-end (nothing c p text b) = b

star-next :
    {c t : ℕ} {p : Pattern} {text : List ℕ}
    → Begins (star c p) (t ∷ text)
    → Begins p (t ∷ text) ⊎ ((fits c t ≡ true) × Begins (star c p) text)
star-next (nothing c p text b) = inl b
star-next (more c t p text f b) = inr (f, b)

matchone-Decides :
    (c : ℕ) (here : List ℕ → Bool) (p : Pattern)
    → Decides here p
    → Decides (matchone c here) (char c p)
matchone-Decides c here p d [] = ((λ h. cc h), (λ b. absurd (no_char b)))
matchone-Decides c here p d (t ∷ text) = elim (Bool-cases (fits c t)) [
  | inl f ↦ rw f ((λ h. one c t p text f ((d text).0 h)), (λ b. (d text).1 (Begins-char b).1))
  | inr f ↦ rw f ((λ h. cc h), (λ b. sym f ∙ (Begins-char b).0))
]

matchstar-Decides :
    (c : ℕ) (here : List ℕ → Bool) (p : Pattern)
    → Decides here p
    → Decides (matchstar c here) (star c p)
matchstar-Decides c here p d [] = ((λ h. nothing c p [] ((d []).0 h)), (λ b. (d []).1 (star-end b)))
matchstar-Decides c here p d (t ∷ text) =
    let next = matchstar-Decides c here p d text in
    elim (Bool-cases (here (t ∷ text))) [
      | inl h ↦ rw h ((λ e. nothing c p (t ∷ text) ((d (t ∷ text)).0 h)), (λ b. refl))
      | inr h ↦
          let not_here : Begins p (t ∷ text) → ⊥ = λ b. cc (h, (d (t ∷ text)).1 b) in
          elim (Bool-cases (fits c t)) [
            | inl f ↦
                rw (h, f)
                  (
                    (λ e. more c t p text f (next.0 e)),
                    (λ b. elim (star-next b) [
                      | inl x ↦ absurd (not_here x)
                      | inr (g, x) ↦ next.1 x
                    ]),
                  )
            | inr f ↦
                rw (h, f)
                  (
                    (λ e. cc e),
                    (λ b. elim (star-next b) [
                      | inl x ↦ absurd (not_here x)
                      | inr (g, x) ↦ sym f ∙ g
                    ]),
                  )
          ]
    ]

dollar-Decides : Decides is_end dollar
dollar-Decides [] = ((λ h. at_end), (λ b. refl))
dollar-Decides (t ∷ text) = ((λ h. cc h), (λ b. Begins-dollar b))

finish-Decides : Decides (λ t. true) finish
finish-Decides text = ((λ h. ends text), (λ b. refl))

matchhere-Decides : (re : List ℕ) → Decides (λ text. matchhere re text) (parse re)
unfolding matchhere parse
matchhere-Decides [] text = ((λ h. ends text), (λ b. refl))
matchhere-Decides (c ∷ []) text = elim (Bool-cases (c == 36)) [
  | inl e ↦ rw e (dollar-Decides text)
  | inr e ↦ rw e (matchone-Decides c (λ t. true) finish finish-Decides text)
]
matchhere-Decides (c ∷ d ∷ re) text = elim (Bool-cases (d == 42)) [
  | inl e ↦ rw e (matchstar-Decides c (λ t. matchhere re t) (parse re) (matchhere-Decides re) text)
  | inr e ↦ rw e (
      matchone-Decides c (λ t. matchhere (d ∷ re) t) (parse (d ∷ re)) (matchhere-Decides (d ∷ re))
        text)
]

-- Somewhere in the text.
abbrev pub Somewhere : Pattern → List ℕ → Type 0
Somewhere p text = (before : List ℕ) × (after : List ℕ) × (text ≡ before ++ after) × Begins p after

Somewhere-later : {p : Pattern} {text : List ℕ} (t : ℕ) → Somewhere p text → Somewhere p (t ∷ text)
Somewhere-later t (before, after, e, b) = (t ∷ before, after, ap (λ z. t ∷ z) e, b)

Somewhere-cases :
    {p : Pattern} {t : ℕ} {text : List ℕ}
    → Somewhere p (t ∷ text)
    → Begins p (t ∷ text) ⊎ Somewhere p text
Somewhere-cases ([], after, e, b) = inl (rw e b)
Somewhere-cases (x ∷ before, after, e, b) = inr (before, after, cc e, b)

Somewhere-empty : {p : Pattern} → Somewhere p [] → Begins p []
Somewhere-empty ([], after, e, b) = rw e b
Somewhere-empty (x ∷ before, after, e, b) = cc e

match_from-Somewhere : (re text : List ℕ) → (match_from re text ≡ true) ↔ Somewhere (parse re) text
unfolding match_from
match_from-Somewhere re [] =
    let d = matchhere-Decides re [] in
    ((λ h. ([], [], refl, d.0 h)), (λ s. d.1 (Somewhere-empty s)))
match_from-Somewhere re (t ∷ text) =
    let d = matchhere-Decides re (t ∷ text) in
    let next = match_from-Somewhere re text in
    elim (Bool-cases (matchhere re (t ∷ text))) [
      | inl h ↦ rw h ((λ e. ([], t ∷ text, refl, d.0 h)), (λ s. refl))
      | inr h ↦ rw h (
        (λ e. Somewhere-later t (next.0 e)),
        (λ s. elim (Somewhere-cases s) [ inl b ↦ cc (h, d.1 b) | inr x ↦ next.1 x ]),
      )
    ]

-- `match` finds a pattern that starts with `^` exactly where the text begins as the rest of it says, and
-- any other pattern exactly where some end of the text does, the empty one included.
pub match_text_lem :
    (re text : List ℕ)
    → ((match_text (94 ∷ re) text ≡ true) ↔ Begins (parse re) text)
      × (((c : ℕ) (rest : List ℕ) → re ≡ c ∷ rest → c ≢ 94)
          → (match_text re text ≡ true) ↔ Somewhere (parse re) text)
unfolding match_text
match_text_lem [] text = (matchhere-Decides [] text, (λ n. match_from-Somewhere [] text))
match_text_lem (c ∷ re) text = (
  matchhere-Decides (c ∷ re) text,
  (λ n.
      let apart : c ≢ 94 = n c re refl in
      let f : c == 94 ≡ false = ground arith in rw f (match_from-Somewhere (c ∷ re) text)),
)

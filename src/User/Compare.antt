-- ===== src/User/Compare.antt =====
-- `strcmp` and `strchr` of user/ulib.c.
use uw_cse451_operating_syst.Base.{
  ◌↔◌, ℕ, suc, ◌≡◌, ◌≢◌, inl, inr, refl, sym, ap, ◌∙◌, true, some, List, [], ◌∷◌, arith, ◌==◌,
  get_elem?, ℕ-cases,
}
use uw_cse451_operating_syst.Base.Int.{pos, sub_ℕ}
use uw_cse451_operating_syst.User.{strcmp}

-- No byte is zero.
abbrev pub IsText : List ℕ → Type 0
IsText xs = (m : ℕ) (c : ℕ) → get_elem? xs m ≡ some c → c ≢ 0

strcmp_self : (xs : List ℕ) → strcmp xs xs ≡ pos 0
unfolding strcmp
strcmp_self [] = refl
strcmp_self (x ∷ xs) = let t : x == x ≡ true = ground arith in rw t (strcmp_self xs)

strcmp-equal : (xs ys : List ℕ) → IsText xs → IsText ys → strcmp xs ys ≡ pos 0 → xs ≡ ys
unfolding strcmp
strcmp-equal [] [] tx ty h = refl
strcmp-equal [] (y ∷ ys) tx ty h = absurd (ty 0 y refl (ground arith))
strcmp-equal (x ∷ xs) [] tx ty h = absurd (tx 0 x refl (ground arith))
strcmp-equal (x ∷ xs) (y ∷ ys) tx ty h = elim (ℕ-cases x y) [
  | inl e ↦
      let t : x == y ≡ true = ground arith in
      let rest = strcmp-equal xs ys (λ m. tx (suc m)) (λ m. ty (suc m)) (rw t at h) in cc (e, rest)
  | inr ne ↦
      let d : sub_ℕ x y ≡ pos 0 = rw ne at h in
      let apart : x ≢ y = ground arith in absurd (apart (ground arith))
]

-- `strcmp` is 0 exactly for equal strings.
pub strcmp_lem : (xs ys : List ℕ) → IsText xs → IsText ys → (strcmp xs ys ≡ pos 0) ↔ (xs ≡ ys)
strcmp_lem xs ys tx ty =
    (strcmp-equal xs ys tx ty, (λ e. ap (λ z. strcmp xs z) (sym e) ∙ strcmp_self xs))

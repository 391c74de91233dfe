-- ===== src/User/Lines.antt =====
-- `gets` of user/ulib.c.
use uw_cse451_operating_syst.Base.{
  ◌||◌, ℕ, zero, suc, ◌-◌, ◌≤◌, ◌<◌, ◌≡◌, ◌≢◌, ◌⊎◌, inl, inr, refl, ap, ◌∙◌, some, List, [], ◌∷◌,
  ◌++◌, arith, ◌==◌, length, get_elem?, Bool-cases,
}
use uw_cse451_operating_syst.User.{gets, gets_loop}

-- A line of the input.
pub record Line (room : ℕ) (input line left : List ℕ) : Type 0 where
  pub split : input ≡ line ++ left
  pub fits : length line ≤ room
  pub inside :
      (m : ℕ) (c : ℕ) → suc m < length line → get_elem? line m ≡ some c → (c ≢ 10) × (c ≢ 13)
  pub full_or_end :
      (length line ≡ room)
      ⊎ ((left ≡ [])
          ⊎ ((m : ℕ) × (c : ℕ) × (suc m ≡ length line)
              × (get_elem? line m ≡ some c)
              × ((c ≡ 10) ⊎ (c ≡ 13))))

Line-one :
    (room c : ℕ) (input : List ℕ) → (c ≡ 10) ⊎ (c ≡ 13) → Line (suc room) (c ∷ input) (c ∷ []) input
Line-one room c input e = record {
  split = refl;
  fits = omega arith;
  inside = (λ m d l. absurd (omega arith));
  full_or_end = inr (inr (0, c, refl, refl, e));
}

Line-suc :
    (room c : ℕ) (input line left : List ℕ)
    → c ≢ 10
    → c ≢ 13
    → Line room input line left
    → Line (suc room) (c ∷ input) (c ∷ line) left
Line-suc room c input line left a b h = record {
  split = ap (λ z. c ∷ z) h.split;
  fits = let f = h.fits in omega arith;
  inside = inside;
  full_or_end = elim h.full_or_end [
    | inl e ↦ inl (ap (λ n. suc n) e)
    | inr (inl e) ↦ inr (inl e)
    | inr (inr (m, d, e, g, f)) ↦ inr (inr (suc m, d, ap (λ n. suc n) e, g, f))
  ];
}
  where
    inside :
        (m : ℕ) (d : ℕ)
        → suc m < length (c ∷ line)
        → get_elem? (c ∷ line) m ≡ some d
        → (d ≢ 10) × (d ≢ 13)
    inside zero d l g = let e : c ≡ d = cc g in ((λ x. a (e ∙ x)), (λ x. b (e ∙ x)))
    inside (suc m) d l g = h.inside m d (omega arith) g

gets_loop-Line :
    (room : ℕ) (input : List ℕ) → Line room input (gets_loop room input).0 (gets_loop room input).1
unfolding gets_loop
gets_loop-Line zero input = record {
  split = refl;
  fits = omega arith;
  inside = (λ m d l. absurd (omega arith));
  full_or_end = inl refl;
}
gets_loop-Line (suc room) [] = record {
  split = refl;
  fits = omega arith;
  inside = (λ m d l. absurd (omega arith));
  full_or_end = inr (inl refl);
}
gets_loop-Line (suc room) (c ∷ input) = elim (Bool-cases (c == 10 || c == 13)) [
  | inl t ↦ rw t (Line-one room c input (ground arith))
  | inr t ↦
      let a : c ≢ 10 = ground arith in
      let b : c ≢ 13 = ground arith in
      rw t (
        Line-suc room c input (gets_loop room input).0 (gets_loop room input).1 a b
          (gets_loop-Line room input))
]

-- `gets` takes from the front of the input at most `max - 1` bytes, which leaves room for the zero byte:
-- up to the end of a line, the end of the input, or as many as there is room for.
pub gets-Line :
    (max : ℕ) (input : List ℕ) → Line (max - 1) input (gets max input).0 (gets max input).1
unfolding gets
gets-Line max input = gets_loop-Line (max - 1) input

-- ===== src/User/Format.antt =====
-- `printf` of the user programs against `cprintf` of the kernel.
use uw_cse451_operating_syst.Base.{
  ◌/◌, ℕ, zero, suc, ◌-◌, ◌%◌, ◌^◌, ◌≡◌, ◌≢◌, ◌⊎◌, inl, inr, refl, ap, ◌∙◌, Bool, true, false,
  Option, some, List, [], ◌∷◌, ◌++◌, arith, ◌==◌, ltb, get_elem?, Bool-cases,
}
use uw_cse451_operating_syst.Console.{
  put_digits, print_back, int_buffer, digit_char, directive, Directive, decimal, long_mark,
  hexadecimal, text, percent, unknown, Mode, in_text, behind_percent, before, with_arg,
  string_or_null, cprintf, cprintf_from,
}
use uw_cse451_operating_syst.User.{printf, printf_from, printint, printint64}
use uw_cse451_operating_syst.Console as C

put_digits-letter : (rounds x : ℕ) → put_digits rounds 65 10 x ≡ put_digits rounds 97 10 x
unfolding put_digits
put_digits-letter zero x = refl
put_digits-letter (suc rounds) x =
    let small : ltb (x % 10) 10 ≡ true = ground arith in
    rw (small, put_digits-letter rounds (x / 10)) refl

int_buffer-letter :
    (xx : ℕ) (sign : Bool) → int_buffer 32 65 xx 10 sign ≡ int_buffer 32 97 xx 10 sign
unfolding int_buffer
int_buffer-letter xx sign =
    rw (put_digits-letter 64 ((2 ^ 32 - xx) % 2 ^ 32), put_digits-letter 64 xx) refl

printint-decimal : (a : ℕ) → printint a 10 true ≡ C.printint a 10 true
unfolding printint C.printint
printint-decimal a = ap (λ z. print_back z []) (int_buffer-letter (a % 2 ^ 32) true)

-- The format has no `l`, no `x` and no `p`.
abbrev pub IsPlain : List ℕ → Type 0
IsPlain fmt = (m : ℕ) (c : ℕ) → get_elem? fmt m ≡ some c → (c ≢ 108) × (c ≢ 120) × (c ≢ 112)

Directive-cases :
    (c : ℕ)
    → (c ≢ 108) × (c ≢ 120) × (c ≢ 112)
    → (directive c ≡ decimal)
      ⊎ ((directive c ≡ text) ⊎ ((directive c ≡ percent) ⊎ (directive c ≡ unknown)))
unfolding directive
Directive-cases c (a, b, d) = ground arith

with_arg-eq :
    (args : List ℕ) (f g : ℕ → List ℕ) (x y : List ℕ → Option (List ℕ))
    → ((a : ℕ) → f a ≡ g a)
    → ((more : List ℕ) → x more ≡ y more)
    → with_arg args f x ≡ with_arg args g y
with_arg-eq [] f g x y h k = refl
with_arg-eq (a ∷ args) f g x y h k = ap (λ z. before z (x args)) (h a) ∙ ap (before (g a)) (k args)

abbrev mode_of : Bool → Mode
mode_of true = behind_percent false
mode_of false = in_text

printf_from-cprintf_from :
    (string_at : ℕ → List ℕ) (fmt : List ℕ) (b : Bool) (args : List ℕ)
    → IsPlain fmt
    → printf_from string_at fmt (mode_of b) args ≡ cprintf_from string_at fmt (mode_of b) args
unfolding printf_from cprintf_from
printf_from-cprintf_from string_at [] true args p = refl
printf_from-cprintf_from string_at [] false args p = refl
printf_from-cprintf_from string_at (c ∷ cs) false args p = elim (Bool-cases (c == 37)) [
  | inl t ↦
      rw (t, printf_from, cprintf_from)
        (printf_from-cprintf_from string_at cs true args (λ m. p (suc m)))
  | inr t ↦
      rw (t, printf_from, cprintf_from)
        (ap (before (c ∷ [])) (printf_from-cprintf_from string_at cs false args (λ m. p (suc m))))
]
printf_from-cprintf_from string_at (c ∷ cs) true args p =
    let later : (more : List ℕ)
        → printf_from string_at cs in_text more ≡ cprintf_from string_at cs in_text more =
      λ more. printf_from-cprintf_from string_at cs false more (λ m. p (suc m)) in
    elim (Directive-cases c (p 0 c refl)) [
      | inl d ↦ rw (d, printf_from, cprintf_from) (with_arg-eq args _ _ _ _ printint-decimal later)
      | inr (inl d) ↦ rw (d, printf_from, cprintf_from) (with_arg-eq args _ _ _ _ (λ a. refl) later)
      | inr (inr (inl d)) ↦ rw (d, printf_from, cprintf_from) (ap (before (37 ∷ [])) (later args))
      | inr (inr (inr d)) ↦
          rw (d, printf_from, cprintf_from) (ap (before (37 ∷ c ∷ [])) (later args))
    ]

-- For a format without `l`, `x` and `p`, `printf` writes what `cprintf` of the kernel prints.
pub printf-cprintf :
    (string_at : ℕ → List ℕ) (fmt args : List ℕ)
    → IsPlain fmt
    → printf string_at fmt args ≡ cprintf string_at fmt args
unfolding printf cprintf
printf-cprintf string_at fmt args p = printf_from-cprintf_from string_at fmt false args p

printint64-low :
    (x y base : ℕ) (sgn : Bool)
    → x % 2 ^ 32 ≡ y % 2 ^ 32
    → printint64 x base sgn ≡ printint64 y base sgn
unfolding printint64
printint64-low x y base sgn e = rw e refl

-- `printf` prints no more than the low 32 bits of a number, also where the format asks for a long one,
-- in decimal or in hexadecimal.
pub printf-long :
    (string_at : ℕ → List ℕ) (a b : ℕ)
    → a % 2 ^ 32 ≡ b % 2 ^ 32
    → (printf string_at (37 ∷ 108 ∷ 100 ∷ []) (a ∷ [])
        ≡ printf string_at (37 ∷ 108 ∷ 100 ∷ []) (b ∷ []))
      × (printf string_at (37 ∷ 108 ∷ 120 ∷ []) (a ∷ [])
          ≡ printf string_at (37 ∷ 108 ∷ 120 ∷ []) (b ∷ []))
unfolding printf printf_from directive
printf-long string_at a b e = (
  ap (λ z. some (z ++ [])) (printint64-low a b 10 true e),
  ap (λ z. some (z ++ [])) (printint64-low a b 16 false e),
)

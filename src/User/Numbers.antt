-- ===== src/User/Numbers.antt =====
-- `atoi` reads what `printf` prints.
use uw_cse451_operating_syst.Base.{
  ◌/◌, ℕ, zero, suc, ◌+◌, ◌-◌, ◌*◌, ◌%◌, ◌^◌, ◌<◌, ◌≡◌, inl, inr, refl, sym, ap, ◌∙◌, true, false,
  List, [], ◌∷◌, arith, ◌==◌, ltb, leb, ℕ-cases,
}
use native.Mathlib.Nat.{two-pow-succ}
use uw_cse451_operating_syst.Console.{put_digits, print_back, int_buffer, digit_char}
use uw_cse451_operating_syst.User.{atoi, atoi_from, printint, is_digit}

atoi-step :
    (x : ℕ) (later : List ℕ)
    → x < 2 ^ 31
    → atoi_from (x / 10) (digit_char 65 (x % 10) ∷ later) ≡ atoi_from x later
unfolding atoi_from
atoi-step x later l =
    let small : ltb (x % 10) 10 ≡ true = ground arith in
    let d : is_digit (48 + x % 10) ≡ true = ground arith in
    let v : (x / 10 * 10 + (48 + x % 10) + 2 ^ 32 - 48) % 2 ^ 32 ≡ x = omega arith in
    rw (small, d, v) refl

atoi-put_digits :
    (rounds x : ℕ) (later : List ℕ)
    → x < 2 ^ 31
    → x < 2 ^ rounds
    → atoi_from 0 (print_back (put_digits rounds 65 10 x) later) ≡ atoi_from x later
unfolding put_digits print_back
atoi-put_digits zero x later l h = ap (λ z. atoi_from z later) (omega arith)
atoi-put_digits (suc rounds) x later l h = elim (ℕ-cases (x / 10) 0) [
  | inl z ↦
      let t : x / 10 == 0 ≡ true = ground arith in
      rw t (ap (λ y. atoi_from y (digit_char 65 (x % 10) ∷ later)) (sym z) ∙ atoi-step x later l)
  | inr more ↦
      let p = two-pow-succ rounds in
      rw more (
        atoi-put_digits rounds (x / 10) (digit_char 65 (x % 10) ∷ later) (omega arith) (omega arith)
        ∙ atoi-step x later l)
]

-- `atoi` gives back each number that is not negative from what `printint` has written of it.
pub atoi-printint : (x : ℕ) → x < 2 ^ 31 → atoi (printint x 10 true) ≡ x
unfolding atoi printint int_buffer atoi_from
atoi-printint x l =
    let m : x % 2 ^ 32 ≡ x = omega arith in
    let f : leb (2 ^ 31) x ≡ false = ground arith in
    rw (m, f) (atoi-put_digits 64 x [] l (omega arith))

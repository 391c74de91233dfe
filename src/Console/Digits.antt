-- ===== src/Console/Digits.antt =====
-- The digits that `printint` and `printint64` write.
use uw_cse451_operating_syst.Base.{
  ◌/◌, ℕ, zero, suc, ◌+◌, ◌-◌, ◌*◌, ◌%◌, ◌^◌, ◌≤◌, ◌<◌, ◌≡◌, ◌⊎◌, inl, inr, refl, ap, ◌∙◌, Bool,
  true, ◌&&◌, List, [], ◌∷◌, ◌++◌, arith, ◌==◌, ltb, leb, if◌then◌else◌, length, Bool-cases,
  ℕ-cases,
}
use native.Mathlib.Nat.{
  lt_of_mul-lt-mul_left, mul-le-mul_right, mod-add-div, mul-div-le, two-pow-succ, pow-succ',
  pow-zero, mul-one, mod-lt, pow-le-pow_left, div-eq_of_lt,
}
use uw_cse451_operating_syst.Console.{digit_char, put_digits, int_buffer}

-- The value of a digit, with the letters from `letter` on, and of digits, the last one first.
abbrev pub char_digit : (letter c : ℕ) → ℕ
char_digit letter c = if ltb c 58 then c - 48 else c - letter + 10

unfoldable pub number_of : (letter base : ℕ) → List ℕ → ℕ
number_of letter base [] = 0
number_of letter base (c ∷ cs) = char_digit letter c + base * number_of letter base cs

char_digit-digit_char : (letter d : ℕ) → 58 ≤ letter → char_digit letter (digit_char letter d) ≡ d
char_digit-digit_char letter d l = ground arith

half_lt : (b m x : ℕ) → x < b * m → x / b < m
half_lt b m x l = lt_of_mul-lt-mul_left b (let h = mul-div-le x b in omega arith)

twice_le : (b m : ℕ) → 2 ≤ b → 2 * m ≤ b * m
twice_le b m h = mul-le-mul_right m h

-- The digits are those of the number.
pub put_digits-number :
    (rounds letter base x : ℕ)
    → 58 ≤ letter
    → 2 ≤ base
    → x < 2 ^ rounds
    → number_of letter base (put_digits rounds letter base x) ≡ x
unfolding put_digits number_of
put_digits-number zero letter base x h b l = omega arith
put_digits-number (suc rounds) letter base x h b l =
    let d = char_digit-digit_char letter (x % base) h in
    let parts = mod-add-div x base in
    let smaller : x / base < 2 ^ rounds =
      half_lt base (2 ^ rounds) x
        (let t = twice_le base (2 ^ rounds) b in let p = two-pow-succ rounds in omega arith) in
    elim (ℕ-cases (x / base) 0) [
      | inl z ↦
          let t : x / base == 0 ≡ true = ground arith in
          let last : x % base + base * 0 ≡ x = rw z at parts in rw (d, t) last
      | inr more ↦ rw (d, more, put_digits-number rounds letter base (x / base) h b smaller) parts
    ]

-- A number below the power `base ^ digits` has at most so many digits.
length-put_digits :
    (rounds letter base x digits : ℕ)
    → x < base ^ suc digits
    → length (put_digits rounds letter base x) ≤ suc digits
unfolding put_digits
length-put_digits zero letter base x digits l = omega arith
length-put_digits (suc rounds) letter base x zero l =
    let e : base ^ 1 ≡ base =
      pow-succ' base 0 ∙ ap (λ y. base * y) (pow-zero base) ∙ mul-one base in
    let small : x < base = omega arith in
    let z : x / base ≡ 0 = div-eq_of_lt small in
    let t : x / base == 0 ≡ true = ground arith in rw t (omega arith)
length-put_digits (suc rounds) letter base x (suc digits) l = elim (ℕ-cases (x / base) 0) [
  | inl z ↦ let t : x / base == 0 ≡ true = ground arith in rw t (omega arith)
  | inr more ↦
      let smaller : x / base < base ^ suc digits =
        half_lt base (base ^ suc digits) x (rw⁻¹ (pow-succ' base (suc digits)) l) in
      let rest = length-put_digits rounds letter base (x / base) digits smaller in
      rw more (omega arith)
]

length-append_one : (xs : List ℕ) (c : ℕ) → length (xs ++ (c ∷ [])) ≡ length xs + 1
length-append_one [] c = refl
length-append_one (x ∷ xs) c = omega (arith, length-append_one xs c)

length-digits :
    (x base digits : ℕ)
    → (base ≡ 10) ⊎ (base ≡ 16)
    → x < 10 ^ suc digits
    → length (put_digits 64 97 base x) ≤ suc digits
length-digits x base digits (inl e) l = length-put_digits 64 97 base x digits (rw e l)
length-digits x base digits (inr e) l =
    length-put_digits 64 97 base x digits
      (rw e (let p = pow-le-pow_left {n = 10} {m = 16} (omega arith) (suc digits) in omega arith))

length-signed :
    (bits xx base digits : ℕ) (sign : Bool)
    → (base ≡ 10) ⊎ (base ≡ 16)
    → 2 ^ bits ≤ 10 ^ suc digits
    → 0 < 2 ^ bits
    → xx < 2 ^ bits
    → length (int_buffer bits 97 xx base sign) ≤ suc digits + 1
unfolding int_buffer
length-signed bits xx base digits sign b le pos l =
    let low : (2 ^ bits - xx) % 2 ^ bits < 2 ^ bits = mod-lt (2 ^ bits - xx) pos in
    let x = length-digits ((2 ^ bits - xx) % 2 ^ bits) base digits b (omega arith) in
    let y = length-digits xx base digits b (omega arith) in
    let z = length-append_one (put_digits 64 97 base ((2 ^ bits - xx) % 2 ^ bits)) 45 in
    elim (Bool-cases (sign && leb (2 ^ (bits - 1)) xx)) [
      | inl t ↦ rw t (omega arith)
      | inr t ↦ rw t (omega arith)
    ]

-- `printint` never writes behind the 16 characters of its buffer, nor `printint64` behind its 32, for the
-- bases 10 and 16 that `cprintf` asks for, with or without a sign.
pub length-int_buffer :
    (xx base : ℕ) (sign : Bool)
    → (base ≡ 10) ⊎ (base ≡ 16)
    → (xx < 2 ^ 32 → length (int_buffer 32 97 xx base sign) ≤ 16)
      × (xx < 2 ^ 64 → length (int_buffer 64 97 xx base sign) ≤ 32)
length-int_buffer xx base sign b = (
  (λ l. let h = length-signed 32 xx base 9 sign b (omega arith) (omega arith) l in omega arith),
  (λ l. let h = length-signed 64 xx base 19 sign b (omega arith) (omega arith) l in omega arith),
)

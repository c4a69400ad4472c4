-- ===== src/Clock/Digits.antt =====
-- The numbers of two and of four digits in the texts of src/logging.c.
use a_test.Base.{
  ℕ, suc, ◌+◌, ◌/◌, ◌%◌, ◌≤◌, ◌<◌, ◌≡◌, refl, ◌∙◌, true, false, Bool-cases, inl, inr, List, [], ◌∷◌,
  arith, ltb, ltb→lt,
}
use a_test.Clock.{digits_before, decimal, two_wide, four_wide}

below : (n k : ℕ) → n < k → ltb n k ≡ true
below n k h = ground arith

not_below : (n k : ℕ) → k ≤ n → ltb n k ≡ false
not_below n k h = ground arith

digits_last :
    (fuel n : ℕ) (rest : List ℕ) → n < 10 → digits_before (suc fuel) n rest ≡ (48 + n) ∷ rest
unfolding digits_before
digits_last fuel n rest h = let one = below n 10 h in rw one refl

digits_more :
    (fuel n : ℕ) (rest : List ℕ)
    → 10 ≤ n
    → digits_before (suc fuel) n rest ≡ digits_before fuel (n / 10) ((48 + n % 10) ∷ rest)
unfolding digits_before
digits_more fuel n rest h = let more = not_below n 10 h in rw more refl

decimal_one : (n : ℕ) → n < 10 → decimal n ≡ (48 + n) ∷ []
unfolding decimal
decimal_one n h = digits_last 9 n [] h

decimal_two : (n : ℕ) → 10 ≤ n → n < 100 → decimal n ≡ (48 + n / 10) ∷ (48 + n % 10) ∷ []
unfolding decimal
decimal_two n many h =
    digits_more 9 n [] many ∙ digits_last 8 (n / 10) ((48 + n % 10) ∷ []) (omega arith)

-- The digits of a number of four.
abbrev pub four_digits : ℕ → List ℕ
four_digits n = (48 + n / 1000) ∷ (48 + n / 100 % 10) ∷ (48 + n / 10 % 10) ∷ (48 + n % 10) ∷ []

decimal_four : (n : ℕ) → 1000 ≤ n → n < 10000 → decimal n ≡ four_digits n
unfolding decimal
decimal_four n many h =
    let hundreds : n / 10 / 10 ≡ n / 100 = omega arith in
    let thousands : n / 10 / 10 / 10 ≡ n / 1000 = omega arith in
    digits_more 9 n [] (omega arith)
    ∙ digits_more 8 (n / 10) ((48 + n % 10) ∷ []) (omega arith)
    ∙ digits_more 7 (n / 10 / 10) ((48 + n / 10 % 10) ∷ (48 + n % 10) ∷ []) (omega arith)
    ∙ digits_last 6 (n / 10 / 10 / 10) _ (omega arith)
    ∙ rw (thousands, hundreds) refl

pub two_wide_lem : (n : ℕ) → n < 100 → two_wide n ≡ (48 + n / 10) ∷ (48 + n % 10) ∷ []
unfolding two_wide
two_wide_lem n h = elim (Bool-cases (ltb n 10)) [
  | inl one ↦
      let tens : n / 10 ≡ 0 = omega (arith, ltb→lt n 10 one) in
      let ones : n % 10 ≡ n = omega (arith, ltb→lt n 10 one) in
      rw (decimal_one n (ltb→lt n 10 one), tens, ones) refl
  | inr two ↦ rw (decimal_two n (ground arith) h) refl
]

pub four_wide_lem : (n : ℕ) → 1000 ≤ n → n < 10000 → four_wide n ≡ four_digits n
unfolding four_wide
four_wide_lem n many h = rw (decimal_four n many h) refl

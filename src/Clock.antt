-- ===== src/Clock.antt =====
-- `now_time` of src/logging.c: the date and time of day as a text. What localtime answers is an
-- argument; its fields are not negative. A number has at most ten digits, as an int does.
pub mod Digits
pub mod Fields
mod Tests
use a_test.Base.{
  ℕ, zero, suc, ◌+◌, ◌-◌, ◌/◌, ◌%◌, List, [], ◌∷◌, ◌++◌, ltb, if◌then◌else◌, length, replicate,
}

-- struct tm
pub record Tm : Type 0 where
  pub tm_year : ℕ
  pub tm_mon : ℕ
  pub tm_mday : ℕ
  pub tm_hour : ℕ
  pub tm_min : ℕ
  pub tm_sec : ℕ

-- The digits of `n`, at most so many, before `rest`.
unfoldable pub digits_before : ℕ → ℕ → List ℕ → List ℕ
digits_before zero n rest = rest
digits_before (suc fuel) n rest =
    let more = digits_before fuel (n / 10) ((48 + n % 10) ∷ rest) in
    if ltb n 10 then (48 + n) ∷ rest else more

-- %d
unfoldable pub decimal : ℕ → List ℕ
decimal n = digits_before 10 n []

-- The text with the byte `c` before it, up to `width` bytes.
abbrev pub pad : ℕ → ℕ → List ℕ → List ℕ
pad width c text = replicate (width - length text) c ++ text

-- %4d and %02d
unfoldable pub four_wide : ℕ → List ℕ
four_wide n = pad 4 32 (decimal n)

unfoldable pub two_wide : ℕ → List ℕ
two_wide n = pad 2 48 (decimal n)

unfoldable pub now_time : Tm → List ℕ
now_time p =
    four_wide (1900 + p.tm_year)
    ++ (45 ∷ two_wide (1 + p.tm_mon)
        ++ (45 ∷ two_wide p.tm_mday
            ++ (32 ∷ two_wide p.tm_hour ++ (58 ∷ two_wide p.tm_min ++ (58 ∷ two_wide p.tm_sec)))))

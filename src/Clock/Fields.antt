-- ===== src/Clock/Fields.antt =====
-- What can be read back from the texts of `now_time` in src/logging.c.
use a_test.Base.{
  ap, ℕ, ◌+◌, ◌*◌, ◌-◌, ◌/◌, ◌%◌, ◌≤◌, ◌<◌, ◌≡◌, refl, ◌∙◌, List, [], ◌∷◌, ◌++◌, arith, length,
  take, drop,
}
use a_test.Clock.{Tm, now_time}
use a_test.Clock.Digits.{four_digits, two_wide_lem, four_wide_lem}

-- The number that a text of digits stands for, behind the digits of `n`.
abbrev pub number_after : ℕ → List ℕ → ℕ
number_after n [] = n
number_after n (c ∷ text) = number_after (10 * n + (c - 48)) text

-- The number in so many bytes from a place on.
abbrev pub number_at : ℕ → ℕ → List ℕ → ℕ
number_at off width text = number_after 0 (take width (drop off text))

-- The six fields of a text like "2026-11-25 16:54:56".
abbrev pub read_time : List ℕ → Tm
read_time text = record {
  tm_year = number_at 0 4 text - 1900;
  tm_mon = number_at 5 2 text - 1;
  tm_mday = number_at 8 2 text;
  tm_hour = number_at 11 2 text;
  tm_min = number_at 14 2 text;
  tm_sec = number_at 17 2 text;
}

-- The ranges of the fields that localtime gives, in the years from 1900 to 9999.
pub record IsTime (p : Tm) : Type 0 where
  pub year : p.tm_year < 8100
  pub month : p.tm_mon < 12
  pub day : p.tm_mday < 32
  pub hour : p.tm_hour < 24
  pub minute : p.tm_min < 60
  pub second : p.tm_sec ≤ 60

-- The text, digit by digit.
abbrev digits_of : ℕ → List ℕ → List ℕ
digits_of n rest = (48 + n / 10) ∷ (48 + n % 10) ∷ rest

now_time_digits :
    (p : Tm)
    → IsTime p
    → now_time p
      ≡ four_digits (1900 + p.tm_year)
        ++ (45
            ∷ digits_of (1 + p.tm_mon) (
                45
                ∷ digits_of p.tm_mday (
                    32
                    ∷ digits_of p.tm_hour (58 ∷ digits_of p.tm_min (58 ∷ digits_of p.tm_sec [])))))
unfolding now_time
now_time_digits p h =
    let y = four_wide_lem (1900 + p.tm_year) (omega arith) (omega (arith, h.year)) in
    let mo = two_wide_lem (1 + p.tm_mon) (omega (arith, h.month)) in
    let d = two_wide_lem p.tm_mday (omega (arith, h.day)) in
    let ho = two_wide_lem p.tm_hour (omega (arith, h.hour)) in
    let mi = two_wide_lem p.tm_min (omega (arith, h.minute)) in
    let s = two_wide_lem p.tm_sec (omega (arith, h.second)) in rw (y, mo, d, ho, mi, s) refl

Tm-ext :
    (p q : Tm)
    → p.tm_year ≡ q.tm_year
    → p.tm_mon ≡ q.tm_mon
    → p.tm_mday ≡ q.tm_mday
    → p.tm_hour ≡ q.tm_hour
    → p.tm_min ≡ q.tm_min
    → p.tm_sec ≡ q.tm_sec
    → p ≡ q
Tm-ext p q y mo d ho mi s = ground arith

-- For a time with its fields in their ranges, in the years from 1900 to 9999, the text of now_time
-- has 19 bytes, and all six fields can be read back from it.
pub now_time_reads_back :
    (p : Tm) → IsTime p → (length (now_time p) ≡ 19) × (read_time (now_time p) ≡ p)
now_time_reads_back p h =
    let text = now_time_digits p h in
    (
      ap length text,
      ap read_time text
          ∙ Tm-ext _ p (omega (arith, h.year)) (omega (arith, h.month)) (omega arith) (omega arith)
              (omega arith) (omega arith),
    )

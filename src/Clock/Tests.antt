-- ===== src/Clock/Tests.antt =====
-- A date of src/logging.c.
use a_test.Base.{ℕ, ◌≡◌, refl, List, [], ◌∷◌, length, arith}
use a_test.Clock.{Tm, digits_before, decimal, two_wide, four_wide, now_time}
use a_test.Clock.Fields.{read_time, IsTime, now_time_reads_back}

-- 2026-01-05 09:30:07
abbrev morning : Tm
morning = record { tm_year = 126; tm_mon = 0; tm_mday = 5; tm_hour = 9; tm_min = 30; tm_sec = 7 }

abbrev morning_text : List ℕ
morning_text =
    50 ∷ 48 ∷ 50 ∷ 54 ∷ 45 ∷ 48 ∷ 49 ∷ 45 ∷ 48 ∷ 53 ∷ 32 ∷ 48 ∷ 57 ∷ 58 ∷ 51 ∷ 48 ∷ 58 ∷ 48 ∷ 55
    ∷ []

now_time-morning : now_time morning ≡ morning_text
unfolding now_time two_wide four_wide decimal digits_before
now_time-morning = refl

morning-IsTime : IsTime morning
morning-IsTime = record {
  year = omega arith;
  month = omega arith;
  day = omega arith;
  hour = omega arith;
  minute = omega arith;
  second = omega arith;
}

now_time_reads_back_example :
    (length (now_time morning) ≡ 19) × (read_time (now_time morning) ≡ morning)
now_time_reads_back_example = now_time_reads_back morning morning-IsTime

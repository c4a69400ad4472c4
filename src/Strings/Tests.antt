-- ===== src/Strings/Tests.antt =====
-- The string helpers of src/common.c on concrete strings.
use a_test.Base.{ℕ, ◌≡◌, refl, List, [], ◌∷◌}
use a_test.Memory.{Run, ok}
use a_test.Strings.{strlen, copy_down, head_tail_cut_char, cut_char, Timeval, timeval2us}

-- "11" and what is behind it.
abbrev eleven : Run (List ℕ)
eleven = ok (49 ∷ 49 ∷ 0 ∷ 0 ∷ 0 ∷ 0 ∷ 0 ∷ 0 ∷ 0 ∷ 0 ∷ [])

cut_char-eleven : cut_char ≡ eleven
unfolding cut_char head_tail_cut_char strlen copy_down
cut_char-eleven = refl

-- ",1"
abbrev comma_one : List ℕ
comma_one = 44 ∷ 49 ∷ []

abbrev early : Timeval
early = record { tv_sec = 7; tv_usec = 999999 }

abbrev later : Timeval
later = record { tv_sec = 9; tv_usec = 1 }

timeval2us-later : timeval2us early later ≡ 1000002
unfolding timeval2us
timeval2us-later = refl

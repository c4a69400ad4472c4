-- ===== src/Strings/Cut.antt =====
-- What the helpers of src/common.c make of a string.
use a_test.Base.{ℕ, ◌+◌, ◌*◌, ◌%◌, ◌^◌, ◌<◌, ◌≡◌, List, [], ◌∷◌, arith, ◌==◌, if◌then◌else◌}
use a_test.Memory.{Run, ◌>>=◌}
use a_test.Exchange.{Text}
use a_test.Strings.{strlen, cut_tail, Timeval, timeval2us}

-- The seconds are counted in microseconds, at most 2 ^ 63 of them.
pub timeval2us_lem :
    (b e : Timeval) (d : ℕ)
    → b.tv_sec * 1000000 + b.tv_usec + d ≡ e.tv_sec * 1000000 + e.tv_usec
    → b.tv_sec < 2 ^ 63
    → b.tv_usec < 2 ^ 63
    → timeval2us b e ≡ d % 2 ^ 32
unfolding timeval2us
timeval2us_lem b e d h s u = omega (arith, h)

-- A text without the first byte, and without the last one, where that is `ch`.
abbrev pub without_first : ℕ → Text → Text
without_first ch [] = []
without_first ch (b ∷ bs) = if b == ch then bs else b ∷ bs

abbrev pub without_last : ℕ → Text → Text
without_last ch [] = []
without_last ch (b ∷ []) = if b == ch then [] else b ∷ []
without_last ch (b ∷ c ∷ bs) = b ∷ without_last ch (c ∷ bs)

-- From the second call of strlen on.
abbrev tail_cut : List ℕ → ℕ → Run (List ℕ)
tail_cut str ch = strlen str >>= λ len. cut_tail len str ch

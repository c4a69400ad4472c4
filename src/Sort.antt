-- ===== src/Sort.antt =====
-- The bubble sort `sort_arr` of src/common.c, for an array of any length and contents; the source
-- has five elements. An `int` here is not negative.
pub mod Laws
mod Tests
use a_test.Base.{ℕ, zero, suc, ◌+◌, ◌-◌, Bool, List, [], ◌∷◌, ltb, if◌then◌else◌, length}

-- for (j = 1; j < n - i; j++), with `k` comparisons left; the list starts at arr[j - 1].
unfoldable pub sweep : ℕ → List ℕ → List ℕ
sweep zero arr = arr
sweep (suc k) [] = []
sweep (suc k) (x ∷ []) = x ∷ []
sweep (suc k) (x ∷ y ∷ arr) =
    (if ltb y x then y else x) ∷ sweep k ((if ltb y x then x else y) ∷ arr)

-- for (i = 0; i < n - 1; i++), with `m` rounds left, the first of them of `m` comparisons.
unfoldable pub rounds : ℕ → List ℕ → List ℕ
rounds zero arr = arr
rounds (suc m) arr = rounds m (sweep (suc m) arr)

unfoldable pub sort_arr : List ℕ → List ℕ
sort_arr arr = rounds (length arr - 1) arr

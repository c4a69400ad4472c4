-- ===== src/Sort/Tests.antt =====
-- The array of `sort_arr` in src/common.c.
use a_test.Base.{ℕ, ◌≡◌, refl, List, [], ◌∷◌}
use a_test.Sort.{sweep, rounds, sort_arr}
use a_test.Sort.Laws.{IsSorted, count, sort_arr-IsSorted}

abbrev arr : List ℕ
arr = 5 ∷ 3 ∷ 4 ∷ 1 ∷ 2 ∷ []

sort_arr-IsSorted_example :
    IsSorted (sort_arr arr) × ((v : ℕ) → count v (sort_arr arr) ≡ count v arr)
sort_arr-IsSorted_example = sort_arr-IsSorted arr

sorts : sort_arr arr ≡ 1 ∷ 2 ∷ 3 ∷ 4 ∷ 5 ∷ []
unfolding sort_arr rounds sweep
sorts = refl

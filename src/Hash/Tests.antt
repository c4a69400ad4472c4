-- ===== src/Hash/Tests.antt =====
-- The string hashes of src/c_STL.c on concrete strings.
use a_test.Base.{ℕ, ◌≡◌, refl, List, [], ◌∷◌}
use a_test.Hash.{js_loop, js_hash}
use a_test.Hash.Laws.{}

-- "abc"
abbrev abc : List ℕ
abc = 97 ∷ 98 ∷ 99 ∷ []

js_hash-empty : js_hash [] ≡ 1315423911
unfolding js_hash js_loop
js_hash-empty = refl

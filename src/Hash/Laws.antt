-- ===== src/Hash/Laws.antt =====
-- Laws of the string hashes of src/c_STL.c.
use a_test.Base.{ℕ, ◌+◌, ◌*◌, ◌%◌, ◌^◌, ◌<◌, ◌≡◌, refl, ap, ◌∙◌, List, [], ◌∷◌, ◌++◌, arith, All}
use a_test.Words.{add32, sub32}
use a_test.Hash.{char32, shl32, harsh_loop, harsh_table_harsh_string, bkdr_loop, bkdr_hash}

-- The polynomial with base 31, over all numbers.
abbrev pub poly31 : ℕ → List ℕ → ℕ
poly31 value [] = value
poly31 value (c ∷ cs) = poly31 (31 * value + c) cs

poly31_mod :
    (cs : List ℕ) (a b : ℕ) → a % 2 ^ 32 ≡ b % 2 ^ 32 → poly31 a cs % 2 ^ 32 ≡ poly31 b cs % 2 ^ 32
poly31_mod [] a b h = h
poly31_mod (c ∷ cs) a b h = poly31_mod cs (31 * a + c) (31 * b + c) (omega arith)

harsh_loop_lem :
    (cs : List ℕ) (value : ℕ) → value < 2 ^ 32 → harsh_loop value cs ≡ poly31 value cs % 2 ^ 32
unfolding harsh_loop
harsh_loop_lem [] value h = omega arith
harsh_loop_lem (c ∷ cs) value h =
    harsh_loop_lem cs (add32 (sub32 (shl32 value 5) value) c) (omega arith)
    ∙ poly31_mod cs _ (31 * value + c) (omega arith)

-- On a string of bytes the shifts and the subtraction compute the polynomial with base 31 in the
-- string's bytes, the first one its leading coefficient, modulo 2 ^ 32.
pub harsh-poly31 :
    (key : List ℕ) → All (λ c. c < 256) key → harsh_table_harsh_string key ≡ poly31 0 key % 2 ^ 32
unfolding harsh_table_harsh_string
harsh-poly31 [] h = refl
harsh-poly31 (c ∷ cs) h =
    harsh_loop_lem cs c (omega (arith, h.0)) ∙ poly31_mod cs c (31 * 0 + c) (omega arith)

bkdr_stops :
    (xs ys zs : List ℕ) (hash : ℕ) → bkdr_loop hash (xs ++ 10 ∷ ys) ≡ bkdr_loop hash (xs ++ 10 ∷ zs)
unfolding bkdr_loop
bkdr_stops [] ys zs hash = refl
bkdr_stops (x ∷ xs) ys zs hash = rw (bkdr_stops xs ys zs (add32 (hash * 131 % 2 ^ 32) (char32 x)))

-- The hash is not negative as an `int`, and what stands behind the first line does not count.
pub bkdr_hash_lem :
    (xs ys zs : List ℕ)
    → (bkdr_hash (xs ++ 10 ∷ ys) < 2 ^ 31) × (bkdr_hash (xs ++ 10 ∷ ys) ≡ bkdr_hash (xs ++ 10 ∷ zs))
unfolding bkdr_hash
bkdr_hash_lem xs ys zs = (omega arith, ap (λ (h : ℕ). h % 2 ^ 31) (bkdr_stops xs ys zs 0))

-- ===== src/Hash.antt =====
-- The three string hashes of src/c_STL.c that its hash table does not use. A string is its bytes
-- without the terminating 0; `char` is signed, so a byte of 128 or more is below 0 where the code
-- reads it as `char`, and wraps when it is added to an unsigned number.
pub mod Laws
mod Tests
use Prim.Native.Nat.{bit_xor}
use a_test.Base.{
  ℕ, zero, suc, ◌+◌, ◌-◌, ◌*◌, ◌/◌, ◌%◌, ◌^◌, Bool, true, false, List, [], ◌∷◌, ◌==◌, ltb, ◌||◌,
  if◌then◌else◌,
}
use a_test.Words.{add32, sub32}

-- A `char` as a 32-bit unsigned number.
abbrev pub char32 : ℕ → ℕ
char32 c = if ltb c 128 then c else c + (2 ^ 32 - 256)

abbrev pub shl32 : ℕ → ℕ → ℕ
shl32 x k = x * 2 ^ k % 2 ^ 32

-- The loop's body: hash ^= (hash << 5) + *key + (hash >> 2)
unfoldable pub js_step : ℕ → ℕ → ℕ
js_step hash c = bit_xor hash (add32 (add32 (shl32 hash 5) (char32 c)) (hash / 2 ^ 2))

unfoldable pub js_loop : ℕ → List ℕ → ℕ
unfolding js_step
js_loop hash [] = hash
js_loop hash (c ∷ cs) = js_loop (js_step hash c) cs

-- `key` holds the `key_len` bytes.
unfoldable pub js_hash : List ℕ → ℕ
unfolding js_loop
js_hash key = js_loop 1315423911 key

-- for (p += 1; *p != '\0'; p++), over unsigned bytes
unfoldable pub harsh_loop : ℕ → List ℕ → ℕ
harsh_loop value [] = value
harsh_loop value (c ∷ cs) = harsh_loop (add32 (sub32 (shl32 value 5) value) c) cs

-- The test of the first byte only asks whether the string is empty.
unfoldable pub harsh_table_harsh_string : List ℕ → ℕ
unfolding harsh_loop
harsh_table_harsh_string [] = 0
harsh_table_harsh_string (c ∷ cs) = harsh_loop c cs

-- while (*key != '\n' && *key != 0)
unfoldable pub bkdr_loop : ℕ → List ℕ → ℕ
bkdr_loop hash [] = hash
bkdr_loop hash (c ∷ cs) =
    let rest = bkdr_loop (add32 (hash * 131 % 2 ^ 32) (char32 c)) cs in
    if c == 10 || c == 0 then hash else rest

-- hash & 0x7FFFFFFF
unfoldable pub bkdr_hash : List ℕ → ℕ
unfolding bkdr_loop
bkdr_hash key = bkdr_loop 0 key % 2 ^ 31

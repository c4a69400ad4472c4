-- ===== src/HashTable.antt =====
-- The chained hash table of src/c_STL.c. A chain of `HashNode`s is the list of its keys and values;
-- the nodes belong to the table alone, so that a list stands for the links, and allocation does
-- not fail. A key is its bytes without the terminating 0, of which none is 0.
pub mod Chains
pub mod Lookup
pub mod Listing
pub mod Home
pub mod Index
pub mod Stacks
mod Tests
use a_test.Base.{
  ℕ, zero, suc, ◌+◌, ◌-◌, ◌*◌, ◌%◌, ◌^◌, Bool, true, false, List, [], ◌∷◌, Option, none, some, ◌==◌,
  ltb, ◌&&◌, if◌then◌else◌, get_or, set, replicate,
}

abbrev pub max_table_size : ℕ
max_table_size = 100

abbrev pub Key : Type 0
Key = List ℕ

abbrev pub Chain : Type 0
Chain = List (Key × ℕ)

-- currentIndex is an int, here its 32 bits.
pub record HashTable : Type 0 where
  pub hash_node : List Chain
  pub current_index : ℕ

-- strcmp(a, b) == 0
unfoldable pub same_key : Key → Key → Bool
same_key [] [] = true
same_key [] (b ∷ bs) = false
same_key (a ∷ as₀) [] = false
same_key (a ∷ as₀) (b ∷ bs) = a == b && same_key as₀ bs

unfoldable pub init_hash_table : HashTable
init_hash_table = record { hash_node = replicate max_table_size []; current_index = 0 }

-- A `char` as an unsigned long: a byte of 128 or more is below 0 and wraps.
abbrev pub char64 : ℕ → ℕ
char64 c = if ltb c 128 then c else c + (2 ^ 64 - 256)

unfoldable pub hash_loop : ℕ → Key → ℕ
hash_loop hash [] = hash
hash_loop hash (c ∷ cs) = hash_loop ((hash * 33 + char64 c) % 2 ^ 64) cs

unfoldable pub hash_fun : Key → ℕ
unfolding hash_loop
hash_fun key = hash_loop 0 key

unfoldable pub pos : Key → ℕ
unfolding hash_fun
pos key = hash_fun key % max_table_size

-- The chain after `Insert`: a new node goes behind the first one, whose key alone is compared.
unfoldable pub insert_chain : Key → ℕ → Chain → Chain
insert_chain key value [] = (key, value) ∷ []
insert_chain key value ((k, v) ∷ q) =
    if same_key k key then (k, value) ∷ q else (k, v) ∷ (key, value) ∷ q

abbrev pub is_null : Chain → Bool
is_null [] = true
is_null (e ∷ c) = false

unfoldable pub insert : HashTable → Key → ℕ → HashTable
insert t key value =
    let p = get_or t.hash_node (pos key) [] in
    record {
      hash_node = set t.hash_node (pos key) (insert_chain key value p);
      current_index = if is_null p then (t.current_index + 1) % 2 ^ 32 else t.current_index;
    }

-- The value that the returned pointer points to.
unfoldable pub get_chain : Key → Chain → Option ℕ
get_chain key [] = none
get_chain key ((k, v) ∷ q) = if same_key k key then some v else get_chain key q

unfoldable pub get : HashTable → Key → Option ℕ
get t key = get_chain key (get_or t.hash_node (pos key) [])

-- The chain without the first node of the key, and whether there was one.
unfoldable pub drop_chain : Key → Chain → Chain × Bool
drop_chain key [] = ([], false)
drop_chain key ((k, v) ∷ q) =
    let rest = drop_chain key q in if same_key k key then (q, true) else ((k, v) ∷ rest.0, rest.1)

-- The function `Dorp`.
unfoldable pub dorp : HashTable → Key → HashTable × Bool
dorp t key =
    let r = drop_chain key (get_or t.hash_node (pos key) []) in
    (record t { hash_node = set t.hash_node (pos key) r.0 }, r.1)

-- What PrintHashTable shows of the chains from the index `i` on: the indices of the chains that are
-- not empty, with the chains.
unfoldable pub print_chains : ℕ → List Chain → List (ℕ × Chain)
print_chains i [] = []
print_chains i ([] ∷ cs) = print_chains (suc i) cs
print_chains i ((e ∷ c) ∷ cs) = (i, e ∷ c) ∷ print_chains (suc i) cs

unfoldable pub print_hash_table : HashTable → List (ℕ × Chain)
print_hash_table t = print_chains 0 t.hash_node

-- The nodes that clearHashTable frees, in order; the table keeps its pointers to them.
unfoldable pub free_chain : Chain → Chain → Chain
free_chain [] rest = rest
free_chain (e ∷ c) rest = e ∷ free_chain c rest

unfoldable pub free_chains : List Chain → Chain
free_chains [] = []
free_chains (c ∷ cs) = free_chain c (free_chains cs)

unfoldable pub clear_hash_table : HashTable → Chain
clear_hash_table t = free_chains t.hash_node

-- "1234", "11234" and "hello"
abbrev pub key_1234 : Key
key_1234 = 49 ∷ 50 ∷ 51 ∷ 52 ∷ []

abbrev pub key_11234 : Key
key_11234 = 49 ∷ 49 ∷ 50 ∷ 51 ∷ 52 ∷ []

abbrev pub key_hello : Key
key_hello = 104 ∷ 101 ∷ 108 ∷ 108 ∷ 111 ∷ []

-- What the two prints show, and the nodes that are freed.
unfoldable pub main_hash2 : List (ℕ × Chain) × List (ℕ × Chain) × Chain
main_hash2 =
    let table = insert (insert (insert init_hash_table key_1234 1) key_11234 1) key_hello 2 in
    let dropped = dorp table key_hello in
    (print_hash_table table, print_hash_table dropped.0, clear_hash_table dropped.0)

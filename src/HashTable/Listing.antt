-- ===== src/HashTable/Listing.antt =====
-- What PrintHashTable and clearHashTable of src/c_STL.c go through.
use a_test.Base.{
  ap, ℕ, zero, suc, ◌+◌, ◌<◌, ◌≡◌, refl, sym, ◌∙◌, true, false, List, [], ◌∷◌, arith, ◌==◌, get_or,
  if◌then◌else◌,
}
use a_test.HashTable.{
  Key, Chain, HashTable, pos, get, get_chain, print_chains, print_hash_table, free_chain,
  free_chains, clear_hash_table,
}

-- The chain that was shown at an index; none is an empty one.
abbrev pub shown_at : ℕ → List (ℕ × Chain) → Chain
shown_at k [] = []
shown_at k ((i, c) ∷ shown) = let rest = shown_at k shown in if i == k then c else rest

-- The nodes that were shown.
abbrev pub shown_nodes : List (ℕ × Chain) → Chain
shown_nodes [] = []
shown_nodes ((i, c) ∷ shown) = free_chain c (shown_nodes shown)

shown_below : (k i : ℕ) (cs : List Chain) → k < i → shown_at k (print_chains i cs) ≡ []
unfolding print_chains
shown_below k i [] lt = refl
shown_below k i ([] ∷ cs) lt = shown_below k (suc i) cs (omega arith)
shown_below k i ((e ∷ c) ∷ cs) lt =
    let other : (i == k) ≡ false = ground arith in rw other (shown_below k (suc i) cs (omega arith))

shown_chain : (i j : ℕ) (cs : List Chain) → shown_at (i + j) (print_chains i cs) ≡ get_or cs j []
unfolding print_chains
shown_chain i j [] = refl
shown_chain i zero ([] ∷ cs) = shown_below (i + 0) (suc i) cs (omega arith)
shown_chain i zero ((e ∷ c) ∷ cs) = let own : (i == i + 0) ≡ true = ground arith in rw own refl
shown_chain i (suc j) ([] ∷ cs) =
    let k : i + suc j ≡ suc i + j = omega arith in rw k (shown_chain (suc i) j cs)
shown_chain i (suc j) ((e ∷ c) ∷ cs) =
    let k : i + suc j ≡ suc i + j = omega arith in
    let other : (i == i + suc j) ≡ false = ground arith in
    rw other (ap (λ n. shown_at n (print_chains (suc i) cs)) k ∙ shown_chain (suc i) j cs)

shown_all : (i : ℕ) (cs : List Chain) → shown_nodes (print_chains i cs) ≡ free_chains cs
unfolding print_chains free_chains free_chain
shown_all i [] = refl
shown_all i ([] ∷ cs) = shown_all (suc i) cs
shown_all i ((e ∷ c) ∷ cs) = ap (λ r. e ∷ free_chain c r) (shown_all (suc i) cs)

-- In any table, Get finds under a key what stands under it in the chain that PrintHashTable shows at
-- the key's index, and clearHashTable frees exactly the nodes that PrintHashTable shows, each once
-- and in the same order.
pub listing_lem :
    (t : HashTable) (key : Key)
    → (get t key ≡ get_chain key (shown_at (pos key) (print_hash_table t)))
      × (clear_hash_table t ≡ shown_nodes (print_hash_table t))
unfolding get print_hash_table clear_hash_table
listing_lem t key =
    let z : 0 + pos key ≡ pos key = omega arith in
    (
      ap (get_chain key) (
          sym (shown_chain 0 (pos key) t.hash_node)
          ∙ ap (λ k. shown_at k (print_chains 0 t.hash_node)) z),
      sym (shown_all 0 t.hash_node),
    )

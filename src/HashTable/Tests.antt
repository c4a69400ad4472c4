-- ===== src/HashTable/Tests.antt =====
-- Runs of the hash table of src/c_STL.c on concrete keys. The keys "ab" and "bA" have one hash.
use a_test.Base.{List, ◌≡◌, ◌≢◌, refl, [], ◌∷◌, some, none, arith}
use a_test.HashTable.{
  print_chains, print_hash_table, free_chain, free_chains, clear_hash_table, main_hash2, Key,
  HashTable, same_key, init_hash_table, pos, hash_fun, hash_loop, insert_chain, insert, get_chain,
  get, drop_chain, dorp,
}
use a_test.HashTable.Chains.{}
use a_test.HashTable.Listing.{shown_nodes}
use a_test.HashTable.Index.{
  Change, inserts, dorps, change_all, emptied, IsIndexed, hash_table-IsIndexed,
}
use a_test.HashTable.Stacks.{stack, values_of, top, some_value, ActsAll, hash_table-ActsAll}
use a_test.HashTable.Lookup.{IsTable, insert_all, latest, get-insert_all_init}

abbrev ab : Key
ab = 97 ∷ 98 ∷ []

abbrev ba : Key
ba = 98 ∷ 65 ∷ []

same_pos : pos ab ≡ pos ba
unfolding pos hash_fun hash_loop
same_pos = refl

abbrev table : HashTable
table = insert init_hash_table ab 1

table-IsTable : IsTable table
unfolding insert init_hash_table pos hash_fun hash_loop insert_chain
table-IsTable = refl

ab-ne-ba : ab ≢ ba
ab-ne-ba h = ground (arith, h)

get-insert_all_init_example :
    get (insert_all init_hash_table ((ab, 1) ∷ (ba, 2) ∷ (ab, 3) ∷ [])) ab
    ≡ latest none ((ab, 1) ∷ (ba, 2) ∷ (ab, 3) ∷ []) ab
get-insert_all_init_example = get-insert_all_init ((ab, 1) ∷ (ba, 2) ∷ (ab, 3) ∷ []) ab

finds : get (dorp (insert (insert table ab 5) ba 2) ab).0 ba ≡ some 2
unfolding get get_chain dorp drop_chain same_key insert init_hash_table pos hash_fun hash_loop
    insert_chain
finds = refl

-- The nodes of the second print are freed.
main_hash2_frees_shown : main_hash2.2 ≡ shown_nodes main_hash2.1
unfolding main_hash2 clear_hash_table print_hash_table free_chains free_chain print_chains insert
    init_hash_table pos hash_fun hash_loop insert_chain dorp drop_chain same_key
main_hash2_frees_shown = refl

-- A key is inserted, a second one behind it in the same chain, and both are removed.
abbrev busy : List Change
busy = inserts ab 1 ∷ inserts ba 2 ∷ dorps ab ∷ dorps ba ∷ []

hash_table-IsIndexed_example :
    IsIndexed (emptied init_hash_table busy) (change_all init_hash_table busy)
hash_table-IsIndexed_example = hash_table-IsIndexed busy (omega arith)

hash_table-ActsAll_example :
    (stack init_hash_table ba ≡ [])
    × ActsAll (stack init_hash_table) busy (stack (change_all init_hash_table busy))
    × (get (change_all init_hash_table busy) ba ≡ top (stack (change_all init_hash_table busy) ba))
    × ((dorp (change_all init_hash_table busy) ba).1
        ≡ some_value (stack (change_all init_hash_table busy) ba))
hash_table-ActsAll_example = hash_table-ActsAll busy ba

-- A second value of "bA" lies above the first one, since "ab" comes before both in their chain.
two_values : stack (insert (insert table ba 2) ba 3) ba ≡ 3 ∷ 2 ∷ []
unfolding stack values_of same_key insert init_hash_table pos hash_fun hash_loop insert_chain
two_values = refl

-- ===== src/HashTable/Index.antt =====
-- Where the nodes of the table of src/c_STL.c stand, and what its currentIndex counts.
use a_test.Base.{
  subst, ◌-◌, ◌%◌, ◌^◌, if◌then◌else◌, ◌∙◌, refl, ℕ, ◌+◌, ◌<◌, ◌≤◌, ◌≡◌, List, [], ◌∷◌, arith,
  get_or, length, length-replicate,
}
use a_test.HashTable.{
  Key, Chain, HashTable, is_null, pos, insert_chain, insert, drop_chain, dorp, init_hash_table,
}
use a_test.HashTable.Lookup.{IsTable, pos-IsBounded, insert-IsTable, dorp-IsTable}
use a_test.HashTable.Home.{
  AtHome, weight, used, get-AtHome, set-AtHome, used-set, insert_chain-All, drop_chain-All,
  replicate-AtHome, used-replicate, weight-insert, counted_insert, weight-drop,
}

-- A call that changes the table.
pub data Change : Type 0 where
  inserts : Key → ℕ → Change
  dorps : Key → Change

unfoldable pub change : HashTable → Change → HashTable
change t (inserts key value) = insert t key value
change t (dorps key) = (dorp t key).0

-- Whether the call makes a chain empty that was not.
unfoldable pub empties : HashTable → Change → ℕ
empties t (inserts key value) = 0
empties t (dorps key) =
    let c = get_or t.hash_node (pos key) [] in weight c - weight (drop_chain key c).0

unfoldable pub change_all : HashTable → List Change → HashTable
change_all t [] = t
change_all t (x ∷ xs) = change_all (change t x) xs

unfoldable pub emptied : HashTable → List Change → ℕ
emptied t [] = 0
emptied t (x ∷ xs) = empties t x + emptied (change t x) xs

-- The table has its hundred chains with every node in the chain of its key, and currentIndex counts
-- the chains in use and `n` more.
pub record IsIndexed (n : ℕ) (t : HashTable) : Type 0 where
  pub whole : IsTable t
  pub home : AtHome 0 t.hash_node
  pub counted : t.current_index ≡ used t.hash_node + n

-- No int overflows in one more call.
abbrev pub HasRoom : HashTable → Type 0
HasRoom t = t.current_index + 1 < 2 ^ 31

index_next :
    (c : Chain) (index : ℕ)
    → index + 1 < 2 ^ 31
    → (if is_null c then (index + 1) % 2 ^ 32 else index) ≡ (if is_null c then index + 1 else index)
index_next [] index room = omega (arith, room)
index_next (e ∷ c) index room = refl

index_most :
    (c : Chain) (index : ℕ)
    → index + 1 < 2 ^ 31
    → (if is_null c then (index + 1) % 2 ^ 32 else index) ≤ index + 1
index_most [] index room = omega (arith, room)
index_most (e ∷ c) index room = omega arith

insert-IsIndexed :
    (t : HashTable) (key : Key) (value n : ℕ)
    → HasRoom t
    → IsIndexed n t
    → IsIndexed n (insert t key value)
unfolding insert
insert-IsIndexed t key value n room h =
    let c = get_or t.hash_node (pos key) [] in
    let lt : pos key < length t.hash_node = omega (arith, pos-IsBounded key, h.whole) in
    record {
      whole = insert-IsTable t key value h.whole;
      home =
          set-AtHome 0 (pos key) (pos key) t.hash_node (insert_chain key value c) h.home
            (omega arith)
            (insert_chain-All key value c
              (get-AtHome 0 (pos key) (pos key) t.hash_node h.home (omega arith)));
      counted =
          index_next c t.current_index room
          ∙ counted_insert c t.current_index (used t.hash_node) n _ _ h.counted
              (used-set t.hash_node (pos key) (insert_chain key value c) lt)
              (weight-insert key value c);
    }

dorp-IsIndexed :
    (t : HashTable) (key : Key) (n : ℕ)
    → IsIndexed n t
    → IsIndexed (n + empties t (dorps key)) (dorp t key).0
unfolding dorp empties
dorp-IsIndexed t key n h =
    let c = get_or t.hash_node (pos key) [] in
    let lt : pos key < length t.hash_node = omega (arith, pos-IsBounded key, h.whole) in
    record {
      whole = dorp-IsTable t key h.whole;
      home =
          set-AtHome 0 (pos key) (pos key) t.hash_node (drop_chain key c).0 h.home (omega arith) (
            drop_chain-All (pos key) key c
              (get-AtHome 0 (pos key) (pos key) t.hash_node h.home (omega arith)));
      counted = omega (
        arith,
        h.counted,
        used-set t.hash_node (pos key) (drop_chain key c).0 lt,
        weight-drop key c,
      );
    }

change-IsIndexed :
    (t : HashTable) (x : Change) (n : ℕ)
    → HasRoom t
    → IsIndexed n t
    → IsIndexed (n + empties t x) (change t x)
unfolding change empties
change-IsIndexed t (inserts key value) n room h =
    subst (λ k. IsIndexed k (insert t key value)) (omega arith)
      (insert-IsIndexed t key value n room h)
change-IsIndexed t (dorps key) n room h = dorp-IsIndexed t key n h

change_most :
    (t : HashTable) (x : Change) → HasRoom t → (change t x).current_index ≤ t.current_index + 1
unfolding change insert dorp
change_most t (inserts key value) room =
    index_most (get_or t.hash_node (pos key) []) t.current_index room
change_most t (dorps key) room = omega arith

change_all-IsIndexed :
    (t : HashTable) (xs : List Change) (n : ℕ)
    → t.current_index + length xs < 2 ^ 31
    → IsIndexed n t
    → IsIndexed (n + emptied t xs) (change_all t xs)
unfolding change_all emptied
change_all-IsIndexed t [] n room h = subst (λ k. IsIndexed k t) (omega arith) h
change_all-IsIndexed t (x ∷ xs) n room h =
    let one : HasRoom t = omega (arith, room) in
    let most = change_most t x one in
    subst (λ k. IsIndexed k (change_all (change t x) xs)) (omega arith)
      (change_all-IsIndexed (change t x) xs (n + empties t x) (omega (arith, room, most))
        (change-IsIndexed t x n one h))

init-IsIndexed : IsIndexed 0 init_hash_table
unfolding init_hash_table
init-IsIndexed = record {
  whole = length-replicate {A = Chain} 100 [];
  home = replicate-AtHome 0 100;
  counted = omega (arith, used-replicate 100);
}

init-room : (n : ℕ) → n < 2 ^ 31 → init_hash_table.current_index + n < 2 ^ 31
unfolding init_hash_table
init-room n few = omega (arith, few)

-- After InitHashTable and any sequence of fewer than 2^31 `Insert`s and `Dorp`s, the table has its hundred chains,
-- every node stands in the chain of its own key, and currentIndex is the number of chains that are
-- not empty plus the number of calls of `Dorp` that emptied one: `Dorp` never counts down.
pub hash_table-IsIndexed :
    (xs : List Change)
    → length xs < 2 ^ 31
    → IsIndexed (emptied init_hash_table xs) (change_all init_hash_table xs)
hash_table-IsIndexed xs few =
    subst (λ k. IsIndexed k (change_all init_hash_table xs)) (omega arith)
      (change_all-IsIndexed init_hash_table xs 0 (init-room (length xs) few) init-IsIndexed)

-- ===== src/HashTable/Lookup.antt =====
-- What `Get` finds in the table of src/c_STL.c after `Insert` and `Dorp`.
use a_test.Base.{
  ℕ, zero, suc, ◌≤◌, ◌<◌, ◌≡◌, refl, sym, ap, ◌∙◌, ◌≢◌, ◌↔◌, ◌⊎◌, inl, inr, true, Bool-cases, List,
  [], ◌∷◌, Option, none, some, arith, if◌then◌else◌, get_or, set, length, length-set,
  length-replicate, replicate,
}
use a_test.HashTable.{
  Key, Chain, HashTable, max_table_size, same_key, pos, insert_chain, insert, get_chain, get,
  drop_chain, dorp, init_hash_table,
}
use a_test.HashTable.Chains.{
  same_key_iff, same_key_self, same_key_ne, occurrences, get_chain-insert_self, get_chain-insert_ne,
  get_chain-drop_ne, occurrences-get, occurrences-drop, found,
}

-- The table has its one hundred chains.
abbrev pub IsTable : HashTable → Type 0
IsTable t = length t.hash_node ≡ max_table_size

pub same_pos : (a b : Key) → (pos a ≡ pos b) ⊎ (pos a ≢ pos b)
same_pos a b = ground arith

pub pos-IsBounded : (key : Key) → pos key < max_table_size
unfolding pos
pos-IsBounded key = omega arith

module _ {ℓ} {A : Type ℓ} where
  pub get_or-set_self :
      (xs : List A) (i : ℕ) (v d : A) → i < length xs → get_or (set xs i v) i d ≡ v
  get_or-set_self [] i v d h = absurd (omega arith)
  get_or-set_self (x ∷ xs) zero v d h = refl
  get_or-set_self (x ∷ xs) (suc i) v d h = get_or-set_self xs i v d (omega arith)

  pub get_or-set_ne :
      (xs : List A) (i j : ℕ) (v d : A) → i ≢ j → get_or (set xs i v) j d ≡ get_or xs j d
  get_or-set_ne [] i j v d h = refl
  get_or-set_ne (x ∷ xs) zero zero v d h = absurd (h refl)
  get_or-set_ne (x ∷ xs) zero (suc j) v d h = refl
  get_or-set_ne (x ∷ xs) (suc i) zero v d h = refl
  get_or-set_ne (x ∷ xs) (suc i) (suc j) v d h = get_or-set_ne xs i j v d (λ e. h (ap suc e))

-- `Get` after `Insert` finds the value just written under the key, and under any other key what
-- it found before, in a table with its one hundred chains.
pub get-insert :
    (t : HashTable) (key : Key) (value : ℕ) (j : Key)
    → IsTable t
    → get (insert t key value) j ≡ (if same_key key j then some value else get t j)
unfolding get insert
get-insert t key value j ht = elim (Bool-cases (same_key key j)) [
  | inl e ↦ rw (e, sym ((same_key_iff key j).0 e), written) (get_chain-insert_self key value c)
  | inr e ↦
      let ne : key ≢ j = λ d. ground (arith, e, (same_key_iff key j).1 d) in
      elim (same_pos key j) [
        | inl same ↦ rw (e, sym same, written) (get_chain-insert_ne key j value c ne)
        | inr other ↦
            rw (e, get_or-set_ne t.hash_node (pos key) (pos j) (insert_chain key value c) [] other)
      ]
]
  where
    c : Chain
    c = get_or t.hash_node (pos key) []

    written :
        get_or (set t.hash_node (pos key) (insert_chain key value c)) (pos key) []
        ≡ insert_chain key value c
    written = get_or-set_self t.hash_node (pos key) _ [] (omega (arith, pos-IsBounded key, ht))

-- The chain that `Dorp` leaves.
get-dorp_chain :
    (t : HashTable) (key : Key)
    → IsTable t
    → get (dorp t key).0 key ≡ get_chain key (drop_chain key (get_or t.hash_node (pos key) [])).0
unfolding get dorp
get-dorp_chain t key ht = rw (
    get_or-set_self t.hash_node (pos key) (drop_chain key (get_or t.hash_node (pos key) [])).0 []
      (omega (arith, pos-IsBounded key, ht)))

get-dorp_ne : (t : HashTable) (key j : Key) → IsTable t → key ≢ j → get (dorp t key).0 j ≡ get t j
unfolding get dorp
get-dorp_ne t key j ht ne = elim (same_pos key j) [
  | inl same ↦
      rw
        (
          sym same,
          get_or-set_self t.hash_node (pos key) (drop_chain key c).0 []
              (omega (arith, pos-IsBounded key, ht)),
        )
        (get_chain-drop_ne key j c ne)
  | inr other ↦ rw (get_or-set_ne t.hash_node (pos key) (pos j) (drop_chain key c).0 [] other)
]
  where
    c : Chain
    c = get_or t.hash_node (pos key) []

-- In a table with its one hundred chains, `Dorp` returns 1 exactly when `Get` finds the key; it
-- changes what `Get` finds under no other key; and `Get` finds nothing under the key afterwards
-- exactly when at most one node of its chain held it.
pub get-dorp :
    (t : HashTable) (key j : Key)
    → IsTable t
    → (((dorp t key).1 ≡ true) ↔ (get t key ≢ none))
      × ((key ≡ j) ⊎ (get (dorp t key).0 j ≡ get t j))
      × ((get (dorp t key).0 key ≡ none) ↔ (occurrences key (get_or t.hash_node (pos key) []) ≤ 1))
unfolding get dorp
get-dorp t key j ht = (
  ground (arith, found key c, occurrences-get key c),
  elim (Bool-cases (same_key key j)) [
    | inl e ↦ inl ((same_key_iff key j).0 e)
    | inr e ↦ inr (get-dorp_ne t key j ht (λ d. ground (arith, e, (same_key_iff key j).1 d)))
  ],
  ground (
    arith,
    get-dorp_chain t key ht,
    occurrences-drop key c,
    occurrences-get key (drop_chain key c).0,
  ),
)
  where
    c : Chain
    c = get_or t.hash_node (pos key) []

chain-insert :
    (t : HashTable) (key : Key) (v : ℕ)
    → IsTable t
    → get_or (insert t key v).hash_node (pos key) []
      ≡ insert_chain key v (get_or t.hash_node (pos key) [])
unfolding insert
chain-insert t key v ht =
    get_or-set_self t.hash_node (pos key) _ [] (omega (arith, pos-IsBounded key, ht))

pub insert-IsTable : (t : HashTable) (key : Key) (v : ℕ) → IsTable t → IsTable (insert t key v)
unfolding insert
insert-IsTable t key v ht = length-set t.hash_node (pos key) _ ∙ ht

-- `Insert` compares the key with the first node of the chain alone. When another key comes first
-- in a table with its one hundred chains, a second `Insert` of a key adds a second node, so that
-- after `Dorp` the key is still found, with the value that the second `Insert` was to replace.
pub get_stale :
    (t : HashTable) (key : Key) (v w : ℕ) (first : Key) (u : ℕ) (q : Chain)
    → IsTable t
    → get_or t.hash_node (pos key) [] ≡ (first, u) ∷ q
    → first ≢ key
    → get (dorp (insert (insert t key v) key w) key).0 key ≡ some v
unfolding insert_chain drop_chain get_chain
get_stale t key v w first u q ht hc ne =
    rw
      (
        get-dorp_chain (insert (insert t key v) key w) key
            (insert-IsTable (insert t key v) key w (insert-IsTable t key v ht)),
        chain-insert (insert t key v) key w (insert-IsTable t key v ht),
        chain-insert t key v ht,
        hc,
      )
      (ground (arith, same_key_ne first key ne, same_key_self key))

pub dorp-IsTable : (t : HashTable) (key : Key) → IsTable t → IsTable (dorp t key).0
unfolding dorp
dorp-IsTable t key ht = length-set t.hash_node (pos key) _ ∙ ht

pub get_or-replicate : (n i : ℕ) (c : Chain) → get_or (replicate n c) i c ≡ c
get_or-replicate zero i c = refl
get_or-replicate (suc n) zero c = refl
get_or-replicate (suc n) (suc i) c = get_or-replicate n i c

get-init : (key : Key) → get init_hash_table key ≡ none
unfolding get init_hash_table get_chain
get-init key = rw (get_or-replicate 100 (pos key) [])

unfoldable pub insert_all : HashTable → List (Key × ℕ) → HashTable
insert_all t [] = t
insert_all t ((key, value) ∷ kvs) = insert_all (insert t key value) kvs

-- The value of the last entry for the key, or else the one given.
unfoldable pub latest : Option ℕ → List (Key × ℕ) → Key → Option ℕ
latest o [] j = o
latest o ((key, value) ∷ kvs) j = latest (if same_key key j then some value else o) kvs j

get-insert_all :
    (t : HashTable) (kvs : List (Key × ℕ)) (j : Key)
    → IsTable t
    → get (insert_all t kvs) j ≡ latest (get t j) kvs j
unfolding insert_all latest
get-insert_all t [] j ht = refl
get-insert_all t ((key, value) ∷ kvs) j ht =
    get-insert_all (insert t key value) kvs j (insert-IsTable t key value ht)
    ∙ ap (λ o. latest o kvs j) (get-insert t key value j ht)

-- After `InitHashTable` and any sequence of `Insert`s, `Get` finds under every key the value that
-- was inserted last under it, and nothing under a key that was never inserted.
pub get-insert_all_init :
    (kvs : List (Key × ℕ)) (j : Key) → get (insert_all init_hash_table kvs) j ≡ latest none kvs j
unfolding init_hash_table
get-insert_all_init kvs j =
    get-insert_all init_hash_table kvs j (length-replicate {A = Chain} 100 [])
    ∙ ap (λ o. latest o kvs j) (get-init j)

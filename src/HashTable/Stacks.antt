-- ===== src/HashTable/Stacks.antt =====
-- The table of src/c_STL.c as a stack of values under every key.
use a_test.Base.{
  subst, ap, ℕ, ◌≡◌, ◌≢◌, refl, sym, ◌∙◌, ◌⊎◌, inl, inr, Bool, true, false, Bool-cases, List, [],
  ◌∷◌, Option, none, some, arith, if◌then◌else◌, get_or, set, length, drop, length-replicate,
}
use a_test.HashTable.{
  Key, Chain, HashTable, same_key, pos, insert_chain, insert, get_chain, get, drop_chain, dorp,
  init_hash_table,
}
use a_test.HashTable.Chains.{same_key_iff, same_key_self, same_key_ne}
use a_test.HashTable.Lookup.{
  get_or-replicate, same_pos, get_or-set_self, get_or-set_ne, IsTable, pos-IsBounded,
  insert-IsTable, dorp-IsTable,
}
use a_test.HashTable.Index.{Change, inserts, dorps, change, change_all}

-- The values that stand under the key in a chain, the one that `Get` finds first.
unfoldable pub values_of : Key → Chain → List ℕ
values_of j [] = []
values_of j ((k, v) ∷ q) = let rest = values_of j q in if same_key k j then v ∷ rest else rest

abbrev pub top : List ℕ → Option ℕ
top [] = none
top (v ∷ vs) = some v

abbrev pub some_value : List ℕ → Bool
some_value [] = false
some_value (v ∷ vs) = true

get_chain-top : (j : Key) (c : Chain) → get_chain j c ≡ top (values_of j c)
unfolding get_chain values_of
get_chain-top j [] = refl
get_chain-top j ((k, v) ∷ q) = elim (Bool-cases (same_key k j)) [
  | inl e ↦ rw e refl
  | inr e ↦ rw e (get_chain-top j q)
]

-- Two keys that one key is compared with.
differs : (k a b : Key) → a ≢ b → same_key k a ≡ true → same_key k b ≡ false
differs k a b ne e = same_key_ne k b (λ d. ne (sym ((same_key_iff k a).0 e) ∙ d))

insert-values_ne :
    (key j : Key) (v : ℕ) (c : Chain) → key ≢ j → values_of j (insert_chain key v c) ≡ values_of j c
unfolding values_of insert_chain
insert-values_ne key j v [] ne = rw (same_key_ne key j ne) refl
insert-values_ne key j v ((k, u) ∷ q) ne = elim (Bool-cases (same_key k key)) [
  | inl e ↦ rw (e, differs k key j ne e) refl
  | inr e ↦ rw (e, same_key_ne key j ne) refl
]

-- `Insert` puts the value on the stack, or in the place of the top where there is one.
abbrev pub PutOn : ℕ → List ℕ → List ℕ → Type 0
PutOn v old new = (new ≡ v ∷ old) ⊎ ((some_value old ≡ true) × (new ≡ v ∷ drop 1 old))

insert-values_self :
    (key : Key) (v : ℕ) (c : Chain)
    → PutOn v (values_of key c) (values_of key (insert_chain key v c))
unfolding values_of insert_chain
insert-values_self key v [] = inl (rw (same_key_self key) refl)
insert-values_self key v ((k, u) ∷ q) = elim (Bool-cases (same_key k key)) [
  | inl e ↦ inr (rw e refl, rw e (rw e refl))
  | inr e ↦ inl (rw (e, same_key_self key) (rw e refl))
]

drop-values_ne :
    (key j : Key) (c : Chain) → key ≢ j → values_of j (drop_chain key c).0 ≡ values_of j c
unfolding values_of drop_chain
drop-values_ne key j [] ne = refl
drop-values_ne key j ((k, u) ∷ q) ne = elim (Bool-cases (same_key k key)) [
  | inl e ↦ rw (e, differs k key j ne e) refl
  | inr e ↦ rw (e, drop-values_ne key j q ne) refl
]

drop-values_self :
    (key : Key) (c : Chain) → values_of key (drop_chain key c).0 ≡ drop 1 (values_of key c)
unfolding values_of drop_chain
drop-values_self key [] = refl
drop-values_self key ((k, u) ∷ q) = elim (Bool-cases (same_key k key)) [
  | inl e ↦ rw e refl
  | inr e ↦ rw e (rw e (drop-values_self key q))
]

drop-found : (key : Key) (c : Chain) → (drop_chain key c).1 ≡ some_value (values_of key c)
unfolding values_of drop_chain
drop-found key [] = refl
drop-found key ((k, u) ∷ q) = elim (Bool-cases (same_key k key)) [
  | inl e ↦ rw e refl
  | inr e ↦ rw e (drop-found key q)
]

-- The stack under a key in the whole table.
unfoldable pub stack : HashTable → Key → List ℕ
stack t j = values_of j (get_or t.hash_node (pos j) [])

-- A new chain at the place of a key, for the key itself and for another one.
module _ (cs : List Chain) (key : Key) (c : Chain) (whole : length cs ≡ 100) where
  stack-set_self : values_of key (get_or (set cs (pos key) c) (pos key) []) ≡ values_of key c
  stack-set_self =
      ap (values_of key)
        (get_or-set_self cs (pos key) c [] (omega (arith, pos-IsBounded key, whole)))

  stack-set_ne :
      (j : Key)
      → values_of j c ≡ values_of j (get_or cs (pos key) [])
      → values_of j (get_or (set cs (pos key) c) (pos j) []) ≡ values_of j (get_or cs (pos j) [])
  stack-set_ne j same = elim (same_pos key j) [
    | inl e ↦
        ap (λ i. values_of j (get_or (set cs (pos key) c) i [])) (sym e)
        ∙ ap (values_of j)
            (get_or-set_self cs (pos key) c [] (omega (arith, pos-IsBounded key, whole)))
        ∙ same
        ∙ ap (λ i. values_of j (get_or cs i [])) e
    | inr ne ↦ ap (values_of j) (get_or-set_ne cs (pos key) (pos j) c [] ne)
  ]

-- What a call does to the stacks.
pub Acts : (Key → List ℕ) → Change → (Key → List ℕ) → Type 0
Acts old (inserts key v) new = PutOn v (old key) (new key) × ((j : Key) → key ≢ j → new j ≡ old j)
Acts old (dorps key) new = (new key ≡ drop 1 (old key)) × ((j : Key) → key ≢ j → new j ≡ old j)

-- And a sequence of calls.
pub data ActsAll : (Key → List ℕ) → List Change → (Key → List ℕ) → Type 0 where
  unchanged : (st : Key → List ℕ) → ActsAll st [] st
  acts :
      {old mid new : Key → List ℕ} {x : Change} {xs : List Change}
      → Acts old x mid
      → ActsAll mid xs new
      → ActsAll old (x ∷ xs) new

change-Acts : (t : HashTable) (x : Change) → IsTable t → Acts (stack t) x (stack (change t x))
unfolding Acts change stack insert dorp
change-Acts t (inserts key v) whole =
    let c = get_or t.hash_node (pos key) [] in
    (
      subst (PutOn v (values_of key c))
          (sym (stack-set_self t.hash_node key (insert_chain key v c) whole))
          (insert-values_self key v c),
      λ j ne.
          stack-set_ne t.hash_node key (insert_chain key v c) whole j
            (insert-values_ne key j v c ne),
    )
change-Acts t (dorps key) whole =
    let c = get_or t.hash_node (pos key) [] in
    (
      stack-set_self t.hash_node key (drop_chain key c).0 whole ∙ drop-values_self key c,
      λ j ne. stack-set_ne t.hash_node key (drop_chain key c).0 whole j (drop-values_ne key j c ne),
    )

change-IsTable : (t : HashTable) (x : Change) → IsTable t → IsTable (change t x)
unfolding change
change-IsTable t (inserts key v) whole = insert-IsTable t key v whole
change-IsTable t (dorps key) whole = dorp-IsTable t key whole

change_all-ActsAll :
    (t : HashTable) (xs : List Change) → IsTable t → ActsAll (stack t) xs (stack (change_all t xs))
unfolding change_all
change_all-ActsAll t [] whole = unchanged (stack t)
change_all-ActsAll t (x ∷ xs) whole =
    acts (change-Acts t x whole) (change_all-ActsAll (change t x) xs (change-IsTable t x whole))

init-IsTable : IsTable init_hash_table
unfolding init_hash_table
init-IsTable = length-replicate {A = Chain} 100 []

init-stack : (j : Key) → stack init_hash_table j ≡ []
unfolding stack init_hash_table values_of
init-stack j = ap (values_of j) (get_or-replicate 100 (pos j) [])

-- The table refines a stack of values under every key, all empty after InitHashTable: in any
-- sequence of calls, `Insert` puts its value on the stack of its key or in the place of the top,
-- `Dorp` takes the top away, and neither touches another key's stack; then `Get` finds the top, and
-- `Dorp` returns 1 exactly where there is one.
pub hash_table-ActsAll :
    (xs : List Change) (j : Key)
    → (stack init_hash_table j ≡ [])
      × ActsAll (stack init_hash_table) xs (stack (change_all init_hash_table xs))
      × (get (change_all init_hash_table xs) j ≡ top (stack (change_all init_hash_table xs) j))
      × ((dorp (change_all init_hash_table xs) j).1
          ≡ some_value (stack (change_all init_hash_table xs) j))
unfolding stack get dorp
hash_table-ActsAll xs j =
    let chain = get_or (change_all init_hash_table xs).hash_node (pos j) [] in
    (
      init-stack j,
      change_all-ActsAll init_hash_table xs init-IsTable,
      get_chain-top j chain,
      drop-found j chain,
    )

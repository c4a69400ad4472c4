-- ===== src/HashTable/Home.antt =====
-- Which nodes of the table of src/c_STL.c stand in the chain of their key, and how many chains are
-- in use.
use a_test.Base.{
  subst, ℕ, zero, suc, ◌+◌, ◌<◌, ◌≤◌, ◌≡◌, refl, Bool-cases, inl, inr, List, [], ◌∷◌, arith,
  if◌then◌else◌, get_or, set, length, replicate, All,
}
use a_test.HashTable.{Key, Chain, same_key, pos, insert_chain, is_null, drop_chain}
use a_test.HashTable.Lookup.{}

-- The node belongs to the chain with this index.
abbrev pub BelongsTo : ℕ → Key × ℕ → Type 0
BelongsTo i e = pos e.0 ≡ i

-- Every node stands in the chain of its key, where the first chain has the index `i`.
abbrev pub AtHome : ℕ → List Chain → Type 0
AtHome i [] = Unit
AtHome i (c ∷ cs) = All (BelongsTo i) c × AtHome (suc i) cs

abbrev pub weight : Chain → ℕ
weight [] = 0
weight (e ∷ c) = 1

-- How many chains are not empty.
abbrev pub used : List Chain → ℕ
used [] = 0
used (c ∷ cs) = weight c + used cs

pub get-AtHome :
    (i j k : ℕ) (cs : List Chain) → AtHome i cs → i + j ≡ k → All (BelongsTo k) (get_or cs j [])
get-AtHome i j k [] h e = tt
get-AtHome i zero k (c ∷ cs) h e = subst (λ n. All (BelongsTo n) c) (omega arith) h.0
get-AtHome i (suc j) k (c ∷ cs) h e = get-AtHome (suc i) j k cs h.1 (omega arith)

pub set-AtHome :
    (i j k : ℕ) (cs : List Chain) (c : Chain)
    → AtHome i cs
    → i + j ≡ k
    → All (BelongsTo k) c
    → AtHome i (set cs j c)
set-AtHome i j k [] c h e own = tt
set-AtHome i zero k (d ∷ cs) c h e own = (subst (λ n. All (BelongsTo n) c) (omega arith) own, h.1)
set-AtHome i (suc j) k (d ∷ cs) c h e own = (h.0, set-AtHome (suc i) j k cs c h.1 (omega arith) own)

pub used-set :
    (cs : List Chain) (j : ℕ) (c : Chain)
    → j < length cs
    → used (set cs j c) + weight (get_or cs j []) ≡ used cs + weight c
used-set [] j c lt = absurd (omega arith)
used-set (d ∷ cs) zero c lt = omega arith
used-set (d ∷ cs) (suc j) c lt = omega (arith, used-set cs j c (omega arith))

pub insert_chain-All :
    (key : Key) (value : ℕ) (c : Chain)
    → All (BelongsTo (pos key)) c
    → All (BelongsTo (pos key)) (insert_chain key value c)
unfolding insert_chain
insert_chain-All key value [] h = (refl, tt)
insert_chain-All key value ((k, v) ∷ q) h = elim (Bool-cases (same_key k key)) [
  | inl e ↦ rw e (h.0, h.1)
  | inr e ↦ rw e (h.0, (refl, h.1))
]

pub drop_chain-All :
    (i : ℕ) (key : Key) (c : Chain) → All (BelongsTo i) c → All (BelongsTo i) (drop_chain key c).0
unfolding drop_chain
drop_chain-All i key [] h = tt
drop_chain-All i key ((k, v) ∷ q) h = elim (Bool-cases (same_key k key)) [
  | inl e ↦ rw e h.1
  | inr e ↦ rw e (h.0, drop_chain-All i key q h.1)
]

pub replicate-AtHome : (i n : ℕ) → AtHome i (replicate n [])
replicate-AtHome i zero = tt
replicate-AtHome i (suc n) = (tt, replicate-AtHome (suc i) n)

pub used-replicate : (n : ℕ) → used (replicate n []) ≡ 0
used-replicate zero = refl
used-replicate (suc n) = omega (arith, used-replicate n)

pub weight-insert : (key : Key) (value : ℕ) (c : Chain) → weight (insert_chain key value c) ≡ 1
unfolding insert_chain
weight-insert key value [] = refl
weight-insert key value ((k, v) ∷ q) = ground arith

weight_most : (c : Chain) → weight c ≤ 1
weight_most [] = omega arith
weight_most (e ∷ c) = omega arith

pub counted_insert :
    (c : Chain) (index all n after one : ℕ)
    → index ≡ all + n
    → after + weight c ≡ all + one
    → one ≡ 1
    → (if is_null c then index + 1 else index) ≡ after + n
counted_insert [] index all n after one i a o = omega (arith, i, a, o)
counted_insert (e ∷ c) index all n after one i a o = omega (arith, i, a, o)

pub weight-drop : (key : Key) (c : Chain) → weight (drop_chain key c).0 ≤ weight c
unfolding drop_chain
weight-drop key [] = omega arith
weight-drop key ((k, v) ∷ q) = ground (arith, weight_most q)

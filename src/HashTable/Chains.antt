-- ===== src/HashTable/Chains.antt =====
-- One chain of the table of src/c_STL.c under `Insert`, `Get` and `Dorp`.
use a_test.Base.{
  ℕ, suc, ◌-◌, ◌≤◌, ◌≡◌, refl, sym, ◌∙◌, ◌≢◌, ◌↔◌, inl, inr, true, false, Bool-cases, [], ◌∷◌, none,
  some, arith, if◌then◌else◌,
}
use a_test.HashTable.{Key, Chain, same_key, insert_chain, get_chain, drop_chain}

pub same_key_iff : (a b : Key) → (same_key a b ≡ true) ↔ (a ≡ b)
unfolding same_key
same_key_iff [] [] = (λ _. refl, λ _. refl)
same_key_iff [] (b ∷ bs) = ground arith
same_key_iff (a ∷ as₀) [] = ground arith
same_key_iff (a ∷ as₀) (b ∷ bs) = ground (arith, same_key_iff as₀ bs)

pub same_key_self : (a : Key) → same_key a a ≡ true
same_key_self a = (same_key_iff a a).1 refl

pub same_key_ne : (a b : Key) → a ≢ b → same_key a b ≡ false
same_key_ne a b ne = elim (Bool-cases (same_key a b)) [
  | inl e ↦ absurd (ne ((same_key_iff a b).0 e))
  | inr e ↦ e
]

-- How many nodes of the chain hold the key.
unfoldable pub occurrences : Key → Chain → ℕ
occurrences key [] = 0
occurrences key ((k, v) ∷ q) = let n = occurrences key q in if same_key k key then suc n else n

pub get_chain-insert_self :
    (key : Key) (value : ℕ) (c : Chain) → get_chain key (insert_chain key value c) ≡ some value
unfolding get_chain insert_chain
get_chain-insert_self key value [] = rw (same_key_self key)
get_chain-insert_self key value ((k, v) ∷ q) = ground (arith, same_key_self key)

pub get_chain-insert_ne :
    (key j : Key) (value : ℕ) (c : Chain)
    → key ≢ j
    → get_chain j (insert_chain key value c) ≡ get_chain j c
unfolding get_chain insert_chain
get_chain-insert_ne key j value [] ne = rw (same_key_ne key j ne)
get_chain-insert_ne key j value ((k, v) ∷ q) ne = elim (Bool-cases (same_key k key)) [
  | inl e ↦
      let off : same_key k j ≡ false =
        same_key_ne k j (λ d. ne (sym ((same_key_iff k key).0 e) ∙ d)) in
      ground (arith, e, off)
  | inr e ↦ ground (arith, e, same_key_ne key j ne)
]

pub get_chain-drop_ne :
    (key j : Key) (c : Chain) → key ≢ j → get_chain j (drop_chain key c).0 ≡ get_chain j c
unfolding get_chain drop_chain
get_chain-drop_ne key j [] ne = refl
get_chain-drop_ne key j ((k, v) ∷ q) ne = elim (Bool-cases (same_key k key)) [
  | inl e ↦
      let off : same_key k j ≡ false =
        same_key_ne k j (λ d. ne (sym ((same_key_iff k key).0 e) ∙ d)) in
      ground (arith, e, off)
  | inr e ↦ ground (arith, e, get_chain-drop_ne key j q ne)
]

pub occurrences-get : (key : Key) (c : Chain) → (get_chain key c ≡ none) ↔ (occurrences key c ≡ 0)
unfolding get_chain occurrences
occurrences-get key [] = (λ _. refl, λ _. refl)
occurrences-get key ((k, v) ∷ q) = ground (arith, occurrences-get key q)

pub occurrences-drop :
    (key : Key) (c : Chain) → occurrences key (drop_chain key c).0 ≡ occurrences key c - 1
unfolding drop_chain occurrences
occurrences-drop key [] = refl
occurrences-drop key ((k, v) ∷ q) = elim (Bool-cases (same_key k key)) [
  | inl e ↦ ground (arith, e)
  | inr e ↦ ground (arith, e, occurrences-drop key q)
]

pub found : (key : Key) (c : Chain) → ((drop_chain key c).1 ≡ true) ↔ (1 ≤ occurrences key c)
unfolding drop_chain occurrences
found key [] = ground arith
found key ((k, v) ∷ q) = ground (arith, found key q)
